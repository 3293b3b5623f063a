-- ===== src/Calls.antt =====
-- service-calls: the signalling server of video calls.
pub mod Signal
pub mod Room
pub mod State
pub mod Ws
pub mod Routes
pub mod Server
pub mod Delivery
pub mod Invariant
pub mod Sessions
pub mod Relay
pub mod Idle
pub mod Owner
pub mod Listing
mod Tests
