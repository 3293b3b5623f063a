-- ===== src/Channels.antt =====
-- service-channels: channels, their subscribers and their owners.
pub mod Schemas
mod Tables
pub mod Store
pub mod Routes
mod Ownership
mod Transfer
mod Rows
mod Invariant
mod Handlers
mod Server
mod Search
mod Index
mod Indexed
mod Found
mod Listing
mod Listed
mod SearchTests
mod Runs
mod Coherence
mod Cache
mod Fresh
mod History
mod Promises
mod Pages
mod Tests
