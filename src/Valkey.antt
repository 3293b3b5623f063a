-- ===== src/Valkey.antt =====
-- valkey-client: typed values in a Redis server, as JSON.
pub mod Query
pub mod Client
pub mod Structures
mod Keys
mod Caches
mod Refine
mod Tests
