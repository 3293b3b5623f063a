-- ===== src/Routing.antt =====
-- The routes of the services behind the gateway.
pub mod Tables
mod Reach
mod Tests
