-- ===== src/Gateway.antt =====
-- service-gateway: what a request passes before it reaches a service.
mod Url
mod Roundtrip
pub mod Proxy
pub mod Identity
mod Body
pub mod Answers
mod Access
mod Callback
mod Redirects
pub mod Upstream
mod Login
mod Limit
mod Window
mod LimitTests
mod Tests
mod AccessTests
