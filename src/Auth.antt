-- ===== src/Auth.antt =====
-- service-auth: users, passwords, access and refresh tokens, and linked OAuth accounts.
pub mod Error
pub mod Token
pub mod Store
pub mod Service
mod Limit
mod Server
mod Sessions
mod Spent
mod Refresh
pub mod Accounts
mod Profile
mod OAuth
mod Origins
mod OAuthTests
pub mod Tests
