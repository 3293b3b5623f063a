-- ===== src/Images.antt =====
-- service-images: uploads, downloads and deletions over the single calls of s3-client.
pub mod Client
mod Router
mod Lifecycle
mod Tests
