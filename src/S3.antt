-- ===== src/S3.antt =====
-- s3-client: objects that are sent and fetched in parts.
mod Download
mod Pieces
mod Upload
mod Parts
mod Whole
mod Cleared
mod WholeTests
mod Tests
