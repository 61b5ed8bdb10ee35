-- ===== src/Frontend/Samples.antt =====
-- The sample data with which the front end runs as a preview, without an API.
pub mod Evidence
pub mod Migrations
pub mod Attempts
pub mod Runs
pub mod Details
