-- ===== src/Repositories.antt =====
-- Repositories as resources: crates/api/src/routes/repositories.rs.
pub mod Handlers
pub mod Owned
pub mod Transfer
pub mod History
pub mod Slugs
pub mod Tests
