-- ===== src/Teams.antt =====
-- The teams of an organization and what they are granted: crates/api/src/routes/orgs.rs.
pub mod Handlers
pub mod Permissions
pub mod Grants
pub mod Scoped
pub mod Kept
pub mod Owned
pub mod Granted
pub mod History
pub mod Tests
