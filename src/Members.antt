-- ===== src/Members.antt =====
-- The members of an organization: the handlers of crates/api/src/routes/orgs.rs that change
-- `org_memberships`.
pub mod Handlers
pub mod Rows
pub mod Owners
pub mod Removed
pub mod Transfer
mod Tests
