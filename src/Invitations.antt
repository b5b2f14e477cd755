-- ===== src/Invitations.antt =====
-- Invitations to an organization: crates/api/src/routes/org_invitations.rs.
pub mod Handlers
pub mod Sound
pub mod Steps
pub mod Created
pub mod History
pub mod Tests
