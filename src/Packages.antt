-- ===== src/Packages.antt =====
-- Packages of crates/api/src/routes/packages.rs: the visibility rules, the owner and the
-- kinds and names of artifacts.
pub mod Visibility
pub mod Artifact
mod Tests
