-- ===== src/Namespaces.antt =====
-- Claims of namespaces: crates/api/src/routes/namespaces.rs.
pub mod Handlers
pub mod Sound
pub mod History
pub mod Tests
