-- ===== src/Cargo.antt =====
-- The Cargo registry protocol of crates/adapters/cargo-registry.
pub mod Publish
pub mod Name
