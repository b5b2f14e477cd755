-- ===== src/Access.antt =====
-- crates/api/src/request_auth.rs: who may read and write organizations, repositories, packages and
-- namespace claims.
pub mod Requirements
pub mod Outcomes
pub mod Queries
pub mod Org
pub mod Write
pub mod Read
pub mod Grants
pub mod Rows
pub mod Parts
pub mod Authorized
pub mod Ensured
pub mod Readers
mod Tests
