-- ===== src/Domain.antt =====
-- crates/core/src/domain: the enums of the data model, with their wire names.
pub mod OrgRole
pub mod TeamPermission
pub mod Repository
pub mod Release
pub mod Invitation
pub mod Job
pub mod Ecosystem
mod Tests
