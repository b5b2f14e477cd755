-- ===== src/Releases.antt =====
-- The releases of a package: the handlers of crates/api/src/routes/packages.rs that change one, the
-- scan of crates/workers/src/scanners.rs and the deletion of crates/adapters/oci/src/routes.rs.
pub mod Status
pub mod Rows
pub mod Handlers
pub mod Scan
pub mod Consistent
pub mod Lifecycle
pub mod Scanned
pub mod Published
pub mod History
pub mod Effects
pub mod Reading
mod ScanRuns
mod Tests
