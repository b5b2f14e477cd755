-- ===== src/Domain/Release.antt =====
-- `ReleaseStatus` of crates/core/src/domain/release.rs.
pub data ReleaseStatus : Type 0 where
  quarantine scanning published deprecated yanked deleted : ReleaseStatus

pub ReleaseStatus-discrete : Discrete ReleaseStatus
ReleaseStatus-discrete = hlevel
