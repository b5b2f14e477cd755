-- ===== src/Releases/Status.antt =====
-- The status tests of crates/api/src/routes/packages.rs.
use publaryn.Prelude.{Bool, true, false, not, if◌then◌else◌}
use publaryn.Error.{Result, ensure, conflict}
use publaryn.Domain.Release.{
  ReleaseStatus, quarantine, scanning, published, deprecated, yanked, deleted,
}

unfoldable pub release_status_after_unyank : Bool → ReleaseStatus
release_status_after_unyank is_deprecated = if is_deprecated then deprecated else published

unfoldable pub release_status_after_undeprecate : Bool → ReleaseStatus
release_status_after_undeprecate is_yanked = if is_yanked then yanked else published

abbrev pub release_status_accepts_artifact_upload : ReleaseStatus → Bool
release_status_accepts_artifact_upload quarantine = true
release_status_accepts_artifact_upload scanning = true
release_status_accepts_artifact_upload _ = false

-- `RELEASE_HISTORY_VISIBLE_STATUSES`.
abbrev pub release_status_allows_direct_read : ReleaseStatus → Bool
release_status_allows_direct_read published = true
release_status_allows_direct_read deprecated = true
release_status_allows_direct_read yanked = true
release_status_allows_direct_read _ = false

abbrev pub release_status_can_be_published : ReleaseStatus → Bool
release_status_can_be_published quarantine = true
release_status_can_be_published scanning = true
release_status_can_be_published published = true
release_status_can_be_published _ = false

abbrev pub is_unreleased : ReleaseStatus → Bool
is_unreleased quarantine = true
is_unreleased scanning = true
is_unreleased deleted = true
is_unreleased _ = false

unfoldable pub ensure_release_allows_status_mutation : ReleaseStatus → Result (Unit {0})
ensure_release_allows_status_mutation status =
    ensure (not (is_unreleased status)) (conflict "Releases in this status cannot be changed")
