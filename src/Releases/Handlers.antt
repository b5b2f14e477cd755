-- ===== src/Releases/Handlers.antt =====
-- The handlers of crates/api/src/routes/packages.rs that create, yank, deprecate and publish a
-- release. A handler takes the database and the request, and gives an error, which leaves the
-- database as it was, or its reply and the new database.
use Prim.Native.String.{len}
use publaryn.Prelude.{ℕ, String, Bool, not, Option, none, some, ◌∷◌, ◌==◌, ltb, codes, has, length}
use publaryn.Error.{Result, ok, ◌>>=◌, ◌>>◌, ensure, conflict, validation, already_exists}
use publaryn.Query.{exists}
use publaryn.Domain.Ecosystem.{as_str, parse_ecosystem, normalize_package_name}
use publaryn.Domain.Release.{ReleaseStatus, scanning, published}
use publaryn.Db.{Db, Uuid, Release}
use publaryn.Auth.Identity.{AuthenticatedIdentity, ensure_scope, scope_packages_write}
use publaryn.Access.Requirements.{PackageAccessRequirement}
use publaryn.Access.Write.{ensure_package_access_by_requirement}
use publaryn.Releases.Status.{
  release_status_after_unyank, release_status_after_undeprecate, release_status_can_be_published,
  ensure_release_allows_status_mutation,
}
use publaryn.Releases.Rows.{
  is_version, releases_by_version, load_release_for_write, owner_org_of, set_yanked, set_unyanked,
  set_deprecated, set_undeprecated, set_status, update_releases, new_release, log_release,
  count_artifacts, scan_payloads, enqueue_release_scan_jobs,
}

-- `validate_version` of crates/core/src/validation.rs: `len` counts bytes.
unfoldable pub validate_version : String → Result (Unit {0})
validate_version version = do
  ensure (not (len version == 0)) (validation "Version must not be empty")
  ensure (not (ltb 64 (len version))) (validation "Version string too long")

-- `version.contains('-')`.
unfoldable pub version_looks_prerelease : String → Bool
version_looks_prerelease version = has b'-' (codes version)

pub data PublishReply : Type 0 where
  already_published : (artifact_count : ℕ) → PublishReply
  scanning_in_progress : (artifact_count : ℕ) → PublishReply
  submitted : (artifact_count scan_jobs_enqueued : ℕ) → PublishReply

-- A package and a version, as the path of a request names them.
pub record ReleasePath : Type 0 where
  pub ecosystem : String
  pub name : String
  pub version : String

-- `Option::unwrap_or_else`.
unfoldable pub or_default : Option Bool → Bool → Bool
or_default none b = b
or_default (some a) b = a

module _ (to_lowercase : String → String) where
  -- The start of every handler: the scope, the names and `ensure_package_publish_access`.
  unfoldable pub package_for_publish : Db → AuthenticatedIdentity → String → String → Result Uuid
  package_for_publish db identity ecosystem_str name = do
    ensure_scope identity scope_packages_write
    eco ← parse_ecosystem to_lowercase ecosystem_str
    ensure_package_access_by_requirement db (as_str eco)
        (normalize_package_name to_lowercase name eco) identity.user_id
        PackageAccessRequirement.publish

  -- `create_release`; `id` is the fresh `Uuid::new_v4()`.
  unfoldable pub create_release :
      Db → AuthenticatedIdentity → ReleasePath → Option Bool → Uuid → Result (Uuid × Db)
  unfolding or_default
  create_release db identity path is_prerelease id = do
    package_id ← package_for_publish db identity path.ecosystem path.name
    validate_version path.version
    ensure (not (exists (releases_by_version db package_id path.version)))
        (already_exists "Release already exists")
    let release =
        new_release id package_id path.version identity.user_id
          (or_default is_prerelease (version_looks_prerelease path.version))
    ok (id, record db { releases = release ∷ db.releases })

  unfoldable pub yank_release :
      Db → AuthenticatedIdentity → ReleasePath → Option String → Result (Uuid × Db)
  yank_release db identity path reason = do
    package_id ← package_for_publish db identity path.ecosystem path.name
    release ← load_release_for_write db package_id path.version
    ensure_release_allows_status_mutation release.status
    let yanked_db = update_releases (is_version package_id path.version) (set_yanked reason) db
    owner_org_id ← owner_org_of yanked_db package_id
    ok (
      release.id,
      log_release "release_yank" identity owner_org_id package_id release.id yanked_db,
    )

  unfoldable pub unyank_release :
      Db → AuthenticatedIdentity → ReleasePath → Result (ReleaseStatus × Db)
  unyank_release db identity path = do
    package_id ← package_for_publish db identity path.ecosystem path.name
    release ← load_release_for_write db package_id path.version
    ensure release.is_yanked (conflict "Release is not yanked")
    let restored_status = release_status_after_unyank release.is_deprecated
    let restored_db = update_releases (λ r. r.id == release.id) (set_unyanked restored_status) db
    owner_org_id ← owner_org_of restored_db package_id
    ok (
      restored_status,
      log_release "release_unyank" identity owner_org_id package_id release.id restored_db,
    )

  unfoldable pub deprecate_release :
      Db → AuthenticatedIdentity → ReleasePath → Option String → Result (Uuid × Db)
  deprecate_release db identity path message = do
    package_id ← package_for_publish db identity path.ecosystem path.name
    release ← load_release_for_write db package_id path.version
    ensure_release_allows_status_mutation release.status
    let deprecated_db =
        update_releases (is_version package_id path.version) (set_deprecated message) db
    owner_org_id ← owner_org_of deprecated_db package_id
    ok (
      release.id,
      log_release "release_deprecate" identity owner_org_id package_id release.id deprecated_db,
    )

  unfoldable pub undeprecate_release :
      Db → AuthenticatedIdentity → ReleasePath → Result (ReleaseStatus × Db)
  undeprecate_release db identity path = do
    package_id ← package_for_publish db identity path.ecosystem path.name
    release ← load_release_for_write db package_id path.version
    ensure release.is_deprecated (conflict "Release is not deprecated")
    let restored_status = release_status_after_undeprecate release.is_yanked
    let restored_db =
        update_releases (λ r. r.id == release.id) (set_undeprecated restored_status) db
    owner_org_id ← owner_org_of restored_db package_id
    ok (
      restored_status,
      log_release "release_undeprecate" identity owner_org_id package_id release.id restored_db,
    )

  -- `publish_release` from the status of the release on. The jobs get the ids of `fresh`.
  unfoldable pub submit_release :
      Db
      → AuthenticatedIdentity
      → Uuid
      → Release
      → ReleaseStatus
      → (ℕ → Uuid)
      → ℕ
      → Result (PublishReply × Db)
  submit_release db identity package_id release published fresh now =
      ok (already_published (count_artifacts db release.id), db)
  submit_release db identity package_id release scanning fresh now =
      ok (scanning_in_progress (count_artifacts db release.id), db)
  submit_release db identity package_id release status fresh now = do
    ensure (release_status_can_be_published status)
        (conflict "Release cannot be published from this status")
    ensure (not (count_artifacts db release.id == 0))
        (conflict "A release must have at least one uploaded artifact before publication")
    let scanning_db = update_releases (λ r. r.id == release.id) (set_status scanning) db
    owner_org_id ← owner_org_of scanning_db package_id
    let logged_db =
        log_release "release_publish" identity owner_org_id package_id release.id scanning_db
    ok (
      submitted (count_artifacts db release.id) (length (scan_payloads logged_db release.id)),
      enqueue_release_scan_jobs logged_db release.id fresh now,
    )

  unfoldable pub publish_release :
      Db → AuthenticatedIdentity → ReleasePath → (ℕ → Uuid) → ℕ → Result (PublishReply × Db)
  unfolding submit_release
  publish_release db identity path fresh now = do
    package_id ← package_for_publish db identity path.ecosystem path.name
    release ← load_release_for_write db package_id path.version
    submit_release db identity package_id release release.status fresh now
