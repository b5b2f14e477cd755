-- ===== src/Releases/Rows.antt =====
-- The statements of the release handlers: the rows they select, change and insert.
use text.Mathlib.Text.{◌==◌ as str_eq}
use publaryn.Prelude.{
  ℕ, suc, String, Bool, true, false, ◌&&◌, Option, none, some, List, [], ◌∷◌, ◌==◌, length,
}
use publaryn.Error.{Result, ok, ok_or, ◌>>=◌ as try, not_found, internal}
use publaryn.Query.{◌>>=◌, ◌>>◌, row, fetch_optional}
use publaryn.Query.Update.{update_where}
use publaryn.Domain.Job.{Job, JobKind, Payload, ScanArtifactPayload}
use publaryn.Domain.Release.{ReleaseStatus, yanked, deprecated, quarantine}
use publaryn.Db.{Db, Uuid, Release, Artifact, AuditLog}
use publaryn.Auth.Identity.{AuthenticatedIdentity, audit_actor_token_id}
use publaryn.Access.Queries.{packages_by_id}
use publaryn.Jobs.Queue.{enqueue}

-- WHERE package_id = $1 AND version = $2.
abbrev pub is_version : Uuid → String → Release → Bool
is_version package_id version r = r.package_id == package_id && str_eq r.version version

unfoldable pub releases_by_version : Db → Uuid → String → List Release
releases_by_version db package_id version = do
  r ← db.releases
  is_version package_id version r
  row r

-- The row of a version: the start of every handler that changes one.
unfoldable pub load_release_for_write : Db → Uuid → String → Result Release
load_release_for_write db package_id version =
    ok_or (fetch_optional (releases_by_version db package_id version))
      (not_found "Release not found")

-- SELECT owner_org_id FROM packages WHERE id = $1, with `fetch_one`.
unfoldable pub owner_org_of : Db → Uuid → Result (Option Uuid)
owner_org_of db package_id =
    try (ok_or (fetch_optional (packages_by_id db package_id)) (internal "no rows returned"))
      (λ p. ok p.owner_org_id)

-- The columns that the UPDATEs of the handlers set.
abbrev pub set_yanked : Option String → Release → Release
set_yanked reason r = record r { is_yanked = true; yank_reason = reason; status = yanked }

abbrev pub set_unyanked : ReleaseStatus → Release → Release
set_unyanked status r = record r { is_yanked = false; yank_reason = none; status = status }

abbrev pub set_deprecated : Option String → Release → Release
set_deprecated message r = record r {
  is_deprecated = true;
  deprecation_message = message;
  status = deprecated;
}

abbrev pub set_undeprecated : ReleaseStatus → Release → Release
set_undeprecated status r = record r {
  is_deprecated = false;
  deprecation_message = none;
  status = status;
}

abbrev pub set_status : ReleaseStatus → Release → Release
set_status status r = record r { status = status }

unfoldable pub update_releases : (Release → Bool) → (Release → Release) → Db → Db
update_releases test set db = record db { releases = update_where test set db.releases }

-- `Release::new`, with the columns of the INSERT.
abbrev pub new_release : Uuid → Uuid → String → Uuid → Bool → Release
new_release id package_id version published_by is_prerelease = record {
  id = id;
  package_id = package_id;
  version = version;
  status = quarantine;
  published_by = published_by;
  is_prerelease = is_prerelease;
  is_yanked = false;
  yank_reason = none;
  is_deprecated = false;
  deprecation_message = none;
}

-- INSERT INTO audit_logs of the release handlers.
unfoldable pub log_release : String → AuthenticatedIdentity → Option Uuid → Uuid → Uuid → Db → Db
log_release action identity owner_org_id package_id release_id db =
    let entry : AuditLog = record {
      action = action;
      actor_user_id = identity.user_id;
      actor_token_id = audit_actor_token_id identity;
      target_user_id = none;
      target_org_id = owner_org_id;
      target_package_id = some package_id;
      target_release_id = some release_id;
    } in
    record db { audit_logs = entry ∷ db.audit_logs }

artifact_rows : Db → Uuid → List Artifact
artifact_rows db release_id = do a ← db.artifacts; a.release_id == release_id; row a

unfoldable pub count_artifacts : Db → Uuid → ℕ
unfolding artifact_rows
count_artifacts db release_id = length (artifact_rows db release_id)

-- The SELECT of `enqueue_release_scan_jobs`, as the payloads that it makes of the rows.
unfoldable pub scan_payloads : Db → Uuid → List ScanArtifactPayload
scan_payloads db release_id = do
  a ← db.artifacts
  r ← db.releases
  r.id == a.release_id
  p ← db.packages
  p.id == r.package_id
  a.release_id == release_id
  row (record {
    release_id = release_id;
    artifact_id = a.id;
    storage_key = a.storage_key;
    filename = a.filename;
    ecosystem = p.ecosystem;
  })

-- `enqueue_scan_artifact_job` for each payload: the k-th job gets the id `fresh k`.
unfoldable pub enqueue_scans : (ℕ → Uuid) → ℕ → ℕ → List ScanArtifactPayload → List Job → List Job
enqueue_scans fresh k now [] jobs = jobs
enqueue_scans fresh k now (payload ∷ payloads) jobs =
    enqueue (enqueue_scans fresh (suc k) now payloads jobs) (fresh k) JobKind.scan_artifact
      (Payload.scan payload) now

unfoldable pub enqueue_release_scan_jobs : Db → Uuid → (ℕ → Uuid) → ℕ → Db
unfolding enqueue_scans scan_payloads
enqueue_release_scan_jobs db release_id fresh now = record db {
  background_jobs = enqueue_scans fresh 0 now (scan_payloads db release_id) db.background_jobs;
}
