-- ===== src/Releases/Scan.antt =====
-- `ScanArtifactHandler::handle` of crates/workers/src/scanners.rs. The object store and the
-- scanners are arguments: what the store gives for a key, the findings of a scanner, or `none` where
-- it fails, and whether the INSERT of a finding of an artifact goes through.
use text.Mathlib.Text.{◌==◌ as str_eq}
use publaryn.Prelude.{
  ℕ, String, Bool, true, false, not, ◌&&◌, ◌||◌, Option, none, some, List, [], ◌∷◌, ◌++◌, ◌==◌, ltb,
  if◌then◌else◌, count, any,
}
use publaryn.Query.{fetch_optional, ◌>>=◌, ◌>>◌, row}
use publaryn.Domain.Job.{
  Job, JobKind, Payload, ScanArtifactPayload, is_scan, is_pending, is_running, is_dead,
}
use publaryn.Domain.Release.{
  ReleaseStatus, scanning, yanked, deprecated, quarantine, published, deleted,
}
use publaryn.Db.{Db, Uuid, Release, SecurityFinding}
use publaryn.Jobs.Queue.{enqueue}
use publaryn.Releases.Rows.{set_status, update_releases}

abbrev pub Bytes : Type 0
Bytes = List ℕ

-- `Result<Option<Bytes>, String>` of `get_object_bytes`.
pub data Fetched : Type 0 where
  failed : (error : String) → Fetched
  absent : Fetched
  found : (bytes : Bytes) → Fetched

pub record ScanFinding : Type 0 where
  pub kind : String
  pub severity : String

abbrev pub Scanner : Type 0
Scanner = Uuid → String → Bytes → Option (List ScanFinding)

-- `Result<(), String>`, `none` for `Ok(())`.
abbrev pub Outcome : Type 0
Outcome = Option String

unfoldable pub findings_of : Option (List ScanFinding) → List ScanFinding
findings_of none = []
findings_of (some findings) = findings

-- The loop over the scanners: one that fails adds nothing.
unfoldable pub run_scanners : List Scanner → Uuid → String → Bytes → List ScanFinding
unfolding findings_of
run_scanners [] artifact_id filename bytes = []
run_scanners (scan ∷ scanners) artifact_id filename bytes =
    findings_of (scan artifact_id filename bytes)
    ++ run_scanners scanners artifact_id filename bytes

abbrev pub new_finding : Uuid → Uuid → ScanFinding → SecurityFinding
new_finding release_id artifact_id finding = record {
  release_id = release_id;
  artifact_id = some artifact_id;
  kind = finding.kind;
  severity = finding.severity;
  is_resolved = false;
}

-- The loop that inserts the findings: an INSERT that fails is logged and the loop goes on.
unfoldable pub insert_findings :
    (Uuid → ScanFinding → Bool)
    → Uuid
    → Uuid
    → List ScanFinding
    → List SecurityFinding
    → List SecurityFinding
insert_findings stored release_id artifact_id [] table = table
insert_findings stored release_id artifact_id (finding ∷ findings) table =
    let rest = insert_findings stored release_id artifact_id findings table in
    if stored artifact_id finding then new_finding release_id artifact_id finding ∷ rest else rest

-- payload ->> 'release_id' = $1: only the payload of a scan has that key.
abbrev pub is_for_release : Uuid → Payload → Bool
is_for_release release_id (Payload.scan p) = p.release_id == release_id
is_for_release release_id (Payload.reindex package_id) = false
is_for_release release_id (Payload.other json) = false

abbrev pub is_unfinished_scan : Uuid → Job → Bool
is_unfinished_scan release_id j =
    is_scan j.kind
    && (is_pending j.status || is_running j.status || is_dead j.status)
    && is_for_release release_id j.payload

unfoldable pub remaining_scan_jobs : Db → Uuid → ℕ
remaining_scan_jobs db release_id = count (is_unfinished_scan release_id) db.background_jobs

abbrev pub is_blocking : Uuid → SecurityFinding → Bool
is_blocking release_id f =
    f.release_id == release_id
    && not f.is_resolved
    && (str_eq f.severity "critical" || str_eq f.kind "malware")

unfoldable pub has_blocking_finding : Db → Uuid → Bool
has_blocking_finding db release_id = any (is_blocking release_id) db.security_findings

unfoldable pub status_after_scan : Bool → Bool → Bool → ReleaseStatus
status_after_scan has_blocking is_yanked is_deprecated =
    if has_blocking
    then quarantine
    else if is_yanked
    then yanked
    else if is_deprecated
    then deprecated
    else published

abbrev pub is_scanning : ReleaseStatus → Bool
is_scanning scanning = true
is_scanning _ = false

unfoldable pub releases_by_id : Db → Uuid → List Release
releases_by_id db release_id = do r ← db.releases; r.id == release_id; row r

-- The UPDATE that leaves `scanning`, and the reindexing if it changed a row.
abbrev pub is_awaiting_scan : Uuid → Release → Bool
is_awaiting_scan release_id r = r.id == release_id && is_scanning r.status

unfoldable pub leave_scanning : Db → Uuid → Uuid → ReleaseStatus → Uuid → ℕ → Db
leave_scanning db release_id package_id status job_id now =
    let changed = update_releases (is_awaiting_scan release_id) (set_status status) db in
    if any (is_awaiting_scan release_id) db.releases
    then record changed {
      background_jobs =
          enqueue changed.background_jobs job_id JobKind.reindex_search (Payload.reindex package_id)
            now;
    }
    else changed

-- The handler after the findings are stored.
unfoldable pub finalize_release : Db → Uuid → Uuid → ℕ → Outcome × Db
finalize_release db release_id job_id now =
    if ltb 1 (remaining_scan_jobs db release_id)
    then (none, db)
    else (elim (fetch_optional (releases_by_id db release_id)) [
      | none ↦ (some "Failed to load release finalization context", db)
      | some r ↦ (
        none,
        leave_scanning db release_id r.package_id
            (status_after_scan (has_blocking_finding db release_id) r.is_yanked r.is_deprecated)
            job_id now,
      )
    ])

module _ (get_object_bytes : String → Fetched) (scanners : List Scanner)
    (stored : Uuid → ScanFinding → Bool) where
  -- The findings of one artifact, those stored whose INSERT goes through.
  unfoldable pub store_findings : Db → ScanArtifactPayload → Bytes → Db
  store_findings db p bytes = record db {
    security_findings =
        insert_findings stored p.release_id p.artifact_id
          (run_scanners scanners p.artifact_id p.filename bytes) db.security_findings;
  }

  unfoldable pub scan_fetched : Db → ScanArtifactPayload → Fetched → Uuid → ℕ → Outcome × Db
  scan_fetched db p (failed error) job_id now = (some error, db)
  scan_fetched db p absent job_id now = (some "Artifact not found in storage", db)
  scan_fetched db p (found bytes) job_id now =
      finalize_release (store_findings db p bytes) p.release_id job_id now

  -- `handle`; `job_id` is the fresh id of the reindex job.
  unfoldable pub handle : Db → Payload → Uuid → ℕ → Outcome × Db
  unfolding scan_fetched
  handle db (Payload.scan p) job_id now =
      scan_fetched db p (get_object_bytes p.storage_key) job_id now
  handle db (Payload.reindex package_id) job_id now = (some "Invalid scan payload", db)
  handle db (Payload.other json) job_id now = (some "Invalid scan payload", db)

-- The UPDATE of `manifest_delete` of crates/adapters/oci/src/routes.rs.
unfoldable pub delete_release : Db → Uuid → Db
unfolding update_releases
delete_release db release_id = update_releases (λ r. r.id == release_id) (set_status deleted) db
