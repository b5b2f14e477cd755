-- ===== src/Releases/ScanRuns.antt =====
-- A run of the scan of an artifact.
use publaryn.Prelude.{
  Bool, ℕ, ◌≤◌, ◌≡◌, refl, String, true, false, some, List, [], ◌∷◌, Memᴰ, All-mem,
}
use publaryn.Query.{◌>>=◌}
use publaryn.Query.Update.{update_where}
use publaryn.Domain.Job.{Payload, ScanArtifactPayload}
use publaryn.Domain.Release.{scanning}
use publaryn.Db.{Uuid, Db, Release}
use publaryn.Samples.{registry, first_release}
use publaryn.Releases.Rows.{update_releases}
use publaryn.Releases.Scan.{
  scan_fetched, finalize_release, store_findings, run_scanners, insert_findings, releases_by_id,
  status_after_scan, leave_scanning, Fetched, ScanFinding, Scanner, findings_of, found, handle,
  remaining_scan_jobs, has_blocking_finding,
}
use publaryn.Releases.Published.{IsWaiting, IsHarmless, handle-published}

-- A release in `scanning` with one running scan job.
abbrev waiting : Release
waiting = record first_release { status = scanning }

abbrev payload : ScanArtifactPayload
payload = record {
  release_id = 50;
  artifact_id = 60;
  storage_key = "k";
  filename = "widget.tgz";
  ecosystem = "npm";
}

abbrev scanning_registry : Db
scanning_registry = record registry { releases = waiting ∷ [] }

abbrev store : String → Fetched
store key = found (1 ∷ 2 ∷ [])

-- A scanner with a finding that blocks nothing.
abbrev reports_licence : Scanner
reports_licence artifact_id filename bytes =
    some (record { kind = "policy_violation"; severity = "low" } ∷ [])

abbrev all_stored : Uuid → ScanFinding → Bool
all_stored artifact_id finding = true

scanning_registry-IsWaiting : IsWaiting scanning_registry 50
scanning_registry-IsWaiting x m same =
    All-mem (λ k. k.status ≡ scanning) scanning_registry.releases (refl, tt) m

published_after :
    Memᴰ first_release
      (handle store
        (reports_licence ∷ [])
        all_stored
        scanning_registry
        (Payload.scan payload)
        70
        9).1.releases
unfolding handle scan_fetched finalize_release store_findings run_scanners findings_of
    insert_findings remaining_scan_jobs releases_by_id has_blocking_finding status_after_scan
    leave_scanning update_releases update_where ◌>>=◌
published_after = Memᴰ.head refl

handle-published_example :
    ((bytes : List ℕ) × (found (1 ∷ 2 ∷ []) ≡ found bytes)
      × ((f : ScanFinding)
          → Memᴰ f (run_scanners (reports_licence ∷ []) 60 "widget.tgz" bytes)
          → all_stored 60 f ≡ true
          → IsHarmless f))
    × (remaining_scan_jobs scanning_registry 50 ≤ 1)
    × (has_blocking_finding
          (handle store
            (reports_licence ∷ [])
            all_stored
            scanning_registry
            (Payload.scan payload)
            70
            9).1
          50
        ≡ false)
handle-published_example =
    handle-published store (reports_licence ∷ []) all_stored scanning_registry payload 70 9
      scanning_registry-IsWaiting published_after refl refl
