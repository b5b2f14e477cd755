-- ===== src/Releases/Published.antt =====
-- When the scan of an artifact publishes its release, with the findings that are stored.
use mathlib.Core.Path.{subst}
use text.Mathlib.Text.{◌==◌ as str_eq}
use publaryn.Prelude.{
  any-mem_false, ◌∷◌, [], ℕ, ◌≤◌, ◌≡◌, refl, sym, ◌∙◌, ap, String, Bool, true, false, inl, inr,
  List, Memᴰ, arith, ◌==◌, ==_iff, Bool-cases, Option-cases, ltb, any,
}
use publaryn.Query.{fetch_optional}
use publaryn.Query.Update.{update_where-mem_inv}
use publaryn.Domain.Job.{Payload, ScanArtifactPayload}
use publaryn.Domain.Release.{ReleaseStatus, scanning, published}
use publaryn.Db.{Db, Uuid, Release, SecurityFinding}
use publaryn.Releases.Rows.{set_status, update_releases}
use publaryn.Releases.Scan.{
  Fetched, failed, absent, found, ScanFinding, Scanner, new_finding, run_scanners, insert_findings,
  handle, scan_fetched, finalize_release, leave_scanning, releases_by_id, status_after_scan,
  is_awaiting_scan, store_findings, is_blocking, has_blocking_finding, remaining_scan_jobs,
}
use publaryn.Releases.Scanned.{leave_scanning-releases}

leave_scanning-findings :
    (db : Db) (release_id package_id : Uuid) (status : ReleaseStatus) (job_id : Uuid) (now : ℕ)
    → (leave_scanning db release_id package_id status job_id now).security_findings
      ≡ db.security_findings
unfolding leave_scanning update_releases
leave_scanning-findings db release_id package_id status job_id now =
    elim (Bool-cases (any (is_awaiting_scan release_id) db.releases)) [
      | inl some_row ↦ rw some_row refl
      | inr no_row ↦ rw no_row refl
    ]

status_after_scan-published :
    (blocking y d : Bool) → status_after_scan blocking y d ≡ published → blocking ≡ false
unfolding status_after_scan
status_after_scan-published true y d h = absurd (ground arith)
status_after_scan-published false y d h = refl

-- The release was waiting for its scans.
abbrev pub IsWaiting : Db → Uuid → Type 0
IsWaiting db release_id =
    (x : Release) → Memᴰ x db.releases → x.id ≡ release_id → x.status ≡ scanning

finalize_release-published :
    (db : Db) (release_id job_id : Uuid) (now : ℕ)
    → IsWaiting db release_id
    → {y : Release} → Memᴰ y (finalize_release db release_id job_id now).1.releases
    → y.id ≡ release_id
    → y.status ≡ published
    → (remaining_scan_jobs db release_id ≤ 1)
      × (has_blocking_finding (finalize_release db release_id job_id now).1 release_id ≡ false)
unfolding finalize_release has_blocking_finding
finalize_release-published db release_id job_id now waiting {y} m same out =
    elim (Bool-cases (ltb 1 (remaining_scan_jobs db release_id))) [
      | inl waits ↦ let still = waiting y (rw waits at m) same in absurd (ground arith)
      | inr last ↦ elim (Option-cases (fetch_optional (releases_by_id db release_id))) [
        | inl gone ↦ let still = waiting y (rw (last, gone) at m) same in absurd (ground arith)
        | inr (r, here) ↦
            let blocking = has_blocking_finding db release_id in
            let status = status_after_scan blocking r.is_yanked r.is_deprecated in
            let left = leave_scanning-releases db release_id r.package_id status job_id now in
            let n = rw (last, here) at m in
            let (x, x_mem, how) =
              update_where-mem_inv (is_awaiting_scan release_id) (set_status status) db.releases
                (rw left at n) in
            elim how [
              | inl (hit, e) ↦
                  let clean =
                    status_after_scan-published blocking r.is_yanked r.is_deprecated
                      (sym (ap (λ k. k.status) e) ∙ out) in
                  (
                    ground arith,
                    rw
                        (
                          last,
                          here,
                          leave_scanning-findings db release_id r.package_id status job_id now,
                        )
                        clean,
                  )
              | inr (miss, e) ↦
                  let still = waiting x x_mem (sym (ap (λ k. k.id) e) ∙ same) in
                  let clash : published ≡ scanning = sym out ∙ ap (λ k. k.status) e ∙ still in
                  absurd (ground arith)
            ]
      ]
    ]

finalize_release-findings :
    (db : Db) (release_id job_id : Uuid) (now : ℕ)
    → (finalize_release db release_id job_id now).1.security_findings ≡ db.security_findings
unfolding finalize_release
finalize_release-findings db release_id job_id now =
    elim (Bool-cases (ltb 1 (remaining_scan_jobs db release_id))) [
      | inl waits ↦ rw waits refl
      | inr last ↦ elim (Option-cases (fetch_optional (releases_by_id db release_id))) [
        | inl gone ↦ rw (last, gone) refl
        | inr (r, here) ↦
            rw (last, here) (leave_scanning-findings db release_id r.package_id _ job_id now)
      ]
    ]

insert_findings-mem :
    (stored : Uuid → ScanFinding → Bool) (release_id artifact_id : Uuid)
    (findings : List ScanFinding) (table : List SecurityFinding) {f : ScanFinding}
    → Memᴰ f findings
    → stored artifact_id f ≡ true
    → Memᴰ
        (new_finding release_id artifact_id f)
        (insert_findings stored release_id artifact_id findings table)
unfolding insert_findings
insert_findings-mem stored release_id artifact_id [] table m kept = elim m [ ]
insert_findings-mem stored release_id artifact_id (g ∷ gs) table {f} (Memᴰ.head e) kept =
    let goes_in : stored artifact_id g ≡ true = rw (← e) kept in
    rw goes_in (Memᴰ.head (ap (new_finding release_id artifact_id) e))
insert_findings-mem stored release_id artifact_id (g ∷ gs) table {f} (Memᴰ.tail m) kept =
    let there = insert_findings-mem stored release_id artifact_id gs table m kept in
    elim (Bool-cases (stored artifact_id g)) [
      | inl goes_in ↦ rw goes_in (Memᴰ.tail there)
      | inr fails ↦ rw fails there
    ]

abbrev pub IsHarmless : ScanFinding → Type 0
IsHarmless f = (str_eq f.severity "critical" ≡ false) × (str_eq f.kind "malware" ≡ false)

-- No finding blocks the release, so none of those that were stored for it does.
stored-IsHarmless :
    (stored : Uuid → ScanFinding → Bool) (release_id artifact_id : Uuid)
    (findings : List ScanFinding) (table : List SecurityFinding) {f : ScanFinding}
    → any (is_blocking release_id) (insert_findings stored release_id artifact_id findings table)
      ≡ false
    → Memᴰ f findings
    → stored artifact_id f ≡ true
    → IsHarmless f
stored-IsHarmless stored release_id artifact_id findings table clean m kept =
    let quiet =
      any-mem_false (is_blocking release_id) _ clean
        (insert_findings-mem stored release_id artifact_id findings table m kept) in
    let same : (release_id == release_id) ≡ true = (==_iff _ _).1 refl in
    (ground arith, ground arith)

-- A release that was waiting for its scans is published by a scan only if its artifact was found
-- in the store, each finding of this scan whose INSERT went through is neither critical nor
-- malware, at most one scan job of the release is pending, running or dead, and no open finding of
-- the release in the table is critical or malware.
pub handle-published :
    (get_object_bytes : String → Fetched) (scanners : List Scanner)
    (stored : Uuid → ScanFinding → Bool) (db : Db) (p : ScanArtifactPayload) (job_id : Uuid)
    (now : ℕ)
    → IsWaiting db p.release_id
    → {y : Release}
    → Memᴰ y (handle get_object_bytes scanners stored db (Payload.scan p) job_id now).1.releases
    → y.id ≡ p.release_id
    → y.status ≡ published
    → ((bytes : List ℕ) × (get_object_bytes p.storage_key ≡ found bytes)
        × ((f : ScanFinding)
            → Memᴰ f (run_scanners scanners p.artifact_id p.filename bytes)
            → stored p.artifact_id f ≡ true
            → IsHarmless f))
      × (remaining_scan_jobs db p.release_id ≤ 1)
      × (has_blocking_finding
            (handle get_object_bytes scanners stored db (Payload.scan p) job_id now).1
            p.release_id
          ≡ false)
unfolding handle store_findings remaining_scan_jobs has_blocking_finding
handle-published get_object_bytes scanners stored db p job_id now waiting {y} m same out =
    by_fetch (get_object_bytes p.storage_key) m
  where
    by_fetch :
        (f : Fetched)
        → Memᴰ y (scan_fetched get_object_bytes scanners stored db p f job_id now).1.releases
        → ((bytes : List ℕ) × (f ≡ found bytes)
            × ((g : ScanFinding)
                → Memᴰ g (run_scanners scanners p.artifact_id p.filename bytes)
                → stored p.artifact_id g ≡ true
                → IsHarmless g))
          × (remaining_scan_jobs db p.release_id ≤ 1)
          × (has_blocking_finding
                (scan_fetched get_object_bytes scanners stored db p f job_id now).1
                p.release_id
              ≡ false)
    by_fetch (failed error) n = let still = waiting y n same in absurd (ground arith)
    by_fetch absent n = let still = waiting y n same in absurd (ground arith)
    by_fetch (found bytes) n =
        let before = store_findings get_object_bytes scanners stored db p bytes in
        let (few, clean) =
          finalize_release-published before p.release_id job_id now waiting n same out in
        let in_table : any (is_blocking p.release_id) before.security_findings ≡ false =
          subst (λ fs. any (is_blocking p.release_id) fs ≡ false)
            (finalize_release-findings before p.release_id job_id now) clean in
        (
          (
            bytes,
            refl,
            λ g g_mem kept.
                stored-IsHarmless stored p.release_id p.artifact_id
                  (run_scanners scanners p.artifact_id p.filename bytes) db.security_findings
                  in_table g_mem kept,
          ),
          few,
          clean,
        )
