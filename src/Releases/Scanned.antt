-- ===== src/Releases/Scanned.antt =====
-- What the scan of an artifact does to the releases.
use publaryn.Prelude.{
  ℕ, ◌≡◌, refl, sym, ◌∙◌, ap, String, Bool, true, false, inl, inr, List, Memᴰ, arith, and_parts,
  ◌==◌, ==_iff, Bool-cases, Option-cases, ltb, any,
}
use publaryn.Query.{fetch_optional, fetch-mem, bind-mem_inv, only-mem_inv}
use publaryn.Query.Update.{update_where}
use publaryn.Domain.Job.{Payload}
use publaryn.Domain.Release.{ReleaseStatus, scanning}
use publaryn.Db.{Db, Uuid, Release}
use publaryn.Access.Rows.{row_inv}
use publaryn.Releases.Rows.{set_status, update_releases}
use publaryn.Releases.Scan.{
  Fetched, failed, absent, found, ScanFinding, Scanner, handle, scan_fetched, finalize_release,
  leave_scanning, releases_by_id, status_after_scan, is_awaiting_scan, store_findings, is_scanning,
  has_blocking_finding, remaining_scan_jobs,
}
use publaryn.Releases.Consistent.{IsSound, IsConsistent, update-IsSound}

pub leave_scanning-releases :
    (db : Db) (release_id package_id : Uuid) (status : ReleaseStatus) (job_id : Uuid) (now : ℕ)
    → (leave_scanning db release_id package_id status job_id now).releases
      ≡ update_where (is_awaiting_scan release_id) (set_status status) db.releases
unfolding leave_scanning update_releases
leave_scanning-releases db release_id package_id status job_id now =
    elim (Bool-cases (any (is_awaiting_scan release_id) db.releases)) [
      | inl some_row ↦ rw some_row refl
      | inr no_row ↦ rw no_row refl
    ]

is_scanning-inv : (s : ReleaseStatus) → is_scanning s ≡ true → s ≡ scanning
is_scanning-inv s h = ground arith

releases_by_id-mem_inv :
    (db : Db) (release_id : Uuid) {r : Release}
    → Memᴰ r (releases_by_id db release_id)
    → Memᴰ r db.releases × (r.id ≡ release_id)
unfolding releases_by_id
releases_by_id-mem_inv db release_id {r} m =
    let (x, x_mem, m1) = bind-mem_inv db.releases _ m in
    let (e, here) = only-mem_inv (x.id == release_id) _ m1 in
    let same = row_inv here in (rw same x_mem, rw same ((==_iff _ _).0 e))

-- A release that waits for its scans has no flags, so it ends in quarantine or published.
scanned-IsConsistent :
    (r : Release) (blocking : Bool)
    → r.is_yanked ≡ false
    → r.is_deprecated ≡ false
    → IsConsistent (set_status (status_after_scan blocking r.is_yanked r.is_deprecated) r)
unfolding status_after_scan
scanned-IsConsistent r true y d = (y, d)
scanned-IsConsistent r false y d = rw (y, d) (refl, refl)

module _ (db : Db) (sound : IsSound db.releases) (release_id job_id : Uuid) (now : ℕ) where
  finalize_release-IsSound : IsSound (finalize_release db release_id job_id now).1.releases
  unfolding finalize_release
  finalize_release-IsSound = elim (Bool-cases (ltb 1 (remaining_scan_jobs db release_id))) [
    | inl waits ↦ rw waits sound
    | inr last ↦ elim (Option-cases (fetch_optional (releases_by_id db release_id))) [
      | inl gone ↦ rw (last, gone) sound
      | inr (r, here) ↦
          let (r_mem, r_id) = releases_by_id-mem_inv db release_id (fetch-mem _ here) in
          let status =
            status_after_scan (has_blocking_finding db release_id) r.is_yanked r.is_deprecated in
          let kept : IsSound
              (update_where (is_awaiting_scan release_id) (set_status status) db.releases) =
            update-IsSound db.releases sound (is_awaiting_scan release_id) (set_status status)
              (λ k. refl)
              (λ k m hit.
                let (same_id, waiting) = and_parts _ _ hit in
                let one : k ≡ r =
                  sound.release_key k r m r_mem ((==_iff _ _).0 same_id ∙ sym r_id) in
                let status_of_r : r.status ≡ scanning =
                  sym (ap (λ x. x.status) one) ∙ is_scanning-inv k.status waiting in
                let fits = sound.consistent r r_mem in
                let (y, d) = rw status_of_r at fits in
                rw one (scanned-IsConsistent r (has_blocking_finding db release_id) y d)) in
          rw (last, here, leave_scanning-releases db release_id r.package_id status job_id now) kept
    ]
  ]

module _ (get_object_bytes : String → Fetched) (scanners : List Scanner)
    (stored : Uuid → ScanFinding → Bool) (db : Db) (job_id : Uuid) (now : ℕ) where
  pub handle-IsSound :
      (payload : Payload)
      → IsSound db.releases
      → IsSound (handle get_object_bytes scanners stored db payload job_id now).1.releases
  unfolding handle store_findings
  handle-IsSound (Payload.reindex package_id) sound = sound
  handle-IsSound (Payload.other json) sound = sound
  handle-IsSound (Payload.scan p) sound = by_fetch (get_object_bytes p.storage_key)
    where
      by_fetch :
          (f : Fetched)
          → IsSound (scan_fetched get_object_bytes scanners stored db p f job_id now).1.releases
      by_fetch (failed error) = sound
      by_fetch absent = sound
      by_fetch (found bytes) =
          finalize_release-IsSound (store_findings get_object_bytes scanners stored db p bytes)
            sound p.release_id job_id now
