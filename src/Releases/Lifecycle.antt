-- ===== src/Releases/Lifecycle.antt =====
-- The history of a registry's releases: every handler that changes one, in any order, the scan of
-- an artifact, and the deletion of a manifest.
use publaryn.Prelude.{
  ℕ, ◌≡◌, ◌≢◌, refl, String, Bool, not, inl, inr, Option, Memᴰ, arith, ◌==◌, Bool-cases,
}
use publaryn.Error.{
  Result, ok, ◌>>=◌, >>=-ok_inv, >>-ok_inv, reply-ok_inv, ok_or-ok_inv, ensure, conflict,
}
use publaryn.Query.{fetch-mem, bind-mem_inv, only-mem_inv}
use publaryn.Domain.Release.{
  ReleaseStatus, quarantine, scanning, published, deprecated, yanked, deleted,
}
use publaryn.Db.{Db, Uuid, Release}
use publaryn.Auth.Identity.{AuthenticatedIdentity}
use publaryn.Access.Rows.{row_inv}
use publaryn.Releases.Status.{
  release_status_after_unyank, release_status_after_undeprecate, release_status_can_be_published,
  ensure_release_allows_status_mutation,
}
use publaryn.Releases.Rows.{
  is_version, releases_by_version, count_artifacts, load_release_for_write, owner_org_of,
  set_yanked, set_unyanked, set_deprecated, set_undeprecated, set_status, update_releases,
  new_release, log_release, enqueue_release_scan_jobs,
}
use publaryn.Releases.Handlers.{
  ReleasePath, PublishReply, package_for_publish, or_default, version_looks_prerelease,
  create_release, yank_release, unyank_release, deprecate_release, undeprecate_release,
  publish_release, submit_release,
}
use publaryn.Releases.Consistent.{
  IsSound, IsConsistent, update-IsSound, update_one-IsSound, insert-IsSound,
}

load-mem :
    (db : Db) (package_id : Uuid) (version : String) {r : Release}
    → load_release_for_write db package_id version ≡ ok r
    → Memᴰ r db.releases
unfolding load_release_for_write releases_by_version
load-mem db package_id version {r} h =
    let (x, x_mem, m) = bind-mem_inv db.releases _ (fetch-mem _ (ok_or-ok_inv _ _ h)) in
    let (_, here) = only-mem_inv (is_version package_id version x) _ m in rw (row_inv here) x_mem

unyanked-IsConsistent :
    (r : Release) → IsConsistent (set_unyanked (release_status_after_unyank r.is_deprecated) r)
unfolding release_status_after_unyank
unyanked-IsConsistent r = elim (Bool-cases r.is_deprecated) [
  | inl warned ↦ rw warned refl
  | inr plain ↦ rw plain (refl, refl)
]

undeprecated-IsConsistent :
    (r : Release) → IsConsistent (set_undeprecated (release_status_after_undeprecate r.is_yanked) r)
unfolding release_status_after_undeprecate
undeprecated-IsConsistent r = elim (Bool-cases r.is_yanked) [
  | inl out ↦ rw out refl
  | inr plain ↦ rw plain (refl, refl)
]

module _ (to_lowercase : String → String) (db : Db) (sound : IsSound db.releases)
    (identity : AuthenticatedIdentity) (path : ReleasePath) where
  -- The package and the release that the handlers start from.
  abbrev asked : Result Uuid
  asked = package_for_publish to_lowercase db identity path.ecosystem path.name

  abbrev wanted : Uuid → Result Release
  wanted package_id = load_release_for_write db package_id path.version

  pub create_release-IsSound :
      (is_prerelease : Option Bool) (id : Uuid) {reply : Uuid} {after : Db}
      → ((r : Release) → Memᴰ r db.releases → r.id ≢ id)
      → create_release to_lowercase db identity path is_prerelease id ≡ ok (reply, after)
      → IsSound after.releases
  unfolding create_release or_default
  create_release-IsSound is_prerelease id {reply} {after} fresh h =
      let (package_id, _, h1) = >>=-ok_inv asked _ h in
      let (_, h2) = >>-ok_inv _ _ h1 in
      let (_, h3) = >>-ok_inv _ _ h2 in
      let same = reply-ok_inv h3 in
      rw (← same) (
        insert-IsSound db.releases sound
          (new_release id package_id path.version identity.user_id
            (or_default is_prerelease (version_looks_prerelease path.version)))
          fresh (refl, refl))

  pub yank_release-IsSound :
      (reason : Option String) {reply : Uuid} {after : Db}
      → yank_release to_lowercase db identity path reason ≡ ok (reply, after)
      → IsSound after.releases
  unfolding yank_release update_releases log_release
  yank_release-IsSound reason {reply} {after} h =
      let (package_id, _, h1) = >>=-ok_inv asked _ h in
      let (release, loaded, h2) = >>=-ok_inv (wanted package_id) _ h1 in
      let (_, h3) = >>-ok_inv (ensure_release_allows_status_mutation release.status) _ h2 in
      let (owner, _, h4) =
        >>=-ok_inv
          (owner_org_of
            (update_releases (is_version package_id path.version) (set_yanked reason) db)
            package_id)
          _ h3 in
      let same = reply-ok_inv h4 in
      rw (← same)
        (update-IsSound db.releases sound _ (set_yanked reason) (λ r. refl) (λ r m hit. refl))

  pub unyank_release-IsSound :
      {reply : ReleaseStatus} {after : Db}
      → unyank_release to_lowercase db identity path ≡ ok (reply, after)
      → IsSound after.releases
  unfolding unyank_release update_releases log_release release_status_after_unyank
  unyank_release-IsSound {reply} {after} h =
      let (package_id, _, h1) = >>=-ok_inv asked _ h in
      let (release, loaded, h2) = >>=-ok_inv (wanted package_id) _ h1 in
      let (_, h3) = >>-ok_inv (ensure release.is_yanked (conflict "Release is not yanked")) _ h2 in
      let (owner, _, h4) =
        >>=-ok_inv
          (owner_org_of
            (update_releases (λ r. r.id == release.id)
              (set_unyanked (release_status_after_unyank release.is_deprecated)) db)
            package_id)
          _ h3 in
      let same = reply-ok_inv h4 in
      rw (← same) (
        update_one-IsSound db.releases sound release
          (set_unyanked (release_status_after_unyank release.is_deprecated))
          (load-mem db package_id path.version loaded) (λ r. refl) (unyanked-IsConsistent release))

  pub deprecate_release-IsSound :
      (message : Option String) {reply : Uuid} {after : Db}
      → deprecate_release to_lowercase db identity path message ≡ ok (reply, after)
      → IsSound after.releases
  unfolding deprecate_release update_releases log_release
  deprecate_release-IsSound message {reply} {after} h =
      let (package_id, _, h1) = >>=-ok_inv asked _ h in
      let (release, loaded, h2) = >>=-ok_inv (wanted package_id) _ h1 in
      let (_, h3) = >>-ok_inv (ensure_release_allows_status_mutation release.status) _ h2 in
      let (owner, _, h4) =
        >>=-ok_inv
          (owner_org_of
            (update_releases (is_version package_id path.version) (set_deprecated message) db)
            package_id)
          _ h3 in
      let same = reply-ok_inv h4 in
      rw (← same)
        (update-IsSound db.releases sound _ (set_deprecated message) (λ r. refl) (λ r m hit. refl))

  pub undeprecate_release-IsSound :
      {reply : ReleaseStatus} {after : Db}
      → undeprecate_release to_lowercase db identity path ≡ ok (reply, after)
      → IsSound after.releases
  unfolding undeprecate_release update_releases log_release release_status_after_undeprecate
  undeprecate_release-IsSound {reply} {after} h =
      let (package_id, _, h1) = >>=-ok_inv asked _ h in
      let (release, loaded, h2) = >>=-ok_inv (wanted package_id) _ h1 in
      let (_, h3) =
        >>-ok_inv (ensure release.is_deprecated (conflict "Release is not deprecated")) _ h2 in
      let (owner, _, h4) =
        >>=-ok_inv
          (owner_org_of
            (update_releases (λ r. r.id == release.id)
              (set_undeprecated (release_status_after_undeprecate release.is_yanked)) db)
            package_id)
          _ h3 in
      let same = reply-ok_inv h4 in
      rw (← same) (
        update_one-IsSound db.releases sound release
          (set_undeprecated (release_status_after_undeprecate release.is_yanked))
          (load-mem db package_id path.version loaded) (λ r. refl)
          (undeprecated-IsConsistent release))

  -- From the status on: only a release in quarantine is submitted.
  submit-IsSound :
      (package_id : Uuid) (release : Release) (status : ReleaseStatus) (fresh : ℕ → Uuid) (now : ℕ)
      {reply : PublishReply} {after : Db}
      → Memᴰ release db.releases
      → release.status ≡ status
      → submit_release to_lowercase db identity package_id release status fresh now
        ≡ ok (reply, after)
      → IsSound after.releases
  unfolding submit_release update_releases log_release enqueue_release_scan_jobs
  submit-IsSound package_id release published fresh now m s h =
      let same = reply-ok_inv h in rw (← same) sound
  submit-IsSound package_id release scanning fresh now m s h =
      let same = reply-ok_inv h in rw (← same) sound
  submit-IsSound package_id release deprecated fresh now m s h = absurd (ground arith)
  submit-IsSound package_id release yanked fresh now m s h = absurd (ground arith)
  submit-IsSound package_id release deleted fresh now m s h = absurd (ground arith)
  submit-IsSound package_id release quarantine fresh now {reply} {after} m s h =
      let (_, h1) =
        >>-ok_inv
          (ensure (release_status_can_be_published quarantine)
            (conflict "Release cannot be published from this status"))
          _ h in
      let (_, h2) =
        >>-ok_inv
          (ensure (not (count_artifacts db release.id == 0))
            (conflict "A release must have at least one uploaded artifact before publication"))
          _ h1 in
      let (owner, _, h3) =
        >>=-ok_inv
          (owner_org_of (update_releases (λ r. r.id == release.id) (set_status scanning) db)
            package_id)
          _ h2 in
      let clean = sound.consistent release m in
      let same = reply-ok_inv h3 in
      rw (← same) (
        update_one-IsSound db.releases sound release (set_status scanning) m (λ r. refl)
          (rw s at clean))

  pub publish_release-IsSound :
      (fresh : ℕ → Uuid) (now : ℕ) {reply : PublishReply} {after : Db}
      → publish_release to_lowercase db identity path fresh now ≡ ok (reply, after)
      → IsSound after.releases
  unfolding publish_release
  publish_release-IsSound fresh now h =
      let (package_id, _, h1) =
        >>=-ok_inv asked
          (λ package_id. wanted package_id >>= (λ release.
            submit_release to_lowercase db identity package_id release release.status fresh now))
          h in
      let (release, loaded, h2) =
        >>=-ok_inv (wanted package_id)
          (λ release.
            submit_release to_lowercase db identity package_id release release.status fresh now)
          h1 in
      submit-IsSound package_id release release.status fresh now
        (load-mem db package_id path.version loaded) refl h2
