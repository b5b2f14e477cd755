-- ===== src/Releases/History.antt =====
-- Any sequence of requests, scans and deletions on the releases of a registry.
use publaryn.Prelude.{ℕ, ◌≡◌, ◌≢◌, refl, String, Bool, Option, List, [], Memᴰ}
use publaryn.Error.{ok}
use publaryn.Domain.Job.{Payload}
use publaryn.Domain.Release.{ReleaseStatus}
use publaryn.Db.{Db, Uuid, Release}
use publaryn.Auth.Identity.{AuthenticatedIdentity}
use publaryn.Releases.Rows.{set_status, update_releases}
use publaryn.Releases.Handlers.{
  ReleasePath, PublishReply, create_release, yank_release, unyank_release, deprecate_release,
  undeprecate_release, publish_release,
}
use publaryn.Releases.Scan.{Fetched, ScanFinding, Scanner, handle, delete_release}
use publaryn.Releases.Scanned.{handle-IsSound}
use publaryn.Releases.Consistent.{IsSound, update-IsSound}
use publaryn.Releases.Lifecycle.{
  create_release-IsSound, yank_release-IsSound, unyank_release-IsSound, deprecate_release-IsSound,
  undeprecate_release-IsSound, publish_release-IsSound,
}

-- One change of the database by the code that handles releases. A request that fails changes
-- nothing.
pub data Change (to_lowercase : String → String) : Db → Db → Type 0 where
  creates :
      (db after : Db) (identity : AuthenticatedIdentity) (path : ReleasePath)
      (is_prerelease : Option Bool) (id reply : Uuid)
      → ((r : Release) → Memᴰ r db.releases → r.id ≢ id)
      → create_release to_lowercase db identity path is_prerelease id ≡ ok (reply, after)
      → Change to_lowercase db after
  yanks :
      (db after : Db) (identity : AuthenticatedIdentity) (path : ReleasePath)
      (reason : Option String) (reply : Uuid)
      → yank_release to_lowercase db identity path reason ≡ ok (reply, after)
      → Change to_lowercase db after
  unyanks :
      (db after : Db) (identity : AuthenticatedIdentity) (path : ReleasePath)
      (reply : ReleaseStatus)
      → unyank_release to_lowercase db identity path ≡ ok (reply, after)
      → Change to_lowercase db after
  deprecates :
      (db after : Db) (identity : AuthenticatedIdentity) (path : ReleasePath)
      (message : Option String) (reply : Uuid)
      → deprecate_release to_lowercase db identity path message ≡ ok (reply, after)
      → Change to_lowercase db after
  undeprecates :
      (db after : Db) (identity : AuthenticatedIdentity) (path : ReleasePath)
      (reply : ReleaseStatus)
      → undeprecate_release to_lowercase db identity path ≡ ok (reply, after)
      → Change to_lowercase db after
  publishes :
      (db after : Db) (identity : AuthenticatedIdentity) (path : ReleasePath) (fresh : ℕ → Uuid)
      (now : ℕ) (reply : PublishReply)
      → publish_release to_lowercase db identity path fresh now ≡ ok (reply, after)
      → Change to_lowercase db after
  scans :
      (db : Db) (get_object_bytes : String → Fetched) (scanners : List Scanner)
      (stored : Uuid → ScanFinding → Bool) (payload : Payload) (job_id : Uuid) (now : ℕ)
      → Change to_lowercase db (handle get_object_bytes scanners stored db payload job_id now).1
  deletes : (db : Db) (release_id : Uuid) → Change to_lowercase db (delete_release db release_id)

-- The databases that a registry reaches from one without releases.
pub data IsReachable (to_lowercase : String → String) : Db → Type 0 where
  initially : (db : Db) → db.releases ≡ [] → IsReachable to_lowercase db
  then_change :
      (db after : Db)
      → IsReachable to_lowercase db
      → Change to_lowercase db after
      → IsReachable to_lowercase after

nothing-IsSound : IsSound []
nothing-IsSound = record { release_key = λ a b m. elim m [ ]; consistent = λ r m. elim m [ ] }

module _ (to_lowercase : String → String) where
  Change-IsSound :
      (db after : Db) → Change to_lowercase db after → IsSound db.releases → IsSound after.releases
  unfolding delete_release update_releases
  Change-IsSound db after (creates _ _ identity path is_prerelease id reply fresh done) sound =
      create_release-IsSound to_lowercase db sound identity path is_prerelease id fresh done
  Change-IsSound db after (yanks _ _ identity path reason reply done) sound =
      yank_release-IsSound to_lowercase db sound identity path reason done
  Change-IsSound db after (unyanks _ _ identity path reply done) sound =
      unyank_release-IsSound to_lowercase db sound identity path done
  Change-IsSound db after (deprecates _ _ identity path message reply done) sound =
      deprecate_release-IsSound to_lowercase db sound identity path message done
  Change-IsSound db after (undeprecates _ _ identity path reply done) sound =
      undeprecate_release-IsSound to_lowercase db sound identity path done
  Change-IsSound db after (publishes _ _ identity path fresh now reply done) sound =
      publish_release-IsSound to_lowercase db sound identity path fresh now done
  Change-IsSound db after (scans _ get_object_bytes scanners stored payload job_id now) sound =
      handle-IsSound get_object_bytes scanners stored db job_id now payload sound
  Change-IsSound db after (deletes _ release_id) sound =
      update-IsSound db.releases sound _ (set_status _) (λ r. refl) (λ r m hit. tt)

  -- Whatever requests create, yank, unyank, deprecate, undeprecate and publish releases, whatever
  -- artifacts are scanned and manifests deleted, in any order, every release's flags fit its
  -- status: in quarantine, scanning or published it is neither yanked nor deprecated, a `yanked`
  -- one is yanked, a `deprecated` one is deprecated. Ids stay distinct, given that new ids are
  -- fresh.
  pub reachable_releases-IsSound : (db : Db) → IsReachable to_lowercase db → IsSound db.releases
  reachable_releases-IsSound db (initially _ empty) = rw empty nothing-IsSound
  reachable_releases-IsSound db (then_change before _ reached change) =
      Change-IsSound before db change (reachable_releases-IsSound before reached)
