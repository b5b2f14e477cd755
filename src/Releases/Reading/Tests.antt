-- ===== src/Releases/Reading/Tests.antt =====
-- The read check on the registry, for a member and for a caller who is not logged in.
use publaryn.Prelude.{◌≡◌, refl, String, true, ◌⊎◌, none, some, Memᴰ}
use publaryn.Error.{ok, err, not_found}
use publaryn.Query.{◌>>=◌}
use publaryn.Domain.Ecosystem.{Ecosystem, as_str, normalize_package_name}
use publaryn.Domain.Repository.{visibility_as_str}
use publaryn.Db.{Uuid, Package, Repository}
use publaryn.Samples.{registry, registry-IsKeyed, registry-IsLinked, first_release}
use publaryn.Access.Read.{
  ensure_package_read_access, packages_with_repository, package_is_readable, visibility_allows_read,
  actor_can_read_owned_resource,
}
use publaryn.Access.Queries.{packages_by_name, is_org_member}
use publaryn.Access.Readers.{IsInsider, Openly}
use publaryn.Releases.Status.{release_status_allows_direct_read}
use publaryn.Releases.Rows.{load_release_for_write, releases_by_version}
use publaryn.Releases.Reading.{
  ensure_release_read_access, IsManager, ensure_release_read_access_sound,
}

abbrev lower : String → String
lower s = s

bob_reads :
    ensure_release_read_access lower registry Ecosystem.npm "widget" "1.0.0" (some 2)
    ≡ ok first_release
unfolding ensure_release_read_access normalize_package_name ensure_package_read_access
    packages_with_repository ◌>>=◌ packages_by_name package_is_readable visibility_allows_read
    actor_can_read_owned_resource is_org_member load_release_for_write releases_by_version as_str
bob_reads = refl

ensure_release_read_access_sound_example :
    Memᴰ first_release registry.releases
    × (first_release.version ≡ "1.0.0")
    × ((p : Package) × (r : Repository) × Memᴰ p registry.packages
        × (p.ecosystem ≡ as_str Ecosystem.npm)
        × (p.normalized_name ≡ normalize_package_name lower "widget" Ecosystem.npm)
        × (first_release.package_id ≡ p.id)
        × (r.id ≡ p.repository_id)
        × (Openly registry p r
            ⊎ ((actor : Uuid) × (some 2 ≡ some actor) × IsInsider registry p r actor)))
    × ((release_status_allows_direct_read first_release.status ≡ true)
        ⊎ IsManager registry first_release.package_id (some 2))
ensure_release_read_access_sound_example =
    ensure_release_read_access_sound lower registry registry-IsKeyed registry-IsLinked Ecosystem.npm
      "widget" "1.0.0" (some 2) first_release bob_reads

-- To a caller who is not logged in, the private package does not exist.
private_is_hidden :
    ensure_release_read_access lower registry Ecosystem.npm "widget" "1.0.0" none
    ≡ err (not_found "Package not found in ecosystem")
unfolding ensure_release_read_access normalize_package_name ensure_package_read_access
    packages_with_repository ◌>>=◌ packages_by_name package_is_readable visibility_allows_read
    actor_can_read_owned_resource is_org_member load_release_for_write releases_by_version as_str
    visibility_as_str
private_is_hidden = refl
