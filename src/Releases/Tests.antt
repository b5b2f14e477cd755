-- ===== src/Releases/Tests.antt =====
-- Runs of the release handlers.
use publaryn.Prelude.{◌≡◌, refl, String, true, false, none, some, [], ◌∷◌, Memᴰ, contains}
use publaryn.Error.{ok}
use publaryn.Query.{◌>>=◌}
use publaryn.Query.Update.{update_where}
use publaryn.Domain.Release.{ReleaseStatus}
use publaryn.Domain.Ecosystem
use publaryn.Domain.OrgRole
use publaryn.Domain.Ecosystem.{
  parse_ecosystem, normalize_package_name, normalize_pypi_name, IsPep503,
  normalize_pypi_name-IsPep503,
}
use publaryn.Db.{IsKeyed, IsLinked, Db, Release, Package, AuditLog}
use publaryn.Auth.Identity.{ensure_scope, scope_packages_write, audit_actor_token_id}
use publaryn.Access.Write.{
  ensure_package_access_by_requirement, ensure_allowed, authorize_package_write_access,
}
use publaryn.Access.Org.{authorize_org_write_roles}
use publaryn.Access.Outcomes.{resolve_org_write_role_access}
use publaryn.Access.Queries.{packages_by_name, packages_by_id, org_write_rows}
use publaryn.Access.Requirements.{package_org_roles, PackageAccessRequirement}
use publaryn.Access.Grants.{MayWrite}
use publaryn.Samples.{registry, registry-IsKeyed, registry-IsLinked, first_release, ada_by_token}
use publaryn.Releases.Status.{release_status_after_unyank}
use publaryn.Releases.Rows.{
  releases_by_version, update_releases, log_release, set_yanked, set_unyanked,
  load_release_for_write, owner_org_of,
}
use publaryn.Releases.Handlers.{
  create_release, validate_version, version_looks_prerelease, or_default, ReleasePath,
  package_for_publish, unyank_release,
}
use publaryn.Releases.Consistent.{IsSound}
use publaryn.Releases.History.{initially, then_change, creates, reachable_releases-IsSound}
use publaryn.Releases.Effects.{unyank_release-authorized}

abbrev lower : String → String
lower s = s

abbrev widget_path : ReleasePath
widget_path = record { ecosystem = "npm"; name = "widget"; version = "1.0.0" }

abbrev yanked_registry : Db
yanked_registry = record registry {
  releases = set_yanked (some "broken") first_release ∷ [];
  audit_logs =
      record {
        action = "release_yank";
        actor_user_id = 1;
        actor_token_id = some 90;
        target_user_id = none;
        target_org_id = some 10;
        target_package_id = some 40;
        target_release_id = some 50;
      }
      ∷ [];
}

-- A yanked release whose manifest was deleted.
abbrev lost : Release
lost = record (set_yanked none first_release) { status = ReleaseStatus.deleted }

abbrev lost_registry : Db
lost_registry = record registry { releases = lost ∷ [] }

asked_lost : package_for_publish lower lost_registry ada_by_token "npm" "widget" ≡ ok 40
unfolding package_for_publish ensure_scope parse_ecosystem ensure_package_access_by_requirement
    ensure_allowed packages_by_name ◌>>=◌ Ecosystem.as_str normalize_package_name
    authorize_package_write_access authorize_org_write_roles org_write_rows package_org_roles
    OrgRole.as_str resolve_org_write_role_access
asked_lost = refl

lost_registry-IsKeyed : IsKeyed lost_registry
lost_registry-IsKeyed = record {
  user_key = registry-IsKeyed.user_key;
  org_key = registry-IsKeyed.org_key;
  membership_key = registry-IsKeyed.membership_key;
  package_key = registry-IsKeyed.package_key;
  repository_key = registry-IsKeyed.repository_key;
  claim_key = registry-IsKeyed.claim_key;
}

lost_registry-IsLinked : IsLinked lost_registry
lost_registry-IsLinked = record {
  member_user = registry-IsLinked.member_user;
  member_org = registry-IsLinked.member_org;
  team_org = registry-IsLinked.team_org;
  team_user = registry-IsLinked.team_user;
  package_repository = registry-IsLinked.package_repository;
}

-- The flag is taken back, and the deleted release is published.
abbrev revived_registry : Db
revived_registry = record lost_registry {
  releases = set_unyanked ReleaseStatus.published lost ∷ [];
  audit_logs =
      record {
        action = "release_unyank";
        actor_user_id = 1;
        actor_token_id = some 90;
        target_user_id = none;
        target_org_id = some 10;
        target_package_id = some 40;
        target_release_id = some 50;
      }
      ∷ [];
}

ada_unyanks :
    unyank_release lower lost_registry ada_by_token widget_path
    ≡ ok (ReleaseStatus.published, revived_registry)
unfolding unyank_release load_release_for_write releases_by_version owner_org_of packages_by_id
    release_status_after_unyank update_releases update_where log_release ◌>>=◌ audit_actor_token_id
ada_unyanks = rw asked_lost refl

unyank_release-authorized_example :
    (contains ada_by_token.scopes scope_packages_write ≡ true)
    × ((p : Package) × (r : Release) × (k : Release) × Memᴰ p lost_registry.packages
        × MayWrite lost_registry p 1 PackageAccessRequirement.publish
        × Memᴰ r lost_registry.releases
        × (r.package_id ≡ p.id)
        × (r.version ≡ "1.0.0")
        × (r.is_yanked ≡ true)
        × Memᴰ k revived_registry.releases
        × (k.id ≡ r.id)
        × (k.is_yanked ≡ false)
        × (k.yank_reason ≡ none)
        × (k.is_deprecated ≡ r.is_deprecated)
        × (r.is_deprecated ≡ false → k.status ≡ ReleaseStatus.published)
        × (r.is_deprecated ≡ true → k.status ≡ ReleaseStatus.deprecated)
        × (ReleaseStatus.published ≡ k.status)
        × ((entry : AuditLog) × (revived_registry.audit_logs ≡ entry ∷ lost_registry.audit_logs)
            × (entry.action ≡ "release_unyank")
            × (entry.actor_user_id ≡ 1)
            × (entry.actor_token_id ≡ audit_actor_token_id ada_by_token)
            × (entry.target_release_id ≡ some r.id)))
unyank_release-authorized_example =
    unyank_release-authorized lower lost_registry ada_by_token widget_path lost_registry-IsKeyed
      lost_registry-IsLinked ReleaseStatus.published revived_registry ada_unyanks

-- A registry without releases, in which one is created.
abbrev bare : Db
bare = record registry { releases = [] }

abbrev created : Db
created = record bare {
  releases = record first_release { version = "2.0.0"; status = ReleaseStatus.quarantine } ∷ [];
}

asked_bare : package_for_publish lower bare ada_by_token "npm" "widget" ≡ ok 40
unfolding package_for_publish ensure_scope parse_ecosystem ensure_package_access_by_requirement
    ensure_allowed packages_by_name ◌>>=◌ Ecosystem.as_str normalize_package_name
    authorize_package_write_access authorize_org_write_roles org_write_rows package_org_roles
    OrgRole.as_str resolve_org_write_role_access
asked_bare = refl

ada_creates :
    create_release lower bare ada_by_token (record widget_path { version = "2.0.0" }) none 50
    ≡ ok (50, created)
unfolding create_release validate_version releases_by_version version_looks_prerelease or_default
    ◌>>=◌
ada_creates = rw asked_bare refl

reachable_releases-IsSound_example : IsSound created.releases
reachable_releases-IsSound_example = reachable_releases-IsSound lower created (
    then_change bare created (initially bare refl) (
      creates bare created ada_by_token (record widget_path { version = "2.0.0" }) none 50 50
        (λ r m. elim m [ ]) ada_creates))
