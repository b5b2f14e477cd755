-- ===== src/Access/Tests.antt =====
-- Runs of the access checks on a small registry.
use publaryn.Prelude.{◌≡◌, refl, sym, true, some, Memᴰ, arith, All-mem, some_injective, ◌↔◌, ◌⊎◌}
use publaryn.Error.{ok}
use publaryn.Domain.OrgRole
use publaryn.Domain.OrgRole.{OrgRole}
use publaryn.Db.{Uuid, Repository, Package}
use publaryn.Query.{◌>>=◌}
use publaryn.Access.Queries.{is_org_member, packages_by_name, org_write_rows}
use publaryn.Access.Org.{authorize_org_write_roles}
use publaryn.Access.Read.{
  actor_can_read_owned_resource, visibility_allows_read, ensure_package_read_access,
  package_is_readable, packages_with_repository,
}
use publaryn.Access.Readers.{IsInsider, Openly, ensure_package_read_access_sound}
use publaryn.Access.Ensured.{ensure_package_access_sound}
use publaryn.Samples.{registry, registry-IsKeyed, registry-IsLinked, widget}
use publaryn.Access.Requirements.{package_org_roles, PackageAccessRequirement}
use publaryn.Access.Outcomes.{resolve_org_write_role_access, TeamWriteAccess}
use publaryn.Access.Grants.{MayWrite, MfaOk}
use publaryn.Access.Authorized.{package_check}
use publaryn.Access.Authorized.Complete.{package_check_iff}
use publaryn.Access.Write.{
  ensure_package_access_by_requirement, ensure_allowed, authorize_package_write_access,
}

ada_mfa : MfaOk registry 10 1
ada_mfa o u o_mem o_id u_mem u_id required =
    All-mem (λ v. v.id ≡ 1 → v.mfa_enabled ≡ true) registry.users
      ((λ e. refl), ((λ e. ground arith), tt)) u_mem u_id

package_check_iff_example :
    (package_check registry registry-IsKeyed registry-IsLinked widget
        (Memᴰ.head refl)
        1
        PackageAccessRequirement.publish
      ≡ TeamWriteAccess.allowed)
    ↔ MayWrite registry widget 1 PackageAccessRequirement.publish
package_check_iff_example =
    package_check_iff registry registry-IsKeyed registry-IsLinked widget (Memᴰ.head refl) 1
      PackageAccessRequirement.publish (λ org owned. rw (sym (some_injective owned)) ada_mfa)

ada_may_publish :
    ensure_package_access_by_requirement registry "npm" "widget" 1 PackageAccessRequirement.publish
    ≡ ok 40
unfolding ensure_package_access_by_requirement ensure_allowed authorize_package_write_access
    packages_by_name ◌>>=◌ authorize_org_write_roles org_write_rows package_org_roles OrgRole.as_str
    resolve_org_write_role_access
ada_may_publish = refl

ensure_package_access_sound_example :
    (p : Package) × Memᴰ p registry.packages
    × (p.ecosystem ≡ "npm")
    × (p.normalized_name ≡ "widget")
    × (p.id ≡ 40)
    × MayWrite registry p 1 PackageAccessRequirement.publish
ensure_package_access_sound_example =
    ensure_package_access_sound registry registry-IsKeyed registry-IsLinked "npm" "widget" 1
      PackageAccessRequirement.publish 40 ada_may_publish

bob_may_read : ensure_package_read_access registry "npm" "widget" (some 2) ≡ ok 40
unfolding ensure_package_read_access packages_with_repository ◌>>=◌ packages_by_name
    package_is_readable visibility_allows_read actor_can_read_owned_resource is_org_member
bob_may_read = refl

ensure_package_read_access_sound_example :
    (p : Package) × (r : Repository) × Memᴰ p registry.packages
    × Memᴰ r registry.repositories
    × (p.ecosystem ≡ "npm")
    × (p.normalized_name ≡ "widget")
    × (p.id ≡ 40)
    × (r.id ≡ p.repository_id)
    × (Openly registry p r
        ⊎ ((actor : Uuid) × (some 2 ≡ some actor) × IsInsider registry p r actor))
ensure_package_read_access_sound_example =
    ensure_package_read_access_sound registry "npm" "widget" (some 2) 40 bob_may_read
