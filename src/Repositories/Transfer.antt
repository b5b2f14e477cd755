-- ===== src/Repositories/Transfer.antt =====
-- The transfer of a repository to an organization.
use mathlib.Core.Path.{subst}
use text.Mathlib.Text.{◌==◌ as str_eq}
use publaryn.Prelude.{
  ◌≡◌, ◌≢◌, refl, sym, String, true, ◌&&◌, Option, none, some, Memᴰ, arith, ◌==◌, ==_iff, eq_iff,
  and_parts, contains, some_injective,
}
use publaryn.Error.{
  ok, >>=-ok_inv, >>-ok_inv, ensure, ensure-ok_inv, ok_or, ok_or-ok_inv, ok_injective, forbidden,
  not_found,
}
use publaryn.Query.{fetch_optional, exists, exists-mem, fetch-mem, bind-mem_inv, only-mem_inv}
use publaryn.Query.Update.{update_where, delete_where}
use publaryn.Domain.OrgRole.{as_str}
use publaryn.Db.{Db, Uuid, Organization, OrgMembership, Repository}
use publaryn.Auth.Identity.{AuthenticatedIdentity, ensure_scope}
use publaryn.Access.Requirements.{RepositoryAccessRequirement, org_admin_roles}
use publaryn.Access.Rows.{row_inv}
use publaryn.Access.Queries.{repositories_by_slug}
use publaryn.Access.Write.{ensure_repository_access_by_requirement}
use publaryn.Members.Handlers.{organizations_by_slug}
use publaryn.Repositories.Handlers.{
  RepositoryOwner, scope_repositories_transfer, validate_slug, set_owner, is_repository,
  is_grant_on, repository_owner_from_fields, validate_repository_transfer_target, admin_memberships,
  log_transfer, transfer_repository_ownership,
}

pub repositories_by_slug-mem_inv :
    (db : Db) (slug : String) {r : Repository}
    → Memᴰ r (repositories_by_slug db slug)
    → Memᴰ r db.repositories × (r.slug ≡ slug)
unfolding repositories_by_slug
repositories_by_slug-mem_inv db slug {r} m =
    let (x, x_mem, inside) = bind-mem_inv db.repositories _ m in
    let (test, here) = only-mem_inv (str_eq x.slug slug) _ inside in
    let same = row_inv here in (rw same x_mem, rw same ((eq_iff _ _).0 test))

organizations_by_slug-mem_inv :
    (db : Db) (slug : String) {o : Organization}
    → Memᴰ o (organizations_by_slug db slug)
    → Memᴰ o db.organizations × (o.slug ≡ slug)
unfolding organizations_by_slug
organizations_by_slug-mem_inv db slug {o} m =
    let (x, x_mem, inside) = bind-mem_inv db.organizations _ m in
    let (test, here) = only-mem_inv (str_eq x.slug slug) _ inside in
    let same = row_inv here in (rw same x_mem, rw same ((eq_iff _ _).0 test))

-- The user is an owner or admin of the organization.
abbrev pub IsAdminOf : Db → Uuid → Uuid → Type 0
IsAdminOf db org_id user_id =
    (m : OrgMembership) × Memᴰ m db.org_memberships
    × (m.org_id ≡ org_id)
    × (m.user_id ≡ user_id)
    × (contains org_admin_roles (as_str m.role) ≡ true)

admin_memberships-IsAdminOf :
    (db : Db) (org_id user_id : Uuid)
    → exists (admin_memberships db org_id user_id) ≡ true
    → IsAdminOf db org_id user_id
unfolding admin_memberships
admin_memberships-IsAdminOf db org_id user_id h =
    let (m, found) = exists-mem _ h in
    let (x, x_mem, inside) = bind-mem_inv db.org_memberships _ found in
    let (test, here) =
      only-mem_inv
        (x.org_id == org_id && x.user_id == user_id && contains org_admin_roles (as_str x.role)) _
        inside in
    let (both, role) = and_parts _ _ test in
    let (org, user) = and_parts _ _ both in
    (x, x_mem, (==_iff _ _).0 org, (==_iff _ _).0 user, role)

new_owner :
    (user org : Option Uuid) (owner : RepositoryOwner) (target : Uuid)
    → repository_owner_from_fields user org ≡ ok owner
    → validate_repository_transfer_target owner target ≡ ok tt
    → org ≢ some target
unfolding repository_owner_from_fields validate_repository_transfer_target
new_owner (some u) none owner target h v e = ground arith
new_owner (some u) (some o) owner target h v e = ground arith
new_owner none none owner target h v e = ground arith
new_owner none (some o) owner target h v e =
    let is = ok_injective h in
    let apart =
      ensure-ok_inv _ _
        (subst (λ x. validate_repository_transfer_target x target ≡ ok tt) (sym is) v) in
    let met : (o == target) ≡ true = (==_iff _ _).1 (some_injective e) in ground arith

-- What a granted transfer rests on, and the tables it leaves.
pub record Transferred (db : Db) (actor : Uuid) (slug target_slug : String) (r : Repository)
    (o : Organization) (db' : Db) : Type 0 where
  pub may_transfer :
      (id : Uuid) × (ensure_repository_access_by_requirement db slug actor
          RepositoryAccessRequirement.transfer_ownership
        ≡ ok id)
  pub repository : Memᴰ r db.repositories × (r.slug ≡ slug)
  pub target : Memᴰ o db.organizations × (o.slug ≡ target_slug)
  pub controls : IsAdminOf db o.id actor
  pub elsewhere : r.owner_org_id ≢ some o.id
  pub repositories :
      db'.repositories ≡ update_where (is_repository r.id) (set_owner o.id) db.repositories
  pub grants :
      db'.team_repository_access ≡ delete_where (is_grant_on r.id) db.team_repository_access

pub transfer-Transferred :
    (db : Db) (identity : AuthenticatedIdentity) (slug target_slug : String) {r : Repository}
    {o : Organization} {db' : Db}
    → transfer_repository_ownership db identity slug target_slug ≡ ok ((r, o), db')
    → Transferred db identity.user_id slug target_slug r o db'
unfolding transfer_repository_ownership log_transfer
transfer-Transferred db identity slug target_slug h =
    let (a, h1) = >>-ok_inv (ensure_scope identity scope_repositories_transfer) _ h in
    let (b, h2) = >>-ok_inv (validate_slug target_slug) _ h1 in
    let (id, allowed, h3) =
      >>=-ok_inv
        (ensure_repository_access_by_requirement db slug identity.user_id
          RepositoryAccessRequirement.transfer_ownership)
        _ h2 in
    let (repository, found, h4) =
      >>=-ok_inv
        (ok_or (fetch_optional (repositories_by_slug db slug)) (not_found "Repository not found")) _
        h3 in
    let (owner, owned, h5) =
      >>=-ok_inv (repository_owner_from_fields repository.owner_user_id repository.owner_org_id) _
        h4 in
    let (org, org_found, h6) =
      >>=-ok_inv
        (ok_or (fetch_optional (organizations_by_slug db target_slug))
          (not_found "Organization not found"))
        _ h5 in
    let (admin, h7) =
      >>-ok_inv
        (ensure (exists (admin_memberships db org.id identity.user_id)) (
          forbidden
            "Transferring a repository into an organization requires owner or admin membership in the target organization"))
        _ h6 in
    let (apart, h8) = >>-ok_inv (validate_repository_transfer_target owner org.id) _ h7 in
    let done = ok_injective h8 in
    let transferred : Transferred db identity.user_id slug target_slug repository org _ = record {
      may_transfer = (id, allowed);
      repository = repositories_by_slug-mem_inv db slug (fetch-mem _ (ok_or-ok_inv _ _ found));
      target =
          organizations_by_slug-mem_inv db target_slug (fetch-mem _ (ok_or-ok_inv _ _ org_found));
      controls = admin_memberships-IsAdminOf db org.id identity.user_id (ensure-ok_inv _ _ admin);
      elsewhere =
          new_owner repository.owner_user_id repository.owner_org_id owner org.id owned apart;
      repositories = refl;
      grants = refl;
    } in
    subst (λ p. Transferred db identity.user_id slug target_slug p.0.0 p.0.1 p.1) done transferred
