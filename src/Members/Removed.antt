-- ===== src/Members/Removed.antt =====
-- The teams of a member that `remove_member` of crates/api/src/routes/orgs.rs removes.
use mathlib.Core.Path.{subst}
use publaryn.Prelude.{◌≡◌, refl, ap, String, not}
use publaryn.Error.{ok, >>=-ok_inv, >>-ok_inv, ok_injective, ensure, ok_or, not_found, forbidden}
use publaryn.Query.{fetch_optional}
use publaryn.Domain.OrgRole.{is_owner}
use publaryn.Db.{Db, Uuid}
use publaryn.Auth.Identity.{AuthenticatedIdentity, ensure_scope, scope_orgs_write}
use publaryn.Access.Requirements.{Names}
use publaryn.Access.Org.{ensure_org_admin_by_slug}
use publaryn.Access.Write.{
  actor_has_team_package_permissions, actor_has_team_repository_permissions,
  actor_has_team_namespace_permissions,
}
use publaryn.Access.Queries.{
  team_package_rows, team_repository_rows, team_namespace_rows, team_grant_rows,
}
use publaryn.Members.Handlers.{users_by_username, memberships, log_member, remove_member}

-- The teams of an actor give the same access in two databases.
abbrev pub SameTeamAccess : Db → Db → Uuid → Type 0
SameTeamAccess db db' actor =
    ((id : Uuid) (permissions : Names)
      → actor_has_team_package_permissions db' id actor permissions
        ≡ actor_has_team_package_permissions db id actor permissions)
    × ((id : Uuid) (permissions : Names)
        → actor_has_team_repository_permissions db' id actor permissions
          ≡ actor_has_team_repository_permissions db id actor permissions)
    × ((id : Uuid) (permissions : Names)
        → actor_has_team_namespace_permissions db' id actor permissions
          ≡ actor_has_team_namespace_permissions db id actor permissions)

-- The removal of a member from an organization leaves everything that the member's teams give: the
-- user passes or fails each check of a team's permission, on packages, repositories and namespace
-- claims, as before.
pub remove_member-SameTeamAccess :
    (db : Db) (identity : AuthenticatedIdentity) (slug username : String) {user : Uuid} {db' : Db}
    → remove_member db identity slug username ≡ ok (user, db')
    → SameTeamAccess db db' user
unfolding remove_member log_member actor_has_team_package_permissions
    actor_has_team_repository_permissions actor_has_team_namespace_permissions team_package_rows
    team_repository_rows team_namespace_rows team_grant_rows
remove_member-SameTeamAccess db identity slug username {user} h =
    let (a, h1) = >>-ok_inv (ensure_scope identity scope_orgs_write) _ h in
    let (org_id, b, h2) = >>=-ok_inv (ensure_org_admin_by_slug db slug identity.user_id) _ h1 in
    let (u, c, h3) =
      >>=-ok_inv
        (ok_or (fetch_optional (users_by_username db username)) (not_found "User not found")) _
        h2 in
    let (membership, d, h4) =
      >>=-ok_inv
        (ok_or (fetch_optional (memberships db org_id u.id)) (not_found "Membership not found")) _
        h3 in
    let (e, h5) =
      >>-ok_inv
        (ensure (not (is_owner membership.role))
          (forbidden "Owner membership cannot be removed through this endpoint"))
        _ h4 in
    subst (λ d. SameTeamAccess db d user) (ap (λ p. p.1) (ok_injective h5))
      ((λ id permissions. refl), (λ id permissions. refl), (λ id permissions. refl))
