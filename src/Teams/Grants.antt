-- ===== src/Teams/Grants.antt =====
-- The grants of a team on packages, repositories and namespace claims: the replace_team_* and
-- remove_team_* handlers of crates/api/src/routes/orgs.rs.
use text.Mathlib.Text.{◌==◌ as str_eq}
use publaryn.Prelude.{
  String, Bool, true, false, ◌&&◌, none, some, List, [], ◌∷◌, ◌++◌, map, any, ◌==◌, ◌is◌,
  if◌then◌else◌, filter,
}
use publaryn.Error.{Result, ok, ◌>>=◌, ◌>>◌, ensure, ok_or, not_found, forbidden}
use publaryn.Query.{fetch_optional}
use publaryn.Query.Update.{delete_where}
use publaryn.Domain.Ecosystem
use publaryn.Domain.Ecosystem.{Ecosystem, parse_ecosystem, normalize_package_name}
use publaryn.Domain.TeamPermission
use publaryn.Domain.TeamPermission.{TeamPermission}
use publaryn.Db.{
  Db, Uuid, Team, Package, Repository, NamespaceClaim, TeamPackageAccess, TeamRepositoryAccess,
  TeamNamespaceAccess,
}
use publaryn.Auth.Identity.{AuthenticatedIdentity, ensure_scope, scope_orgs_write}
use publaryn.Auth.Scopes.{sort}
use publaryn.Access.Org.{ensure_org_admin_by_slug}
use publaryn.Access.Queries.{packages_by_name, repositories_by_slug, claims_by_id}
use publaryn.Teams.Handlers.{load_team_record, log_team}
use publaryn.Teams.Permissions.{
  normalize_team_permissions, normalize_namespace_team_permissions, team_permission_strings,
}

abbrev pub is_package_grant : Uuid → Uuid → TeamPackageAccess → Bool
is_package_grant team_id package_id g = g.team_id == team_id && g.package_id == package_id

abbrev pub is_repository_grant : Uuid → Uuid → TeamRepositoryAccess → Bool
is_repository_grant team_id repository_id g =
    g.team_id == team_id && g.repository_id == repository_id

abbrev pub is_namespace_grant : Uuid → Uuid → TeamNamespaceAccess → Bool
is_namespace_grant team_id claim_id g = g.team_id == team_id && g.namespace_claim_id == claim_id

abbrev pub package_grant : Uuid → Uuid → TeamPermission → TeamPackageAccess
package_grant team_id package_id permission = record {
  team_id = team_id;
  package_id = package_id;
  permission = permission;
}

abbrev pub repository_grant : Uuid → Uuid → TeamPermission → TeamRepositoryAccess
repository_grant team_id repository_id permission = record {
  team_id = team_id;
  repository_id = repository_id;
  permission = permission;
}

abbrev pub namespace_grant : Uuid → Uuid → TeamPermission → TeamNamespaceAccess
namespace_grant team_id claim_id permission = record {
  team_id = team_id;
  namespace_claim_id = claim_id;
  permission = permission;
}

module _ {A : Type 0} (test : A → Bool) (grant : TeamPermission → A)
    (permission : A → TeamPermission) where
  -- SELECT permission::text ... ORDER BY permission::text ASC.
  abbrev pub previous_permissions : List A → List String
  previous_permissions table =
      sort (map (λ g. TeamPermission.as_str (permission g)) (filter test table))

  -- The DELETE, and the INSERT of each permission.
  abbrev pub replaced : List TeamPermission → List A → List A
  replaced permissions table = map grant permissions ++ delete_where test table

abbrev pub same_texts : List String → List String → Bool
same_texts [] [] = true
same_texts (s ∷ ss) (t ∷ ts) = str_eq s t && same_texts ss ts
same_texts _ _ = false

abbrev some_texts : List String → Bool
some_texts [] = false
some_texts _ = true

unfoldable pub set_package_grants :
    AuthenticatedIdentity → Team → Uuid → List TeamPermission → Db → Db
set_package_grants identity team target_id permissions db =
    log_team "team_package_access_update" identity none team.org_id (some target_id) (record db {
      team_package_access =
          replaced (is_package_grant team.id target_id) (package_grant team.id target_id)
            (λ g. g.permission) permissions db.team_package_access;
    })

-- `previous_permissions == permission_strings`.
abbrev pub same_package_grants : Team → Uuid → List TeamPermission → Db → Bool
same_package_grants team target_id permissions db =
    same_texts
      (previous_permissions (is_package_grant team.id target_id) (package_grant team.id target_id)
        (λ g. g.permission) db.team_package_access)
      (team_permission_strings permissions)

unfoldable pub set_repository_grants :
    AuthenticatedIdentity → Team → Uuid → List TeamPermission → Db → Db
set_repository_grants identity team target_id permissions db =
    log_team "team_repository_access_update" identity none team.org_id none (record db {
      team_repository_access =
          replaced (is_repository_grant team.id target_id) (repository_grant team.id target_id)
            (λ g. g.permission) permissions db.team_repository_access;
    })

-- `previous_permissions == permission_strings`.
abbrev pub same_repository_grants : Team → Uuid → List TeamPermission → Db → Bool
same_repository_grants team target_id permissions db =
    same_texts
      (previous_permissions (is_repository_grant team.id target_id)
        (repository_grant team.id target_id) (λ g. g.permission) db.team_repository_access)
      (team_permission_strings permissions)

unfoldable pub set_namespace_grants :
    AuthenticatedIdentity → Team → Uuid → List TeamPermission → Db → Db
set_namespace_grants identity team target_id permissions db =
    log_team "team_namespace_access_update" identity none team.org_id none (record db {
      team_namespace_access =
          replaced (is_namespace_grant team.id target_id) (namespace_grant team.id target_id)
            (λ g. g.permission) permissions db.team_namespace_access;
    })

-- `previous_permissions == permission_strings`.
abbrev pub same_namespace_grants : Team → Uuid → List TeamPermission → Db → Bool
same_namespace_grants team target_id permissions db =
    same_texts
      (previous_permissions (is_namespace_grant team.id target_id)
        (namespace_grant team.id target_id) (λ g. g.permission) db.team_namespace_access)
      (team_permission_strings permissions)

unfoldable pub load_org_owned_package_for_team_access :
    (String → String) → Db → Uuid → Ecosystem → String → Result Package
load_org_owned_package_for_team_access to_lowercase db org_id ecosystem package_name = do
  package_row ←
      ok_or
        (fetch_optional (
          packages_by_name db (Ecosystem.as_str ecosystem)
            (normalize_package_name to_lowercase package_name ecosystem)))
        (not_found "Package not found in ecosystem")
  ensure (package_row.owner_org_id is org_id)
      (forbidden "Teams can only be granted access to packages owned by the same organization")
  ok package_row

unfoldable pub load_org_owned_repository_for_team_access : Db → Uuid → String → Result Repository
load_org_owned_repository_for_team_access db org_id repository_slug = do
  repository ←
      ok_or (fetch_optional (repositories_by_slug db repository_slug))
        (not_found "Repository not found")
  ensure (repository.owner_org_id is org_id)
      (forbidden "Teams can only be granted access to repositories owned by the same organization")
  ok repository

unfoldable pub load_org_owned_namespace_claim_for_team_access :
    Db → Uuid → Uuid → Result NamespaceClaim
load_org_owned_namespace_claim_for_team_access db org_id claim_id = do
  claim ← ok_or (fetch_optional (claims_by_id db claim_id)) (not_found "Namespace claim not found")
  ensure (claim.owner_org_id is org_id) (
      forbidden
        "Teams can only be granted access to namespace claims owned by the same organization")
  ok claim

-- The reply of a replacement: the permissions, whether or not they were the team's before.
module _ (to_lowercase : String → String) where
  unfoldable pub replace_team_package_access :
      Db
      → AuthenticatedIdentity
      → String
      → String
      → String
      → String
      → List String
      → Result (List TeamPermission × Db)
  replace_team_package_access db identity slug team_slug ecosystem_str name input = do
    ensure_scope identity scope_orgs_write
    org_id ← ensure_org_admin_by_slug db slug identity.user_id
    team ← load_team_record db org_id team_slug
    ecosystem ← parse_ecosystem to_lowercase ecosystem_str
    target ← load_org_owned_package_for_team_access to_lowercase db org_id ecosystem name
    permissions ← normalize_team_permissions input
    ok (
      permissions,
      (if same_package_grants team target.id permissions db
          then db
          else set_package_grants identity team target.id permissions db),
    )

  unfoldable pub remove_team_package_access :
      Db → AuthenticatedIdentity → String → String → String → String → Result Db
  remove_team_package_access db identity slug team_slug ecosystem_str name = do
    ensure_scope identity scope_orgs_write
    org_id ← ensure_org_admin_by_slug db slug identity.user_id
    team ← load_team_record db org_id team_slug
    ecosystem ← parse_ecosystem to_lowercase ecosystem_str
    target ← load_org_owned_package_for_team_access to_lowercase db org_id ecosystem name
    ensure (any (is_package_grant team.id target.id) db.team_package_access)
        (not_found "Team package access not found")
    ok (
        log_team "team_package_access_update" identity none team.org_id (some target.id)
          (record db {
            team_package_access =
                delete_where (is_package_grant team.id target.id) db.team_package_access;
          }))

unfoldable pub replace_team_repository_access :
    Db
    → AuthenticatedIdentity
    → String
    → String
    → String
    → List String
    → Result (List TeamPermission × Db)
replace_team_repository_access db identity slug team_slug repository_slug input = do
  ensure_scope identity scope_orgs_write
  org_id ← ensure_org_admin_by_slug db slug identity.user_id
  team ← load_team_record db org_id team_slug
  target ← load_org_owned_repository_for_team_access db org_id repository_slug
  permissions ← normalize_team_permissions input
  ok (
    permissions,
    (if same_repository_grants team target.id permissions db
        then db
        else set_repository_grants identity team target.id permissions db),
  )

unfoldable pub remove_team_repository_access :
    Db → AuthenticatedIdentity → String → String → String → Result Db
remove_team_repository_access db identity slug team_slug repository_slug = do
  ensure_scope identity scope_orgs_write
  org_id ← ensure_org_admin_by_slug db slug identity.user_id
  team ← load_team_record db org_id team_slug
  target ← load_org_owned_repository_for_team_access db org_id repository_slug
  ensure (any (is_repository_grant team.id target.id) db.team_repository_access)
      (not_found "Team repository access not found")
  ok (
      log_team "team_repository_access_update" identity none team.org_id none (record db {
        team_repository_access =
            delete_where (is_repository_grant team.id target.id) db.team_repository_access;
      }))

unfoldable pub replace_team_namespace_access :
    Db
    → AuthenticatedIdentity
    → String
    → String
    → Uuid
    → List String
    → Result (List TeamPermission × Db)
replace_team_namespace_access db identity slug team_slug claim_id input = do
  ensure_scope identity scope_orgs_write
  org_id ← ensure_org_admin_by_slug db slug identity.user_id
  team ← load_team_record db org_id team_slug
  target ← load_org_owned_namespace_claim_for_team_access db org_id claim_id
  permissions ← normalize_namespace_team_permissions input
  ok (
    permissions,
    (if same_namespace_grants team target.id permissions db
        then db
        else set_namespace_grants identity team target.id permissions db),
  )

unfoldable pub remove_team_namespace_access :
    Db → AuthenticatedIdentity → String → String → Uuid → Result Db
remove_team_namespace_access db identity slug team_slug claim_id = do
  ensure_scope identity scope_orgs_write
  org_id ← ensure_org_admin_by_slug db slug identity.user_id
  team ← load_team_record db org_id team_slug
  target ← load_org_owned_namespace_claim_for_team_access db org_id claim_id
  ensure (any (is_namespace_grant team.id target.id) db.team_namespace_access)
      (not_found "Team namespace access not found")
  ok (
      log_team "team_namespace_access_update" identity none team.org_id none (record db {
        team_namespace_access =
            delete_where (is_namespace_grant team.id target.id) db.team_namespace_access;
      }))
