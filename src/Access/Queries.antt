-- ===== src/Access/Queries.antt =====
-- The SELECTs of crates/api/src/request_auth.rs and crates/core/src/authz_queries.rs.
use text.Mathlib.Text.{◌==◌ as str_eq}
use publaryn.Prelude.{String, Option, Bool, true, ◌&&◌, List, ◌==◌, ◌is◌, contains}
use publaryn.Query.{◌>>=◌, ◌>>◌, row, exists}
use publaryn.Domain.OrgRole
use publaryn.Domain.TeamPermission
use publaryn.Domain.TeamPermission.{TeamPermission}
use publaryn.Db.{
  Db, Uuid, Repository, Package, NamespaceClaim, TeamPackageAccess, TeamRepositoryAccess,
  TeamNamespaceAccess,
}
use publaryn.Access.Requirements.{Names}

-- A row `role, mfa_required, mfa_enabled`.
abbrev pub RoleRow : Type 0
RoleRow = String × Bool × Bool

-- A row `mfa_required, mfa_enabled`.
abbrev pub MfaRow : Type 0
MfaRow = Bool × Bool

-- The three grant tables and what they grant access to have the same columns under other names.
pub record GrantTable (G R : Type 0) : Type 0 where
  pub team_id : G → Uuid
  pub resource_id : G → Uuid
  pub permission : G → TeamPermission
  pub id : R → Uuid
  pub owner_org_id : R → Option Uuid

abbrev pub package_grants : GrantTable TeamPackageAccess Package
package_grants = record {
  team_id = λ g. g.team_id;
  resource_id = λ g. g.package_id;
  permission = λ g. g.permission;
  id = λ p. p.id;
  owner_org_id = λ p. p.owner_org_id;
}

abbrev pub repository_grants : GrantTable TeamRepositoryAccess Repository
repository_grants = record {
  team_id = λ g. g.team_id;
  resource_id = λ g. g.repository_id;
  permission = λ g. g.permission;
  id = λ r. r.id;
  owner_org_id = λ r. r.owner_org_id;
}

abbrev pub namespace_grants : GrantTable TeamNamespaceAccess NamespaceClaim
namespace_grants = record {
  team_id = λ g. g.team_id;
  resource_id = λ g. g.namespace_claim_id;
  permission = λ g. g.permission;
  id = λ c. c.id;
  owner_org_id = λ c. c.owner_org_id;
}

-- The query that the three team checks share, over their own tables.
unfoldable pub team_grant_rows :
    {G R : Type 0} → GrantTable G R → Db → List G → List R → Uuid → Uuid → Names → List MfaRow
team_grant_rows table db grants resources resource_id actor_user_id allowed_permissions = do
  tra ← grants
  tm ← db.team_memberships
  tm.team_id == table.team_id tra
  t ← db.teams
  t.id == table.team_id tra
  r ← resources
  table.id r == table.resource_id tra
  o ← db.organizations
  o.id == t.org_id
  u ← db.users
  u.id == tm.user_id
  table.resource_id tra == resource_id
      && tm.user_id == actor_user_id
      && table.owner_org_id r is t.org_id
  contains allowed_permissions (TeamPermission.as_str (table.permission tra))
  row (o.mfa_required, u.mfa_enabled)

module _ (db : Db) where
  -- The query of `actor_has_org_roles`.
  unfoldable pub org_role_rows : Uuid → Uuid → Names → List Bool
  org_role_rows org_id actor_user_id allowed_roles = do
    om ← db.org_memberships
    om.org_id == org_id && om.user_id == actor_user_id
    contains allowed_roles (OrgRole.as_str om.role)
    row true

  unfoldable pub actor_has_org_roles : Uuid → Uuid → Names → Bool
  unfolding org_role_rows
  actor_has_org_roles org_id actor_user_id allowed_roles =
      exists (org_role_rows org_id actor_user_id allowed_roles)

  -- The query of `authorize_org_write_roles`.
  unfoldable pub org_write_rows : Uuid → Uuid → Names → List RoleRow
  org_write_rows org_id actor_user_id allowed_roles = do
    om ← db.org_memberships
    o ← db.organizations
    o.id == om.org_id
    u ← db.users
    u.id == om.user_id
    om.org_id == org_id && om.user_id == actor_user_id
    contains allowed_roles (OrgRole.as_str om.role)
    row (OrgRole.as_str om.role, o.mfa_required, u.mfa_enabled)

  -- The query of `authorize_org_member_directory_access`.
  unfoldable pub member_directory_rows : Uuid → Uuid → List (String × Bool)
  member_directory_rows org_id actor_user_id = do
    om ← db.org_memberships
    o ← db.organizations
    o.id == om.org_id
    om.org_id == org_id && om.user_id == actor_user_id
    row (OrgRole.as_str om.role, o.member_directory_is_private)

  unfoldable pub member_rows : Uuid → Uuid → List Bool
  member_rows org_id actor_user_id = do
    om ← db.org_memberships
    om.org_id == org_id && om.user_id == actor_user_id
    row true

  unfoldable pub is_org_member : Uuid → Uuid → Bool
  unfolding member_rows
  is_org_member org_id actor_user_id = exists (member_rows org_id actor_user_id)

  -- The query of `actor_has_team_package_permissions`.
  unfoldable pub team_package_rows : Uuid → Uuid → Names → List MfaRow
  unfolding team_grant_rows
  team_package_rows = team_grant_rows package_grants db db.team_package_access db.packages

  -- The query of `actor_has_team_repository_permissions`.
  unfoldable pub team_repository_rows : Uuid → Uuid → Names → List MfaRow
  unfolding team_grant_rows
  team_repository_rows =
      team_grant_rows repository_grants db db.team_repository_access db.repositories

  -- The query of `actor_has_team_namespace_permissions`.
  unfoldable pub team_namespace_rows : Uuid → Uuid → Names → List MfaRow
  unfolding team_grant_rows
  team_namespace_rows =
      team_grant_rows namespace_grants db db.team_namespace_access db.namespace_claims

  unfoldable pub any_team_package_rows : Uuid → Uuid → List Bool
  any_team_package_rows package_id actor_user_id = do
    tpa ← db.team_package_access
    tm ← db.team_memberships
    tm.team_id == tpa.team_id
    t ← db.teams
    t.id == tpa.team_id
    p ← db.packages
    p.id == tpa.package_id
    tpa.package_id == package_id && tm.user_id == actor_user_id && p.owner_org_id is t.org_id
    row true

  unfoldable pub actor_has_any_team_package_access : Uuid → Uuid → Bool
  unfolding any_team_package_rows
  actor_has_any_team_package_access package_id actor_user_id =
      exists (any_team_package_rows package_id actor_user_id)

  unfoldable pub any_team_repository_rows : Uuid → Uuid → List Bool
  any_team_repository_rows repository_id actor_user_id = do
    tra ← db.team_repository_access
    tm ← db.team_memberships
    tm.team_id == tra.team_id
    t ← db.teams
    t.id == tra.team_id
    r ← db.repositories
    r.id == tra.repository_id
    tra.repository_id == repository_id && tm.user_id == actor_user_id && r.owner_org_id is t.org_id
    row true

  unfoldable pub actor_has_any_team_repository_access : Uuid → Uuid → Bool
  unfolding any_team_repository_rows
  actor_has_any_team_repository_access repository_id actor_user_id =
      exists (any_team_repository_rows repository_id actor_user_id)

  -- The query of `fetch_package_ownership` and `ensure_package_read_access`.
  unfoldable pub packages_by_name : String → String → List Package
  packages_by_name ecosystem normalized_name = do
    p ← db.packages
    str_eq p.ecosystem ecosystem && str_eq p.normalized_name normalized_name
    row p

  unfoldable pub packages_by_id : Uuid → List Package
  packages_by_id package_id = do p ← db.packages; p.id == package_id; row p

  unfoldable pub repositories_by_slug : String → List Repository
  repositories_by_slug slug = do r ← db.repositories; str_eq r.slug slug; row r

  unfoldable pub repositories_by_id : Uuid → List Repository
  repositories_by_id repository_id = do r ← db.repositories; r.id == repository_id; row r

  unfoldable pub claims_by_id : Uuid → List NamespaceClaim
  claims_by_id namespace_claim_id = do nc ← db.namespace_claims; nc.id == namespace_claim_id; row nc

  unfoldable pub org_ids_by_slug : String → List Uuid
  org_ids_by_slug slug = do o ← db.organizations; str_eq o.slug slug; row o.id
