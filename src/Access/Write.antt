-- ===== src/Access/Write.antt =====
-- Write access to a repository, a package and a namespace claim: the owner, a role in the owning
-- organization, or a grant to a team of it, in this order.
use publaryn.Prelude.{String, Bool, true, false, Option, none, some, ◌is◌, if◌then◌else◌}
use publaryn.Error.{Result, ok, err, ◌>>=◌, ok_or, forbidden, not_found}
use publaryn.Query.{fetch_optional}
use publaryn.Db.{Db, Uuid}
use publaryn.Access.Requirements.{
  Names, PackageAccessRequirement, RepositoryAccessRequirement, NamespaceClaimAccessRequirement,
  org_admin_roles, package_org_roles, package_team_permissions, package_repository_permissions,
  package_denial_message, repository_team_permissions, repository_denial_message,
  namespace_team_permissions, namespace_denial_message,
}
use publaryn.Access.Outcomes.{
  OrgWriteRoleAccess, TeamWriteAccess, resolve_team_write_access, is_write_access_allowed,
  org_mfa_required_for_write_error,
}
use publaryn.Access.Queries.{
  MfaRow, team_package_rows, team_repository_rows, team_namespace_rows, packages_by_name,
  packages_by_id, repositories_by_slug, repositories_by_id, claims_by_id,
}
use publaryn.Access.Org.{authorize_org_write_roles}

-- What the three team checks make of their row: absent values count as `false`.
unfoldable pub resolve_team_row : Option MfaRow → TeamWriteAccess
resolve_team_row none = resolve_team_write_access false false false
resolve_team_row (some (required, enabled)) = resolve_team_write_access true required enabled

-- `match access { Allowed => return .., MfaRequired => return .., MissingRole => {} }` and the rest.
or_else : OrgWriteRoleAccess → TeamWriteAccess → TeamWriteAccess
or_else OrgWriteRoleAccess.allowed rest = TeamWriteAccess.allowed
or_else OrgWriteRoleAccess.mfa_required rest = TeamWriteAccess.mfa_required
or_else OrgWriteRoleAccess.missing_role rest = rest

-- The same over the outcome of a team check.
or_else_team : TeamWriteAccess → TeamWriteAccess → TeamWriteAccess
or_else_team TeamWriteAccess.missing_permission rest = rest
or_else_team access rest = access

-- The closing match of the `ensure_*_access_by_requirement` functions.
unfoldable pub ensure_allowed : {A : Type 0} → A → String → TeamWriteAccess → Result A
ensure_allowed a denial TeamWriteAccess.allowed = ok a
ensure_allowed a denial TeamWriteAccess.mfa_required = err org_mfa_required_for_write_error
ensure_allowed a denial TeamWriteAccess.missing_permission = err (forbidden denial)

module _ (db : Db) where
  unfoldable pub actor_has_team_package_permissions : Uuid → Uuid → Names → TeamWriteAccess
  unfolding resolve_team_row
  actor_has_team_package_permissions package_id actor_user_id allowed_permissions =
      resolve_team_row
        (fetch_optional (team_package_rows db package_id actor_user_id allowed_permissions))

  unfoldable pub actor_has_team_repository_permissions : Uuid → Uuid → Names → TeamWriteAccess
  unfolding resolve_team_row
  actor_has_team_repository_permissions repository_id actor_user_id allowed_permissions =
      resolve_team_row
        (fetch_optional (team_repository_rows db repository_id actor_user_id allowed_permissions))

  unfoldable pub actor_has_team_namespace_permissions : Uuid → Uuid → Names → TeamWriteAccess
  unfolding resolve_team_row
  actor_has_team_namespace_permissions namespace_claim_id actor_user_id allowed_permissions =
      resolve_team_row (
        fetch_optional
          (team_namespace_rows db namespace_claim_id actor_user_id allowed_permissions))

  -- The arguments after the id are the owner fields of the repository.
  repository_org_access : Uuid → Option Uuid → Uuid → Names → TeamWriteAccess
  unfolding or_else
  repository_org_access repository_id none actor_user_id allowed_permissions =
      TeamWriteAccess.missing_permission
  repository_org_access repository_id (some owner_org_id) actor_user_id allowed_permissions =
      or_else (authorize_org_write_roles db owner_org_id actor_user_id org_admin_roles)
        (actor_has_team_repository_permissions repository_id actor_user_id allowed_permissions)

  unfoldable pub authorize_repository_write_access :
      Uuid → Option Uuid → Option Uuid → Uuid → Names → TeamWriteAccess
  unfolding repository_org_access
  authorize_repository_write_access repository_id owner_user_id owner_org_id actor_user_id
        allowed_permissions =
      if owner_user_id is actor_user_id
      then TeamWriteAccess.allowed
      else repository_org_access repository_id owner_org_id actor_user_id allowed_permissions

  package_org_access : Uuid → Uuid → Option Uuid → Uuid → PackageAccessRequirement → TeamWriteAccess
  unfolding or_else or_else_team
  package_org_access package_id repository_id none actor_user_id requirement =
      TeamWriteAccess.missing_permission
  package_org_access package_id repository_id (some owner_org_id) actor_user_id requirement =
      or_else
        (authorize_org_write_roles db owner_org_id actor_user_id (package_org_roles requirement))
        (or_else_team
          (actor_has_team_package_permissions package_id actor_user_id
            (package_team_permissions requirement))
          (actor_has_team_repository_permissions repository_id actor_user_id
            (package_repository_permissions requirement)))

  unfoldable pub authorize_package_write_access :
      Uuid → Uuid → Option Uuid → Option Uuid → Uuid → PackageAccessRequirement → TeamWriteAccess
  unfolding package_org_access
  authorize_package_write_access package_id repository_id owner_user_id owner_org_id actor_user_id
        requirement =
      if owner_user_id is actor_user_id
      then TeamWriteAccess.allowed
      else package_org_access package_id repository_id owner_org_id actor_user_id requirement

  unfoldable pub ensure_package_access_by_requirement :
      String → String → Uuid → PackageAccessRequirement → Result Uuid
  unfolding ensure_allowed
  ensure_package_access_by_requirement ecosystem normalized_name actor_user_id requirement = do
    p ←
        ok_or (fetch_optional (packages_by_name db ecosystem normalized_name))
          (not_found "Package not found in ecosystem")
    ensure_allowed p.id (package_denial_message requirement) (
        authorize_package_write_access p.id p.repository_id p.owner_user_id p.owner_org_id
          actor_user_id requirement)

  unfoldable pub ensure_repository_access_by_requirement :
      String → Uuid → RepositoryAccessRequirement → Result Uuid
  unfolding ensure_allowed
  ensure_repository_access_by_requirement slug actor_user_id requirement = do
    r ← ok_or (fetch_optional (repositories_by_slug db slug)) (not_found "Repository not found")
    ensure_allowed r.id (repository_denial_message requirement) (
        authorize_repository_write_access r.id r.owner_user_id r.owner_org_id actor_user_id
          (repository_team_permissions requirement))

  claim_org_access : Option Uuid → Uuid → TeamWriteAccess → TeamWriteAccess
  unfolding or_else
  claim_org_access none actor_user_id rest = rest
  claim_org_access (some owner_org_id) actor_user_id rest =
      or_else (authorize_org_write_roles db owner_org_id actor_user_id org_admin_roles) rest

  unfoldable pub authorize_namespace_claim_write_access_by_id :
      Uuid → Uuid → NamespaceClaimAccessRequirement → Result TeamWriteAccess
  unfolding claim_org_access
  authorize_namespace_claim_write_access_by_id namespace_claim_id actor_user_id requirement = do
    nc ←
        ok_or (fetch_optional (claims_by_id db namespace_claim_id))
          (not_found "Namespace claim not found")
    ok (
        if nc.owner_user_id is actor_user_id
        then TeamWriteAccess.allowed
        else claim_org_access nc.owner_org_id actor_user_id (
            actor_has_team_namespace_permissions namespace_claim_id actor_user_id
              (namespace_team_permissions requirement)))

  unfoldable pub ensure_namespace_claim_access_by_requirement :
      Uuid → Uuid → NamespaceClaimAccessRequirement → Result (Unit {0})
  unfolding ensure_allowed
  ensure_namespace_claim_access_by_requirement namespace_claim_id actor_user_id requirement = do
    access ←
        authorize_namespace_claim_write_access_by_id namespace_claim_id actor_user_id requirement
    ensure_allowed tt (namespace_denial_message requirement) access

  unfoldable pub actor_can_package_by_id_and_requirement :
      Uuid → Option Uuid → PackageAccessRequirement → Result Bool
  actor_can_package_by_id_and_requirement package_id none requirement = ok false
  actor_can_package_by_id_and_requirement package_id (some actor_user_id) requirement = do
    p ← ok_or (fetch_optional (packages_by_id db package_id)) (not_found "Package not found")
    ok (
        is_write_access_allowed (
          authorize_package_write_access package_id p.repository_id p.owner_user_id p.owner_org_id
            actor_user_id requirement))

  unfoldable pub actor_can_repository_by_id_and_requirement :
      Uuid → Option Uuid → RepositoryAccessRequirement → Result Bool
  actor_can_repository_by_id_and_requirement repository_id none requirement = ok false
  actor_can_repository_by_id_and_requirement repository_id (some actor_user_id) requirement = do
    r ←
        ok_or (fetch_optional (repositories_by_id db repository_id))
          (not_found "Repository not found")
    ok (
        is_write_access_allowed (
          authorize_repository_write_access repository_id r.owner_user_id r.owner_org_id
            actor_user_id (repository_team_permissions requirement)))

  unfoldable pub actor_can_namespace_claim_by_id_and_requirement :
      Uuid → Option Uuid → NamespaceClaimAccessRequirement → Result Bool
  actor_can_namespace_claim_by_id_and_requirement namespace_claim_id none requirement = ok false
  actor_can_namespace_claim_by_id_and_requirement namespace_claim_id (some actor_user_id)
        requirement =
      do
        access ←
            authorize_namespace_claim_write_access_by_id namespace_claim_id actor_user_id
              requirement
        ok (is_write_access_allowed access)
