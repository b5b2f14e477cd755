-- ===== src/Access/Org.antt =====
-- Access to an organization: its administration, member directory and activity log.
use publaryn.Prelude.{
  String, Bool, false, not, ◌||◌, Option, none, some, [], contains, if◌then◌else◌,
}
use publaryn.Error.{Result, ok, err, ◌>>=◌, ◌>>◌, forbidden, not_found}
use publaryn.Query.{fetch_optional}
use publaryn.Db.{Db, Uuid}
use publaryn.Access.Requirements.{
  Names, OrgAccessRequirement, org_admin_roles, org_access_roles, requires_write_role_mfa,
  org_denial_message,
}
use publaryn.Access.Outcomes.{
  OrgWriteRoleAccess, OrgAccessOutcome, resolve_org_write_role_access, is_org_access_allowed,
  org_mfa_required_for_write_error,
}
use publaryn.Access.Queries.{
  RoleRow, org_write_rows, actor_has_org_roles, member_directory_rows, is_org_member,
  org_ids_by_slug,
}

-- What `authorize_org_write_roles` makes of the row: absent values count as `false`.
unfoldable pub resolve_row : Option RoleRow → OrgWriteRoleAccess
resolve_row none = resolve_org_write_role_access none false false
resolve_row (some (role, required, enabled)) =
    resolve_org_write_role_access (some role) required enabled

-- `authorize_org_member_directory_access` on its row.
directory_outcome : Option (String × Bool) → OrgAccessOutcome
directory_outcome none = OrgAccessOutcome.missing_permission
directory_outcome (some (role, is_private)) =
    if not is_private || contains org_admin_roles role
    then OrgAccessOutcome.allowed
    else OrgAccessOutcome.missing_permission

write_outcome : OrgWriteRoleAccess → OrgAccessOutcome
write_outcome OrgWriteRoleAccess.allowed = OrgAccessOutcome.allowed
write_outcome OrgWriteRoleAccess.mfa_required = OrgAccessOutcome.mfa_required
write_outcome OrgWriteRoleAccess.missing_role = OrgAccessOutcome.missing_permission

outcome_of_test : Bool → OrgAccessOutcome
outcome_of_test b = if b then OrgAccessOutcome.allowed else OrgAccessOutcome.missing_permission

-- `expect("write-role org access must define allowed roles")`; only `admin` gets here.
roles_or_empty : Option Names → Names
roles_or_empty none = []
roles_or_empty (some roles) = roles

ensure_outcome : OrgAccessRequirement → OrgAccessOutcome → Result (Unit {0})
ensure_outcome requirement OrgAccessOutcome.allowed = ok tt
ensure_outcome requirement OrgAccessOutcome.mfa_required = err org_mfa_required_for_write_error
ensure_outcome requirement OrgAccessOutcome.missing_permission =
    err (forbidden (org_denial_message requirement))

module _ (db : Db) where
  unfoldable pub authorize_org_write_roles : Uuid → Uuid → Names → OrgWriteRoleAccess
  unfolding resolve_row
  authorize_org_write_roles org_id actor_user_id allowed_roles =
      resolve_row (fetch_optional (org_write_rows db org_id actor_user_id allowed_roles))

  unfoldable pub authorize_org_member_directory_access : Uuid → Uuid → OrgAccessOutcome
  unfolding directory_outcome
  authorize_org_member_directory_access org_id actor_user_id =
      directory_outcome (fetch_optional (member_directory_rows db org_id actor_user_id))

  -- The last two cases of `authorize_org_access_by_requirement`.
  by_roles : Uuid → Uuid → Option Names → OrgAccessOutcome
  unfolding outcome_of_test
  by_roles org_id actor_user_id none = outcome_of_test (is_org_member db org_id actor_user_id)
  by_roles org_id actor_user_id (some roles) =
      outcome_of_test (actor_has_org_roles db org_id actor_user_id roles)

  unfoldable pub authorize_org_access_by_requirement :
      Uuid → Uuid → OrgAccessRequirement → OrgAccessOutcome
  unfolding by_roles write_outcome roles_or_empty
  authorize_org_access_by_requirement org_id actor_user_id OrgAccessRequirement.member_directory =
      authorize_org_member_directory_access org_id actor_user_id
  authorize_org_access_by_requirement org_id actor_user_id requirement =
      if requires_write_role_mfa requirement
      then write_outcome (
          authorize_org_write_roles org_id actor_user_id
            (roles_or_empty (org_access_roles requirement)))
      else by_roles org_id actor_user_id (org_access_roles requirement)

  unfoldable pub ensure_org_access_by_requirement :
      Uuid → Uuid → OrgAccessRequirement → Result (Unit {0})
  unfolding ensure_outcome
  ensure_org_access_by_requirement org_id actor_user_id requirement =
      ensure_outcome requirement
        (authorize_org_access_by_requirement org_id actor_user_id requirement)

  unfoldable pub fetch_org_id_by_slug : String → Result Uuid
  fetch_org_id_by_slug slug = elim (fetch_optional (org_ids_by_slug db slug)) [
    | none ↦ err (not_found "Organization not found")
    | some id ↦ ok id
  ]

  unfoldable pub ensure_org_access_by_slug_and_requirement :
      String → Uuid → OrgAccessRequirement → Result Uuid
  ensure_org_access_by_slug_and_requirement slug actor_user_id requirement = do
    org_id ← fetch_org_id_by_slug slug
    ensure_org_access_by_requirement org_id actor_user_id requirement
    ok org_id

  -- `ensure_org_admin_by_slug`.
  unfoldable pub ensure_org_admin_by_slug : String → Uuid → Result Uuid
  unfolding ensure_org_access_by_slug_and_requirement
  ensure_org_admin_by_slug slug actor_user_id =
      ensure_org_access_by_slug_and_requirement slug actor_user_id OrgAccessRequirement.admin

  unfoldable pub actor_can_org_by_id_and_requirement :
      Uuid → Option Uuid → OrgAccessRequirement → Bool
  actor_can_org_by_id_and_requirement org_id none requirement = false
  actor_can_org_by_id_and_requirement org_id (some actor_user_id) requirement =
      is_org_access_allowed (authorize_org_access_by_requirement org_id actor_user_id requirement)
