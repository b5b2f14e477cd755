-- ===== src/Access/Outcomes.antt =====
-- The outcomes of a write check in crates/api/src/request_auth.rs, and the rule for MFA.
use publaryn.Prelude.{
  ◌≡◌, refl, ◌⊎◌, inl, inr, String, Bool, true, false, not, ◌&&◌, Option, none, some, contains,
  if◌then◌else◌,
}
use publaryn.Error.{Error, forbidden}
use publaryn.Access.Requirements.{org_mfa_required_write_roles}

pub data OrgWriteRoleAccess : Type 0 where
  allowed missing_role mfa_required : OrgWriteRoleAccess

pub data TeamWriteAccess : Type 0 where
  allowed missing_permission mfa_required : TeamWriteAccess

pub data OrgAccessOutcome : Type 0 where
  allowed missing_permission mfa_required : OrgAccessOutcome

unfoldable pub does_org_role_require_mfa_for_write : String → Bool
does_org_role_require_mfa_for_write role = contains org_mfa_required_write_roles role

unfoldable pub resolve_org_write_role_access : Option String → Bool → Bool → OrgWriteRoleAccess
unfolding does_org_role_require_mfa_for_write
resolve_org_write_role_access none required enabled = OrgWriteRoleAccess.missing_role
resolve_org_write_role_access (some role) required enabled =
    if required && does_org_role_require_mfa_for_write role && not enabled
    then OrgWriteRoleAccess.mfa_required
    else OrgWriteRoleAccess.allowed

unfoldable pub resolve_team_write_access : Bool → Bool → Bool → TeamWriteAccess
resolve_team_write_access has_permission required enabled =
    if not has_permission
    then TeamWriteAccess.missing_permission
    else if required && not enabled
    then TeamWriteAccess.mfa_required
    else TeamWriteAccess.allowed

unfoldable pub is_write_access_allowed : TeamWriteAccess → Bool
is_write_access_allowed TeamWriteAccess.allowed = true
is_write_access_allowed _ = false

unfoldable pub is_org_access_allowed : OrgAccessOutcome → Bool
is_org_access_allowed OrgAccessOutcome.allowed = true
is_org_access_allowed _ = false

abbrev pub org_mfa_required_for_write_error : Error
org_mfa_required_for_write_error =
    forbidden "This organization requires MFA for elevated members before write actions are allowed"

pub OrgWriteRoleAccess-cases :
    (a : OrgWriteRoleAccess)
    → (a ≡ OrgWriteRoleAccess.allowed)
      ⊎ (a ≡ OrgWriteRoleAccess.missing_role)
      ⊎ (a ≡ OrgWriteRoleAccess.mfa_required)
OrgWriteRoleAccess-cases OrgWriteRoleAccess.allowed = inl refl
OrgWriteRoleAccess-cases OrgWriteRoleAccess.missing_role = inr (inl refl)
OrgWriteRoleAccess-cases OrgWriteRoleAccess.mfa_required = inr (inr refl)

pub TeamWriteAccess-cases :
    (a : TeamWriteAccess)
    → (a ≡ TeamWriteAccess.allowed)
      ⊎ (a ≡ TeamWriteAccess.missing_permission)
      ⊎ (a ≡ TeamWriteAccess.mfa_required)
TeamWriteAccess-cases TeamWriteAccess.allowed = inl refl
TeamWriteAccess-cases TeamWriteAccess.missing_permission = inr (inl refl)
TeamWriteAccess-cases TeamWriteAccess.mfa_required = inr (inr refl)
