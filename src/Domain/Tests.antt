-- ===== src/Domain/Tests.antt =====
-- Runs of the invitation states, of the role names and of the normalisation of PyPI names.
use publaryn.Prelude.{◌≤◌, ◌<◌, ◌≡◌, ◌↔◌, refl, true, none}
use publaryn.Error.{ok}
use publaryn.Domain.OrgRole.{OrgRole}
use publaryn.Domain.Ecosystem.{IsPep503, normalize_pypi_name, normalize_pypi_name-IsPep503}
use publaryn.Domain.Invitation.{
  OrganizationInvitation, pending, expired, new, status_at, is_actionable_at, is_actionable_at_iff,
  new-status_at,
}

abbrev invitation : OrganizationInvitation
invitation = record {
  id = 7;
  org_id = 10;
  invited_user_id = 2;
  role = OrgRole.publisher;
  invited_by = 1;
  accepted_by = none;
  accepted_at = none;
  declined_by = none;
  declined_at = none;
  revoked_by = none;
  revoked_at = none;
  expires_at = 100;
  created_at = 5;
}

is_actionable_at_iff_example : (is_actionable_at invitation 99 ≡ true) ↔ (
    (invitation.accepted_at ≡ none)
    × (invitation.declined_at ≡ none)
    × (invitation.revoked_at ≡ none)
    × (99 < invitation.expires_at))
is_actionable_at_iff_example = is_actionable_at_iff invitation 99

is_new : new 5 7 10 2 OrgRole.publisher 1 100 ≡ ok invitation
unfolding new
is_new = refl

new-status_at_example :
    (5 < 100)
    × (100 < 100 → status_at invitation 100 ≡ pending)
    × (100 ≤ 100 → status_at invitation 100 ≡ expired)
new-status_at_example = new-status_at 5 7 10 2 OrgRole.publisher 1 100 100 is_new

normalize_pypi_name-IsPep503_example :
    IsPep503 "Zope._Interface" (normalize_pypi_name "Zope._Interface")
normalize_pypi_name-IsPep503_example = normalize_pypi_name-IsPep503 "Zope._Interface"
