-- ===== src/Domain/Invitation.antt =====
-- `OrganizationInvitation` of crates/core/src/domain/organization_invitation.rs.
use publaryn.Prelude.{
  ℕ, ◌≤◌, ◌<◌, ◌≡◌, ◌↔◌, String, Bool, true, false, Option, none, arith, leb, is_some,
  if◌then◌else◌,
}
use publaryn.Error.{Result, ok, err, validation}
use publaryn.Domain.OrgRole.{OrgRole}

pub data OrganizationInvitationStatus : Type 0 where
  pending accepted declined revoked expired : OrganizationInvitationStatus

abbrev pub as_str : OrganizationInvitationStatus → String
as_str pending = "pending"
as_str accepted = "accepted"
as_str declined = "declined"
as_str revoked = "revoked"
as_str expired = "expired"

-- A time is a count of microseconds, an id a number.
pub record OrganizationInvitation : Type 0 where
  pub id : ℕ
  pub org_id : ℕ
  pub invited_user_id : ℕ
  pub role : OrgRole
  pub invited_by : ℕ
  pub accepted_by : Option ℕ
  pub accepted_at : Option ℕ
  pub declined_by : Option ℕ
  pub declined_at : Option ℕ
  pub revoked_by : Option ℕ
  pub revoked_at : Option ℕ
  pub expires_at : ℕ
  pub created_at : ℕ

-- `new`, at the time `now` and with the fresh id `id`.
unfoldable pub new : ℕ → ℕ → ℕ → ℕ → OrgRole → ℕ → ℕ → Result OrganizationInvitation
new now id org_id invited_user_id role invited_by expires_at =
    if leb expires_at now
    then err (validation "Invitation expiry must be set in the future")
    else ok (record {
      id = id;
      org_id = org_id;
      invited_user_id = invited_user_id;
      role = role;
      invited_by = invited_by;
      accepted_by = none;
      accepted_at = none;
      declined_by = none;
      declined_at = none;
      revoked_by = none;
      revoked_at = none;
      expires_at = expires_at;
      created_at = now;
    })

unfoldable pub status_at : OrganizationInvitation → ℕ → OrganizationInvitationStatus
status_at self now =
    if is_some self.accepted_at
    then accepted
    else if is_some self.declined_at
    then declined
    else if is_some self.revoked_at
    then revoked
    else if leb self.expires_at now
    then expired
    else pending

abbrev is_pending : OrganizationInvitationStatus → Bool
is_pending pending = true
is_pending _ = false

unfoldable pub is_actionable_at : OrganizationInvitation → ℕ → Bool
unfolding status_at
is_actionable_at self now = is_pending (status_at self now)

-- An invitation can be acted on exactly when nobody accepted, declined or revoked it and it has
-- not expired.
pub is_actionable_at_iff :
    (i : OrganizationInvitation) (now : ℕ)
    → (is_actionable_at i now ≡ true) ↔ (
        (i.accepted_at ≡ none)
        × (i.declined_at ≡ none)
        × (i.revoked_at ≡ none)
        × (now < i.expires_at))
unfolding is_actionable_at
is_actionable_at_iff i now = ground arith

-- A new invitation is pending from its creation until the moment before its expiry, and expired
-- from then on.
pub new-status_at :
    (now id org user : ℕ) (role : OrgRole) (by expires : ℕ) {i : OrganizationInvitation} (t : ℕ)
    → new now id org user role by expires ≡ ok i
    → (now < expires)
      × (t < expires → status_at i t ≡ pending)
      × (expires ≤ t → status_at i t ≡ expired)
unfolding new status_at
new-status_at now id org user role by expires t h = ground arith
