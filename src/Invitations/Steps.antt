-- ===== src/Invitations/Steps.antt =====
-- Any sequence of the handlers of invitations.
use publaryn.Prelude.{◌≡◌, ◌≢◌, refl, String, Bool, true, false, List, Memᴰ, arith, ==_iff}
use publaryn.Error.{ok}
use publaryn.Query.Update.{update_where}
use publaryn.Domain.Invitation.{OrganizationInvitation, is_actionable_at, is_actionable_at_iff}
use publaryn.Db.{Db, Uuid, Time}
use publaryn.Auth.Identity.{AuthenticatedIdentity}
use publaryn.Invitations.Handlers.{
  CreateOrgInvitationRequest, is_open, set_revoked, set_accepted, set_declined, is_invitation,
  create_org_invitation, revoke_org_invitation, accept_org_invitation, decline_org_invitation,
}
use publaryn.Invitations.Sound.{IsSound, Closes, outcomes, closes-IsSound, settled_stays}

-- A request that is granted. One that fails changes nothing.
pub data InvitationStep : Db → Db → Type 0 where
  creates :
      (db db' : Db) (identity : AuthenticatedIdentity) (slug : String)
      (body : CreateOrgInvitationRequest) (now : Time) (id : Uuid) (reply : OrganizationInvitation)
      → ((x : OrganizationInvitation) → Memᴰ x db.org_invitations → x.id ≢ id)
      → create_org_invitation db identity slug body now id ≡ ok (reply, db')
      → InvitationStep db db'
  revokes :
      (db db' : Db) (identity : AuthenticatedIdentity) (slug : String) (id : Uuid) (now : Time)
      (reply : OrganizationInvitation)
      → revoke_org_invitation db identity slug id now ≡ ok (reply, db')
      → InvitationStep db db'
  accepts :
      (db db' : Db) (identity : AuthenticatedIdentity) (id : Uuid) (now : Time)
      (reply : OrganizationInvitation)
      → accept_org_invitation db identity id now ≡ ok (reply, db')
      → InvitationStep db db'
  declines :
      (db db' : Db) (identity : AuthenticatedIdentity) (id : Uuid) (now : Time)
      (reply : OrganizationInvitation)
      → decline_org_invitation db identity id now ≡ ok (reply, db')
      → InvitationStep db db'

pub data InvitationHistory (db : Db) : Db → Type 0 where
  starts : InvitationHistory db db
  continues :
      {mid db' : Db} → InvitationHistory db mid → InvitationStep mid db' → InvitationHistory db db'

-- The table is sound afterwards, and what was settled before stands as it was.
abbrev pub Keeps : List OrganizationInvitation → List OrganizationInvitation → Type 0
Keeps table table' =
    IsSound table'
    × ((i : OrganizationInvitation) → Memᴰ i table → is_open i ≡ false → Memᴰ i table')

closed_by_revoke :
    (by : Uuid) (now : Time) (i : OrganizationInvitation)
    → is_open i ≡ true
    → (is_open (set_revoked by now i) ≡ false) × (outcomes (set_revoked by now i) ≡ 1)
closed_by_revoke by now i h = ground arith

pub closed_by_accept :
    (by : Uuid) (now : Time) (i : OrganizationInvitation)
    → is_open i ≡ true
    → (is_open (set_accepted by now i) ≡ false) × (outcomes (set_accepted by now i) ≡ 1)
closed_by_accept by now i h = ground arith

pub closed_by_decline :
    (by : Uuid) (now : Time) (i : OrganizationInvitation)
    → is_open i ≡ true
    → (is_open (set_declined by now i) ≡ false) × (outcomes (set_declined by now i) ≡ 1)
closed_by_decline by now i h = ground arith

pub actionable-open :
    (i : OrganizationInvitation) (now : Time) → is_actionable_at i now ≡ true → is_open i ≡ true
actionable-open i now h = let (a, d, r, t) = (is_actionable_at_iff i now).0 h in ground arith

pub Closes-Keeps :
    (table : List OrganizationInvitation) (test : OrganizationInvitation → Bool)
    (set : OrganizationInvitation → OrganizationInvitation)
    → Closes table test set
    → IsSound table
    → Keeps table (update_where test set table)
Closes-Keeps table test set closes sound =
    (closes-IsSound table test set closes sound, settled_stays table test set closes)

pub revoking :
    (table : List OrganizationInvitation) (test : OrganizationInvitation → Bool) (by : Uuid)
    (now : Time)
    → ((i : OrganizationInvitation) → test i ≡ true → is_open i ≡ true)
    → Closes table test (set_revoked by now)
revoking table test by now opened = record {
  keeps_id = λ i. refl;
  keeps_role = λ i. refl;
  keeps_created = λ i. refl;
  keeps_expires = λ i. refl;
  was_open = λ i m hit. opened i hit;
  closed = closed_by_revoke by now;
}

-- The row of an actionable invitation, by its id.
pub found_open :
    (table : List OrganizationInvitation) (i : OrganizationInvitation) (now : Time)
    → IsSound table
    → Memᴰ i table
    → is_actionable_at i now ≡ true
    → (x : OrganizationInvitation) → Memᴰ x table
    → is_invitation i.id x ≡ true
    → is_open x ≡ true
found_open table i now sound m able x x_mem hit =
    let same = sound.invitation_key x i x_mem m ((==_iff _ _).0 hit) in
    rw same (actionable-open i now able)
