-- ===== src/Invitations/Tests.antt =====
-- Runs of the handlers of invitations: Ada invites Bob, who declined before, and Bob accepts.
use publaryn.Prelude.{◌≡◌, ◌≢◌, refl, sym, ◌∙◌, false, none, some, [], ◌∷◌, Memᴰ, arith}
use publaryn.Error.{ok}
use publaryn.Query.{◌>>=◌}
use publaryn.Query.Update.{update_where}
use publaryn.Domain.OrgRole
use publaryn.Domain.OrgRole.{OrgRole, is_owner, from_str}
use publaryn.Domain.Invitation.{OrganizationInvitation, pending, new, status_at, is_actionable_at}
use publaryn.Auth.Identity.{
  AuthenticatedIdentity, CredentialKind, ensure_scope, audit_actor_token_id,
}
use publaryn.Db.{Db, OrgMembership}
use publaryn.Access.Org.{
  ensure_org_admin_by_slug, fetch_org_id_by_slug, ensure_org_access_by_requirement,
  authorize_org_access_by_requirement, authorize_org_write_roles,
}
use publaryn.Access.Queries.{org_ids_by_slug, org_write_rows}
use publaryn.Access.Requirements.{requires_write_role_mfa, org_access_roles}
use publaryn.Access.Outcomes.{resolve_org_write_role_access}
use publaryn.Samples.{registry}
use publaryn.Members.Handlers.{memberships}
use publaryn.Invitations.Handlers.{
  CreateOrgInvitationRequest, role_or_viewer, active_users_by_name_or_email, is_open, set_accepted,
  log_invitation, addressed_invitations, invited_member, create_org_invitation,
  accept_org_invitation,
}
use publaryn.Invitations.Sound.{IsSound}
use publaryn.Invitations.Steps.{InvitationStep, InvitationHistory}
use publaryn.Invitations.History.{InvitationHistory-IsSound, accept_org_invitation_sound}

abbrev ada_owns : OrgMembership
ada_owns = record { org_id = 10; user_id = 1; role = OrgRole.owner; invited_by = none }

abbrev first_invitation : OrganizationInvitation
first_invitation = record {
  id = 500;
  org_id = 10;
  invited_user_id = 2;
  role = OrgRole.viewer;
  invited_by = 1;
  accepted_by = none;
  accepted_at = none;
  declined_by = some 2;
  declined_at = some 150;
  revoked_by = none;
  revoked_at = none;
  expires_at = 200;
  created_at = 100;
}

abbrev second_invitation : OrganizationInvitation
second_invitation = record {
  id = 501;
  org_id = 10;
  invited_user_id = 2;
  role = OrgRole.viewer;
  invited_by = 1;
  accepted_by = none;
  accepted_at = none;
  declined_by = none;
  declined_at = none;
  revoked_by = none;
  revoked_at = none;
  expires_at = 86400000300;
  created_at = 300;
}

abbrev declined_once : Db
declined_once = record registry {
  org_memberships = ada_owns ∷ [];
  org_invitations = first_invitation ∷ [];
}

abbrev ada_logged_in : AuthenticatedIdentity
ada_logged_in = record {
  user_id = 1;
  token_id = none;
  scopes = "orgs:write" ∷ [];
  credential_kind = CredentialKind.jwt;
}

abbrev bob_logged_in : AuthenticatedIdentity
bob_logged_in = record {
  user_id = 2;
  token_id = none;
  scopes = "orgs:join" ∷ [];
  credential_kind = CredentialKind.jwt;
}

abbrev bob_for_a_day : CreateOrgInvitationRequest
bob_for_a_day = record {
  username_or_email = " bob@example.com ";
  role = none;
  expires_in_days = some 1;
}

abbrev invited : Db
invited =
    log_invitation "org_invitation_create" ada_logged_in 2 10
      (record declined_once { org_invitations = second_invitation ∷ first_invitation ∷ [] })

abbrev joined : Db
joined = log_invitation "org_invitation_accept" bob_logged_in 2 10 (record invited {
  org_memberships = invited_member second_invitation 2 ∷ ada_owns ∷ [];
  org_invitations = set_accepted 2 400 second_invitation ∷ first_invitation ∷ [];
})

ada_is_admin : ensure_org_admin_by_slug declined_once "acme" 1 ≡ ok 10
unfolding ensure_org_admin_by_slug fetch_org_id_by_slug org_ids_by_slug ◌>>=◌
    ensure_org_access_by_requirement authorize_org_access_by_requirement requires_write_role_mfa
    authorize_org_write_roles org_write_rows org_access_roles OrgRole.as_str
    resolve_org_write_role_access
ada_is_admin = refl

ada_invites_bob :
    create_org_invitation declined_once ada_logged_in "acme" bob_for_a_day 300 501
    ≡ ok (second_invitation, invited)
unfolding create_org_invitation ensure_scope log_invitation audit_actor_token_id ◌>>=◌ memberships
    active_users_by_name_or_email role_or_viewer is_owner new update_where
ada_invites_bob = rw ada_is_admin refl

bob_accepts : accept_org_invitation invited bob_logged_in 501 400 ≡ ok (second_invitation, joined)
unfolding accept_org_invitation ensure_scope log_invitation audit_actor_token_id ◌>>=◌ memberships
    addressed_invitations is_actionable_at status_at update_where
bob_accepts = refl

only_first :
    (i : OrganizationInvitation) → Memᴰ i declined_once.org_invitations → i ≡ first_invitation
only_first i (Memᴰ.head e) = e
only_first i (Memᴰ.tail m) = elim m [ ]

declined_once-IsSound : IsSound declined_once.org_invitations
unfolding is_owner
declined_once-IsSound = record {
  invitation_key = λ a b m n e. only_first a m ∙ sym (only_first b n);
  one_open = λ a b m n o p e f. only_first a m ∙ sym (only_first b n);
  fine = λ i m.
      rw (only_first i m)
        (record { one_outcome = omega arith; no_owner = refl; lasting = omega arith });
}

fresh_id : (x : OrganizationInvitation) → Memᴰ x declined_once.org_invitations → x.id ≢ 501
fresh_id x m e = let same = only_first x m in ground arith

invites_and_accepts : InvitationHistory declined_once joined
invites_and_accepts =
    InvitationHistory.continues
      (InvitationHistory.continues InvitationHistory.starts (
        InvitationStep.creates declined_once invited ada_logged_in "acme" bob_for_a_day 300 501
          second_invitation fresh_id ada_invites_bob))
      (InvitationStep.accepts invited joined bob_logged_in 501 400 second_invitation bob_accepts)

InvitationHistory-IsSound_example :
    IsSound joined.org_invitations
    × ((i : OrganizationInvitation)
        → Memᴰ i declined_once.org_invitations
        → is_open i ≡ false
        → Memᴰ i joined.org_invitations)
InvitationHistory-IsSound_example =
    InvitationHistory-IsSound declined_once-IsSound invites_and_accepts

accept_org_invitation_sound_example :
    Memᴰ second_invitation invited.org_invitations
    × (second_invitation.id ≡ 501)
    × (second_invitation.invited_user_id ≡ 2)
    × (status_at second_invitation 400 ≡ pending)
    × ((m : OrgMembership)
        → Memᴰ m invited.org_memberships
        → m.org_id ≡ second_invitation.org_id
        → m.user_id ≢ 2)
    × ((k : OrgMembership) × (joined.org_memberships ≡ k ∷ invited.org_memberships)
        × (k.org_id ≡ second_invitation.org_id)
        × (k.user_id ≡ 2)
        × (k.role ≡ second_invitation.role)
        × (k.invited_by ≡ some second_invitation.invited_by))
    × ((i : OrganizationInvitation) × Memᴰ i joined.org_invitations
        × (i.id ≡ 501)
        × (i.org_id ≡ second_invitation.org_id)
        × (i.role ≡ second_invitation.role)
        × (i.accepted_by ≡ some 2)
        × (i.accepted_at ≡ some 400))
accept_org_invitation_sound_example =
    accept_org_invitation_sound invited bob_logged_in 501 400 bob_accepts
