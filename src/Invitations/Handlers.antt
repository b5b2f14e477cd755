-- ===== src/Invitations/Handlers.antt =====
-- The handlers of crates/api/src/routes/org_invitations.rs that change an invitation. The first
-- UPDATE of `create_org_invitation` stays done where the INSERT then fails; by the unique index on
-- open invitations it has then changed nothing.
use Prim.Native.String.{◌++◌ as str_append}
use text.Mathlib.Text.{◌==◌ as str_eq}
use publaryn.Prelude.{
  ℕ, ◌+◌, ◌*◌, String, Bool, not, ◌&&◌, ◌||◌, Option, none, some, List, ◌∷◌, any, leb, ltb, ◌==◌,
  is_some, trim_text, is_empty,
}
use publaryn.Error.{
  Error, Result, ok, ◌>>=◌, ◌>>◌, ensure, ok_or, not_found, already_exists, validation, conflict,
}
use publaryn.Query.{◌>>=◌ as from, ◌>>◌ as when, row, fetch_optional, exists}
use publaryn.Query.Update.{update_where}
use publaryn.Domain.OrgRole.{OrgRole, is_owner, from_str}
use publaryn.Domain.Invitation.{OrganizationInvitation, as_str, new, status_at, is_actionable_at}
use publaryn.Db.{Db, Uuid, Time, User, OrgMembership, AuditLog}
use publaryn.Auth.Identity.{
  AuthenticatedIdentity, ensure_scope, audit_actor_token_id, scope_orgs_write,
}
use publaryn.Access.Org.{ensure_org_admin_by_slug}
use publaryn.Members.Handlers.{memberships}

abbrev pub scope_orgs_join : String
scope_orgs_join = "orgs:join"

abbrev pub default_invitation_ttl_days : ℕ
default_invitation_ttl_days = 7

abbrev pub max_invitation_ttl_days : ℕ
max_invitation_ttl_days = 30

pub record CreateOrgInvitationRequest : Type 0 where
  pub username_or_email : String
  pub role : Option String
  pub expires_in_days : Option ℕ

abbrev pub days_or_default : Option ℕ → ℕ
days_or_default none = default_invitation_ttl_days
days_or_default (some days) = days

unfoldable pub role_or_viewer : Option String → Result OrgRole
role_or_viewer none = ok OrgRole.viewer
role_or_viewer (some text) = from_str text

-- WHERE (username = $1 OR email = $1) AND is_active = true.
unfoldable pub active_users_by_name_or_email : Db → String → List User
active_users_by_name_or_email db identifier =
    from db.users
      λ u. when ((str_eq u.username identifier || str_eq u.email identifier) && u.is_active) (row u)

-- accepted_at IS NULL AND declined_at IS NULL AND revoked_at IS NULL.
abbrev pub is_open : OrganizationInvitation → Bool
is_open i = not (is_some i.accepted_at) && not (is_some i.declined_at) && not (is_some i.revoked_at)

abbrev pub is_for : Uuid → Uuid → OrganizationInvitation → Bool
is_for org_id user_id i = i.org_id == org_id && i.invited_user_id == user_id

-- The open invitations of a user to an organization that have expired.
abbrev pub is_lapsed : Uuid → Uuid → Time → OrganizationInvitation → Bool
is_lapsed org_id user_id now i = is_for org_id user_id i && is_open i && leb i.expires_at now

abbrev pub set_revoked : Uuid → Time → OrganizationInvitation → OrganizationInvitation
set_revoked by now i = record i { revoked_by = some by; revoked_at = some now }

abbrev pub set_accepted : Uuid → Time → OrganizationInvitation → OrganizationInvitation
set_accepted by now i = record i { accepted_by = some by; accepted_at = some now }

abbrev pub set_declined : Uuid → Time → OrganizationInvitation → OrganizationInvitation
set_declined by now i = record i { declined_by = some by; declined_at = some now }

unfoldable pub log_invitation : String → AuthenticatedIdentity → Uuid → Uuid → Db → Db
log_invitation action identity user_id org_id db =
    let entry : AuditLog = record {
      action = action;
      actor_user_id = identity.user_id;
      actor_token_id = audit_actor_token_id identity;
      target_user_id = some user_id;
      target_org_id = some org_id;
      target_package_id = none;
      target_release_id = none;
    } in
    record db { audit_logs = entry ∷ db.audit_logs }

-- `id` is the fresh `Uuid::new_v4()`.
unfoldable pub create_org_invitation :
    Db
    → AuthenticatedIdentity
    → String
    → CreateOrgInvitationRequest
    → Time
    → Uuid
    → Result (OrganizationInvitation × Db)
create_org_invitation db identity slug body now id = do
  ensure_scope identity scope_orgs_write
  let identifier = trim_text body.username_or_email
  ensure (not (is_empty identifier)) (validation "Invitation target must not be empty")
  let expires_in_days = days_or_default body.expires_in_days
  ensure (not (expires_in_days == 0 || ltb max_invitation_ttl_days expires_in_days))
      (validation "Invitation expiry must be between 1 and 30 days")
  role ← role_or_viewer body.role
  ensure (not (is_owner role))
      (validation "Owner invitations are not supported; use a dedicated ownership transfer flow")
  org_id ← ensure_org_admin_by_slug db slug identity.user_id
  user ←
      ok_or (fetch_optional (active_users_by_name_or_email db identifier))
        (not_found "No active user matches the provided username or email")
  ensure (not (exists (memberships db org_id user.id)))
      (conflict "The selected user is already a member of this organization")
  let swept =
      update_where (is_lapsed org_id user.id now) (set_revoked identity.user_id now)
        db.org_invitations
  invitation ← new now id org_id user.id role identity.user_id (now + expires_in_days * 86400000000)
  ensure (not (any (λ i. is_for org_id user.id i && is_open i) swept))
      (already_exists "An active invitation already exists for this user")
  ok (
    invitation,
    log_invitation "org_invitation_create" identity user.id org_id
        (record db { org_invitations = invitation ∷ swept }),
  )

abbrev pub is_revocable : Uuid → Uuid → OrganizationInvitation → Bool
is_revocable id org_id i = i.id == id && i.org_id == org_id && is_open i

unfoldable pub invitations_where :
    Db → (OrganizationInvitation → Bool) → List OrganizationInvitation
invitations_where db test = from db.org_invitations λ i. when (test i) (row i)

-- The reply is the row as the UPDATE returns it.
unfoldable pub revoke_org_invitation :
    Db → AuthenticatedIdentity → String → Uuid → Time → Result (OrganizationInvitation × Db)
revoke_org_invitation db identity slug id now = do
  ensure_scope identity scope_orgs_write
  org_id ← ensure_org_admin_by_slug db slug identity.user_id
  old ←
      ok_or (fetch_optional (invitations_where db (is_revocable id org_id)))
        (not_found "Invitation not found")
  let invitation = set_revoked identity.user_id now old
  ok (
    invitation,
    log_invitation "org_invitation_revoke" identity invitation.invited_user_id invitation.org_id
        (record db {
          org_invitations =
              update_where (is_revocable id org_id) (set_revoked identity.user_id now)
                db.org_invitations;
        }),
  )

abbrev pub is_addressed : Uuid → Uuid → OrganizationInvitation → Bool
is_addressed id user_id i = i.id == id && i.invited_user_id == user_id

-- The JOIN of organizations, WHERE oi.id = $1 AND oi.invited_user_id = $2.
unfoldable pub addressed_invitations : Db → Uuid → Uuid → List OrganizationInvitation
addressed_invitations db id user_id = from db.org_invitations λ i.
    from db.organizations λ o. when (o.id == i.org_id) (when (is_addressed id user_id i) (row i))

abbrev pub is_invitation : Uuid → OrganizationInvitation → Bool
is_invitation id i = i.id == id

abbrev pub invited_member : OrganizationInvitation → Uuid → OrgMembership
invited_member i user_id = record {
  org_id = i.org_id;
  user_id = user_id;
  role = i.role;
  invited_by = some i.invited_by;
}

abbrev pub not_actionable : OrganizationInvitation → Time → Error
not_actionable i now = conflict (
    str_append "Invitation is no longer actionable (status: "
      (str_append (as_str (status_at i now)) ")"))

unfoldable pub accept_org_invitation :
    Db → AuthenticatedIdentity → Uuid → Time → Result (OrganizationInvitation × Db)
accept_org_invitation db identity id now = do
  ensure_scope identity scope_orgs_join
  invitation ←
      ok_or (fetch_optional (addressed_invitations db id identity.user_id))
        (not_found "Invitation not found")
  ensure (is_actionable_at invitation now) (not_actionable invitation now)
  ensure (not (exists (memberships db invitation.org_id identity.user_id)))
      (conflict "You are already a member of this organization")
  ok (
    invitation,
    log_invitation "org_invitation_accept" identity identity.user_id invitation.org_id (record db {
      org_memberships = invited_member invitation identity.user_id ∷ db.org_memberships;
      org_invitations =
          update_where (is_invitation invitation.id) (set_accepted identity.user_id now)
            db.org_invitations;
    }),
  )

unfoldable pub decline_org_invitation :
    Db → AuthenticatedIdentity → Uuid → Time → Result (OrganizationInvitation × Db)
decline_org_invitation db identity id now = do
  ensure_scope identity scope_orgs_join
  invitation ←
      ok_or (fetch_optional (invitations_where db (is_addressed id identity.user_id)))
        (not_found "Invitation not found")
  ensure (is_actionable_at invitation now) (not_actionable invitation now)
  ok (
    invitation,
    log_invitation "org_invitation_decline" identity identity.user_id invitation.org_id (record db {
      org_invitations =
          update_where (is_invitation invitation.id) (set_declined identity.user_id now)
            db.org_invitations;
    }),
  )
