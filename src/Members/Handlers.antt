-- ===== src/Members/Handlers.antt =====
-- `add_member`, `remove_member` and `transfer_ownership` of crates/api/src/routes/orgs.rs. A role
-- that a query returns as text is read back at once, so it stands here as the role (the round
-- trip is a lemma of Domain.OrgRole).
use text.Mathlib.Text.{◌==◌ as str_eq}
use publaryn.Prelude.{
  String, Bool, not, ◌&&◌, Option, none, some, List, ◌∷◌, ◌==◌, if◌then◌else◌, trim_text, is_empty,
}
use publaryn.Error.{
  Result, ok, ◌>>=◌, ◌>>◌, ensure, ok_or, not_found, forbidden, validation, conflict,
}
use publaryn.Query.{◌>>=◌ as from, ◌>>◌ as when, row, fetch_optional}
use publaryn.Query.Update.{update_where, delete_where}
use publaryn.Domain.OrgRole
use publaryn.Domain.OrgRole.{OrgRole, is_owner, from_str}
use publaryn.Db.{Db, Uuid, User, Organization, OrgMembership, AuditLog}
use publaryn.Auth.Identity.{
  AuthenticatedIdentity, ensure_scope, audit_actor_token_id, scope_orgs_write, scope_orgs_transfer,
}
use publaryn.Access.Org.{ensure_org_admin_by_slug}

-- SELECT ... FROM users WHERE username = $1.
unfoldable pub users_by_username : Db → String → List User
users_by_username db username = from db.users λ u. when (str_eq u.username username) (row u)

-- WHERE org_id = $1 AND user_id = $2.
abbrev pub is_membership : Uuid → Uuid → OrgMembership → Bool
is_membership org_id user_id m = m.org_id == org_id && m.user_id == user_id

unfoldable pub memberships : Db → Uuid → Uuid → List OrgMembership
memberships db org_id user_id =
    from db.org_memberships λ m. when (is_membership org_id user_id m) (row m)

-- The update of a conflict: SET role = EXCLUDED.role, invited_by = EXCLUDED.invited_by.
abbrev pub set_membership : OrgRole → Uuid → OrgMembership → OrgMembership
set_membership role invited_by m = record m { role = role; invited_by = some invited_by }

-- INSERT ... ON CONFLICT (org_id, user_id) DO UPDATE.
unfoldable pub upsert_membership :
    Uuid → Uuid → OrgRole → Uuid → Option OrgMembership → List OrgMembership → List OrgMembership
upsert_membership org_id user_id role invited_by none table =
    record { org_id = org_id; user_id = user_id; role = role; invited_by = some invited_by } ∷ table
upsert_membership org_id user_id role invited_by (some present) table =
    update_where (is_membership org_id user_id) (set_membership role invited_by) table

unfoldable pub log_member : String → AuthenticatedIdentity → Uuid → Uuid → Db → Db
log_member action identity user_id org_id db =
    let entry : AuditLog = record {
      action = action;
      actor_user_id = identity.user_id;
      actor_token_id = audit_actor_token_id identity;
      target_user_id = some user_id;
      target_org_id = some org_id;
      target_package_id = none;
      target_release_id = none;
    } in
    record db { audit_logs = entry ∷ db.audit_logs }

pub data MemberReply : Type 0 where
  added role_updated role_unchanged : MemberReply

-- The audit entry and the reply, by the role before.
unfoldable pub member_reply :
    AuthenticatedIdentity → Uuid → Uuid → OrgRole → Option OrgMembership → Db → MemberReply × Db
member_reply identity user_id org_id role none db =
    (added, log_member "org_member_add" identity user_id org_id db)
member_reply identity user_id org_id role (some previous) db =
    if str_eq (OrgRole.as_str previous.role) (OrgRole.as_str role)
    then (role_unchanged, db)
    else (role_updated, log_member "org_role_change" identity user_id org_id db)

unfoldable pub add_member :
    Db → AuthenticatedIdentity → String → String → String → Result (MemberReply × Db)
add_member db identity slug username role_text = do
  ensure_scope identity scope_orgs_write
  org_id ← ensure_org_admin_by_slug db slug identity.user_id
  role ← from_str role_text
  ensure (not (is_owner role)) (
      validation
        "Owner assignment is not supported through member management; use a dedicated ownership transfer flow")
  user ← ok_or (fetch_optional (users_by_username db username)) (not_found "User not found")
  let previous = fetch_optional (memberships db org_id user.id)
  ok (
      member_reply identity user.id org_id role previous (record db {
        org_memberships =
            upsert_membership org_id user.id role identity.user_id previous db.org_memberships;
      }))

unfoldable pub remove_member : Db → AuthenticatedIdentity → String → String → Result (Uuid × Db)
remove_member db identity slug username = do
  ensure_scope identity scope_orgs_write
  org_id ← ensure_org_admin_by_slug db slug identity.user_id
  user ← ok_or (fetch_optional (users_by_username db username)) (not_found "User not found")
  membership ←
      ok_or (fetch_optional (memberships db org_id user.id)) (not_found "Membership not found")
  ensure (not (is_owner membership.role))
      (forbidden "Owner membership cannot be removed through this endpoint")
  ok (
    user.id,
    log_member "org_member_remove" identity user.id org_id (record db {
      org_memberships = delete_where (is_membership org_id user.id) db.org_memberships;
    }),
  )

unfoldable pub validate_ownership_transfer : Uuid → OrgRole → Uuid → OrgRole → Result (Unit {0})
validate_ownership_transfer actor_user_id actor_role target_user_id target_role = do
  ensure (is_owner actor_role)
      (forbidden "Transferring organization ownership requires an owner membership")
  ensure (not (actor_user_id == target_user_id))
      (validation "Ownership transfer target must be a different organization member")
  ensure (not (is_owner target_role))
      (conflict "The selected member is already an organization owner")

unfoldable pub organizations_by_slug : Db → String → List Organization
organizations_by_slug db slug = from db.organizations λ o. when (str_eq o.slug slug) (row o)

-- The membership of an active user by name.
unfoldable pub active_memberships : Db → Uuid → String → List OrgMembership
active_memberships db org_id username = from db.org_memberships λ om. from db.users λ u.
    when (u.id == om.user_id)
      (when (om.org_id == org_id && str_eq u.username username && u.is_active) (row om))

abbrev pub set_role : OrgRole → OrgMembership → OrgMembership
set_role role m = record m { role = role }

-- The two UPDATEs.
unfoldable pub move_ownership : Uuid → Uuid → Uuid → List OrgMembership → List OrgMembership
move_ownership org_id actor_user_id target_user_id table =
    update_where (is_membership org_id actor_user_id) (set_role OrgRole.admin)
      (update_where (is_membership org_id target_user_id) (set_role OrgRole.owner) table)

unfoldable pub transfer_ownership :
    Db → AuthenticatedIdentity → String → String → Result (Uuid × Db)
transfer_ownership db identity slug username = do
  ensure_scope identity scope_orgs_transfer
  let target_username = trim_text username
  ensure (not (is_empty target_username)) (validation "Ownership transfer target must not be empty")
  org ← ok_or (fetch_optional (organizations_by_slug db slug)) (not_found "Organization not found")
  actor ←
      ok_or (fetch_optional (memberships db org.id identity.user_id))
        (forbidden "Transferring organization ownership requires an owner membership")
  target ←
      ok_or (fetch_optional (active_memberships db org.id target_username))
        (not_found "The target user must already be an active organization member")
  validate_ownership_transfer identity.user_id actor.role target.user_id target.role
  ok (
    target.user_id,
    log_member "org_ownership_transfer" identity target.user_id org.id (record db {
      org_memberships = move_ownership org.id identity.user_id target.user_id db.org_memberships;
    }),
  )
