-- ===== src/Members/Tests.antt =====
-- Runs of the member handlers on an organization with an owner and an admin.
use publaryn.Prelude.{◌≡◌, ◌≢◌, refl, true, false, none, some, [], ◌∷◌, Memᴰ, unique_by}
use publaryn.Error.{ok}
use publaryn.Query.{◌>>=◌}
use publaryn.Query.Update.{update_where, delete_where}
use publaryn.Domain.OrgRole
use publaryn.Domain.OrgRole.{OrgRole, is_owner, from_str}
use publaryn.Auth.Identity.{
  AuthenticatedIdentity, CredentialKind, ensure_scope, audit_actor_token_id,
}
use publaryn.Db.{Db, Uuid, User, OrgMembership}
use publaryn.Access.Org.{
  ensure_org_admin_by_slug, fetch_org_id_by_slug, ensure_org_access_by_requirement,
  authorize_org_access_by_requirement, authorize_org_write_roles,
}
use publaryn.Access.Queries.{org_ids_by_slug, org_write_rows}
use publaryn.Access.Requirements.{requires_write_role_mfa, org_access_roles}
use publaryn.Access.Outcomes.{resolve_org_write_role_access}
use publaryn.Samples.{registry}
use publaryn.Members.Handlers.{
  users_by_username, memberships, upsert_membership, member_reply, log_member,
  organizations_by_slug, active_memberships, move_ownership, validate_ownership_transfer,
  add_member, remove_member, transfer_ownership, is_membership, set_role, set_membership,
  role_updated,
}
use publaryn.Members.Rows.{IsUnique}
use publaryn.Members.Owners.{remove_member-keeps_owners, add_member-never_owner}
use publaryn.Members.Removed.{SameTeamAccess, remove_member-SameTeamAccess}
use publaryn.Members.Transfer.{transfer_ownership-moves}

abbrev ada_owns : OrgMembership
ada_owns = record { org_id = 10; user_id = 1; role = OrgRole.owner; invited_by = none }

abbrev bob_views : OrgMembership
bob_views = record { org_id = 10; user_id = 2; role = OrgRole.viewer; invited_by = some 1 }

abbrev acme : Db
acme = record registry { org_memberships = ada_owns ∷ bob_views ∷ [] }

acme-IsUnique : IsUnique acme
acme-IsUnique a b m n _ e = unique_by (λ k. k.user_id) acme.org_memberships refl a b m n e

abbrev ada_logged_in : AuthenticatedIdentity
ada_logged_in = record {
  user_id = 1;
  token_id = none;
  scopes = "orgs:write" ∷ "orgs:transfer" ∷ [];
  credential_kind = CredentialKind.jwt;
}

ada_is_admin : ensure_org_admin_by_slug acme "acme" 1 ≡ ok 10
unfolding ensure_org_admin_by_slug fetch_org_id_by_slug org_ids_by_slug ◌>>=◌
    ensure_org_access_by_requirement authorize_org_access_by_requirement requires_write_role_mfa
    authorize_org_write_roles org_write_rows org_access_roles OrgRole.as_str
    resolve_org_write_role_access
ada_is_admin = refl

abbrev without_bob : Db
without_bob = record acme {
  org_memberships = ada_owns ∷ [];
  audit_logs =
      record {
        action = "org_member_remove";
        actor_user_id = 1;
        actor_token_id = none;
        target_user_id = some 2;
        target_org_id = some 10;
        target_package_id = none;
        target_release_id = none;
      }
      ∷ [];
}

ada_removes_bob : remove_member acme ada_logged_in "acme" "bob" ≡ ok (2, without_bob)
unfolding remove_member ensure_scope users_by_username memberships log_member delete_where is_owner
    ◌>>=◌ audit_actor_token_id
ada_removes_bob = rw ada_is_admin refl

ada_owns_it : is_owner ada_owns.role ≡ true
unfolding is_owner
ada_owns_it = refl

remove_member-keeps_owners_example : Memᴰ ada_owns without_bob.org_memberships
remove_member-keeps_owners_example =
    remove_member-keeps_owners acme acme-IsUnique ada_logged_in "acme" "bob" ada_removes_bob
      (Memᴰ.head refl) ada_owns_it

-- Bob is in a team with a grant.
remove_member-SameTeamAccess_example : SameTeamAccess acme without_bob 2
remove_member-SameTeamAccess_example =
    remove_member-SameTeamAccess acme ada_logged_in "acme" "bob" ada_removes_bob

-- The only owner gives the own membership a lesser role.
abbrev ownerless : Db
ownerless = record acme {
  org_memberships = set_membership OrgRole.viewer 1 ada_owns ∷ bob_views ∷ [];
  audit_logs =
      record {
        action = "org_role_change";
        actor_user_id = 1;
        actor_token_id = none;
        target_user_id = some 1;
        target_org_id = some 10;
        target_package_id = none;
        target_release_id = none;
      }
      ∷ [];
}

viewer_read : from_str "viewer" ≡ ok OrgRole.viewer
unfolding from_str
viewer_read = refl

ada_steps_down : add_member acme ada_logged_in "acme" "ada" "viewer" ≡ ok (role_updated, ownerless)
unfolding add_member ensure_scope users_by_username memberships upsert_membership member_reply
    log_member update_where is_owner ◌>>=◌ audit_actor_token_id OrgRole.as_str
ada_steps_down = rw (ada_is_admin, viewer_read) refl

add_member-never_owner_example :
    (org_id : Uuid) × (user : User) × (role : OrgRole) × (ensure_org_admin_by_slug acme "acme" 1
      ≡ ok org_id)
    × Memᴰ user acme.users
    × (user.username ≡ "ada")
    × (from_str "viewer" ≡ ok role)
    × (is_owner role ≡ false)
    × ((m : OrgMembership) × Memᴰ m ownerless.org_memberships
        × (m.org_id ≡ org_id)
        × (m.user_id ≡ user.id)
        × (m.role ≡ role))
    × ((m : OrgMembership)
        → Memᴰ m ownerless.org_memberships
        → is_membership org_id user.id m ≡ true
        → m.role ≡ role)
add_member-never_owner_example =
    add_member-never_owner acme ada_logged_in "acme" "ada" "viewer" ada_steps_down

abbrev handed_over : Db
handed_over = record acme {
  org_memberships = set_role OrgRole.admin ada_owns ∷ set_role OrgRole.owner bob_views ∷ [];
  audit_logs =
      record {
        action = "org_ownership_transfer";
        actor_user_id = 1;
        actor_token_id = none;
        target_user_id = some 2;
        target_org_id = some 10;
        target_package_id = none;
        target_release_id = none;
      }
      ∷ [];
}

ada_hands_over : transfer_ownership acme ada_logged_in "acme" " bob " ≡ ok (2, handed_over)
unfolding transfer_ownership ensure_scope organizations_by_slug memberships active_memberships
    validate_ownership_transfer move_ownership log_member update_where is_owner ◌>>=◌
    audit_actor_token_id
ada_hands_over = refl

transfer_ownership-moves_example :
    (actor : OrgMembership) × (target : OrgMembership) × Memᴰ actor acme.org_memberships
    × Memᴰ target acme.org_memberships
    × (actor.org_id ≡ target.org_id)
    × (actor.user_id ≡ 1)
    × (target.user_id ≡ 2)
    × (actor.user_id ≢ target.user_id)
    × (is_owner actor.role ≡ true)
    × (is_owner target.role ≡ false)
    × Memᴰ (set_role OrgRole.admin actor) handed_over.org_memberships
    × Memᴰ (set_role OrgRole.owner target) handed_over.org_memberships
transfer_ownership-moves_example =
    transfer_ownership-moves acme ada_logged_in "acme" " bob " ada_hands_over
