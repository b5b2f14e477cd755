-- ===== src/Members/Transfer.antt =====
-- The transfer of an organization from its owner to another member.
use mathlib.Core.Path.{subst}
use publaryn.Prelude.{
  ◌≡◌, ◌≢◌, refl, sym, ◌∙◌, ap, String, true, false, not, List, Memᴰ, arith, ◌==◌, ==_iff,
  not-true_inv, trim_text, is_empty,
}
use publaryn.Error.{
  ok, >>=-ok_inv, >>-ok_inv, ok_injective, ensure, ok_or, not_found, forbidden, validation,
  reply-ok_inv, ensure-ok_inv, ok_or-ok_inv,
}
use publaryn.Query.{fetch_optional, fetch-mem}
use publaryn.Query.Update.{updated-mem, passed-mem}
use publaryn.Domain.OrgRole.{OrgRole, is_owner}
use publaryn.Db.{Db, Uuid, OrgMembership}
use publaryn.Auth.Identity.{AuthenticatedIdentity, ensure_scope, scope_orgs_transfer}
use publaryn.Members.Handlers.{
  memberships, is_membership, log_member, transfer_ownership, validate_ownership_transfer,
  organizations_by_slug, active_memberships, move_ownership, set_role,
}
use publaryn.Members.Rows.{
  memberships-mem_inv, active_memberships-mem_inv, is_membership_of, other_user,
}

validate-ok_inv :
    (actor_id : Uuid) (actor_role : OrgRole) (target_id : Uuid) (target_role : OrgRole)
    → validate_ownership_transfer actor_id actor_role target_id target_role ≡ ok tt
    → (is_owner actor_role ≡ true) × (actor_id ≢ target_id) × (is_owner target_role ≡ false)
unfolding validate_ownership_transfer
validate-ok_inv actor_id actor_role target_id target_role h =
    let (owns, h1) =
      >>-ok_inv
        (ensure (is_owner actor_role)
          (forbidden "Transferring organization ownership requires an owner membership"))
        _ h in
    let (differ, plain) =
      >>-ok_inv
        (ensure (not (actor_id == target_id))
          (validation "Ownership transfer target must be a different organization member"))
        _ h1 in
    let apart = not-true_inv _ (ensure-ok_inv _ _ differ) in
    (
      ensure-ok_inv _ _ owns,
      (λ e. let met : (actor_id == target_id) ≡ true = (==_iff _ _).1 e in ground arith),
      not-true_inv _ (ensure-ok_inv _ _ plain),
    )

move_ownership-mem :
    (table : List OrgMembership) {actor target : OrgMembership}
    → Memᴰ actor table
    → Memᴰ target table
    → actor.org_id ≡ target.org_id
    → actor.user_id ≢ target.user_id
    → Memᴰ
        (set_role OrgRole.admin actor)
        (move_ownership actor.org_id actor.user_id target.user_id table)
      × Memᴰ
          (set_role OrgRole.owner target)
          (move_ownership actor.org_id actor.user_id target.user_id table)
unfolding move_ownership
move_ownership-mem table {actor} {target} actor_mem target_mem same apart = (
  updated-mem (is_membership actor.org_id actor.user_id) (set_role OrgRole.admin) _
      (passed-mem (is_membership actor.org_id target.user_id) (set_role OrgRole.owner) table
        actor_mem (other_user actor actor.org_id target.user_id apart))
      (is_membership_of actor actor.org_id actor.user_id refl refl),
  passed-mem (is_membership actor.org_id actor.user_id) (set_role OrgRole.admin) _
      (updated-mem (is_membership actor.org_id target.user_id) (set_role OrgRole.owner) table
        target_mem (is_membership_of target actor.org_id target.user_id (sym same) refl))
      (other_user (set_role OrgRole.owner target) actor.org_id actor.user_id (λ e. apart (sym e))),
)

-- Ownership passes from its owner, who asks for it, to another member who was no owner: the one
-- becomes an admin and the other an owner of the same organization.
pub transfer_ownership-moves :
    (db : Db) (identity : AuthenticatedIdentity) (slug username : String) {reply : Uuid}
    {after : Db}
    → transfer_ownership db identity slug username ≡ ok (reply, after)
    → (actor : OrgMembership) × (target : OrgMembership) × Memᴰ actor db.org_memberships
      × Memᴰ target db.org_memberships
      × (actor.org_id ≡ target.org_id)
      × (actor.user_id ≡ identity.user_id)
      × (target.user_id ≡ reply)
      × (actor.user_id ≢ target.user_id)
      × (is_owner actor.role ≡ true)
      × (is_owner target.role ≡ false)
      × Memᴰ (set_role OrgRole.admin actor) after.org_memberships
      × Memᴰ (set_role OrgRole.owner target) after.org_memberships
unfolding transfer_ownership log_member
transfer_ownership-moves db identity slug username {reply} {after} h =
    let (_, h1) = >>-ok_inv (ensure_scope identity scope_orgs_transfer) _ h in
    let (_, h2) =
      >>-ok_inv
        (ensure (not (is_empty (trim_text username)))
          (validation "Ownership transfer target must not be empty"))
        _ h1 in
    let (org, _, h3) =
      >>=-ok_inv
        (ok_or (fetch_optional (organizations_by_slug db slug))
          (not_found "Organization not found"))
        _ h2 in
    let (actor, actor_loaded, h4) =
      >>=-ok_inv
        (ok_or (fetch_optional (memberships db org.id identity.user_id))
          (forbidden "Transferring organization ownership requires an owner membership"))
        _ h3 in
    let (target, target_loaded, h5) =
      >>=-ok_inv
        (ok_or (fetch_optional (active_memberships db org.id (trim_text username)))
          (not_found "The target user must already be an active organization member"))
        _ h4 in
    let (valid, h6) =
      >>-ok_inv (validate_ownership_transfer identity.user_id actor.role target.user_id target.role)
        _ h5 in
    let (actor_mem, actor_org, actor_user) =
      memberships-mem_inv db org.id identity.user_id
        (fetch-mem _ (ok_or-ok_inv _ _ actor_loaded)) in
    let (target_mem, target_org) =
      active_memberships-mem_inv db org.id (trim_text username)
        (fetch-mem _ (ok_or-ok_inv _ _ target_loaded)) in
    let (owns, differ, plain) =
      validate-ok_inv identity.user_id actor.role target.user_id target.role valid in
    let apart : actor.user_id ≢ target.user_id = λ e. differ (sym actor_user ∙ e) in
    let (actor_now, target_now) =
      move_ownership-mem db.org_memberships actor_mem target_mem (actor_org ∙ sym target_org)
        apart in
    let moved : move_ownership actor.org_id actor.user_id target.user_id db.org_memberships
        ≡ after.org_memberships =
      rw (actor_org, actor_user) (ap (λ d. d.org_memberships) (reply-ok_inv h6)) in
    (
      actor,
      target,
      actor_mem,
      target_mem,
      actor_org ∙ sym target_org,
      actor_user,
      ap (λ p. p.0) (ok_injective h6),
      apart,
      owns,
      plain,
      subst (λ ms. Memᴰ (set_role OrgRole.admin actor) ms) moved actor_now,
      subst (λ ms. Memᴰ (set_role OrgRole.owner target) ms) moved target_now,
    )
