-- ===== src/Invitations/History.antt =====
-- The invitations over any history of their handlers.
use mathlib.Core.Path.{subst}
use publaryn.Prelude.{
  some, ◌≡◌, ◌≢◌, refl, sym, ap, String, Bool, true, false, not, ◌∷◌, Memᴰ, arith, ◌==◌, ==_iff,
  and_intro, and_parts, not-true_inv,
}
use publaryn.Error.{
  ok, >>=-ok_inv, >>-ok_inv, ensure, ensure-ok_inv, ok_or-ok_inv, ok_or, ok_injective, conflict,
  not_found,
}
use publaryn.Query.{fetch_optional, exists, fetch-mem, exists_of_mem, bind-mem_inv, only-mem_inv}
use publaryn.Query.Update.{update_where, updated-mem}
use publaryn.Domain.Invitation.{
  OrganizationInvitation, status_at, pending, is_actionable_at, is_actionable_at_iff,
}
use publaryn.Db.{Db, Uuid, Time, OrgMembership}
use publaryn.Auth.Identity.{AuthenticatedIdentity, ensure_scope, scope_orgs_write}
use publaryn.Access.Org.{ensure_org_admin_by_slug}
use publaryn.Access.Rows.{row_inv}
use publaryn.Members.Handlers.{memberships}
use publaryn.Members.Rows.{memberships-mem}
use publaryn.Invitations.Created.{creates-Keeps}
use publaryn.Invitations.Handlers.{
  is_open, set_revoked, set_accepted, set_declined, log_invitation, is_revocable, is_addressed,
  is_invitation, invitations_where, addressed_invitations, invited_member, scope_orgs_join,
  not_actionable, revoke_org_invitation, accept_org_invitation, decline_org_invitation,
}
use publaryn.Invitations.Sound.{IsSound, Closes}
use publaryn.Invitations.Steps.{
  InvitationStep, InvitationHistory, Keeps, closed_by_accept, closed_by_decline, Closes-Keeps,
  revoking, found_open,
}

addressed-inv :
    (db : Db) (id user_id : Uuid) {i : OrganizationInvitation}
    → Memᴰ i (addressed_invitations db id user_id)
    → Memᴰ i db.org_invitations × (is_addressed id user_id i ≡ true)
unfolding addressed_invitations
addressed-inv db id user_id {i} m =
    let (x, x_mem, m1) = bind-mem_inv db.org_invitations _ m in
    let (o, o_mem, m2) = bind-mem_inv db.organizations _ m1 in
    let (of_org, m3) = only-mem_inv (o.id == x.org_id) _ m2 in
    let (hit, here) = only-mem_inv (is_addressed id user_id x) _ m3 in
    let same = row_inv here in (rw same x_mem, rw same hit)

where-inv :
    (db : Db) (test : OrganizationInvitation → Bool) {i : OrganizationInvitation}
    → Memᴰ i (invitations_where db test)
    → Memᴰ i db.org_invitations × (test i ≡ true)
unfolding invitations_where
where-inv db test {i} m =
    let (x, x_mem, m1) = bind-mem_inv db.org_invitations _ m in
    let (hit, here) = only-mem_inv (test x) _ m1 in
    let same = row_inv here in (rw same x_mem, rw same hit)

revocable-open :
    (id org_id : Uuid) (x : OrganizationInvitation)
    → is_revocable id org_id x ≡ true
    → is_open x ≡ true
revocable-open id org_id x hit = ground arith

actionable-pending :
    (i : OrganizationInvitation) (now : Time)
    → is_actionable_at i now ≡ true
    → status_at i now ≡ pending
unfolding status_at
actionable-pending i now h = let (a, d, r, t) = (is_actionable_at_iff i now).0 h in ground arith

accepted-inv :
    (db : Db) (identity : AuthenticatedIdentity) (id : Uuid) (now : Time)
    {reply : OrganizationInvitation} {db' : Db}
    → accept_org_invitation db identity id now ≡ ok (reply, db')
    → Memᴰ reply (addressed_invitations db id identity.user_id)
      × (is_actionable_at reply now ≡ true)
      × (exists (memberships db reply.org_id identity.user_id) ≡ false)
      × (db'.org_memberships ≡ invited_member reply identity.user_id ∷ db.org_memberships)
      × (db'.org_invitations
          ≡ update_where
              (is_invitation reply.id)
              (set_accepted identity.user_id now)
              db.org_invitations)
unfolding accept_org_invitation log_invitation
accepted-inv db identity id now {reply} {db'} h =
    let (a, h1) = >>-ok_inv (ensure_scope identity scope_orgs_join) _ h in
    let (invitation, found, h2) =
      >>=-ok_inv
        (ok_or (fetch_optional (addressed_invitations db id identity.user_id))
          (not_found "Invitation not found"))
        _ h1 in
    let (able, h3) =
      >>-ok_inv (ensure (is_actionable_at invitation now) (not_actionable invitation now)) _ h2 in
    let (fresh, h4) =
      >>-ok_inv
        (ensure (not (exists (memberships db invitation.org_id identity.user_id)))
          (conflict "You are already a member of this organization"))
        _ h3 in
    let done = ok_injective h4 in
    let found' = fetch-mem _ (ok_or-ok_inv _ _ found) in
    let is : invitation ≡ reply = ap (λ p. p.0) done in
    (
      subst (λ r. Memᴰ r (addressed_invitations db id identity.user_id)) is found',
      subst (λ r. is_actionable_at r now ≡ true) is (ensure-ok_inv _ _ able),
      subst (λ r. exists (memberships db r.org_id identity.user_id) ≡ false) is
          (not-true_inv _ (ensure-ok_inv _ _ fresh)),
      subst (λ r. db'.org_memberships ≡ invited_member r identity.user_id ∷ db.org_memberships) is
          (sym (ap (λ p. p.1.org_memberships) done)),
      subst
          (λ r.
            db'.org_invitations
            ≡ update_where (is_invitation r.id) (set_accepted identity.user_id now)
                db.org_invitations)
          is (sym (ap (λ p. p.1.org_invitations) done)),
    )

module _ (db : Db) (sound : IsSound db.org_invitations) where
  revokes-Keeps :
      (identity : AuthenticatedIdentity) (slug : String) (id : Uuid) (now : Time)
      {reply : OrganizationInvitation} {db' : Db}
      → revoke_org_invitation db identity slug id now ≡ ok (reply, db')
      → Keeps db.org_invitations db'.org_invitations
  unfolding revoke_org_invitation log_invitation
  revokes-Keeps identity slug id now h =
      let (a, h1) = >>-ok_inv (ensure_scope identity scope_orgs_write) _ h in
      let (org_id, b, h2) = >>=-ok_inv (ensure_org_admin_by_slug db slug identity.user_id) _ h1 in
      let (old, c, h3) =
        >>=-ok_inv
          (ok_or (fetch_optional (invitations_where db (is_revocable id org_id)))
            (not_found "Invitation not found"))
          _ h2 in
      let test = is_revocable id org_id in
      let keeps =
        Closes-Keeps db.org_invitations test (set_revoked identity.user_id now)
          (revoking db.org_invitations test identity.user_id now
            (λ x hit. revocable-open id org_id x hit))
          sound in
      subst (λ t. Keeps db.org_invitations t) (ap (λ p. p.1.org_invitations) (ok_injective h3))
        keeps

  accepts-Keeps :
      (identity : AuthenticatedIdentity) (id : Uuid) (now : Time) {reply : OrganizationInvitation}
      {db' : Db}
      → accept_org_invitation db identity id now ≡ ok (reply, db')
      → Keeps db.org_invitations db'.org_invitations
  accepts-Keeps identity id now {reply} h =
      let (found, able, fresh, joined, done) = accepted-inv db identity id now h in
      let (m, hit) = addressed-inv db id identity.user_id found in
      let closes : Closes db.org_invitations (is_invitation reply.id)
          (set_accepted identity.user_id now) =
        record {
          keeps_id = λ i. refl;
          keeps_role = λ i. refl;
          keeps_created = λ i. refl;
          keeps_expires = λ i. refl;
          was_open = found_open db.org_invitations reply now sound m able;
          closed = closed_by_accept identity.user_id now;
        } in
      subst (λ t. Keeps db.org_invitations t) (sym done)
        (Closes-Keeps db.org_invitations _ _ closes sound)

  declines-Keeps :
      (identity : AuthenticatedIdentity) (id : Uuid) (now : Time) {reply : OrganizationInvitation}
      {db' : Db}
      → decline_org_invitation db identity id now ≡ ok (reply, db')
      → Keeps db.org_invitations db'.org_invitations
  unfolding decline_org_invitation log_invitation
  declines-Keeps identity id now h =
      let (a, h1) = >>-ok_inv (ensure_scope identity scope_orgs_join) _ h in
      let (invitation, found, h2) =
        >>=-ok_inv
          (ok_or (fetch_optional (invitations_where db (is_addressed id identity.user_id)))
            (not_found "Invitation not found"))
          _ h1 in
      let (able, h3) =
        >>-ok_inv (ensure (is_actionable_at invitation now) (not_actionable invitation now)) _ h2 in
      let (m, hit) =
        where-inv db (is_addressed id identity.user_id) (fetch-mem _ (ok_or-ok_inv _ _ found)) in
      let closes : Closes db.org_invitations (is_invitation invitation.id)
          (set_declined identity.user_id now) =
        record {
          keeps_id = λ i. refl;
          keeps_role = λ i. refl;
          keeps_created = λ i. refl;
          keeps_expires = λ i. refl;
          was_open = found_open db.org_invitations invitation now sound m (ensure-ok_inv _ _ able);
          closed = closed_by_decline identity.user_id now;
        } in
      subst (λ t. Keeps db.org_invitations t) (ap (λ p. p.1.org_invitations) (ok_injective h3))
        (Closes-Keeps db.org_invitations _ _ closes sound)

step-Keeps :
    {db db' : Db}
    → InvitationStep db db'
    → IsSound db.org_invitations
    → Keeps db.org_invitations db'.org_invitations
step-Keeps (InvitationStep.creates db db' identity slug body now id reply fresh h) sound =
    creates-Keeps db sound identity slug body now id fresh h
step-Keeps (InvitationStep.revokes db db' identity slug id now reply h) sound =
    revokes-Keeps db sound identity slug id now h
step-Keeps (InvitationStep.accepts db db' identity id now reply h) sound =
    accepts-Keeps db sound identity id now h
step-Keeps (InvitationStep.declines db db' identity id now reply h) sound =
    declines-Keeps db sound identity id now h

-- From a sound table of invitations, over any sequence of granted requests that create (with ids
-- that are fresh), revoke, accept or decline an invitation: no invitation is accepted, declined
-- or revoked more than once or in two ways, none offers the role of owner, each expires after its
-- creation, ids are unique, and a user has one open invitation at most to an organization. An
-- invitation that was accepted, declined or revoked stands as it was.
pub InvitationHistory-IsSound :
    {db db' : Db}
    → IsSound db.org_invitations
    → InvitationHistory db db'
    → IsSound db'.org_invitations
      × ((i : OrganizationInvitation)
          → Memᴰ i db.org_invitations
          → is_open i ≡ false
          → Memᴰ i db'.org_invitations)
InvitationHistory-IsSound sound InvitationHistory.starts = (sound, λ i m shut. m)
InvitationHistory-IsSound sound (InvitationHistory.continues before step) =
    let (mid_sound, stays) = InvitationHistory-IsSound sound before in
    let (after_sound, stays') = step-Keeps step mid_sound in
    (after_sound, λ i m shut. stays' i (stays i m shut) shut)

-- An accepted invitation is a row addressed to the caller that was pending at the time and whose
-- organization the caller was not in. The caller becomes a member of that organization with the
-- role of the invitation, invited by its sender; the row is marked accepted by the caller, at that
-- time, with its organization and role; and no other member changes.
pub accept_org_invitation_sound :
    (db : Db) (identity : AuthenticatedIdentity) (id : Uuid) (now : Time)
    {reply : OrganizationInvitation} {db' : Db}
    → accept_org_invitation db identity id now ≡ ok (reply, db')
    → Memᴰ reply db.org_invitations
      × (reply.id ≡ id)
      × (reply.invited_user_id ≡ identity.user_id)
      × (status_at reply now ≡ pending)
      × ((m : OrgMembership)
          → Memᴰ m db.org_memberships
          → m.org_id ≡ reply.org_id
          → m.user_id ≢ identity.user_id)
      × ((k : OrgMembership) × (db'.org_memberships ≡ k ∷ db.org_memberships)
          × (k.org_id ≡ reply.org_id)
          × (k.user_id ≡ identity.user_id)
          × (k.role ≡ reply.role)
          × (k.invited_by ≡ some reply.invited_by))
      × ((i : OrganizationInvitation) × Memᴰ i db'.org_invitations
          × (i.id ≡ id)
          × (i.org_id ≡ reply.org_id)
          × (i.role ≡ reply.role)
          × (i.accepted_by ≡ some identity.user_id)
          × (i.accepted_at ≡ some now))
accept_org_invitation_sound db identity id now {reply} {db'} h =
    let (found, able, fresh, joined, done) = accepted-inv db identity id now h in
    let (m, hit) = addressed-inv db id identity.user_id found in
    let (by_id, to_caller) = and_parts _ _ hit in
    (
      m,
      (==_iff _ _).0 by_id,
      (==_iff _ _).0 to_caller,
      actionable-pending reply now able,
      λ k k_mem of_org of_user.
          let there = exists_of_mem (memberships db reply.org_id identity.user_id) (
            memberships-mem db reply.org_id identity.user_id k_mem
              (and_intro ((==_iff _ _).1 of_org) ((==_iff _ _).1 of_user))) in
          absurd (ground arith),
      (invited_member reply identity.user_id, joined, refl, refl, refl, refl),
      (
        set_accepted identity.user_id now reply,
        rw done (
            updated-mem (is_invitation reply.id) (set_accepted identity.user_id now)
              db.org_invitations m ((==_iff _ _).1 refl)),
        (==_iff _ _).0 by_id,
        refl,
        refl,
        refl,
        refl,
      ),
    )
