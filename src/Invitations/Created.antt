-- ===== src/Invitations/Created.antt =====
-- What `create_org_invitation` does to the table of invitations.
use mathlib.Core.Path.{subst}
use publaryn.Prelude.{
  ℕ, ◌+◌, ◌*◌, ◌<◌, ◌≡◌, ◌≢◌, sym, ap, ◌∙◌, inl, inr, String, true, false, not, ◌&&◌, ◌||◌, List,
  ◌∷◌, Memᴰ, any, arith, is_empty, trim_text, ltb, ◌==◌, not-true_inv,
}
use publaryn.Error.{
  ok, >>=-ok_inv, >>-ok_inv, ensure, ensure-ok_inv, ok_or, ok_injective, validation, conflict,
  not_found, already_exists,
}
use publaryn.Query.{fetch_optional, exists}
use publaryn.Query.Update.{update_where, update_where-mem_inv}
use publaryn.Domain.OrgRole.{OrgRole, is_owner}
use publaryn.Domain.Invitation.{OrganizationInvitation, new}
use publaryn.Db.{Db, Uuid, Time}
use publaryn.Auth.Identity.{AuthenticatedIdentity, ensure_scope, scope_orgs_write}
use publaryn.Access.Org.{ensure_org_admin_by_slug}
use publaryn.Members.Handlers.{memberships}
use publaryn.Invitations.Handlers.{
  CreateOrgInvitationRequest, days_or_default, max_invitation_ttl_days, role_or_viewer, is_open,
  is_for, is_lapsed, set_revoked, log_invitation, active_users_by_name_or_email,
  create_org_invitation,
}
use publaryn.Invitations.Sound.{IsFine, IsSound, outcomes, new-IsSound}
use publaryn.Invitations.Steps.{Keeps, Closes-Keeps, revoking}

new-fields :
    (now id org user : ℕ) (role : OrgRole) (by expires : ℕ) {i : OrganizationInvitation}
    → new now id org user role by expires ≡ ok i
    → (i.id ≡ id)
      × (i.org_id ≡ org)
      × (i.invited_user_id ≡ user)
      × (i.role ≡ role)
      × (i.created_at < i.expires_at)
      × (outcomes i ≡ 0)
unfolding new
new-fields now id org user role by expires h = ground arith

lapsed-open :
    (org user : Uuid) (now : Time) (x : OrganizationInvitation)
    → is_lapsed org user now x ≡ true
    → is_open x ≡ true
lapsed-open org user now x hit = ground arith

-- The invitation that `create_org_invitation` puts into the table it has swept.
invited-Keeps :
    (table : List OrganizationInvitation) (now id org user : ℕ) (role : OrgRole) (by expires : ℕ)
    {i : OrganizationInvitation}
    → IsSound table
    → ((x : OrganizationInvitation) → Memᴰ x table → x.id ≢ id)
    → is_owner role ≡ false
    → new now id org user role by expires ≡ ok i
    → any
        (λ x. is_for org user x && is_open x)
        (update_where (is_lapsed org user now) (set_revoked by now) table)
      ≡ false
    → Keeps table (i ∷ update_where (is_lapsed org user now) (set_revoked by now) table)
invited-Keeps table now id org user role by expires {i} sound fresh ranked made alone =
    let (same_id, same_org, same_user, same_role, lasting, none_yet) =
      new-fields now id org user role by expires made in
    let swept = update_where (is_lapsed org user now) (set_revoked by now) table in
    let (swept_sound, stays) =
      Closes-Keeps table (is_lapsed org user now) (set_revoked by now)
        (revoking table (is_lapsed org user now) by now (λ x hit. lapsed-open org user now x hit))
        sound in
    let fresh_id : (x : OrganizationInvitation) → Memᴰ x swept → x.id ≢ i.id =
      λ x m e. swept-fresh x m (e ∙ same_id) in
    let fine : IsFine i = record {
      one_outcome = omega (arith, none_yet);
      no_owner = rw same_role ranked;
      lasting = lasting;
    } in
    let alone' : any (λ x. is_for i.org_id i.invited_user_id x && is_open x) swept ≡ false =
      rw (same_org, same_user) alone in
    (new-IsSound swept i swept_sound fine fresh_id alone', λ x m shut. Memᴰ.tail (stays x m shut))
  where
    swept-fresh :
        (x : OrganizationInvitation)
        → Memᴰ x (update_where (is_lapsed org user now) (set_revoked by now) table)
        → x.id ≢ id
    swept-fresh x m e =
        let (y, y_mem, how) =
          update_where-mem_inv (is_lapsed org user now) (set_revoked by now) table m in
        elim how [
          | inl (hit, is) ↦ fresh y y_mem (sym (ap (λ z. z.id) is) ∙ e)
          | inr (miss, is) ↦ fresh y y_mem (sym (ap (λ z. z.id) is) ∙ e)
        ]

module _ (db : Db) (sound : IsSound db.org_invitations) where
  pub creates-Keeps :
      (identity : AuthenticatedIdentity) (slug : String) (body : CreateOrgInvitationRequest)
      (now : Time) (id : Uuid) {reply : OrganizationInvitation} {db' : Db}
      → ((x : OrganizationInvitation) → Memᴰ x db.org_invitations → x.id ≢ id)
      → create_org_invitation db identity slug body now id ≡ ok (reply, db')
      → Keeps db.org_invitations db'.org_invitations
  unfolding create_org_invitation log_invitation
  creates-Keeps identity slug body now id {reply} fresh h =
      let (a, h1) = >>-ok_inv (ensure_scope identity scope_orgs_write) _ h in
      let identifier = trim_text body.username_or_email in
      let (b, h2) =
        >>-ok_inv
          (ensure (not (is_empty identifier)) (validation "Invitation target must not be empty")) _
          h1 in
      let days = days_or_default body.expires_in_days in
      let (c, h3) =
        >>-ok_inv
          (ensure (not (days == 0 || ltb max_invitation_ttl_days days))
            (validation "Invitation expiry must be between 1 and 30 days"))
          _ h2 in
      let (role, d, h4) = >>=-ok_inv (role_or_viewer body.role) _ h3 in
      let (ranked, h5) =
        >>-ok_inv
          (ensure (not (is_owner role)) (
            validation
              "Owner invitations are not supported; use a dedicated ownership transfer flow"))
          _ h4 in
      let (org_id, e, h6) = >>=-ok_inv (ensure_org_admin_by_slug db slug identity.user_id) _ h5 in
      let (user, f, h7) =
        >>=-ok_inv
          (ok_or (fetch_optional (active_users_by_name_or_email db identifier))
            (not_found "No active user matches the provided username or email"))
          _ h6 in
      let (g, h8) =
        >>-ok_inv
          (ensure (not (exists (memberships db org_id user.id)))
            (conflict "The selected user is already a member of this organization"))
          _ h7 in
      let expires = now + days * 86400000000 in
      let (invitation, made, h9) =
        >>=-ok_inv (new now id org_id user.id role identity.user_id expires) _ h8 in
      let swept =
        update_where (is_lapsed org_id user.id now) (set_revoked identity.user_id now)
          db.org_invitations in
      let (alone, h10) =
        >>-ok_inv
          (ensure (not (any (λ i. is_for org_id user.id i && is_open i) swept))
            (already_exists "An active invitation already exists for this user"))
          _ h9 in
      let keeps =
        invited-Keeps db.org_invitations now id org_id user.id role identity.user_id expires sound
          fresh (not-true_inv _ (ensure-ok_inv _ _ ranked)) made
          (not-true_inv _ (ensure-ok_inv _ _ alone)) in
      subst (λ t. Keeps db.org_invitations t) (ap (λ p. p.1.org_invitations) (ok_injective h10))
        keeps
