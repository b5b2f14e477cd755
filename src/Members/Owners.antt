-- ===== src/Members/Owners.antt =====
-- Adding and removing members, and the owners of an organization.
use mathlib.Core.Path.{subst}
use publaryn.Prelude.{
  ◌≡◌, refl, sym, ◌∙◌, ap, String, true, false, not, inl, inr, Option, none, some, Memᴰ, arith,
  Bool-cases, Option-cases, not-true_inv, and_intro, ==_iff, cons-mem_inv,
}
use publaryn.Error.{
  ok, >>=-ok_inv, >>-ok_inv, ok_injective, ensure, ok_or, not_found, forbidden, validation,
  reply-ok_inv, ensure-ok_inv, ok_or-ok_inv,
}
use publaryn.Query.{fetch_optional, fetch-mem, fetch-none}
use publaryn.Query.Update.{updated-mem, update_where-mem_inv, delete_where-mem}
use text.Mathlib.Text.{◌==◌ as str_eq}
use publaryn.Domain.OrgRole
use publaryn.Domain.OrgRole.{OrgRole, is_owner, from_str}
use publaryn.Db.{Db, Uuid, User, OrgMembership}
use publaryn.Auth.Identity.{AuthenticatedIdentity, ensure_scope, scope_orgs_write}
use publaryn.Access.Org.{ensure_org_admin_by_slug}
use publaryn.Members.Handlers.{
  users_by_username, memberships, is_membership, upsert_membership, set_membership, member_reply,
  log_member, add_member, remove_member, MemberReply,
}
use publaryn.Members.Rows.{
  IsUnique, is_membership-inv, memberships-mem_inv, memberships-mem, users_by_username-mem_inv,
}

-- Removing a member leaves every owner of every organization in place.
pub remove_member-keeps_owners :
    (db : Db)
    → IsUnique db
    → (identity : AuthenticatedIdentity) (slug username : String) {reply : Uuid} {after : Db}
    → remove_member db identity slug username ≡ ok (reply, after)
    → {m : OrgMembership} → Memᴰ m db.org_memberships
    → is_owner m.role ≡ true
    → Memᴰ m after.org_memberships
unfolding remove_member log_member
remove_member-keeps_owners db key identity slug username {reply} {after} h {m} m_mem owner =
    let (_, h1) = >>-ok_inv (ensure_scope identity scope_orgs_write) _ h in
    let (org_id, _, h2) = >>=-ok_inv (ensure_org_admin_by_slug db slug identity.user_id) _ h1 in
    let (user, _, h3) =
      >>=-ok_inv
        (ok_or (fetch_optional (users_by_username db username)) (not_found "User not found")) _
        h2 in
    let (found, loaded, h4) =
      >>=-ok_inv
        (ok_or (fetch_optional (memberships db org_id user.id)) (not_found "Membership not found"))
        _ h3 in
    let (plain, h5) =
      >>-ok_inv
        (ensure (not (is_owner found.role))
          (forbidden "Owner membership cannot be removed through this endpoint"))
        _ h4 in
    let (found_mem, found_org, found_user) =
      memberships-mem_inv db org_id user.id (fetch-mem _ (ok_or-ok_inv _ _ loaded)) in
    let other : is_membership org_id user.id m ≡ false =
      elim (Bool-cases (is_membership org_id user.id m)) [
        | inr miss ↦ miss
        | inl hit ↦
            let (o, u) = is_membership-inv org_id user.id m hit in
            let one : m ≡ found =
              key m found m_mem found_mem (o ∙ sym found_org) (u ∙ sym found_user) in
            let no_owner = ensure-ok_inv _ _ plain in
            let is_one : is_owner found.role ≡ true = sym (ap (λ x. is_owner x.role) one) ∙ owner in
            absurd (ground arith)
      ] in
    subst (λ d. Memᴰ m d.org_memberships) (reply-ok_inv h5)
      (delete_where-mem (is_membership org_id user.id) db.org_memberships m_mem other)

-- After an upsert the membership has the new role, whatever it was before.
upsert-role :
    (db : Db) (org_id user_id : Uuid) (role : OrgRole) (invited_by : Uuid) {m : OrgMembership}
    → Memᴰ m (
        upsert_membership org_id user_id role invited_by
          (fetch_optional (memberships db org_id user_id))
          db.org_memberships)
    → is_membership org_id user_id m ≡ true
    → m.role ≡ role
unfolding upsert_membership
upsert-role db org_id user_id role invited_by {m} m_mem same =
    elim (Option-cases (fetch_optional (memberships db org_id user_id))) [
      | inl nobody ↦ elim (cons-mem_inv (rw nobody at m_mem)) [
        | inl e ↦ ap (λ x. x.role) e
        | inr old ↦ absurd (fetch-none _ nobody (memberships-mem db org_id user_id old same))
      ]
      | inr (present, here) ↦
          let (x, x_mem, how) =
            update_where-mem_inv (is_membership org_id user_id) (set_membership role invited_by)
              db.org_memberships (rw here at m_mem) in
          elim how [
            | inl (hit, e) ↦ ap (λ y. y.role) e
            | inr (miss, e) ↦
                let met : is_membership org_id user_id x ≡ true =
                  subst (λ y. is_membership org_id user_id y ≡ true) e same in
                absurd (ground arith)
          ]
    ]

upsert-there :
    (db : Db) (org_id user_id : Uuid) (role : OrgRole) (invited_by : Uuid)
    → (m : OrgMembership) × Memᴰ m (
        upsert_membership org_id user_id role invited_by
          (fetch_optional (memberships db org_id user_id))
          db.org_memberships)
      × (m.org_id ≡ org_id)
      × (m.user_id ≡ user_id)
      × (m.role ≡ role)
unfolding upsert_membership
upsert-there db org_id user_id role invited_by =
    elim (Option-cases (fetch_optional (memberships db org_id user_id))) [
      | inl nobody ↦ rw nobody (_, Memᴰ.head refl, refl, refl, refl)
      | inr (present, here) ↦
          let (m, of_org, of_user) = memberships-mem_inv db org_id user_id (fetch-mem _ here) in
          let hit = and_intro ((==_iff _ _).1 of_org) ((==_iff _ _).1 of_user) in
          rw here (
            set_membership role invited_by present,
            updated-mem (is_membership org_id user_id) (set_membership role invited_by)
                db.org_memberships m hit,
            of_org,
            of_user,
            refl,
          )
    ]

member_reply-memberships :
    (identity : AuthenticatedIdentity) (user_id org_id : Uuid) (role : OrgRole)
    (previous : Option OrgMembership) (db : Db)
    → (member_reply identity user_id org_id role previous db).1.org_memberships ≡ db.org_memberships
unfolding member_reply log_member
member_reply-memberships identity user_id org_id role none db = refl
member_reply-memberships identity user_id org_id role (some previous) db =
    elim (Bool-cases (str_eq (OrgRole.as_str previous.role) (OrgRole.as_str role))) [
      | inl same ↦ rw same refl
      | inr other ↦ rw other refl
    ]

-- `add_member` gives the named user the asked role, which is never owner, in the organization,
-- also where that user is its owner: the user has a membership there afterwards, and every one of
-- them has that role.
pub add_member-never_owner :
    (db : Db) (identity : AuthenticatedIdentity) (slug username role_text : String)
    {reply : MemberReply} {after : Db}
    → add_member db identity slug username role_text ≡ ok (reply, after)
    → (org_id : Uuid) × (user : User) × (role : OrgRole) × (ensure_org_admin_by_slug db slug
          identity.user_id
        ≡ ok org_id)
      × Memᴰ user db.users
      × (user.username ≡ username)
      × (from_str role_text ≡ ok role)
      × (is_owner role ≡ false)
      × ((m : OrgMembership) × Memᴰ m after.org_memberships
          × (m.org_id ≡ org_id)
          × (m.user_id ≡ user.id)
          × (m.role ≡ role))
      × ((m : OrgMembership)
          → Memᴰ m after.org_memberships
          → is_membership org_id user.id m ≡ true
          → m.role ≡ role)
unfolding add_member
add_member-never_owner db identity slug username role_text {reply} {after} h =
    let (_, h1) = >>-ok_inv (ensure_scope identity scope_orgs_write) _ h in
    let (org_id, granted, h2) =
      >>=-ok_inv (ensure_org_admin_by_slug db slug identity.user_id) _ h1 in
    let (role, read, h3) = >>=-ok_inv (from_str role_text) _ h2 in
    let (plain, h4) =
      >>-ok_inv
        (ensure (not (is_owner role)) (
          validation
            "Owner assignment is not supported through member management; use a dedicated ownership transfer flow"))
        _ h3 in
    let (user, loaded, h5) =
      >>=-ok_inv
        (ok_or (fetch_optional (users_by_username db username)) (not_found "User not found")) _
        h4 in
    let (user_mem, named) =
      users_by_username-mem_inv db username (fetch-mem _ (ok_or-ok_inv _ _ loaded)) in
    let replied = ap (λ p. p.1.org_memberships) (ok_injective h5) in
    let table =
      member_reply-memberships identity user.id org_id role
        (fetch_optional (memberships db org_id user.id))
        (record db {
          org_memberships =
              upsert_membership org_id user.id role identity.user_id
                (fetch_optional (memberships db org_id user.id)) db.org_memberships;
        }) in
    let left = sym replied ∙ table in
    let (there, there_mem, is_of_org, is_of_user, has_role) =
      upsert-there db org_id user.id role identity.user_id in
    (
      org_id,
      user,
      role,
      granted,
      user_mem,
      named,
      read,
      not-true_inv _ (ensure-ok_inv _ _ plain),
      (there, subst (λ ms. Memᴰ there ms) (sym left) there_mem, is_of_org, is_of_user, has_role),
      λ m m_mem same.
          upsert-role db org_id user.id role identity.user_id (subst (λ ms. Memᴰ m ms) left m_mem)
            same,
    )
