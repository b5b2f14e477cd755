-- ===== src/Members/Rows.antt =====
-- The rows behind the queries of the member handlers.
use publaryn.Prelude.{
  ◌≡◌, ◌≢◌, refl, String, true, false, inl, inr, Memᴰ, and_parts, and_intro, ◌==◌, ==_iff,
  Bool-cases, eq_iff, ◌&&◌,
}
use publaryn.Query.{bind-mem_inv, bind-mem, only-mem_inv, only-mem}
use text.Mathlib.Text.{◌==◌ as str_eq}
use publaryn.Db.{Db, Uuid, User, OrgMembership}
use publaryn.Access.Rows.{row_inv}
use publaryn.Members.Handlers.{users_by_username, memberships, is_membership, active_memberships}

-- UNIQUE (org_id, user_id) of org_memberships.
abbrev pub IsUnique : Db → Type 0
IsUnique db =
    (a b : OrgMembership)
    → Memᴰ a db.org_memberships
    → Memᴰ b db.org_memberships
    → a.org_id ≡ b.org_id
    → a.user_id ≡ b.user_id
    → a ≡ b

pub is_membership-inv :
    (org_id user_id : Uuid) (m : OrgMembership)
    → is_membership org_id user_id m ≡ true
    → (m.org_id ≡ org_id) × (m.user_id ≡ user_id)
is_membership-inv org_id user_id m h =
    let (o, u) = and_parts _ _ h in ((==_iff _ _).0 o, (==_iff _ _).0 u)

pub memberships-mem_inv :
    (db : Db) (org_id user_id : Uuid) {m : OrgMembership}
    → Memᴰ m (memberships db org_id user_id)
    → Memᴰ m db.org_memberships × (m.org_id ≡ org_id) × (m.user_id ≡ user_id)
unfolding memberships
memberships-mem_inv db org_id user_id {m} h =
    let (x, x_mem, h1) = bind-mem_inv db.org_memberships _ h in
    let (e, here) = only-mem_inv (is_membership org_id user_id x) _ h1 in
    let same = row_inv here in
    let (o, u) = is_membership-inv org_id user_id x e in (rw same x_mem, rw same o, rw same u)

pub memberships-mem :
    (db : Db) (org_id user_id : Uuid) {m : OrgMembership}
    → Memᴰ m db.org_memberships
    → is_membership org_id user_id m ≡ true
    → Memᴰ m (memberships db org_id user_id)
unfolding memberships
memberships-mem db org_id user_id {m} m_mem e =
    bind-mem db.org_memberships _ m_mem
      (only-mem (is_membership org_id user_id m) _ e (Memᴰ.head refl))

pub users_by_username-mem_inv :
    (db : Db) (username : String) {u : User}
    → Memᴰ u (users_by_username db username)
    → Memᴰ u db.users × (u.username ≡ username)
unfolding users_by_username
users_by_username-mem_inv db username {u} h =
    let (x, x_mem, h1) = bind-mem_inv db.users _ h in
    let (e, here) = only-mem_inv (str_eq x.username username) _ h1 in
    let same = row_inv here in (rw same x_mem, rw same ((eq_iff _ _).0 e))

pub active_memberships-mem_inv :
    (db : Db) (org_id : Uuid) (username : String) {m : OrgMembership}
    → Memᴰ m (active_memberships db org_id username)
    → Memᴰ m db.org_memberships × (m.org_id ≡ org_id)
unfolding active_memberships
active_memberships-mem_inv db org_id username {m} h =
    let (x, x_mem, h1) = bind-mem_inv db.org_memberships _ h in
    let (u, u_mem, h2) = bind-mem_inv db.users _ h1 in
    let (linked, h3) = only-mem_inv (u.id == x.user_id) _ h2 in
    let (e, here) =
      only-mem_inv (x.org_id == org_id && str_eq u.username username && u.is_active) _ h3 in
    let (e1, _) = and_parts _ _ e in
    let (o, _) = and_parts _ _ e1 in
    let same = row_inv here in (rw same x_mem, rw same ((==_iff _ _).0 o))

pub is_membership_of :
    (m : OrgMembership) (org_id user_id : Uuid)
    → m.org_id ≡ org_id
    → m.user_id ≡ user_id
    → is_membership org_id user_id m ≡ true
is_membership_of m org_id user_id o u = and_intro ((==_iff _ _).1 o) ((==_iff _ _).1 u)

pub other_user :
    (m : OrgMembership) (org_id user_id : Uuid)
    → m.user_id ≢ user_id
    → is_membership org_id user_id m ≡ false
other_user m org_id user_id apart = elim (Bool-cases (is_membership org_id user_id m)) [
  | inl hit ↦ absurd (apart (is_membership-inv org_id user_id m hit).1)
  | inr miss ↦ miss
]
