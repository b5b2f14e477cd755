-- ===== src/Invitations/Sound.antt =====
-- When a table of invitations is sound, and that closing open invitations keeps it so.
use mathlib.Core.Path.{subst}
use publaryn.Prelude.{
  ℕ, ◌+◌, ◌≤◌, ◌<◌, ◌≡◌, ◌≢◌, refl, sym, ap, ◌∙◌, ◌⊎◌, inl, inr, Bool, true, false, ◌&&◌, List, ◌∷◌,
  Memᴰ, any, any-mem_false, cons-mem_inv, and_intro, arith, is_some, if◌then◌else◌, ==_iff,
  Bool-cases,
}
use publaryn.Query.Update.{update_where, update_where-mem_inv, passed-mem}
use publaryn.Domain.OrgRole.{is_owner}
use publaryn.Domain.Invitation.{OrganizationInvitation}
use publaryn.Invitations.Handlers.{is_open, is_for}

abbrev one_if : Bool → ℕ
one_if b = if b then 1 else 0

-- How often an invitation was accepted, declined or revoked.
abbrev pub outcomes : OrganizationInvitation → ℕ
outcomes i =
    one_if (is_some i.accepted_at) + one_if (is_some i.declined_at) + one_if (is_some i.revoked_at)

pub record IsFine (i : OrganizationInvitation) : Type 0 where
  pub one_outcome : outcomes i ≤ 1
  pub no_owner : is_owner i.role ≡ false
  pub lasting : i.created_at < i.expires_at

pub record IsSound (table : List OrganizationInvitation) : Type 0 where
  pub invitation_key :
      (a b : OrganizationInvitation) → Memᴰ a table → Memᴰ b table → a.id ≡ b.id → a ≡ b
  -- UNIQUE (org_id, invited_user_id) of the open invitations.
  pub one_open :
      (a b : OrganizationInvitation)
      → Memᴰ a table
      → Memᴰ b table
      → is_open a ≡ true
      → is_open b ≡ true
      → a.org_id ≡ b.org_id
      → a.invited_user_id ≡ b.invited_user_id
      → a ≡ b
  pub fine : (i : OrganizationInvitation) → Memᴰ i table → IsFine i

-- An update that closes open invitations.
pub record Closes (table : List OrganizationInvitation) (test : OrganizationInvitation → Bool)
    (set : OrganizationInvitation → OrganizationInvitation) : Type 0 where
  pub keeps_id : (i : OrganizationInvitation) → (set i).id ≡ i.id
  pub keeps_role : (i : OrganizationInvitation) → (set i).role ≡ i.role
  pub keeps_created : (i : OrganizationInvitation) → (set i).created_at ≡ i.created_at
  pub keeps_expires : (i : OrganizationInvitation) → (set i).expires_at ≡ i.expires_at
  pub was_open : (i : OrganizationInvitation) → Memᴰ i table → test i ≡ true → is_open i ≡ true
  pub closed :
      (i : OrganizationInvitation)
      → is_open i ≡ true
      → (is_open (set i) ≡ false) × (outcomes (set i) ≡ 1)

module _ (table : List OrganizationInvitation) (test : OrganizationInvitation → Bool)
    (set : OrganizationInvitation → OrganizationInvitation) (closes : Closes table test set) where
  abbrev after : List OrganizationInvitation
  after = update_where test set table

  -- An open invitation afterwards was there before.
  pub still_open : (i : OrganizationInvitation) → Memᴰ i after → is_open i ≡ true → Memᴰ i table
  still_open i m opened =
      let (x, x_mem, how) = update_where-mem_inv test set table m in
      elim how [
        | inl (hit, e) ↦
            let (shut, _) = closes.closed x (closes.was_open x x_mem hit) in
            let opened' : is_open (set x) ≡ true = rw (← e) opened in absurd (ground arith)
        | inr (miss, e) ↦ rw e x_mem
      ]

  -- One that was settled stands as it was.
  pub settled_stays : (i : OrganizationInvitation) → Memᴰ i table → is_open i ≡ false → Memᴰ i after
  settled_stays i m shut = elim (Bool-cases (test i)) [
    | inl hit ↦ let opened = closes.was_open i m hit in absurd (ground arith)
    | inr miss ↦ passed-mem test set table m miss
  ]

  IsFine-after :
      ((i : OrganizationInvitation) → Memᴰ i table → IsFine i)
      → (i : OrganizationInvitation) → Memᴰ i after
      → IsFine i
  IsFine-after fine i m =
      let (x, x_mem, how) = update_where-mem_inv test set table m in
      elim how [
        | inl (hit, e) ↦
            let (_, once) = closes.closed x (closes.was_open x x_mem hit) in
            let f = fine x x_mem in
            rw e (record {
              one_outcome = omega (arith, once);
              no_owner = rw (closes.keeps_role x) f.no_owner;
              lasting = rw (closes.keeps_created x, closes.keeps_expires x) f.lasting;
            })
        | inr (miss, e) ↦ rw e (fine x x_mem)
      ]

  RowOf : (x y : OrganizationInvitation) → Type 0
  RowOf x y = ((test x ≡ true) × (y ≡ set x)) ⊎ ((test x ≡ false) × (y ≡ x))

  id_of : (x y : OrganizationInvitation) → RowOf x y → y.id ≡ x.id
  unfolding RowOf
  id_of x y (inl (hit, e)) = rw e (closes.keeps_id x)
  id_of x y (inr (miss, e)) = rw e refl

  same_row : (x y z : OrganizationInvitation) → RowOf x y → RowOf x z → y ≡ z
  unfolding RowOf
  same_row x y z (inl (hit, e)) (inl (_, f)) = e ∙ sym f
  same_row x y z (inl (hit, e)) (inr (miss, f)) = absurd (ground arith)
  same_row x y z (inr (miss, e)) (inl (hit, f)) = absurd (ground arith)
  same_row x y z (inr (miss, e)) (inr (_, f)) = e ∙ sym f

  pub closes-IsSound : IsSound table → IsSound after
  unfolding RowOf
  closes-IsSound sound = record {
    invitation_key = λ a b m n e.
        let (x, x_mem, how) = update_where-mem_inv test set table m in
        let (y, y_mem, how') = update_where-mem_inv test set table n in
        let same : x ≡ y =
          sound.invitation_key x y x_mem y_mem (sym (id_of x a how) ∙ e ∙ id_of y b how') in
        same_row y a b (subst (λ z. RowOf z a) same how) how';
    one_open = λ a b m n o p e f. sound.one_open a b (still_open a m o) (still_open b n p) o p e f;
    fine = IsFine-after sound.fine;
  }

-- A new open invitation, with a fresh id, to whom no open one goes.
pub new-IsSound :
    (table : List OrganizationInvitation) (i : OrganizationInvitation)
    → IsSound table
    → IsFine i
    → ((x : OrganizationInvitation) → Memᴰ x table → x.id ≢ i.id)
    → any (λ x. is_for i.org_id i.invited_user_id x && is_open x) table ≡ false
    → IsSound (i ∷ table)
new-IsSound table i sound f fresh alone = record {
  invitation_key = λ a b m n e. elim (cons-mem_inv m) [
    | inl p ↦ elim (cons-mem_inv n) [
      | inl q ↦ p ∙ sym q
      | inr y ↦ absurd (fresh b y (sym e ∙ ap (λ z. z.id) p))
    ]
    | inr x ↦ elim (cons-mem_inv n) [
      | inl q ↦ absurd (fresh a x (e ∙ ap (λ z. z.id) q))
      | inr y ↦ sound.invitation_key a b x y e
    ]
  ];
  one_open = λ a b m n o p e g. elim (cons-mem_inv m) [
    | inl r ↦ elim (cons-mem_inv n) [
      | inl q ↦ r ∙ sym q
      | inr y ↦
          absurd (
            alone_from b y p (sym e ∙ ap (λ z. z.org_id) r) (sym g ∙ ap (λ z. z.invited_user_id) r))
    ]
    | inr x ↦ elim (cons-mem_inv n) [
      | inl q ↦
          absurd (alone_from a x o (e ∙ ap (λ z. z.org_id) q) (g ∙ ap (λ z. z.invited_user_id) q))
      | inr y ↦ sound.one_open a b x y o p e g
    ]
  ];
  fine = λ x m. elim (cons-mem_inv m) [ inl e ↦ rw e f | inr n ↦ sound.fine x n ];
}
  where
    alone_from :
        (x : OrganizationInvitation)
        → Memᴰ x table
        → is_open x ≡ true
        → x.org_id ≡ i.org_id
        → x.invited_user_id ≡ i.invited_user_id
        → ⊥
    alone_from x m o e g =
        let none_such = any-mem_false _ table alone m in
        let here : is_for i.org_id i.invited_user_id x ≡ true =
          and_intro ((==_iff _ _).1 e) ((==_iff _ _).1 g) in
        ground arith
