-- ===== src/Query/Unique.antt =====
-- Keys of a table under INSERT, UPDATE and DELETE.
use publaryn.Prelude.{
  ◌≡◌, refl, sym, ap, ◌∙◌, Bool, List, ◌∷◌, Memᴰ, cons-mem_inv, inl, inr, if◌then◌else◌,
}
use publaryn.Query.Update.{update_where, update_where-mem_inv, delete_where, delete_where-mem_inv}

module _ {A : Type 0} (Same : A → A → Type 0) where
  -- Rows with the same key are one row.
  abbrev pub IsKey : List A → Type 0
  IsKey table = (a b : A) → Memᴰ a table → Memᴰ b table → Same a b → a ≡ b

  pub cons-IsKey :
      (table : List A) (new : A)
      → IsKey table
      → ((x : A) → Memᴰ x table → ¬ Same x new)
      → ((x : A) → Memᴰ x table → ¬ Same new x)
      → IsKey (new ∷ table)
  cons-IsKey table new key before after a b m n same = elim (cons-mem_inv m) [
    | inl p ↦ elim (cons-mem_inv n) [
      | inl q ↦ p ∙ sym q
      | inr y ↦ absurd (after b y (rw (← p) same))
    ]
    | inr x ↦ elim (cons-mem_inv n) [
      | inl q ↦ absurd (before a x (rw (← q) same))
      | inr y ↦ key a b x y same
    ]
  ]

  pub delete_where-IsKey :
      (table : List A) (test : A → Bool) → IsKey table → IsKey (delete_where test table)
  delete_where-IsKey table test key a b m n same =
      key a b (delete_where-mem_inv test table m).0 (delete_where-mem_inv test table n).0 same

  module _ (test : A → Bool) (set : A → A) where
    abbrev pub updated : A → A
    updated x = if test x then set x else x

    updated-mem_inv :
        (table : List A) {y : A}
        → Memᴰ y (update_where test set table)
        → (x : A) × Memᴰ x table × (y ≡ updated x)
    updated-mem_inv table m =
        let (x, x_mem, how) = update_where-mem_inv test set table m in
        elim how [
          | inl (hit, e) ↦ (x, x_mem, rw (hit, e) refl)
          | inr (miss, e) ↦ (x, x_mem, rw (miss, e) refl)
        ]

    -- An UPDATE that leaves the columns of a key keeps it.
    pub update_where-IsKey :
        (table : List A)
        → IsKey table
        → ((x y : A) → Same (updated x) (updated y) → Same x y)
        → IsKey (update_where test set table)
    update_where-IsKey table key keeps a b m n same =
        let (x, x_mem, e) = updated-mem_inv table m in
        let (y, y_mem, f) = updated-mem_inv table n in
        let from_same = keeps x y (rw (← e, ← f) same) in
        e ∙ ap updated (key x y x_mem y_mem from_same) ∙ sym f
