-- ===== src/Query/Update.antt =====
-- UPDATE, RETURNING and DELETE on a table, and what becomes of its rows.
use publaryn.Prelude.{
  ◌≡◌, refl, ◌∙◌, Bool, true, false, List, [], ◌∷◌, Memᴰ, ◌⊎◌, inl, inr, Bool-cases, cons-mem_inv,
  if◌then◌else◌,
}

module _ {A : Type 0} where
  -- UPDATE ... SET ... WHERE test.
  unfoldable pub update_where : (A → Bool) → (A → A) → List A → List A
  update_where test set [] = []
  update_where test set (x ∷ xs) = (if test x then set x else x) ∷ update_where test set xs

  -- The rows that an UPDATE ... RETURNING gives back.
  unfoldable pub returning : (A → Bool) → (A → A) → List A → List A
  returning test set [] = []
  returning test set (x ∷ xs) =
      let rest = returning test set xs in if test x then set x ∷ rest else rest

  -- DELETE ... WHERE test.
  unfoldable pub delete_where : (A → Bool) → List A → List A
  delete_where test [] = []
  delete_where test (x ∷ xs) = let rest = delete_where test xs in if test x then rest else x ∷ rest

  -- A row after an UPDATE is an old row that the test leaves, or an old one set anew.
  pub update_where-mem_inv :
      (test : A → Bool) (set : A → A) (xs : List A) {y : A}
      → Memᴰ y (update_where test set xs)
      → (x : A) × Memᴰ x xs × (((test x ≡ true) × (y ≡ set x)) ⊎ ((test x ≡ false) × (y ≡ x)))
  unfolding update_where
  update_where-mem_inv test set [] m = elim m [ ]
  update_where-mem_inv test set (x ∷ xs) (Memᴰ.head e) = elim (Bool-cases (test x)) [
    | inl hit ↦ (x, Memᴰ.head refl, inl (hit, e ∙ rw hit))
    | inr miss ↦ (x, Memᴰ.head refl, inr (miss, e ∙ rw miss))
  ]
  update_where-mem_inv test set (x ∷ xs) (Memᴰ.tail m) =
      let (z, z_mem, how) = update_where-mem_inv test set xs m in (z, Memᴰ.tail z_mem, how)

  -- Every old row has a row in its place.
  pub update_where-mem :
      (test : A → Bool) (set : A → A) (xs : List A) {x : A}
      → Memᴰ x xs
      → Memᴰ (if test x then set x else x) (update_where test set xs)
  unfolding update_where
  update_where-mem test set [] m = elim m [ ]
  update_where-mem test set (x ∷ xs) (Memᴰ.head e) = Memᴰ.head (rw e)
  update_where-mem test set (x ∷ xs) (Memᴰ.tail m) = Memᴰ.tail (update_where-mem test set xs m)

  pub returning-mem_inv :
      (test : A → Bool) (set : A → A) (xs : List A) {y : A}
      → Memᴰ y (returning test set xs)
      → (x : A) × Memᴰ x xs × (test x ≡ true) × (y ≡ set x)
  unfolding returning
  returning-mem_inv test set [] m = elim m [ ]
  returning-mem_inv test set (x ∷ xs) {y} m = elim (Bool-cases (test x)) [
    | inl hit ↦ elim (cons-mem_inv (rw hit at m)) [
      | inl e ↦ (x, Memᴰ.head refl, hit, e)
      | inr n ↦
          let (z, z_mem, met, e) = returning-mem_inv test set xs n in (z, Memᴰ.tail z_mem, met, e)
    ]
    | inr miss ↦
        let (z, z_mem, met, e) = returning-mem_inv test set xs (rw miss at m) in
        (z, Memᴰ.tail z_mem, met, e)
  ]

  -- The rows that RETURNING gives are rows of the table after the UPDATE.
  pub returning-mem :
      (test : A → Bool) (set : A → A) (xs : List A) {y : A}
      → Memᴰ y (returning test set xs)
      → Memᴰ y (update_where test set xs)
  returning-mem test set xs m =
      let (x, x_mem, hit, e) = returning-mem_inv test set xs m in
      let n = update_where-mem test set xs x_mem in rw e (rw hit at n)

  pub delete_where-mem_inv :
      (test : A → Bool) (xs : List A) {y : A}
      → Memᴰ y (delete_where test xs)
      → Memᴰ y xs × (test y ≡ false)
  unfolding delete_where
  delete_where-mem_inv test [] m = elim m [ ]
  delete_where-mem_inv test (x ∷ xs) {y} m = elim (Bool-cases (test x)) [
    | inl hit ↦ let (n, kept) = delete_where-mem_inv test xs (rw hit at m) in (Memᴰ.tail n, kept)
    | inr miss ↦ elim (cons-mem_inv (rw miss at m)) [
      | inl e ↦ (Memᴰ.head e, rw e miss)
      | inr n ↦ let (o, kept) = delete_where-mem_inv test xs n in (Memᴰ.tail o, kept)
    ]
  ]

  pub delete_where-mem :
      (test : A → Bool) (xs : List A) {x : A}
      → Memᴰ x xs
      → test x ≡ false
      → Memᴰ x (delete_where test xs)
  unfolding delete_where
  delete_where-mem test [] m h = elim m [ ]
  delete_where-mem test (y ∷ xs) {x} (Memᴰ.head e) h =
      let kept : test y ≡ false = rw (← e) h in rw kept (Memᴰ.head e)
  delete_where-mem test (y ∷ xs) {x} (Memᴰ.tail m) h = elim (Bool-cases (test y)) [
    | inl hit ↦ rw hit (delete_where-mem test xs m h)
    | inr miss ↦ rw miss (Memᴰ.tail (delete_where-mem test xs m h))
  ]

  -- The row that an UPDATE meets stands in the table as the update sets it; one that it passes by
  -- stands there as it was.
  pub updated-mem :
      (test : A → Bool) (set : A → A) (xs : List A) {x : A}
      → Memᴰ x xs
      → test x ≡ true
      → Memᴰ (set x) (update_where test set xs)
  updated-mem test set xs m hit = let stands = update_where-mem test set xs m in rw hit at stands

  pub passed-mem :
      (test : A → Bool) (set : A → A) (xs : List A) {x : A}
      → Memᴰ x xs
      → test x ≡ false
      → Memᴰ x (update_where test set xs)
  passed-mem test set xs m miss = let stands = update_where-mem test set xs m in rw miss at stands
