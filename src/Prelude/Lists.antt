-- ===== src/Prelude/Lists.antt =====
-- Lists measured by native numbers, Boolean search, and predicates on lists.
use Prim.Native.Nat.{ℕ, zero, suc, ◌+◌, ◌-◌, ◌≤◌}
use native.Mathlib.Nat.{zero-add, add-zero, suc-add}
use Prim.Native.String.{String}
use mathlib.Core.Path.{◌≡◌, refl, sym, ap, ◌∙◌}
use mathlib.Core.Logic.{◌⊎◌, inl, inr}
use mathlib.Core.Bool.{Bool, true, false, not, ◌&&◌, ◌||◌}
use mathlib.Core.Option.{Option, none, some}
use mathlib.Core.List.{List, [], ◌∷◌, ◌++◌, map, Memᴰ}
use native.Mathlib.Omega.{arith}
use text.Mathlib.Text.{◌==◌ as str_eq}
use publaryn.Prelude.Tests.{◌==◌, ==_iff, if◌then◌else◌, Bool-cases}

module _ {ℓ} {A : Type ℓ} where
  abbrev pub length : List A → ℕ
  length [] = 0
  length (x ∷ xs) = suc (length xs)

  -- Rust's `iter().any(p)`.
  abbrev pub any : (A → Bool) → List A → Bool
  any p [] = false
  any p (x ∷ xs) = p x || any p xs

  -- Rust's `iter().find(p)`.
  abbrev pub find : (A → Bool) → List A → Option A
  find p [] = none
  find p (x ∷ xs) = if p x then some x else find p xs

  -- The rows that a test keeps.
  abbrev pub filter : (A → Bool) → List A → List A
  filter p [] = []
  filter p (x ∷ xs) = let rest = filter p xs in if p x then x ∷ rest else rest

  abbrev pub take : ℕ → List A → List A
  take zero xs = []
  take (suc n) [] = []
  take (suc n) (x ∷ xs) = x ∷ take n xs

  abbrev pub drop : ℕ → List A → List A
  drop zero xs = xs
  drop (suc n) [] = []
  drop (suc n) (x ∷ xs) = drop n xs

  -- How many rows a test keeps.
  abbrev pub count : (A → Bool) → List A → ℕ
  count p [] = 0
  count p (x ∷ xs) = let rest = count p xs in if p x then suc rest else rest

-- Rust's `slice.contains(&word)`.
abbrev pub contains : List String → String → Bool
contains [] w = false
contains (x ∷ xs) w = str_eq x w || contains xs w

module _ {ℓ κ} {A : Type ℓ} (P : A → Type κ) where
  abbrev pub All : List A → Type κ
  All [] = Unit
  All (x ∷ xs) = P x × All xs

  pub All-mem : (xs : List A) {x : A} → All xs → Memᴰ x xs → P x
  All-mem [] h m = elim m [ ]
  All-mem (y ∷ xs) (p, h) (Memᴰ.head e) = rw e p
  All-mem (y ∷ xs) (p, h) (Memᴰ.tail m) = All-mem xs h m

module _ {ℓ} {A : Type ℓ} where
  pub cons-mem_inv : {x y : A} {xs : List A} → Memᴰ y (x ∷ xs) → (y ≡ x) ⊎ Memᴰ y xs
  cons-mem_inv (Memᴰ.head e) = inl e
  cons-mem_inv (Memᴰ.tail m) = inr m

  pub filter-mem_inv :
      (p : A → Bool) (xs : List A) {x : A} → Memᴰ x (filter p xs) → Memᴰ x xs × (p x ≡ true)
  filter-mem_inv p [] m = elim m [ ]
  filter-mem_inv p (y ∷ xs) {x} m = elim (Bool-cases (p y)) [
    | inl hit ↦ elim (cons-mem_inv (rw hit at m)) [
      | inl e ↦ (Memᴰ.head e, rw e hit)
      | inr n ↦ let (o, q) = filter-mem_inv p xs n in (Memᴰ.tail o, q)
    ]
    | inr miss ↦ let (o, q) = filter-mem_inv p xs (rw miss at m) in (Memᴰ.tail o, q)
  ]

  pub filter-mem :
      (p : A → Bool) (xs : List A) {x : A} → Memᴰ x xs → p x ≡ true → Memᴰ x (filter p xs)
  filter-mem p [] m h = elim m [ ]
  filter-mem p (y ∷ xs) {x} (Memᴰ.head e) h =
      let hit : p y ≡ true = rw (← e) h in rw hit (Memᴰ.head e)
  filter-mem p (y ∷ xs) {x} (Memᴰ.tail m) h = elim (Bool-cases (p y)) [
    | inl hit ↦ rw hit (Memᴰ.tail (filter-mem p xs m h))
    | inr miss ↦ rw miss (filter-mem p xs m h)
  ]

  pub take-mem_inv : (n : ℕ) (xs : List A) {x : A} → Memᴰ x (take n xs) → Memᴰ x xs
  take-mem_inv zero xs m = elim m [ ]
  take-mem_inv (suc n) [] m = elim m [ ]
  take-mem_inv (suc n) (y ∷ xs) (Memᴰ.head e) = Memᴰ.head e
  take-mem_inv (suc n) (y ∷ xs) (Memᴰ.tail m) = Memᴰ.tail (take-mem_inv n xs m)

  pub length-take : (n : ℕ) (xs : List A) → length (take n xs) ≤ n
  length-take zero xs = ground arith
  length-take (suc n) [] = ground arith
  length-take (suc n) (x ∷ xs) = ground (arith, length-take n xs)

  pub length-append : (xs ys : List A) → length (xs ++ ys) ≡ length xs + length ys
  length-append [] ys = omega arith
  length-append (x ∷ xs) ys = omega (arith, length-append xs ys)

  pub drop-append : (xs ys : List A) → drop (length xs) (xs ++ ys) ≡ ys
  drop-append [] ys = refl
  drop-append (x ∷ xs) ys = drop-append xs ys

  pub take-append : (xs ys : List A) → take (length xs) (xs ++ ys) ≡ xs
  take-append [] ys = refl
  take-append (x ∷ xs) ys = ap (◌∷◌ x) (take-append xs ys)

  pub append-take-drop : (n : ℕ) (xs : List A) → take n xs ++ drop n xs ≡ xs
  append-take-drop zero xs = refl
  append-take-drop (suc n) [] = refl
  append-take-drop (suc n) (x ∷ xs) = ap (◌∷◌ x) (append-take-drop n xs)

  pub length-take_of_le : (n : ℕ) (xs : List A) → n ≤ length xs → length (take n xs) ≡ n
  length-take_of_le zero xs h = refl
  length-take_of_le (suc n) [] h = ground arith
  length-take_of_le (suc n) (x ∷ xs) h = ap suc (length-take_of_le n xs (omega arith))

  pub length-drop : (n : ℕ) (xs : List A) → length (drop n xs) ≡ length xs - n
  length-drop zero xs = omega arith
  length-drop (suc n) [] = omega arith
  length-drop (suc n) (x ∷ xs) = omega (arith, length-drop n xs)

  pub drop-drop : (m n : ℕ) (xs : List A) → drop m (drop n xs) ≡ drop (n + m) xs
  drop-drop m zero xs = rw zero-add
  drop-drop zero (suc n) [] = rw add-zero
  drop-drop (suc m) (suc n) [] = rw suc-add
  drop-drop m (suc n) (x ∷ xs) = rw suc-add (drop-drop m n xs)

  pub find-mem :
      (p : A → Bool) (xs : List A) {x : A} → find p xs ≡ some x → Memᴰ x xs × (p x ≡ true)
  find-mem p [] h = ground arith
  find-mem p (y ∷ xs) {x = x} h = elim (Bool-cases (p y)) [
    | inl hit ↦ let same : y ≡ x = ground arith in (Memᴰ.head (rw same), rw same at hit)
    | inr miss ↦ let (m, q) = find-mem p xs {x = x} (rw miss at h) in (Memᴰ.tail m, q)
  ]

abbrev pub has : ℕ → List ℕ → Bool
has k [] = false
has k (j ∷ js) = j == k || has k js

-- No key occurs twice.
abbrev pub distinct : List ℕ → Bool
distinct [] = true
distinct (k ∷ ks) = not (has k ks) && distinct ks

module _ {ℓ} {A : Type ℓ} (key : A → ℕ) where
  pub has-map : (xs : List A) {a : A} → Memᴰ a xs → has (key a) (map key xs) ≡ true
  has-map [] m = elim m [ ]
  has-map (x ∷ xs) {a = a} (Memᴰ.head e) = ground (arith, ap key e, ==_iff (key x) (key a))
  has-map (x ∷ xs) {a = a} (Memᴰ.tail m) = ground (arith, has-map xs m)

  -- Rows with distinct keys are determined by their keys.
  pub unique_by :
      (xs : List A)
      → distinct (map key xs) ≡ true
      → (a b : A) → Memᴰ a xs
      → Memᴰ b xs
      → key a ≡ key b
      → a ≡ b
  unique_by [] h a b m n e = elim m [ ]
  unique_by (x ∷ xs) h a b (Memᴰ.head p) (Memᴰ.head q) e = p ∙ sym q
  unique_by (x ∷ xs) h a b (Memᴰ.head p) (Memᴰ.tail n) e =
      absurd (ground (arith, has-map xs n, ap key p))
  unique_by (x ∷ xs) h a b (Memᴰ.tail m) (Memᴰ.head q) e =
      absurd (ground (arith, has-map xs m, ap key q))
  unique_by (x ∷ xs) h a b (Memᴰ.tail m) (Memᴰ.tail n) e = unique_by xs (ground arith) a b m n e

  pub has-map_inv :
      (xs : List A) {k : ℕ} → has k (map key xs) ≡ true → (x : A) × Memᴰ x xs × (key x ≡ k)
  has-map_inv [] h = ground arith
  has-map_inv (x ∷ xs) {k} h = elim (Bool-cases (key x == k)) [
    | inl hit ↦ (x, Memᴰ.head refl, (==_iff _ _).0 hit)
    | inr miss ↦ let (y, m, e) = has-map_inv xs (ground arith) in (y, Memᴰ.tail m, e)
  ]

pub any-mem_false {ℓ} :
    {A : Type ℓ} (p : A → Bool) (xs : List A) {x : A} → any p xs ≡ false → Memᴰ x xs → p x ≡ false
any-mem_false p [] h m = elim m [ ]
any-mem_false p (y ∷ ys) h (Memᴰ.head e) = rw e (ground arith)
any-mem_false p (y ∷ ys) h (Memᴰ.tail m) = any-mem_false p ys (ground arith) m
