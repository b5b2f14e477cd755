-- ===== src/Query.antt =====
-- The SQL that the program sends, as list comprehensions over the tables: a generator for each
-- table of FROM and JOIN, a Boolean line for each condition of ON and WHERE.
pub mod Update
pub mod Unique
use mathlib.Core.List.Memᴰ
use publaryn.Prelude.{
  ◌≡◌, refl, Bool, true, false, Option, none, some, List, [], ◌∷◌, ◌++◌, Memᴰ, inl, inr, arith,
  if◌then◌else◌,
}

infixl 5 ◌>>=◌ ◌>>◌
unfoldable pub ◌>>=◌ : {A B : Type 0} → List A → (A → List B) → List B
[] >>= f = []
(x ∷ xs) >>= f = f x ++ (xs >>= f)

abbrev pub ◌>>◌ : {B : Type 0} → Bool → List B → List B
b >> rows = if b then rows else []

abbrev pub row : {A : Type 0} → A → List A
row a = a ∷ []

-- `fetch_optional`, and LIMIT 1.
abbrev pub fetch_optional : {A : Type 0} → List A → Option A
fetch_optional [] = none
fetch_optional (x ∷ xs) = some x

-- SELECT EXISTS (...).
abbrev pub exists : {A : Type 0} → List A → Bool
exists [] = false
exists (x ∷ xs) = true

module _ {A B : Type 0} where
  pub bind-mem_inv :
      (xs : List A) (f : A → List B) {y : B}
      → Memᴰ y (xs >>= f)
      → (x : A) × Memᴰ x xs × Memᴰ y (f x)
  unfolding ◌>>=◌
  bind-mem_inv [] f m = elim m [ ]
  bind-mem_inv (x ∷ xs) f m = elim (Memᴰ.append_cases (f x) m) [
    | inl here ↦ (x, Memᴰ.head refl, here)
    | inr there ↦ let (z, mz, my) = bind-mem_inv xs f there in (z, Memᴰ.tail mz, my)
  ]

  pub bind-mem :
      (xs : List A) (f : A → List B) {x : A} {y : B} → Memᴰ x xs → Memᴰ y (f x) → Memᴰ y (xs >>= f)
  unfolding ◌>>=◌
  bind-mem [] f m my = elim m [ ]
  bind-mem (x ∷ xs) f {y = y} (Memᴰ.head e) my = Memᴰ.append_left (xs >>= f) (rw (← e) my)
  bind-mem (x ∷ xs) f (Memᴰ.tail m) my = Memᴰ.append_right (f x) (bind-mem xs f m my)

module _ {A : Type 0} where
  pub only-mem_inv :
      (b : Bool) (rows : List A) {y : A} → Memᴰ y (b >> rows) → (b ≡ true) × Memᴰ y rows
  only-mem_inv true rows m = (refl, m)
  only-mem_inv false rows m = elim m [ ]

  pub only-mem : (b : Bool) (rows : List A) {y : A} → b ≡ true → Memᴰ y rows → Memᴰ y (b >> rows)
  only-mem b rows h m = rw h m

  pub fetch-mem : (rows : List A) {y : A} → fetch_optional rows ≡ some y → Memᴰ y rows
  fetch-mem [] h = ground arith
  fetch-mem (x ∷ rows) {y} h = let e : y ≡ x = ground arith in Memᴰ.head e

  pub fetch-none : (rows : List A) {y : A} → fetch_optional rows ≡ none → ¬ Memᴰ y rows
  fetch-none [] h m = elim m [ ]
  fetch-none (x ∷ rows) h m = ground arith

  pub fetch_of_mem :
      (rows : List A) {y : A} → Memᴰ y rows → (z : A) × (fetch_optional rows ≡ some z)
  fetch_of_mem [] m = elim m [ ]
  fetch_of_mem (x ∷ rows) m = (x, refl)

  pub exists-mem : (rows : List A) → exists rows ≡ true → (y : A) × Memᴰ y rows
  exists-mem [] h = ground arith
  exists-mem (x ∷ rows) h = (x, Memᴰ.head refl)

  pub exists_of_mem : (rows : List A) {y : A} → Memᴰ y rows → exists rows ≡ true
  exists_of_mem [] m = elim m [ ]
  exists_of_mem (x ∷ rows) m = refl
