-- ===== src/Cargo/Name/Index.antt =====
-- The paths of crates in the sparse index.
use publaryn.Prelude.{
  ℕ, ◌≡◌, ◌≢◌, ◌↔◌, refl, sym, ap, ◌∙◌, Bool, true, false, not, ◌&&◌, Option, none, some, List, [],
  ◌∷◌, any, length, leb, ltb, ◌==◌, to_ascii_lower, arith, some_injective,
}
use publaryn.Error.{ok}
use publaryn.Cargo.Name.{
  is_name_char, to_ascii_lowercase, validate_crate_name, is_char_boundary, text_slice, index_path,
}
use publaryn.Cargo.Name.Normal.{IsValid, validate-IsValid}

-- A byte of ASCII.
abbrev all_ascii : List ℕ → Bool
all_ascii [] = true
all_ascii (b ∷ bs) = ltb b 128 && all_ascii bs

name_char_ascii : (c : ℕ) → not (is_name_char c) ≡ false → ltb (to_ascii_lower c) 128 ≡ true
name_char_ascii c h = ground arith

others_ascii :
    (cs : List ℕ)
    → any (λ c. not (is_name_char c)) cs ≡ false
    → all_ascii (to_ascii_lowercase cs) ≡ true
others_ascii [] h = refl
others_ascii (c ∷ cs) h = ground (arith, name_char_ascii c, others_ascii cs)

IsValid-ascii : (name : List ℕ) → IsValid name → all_ascii (to_ascii_lowercase name) ≡ true
IsValid-ascii [] v = refl
IsValid-ascii (c ∷ cs) v =
    let first = v.first in
    let low : ltb (to_ascii_lower c) 128 ≡ true = ground arith in
    let others = others_ascii cs v.others in ground arith

-- The directories for a name, by its length.
abbrev path_of : List ℕ → List ℕ
path_of [] = []
path_of (a ∷ []) = b'1' ∷ b'/' ∷ a ∷ []
path_of (a ∷ b ∷ []) = b'2' ∷ b'/' ∷ a ∷ b ∷ []
path_of (a ∷ b ∷ c ∷ []) = b'3' ∷ b'/' ∷ a ∷ b'/' ∷ a ∷ b ∷ c ∷ []
path_of (a ∷ b ∷ c ∷ d ∷ rest) = a ∷ b ∷ b'/' ∷ c ∷ d ∷ b'/' ∷ a ∷ b ∷ c ∷ d ∷ rest

index_path_of : List ℕ → Option (List ℕ)
index_path_of lower = some (path_of lower)

path_of_injective : (s t : List ℕ) → path_of s ≡ path_of t → s ≡ t
path_of_injective s t h = ground arith

ascii_boundaries :
    (a b c d : ℕ) (rest : List ℕ)
    → all_ascii (a ∷ b ∷ c ∷ d ∷ rest) ≡ true
    → (is_char_boundary (a ∷ b ∷ c ∷ d ∷ rest) ≡ true)
      × (is_char_boundary (b ∷ c ∷ d ∷ rest) ≡ true)
      × (is_char_boundary (c ∷ d ∷ rest) ≡ true)
      × (is_char_boundary rest ≡ true)
ascii_boundaries a b c d [] h = ground arith
ascii_boundaries a b c d (e ∷ rest) h = ground arith

ascii-index_path :
    (name : List ℕ)
    → all_ascii (to_ascii_lowercase name) ≡ true
    → index_path name ≡ some (path_of (to_ascii_lowercase name))
unfolding index_path text_slice
ascii-index_path [] h = refl
ascii-index_path (a ∷ []) h = refl
ascii-index_path (a ∷ b ∷ []) h = refl
ascii-index_path (a ∷ b ∷ c ∷ []) h = ground arith
ascii-index_path (a ∷ b ∷ c ∷ d ∷ rest) h =
    let n = length (to_ascii_lowercase (a ∷ b ∷ c ∷ d ∷ rest)) in
    let not0 : (n == 0) ≡ false = ground arith in
    let not1 : (n == 1) ≡ false = ground arith in
    let not2 : (n == 2) ≡ false = ground arith in
    let not3 : (n == 3) ≡ false = ground arith in
    let two : leb 2 n ≡ true = ground arith in
    let four : leb 4 n ≡ true = ground arith in
    let (first, second, third, later) =
      ascii_boundaries (to_ascii_lower a) (to_ascii_lower b) (to_ascii_lower c) (to_ascii_lower d)
        (to_ascii_lowercase rest) h in
    rw (not0, not1, not2, not3, two, four, first, third, later) refl

-- The index path of a valid crate name never slices inside a character, and two valid names share
-- a path exactly when they are equal up to the case of their letters.
pub index_path_iff :
    (a b : List ℕ)
    → validate_crate_name a ≡ ok tt
    → validate_crate_name b ≡ ok tt
    → (index_path a ≢ none)
      × ((index_path a ≡ index_path b) ↔ (to_ascii_lowercase a ≡ to_ascii_lowercase b))
index_path_iff a b valid_a valid_b =
    let path_a = ascii-index_path a (IsValid-ascii a (validate-IsValid a valid_a)) in
    let path_b = ascii-index_path b (IsValid-ascii b (validate-IsValid b valid_b)) in
    (
      λ panics. ground arith,
      (
        λ same. path_of_injective _ _ (some_injective (sym path_a ∙ same ∙ path_b)),
        λ same. path_a ∙ ap (λ s. some (path_of s)) same ∙ sym path_b,
      ),
    )
