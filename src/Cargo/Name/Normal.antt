-- ===== src/Cargo/Name/Normal.antt =====
-- Crate names and their normal form.
use publaryn.Prelude.{
  ℕ, suc, ◌≡◌, refl, ap, String, true, false, not, List, [], ◌∷◌, any, length, has, ltb, ◌==◌,
  codes, same_text, to_ascii_lower, arith, not-true_inv,
}
use publaryn.Error.{ok, ensure, >>-ok_inv, ensure-ok_inv}
use publaryn.Cargo.Name.{
  reserved, is_reserved, starts_alphabetic, is_name_char, to_ascii_lowercase, rest_of,
  validate_crate_name, hyphen_to_underscore, normalize_crate_name,
}

-- What the checks of a name have found.
pub record IsValid (name : List ℕ) : Type 0 where
  pub some_bytes : (length name == 0) ≡ false
  pub short : ltb 64 (length name) ≡ false
  pub first : starts_alphabetic name ≡ true
  pub others : any (λ c. not (is_name_char c)) (rest_of name) ≡ false
  pub free : is_reserved (to_ascii_lowercase name) ≡ false

pub validate-IsValid : (name : List ℕ) → validate_crate_name name ≡ ok tt → IsValid name
unfolding validate_crate_name
validate-IsValid name h =
    let (a, h1) = >>-ok_inv (ensure (not (length name == 0)) _) _ h in
    let (b, h2) = >>-ok_inv (ensure (not (ltb 64 (length name))) _) _ h1 in
    let (c, h3) = >>-ok_inv (ensure (starts_alphabetic name) _) _ h2 in
    let (d, e) = >>-ok_inv (ensure (not (any (λ c. not (is_name_char c)) (rest_of name))) _) _ h3 in
    record {
      some_bytes = not-true_inv _ (ensure-ok_inv _ _ a);
      short = not-true_inv _ (ensure-ok_inv _ _ b);
      first = ensure-ok_inv _ _ c;
      others = not-true_inv _ (ensure-ok_inv _ _ d);
      free = not-true_inv _ (ensure-ok_inv _ _ e);
    }

IsValid-validate : (name : List ℕ) → IsValid name → validate_crate_name name ≡ ok tt
unfolding validate_crate_name
IsValid-validate name v = rw (v.some_bytes, v.short, v.first, v.others, v.free) refl

abbrev normal_char : ℕ → ℕ
normal_char c = hyphen_to_underscore (to_ascii_lower c)

normal_char_idempotent : (c : ℕ) → normal_char (normal_char c) ≡ normal_char c
normal_char_idempotent c = ground arith

normal_char_kept :
    (c : ℕ) → not (is_name_char c) ≡ false → not (is_name_char (normal_char c)) ≡ false
normal_char_kept c h = ground arith

normalize_idempotent :
    (name : List ℕ) → normalize_crate_name (normalize_crate_name name) ≡ normalize_crate_name name
unfolding normalize_crate_name
normalize_idempotent [] = refl
normalize_idempotent (c ∷ cs) = λ i. normal_char_idempotent c i ∷ normalize_idempotent cs i

length-normalize : (name : List ℕ) → length (normalize_crate_name name) ≡ length name
unfolding normalize_crate_name
length-normalize [] = refl
length-normalize (c ∷ cs) = ap suc (length-normalize cs)

others-normalize :
    (cs : List ℕ)
    → any (λ c. not (is_name_char c)) cs ≡ false
    → any (λ c. not (is_name_char c)) (normalize_crate_name cs) ≡ false
unfolding normalize_crate_name
others-normalize [] h = refl
others-normalize (c ∷ cs) h = ground (arith, normal_char_kept c, others-normalize cs)

first-normalize :
    (name : List ℕ)
    → starts_alphabetic name ≡ true
    → starts_alphabetic (normalize_crate_name name) ≡ true
unfolding normalize_crate_name
first-normalize [] h = h
first-normalize (c ∷ cs) h = ground arith

-- A word without an underscore that is the lower case of a normal form is that of the name.
same_text-normalize :
    (name word : List ℕ)
    → has b'_' word ≡ false
    → same_text (to_ascii_lowercase (normalize_crate_name name)) word ≡ true
    → same_text (to_ascii_lowercase name) word ≡ true
unfolding normalize_crate_name
same_text-normalize [] [] free h = refl
same_text-normalize [] (k ∷ ks) free h = h
same_text-normalize (c ∷ cs) [] free h = h
same_text-normalize (c ∷ cs) (k ∷ ks) free h = ground (arith, same_text-normalize cs ks)

reserved-normalize :
    (name : List ℕ) (words : List String)
    → any (λ word. has b'_' (codes word)) words ≡ false
    → any (λ word. same_text (to_ascii_lowercase name) (codes word)) words ≡ false
    → any (λ word. same_text (to_ascii_lowercase (normalize_crate_name name)) (codes word)) words
      ≡ false
reserved-normalize name [] free h = refl
reserved-normalize name (word ∷ words) free h =
    ground (arith, same_text-normalize name (codes word), reserved-normalize name words)

reserved_free : any (λ word. has b'_' (codes word)) reserved ≡ false
reserved_free = refl

others_of_rest :
    (name : List ℕ) → rest_of (normalize_crate_name name) ≡ normalize_crate_name (rest_of name)
unfolding normalize_crate_name
others_of_rest [] = refl
others_of_rest (c ∷ cs) = refl

-- The normal form of a valid crate name is valid too, also in that it is no reserved name, and is
-- its own normal form.
pub normalize_crate_name_valid :
    (name : List ℕ)
    → validate_crate_name name ≡ ok tt
    → (validate_crate_name (normalize_crate_name name) ≡ ok tt)
      × (normalize_crate_name (normalize_crate_name name) ≡ normalize_crate_name name)
normalize_crate_name_valid name h =
    let v = validate-IsValid name h in
    let size = length-normalize name in
    (
      IsValid-validate (normalize_crate_name name) (record {
        some_bytes = rw size v.some_bytes;
        short = rw size v.short;
        first = first-normalize name v.first;
        others = rw (others_of_rest name) (others-normalize (rest_of name) v.others);
        free = reserved-normalize name reserved reserved_free v.free;
      }),
      normalize_idempotent name,
    )
