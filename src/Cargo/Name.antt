-- ===== src/Cargo/Name.antt =====
-- crates/adapters/cargo-registry/src/name.rs. A name is the list of its bytes: the checks of the
-- source refuse every character that is not ASCII, whose bytes are all 128 or more.

pub mod Normal
pub mod Index
mod Tests
use publaryn.Prelude.{
  ℕ, String, Bool, true, false, not, ◌&&◌, ◌||◌, Option, none, some, List, [], ◌∷◌, ◌++◌, ◌-◌, map,
  any, length, take, drop, leb, ltb, ◌==◌, if◌then◌else◌, codes, same_text, is_upper, is_lower,
  is_digit, to_ascii_lower,
}
use publaryn.Error.{Result, ok, err, ◌>>=◌, ◌>>◌, ensure, validation}

abbrev pub reserved : List String
reserved =
    "con" ∷ "prn" ∷ "aux" ∷ "nul" ∷ "com1" ∷ "com2" ∷ "com3" ∷ "com4" ∷ "com5" ∷ "com6" ∷ "com7"
    ∷ "com8" ∷ "com9" ∷ "lpt1" ∷ "lpt2" ∷ "lpt3" ∷ "lpt4" ∷ "lpt5" ∷ "lpt6" ∷ "lpt7" ∷ "lpt8"
    ∷ "lpt9" ∷ []

abbrev pub is_ascii_alphabetic : ℕ → Bool
is_ascii_alphabetic c = is_lower c || is_upper c

abbrev pub starts_alphabetic : List ℕ → Bool
starts_alphabetic [] = false
starts_alphabetic (c ∷ cs) = is_ascii_alphabetic c

-- The characters of the `matches!`.
abbrev pub is_name_char : ℕ → Bool
is_name_char c = is_lower c || is_upper c || is_digit c || (c == b'-') || (c == b'_')

abbrev pub to_ascii_lowercase : List ℕ → List ℕ
to_ascii_lowercase = map to_ascii_lower

-- The rest of the characters, after the first.
abbrev pub rest_of : List ℕ → List ℕ
rest_of [] = []
rest_of (c ∷ cs) = cs

abbrev pub is_reserved : List ℕ → Bool
is_reserved lower = any (λ word. same_text lower (codes word)) reserved

unfoldable pub validate_crate_name : List ℕ → Result (Unit {0})
validate_crate_name name = do
  ensure (not (length name == 0)) (validation "Crate name must not be empty")
  ensure (not (ltb 64 (length name))) (validation "Crate name exceeds maximum length")
  ensure (starts_alphabetic name) (validation "Crate name must start with an ASCII letter")
  ensure (not (any (λ c. not (is_name_char c)) (rest_of name)))
      (validation "Crate name contains invalid character")
  ensure (not (is_reserved (to_ascii_lowercase name))) (validation "Crate name is a reserved name")

abbrev pub hyphen_to_underscore : ℕ → ℕ
hyphen_to_underscore c = if c == b'-' then b'_' else c

unfoldable pub normalize_crate_name : List ℕ → List ℕ
normalize_crate_name name = map hyphen_to_underscore (to_ascii_lowercase name)

-- `&s[start..end]` on text panics inside a character: a byte from 128 to 191 goes on with one.
abbrev pub is_char_boundary : List ℕ → Bool
is_char_boundary [] = true
is_char_boundary (b ∷ bs) = not (leb 128 b && ltb b 192)

unfoldable pub text_slice : ℕ → ℕ → List ℕ → Option (List ℕ)
text_slice start end s =
    if leb end (length s) && is_char_boundary (drop start s) && is_char_boundary (drop end s)
    then some (take (end - start) (drop start s))
    else none

abbrev pub slash : List ℕ → List ℕ → List ℕ
slash a b = a ++ (b'/' ∷ b)

three : List ℕ → Option (List ℕ) → Option (List ℕ)
three lower none = none
three lower (some first) = some (slash (b'3' ∷ []) (slash first lower))

long : List ℕ → Option (List ℕ) → Option (List ℕ) → Option (List ℕ)
long lower none cd = none
long lower (some ab) none = none
long lower (some ab) (some cd) = some (slash ab (slash cd lower))

-- `none` is a panic.
unfoldable pub index_path : List ℕ → Option (List ℕ)
unfolding three long
index_path name =
    let lower = to_ascii_lowercase name in
    let n = length lower in
    if n == 0
    then some []
    else if n == 1
    then some (slash (b'1' ∷ []) lower)
    else if n == 2
    then some (slash (b'2' ∷ []) lower)
    else if n == 3
    then three lower (text_slice 0 1 lower)
    else long lower (text_slice 0 2 lower) (text_slice 2 4 lower)

-- `version.split_once('+').map_or(version, |(base, _)| base)`.
unfoldable pub strip_build_metadata : List ℕ → List ℕ
strip_build_metadata [] = []
strip_build_metadata (c ∷ cs) =
    let rest = strip_build_metadata cs in if c == b'+' then [] else c ∷ rest
