-- ===== src/Domain/Ecosystem.antt =====
-- `Ecosystem` of crates/core/src/domain/namespace.rs, `parse_ecosystem` of
-- crates/api/src/routes/mod.rs, and `normalize_package_name` of crates/core/src/domain/package.rs.
-- Rust's `str::to_lowercase` is the argument `to_lowercase`: it maps all of Unicode.
use text.Mathlib.Text.{◌==◌ as str_eq}
use Prim.Native.String.{String}
use Prim.Native.Char.{Char, code, char, IsScalar}
use Prim.Native.Nat.{compare, Ordering}
use publaryn.Prelude.{
  ◌≤◌, ◌<◌, ◌⊎◌, ◌↔◌, inl, inr, arith, ℕ, ◌+◌, ◌≡◌, refl, Bool, true, false, ◌||◌, if◌then◌else◌,
  ◌==◌, is_upper, ◌<◌, arith, Bool-cases, inl, inr,
}
use publaryn.Error.{Result, ok, err, validation}

pub data Ecosystem : Type 0 where
  npm bun pypi composer nuget rubygems maven oci cargo : Ecosystem

unfoldable pub as_str : Ecosystem → String
as_str npm = "npm"
as_str bun = "bun"
as_str pypi = "pypi"
as_str composer = "composer"
as_str nuget = "nuget"
as_str rubygems = "rubygems"
as_str maven = "maven"
as_str oci = "oci"
as_str cargo = "cargo"

-- Whether an ecosystem reuses another's wire protocol.
unfoldable pub protocol_family : Ecosystem → String
unfolding as_str
protocol_family bun = "npm"
protocol_family npm = "npm"
protocol_family pypi = "pypi"
protocol_family composer = "composer"
protocol_family nuget = "nuget"
protocol_family rubygems = "rubygems"
protocol_family maven = "maven"
protocol_family oci = "oci"
protocol_family cargo = "cargo"

of_word : String → Result Ecosystem
of_word w =
    if str_eq w "npm" || str_eq w "bun"
    then ok npm
    else if str_eq w "pypi"
    then ok pypi
    else if str_eq w "cargo"
    then ok cargo
    else if str_eq w "nuget"
    then ok nuget
    else if str_eq w "rubygems"
    then ok rubygems
    else if str_eq w "maven"
    then ok maven
    else if str_eq w "composer"
    then ok composer
    else if str_eq w "oci"
    then ok oci
    else err (validation "Unknown ecosystem")

pub below_surrogates-IsScalar : (n : ℕ) → n < 55296 → IsScalar n
below_surrogates-IsScalar n h =
    let small : compare n 55296 ≡ Ordering.lt = ground arith in rw small tt

pub upper-IsScalar : (n : ℕ) → is_upper n ≡ true → IsScalar (n + 32)
upper-IsScalar n h = below_surrogates-IsScalar (n + 32) (ground arith)

unfoldable pub lower_if : (c : Char) (upper : Bool) → is_upper (code c) ≡ upper → Char
lower_if c true h = char (code c + 32) (upper-IsScalar (code c) h)
lower_if c false h = c

-- `char::to_ascii_lowercase`.
unfoldable pub to_ascii_lowercase : Char → Char
unfolding lower_if
to_ascii_lowercase c = lower_if c (is_upper (code c)) refl

-- `str::replace('-', "_")`.
unfoldable pub hyphens_to_underscores : String → String
hyphens_to_underscores String.[] = ""
hyphens_to_underscores (String.◌∷◌ c s) =
    String.◌∷◌ (if code c == b'-' then "_" else c) (hyphens_to_underscores s)

abbrev pub is_separator : Char → Bool
is_separator c = code c == b'-' || code c == b'_' || code c == b'.'

-- The loop of `normalize_pypi_name`, from the state `previous_was_separator`.
unfoldable pub normalize_pypi : Bool → String → String
unfolding to_ascii_lowercase
normalize_pypi previous_was_separator String.[] = ""
normalize_pypi previous_was_separator (String.◌∷◌ c s) =
    let after_separator = normalize_pypi true s in
    let after_other = normalize_pypi false s in
    if is_separator c
    then if previous_was_separator then after_separator else String.◌∷◌ "-" after_separator
    else String.◌∷◌ (to_ascii_lowercase c) after_other

unfoldable pub normalize_pypi_name : String → String
unfolding normalize_pypi
normalize_pypi_name name = normalize_pypi false name

-- The names of PEP 503: `re.sub(r"[-_.]+", "-", name).lower()`.
abbrev pub Separates : Char → Type 0
Separates c = (code c ≡ b'-') ⊎ ((code c ≡ b'_') ⊎ (code c ≡ b'.'))

abbrev pub LowersTo : Char → Char → Type 0
LowersTo c d =
    ((65 ≤ code c) × (code c ≤ 90) × (code d ≡ code c + 32))
    ⊎ (((code c < 65) ⊎ (90 < code c)) × (d ≡ c))

abbrev pub StartsPlain : String → Type 0
StartsPlain String.[] = Unit {0}
StartsPlain (String.◌∷◌ c s) = ¬ (Separates c)

-- `IsRest s rest`: `rest` is `s` without its leading separators.
pub data IsRest : String → String → Type 0 where
  stops : (s : String) → StartsPlain s → IsRest s s
  skips : (c : Char) (s rest : String) → Separates c → IsRest s rest → IsRest (String.◌∷◌ c s) rest

-- Each longest run of separators gives one hyphen, and every other character its lower case.
pub data IsPep503 : String → String → Type 0 where
  ends : IsPep503 "" ""
  lowers :
      (c d : Char) (s t : String)
      → ¬ (Separates c)
      → LowersTo c d
      → IsPep503 s t
      → IsPep503 (String.◌∷◌ c s) (String.◌∷◌ d t)
  collapses :
      (c : Char) (s rest t : String)
      → Separates c
      → IsRest s rest
      → IsPep503 rest t
      → IsPep503 (String.◌∷◌ c s) (String.◌∷◌ "-" t)

is_separator_iff : (c : Char) → (is_separator c ≡ true) ↔ Separates c
is_separator_iff c = ground arith

lower_if-LowersTo :
    (c : Char) (upper : Bool) (h : is_upper (code c) ≡ upper) → LowersTo c (lower_if c upper h)
unfolding lower_if
lower_if-LowersTo c true h = inl (ground arith, ground arith, refl)
lower_if-LowersTo c false h = inr (ground arith, refl)

-- From either state of the loop: after a separator, the rest of the name is what is normalised.
normalize_pypi-IsPep503 :
    (s : String)
    → IsPep503 s (normalize_pypi false s)
      × ((rest : String) × IsRest s rest × IsPep503 rest (normalize_pypi true s))
unfolding normalize_pypi to_ascii_lowercase
normalize_pypi-IsPep503 String.[] = (IsPep503.ends, ("", IsRest.stops "" tt, IsPep503.ends))
normalize_pypi-IsPep503 (String.◌∷◌ c s) =
    let (whole, (rest, run, after)) = normalize_pypi-IsPep503 s in
    elim (Bool-cases (is_separator c)) [
      | inl separator ↦
          let separates = (is_separator_iff c).0 separator in
          rw separator (
            IsPep503.collapses c s rest (normalize_pypi true s) separates run after,
            (rest, IsRest.skips c s rest separates run, after),
          )
      | inr plain ↦
          let starts : ¬ (Separates c) =
            λ separates. let met = (is_separator_iff c).1 separates in absurd (ground arith) in
          let lowered =
            IsPep503.lowers c (lower_if c (is_upper (code c)) refl) s (normalize_pypi false s)
              starts (lower_if-LowersTo c _ refl) whole in
          rw plain (lowered, (String.◌∷◌ c s, IsRest.stops (String.◌∷◌ c s) starts, lowered))
    ]

-- `normalize_pypi_name` gives the name of PEP 503: in it each longest run of hyphens, underscores
-- and dots has become one hyphen, each ASCII capital its lower-case letter, and all else is kept.
pub normalize_pypi_name-IsPep503 : (name : String) → IsPep503 name (normalize_pypi_name name)
unfolding normalize_pypi_name
normalize_pypi_name-IsPep503 name = (normalize_pypi-IsPep503 name).0

module _ (to_lowercase : String → String) where
  unfoldable pub parse_ecosystem : String → Result Ecosystem
  unfolding of_word
  parse_ecosystem s = of_word (to_lowercase s)

  unfoldable pub normalize_package_name : String → Ecosystem → String
  normalize_package_name name npm = to_lowercase name
  normalize_package_name name bun = to_lowercase name
  normalize_package_name name pypi = normalize_pypi_name name
  normalize_package_name name cargo = hyphens_to_underscores (to_lowercase name)
  normalize_package_name name nuget = to_lowercase name
  normalize_package_name name rubygems = hyphens_to_underscores (to_lowercase name)
  normalize_package_name name composer = to_lowercase name
  normalize_package_name name maven = to_lowercase name
  normalize_package_name name oci = to_lowercase name
