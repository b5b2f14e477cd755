-- ===== src/Cargo/Name/Tests.antt =====
-- Crate names, their normal forms and their index paths.
use publaryn.Prelude.{ℕ, ◌≡◌, ◌≢◌, ◌↔◌, refl, none, some, List, [], ◌∷◌, codes}
use publaryn.Error.{ok, err, validation}
use publaryn.Cargo.Name.{
  validate_crate_name, normalize_crate_name, index_path, text_slice, strip_build_metadata,
  to_ascii_lowercase,
}
use publaryn.Cargo.Name.Normal.{normalize_crate_name_valid}
use publaryn.Cargo.Name.Index.{index_path_iff}

abbrev my_crate : List ℕ
my_crate = codes "My-Crate"

my_crate_valid : validate_crate_name my_crate ≡ ok tt
unfolding validate_crate_name
my_crate_valid = refl

serde_valid : validate_crate_name (codes "SERDE") ≡ ok tt
unfolding validate_crate_name
serde_valid = refl

reserved_is_refused :
    validate_crate_name (codes "Com1") ≡ err (validation "Crate name is a reserved name")
unfolding validate_crate_name
reserved_is_refused = refl

normalize_crate_name_valid_example :
    (validate_crate_name (normalize_crate_name my_crate) ≡ ok tt)
    × (normalize_crate_name (normalize_crate_name my_crate) ≡ normalize_crate_name my_crate)
normalize_crate_name_valid_example = normalize_crate_name_valid my_crate my_crate_valid

index_path_iff_example :
    (index_path my_crate ≢ none)
    × ((index_path my_crate ≡ index_path (codes "SERDE"))
        ↔ (to_ascii_lowercase my_crate ≡ to_ascii_lowercase (codes "SERDE")))
index_path_iff_example = index_path_iff my_crate (codes "SERDE") my_crate_valid serde_valid

three_letters : index_path (codes "Abc") ≡ some (codes "3/a/abc")
unfolding index_path text_slice
three_letters = refl

-- Without the check of the name, a slice may fall inside a character: here after one byte of two.
splits_a_character : index_path (0xc3 ∷ 0xa9 ∷ b'1' ∷ []) ≡ none
unfolding index_path text_slice
splits_a_character = refl

build_metadata : strip_build_metadata (codes "1.0.0+build") ≡ codes "1.0.0"
unfolding strip_build_metadata
build_metadata = refl
