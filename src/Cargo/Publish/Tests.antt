-- ===== src/Cargo/Publish/Tests.antt =====
-- The body of a publish request with two bytes of metadata and one byte of crate.
use publaryn.Prelude.{ℕ, String, ◌≡◌, ◌≢◌, ◌↔◌, refl, Option, none, some, List, [], ◌∷◌, arith}
use publaryn.Error.{ok, err, validation}
use publaryn.Cargo.Publish.{
  CargoPublishMetadata, ParsedCargoPublish, parse_cargo_publish, publish_of,
}
use publaryn.Cargo.Publish.Bytes.{first_u32, slice, AreBytes}
use publaryn.Cargo.Publish.Accepted.{
  IsFrame, IsPublish, parse_cargo_publish_iff, parse_cargo_publish-ne-none,
}

abbrev serde : CargoPublishMetadata ℕ
serde = record {
  name = "serde";
  vers = "1.0.0";
  deps = [];
  features = [];
  authors = [];
  description = none;
  documentation = none;
  homepage = none;
  readme = none;
  readme_file = none;
  keywords = [];
  categories = [];
  license = none;
  license_file = none;
  repository = none;
  badges = [];
  links = none;
  rust_version = none;
}

abbrev read_json : List ℕ → Option (CargoPublishMetadata ℕ)
read_json _ = some serde

abbrev digest : List ℕ → String
digest _ = "d1"

abbrev sent : List ℕ
sent = 2 ∷ 0 ∷ 0 ∷ 0 ∷ 123 ∷ 125 ∷ 1 ∷ 0 ∷ 0 ∷ 0 ∷ 7 ∷ 99 ∷ []

abbrev received : ParsedCargoPublish ℕ
received = record { metadata = serde; index_deps = []; crate_bytes = 7 ∷ []; sha256 = "d1" }

sent_bytes : AreBytes sent
sent_bytes = omega arith

-- The byte after the crate is ignored.
accepts_sent : parse_cargo_publish read_json digest sent ≡ some (ok received)
unfolding parse_cargo_publish first_u32 slice publish_of
accepts_sent = refl

refuses_empty_crate :
    parse_cargo_publish read_json digest (0 ∷ 0 ∷ 0 ∷ 0 ∷ 0 ∷ 0 ∷ 0 ∷ 0 ∷ [])
    ≡ some (err (validation ".crate file must not be empty"))
unfolding parse_cargo_publish first_u32 slice publish_of
refuses_empty_crate = refl

parse_cargo_publish_iff_example :
    (parse_cargo_publish read_json digest sent ≡ some (ok received)) ↔ (
      (json_bytes : List ℕ) × IsFrame sent json_bytes (7 ∷ [])
      × IsPublish read_json digest json_bytes received)
parse_cargo_publish_iff_example = parse_cargo_publish_iff read_json digest sent received sent_bytes

parse_cargo_publish-ne-none_example : parse_cargo_publish read_json digest sent ≢ none
parse_cargo_publish-ne-none_example = parse_cargo_publish-ne-none read_json digest sent sent_bytes
