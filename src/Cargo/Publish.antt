-- ===== src/Cargo/Publish.antt =====
-- `parse_cargo_publish` of crates/adapters/cargo-registry/src/publish.rs: the body of a publish
-- request, a list of bytes.
mod Bytes
pub mod Frames
pub mod Accepted
mod Tests
use publaryn.Prelude.{
  ℕ, ◌+◌, ◌^◌, String, Bool, not, Option, none, some, List, [], ◌∷◌, map, length, take, drop, leb,
  ltb, is_empty, if◌then◌else◌, ◌==◌, Bool-cases,
}
use publaryn.Error.{Error, Result, ok, err, ensure, validation}
use Bytes.{first_u32, slice}

abbrev pub max_json_size : ℕ
max_json_size = 1048576

abbrev pub max_crate_size : ℕ
max_crate_size = 536870912

pub record CargoPublishDep : Type 0 where
  pub name : String
  pub version_req : String
  pub features : List String
  pub optional : Bool
  pub default_features : Bool
  pub target : Option String
  pub kind : String
  pub registry : Option String
  pub explicit_name_in_toml : Option String

pub record CargoIndexDep : Type 0 where
  pub name : String
  pub req : String
  pub features : List String
  pub optional : Bool
  pub default_features : Bool
  pub target : Option String
  pub kind : String
  pub registry : Option String
  pub package_name : Option String

-- The metadata that `cargo publish` sends. `Json` is the type of a JSON value, of serde_json.
pub record CargoPublishMetadata (Json : Type 0) : Type 0 where
  pub name : String
  pub vers : String
  pub deps : List CargoPublishDep
  pub features : List (String × Json)
  pub authors : List String
  pub description : Option String
  pub documentation : Option String
  pub homepage : Option String
  pub readme : Option String
  pub readme_file : Option String
  pub keywords : List String
  pub categories : List String
  pub license : Option String
  pub license_file : Option String
  pub repository : Option String
  pub badges : List (String × Json)
  pub links : Option String
  pub rust_version : Option String

pub record ParsedCargoPublish (Json : Type 0) : Type 0 where
  pub metadata : CargoPublishMetadata Json
  pub index_deps : List CargoIndexDep
  pub crate_bytes : List ℕ
  pub sha256 : String

-- `explicit_name_in_toml.map(|_| dep.name).unwrap_or_else(|| dep.name)`: the name on both branches.
index_name : Option String → String → String
index_name none name = name
index_name (some alias) name = name

unfoldable pub index_dep : CargoPublishDep → CargoIndexDep
unfolding index_name
index_dep dep = record {
  name = index_name dep.explicit_name_in_toml dep.name;
  req = dep.version_req;
  features = dep.features;
  optional = dep.optional;
  default_features = dep.default_features;
  target = dep.target;
  kind = dep.kind;
  registry = dep.registry;
  package_name = dep.explicit_name_in_toml;
}

-- A run of the parser: `none` is a panic, by an index or a slice out of range.
abbrev pub Run : Type 0 → Type 0
Run A = Option (Result A)

module _ {B : Type 0} where
  infixl 5 ◌>>=◌ ◌>>◌
  -- `?` on a result.
  abbrev pub ◌>>=◌ : {A : Type 0} → Result A → (A → Run B) → Run B
  err e >>= rest = some (err e)
  ok a >>= rest = rest a

  abbrev pub ◌>>◌ : Result (Unit {0}) → Run B → Run B
  err e >> rest = some (err e)
  ok done >> rest = rest

  -- What panics ends the run.
  abbrev pub unwrap : {A : Type 0} → Option A → (A → Run B) → Run B
  unwrap none rest = none
  unwrap (some a) rest = rest a

-- `usize::checked_add` with 64 bits, and the error of its `ok_or_else`.
abbrev checked_add : ℕ → ℕ → Error → Result ℕ
checked_add a b e = if ltb (a + b) (2 ^ 64) then ok (a + b) else err e

-- `from_json` is `serde_json::from_slice`, and `sha256_hex` the digest of sha2 in hexadecimal.
module _ {Json : Type 0} (from_json : List ℕ → Option (CargoPublishMetadata Json))
    (sha256_hex : List ℕ → String) where
  decoded : List ℕ → Result (CargoPublishMetadata Json)
  decoded json_bytes = elim (from_json json_bytes) [
    | none ↦ err (validation "Invalid publish metadata JSON")
    | some metadata ↦ ok metadata
  ]

  -- The end of the function, on the two slices.
  unfoldable pub publish_of : List ℕ → List ℕ → Run (ParsedCargoPublish Json)
  unfolding decoded
  publish_of json_bytes crate_bytes = do
    metadata ← decoded json_bytes
    ensure (not (is_empty metadata.name)) (validation "Crate name in metadata must not be empty")
    ensure (not (is_empty metadata.vers)) (validation "Version in metadata must not be empty")
    some (
        ok (record {
          metadata = metadata;
          index_deps = map index_dep metadata.deps;
          crate_bytes = crate_bytes;
          sha256 = sha256_hex crate_bytes;
        }))

  unfoldable pub parse_cargo_publish : List ℕ → Run (ParsedCargoPublish Json)
  parse_cargo_publish body = do
    ensure (not (ltb (length body) 4))
        (validation "Publish payload too short: missing JSON length prefix")
    unwrap (first_u32 body) λ json_len. do
      ensure (not (ltb max_json_size json_len)) (validation "JSON metadata too large")
      json_end ← checked_add 4 json_len (validation "JSON length overflow")
      ensure (not (ltb (length body) (json_end + 4)))
          (validation "Publish payload truncated: missing crate data length prefix")
      unwrap (slice 4 json_end body) λ json_bytes.
          unwrap (first_u32 (drop json_end body)) λ crate_len. do
            ensure (not (ltb max_crate_size crate_len)) (validation ".crate file too large")
            let crate_start = json_end + 4
            crate_end ← checked_add crate_start crate_len (validation "Crate length overflow")
            ensure (not (ltb (length body) crate_end))
                (validation "Publish payload truncated: .crate data shorter than declared")
            ensure (not (crate_len == 0)) (validation ".crate file must not be empty")
            unwrap (slice crate_start crate_end body)
                λ crate_bytes. publish_of json_bytes crate_bytes
