-- ===== src/Cargo/Publish/Accepted.antt =====
-- What `parse_cargo_publish` accepts, and that it never panics.
use publaryn.Prelude.{
  ℕ, zero, suc, ◌+◌, ◌^◌, ◌≤◌, ◌<◌, ◌≡◌, ◌≢◌, ◌↔◌, ◌⊎◌, inl, inr, refl, sym, ap, ◌∙◌, String, true,
  false, Option, none, some, List, [], ◌∷◌, map, length, take, drop, arith, ltb, ◌==◌, is_empty,
  Bool-cases, Option-cases, length-drop, length-take_of_le, append-take-drop,
}
use publaryn.Error.{Error, ok, err, validation}
use publaryn.Cargo.Publish.{
  CargoPublishMetadata, CargoPublishDep, CargoIndexDep, ParsedCargoPublish, index_dep, publish_of,
  parse_cargo_publish, max_json_size, max_crate_size, Run, decoded,
}
use publaryn.Cargo.Publish.Bytes.{to_le_bytes, first_u32, slice, AreBytes, first_u32_total}
use publaryn.Cargo.Publish.Frames.{frame, slice_lem, json_of, crate_of, body-frame, parse-frame}

drop-AreBytes : (n : ℕ) (xs : List ℕ) → AreBytes xs → AreBytes (drop n xs)
drop-AreBytes zero xs h = h
drop-AreBytes (suc n) [] h = h
drop-AreBytes (suc n) (x ∷ xs) (p, h) = drop-AreBytes n xs h

abbrev Refuses : {A : Type 0} → Run A → Type 0
Refuses run = (e : Error) × (run ≡ some (err e))

-- The entry of a dependency: its fields under the names of the index, and the explicit name, if
-- any, as the package.
abbrev pub entry_of : CargoPublishDep → CargoIndexDep
entry_of dep = record {
  name = dep.name;
  req = dep.version_req;
  features = dep.features;
  optional = dep.optional;
  default_features = dep.default_features;
  target = dep.target;
  kind = dep.kind;
  registry = dep.registry;
  package_name = dep.explicit_name_in_toml;
}

index_dep_lem : (dep : CargoPublishDep) → index_dep dep ≡ entry_of dep
unfolding index_dep
index_dep_lem dep = elim (Option-cases dep.explicit_name_in_toml) [
  | inl same_name ↦ rw same_name refl
  | inr (alias, renamed) ↦ rw renamed refl
]

map-index_dep : (deps : List CargoPublishDep) → map index_dep deps ≡ map entry_of deps
map-index_dep [] = refl
map-index_dep (dep ∷ deps) = rw (index_dep_lem dep, map-index_dep deps) refl

-- A frame with a fitting metadata part and a fitting, not empty, crate.
abbrev pub IsFrame : List ℕ → List ℕ → List ℕ → Type 0
IsFrame body json_bytes crate_bytes =
    (rest : List ℕ) × (body ≡ frame json_bytes crate_bytes rest)
    × (length json_bytes ≤ max_json_size)
    × (0 < length crate_bytes)
    × (length crate_bytes ≤ max_crate_size)

module _ {Json : Type 0} (from_json : List ℕ → Option (CargoPublishMetadata Json))
    (sha256_hex : List ℕ → String) where
  abbrev parse : List ℕ → Run (ParsedCargoPublish Json)
  parse = parse_cargo_publish from_json sha256_hex

  abbrev Splits : List ℕ → Type 0
  Splits body =
      (json_bytes : List ℕ) × (crate_bytes : List ℕ) × IsFrame body json_bytes crate_bytes
      × (parse body ≡ publish_of from_json sha256_hex json_bytes crate_bytes)

  -- The record that the parser makes of the two parts.
  abbrev pub IsPublish : List ℕ → ParsedCargoPublish Json → Type 0
  IsPublish json_bytes p =
      (from_json json_bytes ≡ some p.metadata)
      × (is_empty p.metadata.name ≡ false)
      × (is_empty p.metadata.vers ≡ false)
      × (p.index_deps ≡ map entry_of p.metadata.deps)
      × (p.sha256 ≡ sha256_hex p.crate_bytes)

  publish_of-ok :
      (json_bytes : List ℕ) (p : ParsedCargoPublish Json)
      → IsPublish json_bytes p
      → publish_of from_json sha256_hex json_bytes p.crate_bytes ≡ some (ok p)
  unfolding publish_of decoded
  publish_of-ok json_bytes p (read, named, versioned, deps, digest) =
      let indexed = deps ∙ sym (map-index_dep p.metadata.deps) in ground arith

  publish_of-ok_inv :
      (json_bytes crate_bytes : List ℕ) (p : ParsedCargoPublish Json)
      → publish_of from_json sha256_hex json_bytes crate_bytes ≡ some (ok p)
      → (p.crate_bytes ≡ crate_bytes) × IsPublish json_bytes p
  unfolding publish_of decoded
  publish_of-ok_inv json_bytes crate_bytes p h =
      let same = map-index_dep p.metadata.deps in ground arith

  publish_of-ne-none :
      (json_bytes crate_bytes : List ℕ)
      → publish_of from_json sha256_hex json_bytes crate_bytes ≢ none
  unfolding publish_of decoded
  publish_of-ne-none json_bytes crate_bytes = ground arith

  accepted :
      (body : List ℕ) (n m : ℕ)
      → n ≤ max_json_size
      → take 4 body ≡ to_le_bytes n
      → take 4 (drop (4 + n) body) ≡ to_le_bytes m
      → 4 + n + 4 + m ≤ length body
      → 0 < m
      → m ≤ max_crate_size
      → Splits body
  accepted body n m small first second whole some_bytes fits =
      let (json_length, crate_length, same) = body-frame body n m first second whole in
      let rest = drop m (drop (4 + n + 4) body) in
      let a : length (json_of body n m) ≤ max_json_size = rw json_length small in
      let b : 0 < length (crate_of body n m) = rw crate_length some_bytes in
      let c : length (crate_of body n m) ≤ max_crate_size = rw crate_length fits in
      (
        json_of body n m,
        crate_of body n m,
        (rest, same, a, b, c),
        ap parse same
            ∙ parse-frame from_json sha256_hex (json_of body n m) (crate_of body n m) rest a b c,
      )

  -- The second half, where the first length and its part were read.
  crate-cases :
      (body : List ℕ) (n : ℕ)
      → AreBytes body
      → first_u32 body ≡ some n
      → take 4 body ≡ to_le_bytes n
      → n ≤ max_json_size
      → 4 + n + 4 ≤ length body
      → Splits body ⊎ Refuses (parse body)
  unfolding parse_cargo_publish
  crate-cases body n bytes json_len first small enough =
      let (m, crate_len, m_lt, second) =
        first_u32_total (drop (4 + n) body) (omega (arith, length-drop (4 + n) body))
          (drop-AreBytes (4 + n) body bytes) in
      let test1 : ltb (length body) 4 ≡ false = ground arith in
      let test2 : ltb max_json_size n ≡ false = ground arith in
      let test3 : ltb (4 + n) (2 ^ 64) ≡ true = ground arith in
      let test4 : ltb (length body) (4 + n + 4) ≡ false = ground arith in
      let json_part : slice 4 (4 + n) body ≡ some (json_of body n m) =
        slice_lem 4 (4 + n) body (json_of body n m) (drop n (drop 4 body))
          (sym (append-take-drop n (drop 4 body)))
          (omega (arith, length-take_of_le n (drop 4 body), length-drop 4 body)) (omega arith) in
      let test6 : ltb (4 + n + 4 + m) (2 ^ 64) ≡ true = ground arith in
      elim (Bool-cases (ltb max_crate_size m)) [
        | inl large ↦ inr (
          validation ".crate file too large",
          rw (test1, json_len, test2, test3, test4, json_part, crate_len, large) refl,
        )
        | inr fits ↦ elim (Bool-cases (ltb (length body) (4 + n + 4 + m))) [
          | inl short ↦ inr (
            validation "Publish payload truncated: .crate data shorter than declared",
            rw (test1, json_len, test2, test3, test4, json_part, crate_len, fits, test6, short)
                refl,
          )
          | inr whole ↦ elim (Bool-cases (m == 0)) [
            | inl nothing ↦ inr (
              validation ".crate file must not be empty",
              rw
                  (
                    test1, json_len, test2, test3, test4, json_part, crate_len, fits, test6, whole,
                    nothing,
                  )
                  refl,
            )
            | inr some_bytes ↦
                inl (
                  accepted body n m small first second (ground arith) (ground arith) (ground arith))
          ]
        ]
      ]

  cases : (body : List ℕ) → AreBytes body → Splits body ⊎ Refuses (parse body)
  unfolding parse_cargo_publish
  cases body bytes = elim (Bool-cases (ltb (length body) 4)) [
    | inl short ↦
        inr (validation "Publish payload too short: missing JSON length prefix", rw short refl)
    | inr long ↦
        let (n, json_len, n_lt, first) = first_u32_total body (ground arith) bytes in
        let test3 : ltb (4 + n) (2 ^ 64) ≡ true = ground arith in
        elim (Bool-cases (ltb max_json_size n)) [
          | inl large ↦ inr (validation "JSON metadata too large", rw (long, json_len, large) refl)
          | inr small ↦ elim (Bool-cases (ltb (length body) (4 + n + 4))) [
            | inl short ↦ inr (
              validation "Publish payload truncated: missing crate data length prefix",
              rw (long, json_len, small, test3, short) refl,
            )
            | inr enough ↦ crate-cases body n bytes json_len first (ground arith) (ground arith)
          ]
        ]
  ]

  -- A body of bytes is accepted exactly when it holds the length and the bytes of a metadata part
  -- of at most 1 MiB and then those of a crate of 1 byte to 512 MiB, whatever follows, and the
  -- metadata part is JSON with a name and a version; the reply is that metadata, the bytes of the
  -- crate and their digest, and for each dependency an entry with its name, requirement, features,
  -- flags, target, kind and registry, and with its explicit name, if any, as the package.
  pub parse_cargo_publish_iff :
      (body : List ℕ) (p : ParsedCargoPublish Json)
      → AreBytes body
      → (parse_cargo_publish from_json sha256_hex body ≡ some (ok p))
        ↔ ((json_bytes : List ℕ) × IsFrame body json_bytes p.crate_bytes × IsPublish json_bytes p)
  parse_cargo_publish_iff body p bytes = (
    λ h. elim (cases body bytes) [
      | inl (json_bytes, crate_bytes, framed, answer) ↦
          let (same, about) = publish_of-ok_inv json_bytes crate_bytes p (sym answer ∙ h) in
          (json_bytes, rw same framed, about)
      | inr (e, refused) ↦ ground arith
    ],
    λ (json_bytes, (rest, same, small, some_bytes, fits), about).
        ap parse same
        ∙ parse-frame from_json sha256_hex json_bytes p.crate_bytes rest small some_bytes fits
        ∙ publish_of-ok json_bytes p about,
  )

  -- On a body of bytes the parser never panics: every index and slice it takes is in range.
  pub parse_cargo_publish-ne-none :
      (body : List ℕ) → AreBytes body → parse_cargo_publish from_json sha256_hex body ≢ none
  parse_cargo_publish-ne-none body bytes h = elim (cases body bytes) [
    | inl (json_bytes, crate_bytes, framed, answer) ↦
        publish_of-ne-none json_bytes crate_bytes (sym answer ∙ h)
    | inr (e, refused) ↦ ground arith
  ]
