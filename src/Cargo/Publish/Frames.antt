-- ===== src/Cargo/Publish/Frames.antt =====
-- The layout that `parse_cargo_publish` accepts.
use publaryn.Prelude.{
  ℕ, ◌+◌, ◌-◌, ◌^◌, ◌≤◌, ◌<◌, ◌≡◌, refl, sym, ap, ◌∙◌, String, true, false, Option, some, List,
  ◌++◌, length, take, drop, arith, leb, ltb, ◌==◌, length-append, take-append, drop-append,
  drop-drop, append-take-drop, length-take_of_le, length-drop,
}
use publaryn.Cargo.Publish.{
  CargoPublishMetadata, publish_of, parse_cargo_publish, max_json_size, max_crate_size,
}
use publaryn.Cargo.Publish.Bytes.{to_le_bytes, first_u32, slice, first_u32-to_le_bytes}

-- A length and its part, twice, and whatever follows.
unfoldable pub frame : List ℕ → List ℕ → List ℕ → List ℕ
frame json_bytes crate_bytes rest =
    to_le_bytes (length json_bytes)
    ++ (json_bytes ++ (to_le_bytes (length crate_bytes) ++ (crate_bytes ++ rest)))

pub slice_lem :
    (start end : ℕ) (body part rest : List ℕ)
    → drop start body ≡ part ++ rest
    → start + length part ≡ end
    → end ≤ length body
    → slice start end body ≡ some part
unfolding slice
slice_lem start end body part rest here size inside =
    let low : leb start end ≡ true = ground arith in
    let high : leb end (length body) ≡ true = ground arith in
    let width : end - start ≡ length part = omega arith in
    rw (low, high, width, here) (ap some (take-append part rest))

drop-to_le_bytes : (n : ℕ) (rest : List ℕ) → drop 4 (to_le_bytes n ++ rest) ≡ rest
unfolding to_le_bytes
drop-to_le_bytes n rest = refl

length-to_le_bytes : (n : ℕ) → length (to_le_bytes n) ≡ 4
unfolding to_le_bytes
length-to_le_bytes n = omega arith

module _ (json_bytes crate_bytes rest : List ℕ) where
  abbrev tail : List ℕ
  tail = to_le_bytes (length crate_bytes) ++ (crate_bytes ++ rest)

  abbrev body : List ℕ
  body = frame json_bytes crate_bytes rest

  length-frame : length body ≡ 4 + length json_bytes + 4 + length crate_bytes + length rest
  unfolding frame
  length-frame = omega (
    arith,
    length-append (to_le_bytes (length json_bytes)) (json_bytes ++ tail),
    length-append json_bytes tail,
    length-append (to_le_bytes (length crate_bytes)) (crate_bytes ++ rest),
    length-append crate_bytes rest,
    length-to_le_bytes (length json_bytes),
    length-to_le_bytes (length crate_bytes),
  )

  first_u32-frame : length json_bytes < 4294967296 → first_u32 body ≡ some (length json_bytes)
  unfolding frame
  first_u32-frame h = first_u32-to_le_bytes (length json_bytes) (json_bytes ++ tail) h

  drop-frame_json : drop 4 body ≡ json_bytes ++ tail
  unfolding frame
  drop-frame_json = drop-to_le_bytes (length json_bytes) (json_bytes ++ tail)

  drop-frame_tail : drop (4 + length json_bytes) body ≡ tail
  drop-frame_tail =
      sym (drop-drop (length json_bytes) 4 body)
      ∙ ap (drop (length json_bytes)) drop-frame_json
      ∙ drop-append json_bytes tail

  drop-frame_crate : drop (4 + length json_bytes + 4) body ≡ crate_bytes ++ rest
  drop-frame_crate =
      sym (drop-drop 4 (4 + length json_bytes) body)
      ∙ ap (drop 4) drop-frame_tail
      ∙ drop-to_le_bytes (length crate_bytes) (crate_bytes ++ rest)

module _ (body : List ℕ) (n m : ℕ) where
  abbrev pub json_of : List ℕ
  json_of = take n (drop 4 body)

  abbrev pub crate_of : List ℕ
  crate_of = take m (drop (4 + n + 4) body)

  -- A body that holds two lengths and their parts is a frame.
  pub body-frame :
      take 4 body ≡ to_le_bytes n
      → take 4 (drop (4 + n) body) ≡ to_le_bytes m
      → 4 + n + 4 + m ≤ length body
      → (length json_of ≡ n)
        × (length crate_of ≡ m)
        × (body ≡ frame json_of crate_of (drop m (drop (4 + n + 4) body)))
  unfolding frame
  body-frame first second inside =
      let json_length : length json_of ≡ n =
        length-take_of_le n (drop 4 body) (omega (arith, length-drop 4 body)) in
      let crate_length : length crate_of ≡ m =
        length-take_of_le m (drop (4 + n + 4) body) (omega (arith, length-drop (4 + n + 4) body)) in
      let crate_rest = append-take-drop m (drop (4 + n + 4) body) in
      let second_rest : to_le_bytes m ++ drop (4 + n + 4) body ≡ drop (4 + n) body =
        ap (λ x. x ++ drop (4 + n + 4) body) (sym second)
        ∙ ap (λ x. take 4 (drop (4 + n) body) ++ x) (sym (drop-drop 4 (4 + n) body))
        ∙ append-take-drop 4 (drop (4 + n) body) in
      let json_rest : json_of ++ drop (4 + n) body ≡ drop 4 body =
        ap (λ x. json_of ++ x) (sym (drop-drop n 4 body)) ∙ append-take-drop n (drop 4 body) in
      let first_rest : to_le_bytes n ++ drop 4 body ≡ body =
        ap (λ x. x ++ drop 4 body) (sym first) ∙ append-take-drop 4 body in
      (
        json_length,
        crate_length,
        sym (rw (json_length, crate_length, crate_rest, second_rest, json_rest) first_rest),
      )

module _ {Json : Type 0} (from_json : List ℕ → Option (CargoPublishMetadata Json))
    (sha256_hex : List ℕ → String) where
  -- On a frame of fitting sizes the parser hands over the two parts.
  pub parse-frame :
      (json_bytes crate_bytes rest : List ℕ)
      → length json_bytes ≤ max_json_size
      → 0 < length crate_bytes
      → length crate_bytes ≤ max_crate_size
      → parse_cargo_publish from_json sha256_hex (frame json_bytes crate_bytes rest)
        ≡ publish_of from_json sha256_hex json_bytes crate_bytes
  unfolding parse_cargo_publish
  parse-frame json_bytes crate_bytes rest small some_bytes fits =
      let b = frame json_bytes crate_bytes rest in
      let size = length-frame json_bytes crate_bytes rest in
      let n = length json_bytes in
      let m = length crate_bytes in
      let test1 : ltb (length b) 4 ≡ false = ground arith in
      let json_len : first_u32 b ≡ some n =
        first_u32-frame json_bytes crate_bytes rest (omega arith) in
      let test2 : ltb max_json_size n ≡ false = ground arith in
      let test3 : ltb (4 + n) (2 ^ 64) ≡ true = ground arith in
      let test4 : ltb (length b) (4 + n + 4) ≡ false = ground arith in
      let json_part : slice 4 (4 + n) b ≡ some json_bytes =
        slice_lem 4 (4 + n) b json_bytes (tail json_bytes crate_bytes rest)
          (drop-frame_json json_bytes crate_bytes rest) refl (omega arith) in
      let crate_len : first_u32 (drop (4 + n) b) ≡ some m =
        rw (drop-frame_tail json_bytes crate_bytes rest)
          (first_u32-to_le_bytes m (crate_bytes ++ rest) (omega arith)) in
      let test5 : ltb max_crate_size m ≡ false = ground arith in
      let test6 : ltb (4 + n + 4 + m) (2 ^ 64) ≡ true = ground arith in
      let test7 : ltb (length b) (4 + n + 4 + m) ≡ false = ground arith in
      let test8 : (m == 0) ≡ false = ground arith in
      let crate_part : slice (4 + n + 4) (4 + n + 4 + m) b ≡ some crate_bytes =
        slice_lem (4 + n + 4) (4 + n + 4 + m) b crate_bytes rest
          (drop-frame_crate json_bytes crate_bytes rest) refl (omega arith) in
      rw
        (
          test1, json_len, test2, test3, test4, json_part, crate_len, test5, test6, test7, test8,
          crate_part,
        )
        refl
