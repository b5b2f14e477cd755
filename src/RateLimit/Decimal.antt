-- ===== src/RateLimit/Decimal.antt =====
-- The decimal text of a number, as `format!` writes it in crates/api/src/rate_limit.rs.
use Prim.Native.String.{◌++◌ as str_append}
use native.Mathlib.Nat.{pow-suc}
use publaryn.Prelude.{
  ℕ, zero, suc, ◌+◌, ◌*◌, ◌/◌, ◌%◌, ◌^◌, ◌<◌, ◌≡◌, ◌∙◌, refl, arith, inl, inr, Bool-cases, String,
  List, [], ◌∷◌, ◌++◌, ltb, ◌==◌, if◌then◌else◌,
}

abbrev digit_text : ℕ → String
digit_text d =
    if d == 0
    then "0"
    else if d == 1
    then "1"
    else if d == 2
    then "2"
    else if d == 3
    then "3"
    else if d == 4
    then "4"
    else if d == 5
    then "5"
    else if d == 6
    then "6"
    else if d == 7
    then "7"
    else if d == 8
    then "8"
    else "9"

-- The decimal digits of a number, on fuel.
unfoldable pub digits : ℕ → ℕ → List ℕ
digits zero n = []
digits (suc fuel) n =
    let rest = digits fuel (n / 10) in if ltb n 10 then n ∷ [] else rest ++ (n % 10 ∷ [])

digits_text : List ℕ → String
digits_text [] = ""
digits_text (d ∷ ds) = str_append (digit_text d) (digits_text ds)

-- A timestamp has at most 19 digits (i64).
unfoldable pub to_string : ℕ → String
unfolding digits_text
to_string n = digits_text (digits 19 n)

-- The number that decimal digits stand for, after the number `before`.
abbrev pub value : ℕ → List ℕ → ℕ
value before [] = before
value before (d ∷ ds) = value (before * 10 + d) ds

value-append :
    (ds : List ℕ) (before d : ℕ) → value before (ds ++ (d ∷ [])) ≡ value before ds * 10 + d
value-append [] before d = refl
value-append (x ∷ ds) before d = value-append ds (before * 10 + x) d

-- The digits of a number that has as many of them as there is fuel, or fewer, are all there.
value-digits : (fuel n : ℕ) → n < 10 ^ fuel → value 0 (digits fuel n) ≡ n
unfolding digits
value-digits zero n small = omega (arith, small)
value-digits (suc fuel) n small = elim (Bool-cases (ltb n 10)) [
  | inl one ↦ rw one (omega arith)
  | inr more ↦
      let shorter : n / 10 < 10 ^ fuel = omega (arith, small, pow-suc 10 fuel) in
      let rest = value-digits fuel (n / 10) shorter in
      rw more (value-append (digits fuel (n / 10)) 0 (n % 10) ∙ omega (arith, rest))
]
