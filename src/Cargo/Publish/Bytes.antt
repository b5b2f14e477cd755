-- ===== src/Cargo/Publish/Bytes.antt =====
-- Little-endian 32-bit numbers and slices of a list of bytes.
use publaryn.Prelude.{
  ℕ, ◌+◌, ◌*◌, ◌-◌, ◌/◌, ◌%◌, ◌≤◌, ◌<◌, ◌≡◌, refl, ap, Option, none, some, List, [], ◌∷◌, ◌++◌,
  length, take, drop, leb, ◌&&◌, if◌then◌else◌, arith, All,
}

-- `u32::from_le_bytes`.
unfoldable pub from_le_bytes : ℕ → ℕ → ℕ → ℕ → ℕ
from_le_bytes a b c d = a + 256 * b + 65536 * c + 16777216 * d

-- `u32::to_le_bytes`.
unfoldable pub to_le_bytes : ℕ → List ℕ
to_le_bytes n = (n % 256) ∷ (n / 256 % 256) ∷ (n / 65536 % 256) ∷ (n / 16777216 % 256) ∷ []

-- The number in the first four bytes; `none` where there are not as many.
unfoldable pub first_u32 : List ℕ → Option ℕ
unfolding from_le_bytes
first_u32 (a ∷ b ∷ c ∷ d ∷ rest) = some (from_le_bytes a b c d)
first_u32 _ = none

-- `&body[start..end]`, which panics unless `start <= end <= body.len()`.
unfoldable pub slice : ℕ → ℕ → List ℕ → Option (List ℕ)
slice start end body =
    if leb start end && leb end (length body)
    then some (take (end - start) (drop start body))
    else none

abbrev pub AreBytes : List ℕ → Type 0
AreBytes = All (λ b. b < 256)

pub first_u32-to_le_bytes :
    (n : ℕ) (rest : List ℕ) → n < 4294967296 → first_u32 (to_le_bytes n ++ rest) ≡ some n
unfolding first_u32 to_le_bytes
first_u32-to_le_bytes n rest h = ap some (omega arith)

-- Four bytes or more hold a number, and start with its encoding.
pub first_u32_total :
    (body : List ℕ)
    → 4 ≤ length body
    → AreBytes body
    → (n : ℕ) × (first_u32 body ≡ some n) × (n < 4294967296) × (take 4 body ≡ to_le_bytes n)
unfolding first_u32 from_le_bytes to_le_bytes
first_u32_total (a ∷ b ∷ c ∷ d ∷ rest) h (p, (q, (r, (s, all)))) =
    (from_le_bytes a b c d, refl, omega arith, ground arith)
first_u32_total [] h bytes = absurd (omega arith)
first_u32_total (a ∷ []) h bytes = absurd (omega arith)
first_u32_total (a ∷ b ∷ []) h bytes = absurd (omega arith)
first_u32_total (a ∷ b ∷ c ∷ []) h bytes = absurd (omega arith)
