-- ===== src/Error.antt =====
-- crates/core/src/error.rs and crates/api/src/error.rs: the error type, its HTTP status, and the
-- `?` operator. `Database` has no constructor here: the tables of Db never fail.
use native.Mathlib.Omega.{arith}
use publaryn.Prelude.{
  ℕ, String, ◌≡◌, refl, ap, true, false, Bool, Option, none, some, if◌then◌else◌,
}

pub data Error : Type 0 where
  not_found : String → Error
  already_exists : String → Error
  unauthorized : String → Error
  forbidden : String → Error
  validation : String → Error
  conflict : String → Error
  policy_violation : String → Error
  internal : String → Error

-- The status of `IntoResponse for ApiError`.
pub status_code : Error → ℕ
status_code (not_found _) = 404
status_code (already_exists _) = 409
status_code (unauthorized _) = 401
status_code (forbidden _) = 403
status_code (validation _) = 422
status_code (conflict _) = 409
status_code (policy_violation _) = 422
status_code (internal _) = 500

pub data Result (Value : Type 0) : Type 0 where
  err : (failure : Error) → Result Value
  ok : (value : Value) → Result Value

-- `if !test { return Err(e); }`
abbrev pub ensure : Bool → Error → Result (Unit {0})
ensure test e = if test then ok tt else err e

-- The `?` operator, with and without a value to go on with.
module _ {B : Type 0} where
  infixl 5 ◌>>=◌ ◌>>◌
  abbrev pub ◌>>=◌ : {A : Type 0} → Result A → (A → Result B) → Result B
  err failure >>= rest = err failure
  ok value >>= rest = rest value

  abbrev pub ◌>>◌ : Result (Unit {0}) → Result B → Result B
  err failure >> rest = err failure
  ok done >> rest = rest

-- `option.ok_or_else(|| e)?`
abbrev pub ok_or : {A : Type 0} → Option A → Error → Result A
ok_or none e = err e
ok_or (some a) e = ok a

-- A run that succeeds passed through a success of its first part.
pub >>=-ok_inv :
    {A B : Type 0} (first : Result A) (rest : A → Result B) {result : B}
    → (first >>= rest) ≡ ok result
    → (value : A) × (first ≡ ok value) × (rest value ≡ ok result)
>>=-ok_inv (err failure) rest h = cc
>>=-ok_inv (ok value) rest h = (value, refl, h)

pub >>-ok_inv :
    {B : Type 0} (first : Result (Unit {0})) (rest : Result B) {result : B}
    → (first >> rest) ≡ ok result
    → (first ≡ ok tt) × (rest ≡ ok result)
>>-ok_inv (err failure) rest h = cc
>>-ok_inv (ok done) rest h = (refl, h)

-- Two successes are equal only with equal values.
pub ok_injective : {A : Type 0} {a b : A} → ok a ≡ ok b → a ≡ b
ok_injective h = ground arith

-- The state that a reply carries.
pub reply-ok_inv :
    {A S : Type 0} {x y : A} {s t : S} → ◌≡◌ {A = Result (A × S)} (ok (x, s)) (ok (y, t)) → s ≡ t
reply-ok_inv h = ap (λ p. p.1) (ok_injective h)

pub ensure-ok_inv : (test : Bool) (e : Error) → ensure test e ≡ ok tt → test ≡ true
ensure-ok_inv true e h = refl
ensure-ok_inv false e h = absurd (ground arith)

pub ok_or-ok_inv : {A : Type 0} (o : Option A) (e : Error) {a : A} → ok_or o e ≡ ok a → o ≡ some a
ok_or-ok_inv none e h = ground arith
ok_or-ok_inv (some b) e h = ground arith
