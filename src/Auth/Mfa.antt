-- ===== src/Auth/Mfa.antt =====
-- crates/auth/src/mfa.rs. Random values are arguments: the bytes of the secret, and for the
-- index of a recovery code its two segments.
use Prim.Native.Char.{code}
use Prim.Native.String.{◌++◌ as str_append}
use text.Mathlib.Text.{◌==◌ as str_eq}
use publaryn.Prelude.{
  ℕ, zero, suc, String, Bool, Option, none, some, List, [], ◌∷◌, map, ◌==◌, if◌then◌else◌,
}
use publaryn.Error.{Result, ok, ◌>>=◌, ◌>>◌, ensure, ok_or, internal}
use publaryn.Auth.Credentials.{Credentials}

pub record TotpSetup : Type 0 where
  pub secret_base32 : String
  pub provisioning_uri : String
  pub recovery_codes : List String
  pub recovery_code_hashes : List String

-- `code.replace('-', "")`.
unfoldable pub remove_hyphens : String → String
remove_hyphens String.[] = ""
remove_hyphens (String.◌∷◌ c s) =
    let rest = remove_hyphens s in if code c == b'-' then rest else String.◌∷◌ c rest

-- `hashes.iter().position(|h| h == candidate)`.
abbrev pub next_index : Option ℕ → Option ℕ
next_index none = none
next_index (some i) = some (suc i)

unfoldable pub position : String → List String → Option ℕ
position candidate [] = none
position candidate (h ∷ hs) =
    let later = next_index (position candidate hs) in if str_eq h candidate then some 0 else later

-- RECOVERY_CODE_COUNT.
abbrev pub recovery_code_count : ℕ
recovery_code_count = 8

-- `format!("{seg1}-{seg2}")`.
abbrev pub joined : String × String → String
joined (seg1, seg2) = str_append seg1 (str_append "-" seg2)

-- The loop of `generate_recovery_codes`: `remaining` codes, from the index `i` on.
unfoldable pub draw_codes : (ℕ → String × String) → ℕ → ℕ → List String
draw_codes segments i zero = []
draw_codes segments i (suc remaining) = joined (segments i) ∷ draw_codes segments (suc i) remaining

module _ (third_party : Credentials) where
  unfoldable pub hash_recovery_code : String → String
  hash_recovery_code recovery_code =
      third_party.sha256_hex (third_party.to_lowercase (remove_hyphens recovery_code))

  unfoldable pub verify_recovery_code : String → List String → Option ℕ
  verify_recovery_code recovery_code hashes = position (hash_recovery_code recovery_code) hashes

  unfoldable pub generate_recovery_codes : (ℕ → String × String) → List String × List String
  unfolding draw_codes
  generate_recovery_codes segments =
      let codes = draw_codes segments 0 recovery_code_count in (codes, map hash_recovery_code codes)

  unfoldable pub setup_totp : List ℕ → (ℕ → String × String) → String → String → Result TotpSetup
  setup_totp secret_bytes segments account_name issuer = do
    ensure (third_party.totp_accepts secret_bytes) (internal "Failed to create TOTP instance")
    let (recovery_codes, recovery_code_hashes) = generate_recovery_codes segments
    ok (record {
      secret_base32 = third_party.base32_encode secret_bytes;
      provisioning_uri = third_party.totp_url account_name issuer secret_bytes;
      recovery_codes = recovery_codes;
      recovery_code_hashes = recovery_code_hashes;
    })

  -- At the time `now`, in seconds.
  unfoldable pub verify_totp : String → String → ℕ → Result Bool
  verify_totp secret_base32 totp_code now = do
    secret_bytes ←
        ok_or (third_party.base32_decode secret_base32) (internal "Failed to decode TOTP secret")
    ensure (third_party.totp_accepts secret_bytes) (internal "Failed to create TOTP instance")
    ok (third_party.totp_check secret_bytes totp_code now)
