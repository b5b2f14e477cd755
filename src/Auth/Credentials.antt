-- ===== src/Auth/Credentials.antt =====
-- The third-party functions behind crates/auth: jsonwebtoken, uuid, argon2, totp-rs and sha2.
use publaryn.Prelude.{ℕ, ◌/◌, ◌≡◌, String, Bool, Option, some, List}
use publaryn.Db.{Uuid, Time}

-- `TokenClaims` of crates/auth/src/token.rs; times in seconds.
pub record TokenClaims : Type 0 where
  pub sub : String
  pub exp : ℕ
  pub iat : ℕ
  pub iss : String
  pub jti : String
  pub scopes : List String

-- `timestamp()` of a time in microseconds.
abbrev pub timestamp : Time → ℕ
timestamp now = now / 1000000

pub record Credentials : Type 0 where
  -- HS256 with a secret: `decode` checks the signature, the issuer and the expiry at a time in
  -- seconds.
  pub encode : String → TokenClaims → String
  pub decode : String → String → ℕ → String → Option TokenClaims
  -- A UUID as text, and back.
  pub show_uuid : Uuid → String
  pub parse_uuid : String → Option Uuid
  pub parse_uuid-show_uuid : (id : Uuid) → parse_uuid (show_uuid id) ≡ some id
  -- Argon2: `none` is a hash that cannot be read.
  pub verify_argon2 : String → String → Option Bool
  -- Base32, the secrets that `TOTP::new` takes, and `TOTP::check` at a time in seconds.
  pub base32_encode : List ℕ → String
  pub base32_decode : String → Option (List ℕ)
  pub totp_accepts : List ℕ → Bool
  pub totp_check : List ℕ → String → ℕ → Bool
  pub totp_url : String → String → List ℕ → String
  -- SHA-256 in hexadecimal, and the lower case of Unicode.
  pub sha256_hex : String → String
  pub to_lowercase : String → String
