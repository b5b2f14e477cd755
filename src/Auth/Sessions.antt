-- ===== src/Auth/Sessions.antt =====
-- `create_token` and `validate_token` of crates/auth/src/token.rs, and the handlers of
-- crates/api/src/routes/auth.rs. An audit entry or an update whose error the source ignores is
-- written, since a query does not fail here.
use text.Mathlib.Text.{◌==◌ as str_eq}
use publaryn.Prelude.{
  ℕ, zero, suc, ◌+◌, String, Bool, true, false, not, ◌||◌, Option, none, some, List, [], ◌∷◌,
  contains, ◌==◌, if◌then◌else◌,
}
use publaryn.Error.{Result, ok, err, ◌>>=◌, ◌>>◌, ensure, ok_or, internal, unauthorized, validation}
use publaryn.Query.{◌>>=◌ as from, ◌>>◌ as when, row, fetch_optional}
use publaryn.Query.Update.{update_where}
use publaryn.Db.{Db, Uuid, Time, User, AuditLog}
use publaryn.Auth.Identity.{AuthenticatedIdentity, audit_actor_token_id}
use publaryn.Auth.Scopes.{default_session_scopes}
use publaryn.Auth.Credentials.{Credentials, TokenClaims, timestamp}
use publaryn.Auth.Mfa.{TotpSetup, setup_totp, verify_totp, verify_recovery_code}

-- `config.auth`.
pub record AuthConfig : Type 0 where
  pub jwt_secret : String
  pub jwt_ttl_seconds : ℕ
  pub issuer : String

pub record LoginResponse : Type 0 where
  pub token : String
  pub expires_in : ℕ

pub data LoginResponseBody : Type 0 where
  session : LoginResponse → LoginResponseBody
  mfa_required : LoginResponse → LoginResponseBody

abbrev pub mfa_pending_ttl_seconds : ℕ
mfa_pending_ttl_seconds = 300

abbrev pub mfa_pending : String
mfa_pending = "mfa:pending"

-- `remaining.remove(idx)`.
unfoldable pub remove : ℕ → List String → List String
remove i [] = []
remove zero (h ∷ hs) = hs
remove (suc i) (h ∷ hs) = h ∷ remove i hs

abbrev pub is_user : Uuid → User → Bool
is_user id u = u.id == id

unfoldable pub users_by_id : Db → Uuid → List User
users_by_id db id = from db.users λ u. when (is_user id u) (row u)

-- WHERE username = $1 OR email = $1.
unfoldable pub users_by_name_or_email : Db → String → List User
users_by_name_or_email db name =
    from db.users λ u. when (str_eq u.username name || str_eq u.email name) (row u)

abbrev pub set_users : Uuid → (User → User) → Db → Db
set_users id set db = record db { users = update_where (is_user id) set db.users }

abbrev pub set_pending : String → List String → User → User
set_pending secret hashes u = record u {
  mfa_totp_pending_secret = some secret;
  mfa_recovery_code_hashes = hashes;
}

abbrev pub set_enabled : String → User → User
set_enabled secret u = record u {
  mfa_enabled = true;
  mfa_totp_secret = some secret;
  mfa_totp_pending_secret = none;
}

abbrev pub set_disabled : User → User
set_disabled u = record u {
  mfa_enabled = false;
  mfa_totp_secret = none;
  mfa_totp_pending_secret = none;
  mfa_recovery_code_hashes = [];
}

abbrev pub set_hashes : List String → User → User
set_hashes hashes u = record u { mfa_recovery_code_hashes = hashes }

unfoldable pub log_mfa : String → AuthenticatedIdentity → Db → Db
log_mfa action identity db =
    let entry : AuditLog = record {
      action = action;
      actor_user_id = identity.user_id;
      actor_token_id = audit_actor_token_id identity;
      target_user_id = some identity.user_id;
      target_org_id = none;
      target_package_id = none;
      target_release_id = none;
    } in
    record db { audit_logs = entry ∷ db.audit_logs }

module _ (third_party : Credentials) (config : AuthConfig) (now : Time) where
  abbrev pub claims_for : Uuid → Uuid → List String → ℕ → TokenClaims
  claims_for user_id token_id scopes ttl_seconds = record {
    sub = third_party.show_uuid user_id;
    exp = timestamp now + ttl_seconds;
    iat = timestamp now;
    iss = config.issuer;
    jti = third_party.show_uuid token_id;
    scopes = scopes;
  }

  unfoldable pub create_token : Uuid → Uuid → List String → ℕ → String
  create_token user_id token_id scopes ttl_seconds =
      third_party.encode config.jwt_secret (claims_for user_id token_id scopes ttl_seconds)

  unfoldable pub validate_token : String → Result TokenClaims
  validate_token token =
      ok_or (third_party.decode config.jwt_secret config.issuer (timestamp now) token)
        (unauthorized "Invalid token")

  unfoldable pub session_for : Uuid → Uuid → Bool → LoginResponse
  session_for user_id token_id is_admin = record {
    token = create_token user_id token_id (default_session_scopes is_admin) config.jwt_ttl_seconds;
    expires_in = config.jwt_ttl_seconds;
  }

  -- `verify_password` of crates/auth/src/password.rs.
  unfoldable pub verify_password : String → String → Result Bool
  verify_password password hash =
      ok_or (third_party.verify_argon2 password hash) (internal "Invalid password hash")

  -- `token_id` is the fresh `Uuid::new_v4()`.
  unfoldable pub login : Db → String → String → Uuid → Result LoginResponseBody
  login db username_or_email password token_id = do
    user ←
        ok_or (fetch_optional (users_by_name_or_email db username_or_email))
          (unauthorized "Invalid credentials")
    ensure user.is_active (unauthorized "Account is disabled")
    hash ← ok_or user.password_hash (unauthorized "Password login not available for this account")
    valid ← verify_password password hash
    ensure valid (unauthorized "Invalid credentials")
    ok (
        if user.mfa_enabled
        then mfa_required (record {
          token = create_token user.id token_id (mfa_pending ∷ []) mfa_pending_ttl_seconds;
          expires_in = mfa_pending_ttl_seconds;
        })
        else session (session_for user.id token_id user.is_admin))

  -- What the handlers that ask for a row by `fetch_one` do without one.
  unfoldable pub user_row : Db → Uuid → Result User
  user_row db id = ok_or (fetch_optional (users_by_id db id)) (internal "no rows returned")

  unfoldable pub mfa_setup :
      Db → AuthenticatedIdentity → List ℕ → (ℕ → String × String) → Result (TotpSetup × Db)
  mfa_setup db identity secret_bytes segments = do
    user ← user_row db identity.user_id
    ensure (not user.mfa_enabled) (validation "MFA is already enabled on this account")
    setup ← setup_totp third_party secret_bytes segments user.username "Publaryn"
    ok (
      setup,
      set_users identity.user_id (set_pending setup.secret_base32 setup.recovery_code_hashes) db,
    )

  unfoldable pub mfa_verify_setup : Db → AuthenticatedIdentity → String → Result (Bool × Db)
  mfa_verify_setup db identity totp_code = do
    user ← user_row db identity.user_id
    ensure (not user.mfa_enabled) (validation "MFA is already enabled")
    pending_secret ←
        ok_or user.mfa_totp_pending_secret
          (validation "No pending MFA setup — call /mfa/setup first")
    valid ← verify_totp third_party pending_secret totp_code (timestamp now)
    ensure valid (unauthorized "Invalid TOTP code")
    ok (
      true,
      log_mfa "mfa_enable" identity (set_users identity.user_id (set_enabled pending_secret) db),
    )

  unfoldable pub mfa_disable : Db → AuthenticatedIdentity → String → Result (Bool × Db)
  mfa_disable db identity totp_code = do
    user ← user_row db identity.user_id
    ensure user.mfa_enabled (validation "MFA is not enabled on this account")
    secret ← ok_or user.mfa_totp_secret (internal "MFA secret missing")
    valid ← verify_totp third_party secret totp_code (timestamp now)
    ensure valid (unauthorized "Invalid TOTP code")
    ok (false, log_mfa "mfa_disable" identity (set_users identity.user_id set_disabled db))

  -- `.map_err(|_| ...)`.
  unfoldable pub relabel : Result TokenClaims → Result TokenClaims
  relabel (err e) = err (unauthorized "Invalid or expired MFA token")
  relabel (ok claims) = ok claims

  -- The recovery code, asked only where the TOTP code is wrong. `updated` tells whether the UPDATE
  -- that removes it goes through: its result is discarded.
  unfoldable pub use_recovery_code : Bool → Db → Uuid → List String → Option ℕ → Result Db
  use_recovery_code updated db user_id hashes none =
      err (unauthorized "Invalid TOTP or recovery code")
  use_recovery_code updated db user_id hashes (some i) =
      ok (if updated then set_users user_id (set_hashes (remove i hashes)) db else db)

  unfoldable pub mfa_challenge : Bool → Db → String → String → Uuid → Result (LoginResponse × Db)
  unfolding relabel use_recovery_code
  mfa_challenge updated db mfa_token entered token_id = do
    claims ← relabel (validate_token mfa_token)
    ensure (contains claims.scopes mfa_pending) (unauthorized "Token is not an MFA challenge token")
    user_id ← ok_or (third_party.parse_uuid claims.sub) (internal "Invalid user ID in token")
    user ← user_row db user_id
    secret ← ok_or user.mfa_totp_secret (internal "MFA secret missing")
    totp_valid ← verify_totp third_party secret entered (timestamp now)
    db' ←
        (if totp_valid
          then ok db
          else use_recovery_code updated db user_id user.mfa_recovery_code_hashes
              (verify_recovery_code third_party entered user.mfa_recovery_code_hashes))
    ok (session_for user_id token_id user.is_admin, db')
