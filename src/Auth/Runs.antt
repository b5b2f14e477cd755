-- ===== src/Auth/Runs.antt =====
-- Runs of the session and token handlers on the small registry, with simple functions for the
-- third-party ones.
use Prim.Native.String.{String}
use text.Mathlib.Text.{◌==◌ as str_eq}
use publaryn.Prelude.{
  trim_text, zero, suc, ◌≡◌, refl, true, false, Option, none, some, List, [], ◌∷◌, Memᴰ, arith,
  All-mem, contains,
}
use publaryn.Error.{ok, err, unauthorized}
use publaryn.Query.{◌>>=◌, fetch_optional}
use publaryn.Query.Update.{update_where}
use publaryn.Db.{Db, Uuid, User, Token}
use publaryn.Samples.{ada, registry}
use publaryn.Auth.Identity.{AuthenticatedIdentity, CredentialKind, ensure_scope}
use publaryn.Auth.Scopes.{
  grantable_scopes, admin_only_scopes, normalize_requested_scopes, check_scopes, check_scope, sort,
  insert_sorted, dedup, dedup_after, ensure_scope_grant_allowed,
}
use publaryn.Auth.Credentials.{Credentials, TokenClaims}
use publaryn.Auth.Mfa.{
  verify_recovery_code, verify_totp, hash_recovery_code, remove_hyphens, position,
}
use publaryn.Auth.Sessions.{
  AuthConfig, LoginResponse, LoginResponseBody, remove, users_by_id, user_row, set_users,
  set_hashes, validate_token, session_for, create_token, mfa_challenge, mfa_pending, login,
  verify_password, users_by_name_or_email, relabel, use_recovery_code, mfa_pending_ttl_seconds,
}
use publaryn.Auth.Challenge.{mfa_challenge_sound, Passes}
use publaryn.Auth.Once.{IsPendingFor, recovery_code_once}
use publaryn.Auth.Enrolled.{IsEnrolled, AllEnrolled, MfaStep, MfaHistory, history-AllEnrolled}
use publaryn.Auth.Granted.{IsPlain, create_api_token-granted}
use publaryn.Auth.Tokens.{
  CreateTokenRequest, create_api_token, revoke_token, authenticate_bearer_token, is_platform_admin,
  authenticate_api_token, authenticate_jwt, hash_token, log_token, is_own_token, new_token,
}
use publaryn.Auth.Bearer.{
  identity_of, login-pending_authenticates, create_api_token-authenticates, revoke_token-refused,
}

-- A UUID as so many letters.
show_uuid : Uuid → String
show_uuid zero = ""
show_uuid (suc n) = String.◌∷◌ "x" (show_uuid n)

parse_uuid : String → Option Uuid
parse_uuid String.[] = some 0
parse_uuid (String.◌∷◌ c s) = next (parse_uuid s)
  where
    next : Option Uuid → Option Uuid
    next none = none
    next (some n) = some (suc n)

parse_uuid-show_uuid : (n : Uuid) → parse_uuid (show_uuid n) ≡ some n
unfolding parse_uuid show_uuid
parse_uuid-show_uuid zero = refl
parse_uuid-show_uuid (suc n) = rw (parse_uuid-show_uuid n) refl

-- Tokens of one kind: of the moment 0, for 300 seconds, with the scope `mfa:pending`.
abbrev plain : Credentials
plain = record {
  encode = λ secret claims. claims.sub;
  decode = λ secret issuer now token. some (record {
    sub = token;
    exp = 300;
    iat = 0;
    iss = issuer;
    jti = show_uuid 7;
    scopes = mfa_pending ∷ [];
  });
  show_uuid = show_uuid;
  parse_uuid = parse_uuid;
  parse_uuid-show_uuid = parse_uuid-show_uuid;
  verify_argon2 = λ password hash. some true;
  base32_encode = λ bytes. "secret";
  base32_decode = λ text. some [];
  totp_accepts = λ bytes. true;
  totp_check = λ bytes entered now. str_eq entered "123456";
  totp_url = λ account issuer bytes. "";
  sha256_hex = λ text. text;
  to_lowercase = λ text. text;
}

abbrev config : AuthConfig
config = record { jwt_secret = "key"; jwt_ttl_seconds = 3600; issuer = "publaryn" }

abbrev after_recovery : Db
after_recovery = set_users 1 (set_hashes ("h2" ∷ [])) registry

abbrev ada_session : LoginResponse
ada_session = session_for plain config 0 1 8 false

ada_recovers :
    mfa_challenge plain config 0 true registry "x" "h-1" 8 ≡ ok (ada_session, after_recovery)
unfolding mfa_challenge validate_token relabel user_row users_by_id ◌>>=◌ verify_totp
    verify_recovery_code hash_recovery_code remove_hyphens position use_recovery_code remove
    parse_uuid
ada_recovers = refl

ada_pending : IsPendingFor plain config 0 "x" 1
unfolding validate_token parse_uuid
ada_pending = (_, refl, refl, refl)

ada_found : fetch_optional (users_by_id registry 1) ≡ some ada
unfolding users_by_id ◌>>=◌
ada_found = refl

wrong_totp : verify_totp plain "secret" "h-1" 0 ≡ ok false
unfolding verify_totp
wrong_totp = refl

recovery_code_once_example :
    mfa_challenge plain config 0 true after_recovery "x" "h-1" 9
    ≡ err (unauthorized "Invalid TOTP or recovery code")
recovery_code_once_example =
    recovery_code_once plain config 0 registry "x" "h-1" 8 1 ada "secret" ada_session after_recovery
      ada_pending ada_found refl refl wrong_totp ada_recovers true 0 "x" 9 ada_pending wrong_totp

mfa_challenge_sound_example :
    (claims : TokenClaims) × (user : User) × (secret : String) × (validate_token plain config 0 "x"
      ≡ ok claims)
    × (contains claims.scopes mfa_pending ≡ true)
    × (parse_uuid claims.sub ≡ some user.id)
    × Memᴰ user registry.users
    × (user.mfa_totp_secret ≡ some secret)
    × Passes plain config 0 true registry user secret "h-1" after_recovery
    × (ada_session ≡ session_for plain config 0 user.id 8 user.is_admin)
mfa_challenge_sound_example =
    mfa_challenge_sound plain config 0 true registry "x" "h-1" 8 ada_recovers

registry-AllEnrolled : AllEnrolled registry
registry-AllEnrolled u = All-mem IsEnrolled registry.users (
  record { has_secret = λ on. refl; few_codes = omega arith },
  (record { has_secret = λ on. ground arith; few_codes = omega arith }, tt),
)

history-AllEnrolled_example : AllEnrolled after_recovery
history-AllEnrolled_example =
    history-AllEnrolled plain config
      (MfaHistory.continues MfaHistory.starts
        (MfaStep.challenges true 0 registry after_recovery "x" "h-1" 8 ada_session ada_recovers))
      registry-AllEnrolled

abbrev pending_reply : LoginResponse
pending_reply = record {
  token = create_token plain config 0 1 7 (mfa_pending ∷ []) mfa_pending_ttl_seconds;
  expires_in = mfa_pending_ttl_seconds;
}

ada_logs_in :
    login plain config 0 registry "ada" "correct horse" 7
    ≡ ok (LoginResponseBody.mfa_required pending_reply)
unfolding login users_by_name_or_email ◌>>=◌ verify_password
ada_logs_in = refl

login-pending_authenticates_example :
    (user : User) × Memᴰ user registry.users
    × (user.mfa_enabled ≡ true)
    × (authenticate_jwt plain config 60000000 pending_reply.token
        ≡ ok (identity_of CredentialKind.jwt user.id 7 (mfa_pending ∷ [])))
login-pending_authenticates_example =
    login-pending_authenticates plain config 0 60000000 registry "ada" "correct horse" 7
      pending_reply (λ user_id alive. refl) ada_logs_in (omega arith)

abbrev ada_here : AuthenticatedIdentity
ada_here = record {
  user_id = 1;
  token_id = none;
  scopes = "tokens:write" ∷ [];
  credential_kind = CredentialKind.jwt;
}

abbrev ask : CreateTokenRequest
ask = record { name = "ci"; scopes = " packages:write" ∷ []; expires_in_days = some 1; kind = none }

abbrev with_token : Db
with_token =
    log_token "token_create" ada_here (record registry {
      tokens = new_token 0 ada_here ask "pub_ff" ("packages:write" ∷ []) 91 ∷ [];
    })

ada_creates :
    create_api_token plain config 0 registry ada_here ask "ff" 91 ≡ ok ("pub_ff", with_token)
unfolding create_api_token ensure_scope normalize_requested_scopes check_scopes check_scope sort
    insert_sorted dedup dedup_after ensure_scope_grant_allowed hash_token is_platform_admin ◌>>=◌
    users_by_id
ada_creates = refl

create_api_token-granted_example :
    (contains ada_here.scopes "tokens:write" ≡ true)
    × ((t : Token) × (with_token.tokens ≡ t ∷ registry.tokens)
        × (t.user_id ≡ some 1)
        × (t.token_hash ≡ plain.sha256_hex "pub_ff")
        × ((scope : String)
            → Memᴰ scope t.scopes
            → ((s : String) × Memᴰ s (" packages:write" ∷ []) × (scope ≡ trim_text s))
              × (contains grantable_scopes scope ≡ true)
              × (IsPlain registry 1 → contains admin_only_scopes scope ≡ false)))
create_api_token-granted_example =
    create_api_token-granted plain config 0 registry ada_here ask "ff" 91 "pub_ff" with_token
      ada_creates

create_api_token-authenticates_example :
    (scopes : List String) × (after : Db) × (normalize_requested_scopes (" packages:write" ∷ [])
      ≡ ok scopes)
    × (authenticate_bearer_token plain config 1000 with_token "pub_ff"
        ≡ ok (identity_of CredentialKind.api_token 1 91 scopes, after))
create_api_token-authenticates_example =
    create_api_token-authenticates plain config 0 1000 registry ada_here ask "ff" 91 "pub_ff"
      with_token ada_creates refl refl

abbrev without_token : Db
without_token = log_token "token_revoke" ada_here (record with_token {
  tokens = update_where (is_own_token 91 1) (λ t. record t { is_revoked = true }) with_token.tokens;
})

ada_revokes : revoke_token plain config 1000 with_token ada_here 91 ≡ ok (91, without_token)
unfolding revoke_token ensure_scope log_token
ada_revokes = refl

revoke_token-refused_example :
    authenticate_api_token plain config 2000 without_token "pub_ff"
    ≡ err (unauthorized "Invalid API token")
unfolding log_token hash_token
revoke_token-refused_example =
    revoke_token-refused plain config 1000 with_token ada_here 91 "pub_ff" 91 without_token
      ada_revokes
      (λ t.
        All-mem (λ t. t.token_hash ≡ "pub_ff" → (t.id ≡ 91) × (t.user_id ≡ some 1))
          with_token.tokens ((λ e. (refl, refl)), tt))
      2000
