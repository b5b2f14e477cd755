-- ===== src/Auth/Tokens.antt =====
-- The API tokens of crates/api/src/routes/tokens.rs, and how crates/api/src/request_auth.rs reads a
-- credential.
use Prim.Native.Char.{code}
use text.Mathlib.Text.{◌==◌ as str_eq}
use publaryn.Prelude.{
  ℕ, ◌+◌, ◌*◌, String, Bool, true, false, not, ◌&&◌, Option, none, some, List, [], ◌∷◌, map, leb,
  ◌==◌, ◌is◌, if◌then◌else◌, codes, same_text, to_ascii_lower, trim_text, is_empty, any,
}
use publaryn.Error.{Result, ok, ◌>>=◌, ◌>>◌, ensure, ok_or, unauthorized, not_found}
use publaryn.Query.{◌>>=◌ as from, ◌>>◌ as when, row, fetch_optional}
use publaryn.Query.Update.{update_where}
use publaryn.Db.{Db, Uuid, Time, Token, AuditLog}
use publaryn.Auth.Identity.{
  AuthenticatedIdentity, CredentialKind, audit_actor_token_id, ensure_scope,
}
use publaryn.Auth.Scopes.{normalize_requested_scopes, ensure_scope_grant_allowed}
use publaryn.Auth.Credentials.{Credentials}
use publaryn.Auth.Sessions.{AuthConfig, validate_token, users_by_id}

abbrev pub scope_tokens_write : String
scope_tokens_write = "tokens:write"

-- `header_value.splitn(2, ' ')`: the text before the first space, and the text after it.
unfoldable pub split_at_space : String → String × String
split_at_space String.[] = ("", "")
split_at_space (String.◌∷◌ c s) =
    let (scheme, rest) = split_at_space s in
    if code c == b' ' then ("", s) else (String.◌∷◌ c scheme, rest)

unfoldable pub parse_bearer_token : String → Result String
unfolding split_at_space
parse_bearer_token header_value = do
  let (scheme, rest) = split_at_space header_value
  let token = trim_text rest
  ensure (same_text (map to_ascii_lower (codes scheme)) (codes "bearer") && not (is_empty token))
      (unauthorized "Authorization header must use the Bearer scheme")
  ok token

-- `token.starts_with(prefix)`.
unfoldable pub starts_with : List ℕ → List ℕ → Bool
starts_with [] text = true
starts_with (p ∷ prefix) [] = false
starts_with (p ∷ prefix) (c ∷ text) = (c == p) && starts_with prefix text

abbrev pub is_api_token : String → Bool
is_api_token token = starts_with (codes "pub_") (codes token)

unfoldable pub tokens_by_hash : Db → String → List Token
tokens_by_hash db token_hash =
    from db.tokens λ t. when (str_eq t.token_hash token_hash && not t.is_revoked) (row t)

-- `expires_at.is_some_and(|value| value <= now)`.
abbrev pub has_expired : Option Time → Time → Bool
has_expired none now = false
has_expired (some expires_at) now = leb expires_at now

abbrev pub set_last_used : Time → Token → Token
set_last_used now t = record t { last_used_at = some now }

abbrev pub set_revoked : Token → Token
set_revoked t = record t { is_revoked = true }

-- `COALESCE((SELECT is_admin ...), false)`.
abbrev pub or_false : Option Bool → Bool
or_false none = false
or_false (some is_admin) = is_admin

unfoldable pub is_platform_admin : Db → Uuid → Bool
is_platform_admin db actor_user_id =
    or_false
      (fetch_optional (from (users_by_id db actor_user_id) λ u. when u.is_active (row u.is_admin)))

unfoldable pub log_token : String → AuthenticatedIdentity → Db → Db
log_token action identity db =
    let entry : AuditLog = record {
      action = action;
      actor_user_id = identity.user_id;
      actor_token_id = audit_actor_token_id identity;
      target_user_id = some identity.user_id;
      target_org_id = none;
      target_package_id = none;
      target_release_id = none;
    } in
    record db { audit_logs = entry ∷ db.audit_logs }

pub record CreateTokenRequest : Type 0 where
  pub name : String
  pub scopes : List String
  pub expires_in_days : Option ℕ
  pub kind : Option String

-- `Utc::now() + Duration::days(d)`, in microseconds, where `d`, a `u32`, is small enough for the
-- sum to be a `DateTime`; a later one is a panic of the request.
abbrev pub expiry : Time → Option ℕ → Option Time
expiry now none = none
expiry now (some days) = some (now + days * 86400000000)

abbrev pub kind_or_personal : Option String → String
kind_or_personal none = "personal"
kind_or_personal (some kind) = kind

-- `format!("pub_{}", random)`.
abbrev pub with_prefix : String → String
with_prefix random_hex =
    String.◌∷◌ "p" (String.◌∷◌ "u" (String.◌∷◌ "b" (String.◌∷◌ "_" random_hex)))

-- WHERE id = $1 AND user_id = $2.
abbrev pub is_own_token : Uuid → Uuid → Token → Bool
is_own_token id user_id t = t.id == id && (t.user_id is user_id)

-- The row that an INSERT of a token makes.
abbrev pub new_token :
    Time → AuthenticatedIdentity → CreateTokenRequest → String → List String → Uuid → Token
new_token now identity body token_hash scopes id = record {
  id = id;
  kind = kind_or_personal body.kind;
  token_hash = token_hash;
  name = body.name;
  user_id = some identity.user_id;
  scopes = scopes;
  last_used_at = none;
  expires_at = expiry now body.expires_in_days;
  is_revoked = false;
  created_at = now;
}

module _ (third_party : Credentials) (config : AuthConfig) (now : Time) where
  -- `security::hash_token`.
  unfoldable pub hash_token : String → String
  hash_token raw = third_party.sha256_hex raw

  unfoldable pub authenticate_jwt : String → Result AuthenticatedIdentity
  authenticate_jwt token = do
    claims ← validate_token third_party config now token
    user_id ←
        ok_or (third_party.parse_uuid claims.sub)
          (unauthorized "Token subject is not a valid user identifier")
    token_id ←
        ok_or (third_party.parse_uuid claims.jti)
          (unauthorized "Token identifier is not a valid UUID")
    ok (record {
      user_id = user_id;
      token_id = some token_id;
      scopes = claims.scopes;
      credential_kind = CredentialKind.jwt;
    })

  unfoldable pub authenticate_api_token : Db → String → Result (AuthenticatedIdentity × Db)
  authenticate_api_token db token = do
    t ←
        ok_or (fetch_optional (tokens_by_hash db (hash_token token)))
          (unauthorized "Invalid API token")
    ensure (not (has_expired t.expires_at now)) (unauthorized "API token has expired")
    ensure (not (str_eq t.kind "oidc_derived"))
        (unauthorized "OIDC-derived API tokens are only valid for native publishing endpoints")
    user_id ← ok_or t.user_id (unauthorized "API token is not associated with a user account")
    ok (
      record {
        user_id = user_id;
        token_id = some t.id;
        scopes = t.scopes;
        credential_kind = CredentialKind.api_token;
      },
      record db { tokens = update_where (λ row. row.id == t.id) (set_last_used now) db.tokens },
    )

  unfoldable pub authenticate_bearer_token : Db → String → Result (AuthenticatedIdentity × Db)
  authenticate_bearer_token db token =
      if is_api_token token
      then authenticate_api_token db token
      else (do identity ← authenticate_jwt token; ok (identity, db))

  -- `random_hex` is the fresh `generate_random_token(32)`, `id` the fresh `Uuid::new_v4()`.
  unfoldable pub create_api_token :
      Db → AuthenticatedIdentity → CreateTokenRequest → String → Uuid → Result (String × Db)
  create_api_token db identity body random_hex id = do
    ensure_scope identity scope_tokens_write
    scopes ← normalize_requested_scopes body.scopes
    ensure_scope_grant_allowed scopes (is_platform_admin db identity.user_id)
    let raw_token = with_prefix random_hex
    let created = new_token now identity body (hash_token raw_token) scopes id
    ok (raw_token, log_token "token_create" identity (record db { tokens = created ∷ db.tokens }))

  unfoldable pub revoke_token : Db → AuthenticatedIdentity → Uuid → Result (Uuid × Db)
  revoke_token db identity id = do
    ensure_scope identity scope_tokens_write
    ensure (any (is_own_token id identity.user_id) db.tokens) (not_found "Token not found")
    ok (
      id,
      log_token "token_revoke" identity (record db {
        tokens = update_where (is_own_token id identity.user_id) set_revoked db.tokens;
      }),
    )
