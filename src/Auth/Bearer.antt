-- ===== src/Auth/Bearer.antt =====
-- What a credential authenticates: a session, a pending MFA token, an API token over its life.
use mathlib.Core.Path.{subst}
use text.Mathlib.Text.{◌==◌ as str_eq}
use text.Mathlib.TextPositions.{eq_refl}
use publaryn.Prelude.{
  ℕ, ◌+◌, ◌<◌, ◌≡◌, refl, ap, inl, inr, String, Bool, true, false, not, ◌&&◌, ◌||◌, none, some,
  List, [], ◌∷◌, Memᴰ, ◌==◌, arith, Bool-cases, eq_iff, if◌then◌else◌, and_intro, any, ==_iff,
  is_iff,
}
use publaryn.Error.{
  ok, err, >>=-ok_inv, >>-ok_inv, ensure, ok_or, ok_or-ok_inv, ok_injective, unauthorized,
  not_found,
}
use publaryn.Query.{◌>>=◌, ◌>>◌, row, fetch_optional, fetch-mem, bind-mem_inv, only-mem_inv}
use publaryn.Query.Update.{update_where}
use publaryn.Access.Rows.{row_inv}
use publaryn.Db.{Db, Uuid, Time, User, Token}
use publaryn.Auth.Identity.{AuthenticatedIdentity, CredentialKind, ensure_scope}
use publaryn.Auth.Scopes.{normalize_requested_scopes, ensure_scope_grant_allowed}
use publaryn.Auth.Credentials.{Credentials, timestamp}
use publaryn.Auth.Sessions.{
  AuthConfig, LoginResponse, users_by_name_or_email, verify_password, LoginResponseBody,
  create_token, validate_token, claims_for, login, mfa_pending, mfa_pending_ttl_seconds,
}
use publaryn.Auth.Tokens.{
  is_api_token, starts_with, tokens_by_hash, has_expired, hash_token, authenticate_jwt,
  authenticate_api_token, authenticate_bearer_token, CreateTokenRequest, create_api_token,
  kind_or_personal, expiry, with_prefix, new_token, set_last_used, set_revoked, is_own_token,
  revoke_token, log_token, scope_tokens_write, is_platform_admin,
}

abbrev pub identity_of : CredentialKind → Uuid → Uuid → List String → AuthenticatedIdentity
identity_of credential_kind user_id token_id scopes = record {
  user_id = user_id;
  token_id = some token_id;
  scopes = scopes;
  credential_kind = credential_kind;
}

pending_reply :
    (on : Bool) (pending open_session : LoginResponse) {reply : LoginResponse}
    → (if on
        then LoginResponseBody.mfa_required pending
        else LoginResponseBody.session open_session)
      ≡ LoginResponseBody.mfa_required reply
    → (on ≡ true) × (pending ≡ reply)
pending_reply true pending open_session h = (refl, ground arith)
pending_reply false pending open_session h = absurd (ground arith)

users_by_name_or_email-mem :
    (db : Db) (name : String) {u : User}
    → fetch_optional (users_by_name_or_email db name) ≡ some u
    → Memᴰ u db.users
unfolding users_by_name_or_email
users_by_name_or_email-mem db name h =
    let (x, x_mem, m) = bind-mem_inv db.users _ (fetch-mem _ h) in
    let (hit, here) = only-mem_inv (str_eq x.username name || str_eq x.email name) _ m in
    let same = row_inv here in rw same x_mem

no_live_token :
    (own : Token → Bool) (hash : String) (ts : List Token)
    → ((t : Token) → Memᴰ t ts → t.token_hash ≡ hash → own t ≡ true)
    → fetch_optional (
        update_where own set_revoked ts >>= λ t.
        (str_eq t.token_hash hash && not t.is_revoked) >> row t)
      ≡ none
unfolding ◌>>=◌ update_where
no_live_token own hash [] all = refl
no_live_token own hash (t ∷ ts) all =
    let rest = no_live_token own hash ts (λ u m. all u (Memᴰ.tail m)) in
    elim (Bool-cases (own t)) [
      | inl mine ↦
          let dead : (str_eq t.token_hash hash && false) ≡ false = ground arith in
          rw (mine, dead) rest
      | inr other ↦ elim (Bool-cases (str_eq t.token_hash hash)) [
        | inl same ↦
            let mine = all t (Memᴰ.head refl) ((eq_iff _ _).0 same) in absurd (ground arith)
        | inr differs ↦ rw (other, differs) rest
      ]
    ]

module _ (third_party : Credentials) (config : AuthConfig) where
  -- jsonwebtoken reads what it signed for the issuer, until it expires.
  abbrev pub ReadsBack : Time → Time → Uuid → List String → ℕ → Type 0
  ReadsBack now later token_id scopes ttl =
      (user_id : Uuid)
      → timestamp later < timestamp now + ttl
      → third_party.decode config.jwt_secret config.issuer (timestamp later) (
          third_party.encode config.jwt_secret
            (claims_for third_party config now user_id token_id scopes ttl))
        ≡ some (claims_for third_party config now user_id token_id scopes ttl)

  -- A token that `create_token` made is read back until it expires.
  authenticate_jwt-create_token :
      (now later : Time) (user_id token_id : Uuid) (scopes : List String) (ttl : ℕ)
      → ReadsBack now later token_id scopes ttl
      → timestamp later < timestamp now + ttl
      → authenticate_jwt third_party config later
          (create_token third_party config now user_id token_id scopes ttl)
        ≡ ok (identity_of CredentialKind.jwt user_id token_id scopes)
  unfolding authenticate_jwt create_token validate_token
  authenticate_jwt-create_token now later user_id token_id scopes ttl reads alive =
      rw
        (
          reads user_id alive,
          third_party.parse_uuid-show_uuid user_id,
          third_party.parse_uuid-show_uuid token_id,
        )
        refl

  -- Where a login asks for the second factor, its token is for a user with MFA, and until it
  -- expires, 300 seconds later, `authenticate_jwt` takes it for a credential of that user, without
  -- the second factor; its only scope is `mfa:pending`.
  pub login-pending_authenticates :
      (now later : Time) (db : Db) (name password : String) (token_id : Uuid)
      (reply : LoginResponse)
      → ReadsBack now later token_id (mfa_pending ∷ []) mfa_pending_ttl_seconds
      → login third_party config now db name password token_id
        ≡ ok (LoginResponseBody.mfa_required reply)
      → timestamp later < timestamp now + mfa_pending_ttl_seconds
      → (user : User) × Memᴰ user db.users
        × (user.mfa_enabled ≡ true)
        × (authenticate_jwt third_party config later reply.token
            ≡ ok (identity_of CredentialKind.jwt user.id token_id (mfa_pending ∷ [])))
  unfolding login
  login-pending_authenticates now later db name password token_id reply reads h alive =
      let (user, found, h1) =
        >>=-ok_inv {A = User}
          (ok_or (fetch_optional (users_by_name_or_email db name))
            (unauthorized "Invalid credentials"))
          _ h in
      let (active, h2) =
        >>-ok_inv (ensure user.is_active (unauthorized "Account is disabled")) _ h1 in
      let (hash, kept, h3) =
        >>=-ok_inv
          (ok_or user.password_hash (unauthorized "Password login not available for this account"))
          _ h2 in
      let (valid, checked, h4) =
        >>=-ok_inv (verify_password third_party config now password hash) _ h3 in
      let (passed, h5) = >>-ok_inv (ensure valid (unauthorized "Invalid credentials")) _ h4 in
      let (on, same) = pending_reply user.mfa_enabled _ _ (ok_injective h5) in
      let credential =
        authenticate_jwt-create_token now later user.id token_id (mfa_pending ∷ [])
          mfa_pending_ttl_seconds reads alive in
      let user_mem = users_by_name_or_email-mem db name (ok_or-ok_inv _ _ found) in
      (
        user,
        user_mem,
        on,
        subst
            (λ r.
              authenticate_jwt third_party config later r.token
              ≡ ok (identity_of CredentialKind.jwt user.id token_id (mfa_pending ∷ [])))
            same credential,
      )

  pub_prefix : (random_hex : String) → is_api_token (with_prefix random_hex) ≡ true
  unfolding starts_with
  pub_prefix random_hex = refl

  -- A token that `create_api_token` made, of another kind than `oidc_derived`, authenticates its
  -- user until it expires, with the scopes that were asked for in their normal form.
  pub create_api_token-authenticates :
      (now later : Time) (db : Db) (identity : AuthenticatedIdentity) (body : CreateTokenRequest)
      (random_hex : String) (id : Uuid) (raw : String) (db' : Db)
      → create_api_token third_party config now db identity body random_hex id ≡ ok (raw, db')
      → has_expired (expiry now body.expires_in_days) later ≡ false
      → str_eq (kind_or_personal body.kind) "oidc_derived" ≡ false
      → (scopes : List String) × (after : Db) × (normalize_requested_scopes body.scopes ≡ ok scopes)
        × (authenticate_bearer_token third_party config later db' raw
            ≡ ok (identity_of CredentialKind.api_token identity.user_id id scopes, after))
  unfolding create_api_token log_token authenticate_bearer_token authenticate_api_token
      tokens_by_hash ◌>>=◌ hash_token
  create_api_token-authenticates now later db identity body random_hex id raw db' h alive kind =
      let (scoped, h1) = >>-ok_inv (ensure_scope identity scope_tokens_write) _ h in
      let (scopes, normal, h2) = >>=-ok_inv (normalize_requested_scopes body.scopes) _ h1 in
      let (granted, h3) =
        >>-ok_inv (ensure_scope_grant_allowed scopes (is_platform_admin db identity.user_id)) _
          h2 in
      let same = ok_injective h3 in
      let raw0 = with_prefix random_hex in
      let hash = hash_token third_party config now raw0 in
      let created = new_token now identity body hash scopes id in
      let made = log_token "token_create" identity (record db { tokens = created ∷ db.tokens }) in
      let used : Db = record made {
        tokens = update_where (λ t. t.id == id) (set_last_used later) made.tokens;
      } in
      let shown = identity_of CredentialKind.api_token identity.user_id id scopes in
      let answer : authenticate_bearer_token third_party config later made raw0 ≡ ok (shown, used) =
        rw (pub_prefix random_hex, eq_refl hash, alive, kind) refl in
      (
        scopes,
        used,
        normal,
        subst (λ p. authenticate_bearer_token third_party config later p.1 p.0 ≡ ok (shown, used))
            same answer,
      )

  -- A revoked token authenticates nobody, at any time, where the token's row is the only one with
  -- its hash.
  pub revoke_token-refused :
      (now : Time) (db : Db) (identity : AuthenticatedIdentity) (id : Uuid) (raw : String)
      (revoked : Uuid) (db' : Db)
      → revoke_token third_party config now db identity id ≡ ok (revoked, db')
      → ((t : Token)
          → Memᴰ t db.tokens
          → t.token_hash ≡ hash_token third_party config now raw
          → (t.id ≡ id) × (t.user_id ≡ some identity.user_id))
      → (later : Time)
      → authenticate_api_token third_party config later db' raw
        ≡ err (unauthorized "Invalid API token")
  unfolding revoke_token log_token authenticate_api_token tokens_by_hash hash_token
  revoke_token-refused now db identity id raw revoked db' h only later =
      let (scoped, h1) = >>-ok_inv (ensure_scope identity scope_tokens_write) _ h in
      let (present, h2) =
        >>-ok_inv
          (ensure (any (is_own_token id identity.user_id) db.tokens) (not_found "Token not found"))
          _ h1 in
      let own : (t : Token)
          → Memᴰ t db.tokens
          → t.token_hash ≡ third_party.sha256_hex raw
          → is_own_token id identity.user_id t ≡ true =
        λ t m e.
          let (same_id, same_user) = only t m e in
          and_intro ((==_iff _ _).1 same_id) ((is_iff _ _).1 same_user) in
      let none_left =
        no_live_token (is_own_token id identity.user_id) (third_party.sha256_hex raw) db.tokens
          own in
      subst
        (λ d.
          authenticate_api_token third_party config later d raw
          ≡ err (unauthorized "Invalid API token"))
        (ap (λ p. p.1) (ok_injective h2)) (rw none_left refl)
