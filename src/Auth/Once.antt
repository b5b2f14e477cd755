-- ===== src/Auth/Once.antt =====
-- A recovery code serves once.
use mathlib.Core.Path.{subst}
use publaryn.Prelude.{
  ◌≡◌, refl, sym, ap, Bool, ◌∙◌, String, true, false, some, arith, contains, Option-cases, inl, inr,
}
use publaryn.Error.{ok, err, ◌>>=◌, ok_injective, unauthorized}
use publaryn.Query.{fetch_optional}
use publaryn.Db.{Db, Uuid, Time, User}
use publaryn.Auth.Credentials.{Credentials, TokenClaims, timestamp}
use publaryn.Auth.Mfa.{verify_recovery_code, verify_totp, hash_recovery_code}
use publaryn.Auth.Sessions.{
  AuthConfig, LoginResponse, remove, users_by_id, user_row, set_users, set_hashes, validate_token,
  session_for, mfa_challenge, mfa_pending, relabel, use_recovery_code,
}
use publaryn.Auth.Challenge.{all_distinct, position-remove, users_by_id-set_users}

module _ (third_party : Credentials) (config : AuthConfig) where
  -- At that time the token is one of this issuer for the user, with the scope `mfa:pending`.
  abbrev pub IsPendingFor : Time → String → Uuid → Type 0
  IsPendingFor now token id =
      (claims : TokenClaims) × (validate_token third_party config now token ≡ ok claims)
      × (contains claims.scopes mfa_pending ≡ true)
      × (third_party.parse_uuid claims.sub ≡ some id)

  -- Where the TOTP code is wrong, the recovery code decides.
  challenge_by_recovery :
      (updated : Bool) (now : Time) (db : Db) (token entered : String) (token_id id : Uuid)
      (user : User) (secret : String)
      → IsPendingFor now token id
      → fetch_optional (users_by_id db id) ≡ some user
      → user.mfa_totp_secret ≡ some secret
      → verify_totp third_party secret entered (timestamp now) ≡ ok false
      → mfa_challenge third_party config now updated db token entered token_id ≡ (
          use_recovery_code third_party config now updated db id user.mfa_recovery_code_hashes
            (verify_recovery_code third_party entered user.mfa_recovery_code_hashes)
          >>= λ db'. ok (session_for third_party config now id token_id user.is_admin, db'))
  unfolding mfa_challenge relabel user_row
  challenge_by_recovery updated now db token entered token_id id user secret
        (claims, read, pending, parsed) found kept wrong =
      rw (read, pending, parsed, found, kept, wrong) refl

  -- A recovery code that let a user pass a challenge whose UPDATE of the codes went through is
  -- spent: entered again on the database that the challenge leaves, at any later or earlier time and
  -- with any token of that user, where it is no TOTP code of the moment either, it is refused. The
  -- stored hashes are taken to be distinct.
  pub recovery_code_once :
      (now : Time) (db : Db) (token entered : String) (token_id id : Uuid) (user : User)
      (secret : String) (reply : LoginResponse) (db' : Db)
      → IsPendingFor now token id
      → fetch_optional (users_by_id db id) ≡ some user
      → user.mfa_totp_secret ≡ some secret
      → all_distinct user.mfa_recovery_code_hashes ≡ true
      → verify_totp third_party secret entered (timestamp now) ≡ ok false
      → mfa_challenge third_party config now true db token entered token_id ≡ ok (reply, db')
      → (again : Bool) (later : Time) (next_token : String) (next_id : Uuid)
      → IsPendingFor later next_token id
      → verify_totp third_party secret entered (timestamp later) ≡ ok false
      → mfa_challenge third_party config later again db' next_token entered next_id
        ≡ err (unauthorized "Invalid TOTP or recovery code")
  unfolding use_recovery_code verify_recovery_code
  recovery_code_once now db token entered token_id id user secret reply db' holds found kept apart
        wrong h again later next_token next_id holds_again wrong_again =
      let hashes = user.mfa_recovery_code_hashes in
      let first =
        sym (
          challenge_by_recovery true now db token entered token_id id user secret holds found kept
            wrong)
        ∙ h in
      elim (Option-cases (verify_recovery_code third_party entered hashes)) [
        | inl unknown ↦ absurd (ground arith)
        | inr (i, at_i) ↦
            let spent : User = set_hashes (remove i hashes) user in
            let answer = ok_injective (rw at_i at first) in
            let after : set_users id (set_hashes (remove i hashes)) db ≡ db' =
              ap (λ p. p.1) answer in
            let row =
              users_by_id-set_users id (set_hashes (remove i hashes)) (λ v. refl) db found in
            let gone =
              position-remove (hash_recovery_code third_party entered) hashes i apart at_i in
            subst
              (λ d.
                mfa_challenge third_party config later again d next_token entered next_id
                ≡ err (unauthorized "Invalid TOTP or recovery code"))
              after
              (challenge_by_recovery again later (set_users id (set_hashes (remove i hashes)) db)
                  next_token entered next_id id spent secret holds_again row kept wrong_again
                ∙ rw gone refl)
      ]
