-- ===== src/Auth/Enrolled.antt =====
-- The MFA columns of the users over any history of the MFA handlers.
use mathlib.Core.Path.{subst}
use publaryn.Prelude.{
  ℕ, zero, suc, ◌≤◌, ◌≡◌, refl, sym, ap, ◌∙◌, inl, inr, String, Bool, true, not, List, [], ◌∷◌, map,
  length, Memᴰ, arith, is_some, if◌then◌else◌, false,
}
use publaryn.Error.{ok, >>=-ok_inv, >>-ok_inv, ensure, ok_injective, ok_or, validation, internal}
use publaryn.Query.Update.{update_where-mem_inv}
use publaryn.Db.{Db, Uuid, Time, User}
use publaryn.Auth.Identity.{AuthenticatedIdentity}
use publaryn.Auth.Credentials.{Credentials, timestamp}
use publaryn.Auth.Mfa.{
  TotpSetup, setup_totp, verify_totp, generate_recovery_codes, hash_recovery_code, draw_codes,
  recovery_code_count,
}
use publaryn.Auth.Sessions.{
  AuthConfig, LoginResponse, remove, set_users, set_hashes, set_pending, set_enabled, set_disabled,
  is_user, user_row, log_mfa, mfa_setup, mfa_verify_setup, mfa_disable, mfa_challenge,
}
use publaryn.Auth.Challenge.{mfa_challenge_sound}

-- A user with MFA has a secret to check codes by, and at most eight recovery codes.
pub record IsEnrolled (u : User) : Type 0 where
  pub has_secret : u.mfa_enabled ≡ true → is_some u.mfa_totp_secret ≡ true
  pub few_codes : length u.mfa_recovery_code_hashes ≤ 8

abbrev pub AllEnrolled : Db → Type 0
AllEnrolled db = (u : User) → Memᴰ u db.users → IsEnrolled u

module _ (third_party : Credentials) (config : AuthConfig) where
  -- A call of a handler that succeeds.
  pub data MfaStep : Db → Db → Type 0 where
    sets_up :
        (now : Time) (db db' : Db) (identity : AuthenticatedIdentity) (secret_bytes : List ℕ)
        (segments : ℕ → String × String) (setup : TotpSetup)
        → mfa_setup third_party config now db identity secret_bytes segments ≡ ok (setup, db')
        → MfaStep db db'
    verifies :
        (now : Time) (db db' : Db) (identity : AuthenticatedIdentity) (entered : String) (on : Bool)
        → mfa_verify_setup third_party config now db identity entered ≡ ok (on, db')
        → MfaStep db db'
    disables :
        (now : Time) (db db' : Db) (identity : AuthenticatedIdentity) (entered : String) (on : Bool)
        → mfa_disable third_party config now db identity entered ≡ ok (on, db')
        → MfaStep db db'
    challenges :
        (updated : Bool) (now : Time) (db db' : Db) (token entered : String) (token_id : Uuid)
        (reply : LoginResponse)
        → mfa_challenge third_party config now updated db token entered token_id ≡ ok (reply, db')
        → MfaStep db db'

  pub data MfaHistory (db : Db) : Db → Type 0 where
    starts : MfaHistory db db
    continues : {mid db' : Db} → MfaHistory db mid → MfaStep mid db' → MfaHistory db db'

  set_users-AllEnrolled :
      (db : Db) (id : Uuid) (set : User → User)
      → ((u : User) → Memᴰ u db.users → IsEnrolled u → IsEnrolled (set u))
      → AllEnrolled db
      → AllEnrolled (set_users id set db)
  set_users-AllEnrolled db id set keeps all u m =
      let (x, x_mem, how) = update_where-mem_inv (is_user id) set db.users m in
      elim how [
        | inl (hit, e) ↦ rw e (keeps x x_mem (all x x_mem))
        | inr (miss, e) ↦ rw e (all x x_mem)
      ]

  log_mfa-AllEnrolled :
      (action : String) (identity : AuthenticatedIdentity) (db : Db)
      → AllEnrolled db
      → AllEnrolled (log_mfa action identity db)
  unfolding log_mfa
  log_mfa-AllEnrolled action identity db all = all

  length-map {ℓ κ} :
      {A : Type ℓ} {B : Type κ} (f : A → B) (xs : List A) → length (map f xs) ≡ length xs
  length-map f [] = refl
  length-map f (x ∷ xs) = ap suc (length-map f xs)

  length-remove : (i : ℕ) (hs : List String) → length (remove i hs) ≤ length hs
  unfolding remove
  length-remove i [] = ground arith
  length-remove zero (h ∷ hs) = ground arith
  length-remove (suc i) (h ∷ hs) = ground (arith, length-remove i hs)

  length-draw_codes :
      (segments : ℕ → String × String) (i n : ℕ) → length (draw_codes segments i n) ≡ n
  unfolding draw_codes
  length-draw_codes segments i zero = refl
  length-draw_codes segments i (suc n) = ap suc (length-draw_codes segments (suc i) n)

  setup_totp-few :
      (secret_bytes : List ℕ) (segments : ℕ → String × String) (name issuer : String)
      {setup : TotpSetup}
      → setup_totp third_party secret_bytes segments name issuer ≡ ok setup
      → length setup.recovery_code_hashes ≡ recovery_code_count
  unfolding setup_totp generate_recovery_codes
  setup_totp-few secret_bytes segments name issuer {setup} h =
      let (accepted, h1) = >>-ok_inv (ensure (third_party.totp_accepts secret_bytes) _) _ h in
      let same = ap (λ s. length s.recovery_code_hashes) (ok_injective h1) in
      sym same
      ∙ length-map (hash_recovery_code third_party) (draw_codes segments 0 recovery_code_count)
      ∙ length-draw_codes segments 0 recovery_code_count

  sets_up-AllEnrolled :
      (now : Time) (db : Db) (identity : AuthenticatedIdentity) (secret_bytes : List ℕ)
      (segments : ℕ → String × String) {setup : TotpSetup} {db' : Db}
      → mfa_setup third_party config now db identity secret_bytes segments ≡ ok (setup, db')
      → AllEnrolled db
      → AllEnrolled db'
  unfolding mfa_setup
  sets_up-AllEnrolled now db identity secret_bytes segments h all =
      let (user, found, h1) =
        >>=-ok_inv (user_row third_party config now db identity.user_id) _ h in
      let (off, h2) = >>-ok_inv (ensure (not user.mfa_enabled) _) _ h1 in
      let (made, setup_ok, h3) = >>=-ok_inv _ _ h2 in
      let few = setup_totp-few secret_bytes segments user.username "Publaryn" setup_ok in
      subst AllEnrolled (ap (λ p. p.1) (ok_injective h3)) (
        set_users-AllEnrolled db identity.user_id
          (set_pending made.secret_base32 made.recovery_code_hashes)
          (λ u m e. record { has_secret = e.has_secret; few_codes = omega (arith, few) }) all)

  verifies-AllEnrolled :
      (now : Time) (db : Db) (identity : AuthenticatedIdentity) (entered : String) {on : Bool}
      {db' : Db}
      → mfa_verify_setup third_party config now db identity entered ≡ ok (on, db')
      → AllEnrolled db
      → AllEnrolled db'
  unfolding mfa_verify_setup
  verifies-AllEnrolled now db identity entered h all =
      let (user, found, h1) =
        >>=-ok_inv (user_row third_party config now db identity.user_id) _ h in
      let (off, h2) = >>-ok_inv (ensure (not user.mfa_enabled) _) _ h1 in
      let (secret, pending, h3) =
        >>=-ok_inv
          (ok_or user.mfa_totp_pending_secret
            (validation "No pending MFA setup — call /mfa/setup first"))
          _ h2 in
      let (valid, checked, h4) =
        >>=-ok_inv (verify_totp third_party secret entered (timestamp now)) _ h3 in
      let (passed, h5) = >>-ok_inv (ensure valid _) _ h4 in
      subst AllEnrolled (ap (λ p. p.1) (ok_injective h5)) (
        log_mfa-AllEnrolled "mfa_enable" identity
          (set_users identity.user_id (set_enabled secret) db)
          (set_users-AllEnrolled db identity.user_id (set_enabled secret)
            (λ u m e. record { has_secret = λ on. refl; few_codes = e.few_codes }) all))

  disables-AllEnrolled :
      (now : Time) (db : Db) (identity : AuthenticatedIdentity) (entered : String) {on : Bool}
      {db' : Db}
      → mfa_disable third_party config now db identity entered ≡ ok (on, db')
      → AllEnrolled db
      → AllEnrolled db'
  unfolding mfa_disable
  disables-AllEnrolled now db identity entered h all =
      let (user, found, h1) =
        >>=-ok_inv (user_row third_party config now db identity.user_id) _ h in
      let (enabled, h2) = >>-ok_inv (ensure user.mfa_enabled _) _ h1 in
      let (secret, kept, h3) =
        >>=-ok_inv (ok_or user.mfa_totp_secret (internal "MFA secret missing")) _ h2 in
      let (valid, checked, h4) =
        >>=-ok_inv (verify_totp third_party secret entered (timestamp now)) _ h3 in
      let (passed, h5) = >>-ok_inv (ensure valid _) _ h4 in
      subst AllEnrolled (ap (λ p. p.1) (ok_injective h5)) (
        log_mfa-AllEnrolled "mfa_disable" identity (set_users identity.user_id set_disabled db) (
          set_users-AllEnrolled db identity.user_id set_disabled
            (λ u m e. record { has_secret = λ on. ground arith; few_codes = omega arith }) all))

  either-AllEnrolled :
      (b : Bool) (db db' : Db)
      → AllEnrolled db
      → AllEnrolled db'
      → AllEnrolled (if b then db else db')
  either-AllEnrolled true db db' all all' = all
  either-AllEnrolled false db db' all all' = all'

  challenges-AllEnrolled :
      (updated : Bool) (now : Time) (db : Db) (token entered : String) (token_id : Uuid)
      {reply : LoginResponse} {db' : Db}
      → mfa_challenge third_party config now updated db token entered token_id ≡ ok (reply, db')
      → AllEnrolled db
      → AllEnrolled db'
  challenges-AllEnrolled updated now db token entered token_id h all =
      let (_, user, _, _, _, _, user_mem, _, passes, _) =
        mfa_challenge_sound third_party config now updated db token entered token_id h in
      elim passes [
        | inl (_, same) ↦ subst AllEnrolled (sym same) all
        | inr (_, (i, _, same)) ↦
            let few = (all user user_mem).few_codes in
            let removed =
              set_users-AllEnrolled db user.id (set_hashes (remove i user.mfa_recovery_code_hashes))
                (λ u m e. record {
                  has_secret = e.has_secret;
                  few_codes = omega (arith, few, length-remove i user.mfa_recovery_code_hashes);
                })
                all in
            subst AllEnrolled (sym same) (either-AllEnrolled updated _ db removed all)
      ]

  step-AllEnrolled : {db db' : Db} → MfaStep db db' → AllEnrolled db → AllEnrolled db'
  step-AllEnrolled (sets_up now db db' identity bytes segments setup h) all =
      sets_up-AllEnrolled now db identity bytes segments h all
  step-AllEnrolled (verifies now db db' identity entered on h) all =
      verifies-AllEnrolled now db identity entered h all
  step-AllEnrolled (disables now db db' identity entered on h) all =
      disables-AllEnrolled now db identity entered h all
  step-AllEnrolled (challenges updated now db db' token entered token_id reply h) all =
      challenges-AllEnrolled updated now db token entered token_id h all

  -- Whatever MFA handlers run, in any order and number: where every user was enrolled before, every
  -- user with MFA has a TOTP secret afterwards, and at most eight recovery codes.
  pub history-AllEnrolled : {db db' : Db} → MfaHistory db db' → AllEnrolled db → AllEnrolled db'
  history-AllEnrolled starts all = all
  history-AllEnrolled (continues before step) all =
      step-AllEnrolled step (history-AllEnrolled before all)
