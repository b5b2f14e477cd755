-- ===== src/Auth/Challenge.antt =====
-- The MFA challenge: who passes it, and that a recovery code serves once.
use mathlib.Core.Path.{subst}
use text.Mathlib.Text.{◌==◌ as str_eq}
use publaryn.Prelude.{
  ℕ, suc, ◌≡◌, refl, sym, ap, ◌∙◌, ◌⊎◌, inl, inr, String, Bool, true, false, not, ◌&&◌, none, some,
  List, [], ◌∷◌, Memᴰ, contains, arith, Bool-cases, Option-cases, eq_iff, ==_iff, if◌then◌else◌,
  and_parts, not-true_inv,
}
use publaryn.Error.{
  Result, ok, err, >>=-ok_inv, >>-ok_inv, ensure, ensure-ok_inv, ok_or-ok_inv, ok_injective,
}
use publaryn.Query.{◌>>=◌, ◌>>◌, row, fetch_optional, fetch-mem, bind-mem_inv, only-mem_inv}
use publaryn.Access.Rows.{row_inv}
use publaryn.Query.Update.{update_where}
use publaryn.Db.{Db, Uuid, Time, User}
use publaryn.Auth.Credentials.{Credentials, TokenClaims, timestamp}
use publaryn.Auth.Mfa.{position, verify_recovery_code, verify_totp}
use publaryn.Auth.Sessions.{
  AuthConfig, LoginResponse, remove, users_by_id, user_row, set_users, set_hashes, is_user,
  validate_token, session_for, mfa_challenge, mfa_pending, relabel, use_recovery_code,
}

-- No text occurs twice.
abbrev pub all_distinct : List String → Bool
all_distinct [] = true
all_distinct (h ∷ hs) = not (contains hs h) && all_distinct hs

position-none : (c : String) (hs : List String) → contains hs c ≡ false → position c hs ≡ none
unfolding position
position-none c [] absent = refl
position-none c (h ∷ hs) absent = ground (arith, position-none c hs)

pub position-remove :
    (c : String) (hs : List String) (i : ℕ)
    → all_distinct hs ≡ true
    → position c hs ≡ some i
    → position c (remove i hs) ≡ none
unfolding position remove
position-remove c [] i apart found = ground arith
position-remove c (h ∷ hs) i apart found = elim (Bool-cases (str_eq h c)) [
  | inl hit ↦
      let first : 0 ≡ i = ground arith in
      let same : h ≡ c = (eq_iff h c).0 hit in
      subst (λ k. position c (remove k (h ∷ hs)) ≡ none) first
        (position-none c hs (rw (← same) (not-true_inv _ (and_parts _ _ apart).0)))
  | inr miss ↦ elim (Option-cases (position c hs)) [
    | inl nowhere ↦ absurd (ground arith)
    | inr (k, later) ↦
        let next : suc k ≡ i = ground arith in
        let gone = position-remove c hs k (and_parts _ _ apart).1 later in
        subst (λ j. position c (remove j (h ∷ hs)) ≡ none) next (rw (miss, gone) refl)
  ]
]

module _ (id : Uuid) (set : User → User) (kept : (v : User) → (set v).id ≡ v.id) where
  first_user-set :
      (us : List User) {u : User}
      → fetch_optional (us >>= λ v. is_user id v >> row v) ≡ some u
      → fetch_optional (update_where (is_user id) set us >>= λ v. is_user id v >> row v)
        ≡ some (set u)
  unfolding ◌>>=◌ update_where
  first_user-set [] h = ground arith
  first_user-set (v ∷ vs) {u} h = elim (Bool-cases (is_user id v)) [
    | inl hit ↦
        let still : is_user id (set v) ≡ true = rw (kept v) hit in
        let same : v ≡ u = ground arith in rw (hit, still) (ap (λ w. some (set w)) same)
    | inr miss ↦ rw (miss, miss) (first_user-set vs (rw miss at h))
  ]

  -- The first row of an id, after an update of the rows of that id.
  pub users_by_id-set_users :
      (db : Db) {u : User}
      → fetch_optional (users_by_id db id) ≡ some u
      → fetch_optional (users_by_id (set_users id set db) id) ≡ some (set u)
  unfolding users_by_id
  users_by_id-set_users db found = first_user-set db.users found

users_by_id-inv :
    (db : Db) (id : Uuid) {u : User}
    → fetch_optional (users_by_id db id) ≡ some u
    → Memᴰ u db.users × (u.id ≡ id)
unfolding users_by_id
users_by_id-inv db id {u} h =
    let (x, x_mem, m) = bind-mem_inv db.users _ (fetch-mem _ h) in
    let (hit, here) = only-mem_inv (is_user id x) _ m in
    let same = row_inv here in (rw same x_mem, rw same ((==_iff _ _).0 hit))

module _ (third_party : Credentials) (config : AuthConfig) (now : Time) where
  relabel-ok_inv :
      (r : Result TokenClaims) {claims : TokenClaims}
      → relabel third_party config now r ≡ ok claims
      → r ≡ ok claims
  unfolding relabel
  relabel-ok_inv (err e) h = ground arith
  relabel-ok_inv (ok c) h = h

  -- The entered code is the TOTP code of the moment and nothing changes, or it is the recovery code
  -- at some index, which is removed where the UPDATE goes through.
  abbrev pub Passes : Bool → Db → User → String → String → Db → Type 0
  Passes updated db user secret entered db' =
      ((verify_totp third_party secret entered (timestamp now) ≡ ok true) × (db' ≡ db))
      ⊎ ((verify_totp third_party secret entered (timestamp now) ≡ ok false)
          × ((i : ℕ) × (verify_recovery_code third_party entered user.mfa_recovery_code_hashes
                ≡ some i)
              × (db' ≡ (
                  if updated
                  then set_users user.id (set_hashes (remove i user.mfa_recovery_code_hashes)) db
                  else db))))

  second_factor :
      (updated : Bool) (db : Db) (user : User) (id : Uuid) (secret entered : String)
      (totp_valid : Bool) {db' : Db}
      → user.id ≡ id
      → verify_totp third_party secret entered (timestamp now) ≡ ok totp_valid
      → (if totp_valid
          then ok db
          else use_recovery_code third_party config now updated db id user.mfa_recovery_code_hashes
              (verify_recovery_code third_party entered user.mfa_recovery_code_hashes))
        ≡ ok db'
      → Passes updated db user secret entered db'
  unfolding use_recovery_code
  second_factor updated db user id secret entered true same checked h =
      inl (checked, sym (ok_injective h))
  second_factor updated db user id secret entered false same checked h =
      elim (Option-cases (verify_recovery_code third_party entered user.mfa_recovery_code_hashes)) [
        | inl unknown ↦ absurd (ground arith)
        | inr (i, found) ↦ inr (checked, (i, found, rw same (sym (ok_injective (rw found at h)))))
      ]

  -- Whoever passes the challenge holds a token of this issuer with the scope `mfa:pending`, for a
  -- user with a TOTP secret, and has entered that user's TOTP code, or a recovery code, which is
  -- removed where the UPDATE of the codes goes through; the reply is a session of that user, for the
  -- given token id.
  pub mfa_challenge_sound :
      (updated : Bool) (db : Db) (token entered : String) (token_id : Uuid) {reply : LoginResponse}
      {db' : Db}
      → mfa_challenge third_party config now updated db token entered token_id ≡ ok (reply, db')
      → (claims : TokenClaims) × (user : User) × (secret : String) × (validate_token third_party
            config now token
          ≡ ok claims)
        × (contains claims.scopes mfa_pending ≡ true)
        × (third_party.parse_uuid claims.sub ≡ some user.id)
        × Memᴰ user db.users
        × (user.mfa_totp_secret ≡ some secret)
        × Passes updated db user secret entered db'
        × (reply ≡ session_for third_party config now user.id token_id user.is_admin)
  unfolding mfa_challenge user_row
  mfa_challenge_sound updated db token entered token_id {reply} {db'} h =
      let (claims, read, h1) = >>=-ok_inv _ _ h in
      let (pending, h2) = >>-ok_inv (ensure (contains claims.scopes mfa_pending) _) _ h1 in
      let (id, parsed, h3) = >>=-ok_inv _ _ h2 in
      let (user, found, h4) = >>=-ok_inv _ _ h3 in
      let (secret, kept, h5) = >>=-ok_inv _ _ h4 in
      let (totp_valid, checked, h6) = >>=-ok_inv _ _ h5 in
      let (after, passed, h7) = >>=-ok_inv _ _ h6 in
      let (user_mem, same) = users_by_id-inv db id (ok_or-ok_inv _ _ found) in
      let answer = ok_injective h7 in
      (
        claims,
        user,
        secret,
        relabel-ok_inv _ read,
        ensure-ok_inv _ _ pending,
        ok_or-ok_inv _ _ parsed ∙ ap (λ j. some j) (sym same),
        user_mem,
        ok_or-ok_inv _ _ kept,
        subst (λ d. Passes updated db user secret entered d) (ap (λ p. p.1) answer)
            (second_factor updated db user id secret entered totp_valid same checked passed),
        rw same (sym (ap (λ p. p.0) answer)),
      )
