-- ===== src/Auth/Granted.antt =====
-- The scopes of the tokens that `create_token` of crates/api/src/routes/tokens.rs makes.
use publaryn.Prelude.{
  ap, Option-cases, ==_iff, some, ◌≡◌, refl, sym, ◌∙◌, String, Bool, true, false, not, ◌⊎◌, inl,
  inr, List, [], ◌∷◌, Memᴰ, arith, Bool-cases, cons-mem_inv, contains, find, is_some, trim_text,
  is_empty,
}
use text.Mathlib.Text.{◌==◌ as str_eq}
use publaryn.Error.{ok, >>=-ok_inv, >>-ok_inv, ok_injective, ensure, ensure-ok_inv, validation}
use publaryn.Query.{fetch_optional, ◌>>=◌, ◌>>◌, row, fetch-mem, bind-mem_inv, only-mem_inv}
use publaryn.Db.{Db, Uuid, Time, User, Token}
use publaryn.Access.Rows.{row_inv}
use publaryn.Auth.Identity.{AuthenticatedIdentity, ensure_scope}
use publaryn.Auth.Credentials.{Credentials}
use publaryn.Auth.Sessions.{AuthConfig, users_by_id, is_user}
use publaryn.Auth.Tokens.{
  CreateTokenRequest, create_api_token, is_platform_admin, log_token, hash_token, new_token,
  with_prefix, scope_tokens_write,
}
use publaryn.Auth.Scopes.{
  grantable_scopes, admin_only_scopes, str_leb, insert_sorted, sort, dedup_after, dedup,
  check_scope, check_scopes, normalize_requested_scopes, ensure_scope_grant_allowed,
}

insert_sorted-mem_inv :
    (s : String) (ts : List String) {x : String} → Memᴰ x (insert_sorted s ts) → (x ≡ s) ⊎ Memᴰ x ts
unfolding insert_sorted
insert_sorted-mem_inv s [] m = cons-mem_inv m
insert_sorted-mem_inv s (t ∷ ts) m = elim (Bool-cases (str_leb s t)) [
  | inl before ↦ cons-mem_inv (rw before at m)
  | inr after ↦ elim (cons-mem_inv (rw after at m)) [
    | inl e ↦ inr (Memᴰ.head e)
    | inr n ↦ elim (insert_sorted-mem_inv s ts n) [ inl e ↦ inl e | inr o ↦ inr (Memᴰ.tail o) ]
  ]
]

sort-mem_inv : (ss : List String) {x : String} → Memᴰ x (sort ss) → Memᴰ x ss
unfolding sort
sort-mem_inv [] m = elim m [ ]
sort-mem_inv (s ∷ ss) m = elim (insert_sorted-mem_inv s (sort ss) m) [
  | inl e ↦ Memᴰ.head e
  | inr n ↦ Memᴰ.tail (sort-mem_inv ss n)
]

dedup_after-mem_inv :
    (kept : String) (ss : List String) {x : String} → Memᴰ x (dedup_after kept ss) → Memᴰ x ss
unfolding dedup_after
dedup_after-mem_inv kept [] m = elim m [ ]
dedup_after-mem_inv kept (s ∷ ss) m = elim (Bool-cases (str_eq s kept)) [
  | inl same ↦ Memᴰ.tail (dedup_after-mem_inv kept ss (rw same at m))
  | inr other ↦ elim (cons-mem_inv (rw other at m)) [
    | inl e ↦ Memᴰ.head e
    | inr n ↦ Memᴰ.tail (dedup_after-mem_inv s ss n)
  ]
]

dedup-mem_inv : (ss : List String) {x : String} → Memᴰ x (dedup ss) → Memᴰ x ss
unfolding dedup
dedup-mem_inv [] m = elim m [ ]
dedup-mem_inv (s ∷ ss) m = elim (cons-mem_inv m) [
  | inl e ↦ Memᴰ.head e
  | inr n ↦ Memᴰ.tail (dedup_after-mem_inv s ss n)
]

check_scope-ok_inv :
    (s : String) {t : String}
    → check_scope s ≡ ok t
    → (t ≡ s) × (contains grantable_scopes s ≡ true)
unfolding check_scope
check_scope-ok_inv s h =
    let (_, h1) =
      >>-ok_inv
        (ensure (not (is_empty s)) (validation "Token scopes must not contain empty values")) _ h in
    let (listed, h2) =
      >>-ok_inv (ensure (contains grantable_scopes s) (validation "Unknown token scope")) _ h1 in
    (sym (ok_injective h2), ensure-ok_inv _ _ listed)

-- What is checked is asked for, trimmed, and can be granted.
check_scopes-mem_inv :
    (asked : List String) {checked : List String} {x : String}
    → check_scopes asked ≡ ok checked
    → Memᴰ x checked
    → ((s : String) × Memᴰ s asked × (x ≡ trim_text s)) × (contains grantable_scopes x ≡ true)
unfolding check_scopes
check_scopes-mem_inv [] {checked} h m =
    let none_left = ok_injective h in elim (rw (← none_left) at m) [ ]
check_scopes-mem_inv (s ∷ ss) {checked} h m =
    let (t, checks, h1) = >>=-ok_inv (check_scope (trim_text s)) _ h in
    let (rest, rests, h2) = >>=-ok_inv (check_scopes ss) _ h1 in
    let same = ok_injective h2 in
    let (is_s, listed) = check_scope-ok_inv (trim_text s) checks in
    elim (cons-mem_inv (rw (← same) at m)) [
      | inl e ↦ ((s, Memᴰ.head refl, e ∙ is_s), rw (e ∙ is_s) listed)
      | inr n ↦
          let ((k, k_mem, is_k), known) = check_scopes-mem_inv ss rests n in
          ((k, Memᴰ.tail k_mem, is_k), known)
    ]

find-none :
    (p : String → Bool) (ss : List String) {s : String}
    → Memᴰ s ss
    → is_some (find p ss) ≡ false
    → p s ≡ false
find-none p [] m h = elim m [ ]
find-none p (t ∷ ts) (Memᴰ.head e) h = rw e (ground arith)
find-none p (t ∷ ts) (Memᴰ.tail m) h = find-none p ts m (ground arith)

granted_scopes :
    (asked granted : List String) (is_admin : Bool)
    → normalize_requested_scopes asked ≡ ok granted
    → ensure_scope_grant_allowed granted is_admin ≡ ok tt
    → (scope : String) → Memᴰ scope granted
    → ((s : String) × Memᴰ s asked × (scope ≡ trim_text s))
      × (contains grantable_scopes scope ≡ true)
      × (is_admin ≡ false → contains admin_only_scopes scope ≡ false)
unfolding normalize_requested_scopes ensure_scope_grant_allowed
granted_scopes [] granted admin h allowed scope m = absurd (ground arith)
granted_scopes (s ∷ ss) granted admin h allowed scope m =
    let (checked, checks, h1) = >>=-ok_inv (check_scopes (s ∷ ss)) _ h in
    let same = ok_injective h1 in
    let (from_asked, listed) =
      check_scopes-mem_inv (s ∷ ss) checks
        (sort-mem_inv checked (dedup-mem_inv (sort checked) (rw (← same) at m))) in
    let passes = ensure-ok_inv _ _ allowed in
    (from_asked, listed, λ plain. find-none (contains admin_only_scopes) granted m (ground arith))

-- No active user of this id is an administrator.
abbrev pub IsPlain : Db → Uuid → Type 0
IsPlain db user_id =
    (u : User) → Memᴰ u db.users → u.id ≡ user_id → u.is_active ≡ true → u.is_admin ≡ false

is_platform_admin-plain :
    (db : Db) (user_id : Uuid) → IsPlain db user_id → is_platform_admin db user_id ≡ false
unfolding is_platform_admin users_by_id
is_platform_admin-plain db user_id plain =
    let flags = users_by_id db user_id >>= λ u. u.is_active >> row u.is_admin in
    elim (Option-cases (fetch_optional flags)) [
      | inl nobody ↦ rw nobody refl
      | inr (is_admin, here) ↦
          let (u, u_mem, m) = bind-mem_inv (users_by_id db user_id) _ (fetch-mem flags here) in
          let (v, v_mem, n) = bind-mem_inv db.users _ u_mem in
          let (hit, is_u) = only-mem_inv (is_user user_id v) _ n in
          let (active, is_flag) = only-mem_inv u.is_active _ m in
          let same = row_inv is_u in
          let flag = row_inv is_flag in
          let no_admin = plain u (rw same v_mem) (rw same ((==_iff _ _).0 hit)) active in
          rw (here, flag, no_admin) refl
    ]

module _ (third_party : Credentials) (config : AuthConfig) where
  -- `create_api_token` asks for the scope `tokens:write`, and stores a token of the caller with the
  -- hash of the text that it answers. Each scope of that token was asked for, up to white space, and
  -- is one of the grantable scopes; where the caller is no active platform administrator it is none
  -- of the administrators' scopes.
  pub create_api_token-granted :
      (now : Time) (db : Db) (identity : AuthenticatedIdentity) (body : CreateTokenRequest)
      (random_hex : String) (id : Uuid) (raw : String) (db' : Db)
      → create_api_token third_party config now db identity body random_hex id ≡ ok (raw, db')
      → (contains identity.scopes "tokens:write" ≡ true)
        × ((t : Token) × (db'.tokens ≡ t ∷ db.tokens)
            × (t.user_id ≡ some identity.user_id)
            × (t.token_hash ≡ third_party.sha256_hex raw)
            × ((scope : String)
                → Memᴰ scope t.scopes
                → ((s : String) × Memᴰ s body.scopes × (scope ≡ trim_text s))
                  × (contains grantable_scopes scope ≡ true)
                  × (IsPlain db identity.user_id → contains admin_only_scopes scope ≡ false)))
  unfolding create_api_token log_token hash_token ensure_scope
  create_api_token-granted now db identity body random_hex id raw db' h =
      let (scoped, h1) = >>-ok_inv (ensure_scope identity scope_tokens_write) _ h in
      let (scopes, asked, h2) = >>=-ok_inv (normalize_requested_scopes body.scopes) _ h1 in
      let admin = is_platform_admin db identity.user_id in
      let (allowed, h3) = >>-ok_inv (ensure_scope_grant_allowed scopes admin) _ h2 in
      let answer = ok_injective h3 in
      let text = ap (λ p. p.0) answer in
      (
        ensure-ok_inv _ _ scoped,
        (
          new_token now identity body (third_party.sha256_hex (with_prefix random_hex)) scopes id,
          sym (ap (λ p. p.1.tokens) answer),
          refl,
          ap third_party.sha256_hex text,
          λ scope m.
              let (from_asked, listed, plain) =
                granted_scopes body.scopes scopes admin asked allowed scope m in
              (
                from_asked,
                listed,
                λ is_plain. plain (is_platform_admin-plain db identity.user_id is_plain),
              ),
        ),
      )
