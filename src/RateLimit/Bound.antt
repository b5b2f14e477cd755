-- ===== src/RateLimit/Bound.antt =====
-- The entry of a key after `check_rate_limit` of crates/api/src/rate_limit.rs.
use publaryn.Prelude.{
  ℕ, ◌+◌, ◌≤◌, ◌<◌, ◌≡◌, ◌≢◌, refl, ap, ◌∙◌, ◌⊎◌, inl, inr, String, false, Option, none, some,
  arith, ltb, ◌==◌, Bool-cases,
}
use publaryn.RateLimit.Redis.{Redis, Entry, Documented, is_gone, number_at, counted}
use publaryn.RateLimit.Middleware.{
  RateLimitResult, expire_first, after_incr, check_rate_limit, seconds_left,
}

-- A request was counted at the time: its key expires as before, or a minute later.
abbrev pub IsNext : Entry → Entry → ℕ → Type 0
IsNext e e' now =
    (e'.number ≡ e.number + 1) × ((e'.deadline ≡ e.deadline) ⊎ (e'.deadline ≡ some (now + 60)))

unfoldable pub Checked : Entry → Entry → ℕ → ℕ → RateLimitResult → Type 0
Checked e e' now limit result =
    (IsNext e e' now
      × (result ≡ RateLimitResult.allowed (e.number + 1) limit)
      × (e.number + 1 ≤ limit))
    ⊎ (IsNext e e' now
        × ((left : ℕ) × (result ≡ RateLimitResult.exceeded limit left))
        × (limit < e.number + 1))
    ⊎ ((IsNext e e' now ⊎ (e' ≡ e)) × (result ≡ RateLimitResult.redis_error))

counted-IsNext :
    (e e' : Entry) (now : ℕ) → is_gone e.deadline now ≡ false → e' ≡ counted e now → IsNext e e' now
counted-IsNext e e' now live same =
    (ap (λ x. x.number) same ∙ rw live refl, inl (ap (λ x. x.deadline) same ∙ rw live refl))

module _ (redis : Redis) (documented : Documented redis) where
  sets-IsNext :
      (mid e e' : Entry) (now : ℕ)
      → is_gone e.deadline now ≡ false
      → mid ≡ counted e now
      → e' ≡ record { number = number_at mid now; deadline = some (now + 60) }
      → IsNext e e' now
  sets-IsNext mid e e' now live same sets =
      let numbered : number_at mid now ≡ e.number + 1 = rw (same, live, live) refl in
      (ap (λ x. x.number) sets ∙ numbered, inr (ap (λ x. x.deadline) sets))

  first-IsNext :
      (s : redis.State) (now : ℕ) (key : String) (e : Entry) (count : ℕ)
      → is_gone e.deadline now ≡ false
      → documented.entry s key ≡ counted e now
      → IsNext e (documented.entry (expire_first redis s now key count) key) now
  first-IsNext s now key e count live same = elim (Bool-cases (count == 1)) [
    | inl h ↦ rw h (elim (documented.expire_sets s now key 60) [
      | inl sets ↦ sets-IsNext (documented.entry s key) e _ now live same sets
      | inr fails ↦ counted-IsNext e _ now live (fails ∙ same)
    ])
    | inr h ↦ rw h (counted-IsNext e _ now live same)
  ]

  after_incr-Checked :
      (s s' : redis.State) (now : ℕ) (key : String) (limit : ℕ) (reply : Option ℕ)
      → is_gone (documented.entry s key).deadline now ≡ false
      → redis.incr s now key ≡ (reply, s')
      → Checked
          (documented.entry s key)
          (documented.entry (after_incr redis s' now key limit reply).1 key)
          now
          limit
          (after_incr redis s' now key limit reply).0
  unfolding Checked
  after_incr-Checked s s' now key limit none live h = inr (
      inr (
        elim (documented.incr_fails s now key h) [
          | inl done ↦ inl (counted-IsNext _ _ now live done)
          | inr missed ↦ inr missed
        ],
        refl,
      ))
  after_incr-Checked s s' now key limit (some count) live h =
      let (counts, done) = documented.incr_returns s now key h in
      let numbered : count ≡ (documented.entry s key).number + 1 = counts ∙ rw live refl in
      let next = first-IsNext s' now key (documented.entry s key) count live done in
      elim (Bool-cases (ltb limit count)) [
        | inl over ↦ inr (
            inl (
              next,
              (
                seconds_left (redis.ttl (expire_first redis s' now key count) now key),
                rw over refl,
              ),
              ground arith,
            ))
        | inr within ↦ inl (next, rw (within, numbered) refl, ground arith)
      ]

  pub check-Checked :
      (s : redis.State) (now : ℕ) (key : String) (limit : ℕ)
      → is_gone (documented.entry s key).deadline now ≡ false
      → Checked
          (documented.entry s key)
          (documented.entry (check_rate_limit redis s now key limit).1 key)
          now
          limit
          (check_rate_limit redis s now key limit).0
  unfolding check_rate_limit
  check-Checked s now key limit live =
      let reply = redis.incr s now key in
      after_incr-Checked s reply.1 now key limit reply.0 live refl

  after_incr-others :
      (s : redis.State) (now : ℕ) (key other : String) (limit : ℕ) (reply : Option ℕ)
      → other ≢ key
      → documented.entry (after_incr redis s now key limit reply).1 other ≡ documented.entry s other
  after_incr-others s now key other limit none differs = refl
  after_incr-others s now key other limit (some count) differs = elim (Bool-cases (count == 1)) [
    | inl h ↦ rw h (documented.expire_others s now key other 60 differs)
    | inr h ↦ rw h refl
  ]

  pub check-others :
      (s : redis.State) (now : ℕ) (key other : String) (limit : ℕ)
      → other ≢ key
      → documented.entry (check_rate_limit redis s now key limit).1 other ≡ documented.entry s other
  unfolding check_rate_limit
  check-others s now key other limit differs =
      let reply = redis.incr s now key in
      after_incr-others reply.1 now key other limit reply.0 differs
      ∙ documented.incr_others s now key other differs
