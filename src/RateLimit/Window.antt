-- ===== src/RateLimit/Window.antt =====
-- The requests of one minute under crates/api/src/rate_limit.rs.
use mathlib.Core.Path.{subst}
use text.Mathlib.Text.{◌==◌ as str_eq}
use publaryn.Prelude.{
  ℕ, ◌+◌, ◌-◌, ◌≤◌, ◌<◌, ◌≡◌, ◌≢◌, refl, sym, ap, ◌⊎◌, inl, inr, String, true, false, ◌&&◌, none,
  some, List, [], ◌∷◌, Memᴰ, arith, Bool-cases, eq_iff,
}
use publaryn.RateLimit.Redis.{Redis, Entry, Documented}
use publaryn.RateLimit.Middleware.{
  RateLimitTier, RateLimitConfig, RateLimitResult, Request, Response, classify_request,
  max_requests, redis_key, window, check_rate_limit, respond, rate_limit_middleware, serve,
}
use publaryn.RateLimit.Bound.{IsNext, Checked, check-Checked, check-others}
use publaryn.RateLimit.Log.{
  is_tier, is_tier-max_requests, one_if, is_admitted, is_refused, is_from, admitted, refused, asked,
}
use publaryn.RateLimit.Kept.{IsKept, kept-live, Checked-IsKept}

-- What the rest of the log may hold, from the number that the key has.
abbrev IsBounded : ℕ → ℕ → (admits refuses asks : ℕ) → Type 0
IsBounded limit number admits refuses asks =
    (admits ≤ limit - number) × (refuses ≤ asks) × (refuses ≤ number + asks - limit)

unchanged :
    (limit n admits refuses asks : ℕ)
    → IsBounded limit n admits refuses asks
    → IsBounded limit n (0 + admits) (0 + refuses) (0 + asks)
unchanged limit n admits refuses asks (a, b, c) =
    (omega (arith, a), omega (arith, b), omega (arith, c))

weaker :
    (limit n n' admits refuses asks : ℕ)
    → n ≤ n'
    → n' ≤ n + 1
    → IsBounded limit n' admits refuses asks
    → IsBounded limit n (0 + admits) (0 + refuses) (1 + asks)
weaker limit n n' admits refuses asks low high (a, b, c) =
    (omega (arith, low, high, a), omega (arith, b), omega (arith, low, high, c))

one_admitted :
    (limit n n' admits refuses asks : ℕ)
    → n' ≡ n + 1
    → n + 1 ≤ limit
    → IsBounded limit n' admits refuses asks
    → IsBounded limit n (1 + admits) (0 + refuses) (1 + asks)
one_admitted limit n n' admits refuses asks next within (a, b, c) =
    (omega (arith, next, within, a), omega (arith, b), omega (arith, next, c))

one_refused :
    (limit n n' admits refuses asks : ℕ)
    → n' ≡ n + 1
    → limit < n + 1
    → IsBounded limit n' admits refuses asks
    → IsBounded limit n (0 + admits) (1 + refuses) (1 + asks)
one_refused limit n n' admits refuses asks next over (a, b, c) =
    (omega (arith, next, a), omega (arith, b), omega (arith, next, over, b))

error_number :
    (e e' : Entry) (now : ℕ)
    → IsNext e e' now ⊎ (e' ≡ e)
    → (e.number ≤ e'.number) × (e'.number ≤ e.number + 1)
error_number e e' now (inl (next, kept)) = (omega (arith, next), omega (arith, next))
error_number e e' now (inr same) = rw same (omega arith, omega arith)

module _ (redis : Redis) (documented : Documented redis) (hash : String → String)
    (config : RateLimitConfig) (tier : RateLimitTier) (key : String) where
  -- A request with another key.
  other-IsBounded :
      (limit number admits refuses asks : ℕ) (r : Request) (response : Response)
      → str_eq (redis_key hash r) key ≡ false
      → IsBounded limit number admits refuses asks
      → IsBounded limit number
          (one_if (is_from hash tier key r && is_admitted response) + admits)
          (one_if (is_from hash tier key r && is_refused response) + refuses)
          (one_if (str_eq (redis_key hash r) key) + asks)
  other-IsBounded limit number admits refuses asks r response other bounded =
      elim (Bool-cases (is_tier (classify_request r.method r.path) tier)) [
        | inl hit ↦ rw (other, hit) (unchanged limit number admits refuses asks bounded)
        | inr miss ↦ rw (other, miss) (unchanged limit number admits refuses asks bounded)
      ]

  Checked-IsBounded :
      (e e' : Entry) (admits refuses asks : ℕ) (r : Request) (result : RateLimitResult)
      → str_eq (redis_key hash r) key ≡ true
      → Checked e e' r.timestamp (max_requests (classify_request r.method r.path) config) result
      → IsBounded (max_requests tier config) e'.number admits refuses asks
      → IsBounded
          (max_requests tier config)
          e.number
          (one_if (is_from hash tier key r && is_admitted (respond result)) + admits)
          (one_if (is_from hash tier key r && is_refused (respond result)) + refuses)
          (one_if (str_eq (redis_key hash r) key) + asks)
  unfolding Checked
  Checked-IsBounded e e' admits refuses asks r result here (inl ((next, kept), is, within))
        bounded =
      elim (Bool-cases (is_tier (classify_request r.method r.path) tier)) [
        | inl hit ↦
            let limits = is_tier-max_requests _ tier config hit in
            rw (is, here, hit)
              (one_admitted (max_requests tier config) e.number e'.number admits refuses asks next
                (rw limits at within) bounded)
        | inr miss ↦
            rw (is, here, miss)
              (weaker (max_requests tier config) e.number e'.number admits refuses asks
                (omega (arith, next)) (omega (arith, next)) bounded)
      ]
  Checked-IsBounded e e' admits refuses asks r result here
        (inr (inl ((next, kept), (left, is), over))) bounded =
      elim (Bool-cases (is_tier (classify_request r.method r.path) tier)) [
        | inl hit ↦
            let limits = is_tier-max_requests _ tier config hit in
            rw (is, here, hit)
              (one_refused (max_requests tier config) e.number e'.number admits refuses asks next
                (rw limits at over) bounded)
        | inr miss ↦
            rw (is, here, miss)
              (weaker (max_requests tier config) e.number e'.number admits refuses asks
                (omega (arith, next)) (omega (arith, next)) bounded)
      ]
  Checked-IsBounded e e' admits refuses asks r result here (inr (inr (maybe, is))) bounded =
      let (low, high) = error_number e e' r.timestamp maybe in
      let counted_or_not =
        weaker (max_requests tier config) e.number e'.number admits refuses asks low high bounded in
      elim (Bool-cases (is_tier (classify_request r.method r.path) tier)) [
        | inl hit ↦ rw (is, here, hit) counted_or_not
        | inr miss ↦ rw (is, here, miss) counted_or_not
      ]

  differ : (r : Request) → str_eq (redis_key hash r) key ≡ false → key ≢ redis_key hash r
  differ r other same =
      let equal = (eq_iff (redis_key hash r) key).1 (sym same) in absurd (ground arith)

  serve-first :
      (r : Request) (requests : List Request) (s : redis.State)
      → config.enabled ≡ true
      → serve redis hash config (some s) (r ∷ requests)
        ≡ (
          r,
          respond
              (check_rate_limit redis s r.timestamp
                (redis_key hash r)
                (max_requests (classify_request r.method r.path) config)).0,
        )
          ∷ serve redis hash config
              (some
                (check_rate_limit redis s r.timestamp
                  (redis_key hash r)
                  (max_requests (classify_request r.method r.path) config)).1)
              requests
  unfolding serve rate_limit_middleware
  serve-first r requests s enabled = simp enabled refl

  -- The requests of a minute from a state whose number of the key is kept through the minute.
  serve-IsBounded :
      (requests : List Request) (s : redis.State) (w : ℕ)
      → config.enabled ≡ true
      → IsKept (documented.entry s key) w
      → ((r : Request) → Memᴰ r requests → window r ≡ w)
      → IsBounded
          (max_requests tier config)
          (documented.entry s key).number
          (admitted hash tier key (serve redis hash config (some s) requests))
          (refused hash tier key (serve redis hash config (some s) requests))
          (asked hash tier key requests)
  unfolding serve admitted refused asked
  serve-IsBounded [] s w enabled kept inside = (omega arith, omega arith, omega arith)
  serve-IsBounded (r ∷ requests) s w enabled kept inside =
      let limit = max_requests (classify_request r.method r.path) config in
      let checked = check_rate_limit redis s r.timestamp (redis_key hash r) limit in
      let log = serve redis hash config (some checked.1) requests in
      let in_window = inside r (Memᴰ.head refl) in
      let later : (x : Request) → Memᴰ x requests → window x ≡ w = λ x m. inside x (Memᴰ.tail m) in
      subst
        (λ log.
          IsBounded (max_requests tier config) (documented.entry s key).number
            (admitted hash tier key log) (refused hash tier key log)
            (asked hash tier key (r ∷ requests)))
        (sym (serve-first r requests s enabled))
        (elim (Bool-cases (str_eq (redis_key hash r) key)) [
          | inl here ↦
              let is =
                subst
                  (λ k.
                    Checked (documented.entry s key)
                      (documented.entry (check_rate_limit redis s r.timestamp k limit).1 key)
                      r.timestamp limit (check_rate_limit redis s r.timestamp k limit).0)
                  (sym ((eq_iff _ _).0 here))
                  (check-Checked redis documented s r.timestamp key limit
                    (kept-live (documented.entry s key) w r kept in_window)) in
              Checked-IsBounded (documented.entry s key) (documented.entry checked.1 key) _ _ _ r
                checked.0 here is
                (serve-IsBounded requests checked.1 w enabled
                  (Checked-IsKept (documented.entry s key) (documented.entry checked.1 key) w r
                    limit checked.0 kept in_window is)
                  later)
          | inr other ↦
              let same =
                check-others redis documented s r.timestamp (redis_key hash r) key limit
                  (differ r other) in
              other-IsBounded (max_requests tier config) (documented.entry s key).number _ _ _ r
                (respond checked.0) other
                (subst
                  (λ e.
                    IsBounded (max_requests tier config) e.number (admitted hash tier key log)
                      (refused hash tier key log) (asked hash tier key requests))
                  same (serve-IsBounded requests checked.1 w enabled (rw same kept) later))
        ])

-- Of the requests of one minute, in any order and mixed with any others of the minute, that have
-- a tier and a key which Redis does not hold at first: with the limits enabled, at most the
-- tier's number are counted and let pass, also where some calls of Redis fail, and of n requests
-- with the key at most n less that number (or none) are refused.
pub serve-bounded :
    (redis : Redis) (documented : Documented redis) (hash : String → String)
    (config : RateLimitConfig) (tier : RateLimitTier) (key : String) (s : redis.State)
    (requests : List Request) (minute : ℕ)
    → config.enabled ≡ true
    → documented.entry s key ≡ record { number = 0; deadline = none }
    → ((r : Request) → Memᴰ r requests → window r ≡ minute)
    → (admitted hash tier key (serve redis hash config (some s) requests)
        ≤ max_requests tier config)
      × (refused hash tier key (serve redis hash config (some s) requests)
          ≤ asked hash tier key requests - max_requests tier config)
serve-bounded redis documented hash config tier key s requests minute enabled empty inside =
    let none_yet : (documented.entry s key).number ≡ 0 = ap (λ e. e.number) empty in
    let kept : IsKept (documented.entry s key) minute = λ d is. absurd (no_deadline d is) in
    let (a, b, c) =
      serve-IsBounded redis documented hash config tier key requests s minute enabled kept inside in
    (omega (arith, a), omega (arith, none_yet, c))
  where
    no_deadline : (d : ℕ) → (documented.entry s key).deadline ≡ some d → ⊥
    no_deadline d is = let nowhere = ap (λ e. e.deadline) empty in ground arith
