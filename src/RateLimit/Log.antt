-- ===== src/RateLimit/Log.antt =====
-- The requests of a tier with a key in a log of crates/api/src/rate_limit.rs.
use text.Mathlib.Text.{◌==◌ as str_eq}
use publaryn.Prelude.{
  ℕ, ◌+◌, ◌≡◌, refl, String, Bool, true, false, ◌&&◌, List, [], ◌∷◌, arith, if◌then◌else◌,
}
use publaryn.RateLimit.Middleware.{
  RateLimitTier, RateLimitConfig, Request, Response, classify_request, max_requests, redis_key,
}

unfoldable pub is_tier : RateLimitTier → RateLimitTier → Bool
is_tier RateLimitTier.auth RateLimitTier.auth = true
is_tier RateLimitTier.write RateLimitTier.write = true
is_tier RateLimitTier.read RateLimitTier.read = true
is_tier RateLimitTier.protocol RateLimitTier.protocol = true
is_tier _ _ = false

pub is_tier-max_requests :
    (a b : RateLimitTier) (config : RateLimitConfig)
    → is_tier a b ≡ true
    → max_requests a config ≡ max_requests b config
unfolding is_tier
is_tier-max_requests RateLimitTier.auth RateLimitTier.auth config h = refl
is_tier-max_requests RateLimitTier.auth RateLimitTier.write config h = absurd (ground arith)
is_tier-max_requests RateLimitTier.auth RateLimitTier.read config h = absurd (ground arith)
is_tier-max_requests RateLimitTier.auth RateLimitTier.protocol config h = absurd (ground arith)
is_tier-max_requests RateLimitTier.write RateLimitTier.auth config h = absurd (ground arith)
is_tier-max_requests RateLimitTier.write RateLimitTier.write config h = refl
is_tier-max_requests RateLimitTier.write RateLimitTier.read config h = absurd (ground arith)
is_tier-max_requests RateLimitTier.write RateLimitTier.protocol config h = absurd (ground arith)
is_tier-max_requests RateLimitTier.read RateLimitTier.auth config h = absurd (ground arith)
is_tier-max_requests RateLimitTier.read RateLimitTier.write config h = absurd (ground arith)
is_tier-max_requests RateLimitTier.read RateLimitTier.read config h = refl
is_tier-max_requests RateLimitTier.read RateLimitTier.protocol config h = absurd (ground arith)
is_tier-max_requests RateLimitTier.protocol RateLimitTier.auth config h = absurd (ground arith)
is_tier-max_requests RateLimitTier.protocol RateLimitTier.write config h = absurd (ground arith)
is_tier-max_requests RateLimitTier.protocol RateLimitTier.read config h = absurd (ground arith)
is_tier-max_requests RateLimitTier.protocol RateLimitTier.protocol config h = refl

abbrev pub one_if : Bool → ℕ
one_if b = if b then 1 else 0

abbrev pub is_admitted : Response → Bool
is_admitted (Response.passes_with limit remaining) = true
is_admitted _ = false

abbrev pub is_refused : Response → Bool
is_refused (Response.too_many_requests limit retry_after) = true
is_refused _ = false

module _ (hash : String → String) (tier : RateLimitTier) (key : String) where
  abbrev pub is_from : Request → Bool
  is_from r = is_tier (classify_request r.method r.path) tier && str_eq (redis_key hash r) key

  -- How many requests of a tier with a key Redis counted and let pass, or refused.
  unfoldable pub admitted : List (Request × Response) → ℕ
  admitted [] = 0
  admitted (entry ∷ log) = one_if (is_from entry.0 && is_admitted entry.1) + admitted log

  unfoldable pub refused : List (Request × Response) → ℕ
  refused [] = 0
  refused (entry ∷ log) = one_if (is_from entry.0 && is_refused entry.1) + refused log

  -- How many requests have the key.
  unfoldable pub asked : List Request → ℕ
  asked [] = 0
  asked (r ∷ requests) = one_if (str_eq (redis_key hash r) key) + asked requests
