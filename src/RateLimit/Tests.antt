-- ===== src/RateLimit/Tests.antt =====
-- The rate limits over a store in memory: the third read of a minute is refused where two are
-- allowed.
use text.Mathlib.Text.{◌==◌ as str_eq}
use publaryn.Prelude.{
  ℕ, ◌+◌, ◌-◌, ◌≤◌, ◌≡◌, ◌≢◌, refl, sym, ap, ◌∙◌, some_injective, inl, inr, String, true, Option,
  none, some, List, [], ◌∷◌, Memᴰ, arith, if◌then◌else◌, Bool-cases, eq_iff,
}
use publaryn.RateLimit.Decimal.{to_string, digits}
use publaryn.RateLimit.Redis.{Redis, ℤ, Entry, Documented, number_at, counted}
use publaryn.RateLimit.Middleware.{
  RateLimitTier, RateLimitConfig, Request, Response, Method, classify_request, redis_key, window,
  prefix, extract_key, check_rate_limit, rate_limit_middleware, serve,
}
use publaryn.Auth.Tokens.{starts_with}
use publaryn.RateLimit.Log.{admitted, refused, asked}
use publaryn.RateLimit.Window.{serve-bounded}

abbrev store : (String → Entry) → String → Entry → String → Entry
store s k e j = if str_eq j k then e else s j

abbrev seconds_until : Option ℕ → ℕ → ℤ
seconds_until none now = ℤ.negsuc 0
seconds_until (some deadline) now = ℤ.pos (deadline - now)

abbrev in_memory : Redis
in_memory = record {
  State = String → Entry;
  incr = λ s now k. (some (number_at (s k) now + 1), store s k (counted (s k) now));
  expire = λ s now k seconds.
      store s k (record { number = number_at (s k) now; deadline = some (now + seconds) });
  ttl = λ s now k. some (seconds_until (s k).deadline now);
}

store-same : (s : String → Entry) (k : String) (e : Entry) → store s k e k ≡ e
store-same s k e = let same : str_eq k k ≡ true = (eq_iff k k).1 refl in rw same refl

store-other :
    (s : String → Entry) (k other : String) (e : Entry) → other ≢ k → store s k e other ≡ s other
store-other s k other e differs = elim (Bool-cases (str_eq other k)) [
  | inl same ↦ absurd (differs ((eq_iff other k).0 same))
  | inr miss ↦ rw miss refl
]

counts_always : {n : ℕ} → some n ≢ none
counts_always h = ground arith

in_memory_documented : Documented in_memory
in_memory_documented = record {
  entry = λ s k. s k;
  incr_returns = λ s now k {n} {s'} h. (
    sym (some_injective (ap (λ p. p.0) h)),
    ap (λ f. f k) (sym (ap (λ p. p.1) h)) ∙ store-same s k _,
  );
  incr_fails = λ s now k {s'} h. absurd (counts_always (ap (λ p. p.0) h));
  incr_others = λ s now k other differs. store-other s k other _ differs;
  expire_sets = λ s now k seconds. inl (store-same s k _);
  expire_others = λ s now k other seconds differs. store-other s k other _ differs;
}

abbrev hash : String → String
hash text = text

abbrev two_reads : RateLimitConfig
two_reads = record {
  enabled = true;
  auth_requests_per_minute = 1;
  write_requests_per_minute = 1;
  read_requests_per_minute = 2;
  protocol_requests_per_minute = 4;
}

abbrev read_at : ℕ → Request
read_at timestamp = record {
  method = Method.get;
  path = "/v1/packages";
  authorization = none;
  peer_ip = some "10.0.0.1";
  timestamp = timestamp;
}

abbrev reads : List Request
reads = read_at 7320 ∷ read_at 7350 ∷ read_at 7379 ∷ []

abbrev reader_key : String
reader_key = "rl:read:ip:10.0.0.1:122"

abbrev empty_store : String → Entry
empty_store k = record { number = 0; deadline = none }

third_is_refused :
    serve in_memory hash two_reads (some empty_store) reads
    ≡ (read_at 7320, Response.passes_with 2 1)
      ∷ (read_at 7350, Response.passes_with 2 0)
      ∷ (read_at 7379, Response.too_many_requests 2 1)
      ∷ []
unfolding serve rate_limit_middleware check_rate_limit redis_key classify_request prefix extract_key
    to_string digits starts_with
third_is_refused = refl

in_minute : (r : Request) → Memᴰ r reads → window r ≡ 122
in_minute r (Memᴰ.head e) = rw e refl
in_minute r (Memᴰ.tail (Memᴰ.head e)) = rw e refl
in_minute r (Memᴰ.tail (Memᴰ.tail (Memᴰ.head e))) = rw e refl
in_minute r (Memᴰ.tail (Memᴰ.tail (Memᴰ.tail m))) = elim m [ ]

starts_empty :
    in_memory_documented.entry empty_store reader_key ≡ record { number = 0; deadline = none }
unfolding in_memory_documented
starts_empty = refl

serve-bounded_example :
    (admitted hash RateLimitTier.read reader_key
        (serve in_memory hash two_reads (some empty_store) reads)
      ≤ 2)
    × (refused hash RateLimitTier.read reader_key
          (serve in_memory hash two_reads (some empty_store) reads)
        ≤ asked hash RateLimitTier.read reader_key reads - 2)
serve-bounded_example =
    serve-bounded in_memory in_memory_documented hash two_reads RateLimitTier.read reader_key
      empty_store reads 122 refl starts_empty in_minute
