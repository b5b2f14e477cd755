-- ===== src/RateLimit/Middleware.antt =====
-- crates/api/src/rate_limit.rs: the tier of a request, its key, and the middleware. SHA-256 with
-- its hexadecimal form, and Redis, are arguments.
use Prim.Native.String.{◌++◌ as str_append}
use publaryn.Prelude.{
  ℕ, ◌-◌, ◌/◌, String, Bool, true, false, ◌&&◌, Option, none, some, List, [], ◌∷◌, any, ltb, ◌==◌,
  if◌then◌else◌, codes,
}
use publaryn.Auth.Tokens.{starts_with}
use publaryn.RateLimit.Decimal.{to_string}
use publaryn.RateLimit.Redis.{Redis, ℤ}

pub data Method : Type 0 where
  get head post put patch delete options trace connect : Method
  extension : String → Method

pub data RateLimitTier : Type 0 where
  auth write read protocol : RateLimitTier

pub record RateLimitConfig : Type 0 where
  pub enabled : Bool
  pub auth_requests_per_minute : ℕ
  pub write_requests_per_minute : ℕ
  pub read_requests_per_minute : ℕ
  pub protocol_requests_per_minute : ℕ

unfoldable pub prefix : RateLimitTier → String
prefix RateLimitTier.auth = "rl:auth"
prefix RateLimitTier.write = "rl:write"
prefix RateLimitTier.read = "rl:read"
prefix RateLimitTier.protocol = "rl:proto"

abbrev pub max_requests : RateLimitTier → RateLimitConfig → ℕ
max_requests RateLimitTier.auth cfg = cfg.auth_requests_per_minute
max_requests RateLimitTier.write cfg = cfg.write_requests_per_minute
max_requests RateLimitTier.read cfg = cfg.read_requests_per_minute
max_requests RateLimitTier.protocol cfg = cfg.protocol_requests_per_minute

abbrev pub protocol_read_prefixes : List String
protocol_read_prefixes =
    "/npm/" ∷ "/pypi/" ∷ "/composer/" ∷ "/rubygems/" ∷ "/maven/" ∷ "/cargo/" ∷ "/nuget/" ∷ "/oci/"
    ∷ []

abbrev is_read : Method → Bool
is_read Method.get = true
is_read Method.head = true
is_read _ = false

abbrev is_write : Method → Bool
is_write Method.post = true
is_write Method.put = true
is_write Method.patch = true
is_write Method.delete = true
is_write _ = false

unfoldable pub classify_request : Method → String → RateLimitTier
classify_request method path =
    if starts_with (codes "/v1/auth/") (codes path)
    then RateLimitTier.auth
    else if is_read method && any (λ p. starts_with (codes p) (codes path)) protocol_read_prefixes
    then RateLimitTier.protocol
    else if is_write method
    then RateLimitTier.write
    else RateLimitTier.read

-- What the middleware reads of a request: the text of its Authorization header, the address of
-- the peer, and the second of the clock.
pub record Request : Type 0 where
  pub method : Method
  pub path : String
  pub authorization : Option String
  pub peer_ip : Option String
  pub timestamp : ℕ

-- `hash` is the hexadecimal form of the first eight bytes of a SHA-256.
unfoldable pub extract_key : (String → String) → Request → String
extract_key hash request = elim request.authorization [
  | some authorization ↦ str_append "tok:" (hash authorization)
  | none ↦ elim request.peer_ip [ some ip ↦ str_append "ip:" ip | none ↦ "ip:unknown" ]
]

-- The minute of the clock.
abbrev pub window : Request → ℕ
window request = request.timestamp / 60

unfoldable pub redis_key : (String → String) → Request → String
redis_key hash request = str_append (prefix (classify_request request.method request.path)) (
    str_append ":"
      (str_append (extract_key hash request) (str_append ":" (to_string (window request)))))

pub data RateLimitResult : Type 0 where
  allowed : (current limit : ℕ) → RateLimitResult
  exceeded : (limit retry_after : ℕ) → RateLimitResult
  redis_error : RateLimitResult

-- `ttl.unwrap_or(60)`, and 60 for one that is not positive.
abbrev pub seconds_left : Option ℤ → ℕ
seconds_left none = 60
seconds_left (some (ℤ.negsuc n)) = 60
seconds_left (some (ℤ.pos n)) = if ltb 0 n then n else 60

-- The response: the inner service's with the headers of limit and remaining, the inner service's
-- alone, or 429 with the limit and the seconds to wait.
pub data Response : Type 0 where
  passes_with : (limit remaining : ℕ) → Response
  passes : Response
  too_many_requests : (limit retry_after : ℕ) → Response

abbrev pub respond : RateLimitResult → Response
respond (RateLimitResult.allowed current limit) = Response.passes_with limit (limit - current)
respond (RateLimitResult.exceeded limit retry_after) = Response.too_many_requests limit retry_after
respond RateLimitResult.redis_error = Response.passes

module _ (redis : Redis) where
  -- EXPIRE on the first request of a window.
  abbrev pub expire_first : redis.State → ℕ → String → ℕ → redis.State
  expire_first s now key count = if count == 1 then redis.expire s now key 60 else s

  abbrev pub judged : redis.State → ℕ → String → ℕ → ℕ → RateLimitResult
  judged s now key count limit =
      if ltb limit count
      then RateLimitResult.exceeded limit (seconds_left (redis.ttl s now key))
      else RateLimitResult.allowed count limit

  abbrev pub after_incr : redis.State → ℕ → String → ℕ → Option ℕ → RateLimitResult × redis.State
  after_incr s now key limit none = (RateLimitResult.redis_error, s)
  after_incr s now key limit (some count) =
      let expiring = expire_first s now key count in (judged expiring now key count limit, expiring)

  unfoldable pub check_rate_limit : redis.State → ℕ → String → ℕ → RateLimitResult × redis.State
  check_rate_limit s now key limit =
      let reply = redis.incr s now key in after_incr reply.1 now key limit reply.0

  -- `none` for a server without Redis.
  unfoldable pub rate_limit_middleware :
      (String → String)
      → RateLimitConfig
      → Option redis.State
      → Request
      → Response × Option redis.State
  rate_limit_middleware hash config none request = (Response.passes, none)
  rate_limit_middleware hash config (some s) request =
      if config.enabled
      then (let checked =
            check_rate_limit s request.timestamp (redis_key hash request)
              (max_requests (classify_request request.method request.path) config) in
          (respond checked.0, some checked.1))
      else (Response.passes, some s)

  -- The requests in the order in which they reach Redis, each with its response.
  unfoldable pub serve :
      (String → String)
      → RateLimitConfig
      → Option redis.State
      → List Request
      → List (Request × Response)
  serve hash config s [] = []
  serve hash config s (request ∷ requests) =
      let reply = rate_limit_middleware hash config s request in
      (request, reply.0) ∷ serve hash config reply.1 requests
