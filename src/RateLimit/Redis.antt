-- ===== src/RateLimit/Redis.antt =====
-- The commands of Redis (the fred crate) that crates/api/src/rate_limit.rs calls, and what Redis
-- documents of them. A time is a number of seconds.
use publaryn.Prelude.{
  ℕ, ◌+◌, ◌≡◌, ◌≢◌, ◌⊎◌, String, Option, none, some, Bool, false, leb, if◌then◌else◌,
}

-- The i64 of TTL: negative for a key that is missing or has no expiry.
pub data ℤ : Type 0 where
  pos negsuc : ℕ → ℤ

-- INCR, EXPIRE and TTL of a key at a time. A failed INCR has no number, a failed TTL none.
pub record Redis : Type 1 where
  pub State : Type 0
  pub incr : State → ℕ → String → Option ℕ × State
  pub expire : State → ℕ → String → ℕ → State
  pub ttl : State → ℕ → String → Option ℤ

-- A stored number and the time from which it is gone.
pub record Entry : Type 0 where
  pub number : ℕ
  pub deadline : Option ℕ

abbrev pub is_gone : Option ℕ → ℕ → Bool
is_gone none now = false
is_gone (some deadline) now = leb deadline now

-- INCR takes a missing or expired key for 0, with no expiry.
abbrev pub number_at : Entry → ℕ → ℕ
number_at e now = if is_gone e.deadline now then 0 else e.number

abbrev pub deadline_at : Entry → ℕ → Option ℕ
deadline_at e now = if is_gone e.deadline now then none else e.deadline

abbrev pub counted : Entry → ℕ → Entry
counted e now = record { number = number_at e now + 1; deadline = deadline_at e now }

-- What Redis documents, over the entry that a state holds for a key: INCR returns the number
-- after the increment, a failed one has done the increment or not, EXPIRE sets the expiry of the
-- key or fails, and the commands touch no other key.
pub record Documented (redis : Redis) : Type 1 where
  pub entry : redis.State → String → Entry
  pub incr_returns :
      (s : redis.State) (now : ℕ) (k : String) {n : ℕ} {s' : redis.State}
      → redis.incr s now k ≡ (some n, s')
      → (n ≡ number_at (entry s k) now + 1) × (entry s' k ≡ counted (entry s k) now)
  pub incr_fails :
      (s : redis.State) (now : ℕ) (k : String) {s' : redis.State}
      → redis.incr s now k ≡ (none, s')
      → (entry s' k ≡ counted (entry s k) now) ⊎ (entry s' k ≡ entry s k)
  pub incr_others :
      (s : redis.State) (now : ℕ) (k other : String)
      → other ≢ k
      → entry ((redis.incr s now k).1) other ≡ entry s other
  pub expire_sets :
      (s : redis.State) (now : ℕ) (k : String) (seconds : ℕ)
      → (entry (redis.expire s now k seconds) k
          ≡ record { number = number_at (entry s k) now; deadline = some (now + seconds) })
        ⊎ (entry (redis.expire s now k seconds) k ≡ entry s k)
  pub expire_others :
      (s : redis.State) (now : ℕ) (k other : String) (seconds : ℕ)
      → other ≢ k
      → entry (redis.expire s now k seconds) other ≡ entry s other
