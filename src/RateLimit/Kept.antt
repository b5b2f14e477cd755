-- ===== src/RateLimit/Kept.antt =====
-- The number that Redis holds for a key of crates/api/src/rate_limit.rs, within a minute.
use publaryn.Prelude.{
  ℕ, ◌+◌, ◌*◌, ◌/◌, ◌≤◌, ◌<◌, ◌≡◌, refl, sym, ◌∙◌, inl, inr, false, Option, none, some, arith,
  some_injective,
}
use publaryn.RateLimit.Redis.{Entry, is_gone}
use publaryn.RateLimit.Middleware.{RateLimitResult, Request, window}
use publaryn.RateLimit.Bound.{IsNext, Checked}

-- The number of a key is kept until the window ends.
abbrev pub IsKept : Entry → ℕ → Type 0
IsKept e w = (d : ℕ) → e.deadline ≡ some d → w * 60 + 60 ≤ d

live_until :
    (o : Option ℕ) (now w : ℕ)
    → ((d : ℕ) → o ≡ some d → w * 60 + 60 ≤ d)
    → now / 60 ≡ w
    → is_gone o now ≡ false
live_until none now w kept here = refl
live_until (some d) now w kept here =
    let ends = kept d refl in let before : now < d = omega (arith, ends, here) in ground arith

pub kept-live :
    (e : Entry) (w : ℕ) (r : Request)
    → IsKept e w
    → window r ≡ w
    → is_gone e.deadline r.timestamp ≡ false
kept-live e w r kept here = live_until e.deadline r.timestamp w kept here

pub next-IsKept :
    (e e' : Entry) (w : ℕ) (r : Request)
    → IsKept e w
    → window r ≡ w
    → IsNext e e' r.timestamp
    → IsKept e' w
next-IsKept e e' w r kept here (numbered, inl same) d is = kept d (sym same ∙ is)
next-IsKept e e' w r kept here (numbered, inr set) d is =
    let same : r.timestamp + 60 ≡ d = some_injective (sym set ∙ is) in omega (arith, same, here)

pub Checked-IsKept :
    (e e' : Entry) (w : ℕ) (r : Request) (limit : ℕ) (result : RateLimitResult)
    → IsKept e w
    → window r ≡ w
    → Checked e e' r.timestamp limit result
    → IsKept e' w
unfolding Checked
Checked-IsKept e e' w r limit result kept here (inl (next, is, within)) =
    next-IsKept e e' w r kept here next
Checked-IsKept e e' w r limit result kept here (inr (inl (next, is, over))) =
    next-IsKept e e' w r kept here next
Checked-IsKept e e' w r limit result kept here (inr (inr (inl next, is))) =
    next-IsKept e e' w r kept here next
Checked-IsKept e e' w r limit result kept here (inr (inr (inr same, is))) = rw same kept
