-- ===== src/RateLimit.antt =====
-- core/rate_limit.py: `StrictSlidingWindowLimiter`. A reading of the monotonic clock is a number
-- of ticks. The test `t <= now - window` is written `t + window ≤ now`, which needs no negative
-- numbers. One pass of the loop in `_acquire` runs under the lock, so it is one step here.
pub mod Window
pub mod Progress
mod Examples
use test2_freeclaudecode.Prelude.{
  ℕ, ◌+◌, ◌-◌, Bool, true, false, Option, none, some, List, [], ◌∷◌, ◌++◌, length, ltb, leb,
  nat_beq, if◌then◌else◌, ◌||◌,
}

pub record StrictSlidingWindowLimiter : Type 0 where
  pub rate_limit : ℕ
  pub rate_window : ℕ
  pub times : List ℕ

-- `none` is the ValueError of the constructor.
unfoldable pub new_limiter : ℕ → ℕ → Option StrictSlidingWindowLimiter
new_limiter limit window =
    if nat_beq limit 0 || nat_beq window 0
    then none
    else some (record { rate_limit = limit; rate_window = window; times = [] })

-- The `popleft` loop: entries that have left the window go, oldest first.
unfoldable pub expire : ℕ → ℕ → List ℕ → List ℕ
expire window now [] = []
expire window now (t ∷ ts) =
    let rest = expire window now ts in if leb (t + window) now then rest else t ∷ ts

pub data Admission : Type 0 where
  admitted : Admission
  refused : Admission
  wait : ℕ → Admission

-- `allowed`: without a condition every admission is allowed.
abbrev pub permits : Option Bool → Bool
permits none = true
permits (some answer) = answer

-- `max(0.0, (oldest + window) - now)`. The list is not empty where this is called, since the
-- limit is positive.
abbrev pub wait_time : ℕ → ℕ → List ℕ → ℕ
wait_time window now [] = 0
wait_time window now (oldest ∷ ts) = oldest + window - now

-- One pass of the loop of `_acquire`: `now` and `stamp` are its two readings of the clock.
unfoldable pub acquire_round :
    Option Bool → ℕ → ℕ → StrictSlidingWindowLimiter → Admission × StrictSlidingWindowLimiter
unfolding expire
acquire_round allowed now stamp limiter =
    let live = expire limiter.rate_window now limiter.times in
    if ltb (length live) limiter.rate_limit
    then if permits allowed
      then (admitted, record limiter { times = live ++ stamp ∷ [] })
      else (refused, record limiter { times = live })
    else (wait (wait_time limiter.rate_window now live), record limiter { times = live })

-- What one pass meets: the answer of `allowed` and the two readings of the clock.
pub record Round : Type 0 where
  pub allowed : Option Bool
  pub now : ℕ
  pub stamp : ℕ

-- The loop of one caller over the passes that its environment grants it: `none` while it waits.
unfoldable pub acquire :
    List Round → StrictSlidingWindowLimiter → Option Bool × StrictSlidingWindowLimiter
acquire [] limiter = (none, limiter)
acquire (r ∷ rs) limiter =
    let (answer, after) = acquire_round r.allowed r.now r.stamp limiter in
    let again = acquire rs after in
    elim answer [ admitted ↦ (some true, after) | refused ↦ (some false, after) | wait _ ↦ again ]

unfoldable pub count_in_window : ℕ → StrictSlidingWindowLimiter → ℕ × StrictSlidingWindowLimiter
unfolding expire
count_in_window now limiter =
    let live = expire limiter.rate_window now limiter.times in
    (length live, record limiter { times = live })

unfoldable pub record_dispatch : ℕ → StrictSlidingWindowLimiter → StrictSlidingWindowLimiter
record_dispatch stamp limiter = record limiter { times = limiter.times ++ stamp ∷ [] }
