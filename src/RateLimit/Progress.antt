-- ===== src/RateLimit/Progress.antt =====
-- `StrictSlidingWindowLimiter`: a caller that slept for the time that it was told gets through, and
-- the count of the window is exact.
use test2_freeclaudecode.Prelude.{
  ap, true, some, length-append, Bool, suc, false, Option, ◌++◌, ltb, ℕ, ◌+◌, ◌≤◌, ◌<◌, ◌≡◌, refl,
  List, [], ◌∷◌, length, arith,
}
use test2_freeclaudecode.RateLimit.{
  permits, wait_time, wait, Round, acquire_round, acquire, StrictSlidingWindowLimiter, expire,
  count_in_window,
}
use test2_freeclaudecode.RateLimit.Window.{recent}

abbrev pub IsAscending : List ℕ → Type 0
IsAscending [] = Unit
IsAscending (t ∷ []) = Unit
IsAscending (t ∷ u ∷ ts) = (t ≤ u) × IsAscending (u ∷ ts)

length-expire-le : (window now : ℕ) (ts : List ℕ) → length (expire window now ts) ≤ length ts
unfolding expire
length-expire-le window now [] = omega arith
length-expire-le window now (t ∷ ts) = ground (arith, length-expire-le window now ts)

-- Once the oldest entry has left its window the list is shorter.
length-expire-lt :
    (window now t : ℕ) (ts : List ℕ)
    → t + window ≤ now
    → length (expire window now (t ∷ ts)) < length (t ∷ ts)
unfolding expire
length-expire-lt window now t ts h = ground (arith, length-expire-le window now ts)

-- What is left after `expire` is empty or starts with an entry still in its window.
all_recent :
    (window now : ℕ) (ts : List ℕ)
    → IsAscending ts
    → length (expire window now ts) ≡ recent window now ts
unfolding expire
all_recent window now [] a = refl
all_recent window now (t ∷ []) a = ground arith
all_recent window now (t ∷ u ∷ ts) a = ground (arith, all_recent window now (u ∷ ts) a.1)

-- With its stamps in ascending order, `count_in_window` returns how many of them are still in the
-- window, and it leaves exactly that many behind.
pub count_in_window-recent :
    (now : ℕ) (l : StrictSlidingWindowLimiter)
    → IsAscending l.times
    → let (count, after) = count_in_window now l in
      (count ≡ recent l.rate_window now l.times) × (length after.times ≡ count)
unfolding count_in_window
count_in_window-recent now l a = (all_recent l.rate_window now l.times a, refl)

length-snoc {ℓ} : {A : Type ℓ} (xs : List A) (a : A) → length (xs ++ a ∷ []) ≡ suc (length xs)
length-snoc xs a = omega (arith, length-append xs (a ∷ []))

-- A pass of `_acquire` never holds more stamps than the limit.
length-acquire_round-le :
    (allowed : Option Bool) (now stamp : ℕ) (l : StrictSlidingWindowLimiter)
    → length l.times ≤ l.rate_limit
    → length (acquire_round allowed now stamp l).1.times ≤ l.rate_limit
unfolding acquire_round
length-acquire_round-le allowed now stamp l h = ground (
  arith,
  length-expire-le l.rate_window now l.times,
  length-snoc (expire l.rate_window now l.times) stamp,
)

module _ (limit window now later : ℕ) (pos : 0 < limit) where
  slept_enough :
      (live : List ℕ)
      → length live ≤ limit
      → ltb (length live) limit ≡ false
      → now + wait_time window now live ≤ later
      → ltb (length (expire window later live)) limit ≡ true
  slept_enough [] h full slept = ground arith
  slept_enough (t ∷ ts) h full slept =
      ground (arith, length-expire-lt window later t ts (omega arith))

-- A caller that was told to wait, in a limiter that holds no more stamps than its limit, and that
-- comes back when the wait is over with nobody in between, does not wait again: its second pass
-- returns the answer of its condition.
pub acquire_after_wait :
    (l : StrictSlidingWindowLimiter) (r s : Round) (n : ℕ)
    → 0 < l.rate_limit
    → length l.times ≤ l.rate_limit
    → (acquire_round r.allowed r.now r.stamp l).0 ≡ wait n
    → r.now + n ≤ s.now
    → (acquire (r ∷ s ∷ []) l).0 ≡ some (permits s.allowed)
unfolding acquire acquire_round
acquire_after_wait l r s n pos h e slept =
    let live = expire l.rate_window r.now l.times in
    ground (
      arith,
      length-expire-le l.rate_window r.now l.times,
      slept_enough l.rate_limit l.rate_window r.now s.now pos live,
    )

-- Dropping what has expired twice at one reading of the clock is dropping it once.
expire_idem :
    (window now : ℕ) (ts : List ℕ) → expire window now (expire window now ts) ≡ expire window now ts
unfolding expire
expire_idem window now [] = refl
expire_idem window now (t ∷ ts) = ground (arith, expire_idem window now ts)

-- So a count does not change what a second count at the same reading returns.
pub count_in_window_again :
    (now : ℕ) (l : StrictSlidingWindowLimiter)
    → (count_in_window now (count_in_window now l).1).0 ≡ (count_in_window now l).0
unfolding count_in_window
count_in_window_again now l = ap length (expire_idem l.rate_window now l.times)
