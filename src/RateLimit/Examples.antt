-- ===== src/RateLimit/Examples.antt =====
-- Runs of the limiter at concrete inputs.
use test2_freeclaudecode.Prelude.{ℕ, ◌≤◌, ◌≡◌, refl, none, some, true, length, List, [], ◌∷◌, arith}
use test2_freeclaudecode.RateLimit.{
  StrictSlidingWindowLimiter, Round, wait, acquire_round, acquire, count_in_window,
}
use test2_freeclaudecode.RateLimit.Window.{recent, in_window, admissions, in_window-admissions}
use test2_freeclaudecode.RateLimit.Progress.{count_in_window-recent, acquire_after_wait}

abbrev two_in_ten : StrictSlidingWindowLimiter
two_in_ten = record { rate_limit = 2; rate_window = 10; times = [] }

abbrev at : ℕ → Round
at now = record { allowed = none; now = now; stamp = now }

abbrev busy : List Round
busy = at 3 ∷ at 5 ∷ at 6 ∷ at 13 ∷ at 14 ∷ []

three_admitted : admissions two_in_ten [] busy ≡ 13 ∷ 5 ∷ 3 ∷ []
unfolding admissions acquire_round
three_admitted = refl

in_window-admissions_example : in_window 10 3 (admissions two_in_ten [] busy) ≤ 2
in_window-admissions_example = in_window-admissions 2 10 3 0 busy (omega arith)

abbrev full : StrictSlidingWindowLimiter
full = record { rate_limit = 2; rate_window = 10; times = 3 ∷ 5 ∷ [] }

told_to_wait : (acquire_round none 6 6 full).0 ≡ wait 7
unfolding acquire_round
told_to_wait = refl

acquire_after_wait_example : (acquire (at 6 ∷ at 13 ∷ []) full).0 ≡ some true
acquire_after_wait_example =
    acquire_after_wait full (at 6) (at 13) 7 (omega arith) (omega arith) told_to_wait (omega arith)

count_in_window-recent_example :
    let (count, after) = count_in_window 14 full in
    (count ≡ recent 10 14 (3 ∷ 5 ∷ [])) × (length after.times ≡ count)
count_in_window-recent_example = count_in_window-recent 14 full (omega arith)
