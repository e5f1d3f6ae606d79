-- ===== src/RateLimit/Window.antt =====
-- How many admissions of `StrictSlidingWindowLimiter` fall in one window, whatever the callers.
use test2_freeclaudecode.Prelude.{
  ℕ, suc, ◌+◌, ◌≤◌, ◌<◌, ◌≡◌, refl, ◌&&◌, List, [], ◌∷◌, ◌++◌, length, ltb, leb, if◌then◌else◌,
  arith, Bool, Option, Bool-cases, ltb→lt, inl, inr,
}
use mathlib.Core.Path.{subst₂}
use test2_freeclaudecode.RateLimit.{
  StrictSlidingWindowLimiter, Admission, admitted, Round, expire, acquire_round, permits,
}

-- Any number of callers: each round is a pass of one of them. `history` holds the stamps of the
-- admissions, newest first.
abbrev note : Admission → ℕ → List ℕ → List ℕ
note admitted stamp history = stamp ∷ history
note _ stamp history = history

unfoldable pub admissions : StrictSlidingWindowLimiter → List ℕ → List Round → List ℕ
admissions limiter history [] = history
admissions limiter history (r ∷ rs) =
    let (answer, after) = acquire_round r.allowed r.now r.stamp limiter in
    admissions after (note answer r.stamp history) rs

-- The clock does not go back.
abbrev pub IsClock : ℕ → List Round → Type 0
IsClock from [] = Unit
IsClock from (r ∷ rs) = (from ≤ r.now) × (r.now ≤ r.stamp) × IsClock r.stamp rs

-- The number of stamps `t` with `start ≤ t < start + window`.
abbrev pub in_window : ℕ → ℕ → List ℕ → ℕ
in_window window start [] = 0
in_window window start (t ∷ ts) =
    let rest = in_window window start ts in
    if leb start t && ltb t (start + window) then suc rest else rest

-- The number of stamps that have not left the window at `now`.
abbrev pub recent : ℕ → ℕ → List ℕ → ℕ
recent window now [] = 0
recent window now (t ∷ ts) =
    let rest = recent window now ts in if ltb now (t + window) then suc rest else rest

recent-le-length : (window now : ℕ) (ts : List ℕ) → recent window now ts ≤ length ts
recent-le-length window now [] = omega arith
recent-le-length window now (t ∷ ts) = ground (arith, recent-le-length window now ts)

-- What `expire` drops is in no later window.
recent-expire :
    (window now x : ℕ) (ts : List ℕ)
    → now ≤ x
    → recent window x (expire window now ts) ≡ recent window x ts
unfolding expire
recent-expire window now x [] h = refl
recent-expire window now x (t ∷ ts) h = ground (arith, recent-expire window now x ts)

recent-snoc :
    (window x s : ℕ) (ts : List ℕ) → recent window x (ts ++ s ∷ []) ≡ recent window x (s ∷ ts)
recent-snoc window x s [] = refl
recent-snoc window x s (t ∷ ts) = ground (arith, recent-snoc window x s ts)

-- Each stamp of a history, newest first, saw fewer than `limit` recent ones.
abbrev Spaced : ℕ → ℕ → List ℕ → Type 0
Spaced limit window [] = Unit
Spaced limit window (x ∷ h) = (recent window x h < limit) × Spaced limit window h

in_window-le-recent :
    (window start x : ℕ) (h : List ℕ)
    → x < start + window
    → in_window window start h ≤ recent window x h
in_window-le-recent window start x [] p = omega arith
in_window-le-recent window start x (t ∷ h) p = ground (arith, in_window-le-recent window start x h)

in_window_bound :
    (limit window start : ℕ) (h : List ℕ) → Spaced limit window h → in_window window start h ≤ limit
in_window_bound limit window start [] s = omega arith
in_window_bound limit window start (x ∷ h) s =
    ground (arith, in_window-le-recent window start x h, in_window_bound limit window start h s.1)

-- The limiter still holds every stamp of the history that a later pass can see in its window.
record IsTracked (now : ℕ) (l : StrictSlidingWindowLimiter) (h : List ℕ) : Type 0 where
  held : (x : ℕ) → now ≤ x → recent l.rate_window x h ≤ recent l.rate_window x l.times
  spaced : Spaced l.rate_limit l.rate_window h

module _ (l : StrictSlidingWindowLimiter) (h : List ℕ) (from : ℕ) (r : Round) where
  round-held :
      IsTracked from l h
      → from ≤ r.now
      → r.now ≤ r.stamp
      → (x : ℕ) → r.stamp ≤ x
      → recent l.rate_window x h ≤ recent l.rate_window x (expire l.rate_window r.now l.times)
  round-held t a b x c =
      omega
        (arith, t.held x (omega arith), recent-expire l.rate_window r.now x l.times (omega arith))

  recent-stamp :
      IsTracked from l h
      → from ≤ r.now
      → r.now ≤ r.stamp
      → (x : ℕ) → r.stamp ≤ x
      → recent l.rate_window x (r.stamp ∷ h)
        ≤ recent l.rate_window x (expire l.rate_window r.now l.times ++ r.stamp ∷ [])
  recent-stamp t a b x c = rw recent-snoc (ground (arith, round-held t a b x c))

  round-IsTracked :
      IsTracked from l h
      → from ≤ r.now
      → r.now ≤ r.stamp
      → let (answer, after) = acquire_round r.allowed r.now r.stamp l in
        IsTracked r.stamp after (note answer r.stamp h)
  unfolding acquire_round
  round-IsTracked t a b =
      let live = expire l.rate_window r.now l.times in
      elim (Bool-cases (ltb (length live) l.rate_limit)) [
        | inl room ↦ elim (Bool-cases (permits r.allowed)) [
          | inl granted ↦
              rw (room, granted)
                (record {
                  held = recent-stamp t a b;
                  spaced = (
                    omega (
                      arith,
                      ltb→lt _ _ room,
                      round-held t a b r.stamp (omega arith),
                      recent-le-length l.rate_window r.stamp live,
                    ),
                    t.spaced,
                  );
                })
          | inr denied ↦ rw (room, denied) (record { held = round-held t a b; spaced = t.spaced })
        ]
        | inr full ↦ rw full (record { held = round-held t a b; spaced = t.spaced })
      ]

module _ (allowed : Option Bool) (now stamp : ℕ) (l : StrictSlidingWindowLimiter) where
  rate_limit-acquire_round : (acquire_round allowed now stamp l).1.rate_limit ≡ l.rate_limit
  unfolding acquire_round
  rate_limit-acquire_round = ground arith

  rate_window-acquire_round : (acquire_round allowed now stamp l).1.rate_window ≡ l.rate_window
  unfolding acquire_round
  rate_window-acquire_round = ground arith

admissions-Spaced :
    (l : StrictSlidingWindowLimiter) (h : List ℕ) (from : ℕ) (rs : List Round)
    → IsTracked from l h
    → IsClock from rs
    → Spaced l.rate_limit l.rate_window (admissions l h rs)
unfolding admissions
admissions-Spaced l h from [] t c = t.spaced
admissions-Spaced l h from (r ∷ rs) t c =
    let (answer, after) = acquire_round r.allowed r.now r.stamp l in
    subst₂ (λ limit window. Spaced limit window (admissions after (note answer r.stamp h) rs))
      (rate_limit-acquire_round r.allowed r.now r.stamp l)
      (rate_window-acquire_round r.allowed r.now r.stamp l)
      (admissions-Spaced after (note answer r.stamp h) r.stamp rs
        (round-IsTracked l h from r t c.0 c.1) c.2)

-- From an unused limiter, whatever callers pass through the loop in whatever order, with a clock
-- that does not go back, at most `rate_limit` admissions are stamped in any interval of the length
-- `rate_window`.
pub in_window-admissions :
    (limit window start from : ℕ) (rs : List Round)
    → IsClock from rs
    → in_window window start
        (admissions (record { rate_limit = limit; rate_window = window; times = [] }) [] rs)
      ≤ limit
in_window-admissions limit window start from rs c = in_window_bound limit window start _ (
    admissions-Spaced (record { rate_limit = limit; rate_window = window; times = [] }) [] from rs
      (record { held = λ x h. omega arith; spaced = tt }) c)
