-- ===== src/Prelude/Pigeonhole.antt =====
-- As many distinct numbers below a bound as the bound are all the numbers below it.
use Prim.Native.Nat.{ℕ, zero, suc, ◌≤◌, ◌<◌}
use mathlib.Core.Path.{◌≡◌}
use mathlib.Core.Bool.{true, false, not, ◌&&◌}
use mathlib.Core.Logic.{inl, inr}
use mathlib.Core.List.{List, [], ◌∷◌, ◌++◌}
use native.Mathlib.Omega.{arith}
use test2_freeclaudecode.Prelude.Tests.{
  ltb, nat_beq, nat_beq_iff, nat_eq, if◌then◌else◌, Bool-cases,
}
use test2_freeclaudecode.Prelude.Lists.{length, contains, distinct}

abbrev pub AllBelow : ℕ → List ℕ → Type 0
AllBelow n [] = Unit
AllBelow n (x ∷ xs) = (x < n) × AllBelow n xs

-- How many of the numbers below `n` the list has.
count_below : ℕ → List ℕ → ℕ
count_below zero xs = 0
count_below (suc n) xs = let rest = count_below n xs in if contains xs n then suc rest else rest

count_below-cons :
    (n x : ℕ) (xs : List ℕ)
    → count_below n (x ∷ xs)
      ≡ (if ltb x n && not (contains xs x) then suc (count_below n xs) else count_below n xs)
unfolding count_below
count_below-cons zero x xs = ground arith
count_below-cons (suc n) x xs = elim (Bool-cases (nat_beq x n)) [
  | inl same ↦ ground (arith, count_below-cons n x xs, (nat_beq_iff x n).0 same)
  | inr other ↦ ground (arith, count_below-cons n x xs)
]

length-le-count_below :
    (n : ℕ) (xs : List ℕ) → distinct xs ≡ true → AllBelow n xs → length xs ≤ count_below n xs
length-le-count_below n [] d b = omega arith
length-le-count_below n (x ∷ xs) d b =
    ground (arith, count_below-cons n x xs, length-le-count_below n xs)

count_below-le : (n : ℕ) (xs : List ℕ) → count_below n xs ≤ n
unfolding count_below
count_below-le zero xs = omega arith
count_below-le (suc n) xs = ground (arith, count_below-le n xs)

count_below-lt :
    (n : ℕ) (xs : List ℕ) (j : ℕ) → j < n → contains xs j ≡ false → count_below n xs < n
unfolding count_below
count_below-lt zero xs j h m = elim h [ ]
count_below-lt (suc n) xs j h m = elim (Bool-cases (nat_beq j n)) [
  | inl same ↦ ground (arith, count_below-le n xs, (nat_beq_iff j n).0 same)
  | inr other ↦ ground (arith, count_below-lt n xs j)
]

pub pigeonhole :
    (n : ℕ) (xs : List ℕ) (j : ℕ)
    → distinct xs ≡ true
    → AllBelow n xs
    → n ≤ length xs
    → j < n
    → contains xs j ≡ true
pigeonhole n xs j d b l h = elim (Bool-cases (contains xs j)) [
  | inl there ↦ there
  | inr missing ↦
      absurd (omega (arith, length-le-count_below n xs d b, count_below-lt n xs j h missing))
]

pub AllBelow-snoc :
    (n : ℕ) (xs : List ℕ) (j : ℕ) → AllBelow n xs → j < n → AllBelow n (xs ++ j ∷ [])
AllBelow-snoc n [] j b h = (h, tt)
AllBelow-snoc n (x ∷ xs) j b h = (b.0, AllBelow-snoc n xs j b.1 h)
