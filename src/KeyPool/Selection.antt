-- ===== src/KeyPool/Selection.antt =====
-- `_select_eligible` of `KeyPool` finds a usable key exactly when there is one, and the first in
-- ring order.
use mathlib.Core.Path.{subst}
use native.Mathlib.Nat.{le_refl, mod-lt, mod_self, mod-eq_of_lt}
use test2_freeclaudecode.Prelude.{
  ◌∙◌, nat_eq, nat_beq_iff, get_elem?_in_range, ℕ, zero, suc, ◌+◌, ◌-◌, ◌%◌, ◌≤◌, ◌<◌, ◌≡◌, ◌↔◌,
  Bool, true, false, not, ◌&&◌, Option, none, some, List, length, get_elem?, contains, leb, nat_beq,
  if◌then◌else◌, arith, Bool-cases, Option-cases, inl, inr, some_injective, length-set,
  get_elem?-set_ne,
}
use test2_freeclaudecode.KeyPool.{
  settle, KeySlot, KeyPool, is_eligible, examine, scan, select_eligible,
}

-- What the test of `_is_eligible` says of a slot, with the counting left out of the state.
abbrev pub ready : ℕ → ℕ → ℕ → Option KeySlot → Bool
ready threshold now reading none = false
ready threshold now reading (some slot) = (is_eligible threshold slot now reading).0

-- A position that has not been tried, holds a slot out of cooldown, and is below its ceiling.
unfoldable pub usable : List ℕ → ℕ → (ℕ → ℕ) → KeyPool → ℕ → Bool
usable tried now clock p j =
    not (contains tried j) && ready p.pacing_threshold now (clock j) (get_elem? p.slots j)

-- How far the pointer has to move to reach a position.
abbrev pub ring_distance : ℕ → ℕ → ℕ → ℕ
ring_distance n i j = if leb i j then j - i else j + n - i

next_index : (n i : ℕ) → i < n → (i + 1) % n ≡ (if nat_beq (i + 1) n then 0 else i + 1)
next_index n i h = elim (Bool-cases (nat_beq (i + 1) n)) [
  | inl wraps ↦ rw wraps (rw ((nat_beq_iff (i + 1) n).0 wraps) (mod_self n))
  | inr inside ↦ rw inside (mod-eq_of_lt (ground arith))
]

module _ (tried : List ℕ) (now : ℕ) (clock : ℕ → ℕ) (p : KeyPool)
    (h : p.index < length p.slots) where
  index-examine : (examine tried now clock p).1.index ≡ (p.index + 1) % length p.slots
  unfolding examine
  index-examine = let (slot, e) = get_elem?_in_range p.slots p.index h in rw e (ground arith)

  pub length-examine : length (examine tried now clock p).1.slots ≡ length p.slots
  unfolding examine
  length-examine =
      let (slot, e) = get_elem?_in_range p.slots p.index h in rw e (grind (arith, length-set))

  pub examine-usable : (examine tried now clock p).0 ≡ usable tried now clock p p.index
  unfolding examine usable
  examine-usable = let (slot, e) = get_elem?_in_range p.slots p.index h in rw e (ground arith)

  threshold-examine : (examine tried now clock p).1.pacing_threshold ≡ p.pacing_threshold
  unfolding examine
  threshold-examine = let (slot, e) = get_elem?_in_range p.slots p.index h in rw e (ground arith)

  slot-examine :
      (j : ℕ)
      → nat_beq p.index j ≡ false
      → get_elem? (examine tried now clock p).1.slots j ≡ get_elem? p.slots j
  unfolding examine
  slot-examine j d =
      let (slot, e) = get_elem?_in_range p.slots p.index h in
      rw e (
        ground (
          arith,
          get_elem?-set_ne p.slots p.index j
              (settle (is_eligible p.pacing_threshold slot now (clock p.index)).0
                (is_eligible p.pacing_threshold slot now (clock p.index)).1)
              d,
        ))

  pub usable-examine :
      (j : ℕ)
      → nat_beq p.index j ≡ false
      → usable tried now clock (examine tried now clock p).1 j ≡ usable tried now clock p j
  unfolding usable
  usable-examine j d = rw (slot-examine j d, threshold-examine)

-- After a full step round, the position that the pointer left is the farthest.
ring_distance-next_self : (n i : ℕ) → i < n → suc (ring_distance n ((i + 1) % n) i) ≡ n
ring_distance-next_self n i h = rw (next_index n i h) (ground arith)

-- One step of the pointer comes one nearer to every position but its own.
ring_distance-next :
    (n i j : ℕ)
    → i < n
    → j < n
    → nat_beq i j ≡ false
    → suc (ring_distance n ((i + 1) % n) j) ≡ ring_distance n i j
ring_distance-next n i j h r d = rw (next_index n i h) (ground arith)

module _ (tried : List ℕ) (now : ℕ) (clock : ℕ → ℕ) (p : KeyPool)
    (h : p.index < length p.slots) where
  pub index_in_range-examine :
      (examine tried now clock p).1.index < length (examine tried now clock p).1.slots
  index_in_range-examine =
      rw (index-examine tried now clock p h, length-examine tried now clock p h)
        (mod-lt _ (omega arith))

  distance-examine :
      (j : ℕ)
      → j < length p.slots
      → nat_beq p.index j ≡ false
      → suc (
          ring_distance
            (length (examine tried now clock p).1.slots)
            (examine tried now clock p).1.index
            j)
        ≡ ring_distance (length p.slots) p.index j
  distance-examine j r d =
      rw (index-examine tried now clock p h, length-examine tried now clock p h)
        (ring_distance-next (length p.slots) p.index j h r d)

module _ (tried : List ℕ) (now : ℕ) (clock : ℕ → ℕ) where
  -- After so many turns without a find, every position that near the pointer is unusable.
  scan-none :
      (turns : ℕ) (p : KeyPool)
      → p.index < length p.slots
      → (scan turns tried now clock p).0 ≡ none
      → (j : ℕ) → j < length p.slots
      → ring_distance (length p.slots) p.index j < turns
      → usable tried now clock p j ≡ false
  unfolding scan
  scan-none zero p h e j r d = absurd (omega arith)
  scan-none (suc turns) p h e j r d = elim (Bool-cases (examine tried now clock p).0) [
    | inl found ↦ cc (rw found at e)
    | inr passed ↦ elim (Bool-cases (nat_beq p.index j)) [
      | inl same ↦
          rw (← (nat_beq_iff p.index j).0 same, ← examine-usable tried now clock p h) passed
      | inr other ↦ rw (← usable-examine tried now clock p h j other) (
          scan-none turns (examine tried now clock p).1 (index_in_range-examine tried now clock p h)
            (rw passed at e) j (omega (arith, length-examine tried now clock p h))
            (omega (arith, distance-examine tried now clock p h j r other)))
    ]
  ]

  record IsFirst (turns : ℕ) (p : KeyPool) (k : ℕ) : Type 0 where
    in_range : k < length p.slots
    near : ring_distance (length p.slots) p.index k < turns
    fit : usable tried now clock p k ≡ true
    first :
        (j : ℕ)
        → j < length p.slots
        → ring_distance (length p.slots) p.index j < ring_distance (length p.slots) p.index k
        → usable tried now clock p j ≡ false
    moved : (scan turns tried now clock p).1.index ≡ (k + 1) % length p.slots
    kept : length (scan turns tried now clock p).1.slots ≡ length p.slots

  module _ (turns : ℕ) (p : KeyPool) (h : p.index < length p.slots) where
    scan_found : (examine tried now clock p).0 ≡ true → IsFirst (suc turns) p p.index
    unfolding scan
    scan_found found = record {
      in_range = h;
      near = ground arith;
      fit = rw (← examine-usable tried now clock p h) found;
      first = λ j r d. ground arith;
      moved = rw found (index-examine tried now clock p h);
      kept = rw found (length-examine tried now clock p h);
    }

    passed_before :
        (k : ℕ)
        → nat_beq p.index k ≡ false
        → (examine tried now clock p).0 ≡ false
        → IsFirst turns (examine tried now clock p).1 k
        → (j : ℕ) → j < length p.slots
        → ring_distance (length p.slots) p.index j < ring_distance (length p.slots) p.index k
        → usable tried now clock p j ≡ false
    passed_before k other passed ih j s d = elim (Bool-cases (nat_beq p.index j)) [
      | inl same ↦
          rw (← (nat_beq_iff p.index j).0 same, ← examine-usable tried now clock p h) passed
      | inr away ↦ rw (← usable-examine tried now clock p h j away) (
          ih.first j (omega (arith, length-examine tried now clock p h)) (
            omega (
              arith,
              distance-examine tried now clock p h j s away,
              distance-examine tried now clock p h k
                  (omega (arith, ih.in_range, length-examine tried now clock p h)) other,
            )))
    ]

    scan_passed :
        (k : ℕ)
        → nat_beq p.index k ≡ false
        → (examine tried now clock p).0 ≡ false
        → IsFirst turns (examine tried now clock p).1 k
        → IsFirst (suc turns) p k
    unfolding scan
    scan_passed k other passed ih =
        let r : k < length p.slots =
          omega (arith, ih.in_range, length-examine tried now clock p h) in
        record {
          in_range = r;
          near = omega (arith, ih.near, distance-examine tried now clock p h k r other);
          fit = rw (← usable-examine tried now clock p h k other) ih.fit;
          first = passed_before k other passed ih;
          moved = rw passed (rw (← length-examine tried now clock p h) ih.moved);
          kept = rw passed (ih.kept ∙ length-examine tried now clock p h);
        }

    near_self :
        {k : ℕ}
        → p.index ≡ k
        → IsFirst turns (examine tried now clock p).1 k
        → ring_distance (length p.slots) ((p.index + 1) % length p.slots) p.index < turns
    near_self same ih =
        rw (← index-examine tried now clock p h, ← length-examine tried now clock p h)
          (rw (← same) at ih.near)

    far_from_self :
        (k : ℕ)
        → turns < length p.slots
        → IsFirst turns (examine tried now clock p).1 k
        → nat_beq p.index k ≡ false
    far_from_self k t ih = elim (Bool-cases (nat_beq p.index k)) [
      | inl same ↦ absurd (
          omega (
            arith,
            ring_distance-next_self (length p.slots) p.index h,
            near_self ((nat_beq_iff p.index k).0 same) ih,
          ))
      | inr other ↦ other
    ]

  scan-IsFirst :
      (turns : ℕ) (p : KeyPool) (k : ℕ)
      → p.index < length p.slots
      → turns ≤ length p.slots
      → (scan turns tried now clock p).0 ≡ some k
      → IsFirst turns p k
  unfolding scan
  scan-IsFirst zero p k h t e = cc
  scan-IsFirst (suc turns) p k h t e = elim (Bool-cases (examine tried now clock p).0) [
    | inl found ↦
        subst (IsFirst (suc turns) p) (some_injective (rw found at e)) (scan_found turns p h found)
    | inr passed ↦
        let ih =
          scan-IsFirst turns (examine tried now clock p).1 k
            (index_in_range-examine tried now clock p h)
            (omega (arith, length-examine tried now clock p h)) (rw passed at e) in
        scan_passed turns p h k (far_from_self turns p h k t ih) passed ih
  ]

module _ (tried : List ℕ) (now : ℕ) (clock : ℕ → ℕ) (p : KeyPool)
    (h : p.index < length p.slots) where
  ring_distance-lt :
      (j : ℕ) → j < length p.slots → ring_distance (length p.slots) p.index j < length p.slots
  ring_distance-lt j r = ground arith

  -- With the pointer in range, the selection comes back empty exactly when no position of the ring is
  -- usable: each has been tried, cools down, or is at its ceiling.
  pub select_eligible-none_iff :
      ((select_eligible tried now clock p).0 ≡ none)
      ↔ ((j : ℕ) → j < length p.slots → usable tried now clock p j ≡ false)
  unfolding select_eligible
  select_eligible-none_iff = (
    λ e j r. scan-none tried now clock (length p.slots) p h e j r (ring_distance-lt j r),
    λ all. elim (Option-cases (scan (length p.slots) tried now clock p).0) [
      | inl missed ↦ missed
      | inr (k, found) ↦
          let first = scan-IsFirst tried now clock (length p.slots) p k h (le_refl _) found in
          cc (first.fit, all k first.in_range)
    ],
  )

  -- With the pointer in range, the position that is handed out is usable, every position between the
  -- pointer and it is not, and the pointer stands one behind it afterwards, still in range.
  pub select_eligible-first :
      (k : ℕ)
      → (select_eligible tried now clock p).0 ≡ some k
      → (k < length p.slots)
        × (usable tried now clock p k ≡ true)
        × ((j : ℕ)
            → j < length p.slots
            → ring_distance (length p.slots) p.index j < ring_distance (length p.slots) p.index k
            → usable tried now clock p j ≡ false)
        × ((select_eligible tried now clock p).1.index ≡ (k + 1) % length p.slots)
        × (length (select_eligible tried now clock p).1.slots ≡ length p.slots)
  unfolding select_eligible
  select_eligible-first k e =
      let found = scan-IsFirst tried now clock (length p.slots) p k h (le_refl _) e in
      (found.in_range, found.fit, found.first, found.moved, found.kept)
