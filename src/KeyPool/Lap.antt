-- ===== src/KeyPool/Lap.antt =====
-- What `create_with_rotation` guarantees of one request, whatever the provider answers and whatever
-- other tasks do to the pool meanwhile.
use test2_freeclaudecode.Prelude.{
  ℕ, zero, suc, ◌+◌, ◌≤◌, ◌≡◌, refl, true, false, Option, none, some, List, [], ◌∷◌, ◌++◌, length,
  get_elem?, contains, distinct, distinct-snoc, length-append, arith, Option-cases, ◌⊎◌, inl, inr,
  nat_eq,
}
use test2_freeclaudecode.KeyPool.{
  KeySlot, KeyPool, examine_slot, examine, scan, soonest_recovery, select_eligible,
}
use test2_freeclaudecode.KeyPool.Rotation.{
  LapResult, exhausted, World, Attempt, finished, rotate, run_attempt, lap, create_with_rotation,
}

module _ (tried : List ℕ) (now : ℕ) (clock : ℕ → ℕ) where
  examine_slot-not_tried :
      (o : Option KeySlot) (p : KeyPool)
      → (examine_slot o tried now clock p).0 ≡ true
      → contains tried p.index ≡ false
  unfolding examine_slot
  examine_slot-not_tried none p h = cc
  examine_slot-not_tried (some slot) p h = ground arith

  scan-not_tried :
      (turns : ℕ) (p : KeyPool) (k : ℕ)
      → (scan turns tried now clock p).0 ≡ some k
      → contains tried k ≡ false
  unfolding scan examine
  scan-not_tried zero p k h = cc
  scan-not_tried (suc turns) p k h = ground (
    arith,
    examine_slot-not_tried (get_elem? p.slots p.index) p,
    scan-not_tried turns (examine tried now clock p).1 k,
  )

  pub select_eligible-not_tried :
      (p : KeyPool) (k : ℕ)
      → (select_eligible tried now clock p).0 ≡ some k
      → contains tried k ≡ false
  unfolding select_eligible
  select_eligible-not_tried p k h = scan-not_tried (length p.slots) p k h

module _ {T E : Type 0} where
  Attempt-cases :
      (a : Attempt T E)
      → ((r : LapResult T E) × (q : KeyPool) × (a ≡ finished r q))
        ⊎ ((c : ℕ) × (l : Option E) × (q : KeyPool) × (a ≡ rotate c l q))
  Attempt-cases (finished r q) = inl (r, q, refl)
  Attempt-cases (rotate c l q) = inr (c, l, q, refl)

module _ {T E : Type 0} (w : World T E) where
  abbrev pub chosen : ℕ → List ℕ → KeyPool → Option ℕ
  chosen attempt tried p =
      (select_eligible tried (w.selected_at attempt) (w.counted_at attempt) p).0

  abbrev pub selected : ℕ → List ℕ → KeyPool → KeyPool
  selected attempt tried p =
      (select_eligible tried (w.selected_at attempt) (w.counted_at attempt) p).1

  -- The turn of the lap with the slot at a position.
  abbrev pub tried_with : ℕ → List ℕ → ℕ → KeyPool → ℕ → Attempt T E
  tried_with attempt tried consecutive p j =
      let q = selected attempt tried p in
      run_attempt w attempt j consecutive (get_elem? q.slots j) q

  abbrev pub given_up : ℕ → Option E → List ℕ → KeyPool → LapResult T E × List ℕ × KeyPool
  given_up attempt last tried p =
      (exhausted (soonest_recovery (w.given_up_at attempt) p) last, tried, p)

  -- The rule for the loop: an invariant of its state, and what each way out makes of it.
  module _ (Inv : ℕ → ℕ → List ℕ → ℕ → Option E → KeyPool → Type 0)
      (Post : LapResult T E × List ℕ × KeyPool → Type 0)
      (at_end : (attempt : ℕ) (tried : List ℕ) (c : ℕ) (last : Option E) (p : KeyPool)
        → Inv zero attempt tried c last p
        → Post (given_up attempt last tried p))
      (at_miss : (turns attempt : ℕ) (tried : List ℕ) (c : ℕ) (last : Option E) (p : KeyPool)
        → Inv (suc turns) attempt tried c last p
        → chosen attempt tried p ≡ none
        → Post (given_up attempt last tried (selected attempt tried p)))
      (at_finish : (turns attempt : ℕ) (tried : List ℕ) (c : ℕ) (last : Option E) (p : KeyPool)
          (j : ℕ) (r : LapResult T E) (q : KeyPool)
        → Inv (suc turns) attempt tried c last p
        → chosen attempt tried p ≡ some j
        → tried_with attempt tried c p j ≡ finished r q
        → Post (r, tried ++ j ∷ [], q))
      (at_rotate : (turns attempt : ℕ) (tried : List ℕ) (c : ℕ) (last : Option E) (p : KeyPool)
          (j c' : ℕ) (last' : Option E) (q : KeyPool)
        → Inv (suc turns) attempt tried c last p
        → chosen attempt tried p ≡ some j
        → tried_with attempt tried c p j ≡ rotate c' last' q
        → Inv turns (attempt + 1) (tried ++ j ∷ []) c' last' q) where
    pub lap_rule :
        (turns attempt : ℕ) (tried : List ℕ) (c : ℕ) (last : Option E) (p : KeyPool)
        → Inv turns attempt tried c last p
        → Post (lap w turns attempt tried c last p)
    unfolding lap
    lap_rule zero attempt tried c last p i = at_end attempt tried c last p i
    lap_rule (suc turns) attempt tried c last p i = elim (Option-cases (chosen attempt tried p)) [
      | inl missed ↦ rw (missed, lap) (at_miss turns attempt tried c last p i missed)
      | inr (j, found) ↦ elim (Attempt-cases (tried_with attempt tried c p j)) [
        | inl (r, q, over) ↦
            rw (found, lap) (rw over (at_finish turns attempt tried c last p j r q i found over))
        | inr (c', last', q, more) ↦
            rw (found, lap)
              (rw more (
                lap_rule turns (attempt + 1) (tried ++ j ∷ []) c' last' q
                  (at_rotate turns attempt tried c last p j c' last' q i found more)))
      ]
    ]

  -- One request dispatches through each slot at most once, and through no more slots than the pool
  -- has, whatever the provider answers and whatever other tasks do to the pool.
  pub create_with_rotation-distinct :
      (p : KeyPool)
      → let (result, tried, after) = create_with_rotation w p in
        (distinct tried ≡ true) × (length tried ≤ length p.slots)
  unfolding create_with_rotation
  create_with_rotation-distinct p =
      lap_rule
        (λ turns attempt tried c last q.
          (distinct tried ≡ true) × (length tried + turns ≤ length p.slots))
        (λ (result, tried, after). (distinct tried ≡ true) × (length tried ≤ length p.slots))
        (λ attempt tried c last q i. (i.0, omega arith))
        (λ turns attempt tried c last q i missed. (i.0, omega arith))
        (λ turns attempt tried c last q j r q' i found over. (
          distinct-snoc tried j i.0 (select_eligible-not_tried tried _ _ q j found),
          omega (arith, length-append tried (j ∷ [])),
        ))
        (λ turns attempt tried c last q j c' last' q' i found more. (
          distinct-snoc tried j i.0 (select_eligible-not_tried tried _ _ q j found),
          omega (arith, length-append tried (j ∷ [])),
        ))
        (length p.slots) 1 [] 0 none p (refl, omega arith)
