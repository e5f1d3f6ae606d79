-- ===== src/KeyPool/Missed.antt =====
-- What a scan of `_select_eligible` that finds nothing leaves behind.
use test2_freeclaudecode.Prelude.{
  ℕ, zero, suc, ◌<◌, ◌≡◌, refl, ◌∙◌, false, none, List, [], length, contains, get_elem?_in_range,
  get_elem?-set_self, arith, Bool-cases, inl, inr, nat_eq, nat_beq, nat_beq_iff,
}
use test2_freeclaudecode.RateLimit.Progress.{count_in_window_again}
use test2_freeclaudecode.KeyPool.{KeySlot, KeyPool, is_eligible, examine, scan, select_eligible}
use test2_freeclaudecode.KeyPool.Selection.{
  usable, usable-examine, index_in_range-examine, select_eligible-none_iff,
}

ready_again :
    (threshold now reading : ℕ) (slot : KeySlot)
    → (is_eligible threshold (is_eligible threshold slot now reading).1 now reading).0
      ≡ (is_eligible threshold slot now reading).0
unfolding is_eligible
ready_again threshold now reading slot = ground (arith, count_in_window_again reading slot.limiter)

module _ (tried : List ℕ) (now : ℕ) (clock : ℕ → ℕ) where
  -- A slot that was passed over is as usable afterwards as before.
  usable-passed_self :
      (p : KeyPool)
      → p.index < length p.slots
      → (examine tried now clock p).0 ≡ false
      → usable tried now clock (examine tried now clock p).1 p.index
        ≡ usable tried now clock p p.index
  unfolding examine usable
  usable-passed_self p h passed =
      let (slot, e) = get_elem?_in_range p.slots p.index h in
      rw e (
        ground (
          arith,
          e,
          ready_again p.pacing_threshold now (clock p.index) slot,
          get_elem?-set_self p.slots p.index
              (is_eligible p.pacing_threshold slot now (clock p.index)).1 h,
          rw e at passed,
        ))

  usable-passed :
      (p : KeyPool) (j : ℕ)
      → p.index < length p.slots
      → (examine tried now clock p).0 ≡ false
      → usable tried now clock (examine tried now clock p).1 j ≡ usable tried now clock p j
  usable-passed p j h passed = elim (Bool-cases (nat_beq p.index j)) [
    | inl same ↦ rw (← (nat_beq_iff p.index j).0 same) (usable-passed_self p h passed)
    | inr other ↦ usable-examine tried now clock p h j other
  ]

  scan-none-usable :
      (turns : ℕ) (p : KeyPool) (j : ℕ)
      → p.index < length p.slots
      → (scan turns tried now clock p).0 ≡ none
      → usable tried now clock (scan turns tried now clock p).1 j ≡ usable tried now clock p j
  unfolding scan
  scan-none-usable zero p j h e = refl
  scan-none-usable (suc turns) p j h e = elim (Bool-cases (examine tried now clock p).0) [
    | inl found ↦ cc (rw found at e)
    | inr passed ↦ rw passed (
        scan-none-usable turns (examine tried now clock p).1 j
          (index_in_range-examine tried now clock p h) (rw passed at e)
        ∙ usable-passed p j h passed)
  ]

  usable-fresh :
      (p : KeyPool) (j : ℕ)
      → contains tried j ≡ false
      → usable [] now clock p j ≡ usable tried now clock p j
  unfolding usable
  usable-fresh p j fresh = rw fresh

  -- When the selection comes back empty, every untried slot of the pool that it leaves is unusable.
  pub missed_all :
      (p : KeyPool) (j : ℕ)
      → p.index < length p.slots
      → (select_eligible tried now clock p).0 ≡ none
      → j < length p.slots
      → contains tried j ≡ false
      → usable [] now clock (select_eligible tried now clock p).1 j ≡ false
  unfolding select_eligible
  missed_all p j h e r fresh =
      usable-fresh (scan (length p.slots) tried now clock p).1 j fresh
      ∙ scan-none-usable (length p.slots) p j h e
      ∙ (unfold select_eligible in (select_eligible-none_iff tried now clock p h).0 e j r)
