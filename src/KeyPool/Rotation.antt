-- ===== src/KeyPool/Rotation.antt =====
-- `create_with_rotation` of providers/key_pool.py: one request tries the keys of the pool in turn.
-- What the request meets is a `World`: the clock, the answers of the provider, and what other tasks
-- did to the pool while this one was suspended. The classification of an error belongs to the
-- client library and to the failure policy, so it is a parameter.
use test2_freeclaudecode.Prelude.{
  ℕ, zero, suc, ◌+◌, String, Bool, Option, none, some, List, [], ◌∷◌, ◌++◌, length, get_elem?, leb,
  if◌then◌else◌,
}
use test2_freeclaudecode.RateLimit.{record_dispatch}
use test2_freeclaudecode.KeyPool.{
  KeySlot, KeyPool, select_eligible, enter_cooldown, update_slot, soonest_recovery,
}

-- What `create_fn` did: it returned, or it raised.
pub data Outcome (T E : Type 0) : Type 0 where
  created : T → Outcome T E
  raised : E → Outcome T E

pub data LapResult (T E : Type 0) : Type 0 where
  returned : T → LapResult T E
  reraised : E → LapResult T E
  exhausted : Option ℕ → Option E → LapResult T E

pub record World (T E : Type 0) : Type 0 where
  pub is_rate_limited : E → Bool
  pub is_overloaded : E → Bool
  -- the readings of the clock in an attempt: by the selection, at each slot that it counts, at the
  -- dispatch, at the cooldown, and by `_soonest_recovery`
  pub selected_at : ℕ → ℕ
  pub counted_at : ℕ → ℕ → ℕ
  pub dispatched_at : ℕ → ℕ
  pub cooled_at : ℕ → ℕ
  pub given_up_at : ℕ → ℕ
  -- the answer to an attempt that is made with a key
  pub create : ℕ → String → Outcome T E
  -- what other tasks did to the pool meanwhile
  pub during_sleep : ℕ → KeyPool → KeyPool
  pub during_create : ℕ → KeyPool → KeyPool

-- How an attempt ends: with the request's result, or with the lap's next state.
pub data Attempt (T E : Type 0) : Type 0 where
  finished : LapResult T E → KeyPool → Attempt T E
  rotate : ℕ → Option E → KeyPool → Attempt T E

module _ {T E : Type 0} (w : World T E) where
  -- The `except` clauses.
  unfoldable pub settle_attempt : ℕ → ℕ → ℕ → Outcome T E → KeyPool → Attempt T E
  settle_attempt attempt j consecutive (created t) p = finished (returned t) p
  settle_attempt attempt j consecutive (raised e) p =
      if w.is_rate_limited e
      then rotate (consecutive + 1) (some e)
          (update_slot j (enter_cooldown (w.cooled_at attempt) p.cooldown_seconds) p)
      else if w.is_overloaded e
      then rotate consecutive (some e)
          (update_slot j (enter_cooldown (w.cooled_at attempt) p.overload_cooldown_seconds) p)
      else finished (reraised e) p

  abbrev pub note_dispatch : ℕ → KeySlot → KeySlot
  note_dispatch stamp slot = record slot { limiter = record_dispatch stamp slot.limiter }

  -- The backoff, which lets other tasks run, and the dispatch on the slot's window.
  unfoldable pub dispatch : ℕ → ℕ → ℕ → KeyPool → KeyPool
  dispatch attempt j consecutive p =
      update_slot j (note_dispatch (w.dispatched_at attempt))
        (if leb 2 consecutive then w.during_sleep attempt p else p)

  -- One turn of the lap with the slot that was selected. The credential is the slot's own key,
  -- which nothing changes.
  unfoldable pub run_attempt : ℕ → ℕ → ℕ → Option KeySlot → KeyPool → Attempt T E
  unfolding settle_attempt dispatch
  run_attempt attempt j consecutive none p = finished (exhausted none none) p
  run_attempt attempt j consecutive (some slot) p =
      settle_attempt attempt j consecutive (w.create attempt slot.api_key)
        (w.during_create attempt (dispatch attempt j consecutive p))

  give_up : ℕ → Option E → List ℕ → KeyPool → LapResult T E × List ℕ × KeyPool
  give_up attempt last_error tried p =
      (exhausted (soonest_recovery (w.given_up_at attempt) p) last_error, tried, p)

  -- The loop, for so many more turns. The positions that were tried come back with the result, in
  -- the order of their dispatch.
  unfoldable pub lap : ℕ → ℕ → List ℕ → ℕ → Option E → KeyPool → LapResult T E × List ℕ × KeyPool
  unfolding give_up
  lap zero attempt tried consecutive last_error p = give_up attempt last_error tried p
  lap (suc turns) attempt tried consecutive last_error p =
      let (found, selected) =
        select_eligible tried (w.selected_at attempt) (w.counted_at attempt) p in
      elim found [
        | none ↦ give_up attempt last_error tried selected
        | some j ↦ elim (run_attempt attempt j consecutive (get_elem? selected.slots j) selected) [
          | finished result after ↦ (result, tried ++ j ∷ [], after)
          | rotate consecutive' last_error' after ↦
              lap turns (attempt + 1) (tried ++ j ∷ []) consecutive' last_error' after
        ]
      ]

  unfoldable pub create_with_rotation : KeyPool → LapResult T E × List ℕ × KeyPool
  unfolding lap
  create_with_rotation p = lap (length p.slots) 1 [] 0 none p
