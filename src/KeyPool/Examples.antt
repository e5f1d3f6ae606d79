-- ===== src/KeyPool/Examples.antt =====
-- Runs of the key pool at concrete inputs.
use test2_freeclaudecode.Prelude.{
  if◌then◌else◌, ℕ, ◌+◌, ◌≤◌, ◌<◌, ◌%◌, ◌≡◌, refl, ◌↔◌, String, true, false, none, some, List, [],
  ◌∷◌, length, get_elem?, distinct, nat_eq, nat_beq, arith,
}
use test2_freeclaudecode.RateLimit.{record_dispatch}
use test2_freeclaudecode.KeyPool.{
  KeySlot, KeyPool, new_pool, total_rpm, examine, update_slot, select_eligible, enter_cooldown,
  soonest_recovery,
}
use test2_freeclaudecode.KeyPool.Frame.{cooldown_ends}
use test2_freeclaudecode.KeyPool.Selection.{
  usable, ring_distance, select_eligible-none_iff, select_eligible-first,
}
use test2_freeclaudecode.KeyPool.Rotation.{
  Outcome, created, raised, returned, World, rotate, settle_attempt, create_with_rotation,
  run_attempt,
}
use test2_freeclaudecode.KeyPool.Lap.{create_with_rotation-distinct}
use test2_freeclaudecode.KeyPool.Cooldown.{settle_attempt-cools, EndsAt, soonest_recovery-least}

abbrev slot : String → ℕ → KeySlot
slot key until = record {
  api_key = key;
  limiter = record { rate_limit = 40; rate_window = 60; times = [] };
  cooldown_until = until;
  was_unavailable = false;
}

-- Three keys, the second in cooldown until 500, the pointer at the second.
abbrev pool : KeyPool
pool = record {
  per_key_rpm = 40;
  cooldown_seconds = 60;
  pacing_threshold = 38;
  overload_cooldown_seconds = 30;
  slots = slot "k1" 0 ∷ slot "k2" 500 ∷ slot "k3" 0 ∷ [];
  index = 1;
}

-- Errors are status codes. Attempt 1 is rate limited, attempt 2 returns 7.
answer : ℕ → Outcome ℕ ℕ
answer n = if nat_beq n 1 then raised 429 else created 7

abbrev world : World ℕ ℕ
world = record {
  is_rate_limited = λ e. nat_beq e 429;
  is_overloaded = λ e. nat_beq e 503;
  selected_at = λ a. 100 + a;
  counted_at = λ a j. 100 + a;
  dispatched_at = λ a. 100 + a;
  cooled_at = λ a. 100 + a;
  given_up_at = λ a. 100 + a;
  create = λ a key. answer a;
  during_sleep = λ a p. p;
  during_create = λ a p. p;
}

second_key_answers :
    let (result, tried, after) = create_with_rotation world pool in
    (result ≡ returned 7) × (tried ≡ 2 ∷ 0 ∷ []) × (after.index ≡ 1)
unfolding create_with_rotation select_eligible examine run_attempt record_dispatch enter_cooldown
    update_slot answer
second_key_answers = (refl, refl, refl)

capacity : total_rpm pool ≡ 120
unfolding total_rpm
capacity = refl

no_keys : new_pool [] 40 60 60 2 30 ≡ none
unfolding new_pool
no_keys = refl

create_with_rotation-distinct_example :
    let (result, tried, after) = create_with_rotation world pool in
    (distinct tried ≡ true) × (length tried ≤ 3)
create_with_rotation-distinct_example = create_with_rotation-distinct world pool

select_eligible-none_iff_example :
    ((select_eligible (0 ∷ 2 ∷ []) 100 (λ j. 100) pool).0 ≡ none)
    ↔ ((j : ℕ) → j < 3 → usable (0 ∷ 2 ∷ []) 100 (λ i. 100) pool j ≡ false)
select_eligible-none_iff_example =
    select_eligible-none_iff (0 ∷ 2 ∷ []) 100 (λ j. 100) pool (omega arith)

third_first : (select_eligible [] 100 (λ j. 100) pool).0 ≡ some 2
unfolding select_eligible examine
third_first = refl

select_eligible-first_example :
    (2 < length pool.slots)
    × (usable [] 100 (λ j. 100) pool 2 ≡ true)
    × ((j : ℕ)
        → j < length pool.slots
        → ring_distance (length pool.slots) pool.index j
          < ring_distance (length pool.slots) pool.index 2
        → usable [] 100 (λ i. 100) pool j ≡ false)
    × ((select_eligible [] 100 (λ j. 100) pool).1.index ≡ (2 + 1) % length pool.slots)
    × (length (select_eligible [] 100 (λ j. 100) pool).1.slots ≡ length pool.slots)
select_eligible-first_example =
    select_eligible-first [] 100 (λ j. 100) pool (omega arith) 2 third_first

-- An overload rotates too.
settle_attempt-cools_example :
    (c' : ℕ) × (q : KeyPool) × (s : KeySlot) × (settle_attempt world 1 2 0 (raised 503) pool
      ≡ rotate c' (some 503) q)
    × (get_elem? q.slots 2 ≡ some s)
    × (s.cooldown_until ≡ 101 + 30)
    × ((later : KeyPool) (s' : KeySlot) (tried : List ℕ) (now : ℕ) (clock : ℕ → ℕ)
        → get_elem? later.slots 2 ≡ some s'
        → s.cooldown_until ≤ s'.cooldown_until
        → now < s.cooldown_until
        → usable tried now clock later 2 ≡ false)
    × ((later : KeyPool) (tried : List ℕ) (now : ℕ) (clock : ℕ → ℕ)
        → later.index < length later.slots
        → cooldown_ends (select_eligible tried now clock later).1 ≡ cooldown_ends later)
    × ((i : ℕ) → nat_beq 2 i ≡ false → get_elem? q.slots i ≡ get_elem? pool.slots i)
settle_attempt-cools_example = settle_attempt-cools world 1 2 0 503 pool (omega arith) refl

recovery_at_500 : soonest_recovery 100 pool ≡ some 500
unfolding soonest_recovery
recovery_at_500 = refl

soonest_recovery-least_example :
    (100 < 500)
    × EndsAt 100 500 pool.slots
    × ((j : ℕ) × (s : KeySlot) × (get_elem? pool.slots j ≡ some s) × (s.cooldown_until ≡ 500))
soonest_recovery-least_example = soonest_recovery-least 100 500 pool recovery_at_500
