-- ===== src/KeyPool.antt =====
-- providers/key_pool.py: the keys of one provider, the round-robin selection of a usable key, and
-- the state changes of one key. The rotation of one request is in KeyPool/Rotation. Clock readings
-- and durations are numbers of ticks. A slot is known by its position, as the code knows it by its
-- identity.
pub mod Selection
pub mod Frame
pub mod Rotation
mod Missed
pub mod Lap
pub mod FullLap
pub mod Cooldown
mod Examples
use test2_freeclaudecode.Prelude.{
  nat_eq, ℕ, zero, suc, ◌+◌, ◌-◌, ◌*◌, ◌%◌, max, String, Bool, true, false, Option, none, some,
  List, [], ◌∷◌, map, length, get_elem?, set, contains, ltb, nat_beq, if◌then◌else◌, ◌||◌,
}
use test2_freeclaudecode.RateLimit.{StrictSlidingWindowLimiter, count_in_window}

pub record KeySlot : Type 0 where
  pub api_key : String
  pub limiter : StrictSlidingWindowLimiter
  pub cooldown_until : ℕ
  pub was_unavailable : Bool

unfoldable pub in_cooldown : KeySlot → ℕ → Bool
in_cooldown slot now = ltb now slot.cooldown_until

pub record KeyPool : Type 0 where
  pub per_key_rpm : ℕ
  pub cooldown_seconds : ℕ
  pub pacing_threshold : ℕ
  pub overload_cooldown_seconds : ℕ
  pub slots : List KeySlot
  pub index : ℕ

fresh_slot : ℕ → ℕ → String → KeySlot
fresh_slot rpm window key = record {
  api_key = key;
  limiter = record { rate_limit = rpm; rate_window = window; times = [] };
  cooldown_until = 0;
  was_unavailable = false;
}

is_empty {ℓ} : {A : Type ℓ} → List A → Bool
is_empty [] = true
is_empty (x ∷ xs) = false

-- `none` is the ValueError of the constructor.
unfoldable pub new_pool : List String → ℕ → ℕ → ℕ → ℕ → ℕ → Option KeyPool
unfolding fresh_slot is_empty
new_pool keys rpm window cooldown headroom overload =
    if is_empty keys || nat_beq rpm 0 || nat_beq window 0
    then none
    else some (record {
      per_key_rpm = rpm;
      cooldown_seconds = cooldown;
      pacing_threshold = max 1 (rpm - headroom);
      overload_cooldown_seconds = overload;
      slots = map (fresh_slot rpm window) keys;
      index = 0;
    })

unfoldable pub total_rpm : KeyPool → ℕ
total_rpm p = p.per_key_rpm * length p.slots

-- The count drops expired stamps, so the slot comes back too. `reading` is the clock that
-- `count_in_window` reads for itself.
unfoldable pub is_eligible : ℕ → KeySlot → ℕ → ℕ → Bool × KeySlot
unfolding in_cooldown count_in_window
is_eligible threshold slot now reading =
    if in_cooldown slot now
    then (false, slot)
    else let (count, limiter) = count_in_window reading slot.limiter in
      (ltb count threshold, record slot { limiter = limiter })

unfoldable pub note_recovery : KeySlot → KeySlot
note_recovery slot = record slot { was_unavailable = false }

-- The recovery mark is cleared on the slot that is handed out.
settle : Bool → KeySlot → KeySlot
unfolding note_recovery
settle true slot = note_recovery slot
settle false slot = slot

-- One turn of the loop of `_select_eligible`: the pointer moves on, and the slot that it left is
-- taken or passed over. The missing slot is an IndexError, which the pointer's range excludes.
unfoldable pub examine_slot : Option KeySlot → List ℕ → ℕ → (ℕ → ℕ) → KeyPool → Bool × KeyPool
unfolding is_eligible settle
examine_slot none tried now clock p = (false, p)
examine_slot (some slot) tried now clock p =
    let moved = record p { index = (p.index + 1) % length p.slots } in
    if contains tried p.index
    then (false, moved)
    else let (usable, counted) = is_eligible p.pacing_threshold slot now (clock p.index) in
      (usable, record moved { slots = set p.slots p.index (settle usable counted) })

unfoldable pub examine : List ℕ → ℕ → (ℕ → ℕ) → KeyPool → Bool × KeyPool
unfolding examine_slot
examine tried now clock p = examine_slot (get_elem? p.slots p.index) tried now clock p

-- The loop over the ring, for so many more turns.
unfoldable pub scan : ℕ → List ℕ → ℕ → (ℕ → ℕ) → KeyPool → Option ℕ × KeyPool
scan zero tried now clock p = (none, p)
scan (suc turns) tried now clock p =
    let (usable, after) = examine tried now clock p in
    let rest = scan turns tried now clock after in if usable then (some p.index, after) else rest

-- The position of the slot that is handed out. `clock j` is the reading at which slot j is counted:
-- a scan counts a slot at most once.
unfoldable pub select_eligible : List ℕ → ℕ → (ℕ → ℕ) → KeyPool → Option ℕ × KeyPool
unfolding scan
select_eligible tried now clock p = scan (length p.slots) tried now clock p

unfoldable pub enter_cooldown : ℕ → ℕ → KeySlot → KeySlot
enter_cooldown now cooldown slot = record slot {
  cooldown_until = now + cooldown;
  was_unavailable = true;
}

abbrev pub map_some : (KeySlot → KeySlot) → List KeySlot → ℕ → Option KeySlot → List KeySlot
map_some f slots j none = slots
map_some f slots j (some slot) = set slots j (f slot)

-- A write to the fields of the slot at a position.
unfoldable pub update_slot : ℕ → (KeySlot → KeySlot) → KeyPool → KeyPool
update_slot j f p = record p { slots = map_some f p.slots j (get_elem? p.slots j) }

-- The least of the cooldown ends that lie ahead.
unfoldable pub soonest_of : ℕ → List KeySlot → Option ℕ
unfolding in_cooldown
soonest_of now [] = none
soonest_of now (slot ∷ slots) =
    let rest = soonest_of now slots in
    if in_cooldown slot now
    then elim rest [
      | none ↦ some slot.cooldown_until
      | some t ↦ some (if ltb t slot.cooldown_until then t else slot.cooldown_until)
    ]
    else rest

unfoldable pub soonest_recovery : ℕ → KeyPool → Option ℕ
unfolding soonest_of
soonest_recovery now p = soonest_of now p.slots
