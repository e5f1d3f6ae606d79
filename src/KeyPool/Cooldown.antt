-- ===== src/KeyPool/Cooldown.antt =====
-- Cooldowns of `KeyPool`: what a failed attempt does to the slot it used and to the others, and the
-- recovery time that the exhaustion error names.
use test2_freeclaudecode.Prelude.{
  ℕ, ◌+◌, ◌≤◌, ◌<◌, ◌≡◌, refl, true, false, none, some, List, [], ◌∷◌, get_elem?, suc, Option-cases,
  some_injective, ◌∙◌, length, get_elem?_in_range, get_elem?-set_self, get_elem?-set_ne,
  if◌then◌else◌, arith, Bool-cases, inl, inr, ◌||◌, nat_beq, ltb,
}
use test2_freeclaudecode.KeyPool.{
  KeySlot, KeyPool, in_cooldown, is_eligible, enter_cooldown, update_slot, soonest_of,
  soonest_recovery, select_eligible,
}
use test2_freeclaudecode.KeyPool.Selection.{usable}
use test2_freeclaudecode.KeyPool.Frame.{cooldown_ends, cooldown_ends-select_eligible}
use test2_freeclaudecode.KeyPool.Rotation.{raised, World, rotate, settle_attempt}

slot-update_self :
    (p : KeyPool) (j : ℕ) (f : KeySlot → KeySlot)
    → j < length p.slots
    → (s : KeySlot) × (get_elem? (update_slot j f p).slots j ≡ some (f s))
unfolding update_slot
slot-update_self p j f h =
    let (s, e) = get_elem?_in_range p.slots j h in (s, rw e (get_elem?-set_self p.slots j (f s) h))

cooldown_until-update_slot :
    (p : KeyPool) (j at cooldown : ℕ)
    → j < length p.slots
    → (s : KeySlot) × (get_elem? (update_slot j (enter_cooldown at cooldown) p).slots j ≡ some s)
      × (s.cooldown_until ≡ at + cooldown)
unfolding enter_cooldown
cooldown_until-update_slot p j at cooldown h =
    let (s, e) = slot-update_self p j (enter_cooldown at cooldown) h in
    (enter_cooldown at cooldown s, e, refl)

slot-update_ne :
    (p : KeyPool) (i j : ℕ) (f : KeySlot → KeySlot)
    → j < length p.slots
    → nat_beq j i ≡ false
    → get_elem? (update_slot j f p).slots i ≡ get_elem? p.slots i
unfolding update_slot
slot-update_ne p i j f h ne =
    let (s, e) = get_elem?_in_range p.slots j h in rw e (get_elem?-set_ne p.slots j i (f s) ne)

-- A slot is not usable before its cooldown ends, whatever was tried and counted.
cooling-unusable :
    (q : KeyPool) (j at : ℕ) (s : KeySlot)
    → get_elem? q.slots j ≡ some s
    → at ≤ s.cooldown_until
    → (tried : List ℕ) (now : ℕ) (clock : ℕ → ℕ) → now < at
    → usable tried now clock q j ≡ false
unfolding usable is_eligible
cooling-unusable q j at s here ends tried now clock soon = ground (arith, here)

module _ {T E : Type 0} (w : World T E) where
  -- How long an error keeps a key out of the rotation.
  abbrev pub penalty : E → KeyPool → ℕ
  penalty e p = if w.is_rate_limited e then p.cooldown_seconds else p.overload_cooldown_seconds

  rotated :
      (attempt j c : ℕ) (e : E) (p : KeyPool)
      → (w.is_rate_limited e || w.is_overloaded e) ≡ true
      → (c' : ℕ) × (settle_attempt w attempt j c (raised e) p
          ≡ rotate c'
              (some e)
              (update_slot j (enter_cooldown (w.cooled_at attempt) (penalty e p)) p))
  unfolding settle_attempt
  rotated attempt j c e p h = elim (Bool-cases (w.is_rate_limited e)) [
    | inl limited ↦ (c + 1, rw limited)
    | inr other ↦ (c, rw (other, rw other at h))
  ]

  -- An error that is a rate limit or an overload rotates the lap, and leaves the slot that was used
  -- with a cooldown that ends when its penalty is over: the pool's cooldown after a rate limit, the
  -- overload cooldown otherwise. Before that, the slot is unusable in the pool that is left and in any
  -- pool that still holds it with this end of its cooldown or a later one, whatever was tried. A
  -- search for a key moves no end, if the pointer is in range; nothing is said of another failed
  -- attempt on the slot, which can move its end back. No other slot changes.
  pub settle_attempt-cools :
      (attempt j c : ℕ) (e : E) (p : KeyPool)
      → j < length p.slots
      → (w.is_rate_limited e || w.is_overloaded e) ≡ true
      → (c' : ℕ) × (q : KeyPool) × (s : KeySlot) × (settle_attempt w attempt j c (raised e) p
          ≡ rotate c' (some e) q)
        × (get_elem? q.slots j ≡ some s)
        × (s.cooldown_until ≡ w.cooled_at attempt + penalty e p)
        × ((later : KeyPool) (s' : KeySlot) (tried : List ℕ) (now : ℕ) (clock : ℕ → ℕ)
            → get_elem? later.slots j ≡ some s'
            → s.cooldown_until ≤ s'.cooldown_until
            → now < s.cooldown_until
            → usable tried now clock later j ≡ false)
        × ((later : KeyPool) (tried : List ℕ) (now : ℕ) (clock : ℕ → ℕ)
            → later.index < length later.slots
            → cooldown_ends (select_eligible tried now clock later).1 ≡ cooldown_ends later)
        × ((i : ℕ) → nat_beq j i ≡ false → get_elem? q.slots i ≡ get_elem? p.slots i)
  settle_attempt-cools attempt j c e p h bad =
      let (c', step) = rotated attempt j c e p bad in
      let cool = enter_cooldown (w.cooled_at attempt) (penalty e p) in
      let (s, here, ends) = cooldown_until-update_slot p j (w.cooled_at attempt) (penalty e p) h in
      (
        c',
        update_slot j cool p,
        s,
        step,
        here,
        ends,
        λ later s' tried now clock there kept soon.
            cooling-unusable later j s.cooldown_until s' there kept tried now clock soon,
        λ later tried now clock inside. cooldown_ends-select_eligible tried now clock later inside,
        λ i ne. slot-update_ne p i j cool h ne,
      )

-- The slots at whose cooldown ends `t` is the least, and lies ahead.
abbrev pub EndsAt : ℕ → ℕ → List KeySlot → Type 0
EndsAt now t [] = Unit
EndsAt now t (s ∷ slots) = (now < s.cooldown_until → t ≤ s.cooldown_until) × EndsAt now t slots

EndsAt-weaker :
    (now t u : ℕ) (slots : List KeySlot) → t ≤ u → EndsAt now u slots → EndsAt now t slots
EndsAt-weaker now t u [] h e = tt
EndsAt-weaker now t u (s ∷ slots) h e =
    (λ later. omega (arith, e.0 later), EndsAt-weaker now t u slots h e.1)

soonest-none : (now t : ℕ) (slots : List KeySlot) → soonest_of now slots ≡ none → EndsAt now t slots
unfolding soonest_of in_cooldown
soonest-none now t [] h = tt
soonest-none now t (s ∷ slots) h = (λ later. ground arith, soonest-none now t slots (ground arith))

soonest-some :
    (now t : ℕ) (slots : List KeySlot)
    → soonest_of now slots ≡ some t
    → (now < t)
      × EndsAt now t slots
      × ((j : ℕ) × (s : KeySlot) × (get_elem? slots j ≡ some s) × (s.cooldown_until ≡ t))
unfolding soonest_of in_cooldown
soonest-some now t [] h = cc
soonest-some now t (s ∷ slots) h = elim (Bool-cases (ltb now s.cooldown_until)) [
  | inl cooling ↦ elim (Option-cases (soonest_of now slots)) [
    | inl none_left ↦
        let same : s.cooldown_until ≡ t = some_injective (rw (cooling, none_left) at h) in
        (
          ground arith,
          (λ later. omega arith, soonest-none now t slots none_left),
          (0, s, refl, same),
        )
    | inr (u, left) ↦
        let (later, rest, (j, r, e, q)) = soonest-some now u slots left in
        elim (Bool-cases (ltb u s.cooldown_until)) [
          | inl first ↦
              let same : u ≡ t = some_injective (rw (cooling, left, first) at h) in
              (
                omega (arith, same),
                (λ _. ground arith, EndsAt-weaker now t u slots (omega (arith, same)) rest),
                (suc j, r, e, q ∙ same),
              )
          | inr second ↦
              let same : s.cooldown_until ≡ t = some_injective (rw (cooling, left, second) at h) in
              (
                ground arith,
                (λ _. omega arith, EndsAt-weaker now t u slots (ground arith) rest),
                (0, s, refl, same),
              )
        ]
  ]
  | inr warm ↦
      let (later, rest, (j, r, e, q)) = soonest-some now t slots (rw warm at h) in
      (later, (λ soon. ground arith, rest), (suc j, r, e, q))
]

-- The recovery time that the exhaustion error names lies ahead, is the end of some slot's cooldown,
-- and no slot that is in cooldown leaves it earlier.
pub soonest_recovery-least :
    (now t : ℕ) (p : KeyPool)
    → soonest_recovery now p ≡ some t
    → (now < t)
      × EndsAt now t p.slots
      × ((j : ℕ) × (s : KeySlot) × (get_elem? p.slots j ≡ some s) × (s.cooldown_until ≡ t))
unfolding soonest_recovery
soonest_recovery-least now t p h = soonest-some now t p.slots h
