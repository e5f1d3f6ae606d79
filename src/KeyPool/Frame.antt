-- ===== src/KeyPool/Frame.antt =====
-- What the operations of `KeyPool` leave alone: the keys and their order, the ends of the
-- cooldowns in a search, and the range of the round-robin pointer.
use test2_freeclaudecode.Prelude.{
  ◌∙◌, ap, ℕ, zero, suc, ◌<◌, ◌≡◌, refl, sym, some_injective, String, some, List, [], ◌∷◌, map,
  length, get_elem?, set, length-set, arith, Bool-cases, Option-cases, inl, inr, get_elem?_in_range,
}
use test2_freeclaudecode.KeyPool.{
  KeySlot, KeyPool, is_eligible, settle, examine, scan, select_eligible, update_slot,
}
use test2_freeclaudecode.KeyPool.Selection.{index_in_range-examine}

abbrev pub keys : KeyPool → List String
keys p = map (λ s. s.api_key) p.slots

-- When each slot's cooldown ends.
abbrev pub cooldown_ends : KeyPool → List ℕ
cooldown_ends p = map (λ s. s.cooldown_until) p.slots

pub length-keys : (p : KeyPool) → length (keys p) ≡ length p.slots
length-keys p = go p.slots
  where
    go : (slots : List KeySlot) → length (map (λ s. s.api_key) slots) ≡ length slots
    go [] = refl
    go (s ∷ slots) = ap suc (go slots)

pub get_elem?-keys :
    (slots : List KeySlot) (j : ℕ) (slot : KeySlot)
    → get_elem? slots j ≡ some slot
    → get_elem? (map (λ s. s.api_key) slots) j ≡ some slot.api_key
get_elem?-keys [] j slot h = cc
get_elem?-keys (s ∷ slots) zero slot h = ground arith
get_elem?-keys (s ∷ slots) (suc j) slot h = get_elem?-keys slots j slot h

-- A write that keeps a field at its position keeps the list of the fields.
map-set :
    {A : Type 0} (field : KeySlot → A) (slots : List KeySlot) (j : ℕ) (s t : KeySlot)
    → get_elem? slots j ≡ some s
    → field t ≡ field s
    → map field (set slots j t) ≡ map field slots
map-set field [] j s t h e = refl
map-set field (u ∷ slots) zero s t h e =
    ap (λ x. x ∷ map field slots) (e ∙ ap field (sym (some_injective h)))
map-set field (u ∷ slots) (suc j) s t h e = ap (◌∷◌ (field u)) (map-set field slots j s t h e)

module _ (tried : List ℕ) (now : ℕ) (clock : ℕ → ℕ) where
  -- A field that a look at a slot keeps.
  abbrev IsKept : {A : Type 0} → (KeySlot → A) → Type 0
  IsKept field =
      (threshold reading : ℕ) (slot : KeySlot)
      → let (usable, counted) = is_eligible threshold slot now reading in
        field (settle usable counted) ≡ field slot

  api_key-IsKept : IsKept (λ s. s.api_key)
  unfolding is_eligible settle
  api_key-IsKept threshold reading slot = ground arith

  cooldown_until-IsKept : IsKept (λ s. s.cooldown_until)
  unfolding is_eligible settle
  cooldown_until-IsKept threshold reading slot = ground arith

  module _ {A : Type 0} (field : KeySlot → A) (kept : IsKept field) where
    map-examine :
        (p : KeyPool)
        → p.index < length p.slots
        → map field (examine tried now clock p).1.slots ≡ map field p.slots
    unfolding examine
    map-examine p h =
        let (slot, e) = get_elem?_in_range p.slots p.index h in
        rw e (
          ground (
            arith,
            map-set field p.slots p.index slot
                (settle (is_eligible p.pacing_threshold slot now (clock p.index)).0
                  (is_eligible p.pacing_threshold slot now (clock p.index)).1)
                e (kept p.pacing_threshold (clock p.index) slot),
          ))

    map-scan :
        (turns : ℕ) (p : KeyPool)
        → p.index < length p.slots
        → (map field (scan turns tried now clock p).1.slots ≡ map field p.slots)
          × ((scan turns tried now clock p).1.index < length (scan turns tried now clock p).1.slots)
    unfolding scan
    map-scan zero p h = (refl, h)
    map-scan (suc turns) p h =
        let ih =
          map-scan turns (examine tried now clock p).1
            (index_in_range-examine tried now clock p h) in
        elim (Bool-cases (examine tried now clock p).0) [
          | inl found ↦ rw found (map-examine p h, index_in_range-examine tried now clock p h)
          | inr passed ↦ rw passed (ih.0 ∙ map-examine p h, ih.1)
        ]

  pub keys-select_eligible :
      (p : KeyPool)
      → p.index < length p.slots
      → let q = (select_eligible tried now clock p).1 in
        (keys q ≡ keys p) × (q.index < length q.slots)
  unfolding select_eligible
  keys-select_eligible p h = map-scan (λ s. s.api_key) api_key-IsKept (length p.slots) p h

  pub cooldown_ends-select_eligible :
      (p : KeyPool)
      → p.index < length p.slots
      → cooldown_ends (select_eligible tried now clock p).1 ≡ cooldown_ends p
  unfolding select_eligible
  cooldown_ends-select_eligible p h =
      (map-scan (λ s. s.cooldown_until) cooldown_until-IsKept (length p.slots) p h).0

pub keys-update_slot :
    (j : ℕ) (f : KeySlot → KeySlot) (p : KeyPool)
    → ((s : KeySlot) → (f s).api_key ≡ s.api_key)
    → keys (update_slot j f p) ≡ keys p
unfolding update_slot
keys-update_slot j f p k = elim (Option-cases (get_elem? p.slots j)) [
  | inl missing ↦ rw missing
  | inr (s, e) ↦ rw e (map-set (λ u. u.api_key) p.slots j s (f s) e (k s))
]

pub index-update_slot :
    (j : ℕ) (f : KeySlot → KeySlot) (p : KeyPool) → (update_slot j f p).index ≡ p.index
unfolding update_slot
index-update_slot j f p = refl

pub length-update_slot :
    (j : ℕ) (f : KeySlot → KeySlot) (p : KeyPool)
    → length (update_slot j f p).slots ≡ length p.slots
unfolding update_slot
length-update_slot j f p = elim (Option-cases (get_elem? p.slots j)) [
  | inl missing ↦ rw missing
  | inr (s, e) ↦ rw e (length-set p.slots j (f s))
]
