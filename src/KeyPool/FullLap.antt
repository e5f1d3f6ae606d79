-- ===== src/KeyPool/FullLap.antt =====
-- A request of `create_with_rotation` gives up only after a full lap, and every other result comes
-- from the provider's answer to the key that it names.
use test2_freeclaudecode.Prelude.{
  ℕ, ◌+◌, ◌<◌, ◌≡◌, String, true, false, some, List, [], ◌∷◌, ◌++◌, length, get_elem?, contains,
  distinct, AllBelow, nat_eq,
}
use test2_freeclaudecode.KeyPool.{KeyPool}
use test2_freeclaudecode.KeyPool.Frame.{keys}
use test2_freeclaudecode.KeyPool.Selection.{usable}
use test2_freeclaudecode.KeyPool.Rotation.{
  created, raised, LapResult, returned, reraised, exhausted, World,
}

module _ {T E : Type 0} (w : World T E) where
  -- Other tasks write to the slots of the pool and move its pointer inside the ring. They do not
  -- change the keys.
  pub record IsTame : Type 0 where
    pub sleep_keys : (a : ℕ) (p : KeyPool) → keys (w.during_sleep a p) ≡ keys p
    pub create_keys : (a : ℕ) (p : KeyPool) → keys (w.during_create a p) ≡ keys p
    pub sleep_range :
        (a : ℕ) (p : KeyPool)
        → p.index < length p.slots
        → (w.during_sleep a p).index < length (w.during_sleep a p).slots
    pub create_range :
        (a : ℕ) (p : KeyPool)
        → p.index < length p.slots
        → (w.during_create a p).index < length (w.during_create a p).slots

  -- The pool of the same keys, with its pointer in range.
  abbrev Keeps : KeyPool → KeyPool → Type 0
  Keeps p q = (keys q ≡ keys p) × (q.index < length q.slots)

  -- An attempt that ends the lap ends it by the provider's answer.
  abbrev Ends : LapResult T E → ℕ → String → Type 0
  Ends (returned t) a key = w.create a key ≡ created t
  Ends (reraised e) a key =
      (w.create a key ≡ raised e) × (w.is_rate_limited e ≡ false) × (w.is_overloaded e ≡ false)
  Ends (exhausted s l) a key = ⊥

  -- What a result of the request rests on. An answer came from an attempt with the key of the last
  -- position that was tried. Giving up leaves no untried slot that could still be used.
  abbrev pub Justified : List String → LapResult T E → List ℕ → KeyPool → Type 0
  Justified ks (exhausted s l) tried q =
      (j : ℕ)
      → j < length ks
      → contains tried j ≡ false
      → usable [] (w.selected_at (length tried + 1)) (w.counted_at (length tried + 1)) q j ≡ false
  Justified ks r tried q =
      (a : ℕ) × (j : ℕ) × (key : String) × (before : List ℕ) × (tried ≡ before ++ j ∷ [])
      × (get_elem? ks j ≡ some key)
      × Ends r a key

  module _ (tame : IsTame) (p : KeyPool) (h : p.index < length p.slots) where
    record IsUnderWay (turns attempt : ℕ) (tried : List ℕ) (q : KeyPool) : Type 0 where
      count : length tried + turns ≡ length p.slots
      number : attempt ≡ length tried + 1
      once : distinct tried ≡ true
      in_ring : AllBelow (length p.slots) tried
      same : keys q ≡ keys p
      range : q.index < length q.slots
