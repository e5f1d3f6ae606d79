-- ===== src/MessageTrees/WalkEnds.antt =====
-- The loop of the two traversals of messaging/trees/graph.py, over a forest in general.
use mathlib.Core.Path.{subst}
use mathlib.Core.List.{reverse, reverse_aux, reverse_aux-eq}
use test2_freeclaudecode.Prelude.{
  some_injective, ℕ, zero, suc, ◌+◌, ◌≤◌, ◌<◌, ◌≡◌, refl, sym, ap, ◌∙◌, String, Bool, true, false,
  ◌||◌, Option, some, List, [], ◌∷◌, ◌++◌, ◌==◌, string_eq, length, contains, distinct, arith,
  Bool-cases, inl, inr,
}
use test2_freeclaudecode.MessageTrees.Queue.{without}
use test2_freeclaudecode.MessageTrees.QueueOrder.{contains-without}
use test2_freeclaudecode.MessageTrees.Walk.{walk, Walks}

without_le : (k : String) (xs : List String) → length (without k xs) ≤ length xs
unfolding without
without_le k [] = omega arith
without_le k (x ∷ xs) = ground (arith, without_le k xs)

without_shorter :
    (k : String) (xs : List String) → contains xs k ≡ true → length (without k xs) < length xs
unfolding without
without_shorter k [] c = cc
without_shorter k (x ∷ xs) c =
    ground (arith, without_le k xs, without_shorter k xs, string_eq.same_iff x k)

-- Distinct members of a list are not more than its elements.
pub distinct_fits :
    (xs keys : List String)
    → distinct xs ≡ true
    → ((k : String) → contains xs k ≡ true → contains keys k ≡ true)
    → length xs ≤ length keys
distinct_fits [] keys d f = omega arith
distinct_fits (x ∷ xs) keys d f =
    let less = without_shorter x keys (f x (ground (arith, string_eq.same_iff x x))) in
    let rest =
      distinct_fits xs (without x keys) (ground (arith, d))
        (λ k c. ground (arith, contains-without x k keys, f k, c, d, string_eq.same_iff x k)) in
    omega (arith, less, rest)

contains-reverse_aux :
    (xs ys : List String) (k : String)
    → contains (reverse_aux xs ys) k ≡ (contains xs k || contains ys k)
contains-reverse_aux [] ys k = refl
contains-reverse_aux (x ∷ xs) ys k = ground (arith, contains-reverse_aux xs (x ∷ ys) k)

distinct-reverse_aux :
    (xs ys : List String)
    → distinct xs ≡ true
    → distinct ys ≡ true
    → ((k : String) → contains xs k ≡ true → contains ys k ≡ false)
    → distinct (reverse_aux xs ys) ≡ true
distinct-reverse_aux [] ys d e apart = e
distinct-reverse_aux (x ∷ xs) ys d e apart =
    distinct-reverse_aux xs (x ∷ ys) (ground (arith, d))
      (ground (arith, e, apart x, string_eq.same_iff x x))
      (λ k c. ground (arith, c, d, apart k, string_eq.same_iff x k))

-- A forest: an id has one parent, which ranks lower, and the children of an id differ.
pub record IsForest (children : String → List String) (keys : List String) : Type 0 where
  pub rank : String → ℕ
  pub parent : String → Option String
  pub rises : (p c : String) → contains (children p) c ≡ true → rank p < rank c
  pub owned : (p c : String) → contains (children p) c ≡ true → parent c ≡ some p
  pub unique : (p : String) → distinct (children p) ≡ true
  pub known : (p c : String) → contains (children p) c ≡ true → contains keys c ≡ true

module _ (children : String → List String) (keys : List String) (h : IsForest children keys)
    (root : String) where
  -- A walk from the root, with what it has reached and what it still has to reach.
  pub record Walking (seen stack : List String) : Type 0 where
    pub clear : distinct seen ≡ true
    pub once : distinct stack ≡ true
    pub apart : (k : String) → contains seen k ≡ true → contains stack k ≡ false
    pub known : (k : String) → (contains seen k || contains stack k) ≡ true → contains keys k ≡ true
    pub from :
        (k p : String)
        → (contains seen k || contains stack k) ≡ true
        → h.parent k ≡ some p
        → (root == k || contains seen p) ≡ true
    pub above : (k : String) → (contains seen k || contains stack k) ≡ true → h.rank root ≤ h.rank k

  child_new :
      (id : String) (seen stack : List String)
      → Walking seen (id ∷ stack)
      → (c : String) → contains (children id) c ≡ true
      → (contains seen c || contains (id ∷ stack) c) ≡ false
  child_new id seen stack w c child =
      elim (Bool-cases (contains seen c || contains (id ∷ stack) c)) [
        | inl met ↦
            let own = h.owned id c child in
            let low = w.above id (ground (arith, string_eq.same_iff id id)) in
            let top : root ≡ c =
              (string_eq.same_iff root c).0
                (ground (arith, w.from c id met own, w.apart id, string_eq.same_iff id id)) in
            absurd (omega (arith, low, h.rises id c child, ap h.rank top))
        | inr unmet ↦ unmet
      ]

  next-Walking :
      (id : String) (seen stack : List String)
      → Walking seen (id ∷ stack)
      → Walking (id ∷ seen) (reverse_aux (children id) stack)
  next-Walking id seen stack w =
      let new = child_new id seen stack w in
      let there : (k : String)
          → contains (reverse_aux (children id) stack) k
            ≡ (contains (children id) k || contains stack k) =
        contains-reverse_aux (children id) stack in
      let old : (k : String)
          → (contains (id ∷ seen) k || contains (reverse_aux (children id) stack) k) ≡ true
          → contains (children id) k ≡ false
          → (contains seen k || contains (id ∷ stack) k) ≡ true =
        λ k c other. ground (arith, there k, c, other) in
      record {
        clear = ground (arith, w.clear, w.apart id, string_eq.same_iff id id);
        once =
            distinct-reverse_aux (children id) stack (h.unique id) (ground (arith, w.once))
              (λ k c. ground (arith, new k c));
        apart =
            λ k c. ground (arith, there k, c, new k, w.apart k, w.once, string_eq.same_iff id k);
        known = λ k c. ground (arith, there k, c, w.known k, h.known id k);
        from = λ k p c own. elim (Bool-cases (contains (children id) k)) [
          | inl child ↦
              let same : id ≡ p = some_injective (sym (h.owned id k child) ∙ own) in
              ground (arith, (string_eq.same_iff id p).1 same)
          | inr other ↦ ground (arith, w.from k p (old k c other) own)
        ];
        above = λ k c. elim (Bool-cases (contains (children id) k)) [
          | inl child ↦
              omega
                (arith, w.above id (ground (arith, string_eq.same_iff id id)), h.rises id k child)
          | inr other ↦ w.above k (old k c other)
        ];
      }

  -- What is left of a walk: the loop ends, with every id on the stack, and every child of an id that is reached, once.
  pub record Finishes (seen stack result : List String) : Type 0 where
    pub ends : Walks children stack result
    pub once : distinct result ≡ true
    pub new : (k : String) → contains result k ≡ true → contains seen k ≡ false
    pub all : (k : String) → contains stack k ≡ true → contains result k ≡ true
    pub closed :
        (p c : String)
        → contains result p ≡ true
        → contains (children p) c ≡ true
        → contains result c ≡ true
    pub least :
        (s : String → Bool)
        → ((k : String) → contains stack k ≡ true → s k ≡ true)
        → ((p c : String) → s p ≡ true → contains (children p) c ≡ true → s c ≡ true)
        → (k : String) → contains result k ≡ true
        → s k ≡ true

  nothing-Finishes : (seen : List String) → Finishes seen [] []
  nothing-Finishes seen = record {
    ends = Walks.stop;
    once = refl;
    new = λ k c. cc;
    all = λ k c. cc;
    closed = λ p c r child. cc;
    least = λ s top down k c. cc;
  }

  reached-Finishes :
      (id : String) (seen stack rest : List String)
      → Walking seen (id ∷ stack)
      → Finishes (id ∷ seen) (reverse_aux (children id) stack) rest
      → Walks children (reverse (children id) ++ stack) rest
      → Finishes seen (id ∷ stack) (id ∷ rest)
  reached-Finishes id seen stack rest w f on =
      let there : (k : String)
          → contains (reverse_aux (children id) stack) k
            ≡ (contains (children id) k || contains stack k) =
        contains-reverse_aux (children id) stack in
      record {
        ends = Walks.turn id stack rest on;
        once = ground (arith, f.once, f.new id, string_eq.same_iff id id);
        new = λ k c. ground (arith, c, f.new k, w.apart k, w.apart id, string_eq.same_iff id k);
        all = λ k c. ground (arith, c, f.all k, there k);
        closed = λ p c r child. elim (Bool-cases (id == p)) [
          | inl same ↦
              let here : contains (children id) c ≡ true =
                ap (λ q. contains (children q) c) ((string_eq.same_iff id p).0 same) ∙ child in
              ground (arith, f.all c, there c, here)
          | inr other ↦ ground (arith, f.closed p c (ground (arith, r, other)) child)
        ];
        least = λ s top down k c. elim (Bool-cases (id == k)) [
          | inl same ↦ top k (ground (arith, same))
          | inr other ↦
              f.least s
                (λ j in_stack. elim (Bool-cases (contains (children id) j)) [
                  | inl child ↦ down id j (top id (ground (arith, string_eq.same_iff id id))) child
                  | inr not_child ↦ top j (ground (arith, there j, in_stack, not_child))
                ])
                down k (ground (arith, c, other))
        ];
      }

  walk-Finishes :
      (turns : ℕ) (seen stack : List String)
      → Walking seen stack
      → length keys ≤ length seen + turns
      → Finishes seen stack (walk children turns stack).0 × ((walk children turns stack).1 ≡ [])
  unfolding walk
  walk-Finishes zero seen [] w enough = (nothing-Finishes seen, refl)
  walk-Finishes zero seen (id ∷ stack) w enough =
      let full =
        distinct_fits (id ∷ seen) keys
          (ground (arith, w.clear, w.apart id, string_eq.same_iff id id))
          (λ k c. w.known k (ground (arith, c))) in
      absurd (omega (arith, full, enough))
  walk-Finishes (suc turns) seen [] w enough = (nothing-Finishes seen, refl)
  walk-Finishes (suc turns) seen (id ∷ stack) w enough =
      let next = reverse (children id) ++ stack in
      let go : Finishes (id ∷ seen) (reverse_aux (children id) stack) (walk children turns next).0
          × ((walk children turns next).1 ≡ []) =
        subst
          (λ left.
            Finishes (id ∷ seen) (reverse_aux (children id) stack) (walk children turns left).0
            × ((walk children turns left).1 ≡ []))
          (reverse_aux-eq (children id) stack)
          (walk-Finishes turns (id ∷ seen) (reverse_aux (children id) stack)
            (next-Walking id seen stack w) (omega (arith, enough))) in
      (
        reached-Finishes id seen stack (walk children turns next).0 w go.0 (
            subst (λ left. Walks children left (walk children turns next).0)
              (reverse_aux-eq (children id) stack) go.0.ends),
        go.1,
      )

  start-Walking : contains keys root ≡ true → Walking [] (root ∷ [])
  start-Walking there = record {
    clear = refl;
    once = refl;
    apart = λ k c. cc;
    known = λ k c. ground (arith, c, there, string_eq.same_iff root k);
    from = λ k p c own. ground (arith, c);
    above = λ k c. omega (arith, ap h.rank ((string_eq.same_iff root k).0 (ground (arith, c))));
  }

  pub walk_root-Finishes :
      contains keys root ≡ true
      → Finishes [] (root ∷ []) (walk children (length keys) (root ∷ [])).0
        × ((walk children (length keys) (root ∷ [])).1 ≡ [])
  walk_root-Finishes there =
      walk-Finishes (length keys) [] (root ∷ []) (start-Walking there) (omega arith)
