-- ===== src/MessageTrees/Affecting.antt =====
-- The loop of `remove_message_subtree` of messaging/trees/runtime.py over the affected nodes.
use mathlib.Core.Path.{subst}
use test2_freeclaudecode.Prelude.{
  ◌≡◌, refl, ap, ◌∙◌, sym, String, Bool, true, false, not, ◌&&◌, Option, none, some, List, [], ◌∷◌,
  ◌==◌, string_eq, is_some, arith, Bool-cases, Option-cases, inl, inr, contains,
}
use test2_freeclaudecode.Prelude.Dict.{Dict, lookup}
use test2_freeclaudecode.MessageTrees.Graph.{MessageNode}
use test2_freeclaudecode.MessageTrees.Transitions.{NodeUiTarget, NodeClaim}
use test2_freeclaudecode.MessageTrees.Runtime.{ActiveClaim, MessageTree}
use test2_freeclaudecode.MessageTrees.Cancel.{cancel_found, cancel_affected, claims, dequeue}
use test2_freeclaudecode.MessageTrees.Sound.{
  Ends, Ends->>=, is_claimed, IsSound, dequeue-IsSound, dequeue_out, dequeue_left,
}
use test2_freeclaudecode.MessageTrees.Cancelling.{
  Ends-weaken, Ends-imply, Fails, FailsAt, Hidden, runs, hides, cancel_found-FailsAt,
}
use test2_freeclaudecode.MessageTrees.Stopping.{
  stranded, hidden_claim, hidden_claim-intro, dequeue_empty,
}

-- A node that can neither run nor wait.
pub record Settled (k : String) (t : MessageTree) : Type 0 where
  pub still : runs (lookup k t.graph.nodes) ≡ false
  pub out : contains t.queue.deque k ≡ false

pub record Affects (excused : String → Bool) (t t' : MessageTree) : Type 0 where
  pub sound : IsSound excused t'
  pub active : t'.active ≡ t.active
  pub root : t'.graph.root_id ≡ t.graph.root_id
  pub idle : t.queue.deque ≡ [] → t'.queue.deque ≡ []
  pub settled : (k : String) → Settled k t → Settled k t'
  pub hidden : (k : String) → hides (lookup k t'.graph.nodes) ≡ hides (lookup k t.graph.nodes)
  pub fewer :
      (k : String) → runs (lookup k t'.graph.nodes) ≡ true → runs (lookup k t.graph.nodes) ≡ true
  pub there : (k : String) → is_some (lookup k t'.graph.nodes) ≡ is_some (lookup k t.graph.nodes)

Affects-refl : (excused : String → Bool) (t : MessageTree) → IsSound excused t → Affects excused t t
Affects-refl excused t h = record {
  sound = h;
  active = refl;
  root = refl;
  idle = λ e. e;
  settled = λ k s. s;
  hidden = λ k. refl;
  fewer = λ k r. r;
  there = λ k. refl;
}

Affects-trans :
    (excused : String → Bool) (t t' last : MessageTree)
    → Affects excused t t'
    → Affects excused t' last
    → Affects excused t last
Affects-trans excused t t' last f g = record {
  sound = g.sound;
  active = g.active ∙ f.active;
  root = g.root ∙ f.root;
  idle = λ e. g.idle (f.idle e);
  settled = λ k s. g.settled k (f.settled k s);
  hidden = λ k. g.hidden k ∙ f.hidden k;
  fewer = λ k r. f.fewer k (g.fewer k r);
  there = λ k. g.there k ∙ f.there k;
}

pub record AffectsAll (excused : String → Bool) (ids : List String) (t : MessageTree)
    (r : List NodeUiTarget × Bool × MessageTree) : Type 0 where
  pub affects : Affects excused t r.2
  pub done : (k : String) → contains ids k ≡ true → Settled k r.2
  pub left :
      (k : String) → contains r.2.queue.deque k ≡ (contains t.queue.deque k && not (contains ids k))

still_of :
    (excused : String → Bool) (t t' : MessageTree) (k : String)
    → Fails excused t t'
    → runs (lookup k t.graph.nodes) ≡ false
    → runs (lookup k t'.graph.nodes) ≡ false
still_of excused t t' k f still = elim (Bool-cases (runs (lookup k t'.graph.nodes))) [
  | inl run ↦ cc (f.fewer k run, still)
  | inr off ↦ off
]

-- One node leaves the queue and fails.
module _ (excused : String → Bool) (id : String) (t : MessageTree) (h : IsSound excused t) where
  failed-Affects :
      (r : List NodeUiTarget × MessageTree)
      → FailsAt excused id (dequeue id t).1 r
      → Affects excused t r.1 × Settled id r.1
  failed-Affects r f = (
    record {
      sound = f.fails.sound;
      active = f.fails.active;
      root = f.fails.root;
      idle = λ e. ap (λ q. q.deque) f.fails.queue ∙ dequeue_empty id t e;
      settled = λ k s. record {
        still = still_of excused (dequeue id t).1 r.1 k f.fails s.still;
        out =
            ap (λ q. contains q.deque k) f.fails.queue
            ∙ dequeue_left excused t h id k
            ∙ ground (arith, s.out);
      };
      hidden = λ k. f.fails.hidden k;
      fewer = λ k run. f.fails.fewer k run;
      there = λ k. f.fails.there k;
    },
    record {
      still = f.done;
      out = ap (λ q. contains q.deque id) f.fails.queue ∙ dequeue_out excused t h id;
    },
  )

  absent-Settled : lookup id t.graph.nodes ≡ none → Settled id t
  absent-Settled gone = record { still = rw gone refl; out = ground (arith, h.queued id, gone) }

abbrev pub Claimed : Option NodeClaim → Option ActiveClaim → Type 0
Claimed claim a = (k : String) → claims k claim ≡ true → is_claimed a k ≡ true

AffectsAll-cons :
    (excused : String → Bool) (id : String) (ids : List String) (t t' : MessageTree)
    (r : List NodeUiTarget × Bool × MessageTree)
    → Affects excused t t'
    → ((k : String) → contains t'.queue.deque k ≡ (contains t.queue.deque k && not (id == k)))
    → Settled id t'
    → AffectsAll excused ids t' r
    → AffectsAll excused (id ∷ ids) t r
AffectsAll-cons excused id ids t t' r a left s f = record {
  affects = Affects-trans excused t t' r.2 a f.affects;
  done = λ k c. elim (Bool-cases (id == k)) [
    | inl same ↦
        subst (λ j. Settled j r.2) ((string_eq.same_iff id k).0 same) (f.affects.settled id s)
    | inr other ↦ f.done k (ground (arith, c, other))
  ];
  left = λ k. ground (arith, f.left k, left k);
}

hidden_back :
    (a : Option ActiveClaim) (nodes old : Dict String MessageNode)
    → ((k : String) → hides (lookup k nodes) ≡ hides (lookup k old))
    → hidden_claim a nodes ≡ true
    → hidden_claim a old ≡ true
hidden_back none nodes old same h = h
hidden_back (some a) nodes old same h = sym (same a.claim.node.node_id) ∙ h

pub stranded_back :
    (excused : String → Bool) (t t' : MessageTree)
    → Affects excused t t'
    → stranded t' ≡ true
    → stranded t ≡ true
stranded_back excused t t' a s =
    hidden_back t.active t'.graph.nodes t.graph.nodes a.hidden
      (ap (λ o. hidden_claim o t'.graph.nodes) (sym a.active) ∙ s)

pub cancel_affected-AffectsAll :
    (excused : String → Bool) (claim : Option NodeClaim) (ids : List String) (t : MessageTree)
    → IsSound excused t
    → Claimed claim t.active
    → Ends (stranded t ≡ true) (cancel_affected claim ids t) (AffectsAll excused ids t)
unfolding cancel_affected
cancel_affected-AffectsAll excused claim [] t h own = record {
  affects = Affects-refl excused t h;
  done = λ k c. cc;
  left = λ k. ground arith;
}
cancel_affected-AffectsAll excused claim (id ∷ ids) t h own =
    elim (Option-cases (lookup id t.graph.nodes)) [
      | inl gone ↦
          rw (gone, cancel_affected)
            (Ends-imply (stranded t ≡ true) (stranded t ≡ true) (AffectsAll excused ids t)
              (AffectsAll excused (id ∷ ids) t) (cancel_affected claim ids t) (λ s. s)
              (λ r f.
                let s = absent-Settled excused id t h gone in
                AffectsAll-cons excused id ids t t r (Affects-refl excused t h)
                  (λ k. ground (arith, s.out, string_eq.same_iff id k)) s f)
              (cancel_affected-AffectsAll excused claim ids t h own))
      | inr (node, here) ↦
          let start = (dequeue id t).1 in
          rw (here, cancel_affected)
            (Ends->>= (stranded t ≡ true) (FailsAt excused id start)
              (AffectsAll excused (id ∷ ids) t)
              (cancel_found (claims id claim) id (some node) start) _
              (Ends-weaken (Hidden (claims id claim) id start) (stranded t ≡ true)
                (FailsAt excused id start) (cancel_found (claims id claim) id (some node) start)
                (λ (mine, hid). hidden_claim-intro t.active id t.graph.nodes (own id mine) hid)
                (cancel_found-FailsAt excused id start (dequeue-IsSound excused t h id)
                  (dequeue_out excused t h id) (claims id claim) (some node) here))
              (λ (targets, t2) f.
                let (a, s) = failed-Affects excused id t h (targets, t2) f in
                Ends->>= (stranded t ≡ true) (AffectsAll excused ids t2)
                  (AffectsAll excused (id ∷ ids) t) (cancel_affected claim ids t2) _
                  (Ends-weaken (stranded t2 ≡ true) (stranded t ≡ true) (AffectsAll excused ids t2)
                    (cancel_affected claim ids t2) (λ s2. stranded_back excused t t2 a s2)
                    (cancel_affected-AffectsAll excused claim ids t2 a.sound
                      (λ k c. ap (λ o. is_claimed o k) a.active ∙ own k c)))
                  (λ (rest, more, last) g.
                    let all =
                      AffectsAll-cons excused id ids t t2 (rest, more, last) a
                        (λ k.
                          ap (λ q. contains q.deque k) f.fails.queue
                          ∙ dequeue_left excused t h id k)
                        s g in
                    record { affects = all.affects; done = all.done; left = all.left })))
    ]
