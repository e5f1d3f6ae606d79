-- ===== src/MessageTrees/Admission.antt =====
-- Admission to a tree: `_enqueue_or_claim` of messaging/trees/runtime.py.
use mathlib.Core.Path.{subst}
use test2_freeclaudecode.Prelude.{
  ◌≡◌, refl, sym, String, Bool, true, false, Option, none, some, [], ◌∷◌, string_eq, is_some, arith,
  Bool-cases, Option-cases, inl, inr, contains, contains-append,
}
use test2_freeclaudecode.Prelude.Dict.{lookup}
use test2_freeclaudecode.MessageTrees.Queue.{put, answer, put_call}
use test2_freeclaudecode.MessageTrees.QueueOrder.{answer-Follows, answer_of}
use test2_freeclaudecode.MessageTrees.Graph.{MessageNode}
use test2_freeclaudecode.MessageTrees.Transitions.{QueueDecision}
use test2_freeclaudecode.MessageTrees.Runtime.{
  MessageTree, is_pending, if_pending, claim_node, enqueue_found, enqueue_or_claim,
}
use test2_freeclaudecode.MessageTrees.Sound.{Ends, Ends->>=, pends, IsSound, or_id}
use test2_freeclaudecode.MessageTrees.Claiming.{Claims, claim_node-Claims}

pub if_pending-some :
    (o : Option MessageNode) (node : MessageNode)
    → if_pending o ≡ some node
    → (o ≡ some node) × (is_pending node.state ≡ true)
if_pending-some none node h = cc
if_pending-some (some other) node h = ground (arith, h)

pub if_pending-none : (o : Option MessageNode) → if_pending o ≡ none → pends o ≡ false
if_pending-none none h = refl
if_pending-none (some node) h = ground (arith, h)

-- With no active claim, nothing waits.
pub record IsReady (excused : String → Bool) (t : MessageTree) : Type 0 where
  pub sound : IsSound excused t
  pub idle : is_some t.active ≡ false → t.queue.deque ≡ []

-- What a step keeps beside.
pub record Keeps (excused : String → Bool) (t t' : MessageTree) : Type 0 where
  pub ready : IsReady excused t'
  pub root : t'.graph.root_id ≡ t.graph.root_id

module _ (excused : String → Bool) (claim_id : String) (id : String) (t : MessageTree)
    (h : IsSound (or_id excused id) t) (idle : is_some t.active ≡ false → t.queue.deque ≡ []) where
  put-IsReady :
      is_some t.active ≡ true
      → pends (lookup id t.graph.nodes) ≡ true
      → IsReady excused (record t { queue = (put id t.queue).1 })
  unfolding answer answer_of
  put-IsReady busy wait =
      let f = answer-Follows (put_call id) t.queue h.indexed in
      record {
        sound = record {
          indexed = f.indexed;
          queued = λ k c. ground (
            arith,
            f.left,
            c,
            h.queued k,
            contains-append t.queue.deque (id ∷ []) k,
            wait,
            string_eq.same_iff id k,
          );
          waits = λ k p. ground (
            arith,
            f.left,
            h.waits k p,
            contains-append t.queue.deque (id ∷ []) k,
            string_eq.same_iff id k,
          );
          shown = h.shown;
          keyed = h.keyed;
          named = h.named;
          claimed = h.claimed;
        };
        idle = λ off. cc;
      }

  stays-IsReady :
      (pends (lookup id t.graph.nodes) ≡ true → contains t.queue.deque id ≡ true)
      → IsReady excused t
  stays-IsReady there = record {
    sound = record {
      indexed = h.indexed;
      queued = h.queued;
      waits = λ k p. ground (arith, h.waits k p, there, string_eq.same_iff id k);
      shown = h.shown;
      keyed = h.keyed;
      named = h.named;
      claimed = h.claimed;
    };
    idle = idle;
  }

  put_refused : (put id t.queue).0 ≡ false → contains t.queue.deque id ≡ true
  unfolding put
  put_refused refused = ground (arith, h.indexed.same id)

  abbrev pub Admits : QueueDecision × MessageTree → Type 0
  Admits r = Keeps excused t r.1

  put-Keeps :
      (node : MessageNode)
      → lookup id t.graph.nodes ≡ some node
      → is_pending node.state ≡ true
      → is_some t.active ≡ true
      → Ends ⊥ (enqueue_found claim_id id (some node) t) Admits
  unfolding enqueue_found
  put-Keeps node here wait busy = elim (Bool-cases ((put id t.queue).0)) [
    | inl done ↦ rw (busy, done) (record { ready = put-IsReady busy (rw here wait); root = refl })
    | inr not_done ↦
        rw (busy, not_done)
          (record { ready = stays-IsReady (λ p. put_refused not_done); root = refl })
  ]

  claim-Keeps :
      (node : MessageNode)
      → lookup id t.graph.nodes ≡ some node
      → is_pending node.state ≡ true
      → is_some t.active ≡ false
      → Ends ⊥ (enqueue_found claim_id id (some node) t) Admits
  unfolding enqueue_found
  claim-Keeps node here wait free = rw free (
      Ends->>= ⊥ (Claims excused id t) Admits (claim_node claim_id id node t) _
        (claim_node-Claims excused claim_id t id node h here wait (ground (arith, idle free)))
        (λ (claim, t') c. record {
          ready = record { sound = c.sound; idle = λ off. cc (c.active, off) };
          root = c.root;
        }))

  pub enqueue_or_claim-Keeps : Ends ⊥ (enqueue_or_claim claim_id id t) Admits
  unfolding enqueue_or_claim
  enqueue_or_claim-Keeps = elim (Option-cases (if_pending (lookup id t.graph.nodes))) [
    | inl none_waits ↦
        subst (λ o. Ends ⊥ (enqueue_found claim_id id o t) Admits) (sym none_waits)
          (unfold enqueue_found in
            record {
              ready =
                  stays-IsReady (λ p. cc (p, if_pending-none (lookup id t.graph.nodes) none_waits));
              root = refl;
            })
    | inr (node, found) ↦
        let (here, wait) = if_pending-some (lookup id t.graph.nodes) node found in
        subst (λ o. Ends ⊥ (enqueue_found claim_id id o t) Admits) (sym found)
          (elim (Bool-cases (is_some t.active)) [
            | inl busy ↦ put-Keeps node here wait busy
            | inr free ↦ claim-Keeps node here wait free
          ])
  ]
