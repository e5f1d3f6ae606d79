-- ===== src/MessageTrees/Failing.antt =====
-- The loop of `fail_claim` of messaging/trees/runtime.py over the descendants of a failed node.
use mathlib.Core.Path.{subst}
use test2_freeclaudecode.Prelude.{
  ◌≡◌, refl, ap, ◌∙◌, sym, String, Bool, true, false, some, List, [], ◌∷◌, ◌==◌, string_eq,
  if◌then◌else◌, arith, Bool-cases, Option-cases, inl, inr, contains,
}
use test2_freeclaudecode.Prelude.Dict.{lookup, lookup-insert}
use test2_freeclaudecode.MessageTrees.Graph.{error, MessageNode, mark_error, update_state}
use test2_freeclaudecode.MessageTrees.Runtime.{MessageTree, set_node, ui_target, if_pending}
use test2_freeclaudecode.MessageTrees.Cancel.{dequeue, fail_ids}
use test2_freeclaudecode.MessageTrees.Sound.{
  Ends, Ends->>=, pends, IsSound, set_node-IsSound, dequeue-IsSound, dequeue_out,
}
use test2_freeclaudecode.MessageTrees.Claiming.{ui_target-Ends}
use test2_freeclaudecode.MessageTrees.Admission.{if_pending-some, if_pending-none}
use test2_freeclaudecode.MessageTrees.Cancelling.{runs, Ends-imply}
use test2_freeclaudecode.MessageTrees.Stopping.{dequeue_empty}

-- Nodes of the list fail; no other entry changes.
pub record FailsIn (excused : String → Bool) (ids : List String) (t t' : MessageTree) : Type 0 where
  pub sound : IsSound excused t'
  pub active : t'.active ≡ t.active
  pub root : t'.graph.root_id ≡ t.graph.root_id
  pub idle : t.queue.deque ≡ [] → t'.queue.deque ≡ []
  pub waits :
      (k : String) → pends (lookup k t'.graph.nodes) ≡ true → pends (lookup k t.graph.nodes) ≡ true
  pub fewer :
      (k : String) → runs (lookup k t'.graph.nodes) ≡ true → runs (lookup k t.graph.nodes) ≡ true
  pub done : (k : String) → contains ids k ≡ true → pends (lookup k t'.graph.nodes) ≡ false
  pub others :
      (k : String) → contains ids k ≡ false → lookup k t'.graph.nodes ≡ lookup k t.graph.nodes

module _ (excused : String → Bool) (id : String) (ids : List String) (t : MessageTree) where
  skipped-FailsIn :
      (t' : MessageTree)
      → pends (lookup id t.graph.nodes) ≡ false
      → FailsIn excused ids t t'
      → FailsIn excused (id ∷ ids) t t'
  skipped-FailsIn t' off f = record {
    sound = f.sound;
    active = f.active;
    root = f.root;
    idle = f.idle;
    waits = f.waits;
    fewer = f.fewer;
    done = λ k c. elim (Bool-cases (pends (lookup k t'.graph.nodes))) [
      | inl wait ↦ ground (arith, c, wait, f.waits k, f.done k, off, string_eq.same_iff id k)
      | inr other ↦ other
    ];
    others = λ k c. f.others k (ground (arith, c));
  }

  module _ (node : MessageNode) (h : IsSound excused t)
      (here : lookup id t.graph.nodes ≡ some node) where
    abbrev failed : MessageNode
    failed = record node { state = error }

    abbrev after : MessageTree
    after = (dequeue id (set_node id failed t)).1

    after-IsSound : IsSound excused after
    after-IsSound =
        set_node-IsSound excused (dequeue id t).1 id node failed (dequeue-IsSound excused t h id)
          here (dequeue_out excused t h id) refl refl refl

    failed_waits :
        (k : String)
        → pends (lookup k after.graph.nodes) ≡ true
        → ((id == k) ≡ false) × (pends (lookup k t.graph.nodes) ≡ true)
    failed_waits k w = elim (Bool-cases (id == k)) [
      | inl same ↦ cc (
        sym (ap pends (lookup-insert id k failed t.graph.nodes)) ∙ w,
        ap (λ b. pends (if b then some failed else lookup k t.graph.nodes)) same,
      )
      | inr other ↦ (
        other,
        ap (λ b. pends (if b then some failed else lookup k t.graph.nodes)) (sym other)
            ∙ sym (ap pends (lookup-insert id k failed t.graph.nodes))
            ∙ w,
      )
    ]

    failed_fewer :
        (k : String)
        → runs (lookup k after.graph.nodes) ≡ true
        → runs (lookup k t.graph.nodes) ≡ true
    failed_fewer k w = ground (arith, rw (lookup-insert id k failed t.graph.nodes) at w)

    failed-FailsIn :
        (t' : MessageTree) → FailsIn excused ids after t' → FailsIn excused (id ∷ ids) t t'
    failed-FailsIn t' f = record {
      sound = f.sound;
      active = f.active;
      root = f.root;
      idle = λ e. f.idle (dequeue_empty id t e);
      fewer = λ k w. failed_fewer k (f.fewer k w);
      waits = λ k w. (failed_waits k (f.waits k w)).1;
      done = λ k c. elim (Bool-cases (pends (lookup k t'.graph.nodes))) [
        | inl wait ↦ ground (arith, c, wait, (failed_waits k (f.waits k wait)).0, f.done k)
        | inr off ↦ off
      ];
      others = λ k c.
          f.others k (ground (arith, c))
          ∙ lookup-insert id k failed t.graph.nodes
          ∙ ground (arith, c);
    }

pub fail_ids-FailsIn :
    (excused : String → Bool) (ids : List String) (t : MessageTree)
    → IsSound excused t
    → Ends ⊥ (fail_ids ids t) (λ r. FailsIn excused ids t r.2)
unfolding fail_ids mark_error update_state
fail_ids-FailsIn excused [] t h = record {
  sound = h;
  active = refl;
  root = refl;
  idle = λ e. e;
  waits = λ k w. w;
  fewer = λ k w. w;
  done = λ k c. cc;
  others = λ k c. refl;
}
fail_ids-FailsIn excused (id ∷ ids) t h =
    elim (Option-cases (if_pending (lookup id t.graph.nodes))) [
      | inl none_waits ↦
          rw (none_waits, fail_ids)
            (Ends-imply ⊥ ⊥ (λ r. FailsIn excused ids t r.2) (λ r. FailsIn excused (id ∷ ids) t r.2)
              (fail_ids ids t) (λ b. b)
              (λ r f.
                skipped-FailsIn excused id ids t r.2
                  (if_pending-none (lookup id t.graph.nodes) none_waits) f)
              (fail_ids-FailsIn excused ids t h))
      | inr (node, found) ↦
          let (here, pending_here) = if_pending-some (lookup id t.graph.nodes) node found in
          let key : node.node_id ≡ id =
            ground (arith, h.keyed id, here, string_eq.same_iff node.node_id id) in
          let next : String → MessageTree =
            λ j. (dequeue j (set_node id (record node { state = error }) t)).1 in
          rw (found, fail_ids)
            (Ends->>= ⊥ (λ target. target.node_id ≡ node.node_id)
              (λ r. FailsIn excused (id ∷ ids) t r.2) (ui_target node) _
              (ui_target-Ends node (ground (arith, h.shown id, here, pending_here)))
              (λ target own.
                Ends->>= ⊥ (λ r. FailsIn excused ids (next node.node_id) r.2)
                  (λ r. FailsIn excused (id ∷ ids) t r.2) (fail_ids ids (next node.node_id)) _
                  (fail_ids-FailsIn excused ids (next node.node_id) (
                    subst (λ j. IsSound excused (next j)) (sym key)
                      (after-IsSound excused id ids t node h here)))
                  (λ (rest, more, last) f.
                    failed-FailsIn excused id ids t node h here last
                      (subst (λ j. FailsIn excused ids (next j) last) key f))))
    ]
