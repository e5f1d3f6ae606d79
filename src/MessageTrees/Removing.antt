-- ===== src/MessageTrees/Removing.antt =====
-- `remove_message_subtree` of messaging/trees/runtime.py, for any list of references that it removes.
use test2_freeclaudecode.Prelude.{
  ◌≡◌, refl, ap, ◌∙◌, sym, String, Bool, true, false, ◌&&◌, Option, none, some, List, string_eq,
  is_some, arith, Bool-cases, inl, inr, contains,
}
use test2_freeclaudecode.Prelude.Dict.{lookup}
use test2_freeclaudecode.MessageTrees.Graph.{
  MessageNode, MessageReferenceKind, MessageTreeGraph, remove_nodes, resolve_reference,
}
use test2_freeclaudecode.MessageTrees.Walk.{get_reference_descendants}
use test2_freeclaudecode.MessageTrees.Transitions.{NodeUiTarget, NodeClaim, MessageSubtreeRemoval}
use test2_freeclaudecode.MessageTrees.Runtime.{◌>>=◌, MessageTree}
use test2_freeclaudecode.MessageTrees.Cancel.{
  claim_on, request_if, cancel_affected, clear_owner, present, with_owner, remove_resolved,
  remove_message_subtree, is_nil, update_if,
}
use test2_freeclaudecode.MessageTrees.Sound.{Ends, Ends->>=, pends, IsSound}
use test2_freeclaudecode.MessageTrees.Admission.{IsReady, Keeps}
use test2_freeclaudecode.MessageTrees.Cancelling.{Ends-weaken, runs}
use test2_freeclaudecode.MessageTrees.Stopping.{
  stranded, request_if-Requested, IsSound-request, update_if-Ends,
}
use test2_freeclaudecode.MessageTrees.Affecting.{AffectsAll, cancel_affected-AffectsAll}
use test2_freeclaudecode.MessageTrees.Kept.{
  present-contains, with_owner-contains, with_owner-own, claim_on-Claimed, clear_owner-there,
  remove_nodes-there,
}
use test2_freeclaudecode.MessageTrees.Trimming.{
  none_of, TrimsAll, TrimsAll-trans, remove_nodes-gone, remove_nodes-TrimsAll, clear_owner-TrimsAll,
}

-- The graph loses affected nodes that have settled.
trimmed-IsSound :
    (excused affected : String → Bool) (t : MessageTree) (g : MessageTreeGraph)
    → IsSound excused t
    → ((k : String) → affected k ≡ true → contains t.queue.deque k ≡ false)
    → TrimsAll affected t.graph g
    → IsSound excused (record t { graph = g })
trimmed-IsSound excused affected t g h out (root, f) = record {
  indexed = h.indexed;
  queued = λ k c. elim (Bool-cases (affected k)) [
    | inl hit ↦ cc (c, out k hit)
    | inr other ↦ (f k).same other ∙ h.queued k c
  ];
  waits = λ k p. h.waits k ((f k).waits p);
  shown = λ k. (f k).shown (h.shown k);
  keyed = λ k. (f k).keyed (h.keyed k);
  named = none_of (lookup "" g.nodes) ((f "").gone (rw h.named refl));
  claimed = λ k c. elim (Bool-cases (pends (lookup k g.nodes))) [
    | inl wait ↦ cc ((f k).waits wait, h.claimed k c)
    | inr other ↦ other
  ];
}

-- What a removal leaves.
pub record Removes (excused : String → Bool) (t : MessageTree)
    (r : MessageSubtreeRemoval × MessageTree) : Type 0 where
  pub keeps : Keeps excused t r.1
  pub gone :
      (k : String) → contains r.0.removed_message_ids k ≡ true → lookup k r.1.graph.nodes ≡ none
  pub fewer :
      (k : String) → runs (lookup k r.1.graph.nodes) ≡ true → runs (lookup k t.graph.nodes) ≡ true
  pub others :
      (k : String)
      → runs (lookup k r.1.graph.nodes) ≡ true
      → contains r.1.queue.deque k ≡ contains t.queue.deque k
  pub kept :
      (k : String)
      → contains r.0.removed_message_ids k ≡ false
      → is_some (lookup k r.1.graph.nodes) ≡ is_some (lookup k t.graph.nodes)
  pub entire : r.0.removed_entire_tree ≡ (
      contains r.0.removed_message_ids t.graph.root_id
      && is_some (lookup t.graph.root_id t.graph.nodes))

module _ (excused : String → Bool) (references : List String) (owner : MessageNode)
    (kind : MessageReferenceKind) (t : MessageTree) (h : IsReady excused t) where
  abbrev removed : List String
  removed = present t.graph.nodes references

  abbrev affected : List String
  affected = with_owner kind owner.node_id removed

  abbrev claim : Option NodeClaim
  claim = claim_on (contains affected) t.active

  abbrev asked : MessageTree
  asked = request_if (is_some claim) t

  abbrev trimmed : MessageTree → MessageTree
  trimmed t2 = record t2 { graph = remove_nodes removed (clear_owner kind owner.node_id t2.graph) }

  trimmed-TrimsAll :
      (r : List NodeUiTarget × Bool × MessageTree)
      → AffectsAll excused affected asked r
      → TrimsAll (contains affected) r.2.graph (trimmed r.2).graph
  trimmed-TrimsAll r a =
      let cleared = clear_owner kind owner.node_id r.2.graph in
      TrimsAll-trans (contains affected) r.2.graph cleared (trimmed r.2).graph
        (clear_owner-TrimsAll (contains affected) kind owner.node_id r.2.graph (λ status.
          (a.done owner.node_id (
            ap (λ s. contains (with_owner s owner.node_id removed) owner.node_id) status
            ∙ with_owner-own owner.node_id removed)).still))
        (remove_nodes-TrimsAll (contains affected) removed cleared
          (λ k c. with_owner-contains kind owner.node_id removed k c))

  trimmed-gone :
      (r : List NodeUiTarget × Bool × MessageTree)
      → AffectsAll excused affected asked r
      → (k : String) → contains references k ≡ true
      → lookup k (trimmed r.2).graph.nodes ≡ none
  trimmed-gone r a k c =
      none_of (lookup k (trimmed r.2).graph.nodes)
        (elim (Bool-cases (is_some (lookup k t.graph.nodes))) [
          | inl here ↦
              remove_nodes-gone removed (clear_owner kind owner.node_id r.2.graph) k
                (ground (arith, present-contains t.graph.nodes references k, c, here))
          | inr none_here ↦ ((trimmed-TrimsAll r a).1 k).gone (a.affects.there k ∙ none_here)
        ])

  removed-Removes :
      (r : List NodeUiTarget × Bool × MessageTree)
      → AffectsAll excused affected asked r
      → Ends
          (stranded t ≡ true)
          (update_if r.1 (trimmed r.2) >>= λ update. some (
            record {
              cancellation = record { nodes = r.0; active_claim = claim; queue_update = update };
              removed_message_ids = references;
              removed_entire_tree = contains removed t.graph.root_id;
            },
            trimmed r.2,
          ))
          (Removes excused t)
  removed-Removes r a =
      let trims = trimmed-TrimsAll r a in
      let sound =
        trimmed-IsSound excused (contains affected) r.2 (trimmed r.2).graph a.affects.sound
          (λ k hit. (a.done k hit).out) trims in
      Ends->>= (stranded t ≡ true) (λ u. Unit) (Removes excused t) (update_if r.1 (trimmed r.2)) _
        (Ends-weaken ⊥ (stranded t ≡ true) (λ u. Unit) (update_if r.1 (trimmed r.2)) (λ b. absurd b)
          (update_if-Ends excused r.1 (trimmed r.2) sound))
        (λ update done. record {
          keeps = record {
            ready = record {
              sound = sound;
              idle = λ off. a.affects.idle (
                  h.idle (
                    sym (request_if-Requested (is_some claim) t).there
                    ∙ sym (ap (λ a. is_some a) a.affects.active)
                    ∙ off));
            };
            root = trims.0 ∙ a.affects.root;
          };
          gone = λ k c. trimmed-gone r a k c;
          fewer = λ k run. a.affects.fewer k ((trims.1 k).less run);
          others = λ k run. elim (Bool-cases (contains affected k)) [
            | inl hit ↦ cc ((trims.1 k).less run, (a.done k hit).still)
            | inr other ↦ ground (arith, a.left k, other)
          ];
          kept = λ k c.
              remove_nodes-there removed (clear_owner kind owner.node_id r.2.graph) k
                (ground (arith, present-contains t.graph.nodes references k, c))
              ∙ clear_owner-there kind owner.node_id r.2.graph k
              ∙ a.affects.there k;
          entire = present-contains t.graph.nodes references t.graph.root_id;
        })

  pub resolved-Removes :
      Ends
        (stranded t ≡ true)
        (remove_resolved references (some (owner, kind)) t)
        (Removes excused t)
  unfolding remove_resolved
  resolved-Removes = elim (Bool-cases (is_nil references)) [
    | inl nothing ↦ rw nothing (record {
      keeps = record { ready = h; root = refl };
      gone = λ k c. cc;
      fewer = λ k run. run;
      others = λ k run. refl;
      kept = λ k c. refl;
      entire = refl;
    })
    | inr anything ↦ rw anything (
        Ends->>= (stranded t ≡ true) (AffectsAll excused affected asked) (Removes excused t)
          (cancel_affected claim affected asked) _
          (Ends-weaken (stranded asked ≡ true) (stranded t ≡ true)
            (AffectsAll excused affected asked) (cancel_affected claim affected asked)
            (λ s. sym ((request_if-Requested (is_some claim) t).hid t.graph.nodes) ∙ s)
            (cancel_affected-AffectsAll excused claim affected asked
              (IsSound-request excused t asked.active (request_if-Requested (is_some claim) t)
                h.sound)
              (λ k c.
                (request_if-Requested (is_some claim) t).of k
                ∙ claim_on-Claimed (contains affected) t.active k c)))
          (λ r a. removed-Removes r a))
  ]

found-Removes :
    (excused : String → Bool) (references : List String)
    (o : Option (MessageNode × MessageReferenceKind)) (t : MessageTree)
    → IsReady excused t
    → Ends (stranded t ≡ true) (remove_resolved references o t) (Removes excused t)
unfolding remove_resolved
found-Removes excused references none t h = record {
  keeps = record { ready = h; root = refl };
  gone = λ k c. cc;
  fewer = λ k run. run;
  others = λ k run. refl;
  kept = λ k c. refl;
  entire = refl;
}
found-Removes excused references (some (owner, kind)) t h =
    resolved-Removes excused references owner kind t h

-- On a ready tree `remove_message_subtree` raises only if the active claim is stranded. Otherwise the
-- tree stays ready, no removed message id is a node any more and every other node stays, no node
-- becomes runnable, a node that can still run is queued exactly if it was, and the tree is reported as
-- removed entirely exactly if its root was a node and is removed.
pub remove_message_subtree-Removes :
    (excused : String → Bool) (reference : String) (t : MessageTree)
    → IsReady excused t
    → Ends (stranded t ≡ true) (remove_message_subtree reference t) (Removes excused t)
unfolding remove_message_subtree
remove_message_subtree-Removes excused reference t h =
    found-Removes excused (get_reference_descendants reference t.graph)
      (resolve_reference reference t.graph) t h
