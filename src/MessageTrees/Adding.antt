-- ===== src/MessageTrees/Adding.antt =====
-- `add_and_enqueue` of messaging/trees/runtime.py.
use test2_freeclaudecode.Prelude.{
  ◌≡◌, refl, ap, ◌∙◌, String, Bool, true, false, not, ◌&&◌, Option, none, some, [], ◌∷◌, ◌++◌, ◌==◌,
  string_eq, is_some, if◌then◌else◌, arith, Bool-cases, inl, inr,
}
use test2_freeclaudecode.Prelude.Dict.{Dict, lookup, insert, lookup-insert}
use test2_freeclaudecode.MessageTrees.Graph.{
  MessageScope, MessageNode, can_add, new_node, add_node, add_child,
}
use test2_freeclaudecode.MessageTrees.Runtime.{MessageTree, add_and_enqueue, enqueue_or_claim}
use test2_freeclaudecode.MessageTrees.Sound.{
  Ends, pends, shows, keyed_as, is_claimed, IsSound, or_id,
}
use test2_freeclaudecode.MessageTrees.Admission.{IsReady, Keeps, enqueue_or_claim-Keeps}
use test2_freeclaudecode.MessageTrees.Cancelling.{Ends-imply}
use test2_freeclaudecode.MessageTrees.Trimming.{
  none_of, Trims, Trims-refl, children-Trims, written-Trims,
}

-- A message id that is not empty, and not that of a claim whose node was removed.
abbrev pub is_fresh : String → MessageTree → Bool
is_fresh id t = not (id == "") && not (is_claimed t.active id)

abbrev nowhere : String → Bool
nowhere k = false

add_child-Trims :
    (parent : String) (o : Option MessageNode) (id : String) (nodes : Dict String MessageNode)
    → lookup parent nodes ≡ o
    → (k : String) → Trims false k (lookup k nodes) (lookup k (add_child parent o id nodes))
add_child-Trims parent none id nodes here k = Trims-refl false k (lookup k nodes)
add_child-Trims parent (some node) id nodes here k =
    written-Trims nowhere parent (record node { children_ids = node.children_ids ++ id ∷ [] }) nodes
      (rw here (children-Trims false parent node (node.children_ids ++ id ∷ []))) k

module _ (excused : String → Bool) (claim_id id : String) (scope : MessageScope)
    (prompt status parent reference : String) (t : MessageTree) (h : IsReady excused t)
    (fresh : is_fresh id t ≡ true) where
  abbrev nodes : Dict String MessageNode
  nodes = insert id (new_node id scope prompt status parent reference) t.graph.nodes

  abbrev grown : MessageTree
  grown = record t {
    graph = record t.graph {
      nodes = add_child parent (lookup parent nodes) id nodes;
      status_to_node = insert status id t.graph.status_to_node;
    };
  }

  abbrev trims : (k : String) → Trims false k (lookup k nodes) (lookup k grown.graph.nodes)
  trims k = add_child-Trims parent (lookup parent nodes) id nodes refl k

  grown-IsSound : lookup id t.graph.nodes ≡ none → IsSound (or_id excused id) grown
  unfolding new_node
  grown-IsSound free =
      let new = new_node id scope prompt status parent reference in
      let same : (k : String)
          → lookup k nodes ≡ (if id == k then some new else lookup k t.graph.nodes) =
        λ k. lookup-insert id k new t.graph.nodes in
      record {
        indexed = h.sound.indexed;
        queued =
            λ k c. (trims k).same refl ∙ ap pends (same k) ∙ ground (arith, h.sound.queued k c);
        waits = λ k p. ground (arith, rw (same k) at ((trims k).waits p), h.sound.waits k);
        shown = λ k. (trims k).shown (ap shows (same k) ∙ ground (arith, h.sound.shown k));
        keyed = λ k. (trims k).keyed (ap (keyed_as k) (same k) ∙ ground (arith, h.sound.keyed k));
        named = none_of (lookup "" grown.graph.nodes) (
            (trims "").gone (
              ap (λ o. is_some o) (same "")
              ∙ ground (arith, fresh, h.sound.named, string_eq.same_iff id "")));
        claimed = λ k c.
            (trims k).same refl
            ∙ ap pends (same k)
            ∙ ground (arith, h.sound.claimed k c, fresh, string_eq.same_iff id k);
      }

  unused : can_add id scope status parent reference t.graph ≡ true → lookup id t.graph.nodes ≡ none
  unfolding can_add
  unused ok = none_of (lookup id t.graph.nodes) (ground (arith, ok))

  pub add_and_enqueue-Keeps :
      Ends
        (can_add id scope status parent reference t.graph ≡ false)
        (add_and_enqueue claim_id id scope prompt status parent reference t)
        (λ r. Keeps excused t r.1)
  unfolding add_and_enqueue add_node
  add_and_enqueue-Keeps = elim (Bool-cases (can_add id scope status parent reference t.graph)) [
    | inl ok ↦ rw ok (
        Ends-imply ⊥ (true ≡ false) (λ r. Keeps excused grown r.1) (λ r. Keeps excused t r.1)
          (enqueue_or_claim claim_id id grown) (λ b. absurd b)
          (λ r k. record { ready = k.ready; root = k.root })
          (enqueue_or_claim-Keeps excused claim_id id grown (grown-IsSound (unused ok)) h.idle))
    | inr refused ↦ rw refused refl
  ]
