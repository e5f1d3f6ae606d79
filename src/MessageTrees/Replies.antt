-- ===== src/MessageTrees/Replies.antt =====
-- The edges between a tree's messages through any changes of messaging/trees/graph.py.
use mathlib.Core.Path.{subst}
use test2_freeclaudecode.Prelude.{
  ◌≡◌, refl, sym, ◌∙◌, String, Bool, true, ◌&&◌, ◌||◌, Option, none, some, some_injective, List, [],
  ◌∷◌, ◌++◌, string_eq, is_some, arith, Bool-cases, Option-cases, inl, inr,
}
use test2_freeclaudecode.Prelude.Dict.{Dict, lookup, insert}
use test2_freeclaudecode.MessageTrees.Graph.{
  MessageReferenceKind, MessageScope, MessageNode, MessageTreeGraph, can_add, new_node, add_node,
  add_child, clear_status, resolve_reference, find_node_by_status_message, belongs_to,
  MessageReferenceKind,
}
use test2_freeclaudecode.MessageTrees.Walk.{reference_children}
use test2_freeclaudecode.MessageTrees.Cancel.{is_nil}
use test2_freeclaudecode.MessageTrees.ReferenceTree.{
  IsThreaded, Relabels, Relabels-refl, children-Relabels, thinned-IsThreaded,
  clear_found-IsThreaded, remove_nodes-IsThreaded,
}
use test2_freeclaudecode.MessageTrees.ReferenceWalk.{added-IsThreaded}
use test2_freeclaudecode.MessageTrees.History.{
  Change, add_change, clear_change, remove_change, after_change, after_changes, or_same,
}

pub nil_of : (xs : List String) → is_nil xs ≡ true → xs ≡ []
nil_of [] h = refl
nil_of (x ∷ xs) h = cc

-- What a reply refers to is in the tree.
pub reference_known :
    (reference : String) (g : MessageTreeGraph)
    → is_some (resolve_reference reference g) ≡ true
    → (is_some (lookup reference g.nodes) || is_some (lookup reference g.status_to_node)) ≡ true
unfolding resolve_reference find_node_by_status_message
reference_known reference g h = ground (arith, h)

add_child-Relabels :
    (parent : String) (o : Option MessageNode) (id : String) (nodes : Dict String MessageNode)
    → lookup parent nodes ≡ o
    → Relabels nodes (add_child parent o id nodes)
add_child-Relabels parent none id nodes here = Relabels-refl nodes
add_child-Relabels parent (some node) id nodes here =
    children-Relabels parent node (node.children_ids ++ id ∷ []) nodes here

-- No message of the tree answers this one.
abbrev pub is_unanswered : String → MessageTreeGraph → Bool
is_unanswered id g = is_nil (reference_children g.nodes id)

pub relabelled-IsThreaded :
    (g : MessageTreeGraph) (nodes : Dict String MessageNode)
    → IsThreaded g
    → Relabels g.nodes nodes
    → IsThreaded (record g { nodes = nodes })
relabelled-IsThreaded g nodes h r =
    thinned-IsThreaded g (record g { nodes = nodes }) h r.thins
      (λ k c. ground (arith, r.there k, h.listed k (r.thins.message k c)))
      (λ k. r.keyed k ∙ h.keyed k)

belongs-resolved :
    (parent : String) (o : Option (MessageNode × MessageReferenceKind))
    → belongs_to parent o ≡ true
    → is_some o ≡ true
belongs-resolved parent none h = cc
belongs-resolved parent (some (node, kind)) h = refl

pub add_node-IsThreaded :
    (id : String) (scope : MessageScope) (prompt status parent reference : String)
    (g after : MessageTreeGraph)
    → IsThreaded g
    → is_unanswered id g ≡ true
    → is_unanswered status g ≡ true
    → add_node id scope prompt status parent reference g ≡ some after
    → IsThreaded after
unfolding add_node can_add
add_node-IsThreaded id scope prompt status parent reference g after h fresh unread added =
    elim (Bool-cases (can_add id scope status parent reference g)) [
      | inl ok ↦
          let new = new_node id scope prompt status parent reference in
          let nodes = insert id new g.nodes in
          let g' = record g { nodes = nodes; status_to_node = insert status id g.status_to_node } in
          subst IsThreaded (some_injective (rw ok at added)) (
            relabelled-IsThreaded g' (add_child parent (lookup parent nodes) id nodes)
              (added-IsThreaded id status reference new g h (unfold new_node in refl)
                (unfold new_node in refl) (unfold new_node in refl) (ground (arith, ok))
                (ground (arith, ok)) (ground (arith, ok)) (ground (arith, ok)) (ground (arith, ok))
                (reference_known reference g
                  (belongs-resolved parent (resolve_reference reference g) (ground (arith, ok))))
                (nil_of (reference_children g.nodes id) fresh)
                (nil_of (reference_children g.nodes status) unread))
              (add_child-Relabels parent (lookup parent nodes) id nodes refl))
      | inr refused ↦ cc (rw refused at added)
    ]

-- Nobody has answered a message, or its status, before it is added.
abbrev pub is_fresh_change : Change → MessageTreeGraph → Bool
is_fresh_change (add_change id scope prompt status parent reference) g =
    is_unanswered id g && is_unanswered status g
is_fresh_change (clear_change id) g = true
is_fresh_change (remove_change ids) g = true

unfoldable pub are_fresh : List Change → MessageTreeGraph → Bool
are_fresh [] g = true
are_fresh (change ∷ changes) g =
    is_fresh_change change g && are_fresh changes (after_change change g)

after_change-IsThreaded :
    (change : Change) (g : MessageTreeGraph)
    → IsThreaded g
    → is_fresh_change change g ≡ true
    → IsThreaded (after_change change g)
after_change-IsThreaded (add_change id scope prompt status parent reference) g h fresh =
    elim (Option-cases (add_node id scope prompt status parent reference g)) [
      | inl refused ↦ subst (λ o. IsThreaded (or_same o g)) (sym refused) h
      | inr (after, added) ↦
          subst (λ o. IsThreaded (or_same o g)) (sym added)
            (add_node-IsThreaded id scope prompt status parent reference g after h
              (ground (arith, fresh)) (ground (arith, fresh)) added)
    ]
after_change-IsThreaded (clear_change id) g h fresh =
    unfold clear_status in clear_found-IsThreaded id (lookup id g.nodes) g refl h
after_change-IsThreaded (remove_change ids) g h fresh = remove_nodes-IsThreaded ids g h

pub after_changes-IsThreaded :
    (changes : List Change) (g : MessageTreeGraph)
    → IsThreaded g
    → are_fresh changes g ≡ true
    → IsThreaded (after_changes changes g)
unfolding after_changes are_fresh
after_changes-IsThreaded [] g h fresh = h
after_changes-IsThreaded (change ∷ changes) g h fresh =
    after_changes-IsThreaded changes (after_change change g)
      (after_change-IsThreaded change g h (ground (arith, fresh))) (ground (arith, fresh))
