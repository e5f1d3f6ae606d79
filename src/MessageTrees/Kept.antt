-- ===== src/MessageTrees/Kept.antt =====
-- What `remove_message_subtree` of messaging/trees/runtime.py picks from a tree, and which nodes the
-- writes of messaging/trees/graph.py that it makes keep.
use test2_freeclaudecode.Prelude.{
  if◌then◌else◌, ◌==◌, ◌≡◌, refl, ap, ◌∙◌, sym, String, Bool, true, false, ◌&&◌, Option, none, some,
  List, [], ◌∷◌, string_eq, is_some, arith, Bool-cases, inl, inr, contains,
}
use test2_freeclaudecode.Prelude.Dict.{Dict, lookup, lookup-remove}
use test2_freeclaudecode.MessageTrees.Graph.{
  MessageNode, MessageReferenceKind, prompt_reference, status_reference, MessageTreeGraph,
  remove_nodes, clear_found, clear_status, clear_node_status, remove_found, drop_child,
}
use test2_freeclaudecode.MessageTrees.Runtime.{ActiveClaim}
use test2_freeclaudecode.MessageTrees.Cancel.{claim_on, clear_owner, present, with_owner}
use test2_freeclaudecode.MessageTrees.Affecting.{Claimed}
use test2_freeclaudecode.MessageTrees.Forest.{lookup-insert_kept, drop_child-Drops}

pub present-contains :
    (nodes : Dict String MessageNode) (ids : List String) (k : String)
    → contains (present nodes ids) k ≡ (contains ids k && is_some (lookup k nodes))
present-contains nodes [] k = refl
present-contains nodes (id ∷ ids) k = elim (Bool-cases (is_some (lookup id nodes))) [
  | inl here ↦ rw here (ground (arith, here, present-contains nodes ids k, string_eq.same_iff id k))
  | inr gone ↦ rw gone (ground (arith, gone, present-contains nodes ids k, string_eq.same_iff id k))
]

pub with_owner-contains :
    (kind : MessageReferenceKind) (id : String) (ids : List String) (k : String)
    → contains ids k ≡ true
    → contains (with_owner kind id ids) k ≡ true
with_owner-contains prompt_reference id ids k c = c
with_owner-contains status_reference id ids k c = ground (arith, c)

pub with_owner-own :
    (id : String) (ids : List String) → contains (with_owner status_reference id ids) id ≡ true
with_owner-own id ids = ground (arith, string_eq.same_iff id id)

pub claim_on-Claimed : (fits : String → Bool) (a : Option ActiveClaim) → Claimed (claim_on fits a) a
claim_on-Claimed fits none k c = cc
claim_on-Claimed fits (some a) k c = ground (arith, c)

clear_found-there :
    (id : String) (o : Option MessageNode) (g : MessageTreeGraph) (k : String)
    → lookup id g.nodes ≡ o
    → is_some (lookup k (clear_found id o g).nodes) ≡ is_some (lookup k g.nodes)
unfolding clear_found
clear_found-there id none g k here = refl
clear_found-there id (some node) g k here = elim (Bool-cases (is_some node.status_message_id)) [
  | inl shown ↦ rw shown (
      lookup-insert_kept (λ o. is_some o) id k (clear_node_status node) g.nodes
        (ap (λ o. is_some o) (sym here)))
  | inr bare ↦ rw bare refl
]

pub clear_owner-there :
    (kind : MessageReferenceKind) (id : String) (g : MessageTreeGraph) (k : String)
    → is_some (lookup k (clear_owner kind id g).nodes) ≡ is_some (lookup k g.nodes)
clear_owner-there prompt_reference id g k = refl
clear_owner-there status_reference id g k =
    unfold clear_status in clear_found-there id (lookup id g.nodes) g k refl

remove_found-there :
    (id : String) (o : Option MessageNode) (g : MessageTreeGraph) (k : String)
    → (id == k) ≡ false
    → is_some (lookup k (remove_found id o g).nodes) ≡ is_some (lookup k g.nodes)
unfolding remove_found
remove_found-there id none g k other = refl
remove_found-there id (some node) g k other =
    let nodes = drop_child node.parent_id id g.nodes in
    ap (λ o. is_some o) (lookup-remove id k nodes)
    ∙ ap (λ b. is_some (if b then none else lookup k nodes)) other
    ∙ (drop_child-Drops node.parent_id id g.nodes).there k

-- What is not removed stays.
pub remove_nodes-there :
    (ids : List String) (g : MessageTreeGraph) (k : String)
    → contains ids k ≡ false
    → is_some (lookup k (remove_nodes ids g).nodes) ≡ is_some (lookup k g.nodes)
unfolding remove_nodes
remove_nodes-there [] g k c = refl
remove_nodes-there (id ∷ ids) g k c =
    remove_nodes-there ids (remove_found id (lookup id g.nodes) g) k (ground (arith, c))
    ∙ remove_found-there id (lookup id g.nodes) g k (ground (arith, c))
