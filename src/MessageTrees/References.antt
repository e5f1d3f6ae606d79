-- ===== src/MessageTrees/References.antt =====
-- The status messages of a tree and its nodes say the same thing of each other.
use mathlib.Core.Path.{subst}
use test2_freeclaudecode.Prelude.{
  ◌≡◌, refl, ◌∙◌, sym, ap, String, true, false, ◌&&◌, Option, none, some, List, [], ◌∷◌, ◌++◌, ◌==◌,
  string_eq, is_some, if◌then◌else◌, arith, Bool-cases, Option-cases, inl, inr, some_injective,
}
use test2_freeclaudecode.Prelude.Dict.{Dict, lookup, insert, remove, lookup-insert, lookup-remove}
use test2_freeclaudecode.MessageTrees.Queue.{without}
use test2_freeclaudecode.MessageTrees.Graph.{
  MessageScope, MessageNode, MessageTreeGraph, add_child, can_add, new_node, add_node,
  clear_node_status, clear_found, drop_status, drop_child, remove_found, remove_nodes, mark_error,
  update_state,
}

abbrev pub status_of : Option MessageNode → Option String
status_of none = none
status_of (some node) = node.status_message_id

-- Each status message belongs to the node that shows it, each shown message is listed, and no
-- message is a prompt and a status at once.
pub record IsLinked (nodes : Dict String MessageNode) (statuses : Dict String String) : Type 0 where
  pub owns : (s n : String) → lookup s statuses ≡ some n → status_of (lookup n nodes) ≡ some s
  pub listed : (n s : String) → status_of (lookup n nodes) ≡ some s → lookup s statuses ≡ some n
  pub apart : (s : String) → (is_some (lookup s statuses) && is_some (lookup s nodes)) ≡ false

-- Nodes that are there in both and show the same status.
record IsAlike (old new : Dict String MessageNode) : Type 0 where
  there : (k : String) → is_some (lookup k new) ≡ is_some (lookup k old)
  shows : (k : String) → status_of (lookup k new) ≡ status_of (lookup k old)

IsLinked-IsAlike :
    (old new : Dict String MessageNode) (statuses : Dict String String)
    → IsAlike old new
    → IsLinked old statuses
    → IsLinked new statuses
IsLinked-IsAlike old new statuses same h = record {
  owns = λ s n e. same.shows n ∙ h.owns s n e;
  listed = λ n s e. h.listed n s (sym (same.shows n) ∙ e);
  apart = λ s. ground (arith, same.there s, h.apart s);
}

-- A write that keeps the status of the node that stood there.
insert-IsAlike :
    (id : String) (node node' : MessageNode) (nodes : Dict String MessageNode)
    → lookup id nodes ≡ some node
    → node'.status_message_id ≡ node.status_message_id
    → IsAlike nodes (insert id node' nodes)
insert-IsAlike id node node' nodes here same = record {
  there = λ k. rw (lookup-insert id k node' nodes) (ground (arith, string_eq.same_iff id k, here));
  shows = λ k.
      rw (lookup-insert id k node' nodes) (ground (arith, string_eq.same_iff id k, here, same));
}

add_child-IsAlike :
    (parent id : String) (nodes : Dict String MessageNode)
    → IsAlike nodes (add_child parent (lookup parent nodes) id nodes)
add_child-IsAlike parent id nodes = elim (Option-cases (lookup parent nodes)) [
  | inl missing ↦ rw missing (record { there = λ k. refl; shows = λ k. refl })
  | inr (node, here) ↦ rw here (
      insert-IsAlike parent node (record node { children_ids = node.children_ids ++ id ∷ [] }) nodes
        here refl)
]

module _ (id status : String) (node : MessageNode) (nodes : Dict String MessageNode)
    (statuses : Dict String String) where
  insert-IsLinked :
      IsLinked nodes statuses
      → node.status_message_id ≡ some status
      → is_some (lookup id nodes) ≡ false
      → (status == id) ≡ false
      → is_some (lookup id statuses) ≡ false
      → is_some (lookup status statuses) ≡ false
      → is_some (lookup status nodes) ≡ false
      → IsLinked (insert id node nodes) (insert status id statuses)
  insert-IsLinked h shown new other unlisted unused free = record {
    owns = λ s n e. rw (lookup-insert id n node nodes) (
        ground (
          arith,
          rw (lookup-insert status s id statuses) at e,
          h.owns s n,
          shown,
          new,
          string_eq.same_iff status s,
          string_eq.same_iff id n,
        ));
    listed = λ n s e. rw (lookup-insert status s id statuses) (
        ground (
          arith,
          rw (lookup-insert id n node nodes) at e,
          h.listed n s,
          shown,
          unused,
          string_eq.same_iff status s,
          string_eq.same_iff id n,
        ));
    apart = λ s.
        rw (lookup-insert id s node nodes, lookup-insert status s id statuses)
          (ground (
            arith,
            h.apart s,
            string_eq.same_iff status s,
            string_eq.same_iff id s,
            string_eq.same_iff status id,
          ));
  }

module _ (id : String) (nodes : Dict String MessageNode) (statuses : Dict String String)
    (h : IsLinked nodes statuses) where
  -- A node that stops to show its status, or that goes.
  hide-IsLinked :
      (o : Option String) (nodes' : Dict String MessageNode)
      → status_of (lookup id nodes) ≡ o
      → ((k : String)
          → status_of (lookup k nodes') ≡ (if id == k then none else status_of (lookup k nodes)))
      → ((k : String) → is_some (lookup k nodes') ≡ true → is_some (lookup k nodes) ≡ true)
      → IsLinked nodes' (drop_status o statuses)
  hide-IsLinked none nodes' shown hidden fewer = record {
    owns = λ s n e. ground (arith, hidden n, h.owns s n e, string_eq.same_iff id n, shown);
    listed = λ n s e. ground (arith, hidden n, h.listed n s, e);
    apart = λ s. ground (arith, fewer s, h.apart s);
  }
  hide-IsLinked (some t) nodes' shown hidden fewer = record {
    owns = λ s n e. ground (
      arith,
      hidden n,
      rw (lookup-remove t s statuses) at e,
      h.owns s n,
      string_eq.same_iff id n,
      string_eq.same_iff t s,
      shown,
    );
    listed = λ n s e. rw (lookup-remove t s statuses) (
        ground (
          arith,
          hidden n,
          e,
          h.listed n s,
          h.listed id t shown,
          string_eq.same_iff id n,
          string_eq.same_iff t s,
        ));
    apart = λ s. rw (lookup-remove t s statuses) (ground (arith, fewer s, h.apart s));
  }

abbrev pub IsLinkedGraph : MessageTreeGraph → Type 0
IsLinkedGraph g = IsLinked g.nodes g.status_to_node

pub add_node-IsLinked :
    (id : String) (scope : MessageScope) (prompt status parent reference : String)
    (g after : MessageTreeGraph)
    → IsLinkedGraph g
    → add_node id scope prompt status parent reference g ≡ some after
    → IsLinkedGraph after
unfolding add_node can_add
add_node-IsLinked id scope prompt status parent reference g after h e =
    elim (Bool-cases (can_add id scope status parent reference g)) [
      | inl ok ↦
          let nodes = insert id (new_node id scope prompt status parent reference) g.nodes in
          let e' = some_injective (rw ok at e) in
          subst IsLinkedGraph e' (
            IsLinked-IsAlike nodes (add_child parent (lookup parent nodes) id nodes)
              (insert status id g.status_to_node) (add_child-IsAlike parent id nodes)
              (insert-IsLinked id status (new_node id scope prompt status parent reference) g.nodes
                g.status_to_node h (unfold new_node in refl) (ground (arith, ok))
                (ground (arith, ok)) (ground (arith, ok)) (ground (arith, ok))
                (ground (arith, ok))))
      | inr bad ↦ cc (rw bad at e)
    ]

status-clear_node_status : (node : MessageNode) → (clear_node_status node).status_message_id ≡ none
unfolding clear_node_status mark_error update_state
status-clear_node_status node = refl

pub clear_found-IsLinked :
    (id : String) (o : Option MessageNode) (g : MessageTreeGraph)
    → lookup id g.nodes ≡ o
    → IsLinkedGraph g
    → IsLinkedGraph (clear_found id o g)
unfolding clear_found
clear_found-IsLinked id none g here h = h
clear_found-IsLinked id (some node) g here h = elim (Bool-cases (is_some node.status_message_id)) [
  | inl shown ↦ rw shown (
      hide-IsLinked id g.nodes g.status_to_node h node.status_message_id
        (insert id (clear_node_status node) g.nodes) (rw here refl)
        (λ k.
          rw (lookup-insert id k (clear_node_status node) g.nodes)
            (ground (arith, status-clear_node_status node)))
        (λ k e. ground (
          arith,
          rw (lookup-insert id k (clear_node_status node) g.nodes) at e,
          string_eq.same_iff id k,
          here,
        )))
  | inr silent ↦ rw silent h
]

drop_child-IsAlike :
    (parent : Option String) (id : String) (nodes : Dict String MessageNode)
    → IsAlike nodes (drop_child parent id nodes)
drop_child-IsAlike none id nodes = record { there = λ k. refl; shows = λ k. refl }
drop_child-IsAlike (some parent) id nodes = elim (Option-cases (lookup parent nodes)) [
  | inl missing ↦ rw missing (record { there = λ k. refl; shows = λ k. refl })
  | inr (node, here) ↦ rw here (
      insert-IsAlike parent node (record node { children_ids = without id node.children_ids }) nodes
        here refl)
]

remove_found-IsLinked :
    (id : String) (o : Option MessageNode) (g : MessageTreeGraph)
    → lookup id g.nodes ≡ o
    → IsLinkedGraph g
    → IsLinkedGraph (remove_found id o g)
unfolding remove_found
remove_found-IsLinked id none g here h = h
remove_found-IsLinked id (some node) g here h =
    let nodes = drop_child node.parent_id id g.nodes in
    let same = drop_child-IsAlike node.parent_id id g.nodes in
    hide-IsLinked id nodes g.status_to_node (IsLinked-IsAlike g.nodes nodes g.status_to_node same h)
      node.status_message_id (remove id nodes) (same.shows id ∙ ap status_of here)
      (λ k. rw (lookup-remove id k nodes) (ground arith))
      (λ k e. ground (arith, rw (lookup-remove id k nodes) at e))

pub remove_nodes-IsLinked :
    (ids : List String) (g : MessageTreeGraph)
    → IsLinkedGraph g
    → IsLinkedGraph (remove_nodes ids g)
unfolding remove_nodes
remove_nodes-IsLinked [] g h = h
remove_nodes-IsLinked (id ∷ ids) g h =
    remove_nodes-IsLinked ids (remove_found id (lookup id g.nodes) g)
      (remove_found-IsLinked id (lookup id g.nodes) g refl h)
