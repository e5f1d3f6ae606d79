-- ===== src/MessageTrees/Forest.antt =====
-- The parents and the children of a tree's nodes through the changes of messaging/trees/graph.py.
use test2_freeclaudecode.Prelude.{
  ℕ, ◌<◌, ◌≡◌, refl, sym, ap, ◌∙◌, String, Bool, true, false, Option, none, some, List, [], ◌∷◌,
  ◌==◌, string_eq, is_some, if◌then◌else◌, contains, distinct, arith, Bool-cases, inl, inr,
}
use test2_freeclaudecode.Prelude.Dict.{Dict, lookup, insert, remove, lookup-insert, lookup-remove}
use test2_freeclaudecode.MessageTrees.Queue.{without}
use test2_freeclaudecode.MessageTrees.QueueOrder.{contains-without, distinct-without}
use test2_freeclaudecode.MessageTrees.Graph.{
  MessageNode, MessageTreeGraph, is_id, drop_from, drop_child, remove_found, remove_nodes,
  clear_found, clear_node_status, mark_error, update_state,
}
use test2_freeclaudecode.MessageTrees.Walk.{children_of, node_children}
use test2_freeclaudecode.MessageTrees.WalkEnds.{IsForest}
use test2_freeclaudecode.MessageTrees.Cancel.{ids_of}
use test2_freeclaudecode.MessageTrees.StoppedAll.{ids_of-contains}

abbrev pub parent_of : Option MessageNode → Option String
parent_of none = none
parent_of (some node) = node.parent_id

-- A child is in the tree, once, and points to its parent.
pub record IsRooted (nodes : Dict String MessageNode) : Type 0 where
  pub rank : String → ℕ
  pub rises : (p c : String) → contains (children_of (lookup p nodes)) c ≡ true → rank p < rank c
  pub owned :
      (p c : String)
      → contains (children_of (lookup p nodes)) c ≡ true
      → parent_of (lookup c nodes) ≡ some p
  pub unique : (p : String) → distinct (children_of (lookup p nodes)) ≡ true
  pub known :
      (p c : String)
      → contains (children_of (lookup p nodes)) c ≡ true
      → is_some (lookup c nodes) ≡ true

pub IsRooted-IsForest :
    (g : MessageTreeGraph) → IsRooted g.nodes → IsForest (node_children g) (ids_of g.nodes)
unfolding node_children
IsRooted-IsForest g h = record {
  rank = h.rank;
  parent = λ c. parent_of (lookup c g.nodes);
  rises = h.rises;
  owned = h.owned;
  unique = h.unique;
  known = λ p c child. ids_of-contains c g.nodes (h.known p c child);
}

-- The same relatives.
record SameKin (nodes nodes' : Dict String MessageNode) : Type 0 where
  children : (k : String) → children_of (lookup k nodes') ≡ children_of (lookup k nodes)
  parent : (k : String) → parent_of (lookup k nodes') ≡ parent_of (lookup k nodes)
  there : (k : String) → is_some (lookup k nodes') ≡ is_some (lookup k nodes)

SameKin-IsRooted :
    (nodes nodes' : Dict String MessageNode)
    → SameKin nodes nodes'
    → IsRooted nodes
    → IsRooted nodes'
SameKin-IsRooted nodes nodes' s h =
    let old : (p c : String)
        → contains (children_of (lookup p nodes')) c ≡ true
        → contains (children_of (lookup p nodes)) c ≡ true =
      λ p c child. ap (λ cs. contains cs c) (sym (s.children p)) ∙ child in
    record {
      rank = h.rank;
      rises = λ p c child. h.rises p c (old p c child);
      owned = λ p c child. s.parent c ∙ h.owned p c (old p c child);
      unique = λ p. ap (λ cs. distinct cs) (s.children p) ∙ h.unique p;
      known = λ p c child. s.there c ∙ h.known p c (old p c child);
    }

-- What is read of a node is the same everywhere after a write that keeps it.
pub lookup-insert_kept :
    {A : Type 0} (f : Option MessageNode → A) (id k : String) (node' : MessageNode)
    (nodes : Dict String MessageNode)
    → f (some node') ≡ f (lookup id nodes)
    → f (lookup k (insert id node' nodes)) ≡ f (lookup k nodes)
lookup-insert_kept f id k node' nodes same = elim (Bool-cases (id == k)) [
  | inl hit ↦
      ap f (lookup-insert id k node' nodes)
      ∙ ap (λ b. f (if b then some node' else lookup k nodes)) hit
      ∙ same
      ∙ ap (λ j. f (lookup j nodes)) ((string_eq.same_iff id k).0 hit)
  | inr miss ↦
      ap f (lookup-insert id k node' nodes)
      ∙ ap (λ b. f (if b then some node' else lookup k nodes)) miss
]

-- A write to a node that keeps its relatives.
insert-SameKin :
    (id : String) (node node' : MessageNode) (nodes : Dict String MessageNode)
    → lookup id nodes ≡ some node
    → node'.children_ids ≡ node.children_ids
    → node'.parent_id ≡ node.parent_id
    → SameKin nodes (insert id node' nodes)
insert-SameKin id node node' nodes here c p = record {
  children = λ k. lookup-insert_kept children_of id k node' nodes (c ∙ ap children_of (sym here));
  parent = λ k. lookup-insert_kept parent_of id k node' nodes (p ∙ ap parent_of (sym here));
  there =
      λ k. lookup-insert_kept (λ o. is_some o) id k node' nodes (ap (λ o. is_some o) (sym here));
}

pub clear_found-IsRooted :
    (id : String) (o : Option MessageNode) (g : MessageTreeGraph)
    → lookup id g.nodes ≡ o
    → IsRooted g.nodes
    → IsRooted (clear_found id o g).nodes
unfolding clear_found clear_node_status mark_error update_state
clear_found-IsRooted id none g here h = h
clear_found-IsRooted id (some node) g here h = elim (Bool-cases (is_some node.status_message_id)) [
  | inl shown ↦ rw shown (
      SameKin-IsRooted g.nodes (insert id (clear_node_status node) g.nodes)
        (insert-SameKin id node (clear_node_status node) g.nodes here refl refl) h)
  | inr bare ↦ rw bare h
]

-- A node that is dropped from its parent is no child any more.
pub record Drops (parent : Option String) (id : String) (nodes nodes' : Dict String MessageNode)
    : Type 0 where
  children :
      (k : String)
      → children_of (lookup k nodes') ≡ (
          if is_id parent k
          then without id (children_of (lookup k nodes))
          else children_of (lookup k nodes))
  parent_kept : (k : String) → parent_of (lookup k nodes') ≡ parent_of (lookup k nodes)
  pub there : (k : String) → is_some (lookup k nodes') ≡ is_some (lookup k nodes)

drop_from-Drops :
    (p : String) (o : Option MessageNode) (id : String) (nodes : Dict String MessageNode)
    → lookup p nodes ≡ o
    → Drops (some p) id nodes (drop_from p o id nodes)
unfolding without
drop_from-Drops p none id nodes here = record {
  children = λ k. ground (arith, here, string_eq.same_iff p k);
  parent_kept = λ k. refl;
  there = λ k. refl;
}
drop_from-Drops p (some node) id nodes here =
    let node' = record node { children_ids = without id node.children_ids } in
    record {
      children = λ k.
          ap children_of (lookup-insert p k node' nodes)
          ∙ ground (arith, here, string_eq.same_iff p k);
      parent_kept = λ k. lookup-insert_kept parent_of p k node' nodes (ap parent_of (sym here));
      there =
          λ k. lookup-insert_kept (λ o. is_some o) p k node' nodes (ap (λ o. is_some o) (sym here));
    }

pub drop_child-Drops :
    (parent : Option String) (id : String) (nodes : Dict String MessageNode)
    → Drops parent id nodes (drop_child parent id nodes)
drop_child-Drops none id nodes = record {
  children = λ k. refl;
  parent_kept = λ k. refl;
  there = λ k. refl;
}
drop_child-Drops (some p) id nodes = drop_from-Drops p (lookup p nodes) id nodes refl

-- The children that are left to a node.
abbrev pruned : Bool → Bool → String → List String → List String
pruned gone own id xs = if gone then [] else if own then without id xs else xs

pruned-contains :
    (gone own : Bool) (id c : String) (xs : List String)
    → contains (pruned gone own id xs) c ≡ true
    → (contains xs c ≡ true) × (own ≡ true → (id == c) ≡ false)
pruned-contains true own id c xs h = cc
pruned-contains false true id c xs h =
    (ground (arith, contains-without id c xs, h), λ o. ground (arith, contains-without id c xs, h))
pruned-contains false false id c xs h = (h, λ o. cc)

distinct-pruned :
    (gone own : Bool) (id : String) (xs : List String)
    → distinct xs ≡ true
    → distinct (pruned gone own id xs) ≡ true
distinct-pruned true own id xs h = refl
distinct-pruned false true id xs h = distinct-without id xs h
distinct-pruned false false id xs h = h

removed-IsRooted :
    (id : String) (nodes nodes' : Dict String MessageNode)
    → IsRooted nodes
    → Drops (parent_of (lookup id nodes)) id nodes nodes'
    → IsRooted (remove id nodes')
removed-IsRooted id nodes nodes' h d =
    let parent = parent_of (lookup id nodes) in
    let children : (k : String)
        → children_of (lookup k (remove id nodes'))
          ≡ pruned (id == k) (is_id parent k) id (children_of (lookup k nodes)) =
      λ k. ap children_of (lookup-remove id k nodes') ∙ ground (arith, d.children k) in
    let old : (p c : String)
        → contains (children_of (lookup p (remove id nodes'))) c ≡ true
        → (contains (children_of (lookup p nodes)) c ≡ true) × ((id == c) ≡ false) =
      λ p c child.
        let (was, other) =
          pruned-contains (id == p) (is_id parent p) id c (children_of (lookup p nodes))
            (ap (λ cs. contains cs c) (sym (children p)) ∙ child) in
        (
          was,
          elim (Bool-cases (id == c)) [
            | inl same ↦ other (
                ap (λ o. is_id o p)
                  (ap (λ j. parent_of (lookup j nodes)) ((string_eq.same_iff id c).0 same)
                    ∙ h.owned p c was)
                ∙ ground (arith, string_eq.same_iff p p))
            | inr differ ↦ differ
          ],
        ) in
    record {
      rank = h.rank;
      rises = λ p c child. h.rises p c (old p c child).0;
      owned = λ p c child.
          ap parent_of (lookup-remove id c nodes')
          ∙ ap (λ b. parent_of (if b then none else lookup c nodes')) (old p c child).1
          ∙ d.parent_kept c
          ∙ h.owned p c (old p c child).0;
      unique = λ p.
          ap (λ cs. distinct cs) (children p)
          ∙ distinct-pruned (id == p) (is_id parent p) id (children_of (lookup p nodes))
              (h.unique p);
      known = λ p c child.
          ap (λ o. is_some o) (lookup-remove id c nodes')
          ∙ ap (λ b. is_some (if b then none else lookup c nodes')) (old p c child).1
          ∙ d.there c
          ∙ h.known p c (old p c child).0;
    }

remove_found-IsRooted :
    (id : String) (o : Option MessageNode) (g : MessageTreeGraph)
    → lookup id g.nodes ≡ o
    → IsRooted g.nodes
    → IsRooted (remove_found id o g).nodes
unfolding remove_found
remove_found-IsRooted id none g here h = h
remove_found-IsRooted id (some node) g here h =
    removed-IsRooted id g.nodes (drop_child node.parent_id id g.nodes) h
      (rw here (drop_child-Drops node.parent_id id g.nodes))

pub remove_nodes-IsRooted :
    (ids : List String) (g : MessageTreeGraph)
    → IsRooted g.nodes
    → IsRooted (remove_nodes ids g).nodes
unfolding remove_nodes
remove_nodes-IsRooted [] g h = h
remove_nodes-IsRooted (id ∷ ids) g h =
    remove_nodes-IsRooted ids (remove_found id (lookup id g.nodes) g)
      (remove_found-IsRooted id (lookup id g.nodes) g refl h)
