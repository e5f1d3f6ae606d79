-- ===== src/MessageTrees/Descendants.antt =====
-- `get_descendants` of messaging/trees/graph.py on the trees that changes lead to.
use mathlib.Core.Path.{subst}
use test2_freeclaudecode.Prelude.{
  some_injective, suc, ◌≡◌, refl, sym, ap, ◌∙◌, String, Bool, true, false, ◌&&◌, ◌||◌, Option, none,
  some, List, [], ◌∷◌, ◌++◌, ◌==◌, string_eq, is_some, if◌then◌else◌, length, contains, distinct,
  contains-append, distinct-snoc, arith, Bool-cases, Option-cases, inl, inr,
}
use test2_freeclaudecode.Prelude.Dict.{Dict, lookup, insert, lookup-insert}
use test2_freeclaudecode.MessageTrees.Graph.{
  MessageScope, MessageNode, MessageTreeGraph, can_add, new_node, add_node, add_child, clear_status,
  new_graph,
}
use test2_freeclaudecode.MessageTrees.Walk.{
  walk, Walks, children_of, node_children, get_descendants,
}
use test2_freeclaudecode.MessageTrees.WalkEnds.{walk_root-Finishes}
use test2_freeclaudecode.MessageTrees.Cancel.{ids_of}
use test2_freeclaudecode.MessageTrees.StoppedAll.{ids_of-contains}
use test2_freeclaudecode.MessageTrees.Trimming.{none_of}
use test2_freeclaudecode.MessageTrees.Forest.{
  parent_of, IsRooted, IsRooted-IsForest, lookup-insert_kept, clear_found-IsRooted,
  remove_nodes-IsRooted,
}
use test2_freeclaudecode.MessageTrees.History.{
  Change, add_change, clear_change, remove_change, after_change, after_changes, or_same,
  new_graph-nodes,
}

-- A new leaf under a node of the tree.
module _ (id parent : String) (new node : MessageNode) (nodes : Dict String MessageNode)
    (h : IsRooted nodes) (free : lookup id nodes ≡ none) (here : lookup parent nodes ≡ some node)
    (leaf : new.children_ids ≡ []) (under : new.parent_id ≡ some parent) where
  abbrev grown : Dict String MessageNode
  grown =
      insert parent (record node { children_ids = node.children_ids ++ id ∷ [] })
        (insert id new nodes)

  apart : (id == parent) ≡ false
  apart = elim (Bool-cases (id == parent)) [
    | inl same ↦ cc (free, here, (string_eq.same_iff id parent).0 same)
    | inr differ ↦ differ
  ]

  -- The children of a node, with the new leaf if the node is its parent.
  abbrev with_leaf : Bool → List String → List String
  with_leaf own xs = if own then xs ++ id ∷ [] else xs

  grown_children :
      (k : String)
      → children_of (lookup k grown) ≡ with_leaf (parent == k) (children_of (lookup k nodes))
  grown_children k =
      ap children_of (
        lookup-insert parent k (record node { children_ids = node.children_ids ++ id ∷ [] })
          (insert id new nodes))
      ∙ ground (
        arith,
        lookup-insert id k new nodes,
        free,
        here,
        leaf,
        apart,
        string_eq.same_iff id k,
        string_eq.same_iff parent k,
      )

  grown_parent :
      (k : String)
      → parent_of (lookup k grown) ≡ (if id == k then some parent else parent_of (lookup k nodes))
  grown_parent k =
      lookup-insert_kept parent_of parent k
        (record node { children_ids = node.children_ids ++ id ∷ [] }) (insert id new nodes)
        (sym (ap parent_of (lookup-insert id parent new nodes) ∙ ground (arith, apart, here)))
      ∙ ap parent_of (lookup-insert id k new nodes)
      ∙ ground (arith, under)

  grown_there : (k : String) → is_some (lookup k grown) ≡ (id == k || is_some (lookup k nodes))
  grown_there k =
      lookup-insert_kept (λ o. is_some o) parent k
        (record node { children_ids = node.children_ids ++ id ∷ [] }) (insert id new nodes)
        (sym
          (ap (λ o. is_some o) (lookup-insert id parent new nodes) ∙ ground (arith, apart, here)))
      ∙ ap (λ o. is_some o) (lookup-insert id k new nodes)
      ∙ ground arith

  -- A child was one before, or it is the new leaf.
  was :
      (p c : String)
      → contains (children_of (lookup p grown)) c ≡ true
      → (contains (children_of (lookup p nodes)) c || (parent == p && id == c)) ≡ true
  was p c child = ground (
    arith,
    ap (λ cs. contains cs c) (grown_children p),
    child,
    contains-append (children_of (lookup p nodes)) (id ∷ []) c,
  )

  -- The new id was no child and had none.
  unrelated :
      (p c : String)
      → contains (children_of (lookup p nodes)) c ≡ true
      → ((id == p) ≡ false) × ((id == c) ≡ false)
  unrelated p c child = (
    ground (arith, string_eq.same_iff id p, free, child),
    ground (arith, string_eq.same_iff id c, free, h.known p c child),
  )

  leaf_parts :
      (p c : String)
      → contains (children_of (lookup p grown)) c ≡ true
      → contains (children_of (lookup p nodes)) c ≡ false
      → (parent ≡ p) × (id ≡ c)
  leaf_parts p c child not_old = (
    (string_eq.same_iff parent p).0 (ground (arith, was p c child, not_old)),
    (string_eq.same_iff id c).0 (ground (arith, was p c child, not_old)),
  )

  grown-IsRooted : IsRooted grown
  grown-IsRooted = record {
    rank = λ k. if id == k then suc (h.rank parent) else h.rank k;
    rises = λ p c child. elim (Bool-cases (contains (children_of (lookup p nodes)) c)) [
      | inl old ↦ ground (arith, h.rises p c old, unrelated p c old)
      | inr fresh ↦
          let (at, of) = leaf_parts p c child fresh in
          ground (arith, ap h.rank at, (string_eq.same_iff id c).1 of, apart, ap (λ k. id == k) at)
    ];
    owned = λ p c child. elim (Bool-cases (contains (children_of (lookup p nodes)) c)) [
      | inl old ↦
          grown_parent c
          ∙ ap (λ b. if b then some parent else parent_of (lookup c nodes)) (unrelated p c old).1
          ∙ h.owned p c old
      | inr fresh ↦
          let (at, of) = leaf_parts p c child fresh in
          grown_parent c
          ∙ ap (λ b. if b then some parent else parent_of (lookup c nodes))
              ((string_eq.same_iff id c).1 of)
          ∙ ap some at
    ];
    unique = λ p. ap (λ cs. distinct cs) (grown_children p) ∙ elim (Bool-cases (parent == p)) [
      | inl own ↦ rw own (
          distinct-snoc (children_of (lookup p nodes)) id (h.unique p)
            (ground (arith, unrelated p id, string_eq.same_iff id id)))
      | inr other ↦ rw other (h.unique p)
    ];
    known = λ p c child.
        grown_there c ∙ elim (Bool-cases (contains (children_of (lookup p nodes)) c)) [
          | inl old ↦ ground (arith, h.known p c old)
          | inr fresh ↦ ground (arith, (string_eq.same_iff id c).1 (leaf_parts p c child fresh).1)
        ];
  }

leaf_added-IsRooted :
    (id parent : String) (new : MessageNode) (nodes : Dict String MessageNode)
    (o : Option MessageNode)
    → IsRooted nodes
    → is_some (lookup id nodes) ≡ false
    → lookup parent nodes ≡ o
    → is_some o ≡ true
    → new.children_ids ≡ []
    → new.parent_id ≡ some parent
    → IsRooted (add_child parent (lookup parent (insert id new nodes)) id (insert id new nodes))
leaf_added-IsRooted id parent new nodes none h unused here there leaf under = cc
leaf_added-IsRooted id parent new nodes (some node) h unused here there leaf under =
    let free = none_of (lookup id nodes) unused in
    let kept : lookup parent (insert id new nodes) ≡ some node =
      lookup-insert id parent new nodes
      ∙ ap (λ b. if b then some new else lookup parent nodes)
          (apart id parent new node nodes h free here leaf under)
      ∙ here in
    subst (λ o. IsRooted (add_child parent o id (insert id new nodes))) (sym kept)
      (grown-IsRooted id parent new node nodes h free here leaf under)

add_node-IsRooted :
    (id : String) (scope : MessageScope) (prompt status parent reference : String)
    (g after : MessageTreeGraph)
    → IsRooted g.nodes
    → add_node id scope prompt status parent reference g ≡ some after
    → IsRooted after.nodes
unfolding add_node can_add
add_node-IsRooted id scope prompt status parent reference g after h added =
    elim (Bool-cases (can_add id scope status parent reference g)) [
      | inl ok ↦
          subst (λ a. IsRooted a.nodes) (some_injective (rw ok at added))
            (leaf_added-IsRooted id parent (new_node id scope prompt status parent reference)
              g.nodes (lookup parent g.nodes) h (ground (arith, ok)) refl (ground (arith, ok))
              (unfold new_node in refl) (unfold new_node in refl))
      | inr refused ↦ cc (rw refused at added)
    ]

after_change-IsRooted :
    (change : Change) (g : MessageTreeGraph)
    → IsRooted g.nodes
    → IsRooted (after_change change g).nodes
after_change-IsRooted (add_change id scope prompt status parent reference) g h =
    elim (Option-cases (add_node id scope prompt status parent reference g)) [
      | inl refused ↦ subst (λ o. IsRooted (or_same o g).nodes) (sym refused) h
      | inr (after, added) ↦
          subst (λ o. IsRooted (or_same o g).nodes) (sym added)
            (add_node-IsRooted id scope prompt status parent reference g after h added)
    ]
after_change-IsRooted (clear_change id) g h =
    unfold clear_status in clear_found-IsRooted id (lookup id g.nodes) g refl h
after_change-IsRooted (remove_change ids) g h = remove_nodes-IsRooted ids g h

after_changes-IsRooted :
    (changes : List Change) (g : MessageTreeGraph)
    → IsRooted g.nodes
    → IsRooted (after_changes changes g).nodes
unfolding after_changes
after_changes-IsRooted [] g h = h
after_changes-IsRooted (change ∷ changes) g h =
    after_changes-IsRooted changes (after_change change g) (after_change-IsRooted change g h)

root-IsRooted :
    (id : String) (root : MessageNode) → root.children_ids ≡ [] → IsRooted ((id, root) ∷ [])
unfolding lookup
root-IsRooted id root leaf =
    let bare : (k : String) → children_of (lookup k ((id, root) ∷ [])) ≡ [] =
      λ k. ground (arith, leaf) in
    record {
      rank = λ k. 0;
      rises = λ p c child. cc (bare p, child);
      owned = λ p c child. cc (bare p, child);
      unique = λ p. rw (bare p) refl;
      known = λ p c child. cc (bare p, child);
    }

-- The loop from an id ends with the result, and no stack is left after as many turns as the tree has
-- nodes. The result is exactly the nodes that are reached from the id through children, each once.
pub record IsSubtree (g : MessageTreeGraph) (id : String) (result : List String) : Type 0 where
  pub ends : Walks (node_children g) (id ∷ []) result
  pub left : (walk (node_children g) (length g.nodes) (id ∷ [])).1 ≡ []
  pub once : distinct result ≡ true
  pub itself : contains result id ≡ true
  pub closed :
      (p c : String)
      → contains result p ≡ true
      → contains (node_children g p) c ≡ true
      → contains result c ≡ true
  pub least :
      (s : String → Bool)
      → s id ≡ true
      → ((p c : String) → s p ≡ true → contains (node_children g p) c ≡ true → s c ≡ true)
      → (k : String) → contains result k ≡ true
      → s k ≡ true

pub length-ids_of : (nodes : Dict String MessageNode) → length (ids_of nodes) ≡ length nodes
length-ids_of [] = refl
length-ids_of ((id, node) ∷ nodes) = omega (arith, length-ids_of nodes)

get_descendants-IsSubtree :
    (g : MessageTreeGraph) (id : String)
    → IsRooted g.nodes
    → is_some (lookup id g.nodes) ≡ true
    → IsSubtree g id (get_descendants id g)
unfolding get_descendants
get_descendants-IsSubtree g id h there =
    let (f, over) =
      walk_root-Finishes (node_children g) (ids_of g.nodes) (IsRooted-IsForest g h) id
        (ids_of-contains id g.nodes there) in
    rw there (
      subst (λ n. IsSubtree g id (walk (node_children g) n (id ∷ [])).0) (length-ids_of g.nodes)
        (record {
          ends = f.ends;
          left =
              subst (λ n. (walk (node_children g) n (id ∷ [])).1 ≡ []) (length-ids_of g.nodes) over;
          once = f.once;
          itself = f.all id (ground (arith, string_eq.same_iff id id));
          closed = f.closed;
          least = λ s top down k c.
              f.least s
                (λ j in_stack.
                  subst (λ i. s i ≡ true) ((string_eq.same_iff id j).0 (ground (arith, in_stack)))
                    top)
                down k c;
        }))

-- In a tree that is made from a root without children and then changed by additions, clearings and
-- removals, the loop of `get_descendants` from a node of the tree ends with the result of
-- `get_descendants`, and its stack is empty after as many turns as the tree has nodes. The result is
-- the node and everything that is reached from it through children, and nothing else, each once.
pub after_changes-IsSubtree :
    (root : MessageNode) (g : MessageTreeGraph) (changes : List Change) (id : String)
    → new_graph root ≡ some g
    → root.children_ids ≡ []
    → is_some (lookup id (after_changes changes g).nodes) ≡ true
    → IsSubtree (after_changes changes g) id (get_descendants id (after_changes changes g))
after_changes-IsSubtree root g changes id new leaf there =
    get_descendants-IsSubtree (after_changes changes g) id
      (after_changes-IsRooted changes g
        (subst IsRooted (sym (new_graph-nodes root g new)) (root-IsRooted root.node_id root leaf)))
      there
