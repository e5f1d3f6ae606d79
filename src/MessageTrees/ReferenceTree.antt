-- ===== src/MessageTrees/ReferenceTree.antt =====
-- The edges between a tree's messages through `clear_status` and `remove_nodes` of
-- messaging/trees/graph.py.
use test2_freeclaudecode.Prelude.{
  ℕ, ◌<◌, ◌≡◌, refl, sym, ap, ◌∙◌, String, Bool, true, false, ◌||◌, Option, none, some, List, [],
  ◌∷◌, ◌==◌, string_eq, is_some, contains, distinct, arith, Bool-cases, Option-cases, inl, inr,
}
use test2_freeclaudecode.Prelude.Dict.{Dict, lookup, insert, remove, lookup-remove}
use test2_freeclaudecode.MessageTrees.Graph.{
  MessageNode, MessageTreeGraph, drop_from, drop_child, drop_status, remove_found, remove_nodes,
  clear_found, clear_node_status, mark_error, update_state,
}
use test2_freeclaudecode.MessageTrees.Walk.{reference_children}
use test2_freeclaudecode.MessageTrees.Sound.{keyed_as}
use test2_freeclaudecode.MessageTrees.Forest.{lookup-insert_kept}
use test2_freeclaudecode.MessageTrees.Queue.{without}
use test2_freeclaudecode.MessageTrees.Threads.{listed_status, messages, node_message}
use test2_freeclaudecode.MessageTrees.Thinning.{
  Thins, Shrinks, insert-Thins, remove-Thins, Thins-refl, insert-hides, remove-gone,
}

-- A message has one message before it, which ranks lower, and stands once in the tree.
pub record IsThreaded (g : MessageTreeGraph) : Type 0 where
  pub rank : String → ℕ
  pub parent : String → Option String
  pub rises : (p c : String) → contains (reference_children g.nodes p) c ≡ true → rank p < rank c
  pub owned : (p c : String) → contains (reference_children g.nodes p) c ≡ true → parent c ≡ some p
  pub once : distinct (messages g.nodes) ≡ true
  pub listed :
      (k : String)
      → contains (messages g.nodes) k ≡ true
      → (is_some (lookup k g.nodes) || is_some (lookup k g.status_to_node)) ≡ true
  pub keyed : (k : String) → keyed_as k (lookup k g.nodes) ≡ true

pub thinned-IsThreaded :
    (g g' : MessageTreeGraph)
    → IsThreaded g
    → Thins g.nodes g'.nodes
    → ((k : String)
        → contains (messages g'.nodes) k ≡ true
        → (is_some (lookup k g'.nodes) || is_some (lookup k g'.status_to_node)) ≡ true)
    → ((k : String) → keyed_as k (lookup k g'.nodes) ≡ true)
    → IsThreaded g'
thinned-IsThreaded g g' h t listed keyed = record {
  rank = h.rank;
  parent = h.parent;
  rises = λ p c e. h.rises p c (t.edge p c e);
  owned = λ p c e. h.owned p c (t.edge p c e);
  once = t.once h.once;
  listed = listed;
  keyed = keyed;
}

pub Thins-trans : (a b c : Dict String MessageNode) → Thins a b → Thins b c → Thins a c
Thins-trans a b c s t = record {
  edge = λ r k e. s.edge r k (t.edge r k e);
  message = λ k m. s.message k (t.message k m);
  once = λ d. t.once (s.once d);
}

clear_node_status-Shrinks : (node : MessageNode) → Shrinks node (clear_node_status node)
unfolding clear_node_status mark_error update_state
clear_node_status-Shrinks node = record { id = refl; reference = refl; status = λ k c. cc }

cleared-IsThreaded :
    (id status : String) (node : MessageNode) (g : MessageTreeGraph)
    → lookup id g.nodes ≡ some node
    → node.status_message_id ≡ some status
    → IsThreaded g
    → IsThreaded (record g {
      nodes = insert id (clear_node_status node) g.nodes;
      status_to_node = remove status g.status_to_node;
    })
unfolding clear_node_status mark_error update_state
cleared-IsThreaded id status node g here shown h =
    let node' = clear_node_status node in
    let t = insert-Thins id node node' g.nodes here (clear_node_status-Shrinks node) in
    let gone = insert-hides id status node node' g.nodes here shown refl refl h.once in
    thinned-IsThreaded g
      (record g {
        nodes = insert id node' g.nodes;
        status_to_node = remove status g.status_to_node;
      })
      h t
      (λ k c.
        let there : is_some (lookup k (insert id node' g.nodes)) ≡ is_some (lookup k g.nodes) =
          lookup-insert_kept (λ o. is_some o) id k node' g.nodes (ap (λ o. is_some o) (sym here)) in
        let apart : (status == k) ≡ false = ground (arith, string_eq.same_iff status k, c, gone) in
        ground (
          arith,
          there,
          h.listed k (t.message k c),
          ap (λ o. is_some o) (lookup-remove status k g.status_to_node),
          apart,
        ))
      (λ k.
        lookup-insert_kept (keyed_as k) id k node' g.nodes (ap (keyed_as k) (sym here)) ∙ h.keyed k)

pub clear_found-IsThreaded :
    (id : String) (o : Option MessageNode) (g : MessageTreeGraph)
    → lookup id g.nodes ≡ o
    → IsThreaded g
    → IsThreaded (clear_found id o g)
unfolding clear_found
clear_found-IsThreaded id none g here h = h
clear_found-IsThreaded id (some node) g here h = elim (Option-cases node.status_message_id) [
  | inl bare ↦ rw bare h
  | inr (status, shown) ↦ rw shown (cleared-IsThreaded id status node g here shown h)
]

abbrev pub message_of : String → Option MessageNode → Bool
message_of k none = false
message_of k (some node) = node_message node k

-- Only children have changed.
pub record Relabels (nodes nodes' : Dict String MessageNode) : Type 0 where
  pub thins : Thins nodes nodes'
  pub there : (k : String) → is_some (lookup k nodes') ≡ is_some (lookup k nodes)
  pub keyed : (k : String) → keyed_as k (lookup k nodes') ≡ keyed_as k (lookup k nodes)
  pub message : (j k : String) → message_of j (lookup k nodes') ≡ message_of j (lookup k nodes)

pub Relabels-refl : (nodes : Dict String MessageNode) → Relabels nodes nodes
Relabels-refl nodes = record {
  thins = Thins-refl nodes;
  there = λ k. refl;
  keyed = λ k. refl;
  message = λ j k. refl;
}

-- A write to a node that keeps its id, its status and what it refers to.
pub write-Relabels :
    (id : String) (node node' : MessageNode) (nodes : Dict String MessageNode)
    → lookup id nodes ≡ some node
    → node'.node_id ≡ node.node_id
    → node'.parent_reference_id ≡ node.parent_reference_id
    → node'.status_message_id ≡ node.status_message_id
    → Relabels nodes (insert id node' nodes)
write-Relabels id node node' nodes here own to shown = record {
  thins = insert-Thins id node node' nodes here (record {
    id = own;
    reference = to;
    status = λ k c. ap (λ o. contains (listed_status o) k) (sym shown) ∙ c;
  });
  there =
      λ k. lookup-insert_kept (λ o. is_some o) id k node' nodes (ap (λ o. is_some o) (sym here));
  keyed = λ k.
      lookup-insert_kept (keyed_as k) id k node' nodes
        (ap (λ i. i == k) own ∙ ap (keyed_as k) (sym here));
  message = λ j k. lookup-insert_kept (message_of j) id k node' nodes (
      ap (λ i. i == j || contains (listed_status node'.status_message_id) j) own
      ∙ ap (λ o. node.node_id == j || contains (listed_status o) j) shown
      ∙ ap (message_of j) (sym here));
}

pub children-Relabels :
    (id : String) (node : MessageNode) (children : List String) (nodes : Dict String MessageNode)
    → lookup id nodes ≡ some node
    → Relabels nodes (insert id (record node { children_ids = children }) nodes)
children-Relabels id node children nodes here =
    write-Relabels id node (record node { children_ids = children }) nodes here refl refl refl

drop_from-Relabels :
    (p : String) (o : Option MessageNode) (id : String) (nodes : Dict String MessageNode)
    → lookup p nodes ≡ o
    → Relabels nodes (drop_from p o id nodes)
drop_from-Relabels p none id nodes here = Relabels-refl nodes
drop_from-Relabels p (some node) id nodes here =
    children-Relabels p node (without id node.children_ids) nodes here

drop_child-Relabels :
    (parent : Option String) (id : String) (nodes : Dict String MessageNode)
    → Relabels nodes (drop_child parent id nodes)
drop_child-Relabels none id nodes = Relabels-refl nodes
drop_child-Relabels (some p) id nodes = drop_from-Relabels p (lookup p nodes) id nodes refl

-- A message of a removed node is gone, whatever node stands there by then.
gone_at :
    (id k : String) (o : Option MessageNode) (nodes : Dict String MessageNode)
    → lookup id nodes ≡ o
    → distinct (messages nodes) ≡ true
    → message_of k o ≡ true
    → contains (messages (remove id nodes)) k ≡ false
gone_at id k none nodes here d own = cc
gone_at id k (some node) nodes here d own = remove-gone id node nodes k here d own

drop_status-kept :
    (o : Option String) (k : String) (statuses : Dict String String)
    → contains (listed_status o) k ≡ false
    → is_some (lookup k (drop_status o statuses)) ≡ is_some (lookup k statuses)
drop_status-kept none k statuses other = refl
drop_status-kept (some s) k statuses other =
    ground (arith, ap (λ o. is_some o) (lookup-remove s k statuses), other)

remove_found-IsThreaded :
    (id : String) (o : Option MessageNode) (g : MessageTreeGraph)
    → lookup id g.nodes ≡ o
    → IsThreaded g
    → IsThreaded (remove_found id o g)
unfolding remove_found
remove_found-IsThreaded id none g here h = h
remove_found-IsThreaded id (some node) g here h =
    let nodes = drop_child node.parent_id id g.nodes in
    let r = drop_child-Relabels node.parent_id id g.nodes in
    let t = remove-Thins id nodes in
    let gone : (k : String)
        → node_message node k ≡ true
        → contains (messages (remove id nodes)) k ≡ false =
      λ k own.
        gone_at id k (lookup id nodes) nodes refl (r.thins.once h.once)
          (r.message k id ∙ ap (message_of k) here ∙ own) in
    let key : node.node_id ≡ id =
      (string_eq.same_iff node.node_id id).0 (ap (keyed_as id) (sym here) ∙ h.keyed id) in
    thinned-IsThreaded g
      (record g {
        nodes = remove id nodes;
        status_to_node = drop_status node.status_message_id g.status_to_node;
      })
      h (Thins-trans g.nodes nodes (remove id nodes) r.thins t)
      (λ k c.
        let foreign : node_message node k ≡ false = elim (Bool-cases (node_message node k)) [
          | inl mine ↦ cc (gone k mine, c)
          | inr other ↦ other
        ] in
        let away : (id == k) ≡ false = ap (λ i. i == k) (sym key) ∙ ground (arith, foreign) in
        let kept =
          drop_status-kept node.status_message_id k g.status_to_node (ground (arith, foreign)) in
        ground (
          arith,
          ap (λ o. is_some o) (lookup-remove id k nodes),
          away,
          kept,
          r.there k,
          h.listed k (r.thins.message k (t.message k c)),
        ))
      (λ k. ap (keyed_as k) (lookup-remove id k nodes) ∙ ground (arith, r.keyed k, h.keyed k))

pub remove_nodes-IsThreaded :
    (ids : List String) (g : MessageTreeGraph) → IsThreaded g → IsThreaded (remove_nodes ids g)
unfolding remove_nodes
remove_nodes-IsThreaded [] g h = h
remove_nodes-IsThreaded (id ∷ ids) g h =
    remove_nodes-IsThreaded ids (remove_found id (lookup id g.nodes) g)
      (remove_found-IsThreaded id (lookup id g.nodes) g refl h)
