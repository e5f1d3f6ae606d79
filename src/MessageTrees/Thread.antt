-- ===== src/MessageTrees/Thread.antt =====
-- `get_reference_descendants` of messaging/trees/graph.py on the trees that changes lead to.
use mathlib.Core.Path.{subst}
use test2_freeclaudecode.Prelude.{
  ◌+◌, ◌≡◌, refl, ap, ◌∙◌, String, Bool, true, false, ◌&&◌, ◌||◌, Option, none, some,
  some_injective, List, [], ◌∷◌, ◌++◌, ◌==◌, string_eq, is_some, if◌then◌else◌, length,
  length-append, contains, contains-append, distinct, arith, Bool-cases, inl, inr,
}
use test2_freeclaudecode.Prelude.Dict.{Dict, lookup}
use test2_freeclaudecode.MessageTrees.Graph.{
  MessageNode, MessageTreeGraph, is_id, new_graph, resolve_reference, status_entry,
}
use test2_freeclaudecode.MessageTrees.Walk.{
  walk, Walks, reference_children, get_reference_descendants,
}
use test2_freeclaudecode.MessageTrees.Cancel.{ids_of}
use test2_freeclaudecode.MessageTrees.Threads.{
  listed_status, distinct-messages, messages-cons, contains-edges, reference_children-cons,
  reference_children-messages, distinct-reference_children,
}
use test2_freeclaudecode.MessageTrees.ReferenceTree.{IsThreaded}
use test2_freeclaudecode.MessageTrees.Descendants.{length-ids_of}
use test2_freeclaudecode.MessageTrees.StoppedAll.{ids_of-contains}
use test2_freeclaudecode.MessageTrees.WalkEnds.{IsForest, walk_root-Finishes}
use test2_freeclaudecode.MessageTrees.History.{Change, after_changes}
use test2_freeclaudecode.MessageTrees.Replies.{reference_known, are_fresh, after_changes-IsThreaded}

abbrev pub keys_of : Dict String String → List String
keys_of [] = []
keys_of ((k, v) ∷ d) = k ∷ keys_of d

keys_of-contains :
    (k : String) (d : Dict String String)
    → is_some (lookup k d) ≡ true
    → contains (keys_of d) k ≡ true
unfolding lookup
keys_of-contains k [] h = cc
keys_of-contains k ((j, v) ∷ d) h = ground (arith, keys_of-contains k d)

length-keys_of : (d : Dict String String) → length (keys_of d) ≡ length d
length-keys_of [] = refl
length-keys_of ((k, v) ∷ d) = omega (arith, length-keys_of d)

-- The prompts and the statuses of a tree.
abbrev pub message_ids : MessageTreeGraph → List String
message_ids g = ids_of g.nodes ++ keys_of g.status_to_node

message_ids-contains :
    (k : String) (g : MessageTreeGraph)
    → (is_some (lookup k g.nodes) || is_some (lookup k g.status_to_node)) ≡ true
    → contains (message_ids g) k ≡ true
message_ids-contains k g h = ground (
  arith,
  h,
  contains-append (ids_of g.nodes) (keys_of g.status_to_node) k,
  ids_of-contains k g.nodes,
  keys_of-contains k g.status_to_node,
)

IsThreaded-IsForest :
    (g : MessageTreeGraph) → IsThreaded g → IsForest (reference_children g.nodes) (message_ids g)
IsThreaded-IsForest g h = record {
  rank = h.rank;
  parent = h.parent;
  rises = h.rises;
  owned = h.owned;
  unique = λ p. distinct-reference_children g.nodes p h.once;
  known =
      λ p c e. message_ids-contains c g (h.listed c (reference_children-messages g.nodes p c e));
}

listed-is_id : (o : Option String) (k : String) → contains (listed_status o) k ≡ is_id o k
listed-is_id none k = refl
listed-is_id (some status) k = ground arith

status_entry-lookup :
    (o : Option String) (id k : String)
    → is_some (lookup k (status_entry o id)) ≡ contains (listed_status o) k
unfolding lookup
status_entry-lookup none id k = refl
status_entry-lookup (some status) id k = ground arith

-- A root stands alone with its status.
alone-IsThreaded :
    (root : MessageNode)
    → root.parent_reference_id ≡ none
    → is_id root.status_message_id root.node_id ≡ false
    → IsThreaded (record {
      root_id = root.node_id;
      tree_scope = root.scope;
      nodes = (root.node_id, root) ∷ [];
      status_to_node = status_entry root.status_message_id root.node_id;
    })
unfolding lookup reference_children
alone-IsThreaded root first fine =
    let nodes : Dict String MessageNode = (root.node_id, root) ∷ [] in
    let apart : contains (listed_status root.status_message_id) root.node_id ≡ false =
      listed-is_id root.status_message_id root.node_id ∙ fine in
    let edge : (p c : String)
        → contains (reference_children nodes p) c ≡ true
        → (root.node_id ≡ p) × (contains (listed_status root.status_message_id) c ≡ true) =
      λ p c e.
        let both : (root.node_id == p && contains (listed_status root.status_message_id) c) ≡ true =
          ground (
            arith,
            e,
            reference_children-cons root.node_id root [] p c,
            contains-edges root p c,
            ap (λ o. is_id o p) first,
          ) in
        ((string_eq.same_iff root.node_id p).0 (ground (arith, both)), ground (arith, both)) in
    record {
      rank = λ k. if root.node_id == k then 0 else 1;
      parent = λ k. some root.node_id;
      rises = λ p c e. ground (
        arith,
        edge p c e,
        string_eq.same_iff root.node_id p,
        string_eq.same_iff root.node_id c,
        apart,
      );
      owned = λ p c e. ap some (edge p c e).0;
      once =
          distinct-messages root.node_id root []
            (record { rest = refl; own = refl; shown = λ k c. refl; other = apart });
      listed = λ k c. ground (
        arith,
        c,
        messages-cons root.node_id root [] k,
        status_entry-lookup root.status_message_id root.node_id k,
      );
      keyed = λ k. ground arith;
    }

pub root-IsThreaded :
    (root : MessageNode) (g : MessageTreeGraph)
    → new_graph root ≡ some g
    → root.parent_reference_id ≡ none
    → IsThreaded g
unfolding new_graph
root-IsThreaded root g new first = elim (Bool-cases (is_id root.status_message_id root.node_id)) [
  | inl clash ↦ cc (rw clash at new)
  | inr fine ↦ subst IsThreaded (some_injective (rw fine at new)) (alone-IsThreaded root first fine)
]

-- The loop from a message ends with the result, and no stack is left after as many turns as the tree
-- has prompts and statuses. The result is exactly the messages that are reached from the message
-- through replies and statuses, each once.
pub record IsThread (g : MessageTreeGraph) (reference : String) (result : List String)
    : Type 0 where
  pub ends : Walks (reference_children g.nodes) (reference ∷ []) result
  pub left :
      (walk
        (reference_children g.nodes)
        (length g.nodes + length g.status_to_node)
        (reference ∷ [])).1
      ≡ []
  pub once : distinct result ≡ true
  pub itself : contains result reference ≡ true
  pub closed :
      (p c : String)
      → contains result p ≡ true
      → contains (reference_children g.nodes p) c ≡ true
      → contains result c ≡ true
  pub least :
      (s : String → Bool)
      → s reference ≡ true
      → ((p c : String)
          → s p ≡ true
          → contains (reference_children g.nodes p) c ≡ true
          → s c ≡ true)
      → (k : String) → contains result k ≡ true
      → s k ≡ true

pub get_reference_descendants-IsThread :
    (g : MessageTreeGraph) (reference : String)
    → IsThreaded g
    → is_some (resolve_reference reference g) ≡ true
    → IsThread g reference (get_reference_descendants reference g)
unfolding get_reference_descendants
get_reference_descendants-IsThread g reference h there =
    let (f, over) =
      walk_root-Finishes (reference_children g.nodes) (message_ids g) (IsThreaded-IsForest g h)
        reference (message_ids-contains reference g (reference_known reference g there)) in
    let size : length (message_ids g) ≡ length g.nodes + length g.status_to_node =
      length-append (ids_of g.nodes) (keys_of g.status_to_node)
      ∙ omega (arith, length-ids_of g.nodes, length-keys_of g.status_to_node) in
    rw there (
      subst (λ n. IsThread g reference (walk (reference_children g.nodes) n (reference ∷ [])).0)
        size
        (record {
          ends = f.ends;
          left =
              subst (λ n. (walk (reference_children g.nodes) n (reference ∷ [])).1 ≡ []) size over;
          once = f.once;
          itself = f.all reference (ground (arith, string_eq.same_iff reference reference));
          closed = f.closed;
          least = λ s top down k c.
              f.least s
                (λ j in_stack.
                  subst (λ i. s i ≡ true)
                    ((string_eq.same_iff reference j).0 (ground (arith, in_stack))) top)
                down k c;
        }))

-- In a tree that is made from a root which answers nothing and then changed by additions, clearings
-- and removals, where nobody has answered a message or its status before it is added,
-- the loop of `get_reference_descendants` from a message of the tree ends with the result of
-- `get_reference_descendants`, and its stack is empty after as many turns as the tree has prompts and
-- statuses. The result is the message and everything that is reached from it through replies and
-- statuses, and nothing else, each once.
pub after_changes-IsThread :
    (root : MessageNode) (g : MessageTreeGraph) (changes : List Change) (reference : String)
    → new_graph root ≡ some g
    → root.parent_reference_id ≡ none
    → are_fresh changes g ≡ true
    → is_some (resolve_reference reference (after_changes changes g)) ≡ true
    → IsThread
        (after_changes changes g)
        reference
        (get_reference_descendants reference (after_changes changes g))
after_changes-IsThread root g changes reference new first fresh there =
    get_reference_descendants-IsThread (after_changes changes g) reference
      (after_changes-IsThreaded changes g (root-IsThreaded root g new first) fresh) there
