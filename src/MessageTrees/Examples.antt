-- ===== src/MessageTrees/Examples.antt =====
-- A run of the queue, with an item that is put twice and one that is removed, and a history of a tree
-- of messages.
use test2_freeclaudecode.Prelude.{
  ◌≡◌, refl, String, true, List, [], ◌∷◌, contains, distinct, string_eq,
}
use test2_freeclaudecode.MessageTrees.Queue.{
  empty_queue, Call, put_call, remove_call, pop_call, answers,
}
use test2_freeclaudecode.Prelude.{none, some, is_some, ◌&&◌, ◌↔◌, false}
use test2_freeclaudecode.Prelude.Dict.{lookup, insert, remove}
use test2_freeclaudecode.MessageTrees.Graph.{
  MessageScope, MessageNode, pending, MessageTreeGraph, new_graph, add_node, clear_status,
  remove_nodes,
}
use test2_freeclaudecode.MessageTrees.References.{status_of}
use test2_freeclaudecode.MessageTrees.History.{
  Change, add_change, clear_change, remove_change, after_changes, after_changes-IsLinked,
}
use test2_freeclaudecode.MessageTrees.Walk.{get_descendants}
use test2_freeclaudecode.MessageTrees.Descendants.{IsSubtree, after_changes-IsSubtree}
use test2_freeclaudecode.MessageTrees.Walk.{reference_children, get_reference_descendants}
use test2_freeclaudecode.MessageTrees.Graph.{resolve_reference}
use test2_freeclaudecode.MessageTrees.Replies.{are_fresh}
use test2_freeclaudecode.MessageTrees.Thread.{IsThread, after_changes-IsThread}
use test2_freeclaudecode.MessageTrees.Transitions.{node_to_snapshot}
use test2_freeclaudecode.MessageTrees.Snapshot.{node_from_snapshot}
use test2_freeclaudecode.MessageTrees.Restoring.{node_from_snapshot-node_to_snapshot}
use test2_freeclaudecode.MessageTrees.QueueOrder.{answers_of, answers-answers_of}

abbrev calls : List Call
calls = put_call "a" ∷ put_call "b" ∷ put_call "a" ∷ put_call "c" ∷ remove_call "b" ∷ pop_call ∷ []

answers-answers_of_example :
    let (said, left) = answers calls empty_queue in
    (said ≡ (answers_of calls []).0)
    × (left.deque ≡ (answers_of calls []).1)
    × (distinct left.deque ≡ true)
    × ((x : String) → contains left.set x ≡ contains left.deque x)
answers-answers_of_example = answers-answers_of calls

left_over : (answers calls empty_queue).1.deque ≡ "c" ∷ []
unfolding answers
left_over = refl

abbrev pub chat : MessageScope
chat = record { platform = "telegram"; chat_id = "7" }

abbrev pub root : MessageNode
root = record {
  node_id = "m1";
  scope = chat;
  prompt = "Fix the build";
  status_message_id = some "s1";
  state = pending;
  parent_id = none;
  parent_reference_id = none;
  session_id = none;
  children_ids = [];
}

abbrev pub tree : MessageTreeGraph
tree = record {
  root_id = "m1";
  tree_scope = chat;
  nodes = ("m1", root) ∷ [];
  status_to_node = ("s1", "m1") ∷ [];
}

pub tree_made : new_graph root ≡ some tree
unfolding new_graph
tree_made = refl

abbrev changes : List Change
changes =
    add_change "m2" chat "And the tests" "s2" "m1" "s1"
    ∷ add_change "m3" chat "Thanks" "s2" "m2" "m2"
    ∷ clear_change "m1"
    ∷ add_change "m4" chat "Again" "s4" "m2" "s2"
    ∷ remove_change ("m4" ∷ [])
    ∷ []

after_changes-IsLinked_example :
    let after = after_changes changes tree in
    ((s n : String)
      → (lookup s after.status_to_node ≡ some n) ↔ (status_of (lookup n after.nodes) ≡ some s))
    × ((s : String)
        → (is_some (lookup s after.status_to_node) && is_some (lookup s after.nodes)) ≡ false)
after_changes-IsLinked_example = after_changes-IsLinked root tree changes tree_made

-- The reply to a status is accepted, a status that is used again is refused.
statuses_left : (after_changes changes tree).status_to_node ≡ ("s2", "m2") ∷ []
unfolding after_changes add_node clear_status remove_nodes lookup insert remove
statuses_left = refl

after_changes-IsSubtree_example :
    IsSubtree (after_changes changes tree) "m1" (get_descendants "m1" (after_changes changes tree))
unfolding after_changes add_node clear_status remove_nodes lookup insert remove
after_changes-IsSubtree_example = after_changes-IsSubtree root tree changes "m1" tree_made refl refl

descendants_left : get_descendants "m1" (after_changes changes tree) ≡ "m1" ∷ "m2" ∷ []
unfolding after_changes add_node clear_status remove_nodes lookup insert remove get_descendants
descendants_left = refl

after_changes-IsThread_example :
    IsThread
      (after_changes changes tree)
      "m1"
      (get_reference_descendants "m1" (after_changes changes tree))
unfolding after_changes are_fresh reference_children resolve_reference add_node clear_status
    remove_nodes lookup insert remove
after_changes-IsThread_example =
    after_changes-IsThread root tree changes "m1" tree_made refl refl refl

node_from_snapshot-node_to_snapshot_example :
    node_from_snapshot (node_to_snapshot root) chat ≡ some (record root { prompt = "" })
node_from_snapshot-node_to_snapshot_example = node_from_snapshot-node_to_snapshot root
