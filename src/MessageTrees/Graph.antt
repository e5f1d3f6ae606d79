-- ===== src/MessageTrees/Graph.antt =====
-- `MessageNode` of messaging/trees/node.py and `MessageTreeGraph` of messaging/trees/graph.py: the
-- nodes of a tree under their prompt ids, and the status messages that stand for them. A node's
-- object is the value under its id. `none` is the ValueError of a guard.
use test2_freeclaudecode.Prelude.{
  String, Bool, false, not, ◌&&◌, Option, none, some, List, [], ◌∷◌, ◌++◌, ◌==◌, string_eq, is_some,
  if◌then◌else◌,
}
use test2_freeclaudecode.Prelude.Dict.{Dict, lookup, insert, remove}
use test2_freeclaudecode.MessageTrees.Queue.{without}

pub data MessageState : Type 0 where
  pending in_progress completed error : MessageState

pub record MessageScope : Type 0 where
  pub platform : String
  pub chat_id : String

pub record MessageNode : Type 0 where
  pub node_id : String
  pub scope : MessageScope
  pub prompt : String
  pub status_message_id : Option String
  pub state : MessageState
  pub parent_id : Option String
  pub parent_reference_id : Option String
  pub session_id : Option String
  pub children_ids : List String

abbrev keep_session : Option String → Option String → Option String
keep_session none old = old
keep_session (some id) old = if id == "" then old else some id

unfoldable pub update_state : MessageState → Option String → MessageNode → MessageNode
update_state state session_id node = record node {
  state = state;
  session_id = keep_session session_id node.session_id;
}

unfoldable pub mark_error : MessageNode → MessageNode
unfolding update_state
mark_error node = update_state error none node

unfoldable pub clear_node_status : MessageNode → MessageNode
unfolding mark_error
clear_node_status node = mark_error (record node { status_message_id = none; session_id = none })

pub record MessageTreeGraph : Type 0 where
  pub root_id : String
  pub tree_scope : MessageScope
  pub nodes : Dict String MessageNode
  pub status_to_node : Dict String String

abbrev pub is_id : Option String → String → Bool
is_id none id = false
is_id (some s) id = s == id

abbrev pub status_entry : Option String → String → Dict String String
status_entry none id = []
status_entry (some s) id = (s, id) ∷ []

unfoldable pub new_graph : MessageNode → Option MessageTreeGraph
new_graph root =
    if is_id root.status_message_id root.node_id
    then none
    else some (record {
      root_id = root.node_id;
      tree_scope = root.scope;
      nodes = (root.node_id, root) ∷ [];
      status_to_node = status_entry root.status_message_id root.node_id;
    })

pub data MessageReferenceKind : Type 0 where
  prompt_reference status_reference : MessageReferenceKind

abbrev node_named : Option String → MessageTreeGraph → Option MessageNode
node_named none g = none
node_named (some id) g = if id == "" then none else lookup id g.nodes

unfoldable pub find_node_by_status_message : String → MessageTreeGraph → Option MessageNode
find_node_by_status_message status g = node_named (lookup status g.status_to_node) g

abbrev with_kind :
    MessageReferenceKind → Option MessageNode → Option (MessageNode × MessageReferenceKind)
with_kind kind none = none
with_kind kind (some node) = some (node, kind)

abbrev or_else {ℓ} : {A : Type ℓ} → Option A → Option A → Option A
or_else none other = other
or_else (some a) other = some a

unfoldable pub resolve_reference :
    String → MessageTreeGraph → Option (MessageNode × MessageReferenceKind)
unfolding find_node_by_status_message
resolve_reference reference g =
    or_else (with_kind prompt_reference (lookup reference g.nodes))
      (with_kind status_reference (find_node_by_status_message reference g))

unfoldable pub get_parent : String → MessageTreeGraph → Option MessageNode
get_parent id g = elim (lookup id g.nodes) [ none ↦ none | some node ↦ node_named node.parent_id g ]

abbrev pub same_scope : MessageScope → MessageScope → Bool
same_scope a b = a.platform == b.platform && a.chat_id == b.chat_id

abbrev pub belongs_to : String → Option (MessageNode × MessageReferenceKind) → Bool
belongs_to parent none = false
belongs_to parent (some (node, kind)) = node.node_id == parent

-- The guards of `add_node`, in its order.
unfoldable pub can_add : String → MessageScope → String → String → String → MessageTreeGraph → Bool
unfolding resolve_reference
can_add id scope status parent reference g =
    same_scope scope g.tree_scope
    && is_some (lookup parent g.nodes)
    && belongs_to parent (resolve_reference reference g)
    && not (is_some (lookup id g.nodes))
    && not (status == id)
    && not (is_some (lookup id g.status_to_node))
    && not (is_some (lookup status g.status_to_node))
    && not (is_some (lookup status g.nodes))

abbrev pub add_child :
    String → Option MessageNode → String → Dict String MessageNode → Dict String MessageNode
add_child parent none id nodes = nodes
add_child parent (some node) id nodes =
    insert parent (record node { children_ids = node.children_ids ++ id ∷ [] }) nodes

unfoldable pub new_node : String → MessageScope → String → String → String → String → MessageNode
new_node id scope prompt status parent reference = record {
  node_id = id;
  scope = scope;
  prompt = prompt;
  status_message_id = some status;
  state = pending;
  parent_id = some parent;
  parent_reference_id = some reference;
  session_id = none;
  children_ids = [];
}

unfoldable pub add_node :
    String
    → MessageScope
    → String
    → String
    → String
    → String
    → MessageTreeGraph
    → Option MessageTreeGraph
unfolding can_add new_node
add_node id scope prompt status parent reference g =
    if can_add id scope status parent reference g
    then (let nodes = insert id (new_node id scope prompt status parent reference) g.nodes in
        some (record g {
          nodes = add_child parent (lookup parent nodes) id nodes;
          status_to_node = insert status id g.status_to_node;
        }))
    else none

abbrev pub drop_status : Option String → Dict String String → Dict String String
drop_status none statuses = statuses
drop_status (some s) statuses = remove s statuses

unfoldable pub clear_found : String → Option MessageNode → MessageTreeGraph → MessageTreeGraph
unfolding clear_node_status
clear_found id none g = g
clear_found id (some node) g =
    if is_some node.status_message_id
    then record g {
      nodes = insert id (clear_node_status node) g.nodes;
      status_to_node = drop_status node.status_message_id g.status_to_node;
    }
    else g

unfoldable pub clear_status : String → MessageTreeGraph → MessageTreeGraph
unfolding clear_found
clear_status id g = clear_found id (lookup id g.nodes) g

abbrev pub drop_from :
    String → Option MessageNode → String → Dict String MessageNode → Dict String MessageNode
drop_from parent none id nodes = nodes
drop_from parent (some node) id nodes =
    insert parent (record node { children_ids = without id node.children_ids }) nodes

abbrev pub drop_child : Option String → String → Dict String MessageNode → Dict String MessageNode
drop_child none id nodes = nodes
drop_child (some parent) id nodes = drop_from parent (lookup parent nodes) id nodes

unfoldable pub remove_found : String → Option MessageNode → MessageTreeGraph → MessageTreeGraph
remove_found id none g = g
remove_found id (some node) g = record g {
  nodes = remove id (drop_child node.parent_id id g.nodes);
  status_to_node = drop_status node.status_message_id g.status_to_node;
}

-- The order in which a set is gone through does not matter to what follows, so it is a list.
unfoldable pub remove_nodes : List String → MessageTreeGraph → MessageTreeGraph
unfolding remove_found
remove_nodes [] g = g
remove_nodes (id ∷ ids) g = remove_nodes ids (remove_found id (lookup id g.nodes) g)
