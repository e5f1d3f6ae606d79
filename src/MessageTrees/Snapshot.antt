-- ===== src/MessageTrees/Snapshot.antt =====
-- `node_from_snapshot` of messaging/trees/snapshot.py, on snapshots whose ids are strings. `none` is its
-- ValueError, also for the value of no state.
use test2_freeclaudecode.Prelude.{
  String, not, ◌&&◌, Option, none, some, [], ◌==◌, string_eq, is_some, if◌then◌else◌,
}
use test2_freeclaudecode.MessageTrees.Graph.{
  MessageScope, MessageState, pending, in_progress, completed, error, MessageNode,
}
use test2_freeclaudecode.MessageTrees.Transitions.{NodeSnapshot, state_value}
use test2_freeclaudecode.MessageTrees.Runtime.{◌>>=◌, is_runnable}

-- The state with a value.
unfoldable pub state_of : String → Option MessageState
state_of value =
    if value == state_value pending
    then some pending
    else if value == state_value in_progress
    then some in_progress
    else if value == state_value completed
    then some completed
    else if value == state_value error
    then some error
    else none

unfoldable pub optional_id : Option String → Option (Option String)
optional_id none = some none
optional_id (some value) = if value == "" then none else some (some value)

unfoldable pub required_id : Option String → Option String
unfolding optional_id
required_id value = optional_id value >>= λ normalized. normalized

abbrev pub or_parent : Option String → Option String → Option String
or_parent none parent = parent
or_parent (some reference) parent = some reference

unfoldable pub node_from_snapshot : NodeSnapshot → MessageScope → Option MessageNode
unfolding state_of optional_id required_id
node_from_snapshot saved scope = state_of saved.state >>= λ state.
    optional_id saved.status_message_id >>= λ status.
    if is_runnable state && not (is_some status)
    then none
    else (optional_id saved.parent_id >>= λ parent.
        optional_id saved.parent_reference_id >>= λ reference.
        required_id (some saved.node_id) >>= λ id. optional_id saved.session_id >>= λ session.
        some (record {
          node_id = id;
          scope = scope;
          prompt = "";
          status_message_id = status;
          state = state;
          parent_id = parent;
          parent_reference_id = or_parent reference parent;
          session_id = session;
          children_ids = [];
        }))
