-- ===== src/MessageTrees/Transitions.antt =====
-- messaging/trees/transitions.py and messaging/trees/identity.py: the values that leave a tree when it
-- changes. Beside them the snapshot of messaging/trees/snapshot.py, before it is written as JSON.
use test2_freeclaudecode.Prelude.{ℕ, String, Bool, Option, List, [], ◌∷◌, is_some}
use test2_freeclaudecode.Prelude.Dict.{Dict}
use test2_freeclaudecode.MessageTrees.Graph.{
  MessageScope, MessageState, pending, in_progress, completed, error, MessageNode,
  MessageReferenceKind, MessageTreeGraph,
}

pub record TreeIdentity : Type 0 where
  pub scope : MessageScope
  pub root_id : String

pub record NodeUiTarget : Type 0 where
  pub scope : MessageScope
  pub node_id : String
  pub status_message_id : String

pub record NodeClaim : Type 0 where
  pub identity : TreeIdentity
  pub claim_id : String
  pub node : NodeUiTarget
  pub prompt : String
  pub parent_session_id : Option String

pub record QueueEntry : Type 0 where
  pub node : NodeUiTarget
  pub position : ℕ

pub data AdmissionRejection : Type 0 where
  duplicate parent_removed : AdmissionRejection

-- What `node_to_snapshot` keeps of a node. A state is kept by its `value`.
pub record NodeSnapshot : Type 0 where
  pub node_id : String
  pub status_message_id : Option String
  pub state : String
  pub parent_id : Option String
  pub parent_reference_id : Option String
  pub session_id : Option String

pub record TreeSnapshot : Type 0 where
  pub scope : MessageScope
  pub root_id : String
  pub nodes : Dict String NodeSnapshot

abbrev pub state_value : MessageState → String
state_value pending = "pending"
state_value in_progress = "in_progress"
state_value completed = "completed"
state_value error = "error"

unfoldable pub node_to_snapshot : MessageNode → NodeSnapshot
node_to_snapshot node = record {
  node_id = node.node_id;
  status_message_id = node.status_message_id;
  state = state_value node.state;
  parent_id = node.parent_id;
  parent_reference_id = node.parent_reference_id;
  session_id = node.session_id;
}

unfoldable pub nodes_to_snapshot : Dict String MessageNode → Dict String NodeSnapshot
unfolding node_to_snapshot
nodes_to_snapshot [] = []
nodes_to_snapshot ((id, node) ∷ nodes) = (id, node_to_snapshot node) ∷ nodes_to_snapshot nodes

unfoldable pub snapshot : MessageTreeGraph → TreeSnapshot
unfolding nodes_to_snapshot
snapshot g = record { scope = g.tree_scope; root_id = g.root_id; nodes = nodes_to_snapshot g.nodes }

pub record QueueDecision : Type 0 where
  pub claim : Option NodeClaim
  pub position : Option ℕ
  pub taken : Option TreeSnapshot
  pub rejection : Option AdmissionRejection

abbrev pub accepted : QueueDecision → Bool
accepted d = is_some d.taken

pub record CompletionResult : Type 0 where
  pub next_claim : Option NodeClaim
  pub queue : List QueueEntry

pub record TreeCancellation : Type 0 where
  pub nodes : List NodeUiTarget
  pub active_claim : Option NodeClaim
  pub queue_update : Option (List QueueEntry)

pub record MessageSubtreeRemoval : Type 0 where
  pub cancellation : TreeCancellation
  pub removed_message_ids : List String
  pub removed_entire_tree : Bool

pub record ReplyTarget : Type 0 where
  pub node_id : String
  pub reference_id : String
  pub reference_kind : MessageReferenceKind
  pub queue_position : Option ℕ

pub record NodeView : Type 0 where
  pub identity : TreeIdentity
  pub node_id : String
  pub state : MessageState
  pub parent_id : Option String
  pub session_id : Option String

pub record FailureResult : Type 0 where
  pub affected : List NodeUiTarget
  pub queue_update : Option (List QueueEntry)
  pub taken : Option TreeSnapshot
