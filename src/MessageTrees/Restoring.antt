-- ===== src/MessageTrees/Restoring.antt =====
-- A node that is written by `node_to_snapshot` and read by `node_from_snapshot` of
-- messaging/trees/snapshot.py.
use test2_freeclaudecode.Prelude.{
  ◌≡◌, refl, String, Bool, true, false, not, ◌&&◌, Option, none, some, [], ◌==◌, string_eq, is_some,
  if◌then◌else◌, arith, Bool-cases, inl, inr,
}
use test2_freeclaudecode.MessageTrees.Graph.{
  MessageState, pending, in_progress, completed, error, MessageNode, is_id,
}
use test2_freeclaudecode.MessageTrees.Transitions.{state_value, node_to_snapshot}
use test2_freeclaudecode.MessageTrees.Runtime.{◌>>=◌, is_runnable}
use test2_freeclaudecode.MessageTrees.Snapshot.{
  state_of, optional_id, required_id, or_parent, node_from_snapshot,
}

state_of-state_value : (s : MessageState) → state_of (state_value s) ≡ some s
unfolding state_of
state_of-state_value pending = refl
state_of-state_value in_progress = refl
state_of-state_value completed = refl
state_of-state_value error = refl

abbrev guarded : {A : Type 0} → Bool → A → Option A
guarded ok a = if ok then some a else none

optional_id-guarded : (o : Option String) → optional_id o ≡ guarded (not (is_id o "")) o
unfolding optional_id
optional_id-guarded none = refl
optional_id-guarded (some value) = ground arith

required_id-guarded : (id : String) → required_id (some id) ≡ guarded (not (id == "")) id
unfolding required_id optional_id
required_id-guarded id = elim (Bool-cases (id == "")) [
  | inl empty ↦ rw empty refl
  | inr full ↦ rw full refl
]

guarded->>= :
    {A B : Type 0} (ok : Bool) (a : A) (f : A → Option B)
    → (guarded ok a >>= f) ≡ (if ok then f a else none)
guarded->>= true a f = refl
guarded->>= false a f = refl

-- A node whose snapshot can be read.
abbrev pub is_restorable : MessageNode → Bool
is_restorable node =
    not (is_id node.status_message_id "")
    && not (is_runnable node.state && not (is_some node.status_message_id))
    && not (is_id node.parent_id "")
    && not (is_id node.parent_reference_id "")
    && not (node.node_id == "")
    && not (is_id node.session_id "")

-- What a snapshot keeps of a node: its prompt and its children are left out, and a parent stands for
-- a missing reference.
abbrev pub kept : MessageNode → MessageNode
kept node = record node {
  prompt = "";
  parent_reference_id = or_parent node.parent_reference_id node.parent_id;
  children_ids = [];
}

-- The node that is read from the snapshot of a node is that node without its prompt and its children,
-- with its parent for a missing reference, and reading it raises a ValueError exactly if an id of the
-- node is empty or the node is runnable and has no status message.
pub node_from_snapshot-node_to_snapshot :
    (node : MessageNode)
    → node_from_snapshot (node_to_snapshot node) node.scope
      ≡ guarded (is_restorable node) (kept node)
unfolding node_from_snapshot node_to_snapshot
node_from_snapshot-node_to_snapshot node =
    rw
      (
        state_of-state_value node.state,
        optional_id-guarded node.status_message_id,
        optional_id-guarded node.parent_id,
        optional_id-guarded node.parent_reference_id,
        required_id-guarded node.node_id,
        optional_id-guarded node.session_id,
      )
      (elim (Bool-cases (is_id node.status_message_id "")) [
        | inl bad ↦ rw bad refl
        | inr ok ↦
            rw ok
              (elim (Bool-cases (is_runnable node.state && not (is_some node.status_message_id))) [
                | inl bad ↦ rw bad refl
                | inr ok ↦ rw ok (elim (Bool-cases (is_id node.parent_id "")) [
                  | inl bad ↦ rw bad refl
                  | inr ok ↦ rw ok (elim (Bool-cases (is_id node.parent_reference_id "")) [
                    | inl bad ↦ rw bad refl
                    | inr ok ↦ rw ok (elim (Bool-cases (node.node_id == "")) [
                      | inl bad ↦ rw bad refl
                      | inr ok ↦ rw ok (elim (Bool-cases (is_id node.session_id "")) [
                        | inl bad ↦ rw bad refl
                        | inr ok ↦ rw ok refl
                      ])
                    ])
                  ])
                ])
              ])
      ])
