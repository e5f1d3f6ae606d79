-- ===== src/MessageTrees/Walk.antt =====
-- `get_descendants` and `get_reference_descendants` of messaging/trees/graph.py: both walk a stack
-- that starts with one id. The top of a stack stands first here.
use test2_freeclaudecode.Prelude.{
  ℕ, zero, suc, ◌+◌, String, Bool, Option, none, some, List, [], ◌∷◌, ◌++◌, is_some, if◌then◌else◌,
  length,
}
use test2_freeclaudecode.Prelude.Dict.{Dict, lookup}
use test2_freeclaudecode.Prelude.{◌==◌, string_eq}
use mathlib.Core.List.{reverse}
use test2_freeclaudecode.MessageTrees.Graph.{
  MessageNode, MessageTreeGraph, resolve_reference, is_id,
}

-- The loop `while stack`, as long as it goes on: an id is popped, and its children are pushed.
pub data Walks (children : String → List String) : List String → List String → Type 0 where
  stop : Walks children [] []
  turn :
      (id : String) (stack result : List String)
      → Walks children (reverse (children id) ++ stack) result
      → Walks children (id ∷ stack) (id ∷ result)

-- The state of the loop after so many turns: the result so far, and the stack that is left.
unfoldable pub walk : (String → List String) → ℕ → List String → List String × List String
walk children zero stack = ([], stack)
walk children (suc turns) [] = ([], [])
walk children (suc turns) (id ∷ stack) =
    let (result, left) = walk children turns (reverse (children id) ++ stack) in (id ∷ result, left)

abbrev pub children_of : Option MessageNode → List String
children_of none = []
children_of (some node) = node.children_ids

unfoldable pub node_children : MessageTreeGraph → String → List String
node_children g id = children_of (lookup id g.nodes)

-- The result after as many turns as the tree has nodes.
unfoldable pub get_descendants : String → MessageTreeGraph → List String
unfolding node_children walk
get_descendants id g =
    if is_some (lookup id g.nodes)
    then (walk (node_children g) (length g.nodes) (id ∷ [])).0
    else []

abbrev pub status_child : Bool → Option String → List String
status_child owner none = []
status_child owner (some status) = if owner then status ∷ [] else []

-- The entry of the dict `children` under a reference: the status of its node, and each reply to it.
unfoldable pub reference_children : Dict String MessageNode → String → List String
reference_children [] reference = []
reference_children ((id, node) ∷ nodes) reference =
    status_child (node.node_id == reference) node.status_message_id
    ++ ((if is_id node.parent_reference_id reference then node.node_id ∷ [] else [])
        ++ reference_children nodes reference)

-- The result after as many turns as the tree has prompts and statuses.
unfoldable pub get_reference_descendants : String → MessageTreeGraph → List String
unfolding reference_children walk
get_reference_descendants reference g =
    if is_some (resolve_reference reference g)
    then (walk (reference_children g.nodes) (length g.nodes + length g.status_to_node)
        (reference ∷ [])).0
    else []
