-- ===== src/MessageTrees/Runtime.antt =====
-- `MessageTree` of messaging/trees/runtime.py: a tree's graph, its queue and its active claim. Each
-- method runs under the tree's lock, so it is one step. `none` is the ValueError that `_ui_target`
-- raises, or `add_node`. The hexadecimal id of a claim comes from the uuid library and is an argument.
use test2_freeclaudecode.Prelude.{
  ℕ, ◌+◌, String, Bool, true, false, not, ◌&&◌, Option, none, some, List, [], ◌∷◌, ◌==◌, string_eq,
  is_some, if◌then◌else◌,
}
use test2_freeclaudecode.Prelude.Dict.{Dict, lookup, insert}
use test2_freeclaudecode.MessageTrees.Queue.{MessageNodeQueue, empty_queue, put, pop, qsize}
use test2_freeclaudecode.MessageTrees.Graph.{
  MessageScope, MessageState, pending, in_progress, completed, error, MessageNode,
  MessageReferenceKind, MessageTreeGraph, update_state, add_node, get_parent, resolve_reference,
}
use test2_freeclaudecode.MessageTrees.Transitions.{
  TreeIdentity, NodeUiTarget, NodeClaim, QueueEntry, duplicate, TreeSnapshot, snapshot,
  QueueDecision, CompletionResult, ReplyTarget, NodeView,
}

infixl 5 ◌>>=◌
abbrev pub ◌>>=◌ : {A B : Type 0} → Option A → (A → Option B) → Option B
none >>= f = none
some a >>= f = f a

pub record ActiveClaim : Type 0 where
  pub claim : NodeClaim
  pub cancellation_requested : Bool

pub record MessageTree : Type 0 where
  pub graph : MessageTreeGraph
  pub queue : MessageNodeQueue
  pub active : Option ActiveClaim

abbrev pub new_tree : MessageTreeGraph → MessageTree
new_tree g = record { graph = g; queue = empty_queue; active = none }

abbrev pub identity : MessageTree → TreeIdentity
identity t = record { scope = t.graph.tree_scope; root_id = t.graph.root_id }

abbrev pub is_pending : MessageState → Bool
is_pending pending = true
is_pending _ = false

abbrev pub is_in_progress : MessageState → Bool
is_in_progress in_progress = true
is_in_progress _ = false

abbrev pub is_error : MessageState → Bool
is_error error = true
is_error _ = false

abbrev pub is_completed : MessageState → Bool
is_completed completed = true
is_completed _ = false

abbrev pub is_runnable : MessageState → Bool
is_runnable pending = true
is_runnable in_progress = true
is_runnable _ = false

-- A change of the node object that stands under an id.
abbrev pub set_node : String → MessageNode → MessageTree → MessageTree
set_node id node t = record t { graph = record t.graph { nodes = insert id node t.graph.nodes } }

abbrev pub target_at : MessageNode → Option String → Option NodeUiTarget
target_at node none = none
target_at node (some status) =
    some (record { scope = node.scope; node_id = node.node_id; status_message_id = status })

unfoldable pub ui_target : MessageNode → Option NodeUiTarget
ui_target node = target_at node node.status_message_id

abbrev pub if_pending : Option MessageNode → Option MessageNode
if_pending none = none
if_pending (some node) = if is_pending node.state then some node else none

-- The loop of `_queue_entries`, after so many entries.
unfoldable pub entries_after : ℕ → List String → Dict String MessageNode → Option (List QueueEntry)
unfolding ui_target
entries_after n [] nodes = some []
entries_after n (id ∷ ids) nodes = elim (if_pending (lookup id nodes)) [
  | none ↦ entries_after n ids nodes
  | some node ↦ ui_target node >>= λ target. entries_after (n + 1) ids nodes >>= λ rest.
      some (record { node = target; position = n + 1 } ∷ rest)
]

unfoldable pub queue_entries : MessageTree → Option (List QueueEntry)
unfolding entries_after
queue_entries t = entries_after 0 t.queue.deque t.graph.nodes

abbrev session_of : Option MessageNode → Option String
session_of none = none
session_of (some node) = node.session_id

unfoldable pub get_parent_session_id : String → MessageTreeGraph → Option String
get_parent_session_id id g = session_of (get_parent id g)

unfoldable pub claim_node :
    String → String → MessageNode → MessageTree → Option (NodeClaim × MessageTree)
unfolding ui_target get_parent_session_id update_state
claim_node claim_id id node t =
    let running = update_state in_progress none node in
    let t' = set_node id running t in
    ui_target running >>= λ target.
    let claim : NodeClaim = record {
      identity = identity t;
      claim_id = claim_id;
      node = target;
      prompt = node.prompt;
      parent_session_id = get_parent_session_id node.node_id t'.graph;
    } in
    some (
      claim,
      record t' { active = some (record { claim = claim; cancellation_requested = false }) },
    )

abbrev pub rejected : QueueDecision
rejected = record { claim = none; position = none; taken = none; rejection = some duplicate }

unfoldable pub enqueue_found :
    String → String → Option MessageNode → MessageTree → Option (QueueDecision × MessageTree)
unfolding claim_node put
enqueue_found claim_id id none t = some (rejected, t)
enqueue_found claim_id id (some node) t =
    if is_some t.active
    then (let (changed, queue) = put id t.queue in
        if changed
        then some (
          record {
            claim = none;
            position = some (qsize queue);
            taken = some (snapshot t.graph);
            rejection = none;
          },
          record t { queue = queue },
        )
        else some (rejected, t))
    else (claim_node claim_id id node t >>= λ (claim, t'). some (
      record {
        claim = some claim;
        position = none;
        taken = some (snapshot t'.graph);
        rejection = none;
      },
      t',
    ))

unfoldable pub enqueue_or_claim :
    String → String → MessageTree → Option (QueueDecision × MessageTree)
unfolding enqueue_found
enqueue_or_claim claim_id id t = enqueue_found claim_id id (if_pending (lookup id t.graph.nodes)) t

unfoldable pub add_and_enqueue :
    String
    → String
    → MessageScope
    → String
    → String
    → String
    → String
    → MessageTree
    → Option (QueueDecision × MessageTree)
unfolding enqueue_or_claim
add_and_enqueue claim_id id scope prompt status parent reference t =
    add_node id scope prompt status parent reference t.graph >>= λ g.
    enqueue_or_claim claim_id id (record t { graph = g })

-- The loop that pops the queue, over the ids that are in it. An empty id ends it.
unfoldable pub claim_next :
    String → List String → MessageTree → Option (Option NodeClaim × MessageTree)
unfolding claim_node pop
claim_next claim_id [] t = some (none, t)
claim_next claim_id (id ∷ ids) t =
    let popped = record t { queue = (pop t.queue).1 } in
    if id == "" then some (none, popped) else (elim (if_pending (lookup id t.graph.nodes)) [
      | none ↦ claim_next claim_id ids popped
      | some node ↦ claim_node claim_id id node popped >>= λ (claim, t'). some (some claim, t')
    ])

abbrev pub holds : String → Option ActiveClaim → Bool
holds claim_id none = false
holds claim_id (some a) = a.claim.claim_id == claim_id

unfoldable pub finish_and_claim_next :
    String → String → MessageTree → Option (CompletionResult × MessageTree)
unfolding claim_next queue_entries
finish_and_claim_next new_id claim_id t =
    if holds claim_id t.active
    then (claim_next new_id t.queue.deque (record t { active = none }) >>= λ (next, t').
        queue_entries t' >>= λ entries. some (record { next_claim = next; queue = entries }, t'))
    else (queue_entries t >>= λ entries. some (record { next_claim = none; queue = entries }, t))

-- The id of the active claim's node, if the claim has the id and no cancellation is requested.
abbrev pub live_node : String → Option ActiveClaim → Option String
live_node claim_id none = none
live_node claim_id (some a) =
    if a.claim.claim_id == claim_id && not a.cancellation_requested
    then some a.claim.node.node_id
    else none

abbrev pub node_at : Option String → MessageTree → Option (String × MessageNode)
node_at none t = none
node_at (some id) t = elim (lookup id t.graph.nodes) [ none ↦ none | some node ↦ some (id, node) ]

-- A session or a completion is written if the claim's node is there in a fitting state.
unfoldable pub write_claim :
    (MessageState → Bool)
    → MessageState
    → Option String
    → Option (String × MessageNode)
    → MessageTree
    → Option TreeSnapshot × MessageTree
unfolding update_state
write_claim fits state session none t = (none, t)
write_claim fits state session (some (id, node)) t =
    if fits node.state
    then (let t' = set_node id (update_state state session node) t in
        (some (snapshot t'.graph), t'))
    else (none, t)

unfoldable pub record_session : String → String → MessageTree → Option TreeSnapshot × MessageTree
unfolding write_claim
record_session claim_id session t =
    write_claim is_in_progress in_progress (some session) (node_at (live_node claim_id t.active) t)
      t

abbrev pub is_completable : MessageState → Bool
is_completable in_progress = true
is_completable error = true
is_completable _ = false

unfoldable pub complete_claim :
    String → Option String → MessageTree → Option TreeSnapshot × MessageTree
unfolding write_claim
complete_claim claim_id session t =
    write_claim is_completable completed session (node_at (live_node claim_id t.active) t) t

abbrev reply_to :
    String → MessageTree → Option (MessageNode × MessageReferenceKind) → Option ReplyTarget
reply_to reference t none = none
reply_to reference t (some (node, kind)) = some (record {
  node_id = node.node_id;
  reference_id = reference;
  reference_kind = kind;
  queue_position = if is_some t.active then some (qsize t.queue + 1) else none;
})

unfoldable pub resolve_reply : String → MessageTree → Option ReplyTarget
resolve_reply reference t = reply_to reference t (resolve_reference reference t.graph)

unfoldable pub node_view : String → MessageTree → Option NodeView
node_view id t = elim (lookup id t.graph.nodes) [
  | none ↦ none
  | some node ↦ some (record {
    identity = identity t;
    node_id = node.node_id;
    state = node.state;
    parent_id = node.parent_id;
    session_id = node.session_id;
  })
]
