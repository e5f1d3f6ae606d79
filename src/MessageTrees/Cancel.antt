-- ===== src/MessageTrees/Cancel.antt =====
-- `MessageTree` of messaging/trees/runtime.py: cancellations, the removal of a subtree, and the
-- failure of a claim. A set of ids is a list in some order.
use test2_freeclaudecode.Prelude.{
  String, Bool, true, false, ◌&&◌, ◌||◌, Option, none, some, List, [], ◌∷◌, ◌++◌, ◌==◌, string_eq,
  is_some, if◌then◌else◌, contains,
}
use test2_freeclaudecode.Prelude.Dict.{Dict, lookup}
use test2_freeclaudecode.MessageTrees.Queue.{remove, drain}
use test2_freeclaudecode.MessageTrees.Graph.{
  MessageNode, MessageReferenceKind, prompt_reference, status_reference, MessageTreeGraph,
  mark_error, resolve_reference, clear_status, remove_nodes,
}
use test2_freeclaudecode.MessageTrees.Walk.{get_descendants, get_reference_descendants}
use test2_freeclaudecode.MessageTrees.Transitions.{
  NodeUiTarget, NodeClaim, QueueEntry, snapshot, TreeCancellation, MessageSubtreeRemoval,
  FailureResult,
}
use test2_freeclaudecode.MessageTrees.Runtime.{
  ◌>>=◌, ActiveClaim, MessageTree, is_runnable, is_error, is_completed, set_node, ui_target,
  if_pending, queue_entries, live_node, node_at,
}

-- The active claim, if its node fits.
abbrev pub claim_on : (String → Bool) → Option ActiveClaim → Option NodeClaim
claim_on fits none = none
claim_on fits (some a) = if fits a.claim.node.node_id then some a.claim else none

abbrev pub request_cancellation : Option ActiveClaim → Option ActiveClaim
request_cancellation none = none
request_cancellation (some a) = some (record a { cancellation_requested = true })

abbrev pub request_if : Bool → MessageTree → MessageTree
request_if wanted t = record t {
  active = if wanted then request_cancellation t.active else t.active;
}

-- A runnable node fails and is reported; the node of the active claim that failed before is
-- reported again.
unfoldable pub cancel_found :
    Bool → String → Option MessageNode → MessageTree → Option (List NodeUiTarget × MessageTree)
unfolding mark_error ui_target
cancel_found claimed id none t = some ([], t)
cancel_found claimed id (some node) t =
    if is_runnable node.state
    then (ui_target node >>= λ target. some (target ∷ [], set_node id (mark_error node) t))
    else if is_error node.state && claimed
    then (ui_target node >>= λ target. some (target ∷ [], t))
    else some ([], t)

-- A queue's entries, if it has changed.
abbrev pub update_if : Bool → MessageTree → Option (Option (List QueueEntry))
update_if changed t =
    if changed then (queue_entries t >>= λ entries. some (some entries)) else some none

abbrev pub dequeue : String → MessageTree → Bool × MessageTree
dequeue id t = let (changed, queue) = remove id t.queue in (changed, record t { queue = queue })

unfoldable pub cancel_node : String → MessageTree → Option (TreeCancellation × MessageTree)
unfolding cancel_found remove queue_entries
cancel_node id t =
    let claim = claim_on (λ other. other == id) t.active in
    let t1 = request_if (is_some claim) t in
    if is_some (lookup id t.graph.nodes)
    then (let (changed, t2) = dequeue id t1 in
        cancel_found (is_some claim) id (lookup id t.graph.nodes) t2 >>= λ (targets, t3).
        update_if changed t3 >>= λ update.
        some (record { nodes = targets; active_claim = claim; queue_update = update }, t3))
    else some (record { nodes = []; active_claim = claim; queue_update = none }, t1)

-- The loop over ids whose runnable nodes fail.
unfoldable pub cancel_ids : List String → MessageTree → Option (List NodeUiTarget × MessageTree)
unfolding cancel_found
cancel_ids [] t = some ([], t)
cancel_ids (id ∷ ids) t = cancel_found false id (lookup id t.graph.nodes) t >>= λ (targets, t').
    cancel_ids ids t' >>= λ (rest, last). some (targets ++ rest, last)

abbrev pub claimed_id : Option ActiveClaim → List String
claimed_id none = []
claimed_id (some a) = a.claim.node.node_id ∷ []

-- The claim's node, the queue, and then every other node, of which those that failed so far are
-- runnable no more.
abbrev pub ids_of : Dict String MessageNode → List String
ids_of [] = []
ids_of ((id, node) ∷ nodes) = id ∷ ids_of nodes

unfoldable pub cancel_active : List String → MessageTree → Option (List NodeUiTarget × MessageTree)
unfolding cancel_found
cancel_active [] t = some ([], t)
cancel_active (id ∷ ids) t = cancel_found true id (lookup id t.graph.nodes) t

abbrev pub is_nil : List String → Bool
is_nil [] = true
is_nil (x ∷ xs) = false

unfoldable pub cancel_all : MessageTree → Option (TreeCancellation × MessageTree)
unfolding cancel_active cancel_ids drain
cancel_all t =
    let t1 = record t { active = request_cancellation t.active } in
    cancel_active (claimed_id t.active) t1 >>= λ (first, t2).
    let (queued, queue) = drain t2.queue in
    cancel_ids queued (record t2 { queue = queue }) >>= λ (second, t3).
    cancel_ids (ids_of t3.graph.nodes) t3 >>= λ (third, t4). some (
      record {
        nodes = first ++ (second ++ third);
        active_claim = claim_on (λ id. true) t.active;
        queue_update = if is_nil queued then none else some [];
      },
      t4,
    )

abbrev pub claims : String → Option NodeClaim → Bool
claims id none = false
claims id (some c) = c.node.node_id == id

-- The loop over the affected nodes of a removal.
unfoldable pub cancel_affected :
    Option NodeClaim → List String → MessageTree → Option (List NodeUiTarget × Bool × MessageTree)
unfolding cancel_found remove
cancel_affected claim [] t = some ([], false, t)
cancel_affected claim (id ∷ ids) t = elim (lookup id t.graph.nodes) [
  | none ↦ cancel_affected claim ids t
  | some node ↦
      (let (changed, t1) = dequeue id t in
        cancel_found (claims id claim) id (some node) t1 >>= λ (targets, t2).
        cancel_affected claim ids t2 >>= λ (rest, more, last).
        some (targets ++ rest, changed || more, last))
]

abbrev pub empty_removal : MessageSubtreeRemoval
empty_removal = record {
  cancellation = record { nodes = []; active_claim = none; queue_update = none };
  removed_message_ids = [];
  removed_entire_tree = false;
}

abbrev pub present : Dict String MessageNode → List String → List String
present nodes [] = []
present nodes (id ∷ ids) =
    let rest = present nodes ids in if is_some (lookup id nodes) then id ∷ rest else rest

abbrev pub with_owner : MessageReferenceKind → String → List String → List String
with_owner prompt_reference id ids = ids
with_owner status_reference id ids = if contains ids id then ids else id ∷ ids

abbrev pub clear_owner : MessageReferenceKind → String → MessageTreeGraph → MessageTreeGraph
clear_owner prompt_reference id g = g
clear_owner status_reference id g = clear_status id g

unfoldable pub remove_resolved :
    List String
    → Option (MessageNode × MessageReferenceKind)
    → MessageTree
    → Option (MessageSubtreeRemoval × MessageTree)
unfolding cancel_affected clear_status remove_nodes queue_entries
remove_resolved references none t = some (empty_removal, t)
remove_resolved references (some (owner, kind)) t =
    if is_nil references
    then some (empty_removal, t)
    else (let removed = present t.graph.nodes references in
        let affected = with_owner kind owner.node_id removed in
        let claim = claim_on (contains affected) t.active in
        let t1 = request_if (is_some claim) t in
        cancel_affected claim affected t1 >>= λ (targets, changed, t2).
        let g = remove_nodes removed (clear_owner kind owner.node_id t2.graph) in
        let t3 = record t2 { graph = g } in
        update_if changed t3 >>= λ update. some (
          record {
            cancellation = record { nodes = targets; active_claim = claim; queue_update = update };
            removed_message_ids = references;
            removed_entire_tree = contains removed t.graph.root_id;
          },
          t3,
        ))

unfoldable pub remove_message_subtree :
    String → MessageTree → Option (MessageSubtreeRemoval × MessageTree)
unfolding remove_resolved
remove_message_subtree reference t =
    remove_resolved (get_reference_descendants reference t.graph)
      (resolve_reference reference t.graph) t

-- The pending descendants of a failed node fail with it.
unfoldable pub fail_ids :
    List String → MessageTree → Option (List NodeUiTarget × Bool × MessageTree)
unfolding mark_error remove ui_target
fail_ids [] t = some ([], false, t)
fail_ids (id ∷ ids) t = elim (if_pending (lookup id t.graph.nodes)) [
  | none ↦ fail_ids ids t
  | some node ↦
      (let (changed, t1) = dequeue node.node_id (set_node id (mark_error node) t) in
        ui_target node >>= λ target.
        fail_ids ids t1 >>= λ (rest, more, last). some (target ∷ rest, changed || more, last))
]

abbrev pub tail : List String → List String
tail [] = []
tail (x ∷ xs) = xs

-- The node of the claim itself.
unfoldable pub fail_own :
    String → MessageNode → MessageTree → Option (List NodeUiTarget × MessageTree)
unfolding mark_error ui_target
fail_own id node t =
    if is_error node.state
    then some ([], t)
    else (ui_target node >>= λ target. some (target ∷ [], set_node id (mark_error node) t))

abbrev pub no_failure : FailureResult
no_failure = record { affected = []; queue_update = none; taken = none }

unfoldable pub fail_found :
    Bool → Option (String × MessageNode) → MessageTree → Option (FailureResult × MessageTree)
unfolding fail_own fail_ids queue_entries
fail_found propagate none t = some (no_failure, t)
fail_found propagate (some (id, node)) t =
    if is_completed node.state
    then some (record { affected = []; queue_update = none; taken = some (snapshot t.graph) }, t)
    else (fail_own id node t >>= λ (own, t1).
        fail_ids (if propagate then tail (get_descendants node.node_id t1.graph) else []) t1
        >>= λ (children, changed, t2). update_if changed t2 >>= λ update. some (
          record {
            affected = own ++ children;
            queue_update = update;
            taken = some (snapshot t2.graph);
          },
          t2,
        ))

unfoldable pub fail_claim : String → Bool → MessageTree → Option (FailureResult × MessageTree)
unfolding fail_found
fail_claim claim_id propagate t = fail_found propagate (node_at (live_node claim_id t.active) t) t
