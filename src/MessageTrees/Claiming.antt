-- ===== src/MessageTrees/Claiming.antt =====
-- `_claim` of messaging/trees/runtime.py, and when `_ui_target` has a target.
use test2_freeclaudecode.Prelude.{
  ◌≡◌, refl, ◌∙◌, String, Bool, true, false, Option, none, some, string_eq, is_some, arith,
  contains,
}
use test2_freeclaudecode.Prelude.Dict.{lookup, lookup-insert}
use test2_freeclaudecode.MessageTrees.Graph.{MessageNode, in_progress, update_state}
use test2_freeclaudecode.MessageTrees.Transitions.{NodeClaim}
use test2_freeclaudecode.MessageTrees.Runtime.{
  MessageTree, is_pending, set_node, ui_target, claim_node, target_at,
}
use test2_freeclaudecode.MessageTrees.Sound.{Ends, Ends->>=, IsSound, or_id, set_node-IsSound}

target_at-Ends :
    (node : MessageNode) (o : Option String)
    → is_some o ≡ true
    → Ends ⊥ (target_at node o) (λ target. target.node_id ≡ node.node_id)
target_at-Ends node none h = cc
target_at-Ends node (some status) h = refl

-- A node with a status has a target.
pub ui_target-Ends :
    (node : MessageNode)
    → is_some node.status_message_id ≡ true
    → Ends ⊥ (ui_target node) (λ target. target.node_id ≡ node.node_id)
unfolding ui_target
ui_target-Ends node h = target_at-Ends node node.status_message_id h

-- What a claim of the node under an id leaves.
pub record Claims (excused : String → Bool) (id : String) (t : MessageTree)
    (r : NodeClaim × MessageTree) : Type 0 where
  pub sound : IsSound excused r.1
  pub of : r.0.node.node_id ≡ id
  pub active : is_some r.1.active ≡ true
  pub queue : r.1.queue ≡ t.queue
  pub root : r.1.graph.root_id ≡ t.graph.root_id

module _ (excused : String → Bool) (claim_id : String) (t : MessageTree) (id : String)
    (node : MessageNode) (h : IsSound (or_id excused id) t)
    (here : lookup id t.graph.nodes ≡ some node) (wait : is_pending node.state ≡ true)
    (out : contains t.queue.deque id ≡ false) where
  abbrev running : MessageNode
  running = record node { state = in_progress }

  claimed-Claims :
      (claim : NodeClaim)
      → claim.node.node_id ≡ node.node_id
      → Claims excused id t (
        claim,
        record (set_node id running t) {
          active = some (record { claim = claim; cancellation_requested = false });
        },
      )
  claimed-Claims claim own =
      let key : node.node_id ≡ id =
        ground (arith, h.keyed id, here, string_eq.same_iff node.node_id id) in
      let s =
        set_node-IsSound excused t id node running h here out refl refl
          (ground (arith, h.shown id, here)) in
      record {
        sound = record {
          indexed = s.indexed;
          queued = s.queued;
          waits = s.waits;
          shown = s.shown;
          keyed = s.keyed;
          named = s.named;
          claimed = λ k c. rw (lookup-insert id k running t.graph.nodes) (
              ground (
                arith,
                h.claimed k,
                c,
                own,
                key,
                string_eq.same_iff claim.node.node_id k,
                string_eq.same_iff id k,
              ));
        };
        of = own ∙ key;
        active = refl;
        queue = refl;
        root = refl;
      }

  pub claim_node-Claims : Ends ⊥ (claim_node claim_id id node t) (Claims excused id t)
  unfolding claim_node update_state
  claim_node-Claims =
      Ends->>= ⊥ (λ target. target.node_id ≡ node.node_id) (Claims excused id t) (ui_target running)
        _ (ui_target-Ends running (ground (arith, h.shown id, here)))
        (λ target own. claimed-Claims _ own)
