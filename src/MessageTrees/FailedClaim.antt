-- ===== src/MessageTrees/FailedClaim.antt =====
-- `fail_claim` of messaging/trees/runtime.py.
use test2_freeclaudecode.Prelude.{
  ◌≡◌, refl, ap, ◌∙◌, sym, String, Bool, true, false, Option, none, some, List, [], string_eq,
  is_some, if◌then◌else◌, arith, Bool-cases, inl, inr,
}
use test2_freeclaudecode.Prelude.Dict.{lookup, lookup-insert}
use test2_freeclaudecode.MessageTrees.Graph.{error, MessageNode, mark_error, update_state}
use test2_freeclaudecode.MessageTrees.Walk.{get_descendants}
use test2_freeclaudecode.MessageTrees.Transitions.{NodeUiTarget, FailureResult}
use test2_freeclaudecode.MessageTrees.Runtime.{
  MessageTree, is_error, is_completed, ui_target, live_node, node_at,
}
use test2_freeclaudecode.MessageTrees.Cancel.{
  update_if, tail, fail_ids, fail_own, fail_found, fail_claim, no_failure,
}
use test2_freeclaudecode.MessageTrees.Sound.{Ends, Ends->>=, is_claimed, set_node-IsSound}
use test2_freeclaudecode.MessageTrees.Claiming.{ui_target-Ends}
use test2_freeclaudecode.MessageTrees.Admission.{IsReady, Keeps}
use test2_freeclaudecode.MessageTrees.Writing.{
  live_node-some, node_at-some, claimed_out, IsSound-or_id,
}
use test2_freeclaudecode.MessageTrees.Cancelling.{runs}
use test2_freeclaudecode.MessageTrees.Stopping.{update_if-Ends}
use test2_freeclaudecode.MessageTrees.Failing.{FailsIn, fail_ids-FailsIn}

-- The claim's node has failed, or it was complete.
pub record FailsOwn (excused : String → Bool) (id : String) (t : MessageTree)
    (r : List NodeUiTarget × MessageTree) : Type 0 where
  pub keeps : Keeps excused t r.1
  pub still : runs (lookup id r.1.graph.nodes) ≡ false

fail_own-FailsOwn :
    (excused : String → Bool) (id : String) (node : MessageNode) (t : MessageTree)
    → IsReady excused t
    → lookup id t.graph.nodes ≡ some node
    → is_claimed t.active id ≡ true
    → is_completed node.state ≡ false
    → Ends ⊥ (fail_own id node t) (FailsOwn excused id t)
unfolding fail_own mark_error update_state
fail_own-FailsOwn excused id node t h here own open_still =
    elim (Bool-cases (is_error node.state)) [
      | inl again ↦ rw again (record {
        keeps = record { ready = h; root = refl };
        still = rw here (ground (arith, again));
      })
      | inr fresh ↦ rw fresh (
          Ends->>= ⊥ (λ target. target.node_id ≡ node.node_id) (FailsOwn excused id t)
            (ui_target node) _
            (ui_target-Ends node
              (ground (arith, h.sound.shown id, here, fresh, open_still, h.sound.claimed id own)))
            (λ target named. record {
              keeps = record {
                ready = record {
                  sound =
                      set_node-IsSound excused t id node (record node { state = error })
                        (IsSound-or_id excused t id h.sound) here
                        (claimed_out excused t id h.sound own) refl refl refl;
                  idle = h.idle;
                };
                root = refl;
              };
              still =
                  rw (lookup-insert id id (record node { state = error }) t.graph.nodes)
                    (ground (arith, string_eq.same_iff id id));
            }))
    ]

same_live : (o : Option String) (id k : String) → o ≡ some id → o ≡ some k → id ≡ k
same_live none id k e e' = cc
same_live (some x) id k e e' = cc

node_at-none :
    (o : Option String) (t : MessageTree) (id : String)
    → node_at o t ≡ none
    → o ≡ some id
    → runs (lookup id t.graph.nodes) ≡ false
node_at-none none t id e live = cc
node_at-none (some other) t id e live = ground (arith, e, live)

-- What a failure leaves: a claim that is not live changes nothing.
pub record FailsClaim (excused : String → Bool) (claim_id : String) (t : MessageTree)
    (r : FailureResult × MessageTree) : Type 0 where
  pub keeps : Keeps excused t r.1
  pub other : live_node claim_id t.active ≡ none → r ≡ (no_failure, t)
  pub still :
      (id : String)
      → live_node claim_id t.active ≡ some id
      → runs (lookup id r.1.graph.nodes) ≡ false

module _ (excused : String → Bool) (claim_id : String) (propagate : Bool) (t : MessageTree)
    (h : IsReady excused t) where
  fail_node-FailsClaim :
      (id : String) (node : MessageNode)
      → live_node claim_id t.active ≡ some id
      → lookup id t.graph.nodes ≡ some node
      → Ends ⊥ (fail_found propagate (some (id, node)) t) (FailsClaim excused claim_id t)
  unfolding fail_found
  fail_node-FailsClaim id node live here = elim (Bool-cases (is_completed node.state)) [
    | inl over ↦ rw over (record {
      keeps = record { ready = h; root = refl };
      other = λ none_live. cc (none_live, live);
      still = λ k live_k.
          rw (sym (same_live (live_node claim_id t.active) id k live live_k), here)
            (ground (arith, over));
    })
    | inr open_still ↦ rw open_still (
        Ends->>= ⊥ (FailsOwn excused id t) (FailsClaim excused claim_id t) (fail_own id node t) _
          (fail_own-FailsOwn excused id node t h here (live_node-some claim_id t.active id live)
            open_still)
          (λ (own, t1) f.
            let ids = if propagate then tail (get_descendants node.node_id t1.graph) else [] in
            Ends->>= ⊥ (λ r. FailsIn excused ids t1 r.2) (FailsClaim excused claim_id t)
              (fail_ids ids t1) _ (fail_ids-FailsIn excused ids t1 f.keeps.ready.sound)
              (λ (children, changed, t2) g.
                Ends->>= ⊥ (λ u. Unit) (FailsClaim excused claim_id t) (update_if changed t2) _
                  (update_if-Ends excused changed t2 g.sound)
                  (λ update u. record {
                    keeps = record {
                      ready = record {
                        sound = g.sound;
                        idle = λ off.
                            g.idle (f.keeps.ready.idle (sym (ap (λ a. is_some a) g.active) ∙ off));
                      };
                      root = g.root ∙ f.keeps.root;
                    };
                    other = λ none_live. cc (none_live, live);
                    still = λ k live_k. elim (Bool-cases (runs (lookup k t2.graph.nodes))) [
                      | inl run ↦ cc (
                        g.fewer k run,
                        same_live (live_node claim_id t.active) id k live live_k,
                        f.still,
                      )
                      | inr off ↦ off
                    ];
                  }))))
  ]

  fail_at-FailsClaim :
      (o : Option (String × MessageNode))
      → node_at (live_node claim_id t.active) t ≡ o
      → Ends ⊥ (fail_found propagate o t) (FailsClaim excused claim_id t)
  fail_at-FailsClaim none e =
      unfold fail_found in
      record {
        keeps = record { ready = h; root = refl };
        other = λ none_live. refl;
        still = λ id live. node_at-none (live_node claim_id t.active) t id e live;
      }
  fail_at-FailsClaim (some (id, node)) e =
      let (live, here) = node_at-some (live_node claim_id t.active) t id node e in
      fail_node-FailsClaim id node live here

  -- On a ready tree `fail_claim` does not raise and keeps the tree ready. The node of the claim can run
  -- no more, and a claim id that is not that of the active claim, or whose cancellation is requested,
  -- changes nothing and reports nothing.
  pub fail_claim-FailsClaim :
      Ends ⊥ (fail_claim claim_id propagate t) (FailsClaim excused claim_id t)
  unfolding fail_claim
  fail_claim-FailsClaim = fail_at-FailsClaim (node_at (live_node claim_id t.active) t) refl
