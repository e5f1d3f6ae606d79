-- ===== src/MessageTrees/Stopped.antt =====
-- `cancel_node` of messaging/trees/runtime.py.
use test2_freeclaudecode.Prelude.{
  ◌≡◌, refl, ap, ◌∙◌, sym, String, Bool, true, false, not, ◌&&◌, none, some, List, [], ◌==◌,
  string_eq, is_some, arith, Option-cases, inl, inr, contains,
}
use test2_freeclaudecode.Prelude.Dict.{lookup}
use test2_freeclaudecode.MessageTrees.Graph.{MessageNode}
use test2_freeclaudecode.MessageTrees.Transitions.{NodeUiTarget, TreeCancellation}
use test2_freeclaudecode.MessageTrees.Runtime.{◌>>=◌, MessageTree}
use test2_freeclaudecode.MessageTrees.Cancel.{
  cancel_found, cancel_node, claim_on, request_if, dequeue, update_if,
}
use test2_freeclaudecode.MessageTrees.Sound.{
  Ends, Ends->>=, is_claimed, IsSound, dequeue-IsSound, dequeue_out, dequeue_left,
}
use test2_freeclaudecode.MessageTrees.Admission.{IsReady, Keeps}
use test2_freeclaudecode.MessageTrees.Cancelling.{
  Ends-weaken, FailsAt, Hidden, runs, cancel_found-FailsAt,
}
use test2_freeclaudecode.MessageTrees.Stopping.{
  stranded, hidden_claim-intro, request_if-Requested, IsSound-request, claim_on-is, update_if-Ends,
  dequeue_empty,
}

-- One node has stopped and does not wait any more; every other queued node still waits.
pub record Stops (excused : String → Bool) (id : String) (t : MessageTree)
    (r : TreeCancellation × MessageTree) : Type 0 where
  pub keeps : Keeps excused t r.1
  pub done : runs (lookup id r.1.graph.nodes) ≡ false
  pub left : (k : String) → contains r.1.queue.deque k ≡ (contains t.queue.deque k && not (id == k))
  pub fewer :
      (k : String) → runs (lookup k r.1.graph.nodes) ≡ true → runs (lookup k t.graph.nodes) ≡ true
  pub own : is_some r.0.active_claim ≡ is_claimed t.active id

module _ (excused : String → Bool) (id : String) (t : MessageTree) (h : IsReady excused t) where
  abbrev claim : Bool
  claim = is_some (claim_on (λ other. other == id) t.active)

  abbrev asked : MessageTree
  asked = request_if claim t

  asked-IsSound : IsSound excused asked
  asked-IsSound = IsSound-request excused t asked.active (request_if-Requested claim t) h.sound

  absent-Stops :
      lookup id t.graph.nodes ≡ none
      → Stops excused id t (
        record {
          nodes = [];
          active_claim = claim_on (λ other. other == id) t.active;
          queue_update = none;
        },
        asked,
      )
  absent-Stops none_here = record {
    keeps = record {
      ready = record {
        sound = asked-IsSound;
        idle = λ off. h.idle (sym (request_if-Requested claim t).there ∙ off);
      };
      root = refl;
    };
    done = rw none_here refl;
    left = λ k. ground (arith, h.sound.queued k, none_here, string_eq.same_iff id k);
    fewer = λ k r. r;
    own = claim_on-is t.active id;
  }

  found-Stops :
      (node : MessageNode)
      → lookup id t.graph.nodes ≡ some node
      → (r : List NodeUiTarget × MessageTree) → FailsAt excused id (dequeue id asked).1 r
      → Ends
          (stranded t ≡ true)
          (update_if (dequeue id asked).0 r.1 >>= λ update. some (
            record {
              nodes = r.0;
              active_claim = claim_on (λ other. other == id) t.active;
              queue_update = update;
            },
            r.1,
          ))
          (Stops excused id t)
  found-Stops node here r f =
      Ends->>= (stranded t ≡ true) (λ u. Unit) (Stops excused id t)
        (update_if (dequeue id asked).0 r.1) _
        (Ends-weaken ⊥ (stranded t ≡ true) (λ u. Unit) (update_if (dequeue id asked).0 r.1)
          (λ b. absurd b) (update_if-Ends excused (dequeue id asked).0 r.1 f.fails.sound))
        (λ update done. record {
          keeps = record {
            ready = record {
              sound = f.fails.sound;
              idle = λ off.
                  ap (λ q. q.deque) f.fails.queue
                  ∙ dequeue_empty id asked (
                      h.idle (
                        sym (request_if-Requested claim t).there
                        ∙ sym (ap (λ a. is_some a) f.fails.active)
                        ∙ off));
            };
            root = f.fails.root;
          };
          done = f.done;
          left = λ k.
              ap (λ q. contains q.deque k) f.fails.queue
              ∙ dequeue_left excused asked asked-IsSound id k;
          fewer = λ k run. f.fails.fewer k run;
          own = claim_on-is t.active id;
        })

  -- On a ready tree `cancel_node` raises only if the active claim is stranded. Otherwise the tree stays
  -- ready, the node can run no more and is not queued, every other queued node stays queued, no node
  -- becomes runnable, and a claim is reported exactly if the active claim is for this node.
  pub cancel_node-Stops : Ends (stranded t ≡ true) (cancel_node id t) (Stops excused id t)
  unfolding cancel_node
  cancel_node-Stops = elim (Option-cases (lookup id t.graph.nodes)) [
    | inl none_here ↦ rw none_here (absent-Stops none_here)
    | inr (node, here) ↦
        let start = (dequeue id asked).1 in
        rw here (
          Ends->>= (stranded t ≡ true) (FailsAt excused id start) (Stops excused id t)
            (cancel_found claim id (some node) start) _
            (Ends-weaken (Hidden claim id start) (stranded t ≡ true) (FailsAt excused id start)
              (cancel_found claim id (some node) start)
              (λ (own, hid).
                hidden_claim-intro t.active id t.graph.nodes (sym (claim_on-is t.active id) ∙ own)
                  hid)
              (cancel_found-FailsAt excused id start
                (dequeue-IsSound excused asked asked-IsSound id)
                (dequeue_out excused asked asked-IsSound id) claim (some node) here))
            (λ r f. found-Stops node here r f))
  ]
