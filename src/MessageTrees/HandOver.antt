-- ===== src/MessageTrees/HandOver.antt =====
-- The hand-over of a claim: `finish_and_claim_next` of messaging/trees/runtime.py.
use test2_freeclaudecode.Prelude.{
  ℕ, ◌+◌, ◌≡◌, refl, ap, ◌∙◌, String, Bool, true, false, Option, none, some, List, [], ◌∷◌, ◌==◌,
  string_eq, is_some, arith, Bool-cases, Option-cases, inl, inr, contains,
}
use test2_freeclaudecode.Prelude.Dict.{Dict, lookup}
use test2_freeclaudecode.MessageTrees.Queue.{pop}
use test2_freeclaudecode.MessageTrees.Graph.{MessageNode}
use test2_freeclaudecode.MessageTrees.Transitions.{NodeClaim, QueueEntry, CompletionResult}
use test2_freeclaudecode.MessageTrees.Runtime.{
  MessageTree, if_pending, ui_target, claim_node, claim_next, queue_entries, entries_after,
  finish_and_claim_next, holds,
}
use test2_freeclaudecode.MessageTrees.Sound.{
  Ends, Ends->>=, pends, shows, keyed_as, IsSound, pop-IsSound,
}
use test2_freeclaudecode.MessageTrees.Claiming.{Claims, claim_node-Claims, ui_target-Ends}
use test2_freeclaudecode.MessageTrees.Admission.{if_pending-some, if_pending-none, IsReady, Keeps}

-- The entries stand for the queue's ids, in their order, with positions from `n + 1`.
abbrev pub Listed : ℕ → List String → List QueueEntry → Type 0
Listed n [] [] = Unit
Listed n [] (e ∷ es) = ⊥
Listed n (id ∷ ids) [] = ⊥
Listed n (id ∷ ids) (e ∷ es) = (e.node.node_id ≡ id) × (e.position ≡ n + 1) × Listed (n + 1) ids es

entries_after-Listed :
    (n : ℕ) (ids : List String) (nodes : Dict String MessageNode)
    → ((k : String) → contains ids k ≡ true → pends (lookup k nodes) ≡ true)
    → ((k : String) → shows (lookup k nodes) ≡ true)
    → ((k : String) → keyed_as k (lookup k nodes) ≡ true)
    → Ends ⊥ (entries_after n ids nodes) (Listed n ids)
unfolding entries_after
entries_after-Listed n [] nodes wait seen key = tt
entries_after-Listed n (id ∷ ids) nodes wait seen key =
    elim (Option-cases (if_pending (lookup id nodes))) [
      | inl none_waits ↦ cc (
        if_pending-none (lookup id nodes) none_waits,
        wait id (ground (arith, string_eq.same_iff id id)),
      )
      | inr (node, found) ↦
          let (here, pending_here) = if_pending-some (lookup id nodes) node found in
          rw (found, entries_after)
            (Ends->>= ⊥ (λ target. target.node_id ≡ node.node_id) (Listed n (id ∷ ids))
              (ui_target node) _ (ui_target-Ends node (ground (arith, seen id, here)))
              (λ target own.
                Ends->>= ⊥ (Listed (n + 1) ids) (Listed n (id ∷ ids))
                  (entries_after (n + 1) ids nodes) _
                  (entries_after-Listed (n + 1) ids nodes (λ k c. wait k (ground (arith, c))) seen
                    key)
                  (λ rest listed. (
                    own ∙ ground (arith, key id, here, string_eq.same_iff node.node_id id),
                    refl,
                    listed,
                  ))))
    ]

pub queue_entries-Listed :
    (excused : String → Bool) (t : MessageTree)
    → IsSound excused t
    → Ends ⊥ (queue_entries t) (Listed 0 t.queue.deque)
unfolding queue_entries
queue_entries-Listed excused t h =
    entries_after-Listed 0 t.queue.deque t.graph.nodes h.queued h.shown h.keyed

-- The id of a claim's node is the head of the queue, or there is no claim and no queue.
abbrev pub Serves : List String → Option NodeClaim → Type 0
Serves [] none = Unit
Serves [] (some claim) = ⊥
Serves (id ∷ ids) none = ⊥
Serves (id ∷ ids) (some claim) = claim.node.node_id ≡ id

abbrev pub rest_of : List String → List String
rest_of [] = []
rest_of (id ∷ ids) = ids

-- What the hand-over leaves: the first of the queue has the claim, and the others still wait.
pub record HandsOver (excused : String → Bool) (t : MessageTree) (next : Option NodeClaim)
    (t' : MessageTree) : Type 0 where
  pub keeps : Keeps excused t t'
  pub serves : Serves t.queue.deque next
  pub rest : t'.queue.deque ≡ rest_of t.queue.deque

module _ (excused : String → Bool) (claim_id : String) (t : MessageTree) (h : IsSound excused t)
    (free : is_some t.active ≡ false) where
  claim_next-HandsOver :
      (ids : List String)
      → t.queue.deque ≡ ids
      → Ends ⊥ (claim_next claim_id ids t) (λ r. HandsOver excused t r.0 r.1)
  unfolding claim_next
  claim_next-HandsOver [] top = record {
    keeps = record { ready = record { sound = h; idle = λ off. top }; root = refl };
    serves = rw top tt;
    rest = rw top refl;
  }
  claim_next-HandsOver (id ∷ ids) top =
      let wait : pends (lookup id t.graph.nodes) ≡ true =
        h.queued id (rw top (ground (arith, string_eq.same_iff id id))) in
      let named : (id == "") ≡ false = ground (arith, string_eq.same_iff id "", h.named, wait) in
      let (popped, left, out) = pop-IsSound excused t h id ids top in
      elim (Option-cases (if_pending (lookup id t.graph.nodes))) [
        | inl none_waits ↦ cc (if_pending-none (lookup id t.graph.nodes) none_waits, wait)
        | inr (node, found) ↦
            let (here, pending_here) = if_pending-some (lookup id t.graph.nodes) node found in
            let shorter = record t { queue = (pop t.queue).1 } in
            rw (named, found, claim_next)
              (Ends->>= ⊥ (Claims excused id shorter) (λ r. HandsOver excused t r.0 r.1)
                (claim_node claim_id id node shorter) _
                (claim_node-Claims excused claim_id shorter id node popped here pending_here
                  (rw left out))
                (λ (claim, t') c. record {
                  keeps = record {
                    ready = record { sound = c.sound; idle = λ off. cc (c.active, off) };
                    root = c.root;
                  };
                  serves = rw top c.of;
                  rest = rw top (ap (λ q. q.deque) c.queue ∙ left);
                }))
      ]

-- What `finish_and_claim_next` answers.
pub record Completes (excused : String → Bool) (claim_id : String) (t : MessageTree)
    (r : CompletionResult × MessageTree) : Type 0 where
  pub keeps : Keeps excused t r.1
  pub other : holds claim_id t.active ≡ false → (r.1 ≡ t) × (r.0.next_claim ≡ none)
  pub serves :
      holds claim_id t.active ≡ true
      → Serves t.queue.deque r.0.next_claim × (r.1.queue.deque ≡ rest_of t.queue.deque)
  pub listed : Listed 0 r.1.queue.deque r.0.queue

-- On a ready tree `finish_and_claim_next` does not raise and keeps the tree ready. If the active claim
-- has the given id, the next claim is for the first queued node, which leaves the queue, and there is
-- none exactly if the queue is empty; if not, nothing changes. The answer lists the queue that is
-- left in its order, with positions from 1.
pub finish_and_claim_next-Completes :
    (excused : String → Bool) (new_id claim_id : String) (t : MessageTree)
    → IsReady excused t
    → Ends ⊥ (finish_and_claim_next new_id claim_id t) (Completes excused claim_id t)
unfolding finish_and_claim_next
finish_and_claim_next-Completes excused new_id claim_id t h =
    elim (Bool-cases (holds claim_id t.active)) [
      | inl own ↦
          let free = record t { active = none } in
          let sound : IsSound excused free = record {
            indexed = h.sound.indexed;
            queued = h.sound.queued;
            waits = h.sound.waits;
            shown = h.sound.shown;
            keyed = h.sound.keyed;
            named = h.sound.named;
            claimed = λ k c. cc;
          } in
          rw own (
            Ends->>= ⊥ (λ r. HandsOver excused free r.0 r.1) (Completes excused claim_id t)
              (claim_next new_id t.queue.deque free) _
              (claim_next-HandsOver excused new_id free sound refl t.queue.deque refl)
              (λ (next, t') over.
                Ends->>= ⊥ (Listed 0 t'.queue.deque) (Completes excused claim_id t)
                  (queue_entries t') _ (queue_entries-Listed excused t' over.keeps.ready.sound)
                  (λ entries listed. record {
                    keeps = record { ready = over.keeps.ready; root = over.keeps.root };
                    other = λ not_own. cc (own, not_own);
                    serves = λ _. (over.serves, over.rest);
                    listed = listed;
                  })))
      | inr not_own ↦ rw not_own (
          Ends->>= ⊥ (Listed 0 t.queue.deque) (Completes excused claim_id t) (queue_entries t) _
            (queue_entries-Listed excused t h.sound)
            (λ entries listed. record {
              keeps = record { ready = h; root = refl };
              other = λ _. (refl, refl);
              serves = λ own. cc (own, not_own);
              listed = listed;
            }))
    ]
