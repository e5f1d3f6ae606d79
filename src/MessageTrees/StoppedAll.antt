-- ===== src/MessageTrees/StoppedAll.antt =====
-- `cancel_all` of messaging/trees/runtime.py.
use test2_freeclaudecode.Prelude.{
  ◌↔◌, ◌≡◌, refl, ap, ◌∙◌, sym, String, Bool, true, false, ◌&&◌, Option, none, some, List, [], ◌∷◌,
  string_eq, is_some, arith, Bool-cases, inl, inr, contains,
}
use test2_freeclaudecode.Prelude.Dict.{Dict, lookup}
use test2_freeclaudecode.MessageTrees.Graph.{MessageNode}
use test2_freeclaudecode.MessageTrees.Transitions.{NodeUiTarget, TreeCancellation}
use test2_freeclaudecode.MessageTrees.Runtime.{
  ActiveClaim, MessageTree, is_runnable, is_error, ui_target, target_at,
}
use test2_freeclaudecode.MessageTrees.Cancel.{
  cancel_found, cancel_ids, cancel_all, cancel_active, request_cancellation, claimed_id, ids_of,
}
use test2_freeclaudecode.MessageTrees.Sound.{Ends, Ends->>=, is_claimed, IsSound, IsSound-excuse}
use test2_freeclaudecode.MessageTrees.Admission.{IsReady, Keeps}
use test2_freeclaudecode.MessageTrees.Writing.{claimed_out, IsSound-or_id}
use test2_freeclaudecode.MessageTrees.Queue.{drain, empty_queue}
use test2_freeclaudecode.MessageTrees.Cancelling.{
  Ends-weaken, Ends-imply, Fails, FailsAt, Hidden, runs, hides, cancel_found-FailsAt,
}
use test2_freeclaudecode.MessageTrees.Stopping.{
  hidden_claim, stranded, FailsAll, or_ids, cancel_ids-FailsAll, hidden_claim-intro,
  request_cancellation-Requested, IsSound-request,
}

-- Every id under which a node stands is among the ids.
pub ids_of-contains :
    (id : String) (nodes : Dict String MessageNode)
    → is_some (lookup id nodes) ≡ true
    → contains (ids_of nodes) id ≡ true
unfolding lookup
ids_of-contains id [] h = cc
ids_of-contains id ((k, node) ∷ nodes) h = ground (arith, ids_of-contains id nodes)

absent-runs : (o : Option MessageNode) → is_some o ≡ false → runs o ≡ false
absent-runs none h = refl
absent-runs (some node) h = cc

abbrev Fresh : (String → Bool) → MessageTree → List NodeUiTarget × MessageTree → Type 0
Fresh excused t r = Fails excused t r.1

-- A list that has all of an indexed queue's ids can stand in for the queue.
drained-IsSound :
    (excused : String → Bool) (t : MessageTree)
    → IsSound excused t
    → IsSound (or_ids excused t.queue.deque) (record t { queue = empty_queue })
drained-IsSound excused t h = record {
  indexed = record { unique = refl; same = λ x. refl };
  queued = λ k c. cc;
  waits = λ k p. ground (arith, h.waits k p);
  shown = h.shown;
  keyed = h.keyed;
  named = h.named;
  claimed = h.claimed;
}

-- The node of the claim stops first.
cancel_active-Fails :
    (excused : String → Bool) (t : MessageTree) (a : Option ActiveClaim)
    → IsSound excused t
    → ((k : String) → is_claimed a k ≡ true → is_claimed t.active k ≡ true)
    → Ends (stranded t ≡ true) (cancel_active (claimed_id a) t) (Fresh excused t)
unfolding cancel_active
cancel_active-Fails excused t none h same = record {
  sound = h;
  queue = refl;
  active = refl;
  root = refl;
  fewer = λ k r. r;
  hidden = λ k. refl;
  there = λ k. refl;
}
cancel_active-Fails excused t (some a) h same =
    let id = a.claim.node.node_id in
    let own = same id (ground (arith, string_eq.same_iff id id)) in
    Ends-imply (Hidden true id t) (stranded t ≡ true) (FailsAt excused id t) (Fresh excused t)
      (cancel_found true id (lookup id t.graph.nodes) t)
      (λ (_, hid). hidden_claim-intro t.active id t.graph.nodes own hid) (λ r f. f.fails)
      (cancel_found-FailsAt excused id t (IsSound-or_id excused t id h)
        (claimed_out excused t id h own) true (lookup id t.graph.nodes) refl)

-- A tree after its queue is drained and every node has failed that could run.
record Swept (excused : String → Bool) (t t' : MessageTree) : Type 0 where
  sound : IsSound excused t'
  empty : t'.queue.deque ≡ []
  done : (k : String) → runs (lookup k t'.graph.nodes) ≡ false
  active : t'.active ≡ t.active
  root : t'.graph.root_id ≡ t.graph.root_id

Swept-intro :
    (excused : String → Bool) (t t' last : MessageTree)
    → Fails excused (record t { queue = empty_queue }) t'
    → Fails excused t' last
    → ((k : String)
        → contains (ids_of t'.graph.nodes) k ≡ true
        → runs (lookup k last.graph.nodes) ≡ false)
    → Swept excused t last
Swept-intro excused t t' last f g all = record {
  sound = g.sound;
  empty = ap (λ q. q.deque) (g.queue ∙ f.queue);
  done = λ k. elim (Bool-cases (is_some (lookup k t'.graph.nodes))) [
    | inl here ↦ all k (ids_of-contains k t'.graph.nodes here)
    | inr gone ↦ absent-runs (lookup k last.graph.nodes) (g.there k ∙ gone)
  ];
  active = g.active ∙ f.active;
  root = g.root ∙ f.root;
}

-- What a tree is like after all of it is cancelled.
pub record StopsAll (excused : String → Bool) (t : MessageTree) (r : TreeCancellation × MessageTree)
    : Type 0 where
  pub keeps : Keeps excused t r.1
  pub empty : r.1.queue.deque ≡ []
  pub done : (k : String) → runs (lookup k r.1.graph.nodes) ≡ false
  pub claim : r.1.active ≡ request_cancellation t.active

-- On a ready tree `cancel_all` raises only if the active claim is stranded. Otherwise the tree stays
-- ready, the queue is empty, no node of the tree can run, and the active claim stays, with its
-- cancellation requested.
pub cancel_all-StopsAll :
    (excused : String → Bool) (t : MessageTree)
    → IsReady excused t
    → Ends (stranded t ≡ true) (cancel_all t) (StopsAll excused t)
unfolding cancel_all drain
cancel_all-StopsAll excused t h =
    let q = request_cancellation-Requested t.active in
    let asked = record t { active = request_cancellation t.active } in
    Ends->>= (stranded t ≡ true) (Fresh excused asked) (StopsAll excused t)
      (cancel_active (claimed_id t.active) asked) _
      (Ends-weaken (stranded asked ≡ true) (stranded t ≡ true) (Fresh excused asked)
        (cancel_active (claimed_id t.active) asked) (λ s. sym (q.hid t.graph.nodes) ∙ s)
        (cancel_active-Fails excused asked t.active
          (IsSound-request excused t asked.active q h.sound) (λ k c. q.of k ∙ c)))
      (λ (first, t2) f.
        let emptied = record t2 { queue = empty_queue } in
        let drained = drained-IsSound excused t2 f.sound in
        Ends-imply ⊥ (stranded t ≡ true) (λ r. Swept excused t2 r.1) (StopsAll excused t) _
          (λ b. absurd b)
          (λ r s. record {
            keeps = record {
              ready = record { sound = s.sound; idle = λ off. s.empty };
              root = s.root ∙ f.root;
            };
            empty = s.empty;
            done = s.done;
            claim = s.active ∙ f.active;
          })
          (Ends->>= ⊥ (FailsAll excused t2.queue.deque emptied) (λ r. Swept excused t2 r.1)
            (cancel_ids t2.queue.deque emptied) _
            (cancel_ids-FailsAll excused t2.queue.deque emptied drained (λ k c. refl))
            (λ (second, t3) g.
              Ends->>= ⊥ (FailsAll excused (ids_of t3.graph.nodes) t3) (λ r. Swept excused t2 r.1)
                (cancel_ids (ids_of t3.graph.nodes) t3) _
                (cancel_ids-FailsAll excused (ids_of t3.graph.nodes) t3
                  (IsSound-excuse excused t3 g.fails.sound (or_ids excused (ids_of t3.graph.nodes))
                    (λ k p e. ground (arith, e)))
                  (λ k c. ap (λ q. contains q.deque k) g.fails.queue))
                (λ (third, t4) l. Swept-intro excused t2 t3 t4 (g.fails) l.fails l.done))))

target_at-bare :
    (node : MessageNode) (o : Option String) → is_some o ≡ false → target_at node o ≡ none
target_at-bare node none bare = refl
target_at-bare node (some status) bare = cc

cancel_found-raises :
    (id : String) (o : Option MessageNode) (t : MessageTree)
    → hides o ≡ true
    → cancel_found true id o t ≡ none
unfolding cancel_found ui_target
cancel_found-raises id none t h = cc
cancel_found-raises id (some node) t h =
    let still : is_runnable node.state ≡ false = ground (arith, h) in
    let failed : is_error node.state && true ≡ true = ground (arith, h) in
    rw (still, failed, target_at-bare node node.status_message_id (ground (arith, h))) refl

cancel_active-raises :
    (a : Option ActiveClaim) (t : MessageTree)
    → hidden_claim a t.graph.nodes ≡ true
    → cancel_active (claimed_id a) t ≡ none
unfolding cancel_active
cancel_active-raises none t h = cc
cancel_active-raises (some a) t h =
    cancel_found-raises a.claim.node.node_id (lookup a.claim.node.node_id t.graph.nodes) t h

pub cancel_all-raises : (t : MessageTree) → stranded t ≡ true → cancel_all t ≡ none
unfolding cancel_all
cancel_all-raises t s =
    rw (cancel_active-raises t.active (record t { active = request_cancellation t.active }) s) refl

Ends-none : {A : Type 0} (R : Type 0) (P : A → Type 0) (m : Option A) → Ends R m P → m ≡ none → R
Ends-none R P none h e = h
Ends-none R P (some a) h e = cc

-- On a ready tree `cancel_all` raises if and only if the node of the active claim has failed and its
-- status message was cleared.
pub cancel_all-raises_iff :
    (excused : String → Bool) (t : MessageTree)
    → IsReady excused t
    → (cancel_all t ≡ none) ↔ (stranded t ≡ true)
cancel_all-raises_iff excused t h = (
  λ e.
      Ends-none (stranded t ≡ true) (StopsAll excused t) (cancel_all t)
        (cancel_all-StopsAll excused t h) e,
  cancel_all-raises t,
)
