-- ===== src/MessageTrees/Stopping.antt =====
-- The loops of `cancel_all` of messaging/trees/runtime.py, and the requests for a cancellation.
use test2_freeclaudecode.Prelude.{
  ◌≡◌, refl, ap, ◌∙◌, sym, String, Bool, true, false, ◌||◌, Option, none, some, List, [], ◌∷◌, ◌==◌,
  string_eq, is_some, arith, Bool-cases, inl, inr, contains,
}
use test2_freeclaudecode.Prelude.Dict.{Dict, lookup}
use test2_freeclaudecode.MessageTrees.Graph.{MessageNode}
use test2_freeclaudecode.MessageTrees.Transitions.{NodeUiTarget}
use test2_freeclaudecode.MessageTrees.Runtime.{queue_entries, ActiveClaim, MessageTree}
use test2_freeclaudecode.MessageTrees.Cancel.{
  update_if, request_if, request_cancellation, dequeue, claim_on, cancel_found, cancel_ids,
}
use test2_freeclaudecode.MessageTrees.Sound.{
  Ends, Ends->>=, is_claimed, IsSound, IsSound-excuse, or_id,
}
use test2_freeclaudecode.MessageTrees.HandOver.{Listed, queue_entries-Listed}
use test2_freeclaudecode.MessageTrees.Queue.{remove, without}
use test2_freeclaudecode.MessageTrees.Cancelling.{
  Ends-weaken, Fails, FailsAt, Hidden, runs, hides, cancel_found-FailsAt,
}

-- Two such steps, one after the other.
pub Fails-trans :
    (first excused : String → Bool) (t t' last : MessageTree)
    → Fails first t t'
    → Fails excused t' last
    → Fails excused t last
Fails-trans first excused t t' last f g = record {
  sound = g.sound;
  queue = g.queue ∙ f.queue;
  active = g.active ∙ f.active;
  root = g.root ∙ f.root;
  fewer = λ k r. f.fewer k (g.fewer k r);
  hidden = λ k. g.hidden k ∙ f.hidden k;
  there = λ k. g.there k ∙ f.there k;
}

-- A node that has stopped stays so.
pub Fails-stopped :
    (excused : String → Bool) (t t' : MessageTree) (k : String)
    → Fails excused t t'
    → runs (lookup k t.graph.nodes) ≡ false
    → runs (lookup k t'.graph.nodes) ≡ false
Fails-stopped excused t t' k f still = elim (Bool-cases (runs (lookup k t'.graph.nodes))) [
  | inl run ↦ cc (f.fewer k run, still)
  | inr off ↦ off
]

abbrev pub or_ids : (String → Bool) → List String → String → Bool
or_ids excused ids k = excused k || contains ids k

pub record FailsAll (excused : String → Bool) (ids : List String) (t : MessageTree)
    (r : List NodeUiTarget × MessageTree) : Type 0 where
  pub fails : Fails excused t r.1
  pub done : (k : String) → contains ids k ≡ true → runs (lookup k r.1.graph.nodes) ≡ false

-- The loop fails every node of the list; no node of it is queued.
pub cancel_ids-FailsAll :
    (excused : String → Bool) (ids : List String) (t : MessageTree)
    → IsSound (or_ids excused ids) t
    → ((k : String) → contains ids k ≡ true → contains t.queue.deque k ≡ false)
    → Ends ⊥ (cancel_ids ids t) (FailsAll excused ids t)
unfolding cancel_ids
cancel_ids-FailsAll excused [] t h out = record {
  fails = record {
    sound = IsSound-excuse (or_ids excused []) t h excused (λ k p e. ground (arith, e));
    queue = refl;
    active = refl;
    root = refl;
    fewer = λ k r. r;
    hidden = λ k. refl;
    there = λ k. refl;
  };
  done = λ k c. cc;
}
cancel_ids-FailsAll excused (id ∷ ids) t h out =
    Ends->>= ⊥ (FailsAt (or_ids excused ids) id t) (FailsAll excused (id ∷ ids) t)
      (cancel_found false id (lookup id t.graph.nodes) t) _
      (Ends-weaken (Hidden false id t) ⊥ (FailsAt (or_ids excused ids) id t)
        (cancel_found false id (lookup id t.graph.nodes) t) (λ (never, _). cc never)
        (cancel_found-FailsAt (or_ids excused ids) id t
          (IsSound-excuse (or_ids excused (id ∷ ids)) t h (or_id (or_ids excused ids) id)
            (λ k p e. ground (arith, e)))
          (out id (ground (arith, string_eq.same_iff id id))) false (lookup id t.graph.nodes) refl))
      (λ (targets, t') f.
        Ends->>= ⊥ (FailsAll excused ids t') (FailsAll excused (id ∷ ids) t) (cancel_ids ids t') _
          (cancel_ids-FailsAll excused ids t' f.fails.sound
            (λ k c. ap (λ q. contains q.deque k) f.fails.queue ∙ out k (ground (arith, c))))
          (λ (rest, last) g. record {
            fails = Fails-trans (or_ids excused ids) excused t t' last f.fails g.fails;
            done = λ k c. elim (Bool-cases (id == k)) [
              | inl same ↦ Fails-stopped excused t' last k g.fails (
                  ap (λ j. runs (lookup j t'.graph.nodes)) (sym ((string_eq.same_iff id k).0 same))
                  ∙ f.done)
              | inr other ↦ g.done k (ground (arith, c, other))
            ];
          }))

-- The node of the active claim failed, and its status message is gone.
abbrev pub hidden_claim : Option ActiveClaim → Dict String MessageNode → Bool
hidden_claim none nodes = false
hidden_claim (some a) nodes = hides (lookup a.claim.node.node_id nodes)

abbrev pub stranded : MessageTree → Bool
stranded t = hidden_claim t.active t.graph.nodes

pub hidden_claim-intro :
    (a : Option ActiveClaim) (id : String) (nodes : Dict String MessageNode)
    → is_claimed a id ≡ true
    → hides (lookup id nodes) ≡ true
    → hidden_claim a nodes ≡ true
hidden_claim-intro none id nodes c h = cc
hidden_claim-intro (some a) id nodes c h =
    ap (λ k. hides (lookup k nodes)) ((string_eq.same_iff a.claim.node.node_id id).0 c) ∙ h

-- A request changes neither whether there is a claim nor of which node it is.
pub record Requested (a a' : Option ActiveClaim) : Type 0 where
  pub there : is_some a' ≡ is_some a
  pub of : (k : String) → is_claimed a' k ≡ is_claimed a k
  pub hid : (nodes : Dict String MessageNode) → hidden_claim a' nodes ≡ hidden_claim a nodes

pub request_cancellation-Requested : (a : Option ActiveClaim) → Requested a (request_cancellation a)
request_cancellation-Requested none = record { there = refl; of = λ k. refl; hid = λ nodes. refl }
request_cancellation-Requested (some a) = record {
  there = refl;
  of = λ k. refl;
  hid = λ nodes. refl;
}

pub request_if-Requested :
    (wanted : Bool) (t : MessageTree) → Requested t.active (request_if wanted t).active
request_if-Requested false t = record { there = refl; of = λ k. refl; hid = λ nodes. refl }
request_if-Requested true t = request_cancellation-Requested t.active

pub IsSound-request :
    (excused : String → Bool) (t : MessageTree) (a : Option ActiveClaim)
    → Requested t.active a
    → IsSound excused t
    → IsSound excused (record t { active = a })
IsSound-request excused t a q h = record {
  indexed = h.indexed;
  queued = h.queued;
  waits = h.waits;
  shown = h.shown;
  keyed = h.keyed;
  named = h.named;
  claimed = λ k c. h.claimed k (sym (q.of k) ∙ c);
}

pub claim_on-is :
    (a : Option ActiveClaim) (id : String)
    → is_some (claim_on (λ other. other == id) a) ≡ is_claimed a id
claim_on-is none id = refl
claim_on-is (some a) id = ground arith

pub update_if-Ends :
    (excused : String → Bool) (changed : Bool) (t : MessageTree)
    → IsSound excused t
    → Ends ⊥ (update_if changed t) (λ u. Unit)
update_if-Ends excused false t h = tt
update_if-Ends excused true t h =
    Ends->>= ⊥ (Listed 0 t.queue.deque) (λ u. Unit) (queue_entries t) _
      (queue_entries-Listed excused t h) (λ entries l. tt)

pub dequeue_empty :
    (id : String) (t : MessageTree) → t.queue.deque ≡ [] → (dequeue id t).1.queue.deque ≡ []
unfolding remove without
dequeue_empty id t e = elim (Bool-cases (contains t.queue.set id)) [
  | inl there ↦ rw (there, e) refl
  | inr new ↦ rw new e
]
