-- ===== src/MessageTrees/Steps.antt =====
-- The calls on a tree of messaging/trees/runtime.py, one after another. A tree starts with its root,
-- whose admission is its first call.
use mathlib.Core.Path.{subst}
use test2_freeclaudecode.Prelude.{
  ◌≡◌, refl, ap, ◌∙◌, sym, String, Bool, true, false, not, ◌&&◌, Option, none, some, ◌==◌,
  string_eq, is_some, if◌then◌else◌, arith, contains, distinct,
}
use test2_freeclaudecode.Prelude.Dict.{lookup}
use test2_freeclaudecode.MessageTrees.Graph.{
  MessageScope, MessageNode, MessageTreeGraph, can_add, new_graph,
}
use test2_freeclaudecode.MessageTrees.Runtime.{
  MessageTree, new_tree, is_pending, enqueue_or_claim, add_and_enqueue, finish_and_claim_next,
  record_session, complete_claim,
}
use test2_freeclaudecode.MessageTrees.Cancel.{
  cancel_node, cancel_all, remove_message_subtree, fail_claim,
}
use test2_freeclaudecode.MessageTrees.History.{new_graph-nodes}
use test2_freeclaudecode.MessageTrees.Sound.{Ends, pends, is_claimed, IsSound, or_id}
use test2_freeclaudecode.MessageTrees.Admission.{IsReady, Keeps, enqueue_or_claim-Keeps}
use test2_freeclaudecode.MessageTrees.HandOver.{finish_and_claim_next-Completes}
use test2_freeclaudecode.MessageTrees.Writing.{
  IsSound-or_id, record_session-Keeps, complete_claim-Keeps,
}
use test2_freeclaudecode.MessageTrees.Stopping.{stranded}
use test2_freeclaudecode.MessageTrees.Stopped.{cancel_node-Stops}
use test2_freeclaudecode.MessageTrees.StoppedAll.{cancel_all-StopsAll}
use test2_freeclaudecode.MessageTrees.Removing.{remove_message_subtree-Removes}
use test2_freeclaudecode.MessageTrees.FailedClaim.{fail_claim-FailsClaim}
use test2_freeclaudecode.MessageTrees.Adding.{is_fresh, add_and_enqueue-Keeps}

pub data TreeCall : Type 0 where
  enqueue_call finish_call record_call : String → String → TreeCall
  add_call : String → String → MessageScope → String → String → String → String → TreeCall
  complete_call : String → Option String → TreeCall
  fail_call : String → Bool → TreeCall
  cancel_call remove_call : String → TreeCall
  cancel_all_call : TreeCall

abbrev pub drop_answer : {A : Type 0} → Option (A × MessageTree) → Option MessageTree
drop_answer none = none
drop_answer (some (answer, t)) = some t

unfoldable pub step : TreeCall → MessageTree → Option MessageTree
step (enqueue_call claim_id id) t = drop_answer (enqueue_or_claim claim_id id t)
step (finish_call new_id claim_id) t = drop_answer (finish_and_claim_next new_id claim_id t)
step (record_call claim_id session) t = some (record_session claim_id session t).1
step (add_call claim_id id scope prompt status parent reference) t =
    drop_answer (add_and_enqueue claim_id id scope prompt status parent reference t)
step (complete_call claim_id session) t = some (complete_claim claim_id session t).1
step (fail_call claim_id propagate) t = drop_answer (fail_claim claim_id propagate t)
step (cancel_call id) t = drop_answer (cancel_node id t)
step (remove_call reference) t = drop_answer (remove_message_subtree reference t)
step cancel_all_call t = drop_answer (cancel_all t)

-- A new message has a fresh id.
abbrev pub is_fresh_call : TreeCall → MessageTree → Bool
is_fresh_call (add_call claim_id id scope prompt status parent reference) t = is_fresh id t
is_fresh_call _ t = true

-- Why a call raises a ValueError.
abbrev pub Refuses : TreeCall → MessageTree → Type 0
Refuses (enqueue_call claim_id id) t = ⊥
Refuses (finish_call new_id claim_id) t = ⊥
Refuses (record_call claim_id session) t = ⊥
Refuses (add_call claim_id id scope prompt status parent reference) t =
    can_add id scope status parent reference t.graph ≡ false
Refuses (complete_call claim_id session) t = ⊥
Refuses (fail_call claim_id propagate) t = ⊥
Refuses (cancel_call id) t = stranded t ≡ true
Refuses (remove_call reference) t = stranded t ≡ true
Refuses cancel_all_call t = stranded t ≡ true

Ends-drop_answer :
    {A : Type 0} (R : Type 0) (P : A × MessageTree → Type 0) (Q : MessageTree → Type 0)
    (m : Option (A × MessageTree))
    → ((r : A × MessageTree) → P r → Q r.1)
    → Ends R m P
    → Ends R (drop_answer m) Q
Ends-drop_answer R P Q none f h = h
Ends-drop_answer R P Q (some r) f h = f r h

-- A call on a ready tree either raises, and then `add_node` refuses the message that is to be added
-- or the call is a cancellation or a removal on a tree with a stranded claim, or it leaves a ready tree
-- with the same root. The id of an added message is not empty and not that of the active claim's
-- node.
pub step-Keeps :
    (excused : String → Bool) (call : TreeCall) (t : MessageTree)
    → IsReady excused t
    → is_fresh_call call t ≡ true
    → Ends (Refuses call t) (step call t) (Keeps excused t)
unfolding step
step-Keeps excused (enqueue_call claim_id id) t h fresh =
    Ends-drop_answer ⊥ _ (Keeps excused t) (enqueue_or_claim claim_id id t) (λ r k. k)
      (enqueue_or_claim-Keeps excused claim_id id t (IsSound-or_id excused t id h.sound) h.idle)
step-Keeps excused (finish_call new_id claim_id) t h fresh =
    Ends-drop_answer ⊥ _ (Keeps excused t) (finish_and_claim_next new_id claim_id t)
      (λ r k. k.keeps) (finish_and_claim_next-Completes excused new_id claim_id t h)
step-Keeps excused (record_call claim_id session) t h fresh =
    record_session-Keeps excused t h claim_id session
step-Keeps excused (add_call claim_id id scope prompt status parent reference) t h fresh =
    Ends-drop_answer (can_add id scope status parent reference t.graph ≡ false) _ (Keeps excused t)
      (add_and_enqueue claim_id id scope prompt status parent reference t) (λ r k. k)
      (add_and_enqueue-Keeps excused claim_id id scope prompt status parent reference t h fresh)
step-Keeps excused (complete_call claim_id session) t h fresh =
    complete_claim-Keeps excused t h claim_id session
step-Keeps excused (fail_call claim_id propagate) t h fresh =
    Ends-drop_answer ⊥ _ (Keeps excused t) (fail_claim claim_id propagate t) (λ r k. k.keeps)
      (fail_claim-FailsClaim excused claim_id propagate t h)
step-Keeps excused (cancel_call id) t h fresh =
    Ends-drop_answer (stranded t ≡ true) _ (Keeps excused t) (cancel_node id t) (λ r k. k.keeps)
      (cancel_node-Stops excused id t h)
step-Keeps excused (remove_call reference) t h fresh =
    Ends-drop_answer (stranded t ≡ true) _ (Keeps excused t) (remove_message_subtree reference t)
      (λ r k. k.keeps) (remove_message_subtree-Removes excused reference t h)
step-Keeps excused cancel_all_call t h fresh =
    Ends-drop_answer (stranded t ≡ true) _ (Keeps excused t) (cancel_all t) (λ r k. k.keeps)
      (cancel_all-StopsAll excused t h)

-- The trees that calls lead to, none of which raises.
pub data Reaches (t : MessageTree) : MessageTree → Type 0 where
  start : Reaches t t
  next :
      (t' last : MessageTree) (call : TreeCall)
      → Reaches t t'
      → is_fresh_call call t' ≡ true
      → step call t' ≡ some last
      → Reaches t last

pub Reaches-IsReady :
    (excused : String → Bool) (t last : MessageTree)
    → IsReady excused t
    → Reaches t last
    → IsReady excused last
Reaches-IsReady excused t last h start = h
Reaches-IsReady excused t last h (next t' _ call r fresh e) =
    (subst (λ o. Ends (Refuses call t') o (Keeps excused t')) e
      (step-Keeps excused call t' (Reaches-IsReady excused t t' h r) fresh)).ready

abbrev pub nobody : String → Bool
nobody k = false

-- A root that waits for its admission.
abbrev pub is_new_root : MessageNode → Bool
is_new_root root =
    not (root.node_id == "") && is_pending root.state && is_some root.status_message_id

rooted-IsSound :
    (root : MessageNode) (g : MessageTreeGraph)
    → is_new_root root ≡ true
    → new_graph root ≡ some g
    → IsSound (or_id nobody root.node_id) (new_tree g)
unfolding lookup
rooted-IsSound root g fresh e =
    let found : (k : String) → lookup k g.nodes ≡ (if root.node_id == k then some root else none) =
      λ k. ap (λ nodes. lookup k nodes) (new_graph-nodes root g e) in
    record {
      indexed = record { unique = refl; same = λ x. refl };
      queued = λ k c. cc;
      waits = λ k p. ground (arith, found k, p);
      shown = λ k. ground (arith, found k, fresh);
      keyed = λ k. ground (arith, found k);
      named = ground (arith, found "", fresh, string_eq.same_iff root.node_id "");
      claimed = λ k c. cc;
    }

-- The queue holds exactly the nodes that wait, once each; none waits without an active claim, and
-- the node of a claim does not wait.
pub record IsConsistent (t : MessageTree) : Type 0 where
  pub waiting : (k : String) → contains t.queue.deque k ≡ pends (lookup k t.graph.nodes)
  pub once : distinct t.queue.deque ≡ true
  pub idle : is_some t.active ≡ false → (k : String) → pends (lookup k t.graph.nodes) ≡ false
  pub claimed : (k : String) → is_claimed t.active k ≡ true → pends (lookup k t.graph.nodes) ≡ false

IsReady-IsConsistent : (t : MessageTree) → IsReady nobody t → IsConsistent t
IsReady-IsConsistent t h =
    let waiting : (k : String) → contains t.queue.deque k ≡ pends (lookup k t.graph.nodes) =
      λ k. ground (arith, h.sound.queued k, h.sound.waits k) in
    record {
      waiting = waiting;
      once = h.sound.indexed.unique;
      idle = λ off k. sym (waiting k) ∙ rw (h.idle off) refl;
      claimed = h.sound.claimed;
    }

pub admitted-IsReady :
    (root : MessageNode) (g : MessageTreeGraph) (claim_id : String) (first : MessageTree)
    → is_new_root root ≡ true
    → new_graph root ≡ some g
    → step (enqueue_call claim_id root.node_id) (new_tree g) ≡ some first
    → IsReady nobody first
unfolding step
admitted-IsReady root g claim_id first fresh new admitted =
    let started =
      Ends-drop_answer ⊥ _ (Keeps nobody (new_tree g))
        (enqueue_or_claim claim_id root.node_id (new_tree g)) (λ q k. k)
        (enqueue_or_claim-Keeps nobody claim_id root.node_id (new_tree g)
          (rooted-IsSound root g fresh new) (λ off. refl)) in
    (subst (λ o. Ends ⊥ o (Keeps nobody (new_tree g))) admitted started).ready

-- After the admission of a pending root with a status message, and after any calls that do not raise
-- and add messages with fresh ids: an id is in the queue exactly if its node is pending, no id is
-- queued twice, no node is pending if no claim is active, and the node of the active claim is not
-- pending.
pub Reaches-IsConsistent :
    (root : MessageNode) (g : MessageTreeGraph) (claim_id : String) (first last : MessageTree)
    → is_new_root root ≡ true
    → new_graph root ≡ some g
    → step (enqueue_call claim_id root.node_id) (new_tree g) ≡ some first
    → Reaches first last
    → IsConsistent last
Reaches-IsConsistent root g claim_id first last fresh new admitted r = IsReady-IsConsistent last (
    Reaches-IsReady nobody first last (admitted-IsReady root g claim_id first fresh new admitted) r)
