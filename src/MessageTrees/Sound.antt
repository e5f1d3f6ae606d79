-- ===== src/MessageTrees/Sound.antt =====
-- The state of a tree between two calls of messaging/trees/runtime.py, and a step on one node.
use test2_freeclaudecode.Prelude.{
  ◌≡◌, ap, ◌∙◌, String, Bool, true, false, not, ◌&&◌, ◌||◌, Option, none, some, List, ◌∷◌, ◌==◌,
  string_eq, is_some, arith, contains,
}
use test2_freeclaudecode.Prelude.Dict.{lookup, lookup-insert}
use test2_freeclaudecode.MessageTrees.Queue.{
  answer, remove_call, pop_call, MessageNodeQueue, pop, remove,
}
use test2_freeclaudecode.MessageTrees.QueueOrder.{
  answer_of, answer-Follows, IsIndexed, contains-without,
}
use test2_freeclaudecode.MessageTrees.Graph.{MessageNode}
use test2_freeclaudecode.MessageTrees.Runtime.{
  ◌>>=◌, ActiveClaim, MessageTree, is_pending, is_runnable, set_node,
}
use test2_freeclaudecode.MessageTrees.Cancel.{dequeue}

-- A call raises only if `R`, and what it returns has the property.
abbrev pub Ends : {A : Type 0} → Type 0 → Option A → (A → Type 0) → Type 0
Ends R none P = R
Ends R (some a) P = P a

pub Ends->>= :
    {A B : Type 0} (R : Type 0) (P : A → Type 0) (Q : B → Type 0) (m : Option A) (f : A → Option B)
    → Ends R m P
    → ((a : A) → P a → Ends R (f a) Q)
    → Ends R (m >>= f) Q
Ends->>= R P Q none f h k = h
Ends->>= R P Q (some a) f h k = k a h

abbrev pub pends : Option MessageNode → Bool
pends none = false
pends (some node) = is_pending node.state

-- A runnable node shows a status.
abbrev pub shows : Option MessageNode → Bool
shows none = true
shows (some node) = not (is_runnable node.state) || is_some node.status_message_id

abbrev pub keyed_as : String → Option MessageNode → Bool
keyed_as id none = true
keyed_as id (some node) = node.node_id == id

abbrev pub is_claimed : Option ActiveClaim → String → Bool
is_claimed none id = false
is_claimed (some a) id = a.claim.node.node_id == id

-- Exactly the pending nodes are queued, but for the nodes that are excused.
pub record IsSound (excused : String → Bool) (t : MessageTree) : Type 0 where
  pub indexed : IsIndexed t.queue
  pub queued :
      (k : String) → contains t.queue.deque k ≡ true → pends (lookup k t.graph.nodes) ≡ true
  pub waits :
      (k : String)
      → pends (lookup k t.graph.nodes) ≡ true
      → (contains t.queue.deque k || excused k) ≡ true
  pub shown : (k : String) → shows (lookup k t.graph.nodes) ≡ true
  pub keyed : (k : String) → keyed_as k (lookup k t.graph.nodes) ≡ true
  pub named : lookup "" t.graph.nodes ≡ none
  pub claimed : (k : String) → is_claimed t.active k ≡ true → pends (lookup k t.graph.nodes) ≡ false

abbrev pub or_id : (String → Bool) → String → String → Bool
or_id excused id k = excused k || id == k

-- A node that is not queued takes a state that is not pending.
module _ (excused : String → Bool) (t : MessageTree) (id : String) (node node' : MessageNode)
    (h : IsSound (or_id excused id) t) (here : lookup id t.graph.nodes ≡ some node)
    (out : contains t.queue.deque id ≡ false) (settled : is_pending node'.state ≡ false)
    (own : node'.node_id ≡ node.node_id) (seen : shows (some node') ≡ true) where
  pub set_node-IsSound : IsSound excused (set_node id node' t)
  set_node-IsSound = record {
    indexed = h.indexed;
    queued = λ k q.
        rw (lookup-insert id k node' t.graph.nodes)
          (ground (arith, h.queued k q, out, string_eq.same_iff id k));
    waits =
        λ k p. ground (arith, rw (lookup-insert id k node' t.graph.nodes) at p, h.waits k, settled);
    shown = λ k. rw (lookup-insert id k node' t.graph.nodes) (ground (arith, h.shown k, seen));
    keyed = λ k. rw (lookup-insert id k node' t.graph.nodes) (
        ground (
          arith,
          h.keyed k,
          h.keyed id,
          here,
          own,
          string_eq.same_iff id k,
          string_eq.same_iff node.node_id id,
          string_eq.same_iff node'.node_id k,
        ));
    named =
        rw (lookup-insert id "" node' t.graph.nodes)
          (ground (arith, h.named, here, string_eq.same_iff id ""));
    claimed =
        λ k c. rw (lookup-insert id k node' t.graph.nodes) (ground (arith, h.claimed k c, settled));
  }

module _ (excused : String → Bool) (t : MessageTree) (h : IsSound excused t) where
  -- Fewer excuses are needed for nodes that do not wait.
  pub IsSound-excuse :
      (fewer : String → Bool)
      → ((k : String) → pends (lookup k t.graph.nodes) ≡ true → excused k ≡ true → fewer k ≡ true)
      → IsSound fewer t
  IsSound-excuse fewer less = record {
    indexed = h.indexed;
    queued = h.queued;
    waits = λ k p. ground (arith, h.waits k p, less k p);
    shown = h.shown;
    keyed = h.keyed;
    named = h.named;
    claimed = h.claimed;
  }

  -- An item leaves the queue.
  shorter-IsSound :
      (id : String) (q : MessageNodeQueue)
      → IsIndexed q
      → ((k : String) → contains q.deque k ≡ (contains t.queue.deque k && not (id == k)))
      → IsSound (or_id excused id) (record t { queue = q })
  shorter-IsSound id q indexed left = record {
    indexed = indexed;
    queued = λ k c. h.queued k (ground (arith, left k, c));
    waits = λ k p. ground (arith, left k, h.waits k p);
    shown = h.shown;
    keyed = h.keyed;
    named = h.named;
    claimed = h.claimed;
  }

  pub dequeue_left :
      (id k : String)
      → contains (remove id t.queue).1.deque k ≡ (contains t.queue.deque k && not (id == k))
  unfolding answer answer_of
  dequeue_left id k =
      ap (λ xs. contains xs k) (answer-Follows (remove_call id) t.queue h.indexed).left
      ∙ contains-without id k t.queue.deque

  pub dequeue-IsSound : (id : String) → IsSound (or_id excused id) (dequeue id t).1
  dequeue-IsSound id =
      shorter-IsSound id (remove id t.queue).1
        (unfold answer in (answer-Follows (remove_call id) t.queue h.indexed).indexed)
        (dequeue_left id)

  pub dequeue_out : (id : String) → contains (dequeue id t).1.queue.deque id ≡ false
  dequeue_out id = ground (arith, dequeue_left id id, string_eq.same_iff id id)

  pub dequeue_fewer :
      (id k : String)
      → contains t.queue.deque k ≡ false
      → contains (dequeue id t).1.queue.deque k ≡ false
  dequeue_fewer id k out = ground (arith, dequeue_left id k)

  pub pop-IsSound :
      (id : String) (rest : List String)
      → t.queue.deque ≡ id ∷ rest
      → IsSound (or_id excused id) (record t { queue = (pop t.queue).1 })
        × ((pop t.queue).1.deque ≡ rest)
        × (contains rest id ≡ false)
  unfolding answer answer_of
  pop-IsSound id rest top =
      let f = answer-Follows pop_call t.queue h.indexed in
      let left : (pop t.queue).1.deque ≡ rest = f.left ∙ ap (λ xs. (answer_of pop_call xs).1) top in
      let new : contains rest id ≡ false = ground (arith, rw top at h.indexed.unique) in
      (
        shorter-IsSound id (pop t.queue).1 f.indexed
            (λ k. ground (arith, left, top, new, string_eq.same_iff id k)),
        left,
        new,
      )
