-- ===== src/MessageTrees/Writing.antt =====
-- What the runner of a claim writes to its node: `record_session` and `complete_claim` of
-- messaging/trees/runtime.py.
use test2_freeclaudecode.Prelude.{
  ◌≡◌, refl, String, Bool, true, false, Option, none, some, string_eq, arith, Bool-cases, inl, inr,
  contains,
}
use test2_freeclaudecode.Prelude.Dict.{lookup}
use test2_freeclaudecode.MessageTrees.Graph.{
  MessageState, in_progress, completed, MessageNode, update_state,
}
use test2_freeclaudecode.MessageTrees.Runtime.{
  ActiveClaim, MessageTree, is_pending, is_runnable, is_in_progress, is_completable, live_node,
  node_at, write_claim, record_session, complete_claim,
}
use test2_freeclaudecode.MessageTrees.Sound.{
  is_claimed, IsSound, IsSound-excuse, or_id, set_node-IsSound,
}
use test2_freeclaudecode.MessageTrees.Admission.{IsReady, Keeps}

pub live_node-some :
    (claim_id : String) (a : Option ActiveClaim) (id : String)
    → live_node claim_id a ≡ some id
    → is_claimed a id ≡ true
live_node-some claim_id none id h = cc
live_node-some claim_id (some a) id h =
    ground (arith, h, string_eq.same_iff a.claim.node.node_id id)

pub node_at-some :
    (o : Option String) (t : MessageTree) (id : String) (node : MessageNode)
    → node_at o t ≡ some (id, node)
    → (o ≡ some id) × (lookup id t.graph.nodes ≡ some node)
node_at-some none t id node h = cc
node_at-some (some other) t id node h = ground (arith, h)

-- The node of the active claim is not queued.
pub claimed_out :
    (excused : String → Bool) (t : MessageTree) (id : String)
    → IsSound excused t
    → is_claimed t.active id ≡ true
    → contains t.queue.deque id ≡ false
claimed_out excused t id h c = ground (arith, h.claimed id c, h.queued id)

pub IsSound-or_id :
    (excused : String → Bool) (t : MessageTree) (id : String)
    → IsSound excused t
    → IsSound (or_id excused id) t
IsSound-or_id excused t id h =
    IsSound-excuse excused t h (or_id excused id) (λ k p e. ground (arith, e))

module _ (fits : MessageState → Bool) (state : MessageState) (session : Option String)
    (settled : is_pending state ≡ false)
    (kept : (s : MessageState) → fits s ≡ true → is_runnable state ≡ true → is_runnable s ≡ true)
    (excused : String → Bool) (t : MessageTree) (h : IsReady excused t) where
  write_claim-Keeps :
      (id : String) (node : MessageNode)
      → lookup id t.graph.nodes ≡ some node
      → is_claimed t.active id ≡ true
      → Keeps excused t (write_claim fits state session (some (id, node)) t).1
  unfolding write_claim update_state
  write_claim-Keeps id node here own = elim (Bool-cases (fits node.state)) [
    | inl fit ↦ rw fit (record {
      ready = record {
        sound =
            set_node-IsSound excused t id node (update_state state session node)
              (IsSound-or_id excused t id h.sound) here (claimed_out excused t id h.sound own)
              settled refl (ground (arith, h.sound.shown id, here, kept node.state fit));
        idle = h.idle;
      };
      root = refl;
    })
    | inr unfit ↦ rw unfit (record { ready = h; root = refl })
  ]

  written-Keeps :
      (claim_id : String) (o : Option (String × MessageNode))
      → node_at (live_node claim_id t.active) t ≡ o
      → Keeps excused t (write_claim fits state session o t).1
  written-Keeps claim_id none e = unfold write_claim in record { ready = h; root = refl }
  written-Keeps claim_id (some (id, node)) e =
      let (live, here) = node_at-some (live_node claim_id t.active) t id node e in
      write_claim-Keeps id node here (live_node-some claim_id t.active id live)

module _ (excused : String → Bool) (t : MessageTree) (h : IsReady excused t) where
  pub record_session-Keeps :
      (claim_id session : String) → Keeps excused t (record_session claim_id session t).1
  unfolding record_session
  record_session-Keeps claim_id session =
      written-Keeps is_in_progress in_progress (some session) refl
        (λ s fit run. ground (arith, fit)) excused t h claim_id
        (node_at (live_node claim_id t.active) t) refl

  pub complete_claim-Keeps :
      (claim_id : String) (session : Option String)
      → Keeps excused t (complete_claim claim_id session t).1
  unfolding complete_claim
  complete_claim-Keeps claim_id session =
      written-Keeps is_completable completed session refl (λ s fit run. cc) excused t h claim_id
        (node_at (live_node claim_id t.active) t) refl
