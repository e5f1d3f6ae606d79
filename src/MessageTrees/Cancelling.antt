-- ===== src/MessageTrees/Cancelling.antt =====
-- The cancellation of one node, which the cancellations of messaging/trees/runtime.py share.
use test2_freeclaudecode.Prelude.{
  ◌≡◌, refl, String, Bool, true, false, not, ◌&&◌, Option, none, some, List, [], ◌∷◌, string_eq,
  is_some, arith, Bool-cases, inl, inr, contains,
}
use test2_freeclaudecode.Prelude.Dict.{lookup, lookup-insert}
use test2_freeclaudecode.MessageTrees.Graph.{MessageNode, error, mark_error, update_state}
use test2_freeclaudecode.MessageTrees.Transitions.{NodeUiTarget}
use test2_freeclaudecode.MessageTrees.Runtime.{
  MessageTree, is_runnable, is_error, set_node, ui_target, target_at,
}
use test2_freeclaudecode.MessageTrees.Cancel.{cancel_found}
use test2_freeclaudecode.MessageTrees.Sound.{
  Ends, Ends->>=, pends, IsSound, IsSound-excuse, or_id, set_node-IsSound,
}
use test2_freeclaudecode.MessageTrees.Claiming.{ui_target-Ends}

abbrev pub runs : Option MessageNode → Bool
runs none = false
runs (some node) = is_runnable node.state

-- A failed node whose status message was cleared.
abbrev pub hides : Option MessageNode → Bool
hides none = false
hides (some node) = is_error node.state && not (is_some node.status_message_id)

pub Ends-weaken :
    {A : Type 0} (R R' : Type 0) (P : A → Type 0) (m : Option A)
    → (R → R')
    → Ends R m P
    → Ends R' m P
Ends-weaken R R' P none w h = w h
Ends-weaken R R' P (some a) w h = h

pub pends-runs : (o : Option MessageNode) → pends o ≡ true → runs o ≡ true
pends-runs none p = p
pends-runs (some node) p = ground (arith, p)

target_at-EndsOr :
    (R : Type 0) (node : MessageNode) (o : Option String)
    → (is_some o ≡ false → R)
    → Ends R (target_at node o) (λ target. target.node_id ≡ node.node_id)
target_at-EndsOr R node none bare = bare refl
target_at-EndsOr R node (some status) bare = refl

ui_target-EndsOr :
    (R : Type 0) (node : MessageNode)
    → (is_some node.status_message_id ≡ false → R)
    → Ends R (ui_target node) (λ target. target.node_id ≡ node.node_id)
unfolding ui_target
ui_target-EndsOr R node bare = target_at-EndsOr R node node.status_message_id bare

pub Ends-imply :
    {A : Type 0} (R R' : Type 0) (P Q : A → Type 0) (m : Option A)
    → (R → R')
    → ((a : A) → P a → Q a)
    → Ends R m P
    → Ends R' m Q
Ends-imply R R' P Q none w f h = w h
Ends-imply R R' P Q (some a) w f h = f a h

-- A step that fails nodes and does nothing else.
pub record Fails (excused : String → Bool) (t t' : MessageTree) : Type 0 where
  pub sound : IsSound excused t'
  pub queue : t'.queue ≡ t.queue
  pub active : t'.active ≡ t.active
  pub root : t'.graph.root_id ≡ t.graph.root_id
  pub fewer :
      (k : String) → runs (lookup k t'.graph.nodes) ≡ true → runs (lookup k t.graph.nodes) ≡ true
  pub hidden : (k : String) → hides (lookup k t'.graph.nodes) ≡ hides (lookup k t.graph.nodes)
  pub there : (k : String) → is_some (lookup k t'.graph.nodes) ≡ is_some (lookup k t.graph.nodes)

pub record FailsAt (excused : String → Bool) (id : String) (t : MessageTree)
    (r : List NodeUiTarget × MessageTree) : Type 0 where
  pub fails : Fails excused t r.1
  pub done : runs (lookup id r.1.graph.nodes) ≡ false

-- What makes the report of a claimed node raise.
abbrev pub Hidden : Bool → String → MessageTree → Type 0
Hidden claimed id t = (claimed ≡ true) × (hides (lookup id t.graph.nodes) ≡ true)

module _ (excused : String → Bool) (id : String) (t : MessageTree)
    (h : IsSound (or_id excused id) t) (out : contains t.queue.deque id ≡ false) where
  unchanged-FailsAt :
      (targets : List NodeUiTarget)
      → runs (lookup id t.graph.nodes) ≡ false
      → FailsAt excused id t (targets, t)
  unchanged-FailsAt targets still = record {
    fails = record {
      sound = IsSound-excuse (or_id excused id) t h excused (λ k p e.
          ground (arith, e, pends-runs (lookup k t.graph.nodes) p, still, string_eq.same_iff id k));
      queue = refl;
      active = refl;
      root = refl;
      fewer = λ k r. r;
      hidden = λ k. refl;
      there = λ k. refl;
    };
    done = still;
  }

  failed-FailsAt :
      (targets : List NodeUiTarget) (node : MessageNode)
      → lookup id t.graph.nodes ≡ some node
      → is_runnable node.state ≡ true
      → FailsAt excused id t (targets, set_node id (mark_error node) t)
  unfolding mark_error update_state
  failed-FailsAt targets node here run =
      let failed = record node { state = error } in
      record {
        fails = record {
          sound = set_node-IsSound excused t id node failed h here out refl refl refl;
          queue = refl;
          active = refl;
          root = refl;
          fewer = λ k r. ground (arith, rw (lookup-insert id k failed t.graph.nodes) at r);
          hidden = λ k.
              rw (lookup-insert id k failed t.graph.nodes)
                (ground (arith, h.shown id, here, string_eq.same_iff id k));
          there = λ k.
              rw (lookup-insert id k failed t.graph.nodes)
                (ground (arith, here, string_eq.same_iff id k));
        };
        done =
            rw (lookup-insert id id failed t.graph.nodes)
              (ground (arith, string_eq.same_iff id id));
      }

  pub cancel_found-FailsAt :
      (claimed : Bool) (o : Option MessageNode)
      → lookup id t.graph.nodes ≡ o
      → Ends (Hidden claimed id t) (cancel_found claimed id o t) (FailsAt excused id t)
  unfolding cancel_found
  cancel_found-FailsAt claimed none here = unchanged-FailsAt [] (rw here refl)
  cancel_found-FailsAt claimed (some node) here = elim (Bool-cases (is_runnable node.state)) [
    | inl run ↦ rw run (
        Ends->>= (Hidden claimed id t) (λ target. target.node_id ≡ node.node_id)
          (FailsAt excused id t) (ui_target node) _
          (Ends-weaken ⊥ (Hidden claimed id t) (λ target. target.node_id ≡ node.node_id)
            (ui_target node) (λ b. absurd b)
            (ui_target-Ends node (ground (arith, h.shown id, here))))
          (λ target own. failed-FailsAt (target ∷ []) node here run))
    | inr still ↦ rw still (elim (Bool-cases (is_error node.state && claimed)) [
      | inl again ↦ rw again (
          Ends->>= (Hidden claimed id t) (λ target. target.node_id ≡ node.node_id)
            (FailsAt excused id t) (ui_target node) _
            (ui_target-EndsOr (Hidden claimed id t) node
              (λ bare. (ground (arith, again), rw here (ground (arith, again, bare)))))
            (λ target own. unchanged-FailsAt (target ∷ []) (rw here still)))
      | inr silent ↦ rw silent (unchanged-FailsAt [] (rw here still))
    ])
  ]
