-- ===== src/MessageTrees/RemovedThread.antt =====
-- `remove_message_subtree` of messaging/trees/runtime.py and the subtree that it removes.
use mathlib.Core.Path.{subst}
use test2_freeclaudecode.Prelude.{
  ◌≡◌, refl, sym, String, Bool, true, false, Option, none, some, List, is_some, string_eq, contains,
  Bool-cases, inl, inr,
}
use test2_freeclaudecode.MessageTrees.Graph.{
  remove_nodes, MessageNode, MessageReferenceKind, resolve_reference,
}
use test2_freeclaudecode.MessageTrees.Walk.{get_reference_descendants}
use test2_freeclaudecode.MessageTrees.Transitions.{MessageSubtreeRemoval}
use test2_freeclaudecode.MessageTrees.Runtime.{MessageTree}
use test2_freeclaudecode.MessageTrees.Cancel.{
  update_if, clear_owner, request_if, cancel_affected, claim_on, with_owner, present,
  remove_resolved, remove_message_subtree, empty_removal, is_nil,
}
use test2_freeclaudecode.MessageTrees.Sound.{Ends, Ends->>=}
use test2_freeclaudecode.MessageTrees.Admission.{IsReady}
use test2_freeclaudecode.MessageTrees.Stopping.{stranded}
use test2_freeclaudecode.MessageTrees.Removing.{Removes, remove_message_subtree-Removes}
use test2_freeclaudecode.MessageTrees.ReferenceTree.{IsThreaded}
use test2_freeclaudecode.MessageTrees.Replies.{nil_of}
use test2_freeclaudecode.MessageTrees.Thread.{IsThread, get_reference_descendants-IsThread}

Ends-any : {A : Type 0} (m : Option A) → Ends Unit m (λ a. Unit)
Ends-any none = tt
Ends-any (some a) = tt

-- Two properties of what a call returns.
Ends-both :
    {A : Type 0} (R : Type 0) (P Q S : A → Type 0) (m : Option A)
    → Ends R m P
    → Ends Unit m Q
    → ((a : A) → P a → Q a → S a)
    → Ends R m S
Ends-both R P Q S none p q f = p
Ends-both R P Q S (some a) p q f = f a p q

-- What is reported as removed.
abbrev Reports : List String → MessageSubtreeRemoval × MessageTree → Type 0
Reports references r = r.0.removed_message_ids ≡ references

resolved-Reports :
    (references : List String) (owner : MessageNode) (kind : MessageReferenceKind) (t : MessageTree)
    → Ends Unit (remove_resolved references (some (owner, kind)) t) (Reports references)
unfolding remove_resolved
resolved-Reports references owner kind t = elim (Bool-cases (is_nil references)) [
  | inl nothing ↦ rw (nothing, nil_of references nothing) refl
  | inr anything ↦
      let removed = present t.graph.nodes references in
      let affected = with_owner kind owner.node_id removed in
      let claim = claim_on (contains affected) t.active in
      let touched = cancel_affected claim affected (request_if (is_some claim) t) in
      rw anything (
        Ends->>= Unit (λ a. Unit) (Reports references) touched _ (Ends-any touched)
          (λ r u.
            let g = remove_nodes removed (clear_owner kind owner.node_id r.2.graph) in
            let update = update_if r.1 (record r.2 { graph = g }) in
            Ends->>= Unit (λ a. Unit) (Reports references) update _ (Ends-any update)
              (λ q v. refl)))
]

-- A removal of the thread of a message.
pub record RemovesThread (excused : String → Bool) (reference : String) (t : MessageTree)
    (r : MessageSubtreeRemoval × MessageTree) : Type 0 where
  pub removes : Removes excused t r
  pub thread :
      is_some (resolve_reference reference t.graph) ≡ true
      → IsThread t.graph reference r.0.removed_message_ids
  pub unknown : is_some (resolve_reference reference t.graph) ≡ false → r ≡ (empty_removal, t)

-- What a call returns when the reference resolves to `found`.
found-RemovesThread :
    (excused : String → Bool) (reference : String) (t : MessageTree)
    (found : Option (MessageNode × MessageReferenceKind))
    → resolve_reference reference t.graph ≡ found
    → IsReady excused t
    → IsThreaded t.graph
    → let references = get_reference_descendants reference t.graph in
      Ends (stranded t ≡ true) (remove_resolved references found t) (Removes excused t)
      → Ends
          (stranded t ≡ true)
          (remove_resolved references found t)
          (RemovesThread excused reference t)
unfolding remove_resolved get_reference_descendants
found-RemovesThread excused reference t none here h threaded removes = record {
  removes = removes;
  thread = λ there. cc (rw here at there);
  unknown = λ away. refl;
}
found-RemovesThread excused reference t (some (owner, kind)) here h threaded removes =
    let references = get_reference_descendants reference t.graph in
    Ends-both (stranded t ≡ true) (Removes excused t) (Reports references)
      (RemovesThread excused reference t) _ removes (resolved-Reports references owner kind t)
      (λ r all reports. record {
        removes = all;
        thread = λ there.
            subst (IsThread t.graph reference) (sym reports)
              (get_reference_descendants-IsThread t.graph reference threaded there);
        unknown = λ away. cc (rw here at away);
      })

-- On a ready tree whose replies and statuses form threads, `remove_message_subtree` raises only if the
-- active claim is stranded. Otherwise, if the reference is known, the removed messages are exactly the
-- message and everything that is reached from it through replies and statuses, each once: the loop that
-- collects them ends with them. None of them is a node any more, and every other node stays. No node
-- becomes runnable, a node that can still run is queued exactly if it was, the tree stays ready, and it
-- is reported as removed entirely exactly if its root was a node and is removed. For an unknown
-- reference nothing is removed and the tree is the same.
pub remove_message_subtree-RemovesThread :
    (excused : String → Bool) (reference : String) (t : MessageTree)
    → IsReady excused t
    → IsThreaded t.graph
    → Ends
        (stranded t ≡ true)
        (remove_message_subtree reference t)
        (RemovesThread excused reference t)
unfolding remove_message_subtree
remove_message_subtree-RemovesThread excused reference t h threaded =
    found-RemovesThread excused reference t (resolve_reference reference t.graph) refl h threaded
      (remove_message_subtree-Removes excused reference t h)
