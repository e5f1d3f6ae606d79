-- ===== src/MessageTrees/RunExamples.antt =====
-- A tree whose root is claimed, with a reply that waits, and then without the status message of the
-- root.
use test2_freeclaudecode.Prelude.{◌≡◌, refl, ◌↔◌, true, Option, none, some, [], ◌∷◌, string_eq}
use test2_freeclaudecode.Prelude.Dict.{lookup, insert, remove}
use test2_freeclaudecode.MessageTrees.Graph.{MessageNode, add_node}
use test2_freeclaudecode.MessageTrees.Runtime.{
  MessageTree, new_tree, enqueue_or_claim, add_and_enqueue, finish_and_claim_next,
}
use test2_freeclaudecode.MessageTrees.Walk.{reference_children, get_reference_descendants}
use test2_freeclaudecode.MessageTrees.Cancel.{
  cancel_all, cancel_node, fail_claim, remove_message_subtree,
}
use test2_freeclaudecode.MessageTrees.Sound.{Ends}
use test2_freeclaudecode.MessageTrees.Admission.{IsReady, Keeps}
use test2_freeclaudecode.MessageTrees.HandOver.{Completes, finish_and_claim_next-Completes}
use test2_freeclaudecode.MessageTrees.Stopping.{stranded}
use test2_freeclaudecode.MessageTrees.Stopped.{Stops, cancel_node-Stops}
use test2_freeclaudecode.MessageTrees.StoppedAll.{
  StopsAll, cancel_all-StopsAll, cancel_all-raises_iff,
}
use test2_freeclaudecode.MessageTrees.RemovedThread.{
  RemovesThread, remove_message_subtree-RemovesThread,
}
use test2_freeclaudecode.MessageTrees.Thread.{root-IsThreaded}
use test2_freeclaudecode.MessageTrees.ReferenceTree.{IsThreaded, write-Relabels}
use test2_freeclaudecode.MessageTrees.Replies.{add_node-IsThreaded, relabelled-IsThreaded}
use test2_freeclaudecode.MessageTrees.FailedClaim.{FailsClaim, fail_claim-FailsClaim}
use test2_freeclaudecode.MessageTrees.Steps.{
  TreeCall, enqueue_call, add_call, remove_call, step, Reaches, start, next, nobody, IsConsistent,
  Reaches-IsConsistent, Reaches-IsReady, admitted-IsReady, step-Keeps, Refuses, is_fresh_call,
}
use test2_freeclaudecode.MessageTrees.Examples.{root, chat, tree, tree_made}

abbrev result_of : Option MessageTree → MessageTree
result_of none = new_tree tree
result_of (some t) = t

abbrev or_root : Option MessageNode → MessageNode
or_root none = root
or_root (some node) = node

abbrev first : MessageTree
first = result_of (step (enqueue_call "c1" "m1") (new_tree tree))

abbrev reply : TreeCall
reply = add_call "c2" "m2" chat "And the tests" "s2" "m1" "m1"

abbrev second : MessageTree
second = result_of (step reply first)

abbrev third : MessageTree
third = result_of (step (remove_call "s1") second)

root_admitted : step (enqueue_call "c1" "m1") (new_tree tree) ≡ some first
unfolding step enqueue_or_claim lookup insert
root_admitted = refl

reply_added : step reply first ≡ some second
unfolding step add_and_enqueue add_node enqueue_or_claim lookup insert
reply_added = refl

reply_fresh : is_fresh_call reply first ≡ true
unfolding step enqueue_or_claim lookup
reply_fresh = refl

reply_waits : second.queue.deque ≡ "m2" ∷ []
unfolding step add_and_enqueue add_node enqueue_or_claim lookup insert
reply_waits = refl

status_removed : step (remove_call "s1") second ≡ some third
unfolding step remove_message_subtree add_and_enqueue add_node enqueue_or_claim lookup insert remove
    get_reference_descendants
status_removed = refl

-- The claim of the root outlives its status message.
third-stranded : stranded third ≡ true
unfolding step remove_message_subtree add_and_enqueue add_node enqueue_or_claim lookup insert remove
    get_reference_descendants
third-stranded = refl

first-IsReady : IsReady nobody first
first-IsReady = admitted-IsReady root tree "c1" first refl tree_made root_admitted

to_third : Reaches first third
to_third =
    next second third (remove_call "s1") (next first second reply start reply_fresh reply_added)
      refl status_removed

second-IsReady : IsReady nobody second
second-IsReady =
    Reaches-IsReady nobody first second first-IsReady
      (next first second reply start reply_fresh reply_added)

third-IsReady : IsReady nobody third
third-IsReady = Reaches-IsReady nobody first third first-IsReady to_third

Reaches-IsConsistent_example : IsConsistent third
Reaches-IsConsistent_example =
    Reaches-IsConsistent root tree "c1" first third refl tree_made root_admitted to_third

step-Keeps_example : Ends (Refuses reply first) (step reply first) (Keeps nobody first)
step-Keeps_example = step-Keeps nobody reply first first-IsReady reply_fresh

finish_and_claim_next-Completes_example :
    Ends ⊥ (finish_and_claim_next "c2" "c1" second) (Completes nobody "c1" second)
finish_and_claim_next-Completes_example =
    finish_and_claim_next-Completes nobody "c2" "c1" second second-IsReady

cancel_node-Stops_example :
    Ends (stranded second ≡ true) (cancel_node "m2" second) (Stops nobody "m2" second)
cancel_node-Stops_example = cancel_node-Stops nobody "m2" second second-IsReady

cancel_all-StopsAll_example :
    Ends (stranded second ≡ true) (cancel_all second) (StopsAll nobody second)
cancel_all-StopsAll_example = cancel_all-StopsAll nobody second second-IsReady

cancel_all-raises_iff_example : (cancel_all third ≡ none) ↔ (stranded third ≡ true)
cancel_all-raises_iff_example = cancel_all-raises_iff nobody third third-IsReady

-- The claim of the root writes its state, and the reply is added under it.
first-IsThreaded : IsThreaded first.graph
unfolding step enqueue_or_claim lookup insert
first-IsThreaded =
    relabelled-IsThreaded tree first.graph.nodes (root-IsThreaded root tree tree_made refl) (
      write-Relabels "m1" root (or_root (lookup "m1" first.graph.nodes)) tree.nodes refl refl refl
        refl)

second-IsThreaded : IsThreaded second.graph
unfolding step add_and_enqueue add_node enqueue_or_claim lookup insert reference_children
second-IsThreaded =
    add_node-IsThreaded "m2" chat "And the tests" "s2" "m1" "m1" first.graph second.graph
      first-IsThreaded refl refl refl

-- The root's thread is the whole tree.
whole_thread : get_reference_descendants "m1" second.graph ≡ "m1" ∷ "m2" ∷ "s2" ∷ "s1" ∷ []
unfolding step add_and_enqueue add_node enqueue_or_claim lookup insert get_reference_descendants
whole_thread = refl

remove_message_subtree-RemovesThread_example :
    Ends
      (stranded second ≡ true)
      (remove_message_subtree "m1" second)
      (RemovesThread nobody "m1" second)
remove_message_subtree-RemovesThread_example =
    remove_message_subtree-RemovesThread nobody "m1" second second-IsReady second-IsThreaded

fail_claim-FailsClaim_example : Ends ⊥ (fail_claim "c1" true second) (FailsClaim nobody "c1" second)
fail_claim-FailsClaim_example = fail_claim-FailsClaim nobody "c1" true second second-IsReady

-- Then the tree cannot be stopped as a whole.
third_raises : cancel_all third ≡ none
third_raises = cancel_all-raises_iff_example.1 third-stranded
