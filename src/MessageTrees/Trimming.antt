-- ===== src/MessageTrees/Trimming.antt =====
-- What `remove_nodes` and `clear_status` of messaging/trees/graph.py leave of the nodes that a tree
-- still reads.
use mathlib.Core.Path.{subst}
use test2_freeclaudecode.Prelude.{
  ◌≡◌, refl, ap, ◌∙◌, sym, String, Bool, true, false, Option, none, some, List, [], ◌∷◌, ◌==◌,
  string_eq, is_some, arith, Bool-cases, inl, inr, contains,
}
use test2_freeclaudecode.Prelude.Dict.{Dict, lookup, insert, remove, lookup-insert, lookup-remove}
use test2_freeclaudecode.MessageTrees.Graph.{
  MessageNode, MessageReferenceKind, prompt_reference, status_reference, MessageTreeGraph,
  clear_found, clear_status, clear_node_status, mark_error, update_state, drop_from, drop_child,
  remove_found, remove_nodes,
}
use test2_freeclaudecode.MessageTrees.Queue.{without}
use test2_freeclaudecode.MessageTrees.Cancel.{clear_owner}
use test2_freeclaudecode.MessageTrees.Sound.{pends, shows, keyed_as}
use test2_freeclaudecode.MessageTrees.Cancelling.{runs}

pub none_of : (o : Option MessageNode) → is_some o ≡ false → o ≡ none
none_of none h = refl
none_of (some node) h = cc

-- What stands under an id before and after.
pub record Trims (affected : Bool) (k : String) (old new : Option MessageNode) : Type 0 where
  pub less : runs new ≡ true → runs old ≡ true
  pub waits : pends new ≡ true → pends old ≡ true
  pub same : affected ≡ false → pends new ≡ pends old
  pub shown : shows old ≡ true → shows new ≡ true
  pub keyed : keyed_as k old ≡ true → keyed_as k new ≡ true
  pub gone : is_some old ≡ false → is_some new ≡ false

abbrev pub TrimsAll : (String → Bool) → MessageTreeGraph → MessageTreeGraph → Type 0
TrimsAll affected g g' =
    (g'.root_id ≡ g.root_id)
    × ((k : String) → Trims (affected k) k (lookup k g.nodes) (lookup k g'.nodes))

pub Trims-refl : (affected : Bool) (k : String) (o : Option MessageNode) → Trims affected k o o
Trims-refl affected k o = record {
  less = λ r. r;
  waits = λ p. p;
  same = λ a. refl;
  shown = λ s. s;
  keyed = λ e. e;
  gone = λ e. e;
}

Trims-trans :
    (affected : Bool) (k : String) (a b c : Option MessageNode)
    → Trims affected k a b
    → Trims affected k b c
    → Trims affected k a c
Trims-trans affected k a b c f g = record {
  less = λ r. f.less (g.less r);
  waits = λ p. f.waits (g.waits p);
  same = λ off. g.same off ∙ f.same off;
  shown = λ s. g.shown (f.shown s);
  keyed = λ e. g.keyed (f.keyed e);
  gone = λ e. g.gone (f.gone e);
}

pub TrimsAll-trans :
    (affected : String → Bool) (g g' last : MessageTreeGraph)
    → TrimsAll affected g g'
    → TrimsAll affected g' last
    → TrimsAll affected g last
TrimsAll-trans affected g g' last (root, f) (root', f') = (
  root' ∙ root,
  λ k.
      Trims-trans (affected k) k (lookup k g.nodes) (lookup k g'.nodes) (lookup k last.nodes) (f k)
        (f' k),
)

-- A node goes.
gone-Trims : (k : String) (o : Option MessageNode) → Trims true k o none
gone-Trims k o = record {
  less = λ r. cc;
  waits = λ p. cc;
  same = λ off. cc;
  shown = λ s. refl;
  keyed = λ e. refl;
  gone = λ e. refl;
}

-- The children of a node do not matter.
pub children-Trims :
    (affected : Bool) (k : String) (node : MessageNode) (children : List String)
    → Trims affected k (some node) (some (record node { children_ids = children }))
children-Trims affected k node children = record {
  less = λ r. r;
  waits = λ p. p;
  same = λ a. refl;
  shown = λ s. s;
  keyed = λ e. e;
  gone = λ e. e;
}

-- A node that does not wait loses its status message, and has failed.
cleared-Trims :
    (affected : Bool) (k : String) (node : MessageNode)
    → runs (some node) ≡ false
    → Trims affected k (some node) (some (clear_node_status node))
unfolding clear_node_status mark_error update_state
cleared-Trims affected k node still = record {
  less = λ r. cc;
  waits = λ p. cc;
  same = λ a. ground (arith, still);
  shown = λ s. refl;
  keyed = λ e. e;
  gone = λ e. e;
}

-- One entry is written.
pub written-Trims :
    (affected : String → Bool) (id : String) (node' : MessageNode) (nodes : Dict String MessageNode)
    → Trims (affected id) id (lookup id nodes) (some node')
    → (k : String) → Trims (affected k) k (lookup k nodes) (lookup k (insert id node' nodes))
written-Trims affected id node' nodes f k =
    rw (lookup-insert id k node' nodes) (elim (Bool-cases (id == k)) [
      | inl same ↦ rw same (
          subst (λ j. Trims (affected j) j (lookup j nodes) (some node'))
            ((string_eq.same_iff id k).0 same) f)
      | inr other ↦ rw other (Trims-refl (affected k) k (lookup k nodes))
    ])

removed-Trims :
    (affected : String → Bool) (id : String) (nodes : Dict String MessageNode)
    → affected id ≡ true
    → (k : String) → Trims (affected k) k (lookup k nodes) (lookup k (remove id nodes))
removed-Trims affected id nodes hit k = rw (lookup-remove id k nodes) (elim (Bool-cases (id == k)) [
  | inl same ↦ rw same (
      subst (λ b. Trims b k (lookup k nodes) none)
        (sym (ap affected (sym ((string_eq.same_iff id k).0 same)) ∙ hit))
        (gone-Trims k (lookup k nodes)))
  | inr other ↦ rw other (Trims-refl (affected k) k (lookup k nodes))
])

drop_from-Trims :
    (affected : String → Bool) (parent : String) (o : Option MessageNode) (id : String)
    (nodes : Dict String MessageNode)
    → lookup parent nodes ≡ o
    → (k : String) → Trims (affected k) k (lookup k nodes) (lookup k (drop_from parent o id nodes))
drop_from-Trims affected parent none id nodes here k = Trims-refl (affected k) k (lookup k nodes)
drop_from-Trims affected parent (some node) id nodes here k =
    written-Trims affected parent (record node { children_ids = without id node.children_ids })
      nodes (rw here (children-Trims (affected parent) parent node (without id node.children_ids)))
      k

drop_child-Trims :
    (affected : String → Bool) (parent : Option String) (id : String)
    (nodes : Dict String MessageNode) (k : String)
    → Trims (affected k) k (lookup k nodes) (lookup k (drop_child parent id nodes))
drop_child-Trims affected none id nodes k = Trims-refl (affected k) k (lookup k nodes)
drop_child-Trims affected (some parent) id nodes k =
    drop_from-Trims affected parent (lookup parent nodes) id nodes refl k

remove_found-TrimsAll :
    (affected : String → Bool) (id : String) (o : Option MessageNode) (g : MessageTreeGraph)
    → affected id ≡ true
    → TrimsAll affected g (remove_found id o g)
unfolding remove_found
remove_found-TrimsAll affected id none g hit =
    (refl, λ k. Trims-refl (affected k) k (lookup k g.nodes))
remove_found-TrimsAll affected id (some node) g hit =
    let nodes = drop_child node.parent_id id g.nodes in
    (
      refl,
      λ k.
          Trims-trans (affected k) k (lookup k g.nodes) (lookup k nodes)
            (lookup k (remove id nodes)) (drop_child-Trims affected node.parent_id id g.nodes k)
            (removed-Trims affected id nodes hit k),
    )

pub remove_nodes-TrimsAll :
    (affected : String → Bool) (ids : List String) (g : MessageTreeGraph)
    → ((k : String) → contains ids k ≡ true → affected k ≡ true)
    → TrimsAll affected g (remove_nodes ids g)
unfolding remove_nodes
remove_nodes-TrimsAll affected [] g hit = (refl, λ k. Trims-refl (affected k) k (lookup k g.nodes))
remove_nodes-TrimsAll affected (id ∷ ids) g hit =
    let g' = remove_found id (lookup id g.nodes) g in
    TrimsAll-trans affected g g' (remove_nodes ids g')
      (remove_found-TrimsAll affected id (lookup id g.nodes) g
        (hit id (ground (arith, string_eq.same_iff id id))))
      (remove_nodes-TrimsAll affected ids g' (λ k c. hit k (ground (arith, c))))

remove_found-gone :
    (id : String) (o : Option MessageNode) (g : MessageTreeGraph)
    → lookup id g.nodes ≡ o
    → is_some (lookup id (remove_found id o g).nodes) ≡ false
unfolding remove_found
remove_found-gone id none g here = rw here refl
remove_found-gone id (some node) g here =
    rw (lookup-remove id id (drop_child node.parent_id id g.nodes))
      (ground (arith, string_eq.same_iff id id))

-- What is removed is gone.
pub remove_nodes-gone :
    (ids : List String) (g : MessageTreeGraph) (k : String)
    → contains ids k ≡ true
    → is_some (lookup k (remove_nodes ids g).nodes) ≡ false
unfolding remove_nodes
remove_nodes-gone [] g k c = cc
remove_nodes-gone (id ∷ ids) g k c =
    let g' = remove_found id (lookup id g.nodes) g in
    elim (Bool-cases (id == k)) [
      | inl same ↦ ((remove_nodes-TrimsAll (contains ids) ids g' (λ j d. d)).1 k).gone (
          subst (λ j. is_some (lookup j g'.nodes) ≡ false) ((string_eq.same_iff id k).0 same)
            (remove_found-gone id (lookup id g.nodes) g refl))
      | inr other ↦ remove_nodes-gone ids g' k (ground (arith, c, other))
    ]

clear_found-TrimsAll :
    (affected : String → Bool) (id : String) (o : Option MessageNode) (g : MessageTreeGraph)
    → lookup id g.nodes ≡ o
    → runs o ≡ false
    → TrimsAll affected g (clear_found id o g)
unfolding clear_found
clear_found-TrimsAll affected id none g here still =
    (refl, λ k. Trims-refl (affected k) k (lookup k g.nodes))
clear_found-TrimsAll affected id (some node) g here still =
    elim (Bool-cases (is_some node.status_message_id)) [
      | inl shown ↦ rw shown (
        refl,
        written-Trims affected id (clear_node_status node) g.nodes
            (rw here (cleared-Trims (affected id) id node still)),
      )
      | inr bare ↦ rw bare (refl, λ k. Trims-refl (affected k) k (lookup k g.nodes))
    ]

-- The status message of the owner, if the removal starts from it.
pub clear_owner-TrimsAll :
    (affected : String → Bool) (kind : MessageReferenceKind) (id : String) (g : MessageTreeGraph)
    → (kind ≡ status_reference → runs (lookup id g.nodes) ≡ false)
    → TrimsAll affected g (clear_owner kind id g)
clear_owner-TrimsAll affected prompt_reference id g still =
    (refl, λ k. Trims-refl (affected k) k (lookup k g.nodes))
clear_owner-TrimsAll affected status_reference id g still =
    unfold clear_status in clear_found-TrimsAll affected id (lookup id g.nodes) g refl (still refl)
