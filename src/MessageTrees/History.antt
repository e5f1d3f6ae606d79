-- ===== src/MessageTrees/History.antt =====
-- A tree of messages through any sequence of changes.
use mathlib.Core.Path.{ap, subst}
use test2_freeclaudecode.Prelude.{
  ◌∙◌, ◌≡◌, refl, sym, String, false, ◌&&◌, Option, none, some, List, [], ◌∷◌, string_eq, is_some,
  arith, Bool-cases, Option-cases, ◌↔◌, inl, inr, some_injective,
}
use test2_freeclaudecode.Prelude.Dict.{Dict, lookup}
use test2_freeclaudecode.MessageTrees.Graph.{
  is_id, status_entry, MessageScope, MessageNode, MessageTreeGraph, add_node, clear_status,
  remove_nodes, new_graph,
}
use test2_freeclaudecode.MessageTrees.References.{
  status_of, IsLinked, IsLinkedGraph, add_node-IsLinked, clear_found-IsLinked,
  remove_nodes-IsLinked,
}

root-IsLinked :
    (root : MessageNode) (o : Option String)
    → root.status_message_id ≡ o
    → is_id o root.node_id ≡ false
    → IsLinked ((root.node_id, root) ∷ []) (status_entry o root.node_id)
unfolding lookup
root-IsLinked root none shown fine = record {
  owns = λ s n e. cc;
  listed = λ n s e. ground (arith, shown);
  apart = λ s. refl;
}
root-IsLinked root (some t) shown fine = record {
  owns = λ s n e. ground (arith, shown, string_eq.same_iff t s, string_eq.same_iff root.node_id n);
  listed =
      λ n s e. ground (arith, shown, string_eq.same_iff t s, string_eq.same_iff root.node_id n);
  apart = λ s. ground (
    arith,
    string_eq.same_iff t s,
    string_eq.same_iff root.node_id s,
    string_eq.same_iff t root.node_id,
  );
}

new_graph-IsLinked :
    (root : MessageNode) (g : MessageTreeGraph) → new_graph root ≡ some g → IsLinkedGraph g
unfolding new_graph
new_graph-IsLinked root g e = elim (Bool-cases (is_id root.status_message_id root.node_id)) [
  | inl clash ↦ cc (rw clash at e)
  | inr fine ↦
      subst IsLinkedGraph (some_injective (rw fine at e))
        (root-IsLinked root root.status_message_id refl fine)
]

abbrev nodes_of : Option MessageTreeGraph → Dict String MessageNode
nodes_of none = []
nodes_of (some g) = g.nodes

pub new_graph-nodes :
    (root : MessageNode) (g : MessageTreeGraph)
    → new_graph root ≡ some g
    → g.nodes ≡ (root.node_id, root) ∷ []
unfolding new_graph
new_graph-nodes root g e = elim (Bool-cases (is_id root.status_message_id root.node_id)) [
  | inl own ↦ cc (rw own at e)
  | inr other ↦ sym (ap nodes_of e) ∙ rw other refl
]

-- A change of a tree; an addition that is refused leaves the tree as it was.
pub data Change : Type 0 where
  add_change : String → MessageScope → String → String → String → String → Change
  clear_change : String → Change
  remove_change : List String → Change

abbrev pub or_same : Option MessageTreeGraph → MessageTreeGraph → MessageTreeGraph
or_same none g = g
or_same (some g') g = g'

abbrev pub after_change : Change → MessageTreeGraph → MessageTreeGraph
after_change (add_change id scope prompt status parent reference) g =
    or_same (add_node id scope prompt status parent reference g) g
after_change (clear_change id) g = clear_status id g
after_change (remove_change ids) g = remove_nodes ids g

unfoldable pub after_changes : List Change → MessageTreeGraph → MessageTreeGraph
after_changes [] g = g
after_changes (change ∷ changes) g = after_changes changes (after_change change g)

after_change-IsLinked :
    (change : Change) (g : MessageTreeGraph)
    → IsLinkedGraph g
    → IsLinkedGraph (after_change change g)
after_change-IsLinked (add_change id scope prompt status parent reference) g h =
    elim (Option-cases (add_node id scope prompt status parent reference g)) [
      | inl refused ↦ subst (λ o. IsLinkedGraph (or_same o g)) (sym refused) h
      | inr (after, added) ↦
          subst (λ o. IsLinkedGraph (or_same o g)) (sym added)
            (add_node-IsLinked id scope prompt status parent reference g after h added)
    ]
after_change-IsLinked (clear_change id) g h =
    unfold clear_status in clear_found-IsLinked id (lookup id g.nodes) g refl h
after_change-IsLinked (remove_change ids) g h = remove_nodes-IsLinked ids g h

after_changes-linked :
    (changes : List Change) (g : MessageTreeGraph)
    → IsLinkedGraph g
    → IsLinkedGraph (after_changes changes g)
unfolding after_changes
after_changes-linked [] g h = h
after_changes-linked (change ∷ changes) g h =
    after_changes-linked changes (after_change change g) (after_change-IsLinked change g h)

-- In a tree that is made from a root and then changed by additions, clearings and removals, whether
-- they are accepted or not, the status index is exact: a status message is listed for a node when
-- that node is in the tree and shows it, and only then. No message is a prompt and a status at once.
pub after_changes-IsLinked :
    (root : MessageNode) (g : MessageTreeGraph) (changes : List Change)
    → new_graph root ≡ some g
    → let after = after_changes changes g in
      ((s n : String)
        → (lookup s after.status_to_node ≡ some n) ↔ (status_of (lookup n after.nodes) ≡ some s))
      × ((s : String)
          → (is_some (lookup s after.status_to_node) && is_some (lookup s after.nodes)) ≡ false)
after_changes-IsLinked root g changes e =
    let h = after_changes-linked changes g (new_graph-IsLinked root g e) in
    (λ s n. (h.owns s n, h.listed n s), h.apart)
