-- ===== src/MessageTrees/Thinning.antt =====
-- How changes of the node map thin the edges and the messages of a tree, or add to them.
use mathlib.Core.Path.{subst}
use test2_freeclaudecode.Prelude.{
  some_injective, ◌≡◌, refl, sym, ap, ◌∙◌, String, true, false, ◌||◌, none, some, [], ◌∷◌, ◌==◌,
  string_eq, contains, distinct, arith, Bool-cases, inl, inr,
}
use test2_freeclaudecode.Prelude.Dict.{Dict, lookup, insert, remove}
use test2_freeclaudecode.MessageTrees.Graph.{MessageNode, is_id}
use test2_freeclaudecode.MessageTrees.Walk.{reference_children}
use test2_freeclaudecode.MessageTrees.Threads.{
  listed_status, messages, node_message, contains-edges, reference_children-cons, messages-cons,
  Parts, messages-Parts, distinct-messages,
}

-- Fewer edges and fewer messages.
pub record Thins (nodes nodes' : Dict String MessageNode) : Type 0 where
  pub edge :
      (r k : String)
      → contains (reference_children nodes' r) k ≡ true
      → contains (reference_children nodes r) k ≡ true
  pub message :
      (k : String) → contains (messages nodes') k ≡ true → contains (messages nodes) k ≡ true
  pub once : distinct (messages nodes) ≡ true → distinct (messages nodes') ≡ true

-- A node that may have lost its status.
pub record Shrinks (node node' : MessageNode) : Type 0 where
  pub id : node'.node_id ≡ node.node_id
  pub reference : node'.parent_reference_id ≡ node.parent_reference_id
  pub status :
      (k : String)
      → contains (listed_status node'.status_message_id) k ≡ true
      → contains (listed_status node.status_message_id) k ≡ true

pub Thins-refl : (nodes : Dict String MessageNode) → Thins nodes nodes
Thins-refl nodes = record { edge = λ r k h. h; message = λ k h. h; once = λ d. d }

-- The first entry shrinks and the others are thinned.
cons-Thins :
    (id : String) (node node' : MessageNode) (nodes nodes' : Dict String MessageNode)
    → Shrinks node node'
    → Thins nodes nodes'
    → Thins ((id, node) ∷ nodes) ((id, node') ∷ nodes')
cons-Thins id node node' nodes nodes' s t = record {
  edge = λ r k h. ground (
    arith,
    h,
    reference_children-cons id node' nodes' r k,
    reference_children-cons id node nodes r k,
    contains-edges node' r k,
    contains-edges node r k,
    ap (λ i. i == r) s.id,
    ap (λ i. i == k) s.id,
    ap (λ o. is_id o r) s.reference,
    s.status k,
    t.edge r k,
  );
  message = λ k h. ground (
    arith,
    h,
    messages-cons id node' nodes' k,
    messages-cons id node nodes k,
    ap (λ i. i == k) s.id,
    s.status k,
    t.message k,
  );
  once = λ d.
      let p = messages-Parts id node nodes d in
      distinct-messages id node' nodes' (record {
        rest = t.once p.rest;
        own =
            ground
              (arith, ap (λ i. contains (messages nodes') i) s.id, t.message node.node_id, p.own);
        shown = λ k c. ground (arith, s.status k c, p.shown k, t.message k);
        other = ground (
          arith,
          ap (λ i. contains (listed_status node'.status_message_id) i) s.id,
          s.status node.node_id,
          p.other,
        );
      });
}

drop-Thins :
    (id : String) (node : MessageNode) (nodes nodes' : Dict String MessageNode)
    → Thins nodes nodes'
    → Thins ((id, node) ∷ nodes) nodes'
drop-Thins id node nodes nodes' t = record {
  edge = λ r k h. ground (arith, reference_children-cons id node nodes r k, t.edge r k h);
  message = λ k h. ground (arith, messages-cons id node nodes k, t.message k h);
  once = λ d. t.once (messages-Parts id node nodes d).rest;
}

Shrinks-refl : (node : MessageNode) → Shrinks node node
Shrinks-refl node = record { id = refl; reference = refl; status = λ k c. c }

pub remove-Thins : (id : String) (nodes : Dict String MessageNode) → Thins nodes (remove id nodes)
unfolding remove
remove-Thins id [] = Thins-refl []
remove-Thins id ((j, w) ∷ nodes) = elim (Bool-cases (j == id)) [
  | inl same ↦ rw same (drop-Thins j w nodes (remove id nodes) (remove-Thins id nodes))
  | inr other ↦
      rw other (cons-Thins j w w nodes (remove id nodes) (Shrinks-refl w) (remove-Thins id nodes))
]

pub insert-Thins :
    (id : String) (node node' : MessageNode) (nodes : Dict String MessageNode)
    → lookup id nodes ≡ some node
    → Shrinks node node'
    → Thins nodes (insert id node' nodes)
unfolding insert lookup
insert-Thins id node node' [] here s = cc
insert-Thins id node node' ((j, w) ∷ nodes) here s = elim (Bool-cases (j == id)) [
  | inl same ↦
      let first : w ≡ node = some_injective (rw same at here) in
      rw same (
        cons-Thins j w node' nodes nodes (subst (λ v. Shrinks v node') (sym first) s)
          (Thins-refl nodes))
  | inr other ↦ rw other (
      cons-Thins j w w nodes (insert id node' nodes) (Shrinks-refl w)
        (insert-Thins id node node' nodes (rw other at here) s))
]

found-messages :
    (id : String) (node : MessageNode) (nodes : Dict String MessageNode) (k : String)
    → lookup id nodes ≡ some node
    → node_message node k ≡ true
    → contains (messages nodes) k ≡ true
unfolding lookup
found-messages id node [] k here own = cc
found-messages id node ((j, w) ∷ nodes) k here own = elim (Bool-cases (j == id)) [
  | inl hit ↦
      let first : w ≡ node = some_injective (rw hit at here) in
      ground (arith, messages-cons j w nodes k, ap (λ v. node_message v k) first, own)
  | inr miss ↦
      ground
        (arith, messages-cons j w nodes k, found-messages id node nodes k (rw miss at here) own)
]

-- The messages of the first entry are those of no other.
Parts-apart :
    (w : MessageNode) (nodes : Dict String MessageNode) (k : String)
    → Parts w nodes
    → node_message w k ≡ true
    → contains (messages nodes) k ≡ false
Parts-apart w nodes k p own = ground (arith, own, p.own, p.shown k, string_eq.same_iff w.node_id k)

Parts-other :
    (w : MessageNode) (nodes : Dict String MessageNode) (k : String)
    → Parts w nodes
    → contains (messages nodes) k ≡ true
    → node_message w k ≡ false
Parts-other w nodes k p there = elim (Bool-cases (node_message w k)) [
  | inl own ↦ cc (Parts-apart w nodes k p own, there)
  | inr other ↦ other
]

-- A status that its node loses is no message any more.
pub insert-hides :
    (id status : String) (node node' : MessageNode) (nodes : Dict String MessageNode)
    → lookup id nodes ≡ some node
    → node.status_message_id ≡ some status
    → node'.node_id ≡ node.node_id
    → node'.status_message_id ≡ none
    → distinct (messages nodes) ≡ true
    → contains (messages (insert id node' nodes)) status ≡ false
unfolding insert lookup
insert-hides id status node node' [] here shown same hidden d = cc
insert-hides id status node node' ((j, w) ∷ nodes) here shown same hidden d =
    let p = messages-Parts j w nodes d in
    elim (Bool-cases (j == id)) [
      | inl hit ↦
          let first : w ≡ node = some_injective (rw hit at here) in
          let on : contains (listed_status w.status_message_id) status ≡ true =
            ap (λ v. contains (listed_status v.status_message_id) status) first
            ∙ ap (λ o. contains (listed_status o) status) shown
            ∙ ground (arith, string_eq.same_iff status status) in
          rw hit (
            messages-cons j node' nodes status
            ∙ ground (
              arith,
              ap (λ i. i == status) (same ∙ ap (λ v. v.node_id) (sym first)),
              on,
              p.other,
              string_eq.same_iff w.node_id status,
              ap (λ o. contains (listed_status o) status) hidden,
              p.shown status,
            ))
      | inr miss ↦ rw miss (
          messages-cons j w (insert id node' nodes) status
          ∙ ground (
            arith,
            insert-hides id status node node' nodes (rw miss at here) shown same hidden p.rest,
            Parts-other w nodes status p (
                found-messages id node nodes status (rw miss at here) (
                  ground (
                    arith,
                    ap (λ o. contains (listed_status o) status) shown,
                    string_eq.same_iff status status,
                  ))),
          ))
    ]

-- A removed node's messages are gone.
pub remove-gone :
    (id : String) (node : MessageNode) (nodes : Dict String MessageNode) (k : String)
    → lookup id nodes ≡ some node
    → distinct (messages nodes) ≡ true
    → (node.node_id == k || contains (listed_status node.status_message_id) k) ≡ true
    → contains (messages (remove id nodes)) k ≡ false
unfolding remove lookup
remove-gone id node [] k here d own = cc
remove-gone id node ((j, w) ∷ nodes) k here d own =
    let p = messages-Parts j w nodes d in
    elim (Bool-cases (j == id)) [
      | inl hit ↦
          let first : w ≡ node = some_injective (rw hit at here) in
          rw hit (
            ground (
              arith,
              (remove-Thins id nodes).message k,
              Parts-apart w nodes k p (ap (λ v. node_message v k) first ∙ own),
            ))
      | inr miss ↦ rw miss (
          messages-cons j w (remove id nodes) k
          ∙ ground (
            arith,
            remove-gone id node nodes k (rw miss at here) p.rest own,
            Parts-other w nodes k p (found-messages id node nodes k (rw miss at here) own),
          ))
    ]
