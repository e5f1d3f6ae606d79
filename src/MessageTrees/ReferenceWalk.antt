-- ===== src/MessageTrees/ReferenceWalk.antt =====
-- The edges of a new message and its status: `add_node` of messaging/trees/graph.py.
use test2_freeclaudecode.Prelude.{
  ℕ, suc, ◌≡◌, ◌⊎◌, sym, ap, ◌∙◌, String, true, false, ◌&&◌, ◌||◌, Option, none, some, [], ◌==◌,
  string_eq, is_some, if◌then◌else◌, contains, arith, Bool-cases, inl, inr,
}
use test2_freeclaudecode.Prelude.Dict.{Dict, lookup, insert, lookup-insert}
use test2_freeclaudecode.MessageTrees.Graph.{MessageNode, MessageTreeGraph, is_id}
use test2_freeclaudecode.MessageTrees.Walk.{reference_children}
use test2_freeclaudecode.MessageTrees.Sound.{keyed_as}
use test2_freeclaudecode.MessageTrees.Threads.{
  listed_status, messages, edges, contains-edges, reference_children-messages,
}
use test2_freeclaudecode.MessageTrees.Additions.{
  reference_children-insert_new, messages-insert_new, distinct-insert_new,
}
use test2_freeclaudecode.MessageTrees.Trimming.{none_of}
use test2_freeclaudecode.MessageTrees.ReferenceTree.{IsThreaded}

module _ (id status reference : String) (new : MessageNode) (g : MessageTreeGraph)
    (h : IsThreaded g) (own : new.node_id ≡ id) (shown : new.status_message_id ≡ some status)
    (to : new.parent_reference_id ≡ some reference) (no_node : is_some (lookup id g.nodes) ≡ false)
    (no_status : is_some (lookup id g.status_to_node) ≡ false)
    (new_status : is_some (lookup status g.status_to_node) ≡ false)
    (no_prompt : is_some (lookup status g.nodes) ≡ false) (apart : (status == id) ≡ false)
    (known : (is_some (lookup reference g.nodes) || is_some (lookup reference g.status_to_node))
      ≡ true)
    (unanswered : reference_children g.nodes id ≡ [])
    (unread : reference_children g.nodes status ≡ []) where
  abbrev nodes : Dict String MessageNode
  nodes = insert id new g.nodes

  abbrev rank : String → ℕ
  rank k =
      if id == k
      then suc (h.rank reference)
      else if status == k
      then suc (suc (h.rank reference))
      else h.rank k

  abbrev parent : String → Option String
  parent k = if id == k then some reference else if status == k then some id else h.parent k

  free : lookup id g.nodes ≡ none
  free = none_of (lookup id g.nodes) no_node

  id_new : contains (messages g.nodes) id ≡ false
  id_new = ground (arith, h.listed id, no_node, no_status)

  status_new : contains (messages g.nodes) status ≡ false
  status_new = ground (arith, h.listed status, new_status, no_prompt)

  reference_old : ((id == reference) ≡ false) × ((status == reference) ≡ false)
  reference_old = (
    ground (arith, known, no_node, no_status, string_eq.same_iff id reference),
    ground (arith, known, new_status, no_prompt, string_eq.same_iff status reference),
  )

  -- An edge that was there joins neither of the new messages.
  old_edge :
      (p c : String)
      → contains (reference_children g.nodes p) c ≡ true
      → (((id == p) ≡ false) × ((status == p) ≡ false))
        × (((id == c) ≡ false) × ((status == c) ≡ false))
  old_edge p c e =
      let there = reference_children-messages g.nodes p c e in
      (
        (
          ground (arith, string_eq.same_iff id p, e, ap (λ cs. contains cs c) unanswered),
          ground (arith, string_eq.same_iff status p, e, ap (λ cs. contains cs c) unread),
        ),
        (
          ground (arith, string_eq.same_iff id c, there, id_new),
          ground (arith, string_eq.same_iff status c, there, status_new),
        ),
      )

  edge_cases :
      (p c : String)
      → contains (reference_children nodes p) c ≡ true
      → ((id ≡ p) × (status ≡ c))
        ⊎ (((reference ≡ p) × (id ≡ c)) ⊎ (contains (reference_children g.nodes p) c ≡ true))
  edge_cases p c e = elim (Bool-cases (contains (reference_children g.nodes p) c)) [
    | inl old ↦ inr (inr old)
    | inr fresh ↦
        let added : contains (edges new p) c ≡ true =
          ground (arith, reference_children-insert_new id new g.nodes p c free, e, fresh) in
        let either : ((id == p && status == c) || (reference == p && id == c)) ≡ true = ground (
          arith,
          contains-edges new p c,
          added,
          ap (λ i. i == p) own,
          ap (λ i. i == c) own,
          ap (λ o. contains (listed_status o) c) shown,
          ap (λ o. is_id o p) to,
        ) in
        elim (Bool-cases (id == p && status == c)) [
          | inl below ↦ inl (
            (string_eq.same_iff id p).0 (ground (arith, below)),
            (string_eq.same_iff status c).0 (ground (arith, below)),
          )
          | inr above ↦ inr (
              inl (
                (string_eq.same_iff reference p).0 (ground (arith, either, above)),
                (string_eq.same_iff id c).0 (ground (arith, either, above)),
              ))
        ]
  ]

  rank_id : rank id ≡ suc (h.rank reference)
  rank_id = ground (arith, string_eq.same_iff id id)

  parent_id : parent id ≡ some reference
  parent_id = ground (arith, string_eq.same_iff id id)

  id_apart : (id == status) ≡ false
  id_apart = ground (arith, apart, string_eq.same_iff id status, string_eq.same_iff status id)

  rank_status : rank status ≡ suc (suc (h.rank reference))
  rank_status = ground (arith, id_apart, string_eq.same_iff status status)

  parent_status : parent status ≡ some id
  parent_status = ground (arith, id_apart, string_eq.same_iff status status)

  rank_reference : rank reference ≡ h.rank reference
  rank_reference = ground (arith, reference_old)

  pub added-IsThreaded :
      IsThreaded (record g { nodes = nodes; status_to_node = insert status id g.status_to_node })
  added-IsThreaded = record {
    rank = rank;
    parent = parent;
    rises = λ p c e. elim (edge_cases p c e) [
      | inl (at, of) ↦ omega (arith, ap rank at, ap rank of, rank_id, rank_status)
      | inr (inl (at, of)) ↦ omega (arith, ap rank at, ap rank of, rank_id, rank_reference)
      | inr (inr old) ↦ ground (arith, h.rises p c old, old_edge p c old)
    ];
    owned = λ p c e. elim (edge_cases p c e) [
      | inl (at, of) ↦ ap parent (sym of) ∙ parent_status ∙ ap some at
      | inr (inl (at, of)) ↦ ap parent (sym of) ∙ parent_id ∙ ap some at
      | inr (inr old) ↦ ground (arith, h.owned p c old, old_edge p c old)
    ];
    once =
        distinct-insert_new id new g.nodes free
          (λ k m. ground (
            arith,
            m,
            ap (λ i. i == k) own,
            ap (λ o. contains (listed_status o) k) shown,
            id_new,
            status_new,
            string_eq.same_iff id k,
            string_eq.same_iff status k,
          ))
          (ap (λ i. contains (listed_status new.status_message_id) i) own
            ∙ ap (λ o. contains (listed_status o) id) shown
            ∙ ground (arith, apart))
          h.once;
    listed = λ k c. ground (
      arith,
      messages-insert_new id new g.nodes k free,
      c,
      h.listed k,
      ap (λ i. i == k) own,
      ap (λ o. contains (listed_status o) k) shown,
      ap (λ o. is_some o) (lookup-insert id k new g.nodes),
      ap (λ o. is_some o) (lookup-insert status k id g.status_to_node),
    );
    keyed = λ k.
        ap (keyed_as k) (lookup-insert id k new g.nodes)
        ∙ ground (arith, h.keyed k, ap (λ i. i == k) own);
  }
