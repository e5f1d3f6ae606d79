-- ===== src/MessageTrees/Additions.antt =====
-- What a new entry of the node map adds to the edges and the messages of a tree.
use test2_freeclaudecode.Prelude.{
  ◌≡◌, refl, sym, ap, ◌∙◌, String, Bool, true, false, ◌||◌, none, [], ◌∷◌, ◌==◌, string_eq,
  contains, distinct, arith, Bool-cases, inl, inr,
}
use test2_freeclaudecode.Prelude.Dict.{Dict, lookup, insert}
use test2_freeclaudecode.MessageTrees.Graph.{MessageNode}
use test2_freeclaudecode.MessageTrees.Walk.{reference_children}
use test2_freeclaudecode.MessageTrees.Threads.{
  listed_status, messages, node_message, edges, reference_children-cons, messages-cons,
  messages-Parts, distinct-messages,
}

or_swap : (a b c : Bool) → (a || (b || c)) ≡ (b || (a || c))
or_swap a b c = ground arith

-- A new entry adds its edges and its messages.
pub reference_children-insert_new :
    (id : String) (new : MessageNode) (nodes : Dict String MessageNode) (r k : String)
    → lookup id nodes ≡ none
    → contains (reference_children (insert id new nodes) r) k
      ≡ (contains (edges new r) k || contains (reference_children nodes r) k)
unfolding insert lookup
reference_children-insert_new id new [] r k free = reference_children-cons id new [] r k
reference_children-insert_new id new ((j, w) ∷ nodes) r k free = elim (Bool-cases (j == id)) [
  | inl hit ↦ cc (rw hit at free)
  | inr miss ↦ rw miss (
      reference_children-cons j w (insert id new nodes) r k
      ∙ ap (λ b. contains (edges w r) k || b)
          (reference_children-insert_new id new nodes r k (rw miss at free))
      ∙ or_swap (contains (edges w r) k) (contains (edges new r) k)
          (contains (reference_children nodes r) k)
      ∙ ap (λ b. contains (edges new r) k || b) (sym (reference_children-cons j w nodes r k)))
]

pub messages-insert_new :
    (id : String) (new : MessageNode) (nodes : Dict String MessageNode) (k : String)
    → lookup id nodes ≡ none
    → contains (messages (insert id new nodes)) k
      ≡ (node_message new k || contains (messages nodes) k)
unfolding insert lookup
messages-insert_new id new [] k free = messages-cons id new [] k ∙ ground arith
messages-insert_new id new ((j, w) ∷ nodes) k free = elim (Bool-cases (j == id)) [
  | inl hit ↦ cc (rw hit at free)
  | inr miss ↦ rw miss (
      messages-cons j w (insert id new nodes) k
      ∙ ground
          (arith, messages-cons j w nodes k, messages-insert_new id new nodes k (rw miss at free)))
]

-- A new entry with new messages.
pub distinct-insert_new :
    (id : String) (new : MessageNode) (nodes : Dict String MessageNode)
    → lookup id nodes ≡ none
    → ((k : String) → node_message new k ≡ true → contains (messages nodes) k ≡ false)
    → contains (listed_status new.status_message_id) new.node_id ≡ false
    → distinct (messages nodes) ≡ true
    → distinct (messages (insert id new nodes)) ≡ true
unfolding insert lookup
distinct-insert_new id new [] free apart other d =
    distinct-messages id new []
      (record { rest = refl; own = refl; shown = λ k c. refl; other = other })
distinct-insert_new id new ((j, w) ∷ nodes) free apart other d = elim (Bool-cases (j == id)) [
  | inl hit ↦ cc (rw hit at free)
  | inr miss ↦
      let p = messages-Parts j w nodes d in
      let free' : lookup id nodes ≡ none = rw miss at free in
      let unlike : (k : String)
          → contains (messages ((j, w) ∷ nodes)) k ≡ true
          → node_message new k ≡ false =
        λ k there. elim (Bool-cases (node_message new k)) [
          | inl mine ↦ cc (apart k mine, there)
          | inr not_mine ↦ not_mine
        ] in
      rw miss (
        distinct-messages j w (insert id new nodes) (record {
          rest =
              distinct-insert_new id new nodes free'
                (λ k c. ground (arith, messages-cons j w nodes k, apart k c)) other p.rest;
          own =
              messages-insert_new id new nodes w.node_id free'
              ∙ ground (
                arith,
                p.own,
                unlike w.node_id (ground (arith, string_eq.same_iff w.node_id w.node_id)),
              );
          shown = λ k c.
              messages-insert_new id new nodes k free'
              ∙ ground
                  (arith, p.shown k c, unlike k (ground (arith, messages-cons j w nodes k, c)));
          other = p.other;
        }))
]
