-- ===== src/AnthropicStream/FlushedArgs.antt =====
-- The tool states of `StreamBlockLedger` (core/anthropic/streaming/ledger.py) by their indexes, and
-- each of them through the loop of `flush_task_arg_buffers`.
use test2_freeclaudecode.Prelude.{
  ℕ, ◌≡◌, refl, ap, String, true, false, ◌==◌, Option, none, some, List, [], ◌∷◌, Bool-cases,
  Option-cases, inl, inr, string_eq, nat_eq, contains, distinct, is_some, arith,
}
use test2_freeclaudecode.Prelude.Dict.{Dict, lookup, insert}
use test2_freeclaudecode.AnthropicStream.{ToolBlockState}
use test2_freeclaudecode.AnthropicStream.Blocks.{flush_state, flush_states}

abbrev pub indexes : Dict ℕ ToolBlockState → List ℕ
indexes [] = []
indexes ((index, s) ∷ states) = index ∷ indexes states

indexes-contains :
    (index : ℕ) (states : Dict ℕ ToolBlockState)
    → contains (indexes states) index ≡ is_some (lookup index states)
unfolding lookup
indexes-contains index [] = refl
indexes-contains index ((j, s) ∷ states) = ground (arith, indexes-contains index states)

-- A write to a state that is there keeps the indexes.
pub indexes-insert :
    (index : ℕ) (s : ToolBlockState) (states : Dict ℕ ToolBlockState)
    → is_some (lookup index states) ≡ true
    → indexes (insert index s states) ≡ indexes states
unfolding lookup insert
indexes-insert index s [] h = cc
indexes-insert index s ((j, r) ∷ states) h = elim (Bool-cases (j == index)) [
  | inl here ↦ rw here refl
  | inr other ↦ rw other (ap (λ js. j ∷ js) (indexes-insert index s states (rw other at h)))
]

module _ (task_object : String → Option String) where
  abbrev pub flushed : Option ToolBlockState → Option String
  flushed none = none
  flushed (some s) = (flush_state task_object s).0

  abbrev pub after_flush : Option ToolBlockState → Option ToolBlockState
  after_flush none = none
  after_flush (some s) = some (flush_state task_object s).1

  lookup-flush_states-none :
      (index : ℕ) (states : Dict ℕ ToolBlockState)
      → contains (indexes states) index ≡ false
      → lookup index (flush_states task_object states).0 ≡ none
  unfolding flush_states lookup
  lookup-flush_states-none index [] h = refl
  lookup-flush_states-none index ((j, s) ∷ states) h =
      let rest = lookup-flush_states-none index states (ground (arith, h)) in
      elim (Option-cases (flush_state task_object s).0) [
        | inl quiet ↦ rw quiet rest
        | inr (out, sent) ↦ rw sent (ground (arith, h, rest))
      ]

  pub lookup-flush_states :
      (index : ℕ) (states : Dict ℕ ToolBlockState)
      → distinct (indexes states) ≡ true
      → lookup index (flush_states task_object states).0 ≡ flushed (lookup index states)
  unfolding flush_states lookup
  lookup-flush_states index [] h = refl
  lookup-flush_states index ((j, s) ∷ states) h = elim (Bool-cases (j == index)) [
    | inl here ↦
        let none_later =
          lookup-flush_states-none index states
            (ground (arith, h, nat_eq.same_iff j index, here)) in
        elim (Option-cases (flush_state task_object s).0) [
          | inl quiet ↦ rw (here, quiet) none_later
          | inr (out, sent) ↦ rw (here, sent) (rw here refl)
        ]
    | inr other ↦
        let later = lookup-flush_states index states (ground (arith, h)) in
        elim (Option-cases (flush_state task_object s).0) [
          | inl quiet ↦ rw (other, quiet) later
          | inr (out, sent) ↦ rw (other, sent) (rw other later)
        ]
  ]

  pub lookup-flush_states_after :
      (index : ℕ) (states : Dict ℕ ToolBlockState)
      → lookup index (flush_states task_object states).1 ≡ after_flush (lookup index states)
  unfolding flush_states lookup
  lookup-flush_states_after index [] = refl
  lookup-flush_states_after index ((j, s) ∷ states) = elim (Bool-cases (j == index)) [
    | inl here ↦ rw here refl
    | inr other ↦ rw other (lookup-flush_states_after index states)
  ]

  pub indexes-flush_states :
      (states : Dict ℕ ToolBlockState)
      → indexes (flush_states task_object states).1 ≡ indexes states
  unfolding flush_states
  indexes-flush_states [] = refl
  indexes-flush_states ((j, s) ∷ states) = ap (λ js. j ∷ js) (indexes-flush_states states)
