-- ===== src/AnthropicStream/TaskArgs.antt =====
-- The arguments of a Task call in `StreamBlockLedger` of core/anthropic/streaming/ledger.py:
-- `buffer_task_args` for each fragment and `flush_task_arg_buffers` at the end.
use Prim.Native.String.{◌++◌}
use test2_freeclaudecode.Prelude.{
  ℕ, ◌≡◌, refl, ap, sym, ◌∙◌, String, true, false, ◌||◌, ◌==◌, Option, none, some, List, [], ◌∷◌,
  Bool-cases, Option-cases, inl, inr, string_eq, nat_eq, distinct, is_some, if◌then◌else◌, arith,
  nat_beq,
}
use test2_freeclaudecode.Prelude.Dict.{lookup, insert, lookup-insert}
use test2_freeclaudecode.AnthropicStream.{ToolBlockState, StreamBlockLedger}
use test2_freeclaudecode.AnthropicStream.Blocks.{
  buffer_task_args, flush_state, flush_task_arg_buffers,
}
use test2_freeclaudecode.AnthropicStream.FlushedArgs.{
  indexes, indexes-insert, lookup-flush_states, lookup-flush_states_after, indexes-flush_states,
  flushed, after_flush,
}

abbrev pub then_sent : Option String → List String → List String
then_sent none sent = sent
then_sent (some out) sent = out ∷ sent

abbrev first_of : Option String → Option String → Option String
first_of none later = later
first_of (some out) later = some out

abbrev object_or_braces : Option String → String
object_or_braces none = "{}"
object_or_braces (some object) = object

module _ (task_object : String → Option String) where
  -- The arguments arrive in parts and are flushed: what is sent for the call, and the ledger left.
  abbrev pub run_task : ℕ → List String → StreamBlockLedger → List String × StreamBlockLedger
  run_task index [] b =
      let (results, b') = flush_task_arg_buffers task_object b in
      (then_sent (lookup index results) [], b')
  run_task index (args ∷ parts) b =
      let (out, b1) = buffer_task_args task_object index args b in
      let (sent, b2) = run_task index parts b1 in (then_sent out sent, b2)

  -- The first object that the parts make from the start on; if they never make one, `{}` for any text
  -- and nothing for the empty one.
  abbrev pub task_arguments : String → List String → Option String
  task_arguments text [] = if text == "" then none else some (object_or_braces (task_object text))
  task_arguments text (args ∷ parts) =
      first_of (task_object (text ++ args)) (task_arguments (text ++ args) parts)

  -- A call that has sent holds no text.
  abbrev IsSettled : ToolBlockState → Type 0
  IsSettled s = s.task_args_emitted ≡ true → s.task_arg_buffer ≡ ""

  -- What is still to be sent for a call.
  abbrev pub awaited : ToolBlockState → List String → Option String
  awaited s parts = if s.task_args_emitted then none else task_arguments s.task_arg_buffer parts

  -- A run sends what is awaited, and leaves no text.
  pub record RunsTask (index : ℕ) (s : ToolBlockState) (parts : List String) (b : StreamBlockLedger)
      : Type 0 where
    pub sends : (run_task index parts b).0 ≡ then_sent (awaited s parts) []
    pub left :
        (s' : ToolBlockState) × (lookup index (run_task index parts b).1.tool_states ≡ some s')
        × (s'.task_arg_buffer ≡ "")
        × (s'.task_args_emitted ≡ (s.task_args_emitted || is_some (awaited s parts)))
    pub others :
        (j : ℕ)
        → nat_beq index j ≡ false
        → lookup j (run_task index parts b).1.tool_states
          ≡ lookup j (flush_task_arg_buffers task_object b).1.tool_states
    pub indexed : indexes (run_task index parts b).1.tool_states ≡ indexes b.tool_states

  flush_state-awaited : (s : ToolBlockState) → (flush_state task_object s).0 ≡ awaited s []
  unfolding flush_state
  flush_state-awaited s = elim (Option-cases (task_object s.task_arg_buffer)) [
    | inl broken ↦ rw broken (ground arith)
    | inr (object, parsed) ↦ rw parsed (ground arith)
  ]

  flush_state-emitted :
      (s : ToolBlockState)
      → (flush_state task_object s).1.task_args_emitted
        ≡ (s.task_args_emitted || is_some (awaited s []))
  unfolding flush_state
  flush_state-emitted s = ground arith

  flush_state-empty :
      (s : ToolBlockState) → IsSettled s → (flush_state task_object s).1.task_arg_buffer ≡ ""
  unfolding flush_state
  flush_state-empty s settled = ground (arith, settled, string_eq.same_iff s.task_arg_buffer "")

  flush-RunsTask :
      (index : ℕ) (s : ToolBlockState) (b : StreamBlockLedger)
      → distinct (indexes b.tool_states) ≡ true
      → lookup index b.tool_states ≡ some s
      → IsSettled s
      → RunsTask index s [] b
  unfolding flush_task_arg_buffers
  flush-RunsTask index s b once here settled = record {
    sends =
        ap (λ o. then_sent o [])
          (lookup-flush_states task_object index b.tool_states once
            ∙ ap (flushed task_object) here
            ∙ flush_state-awaited s);
    left = (
      (flush_state task_object s).1,
      lookup-flush_states_after task_object index b.tool_states ∙ ap (after_flush task_object) here,
      flush_state-empty s settled,
      flush_state-emitted s,
    );
    others = λ j other. refl;
    indexed = indexes-flush_states task_object b.tool_states;
  }

  -- A fragment and what follows it.
  then-RunsTask :
      (index : ℕ) (s s1 : ToolBlockState) (args : String) (parts : List String)
      (b b1 : StreamBlockLedger) (out : Option String)
      → buffer_task_args task_object index args b ≡ (out, b1)
      → RunsTask index s1 parts b1
      → then_sent out (then_sent (awaited s1 parts) []) ≡ then_sent (awaited s (args ∷ parts)) []
      → (s1.task_args_emitted || is_some (awaited s1 parts))
        ≡ (s.task_args_emitted || is_some (awaited s (args ∷ parts)))
      → ((j : ℕ) → nat_beq index j ≡ false → lookup j b1.tool_states ≡ lookup j b.tool_states)
      → indexes b1.tool_states ≡ indexes b.tool_states
      → RunsTask index s (args ∷ parts) b
  unfolding flush_task_arg_buffers
  then-RunsTask index s s1 args parts b b1 out step rest awaits flag same listed =
      let (s', here, empty, emitted) = rest.left in
      record {
        sends = rw step (ap (then_sent out) rest.sends ∙ awaits);
        left = (s', rw step here, empty, emitted ∙ flag);
        others = λ j other. rw step (
            rest.others j other
            ∙ lookup-flush_states_after task_object j b1.tool_states
            ∙ ap (after_flush task_object) (same j other)
            ∙ sym (lookup-flush_states_after task_object j b.tool_states));
        indexed = rw step (rest.indexed ∙ listed);
      }

  buffered-RunsTask :
      (index : ℕ) (s : ToolBlockState) (args : String) (parts : List String) (b : StreamBlockLedger)
      → ((s1 : ToolBlockState) (b1 : StreamBlockLedger)
          → distinct (indexes b1.tool_states) ≡ true
          → lookup index b1.tool_states ≡ some s1
          → IsSettled s1
          → RunsTask index s1 parts b1)
      → distinct (indexes b.tool_states) ≡ true
      → lookup index b.tool_states ≡ some s
      → IsSettled s
      → RunsTask index s (args ∷ parts) b
  unfolding buffer_task_args
  buffered-RunsTask index s args parts b next once here settled =
      let text = s.task_arg_buffer ++ args in
      let write : ToolBlockState → StreamBlockLedger =
        λ s1. record b { tool_states = insert index s1 b.tool_states } in
      let found : is_some (lookup index b.tool_states) ≡ true = ap (λ o. is_some o) here in
      let kept = λ (s1 : ToolBlockState). indexes-insert index s1 b.tool_states found in
      let same = λ (s1 : ToolBlockState) (j : ℕ). lookup-insert index j s1 b.tool_states in
      let follows = λ (s1 : ToolBlockState) (settled1 : IsSettled s1).
        next s1 (write s1) (ap (λ js. distinct js) (kept s1) ∙ once) (ground (arith, same s1 index))
          settled1 in
      elim (Bool-cases s.task_args_emitted) [
        | inl sent ↦
            then-RunsTask index s s args parts b b none (rw (here, sent) refl)
              (next s b once here settled) (rw sent refl) (rw sent refl) (λ j other. refl) refl
        | inr waiting ↦ elim (Option-cases (task_object text)) [
          | inl broken ↦
              let s1 = record s { task_arg_buffer = text } in
              then-RunsTask index s s1 args parts b (write s1) none
                (rw (here, waiting, broken) refl) (follows s1 (λ sent. cc (waiting, sent)))
                (rw (waiting, broken) refl) (rw (waiting, broken) refl)
                (λ j other. ground (arith, same s1 j, other)) (kept s1)
          | inr (object, parsed) ↦
              let s1 = record s { task_args_emitted = true; task_arg_buffer = "" } in
              then-RunsTask index s s1 args parts b (write s1) (some object)
                (rw (here, waiting, parsed) refl) (follows s1 (λ sent. refl))
                (rw (waiting, parsed) refl) (rw (waiting, parsed) refl)
                (λ j other. ground (arith, same s1 j, other)) (kept s1)
        ]
      ]

  runs_task :
      (index : ℕ) (s : ToolBlockState) (parts : List String) (b : StreamBlockLedger)
      → distinct (indexes b.tool_states) ≡ true
      → lookup index b.tool_states ≡ some s
      → IsSettled s
      → RunsTask index s parts b
  runs_task index s [] b once here settled = flush-RunsTask index s b once here settled
  runs_task index s (args ∷ parts) b once here settled =
      buffered-RunsTask index s args parts b (λ s1 b1. runs_task index s1 parts b1) once here
        settled

  -- For a call that has sent nothing, in a ledger that holds each index once: when parts of its
  -- arguments arrive and are then flushed, the call sends the first object that its text makes as the
  -- parts are added to it (with no parts, the object that its text makes). If it makes none, the call
  -- sends `{}` for a text that is not empty, and nothing for the empty one. No text is left, and the
  -- call counts as sent exactly if something was sent. The states of the other calls are those that the
  -- flush alone leaves. Once something was sent, no further parts and flush send anything for the call.
  pub flush_task_arg_buffers-buffer_task_args :
      (index : ℕ) (s : ToolBlockState) (parts : List String) (b : StreamBlockLedger)
      → distinct (indexes b.tool_states) ≡ true
      → lookup index b.tool_states ≡ some s
      → s.task_args_emitted ≡ false
      → RunsTask index s parts b
        × ((more : List String)
            → is_some (task_arguments s.task_arg_buffer parts) ≡ true
            → (run_task index more (run_task index parts b).1).0 ≡ [])
  flush_task_arg_buffers-buffer_task_args index s parts b once here waiting =
      let run = runs_task index s parts b once here (λ sent. cc (waiting, sent)) in
      let (s', found, empty, emitted) = run.left in
      let after = (run_task index parts b).1 in
      (
        run,
        λ more any.
            let sent : s'.task_args_emitted ≡ true = emitted ∙ rw waiting any in
            (runs_task index s' more after (ap (λ js. distinct js) run.indexed ∙ once) found
              (λ _. empty)).sends
            ∙ rw sent refl,
      )
