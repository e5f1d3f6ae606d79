-- ===== src/AnthropicStream/Blocks.antt =====
-- `StreamBlockLedger` of core/anthropic/streaming/ledger.py: indexes and tool states.
use test2_freeclaudecode.Prelude.{
  ℕ, ◌+◌, max, String, true, false, not, ◌||◌, Option, none, some, List, [], ◌∷◌, nat_eq, string_eq,
  ◌==◌, is_some, if◌then◌else◌,
}
use Prim.Native.String.{◌++◌}
use text.Mathlib.Text.{starts_with}
use test2_freeclaudecode.Prelude.Dict.{Dict, lookup, insert}
use test2_freeclaudecode.AnthropicStream.{StreamBlockLedger, ToolBlockState}

abbrev pub new_blocks : StreamBlockLedger
new_blocks = record {
  next_index = 0;
  thinking_index = none;
  text_index = none;
  thinking_started = false;
  text_started = false;
  tool_states = [];
}

unfoldable pub allocate_index : StreamBlockLedger → ℕ × StreamBlockLedger
allocate_index b = (b.next_index, record b { next_index = b.next_index + 1 })

unfoldable pub reserve_index : ℕ → StreamBlockLedger → StreamBlockLedger
reserve_index index b = record b { next_index = max b.next_index (index + 1) }

abbrev pub empty_tool_state : String → ToolBlockState
empty_tool_state name = record {
  block_index = none;
  tool_id = "";
  name = name;
  extra_content = none;
  started = false;
  task_arg_buffer = "";
  task_args_emitted = false;
  pre_start_args = "";
}

abbrev pub or_empty : Option ToolBlockState → ToolBlockState
or_empty none = empty_tool_state ""
or_empty (some state) = state

-- A state that is written to after `ensure_tool_state`.
unfoldable pub update_tool_state :
    ℕ → (ToolBlockState → ToolBlockState) → StreamBlockLedger → StreamBlockLedger
update_tool_state index f b = record b {
  tool_states = insert index (f (or_empty (lookup index b.tool_states))) b.tool_states;
}

unfoldable pub ensure_tool_state : ℕ → StreamBlockLedger → ToolBlockState × StreamBlockLedger
ensure_tool_state index b =
    if is_some (lookup index b.tool_states) then (or_empty (lookup index b.tool_states), b) else (
      empty_tool_state "",
      record b { tool_states = insert index (empty_tool_state "") b.tool_states },
    )

unfoldable pub set_stream_tool_id : ℕ → Option String → StreamBlockLedger → StreamBlockLedger
unfolding update_tool_state
set_stream_tool_id index none b = b
set_stream_tool_id index (some id) b =
    if id == "" then b else update_tool_state index (λ s. record s { tool_id = id }) b

unfoldable pub set_tool_extra_content : ℕ → Option String → StreamBlockLedger → StreamBlockLedger
unfolding update_tool_state
set_tool_extra_content index none b = b
set_tool_extra_content index (some extra) b =
    update_tool_state index (λ s. record s { extra_content = some extra }) b

-- The name that a fragment leaves: a longer form of the name so far replaces it, a prefix of it
-- changes nothing, and any other fragment is appended.
unfoldable pub merge_name : String → String → String
merge_name prev name =
    if prev == "" || starts_with name prev
    then name
    else if not (starts_with prev name)
    then prev ++ name
    else prev

unfoldable pub register_tool_name : ℕ → String → StreamBlockLedger → StreamBlockLedger
unfolding merge_name
register_tool_name index name b =
    let state = or_empty (lookup index b.tool_states) in
    let merged = record state { name = merge_name state.name name } in
    if is_some (lookup index b.tool_states)
    then record b { tool_states = insert index merged b.tool_states }
    else record b { tool_states = insert index (empty_tool_state name) b.tool_states }

-- `json.loads` with the normalisation of `run_in_background` belongs to the JSON library's values:
-- the parameter gives the normalised object of a text, or `none` where it is no JSON object.
module _ (task_object : String → Option String) where
  task_parsed :
      ℕ → ToolBlockState → StreamBlockLedger → Option String → Option String × StreamBlockLedger
  task_parsed index state b none =
      (none, record b { tool_states = insert index state b.tool_states })
  task_parsed index state b (some object) = (
    some object,
    record b {
      tool_states =
          insert index (record state { task_args_emitted = true; task_arg_buffer = "" })
            b.tool_states;
    },
  )

  task_buffered :
      ℕ → String → Option ToolBlockState → StreamBlockLedger → Option String × StreamBlockLedger
  unfolding task_parsed
  task_buffered index args none b = (none, b)
  task_buffered index args (some state) b =
      if state.task_args_emitted
      then (none, b)
      else task_parsed index (record state { task_arg_buffer = state.task_arg_buffer ++ args }) b
          (task_object (state.task_arg_buffer ++ args))

  unfoldable pub buffer_task_args :
      ℕ → String → StreamBlockLedger → Option String × StreamBlockLedger
  unfolding task_buffered
  buffer_task_args index args b = task_buffered index args (lookup index b.tool_states) b

  abbrev or_braces : Option String → String
  or_braces none = "{}"
  or_braces (some object) = object

  -- One state of the loop of `flush_task_arg_buffers`.
  unfoldable pub flush_state : ToolBlockState → Option String × ToolBlockState
  flush_state state =
      if state.task_arg_buffer == "" || state.task_args_emitted then (none, state) else (
        some (or_braces (task_object state.task_arg_buffer)),
        record state { task_args_emitted = true; task_arg_buffer = "" },
      )

  abbrev collect : ℕ → Option String → List (ℕ × String) → List (ℕ × String)
  collect index none results = results
  collect index (some out) results = (index, out) ∷ results

  unfoldable pub flush_states : Dict ℕ ToolBlockState → List (ℕ × String) × Dict ℕ ToolBlockState
  unfolding flush_state
  flush_states [] = ([], [])
  flush_states ((index, state) ∷ states) =
      let (out, state') = flush_state state in
      let (results, states') = flush_states states in
      (collect index out results, (index, state') ∷ states')

  unfoldable pub flush_task_arg_buffers : StreamBlockLedger → List (ℕ × String) × StreamBlockLedger
  unfolding flush_states
  flush_task_arg_buffers b =
      let (results, states) = flush_states b.tool_states in
      (results, record b { tool_states = states })
