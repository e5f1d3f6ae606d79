-- ===== src/AnthropicStream/Examples.antt =====
-- A response of the stream ledger on a concrete turn: reasoning, text and one tool call.
use test2_freeclaudecode.Prelude.{
  nat_eq, string_eq, ◌==◌, if◌then◌else◌, is_some, nat_eq, refl, false, ◌≡◌, true, none, some, List,
  [], ◌∷◌,
}
use test2_freeclaudecode.Prelude.Dict.{lookup, insert}
use test2_freeclaudecode.AnthropicStream.{Option, String, ℕ, StreamBlockLedger, ToolBlockState}
use test2_freeclaudecode.AnthropicStream.Blocks.{
  new_blocks, empty_tool_state, buffer_task_args, flush_task_arg_buffers,
}
use test2_freeclaudecode.AnthropicStream.TaskArgs.{
  RunsTask, run_task, task_arguments, flush_task_arg_buffers-buffer_task_args,
}
use test2_freeclaudecode.AnthropicStream.Tracking.{open_storage, open_as, any_type, active}
use test2_freeclaudecode.AnthropicStream.Writer.{◌⨾◌, write_message_start}
use test2_freeclaudecode.AnthropicStream.Ledger.{new_ledger}
use test2_freeclaudecode.AnthropicStream.Contract.{Check, check_events, stream_contract}
use test2_freeclaudecode.AnthropicStream.Session.{
  call_tool, Command, say_text, say_thinking, name_tool, open_tool, tool_args, perform_all, respond,
}
use test2_freeclaudecode.AnthropicStream.Response.{perform_all-open_blocks, respond-stream_contract}

abbrev turn : List Command
turn =
    say_thinking "the file first"
    ∷ say_text "I read it."
    ∷ call_tool (name_tool 0 "Read")
    ∷ call_tool (open_tool 0 "call_1" "Read" none)
    ∷ call_tool (tool_args 0 "{\"path\": ")
    ∷ []

abbrev held_args : List Command
held_args = call_tool (tool_args 0 "\"a.py\"}") ∷ []

respond-stream_contract_example :
    stream_contract false
      (respond turn held_args "end_turn" (some 12) none [] (new_ledger "msg_1" "model" 7)).0
    ≡ true
respond-stream_contract_example =
    respond-stream_contract turn held_args "msg_1" "model" 7 "end_turn" (some 12) none []

perform_all-open_blocks_example :
    let (events, l) = (write_message_start ⨾ perform_all turn) (new_ledger "msg_1" "model" 7) in
    (c : Check) × (check_events false events (record { open_blocks = []; seen_blocks = [] })
      ≡ some c)
    × ((i : ℕ) → lookup i c.open_blocks ≡ open_storage (lookup i l.content_blocks))
    × ((i : ℕ) → open_as any_type (lookup i l.content_blocks) ≡ true → active l.blocks i ≡ true)
perform_all-open_blocks_example = perform_all-open_blocks turn "msg_1" "model" 7

-- A Task call whose arguments came in part, where one text is an object.
abbrev task_object : String → Option String
task_object text = if text == "{\"prompt\": \"go\"}" then some text else none

abbrev task_call : ToolBlockState
task_call = record (empty_tool_state "Task") {
  block_index = some 0;
  started = true;
  task_arg_buffer = "{\"prompt\": ";
}

abbrev task_blocks : StreamBlockLedger
task_blocks = record new_blocks { tool_states = (0, task_call) ∷ (1, empty_tool_state "Read") ∷ [] }

abbrev parts : List String
parts = "\"go" ∷ "\"}" ∷ []

object_sent : (run_task task_object 0 parts task_blocks).0 ≡ "{\"prompt\": \"go\"}" ∷ []
unfolding flush_task_arg_buffers buffer_task_args lookup insert
object_sent = refl

braces_sent : (run_task task_object 0 [] task_blocks).0 ≡ "{}" ∷ []
unfolding flush_task_arg_buffers lookup
braces_sent = refl

flush_task_arg_buffers-buffer_task_args_example :
    RunsTask task_object 0 task_call parts task_blocks
    × ((more : List String)
        → is_some (task_arguments task_object task_call.task_arg_buffer parts) ≡ true
        → (run_task task_object 0 more (run_task task_object 0 parts task_blocks).1).0 ≡ [])
unfolding lookup
flush_task_arg_buffers-buffer_task_args_example =
    flush_task_arg_buffers-buffer_task_args task_object 0 task_call parts task_blocks refl refl refl
