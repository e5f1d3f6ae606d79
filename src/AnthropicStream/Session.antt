-- ===== src/AnthropicStream/Session.antt =====
-- What the providers do with a stream ledger: the calls of providers/openai_chat/provider.py,
-- providers/openai_chat/tool_calls.py and providers/open_router/client.py, with the guards that
-- these place before them. The proofs are in the modules that follow.
use test2_freeclaudecode.Prelude.{
  ℕ, String, Bool, false, not, Option, none, some, List, [], ◌∷◌, is_some, ◌||◌, ◌&&◌, nat_eq,
}
use test2_freeclaudecode.Prelude.Dict.{lookup}
use test2_freeclaudecode.AnthropicStream.{
  ContentBlock, tool_use_block, redacted_block, input_json_delta, SseEvent, ToolBlockState,
  StreamBlockLedger, AnthropicStreamLedger,
}
use test2_freeclaudecode.AnthropicStream.Blocks.{
  allocate_index, set_stream_tool_id, set_tool_extra_content, register_tool_name,
}
use test2_freeclaudecode.AnthropicStream.Writer.{
  Act, ◌⨾◌, skip, when, write_message_start, write_message_delta, write_message_stop,
  write_block_start, write_block_delta, write_block_stop, ensure_text_block, ensure_thinking_block,
  emit_text_delta, emit_thinking_delta, start_tool_block, emit_tool_delta, close_content_blocks,
  close_all_blocks, tool_blocks, final_stop_reason,
}
use test2_freeclaudecode.AnthropicStream.Contract.{is_blank, is_nil}
use Prim.Native.String.{◌++◌}

-- The calls that `process_tool_call` and the flushes of argument buffers make.
pub data ToolStep : Type 0 where
  set_tool_id : ℕ → Option String → ToolStep
  set_tool_extra : ℕ → Option String → ToolStep
  name_tool : ℕ → String → ToolStep
  open_tool : ℕ → String → String → Option String → ToolStep
  tool_args : ℕ → String → ToolStep

-- What a chunk of the provider's answer makes the response do.
pub data Command : Type 0 where
  say_text say_thinking : String → Command
  begin_thinking end_content : Command
  call_tool : ToolStep → Command
  whole_tool : String → String → String → Command
  redacted : Option String → Command

abbrev pub tool_started : Option ToolBlockState → Bool
tool_started none = false
tool_started (some s) = s.started

abbrev pub tool_runs : ℕ → AnthropicStreamLedger → Bool
tool_runs t l = tool_started (lookup t l.blocks.tool_states)

abbrev pub on_blocks : (StreamBlockLedger → StreamBlockLedger) → Act
on_blocks f l = ([], record l { blocks = f l.blocks })

abbrev pub or_skip : Option (List SseEvent × AnthropicStreamLedger) → Act
or_skip none l = ([], l)
or_skip (some r) l = r

-- A block that is opened, filled and closed at once, on an index of its own.
unfoldable pub whole_block : ContentBlock → (ℕ → Act) → Act
unfolding allocate_index write_block_start write_block_stop
whole_block block fill l =
    let (index, allocated) = allocate_index l.blocks in
    (write_block_start index block ⨾ fill index ⨾ write_block_stop (some index))
      (record l { blocks = allocated })

-- A tool is opened unless it runs, and takes arguments while it runs.
unfoldable pub tool_step : ToolStep → Act
tool_step (set_tool_id t id) = on_blocks (set_stream_tool_id t id)
tool_step (set_tool_extra t extra) = on_blocks (set_tool_extra_content t extra)
tool_step (name_tool t name) = on_blocks (register_tool_name t name)
tool_step (open_tool t id name extra) =
    when (λ l. not (tool_runs t l)) (start_tool_block t id name extra)
tool_step (tool_args t partial) = when (tool_runs t) (λ l. or_skip (emit_tool_delta t partial l) l)

unfoldable pub perform : Command → Act
unfolding tool_step
perform (say_text content) = ensure_text_block ⨾ emit_text_delta content
perform (say_thinking content) = ensure_thinking_block ⨾ emit_thinking_delta content
perform begin_thinking = ensure_thinking_block
perform end_content = close_content_blocks
perform (call_tool step) = tool_step step
perform (whole_tool id name json) =
    close_content_blocks
    ⨾ whole_block (tool_use_block id name none)
        (λ index. write_block_delta (some index) input_json_delta json)
perform (redacted encrypted) =
    close_content_blocks ⨾ whole_block (redacted_block encrypted) (λ index. skip)

unfoldable pub perform_all : List Command → Act
perform_all [] = skip
perform_all (command ∷ commands) = perform command ⨾ perform_all commands

-- The properties `accumulated_text` and `accumulated_reasoning` join parts that stand newest first.
unfoldable pub joined : List String → String
joined [] = ""
joined (part ∷ parts) = joined parts ++ part

abbrev pub has_emitted_tool_block : AnthropicStreamLedger → Bool
has_emitted_tool_block l = not (is_nil (tool_blocks l.content_blocks))

abbrev pub has_content_blocks : AnthropicStreamLedger → Bool
has_content_blocks l =
    is_some l.blocks.text_index || is_some l.blocks.thinking_index || has_emitted_tool_block l

-- A message that has no block, or only reasoning, gets a text block with a space.
unfoldable pub needs_placeholder : AnthropicStreamLedger → Bool
unfolding joined
needs_placeholder l =
    not (has_content_blocks l)
    || (not (has_emitted_tool_block l)
        && is_blank (joined l.text_parts)
        && not (is_blank (joined l.thinking_parts)))

-- The end of a response: the placeholder, the arguments that were held back, and the closing events.
unfoldable pub finish : List Command → String → Option ℕ → Option ℕ → List (String × ℕ) → Act
unfolding needs_placeholder
finish held stop_reason output_tokens input_tokens usage_fields =
    when needs_placeholder (ensure_text_block ⨾ emit_text_delta " ")
    ⨾ perform_all held
    ⨾ close_all_blocks
    ⨾ (λ l.
        write_message_delta (final_stop_reason stop_reason l) output_tokens input_tokens
          usage_fields l)
    ⨾ write_message_stop

-- A response from its first event to its last.
unfoldable pub respond :
    List Command → List Command → String → Option ℕ → Option ℕ → List (String × ℕ) → Act
respond commands held stop_reason output_tokens input_tokens usage_fields =
    write_message_start
    ⨾ perform_all commands
    ⨾ finish held stop_reason output_tokens input_tokens usage_fields
