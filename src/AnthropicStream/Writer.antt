-- ===== src/AnthropicStream/Writer.antt =====
-- `AnthropicStreamLedger` of core/anthropic/streaming/ledger.py: the methods that produce events. A
-- method takes the ledger to the events that it yields and the ledger that it leaves; the events of
-- a method named as an event of the stream have the prefix `write_` here.
use test2_freeclaudecode.Prelude.{
  string_eq, ℕ, String, Bool, true, false, Option, none, some, List, [], ◌∷◌, ◌++◌, nat_eq, not,
  if◌then◌else◌,
}
use test2_freeclaudecode.Prelude.Dict.{Dict, lookup, insert}
use test2_freeclaudecode.AnthropicStream.{
  BlockType, tool_use, ContentBlock, thinking_block, text_block, tool_use_block, DeltaType,
  thinking_delta, text_delta, input_json_delta, Index, SseEvent, message_start, message_delta,
  message_stop, content_block_start, content_block_delta, content_block_stop, ToolBlockState,
  StreamBlockState, AnthropicStreamLedger,
}
use test2_freeclaudecode.AnthropicStream.Blocks.{allocate_index, empty_tool_state}
use test2_freeclaudecode.AnthropicStream.Ledger.{
  record_block_start, record_block_delta, record_block_stop, close_block,
}

abbrev pub Act : Type 0
Act = AnthropicStreamLedger → List SseEvent × AnthropicStreamLedger

-- One method after another.
infixl 30 ◌⨾◌
abbrev pub ◌⨾◌ : Act → Act → Act
◌⨾◌ f g l = let (first, middle) = f l in let (second, last) = g middle in (first ++ second, last)

abbrev pub skip : Act
skip l = ([], l)

abbrev pub when : (AnthropicStreamLedger → Bool) → Act → Act
when test act l = if test l then act l else skip l

unfoldable pub write_message_start : Act
write_message_start l =
    (message_start l.message_id l.model l.input_tokens ∷ [], record l { message_started = true })

-- `usage.update(usage_fields)`
abbrev pub update_usage : List (String × ℕ) → Dict String ℕ → Dict String ℕ
update_usage [] usage = usage
update_usage ((key, value) ∷ fields) usage = update_usage fields (insert key value usage)

abbrev pub or_tokens : Option ℕ → ℕ → ℕ
or_tokens none default = default
or_tokens (some n) default = n

unfoldable pub write_message_delta : String → Option ℕ → Option ℕ → List (String × ℕ) → Act
write_message_delta stop_reason output_tokens input_tokens usage_fields l =
    let usage =
      ("input_tokens", or_tokens input_tokens l.input_tokens)
      ∷ ("output_tokens", or_tokens output_tokens 0)
      ∷ [] in
    (
      message_delta stop_reason (update_usage usage_fields usage) ∷ [],
      record l { stop_reason = some stop_reason },
    )

unfoldable pub write_message_stop : Act
write_message_stop l = (message_stop ∷ [], record l { message_stopped = true })

unfoldable pub write_block_start : ℕ → ContentBlock → Act
write_block_start index block l =
    (content_block_start index block ∷ [], record_block_start index block l)

unfoldable pub write_block_delta : Index → DeltaType → String → Act
write_block_delta index delta content l =
    (content_block_delta index delta content ∷ [], record_block_delta index delta content l)

unfoldable pub write_block_stop : Index → Act
write_block_stop index l = (content_block_stop index ∷ [], record_block_stop index l)

unfoldable pub start_thinking_block : Act
unfolding allocate_index write_block_start
start_thinking_block l =
    let (index, allocated) = allocate_index l.blocks in
    write_block_start index (thinking_block "") (record l {
      blocks = record allocated { thinking_index = some index; thinking_started = true };
    })

unfoldable pub start_text_block : Act
unfolding allocate_index write_block_start
start_text_block l =
    let (index, allocated) = allocate_index l.blocks in
    write_block_start index (text_block "")
      (record l { blocks = record allocated { text_index = some index; text_started = true } })

unfoldable pub emit_thinking_delta : String → Act
unfolding write_block_delta
emit_thinking_delta content l = write_block_delta l.blocks.thinking_index thinking_delta content l

unfoldable pub emit_text_delta : String → Act
unfolding write_block_delta
emit_text_delta content l = write_block_delta l.blocks.text_index text_delta content l

unfoldable pub stop_thinking_block : Act
unfolding write_block_stop
stop_thinking_block l =
    write_block_stop l.blocks.thinking_index
      (record l { blocks = record l.blocks { thinking_started = false } })

unfoldable pub stop_text_block : Act
unfolding write_block_stop
stop_text_block l =
    write_block_stop l.blocks.text_index
      (record l { blocks = record l.blocks { text_started = false } })

abbrev keep_extra : Option String → Option String → Option String
keep_extra none old = old
keep_extra (some extra) old = some extra

-- The tool state that `start_tool_block` leaves.
unfoldable pub started_tool :
    ℕ → String → String → Option String → Option ToolBlockState → ToolBlockState
started_tool block_idx id name extra none = record (empty_tool_state name) {
  block_index = some block_idx;
  tool_id = id;
  extra_content = extra;
  started = true;
}
started_tool block_idx id name extra (some s) = record s {
  block_index = some block_idx;
  tool_id = id;
  name = name;
  extra_content = keep_extra extra s.extra_content;
  started = true;
}

unfoldable pub start_tool_block : ℕ → String → String → Option String → Act
unfolding allocate_index write_block_start started_tool
start_tool_block tool_index id name extra l =
    let (block_idx, allocated) = allocate_index l.blocks in
    let state = started_tool block_idx id name extra (lookup tool_index allocated.tool_states) in
    write_block_start block_idx (tool_use_block id name extra) (record l {
      blocks = record allocated { tool_states = insert tool_index state allocated.tool_states };
    })

-- `none` is the KeyError of a tool that was never seen.
unfoldable pub emit_tool_delta :
    ℕ → String → AnthropicStreamLedger → Option (List SseEvent × AnthropicStreamLedger)
unfolding write_block_delta
emit_tool_delta tool_index partial l = elim (lookup tool_index l.blocks.tool_states) [
  | none ↦ none
  | some s ↦ some (write_block_delta s.block_index input_json_delta partial l)
]

abbrev pub text_running : AnthropicStreamLedger → Bool
text_running l = l.blocks.text_started

abbrev pub thinking_running : AnthropicStreamLedger → Bool
thinking_running l = l.blocks.thinking_started

abbrev pub text_idle : AnthropicStreamLedger → Bool
text_idle l = not l.blocks.text_started

abbrev pub thinking_idle : AnthropicStreamLedger → Bool
thinking_idle l = not l.blocks.thinking_started

unfoldable pub ensure_thinking_block : Act
ensure_thinking_block = when text_running stop_text_block ⨾ when thinking_idle start_thinking_block

unfoldable pub ensure_text_block : Act
ensure_text_block = when thinking_running stop_thinking_block ⨾ when text_idle start_text_block

unfoldable pub close_content_blocks : Act
close_content_blocks = when thinking_running stop_thinking_block ⨾ when text_running stop_text_block

-- The loop over the tool states, which are copied first; a stop reads its block index again, and no
-- stop changes one.
unfoldable pub stop_tools : Dict ℕ ToolBlockState → Act
unfolding write_block_stop
stop_tools [] = skip
stop_tools ((tool_index, s) ∷ states) =
    (λ l. if s.started then write_block_stop s.block_index l else ([], l)) ⨾ stop_tools states

unfoldable pub close_all_blocks : Act
unfolding stop_tools
close_all_blocks = close_content_blocks ⨾ λ l. stop_tools l.blocks.tool_states l

-- The loop that pops the stack, until it is empty.
unfoldable pub close_stack : List ℕ → Act
close_stack [] l = ([], record l { open_stack = [] })
close_stack (index ∷ stack) l =
    let (events, last) =
      close_stack stack
        (close_block index (lookup index l.content_blocks) (record l { open_stack = stack })) in
    (content_block_stop (some index) ∷ events, last)

unfoldable pub close_unclosed_blocks : Act
unfolding close_stack
close_unclosed_blocks l = close_stack l.open_stack l

abbrev is_tool : BlockType → Bool
is_tool tool_use = true
is_tool _ = false

unfoldable pub tool_blocks : Dict ℕ StreamBlockState → List StreamBlockState
tool_blocks [] = []
tool_blocks ((index, s) ∷ blocks) =
    let rest = tool_blocks blocks in if is_tool s.kind then s ∷ rest else rest

unfoldable pub final_stop_reason : String → AnthropicStreamLedger → String
unfolding tool_blocks
final_stop_reason fallback l = elim (tool_blocks l.content_blocks) [
  | [] ↦ fallback
  | _ ∷ _ ↦ "tool_use"
]
