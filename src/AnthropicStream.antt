-- ===== src/AnthropicStream.antt =====
-- core/anthropic/streaming/ledger.py and core/anthropic/stream_contracts.py: the state from which
-- an Anthropic event stream is produced, and the shape that such a stream must have. An event is
-- its name with the fields of its payload, before it is written as JSON.
pub mod Blocks
pub mod Ledger
pub mod Writer
pub mod Contract
pub mod Tracking
mod Agreement
mod Steps
mod Active
mod Running
mod Tools
mod ToolCalls
mod Whole
mod Closing
mod Finish
mod Founded
pub mod Soundness
pub mod Response
mod FlushedArgs
pub mod TaskArgs
pub mod Session
mod Examples
use test2_freeclaudecode.Prelude.{ℕ, String, Option, List, Bool}
use test2_freeclaudecode.Prelude.Dict.{Dict}

-- The `type` of a content block.
pub data BlockType : Type 0 where
  thinking text tool_use redacted_thinking : BlockType
  server_tool_use web_search_tool_result web_fetch_tool_result : BlockType
  unknown_type : String → BlockType

-- The `content_block` of a start event: the fields that `content_block_start` fills for its type.
-- The input of a tool is the empty object, and the optional JSON object beside it is kept as text.
pub data ContentBlock : Type 0 where
  thinking_block : String → ContentBlock
  text_block : String → ContentBlock
  tool_use_block : String → String → Option String → ContentBlock
  redacted_block : Option String → ContentBlock
  plain_block : BlockType → ContentBlock

abbrev pub block_type : ContentBlock → BlockType
block_type (thinking_block _) = thinking
block_type (text_block _) = text
block_type (tool_use_block _ _ _) = tool_use
block_type (redacted_block _) = redacted_thinking
block_type (plain_block t) = t

pub data DeltaType : Type 0 where
  thinking_delta signature_delta text_delta input_json_delta : DeltaType
  unknown_delta : String → DeltaType

-- An index as the ledger keeps it: `none` is -1, the mark of a block that never started.
abbrev pub Index : Type 0
Index = Option ℕ

pub data SseEvent : Type 0 where
  message_start : String → String → ℕ → SseEvent
  message_delta : String → Dict String ℕ → SseEvent
  message_stop : SseEvent
  content_block_start : ℕ → ContentBlock → SseEvent
  content_block_delta : Index → DeltaType → String → SseEvent
  content_block_stop : Index → SseEvent
  error : String → SseEvent
  other_event : String → SseEvent

-- One tool call of the upstream stream.
pub record ToolBlockState : Type 0 where
  pub block_index : Index
  pub tool_id : String
  pub name : String
  pub extra_content : Option String
  pub started : Bool
  pub task_arg_buffer : String
  pub task_args_emitted : Bool
  pub pre_start_args : String

-- One content block of the downstream message. `parts` stand newest first.
pub record StreamBlockState : Type 0 where
  pub index : ℕ
  pub kind : BlockType
  pub is_open : Bool
  pub tool_id : String
  pub name : String
  pub parts : List String
  pub extra_content : Option String

pub record StreamBlockLedger : Type 0 where
  pub next_index : ℕ
  pub thinking_index : Index
  pub text_index : Index
  pub thinking_started : Bool
  pub text_started : Bool
  pub tool_states : Dict ℕ ToolBlockState

-- `open_stack` stands with its top first, and the collected texts newest first.
pub record AnthropicStreamLedger : Type 0 where
  pub message_id : String
  pub model : String
  pub input_tokens : ℕ
  pub blocks : StreamBlockLedger
  pub text_parts : List String
  pub thinking_parts : List String
  pub open_stack : List ℕ
  pub content_blocks : Dict ℕ StreamBlockState
  pub message_started : Bool
  pub message_stopped : Bool
  pub stop_reason : Option String
