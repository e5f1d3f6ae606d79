-- ===== src/AnthropicStream/Ledger.antt =====
-- `AnthropicStreamLedger` of core/anthropic/streaming/ledger.py: the bookkeeping under each event,
-- and the events of one block. Writing the JSON text of an event changes no state.
use test2_freeclaudecode.Prelude.{
  ℕ, String, Bool, true, false, ◌&&◌, Option, none, some, List, [], ◌∷◌, nat_eq, string_eq, ◌==◌,
  contains, if◌then◌else◌,
}
use test2_freeclaudecode.Prelude.Dict.{lookup, insert}
use test2_freeclaudecode.AnthropicStream.{
  BlockType, thinking, text, tool_use, ContentBlock, thinking_block, text_block, tool_use_block,
  block_type, DeltaType, thinking_delta, text_delta, input_json_delta, Index, StreamBlockState,
  StreamBlockLedger, AnthropicStreamLedger,
}
use test2_freeclaudecode.AnthropicStream.Blocks.{new_blocks, reserve_index}

unfoldable pub new_ledger : String → String → ℕ → AnthropicStreamLedger
new_ledger message_id model input_tokens = record {
  message_id = message_id;
  model = model;
  input_tokens = input_tokens;
  blocks = new_blocks;
  text_parts = [];
  thinking_parts = [];
  open_stack = [];
  content_blocks = [];
  message_started = false;
  message_stopped = false;
  stop_reason = none;
}

-- `if isinstance(text, str) and text: parts.append(text)`
abbrev pub keep_text : String → List String → List String
keep_text t parts = if t == "" then parts else t ∷ parts

abbrev blank_state : ℕ → BlockType → StreamBlockState
blank_state index kind = record {
  index = index;
  kind = kind;
  is_open = true;
  tool_id = "";
  name = "";
  parts = [];
  extra_content = none;
}

-- The state that `_record_block_start` stores.
unfoldable pub start_state : ℕ → ContentBlock → StreamBlockState
start_state index (tool_use_block id name extra) = record (blank_state index tool_use) {
  tool_id = id;
  name = name;
  extra_content = extra;
}
start_state index (text_block t) = record (blank_state index text) { parts = keep_text t [] }
start_state index (thinking_block t) = record (blank_state index thinking) {
  parts = keep_text t [];
}
start_state index block = blank_state index (block_type block)

-- What a start does to the block ledger beside the reservation of its index.
unfoldable pub mark_started : ℕ → ContentBlock → StreamBlockLedger → StreamBlockLedger
mark_started index (text_block t) b = record b { text_index = some index; text_started = true }
mark_started index (thinking_block t) b = record b {
  thinking_index = some index;
  thinking_started = true;
}
mark_started index block b = b

abbrev pub started_text : ContentBlock → List String → List String
started_text (text_block t) parts = keep_text t parts
started_text block parts = parts

abbrev pub started_thinking : ContentBlock → List String → List String
started_thinking (thinking_block t) parts = keep_text t parts
started_thinking block parts = parts

unfoldable pub record_block_start : ℕ → ContentBlock → AnthropicStreamLedger → AnthropicStreamLedger
unfolding start_state mark_started reserve_index
record_block_start index block l = record l {
  blocks = mark_started index block (reserve_index index l.blocks);
  text_parts = started_text block l.text_parts;
  thinking_parts = started_thinking block l.thinking_parts;
  content_blocks = insert index (start_state index block) l.content_blocks;
  open_stack = index ∷ l.open_stack;
}

-- The parts that a delta adds to a block of a type: the ledger reads the field that belongs to the
-- block's type, and a delta of another type has no such field.
abbrev pub delta_part : BlockType → DeltaType → String → List String → List String
delta_part text text_delta content parts = content ∷ parts
delta_part thinking thinking_delta content parts = content ∷ parts
delta_part tool_use input_json_delta content parts = content ∷ parts
delta_part _ _ content parts = parts

abbrev pub only : Bool → List String → List String → List String
only wanted new old = if wanted then new else old

abbrev pub is_text : BlockType → Bool
is_text text = true
is_text _ = false

abbrev pub is_thinking : BlockType → Bool
is_thinking thinking = true
is_thinking _ = false

delta_on :
    ℕ → DeltaType → String → Option StreamBlockState → AnthropicStreamLedger → AnthropicStreamLedger
delta_on index delta content none l = l
delta_on index delta content (some s) l = record l {
  content_blocks =
      insert index (record s { parts = delta_part s.kind delta content s.parts }) l.content_blocks;
  text_parts = only (is_text s.kind) (delta_part s.kind delta content l.text_parts) l.text_parts;
  thinking_parts =
      only (is_thinking s.kind) (delta_part s.kind delta content l.thinking_parts) l.thinking_parts;
}

unfoldable pub record_block_delta :
    Index → DeltaType → String → AnthropicStreamLedger → AnthropicStreamLedger
unfolding delta_on
record_block_delta none delta content l = l
record_block_delta (some index) delta content l =
    delta_on index delta content (lookup index l.content_blocks) l

-- `list.remove(index)` takes the first of the list, which is the deepest of the stack.
abbrev pub remove_deepest : ℕ → List ℕ → List ℕ
remove_deepest index [] = []
remove_deepest index (x ∷ xs) =
    if contains xs index then x ∷ remove_deepest index xs else if x == index then xs else x ∷ xs

unfoldable pub pop_or_remove : ℕ → List ℕ → List ℕ
pop_or_remove index [] = []
pop_or_remove index (x ∷ xs) = if x == index then xs else remove_deepest index (x ∷ xs)

abbrev pub at_index : Index → ℕ → Bool
at_index none i = false
at_index (some j) i = j == i

unfoldable pub clear_active_content_block : StreamBlockState → StreamBlockLedger → StreamBlockLedger
clear_active_content_block s b =
    if is_text s.kind && at_index b.text_index s.index
    then record b { text_started = false }
    else if is_thinking s.kind && at_index b.thinking_index s.index
    then record b { thinking_started = false }
    else b

unfoldable pub close_block :
    ℕ → Option StreamBlockState → AnthropicStreamLedger → AnthropicStreamLedger
unfolding clear_active_content_block
close_block index none l = l
close_block index (some s) l = record l {
  content_blocks = insert index (record s { is_open = false }) l.content_blocks;
  blocks = clear_active_content_block s l.blocks;
}

unfoldable pub record_block_stop : Index → AnthropicStreamLedger → AnthropicStreamLedger
unfolding close_block pop_or_remove
record_block_stop none l = l
record_block_stop (some index) l =
    close_block index (lookup index l.content_blocks)
      (record l { open_stack = pop_or_remove index l.open_stack })
