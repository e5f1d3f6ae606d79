-- ===== src/AnthropicStream/Contract.antt =====
-- `assert_anthropic_stream_contract` of core/anthropic/stream_contracts.py: the shape that a stream
-- of events must have. A failed assertion is `none`.
use Prim.Native.Char.{code}
use test2_freeclaudecode.Prelude.{
  ℕ, String, Bool, true, false, not, ◌&&◌, ◌||◌, Option, none, some, List, [], ◌∷◌, nat_eq, nat_beq,
  leb, contains, is_some, if◌then◌else◌,
}
use test2_freeclaudecode.Prelude.Dict.{Dict, lookup, insert, remove}
use test2_freeclaudecode.AnthropicStream.{
  BlockType, thinking, text, tool_use, unknown_type, ContentBlock, text_block, block_type,
  DeltaType, thinking_delta, signature_delta, text_delta, input_json_delta, SseEvent, message_start,
  message_stop, content_block_start, content_block_delta, content_block_stop, error,
}

-- The code points that `str.strip` takes for white space.
abbrev is_space : ℕ → Bool
is_space c =
    (leb 9 c && leb c 13)
    || (leb 28 c && leb c 32)
    || nat_beq c 133
    || nat_beq c 160
    || nat_beq c 5760
    || (leb 8192 c && leb c 8202)
    || nat_beq c 8232
    || nat_beq c 8233
    || nat_beq c 8239
    || nat_beq c 8287
    || nat_beq c 12288

unfoldable pub is_blank : String → Bool
is_blank String.[] = true
is_blank (String.◌∷◌ c s) = is_space (code c) && is_blank s

-- How an open block is kept: text that came whole in its start event takes no deltas.
pub data Storage : Type 0 where
  plain : BlockType → Storage
  text_eager : Storage

unfoldable pub storage_of : ContentBlock → Storage
unfolding is_blank
storage_of (text_block t) = if is_blank t then plain text else text_eager
storage_of block = plain (block_type block)

abbrev pub is_allowed : BlockType → Bool
is_allowed (unknown_type _) = false
is_allowed _ = true

-- Which deltas an open block takes.
abbrev pub takes : Storage → DeltaType → Bool
takes (plain thinking) thinking_delta = true
takes (plain thinking) signature_delta = true
takes (plain text) text_delta = true
takes (plain tool_use) input_json_delta = true
takes _ _ = false

pub record Check : Type 0 where
  pub open_blocks : Dict ℕ Storage
  pub seen_blocks : List ℕ

abbrev takes_here : Option Storage → DeltaType → Bool
takes_here none delta = false
takes_here (some storage) delta = takes storage delta

unfoldable pub check_event : Bool → SseEvent → Check → Option Check
unfolding storage_of
check_event allow_error (content_block_start index block) c =
    if is_allowed (block_type block)
      && not (is_some (lookup index c.open_blocks))
      && not (contains c.seen_blocks index)
    then some (record {
      open_blocks = insert index (storage_of block) c.open_blocks;
      seen_blocks = index ∷ c.seen_blocks;
    })
    else none
check_event allow_error (content_block_delta none delta content) c = none
check_event allow_error (content_block_delta (some index) delta content) c =
    if takes_here (lookup index c.open_blocks) delta then some c else none
check_event allow_error (content_block_stop none) c = none
check_event allow_error (content_block_stop (some index)) c =
    if is_some (lookup index c.open_blocks)
    then some (record c { open_blocks = remove index c.open_blocks })
    else none
check_event allow_error (error message) c = if allow_error then some c else none
check_event allow_error event c = some c

-- The loop over the events.
unfoldable pub check_events : Bool → List SseEvent → Check → Option Check
check_events allow_error [] c = some c
check_events allow_error (event ∷ events) c = elim (check_event allow_error event c) [
  | none ↦ none
  | some c' ↦ check_events allow_error events c'
]

abbrev pub is_message_start : SseEvent → Bool
is_message_start (message_start _ _ _) = true
is_message_start _ = false

abbrev pub has_message_start : List SseEvent → Bool
has_message_start [] = false
has_message_start (event ∷ events) = is_message_start event || has_message_start events

abbrev pub is_terminal : Bool → SseEvent → Bool
is_terminal allow_error message_stop = true
is_terminal allow_error (error _) = allow_error
is_terminal allow_error _ = false

-- The last event; a stream without events fails.
abbrev pub ends_terminal : Bool → List SseEvent → Bool
ends_terminal allow_error [] = false
ends_terminal allow_error (event ∷ []) = is_terminal allow_error event
ends_terminal allow_error (event ∷ event' ∷ events) = ends_terminal allow_error (event' ∷ events)

abbrev pub is_nil {ℓ} : {A : Type ℓ} → List A → Bool
is_nil [] = true
is_nil (x ∷ xs) = false

abbrev pub closed_up : Option Check → Bool
closed_up none = false
closed_up (some c) = is_nil c.open_blocks && not (is_nil c.seen_blocks)

unfoldable pub stream_contract : Bool → List SseEvent → Bool
unfolding check_events
stream_contract allow_error events =
    has_message_start events
    && ends_terminal allow_error events
    && closed_up (check_events allow_error events (record { open_blocks = []; seen_blocks = [] }))
