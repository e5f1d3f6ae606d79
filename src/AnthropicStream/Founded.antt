-- ===== src/AnthropicStream/Founded.antt =====
-- A ledger on which a text or a thinking block was started keeps its content blocks.
use test2_freeclaudecode.Prelude.{
  if◌then◌else◌, nat_eq, ℕ, ◌≡◌, refl, String, Bool, true, false, not, ◌&&◌, ◌||◌, Option, none,
  some, List, [], ◌∷◌, arith, Bool-cases, Option-cases, inl, inr, is_some,
}
use test2_freeclaudecode.Prelude.Dict.{Dict, lookup, insert}
use test2_freeclaudecode.AnthropicStream.{
  redacted_block, tool_use_block, thinking_block, text_block, input_json_delta, thinking_delta,
  text_delta, ContentBlock, DeltaType, Index, ToolBlockState, StreamBlockState, StreamBlockLedger,
  AnthropicStreamLedger,
}
use test2_freeclaudecode.AnthropicStream.Contract.{is_nil}
use test2_freeclaudecode.AnthropicStream.Blocks.{
  allocate_index, register_tool_name, set_stream_tool_id, set_tool_extra_content, update_tool_state,
}
use test2_freeclaudecode.AnthropicStream.Ledger.{
  start_state, delta_part, close_block, record_block_start, record_block_delta, record_block_stop,
}
use test2_freeclaudecode.AnthropicStream.Session.{
  ToolStep, tool_step, call_tool, Command, say_text, say_thinking, begin_thinking, end_content,
  set_tool_id, set_tool_extra, name_tool, open_tool, tool_args, whole_tool, redacted, on_blocks,
  or_skip, whole_block, perform, perform_all, tool_runs,
}
use test2_freeclaudecode.AnthropicStream.Writer.{
  started_tool, stop_tools, close_all_blocks, thinking_idle, text_idle, thinking_running,
  text_running, stop_thinking_block, stop_text_block, start_tool_block, start_thinking_block,
  start_text_block, ensure_thinking_block, ensure_text_block, emit_tool_delta, emit_thinking_delta,
  emit_text_delta, close_content_blocks, Act, ◌⨾◌, skip, when, write_block_start, write_block_delta,
  write_block_stop,
}

abbrev pub filled : AnthropicStreamLedger → Bool
filled l = not (is_nil l.content_blocks)

-- An index of a text or of a thinking block stands in the ledger only beside a content block.
abbrev pub founded : AnthropicStreamLedger → Bool
founded l = filled l || (not (is_some l.blocks.text_index) && not (is_some l.blocks.thinking_index))

-- What a method keeps of the two.
abbrev pub Goes : AnthropicStreamLedger → AnthropicStreamLedger → Type 0
Goes l m = (filled l ≡ true → filled m ≡ true) × (founded l ≡ true → founded m ≡ true)

abbrev pub Keeps : Act → Type 0
Keeps f = (l : AnthropicStreamLedger) → Goes l (f l).1

pub Keeps-⨾ : (f g : Act) → Keeps f → Keeps g → Keeps (f ⨾ g)
Keeps-⨾ f g kf kg l = let m = (f l).1 in (λ h. (kg m).0 ((kf l).0 h), λ h. (kg m).1 ((kf l).1 h))

pub Keeps-when : (test : AnthropicStreamLedger → Bool) (f : Act) → Keeps f → Keeps (when test f)
Keeps-when test f kf l = elim (Bool-cases (test l)) [
  | inl on ↦ rw on (kf l)
  | inr off ↦ rw off (λ h. h, λ h. h)
]

pub filled-insert :
    (n : ℕ) (s : StreamBlockState) (blocks : Dict ℕ StreamBlockState)
    → is_nil (insert n s blocks) ≡ false
unfolding insert
filled-insert n s [] = refl
filled-insert n s ((i, r) ∷ blocks) = ground arith

pub filled-start :
    (n : ℕ) (block : ContentBlock) (l : AnthropicStreamLedger)
    → filled (write_block_start n block l).1 ≡ true
unfolding write_block_start record_block_start
filled-start n block l = rw (filled-insert n (start_state n block) l.content_blocks) refl

-- A ledger with a content block keeps both.
pub Goes-filled : (l m : AnthropicStreamLedger) → filled m ≡ true → Goes l m
Goes-filled l m h = (λ _. h, λ _. ground (arith, h))

delta-Goes :
    (n : ℕ) (delta : DeltaType) (content : String) (l : AnthropicStreamLedger)
    (s : Option StreamBlockState)
    → lookup n l.content_blocks ≡ s
    → Goes l (write_block_delta (some n) delta content l).1
unfolding write_block_delta record_block_delta
delta-Goes n delta content l none missing = rw missing (λ h. h, λ h. h)
delta-Goes n delta content l (some s) here =
    rw
      (
        here,
        filled-insert n (record s { parts = delta_part s.kind delta content s.parts })
            l.content_blocks,
      )
      (λ h. refl, λ h. refl)

pub Keeps-delta :
    (idx : Index) (delta : DeltaType) (content : String)
    → Keeps (write_block_delta idx delta content)
Keeps-delta none delta content l = unfold write_block_delta record_block_delta in (λ h. h, λ h. h)
Keeps-delta (some n) delta content l = delta-Goes n delta content l (lookup n l.content_blocks) refl

stop-Goes :
    (n : ℕ) (l : AnthropicStreamLedger) (s : Option StreamBlockState)
    → lookup n l.content_blocks ≡ s
    → Goes l (write_block_stop (some n) l).1
unfolding write_block_stop record_block_stop close_block
stop-Goes n l none missing = rw missing (λ h. h, λ h. h)
stop-Goes n l (some s) here =
    rw (here, filled-insert n (record s { is_open = false }) l.content_blocks)
      (λ h. refl, λ h. refl)

pub Keeps-stop : (idx : Index) → Keeps (write_block_stop idx)
Keeps-stop none l = unfold write_block_stop record_block_stop in (λ h. h, λ h. h)
Keeps-stop (some n) l = stop-Goes n l (lookup n l.content_blocks) refl

Keeps-stop_text : Keeps stop_text_block
unfolding stop_text_block
Keeps-stop_text l =
    Keeps-stop l.blocks.text_index (record l { blocks = record l.blocks { text_started = false } })

Keeps-stop_thinking : Keeps stop_thinking_block
unfolding stop_thinking_block
Keeps-stop_thinking l =
    Keeps-stop l.blocks.thinking_index
      (record l { blocks = record l.blocks { thinking_started = false } })

Keeps-start_text : Keeps start_text_block
unfolding start_text_block
Keeps-start_text l = Goes-filled l (start_text_block l).1 (
    filled-start (allocate_index l.blocks).0 (text_block "") (record l {
      blocks = record (allocate_index l.blocks).1 {
        text_index = some (allocate_index l.blocks).0;
        text_started = true;
      };
    }))

Keeps-start_thinking : Keeps start_thinking_block
unfolding start_thinking_block
Keeps-start_thinking l = Goes-filled l (start_thinking_block l).1 (
    filled-start (allocate_index l.blocks).0 (thinking_block "") (record l {
      blocks = record (allocate_index l.blocks).1 {
        thinking_index = some (allocate_index l.blocks).0;
        thinking_started = true;
      };
    }))

pub Keeps-ensure_text : Keeps ensure_text_block
unfolding ensure_text_block
Keeps-ensure_text =
    Keeps-⨾ (when thinking_running stop_thinking_block) (when text_idle start_text_block)
      (Keeps-when thinking_running stop_thinking_block Keeps-stop_thinking)
      (Keeps-when text_idle start_text_block Keeps-start_text)

Keeps-ensure_thinking : Keeps ensure_thinking_block
unfolding ensure_thinking_block
Keeps-ensure_thinking =
    Keeps-⨾ (when text_running stop_text_block) (when thinking_idle start_thinking_block)
      (Keeps-when text_running stop_text_block Keeps-stop_text)
      (Keeps-when thinking_idle start_thinking_block Keeps-start_thinking)

Keeps-close_content : Keeps close_content_blocks
unfolding close_content_blocks
Keeps-close_content =
    Keeps-⨾ (when thinking_running stop_thinking_block) (when text_running stop_text_block)
      (Keeps-when thinking_running stop_thinking_block Keeps-stop_thinking)
      (Keeps-when text_running stop_text_block Keeps-stop_text)

pub Keeps-emit_text : (content : String) → Keeps (emit_text_delta content)
unfolding emit_text_delta
Keeps-emit_text content l = Keeps-delta l.blocks.text_index text_delta content l

Keeps-emit_thinking : (content : String) → Keeps (emit_thinking_delta content)
unfolding emit_thinking_delta
Keeps-emit_thinking content l = Keeps-delta l.blocks.thinking_index thinking_delta content l

Keeps-start_tool :
    (t : ℕ) (id name : String) (extra : Option String) → Keeps (start_tool_block t id name extra)
unfolding start_tool_block
Keeps-start_tool t id name extra l =
    let (n, allocated) = allocate_index l.blocks in
    Goes-filled l (start_tool_block t id name extra l).1 (
      filled-start n (tool_use_block id name extra) (record l {
        blocks = record allocated {
          tool_states =
              insert t (started_tool n id name extra (lookup t allocated.tool_states))
                allocated.tool_states;
        };
      }))

-- A change of the tool states alone.
Keeps-blocks :
    (f : StreamBlockLedger → StreamBlockLedger)
    → ((b : StreamBlockLedger)
        → ((f b).text_index ≡ b.text_index) × ((f b).thinking_index ≡ b.thinking_index))
    → Keeps (on_blocks f)
Keeps-blocks f same l = let (one, two) = same l.blocks in (λ h. h, λ h. rw (one, two) h)

Keeps-whole :
    (block : ContentBlock) (fill : ℕ → Act)
    → ((n : ℕ) → Keeps (fill n))
    → Keeps (whole_block block fill)
unfolding whole_block
Keeps-whole block fill keep l =
    let (n, allocated) = allocate_index l.blocks in
    let opened = (write_block_start n block (record l { blocks = allocated })).1 in
    let m = (fill n opened).1 in
    Goes-filled l (write_block_stop (some n) m).1 (
      (Keeps-stop (some n) m).0
        ((keep n opened).0 (filled-start n block (record l { blocks = allocated }))))

Keeps-args : (t : ℕ) (partial : String) → Keeps (λ l. or_skip (emit_tool_delta t partial l) l)
unfolding emit_tool_delta
Keeps-args t partial l = elim (Option-cases (lookup t l.blocks.tool_states)) [
  | inl missing ↦ rw (missing, emit_tool_delta) (λ h. h, λ h. h)
  | inr (s, old) ↦ rw (old, emit_tool_delta) (Keeps-delta s.block_index input_json_delta partial l)
]

Keeps-tool_id : (t : ℕ) (id : Option String) → Keeps (on_blocks (set_stream_tool_id t id))
unfolding set_stream_tool_id update_tool_state
Keeps-tool_id t none l = (λ h. h, λ h. h)
Keeps-tool_id t (some id) l =
    Keeps-blocks (set_stream_tool_id t (some id)) (λ b. (ground arith, ground arith)) l

Keeps-tool_extra :
    (t : ℕ) (extra : Option String) → Keeps (on_blocks (set_tool_extra_content t extra))
unfolding set_tool_extra_content update_tool_state
Keeps-tool_extra t none l = (λ h. h, λ h. h)
Keeps-tool_extra t (some extra) l = (λ h. h, λ h. h)

Keeps-name_tool : (t : ℕ) (name : String) → Keeps (on_blocks (register_tool_name t name))
unfolding register_tool_name
Keeps-name_tool t name =
    Keeps-blocks (register_tool_name t name) (λ b. (ground arith, ground arith))

Keeps-tool_step : (step : ToolStep) → Keeps (tool_step step)
unfolding tool_step
Keeps-tool_step (set_tool_id t id) = Keeps-tool_id t id
Keeps-tool_step (set_tool_extra t extra) = Keeps-tool_extra t extra
Keeps-tool_step (name_tool t name) = Keeps-name_tool t name
Keeps-tool_step (open_tool t id name extra) =
    Keeps-when (λ m. not (tool_runs t m)) (start_tool_block t id name extra)
      (Keeps-start_tool t id name extra)
Keeps-tool_step (tool_args t partial) =
    Keeps-when (tool_runs t) (λ m. or_skip (emit_tool_delta t partial m) m) (Keeps-args t partial)

Keeps-perform : (command : Command) → Keeps (perform command)
unfolding perform
Keeps-perform (say_text content) =
    Keeps-⨾ ensure_text_block (emit_text_delta content) Keeps-ensure_text (Keeps-emit_text content)
Keeps-perform (say_thinking content) =
    Keeps-⨾ ensure_thinking_block (emit_thinking_delta content) Keeps-ensure_thinking
      (Keeps-emit_thinking content)
Keeps-perform begin_thinking = Keeps-ensure_thinking
Keeps-perform end_content = Keeps-close_content
Keeps-perform (call_tool step) = Keeps-tool_step step
Keeps-perform (whole_tool id name json) =
    let fill : ℕ → Act = λ index. write_block_delta (some index) input_json_delta json in
    Keeps-⨾ close_content_blocks (whole_block (tool_use_block id name none) fill)
      Keeps-close_content
      (Keeps-whole (tool_use_block id name none) fill
        (λ n. Keeps-delta (some n) input_json_delta json))
Keeps-perform (redacted encrypted) =
    Keeps-⨾ close_content_blocks (whole_block (redacted_block encrypted) (λ index. skip))
      Keeps-close_content
      (Keeps-whole (redacted_block encrypted) (λ index. skip) (λ n l. (λ h. h, λ h. h)))

pub Keeps-perform_all : (commands : List Command) → Keeps (perform_all commands)
unfolding perform_all
Keeps-perform_all [] l = (λ h. h, λ h. h)
Keeps-perform_all (command ∷ commands) l =
    Keeps-⨾ (perform command) (perform_all commands) (Keeps-perform command)
      (Keeps-perform_all commands) l

Keeps-tools : (states : Dict ℕ ToolBlockState) → Keeps (stop_tools states)
unfolding stop_tools
Keeps-tools [] l = (λ h. h, λ h. h)
Keeps-tools ((t, s) ∷ states) l =
    Keeps-⨾ (λ l. if s.started then write_block_stop s.block_index l else ([], l))
      (stop_tools states)
      (Keeps-when (λ l. s.started) (write_block_stop s.block_index) (Keeps-stop s.block_index))
      (Keeps-tools states) l

pub Keeps-close_all : Keeps close_all_blocks
unfolding close_all_blocks
Keeps-close_all =
    Keeps-⨾ close_content_blocks (λ l. stop_tools l.blocks.tool_states l) Keeps-close_content
      (λ l. Keeps-tools l.blocks.tool_states l)
