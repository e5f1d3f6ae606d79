-- ===== src/AnthropicStream/Closing.antt =====
-- The calls of a session pass the contract's check, and closing leaves no block open.
use mathlib.Core.Path.{sym, subst}
use test2_freeclaudecode.Prelude.{
  ◌≡◌, refl, String, Bool, true, false, not, none, some, [], nat_eq, arith, Bool-cases, inl, inr,
  if◌then◌else◌,
}
use test2_freeclaudecode.AnthropicStream.{Index, AnthropicStreamLedger}
use test2_freeclaudecode.AnthropicStream.Ledger.{
  record_block_start, record_block_stop, clear_active_content_block, close_block,
}
use test2_freeclaudecode.AnthropicStream.Writer.{
  Act, ◌⨾◌, when, text_running, thinking_running, text_idle, thinking_idle, write_block_start,
  write_block_stop, start_text_block, start_thinking_block, emit_text_delta, emit_thinking_delta,
  stop_text_block, stop_thinking_block, ensure_text_block, ensure_thinking_block,
  close_content_blocks,
}
use test2_freeclaudecode.AnthropicStream.Contract.{Check}
use test2_freeclaudecode.AnthropicStream.Tracking.{Tracks}
use test2_freeclaudecode.AnthropicStream.Steps.{Passes, Passes-skip, Passes-⨾}
use test2_freeclaudecode.AnthropicStream.Active.{
  stop_text-Passes, stop_thinking-Passes, start_text-Passes, start_thinking-Passes,
  emit_text-Passes, emit_thinking-Passes,
}

pub Passes-when :
    (a : Bool) (test : AnthropicStreamLedger → Bool) (act : Act) (l : AnthropicStreamLedger)
    (c : Check)
    → Tracks l c
    → (test l ≡ true → Passes a (act l) c)
    → Passes a (when test act l) c
Passes-when a test act l c t p = elim (Bool-cases (test l)) [
  | inl on ↦ rw on (p on)
  | inr off ↦ rw off (Passes-skip a l c t)
]

not-true : (b : Bool) → not b ≡ true → b ≡ false
not-true b h = ground arith

module _ (l : AnthropicStreamLedger) where
  text_started-start : (start_text_block l).1.blocks.text_started ≡ true
  unfolding start_text_block write_block_start record_block_start
  text_started-start = refl

  thinking_started-start : (start_thinking_block l).1.blocks.thinking_started ≡ true
  unfolding start_thinking_block write_block_start record_block_start
  thinking_started-start = refl

  pub text_started-when : (when text_idle start_text_block l).1.blocks.text_started ≡ true
  unfolding start_text_block
  text_started-when = elim (Bool-cases l.blocks.text_started) [
    | inl on ↦ rw on refl
    | inr off ↦ rw off text_started-start
  ]

  thinking_started-when :
      (when thinking_idle start_thinking_block l).1.blocks.thinking_started ≡ true
  unfolding start_thinking_block
  thinking_started-when = elim (Bool-cases l.blocks.thinking_started) [
    | inl on ↦ rw on refl
    | inr off ↦ rw off thinking_started-start
  ]

-- A stop starts nothing.
text_quiet :
    (idx : Index) (l : AnthropicStreamLedger)
    → l.blocks.text_started ≡ false
    → (write_block_stop idx l).1.blocks.text_started ≡ false
unfolding write_block_stop record_block_stop close_block clear_active_content_block
text_quiet none l h = h
text_quiet (some n) l h = ground (arith, h)

thinking_quiet :
    (idx : Index) (l : AnthropicStreamLedger)
    → l.blocks.thinking_started ≡ false
    → (write_block_stop idx l).1.blocks.thinking_started ≡ false
unfolding write_block_stop record_block_stop close_block clear_active_content_block
thinking_quiet none l h = h
thinking_quiet (some n) l h = ground (arith, h)

module _ (a : Bool) (l : AnthropicStreamLedger) (c : Check) (t : Tracks l c) where
  pub ensure_text-Passes : Passes a (ensure_text_block l) c
  unfolding ensure_text_block
  ensure_text-Passes =
      let m = (when thinking_running stop_thinking_block l).1 in
      Passes-⨾ a (when thinking_running stop_thinking_block) (when text_idle start_text_block) l c
        (Passes-when a thinking_running stop_thinking_block l c t (stop_thinking-Passes a l c t))
        (λ d u.
          Passes-when a text_idle start_text_block m d u
            (λ idle. start_text-Passes a m d u (not-true m.blocks.text_started idle)))

  pub ensure_thinking-Passes : Passes a (ensure_thinking_block l) c
  unfolding ensure_thinking_block
  ensure_thinking-Passes =
      let m = (when text_running stop_text_block l).1 in
      Passes-⨾ a (when text_running stop_text_block) (when thinking_idle start_thinking_block) l c
        (Passes-when a text_running stop_text_block l c t (stop_text-Passes a l c t))
        (λ d u.
          Passes-when a thinking_idle start_thinking_block m d u
            (λ idle. start_thinking-Passes a m d u (not-true m.blocks.thinking_started idle)))

  pub close_content-Passes : Passes a (close_content_blocks l) c
  unfolding close_content_blocks
  close_content-Passes =
      let m = (when thinking_running stop_thinking_block l).1 in
      Passes-⨾ a (when thinking_running stop_thinking_block) (when text_running stop_text_block) l c
        (Passes-when a thinking_running stop_thinking_block l c t (stop_thinking-Passes a l c t))
        (λ d u. Passes-when a text_running stop_text_block m d u (stop_text-Passes a m d u))

  pub say_text-Passes :
      (content : String) → Passes a ((ensure_text_block ⨾ emit_text_delta content) l) c
  say_text-Passes content =
      Passes-⨾ a ensure_text_block (emit_text_delta content) l c ensure_text-Passes (λ d u.
        emit_text-Passes a (ensure_text_block l).1 d u content (
          unfold ensure_text_block in
          text_started-when (when thinking_running stop_thinking_block l).1))

  pub say_thinking-Passes :
      (content : String) → Passes a ((ensure_thinking_block ⨾ emit_thinking_delta content) l) c
  say_thinking-Passes content =
      Passes-⨾ a ensure_thinking_block (emit_thinking_delta content) l c ensure_thinking-Passes
        (λ d u. emit_thinking-Passes a (ensure_thinking_block l).1 d u content (
          unfold ensure_thinking_block in
          thinking_started-when (when text_running stop_text_block l).1))

-- Once the content blocks are closed, neither a text nor a thinking block runs.
thinking_stopped :
    (l : AnthropicStreamLedger)
    → (when thinking_running stop_thinking_block l).1.blocks.thinking_started ≡ false
unfolding stop_thinking_block
thinking_stopped l = elim (Bool-cases l.blocks.thinking_started) [
  | inl on ↦
      subst (λ b. (if b then stop_thinking_block l else ([], l)).1.blocks.thinking_started ≡ false)
        (sym on)
        (thinking_quiet l.blocks.thinking_index
          (record l { blocks = record l.blocks { thinking_started = false } }) refl)
  | inr off ↦
      subst (λ b. (if b then stop_thinking_block l else ([], l)).1.blocks.thinking_started ≡ false)
        (sym off) off
]

text_stopped :
    (l : AnthropicStreamLedger)
    → l.blocks.thinking_started ≡ false
    → let m = (when text_running stop_text_block l).1 in
      (m.blocks.thinking_started ≡ false) × (m.blocks.text_started ≡ false)
unfolding stop_text_block
text_stopped l quiet = elim (Bool-cases l.blocks.text_started) [
  | inl on ↦
      let idle = record l { blocks = record l.blocks { text_started = false } } in
      subst
        (λ b.
          let m = (if b then stop_text_block l else ([], l)).1 in
          (m.blocks.thinking_started ≡ false) × (m.blocks.text_started ≡ false))
        (sym on)
        (thinking_quiet l.blocks.text_index idle quiet, text_quiet l.blocks.text_index idle refl)
  | inr off ↦
      subst
        (λ b.
          let m = (if b then stop_text_block l else ([], l)).1 in
          (m.blocks.thinking_started ≡ false) × (m.blocks.text_started ≡ false))
        (sym off) (quiet, off)
]

pub content_stopped :
    (l : AnthropicStreamLedger)
    → let m = (close_content_blocks l).1 in
      (m.blocks.thinking_started ≡ false) × (m.blocks.text_started ≡ false)
unfolding close_content_blocks
content_stopped l =
    text_stopped (when thinking_running stop_thinking_block l).1 (thinking_stopped l)
