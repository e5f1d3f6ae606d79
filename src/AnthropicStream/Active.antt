-- ===== src/AnthropicStream/Active.antt =====
-- The methods on the text and thinking blocks pass the contract's check.
use mathlib.Core.Path.{sym, subst}
use native.Mathlib.Nat.{le_refl}
use test2_freeclaudecode.Prelude.{
  max, Option-cases, ℕ, ◌+◌, ◌≡◌, refl, String, Bool, true, false, none, some, nat_eq, arith, inl,
  inr,
}
use test2_freeclaudecode.Prelude.Dict.{Dict, lookup, insert}
use test2_freeclaudecode.AnthropicStream.{
  BlockType, text, thinking, text_block, thinking_block, Index, text_delta, thinking_delta,
  StreamBlockState, StreamBlockLedger, AnthropicStreamLedger,
}
use test2_freeclaudecode.AnthropicStream.Ledger.{
  is_text, is_thinking, clear_active_content_block, start_state, mark_started,
}
use test2_freeclaudecode.AnthropicStream.Blocks.{allocate_index, reserve_index}
use test2_freeclaudecode.AnthropicStream.Writer.{
  write_block_stop, write_block_delta, start_text_block, start_thinking_block, emit_text_delta,
  emit_thinking_delta, stop_text_block, stop_thinking_block,
}
use test2_freeclaudecode.AnthropicStream.Contract.{Check, storage_of}
use test2_freeclaudecode.AnthropicStream.Tracking.{Tracks, Running, open_at}
use test2_freeclaudecode.AnthropicStream.Running.{
  Running-start_text, Running-start_thinking, Running-stop_text, Running-stop_thinking,
}
use test2_freeclaudecode.AnthropicStream.Steps.{Passes, start-Passes, delta-Passes, stop-Passes}

-- The block that is open at an index.
pub open_block :
    (fits : BlockType → Bool) (idx : Index) (blocks : Dict ℕ StreamBlockState)
    → open_at fits idx blocks ≡ true
    → (n : ℕ) × (s : StreamBlockState) × (idx ≡ some n)
      × (lookup n blocks ≡ some s)
      × (s.is_open ≡ true)
      × (fits s.kind ≡ true)
open_block fits none blocks h = cc
open_block fits (some n) blocks h = elim (Option-cases (lookup n blocks)) [
  | inl missing ↦ cc (rw missing at h)
  | inr (s, here) ↦ (n, s, refl, here, ground (arith, rw here at h), ground (arith, rw here at h))
]

kind-text : (k : BlockType) → is_text k ≡ true → k ≡ text
kind-text text h = refl
kind-text _ h = cc

kind-thinking : (k : BlockType) → is_thinking k ≡ true → k ≡ thinking
kind-thinking thinking h = refl
kind-thinking _ h = cc

clear-text :
    (b : StreamBlockLedger) (s : StreamBlockState)
    → s.kind ≡ text
    → clear_active_content_block s (record b { text_started = false })
      ≡ record b { text_started = false }
unfolding clear_active_content_block
clear-text b s kind = rw kind (ground arith)

clear-thinking :
    (b : StreamBlockLedger) (s : StreamBlockState)
    → s.kind ≡ thinking
    → clear_active_content_block s (record b { thinking_started = false })
      ≡ record b { thinking_started = false }
unfolding clear_active_content_block
clear-thinking b s kind = rw kind (ground arith)

module _ (a : Bool) (l : AnthropicStreamLedger) (c : Check) (t : Tracks l c) where
  pub stop_text-Passes : l.blocks.text_started ≡ true → Passes a (stop_text_block l) c
  unfolding stop_text_block
  stop_text-Passes on =
      let idle = record l.blocks { text_started = false } in
      let (n, s, at, here, live, fits) =
        open_block is_text l.blocks.text_index l.content_blocks (t.running.text_open on) in
      let kind = kind-text s.kind fits in
      subst (λ idx. Passes a (write_block_stop idx (record l { blocks = idle })) c) (sym at)
        (stop-Passes a (record l { blocks = idle }) c n s t.agrees here live
          (subst (Running (insert n (record s { is_open = false }) l.content_blocks))
            (sym (clear-text l.blocks s kind))
            (Running-stop_text l.content_blocks l.blocks t.running n s
              (record s { is_open = false }) here kind refl at)))

  pub stop_thinking-Passes : l.blocks.thinking_started ≡ true → Passes a (stop_thinking_block l) c
  unfolding stop_thinking_block
  stop_thinking-Passes on =
      let idle = record l.blocks { thinking_started = false } in
      let (n, s, at, here, live, fits) =
        open_block is_thinking l.blocks.thinking_index l.content_blocks
          (t.running.thinking_open on) in
      let kind = kind-thinking s.kind fits in
      subst (λ idx. Passes a (write_block_stop idx (record l { blocks = idle })) c) (sym at)
        (stop-Passes a (record l { blocks = idle }) c n s t.agrees here live
          (subst (Running (insert n (record s { is_open = false }) l.content_blocks))
            (sym (clear-thinking l.blocks s kind))
            (Running-stop_thinking l.content_blocks l.blocks t.running n s
              (record s { is_open = false }) here kind refl at)))

  pub start_text-Passes : l.blocks.text_started ≡ false → Passes a (start_text_block l) c
  unfolding start_text_block allocate_index
  start_text-Passes idle =
      let n = l.blocks.next_index in
      start-Passes a
        (record l {
          blocks = record l.blocks { next_index = n + 1; text_index = some n; text_started = true };
        })
        c n (text_block "") t.agrees refl (unfold storage_of in refl) refl
        (unfold start_state mark_started reserve_index in
          Running-start_text l.content_blocks l.blocks t.running n (start_state n (text_block ""))
            (max (n + 1) (n + 1)) (t.agrees.fresh n (le_refl n)) refl refl idle)

  pub start_thinking-Passes :
      l.blocks.thinking_started ≡ false → Passes a (start_thinking_block l) c
  unfolding start_thinking_block allocate_index
  start_thinking-Passes idle =
      let n = l.blocks.next_index in
      start-Passes a
        (record l {
          blocks = record l.blocks {
            next_index = n + 1;
            thinking_index = some n;
            thinking_started = true;
          };
        })
        c n (thinking_block "") t.agrees refl (unfold storage_of in refl) refl
        (unfold start_state mark_started reserve_index in
          Running-start_thinking l.content_blocks l.blocks t.running n
            (start_state n (thinking_block "")) (max (n + 1) (n + 1)) (t.agrees.fresh n (le_refl n))
            refl refl idle)

  pub emit_text-Passes :
      (content : String) → l.blocks.text_started ≡ true → Passes a (emit_text_delta content l) c
  unfolding emit_text_delta
  emit_text-Passes content on =
      let (n, s, at, here, live, fits) =
        open_block is_text l.blocks.text_index l.content_blocks (t.running.text_open on) in
      subst (λ idx. Passes a (write_block_delta idx text_delta content l) c) (sym at)
        (delta-Passes a l c n s t.agrees here live text_delta content t.running
          (rw (kind-text s.kind fits)))

  pub emit_thinking-Passes :
      (content : String)
      → l.blocks.thinking_started ≡ true
      → Passes a (emit_thinking_delta content l) c
  unfolding emit_thinking_delta
  emit_thinking-Passes content on =
      let (n, s, at, here, live, fits) =
        open_block is_thinking l.blocks.thinking_index l.content_blocks
          (t.running.thinking_open on) in
      subst (λ idx. Passes a (write_block_delta idx thinking_delta content l) c) (sym at)
        (delta-Passes a l c n s t.agrees here live thinking_delta content t.running
          (rw (kind-thinking s.kind fits)))
