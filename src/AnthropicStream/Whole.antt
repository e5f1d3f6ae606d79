-- ===== src/AnthropicStream/Whole.antt =====
-- A block that is opened, filled and closed at once passes the contract's check.
use mathlib.Core.Path.{subst₂}
use native.Mathlib.Nat.{le_refl}
use test2_freeclaudecode.Prelude.{
  ℕ, ◌+◌, max, ◌≡◌, refl, ◌∙◌, sym, ap, String, Bool, true, false, Option, none, some, [], ◌∷◌,
  nat_eq, string_eq, nat_beq, Bool-cases, inl, inr, beq_refl,
}
use test2_freeclaudecode.Prelude.Dict.{Dict, lookup, insert, lookup-insert}
use test2_freeclaudecode.AnthropicStream.{
  ContentBlock, tool_use_block, redacted_block, block_type, input_json_delta, StreamBlockState,
  StreamBlockLedger, AnthropicStreamLedger,
}
use test2_freeclaudecode.AnthropicStream.Blocks.{allocate_index, reserve_index}
use test2_freeclaudecode.AnthropicStream.Ledger.{
  delta_part, record_block_start, clear_active_content_block, is_text, is_thinking, start_state,
  mark_started,
}
use test2_freeclaudecode.AnthropicStream.Writer.{
  Act, ◌⨾◌, skip, write_block_start, write_block_delta, write_block_stop,
}
use test2_freeclaudecode.AnthropicStream.Contract.{
  Check, plain, storage_of, is_allowed, check_events,
}
use test2_freeclaudecode.AnthropicStream.Session.{whole_block}
use test2_freeclaudecode.AnthropicStream.Tracking.{Tracks, Agrees, Running}
use test2_freeclaudecode.AnthropicStream.Steps.{
  Passes, Agreed, Agreed-⨾, Agreed-Passes, start-Agrees, delta-Agrees, delta_blocks, stop-Agrees,
  stop_blocks,
}
use test2_freeclaudecode.AnthropicStream.Running.{Running-whole}

insert_again :
    (n : ℕ) (s s' : StreamBlockState) (blocks : Dict ℕ StreamBlockState)
    → insert n s' (insert n s blocks) ≡ insert n s' blocks
unfolding insert
insert_again n s s' [] = rw (beq_refl n) refl
insert_again n s s' ((i, r) ∷ blocks) = elim (Bool-cases (nat_beq i n)) [
  | inl same ↦ rw same (rw same refl)
  | inr other ↦ rw other (rw other (ap (λ rest. (i, r) ∷ rest) (insert_again n s s' blocks)))
]

-- A block that is opened, filled and closed at once.
clear-idle :
    (s : StreamBlockState) (b : StreamBlockLedger)
    → is_text s.kind ≡ false
    → is_thinking s.kind ≡ false
    → clear_active_content_block s b ≡ b
unfolding clear_active_content_block
clear-idle s b no_text no_thinking = rw (no_text, no_thinking) refl

module _ (a : Bool) (l : AnthropicStreamLedger) (c : Check) (t : Tracks l c) (block : ContentBlock)
    (stored : storage_of block ≡ plain (block_type block))
    (allowed : is_allowed (block_type block) ≡ true) (fill : ℕ → Act) where
  abbrev whole_index : ℕ
  whole_index = l.blocks.next_index

  abbrev allocated : AnthropicStreamLedger
  allocated = record l { blocks = record l.blocks { next_index = l.blocks.next_index + 1 } }

  abbrev opened : AnthropicStreamLedger
  opened = (write_block_start whole_index block allocated).1

  whole-Passes :
      ((d : Check)
        → Agrees opened.content_blocks opened.blocks.next_index d
        → Agreed a (fill whole_index opened) d)
      → (s : StreamBlockState) (k : ℕ)
      → (fill whole_index opened).1.content_blocks ≡ insert whole_index s l.content_blocks
      → (fill whole_index opened).1.blocks ≡ record l.blocks { next_index = k }
      → s.is_open ≡ true
      → is_text s.kind ≡ false
      → is_thinking s.kind ≡ false
      → Passes a (whole_block block fill l) c
  unfolding whole_block allocate_index
  whole-Passes filled s k at blocks live no_text no_thinking =
      let n = l.blocks.next_index in
      let m = (fill n opened).1 in
      let here : lookup n m.content_blocks ≡ some s =
        rw (at, lookup-insert n n s l.content_blocks, beq_refl n) refl in
      let (d, pass, agrees) =
        Agreed-⨾ a (write_block_start n block) (fill n) allocated c
          (start-Agrees a allocated c n block t.agrees refl stored allowed) filled in
      let (shut, ledger) = stop_blocks a m d n s agrees here live in
      Agreed-Passes a (whole_block block fill l) c
        (Agreed-⨾ a (write_block_start n block ⨾ fill n) (write_block_stop (some n)) allocated c
          (d, pass, agrees) (λ e u. stop-Agrees a m e n s u here live))
        (subst₂ Running
          (sym (
            shut
            ∙ ap (insert n (record s { is_open = false })) at
            ∙ insert_again n s (record s { is_open = false }) l.content_blocks))
          (sym (ledger ∙ clear-idle s m.blocks no_text no_thinking ∙ blocks))
          (Running-whole l.content_blocks l.blocks t.running n (record s { is_open = false }) k
            (t.agrees.fresh n (le_refl n)) refl))

module _ (a : Bool) (l : AnthropicStreamLedger) (c : Check) (t : Tracks l c) where
  pub whole_tool-Passes :
      (id name json : String)
      → Passes a
          (whole_block
            (tool_use_block id name none)
            (λ index. write_block_delta (some index) input_json_delta json)
            l)
          c
  whole_tool-Passes id name json =
      let n = l.blocks.next_index in
      let block = tool_use_block id name none in
      let s = start_state n block in
      let m = opened a l c t block (unfold storage_of in refl) refl (λ index. skip) in
      let here : lookup n m.content_blocks ≡ some s =
        unfold write_block_start record_block_start in
        rw (lookup-insert n n s l.content_blocks, beq_refl n) refl in
      let (d, pass, agrees) =
        start-Agrees a (allocated a l c t block (unfold storage_of in refl) refl (λ index. skip)) c
          n block t.agrees refl (unfold storage_of in refl) refl in
      let (blocks, ledger) =
        delta_blocks a m d n s agrees here (unfold start_state in refl) input_json_delta json in
      whole-Passes a l c t block (unfold storage_of in refl) refl
        (λ index. write_block_delta (some index) input_json_delta json)
        (λ d u.
          delta-Agrees a m d n s u here (unfold start_state in refl) input_json_delta json
            (unfold start_state in refl))
        (record s { parts = delta_part s.kind input_json_delta json s.parts }) (max (n + 1) (n + 1))
        (blocks
          ∙ (unfold write_block_start record_block_start in
              insert_again n s
                (record s { parts = delta_part s.kind input_json_delta json s.parts })
                l.content_blocks))
        (ledger ∙ (unfold write_block_start record_block_start mark_started reserve_index in refl))
        (unfold start_state in refl) (unfold start_state in refl) (unfold start_state in refl)

  pub redacted-Passes :
      (encrypted : Option String)
      → Passes a (whole_block (redacted_block encrypted) (λ index. skip) l) c
  redacted-Passes encrypted =
      let n = l.blocks.next_index in
      let block = redacted_block encrypted in
      whole-Passes a l c t block (unfold storage_of in refl) refl (λ index. skip)
        (λ d u. (d, unfold check_events in refl, u)) (start_state n block) (max (n + 1) (n + 1))
        (unfold write_block_start record_block_start in refl)
        (unfold write_block_start record_block_start mark_started reserve_index in refl)
        (unfold start_state in refl) (unfold start_state in refl) (unfold start_state in refl)
