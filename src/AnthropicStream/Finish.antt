-- ===== src/AnthropicStream/Finish.antt =====
-- `close_all_blocks` passes the contract's check and leaves no block open.
use mathlib.Core.Path.{subst}
use test2_freeclaudecode.Prelude.{
  ℕ, ◌≡◌, refl, ◌∙◌, sym, Bool, true, false, none, some, List, [], ◌∷◌, nat_eq, nat_beq,
  nat_beq_iff, arith, Bool-cases, inl, inr, if◌then◌else◌,
}
use test2_freeclaudecode.Prelude.Dict.{Dict, lookup, insert, lookup-insert}
use test2_freeclaudecode.AnthropicStream.{
  Index, SseEvent, ToolBlockState, StreamBlockState, AnthropicStreamLedger,
}
use test2_freeclaudecode.AnthropicStream.Writer.{
  write_block_stop, close_content_blocks, stop_tools, close_all_blocks, ◌⨾◌,
}
use test2_freeclaudecode.AnthropicStream.Contract.{Check, check_events}
use test2_freeclaudecode.AnthropicStream.Tracking.{
  Tracks, Agrees, open_at, open_as, is_tool, any_type, owned, ToolsOpen, ToolsOpen-change,
}
use test2_freeclaudecode.AnthropicStream.Steps.{stop-Agrees, stop_blocks, check_events-append}
use test2_freeclaudecode.AnthropicStream.Active.{open_block}
use test2_freeclaudecode.AnthropicStream.Closing.{close_content-Passes, content_stopped}

-- The tools of a list are open, each at its own index, and nothing else is.
record Remaining (blocks : Dict ℕ StreamBlockState) (states : Dict ℕ ToolBlockState) : Type 0 where
  tools : ToolsOpen blocks states
  only : (i : ℕ) → open_as any_type (lookup i blocks) ≡ true → owned states (some i) ≡ true

module _ (blocks : Dict ℕ StreamBlockState) (t : ℕ) (state : ToolBlockState)
    (states : Dict ℕ ToolBlockState) (h : Remaining blocks ((t, state) ∷ states)) where
  Remaining-skip : state.started ≡ false → Remaining blocks states
  Remaining-skip off = record { tools = h.tools.1; only = λ i o. ground (arith, h.only i o, off) }

  Remaining-stop :
      (n : ℕ) (closed : StreamBlockState)
      → state.started ≡ true
      → state.block_index ≡ some n
      → closed.is_open ≡ false
      → Remaining (insert n closed blocks) states
  Remaining-stop n closed on at off =
      let apart : owned states (some n) ≡ false = rw at at ((h.tools.0 on).1) in
      record {
        tools =
            ToolsOpen-change blocks (insert n closed blocks) states (keep n closed apart) h.tools.1;
        only =
            λ i o. ground (arith, rw (lookup-insert n i closed blocks) at o, h.only i, off, at, on);
      }
    where
      keep :
          (n : ℕ) (closed : StreamBlockState)
          → owned states (some n) ≡ false
          → (idx : Index) → owned states idx ≡ true
          → open_at is_tool idx blocks ≡ true
          → open_at is_tool idx (insert n closed blocks) ≡ true
      keep n closed apart none own o = o
      keep n closed apart (some i) own o =
          rw (lookup-insert n i closed blocks) (elim (Bool-cases (nat_beq n i)) [
            | inl same ↦ cc (own, rw ((nat_beq_iff n i).0 same) at apart)
            | inr other ↦ rw other o
          ])

-- The events pass, and no block is open any more.
abbrev pub Closes : Bool → List SseEvent × AnthropicStreamLedger → Check → Type 0
Closes a r c =
    (c' : Check) × (check_events a r.0 c ≡ some c')
    × Agrees r.1.content_blocks r.1.blocks.next_index c'
    × ((i : ℕ) → open_as any_type (lookup i r.1.content_blocks) ≡ false)

stop_tools-Closes :
    (a : Bool) (states : Dict ℕ ToolBlockState) (l : AnthropicStreamLedger) (c : Check)
    → Agrees l.content_blocks l.blocks.next_index c
    → Remaining l.content_blocks states
    → Closes a (stop_tools states l) c
unfolding stop_tools
stop_tools-Closes a [] l c h r = (c, unfold check_events in refl, h, λ i. ground (arith, r.only i))
stop_tools-Closes a ((t, state) ∷ states) l c h r = elim (Bool-cases state.started) [
  | inl on ↦
      let (n, s, at, here, live, fits) =
        open_block is_tool state.block_index l.content_blocks (r.tools.0 on).0 in
      let (d, pass, agrees) = stop-Agrees a l c n s h here live in
      let m = (write_block_stop (some n) l).1 in
      let (e, passes, agree, shut) = stop_tools-Closes a states m d agrees (
        subst (λ blocks. Remaining blocks states) (sym (stop_blocks a l c n s h here live).0)
          (Remaining-stop l.content_blocks t state states r n (record s { is_open = false }) on at
            refl)) in
      subst
        (λ b.
          Closes a
            (((λ k. if b then write_block_stop state.block_index k else ([], k))
                ⨾ stop_tools states)
              l)
            c)
        (sym on)
        (subst (λ idx. Closes a ((write_block_stop idx ⨾ stop_tools states) l) c) (sym at)
          (
            e,
            check_events-append a (write_block_stop (some n) l).0 (stop_tools states m).0 c d pass
                ∙ passes,
            agree,
            shut,
          ))
  | inr off ↦
      rw off
        (stop_tools-Closes a states l c h (Remaining-skip l.content_blocks t state states r off))
]

-- `close_all_blocks` writes events that pass and leaves no block open.
pub close_all-Closes :
    (a : Bool) (l : AnthropicStreamLedger) (c : Check)
    → Tracks l c
    → Closes a (close_all_blocks l) c
unfolding close_all_blocks
close_all-Closes a l c t =
    let m = (close_content_blocks l).1 in
    let (d, pass, tracks) = close_content-Passes a l c t in
    let (no_thinking, no_text) = content_stopped l in
    let (e, passes, agree, shut) =
      stop_tools-Closes a m.blocks.tool_states m d tracks.agrees (record {
        tools = tracks.running.tools;
        only = λ i o. ground (arith, tracks.running.covered i o, no_thinking, no_text);
      }) in
    (
      e,
      check_events-append a (close_content_blocks l).0 (stop_tools m.blocks.tool_states m).0 c d
            pass
          ∙ passes,
      agree,
      shut,
    )
