-- ===== src/AnthropicStream/ToolCalls.antt =====
-- The calls on tool blocks pass the contract's check.
use mathlib.Core.Path.{subst}
use native.Mathlib.Nat.{le_refl}
use test2_freeclaudecode.Prelude.{
  some_injective, ◌==◌, ℕ, ◌+◌, max, ◌≡◌, refl, sym, String, Bool, true, false, Option, none, some,
  [], ◌∷◌, nat_eq, string_eq, nat_beq, Bool-cases, Option-cases, inl, inr,
}
use test2_freeclaudecode.Prelude.Dict.{Dict, lookup, insert}
use test2_freeclaudecode.AnthropicStream.{
  BlockType, tool_use, tool_use_block, input_json_delta, ToolBlockState, StreamBlockState,
  AnthropicStreamLedger,
}
use test2_freeclaudecode.AnthropicStream.Blocks.{
  empty_tool_state, merge_name, allocate_index, reserve_index, set_stream_tool_id,
  set_tool_extra_content, register_tool_name, update_tool_state,
}
use test2_freeclaudecode.AnthropicStream.Ledger.{start_state, mark_started}
use test2_freeclaudecode.AnthropicStream.Writer.{
  write_block_delta, start_tool_block, started_tool, emit_tool_delta,
}
use test2_freeclaudecode.AnthropicStream.Contract.{Check, storage_of, check_events}
use test2_freeclaudecode.AnthropicStream.Session.{or_skip, tool_started, tool_runs, on_blocks}
use test2_freeclaudecode.AnthropicStream.Tracking.{open_at, is_tool, ToolsOpen, Tracks}
use test2_freeclaudecode.AnthropicStream.Tools.{Running-same_tool, Running-start_tool, tool_index}
use test2_freeclaudecode.AnthropicStream.Steps.{Passes, Passes-skip, start-Passes, delta-Passes}
use test2_freeclaudecode.AnthropicStream.Active.{open_block}

started_tool-started :
    (n : ℕ) (id name : String) (extra : Option String) (s : Option ToolBlockState)
    → (started_tool n id name extra s).started ≡ true
unfolding started_tool
started_tool-started n id name extra none = refl
started_tool-started n id name extra (some s) = refl

started_tool-index :
    (n : ℕ) (id name : String) (extra : Option String) (s : Option ToolBlockState)
    → (started_tool n id name extra s).block_index ≡ some n
unfolding started_tool
started_tool-index n id name extra none = refl
started_tool-index n id name extra (some s) = refl

module _ (a : Bool) (l : AnthropicStreamLedger) (c : Check) (t : Tracks l c) where
  same_tool-Passes :
      (index : ℕ) (state : ToolBlockState)
      → state.started ≡ tool_started (lookup index l.blocks.tool_states)
      → state.block_index ≡ tool_index (lookup index l.blocks.tool_states)
      → Passes a
          (
            [],
            record l {
              blocks = record l.blocks { tool_states = insert index state l.blocks.tool_states };
            },
          )
          c
  unfolding check_events
  same_tool-Passes index state on at = (
    c,
    refl,
    record {
      agrees = t.agrees;
      running = Running-same_tool l.content_blocks l.blocks t.running index state on at;
    },
  )

  pub name_tool-Passes :
      (index : ℕ) (name : String) → Passes a (on_blocks (register_tool_name index name) l) c
  unfolding register_tool_name
  name_tool-Passes index name = elim (Option-cases (lookup index l.blocks.tool_states)) [
    | inl new ↦ rw new (same_tool-Passes index (empty_tool_state name) (rw new refl) (rw new refl))
    | inr (s, old) ↦ rw old (
        same_tool-Passes index (record s { name = merge_name s.name name }) (rw old refl)
          (rw old refl))
  ]

  update_tool-Passes :
      (index : ℕ) (f : ToolBlockState → ToolBlockState)
      → ((s : ToolBlockState) → ((f s).started ≡ s.started) × ((f s).block_index ≡ s.block_index))
      → Passes a (on_blocks (update_tool_state index f) l) c
  unfolding update_tool_state
  update_tool-Passes index f keeps = elim (Option-cases (lookup index l.blocks.tool_states)) [
    | inl new ↦
        let (on, at) = keeps (empty_tool_state "") in
        rw new (same_tool-Passes index (f (empty_tool_state "")) (rw new on) (rw new at))
    | inr (s, old) ↦
        let (on, at) = keeps s in rw old (same_tool-Passes index (f s) (rw old on) (rw old at))
  ]

  pub tool_id-Passes :
      (index : ℕ) (id : Option String) → Passes a (on_blocks (set_stream_tool_id index id) l) c
  unfolding set_stream_tool_id
  tool_id-Passes index none = Passes-skip a l c t
  tool_id-Passes index (some id) = elim (Bool-cases (id == "")) [
    | inl empty ↦ rw empty (Passes-skip a l c t)
    | inr given ↦
        rw given (update_tool-Passes index (λ s. record s { tool_id = id }) (λ s. (refl, refl)))
  ]

  pub tool_extra-Passes :
      (index : ℕ) (extra : Option String)
      → Passes a (on_blocks (set_tool_extra_content index extra) l) c
  unfolding set_tool_extra_content
  tool_extra-Passes index none = Passes-skip a l c t
  tool_extra-Passes index (some extra) =
      update_tool-Passes index (λ s. record s { extra_content = some extra }) (λ s. (refl, refl))

  pub open_tool-Passes :
      (index : ℕ) (id name : String) (extra : Option String)
      → tool_runs index l ≡ false
      → Passes a (start_tool_block index id name extra l) c
  unfolding start_tool_block allocate_index
  open_tool-Passes index id name extra idle =
      let n = l.blocks.next_index in
      let state = started_tool n id name extra (lookup index l.blocks.tool_states) in
      start-Passes a
        (record l {
          blocks = record l.blocks {
            next_index = n + 1;
            tool_states = insert index state l.blocks.tool_states;
          };
        })
        c n (tool_use_block id name extra) t.agrees refl (unfold storage_of in refl) refl
        (unfold start_state mark_started reserve_index in
          Running-start_tool l.content_blocks l.blocks t.running index state (max (n + 1) (n + 1)) n
            (start_state n (tool_use_block id name extra)) (t.agrees.fresh n (le_refl n)) refl refl
            idle (started_tool-started n id name extra (lookup index l.blocks.tool_states))
            (started_tool-index n id name extra (lookup index l.blocks.tool_states)))

-- The block of a started tool is open.
started_tool-open :
    (blocks : Dict ℕ StreamBlockState) (states : Dict ℕ ToolBlockState) (index : ℕ)
    (s : ToolBlockState)
    → ToolsOpen blocks states
    → lookup index states ≡ some s
    → s.started ≡ true
    → open_at is_tool s.block_index blocks ≡ true
unfolding lookup
started_tool-open blocks [] index s h here on = cc
started_tool-open blocks ((u, r) ∷ states) index s h here on = elim (Bool-cases (nat_beq u index)) [
  | inl same ↦
      let e = some_injective (rw same at here) in
      subst (λ x. open_at is_tool x.block_index blocks ≡ true) e
        (h.0 (subst (λ x. x.started ≡ true) (sym e) on)).0
  | inr other ↦ started_tool-open blocks states index s h.1 (rw other at here) on
]

kind-tool : (k : BlockType) → is_tool k ≡ true → k ≡ tool_use
kind-tool tool_use h = refl
kind-tool _ h = cc

emit_tool_delta-some :
    (index : ℕ) (partial : String) (l : AnthropicStreamLedger) (s : ToolBlockState)
    → lookup index l.blocks.tool_states ≡ some s
    → emit_tool_delta index partial l
      ≡ some (write_block_delta s.block_index input_json_delta partial l)
unfolding emit_tool_delta
emit_tool_delta-some index partial l s old = rw (old, emit_tool_delta) refl

module _ (a : Bool) (l : AnthropicStreamLedger) (c : Check) (t : Tracks l c) where
  pub tool_args-Passes :
      (index : ℕ) (partial : String)
      → tool_runs index l ≡ true
      → Passes a (or_skip (emit_tool_delta index partial l) l) c
  tool_args-Passes index partial on = elim (Option-cases (lookup index l.blocks.tool_states)) [
    | inl missing ↦ cc (rw missing at on)
    | inr (state, old) ↦
        let (n, s, at, here, live, fits) = open_block is_tool state.block_index l.content_blocks (
          started_tool-open l.content_blocks l.blocks.tool_states index state t.running.tools old
            (rw old at on)) in
        subst (λ r. Passes a (or_skip r l) c) (sym (emit_tool_delta-some index partial l state old))
          (subst (λ idx. Passes a (write_block_delta idx input_json_delta partial l) c) (sym at)
            (delta-Passes a l c n s t.agrees here live input_json_delta partial t.running
              (rw (kind-tool s.kind fits) refl)))
  ]
