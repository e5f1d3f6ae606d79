-- ===== src/AnthropicStream/Tools.antt =====
-- Writes to the tool states of the block ledger, and the blocks that the started tools hold.
use test2_freeclaudecode.Prelude.{
  ◌∙◌, sym, beq_comm, ℕ, ◌≡◌, refl, true, false, ◌||◌, Option, none, some, [], ◌∷◌, nat_eq, nat_beq,
  beq_refl, arith, Bool-cases, inl, inr,
}
use test2_freeclaudecode.Prelude.Dict.{Dict, lookup, insert, lookup-insert}
use test2_freeclaudecode.AnthropicStream.{
  tool_use, Index, ToolBlockState, StreamBlockState, StreamBlockLedger,
}
use test2_freeclaudecode.AnthropicStream.Ledger.{is_text, is_thinking}
use test2_freeclaudecode.AnthropicStream.Tracking.{
  Running, open_at, is_tool, owned, same_index, ToolsOpen, ToolsOpen-change, not_owned,
}
use test2_freeclaudecode.AnthropicStream.Session.{tool_started}
use test2_freeclaudecode.AnthropicStream.Running.{keeps_fresh}

abbrev pub tool_index : Option ToolBlockState → Index
tool_index none = none
tool_index (some s) = s.block_index

same_index_comm : (n : ℕ) (idx : Index) → same_index (some n) idx ≡ same_index idx (some n)
same_index_comm n none = refl
same_index_comm n (some i) = beq_comm n i

module _ (t : ℕ) (state : ToolBlockState) (n : ℕ) (on : state.started ≡ true)
    (at : state.block_index ≡ some n) where
  owned-start :
      (states : Dict ℕ ToolBlockState) (idx : Index)
      → tool_started (lookup t states) ≡ false
      → owned (insert t state states) idx ≡ (same_index (some n) idx || owned states idx)
  unfolding lookup insert
  owned-start [] idx new = rw (on, at) refl
  owned-start ((u, s) ∷ states) idx new = elim (Bool-cases (nat_beq u t)) [
    | inl same ↦ rw same (ground (arith, on, at, rw same at new))
    | inr other ↦ rw other (ground (arith, owned-start states idx (rw other at new)))
  ]

  ToolsOpen-start :
      (blocks : Dict ℕ StreamBlockState) (states : Dict ℕ ToolBlockState)
      → tool_started (lookup t states) ≡ false
      → open_at is_tool (some n) blocks ≡ true
      → owned states (some n) ≡ false
      → ToolsOpen blocks states
      → ToolsOpen blocks (insert t state states)
  unfolding lookup insert
  ToolsOpen-start blocks [] new o apart h = (λ _. (rw at o, refl), tt)
  ToolsOpen-start blocks ((u, s) ∷ states) new o apart h = elim (Bool-cases (nat_beq u t)) [
    | inl same ↦ rw same (λ _. (rw at o, rw at (ground (arith, apart))), h.1)
    | inr other ↦ rw other (
      λ started. (
        (h.0 started).0,
        rw (owned-start states s.block_index (rw other at new))
            (ground (arith, apart, started, same_index_comm n s.block_index, (h.0 started).1)),
      ),
      ToolsOpen-start blocks states (rw other at new) o (ground (arith, apart)) h.1,
    )
  ]

-- A write that starts no tool and moves no block.
module _ (t : ℕ) (state : ToolBlockState) where
  owned-same :
      (states : Dict ℕ ToolBlockState) (idx : Index)
      → state.started ≡ tool_started (lookup t states)
      → state.block_index ≡ tool_index (lookup t states)
      → owned (insert t state states) idx ≡ owned states idx
  unfolding lookup insert
  owned-same [] idx on at = rw on refl
  owned-same ((u, s) ∷ states) idx on at = elim (Bool-cases (nat_beq u t)) [
    | inl same ↦ rw same (ground (arith, rw same at on, rw same at at))
    | inr other ↦ rw other (ground (arith, owned-same states idx (rw other at on) (rw other at at)))
  ]

  ToolsOpen-same :
      (blocks : Dict ℕ StreamBlockState) (states : Dict ℕ ToolBlockState)
      → state.started ≡ tool_started (lookup t states)
      → state.block_index ≡ tool_index (lookup t states)
      → ToolsOpen blocks states
      → ToolsOpen blocks (insert t state states)
  unfolding lookup insert
  ToolsOpen-same blocks [] on at h = (λ started. cc, tt)
  ToolsOpen-same blocks ((u, s) ∷ states) on at h = elim (Bool-cases (nat_beq u t)) [
    | inl same ↦ rw same (λ started. rw (rw same at at) (h.0 (sym (rw same at on) ∙ started)), h.1)
    | inr other ↦ rw other (
      λ started. (
        (h.0 started).0,
        rw (owned-same states s.block_index (rw other at on) (rw other at at)) (h.0 started).1,
      ),
      ToolsOpen-same blocks states (rw other at on) (rw other at at) h.1,
    )
  ]

module _ (blocks : Dict ℕ StreamBlockState) (b : StreamBlockLedger) (h : Running blocks b) (t : ℕ)
    (state : ToolBlockState) where
  pub Running-same_tool :
      state.started ≡ tool_started (lookup t b.tool_states)
      → state.block_index ≡ tool_index (lookup t b.tool_states)
      → Running blocks (record b { tool_states = insert t state b.tool_states })
  Running-same_tool on at = record {
    text_open = h.text_open;
    thinking_open = h.thinking_open;
    tools = ToolsOpen-same t state blocks b.tool_states on at h.tools;
    covered = λ i o. ground (arith, owned-same t state b.tool_states (some i) on at, h.covered i o);
  }

  pub Running-start_tool :
      (k n : ℕ) (s : StreamBlockState)
      → lookup n blocks ≡ none
      → s.kind ≡ tool_use
      → s.is_open ≡ true
      → tool_started (lookup t b.tool_states) ≡ false
      → state.started ≡ true
      → state.block_index ≡ some n
      → Running
          (insert n s blocks)
          (record b { next_index = k; tool_states = insert t state b.tool_states })
  Running-start_tool k n s new kind live idle on at =
      let apart : owned b.tool_states (some n) ≡ false =
        not_owned blocks b.tool_states n h.tools (rw new) in
      record {
        text_open =
            λ started. keeps_fresh blocks b h n s is_text b.text_index new (h.text_open started);
        thinking_open = λ started.
            keeps_fresh blocks b h n s is_thinking b.thinking_index new (h.thinking_open started);
        tools =
            ToolsOpen-start t state n on at (insert n s blocks) b.tool_states idle
              (rw (lookup-insert n n s blocks, beq_refl n, live, kind) refl) apart
              (ToolsOpen-change blocks (insert n s blocks) b.tool_states
                (λ idx own o. keeps_fresh blocks b h n s is_tool idx new o) h.tools);
        covered = λ i o. ground (
          arith,
          rw (lookup-insert n i s blocks) at o,
          owned-start t state n on at b.tool_states (some i) idle,
          h.covered i,
        );
      }
