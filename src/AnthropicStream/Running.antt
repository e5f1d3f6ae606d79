-- ===== src/AnthropicStream/Running.antt =====
-- What is open and what the block ledger calls running stay the same thing while blocks start, take
-- deltas and stop.
use test2_freeclaudecode.Prelude.{
  ℕ, ◌≡◌, refl, Bool, true, false, none, some, nat_eq, nat_beq_iff, beq_refl, arith,
}
use test2_freeclaudecode.Prelude.Dict.{Dict, lookup, insert, lookup-insert}
use test2_freeclaudecode.AnthropicStream.{
  BlockType, text, thinking, Index, StreamBlockState, StreamBlockLedger,
}
use test2_freeclaudecode.AnthropicStream.Ledger.{is_text, is_thinking}
use test2_freeclaudecode.AnthropicStream.Tracking.{
  Running, open_at, is_tool, any_type, open_at-insert, not_at_fresh, ToolsOpen-change,
}

module _ (blocks : Dict ℕ StreamBlockState) (b : StreamBlockLedger) (h : Running blocks b) (n : ℕ)
    (s : StreamBlockState) where
  -- A write at an index where nothing stands keeps every open block open.
  pub keeps_fresh :
      (fits : BlockType → Bool) (idx : Index)
      → lookup n blocks ≡ none
      → open_at fits idx blocks ≡ true
      → open_at fits idx (insert n s blocks) ≡ true
  keeps_fresh fits idx new o =
      rw (open_at-insert fits idx n s blocks, not_at_fresh fits idx n blocks new o) o

  pub Running-start_text :
      (k : ℕ)
      → lookup n blocks ≡ none
      → s.kind ≡ text
      → s.is_open ≡ true
      → b.text_started ≡ false
      → Running
          (insert n s blocks)
          (record b { next_index = k; text_index = some n; text_started = true })
  Running-start_text k new kind on idle = record {
    text_open = λ _. rw (lookup-insert n n s blocks, beq_refl n, on, kind) refl;
    thinking_open =
        λ started. keeps_fresh is_thinking b.thinking_index new (h.thinking_open started);
    tools =
        ToolsOpen-change blocks (insert n s blocks) b.tool_states
          (λ idx own o. keeps_fresh is_tool idx new o) h.tools;
    covered = λ i o. ground (arith, rw (lookup-insert n i s blocks) at o, h.covered i, idle);
  }

  pub Running-start_thinking :
      (k : ℕ)
      → lookup n blocks ≡ none
      → s.kind ≡ thinking
      → s.is_open ≡ true
      → b.thinking_started ≡ false
      → Running
          (insert n s blocks)
          (record b { next_index = k; thinking_index = some n; thinking_started = true })
  Running-start_thinking k new kind on idle = record {
    text_open = λ started. keeps_fresh is_text b.text_index new (h.text_open started);
    thinking_open = λ _. rw (lookup-insert n n s blocks, beq_refl n, on, kind) refl;
    tools =
        ToolsOpen-change blocks (insert n s blocks) b.tool_states
          (λ idx own o. keeps_fresh is_tool idx new o) h.tools;
    covered = λ i o. ground (arith, rw (lookup-insert n i s blocks) at o, h.covered i, idle);
  }

  -- A block that is started and stopped at once.
  pub Running-whole :
      (k : ℕ)
      → lookup n blocks ≡ none
      → s.is_open ≡ false
      → Running (insert n s blocks) (record b { next_index = k })
  Running-whole k new off = record {
    text_open = λ started. keeps_fresh is_text b.text_index new (h.text_open started);
    thinking_open =
        λ started. keeps_fresh is_thinking b.thinking_index new (h.thinking_open started);
    tools =
        ToolsOpen-change blocks (insert n s blocks) b.tool_states
          (λ idx own o. keeps_fresh is_tool idx new o) h.tools;
    covered = λ i o. ground (arith, rw (lookup-insert n i s blocks) at o, h.covered i);
  }

module _ (blocks : Dict ℕ StreamBlockState) (b : StreamBlockLedger) (h : Running blocks b) (n : ℕ)
    (s t : StreamBlockState) (here : lookup n blocks ≡ some s) where
  keeps_delta :
      (fits : BlockType → Bool) (idx : Index)
      → t.is_open ≡ s.is_open
      → t.kind ≡ s.kind
      → open_at fits idx (insert n t blocks) ≡ open_at fits idx blocks
  keeps_delta fits none on kind = refl
  keeps_delta fits (some i) on kind =
      rw (lookup-insert n i t blocks) (ground (arith, nat_beq_iff n i, here))

  pub Running-delta : t.is_open ≡ s.is_open → t.kind ≡ s.kind → Running (insert n t blocks) b
  Running-delta on kind = record {
    text_open = λ started. rw (keeps_delta is_text b.text_index on kind) (h.text_open started);
    thinking_open =
        λ started. rw (keeps_delta is_thinking b.thinking_index on kind) (h.thinking_open started);
    tools =
        ToolsOpen-change blocks (insert n t blocks) b.tool_states
          (λ idx own o. rw (keeps_delta is_tool idx on kind) o) h.tools;
    covered = λ i o. h.covered i (rw (keeps_delta any_type (some i) on kind) at o);
  }

  -- A write at a block of another type keeps the open blocks of a type.
  keeps_other :
      (fits : BlockType → Bool) (idx : Index)
      → fits s.kind ≡ false
      → open_at fits idx blocks ≡ true
      → open_at fits idx (insert n t blocks) ≡ true
  keeps_other fits none other o = o
  keeps_other fits (some i) other o =
      rw (lookup-insert n i t blocks) (ground (arith, nat_beq_iff n i, here))

  pub Running-stop_text :
      s.kind ≡ text
      → t.is_open ≡ false
      → b.text_index ≡ some n
      → Running (insert n t blocks) (record b { text_started = false })
  Running-stop_text kind off own = record {
    text_open = λ started. cc;
    thinking_open =
        λ started. keeps_other is_thinking b.thinking_index (rw kind) (h.thinking_open started);
    tools =
        ToolsOpen-change blocks (insert n t blocks) b.tool_states
          (λ idx owned o. keeps_other is_tool idx (rw kind) o) h.tools;
    covered = λ i o. ground (arith, rw (lookup-insert n i t blocks) at o, h.covered i, own);
  }

  pub Running-stop_thinking :
      s.kind ≡ thinking
      → t.is_open ≡ false
      → b.thinking_index ≡ some n
      → Running (insert n t blocks) (record b { thinking_started = false })
  Running-stop_thinking kind off own = record {
    text_open = λ started. keeps_other is_text b.text_index (rw kind) (h.text_open started);
    thinking_open = λ started. cc;
    tools =
        ToolsOpen-change blocks (insert n t blocks) b.tool_states
          (λ idx owned o. keeps_other is_tool idx (rw kind) o) h.tools;
    covered = λ i o. ground (arith, rw (lookup-insert n i t blocks) at o, h.covered i, own);
  }
