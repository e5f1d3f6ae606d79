-- ===== src/AnthropicStream/Tracking.antt =====
-- How the state of the stream ledger and the state of the contract's check go together while a
-- stream is written.
use test2_freeclaudecode.Prelude.{
  ap, ℕ, ◌≤◌, ◌≡◌, refl, Bool, true, false, ◌&&◌, ◌||◌, Option, none, some, [], ◌∷◌, nat_eq, ◌==◌,
  nat_beq, nat_beq_iff, beq_refl, contains, is_some, if◌then◌else◌, arith, Bool-cases, inl, inr,
}
use test2_freeclaudecode.Prelude.Dict.{Dict, lookup, insert, lookup-insert}
use test2_freeclaudecode.AnthropicStream.{
  BlockType, tool_use, Index, ToolBlockState, StreamBlockState, StreamBlockLedger,
  AnthropicStreamLedger,
}
use test2_freeclaudecode.AnthropicStream.Ledger.{at_index, is_text, is_thinking}
use test2_freeclaudecode.AnthropicStream.Contract.{Storage, plain, Check}

abbrev pub is_tool : BlockType → Bool
is_tool tool_use = true
is_tool _ = false

abbrev pub any_type : BlockType → Bool
any_type t = true

abbrev pub open_as : (BlockType → Bool) → Option StreamBlockState → Bool
open_as fits none = false
open_as fits (some s) = s.is_open && fits s.kind

-- An open block of a fitting type stands at the index.
abbrev pub open_at : (BlockType → Bool) → Index → Dict ℕ StreamBlockState → Bool
open_at fits none blocks = false
open_at fits (some i) blocks = open_as fits (lookup i blocks)

abbrev pub open_storage : Option StreamBlockState → Option Storage
open_storage none = none
open_storage (some s) = if s.is_open then some (plain s.kind) else none

abbrev pub index_fits : ℕ → Option StreamBlockState → Bool
index_fits i none = true
index_fits i (some s) = s.index == i

abbrev pub same_index : Index → Index → Bool
same_index none j = false
same_index (some i) none = false
same_index (some i) (some j) = i == j

-- A started tool of the list stands at the index.
abbrev pub owned : Dict ℕ ToolBlockState → Index → Bool
owned [] i = false
owned ((t, s) ∷ states) i = (s.started && same_index s.block_index i) || owned states i

-- Each started tool has its own open block.
abbrev pub ToolsOpen : Dict ℕ StreamBlockState → Dict ℕ ToolBlockState → Type 0
ToolsOpen blocks [] = Unit
ToolsOpen blocks ((t, s) ∷ states) =
    (s.started ≡ true
      → (open_at is_tool s.block_index blocks ≡ true) × (owned states s.block_index ≡ false))
    × ToolsOpen blocks states

abbrev pub active : StreamBlockLedger → ℕ → Bool
active b i =
    (b.text_started && at_index b.text_index i)
    || (b.thinking_started && at_index b.thinking_index i)
    || owned b.tool_states (some i)

-- The content blocks and the state of the check.
pub record Agrees (blocks : Dict ℕ StreamBlockState) (next : ℕ) (c : Check) : Type 0 where
  pub opens : (i : ℕ) → lookup i c.open_blocks ≡ open_storage (lookup i blocks)
  pub seen : (i : ℕ) → contains c.seen_blocks i ≡ is_some (lookup i blocks)
  pub fresh : (i : ℕ) → next ≤ i → lookup i blocks ≡ none
  pub indexed : (i : ℕ) → index_fits i (lookup i blocks) ≡ true

-- The content blocks and what the block ledger says is running: all of it is open, and nothing else.
pub record Running (blocks : Dict ℕ StreamBlockState) (b : StreamBlockLedger) : Type 0 where
  pub text_open : b.text_started ≡ true → open_at is_text b.text_index blocks ≡ true
  pub thinking_open : b.thinking_started ≡ true → open_at is_thinking b.thinking_index blocks ≡ true
  pub tools : ToolsOpen blocks b.tool_states
  pub covered : (i : ℕ) → open_as any_type (lookup i blocks) ≡ true → active b i ≡ true

pub record Tracks (l : AnthropicStreamLedger) (c : Check) : Type 0 where
  pub agrees : Agrees l.content_blocks l.blocks.next_index c
  pub running : Running l.content_blocks l.blocks

-- How a write to one block shows at an index.
pub open_at-insert :
    (fits : BlockType → Bool) (idx : Index) (n : ℕ) (s : StreamBlockState)
    (blocks : Dict ℕ StreamBlockState)
    → open_at fits idx (insert n s blocks)
      ≡ (if at_index idx n then s.is_open && fits s.kind else open_at fits idx blocks)
open_at-insert fits none n s blocks = refl
open_at-insert fits (some i) n s blocks =
    rw (lookup-insert n i s blocks) (ground (arith, nat_beq_iff n i, nat_beq_iff i n))

-- A block that is not there is open at no index.
pub not_at_fresh :
    (fits : BlockType → Bool) (idx : Index) (n : ℕ) (blocks : Dict ℕ StreamBlockState)
    → lookup n blocks ≡ none
    → open_at fits idx blocks ≡ true
    → at_index idx n ≡ false
not_at_fresh fits none n blocks h o = refl
not_at_fresh fits (some i) n blocks h o = elim (Bool-cases (nat_beq i n)) [
  | inl same ↦ cc (h, rw ((nat_beq_iff i n).0 same) at o)
  | inr other ↦ other
]

-- An index at which a block is open is its own.
same_self :
    (fits : BlockType → Bool) (idx : Index) (blocks : Dict ℕ StreamBlockState)
    → open_at fits idx blocks ≡ true
    → same_index idx idx ≡ true
same_self fits none blocks h = cc
same_self fits (some i) blocks h = beq_refl i

module _ (blocks blocks' : Dict ℕ StreamBlockState) where
  -- A change of the blocks keeps the tools open if it keeps each of their blocks open.
  pub ToolsOpen-change :
      (states : Dict ℕ ToolBlockState)
      → ((idx : Index)
          → owned states idx ≡ true
          → open_at is_tool idx blocks ≡ true
          → open_at is_tool idx blocks' ≡ true)
      → ToolsOpen blocks states
      → ToolsOpen blocks' states
  ToolsOpen-change [] k h = tt
  ToolsOpen-change ((t, state) ∷ states) k h = (
    λ started.
        let (o, apart) = h.0 started in
        (
          k state.block_index
              (ground (arith, started, same_self is_tool state.block_index blocks o)) o,
          apart,
        ),
    ToolsOpen-change states (λ idx own. k idx (ground (arith, own))) h.1,
  )

same_index_eq : (idx : Index) (i : ℕ) → same_index idx (some i) ≡ true → idx ≡ some i
same_index_eq none i h = cc
same_index_eq (some j) i h = ap some ((nat_beq_iff j i).0 h)

not_owned_head :
    (blocks : Dict ℕ StreamBlockState) (state : ToolBlockState) (i : ℕ)
    → open_at is_tool (some i) blocks ≡ false
    → (state.started && same_index state.block_index (some i)) ≡ true
    → open_at is_tool state.block_index blocks ≡ true
    → ⊥
not_owned_head blocks state i c here o =
    let e = same_index_eq state.block_index i (ground (arith, here)) in cc (rw e at o, c)

-- No tool stands at an index where no tool block is open.
pub not_owned :
    (blocks : Dict ℕ StreamBlockState) (states : Dict ℕ ToolBlockState) (i : ℕ)
    → ToolsOpen blocks states
    → open_at is_tool (some i) blocks ≡ false
    → owned states (some i) ≡ false
not_owned blocks [] i h c = refl
not_owned blocks ((t, state) ∷ states) i h c =
    elim (Bool-cases (state.started && same_index state.block_index (some i))) [
      | inl here ↦ absurd (not_owned_head blocks state i c here (ground (arith, h.0, here)))
      | inr elsewhere ↦ rw elsewhere (not_owned blocks states i h.1 c)
    ]
