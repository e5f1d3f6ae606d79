-- ===== src/AnthropicStream/Steps.antt =====
-- One start, delta or stop that the ledger writes passes the contract's check, and the ledger and
-- the check go on together.
use test2_freeclaudecode.Prelude.{
  some_injective, ◌∙◌, ℕ, suc, ◌+◌, ◌≡◌, refl, String, Bool, true, false, none, some, List, [], ◌∷◌,
  ◌++◌, nat_eq, arith, Option-cases, inl, inr,
}
use mathlib.Core.Path.{subst₂, sym, ap, subst}
use test2_freeclaudecode.Prelude.Dict.{lookup, insert, remove}
use test2_freeclaudecode.AnthropicStream.{
  ContentBlock, thinking_block, text_block, tool_use_block, redacted_block, plain_block, block_type,
  DeltaType, SseEvent, content_block_start, content_block_delta, content_block_stop,
  StreamBlockState, StreamBlockLedger, AnthropicStreamLedger,
}
use test2_freeclaudecode.AnthropicStream.Blocks.{reserve_index}
use test2_freeclaudecode.AnthropicStream.Ledger.{
  start_state, mark_started, record_block_start, record_block_delta, record_block_stop, delta_part,
  close_block, clear_active_content_block,
}
use test2_freeclaudecode.AnthropicStream.Writer.{
  Act, ◌⨾◌, write_block_start, write_block_delta, write_block_stop,
}
use test2_freeclaudecode.AnthropicStream.Contract.{
  plain, Check, storage_of, is_allowed, takes, check_event, check_events,
}
use test2_freeclaudecode.AnthropicStream.Tracking.{Agrees, Running, Tracks}
use test2_freeclaudecode.AnthropicStream.Agreement.{Agrees-start, Agrees-delta, Agrees-stop}
use test2_freeclaudecode.AnthropicStream.Running.{Running-delta}

pub check_events-append :
    (a : Bool) (xs ys : List SseEvent) (c c' : Check)
    → check_events a xs c ≡ some c'
    → check_events a (xs ++ ys) c ≡ check_events a ys c'
unfolding check_events
check_events-append a [] ys c c' h = ap (check_events a ys) (some_injective h)
check_events-append a (x ∷ xs) ys c c' h = elim (Option-cases (check_event a x c)) [
  | inl failed ↦ cc (rw (failed, check_events) at h)
  | inr (d, passed) ↦
      rw (passed, check_events) (check_events-append a xs ys d c' (rw (passed, check_events) at h))
]

check_one :
    (a : Bool) (x : SseEvent) (c c' : Check)
    → check_event a x c ≡ some c'
    → check_events a (x ∷ []) c ≡ some c'
unfolding check_events
check_one a x c c' h = rw (h, check_events) refl

-- The events pass, and the ledger that is left goes with the check that is left.
abbrev pub Passes : Bool → List SseEvent × AnthropicStreamLedger → Check → Type 0
Passes a r c = (c' : Check) × (check_events a r.0 c ≡ some c') × Tracks r.1 c'

-- The same of the content blocks alone.
abbrev pub Agreed : Bool → List SseEvent × AnthropicStreamLedger → Check → Type 0
Agreed a r c =
    (c' : Check) × (check_events a r.0 c ≡ some c')
    × Agrees r.1.content_blocks r.1.blocks.next_index c'

pub Agreed-⨾ :
    (a : Bool) (f g : Act) (l : AnthropicStreamLedger) (c : Check)
    → Agreed a (f l) c
    → ((d : Check)
        → Agrees (f l).1.content_blocks (f l).1.blocks.next_index d
        → Agreed a (g (f l).1) d)
    → Agreed a ((f ⨾ g) l) c
Agreed-⨾ a f g l c (c', first, t) then_g =
    let (d, second, u) = then_g c' t in
    (d, check_events-append a (f l).0 (g (f l).1).0 c c' first ∙ second, u)

pub Agreed-Passes :
    (a : Bool) (r : List SseEvent × AnthropicStreamLedger) (c : Check)
    → Agreed a r c
    → Running r.1.content_blocks r.1.blocks
    → Passes a r c
Agreed-Passes a r c (c', pass, agrees) run = (c', pass, record { agrees = agrees; running = run })

pub Passes-skip :
    (a : Bool) (l : AnthropicStreamLedger) (c : Check) → Tracks l c → Passes a ([], l) c
unfolding check_events
Passes-skip a l c t = (c, refl, t)

pub Passes-⨾ :
    (a : Bool) (f g : Act) (l : AnthropicStreamLedger) (c : Check)
    → Passes a (f l) c
    → ((d : Check) → Tracks (f l).1 d → Passes a (g (f l).1) d)
    → Passes a ((f ⨾ g) l) c
Passes-⨾ a f g l c (c', first, t) then_g =
    let (d, second, u) = then_g c' t in
    (d, check_events-append a (f l).0 (g (f l).1).0 c c' first ∙ second, u)

start_state_fields :
    (n : ℕ) (block : ContentBlock)
    → ((start_state n block).index ≡ n)
      × ((start_state n block).is_open ≡ true)
      × ((start_state n block).kind ≡ block_type block)
unfolding start_state
start_state_fields n (thinking_block _) = (refl, refl, refl)
start_state_fields n (text_block _) = (refl, refl, refl)
start_state_fields n (tool_use_block _ _ _) = (refl, refl, refl)
start_state_fields n (redacted_block _) = (refl, refl, refl)
start_state_fields n (plain_block _) = (refl, refl, refl)

next_index-mark_started :
    (n : ℕ) (block : ContentBlock) (b : StreamBlockLedger)
    → (mark_started n block b).next_index ≡ b.next_index
unfolding mark_started
next_index-mark_started n (thinking_block _) b = refl
next_index-mark_started n (text_block _) b = refl
next_index-mark_started n (tool_use_block _ _ _) b = refl
next_index-mark_started n (redacted_block _) b = refl
next_index-mark_started n (plain_block _) b = refl

next_index-start :
    (n : ℕ) (block : ContentBlock) (b : StreamBlockLedger)
    → b.next_index ≡ n + 1
    → (mark_started n block (reserve_index n b)).next_index ≡ suc n
unfolding reserve_index
next_index-start n block b h =
    next_index-mark_started n block (reserve_index n b) ∙ omega (arith, h)

-- A block that starts at the next index.
module _ (a : Bool) (l : AnthropicStreamLedger) (c : Check) (n : ℕ) (block : ContentBlock)
    (h : Agrees l.content_blocks n c) (next : l.blocks.next_index ≡ n + 1)
    (stored : storage_of block ≡ plain (block_type block))
    (allowed : is_allowed (block_type block) ≡ true) where
  pub start-Agrees : Agreed a (write_block_start n block l) c
  unfolding write_block_start record_block_start check_event
  start-Agrees =
      let (own, on, kind) = start_state_fields n block in
      let free : lookup n l.content_blocks ≡ none = h.fresh n (omega arith) in
      let c' : Check = record {
        open_blocks = insert n (plain (start_state n block).kind) c.open_blocks;
        seen_blocks = n ∷ c.seen_blocks;
      } in
      (
        c',
        check_one a (content_block_start n block) c c'
            (rw (allowed, h.opens n, h.seen n, free, stored, kind) refl),
        subst (λ k. Agrees (insert n (start_state n block) l.content_blocks) k c')
            (sym (next_index-start n block l.blocks next))
            (Agrees-start l.content_blocks n c h n (start_state n block) (omega arith) own on),
      )

  pub start-Passes :
      Running
        (insert n (start_state n block) l.content_blocks)
        (mark_started n block (reserve_index n l.blocks))
      → Passes a (write_block_start n block l) c
  start-Passes run =
      Agreed-Passes a (write_block_start n block l) c start-Agrees
        (unfold write_block_start record_block_start in run)

next_index-clear :
    (s : StreamBlockState) (b : StreamBlockLedger)
    → (clear_active_content_block s b).next_index ≡ b.next_index
unfolding clear_active_content_block
next_index-clear s b = ground arith

-- A delta that an open block takes, and a stop of an open block.
module _ (a : Bool) (l : AnthropicStreamLedger) (c : Check) (n : ℕ) (s : StreamBlockState)
    (h : Agrees l.content_blocks l.blocks.next_index c) (here : lookup n l.content_blocks ≡ some s)
    (on : s.is_open ≡ true) where
  abbrev pub filled : DeltaType → String → StreamBlockState
  filled delta content = record s { parts = delta_part s.kind delta content s.parts }

  pub delta_blocks :
      (delta : DeltaType) (content : String)
      → let after = (write_block_delta (some n) delta content l).1 in
        (after.content_blocks ≡ insert n (filled delta content) l.content_blocks)
        × (after.blocks ≡ l.blocks)
  unfolding write_block_delta record_block_delta
  delta_blocks delta content = (rw here refl, rw here refl)

  pub delta-Agrees :
      (delta : DeltaType) (content : String)
      → takes (plain s.kind) delta ≡ true
      → Agreed a (write_block_delta (some n) delta content l) c
  unfolding write_block_delta record_block_delta check_event
  delta-Agrees delta content fits = (
    c,
    check_one a (content_block_delta (some n) delta content) c c
        (rw (h.opens n, here, on) (rw fits refl)),
    rw here (
        Agrees-delta l.content_blocks l.blocks.next_index c h n s (filled delta content) here refl
          refl refl),
  )

  pub delta-Passes :
      (delta : DeltaType) (content : String)
      → Running l.content_blocks l.blocks
      → takes (plain s.kind) delta ≡ true
      → Passes a (write_block_delta (some n) delta content l) c
  delta-Passes delta content run fits =
      let (blocks, ledger) = delta_blocks delta content in
      Agreed-Passes a (write_block_delta (some n) delta content l) c
        (delta-Agrees delta content fits)
        (subst₂ Running (sym blocks) (sym ledger)
          (Running-delta l.content_blocks l.blocks run n s (filled delta content) here refl refl))

  abbrev pub stopped : StreamBlockState
  stopped = record s { is_open = false }

  pub stop_blocks :
      let after = (write_block_stop (some n) l).1 in
      (after.content_blocks ≡ insert n stopped l.content_blocks)
      × (after.blocks ≡ clear_active_content_block s l.blocks)
  unfolding write_block_stop record_block_stop close_block
  stop_blocks = (rw here refl, rw here refl)

  pub stop-Agrees : Agreed a (write_block_stop (some n) l) c
  unfolding write_block_stop record_block_stop close_block check_event
  stop-Agrees =
      let c' = record c { open_blocks = remove n c.open_blocks } in
      (
        c',
        check_one a (content_block_stop (some n)) c c' (rw (h.opens n, here, on) refl),
        rw here (
            subst (λ k. Agrees (insert n stopped l.content_blocks) k c')
              (sym (next_index-clear s l.blocks))
              (Agrees-stop l.content_blocks l.blocks.next_index c h n s stopped here refl refl)),
      )

  pub stop-Passes :
      Running (insert n stopped l.content_blocks) (clear_active_content_block s l.blocks)
      → Passes a (write_block_stop (some n) l) c
  stop-Passes run =
      let (blocks, ledger) = stop_blocks in
      Agreed-Passes a (write_block_stop (some n) l) c stop-Agrees
        (subst₂ Running (sym blocks) (sym ledger) run)
