-- ===== src/AnthropicStream/Response.antt =====
-- A whole response, from `message_start` to `message_stop`, meets the stream contract.
use mathlib.Core.Path.{subst}
use test2_freeclaudecode.Prelude.{
  ◌⊎◌, if◌then◌else◌, nat_eq, ℕ, ◌≡◌, refl, ◌∙◌, sym, String, Bool, true, false, not, ◌&&◌, Option,
  none, some, List, [], ◌∷◌, ◌++◌, arith, Bool-cases, inl, inr, is_some, contains, beq_refl,
}
use test2_freeclaudecode.Prelude.Dict.{Dict, lookup, empty_of_lookup}
use test2_freeclaudecode.AnthropicStream.{
  SseEvent, message_stop, StreamBlockState, AnthropicStreamLedger,
}
use test2_freeclaudecode.AnthropicStream.Ledger.{is_text, new_ledger}
use test2_freeclaudecode.AnthropicStream.Writer.{
  Act, ◌⨾◌, when, write_message_start, write_message_delta, write_message_stop, ensure_text_block,
  emit_text_delta, close_all_blocks, final_stop_reason, tool_blocks, thinking_running,
  stop_thinking_block,
}
use test2_freeclaudecode.AnthropicStream.Contract.{
  Check, is_nil, has_message_start, ends_terminal, check_event, check_events, closed_up,
  stream_contract,
}
use test2_freeclaudecode.AnthropicStream.Session.{
  Command, needs_placeholder, perform_all, finish, respond,
}
use test2_freeclaudecode.AnthropicStream.Tracking.{
  active, Tracks, Agrees, open_as, any_type, open_storage,
}
use test2_freeclaudecode.AnthropicStream.Steps.{Passes, Passes-⨾, check_events-append}
use test2_freeclaudecode.AnthropicStream.Closing.{
  ensure_text-Passes, text_started-when, Passes-when, say_text-Passes,
}
use test2_freeclaudecode.AnthropicStream.Active.{open_block}
use test2_freeclaudecode.AnthropicStream.Finish.{Closes, close_all-Closes}
use test2_freeclaudecode.AnthropicStream.Founded.{
  filled, founded, Keeps-perform_all, Keeps-close_all, Keeps-emit_text,
}
use test2_freeclaudecode.AnthropicStream.Soundness.{perform_all-Passes}

List-cases {ℓ} : {A : Type ℓ} (xs : List A) → (xs ≡ []) ⊎ (is_nil xs ≡ false)
List-cases [] = inl refl
List-cases (x ∷ xs) = inr refl

ends_terminal-cons :
    (a : Bool) (x : SseEvent) (ys : List SseEvent)
    → ends_terminal a ys ≡ true
    → ends_terminal a (x ∷ ys) ≡ true
ends_terminal-cons a x [] h = cc
ends_terminal-cons a x (y ∷ ys) h = h

ends_terminal-append :
    (a : Bool) (xs ys : List SseEvent)
    → ends_terminal a ys ≡ true
    → ends_terminal a (xs ++ ys) ≡ true
ends_terminal-append a [] ys h = h
ends_terminal-append a (x ∷ xs) ys h =
    ends_terminal-cons a x (xs ++ ys) (ends_terminal-append a xs ys h)

Closes-⨾ :
    (a : Bool) (f g : Act) (l : AnthropicStreamLedger) (c : Check)
    → Passes a (f l) c
    → ((d : Check) → Tracks (f l).1 d → Closes a (g (f l).1) d)
    → Closes a ((f ⨾ g) l) c
Closes-⨾ a f g l c (c', first, t) then_g =
    let (d, second, agrees, shut) = then_g c' t in
    (d, check_events-append a (f l).0 (g (f l).1).0 c c' first ∙ second, agrees, shut)

-- An event about the message, after the blocks are closed.
Closes-then :
    (a : Bool) (f g : Act) (l : AnthropicStreamLedger) (c : Check)
    → Closes a (f l) c
    → ((d : Check) → check_events a (g (f l).1).0 d ≡ some d)
    → (g (f l).1).1.content_blocks ≡ (f l).1.content_blocks
    → (g (f l).1).1.blocks ≡ (f l).1.blocks
    → Closes a ((f ⨾ g) l) c
Closes-then a f g l c (d, first, agrees, shut) passes same blocks = (
  d,
  check_events-append a (f l).0 (g (f l).1).0 c d first ∙ passes d,
  subst (λ b. Agrees b (g (f l).1).1.blocks.next_index d) (sym same)
      (subst (λ b. Agrees (f l).1.content_blocks b.next_index d) (sym blocks) agrees),
  subst (λ b. (i : ℕ) → open_as any_type (lookup i b) ≡ false) (sym same) shut,
)

filled-lookup :
    (n : ℕ) (s : StreamBlockState) (l : AnthropicStreamLedger)
    → lookup n l.content_blocks ≡ some s
    → filled l ≡ true
unfolding lookup
filled-lookup n s l here = elim (List-cases l.content_blocks) [
  | inl empty ↦ cc (rw empty at here)
  | inr full ↦ rw full refl
]

-- After `ensure_text_block` there is a block, as the text block runs.
ensured-filled :
    (l : AnthropicStreamLedger) (c : Check) → Tracks l c → filled (ensure_text_block l).1 ≡ true
ensured-filled l c t =
    let m = (ensure_text_block l).1 in
    let (d, pass, u) = ensure_text-Passes false l c t in
    let on : m.blocks.text_started ≡ true =
      unfold ensure_text_block in
      text_started-when (when thinking_running stop_thinking_block l).1 in
    let (n, s, at, here, live, fits) =
      open_block is_text m.blocks.text_index m.content_blocks (u.running.text_open on) in
    filled-lookup n s m here

content-filled :
    (l : AnthropicStreamLedger) → founded l ≡ true → needs_placeholder l ≡ false → filled l ≡ true
unfolding needs_placeholder tool_blocks
content-filled l base full = elim (List-cases l.content_blocks) [
  | inl empty ↦ ground (arith, rw empty at base, rw empty at full)
  | inr some_block ↦ rw some_block refl
]

module _ (held : List Command) (stop_reason : String) (output_tokens input_tokens : Option ℕ)
    (usage_fields : List (String × ℕ)) where
  abbrev placeholder : Act
  placeholder = when needs_placeholder (ensure_text_block ⨾ emit_text_delta " ")

  abbrev delta_event : Act
  delta_event l =
      write_message_delta (final_stop_reason stop_reason l) output_tokens input_tokens usage_fields
        l

  finish-Closes :
      (a : Bool) (l : AnthropicStreamLedger) (c : Check)
      → Tracks l c
      → Closes a (finish held stop_reason output_tokens input_tokens usage_fields l) c
  unfolding finish
  finish-Closes a l c t =
      let m = (placeholder l).1 in
      let written = placeholder ⨾ perform_all held in
      let closed = written ⨾ close_all_blocks in
      Closes-then a (closed ⨾ delta_event) write_message_stop l c
        (Closes-then a closed delta_event l c
          (Closes-⨾ a written close_all_blocks l c
            (Passes-⨾ a placeholder (perform_all held) l c
              (Passes-when a needs_placeholder (ensure_text_block ⨾ emit_text_delta " ") l c t
                (λ need. say_text-Passes a l c t " "))
              (λ d u. perform_all-Passes a held m d u))
            (λ d u. close_all-Closes a (written l).1 d u))
          (λ d. unfold write_message_delta check_events check_event in refl)
          (unfold write_message_delta in refl) (unfold write_message_delta in refl))
        (λ d. unfold write_message_stop check_events check_event in refl)
        (unfold write_message_stop in refl) (unfold write_message_stop in refl)

  finish_ends :
      (l : AnthropicStreamLedger)
      → ends_terminal false (finish held stop_reason output_tokens input_tokens usage_fields l).0
        ≡ true
  unfolding finish write_message_stop
  finish_ends l =
      let closed = placeholder ⨾ perform_all held ⨾ close_all_blocks ⨾ delta_event in
      ends_terminal-append false (closed l).0 (message_stop ∷ []) refl

  -- The placeholder stands wherever there is no other block.
  placeholder-filled :
      (l : AnthropicStreamLedger) (c : Check)
      → Tracks l c
      → founded l ≡ true
      → filled (placeholder l).1 ≡ true
  placeholder-filled l c t base = elim (Bool-cases (needs_placeholder l)) [
    | inl need ↦
        subst
          (λ b.
            filled ((if b then (ensure_text_block ⨾ emit_text_delta " ") l else ([], l)).1) ≡ true)
          (sym need) ((Keeps-emit_text " " (ensure_text_block l).1).0 (ensured-filled l c t))
    | inr full ↦
        subst
          (λ b.
            filled ((if b then (ensure_text_block ⨾ emit_text_delta " ") l else ([], l)).1) ≡ true)
          (sym full) (content-filled l base full)
  ]

  finish-filled :
      (l : AnthropicStreamLedger) (c : Check)
      → Tracks l c
      → founded l ≡ true
      → filled (finish held stop_reason output_tokens input_tokens usage_fields l).1 ≡ true
  unfolding finish write_message_stop write_message_delta
  finish-filled l c t base =
      let m = (placeholder l).1 in
      (Keeps-close_all (perform_all held m).1).0
        ((Keeps-perform_all held m).0 (placeholder-filled l c t base))

new-Tracks :
    (id model : String) (n : ℕ)
    → Tracks (new_ledger id model n) (record { open_blocks = []; seen_blocks = [] })
unfolding new_ledger lookup
new-Tracks id model n = record {
  agrees = record { opens = λ i. refl; seen = λ i. refl; fresh = λ i h. refl; indexed = λ i. refl };
  running = record {
    text_open = λ h. cc;
    thinking_open = λ h. cc;
    tools = tt;
    covered = λ i h. cc;
  };
}

closed_storage : (s : Option StreamBlockState) → open_as any_type s ≡ false → open_storage s ≡ none
closed_storage none h = refl
closed_storage (some s) h = ground (arith, h)

seen_filled :
    (blocks : Dict ℕ StreamBlockState) (seen : List ℕ)
    → ((i : ℕ) → contains seen i ≡ is_some (lookup i blocks))
    → not (is_nil blocks) ≡ true
    → not (is_nil seen) ≡ true
unfolding lookup
seen_filled [] seen agree full = cc
seen_filled ((i, s) ∷ blocks) [] agree full = ground (arith, agree i, beq_refl i)
seen_filled ((i, s) ∷ blocks) (j ∷ seen) agree full = refl

-- A check that has seen a block and agrees with a ledger of closed blocks is over.
closed_up-Agrees :
    (l : AnthropicStreamLedger) (c : Check)
    → Agrees l.content_blocks l.blocks.next_index c
    → ((i : ℕ) → open_as any_type (lookup i l.content_blocks) ≡ false)
    → filled l ≡ true
    → closed_up (some c) ≡ true
closed_up-Agrees l c agrees shut full =
    let empty : c.open_blocks ≡ [] =
      empty_of_lookup c.open_blocks
        (λ i. agrees.opens i ∙ closed_storage (lookup i l.content_blocks) (shut i)) in
    rw empty (seen_filled l.content_blocks c.seen_blocks agrees.seen full)

abbrev start_check : Check
start_check = record { open_blocks = []; seen_blocks = [] }

started-Passes :
    (commands : List Command) (id model : String) (n : ℕ)
    → Passes false
        ((write_message_start ⨾ perform_all commands) (new_ledger id model n))
        start_check
started-Passes commands id model n =
    let l = new_ledger id model n in
    let t = new-Tracks id model n in
    Passes-⨾ false write_message_start (perform_all commands) l start_check
      (
        start_check,
        (unfold write_message_start check_events check_event in refl),
        (unfold write_message_start in record { agrees = t.agrees; running = t.running }),
      )
      (λ d u. perform_all-Passes false commands (write_message_start l).1 d u)

-- After any list of commands of Session, so between two commands of a response and not within one, the
-- events so far pass the contract's check of each event, the blocks that the check has open are those
-- that the ledger has open, with their types, and each of them is the running text or thinking block
-- or the block of a started tool. A tool call that is written as a whole and a redacted thinking block
-- are one command each.
pub perform_all-open_blocks :
    (commands : List Command) (id model : String) (n : ℕ)
    → let (events, l) = (write_message_start ⨾ perform_all commands) (new_ledger id model n) in
      (c : Check) × (check_events false events start_check ≡ some c)
      × ((i : ℕ) → lookup i c.open_blocks ≡ open_storage (lookup i l.content_blocks))
      × ((i : ℕ) → open_as any_type (lookup i l.content_blocks) ≡ true → active l.blocks i ≡ true)
perform_all-open_blocks commands id model n =
    let (c, pass, t) = started-Passes commands id model n in
    (c, pass, t.agrees.opens, t.running.covered)

-- Every response that is made of the commands of Session meets the stream contract: whatever the
-- commands before and after the placeholder are, the events have a start and end with `message_stop`, no block index
-- is used twice, each delta goes to an open block of its type, and every block is closed.
pub respond-stream_contract :
    (commands held : List Command) (id model : String) (n : ℕ) (stop_reason : String)
    (output_tokens input_tokens : Option ℕ) (usage_fields : List (String × ℕ))
    → stream_contract false
        (respond commands held stop_reason output_tokens input_tokens usage_fields
          (new_ledger id model n)).0
      ≡ true
unfolding respond stream_contract
respond-stream_contract commands held id model n stop_reason output_tokens input_tokens
      usage_fields =
    let l = new_ledger id model n in
    let start = write_message_start ⨾ perform_all commands in
    let last = finish held stop_reason output_tokens input_tokens usage_fields in
    let m = (start l).1 in
    let begin = started-Passes commands id model n in
    let (d, pass, agrees, shut) =
      Closes-⨾ false start last l start_check begin (λ d u.
        finish-Closes held stop_reason output_tokens input_tokens usage_fields false m d u) in
    let (e, first, u) = begin in
    let based : founded m ≡ true =
      (Keeps-perform_all commands (write_message_start l).1).1
        (unfold write_message_start new_ledger in refl) in
    let full = finish-filled held stop_reason output_tokens input_tokens usage_fields m e u based in
    let over = closed_up-Agrees (last m).1 d agrees shut full in
    let begins : has_message_start ((start ⨾ last) l).0 ≡ true =
      unfold write_message_start in refl in
    let ends : ends_terminal false ((start ⨾ last) l).0 ≡ true =
      ends_terminal-append false (start l).0 (last m).0
        (finish_ends held stop_reason output_tokens input_tokens usage_fields m) in
    subst
      (λ r.
        (has_message_start ((start ⨾ last) l).0
          && ends_terminal false ((start ⨾ last) l).0
          && closed_up r)
        ≡ true)
      (sym pass) (ground (arith, begins, ends, over))
