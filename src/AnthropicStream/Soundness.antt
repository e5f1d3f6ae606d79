-- ===== src/AnthropicStream/Soundness.antt =====
-- The commands of a response, as the ledger of core/anthropic/streaming/ledger.py writes them, against
-- the check of each event in core/anthropic/stream_contracts.py.
use test2_freeclaudecode.Prelude.{Bool, not, none, some, List, [], ◌∷◌, nat_eq, string_eq, arith}
use test2_freeclaudecode.AnthropicStream.{
  tool_use_block, redacted_block, input_json_delta, AnthropicStreamLedger,
}
use test2_freeclaudecode.AnthropicStream.Writer.{
  skip, write_block_delta, start_tool_block, emit_tool_delta, close_content_blocks,
}
use test2_freeclaudecode.AnthropicStream.Contract.{Check}
use test2_freeclaudecode.AnthropicStream.Session.{
  ToolStep, tool_step, call_tool, or_skip, Command, say_text, say_thinking, begin_thinking,
  end_content, set_tool_id, set_tool_extra, name_tool, open_tool, tool_args, whole_tool, redacted,
  tool_runs, whole_block, perform, perform_all,
}
use test2_freeclaudecode.AnthropicStream.Tracking.{Tracks}
use test2_freeclaudecode.AnthropicStream.Steps.{Passes, Passes-skip, Passes-⨾}
use test2_freeclaudecode.AnthropicStream.Closing.{
  ensure_thinking-Passes, Passes-when, close_content-Passes, say_text-Passes, say_thinking-Passes,
}
use test2_freeclaudecode.AnthropicStream.ToolCalls.{
  name_tool-Passes, tool_id-Passes, tool_extra-Passes, open_tool-Passes, tool_args-Passes,
}
use test2_freeclaudecode.AnthropicStream.Whole.{whole_tool-Passes, redacted-Passes}

module _ (a : Bool) (l : AnthropicStreamLedger) (c : Check) (t : Tracks l c) where
  tool_step-Passes : (step : ToolStep) → Passes a (tool_step step l) c
  unfolding tool_step
  tool_step-Passes (set_tool_id index id) = tool_id-Passes a l c t index id
  tool_step-Passes (set_tool_extra index extra) = tool_extra-Passes a l c t index extra
  tool_step-Passes (name_tool index name) = name_tool-Passes a l c t index name
  tool_step-Passes (open_tool index id name extra) =
      Passes-when a (λ m. not (tool_runs index m)) (start_tool_block index id name extra) l c t
        (λ idle. open_tool-Passes a l c t index id name extra (ground (arith, idle)))
  tool_step-Passes (tool_args index partial) =
      Passes-when a (tool_runs index) (λ m. or_skip (emit_tool_delta index partial m) m) l c t
        (tool_args-Passes a l c t index partial)

  perform-Passes : (command : Command) → Passes a (perform command l) c
  unfolding perform
  perform-Passes (say_text content) = say_text-Passes a l c t content
  perform-Passes (say_thinking content) = say_thinking-Passes a l c t content
  perform-Passes begin_thinking = ensure_thinking-Passes a l c t
  perform-Passes end_content = close_content-Passes a l c t
  perform-Passes (call_tool step) = tool_step-Passes step
  perform-Passes (whole_tool id name json) =
      Passes-⨾ a close_content_blocks
        (whole_block (tool_use_block id name none)
          (λ index. write_block_delta (some index) input_json_delta json))
        l c (close_content-Passes a l c t)
        (λ d u. whole_tool-Passes a (close_content_blocks l).1 d u id name json)
  perform-Passes (redacted encrypted) =
      Passes-⨾ a close_content_blocks (whole_block (redacted_block encrypted) (λ index. skip)) l c
        (close_content-Passes a l c t)
        (λ d u. redacted-Passes a (close_content_blocks l).1 d u encrypted)

pub perform_all-Passes :
    (a : Bool) (commands : List Command) (l : AnthropicStreamLedger) (c : Check)
    → Tracks l c
    → Passes a (perform_all commands l) c
unfolding perform_all
perform_all-Passes a [] l c t = Passes-skip a l c t
perform_all-Passes a (command ∷ commands) l c t =
    Passes-⨾ a (perform command) (perform_all commands) l c (perform-Passes a l c t command)
      (λ d u. perform_all-Passes a commands (perform command l).1 d u)
