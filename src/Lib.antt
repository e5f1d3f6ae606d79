-- ===== src/Lib.antt =====
-- Verification of the core of free-claude-code, a proxy that serves the Anthropic Messages API
-- from other providers. This library models the parts that keep state between requests or between
-- the events of a response, as pure functions on that state.
--
-- A request to a provider first waits for a place in a sliding window
-- (src/free_claude_code/core/rate_limit.py). A provider with several API keys then takes a key
-- from its pool (src/free_claude_code/providers/key_pool.py), which has one such window for each
-- key, and tries further keys after a rate limit or an overload. The chunks of the answer are
-- written as an Anthropic event stream through a ledger of content blocks
-- (src/free_claude_code/core/anthropic/streaming/ledger.py), whose calls
-- src/free_claude_code/providers/openai_chat/provider.py and
-- src/free_claude_code/providers/openai_chat/tool_calls.py make, and the shape of such a stream is
-- what src/free_claude_code/core/anthropic/stream_contracts.py asserts.
--
-- Files:
--   Prelude, Prelude/*: names of the libraries, Boolean tests on native numbers, list lemmas,
--     the dictionary, and the pigeonhole lemma.
--   RateLimit, RateLimit/*: StrictSlidingWindowLimiter. `acquire_round` is one pass of the loop
--     of `_acquire`, which holds the lock; `acquire` is the loop over the passes of one caller.
--   KeyPool, KeyPool/*: KeySlot and KeyPool. `select_eligible` is `_select_eligible`; Rotation
--     has `create_with_rotation`, with everything the request meets in a record `World`.
--   AnthropicStream, AnthropicStream/*: the state in AnthropicStream, StreamBlockLedger in
--     Blocks, the recording methods of AnthropicStreamLedger in Ledger, its methods that yield
--     events in Writer, the assertion in Contract, and the calls of a response in Session. The
--     other files are proofs: the ledger and the state of the assertion are followed together
--     through every call.
--   MessageTrees, MessageTrees/*: Queue is MessageNodeQueue of
--     src/free_claude_code/messaging/trees/queue.py, the messages of a conversation that wait for
--     their turn, and Graph is MessageTreeGraph of src/free_claude_code/messaging/trees/graph.py,
--     the messages of a conversation with their status messages, with its traversals in Walk.
--     Runtime and Cancel have MessageTree of src/free_claude_code/messaging/trees/runtime.py, one
--     definition per call, and Transitions the values that its calls return. Snapshot
--     reads a node of src/free_claude_code/messaging/trees/snapshot.py. Steps puts the calls
--     one after another; the other files are proofs.
--   GatewayModelIds, GatewayModelIds/*: src/free_claude_code/core/gateway_model_ids.py with the
--     two parsers of src/free_claude_code/config/model_refs.py, which name a provider's model for
--     the client and read the name back.
--
-- Numbers: a reading of the monotonic clock and a time span are natural numbers of ticks. A Python
-- float is rounded, which the models leave out. `t <= now - window` is written `t + window ≤ now`.
-- The index -1 of a block that never started is `none`.
--
-- Loops: the scan of the ring runs over the number of slots, as the source's `range(n)` does, and
-- so does the lap of `create_with_rotation`. The two traversals of a message tree have as many
-- turns as the tree has nodes, or prompts and statuses: `walk` is the state of the loop after so many
-- turns, with the stack that is left, and the relation `Walks` is the loop without a bound, which the
-- results about the two traversals are stated with. All other loops are recursion on a list. The
-- loop of `_acquire` waits for an unbounded time; `acquire` runs over the passes that it is given.
--
-- Concurrency: tasks run between two awaits without interruption. A model step is the code between
-- two awaits, and what other tasks do meanwhile is a function of the pool in `World`, or another
-- pass in the list of passes. A call on a message tree holds the tree's lock, so it is one step.
--
-- Errors: where a call on a message tree raises a ValueError, the model answers `none` and says
-- nothing of the tree that the call leaves. A Python set of ids is a list, in some order.
--
-- Not modelled: JSON and the text form of events, HTTP, tokenizers, logging, and the parts of the
-- program that this library has no file for: the conversion of messages, messaging platforms, the
-- manager and the restoring of message trees, the OpenAI Responses API, admission and recovery,
-- configuration, the command line and the API server.
pub mod Prelude
pub mod RateLimit
pub mod KeyPool
pub mod AnthropicStream
pub mod MessageTrees
pub mod GatewayModelIds
