-- ===== src/Lib.antt =====
-- rupi is an agent harness for a terminal: a session asks a model, runs the tools that the model
-- calls, keeps the transcript, and shows all of it. This library models the parts of it that decide.
--
-- The program's parts that are modelled, and how they interact. What comes from a peer, a provider's
-- event stream or a tool server, is cut into lines by the reader of bounded.rs, which a
-- caller may call again after an I/O error. A request that fails becomes a `ModelFailure`
-- (failure.rs), classified from the HTTP status and the message; the turn loop asks `decide`
-- (failover.rs) whether to ask again, to go on with the backup model or to stop, and that looks at the
-- gaps between the backup's snapshot and what the session requires (capability.rs). The stream of an
-- answer is cut into events (sse.rs), whose pieces the decoder puts together (decode.rs). Where the
-- history has become too long, the turn loop takes its oldest messages out (turn.rs). Between requests
-- the context policy (context.rs) compares the size of the context with thresholds that fit the
-- model's window, and decides on a warning, a compaction or a checkpoint. A tool's output that is too
-- long is shown in part (reduce.rs). The arguments of a prompt template go into its text
-- (substitute.rs). Old sessions are deleted within two bounds (retention.rs). What
-- the user types goes into the buffer of editor.rs, which completes commands by complete.rs and
-- measures characters by width.rs.
--
-- Files, and the sources they model:
--   Prelude            shared names; Prelude/Tests the Boolean tests of numbers, Prelude/Lists lists
--                      measured by native numbers, Prelude/Text texts as lists of code points
--   Core/Bounded       crates/rupi-core/src/bounded.rs: `BoundedLineReader`. `read_line` with its loop
--                      as `read_loop`, whose body `read_buffer` has the branches of the source
--                      (`skip_line`, `keep_line`, `overflow_line`). Lines and Framing: the lines that
--                      come out of a source without errors; Limits: the bytes, whatever the source does;
--                      Retry: a call after an error
--   Core/Capability    crates/rupi-core/src/capability.rs: `ModelRef`, `ModelCapabilities`, `gaps`
--   Core/Failure       crates/rupi-core/src/failure.rs: `ModelFailure`, its builders (one constructor
--                      of `Builder` for each `with_` method), `classify_http`
--   Core/Context       crates/rupi-core/src/context.rs: states, thresholds and `evaluate_with`, the
--                      body of `evaluate`; Context/Profile the profiles and `ProfilePolicy`;
--                      Context/External the evidence of external providers; Ladder and Policy the
--                      proofs
--   Runtime/Failover   crates/rupi-runtime/src/failover.rs: `FailoverPolicy` and `decide`
--   Core/Message       crates/rupi-core/src/message.rs, with tool.rs and provenance.rs beside it
--   Core/Completion    crates/rupi-core/src/provider.rs: the limits of a response, its usage and events
--   Runtime/Turn       crates/rupi-runtime/src/turn.rs: `recover` with `rebudget`; Attempt `attempt` as
--                      `attempt_loop`, whose rounds are the steps of the source from `round` to `act`;
--                      Rebudget, Recovering, Rounds, Counts, Attempts and Committed the proofs
--   Runtime/History    the same file: `evict_oldest_with_estimate` as `evict_oldest`, and the boundaries;
--                      Boundary, Searches, Best, Choice and Eviction the proofs
--   Provider/Decode    crates/rupi-provider/src/decode.rs: `Decoder`; Accumulate `accumulate_tool`, Chunks
--                      `chunk` as `chunk_of`, Finish `finish`; Slots, Keys, Sound, Selection, Filling,
--                      Pushing, Limits, Chunks/Accounts and Finish/Settled the proofs
--   Provider/Sse       crates/rupi-provider/src/sse.rs: `next_event` as `event_loop` on the lines of
--                      Core/Bounded; Lines and Progress the proofs
--   Tools/Reduce       crates/rupi-tools/src/reduce.rs: `reduce`, with `str` as its UTF-8 bytes
--   Store/Retention    crates/rupi-store/src/retention.rs: `plan`, by the record `Layout` of what it
--                      reads from the directory; Sweep the choice of victims, Spared what is never
--                      chosen; Pass `apply`, with what the leases and the removals answer
--   Compat/Substitute  crates/rupi-compat/src/substitute.rs: `substitute` as `substitute_loop`; Pieces its
--                      grammar as data and what it stands for, Fuel, Braced and Expands the proofs
--   Tui/Width          crates/rupi-tui/src/width.rs: the columns of a character
--   Tui/Editor         crates/rupi-tui/src/editor.rs: the buffer; Buffer its edits, Words and Motion
--                      the caret's moves, Rows the rows of the display, Complete the Tab key with
--                      crates/rupi-tui/src/complete.rs, Apply the match of `apply`. Zipper and
--                      Views give the text on either side of the caret; Valid the invariant; Edits
--                      and Deletes hold what the edits do; Caret, ByWord, ByRow, Tab and Keeps the
--                      invariant of each intent, Tiles the rows of a line, Session whole runs
--   .../Tests          runs at concrete values, and the theorems applied to them
--
-- How state and errors are modelled. An operation takes the state and gives the new one. The editor's
-- lines are lists of characters, so that a byte offset of the source is a number of characters. A
-- `BufRead` is the list of what `fill_buf` will give: a chunk that is not empty, or an I/O error that
-- carries a code; behind the list the source is at its end. A panic is a value where one can occur: an
-- unsigned subtraction that would go below zero is `overflowed` in Tools/Reduce. Messages that only a
-- person reads are constructors that carry the numbers in them.
--
-- Numbers are natural numbers. The sources' counters are `usize` or `u64` and stay below the sizes of
-- what is in memory or on the disk; a saturating subtraction is the subtraction of natural numbers,
-- and the saturating product of retention.rs is written out.
--
-- Parameters, for what is not in the repository: the operations of `f64` (`Floats`, of which nothing
-- is assumed), `char::is_alphanumeric` (the section of Words), the text of the notice (`reduce`),
-- which is a `format!`, `String::from_utf8` (Sse), `serde_json::from_str` (Finish) and `ToolCallId::new`
-- (Decode), of which nothing is assumed. The size of a request, by its messages, is a parameter of
-- History, and in Turn a field of the provider that is asked; the restoration of omitted arguments is one
-- in Finish; both are code of the repository that is not modelled. What a provider, the trace and the
-- user answer in one round of `attempt` is the record `Round`, with the history that `build_request`
-- leaves, which may be any, and a run is over a list of them.
--
-- Loops. `read_loop` recurs on the list of events; the loops of Words, Rows and Complete that run an
-- index up to a length are given that length as fuel, and each round uses at least one character, so
-- that the fuel is as much as is needed. `event_loop` has a unit of fuel for each byte that is left,
-- since every line takes one, and `substitute_loop` one for each character.
--
-- Not modelled: input and output, the terminal, HTTP and processes, the rest of the store, the
-- TypeScript host, the outer loop of a turn over tool calls, `build_request` and compaction; and, of
-- the files above, `Display` and serde code, the capsule of context.rs, and the layout of
-- `Editor::display`.
pub mod Prelude
pub mod Compat
pub mod Core
pub mod Runtime
pub mod Provider
pub mod Tools
pub mod Store
pub mod Tui
