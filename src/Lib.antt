-- ===== src/Lib.antt =====
-- The output path of floeterm's browser library, terminal-web: the bytes that a live session sends,
-- from the wire to the terminal. Everything is translated from TypeScript; paths are from the
-- repository's root.
--
-- The parts, in the order that output goes through them:
-- * Live models terminal-web/src/live/codec.ts, the binary protocol. `Live.Frame` has the frame
--   header and the incremental decoder `TerminalLiveDecoder` (`push`), `Live.Messages` the messages
--   of fixed size, `Live.Batch` output batches, `Live.Attach` the messages with text. Encoders and
--   decoders are functions into `Outcome`, whose `err` carries what the code throws.
-- * Client models terminal-web/src/live/client.ts, a connection after its attach has been answered.
--   `Client.State` has the state, `Client.Geometry` the geometries that wait for output,
--   `Client.Frames` the read loop, frame by frame, `Client.Writes` the chain of writes, and
--   `Client.Events` puts them together: a call, a frame, or the end of a read or a write is an event,
--   and any sequence of events is a course of the connection. Promises and callbacks are effects in
--   the connection's log.
-- * Pipeline models terminal-web/src/core/TerminalOutputPipeline.ts, which batches output into
--   frames, keeps it back while the terminal is not interactive, and holds it while a catch-up is
--   pending. `Pipeline.State` has the state and the small helpers, `Pipeline.CatchUp` the queue
--   that waits for a catch-up and the inactive queue, `Pipeline.Calls` the calls that move output
--   and the frame callback, `Pipeline.Lifecycle` resets, disposal and any sequence of calls. What
--   `isInteractive` answers is an argument of each call, a requested frame is an event that may
--   come whenever one is scheduled, and what is written is an effect in the log.
-- * Paged models terminal-web/src/core/PagedTerminalOutputCoordinator.ts, which joins pages of history
--   and live output into one sequence. `Paged.History` and `Paged.Preparation` are
--   `preparePagedTerminalHistory`. `Paged.State` has the coordinator's state, with what is suspended
--   at an `await`; `Paged.Live` live output and the start of a recovery, `Paged.Batches` what is
--   replayed and the batches of a write, `Paged.Pages`, `Paged.Loop` and `Paged.Retry` the body of
--   `runRecovery`, `Paged.Attach` and `Paged.Calls` the calls, `Paged.Writers` what goes on after an
--   `await`, and `Paged.Events` puts them together. A call, a page that arrives, a timer and a writer
--   that returns are events, and any sequence of events is a course of the coordinator. A recovery
--   that is no longer current is dropped from the state where `cancelRecovery` makes it stale, since
--   its next check then ends it.
-- * Reorder models terminal-web/src/internal/SequenceBuffer.ts, which puts chunks in sequence.
-- * Admission models terminal-web/src/internal/TerminalInitializationScheduler.ts, the gate that
--   terminals pass before they initialize. A turn that it asks for is an event; a waiter carries the
--   `released` of its permit, which is there once the permit has been granted, and only then is there
--   a `release` to call.
-- * AutoResponse models terminal-web/src/utils/xtermAutoResponseFilter.ts, which takes the emulator's
--   automatic answers out of the input; an index into the string is the list of the units from there.
-- * Shell models terminal-web/src/shell/TerminalShellIntegrationParser.ts, which takes what the shell
--   says of its prompts and commands out of the output. The parser's state is the bytes pending.
-- * Common has lists, maps, sets and results under the names that the parts share, and JavaScript
--   numbers as far as the code looks into them.
--
-- Numbers and bounds. Sequences, sizes and counters are natural numbers; JavaScript numbers from
-- outside are `Number`, which tells whole numbers from fractions and from NaN and the infinities.
-- BigInts are integers, with the 64 bit wrap of `DataView.setBigUint64` written out. A byte is a
-- natural number; where a result depends on its size, the statement says so.
--
-- Fuel. The decoder's loop has as many rounds as the buffer has bytes, and each round but the last
-- takes eight bytes off it. The loop over pages of history runs over the pages that the fetches
-- answer with. The loop over pending sequences has as many rounds as there are entries;
-- the loops over batches of the live queue and over waiters have one round more. Each round takes
-- an entry off. The filter's loop has as many rounds as there are units, the shell
-- parser's one more than there are bytes, and a round takes three of them.
--
-- Assumptions. Text is abstract: `TextEncoder` and `TextDecoder`, `Number` of a
-- text and the normalisation of a program's name are functions that the definitions
-- take, and a round trip of text is a hypothesis where it is needed. Callbacks return, do not throw
-- and do not call back into the object that called them. A write of the stream succeeds or fails;
-- closing it does not fail.
--
-- The coordinator of pages is attached and cleared at natural numbers, and pages hold no field that is
-- undefined; the order of the retries' delays is kept, their length is not used.
--
-- A start sequence of the pipeline is not strictly between 0 and 1: the code would round it down to 0
-- and leave its two cursors at -1, where the model has 0. The queues, the accounts and the log of what
-- has been done are not touched by this; only which later chunks count as gaps would be.
--
-- Not modelled: opening the stream and sending the attach frame, the statistics' getter of the
-- pipeline, the abort signals, pauses and state notifications of the coordinator of pages, the
-- sessions coordinator, the transport and the render scheduler of terminal-web, everything that
-- draws or handles the page's events, the Go server (terminal-go and app/backend) and the Rust
-- renderer (beamterm-renderer). The first are planned; the others are browser glue or other
-- languages.
pub mod Common
pub mod Reorder
pub mod Live
pub mod Pipeline
pub mod Client
pub mod Admission
pub mod AutoResponse
pub mod Paged
pub mod Shell
