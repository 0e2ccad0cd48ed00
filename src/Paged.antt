-- ===== src/Paged.antt =====
-- terminal-web/src/core/PagedTerminalOutputCoordinator.ts: output from pages of history and from the
-- live stream, joined into one sequence.
pub mod History
pub mod Preparation
pub mod State
pub mod Live
pub mod Batches
pub mod Retry
pub mod Pages
pub mod Loop
pub mod Attach
pub mod Calls
pub mod Writers
pub mod Events
mod Prepared
mod Rounds
mod Termination
mod Taken
mod Cut
mod Kept
mod Resumed
mod Invariant
mod Disposed
mod Refetched
mod Retried
mod Batched
mod Merged
mod Replayed
mod Tests
