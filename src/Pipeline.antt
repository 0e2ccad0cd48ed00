-- ===== src/Pipeline.antt =====
-- terminal-web/src/core/TerminalOutputPipeline.ts: live output is batched into frames, kept back
-- while the terminal is not interactive, and held for a catch-up after a gap.
pub mod State
pub mod CatchUp
pub mod Calls
pub mod Lifecycle
pub mod Accounts
pub mod Counted
pub mod Reachable
pub mod Output
pub mod Flushed
pub mod Held
pub mod Disorder
pub mod Deferral
mod Tests
