-- ===== src/Live.antt =====
-- terminal-web/src/live: the binary protocol of live terminal streams.
pub mod Failure
pub mod Bytes
pub mod Fields
pub mod Frame
pub mod Messages
pub mod Batch
pub mod Attach
mod Tests
