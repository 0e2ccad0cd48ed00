-- ===== src/Client.antt =====
-- terminal-web/src/live/client.ts: a connection to a live terminal session.
pub mod State
pub mod Geometry
pub mod Frames
pub mod Writes
pub mod Events
pub mod Delivered
pub mod InOrder
pub mod Sequence
pub mod Course
pub mod Late
pub mod Queue
mod Tests
