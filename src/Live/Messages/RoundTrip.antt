-- ===== src/Live/Messages/RoundTrip.antt =====
-- What the encoders of live/codec.ts accept, the decoders read back.
pub mod Resize
pub mod Geometry
pub mod Applied
pub mod Input
pub mod Attached
