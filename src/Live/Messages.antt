-- ===== src/Live/Messages.antt =====
-- The messages of live/codec.ts with fixed payloads: input, resize, attached, resize applied and
-- geometry changed.
pub mod RoundTrip
use floeterm.Common.{
  ℕ, ◌+◌, ◌-◌, Bool, not, ◌||◌, ◌++◌, [], length, drop, ltb, leb, ◌==◌, if◌then◌else◌,
}
use floeterm.Common.Fallible.{Result, ok, err, ◌>>=◌, ◌>>◌, guard}
use floeterm.Common.Number.{ℤ, pos, Number, whole}
use floeterm.Live.Failure.{
  Failure, Outcome, unexpected_frame_type, input_payload, input_length, resize_payload,
  attached_payload, history_start_exceeds, resize_applied_payload, geometry_payload,
}
use floeterm.Live.Bytes.{Bytes, to_be, get_uint}
use floeterm.Live.Fields.{positive_uint32, positive_uint64, uint64, big_uint64}
use floeterm.Live.Frame.{Frame, FrameType, type_byte, frame, max_input_bytes}

pub record Input : Type 0 where
  pub sequence : ℤ
  pub bytes : Bytes

pub record Resize : Type 0 where
  pub sequence : ℤ
  pub cols : Number
  pub rows : Number

pub record Attached : Type 0 where
  pub history_boundary_sequence : ℤ
  pub history_generation : ℤ
  pub history_start_sequence : ℤ
  pub geometry_generation : ℤ
  pub cols : Number
  pub rows : Number

pub record ResizeApplied : Type 0 where
  pub sequence : ℤ
  pub geometry_generation : ℤ
  pub output_sequence_boundary : ℤ
  pub cols : Number
  pub rows : Number

pub record GeometryChanged : Type 0 where
  pub generation : ℤ
  pub output_sequence_boundary : ℤ
  pub cols : Number
  pub rows : Number

-- `if (value.type !== …) throw`.
abbrev pub expect_type : FrameType → Frame → Outcome (Unit {0})
expect_type t f = guard (type_byte f.type == type_byte t) unexpected_frame_type

unfoldable pub encode_input : Input → Outcome Bytes
encode_input value = do
  sequence ← positive_uint64 value.sequence
  guard (not (length value.bytes == 0 || ltb max_input_bytes (length value.bytes))) input_length
  frame FrameType.input (to_be 8 sequence ++ value.bytes)

unfoldable pub decode_input : Frame → Outcome Input
decode_input value = do
  expect_type FrameType.input value
  guard (not (leb (length value.payload) 8 || ltb max_input_bytes (length value.payload - 8)))
      input_payload
  sequence ← get_uint 8 value.payload 0
  _ ← positive_uint64 (pos sequence)
  ok (record { sequence = pos sequence; bytes = drop 8 value.payload })

unfoldable pub encode_resize : Resize → Outcome Bytes
encode_resize value = do
  sequence ← positive_uint64 value.sequence
  cols ← positive_uint32 value.cols
  rows ← positive_uint32 value.rows
  frame FrameType.resize (to_be 8 sequence ++ (to_be 4 cols ++ (to_be 4 rows ++ [])))

unfoldable pub decode_resize : Frame → Outcome Resize
decode_resize value = do
  expect_type FrameType.resize value
  guard (length value.payload == 16) resize_payload
  sequence ← get_uint 8 value.payload 0
  cols ← get_uint 4 value.payload 8
  rows ← get_uint 4 value.payload 12
  _ ← positive_uint64 (pos sequence)
  _ ← positive_uint32 (whole cols)
  _ ← positive_uint32 (whole rows)
  ok (record { sequence = pos sequence; cols = whole cols; rows = whole rows })

-- a > b + 1, on BigInts, where a has passed `positive_uint64`.
unfoldable pub exceeds_next : ℕ → ℤ → Bool
exceeds_next a (pos b) = ltb (b + 1) a
exceeds_next a (ℤ.negsuc b) = ltb 0 (a + b)

unfoldable pub encode_attached : Attached → Outcome Bytes
encode_attached value = do
  history_generation ← positive_uint64 value.history_generation
  history_start ← positive_uint64 value.history_start_sequence
  geometry_generation ← positive_uint64 value.geometry_generation
  cols ← positive_uint32 value.cols
  rows ← positive_uint32 value.rows
  guard (not (exceeds_next history_start value.history_boundary_sequence)) history_start_exceeds
  frame FrameType.attached (
      to_be 8 (big_uint64 value.history_boundary_sequence)
      ++ (to_be 8 history_generation
          ++ (to_be 8 history_start
              ++ (to_be 8 geometry_generation ++ (to_be 4 cols ++ (to_be 4 rows ++ []))))))

unfoldable pub decode_attached : Frame → Outcome Attached
decode_attached value = do
  expect_type FrameType.attached value
  guard (length value.payload == 40) attached_payload
  history_boundary ← get_uint 8 value.payload 0
  history_generation ← get_uint 8 value.payload 8
  history_start ← get_uint 8 value.payload 16
  geometry_generation ← get_uint 8 value.payload 24
  cols ← get_uint 4 value.payload 32
  rows ← get_uint 4 value.payload 36
  _ ← positive_uint64 (pos history_generation)
  _ ← positive_uint64 (pos history_start)
  _ ← positive_uint64 (pos geometry_generation)
  _ ← positive_uint32 (whole cols)
  _ ← positive_uint32 (whole rows)
  guard (not (exceeds_next history_start (pos history_boundary))) history_start_exceeds
  ok (record {
    history_boundary_sequence = pos history_boundary;
    history_generation = pos history_generation;
    history_start_sequence = pos history_start;
    geometry_generation = pos geometry_generation;
    cols = whole cols;
    rows = whole rows;
  })

unfoldable pub encode_resize_applied : ResizeApplied → Outcome Bytes
encode_resize_applied value = do
  sequence ← positive_uint64 value.sequence
  geometry_generation ← positive_uint64 value.geometry_generation
  boundary ← uint64 value.output_sequence_boundary
  cols ← positive_uint32 value.cols
  rows ← positive_uint32 value.rows
  frame FrameType.resize_applied (
      to_be 8 sequence
      ++ (to_be 8 geometry_generation
          ++ (to_be 8 boundary ++ (to_be 4 cols ++ (to_be 4 rows ++ [])))))

unfoldable pub decode_resize_applied : Frame → Outcome ResizeApplied
decode_resize_applied value = do
  expect_type FrameType.resize_applied value
  guard (length value.payload == 32) resize_applied_payload
  sequence ← get_uint 8 value.payload 0
  geometry_generation ← get_uint 8 value.payload 8
  boundary ← get_uint 8 value.payload 16
  cols ← get_uint 4 value.payload 24
  rows ← get_uint 4 value.payload 28
  _ ← positive_uint64 (pos sequence)
  _ ← positive_uint64 (pos geometry_generation)
  _ ← uint64 (pos boundary)
  _ ← positive_uint32 (whole cols)
  _ ← positive_uint32 (whole rows)
  ok (record {
    sequence = pos sequence;
    geometry_generation = pos geometry_generation;
    output_sequence_boundary = pos boundary;
    cols = whole cols;
    rows = whole rows;
  })

unfoldable pub encode_geometry_changed : GeometryChanged → Outcome Bytes
encode_geometry_changed value = do
  generation ← positive_uint64 value.generation
  boundary ← uint64 value.output_sequence_boundary
  cols ← positive_uint32 value.cols
  rows ← positive_uint32 value.rows
  frame FrameType.geometry_changed
      (to_be 8 generation ++ (to_be 8 boundary ++ (to_be 4 cols ++ (to_be 4 rows ++ []))))

unfoldable pub decode_geometry_changed : Frame → Outcome GeometryChanged
decode_geometry_changed value = do
  expect_type FrameType.geometry_changed value
  guard (length value.payload == 24) geometry_payload
  generation ← get_uint 8 value.payload 0
  boundary ← get_uint 8 value.payload 8
  cols ← get_uint 4 value.payload 16
  rows ← get_uint 4 value.payload 20
  _ ← positive_uint64 (pos generation)
  _ ← uint64 (pos boundary)
  _ ← positive_uint32 (whole cols)
  _ ← positive_uint32 (whole rows)
  ok (record {
    generation = pos generation;
    output_sequence_boundary = pos boundary;
    cols = whole cols;
    rows = whole rows;
  })
