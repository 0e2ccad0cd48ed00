-- ===== src/Live/Frame.antt =====
-- Frames of live/codec.ts: the eight byte header, and the incremental decoder.
pub mod Parses
pub mod Stream
pub mod Written
use floeterm.Common.{
  ℕ, zero, suc, ◌+◌, ◌-◌, ◌≡◌, Bool, true, false, ◌&&◌, ◌||◌, not, List, [], ◌∷◌, ◌++◌, length,
  take, drop, ltb, leb, ◌==◌, if◌then◌else◌, Option, none, some,
}
use floeterm.Common.Fallible.{Result, ok, err, ◌>>=◌, ◌>>◌, guard}
use floeterm.Live.Failure.{
  Failure, Outcome, unknown_frame_type, payload_too_large, reserved_bits, out_of_range,
}
use floeterm.Live.Bytes.{Bytes, to_be, from_be, get_uint}

abbrev pub frame_header_bytes : ℕ
frame_header_bytes = 8

abbrev pub max_frame_payload_bytes : ℕ
max_frame_payload_bytes = 262_144

abbrev pub max_input_bytes : ℕ
max_input_bytes = 65_536

abbrev pub max_output_batch_bytes : ℕ
max_output_batch_bytes = 65_536

abbrev pub max_output_batch_chunks : ℕ
max_output_batch_chunks = 256

abbrev pub max_identifier_bytes : ℕ
max_identifier_bytes = 256

pub data FrameType : Type 0 where
  attach input resize detach : FrameType
  attached output_batch resize_applied session_closed geometry_changed error : FrameType

abbrev pub type_byte : FrameType → ℕ
type_byte attach = 0x01
type_byte input = 0x02
type_byte resize = 0x03
type_byte detach = 0x04
type_byte attached = 0x81
type_byte output_batch = 0x82
type_byte resize_applied = 0x83
type_byte session_closed = 0x84
type_byte geometry_changed = 0x85
type_byte error = 0xff

-- `isFrameType`, with the type that the byte stands for.
unfoldable pub frame_type_of : ℕ → Option FrameType
frame_type_of b =
    if b == 0x01
    then some attach
    else if b == 0x02
    then some input
    else if b == 0x03
    then some resize
    else if b == 0x04
    then some detach
    else if b == 0x81
    then some attached
    else if b == 0x82
    then some output_batch
    else if b == 0x83
    then some resize_applied
    else if b == 0x84
    then some session_closed
    else if b == 0x85
    then some geometry_changed
    else if b == 0xff
    then some error
    else none

pub record Frame : Type 0 where
  pub type : FrameType
  pub flags : ℕ
  pub payload : Bytes

-- `frame`: a type of the enumeration always passes `isFrameType`.
unfoldable pub frame : FrameType → Bytes → Outcome Bytes
frame type payload =
    if ltb max_frame_payload_bytes (length payload)
    then err payload_too_large
    else ok ((type_byte type) ∷ 0 ∷ 0 ∷ 0 ∷ (to_be 4 (length payload) ++ payload))

-- One round of the decoder's loop, on the bytes from `offset` on: no frame yet, or a frame and the
-- bytes behind it.
unfoldable pub next_frame : Bytes → Outcome (Option (Frame × Bytes))
next_frame (t ∷ flags ∷ r0 ∷ r1 ∷ l0 ∷ l1 ∷ l2 ∷ l3 ∷ rest) = elim (frame_type_of t) [
  | none ↦ err unknown_frame_type
  | some type ↦
      if not (flags == 0) || not (from_be 0 (r0 ∷ r1 ∷ []) == 0)
      then err reserved_bits
      else let payload_length = from_be 0 (l0 ∷ l1 ∷ l2 ∷ l3 ∷ []) in
        if ltb max_frame_payload_bytes payload_length
        then err payload_too_large
        else if ltb (length rest) payload_length
        then ok none
        else ok (
            some (
              record { type = type; flags = 0; payload = take payload_length rest },
              drop payload_length rest,
            ))
]
next_frame _ = ok none

-- The loop: each round but the last takes a frame, eight bytes at least, off the buffer.
unfoldable pub decode_rounds : ℕ → Bytes → Outcome (List Frame × Bytes)
decode_rounds zero buffer = ok ([], buffer)
decode_rounds (suc rounds) buffer = elim (next_frame buffer) [
  | err e ↦ err e
  | ok none ↦ ok ([], buffer)
  | ok (some (f, rest)) ↦ do (frames, last) ← decode_rounds rounds rest; ok (f ∷ frames, last)
]

unfoldable pub settle : Bytes → Outcome (List Frame × Bytes) → Outcome (List Frame) × Bytes
settle joined (ok (frames, rest)) = (ok frames, rest)
settle joined (err e) = (err e, joined)

-- `TerminalLiveDecoder.push`, with the buffer that it leaves: after a throw, all that was joined.
unfoldable pub push : Bytes → Bytes → Outcome (List Frame) × Bytes
unfolding settle decode_rounds next_frame frame_type_of from_be
push buffer chunk =
    settle (buffer ++ chunk) (decode_rounds (length (buffer ++ chunk)) (buffer ++ chunk))
