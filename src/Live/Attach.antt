-- ===== src/Live/Attach.antt =====
-- Attach requests, identifiers and error messages of live/codec.ts. Text is a parameter, with the
-- platform's `TextEncoder` and its `TextDecoder` that refuses malformed input.
pub mod RoundTrip
use floeterm.Common.{
  ℕ, ◌+◌, ◌-◌, Bool, not, ◌||◌, ◌++◌, [], length, take, drop, ltb, leb, ◌==◌, if◌then◌else◌, Option,
  none, some,
}
use floeterm.Common.Fallible.{Result, ok, err, ◌>>=◌, ◌>>◌, guard}
use floeterm.Common.Number.{ℤ, pos, Number, whole}
use floeterm.Live.Failure.{
  Failure, Outcome, identifier_length, identifier_payload, attach_payload, error_payload,
  malformed_text,
}
use floeterm.Live.Bytes.{Bytes, to_be, get_uint}
use floeterm.Live.Fields.{positive_uint32, positive_uint64}
use floeterm.Live.Frame.{Frame, FrameType, frame, max_identifier_bytes}
use floeterm.Live.Messages.{expect_type}

pub record Attach (Text : Type 0) : Type 0 where
  pub attach_generation : ℤ
  pub cols : Number
  pub rows : Number
  pub session_id : Text
  pub connection_id : Text

pub record ProtocolError (Text : Type 0) : Type 0 where
  pub code : ℕ
  pub message : Text

module _ {Text : Type 0} (encode_text : Text → Bytes) where
  unfoldable pub write_string : Text → Outcome Bytes
  write_string value =
      let encoded = encode_text value in
      if length encoded == 0 || ltb max_identifier_bytes (length encoded)
      then err identifier_length
      else ok (to_be 2 (length encoded) ++ encoded)

  unfoldable pub encode_attach : Attach Text → Outcome Bytes
  encode_attach value = do
    attach_generation ← positive_uint64 value.attach_generation
    cols ← positive_uint32 value.cols
    rows ← positive_uint32 value.rows
    session ← write_string value.session_id
    connection ← write_string value.connection_id
    frame FrameType.attach
        (to_be 8 attach_generation ++ (to_be 4 cols ++ (to_be 4 rows ++ (session ++ connection))))

module _ {Text : Type 0} (decode_text : Bytes → Option Text) where
  unfoldable pub decode_utf8 : Bytes → Outcome Text
  decode_utf8 bytes = elim (decode_text bytes) [ none ↦ err malformed_text | some text ↦ ok text ]

  -- The text and the offset behind it.
  unfoldable pub read_string : Bytes → ℕ → Outcome (Text × ℕ)
  read_string payload offset = do
    guard (not (ltb (length payload) (offset + 2))) identifier_payload
    size ← get_uint 2 payload (offset + 0)
    guard
        (not (
          size == 0 || ltb max_identifier_bytes size || ltb (length payload) (offset + (2 + size))))
        identifier_length
    text ← decode_utf8 (take size (drop (offset + 2) payload))
    ok (text, offset + (2 + size))

  unfoldable pub decode_attach : Frame → Outcome (Attach Text)
  decode_attach value = do
    expect_type FrameType.attach value
    guard (not (ltb (length value.payload) 22)) attach_payload
    attach_generation ← get_uint 8 value.payload 0
    cols ← get_uint 4 value.payload 8
    rows ← get_uint 4 value.payload 12
    _ ← positive_uint64 (pos attach_generation)
    _ ← positive_uint32 (whole cols)
    _ ← positive_uint32 (whole rows)
    (session_id, next) ← read_string value.payload 16
    (connection_id, last) ← read_string value.payload next
    guard (last == length value.payload) attach_payload
    ok (record {
      attach_generation = pos attach_generation;
      cols = whole cols;
      rows = whole rows;
      session_id = session_id;
      connection_id = connection_id;
    })

  unfoldable pub decode_protocol_error : Frame → Outcome (ProtocolError Text)
  decode_protocol_error value = do
    expect_type FrameType.error value
    guard (not (ltb (length value.payload) 4)) error_payload
    code ← get_uint 2 value.payload 0
    size ← get_uint 2 value.payload 2
    guard
        (not (
          code == 0
          || size == 0
          || ltb max_identifier_bytes size
          || not (size == length value.payload - 4)))
        error_payload
    message ← decode_utf8 (drop 4 value.payload)
    ok (record { code = code; message = message })
