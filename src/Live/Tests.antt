-- ===== src/Live/Tests.antt =====
-- Frames and messages of live/codec.ts at concrete values.
use floeterm.Common.{some, ◌+◌, ◌^◌, ◌≡◌, refl, List, [], ◌∷◌, arith}
use floeterm.Common.Fallible.{ok, err}
use floeterm.Common.Number.{pos, whole, safe_from}
use floeterm.Live.Failure.{not_positive_uint64, reserved_bits}
use floeterm.Live.Bytes.{Bytes, to_be}
use floeterm.Live.Fields.{positive_uint32, positive_uint64, uint64, big_uint64}
use floeterm.Live.Frame.{FrameType, frame, push}
use floeterm.Live.Frame.Stream.{feed, joined, feed-eq-push}
use floeterm.Live.Frame.Written.{frames_of, encode_all, Carries, feed-encode_all}
use floeterm.Live.Messages.{
  Input, Resize, Attached, ResizeApplied, GeometryChanged, encode_input, decode_input,
  encode_resize, decode_resize, encode_attached, decode_attached, encode_resize_applied,
  decode_resize_applied, encode_geometry_changed, decode_geometry_changed, exceeds_next,
}
use floeterm.Live.Messages.RoundTrip.Input.{encode_input-decode}
use floeterm.Live.Messages.RoundTrip.Resize.{encode_resize-decode}
use floeterm.Live.Messages.RoundTrip.Geometry.{encode_geometry_changed-decode}
use floeterm.Live.Messages.RoundTrip.Applied.{encode_resize_applied-decode}
use floeterm.Live.Messages.RoundTrip.Attached.{encode_attached-decode, encode_attached_wraps}
use floeterm.Live.Attach.{Attach, write_string, encode_attach, decode_attach}
use floeterm.Live.Attach.RoundTrip.{encode_attach-decode}
use floeterm.Live.Batch.{
  OutputBatch, encode_output_batch, decode_output_batch, check_records, write_records,
}
use floeterm.Live.Batch.RoundTrip.{encode_output_batch-decode}

-- A closed session (0x84) and a detach (0x04), cut in the middle of a header.
abbrev two_messages : List (FrameType × Bytes)
two_messages = (FrameType.session_closed, []) ∷ (FrameType.detach, 9 ∷ []) ∷ []

abbrev cuts : List Bytes
cuts =
    (0x84 ∷ 0 ∷ 0 ∷ [])
    ∷ (0 ∷ 0 ∷ 0 ∷ 0 ∷ 0 ∷ 0x04 ∷ 0 ∷ [])
    ∷ (0 ∷ 0 ∷ 0 ∷ 0 ∷ 0 ∷ 1 ∷ 9 ∷ [])
    ∷ []

two_messages_encoded : encode_all two_messages ≡ ok (joined cuts)
unfolding frame to_be
two_messages_encoded = refl

pushed_at_once : push [] (joined cuts) ≡ (ok (frames_of two_messages), [])
unfolding push
pushed_at_once = refl

reserved_flag : (push [] (0x84 ∷ 1 ∷ 0 ∷ 0 ∷ 0 ∷ 0 ∷ 0 ∷ 0 ∷ [])).0 ≡ err reserved_bits
unfolding push
reserved_flag = refl

feed-eq-push_example : feed [] cuts ≡ ok (frames_of two_messages, [])
feed-eq-push_example = feed-eq-push cuts (frames_of two_messages) [] pushed_at_once

feed-encode_all_example : feed [] cuts ≡ ok (frames_of two_messages, [])
feed-encode_all_example = feed-encode_all two_messages cuts two_messages_encoded

abbrev resize_request : Resize
resize_request = record { sequence = pos 7; cols = whole 80; rows = whole 24 }

abbrev resize_bytes : Bytes
resize_bytes =
    0x03 ∷ 0 ∷ 0 ∷ 0 ∷ 0 ∷ 0 ∷ 0 ∷ 16 ∷ 0 ∷ 0 ∷ 0 ∷ 0 ∷ 0 ∷ 0 ∷ 0 ∷ 7 ∷ 0 ∷ 0 ∷ 0 ∷ 80 ∷ 0 ∷ 0 ∷ 0
    ∷ 24 ∷ []

resize_written : encode_resize resize_request ≡ ok resize_bytes
unfolding encode_resize positive_uint32 positive_uint64 safe_from frame to_be
resize_written = refl

resize_refused :
    encode_resize (record resize_request { sequence = pos 0 }) ≡ err not_positive_uint64
unfolding encode_resize positive_uint64
resize_refused = refl

encode_resize-decode_example : Carries decode_resize resize_bytes resize_request
encode_resize-decode_example = encode_resize-decode resize_request resize_bytes resize_written

abbrev typed : Input
typed = record { sequence = pos 1; bytes = b'l' ∷ b's' ∷ [] }

abbrev typed_bytes : Bytes
typed_bytes = 0x02 ∷ 0 ∷ 0 ∷ 0 ∷ 0 ∷ 0 ∷ 0 ∷ 10 ∷ 0 ∷ 0 ∷ 0 ∷ 0 ∷ 0 ∷ 0 ∷ 0 ∷ 1 ∷ b'l' ∷ b's' ∷ []

typed_written : encode_input typed ≡ ok typed_bytes
unfolding encode_input positive_uint64 frame to_be
typed_written = refl

encode_input-decode_example : Carries decode_input typed_bytes typed
encode_input-decode_example = encode_input-decode typed typed_bytes typed_written

abbrev geometry : GeometryChanged
geometry = record {
  generation = pos 2;
  output_sequence_boundary = pos 0;
  cols = whole 80;
  rows = whole 24;
}

abbrev geometry_bytes : Bytes
geometry_bytes =
    0x85 ∷ 0 ∷ 0 ∷ 0 ∷ 0 ∷ 0 ∷ 0 ∷ 24 ∷ 0 ∷ 0 ∷ 0 ∷ 0 ∷ 0 ∷ 0 ∷ 0 ∷ 2 ∷ 0 ∷ 0 ∷ 0 ∷ 0 ∷ 0 ∷ 0 ∷ 0
    ∷ 0 ∷ 0 ∷ 0 ∷ 0 ∷ 80 ∷ 0 ∷ 0 ∷ 0 ∷ 24 ∷ []

geometry_written : encode_geometry_changed geometry ≡ ok geometry_bytes
unfolding encode_geometry_changed positive_uint32 positive_uint64 uint64 safe_from frame to_be
geometry_written = refl

encode_geometry_changed-decode_example : Carries decode_geometry_changed geometry_bytes geometry
encode_geometry_changed-decode_example =
    encode_geometry_changed-decode geometry geometry_bytes geometry_written

abbrev applied : ResizeApplied
applied = record {
  sequence = pos 7;
  geometry_generation = pos 2;
  output_sequence_boundary = pos 5;
  cols = whole 80;
  rows = whole 24;
}

abbrev applied_bytes : Bytes
applied_bytes =
    0x83 ∷ 0 ∷ 0 ∷ 0 ∷ 0 ∷ 0 ∷ 0 ∷ 32 ∷ 0 ∷ 0 ∷ 0 ∷ 0 ∷ 0 ∷ 0 ∷ 0 ∷ 7 ∷ 0 ∷ 0 ∷ 0 ∷ 0 ∷ 0 ∷ 0 ∷ 0
    ∷ 2 ∷ 0 ∷ 0 ∷ 0 ∷ 0 ∷ 0 ∷ 0 ∷ 0 ∷ 5 ∷ 0 ∷ 0 ∷ 0 ∷ 80 ∷ 0 ∷ 0 ∷ 0 ∷ 24 ∷ []

applied_written : encode_resize_applied applied ≡ ok applied_bytes
unfolding encode_resize_applied positive_uint32 positive_uint64 uint64 safe_from frame to_be
applied_written = refl

encode_resize_applied-decode_example : Carries decode_resize_applied applied_bytes applied
encode_resize_applied-decode_example =
    encode_resize_applied-decode applied applied_bytes applied_written

abbrev acknowledged : Attached
acknowledged = record {
  history_boundary_sequence = pos 5;
  history_generation = pos 1;
  history_start_sequence = pos 1;
  geometry_generation = pos 1;
  cols = whole 80;
  rows = whole 24;
}

abbrev acknowledged_bytes : Bytes
acknowledged_bytes =
    0x81 ∷ 0 ∷ 0 ∷ 0 ∷ 0 ∷ 0 ∷ 0 ∷ 40 ∷ 0 ∷ 0 ∷ 0 ∷ 0 ∷ 0 ∷ 0 ∷ 0 ∷ 5 ∷ 0 ∷ 0 ∷ 0 ∷ 0 ∷ 0 ∷ 0 ∷ 0
    ∷ 1 ∷ 0 ∷ 0 ∷ 0 ∷ 0 ∷ 0 ∷ 0 ∷ 0 ∷ 1 ∷ 0 ∷ 0 ∷ 0 ∷ 0 ∷ 0 ∷ 0 ∷ 0 ∷ 1 ∷ 0 ∷ 0 ∷ 0 ∷ 80 ∷ 0 ∷ 0 ∷ 0
    ∷ 24 ∷ []

acknowledged_written : encode_attached acknowledged ≡ ok acknowledged_bytes
unfolding encode_attached positive_uint32 positive_uint64 big_uint64 exceeds_next safe_from frame
    to_be
acknowledged_written = refl

encode_attached-decode_example : Carries decode_attached acknowledged_bytes acknowledged
encode_attached-decode_example =
    encode_attached-decode acknowledged 5 acknowledged_bytes refl (omega arith) acknowledged_written

encode_attached_wraps_example :
    encode_attached (record acknowledged { history_boundary_sequence = pos (5 + 2 ^ 64) })
    ≡ ok acknowledged_bytes
encode_attached_wraps_example =
    encode_attached_wraps acknowledged 5 acknowledged_bytes refl acknowledged_written

abbrev batch : OutputBatch
batch = record {
  geometry_generation = pos 1;
  cols = whole 80;
  rows = whole 24;
  records = record { sequence = pos 6; timestamp_ms = pos 3; bytes = b'o' ∷ b'k' ∷ [] } ∷ [];
}

abbrev batch_bytes : Bytes
batch_bytes =
    0x82 ∷ 0 ∷ 0 ∷ 0 ∷ 0 ∷ 0 ∷ 0 ∷ 40 ∷ 0 ∷ 0 ∷ 0 ∷ 0 ∷ 0 ∷ 0 ∷ 0 ∷ 1 ∷ 0 ∷ 0 ∷ 0 ∷ 80 ∷ 0 ∷ 0 ∷ 0
    ∷ 24 ∷ 0 ∷ 1 ∷ 0 ∷ 0 ∷ 0 ∷ 0 ∷ 0 ∷ 0 ∷ 0 ∷ 6 ∷ 0 ∷ 0 ∷ 0 ∷ 0 ∷ 0 ∷ 0 ∷ 0 ∷ 3 ∷ 0 ∷ 0 ∷ 0 ∷ 2
    ∷ b'o' ∷ b'k' ∷ []

batch_written : encode_output_batch batch ≡ ok batch_bytes
unfolding encode_output_batch check_records write_records positive_uint32 positive_uint64 big_uint64
    safe_from frame to_be
batch_written = refl

encode_output_batch-decode_example : Carries decode_output_batch batch_bytes batch
encode_output_batch-decode_example =
    encode_output_batch-decode batch batch_bytes ((3, refl, omega arith), tt) batch_written

-- Text that is its own encoding, as ASCII is.
abbrev keep : Bytes → Bytes
keep t = t

abbrev attach_request : Attach Bytes
attach_request = record {
  attach_generation = pos 3;
  cols = whole 80;
  rows = whole 24;
  session_id = b's' ∷ [];
  connection_id = b'c' ∷ b'1' ∷ [];
}

abbrev attach_bytes : Bytes
attach_bytes =
    0x01 ∷ 0 ∷ 0 ∷ 0 ∷ 0 ∷ 0 ∷ 0 ∷ 23 ∷ 0 ∷ 0 ∷ 0 ∷ 0 ∷ 0 ∷ 0 ∷ 0 ∷ 3 ∷ 0 ∷ 0 ∷ 0 ∷ 80 ∷ 0 ∷ 0 ∷ 0
    ∷ 24 ∷ 0 ∷ 1 ∷ b's' ∷ 0 ∷ 2 ∷ b'c' ∷ b'1' ∷ []

attach_written : encode_attach keep attach_request ≡ ok attach_bytes
unfolding encode_attach write_string positive_uint32 positive_uint64 safe_from frame to_be
attach_written = refl

encode_attach-decode_example : Carries (decode_attach some) attach_bytes attach_request
encode_attach-decode_example =
    encode_attach-decode keep some (λ t. refl) attach_request attach_bytes attach_written
