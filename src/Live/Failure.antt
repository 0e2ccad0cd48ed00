-- ===== src/Live/Failure.antt =====
-- What terminal-web/src/live/codec.ts throws. The field's name in a message is left out.
use floeterm.Common.Fallible.{Result}

pub data Failure : Type 0 where
  unknown_frame_type payload_too_large reserved_bits : Failure
  not_positive_uint32 not_positive_uint64 not_uint64 : Failure
  identifier_length identifier_payload : Failure
  unexpected_frame_type : Failure
  attach_payload input_payload input_length resize_payload attached_payload : Failure
  history_start_exceeds : Failure
  resize_applied_payload geometry_payload : Failure
  record_count output_data batch_too_large output_payload : Failure
  error_payload : Failure
  -- `DataView` past the end of its buffer, and `TextDecoder` with `fatal`.
  out_of_range malformed_text : Failure

abbrev pub Outcome : Type 0 → Type 0
Outcome A = Result Failure A
