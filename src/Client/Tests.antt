-- ===== src/Client/Tests.antt =====
-- live/client.ts at concrete values.
use floeterm.Common.{◌+◌, ◌≡◌, refl, true, false, List, [], ◌∷◌, some, arith}
use floeterm.Common.Fallible.{ok}
use floeterm.Common.Number.{pos, whole, safe_from}
use floeterm.Live.Bytes.{Bytes, from_be, get_uint}
use floeterm.Live.Fields.{positive_uint32, positive_uint64, uint64}
use floeterm.Live.Frame.{Frame, FrameType}
use floeterm.Live.Messages.{Attached, ResizeApplied, decode_resize_applied}
use floeterm.Client.State.{
  Connection, unexpected_acknowledgement, connected, construct, to_safe_number, close, fail,
}
use floeterm.Client.Frames.{receive}
use floeterm.Client.Events.{
  Event, send_called, resize_called, close_called, write_ended, frame_read, steps,
}
use floeterm.Client.InOrder.{InOrder}
use floeterm.Client.Course.{delivered-Run}
use floeterm.Client.Late.{close_acknowledged}
use floeterm.Client.Queue.{IsBounded, steps-IsBounded}

abbrev acknowledged : Attached
acknowledged = record {
  history_boundary_sequence = pos 5;
  history_generation = pos 1;
  history_start_sequence = pos 1;
  geometry_generation = pos 1;
  cols = whole 80;
  rows = whole 24;
}

-- Text is its own encoding.
abbrev started : Connection Bytes
started = connected true acknowledged 5 1 1 1

started_is_constructed : construct true acknowledged ≡ ok started
unfolding construct to_safe_number
started_is_constructed = refl

-- Output 6, two bytes.
abbrev output_frame : Frame
output_frame = record {
  type = FrameType.output_batch;
  flags = 0;
  payload =
      0 ∷ 0 ∷ 0 ∷ 0 ∷ 0 ∷ 0 ∷ 0 ∷ 1 ∷ 0 ∷ 0 ∷ 0 ∷ 80 ∷ 0 ∷ 0 ∷ 0 ∷ 24 ∷ 0 ∷ 1 ∷ 0 ∷ 0 ∷ 0 ∷ 0 ∷ 0
      ∷ 0 ∷ 0 ∷ 6 ∷ 0 ∷ 0 ∷ 0 ∷ 0 ∷ 0 ∷ 0 ∷ 0 ∷ 3 ∷ 0 ∷ 0 ∷ 0 ∷ 2 ∷ b'o' ∷ b'k' ∷ [];
}

abbrev course : List (Event Bytes)
course =
    resize_called (whole 100) (whole 30)
    ∷ frame_read output_frame
    ∷ write_ended true
    ∷ frame_read output_frame
    ∷ close_called
    ∷ []

delivered-Run_example : InOrder (5 + 1) (steps some course started)
unfolding connected
delivered-Run_example = delivered-Run some true acknowledged course started started_is_constructed

abbrev applied : ResizeApplied
applied = record {
  sequence = pos 7;
  geometry_generation = pos 2;
  output_sequence_boundary = pos 5;
  cols = whole 80;
  rows = whole 24;
}

abbrev applied_frame : Frame
applied_frame = record {
  type = FrameType.resize_applied;
  flags = 0;
  payload =
      0 ∷ 0 ∷ 0 ∷ 0 ∷ 0 ∷ 0 ∷ 0 ∷ 7 ∷ 0 ∷ 0 ∷ 0 ∷ 0 ∷ 0 ∷ 0 ∷ 0 ∷ 2 ∷ 0 ∷ 0 ∷ 0 ∷ 0 ∷ 0 ∷ 0 ∷ 0 ∷ 5
      ∷ 0 ∷ 0 ∷ 0 ∷ 80 ∷ 0 ∷ 0 ∷ 0 ∷ 24 ∷ [];
}

applied_decoded : decode_resize_applied applied_frame ≡ ok applied
unfolding decode_resize_applied positive_uint32 positive_uint64 uint64 safe_from get_uint from_be
applied_decoded = refl

started_is_open : started.closed ≡ false
unfolding connected
started_is_open = refl

started_reads : started.reading ≡ true
unfolding connected
started_reads = refl

close_acknowledged_example :
    receive some applied_frame (close started) ≡ fail unexpected_acknowledgement (close started)
close_acknowledged_example =
    close_acknowledged some applied_frame applied started refl applied_decoded started_is_open
      started_reads

started-IsBounded : IsBounded started
unfolding connected
started-IsBounded = record { exact = refl; limit = omega arith }

steps-IsBounded_example :
    IsBounded (steps some (send_called (b'l' ∷ b's' ∷ []) ∷ write_ended true ∷ []) started)
steps-IsBounded_example =
    steps-IsBounded some (send_called (b'l' ∷ b's' ∷ []) ∷ write_ended true ∷ []) started tt
      started-IsBounded
