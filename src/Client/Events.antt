-- ===== src/Client/Events.antt =====
-- live/client.ts: what happens to a connection, one event at a time.
use floeterm.Common.{Bool, List, [], ◌∷◌, Option}
use floeterm.Common.Number.{Number}
use floeterm.Live.Bytes.{Bytes}
use floeterm.Live.Frame.{Frame}
use floeterm.Client.State.{Problem, Connection, close}
use floeterm.Client.Frames.{receive, receive_end, receive_failure}
use floeterm.Client.Writes.{send_input, resize, write_next}

-- A call, a write of the stream that succeeds or fails, or the end of a read.
pub data Event (Text : Type 0) : Type 0 where
  send_called : Bytes → Event Text
  resize_called : (cols rows : Number) → Event Text
  close_called : Event Text
  write_ended : (succeeds : Bool) → Event Text
  frame_read : Frame → Event Text
  end_read : Event Text
  read_failed : Problem Text → Event Text

module _ {Text : Type 0} (decode_text : Bytes → Option Text) where
  unfoldable pub step : Event Text → Connection Text → Connection Text
  unfolding receive receive_end receive_failure send_input resize write_next close
  step (send_called bytes) c = (send_input bytes c).1
  step (resize_called cols rows) c = (resize cols rows c).1
  step close_called c = close c
  step (write_ended succeeds) c = write_next succeeds c
  step (frame_read frame) c = receive decode_text frame c
  step end_read c = receive_end decode_text c
  step (read_failed e) c = receive_failure decode_text e c

  unfoldable pub steps : List (Event Text) → Connection Text → Connection Text
  unfolding step
  steps [] c = c
  steps (e ∷ es) c = steps es (step e c)
