-- ===== src/Client/Frames.antt =====
-- live/client.ts: the read loop, frame by frame, and the handshake of `connectTerminalLive`.
use floeterm.Common.{
  ℕ, ◌+◌, ◌-◌, Bool, true, false, not, List, [], ◌∷◌, Option, none, some, length, ◌==◌,
  if◌then◌else◌,
}
use floeterm.Common.Number.{ℤ, pos}
use floeterm.Common.Sets.{contains}
use floeterm.Common.Fallible.{Result, ok, err, ◌>>=◌}
use floeterm.Live.Failure.{Outcome}
use floeterm.Live.Bytes.{Bytes}
use floeterm.Live.Frame.{Frame, FrameType}
use floeterm.Live.Messages.{
  ResizeApplied, GeometryChanged, decode_attached, decode_resize_applied, decode_geometry_changed,
}
use floeterm.Live.Batch.{OutputRecord, OutputBatch, decode_output_batch}
use floeterm.Live.Attach.{decode_protocol_error}
use floeterm.Client.State.{
  Problem, codec_failure, unexpected_output, unexpected_acknowledgement, session_closed_payload,
  server_error, invalid_frame, ended, ended_before_attach, terminal_closed, Connection,
  stream_ended, session_closed, output_reported, closed_reported, stream_closed, magnitude, cells,
  to_safe_number, report, reject_resize_waiters, construct, fail,
}
use floeterm.Client.Geometry.{
  Step, and_then, apply_geometry, flush_pending_geometries, queue_geometry,
}

-- `records[0]!.sequence - 1n`; a sequence is positive.
abbrev pub boundary_before : List OutputRecord → ℤ
boundary_before [] = pos 0
boundary_before (r ∷ rs) = pos (magnitude r.sequence - 1)

abbrev pub last_sequence : List OutputRecord → ℕ → ℕ
last_sequence [] last = last
last_sequence (r ∷ rs) last = last_sequence rs (magnitude r.sequence)

module _ {Text : Type 0} where
  -- A decoder's failure is thrown as it is.
  unfoldable pub thrown : {A : Type 0} → Outcome A → Result (Problem Text) A
  thrown (ok a) = ok a
  thrown (err e) = err (codec_failure e)

  -- What the rest of a handler does with a value that may have been thrown instead.
  abbrev pub with_value :
      {A : Type 0} → Result (Problem Text) A → Connection Text → (A → Step Text) → Step Text
  with_value (ok a) c f = f a
  with_value (err e) c f = (some e, c)

  -- The loop over the records of a batch.
  unfoldable pub count_records : List OutputRecord → Connection Text → Step Text
  count_records [] c = (none, c)
  count_records (r ∷ rs) c =
      if magnitude r.sequence == c.next_output_sequence
      then count_records rs (record c { next_output_sequence = c.next_output_sequence + 1 })
      else (some (unexpected_output c.next_output_sequence (magnitude r.sequence)), c)

  unfoldable pub deliver : List OutputRecord → Connection Text → Connection Text
  deliver records c =
      report (output_reported records)
        (record c { last_output_sequence = last_sequence records c.last_output_sequence })

  unfoldable pub handle_batch : OutputBatch → Connection Text → Step Text
  unfolding count_records deliver flush_pending_geometries
  handle_batch batch c = and_then (count_records batch.records c) (λ d.
      with_value (to_safe_number batch.geometry_generation) d (λ generation.
        with_value (to_safe_number (boundary_before batch.records)) d (λ boundary.
          and_then
            (apply_geometry
              (record {
                generation = generation;
                output_sequence_boundary = boundary;
                cols = cells batch.cols;
                rows = cells batch.rows;
              })
              d)
            (λ e. flush_pending_geometries (deliver batch.records e)))))

  unfoldable pub handle_resize_applied : ResizeApplied → Connection Text → Step Text
  unfolding queue_geometry
  handle_resize_applied applied c =
      if not (contains (magnitude applied.sequence) c.resize_waiters)
      then (some unexpected_acknowledgement, c)
      else with_value (to_safe_number applied.geometry_generation) c (λ generation.
        with_value (to_safe_number applied.output_sequence_boundary) c (λ boundary.
          queue_geometry
            (record {
              generation = generation;
              output_sequence_boundary = boundary;
              cols = cells applied.cols;
              rows = cells applied.rows;
            })
            (magnitude applied.output_sequence_boundary) (some (magnitude applied.sequence)) c))

  unfoldable pub handle_geometry_changed : GeometryChanged → Connection Text → Step Text
  unfolding queue_geometry
  handle_geometry_changed changed c =
      with_value (to_safe_number changed.generation) c (λ generation.
        with_value (to_safe_number changed.output_sequence_boundary) c (λ boundary.
          queue_geometry
            (record {
              generation = generation;
              output_sequence_boundary = boundary;
              cols = cells changed.cols;
              rows = cells changed.rows;
            })
            (magnitude changed.output_sequence_boundary) none c))

  -- The session has closed: the loop returns.
  unfoldable pub handle_session_closed : Frame → Connection Text → Step Text
  handle_session_closed frame c =
      if not (length frame.payload == 0) then (some session_closed_payload, c) else (
        none,
        report stream_closed (
            report (closed_reported session_closed)
              (reject_resize_waiters terminal_closed (record c { closed = true }))),
      )

  module _ (decode_text : Bytes → Option Text) where
    -- The `switch`, on the frame's type.
    unfoldable pub handle_type : FrameType → Frame → Connection Text → Step Text
    unfolding thrown handle_batch handle_resize_applied handle_geometry_changed
        handle_session_closed
    handle_type FrameType.output_batch frame c =
        with_value (thrown (decode_output_batch frame)) c (λ batch. handle_batch batch c)
    handle_type FrameType.resize_applied frame c =
        with_value (thrown (decode_resize_applied frame)) c
          (λ applied. handle_resize_applied applied c)
    handle_type FrameType.geometry_changed frame c =
        with_value (thrown (decode_geometry_changed frame)) c
          (λ changed. handle_geometry_changed changed c)
    handle_type FrameType.session_closed frame c = handle_session_closed frame c
    handle_type FrameType.error frame c =
        with_value (thrown (decode_protocol_error decode_text frame)) c
          (λ e. (some (server_error e.code e.message), c))
    handle_type type frame c = (some (invalid_frame type), c)

    unfoldable pub handle_frame : Frame → Connection Text → Step Text
    unfolding handle_type
    handle_frame frame c = handle_type frame.type frame c

    -- After a frame: a failure, or the loop's test.
    unfoldable pub continue_reading : Step Text → Connection Text
    continue_reading (some e, c) = fail e c
    continue_reading (none, c) = record c { reading = not c.closed }

    -- A read that the loop waits for ends: with a frame, with the end of the stream, or by throwing.
    unfoldable pub receive : Frame → Connection Text → Connection Text
    unfolding handle_frame continue_reading
    receive frame c = if c.reading then continue_reading (handle_frame frame c) else c

    unfoldable pub receive_end : Connection Text → Connection Text
    receive_end c =
        if c.reading
        then report (closed_reported stream_ended)
            (reject_resize_waiters ended (record c { closed = true; reading = false }))
        else c

    unfoldable pub receive_failure : Problem Text → Connection Text → Connection Text
    receive_failure e c = if c.reading then fail e c else c

    -- The answer to the attach frame, or the end of the stream.
    unfoldable pub accept_attach :
        (resets : Bool) → Option Frame → Result (Problem Text) (Connection Text)
    unfolding thrown
    accept_attach resets none = err ended_before_attach
    accept_attach resets (some first) = elim first.type [
      | FrameType.error ↦ do
        e ← thrown (decode_protocol_error decode_text first)
        err (server_error e.code e.message)
      | FrameType.attached ↦ do attached ← thrown (decode_attached first); construct resets attached
      | type ↦ err (invalid_frame type)
    ]
