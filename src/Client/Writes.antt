-- ===== src/Client/Writes.antt =====
-- live/client.ts: input and resizes are written one after the other, through the chain `writeTail`.
use floeterm.Common.{
  ℕ, ◌+◌, ◌-◌, ◌/◌, Bool, true, false, ◌||◌, List, [], ◌∷◌, ◌++◌, Option, none, some, length, take,
  drop, ltb, ◌==◌, if◌then◌else◌,
}
use floeterm.Common.Number.{Number, pos}
use floeterm.Common.Sets.{discard}
use floeterm.Common.Fallible.{ok, err}
use floeterm.Live.Failure.{Outcome}
use floeterm.Live.Bytes.{Bytes}
use floeterm.Live.Frame.{max_input_bytes}
use floeterm.Live.Messages.{encode_input, encode_resize}
use floeterm.Client.State.{
  Problem, codec_failure, connection_closed, input_limit, write_failed, Connection, WriteJob,
  input_job, resize_job, max_queued_input_bytes, written, input_resolved, input_rejected,
  resize_rejected, report,
}

-- `Math.ceil(byteLength / MAX_INPUT_BYTES)`.
abbrev pub frame_count : Bytes → ℕ
frame_count bytes = (length bytes + (max_input_bytes - 1)) / max_input_bytes

module _ {Text : Type 0} where
  -- `sendInput` up to its wait, with what it throws at once. No bytes are no frames.
  unfoldable pub send_input : Bytes → Connection Text → Option (Problem Text) × Connection Text
  send_input bytes c =
      if c.closed
      then (some connection_closed, c)
      else if length bytes == 0
      then (none, c)
      else if ltb max_queued_input_bytes (length bytes)
          || ltb max_queued_input_bytes (c.queued_input_bytes + length bytes)
      then (some input_limit, c)
      else (
        none,
        record c {
          input_sequence = c.input_sequence + frame_count bytes;
          queued_input_bytes = c.queued_input_bytes + length bytes;
          jobs = c.jobs ++ input_job (c.input_sequence + 1) bytes (length bytes) ∷ [];
        },
      )

  -- `resize` up to its wait.
  unfoldable pub resize :
      (cols rows : Number) → Connection Text → Option (Problem Text) × Connection Text
  resize cols rows c = if c.closed then (some connection_closed, c) else (
    none,
    record c {
      resize_sequence = c.resize_sequence + 1;
      resize_waiters = c.resize_waiters ++ (c.resize_sequence + 1) ∷ [];
      jobs = c.jobs ++ resize_job (c.resize_sequence + 1) cols rows ∷ [];
    },
  )

  -- The `finally` of `sendInput`.
  unfoldable pub finish_input : (total : ℕ) → List WriteJob → Connection Text → Connection Text
  finish_input total jobs c = record c {
    queued_input_bytes = c.queued_input_bytes - total;
    jobs = jobs;
  }

  -- An input frame has been encoded; `succeeds` tells whether the stream has taken it.
  unfoldable pub write_input :
      (succeeds : Bool)
      → Outcome Bytes
      → (sequence : ℕ) (rest : Bytes) (total : ℕ) → List WriteJob
      → Connection Text
      → Connection Text
  unfolding finish_input
  write_input succeeds (err e) sequence rest total jobs c =
      report (input_rejected (codec_failure e)) (finish_input total jobs c)
  write_input false (ok bytes) sequence rest total jobs c =
      report (input_rejected write_failed) (finish_input total jobs c)
  write_input true (ok bytes) sequence rest total jobs c =
      let d = report (written bytes) c in
      if ltb max_input_bytes (length rest)
      then record d { jobs = input_job (sequence + 1) (drop max_input_bytes rest) total ∷ jobs }
      else report input_resolved (finish_input total jobs d)

  unfoldable pub write_resize :
      (succeeds : Bool)
      → Outcome Bytes
      → (sequence : ℕ) → List WriteJob
      → Connection Text
      → Connection Text
  write_resize succeeds (err e) sequence jobs c =
      report (resize_rejected sequence (codec_failure e))
        (record c { jobs = jobs; resize_waiters = discard sequence c.resize_waiters })
  write_resize false (ok bytes) sequence jobs c =
      report (resize_rejected sequence write_failed)
        (record c { jobs = jobs; resize_waiters = discard sequence c.resize_waiters })
  write_resize true (ok bytes) sequence jobs c = report (written bytes) (record c { jobs = jobs })

  unfoldable pub run_job : (succeeds : Bool) → List WriteJob → Connection Text → Connection Text
  unfolding write_input write_resize
  run_job succeeds [] c = c
  run_job succeeds (input_job sequence rest total ∷ jobs) c =
      write_input succeeds
        (encode_input (record { sequence = pos sequence; bytes = take max_input_bytes rest }))
        sequence rest total jobs c
  run_job succeeds (resize_job sequence cols rows ∷ jobs) c =
      write_resize succeeds
        (encode_resize (record { sequence = pos sequence; cols = cols; rows = rows })) sequence jobs
        c

  -- The next write on the stream, which succeeds or fails.
  unfoldable pub write_next : (succeeds : Bool) → Connection Text → Connection Text
  unfolding run_job
  write_next succeeds c = run_job succeeds c.jobs c
