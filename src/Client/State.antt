-- ===== src/Client/State.antt =====
-- live/client.ts: the state of a connection, and what it reports. Promises and callbacks are effects
-- in a log; callbacks are taken to return, and not to call the connection back.
use floeterm.Common.{ℕ, ◌+◌, Bool, true, false, List, [], ◌∷◌, ◌++◌, Option, leb, if◌then◌else◌}
use floeterm.Common.Fallible.{Result, ok, err, ◌>>=◌}
use floeterm.Common.Number.{Number, finite, ℤ, pos, negsuc, max_safe_integer}
use floeterm.Live.Failure.{Failure}
use floeterm.Live.Bytes.{Bytes}
use floeterm.Live.Frame.{FrameType}
use floeterm.Live.Messages.{Attached}
use floeterm.Live.Batch.{OutputRecord}

abbrev pub max_queued_input_bytes : ℕ
max_queued_input_bytes = 8_388_608

-- A BigInt that a decoder has returned; none of those is negative.
abbrev pub magnitude : ℤ → ℕ
magnitude (pos n) = n
magnitude (negsuc n) = 0

-- A number of columns or rows that a decoder has returned: a whole number.
abbrev pub cells : Number → ℕ
cells (finite (pos n) fraction) = n
cells _ = 0

pub record AttachedNumbers : Type 0 where
  pub history_boundary_sequence : ℕ
  pub history_generation : ℕ
  pub history_start_sequence : ℕ
  pub geometry_generation : ℕ
  pub cols : ℕ
  pub rows : ℕ

pub record LiveGeometry : Type 0 where
  pub generation : ℕ
  pub output_sequence_boundary : ℕ
  pub cols : ℕ
  pub rows : ℕ

pub record PendingGeometry : Type 0 where
  pub geometry : LiveGeometry
  pub output_sequence_boundary : ℕ
  pub resize_sequence : Option ℕ

pub data CloseReason : Type 0 where
  stream_ended session_closed : CloseReason

-- What is thrown, or rejects a promise.
pub data Problem (Text : Type 0) : Type 0 where
  codec_failure : Failure → Problem Text
  connection_closed input_limit unsafe_number geometry_not_advanced : Problem Text
  unexpected_output : (expected received : ℕ) → Problem Text
  unexpected_acknowledgement session_closed_payload : Problem Text
  server_error : (code : ℕ) (message : Text) → Problem Text
  invalid_frame : FrameType → Problem Text
  ended ended_before_attach terminal_closed write_failed : Problem Text

pub data Effect (Text : Type 0) : Type 0 where
  geometry_reported : LiveGeometry → Effect Text
  output_reported : List OutputRecord → Effect Text
  closed_reported : CloseReason → Effect Text
  error_reported : Problem Text → Effect Text
  resize_resolved : (sequence : ℕ) → Effect Text
  resize_rejected : (sequence : ℕ) → Problem Text → Effect Text
  input_resolved : Effect Text
  input_rejected : Problem Text → Effect Text
  written : Bytes → Effect Text
  stream_closed : Effect Text
  stream_reset : Problem Text → Effect Text

-- A write that waits in the chain of `writeTail`: the frames that are left of an input of `total`
-- bytes, or a resize.
pub data WriteJob : Type 0 where
  input_job : (sequence : ℕ) (rest : Bytes) (total : ℕ) → WriteJob
  resize_job : (sequence : ℕ) (cols rows : Number) → WriteJob

-- `reading`: the read loop waits for a frame. `resets`: the stream has a `reset`.
pub record Connection (Text : Type 0) : Type 0 where
  pub attached : AttachedNumbers
  pub input_sequence : ℕ
  pub resize_sequence : ℕ
  pub queued_input_bytes : ℕ
  pub next_output_sequence : ℕ
  pub last_output_sequence : ℕ
  pub pending_geometries : List PendingGeometry
  pub jobs : List WriteJob
  pub resize_waiters : List ℕ
  pub geometry : LiveGeometry
  pub closed : Bool
  pub failed : Bool
  pub reading : Bool
  pub resets : Bool
  pub log : List (Effect Text)

abbrev pub initial_geometry : (boundary generation cols rows : ℕ) → LiveGeometry
initial_geometry boundary generation cols rows = record {
  generation = generation;
  output_sequence_boundary = boundary;
  cols = cols;
  rows = rows;
}

module _ {Text : Type 0} where
  -- `toSafeNumber`: `Number` rounds what is not safe to a number that is not safe.
  unfoldable pub to_safe_number : ℤ → Result (Problem Text) ℕ
  to_safe_number (pos n) = if leb n max_safe_integer then ok n else err unsafe_number
  to_safe_number (negsuc n) = err unsafe_number

  abbrev pub report : Effect Text → Connection Text → Connection Text
  report e c = record c { log = c.log ++ e ∷ [] }

  abbrev pub rejections : Problem Text → List ℕ → List (Effect Text)
  rejections e [] = []
  rejections e (s ∷ waiters) = resize_rejected s e ∷ rejections e waiters

  unfoldable pub reject_resize_waiters : Problem Text → Connection Text → Connection Text
  reject_resize_waiters e c = record c {
    log = c.log ++ rejections e c.resize_waiters;
    resize_waiters = [];
    pending_geometries = [];
  }

  -- A connection whose attached numbers are safe.
  unfoldable pub connected :
      Bool → Attached → (boundary history start generation : ℕ) → Connection Text
  connected resets attached boundary history start generation =
      let geometry =
        initial_geometry boundary generation (cells attached.cols) (cells attached.rows) in
      record {
        attached = record {
          history_boundary_sequence = boundary;
          history_generation = history;
          history_start_sequence = start;
          geometry_generation = generation;
          cols = cells attached.cols;
          rows = cells attached.rows;
        };
        input_sequence = 0;
        resize_sequence = 0;
        queued_input_bytes = 0;
        next_output_sequence = boundary + 1;
        last_output_sequence = boundary;
        pending_geometries = [];
        jobs = [];
        resize_waiters = [];
        geometry = geometry;
        closed = false;
        failed = false;
        reading = true;
        resets = resets;
        log = geometry_reported geometry ∷ [];
      }

  -- The constructor and `start`. The first safety check that fails throws.
  unfoldable pub construct : Bool → Attached → Result (Problem Text) (Connection Text)
  unfolding to_safe_number connected
  construct resets attached = do
    boundary ← to_safe_number attached.history_boundary_sequence
    history ← to_safe_number attached.history_generation
    start ← to_safe_number attached.history_start_sequence
    generation ← to_safe_number attached.geometry_generation
    ok (connected resets attached boundary history start generation)

  unfoldable pub close : Connection Text → Connection Text
  unfolding reject_resize_waiters
  close c =
      if c.closed
      then c
      else report stream_closed
          (reject_resize_waiters connection_closed (record c { closed = true }))

  -- `fail`, after which the read loop has returned.
  unfoldable pub fail : Problem Text → Connection Text → Connection Text
  fail e c =
      if c.failed
      then record c { reading = false }
      else report (if c.resets then stream_reset e else stream_closed) (
          report (error_reported e)
            (reject_resize_waiters e (record c { failed = true; closed = true; reading = false })))
