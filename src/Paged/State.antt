-- ===== src/Paged/State.antt =====
-- PagedTerminalOutputCoordinator.ts: the state of `PagedTerminalOutputCoordinator`, and the methods
-- that touch a part of it. What is suspended at an `await` is part of the state: the recovery that is
-- still current, the live writes of the current chain, and the writers in flight.
use floeterm.Common.{
  ℕ, zero, suc, ◌+◌, min, Bool, true, false, List, [], ◌∷◌, ◌++◌, Option, none, some, length,
  if◌then◌else◌,
}
use floeterm.Common.Number.{safe_from}
use floeterm.Pipeline.State.{Chunk}
use floeterm.Paged.History.{FailureCode, Thrown}

pub data State : Type 0 where
  idle initial_replay live catching_up retry_wait failed disposed : State

pub data RecoveryKind : Type 0 where
  initial catch_up : RecoveryKind

pub data Source : Type 0 where
  from_history from_live : Source

pub record Tagged : Type 0 where
  pub chunk : Chunk
  pub source : Source

pub record Policy : Type 0 where
  pub max_retained_live_chunks : ℕ
  pub max_retained_live_bytes : ℕ
  pub retry_delays_ms : List ℕ
  pub max_write_batch_bytes : ℕ

pub record Failure : Type 0 where
  pub code : FailureCode
  pub phase : RecoveryKind
  pub retryable : Bool
  pub attempt : ℕ
  pub covered_sequence : ℕ
  pub first_retained_sequence : Option ℕ
  pub attach_generation : ℕ

pub data PreparedStatus : Type 0 where
  not_provided accepted rejected : PreparedStatus

pub record PreparedOutcome : Type 0 where
  pub status : PreparedStatus
  pub rebased : Bool

-- What is read of a prepared history that has been accepted: its numbers are safe integers then.
pub record Accepted : Type 0 where
  pub chunks : List Chunk
  pub first_retained : ℕ
  pub covered_through : ℕ
  pub history_generation : ℕ

pub data TruncationReason : Type 0 where
  history_evicted retained_live_overflow : TruncationReason

pub record Request : Type 0 where
  pub start_sequence : ℕ
  pub end_sequence : Option ℕ
  pub history_generation : Option ℕ
  pub cursor : Option ℕ

-- What the options' functions are called with. The notifications of `onStateChange` are left out.
pub data Effect : Type 0 where
  cleared : Effect
  truncated : TruncationReason → Effect
  fetched : Request → Effect
  written : Source → (data_written : List ℕ) → Effect
  canceled_timer baseline_resolved refused : Effect

-- Where the recovery waits: for the write chain, for a page, or for the writer of a batch.
pub data Stage : Type 0 where
  awaiting_chain fetching : Stage
  writing : (batches : List (List Tagged)) → Stage

-- The recovery that runs, with the variables of `runRecovery`.
pub record Recovery : Type 0 where
  pub serial : ℕ
  pub stage : Stage
  pub history_chunks : List Tagged
  pub cursor : Option ℕ
  pub start_sequence : ℕ
  pub snapshot_end : Option ℕ
  pub history_generation : Option ℕ
  pub covered_end : ℕ
  pub first_page : Bool
  pub prepared : Option Accepted

pub data Owner : Type 0 where
  of_recovery : (serial : ℕ) → Owner
  of_chain : Owner

-- A call of a writer that has not returned.
pub record Writer : Type 0 where
  pub generation : ℕ
  pub owner : Owner
  pub chunks : List Tagged

-- `interactive`: what `isInteractive` answers at present. The retry timer's handle is a flag.
pub record Coordinator : Type 0 where
  pub policy : Policy
  pub interactive : Bool
  pub active : Bool
  pub state : State
  pub baseline_ready : Bool
  pub covered_through : ℕ
  pub scheduled_through : ℕ
  pub retained_live : List Tagged
  pub retained_live_bytes : ℕ
  pub retry_attempt : ℕ
  pub retry_timer : Bool
  pub generation : ℕ
  pub recovery_serial : ℕ
  pub disposed : Bool
  pub last_error : Option Thrown
  pub failure : Option Failure
  pub recovery_start : ℕ
  pub recovery_end : Option ℕ
  pub explicit_attach_fence : Bool
  pub recovery_kind : RecoveryKind
  pub recovery_running : Bool
  pub needs_rebase : Bool
  pub history_rebase_prepared : Bool
  pub pending_live_writes : List Tagged
  pub live_write_scheduled : Bool
  pub baseline_waiters : ℕ
  pub paused_recovery_pending : Bool
  pub dropped_live_through : ℕ
  pub prepared_history : Option Accepted
  pub prepared_outcome : PreparedOutcome
  pub recovery : Option Recovery
  pub live_jobs : ℕ
  pub live_batches : Option (List (List Tagged))
  pub writers : List Writer
  pub log : List Effect

abbrev pub size : Tagged → ℕ
size item = length item.chunk.bytes

abbrev pub sizes : List Tagged → ℕ
sizes [] = 0
sizes (item ∷ items) = size item + sizes items

-- `chunkSequence`.
unfoldable pub sequence_of : Tagged → Option ℕ
sequence_of item = elim item.chunk.sequence [ none ↦ none | some value ↦ safe_from 1 value ]

abbrev pub earlier : Option ℕ → Option ℕ → Option ℕ
earlier none later = later
earlier (some n) none = some n
earlier (some n) (some m) = some (min n m)

-- `firstRetainedLiveSequence`: the smallest one.
unfoldable pub first_sequence : List Tagged → Option ℕ
first_sequence [] = none
first_sequence (item ∷ items) = earlier (sequence_of item) (first_sequence items)

unfoldable pub set_state : State → Coordinator → Coordinator
set_state state c = record c { state = state }

unfoldable pub emit : Effect → Coordinator → Coordinator
emit effect c = record c { log = c.log ++ (effect ∷ []) }

unfoldable pub resolve_baseline_waiters : Coordinator → Coordinator
resolve_baseline_waiters c = record c {
  baseline_waiters = 0;
  log = elim c.baseline_waiters [ zero ↦ c.log | suc n ↦ c.log ++ (baseline_resolved ∷ []) ];
}

-- `cancelRecovery`: a recovery that is suspended does nothing any more when it goes on.
unfoldable pub cancel_recovery : (increment_generation : Bool) → Coordinator → Coordinator
cancel_recovery increment_generation c = record c {
  recovery = none;
  recovery_running = false;
  recovery_serial = c.recovery_serial + 1;
  retry_timer = false;
  generation = if increment_generation then c.generation + 1 else c.generation;
  log = if c.retry_timer then c.log ++ (canceled_timer ∷ []) else c.log;
}

-- `markPreparedHistoryRebased`.
abbrev pub rebased_outcome : (discard : Bool) → PreparedOutcome → PreparedOutcome
rebased_outcome discard outcome = elim outcome.status [
  | not_provided ↦ outcome
  | accepted ↦ record { status = if discard then rejected else accepted; rebased = true }
  | rejected ↦ record { status = rejected; rebased = true }
]

unfoldable pub mark_rebased : (discard : Bool) → Coordinator → Coordinator
mark_rebased discard c = record c { prepared_outcome = rebased_outcome discard c.prepared_outcome }

abbrev pub can_render_live : Coordinator → Bool
can_render_live c = if c.active then c.interactive else false
