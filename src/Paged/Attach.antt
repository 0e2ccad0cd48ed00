-- ===== src/Paged/Attach.antt =====
-- PagedTerminalOutputCoordinator.ts: what attaches the coordinator, and what resets it. A start
-- sequence is a number of ℕ, as `Math.floor` and `Math.max(0, …)` make it.
use floeterm.Common.{
  ℕ, ◌+◌, ◌-◌, max, Bool, true, false, ◌&&◌, ◌||◌, not, List, [], ◌∷◌, Option, none, some, ltb, leb,
  ◌==◌, if◌then◌else◌,
}
use floeterm.Common.Number.{Number}
use floeterm.Common.Fallible.{ok, err, ◌>>=◌, ◌>>◌, guard}
use floeterm.Pipeline.State.{Chunk}
use floeterm.Paged.History.{
  Prepared, other, Outcome, normalize_sequence, normalize_optional, normalize_chunk, byte_count,
}
use floeterm.Paged.State.{
  idle, live, disposed, initial, Accepted, not_provided, accepted, rejected, cleared, refused,
  Coordinator, emit, cancel_recovery, mark_rebased, resolve_baseline_waiters,
}
use floeterm.Paged.Live.{run_recovery, prepare_retained_live_rebase, drain_retained_live}
use floeterm.Paged.Pages.{is_some, report_eviction}

-- The check of a prepared history's chunks, with the last sequence.
unfoldable pub check_prepared_chunks : (previous covered : ℕ) → List Chunk → Outcome ℕ
check_prepared_chunks previous covered [] = ok previous
check_prepared_chunks previous covered (c ∷ cs) = do
  sequence ← normalize_chunk c.sequence
  guard (not (leb sequence previous || ltb covered sequence)) other
  check_prepared_chunks sequence covered cs

abbrev pub is_whole : Number → ℕ → Bool
is_whole x n = elim (normalize_sequence x) [ err e ↦ false | ok m ↦ m == n ]

abbrev pub same_bool : Bool → Bool → Bool
same_bool true b = b
same_bool false b = not b

-- `acceptPreparedHistory` up to what it changes: `return null` is `other` here, and so is what it
-- catches.
unfoldable pub check_prepared : (recovery_start recovery_end : ℕ) → Prepared → Outcome Accepted
unfolding check_prepared_chunks
check_prepared recovery_start recovery_end h = do
  requested ← normalize_sequence h.requested_start_sequence
  first_retained ← normalize_sequence h.first_retained_sequence
  covered ← normalize_sequence h.covered_through_sequence
  snapshot_end ← normalize_sequence h.snapshot_end_sequence
  generation ← normalize_sequence h.history_generation
  byte_length ← normalize_sequence h.byte_length
  page_count ← normalize_sequence h.page_count
  guard (not (ltb (max 1 recovery_start) requested)) other
  guard (not (ltb (covered + 1) first_retained)) other
  guard (not (ltb covered (max 1 recovery_start - 1) || ltb snapshot_end covered)) other
  guard (not (ltb recovery_end snapshot_end || ltb recovery_end covered)) other
  last ← check_prepared_chunks (first_retained - 1) covered h.chunks
  guard (byte_count h.chunks == byte_length) other
  guard (not (leb (max 1 first_retained) covered && not (last == covered))) other
  guard (same_bool h.complete (leb snapshot_end covered)) other
  ok (record {
    chunks = h.chunks;
    first_retained = first_retained;
    covered_through = covered;
    history_generation = generation;
  })

-- With what it changes: what was before the retention is gone.
abbrev pub accept_checked : Outcome Accepted → Coordinator → Coordinator
accept_checked (err e) c = record c { prepared_history = none }
accept_checked (ok prepared) c =
    let q =
      if ltb (max 1 c.recovery_start) prepared.first_retained
      then report_eviction (mark_rebased false c)
      else c in
    record q {
      prepared_history = some prepared;
      prepared_outcome = record { status = accepted; rebased = q.prepared_outcome.rebased };
    }

unfoldable pub accept_prepared_history : Option Prepared → Coordinator → Coordinator
unfolding check_prepared mark_rebased report_eviction
accept_prepared_history none c = record c { prepared_history = none }
accept_prepared_history (some h) c = elim c.recovery_end [
  | none ↦ record c { prepared_history = none }
  | some last ↦ accept_checked (check_prepared c.recovery_start last h) c
]

-- What `beginAttach` and `clear` both reset. The chain of writes is another one from here on.
unfoldable pub reset_output : (start : ℕ) → Coordinator → Coordinator
reset_output start c = record c {
  retained_live = [];
  retained_live_bytes = 0;
  pending_live_writes = [];
  live_write_scheduled = false;
  live_jobs = 0;
  live_batches = none;
  paused_recovery_pending = false;
  baseline_ready = false;
  covered_through = start - 1;
  scheduled_through = start - 1;
  recovery_end = none;
  explicit_attach_fence = false;
  dropped_live_through = 0;
  retry_attempt = 0;
  failure = none;
  last_error = none;
  history_rebase_prepared = false;
  prepared_history = none;
  prepared_outcome = record { status = not_provided; rebased = false };
  state = idle;
}

unfoldable pub begin_attach : (start : ℕ) → Coordinator → Coordinator
unfolding cancel_recovery resolve_baseline_waiters reset_output
begin_attach start c =
    if c.disposed
    then c
    else (record (reset_output start (resolve_baseline_waiters (cancel_recovery true c))) {
      recovery_kind = initial;
      recovery_start = start;
      needs_rebase = false;
    })

-- There is nothing to replay, where a fence at 0 was asked for.
unfoldable pub attach_empty : Coordinator → Coordinator
unfolding prepare_retained_live_rebase run_recovery resolve_baseline_waiters drain_retained_live
attach_empty c =
    if c.needs_rebase
    then run_recovery (prepare_retained_live_rebase c)
    else drain_retained_live
        (record (resolve_baseline_waiters (record c { baseline_ready = true })) { state = live })

abbrev pub is_zero_fence : Coordinator → Bool
is_zero_fence c = c.explicit_attach_fence && elim c.recovery_end [ none ↦ false | some n ↦ n == 0 ]

-- With the end of the snapshot that has been normalised.
unfoldable pub attach_through :
    (recovery_end : Option ℕ) → Option Prepared → Coordinator → Coordinator
unfolding accept_prepared_history attach_empty run_recovery
attach_through recovery_end h c =
    let q = accept_prepared_history h (record c {
      recovery_end = recovery_end;
      prepared_outcome = record {
        status = if is_some h then rejected else not_provided;
        rebased = false;
      };
    }) in
    if is_zero_fence q then attach_empty q else run_recovery q

unfoldable pub complete_attach :
    (generation : ℕ) → (snapshot_end : Option Number) → Option Prepared → Coordinator → Coordinator
unfolding attach_through normalize_optional emit
complete_attach generation snapshot_end h c0 =
    let c : Coordinator = record c0 { explicit_attach_fence = is_some snapshot_end } in
    if c0.disposed || not (generation == c0.generation)
    then c0
    else elim (normalize_optional snapshot_end) [
      | err e ↦ emit refused c
      | ok recovery_end ↦ attach_through recovery_end h c
    ]

unfoldable pub clear : (start : ℕ) → Coordinator → Coordinator
unfolding cancel_recovery emit reset_output resolve_baseline_waiters
clear start c =
    if c.disposed
    then c
    else resolve_baseline_waiters (reset_output start (emit cleared (cancel_recovery true c)))

-- What `dispose` resets.
abbrev pub discard_output : Coordinator → Coordinator
discard_output c = record c {
  retained_live = [];
  retained_live_bytes = 0;
  pending_live_writes = [];
  live_write_scheduled = false;
  live_jobs = 0;
  live_batches = none;
  paused_recovery_pending = false;
  prepared_history = none;
  state = disposed;
}

unfoldable pub dispose : Coordinator → Coordinator
unfolding cancel_recovery resolve_baseline_waiters
dispose c =
    if c.disposed
    then c
    else resolve_baseline_waiters
        (discard_output (cancel_recovery true (record c { disposed = true })))

-- The two together, with the generation that the first returns.
unfoldable pub attach :
    (start : ℕ) → (snapshot_end : Option Number) → Option Prepared → Coordinator → Coordinator
unfolding begin_attach complete_attach
attach start snapshot_end h c =
    complete_attach ((begin_attach start c).generation) snapshot_end h (begin_attach start c)
