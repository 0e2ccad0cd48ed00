-- ===== src/Paged/Retry.antt =====
-- PagedTerminalOutputCoordinator.ts: how `runRecovery` ends: it starts anew, fails, or is done.
use floeterm.Common.{
  ℕ, zero, suc, ◌+◌, max, Bool, true, false, ◌&&◌, not, List, [], ◌∷◌, Option, none, some, ltb,
  if◌then◌else◌,
}
use floeterm.Common.Fallible.{Result, ok, err}
use floeterm.Paged.History.{
  FailureCode, history_fetch_failed, history_coverage_incomplete, history_contract_missing,
  history_contract_invalid, Thrown, contract, aborted, other,
}
use floeterm.Paged.State.{
  live, retry_wait, failed, RecoveryKind, initial, catch_up, Failure, Recovery, Coordinator,
  first_sequence, set_state, resolve_baseline_waiters,
}
use floeterm.Paged.Live.{run_recovery, drain_retained_live}

-- A recovery that leaves its loop: with what it throws, or to run anew.
pub data Exit : Type 0 where
  throwing : Thrown → Coordinator → Exit
  restarting : Coordinator → Exit

abbrev pub Step : Type 0 → Type 0
Step A = Result Exit A

abbrev pub throw_if : Bool → Thrown → Coordinator → Step (Unit {0})
throw_if true thrown c = err (throwing thrown c)
throw_if false thrown c = ok tt

-- An outcome, with the state in which it is thrown.
abbrev pub lift : {A : Type 0} → Coordinator → Result Thrown A → Step A
lift c (err thrown) = err (throwing thrown c)
lift c (ok a) = ok a

-- `this.recoveryRunning = false; await this.runRecovery()`.
unfoldable pub restart : Coordinator → Coordinator
unfolding run_recovery
restart c = run_recovery (record c { recovery_running = false; recovery = none })

abbrev pub code_of : Thrown → FailureCode
code_of (contract code first_retained) = code
code_of aborted = history_fetch_failed
code_of other = history_fetch_failed

abbrev pub is_retryable : FailureCode → Bool
is_retryable history_contract_missing = false
is_retryable history_contract_invalid = false
is_retryable _ = true

abbrev pub first_retained_of : Thrown → Option ℕ
first_retained_of (contract code first_retained) = first_retained
first_retained_of aborted = none
first_retained_of other = none

abbrev pub failure_of : Thrown → Coordinator → Failure
failure_of thrown c = record {
  code = code_of thrown;
  phase = c.recovery_kind;
  retryable = is_retryable (code_of thrown);
  attempt = c.retry_attempt;
  covered_sequence = c.covered_through;
  first_retained_sequence = first_retained_of thrown;
  attach_generation = c.generation;
}

abbrev pub has_delay : ℕ → List ℕ → Bool
has_delay n [] = false
has_delay zero (delay ∷ delays) = true
has_delay (suc n) (delay ∷ delays) = has_delay n delays

unfoldable pub give_up : Coordinator → Coordinator
unfolding set_state resolve_baseline_waiters
give_up c =
    if c.baseline_ready then set_state failed c else resolve_baseline_waiters (set_state failed c)

abbrev pub can_retry : Option Failure → Bool
can_retry none = true
can_retry (some failure) = failure.retryable

unfoldable pub schedule_retry : Coordinator → Coordinator
unfolding give_up
schedule_retry c =
    if can_retry c.failure && has_delay c.retry_attempt c.policy.retry_delays_ms
    then (record c { retry_attempt = c.retry_attempt + 1; state = retry_wait; retry_timer = true })
    else give_up c

-- The handler of what `runRecovery` throws.
unfoldable pub fail_recovery : Thrown → Coordinator → Coordinator
unfolding schedule_retry
fail_recovery thrown c = schedule_retry (record c {
  last_error = some thrown;
  failure = some (failure_of thrown c);
  recovery_running = false;
  recovery = none;
})

unfoldable pub exit : Exit → Coordinator
unfolding fail_recovery restart
exit (throwing thrown c) = fail_recovery thrown c
exit (restarting c) = restart c

abbrev pub is_catch_up : RecoveryKind → Bool
is_catch_up initial = false
is_catch_up catch_up = true

-- Retained live output that history does not reach up to.
abbrev pub beyond : (covered_end : ℕ) → RecoveryKind → Option ℕ → Option ℕ
beyond covered_end kind none = none
beyond covered_end kind (some n) =
    if is_catch_up kind && ltb (covered_end + 1) n then some n else none

unfoldable pub set_baseline : Coordinator → Coordinator
unfolding resolve_baseline_waiters
set_baseline c =
    if not (is_catch_up c.recovery_kind) && not c.baseline_ready
    then resolve_baseline_waiters (record c { baseline_ready = true })
    else c

unfoldable pub go_live : Coordinator → Coordinator
unfolding set_baseline drain_retained_live
go_live c = drain_retained_live (record (set_baseline c) {
  retry_attempt = 0;
  last_error = none;
  failure = none;
  prepared_history = none;
  state = live;
  recovery_running = false;
  recovery = none;
})

-- After the replay has been written.
unfoldable pub complete_recovery : Recovery → Coordinator → Coordinator
unfolding go_live fail_recovery first_sequence
complete_recovery r c0 =
    let c : Coordinator = record c0 {
      covered_through = max c0.covered_through r.covered_end;
      scheduled_through = max c0.scheduled_through r.covered_end;
    } in
    elim (beyond r.covered_end c.recovery_kind (first_sequence c.retained_live)) [
      | none ↦ go_live c
      | some n ↦ fail_recovery (contract history_coverage_incomplete (some n)) c
    ]
