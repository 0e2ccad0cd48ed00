-- ===== src/Paged/Invariant/Endings.antt =====
-- PagedTerminalOutputCoordinator.ts: the recovery keeps the invariant.
use floeterm.Common.{
  ℕ, zero, suc, ◌+◌, ◌≤◌, max, ◌≡◌, refl, true, false, ◌&&◌, not, List, [], ◌∷◌, none, some, length,
  if_cases, arith,
}
use floeterm.Paged.History.{Thrown, contract, history_coverage_incomplete}
use floeterm.Paged.State.{
  live, Recovery, Coordinator, first_sequence, resolve_baseline_waiters, set_state,
}
use floeterm.Paged.Retry.{
  Exit, throwing, restarting, restart, has_delay, give_up, can_retry, schedule_retry, failure_of,
  fail_recovery, exit, beyond, is_catch_up, set_baseline, go_live, complete_recovery,
}
use floeterm.Paged.Invariant.{
  IsCoherent, reposition, reattempt, stop_running, run_recovery-IsCoherent,
}
use floeterm.Paged.Invariant.Live.{drain_retained_live-IsCoherent}

-- A failed recovery's state, but for what happens to its retry.
has_delay-lt : (n : ℕ) (delays : List ℕ) → has_delay n delays ≡ true → n + 1 ≤ length delays
has_delay-lt n [] h = cc
has_delay-lt zero (d ∷ delays) h = omega arith
has_delay-lt (suc n) (d ∷ delays) h = omega (arith, has_delay-lt n delays h)

give_up-IsCoherent : (c : Coordinator) → IsCoherent c → IsCoherent (give_up c)
unfolding give_up set_state resolve_baseline_waiters
give_up-IsCoherent c v =
    if_cases IsCoherent c.baseline_ready (λ ready. record { accounts = v.accounts })
      (λ waits. record { accounts = v.accounts })

schedule_retry-IsCoherent :
    (c : Coordinator) → c.recovery ≡ none → IsCoherent c → IsCoherent (schedule_retry c)
unfolding schedule_retry
schedule_retry-IsCoherent c e v =
    if_cases IsCoherent (can_retry c.failure && has_delay c.retry_attempt c.policy.retry_delays_ms)
      (λ retries. record {
        accounts = record {
          counted = v.accounts.counted;
          few = v.accounts.few;
          light = v.accounts.light;
          behind = v.accounts.behind;
          attempts = ground (arith, has_delay-lt c.retry_attempt c.policy.retry_delays_ms);
          runs = v.accounts.runs;
          waits = ground (arith, v.accounts.runs, e);
        };
      })
      (λ gives_up. give_up-IsCoherent c v)

pub fail_recovery-IsCoherent :
    (thrown : Thrown) (c : Coordinator) → IsCoherent c → IsCoherent (fail_recovery thrown c)
unfolding fail_recovery
fail_recovery-IsCoherent thrown c v =
    schedule_retry-IsCoherent
      (record c {
        last_error = some thrown;
        failure = some (failure_of thrown c);
        recovery_running = false;
        recovery = none;
      })
      refl (record { accounts = stop_running v.accounts })

pub restart-IsCoherent : (c : Coordinator) → IsCoherent c → IsCoherent (restart c)
unfolding restart
restart-IsCoherent c v =
    run_recovery-IsCoherent (record c { recovery_running = false; recovery = none })
      (record { accounts = stop_running v.accounts })

-- An exit leaves a coherent state, if it was one.
abbrev pub ExitIsCoherent : Exit → Type 0
ExitIsCoherent (throwing thrown c) = IsCoherent c
ExitIsCoherent (restarting c) = IsCoherent c

pub exit-IsCoherent : (left : Exit) → ExitIsCoherent left → IsCoherent (exit left)
unfolding exit
exit-IsCoherent (throwing thrown c) v = fail_recovery-IsCoherent thrown c v
exit-IsCoherent (restarting c) v = restart-IsCoherent c v

set_baseline-IsCoherent : (c : Coordinator) → IsCoherent c → IsCoherent (set_baseline c)
unfolding set_baseline resolve_baseline_waiters
set_baseline-IsCoherent c v =
    if_cases IsCoherent (not (is_catch_up c.recovery_kind) && not c.baseline_ready)
      (λ ready. record { accounts = v.accounts }) (λ stays. v)

go_live-IsCoherent : (c : Coordinator) → IsCoherent c → IsCoherent (go_live c)
unfolding go_live
go_live-IsCoherent c v =
    let w = set_baseline-IsCoherent c v in
    drain_retained_live-IsCoherent
      (record (set_baseline c) {
        retry_attempt = 0;
        last_error = none;
        failure = none;
        prepared_history = none;
        state = live;
        recovery_running = false;
        recovery = none;
      })
      (record { accounts = reattempt (stop_running w.accounts) })

pub complete_recovery-IsCoherent :
    (r : Recovery) (c : Coordinator) → IsCoherent c → IsCoherent (complete_recovery r c)
unfolding complete_recovery
complete_recovery-IsCoherent r c0 v =
    let c : Coordinator = record c0 {
      covered_through = max c0.covered_through r.covered_end;
      scheduled_through = max c0.scheduled_through r.covered_end;
    } in
    let w : IsCoherent c = record {
      accounts =
          reposition (max c0.covered_through r.covered_end) (max c0.scheduled_through r.covered_end)
            v.accounts (ground (arith, v.accounts.behind));
    } in
    elim (beyond r.covered_end c.recovery_kind (first_sequence c.retained_live))
      as (λ o. IsCoherent (elim o [
        | none ↦ go_live c
        | some n ↦ fail_recovery (contract history_coverage_incomplete (some n)) c
      ])) [
        | none ↦ go_live-IsCoherent c w
        | some n ↦ fail_recovery-IsCoherent (contract history_coverage_incomplete (some n)) c w
      ]
