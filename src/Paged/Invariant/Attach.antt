-- ===== src/Paged/Invariant/Attach.antt =====
-- PagedTerminalOutputCoordinator.ts: attaching, clearing and disposing keep the invariant.
use floeterm.Common.{
  ℕ, ◌-◌, max, true, false, ◌||◌, not, Option, none, some, ltb, ◌==◌, if◌then◌else◌, if_cases,
  arith,
}
use floeterm.Common.Number.{Number}
use floeterm.Common.Fallible.{ok, err}
use floeterm.Paged.History.{Prepared, Outcome, normalize_optional}
use floeterm.Paged.State.{
  live, rejected, not_provided, Accepted, cleared, refused, Coordinator, emit, cancel_recovery,
  mark_rebased, resolve_baseline_waiters,
}
use floeterm.Paged.Pages.{is_some, report_eviction}
use floeterm.Paged.Attach.{
  check_prepared, accept_checked, accept_prepared_history, reset_output, begin_attach, attach_empty,
  is_zero_fence, attach_through, complete_attach, clear, dispose, discard_output,
}
use floeterm.Paged.Invariant.{
  IsCoherent, reposition, reattempt, forget, cancel_recovery-IsCoherent, run_recovery-IsCoherent,
}
use floeterm.Paged.Invariant.Live.{
  prepare_retained_live_rebase-IsCoherent, drain_retained_live-IsCoherent,
}

accept_checked-IsCoherent :
    (o : Outcome Accepted) (c : Coordinator) → IsCoherent c → IsCoherent (accept_checked o c)
unfolding mark_rebased report_eviction emit
accept_checked-IsCoherent (err e) c v = record { accounts = v.accounts }
accept_checked-IsCoherent (ok prepared) c v =
    let q =
      if ltb (max 1 c.recovery_start) prepared.first_retained
      then report_eviction (mark_rebased false c)
      else c in
    let w : IsCoherent q =
      if_cases IsCoherent (ltb (max 1 c.recovery_start) prepared.first_retained)
        (λ rebased. record { accounts = v.accounts }) (λ stays. v) in
    record { accounts = w.accounts }

accept_prepared_history-IsCoherent :
    (h : Option Prepared) (c : Coordinator)
    → IsCoherent c
    → IsCoherent (accept_prepared_history h c)
unfolding accept_prepared_history
accept_prepared_history-IsCoherent none c v = record { accounts = v.accounts }
accept_prepared_history-IsCoherent (some h) c v =
    elim c.recovery_end
      as (λ o. IsCoherent (elim o [
        | none ↦ record c { prepared_history = none }
        | some last ↦ accept_checked (check_prepared c.recovery_start last h) c
      ])) [
        | none ↦ record { accounts = v.accounts }
        | some last ↦ accept_checked-IsCoherent (check_prepared c.recovery_start last h) c v
      ]

reset_output-IsCoherent :
    (start : ℕ) (c : Coordinator) → IsCoherent c → IsCoherent (reset_output start c)
unfolding reset_output
reset_output-IsCoherent start c v = record {
  accounts = reposition (start - 1) (start - 1) (reattempt (forget v.accounts)) (omega arith);
}

resolve_baseline_waiters-IsCoherent :
    (c : Coordinator) → IsCoherent c → IsCoherent (resolve_baseline_waiters c)
unfolding resolve_baseline_waiters
resolve_baseline_waiters-IsCoherent c v = record { accounts = v.accounts }

pub begin_attach-IsCoherent :
    (start : ℕ) (c : Coordinator) → IsCoherent c → IsCoherent (begin_attach start c)
unfolding begin_attach
begin_attach-IsCoherent start c v =
    if_cases IsCoherent c.disposed (λ stays. v)
      (λ begins.
        let w =
          reset_output-IsCoherent start _
            (resolve_baseline_waiters-IsCoherent _ (cancel_recovery-IsCoherent true c v)) in
        record { accounts = w.accounts })

attach_empty-IsCoherent : (c : Coordinator) → IsCoherent c → IsCoherent (attach_empty c)
unfolding attach_empty
attach_empty-IsCoherent c v =
    if_cases IsCoherent c.needs_rebase
      (λ rebases. run_recovery-IsCoherent _ (prepare_retained_live_rebase-IsCoherent c v))
      (λ empty.
        let q : Coordinator = record c { baseline_ready = true } in
        let w = resolve_baseline_waiters-IsCoherent q (record { accounts = v.accounts }) in
        drain_retained_live-IsCoherent (record (resolve_baseline_waiters q) { state = live })
          (record { accounts = w.accounts }))

attach_through-IsCoherent :
    (recovery_end : Option ℕ) (h : Option Prepared) (c : Coordinator)
    → IsCoherent c
    → IsCoherent (attach_through recovery_end h c)
unfolding attach_through
attach_through-IsCoherent recovery_end h c0 v =
    let c : Coordinator = record c0 {
      recovery_end = recovery_end;
      prepared_outcome = record {
        status = if is_some h then rejected else not_provided;
        rebased = false;
      };
    } in
    let w = accept_prepared_history-IsCoherent h c (record { accounts = v.accounts }) in
    if_cases IsCoherent (is_zero_fence (accept_prepared_history h c))
      (λ empty. attach_empty-IsCoherent _ w) (λ replays. run_recovery-IsCoherent _ w)

pub complete_attach-IsCoherent :
    (generation : ℕ) (snapshot_end : Option Number) (h : Option Prepared) (c : Coordinator)
    → IsCoherent c
    → IsCoherent (complete_attach generation snapshot_end h c)
unfolding complete_attach emit
complete_attach-IsCoherent generation snapshot_end h c0 v =
    let c : Coordinator = record c0 { explicit_attach_fence = is_some snapshot_end } in
    if_cases IsCoherent (c0.disposed || not (generation == c0.generation)) (λ stays. v)
      (λ current.
        elim (normalize_optional snapshot_end)
          as (λ o. IsCoherent (elim o [
            | err e ↦ emit refused c
            | ok recovery_end ↦ attach_through recovery_end h c
          ])) [
            | err e ↦ record { accounts = v.accounts }
            | ok recovery_end ↦
                attach_through-IsCoherent recovery_end h c (record { accounts = v.accounts })
          ])

pub clear-IsCoherent : (start : ℕ) (c : Coordinator) → IsCoherent c → IsCoherent (clear start c)
unfolding clear emit
clear-IsCoherent start c v =
    if_cases IsCoherent c.disposed (λ stays. v)
      (λ clears.
        let w = cancel_recovery-IsCoherent true c v in
        resolve_baseline_waiters-IsCoherent _ (
          reset_output-IsCoherent start (emit cleared (cancel_recovery true c))
            (record { accounts = w.accounts })))

pub dispose-IsCoherent : (c : Coordinator) → IsCoherent c → IsCoherent (dispose c)
unfolding dispose
dispose-IsCoherent c v =
    if_cases IsCoherent c.disposed (λ stays. v)
      (λ disposes.
        let w =
          cancel_recovery-IsCoherent true (record c { disposed = true })
            (record { accounts = v.accounts }) in
        resolve_baseline_waiters-IsCoherent
          (discard_output (cancel_recovery true (record c { disposed = true })))
          (record { accounts = forget w.accounts }))
