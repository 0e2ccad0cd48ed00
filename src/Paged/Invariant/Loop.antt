-- ===== src/Paged/Invariant/Loop.antt =====
-- PagedTerminalOutputCoordinator.ts: a page that arrives keeps the invariant.
use floeterm.Common.{
  ℕ, ◌-◌, max, Bool, true, false, ◌&&◌, ◌||◌, not, none, some, ltb, if◌then◌else◌, if_cases, arith,
}
use floeterm.Common.Fallible.{Result, ok, err, ◌>>=◌}
use floeterm.Paged.History.{Page, Thrown, invalid}
use floeterm.Paged.State.{Recovery, Coordinator, emit, mark_rebased}
use floeterm.Paged.Retry.{Exit, throwing, Step, throw_if}
use floeterm.Paged.Pages.{
  is_some, differ, Claims, discard_prepared_history, is_full, check_claims, generation_needs_rebase,
  retention_needs_rebase, is_fully_evicted, give_up_prepared, report_eviction, rebase_recovery,
  validate_page,
}
use floeterm.Paged.Loop.{
  rebase_prepared, page_coverage, skip_evicted, first_page_step, later_page_step, page_step,
}
use floeterm.Paged.Invariant.{IsCoherent, reposition}
use floeterm.Paged.Invariant.Live.{prepare_history_generation_rebase-IsCoherent}
use floeterm.Paged.Invariant.Endings.{ExitIsCoherent}
use floeterm.Paged.Invariant.Pages.{IsRunning}

-- A part of the loop ends it coherently, or keeps the recovery running.
abbrev pub Keeps : Step (Coordinator × Recovery) → Type 0
Keeps (err left) = ExitIsCoherent left
Keeps (ok q) = IsRunning (q.0)

abbrev pub Checks {ℓ} : {A : Type ℓ} → Result Exit A → Type 0
Checks (err left) = ExitIsCoherent left
Checks (ok a) = Unit

chain-Keeps :
    {A : Type 0} (first : Step A) (next : A → Step (Coordinator × Recovery))
    → Checks first
    → ((a : A) → Keeps (next a))
    → Keeps (first >>= next)
chain-Keeps (err left) next v f = v
chain-Keeps (ok a) next v f = f a

pub throw_if-Checks :
    (test : Bool) (thrown : Thrown) (c : Coordinator)
    → IsCoherent c
    → Checks (throw_if test thrown c)
throw_if-Checks true thrown c v = v
throw_if-Checks false thrown c v = tt

reposition-IsRunning :
    (c : Coordinator) (at : ℕ)
    → IsRunning c
    → IsRunning (record c { covered_through = at; scheduled_through = at })
reposition-IsRunning c at v = record {
  coherent = record { accounts = reposition at at v.coherent.accounts (omega arith) };
  running = v.running;
}

report_eviction-IsRunning : (c : Coordinator) → IsRunning c → IsRunning (report_eviction c)
unfolding report_eviction emit
report_eviction-IsRunning c v = record {
  coherent = record { accounts = v.coherent.accounts };
  running = v.running;
}

pub check_claims-Checks :
    (n : Claims) (r : Recovery) (c : Coordinator) → IsCoherent c → Checks (check_claims n r c)
unfolding check_claims discard_prepared_history mark_rebased
check_claims-Checks n r c v =
    if_cases Checks (is_some r.prepared && not (is_full n))
      (λ discards. record {
        accounts =
            reposition (c.recovery_start - 1) (c.recovery_start - 1) v.accounts (omega arith);
      })
      (λ stays. tt)

give_up_prepared-IsRunning :
    (r : Recovery) (c : Coordinator) → IsRunning c → IsRunning (give_up_prepared r c)
unfolding mark_rebased
give_up_prepared-IsRunning r c v = record {
  coherent = record { accounts = v.coherent.accounts };
  running = v.running;
}

pub rebase_recovery-Keeps :
    (page : Page) (n : Claims) (r : Recovery) (c : Coordinator)
    → IsRunning c
    → Keeps (rebase_recovery page n r c)
unfolding rebase_recovery
rebase_recovery-Keeps page n r c v =
    let w = give_up_prepared-IsRunning r c v in
    let e = report_eviction-IsRunning (give_up_prepared r c) w in
    if_cases Keeps
      (c.history_rebase_prepared
        || not (generation_needs_rebase page n r || retention_needs_rebase page n r))
      (λ stays. v)
      (λ changed.
        if_cases Keeps (not (is_fully_evicted n c))
          (λ rebases.
            prepare_history_generation_rebase-IsCoherent n.first_retained (give_up_prepared r c)
              w.coherent)
          (λ evicted.
            if_cases Keeps (generation_needs_rebase page n r)
              (λ restarts. record { accounts = e.coherent.accounts }) (λ goes_on. e)))

rebase_prepared-ExitIsCoherent :
    (n : Claims) (c : Coordinator) → IsCoherent c → ExitIsCoherent (rebase_prepared n c)
unfolding rebase_prepared mark_rebased
rebase_prepared-ExitIsCoherent n c v =
    prepare_history_generation_rebase-IsCoherent n.first_retained
      (record (mark_rebased true c) { prepared_history = none }) (record { accounts = v.accounts })

pub page_coverage-Checks :
    (page : Page) (n : Claims) (r : Recovery) (c : Coordinator)
    → IsCoherent c
    → Checks (page_coverage page n r c)
unfolding page_coverage
page_coverage-Checks page n r c v =
    elim (validate_page page r.covered_end)
      as (λ o. Checks (elim o [
        | err thrown ↦ err (if is_some r.prepared then rebase_prepared n c else throwing thrown c)
        | ok coverage ↦ ok coverage
      ])) [
        | err thrown ↦
            if_cases ExitIsCoherent (is_some r.prepared)
              (λ prepared. rebase_prepared-ExitIsCoherent n c v) (λ fresh. v)
        | ok coverage ↦ tt
      ]

skip_evicted-IsRunning :
    (n : Claims) (r : Recovery) (c : Coordinator) → IsRunning c → IsRunning (skip_evicted n r c)
unfolding skip_evicted
skip_evicted-IsRunning n r c0 v =
    let c = if c0.history_rebase_prepared then c0 else report_eviction c0 in
    let w : IsRunning c =
      if_cases IsRunning c0.history_rebase_prepared (λ prepared. v)
        (λ reports. report_eviction-IsRunning c0 v) in
    elim n.first_retained
      as (λ o. IsRunning (elim o [
        | none ↦ c0
        | some first ↦
            if not (is_fully_evicted n c0) && ltb (max 1 r.start_sequence) first
            then (record c { covered_through = first - 1; scheduled_through = first - 1 })
            else c0
      ])) [
        | none ↦ v
        | some first ↦
            if_cases IsRunning (not (is_fully_evicted n c0) && ltb (max 1 r.start_sequence) first)
              (λ skips. reposition-IsRunning c (first - 1) w) (λ stays. v)
      ]

pub page_step-Keeps :
    (n : Claims) (r : Recovery) (c : Coordinator) → IsRunning c → Keeps (page_step n r c)
unfolding page_step first_page_step later_page_step
page_step-Keeps n r c v =
    if_cases Keeps r.first_page
      (λ first.
        chain-Keeps (throw_if (differ c.recovery_end n.snapshot_end) invalid c) _
          (throw_if-Checks (differ c.recovery_end n.snapshot_end) invalid c v.coherent)
          (λ u.
            let w = skip_evicted-IsRunning n r c v in
            record { coherent = record { accounts = w.coherent.accounts }; running = w.running }))
      (λ later.
        if_cases Keeps (not (differ r.snapshot_end n.snapshot_end)) (λ same. v)
          (λ changed.
            if_cases ExitIsCoherent (is_some r.prepared)
              (λ prepared. rebase_prepared-ExitIsCoherent n c v.coherent) (λ fresh. v.coherent)))
