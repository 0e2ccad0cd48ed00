-- ===== src/Paged/Invariant/Live.antt =====
-- PagedTerminalOutputCoordinator.ts: the methods for live output keep the invariant.
use floeterm.Common.{
  ℕ, ◌+◌, ◌-◌, ◌≤◌, max, ◌&&◌, ◌||◌, not, List, [], ◌∷◌, Option, none, some, ltb, leb, ◌==◌,
  if_cases, arith,
}
use floeterm.Paged.State.{Tagged, Coordinator, sequence_of, emit, mark_rebased, can_render_live}
use floeterm.Paged.Live.{
  is_live, prepare_retained_live_rebase, rebase_start, prepare_history_generation_rebase,
  begin_catch_up, is_initial_replay, enqueue_live_write, accept_sequence, accept_live, sort_items,
  accept_all, is_empty, drain_retained_live,
}
use floeterm.Paged.Invariant.{
  IsCoherent, forget, reattempt, reposition, retain_all-IsCoherent, retain_live-IsCoherent,
  run_recovery-IsCoherent,
}

pub prepare_retained_live_rebase-IsCoherent :
    (c : Coordinator) → IsCoherent c → IsCoherent (prepare_retained_live_rebase c)
unfolding prepare_retained_live_rebase emit mark_rebased
prepare_retained_live_rebase-IsCoherent c v = record {
  accounts = reposition 0 0 v.accounts (omega arith);
}

pub prepare_history_generation_rebase-IsCoherent :
    (first : Option ℕ) (c : Coordinator)
    → IsCoherent c
    → IsCoherent (prepare_history_generation_rebase first c)
unfolding prepare_history_generation_rebase emit
prepare_history_generation_rebase-IsCoherent first c v = record {
  accounts = reposition (rebase_start first - 1) (rebase_start first - 1) v.accounts (omega arith);
}

pub begin_catch_up-IsCoherent :
    (start : ℕ) (c : Coordinator) → IsCoherent c → IsCoherent (begin_catch_up start c)
unfolding begin_catch_up
begin_catch_up-IsCoherent start c v =
    if_cases IsCoherent (c.disposed || c.recovery_running || is_initial_replay c.state) (λ stays. v)
      (λ begins. run_recovery-IsCoherent _ (record { accounts = reattempt v.accounts }))

pub enqueue_live_write-IsCoherent :
    (item : Tagged) (c : Coordinator) → IsCoherent c → IsCoherent (enqueue_live_write item c)
unfolding enqueue_live_write
enqueue_live_write-IsCoherent item c v = record {
  accounts =
      reposition c.covered_through _ v.accounts
        (elim (sequence_of item)
          as (λ o.
            c.covered_through
            ≤ elim o [ none ↦ c.scheduled_through | some n ↦ max c.scheduled_through n ]) [
              | none ↦ v.accounts.behind
              | some n ↦ ground (arith, v.accounts.behind)
            ]);
}

pub accept_sequence-IsCoherent :
    (item : Tagged) (n : ℕ) (c : Coordinator) → IsCoherent c → IsCoherent (accept_sequence item n c)
unfolding accept_sequence
accept_sequence-IsCoherent item n c v =
    let w = retain_live-IsCoherent item c v in
    if_cases IsCoherent (leb n c.scheduled_through) (λ old. v)
      (λ new.
        if_cases IsCoherent (c.explicit_attach_fence && c.scheduled_through == 0 && ltb 1 n)
          (λ fenced. begin_catch_up-IsCoherent 1 _ w)
          (λ open_start.
            if_cases IsCoherent (ltb 0 c.scheduled_through && ltb (c.scheduled_through + 1) n)
              (λ gap. begin_catch_up-IsCoherent (c.scheduled_through + 1) _ w)
              (λ next.
                if_cases IsCoherent (c.scheduled_through == 0)
                  (λ first.
                    enqueue_live_write-IsCoherent item
                      (record c { covered_through = n - 1; scheduled_through = n - 1 })
                      (record { accounts = reposition (n - 1) (n - 1) v.accounts (omega arith) }))
                  (λ later. enqueue_live_write-IsCoherent item c v))))

pub accept_live-IsCoherent :
    (item : Tagged) (c : Coordinator) → IsCoherent c → IsCoherent (accept_live item c)
unfolding accept_live
accept_live-IsCoherent item c v =
    elim (sequence_of item)
      as (λ o.
        IsCoherent
          (elim o [ none ↦ enqueue_live_write item c | some n ↦ accept_sequence item n c ])) [
            | none ↦ enqueue_live_write-IsCoherent item c v
            | some n ↦ accept_sequence-IsCoherent item n c v
          ]

pub accept_all-IsCoherent :
    (items : List Tagged) (c : Coordinator) → IsCoherent c → IsCoherent (accept_all items c)
unfolding accept_all
accept_all-IsCoherent [] c v = v
accept_all-IsCoherent (item ∷ items) c v =
    let w = accept_live-IsCoherent item c v in
    if_cases IsCoherent (is_live ((accept_live item c).state))
      (λ goes_on. accept_all-IsCoherent items _ w) (λ stops. retain_all-IsCoherent items _ w)

pub drain_retained_live-IsCoherent :
    (c : Coordinator) → IsCoherent c → IsCoherent (drain_retained_live c)
unfolding drain_retained_live
drain_retained_live-IsCoherent c v =
    if_cases IsCoherent
      (not (can_render_live c) || is_empty c.retained_live || not (is_live c.state)) (λ stays. v)
      (λ drains.
        accept_all-IsCoherent (sort_items c.retained_live) _
          (record { accounts = forget v.accounts }))
