-- ===== src/Paged/Invariant/Reachable.antt =====
-- PagedTerminalOutputCoordinator.ts: the invariant holds after any events.
use floeterm.Common.{ℕ, refl, List, [], ◌∷◌, Option, arith}
use floeterm.Paged.State.{Tagged, Coordinator}
use floeterm.Paged.Events.{
  Event, begin_attach_call, complete_attach_call, pause_call, wait_for_baseline_call, retry_call,
  dispose_call, push_live_call, set_active_call, clear_call, interactive_changed, timer_fired,
  chain_settled, job_started, fetch_answered, writer_returned, step, steps, PartialPolicy,
  construct,
}
use floeterm.Paged.Invariant.{IsCoherent}
use floeterm.Paged.Invariant.Attach.{
  begin_attach-IsCoherent, complete_attach-IsCoherent, clear-IsCoherent, dispose-IsCoherent,
}
use floeterm.Paged.Invariant.Calls.{
  pause-IsCoherent, push_live-IsCoherent, set_active-IsCoherent, retry-IsCoherent,
  wait_for_baseline-IsCoherent, fire_timer-IsCoherent,
}
use floeterm.Paged.Invariant.Writers.{
  settle_chain-IsCoherent, answer_fetch-IsCoherent, run_live_job-IsCoherent,
}
use floeterm.Paged.Invariant.Returns.{return_writer_at-IsCoherent}

module _ (transform : Tagged → Option (List ℕ)) where
  step-IsCoherent :
      (event : Event) (c : Coordinator) → IsCoherent c → IsCoherent (step transform event c)
  unfolding step
  step-IsCoherent (begin_attach_call start) c v = begin_attach-IsCoherent start c v
  step-IsCoherent (complete_attach_call generation snapshot_end h) c v =
      complete_attach-IsCoherent generation snapshot_end h c v
  step-IsCoherent pause_call c v = pause-IsCoherent c v
  step-IsCoherent wait_for_baseline_call c v = wait_for_baseline-IsCoherent c v
  step-IsCoherent retry_call c v = retry-IsCoherent c v
  step-IsCoherent dispose_call c v = dispose-IsCoherent c v
  step-IsCoherent (push_live_call chunk) c v = push_live-IsCoherent chunk c v
  step-IsCoherent (set_active_call active) c v = set_active-IsCoherent active c v
  step-IsCoherent (clear_call start) c v = clear-IsCoherent start c v
  step-IsCoherent (interactive_changed interactive) c v = record { accounts = v.accounts }
  step-IsCoherent timer_fired c v = fire_timer-IsCoherent c v
  step-IsCoherent chain_settled c v = settle_chain-IsCoherent c v
  step-IsCoherent job_started c v = run_live_job-IsCoherent transform c v
  step-IsCoherent (fetch_answered answer) c v = answer_fetch-IsCoherent transform answer c v
  step-IsCoherent (writer_returned succeeded place) c v =
      return_writer_at-IsCoherent transform succeeded place [] c.writers c v

  pub steps_from-IsCoherent :
      (events : List Event) (c : Coordinator) → IsCoherent c → IsCoherent (steps transform events c)
  unfolding steps
  steps_from-IsCoherent [] c v = v
  steps_from-IsCoherent (event ∷ events) c v =
      steps_from-IsCoherent events (step transform event c) (step-IsCoherent event c v)

construct-IsCoherent : (policy : PartialPolicy) → IsCoherent (construct policy)
unfolding construct
construct-IsCoherent policy = record {
  accounts = record {
    counted = refl;
    few = omega arith;
    light = omega arith;
    behind = omega arith;
    attempts = omega arith;
    runs = refl;
    waits = refl;
  };
}

-- After any calls, pages, failures and writers that return, in whatever order, from any policy: what
-- is retained of live output is counted exactly and within the limits of the policy; no more is
-- covered than is scheduled; at most as many retries in a row have been scheduled as the policy has
-- delays; one recovery at most is under way, exactly while the coordinator says that one runs, and
-- none while a retry waits for its timer.
pub steps-IsCoherent :
    (transform : Tagged → Option (List ℕ)) (policy : PartialPolicy) (events : List Event)
    → IsCoherent (steps transform events (construct policy))
steps-IsCoherent transform policy events =
    steps_from-IsCoherent transform events (construct policy) (construct-IsCoherent policy)
