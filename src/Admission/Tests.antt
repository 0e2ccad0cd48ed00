-- ===== src/Admission/Tests.antt =====
-- TerminalInitializationScheduler.ts at concrete values.
use floeterm.Common.{true, none, ◌≤◌, ◌≡◌, refl, List, [], ◌∷◌, arith}
use floeterm.Common.Assoc.{lookup, insert}
use floeterm.Admission.{
  Scheduler, Call, turn_requested, granted, interactive, background, request_call, turn,
  release_call, create, run_all, drain,
}
use floeterm.Admission.Handled.{Drained}
use floeterm.Admission.Drain.{drain_lem}
use floeterm.Admission.Limit.{IsWithin, run_all-IsWithin}

abbrev two_waiting : Scheduler
two_waiting = record (create 3 1) {
  interactive_queue = 0 ∷ [];
  background_queue = 1 ∷ [];
  waiters =
      (0, record { priority = interactive; active = true; released = none })
      ∷ (1, record { priority = background; active = true; released = none })
      ∷ [];
}

two_waiting-IsWithin : two_waiting.active_count ≤ two_waiting.max_concurrent
unfolding create
two_waiting-IsWithin = omega arith

drain_lem_example : Drained two_waiting (drain two_waiting)
drain_lem_example = drain_lem two_waiting two_waiting-IsWithin

-- The interactive one goes first; its permit is released twice, and the other one follows.
abbrev calls : List Call
calls =
    request_call background
    ∷ request_call interactive
    ∷ turn
    ∷ release_call 1
    ∷ release_call 1
    ∷ turn
    ∷ release_call 0
    ∷ []

-- Until the second grant.
abbrev between : List Call
between = request_call background ∷ request_call interactive ∷ turn ∷ release_call 1 ∷ turn ∷ []

between_counts :
    (run_all between (create 1 1)).log
    ≡ turn_requested ∷ granted 1 ∷ turn_requested ∷ granted 0 ∷ []
unfolding run_all create lookup insert
between_counts = refl

run_all-IsWithin_example : IsWithin 1 1 (run_all calls (create 1 1))
run_all-IsWithin_example = run_all-IsWithin 1 1 calls
