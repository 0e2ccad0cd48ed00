-- ===== src/Paged/Disposed.antt =====
-- PagedTerminalOutputCoordinator.ts: a coordinator that has been disposed.
use floeterm.Common.{
  ℕ, zero, suc, ◌≡◌, refl, sym, subst, Bool, true, false, ◌||◌, not, List, [], ◌∷◌, ◌++◌, Option,
  none, some, ◌==◌, if◌then◌else◌, if_true, if_false, arith,
}
use floeterm.Paged.History.{Page}
use floeterm.Paged.State.{
  disposed, awaiting_chain, fetching, writing, Tagged, Effect, Owner, of_recovery, of_chain, Writer,
  Coordinator, cancel_recovery, resolve_baseline_waiters,
}
use floeterm.Paged.Pages.{begin_fetching}
use floeterm.Paged.Attach.{begin_attach, complete_attach, clear, dispose, discard_output}
use floeterm.Paged.Calls.{
  pause, push_live, set_active, is_failed, retry, wait_for_baseline, fire_timer, is_settled,
}
use floeterm.Paged.Writers.{
  settle_chain, receive_answer, answer_fetch, take_pending, run_live_job, stale, return_writer,
  return_writer_at,
}
use floeterm.Paged.Events.{
  Event, begin_attach_call, complete_attach_call, pause_call, wait_for_baseline_call, retry_call,
  dispose_call, push_live_call, set_active_call, clear_call, interactive_changed, timer_fired,
  chain_settled, job_started, fetch_answered, writer_returned, step, steps,
}

-- Nothing is suspended any more but writers that have been called.
record IsGone (log : List Effect) (c : Coordinator) : Type 0 where
  gone : c.disposed ≡ true
  ended : c.state ≡ disposed
  silent : c.log ≡ log
  idle : c.recovery ≡ none
  unscheduled : c.live_jobs ≡ 0
  unwritten : c.live_batches ≡ none
  untimed : c.retry_timer ≡ false

-- A call that a disposed coordinator ignores.
ignored :
    (log : List Effect) (test : Bool) (c otherwise : Coordinator)
    → IsGone log c
    → test ≡ true
    → IsGone log (if test then c else otherwise)
ignored log test c otherwise v e = subst (IsGone log) (sym (if_true test c otherwise e)) v

settle_chain-IsGone :
    (log : List Effect) (c : Coordinator) → IsGone log c → IsGone log (settle_chain c)
unfolding settle_chain
settle_chain-IsGone log c v =
    subst
      (λ o. IsGone log (elim o [
        | none ↦ c
        | some r ↦ elim r.stage [
          | awaiting_chain ↦ if is_settled c then begin_fetching r c else c
          | fetching ↦ c
          | writing batches ↦ c
        ]
      ]))
      (sym v.idle) v

fire_timer-IsGone : (log : List Effect) (c : Coordinator) → IsGone log c → IsGone log (fire_timer c)
unfolding fire_timer
fire_timer-IsGone log c v = ignored log (not c.retry_timer) c _ v (ground (arith, v.untimed))

module _ (transform : Tagged → Option (List ℕ)) where
  answer_fetch-IsGone :
      (log : List Effect) (answer : Option Page) (c : Coordinator)
      → IsGone log c
      → IsGone log (answer_fetch transform answer c)
  unfolding answer_fetch
  answer_fetch-IsGone log answer c v =
      subst
        (λ o. IsGone log (elim o [
          | none ↦ c
          | some r ↦ elim r.stage [
            | awaiting_chain ↦ c
            | fetching ↦ receive_answer transform answer r c
            | writing batches ↦ c
          ]
        ]))
        (sym v.idle) v

  run_live_job-IsGone :
      (log : List Effect) (c : Coordinator) → IsGone log c → IsGone log (run_live_job transform c)
  unfolding run_live_job
  run_live_job-IsGone log c v =
      subst
        (λ n. IsGone log (elim n [
          | zero ↦ c
          | suc jobs ↦ elim c.live_batches [
            | none ↦ take_pending transform jobs c
            | some batches ↦ c
          ]
        ]))
        (sym v.unscheduled) v

  stale-IsGone :
      (log : List Effect) (succeeded : Bool) (owner : Owner) (c : Coordinator)
      → IsGone log c
      → IsGone log (stale transform succeeded owner c)
  stale-IsGone log false of_chain c v = record {
    gone = v.gone;
    ended = v.ended;
    silent = v.silent;
    idle = v.idle;
    unscheduled = v.unscheduled;
    unwritten = v.unwritten;
    untimed = v.untimed;
  }
  stale-IsGone log false (of_recovery serial) c v = v
  stale-IsGone log true owner c v = v

  return_writer_at-IsGone :
      (log : List Effect) (succeeded : Bool) (n : ℕ) (before after : List Writer) (c : Coordinator)
      → IsGone log c
      → IsGone log (return_writer_at transform succeeded n before after c)
  unfolding return_writer_at return_writer
  return_writer_at-IsGone log succeeded n before [] c v = v
  return_writer_at-IsGone log succeeded zero before (writer ∷ after) c0 v =
      let c : Coordinator = record c0 { writers = before ++ after } in
      let w : IsGone log c = record {
        gone = v.gone;
        ended = v.ended;
        silent = v.silent;
        idle = v.idle;
        unscheduled = v.unscheduled;
        unwritten = v.unwritten;
        untimed = v.untimed;
      } in
      subst (IsGone log)
        (sym (
          if_true (c.disposed || not (writer.generation == c.generation)) _ _
            (ground (arith, v.gone))))
        (stale-IsGone log succeeded writer.owner c w)
  return_writer_at-IsGone log succeeded (suc n) before (writer ∷ after) c v =
      return_writer_at-IsGone log succeeded n (before ++ (writer ∷ [])) after c v

  step-IsGone :
      (log : List Effect) (event : Event) (c : Coordinator)
      → IsGone log c
      → IsGone log (step transform event c)
  unfolding step begin_attach complete_attach pause wait_for_baseline retry dispose push_live
      set_active clear
  step-IsGone log (begin_attach_call start) c v = ignored log c.disposed c _ v v.gone
  step-IsGone log (complete_attach_call generation snapshot_end h) c v =
      ignored log (c.disposed || not (generation == c.generation)) c _ v (ground (arith, v.gone))
  step-IsGone log pause_call c v = ignored log c.disposed c _ v v.gone
  step-IsGone log wait_for_baseline_call c v =
      ignored log (c.baseline_ready || is_failed c.state || c.disposed) c _ v
        (ground (arith, v.gone))
  step-IsGone log retry_call c v =
      ignored log (c.disposed || not (is_failed c.state)) c _ v (ground (arith, v.gone))
  step-IsGone log dispose_call c v = ignored log c.disposed c _ v v.gone
  step-IsGone log (push_live_call chunk) c v = ignored log c.disposed c _ v v.gone
  step-IsGone log (set_active_call active) c v = ignored log c.disposed c _ v v.gone
  step-IsGone log (clear_call start) c v = ignored log c.disposed c _ v v.gone
  step-IsGone log (interactive_changed interactive) c v = record {
    gone = v.gone;
    ended = v.ended;
    silent = v.silent;
    idle = v.idle;
    unscheduled = v.unscheduled;
    unwritten = v.unwritten;
    untimed = v.untimed;
  }
  step-IsGone log timer_fired c v = fire_timer-IsGone log c v
  step-IsGone log chain_settled c v = settle_chain-IsGone log c v
  step-IsGone log job_started c v = run_live_job-IsGone log c v
  step-IsGone log (fetch_answered answer) c v = answer_fetch-IsGone log answer c v
  step-IsGone log (writer_returned succeeded place) c v =
      return_writer_at-IsGone log succeeded place [] c.writers c v

  steps-IsGone :
      (log : List Effect) (events : List Event) (c : Coordinator)
      → IsGone log c
      → IsGone log (steps transform events c)
  unfolding steps
  steps-IsGone log [] c v = v
  steps-IsGone log (event ∷ events) c v =
      steps-IsGone log events (step transform event c) (step-IsGone log event c v)

dispose-IsGone : (c : Coordinator) → c.disposed ≡ false → IsGone ((dispose c).log) (dispose c)
unfolding dispose resolve_baseline_waiters cancel_recovery
dispose-IsGone c e =
    let q =
      resolve_baseline_waiters
        (discard_output (cancel_recovery true (record c { disposed = true }))) in
    subst (λ d. IsGone (d.log) d) (sym (if_false c.disposed c q e))
      (record {
        gone = refl;
        ended = refl;
        silent = refl;
        idle = refl;
        unscheduled = refl;
        unwritten = refl;
        untimed = refl;
      })

-- A coordinator that is disposed stays so: whatever is called, fetched or returned afterwards, no
-- function of the options is called any more, no page is asked for and no recovery begins.
pub dispose_is_final :
    (transform : Tagged → Option (List ℕ)) (events : List Event) (c : Coordinator)
    → c.disposed ≡ false
    → (((steps transform events (dispose c)).log) ≡ ((dispose c).log))
      × (((steps transform events (dispose c)).state) ≡ disposed)
      × (((steps transform events (dispose c)).recovery) ≡ none)
dispose_is_final transform events c e =
    let v = steps-IsGone transform ((dispose c).log) events (dispose c) (dispose-IsGone c e) in
    (v.silent, v.ended, v.idle)
