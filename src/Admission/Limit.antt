-- ===== src/Admission/Limit.antt =====
-- TerminalInitializationScheduler.ts: the limits on permits, over every sequence of calls and turns.
use floeterm.Common.{
  ℕ, ◌-◌, ◌≤◌, ◌≡◌, refl, ap, if_cases, Bool, true, false, ◌||◌, not, List, [], ◌∷◌, Option, none,
  some, length, if◌then◌else◌, arith,
}
use floeterm.Common.Assoc.{lookup, insert}
use floeterm.Common.Sets.{contains}
use floeterm.Admission.{
  Scheduler, Waiter, Priority, interactive, background, is_background, create, schedule_drain,
  push_waiter, request, promote, promote_waiter, cancel, cancel_waiter, queue_for, run_turn,
  release, release_permit, release_once, release_found, is_empty, Call, request_call, promote_call,
  cancel_call, turn, release_call, run, run_all,
}
use floeterm.Admission.Permits.{
  out_of, permit_out, for_background, background_permit_out, permits_out, background_permits_out,
  total-insert, lookup_waiting, lookup_new, lookup-insert_self, remove_first-IsInteractive,
}
use floeterm.Admission.Counted.{
  Counted, for_background_zero, no_back_permit, one_fewer, request-Counted, requeue-Counted,
  join-Counted, change-Counted, IsCounted,
}
use floeterm.Admission.Granted.{drain-IsCounted}

module _ (limit back_limit : ℕ) where
  schedule_drain-IsCounted :
      (s : Scheduler) → IsCounted limit back_limit s → IsCounted limit back_limit (schedule_drain s)
  unfolding schedule_drain
  schedule_drain-IsCounted s v = v

  request-IsCounted :
      (priority : Priority) (s : Scheduler)
      → IsCounted limit back_limit s
      → IsCounted limit back_limit (request priority s)
  unfolding request push_waiter schedule_drain
  request-IsCounted background s v = (request-Counted background v.0, v.1, v.2)
  request-IsCounted interactive s v = (
    join-Counted (length s.waiters)
        (record { priority = interactive; active = true; released = none }) (lookup_new s.waiters _)
        refl (request-Counted interactive v.0),
    v.1,
    v.2,
  )

  promote_waiter-IsCounted :
      (w : ℕ) (waiter : Waiter) (s : Scheduler)
      → lookup w s.waiters ≡ some waiter
      → IsCounted limit back_limit s
      → IsCounted limit back_limit (promote_waiter w waiter s)
  unfolding promote_waiter schedule_drain
  promote_waiter-IsCounted w waiter s found v =
      if_cases (IsCounted limit back_limit)
        (not waiter.active
          || not (is_background waiter.priority)
          || not (contains w s.background_queue))
        (λ stays. v)
        (λ moves.
          let none_yet = lookup_waiting w s.waiters waiter v.0.registry found (ground arith) in
          let new : Waiter = record waiter { priority = interactive } in
          (
            join-Counted w new (lookup-insert_self w new s.waiters) refl (
                change-Counted w waiter new s.active_count s.active_background_count found
                  (λ e. refl) (λ waits. none_yet) refl
                  (omega (arith, no_back_permit waiter none_yet)) v.0.limited v.0.background_limited
                  v.0),
            v.1,
            v.2,
          ))

  cancel_waiter-IsCounted :
      (w : ℕ) (waiter : Waiter) (s : Scheduler)
      → lookup w s.waiters ≡ some waiter
      → IsCounted limit back_limit s
      → IsCounted limit back_limit (cancel_waiter w waiter s)
  unfolding cancel_waiter
  cancel_waiter-IsCounted w waiter s found v =
      let new : Waiter = record waiter { active = false } in
      let changed =
        change-Counted w waiter new s.active_count s.active_background_count found (λ e. e)
          (λ waits. cc) refl refl v.0.limited v.0.background_limited v.0 in
      if_cases (IsCounted limit back_limit)
        (not waiter.active || not (contains w (queue_for waiter.priority s))) (λ stays. v)
        (λ goes. (
          if_cases
              (λ queue.
                Counted limit back_limit queue (insert w new s.waiters) s.active_count
                  s.active_background_count)
              (is_background waiter.priority) (λ back. changed)
              (λ front.
                requeue-Counted _ (remove_first-IsInteractive _ w _ changed.interactives) changed),
          v.1,
          v.2,
        ))

  run_turn-IsCounted :
      (s : Scheduler) → IsCounted limit back_limit s → IsCounted limit back_limit (run_turn s)
  unfolding run_turn
  run_turn-IsCounted s v =
      if_cases (IsCounted limit back_limit) s.drain_scheduled
        (λ due. drain-IsCounted limit back_limit (record s { drain_scheduled = false }) v)
        (λ idle. v)

  release_permit-IsCounted :
      (w : ℕ) (waiter : Waiter) (s : Scheduler)
      → lookup w s.waiters ≡ some waiter
      → waiter.released ≡ some false
      → IsCounted limit back_limit s
      → IsCounted limit back_limit (release_permit w waiter s)
  unfolding release_permit
  release_permit-IsCounted w waiter s found out v =
      let new : Waiter = record waiter { released = some true } in
      let fewer = one_fewer waiter.priority s.active_background_count in
      let held = ap (λ r. for_background waiter.priority (out_of r)) out in
      let zero_back = for_background_zero waiter.priority in
      let all = total-insert permit_out w waiter new s.waiters found in
      let back = total-insert background_permit_out w waiter new s.waiters found in
      let changed : IsCounted limit back_limit (record s {
        waiters = insert w new s.waiters;
        active_count = s.active_count - 1;
        active_background_count =
            if is_background waiter.priority
            then s.active_background_count - 1
            else s.active_background_count;
      }) =
        (
          change-Counted w waiter new _ _ found (λ e. e)
              (λ waits.
                let none_yet = lookup_waiting w s.waiters waiter v.0.registry found waits in
                cc (none_yet, out))
              (omega (arith, ap out_of out, all, v.0.counted))
              (omega (arith, fewer, held, zero_back, back, v.0.background_counted))
              (omega (arith, v.0.limited)) (omega (arith, fewer, v.0.background_limited)) v.0,
          v.1,
          v.2,
        ) in
      if_cases (IsCounted limit back_limit)
        (not (is_empty s.interactive_queue) || not (is_empty s.background_queue))
        (λ waits. schedule_drain-IsCounted _ changed) (λ idle. changed)

  release_once-IsCounted :
      (w : ℕ) (waiter : Waiter) (released : Option Bool) (s : Scheduler)
      → lookup w s.waiters ≡ some waiter
      → waiter.released ≡ released
      → IsCounted limit back_limit s
      → IsCounted limit back_limit (release_once w waiter released s)
  release_once-IsCounted w waiter none s found e v = v
  release_once-IsCounted w waiter (some true) s found e v = v
  release_once-IsCounted w waiter (some false) s found e v =
      release_permit-IsCounted w waiter s found e v

  release_found-IsCounted :
      (w : ℕ) (o : Option Waiter) (s : Scheduler)
      → lookup w s.waiters ≡ o
      → IsCounted limit back_limit s
      → IsCounted limit back_limit (release_found w o s)
  release_found-IsCounted w none s found v = v
  release_found-IsCounted w (some waiter) s found v =
      release_once-IsCounted w waiter waiter.released s found refl v

  promote-IsCounted :
      (w : ℕ) (s : Scheduler)
      → IsCounted limit back_limit s
      → IsCounted limit back_limit (promote w s)
  unfolding promote
  promote-IsCounted w s v =
      elim (lookup w s.waiters)
          as (λ o.
            lookup w s.waiters ≡ o
            → IsCounted limit back_limit
                (elim o [ none ↦ s | some waiter ↦ promote_waiter w waiter s ])) [
                  | none ↦ λ found. v
                  | some waiter ↦ λ found. promote_waiter-IsCounted w waiter s found v
                ]
        refl

  cancel-IsCounted :
      (w : ℕ) (s : Scheduler)
      → IsCounted limit back_limit s
      → IsCounted limit back_limit (cancel w s)
  unfolding cancel
  cancel-IsCounted w s v =
      elim (lookup w s.waiters)
          as (λ o.
            lookup w s.waiters ≡ o
            → IsCounted limit back_limit
                (elim o [ none ↦ s | some waiter ↦ cancel_waiter w waiter s ])) [
                  | none ↦ λ found. v
                  | some waiter ↦ λ found. cancel_waiter-IsCounted w waiter s found v
                ]
        refl

  run-IsCounted :
      (call : Call) (s : Scheduler)
      → IsCounted limit back_limit s
      → IsCounted limit back_limit (run call s)
  unfolding run release
  run-IsCounted (request_call priority) s v = request-IsCounted priority s v
  run-IsCounted (promote_call w) s v = promote-IsCounted w s v
  run-IsCounted (cancel_call w) s v = cancel-IsCounted w s v
  run-IsCounted turn s v = run_turn-IsCounted s v
  run-IsCounted (release_call w) s v = release_found-IsCounted w (lookup w s.waiters) s refl v

  calls-IsCounted :
      (calls : List Call) (s : Scheduler)
      → IsCounted limit back_limit s
      → IsCounted limit back_limit (run_all calls s)
  unfolding run_all
  calls-IsCounted [] s v = v
  calls-IsCounted (call ∷ calls) s v = calls-IsCounted calls (run call s) (run-IsCounted call s v)

-- The permits that are out are within both limits, and the counters say how many they are.
abbrev pub IsWithin : (limit back_limit : ℕ) → Scheduler → Type 0
IsWithin limit back_limit s =
    (permits_out s ≤ limit)
    × (background_permits_out s ≤ back_limit)
    × (s.active_count ≡ permits_out s)
    × (s.active_background_count ≡ background_permits_out s)

-- Whatever is requested, promoted, cancelled and released, and whenever the turns come: of the
-- permits that have been granted and not released yet there are never more than the scheduler's
-- limit, and of those for background terminals never more than the background limit, and the two
-- counters are exactly the numbers of these permits.
pub run_all-IsWithin :
    (max_concurrent max_background : ℕ) (calls : List Call)
    → IsWithin max_concurrent max_background (run_all calls (create max_concurrent max_background))
unfolding create
run_all-IsWithin max_concurrent max_background calls =
    let (v, same, back_same) =
      calls-IsCounted max_concurrent max_background calls (create max_concurrent max_background) (
        record {
          registry = tt;
          interactives = tt;
          counted = refl;
          background_counted = refl;
          limited = omega arith;
          background_limited = omega arith;
        },
        refl,
        refl,
      ) in
    (
      omega (arith, v.counted, v.limited),
      omega (arith, v.background_counted, v.background_limited),
      v.counted,
      v.background_counted,
    )
