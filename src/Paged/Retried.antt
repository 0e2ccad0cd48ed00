-- ===== src/Paged/Retried.antt =====
-- PagedTerminalOutputCoordinator.ts: a history that cannot be fetched is given up.
use floeterm.Common.{
  ℕ, zero, suc, ◌+◌, ◌≤◌, ◌<◌, ◌≡◌, refl, sym, subst, true, false, ◌||◌, ◌&&◌, not, List, [], ◌∷◌,
  Option, none, some, length, if◌then◌else◌, if_true, if_false, if_cases, arith, Bool-cases, inl,
  inr,
}
use floeterm.Paged.History.{other}
use floeterm.Paged.State.{
  failed, awaiting_chain, fetching, writing, Tagged, Coordinator, cancel_recovery, set_state,
  resolve_baseline_waiters,
}
use floeterm.Paged.Live.{run_recovery}
use floeterm.Paged.Retry.{has_delay, give_up, schedule_retry, fail_recovery}
use floeterm.Paged.Pages.{begin_fetching}
use floeterm.Paged.Calls.{fire_timer, is_settled}
use floeterm.Paged.Writers.{settle_chain, receive_answer, answer_fetch}
use floeterm.Paged.Events.{Event, timer_fired, chain_settled, fetch_answered, step, steps}
use floeterm.Paged.Refetched.{WaitsAt, fetches_again}

record WaitsForTimer (delays : List ℕ) (attempt : ℕ) (c : Coordinator) : Type 0 where
  idle : c.recovery_running ≡ false
  alive : c.disposed ≡ false
  timed : c.retry_timer ≡ true
  jobless : c.live_jobs ≡ 0
  unwritten : c.live_batches ≡ none
  policed : c.policy.retry_delays_ms ≡ delays
  tried : c.retry_attempt ≡ attempt

record IsGivenUp (c : Coordinator) : Type 0 where
  over : c.state ≡ failed
  idle : c.recovery ≡ none
  untimed : c.retry_timer ≡ false

-- A fetch fails, the timer of the retry fires if it runs, and the chain of writes has settled.
abbrev pub failing : (times : ℕ) → List Event
failing zero = []
failing (suc times) = fetch_answered none ∷ timer_fired ∷ chain_settled ∷ failing times

never : (attempt count : ℕ) → attempt ≤ count → count < attempt + 0 → ⊥
never attempt count few enough = omega arith

has_delay_within : (n : ℕ) (ds : List ℕ) → has_delay n ds ≡ true → n < length ds
has_delay_within n [] h = cc
has_delay_within zero (d ∷ ds) h = omega arith
has_delay_within (suc n) (d ∷ ds) h = omega (arith, has_delay_within n ds h)

module _ (transform : Tagged → Option (List ℕ)) (delays : List ℕ) where
  -- What a fetch that fails comes to.
  failed_fetch :
      (attempt : ℕ) (c : Coordinator)
      → WaitsAt delays fetching attempt c
      → answer_fetch transform none c ≡ fail_recovery other c
  unfolding answer_fetch
  failed_fetch attempt c v =
      subst
        (λ o.
          elim o [
            | none ↦ c
            | some r ↦ elim r.stage [
              | awaiting_chain ↦ c
              | fetching ↦ receive_answer transform none r c
              | writing batches ↦ c
            ]
          ]
          ≡ fail_recovery other c)
        (sym v.runs)
        (subst
          (λ s.
            elim s [
              | awaiting_chain ↦ c
              | fetching ↦ receive_answer transform none v.current c
              | writing batches ↦ c
            ]
            ≡ fail_recovery other c)
          (sym v.stands) refl)

  retries :
      (attempt : ℕ) (c : Coordinator)
      → WaitsAt delays fetching attempt c
      → has_delay attempt delays ≡ true
      → WaitsForTimer delays (attempt + 1) (fail_recovery other c)
  unfolding fail_recovery schedule_retry
  retries attempt c v h =
      let more : has_delay c.retry_attempt c.policy.retry_delays_ms ≡ true =
        subst (λ d. has_delay c.retry_attempt d ≡ true) (sym v.policed)
          (subst (λ a. has_delay a delays ≡ true) (sym v.tried) h) in
      subst (WaitsForTimer delays (attempt + 1))
        (sym (if_true (true && has_delay c.retry_attempt c.policy.retry_delays_ms) _ _ more))
        (record {
          idle = refl;
          alive = v.alive;
          timed = refl;
          jobless = v.jobless;
          unwritten = v.unwritten;
          policed = v.policed;
          tried = omega (arith, v.tried);
        })

  gives_up :
      (attempt : ℕ) (c : Coordinator)
      → WaitsAt delays fetching attempt c
      → has_delay attempt delays ≡ false
      → IsGivenUp (fail_recovery other c)
  unfolding fail_recovery schedule_retry give_up set_state resolve_baseline_waiters
  gives_up attempt c v h =
      let more : has_delay c.retry_attempt c.policy.retry_delays_ms ≡ false =
        subst (λ d. has_delay c.retry_attempt d ≡ false) (sym v.policed)
          (subst (λ a. has_delay a delays ≡ false) (sym v.tried) h) in
      subst IsGivenUp
        (sym (if_false (true && has_delay c.retry_attempt c.policy.retry_delays_ms) _ _ more))
        (if_cases IsGivenUp c.baseline_ready
          (λ ready. record { over = refl; idle = refl; untimed = v.untimed })
          (λ waits. record { over = refl; idle = refl; untimed = v.untimed }))

  starts_again :
      (attempt : ℕ) (c : Coordinator)
      → WaitsForTimer delays attempt c
      → WaitsAt delays awaiting_chain attempt (fire_timer c)
  unfolding fire_timer run_recovery cancel_recovery
  starts_again attempt c v =
      subst (WaitsAt delays awaiting_chain attempt)
        (sym (if_false (not c.retry_timer) _ _ (ground (arith, v.timed))))
        (subst (WaitsAt delays awaiting_chain attempt) (sym (if_false c.disposed _ _ v.alive)) (
          subst (WaitsAt delays awaiting_chain attempt)
            (sym
              (if_false (c.disposed || c.recovery_running) _ _ (ground (arith, v.alive, v.idle))))
            (record {
              current = _;
              runs = refl;
              stands = refl;
              alive = v.alive;
              untimed = refl;
              jobless = v.jobless;
              unwritten = v.unwritten;
              policed = v.policed;
              tried = v.tried;
            })))

  settle_idle : (c : Coordinator) → IsGivenUp c → IsGivenUp (settle_chain c)
  unfolding settle_chain
  settle_idle c v =
      subst
        (λ o. IsGivenUp (elim o [
          | none ↦ c
          | some r ↦ elim r.stage [
            | awaiting_chain ↦ if is_settled c then begin_fetching r c else c
            | fetching ↦ c
            | writing batches ↦ c
          ]
        ]))
        (sym v.idle) v

  answer_idle : (c : Coordinator) → IsGivenUp c → IsGivenUp (answer_fetch transform none c)
  unfolding answer_fetch
  answer_idle c v =
      subst
        (λ o. IsGivenUp (elim o [
          | none ↦ c
          | some r ↦ elim r.stage [
            | awaiting_chain ↦ c
            | fetching ↦ receive_answer transform none r c
            | writing batches ↦ c
          ]
        ]))
        (sym v.idle) v

  fire_idle : (c : Coordinator) → IsGivenUp c → IsGivenUp (fire_timer c)
  unfolding fire_timer
  fire_idle c v =
      subst IsGivenUp (sym (if_true (not c.retry_timer) _ _ (ground (arith, v.untimed)))) v

  stays-IsGivenUp :
      (times : ℕ) (c : Coordinator) → IsGivenUp c → IsGivenUp (steps transform (failing times) c)
  unfolding steps step
  stays-IsGivenUp zero c v = v
  stays-IsGivenUp (suc times) c v =
      stays-IsGivenUp times _ (settle_idle _ (fire_idle _ (answer_idle c v)))

  fails :
      (times attempt : ℕ) (c : Coordinator)
      → WaitsAt delays fetching attempt c
      → attempt ≤ length delays
      → length delays < attempt + times
      → IsGivenUp (steps transform (failing times) c)
  unfolding steps step
  fails zero attempt c v few enough = elim (never attempt (length delays) few enough) [ ]
  fails (suc times) attempt c v few enough = elim (Bool-cases (has_delay attempt delays)) [
    | inl h ↦
        fails times (attempt + 1) _
          (fetches_again delays (attempt + 1) _ (
            starts_again (attempt + 1) _ (
              subst (WaitsForTimer delays (attempt + 1)) (sym (failed_fetch attempt c v))
                (retries attempt c v h))))
          (omega (arith, has_delay_within attempt delays h)) (omega arith)
    | inr h ↦ stays-IsGivenUp times _ (
        settle_idle _
          (fire_idle _ (subst IsGivenUp (sym (failed_fetch attempt c v)) (gives_up attempt c v h))))
  ]

-- A history that cannot be fetched is given up: a recovery that waits for a page, with nothing being
-- written, has failed once the fetches have failed as often as delays are left, and once more; no
-- recovery and no timer is left then, however many failures, timers and settled chains follow.
pub retries_end :
    (transform : Tagged → Option (List ℕ)) (delays : List ℕ) (times attempt : ℕ) (c : Coordinator)
    → WaitsAt delays fetching attempt c
    → attempt ≤ length delays
    → length delays < attempt + times
    → (((steps transform (failing times) c).state) ≡ failed)
      × (((steps transform (failing times) c).recovery) ≡ none)
      × (((steps transform (failing times) c).retry_timer) ≡ false)
retries_end transform delays times attempt c v few enough =
    let w = fails transform delays times attempt c v few enough in (w.over, w.idle, w.untimed)
