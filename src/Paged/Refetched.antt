-- ===== src/Paged/Refetched.antt =====
-- PagedTerminalOutputCoordinator.ts: a recovery that has begun again asks for a page.
use floeterm.Common.{
  ℕ, ◌≡◌, refl, sym, subst, true, false, List, none, some, ◌==◌, if◌then◌else◌, if_true,
}
use floeterm.Paged.State.{Stage, awaiting_chain, fetching, writing, Recovery, Coordinator, emit}
use floeterm.Paged.Pages.{
  fetch_page, begin_fresh, begin_prepared, prepared_baseline, begin_fetching,
}
use floeterm.Paged.Calls.{is_settled}
use floeterm.Paged.Writers.{settle_chain}

-- A recovery is at a stage, nothing is written, and so many attempts have been made.
pub record WaitsAt (delays : List ℕ) (stage : Stage) (attempt : ℕ) (c : Coordinator) : Type 0 where
  pub current : Recovery
  pub runs : c.recovery ≡ some current
  pub stands : current.stage ≡ stage
  pub alive : c.disposed ≡ false
  pub untimed : c.retry_timer ≡ false
  pub jobless : c.live_jobs ≡ 0
  pub unwritten : c.live_batches ≡ none
  pub policed : c.policy.retry_delays_ms ≡ delays
  pub tried : c.retry_attempt ≡ attempt

module _ (delays : List ℕ) where
  fetch_page-WaitsAt :
      (attempt : ℕ) (r : Recovery) (c : Coordinator)
      → WaitsAt delays awaiting_chain attempt c
      → WaitsAt delays fetching attempt (fetch_page r c)
  unfolding fetch_page emit
  fetch_page-WaitsAt attempt r c v = record {
    current = record r { stage = fetching };
    runs = refl;
    stands = refl;
    alive = v.alive;
    untimed = v.untimed;
    jobless = v.jobless;
    unwritten = v.unwritten;
    policed = v.policed;
    tried = v.tried;
  }

  begin_fetching-WaitsAt :
      (attempt : ℕ) (r : Recovery) (c : Coordinator)
      → WaitsAt delays awaiting_chain attempt c
      → WaitsAt delays fetching attempt (begin_fetching r c)
  unfolding begin_fetching
  begin_fetching-WaitsAt attempt r c v =
      elim c.prepared_history
        as (λ o. WaitsAt delays fetching attempt (elim o [
          | none ↦ fetch_page (begin_fresh c r) c
          | some prepared ↦ fetch_page (begin_prepared prepared c r) (record c {
            covered_through = prepared_baseline prepared c;
            scheduled_through = prepared_baseline prepared c;
          })
        ])) [
          | none ↦ fetch_page-WaitsAt attempt (begin_fresh c r) c v
          | some prepared ↦
              fetch_page-WaitsAt attempt (begin_prepared prepared c r)
                (record c {
                  covered_through = prepared_baseline prepared c;
                  scheduled_through = prepared_baseline prepared c;
                })
                (record {
                  current = v.current;
                  runs = v.runs;
                  stands = v.stands;
                  alive = v.alive;
                  untimed = v.untimed;
                  jobless = v.jobless;
                  unwritten = v.unwritten;
                  policed = v.policed;
                  tried = v.tried;
                })
        ]

  is_settled_of : (c : Coordinator) → c.live_batches ≡ none → c.live_jobs ≡ 0 → is_settled c ≡ true
  is_settled_of c b j =
      subst (λ o. elim o [ none ↦ c.live_jobs == 0 | some batches ↦ false ] ≡ true) (sym b)
        (subst (λ n. (n == 0) ≡ true) (sym j) refl)

  pub fetches_again :
      (attempt : ℕ) (c : Coordinator)
      → WaitsAt delays awaiting_chain attempt c
      → WaitsAt delays fetching attempt (settle_chain c)
  unfolding settle_chain
  fetches_again attempt c v =
      subst
        (λ o. WaitsAt delays fetching attempt (elim o [
          | none ↦ c
          | some r ↦ elim r.stage [
            | awaiting_chain ↦ if is_settled c then begin_fetching r c else c
            | fetching ↦ c
            | writing batches ↦ c
          ]
        ]))
        (sym v.runs)
        (subst
          (λ s. WaitsAt delays fetching attempt (elim s [
            | awaiting_chain ↦ if is_settled c then begin_fetching v.current c else c
            | fetching ↦ c
            | writing batches ↦ c
          ]))
          (sym v.stands)
          (subst (WaitsAt delays fetching attempt)
            (sym (if_true (is_settled c) _ _ (is_settled_of c v.unwritten v.jobless)))
            (begin_fetching-WaitsAt attempt v.current c v)))
