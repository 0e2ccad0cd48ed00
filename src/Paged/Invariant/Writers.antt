-- ===== src/Paged/Invariant/Writers.antt =====
-- PagedTerminalOutputCoordinator.ts: what goes on after an `await` keeps the invariant.
use floeterm.Common.{
  ℕ, zero, suc, max, ◌≡◌, refl, Bool, true, false, List, [], ◌∷◌, Option, none, some, if◌then◌else◌,
  if_cases, arith, ap, ◌∙◌,
}
use floeterm.Paged.History.{Page, other}
use floeterm.Paged.State.{
  awaiting_chain, fetching, writing, Tagged, Recovery, of_chain, Coordinator, sequence_of,
}
use floeterm.Paged.Batches.{raise_to, cover, ordered_batches}
use floeterm.Paged.Pages.{begin_fetching, is_some}
use floeterm.Paged.Calls.{is_settled}
use floeterm.Paged.Writers.{
  settle_chain, fail_live_write, receive_answer, answer_fetch, write_live, take_pending,
  run_live_job, continue_chain,
}
use floeterm.Paged.Invariant.{IsCoherent, reposition}
use floeterm.Paged.Invariant.Endings.{fail_recovery-IsCoherent}
use floeterm.Paged.Invariant.Pages.{IsRunning, begin_fetching-IsCoherent, flush_batches-IsCoherent}
use floeterm.Paged.Invariant.Replay.{receive_page-IsCoherent}

-- The current recovery is one that runs.
pub is_running :
    (c : Coordinator) (o : Option Recovery)
    → c.recovery ≡ o
    → is_some o ≡ true
    → IsCoherent c
    → IsRunning c
is_running c o e s v = record { coherent = v; running = v.accounts.runs ∙ ap is_some e ∙ s }

pub settle_chain-IsCoherent : (c : Coordinator) → IsCoherent c → IsCoherent (settle_chain c)
unfolding settle_chain
settle_chain-IsCoherent c v =
    elim c.recovery
        as (λ o.
          c.recovery ≡ o
          → IsCoherent (elim o [
            | none ↦ c
            | some r ↦ elim r.stage [
              | awaiting_chain ↦ if is_settled c then begin_fetching r c else c
              | fetching ↦ c
              | writing batches ↦ c
            ]
          ])) [
            | none ↦ λ e. v
            | some r ↦ λ e.
                elim r.stage
                  as (λ s. IsCoherent (elim s [
                    | awaiting_chain ↦ if is_settled c then begin_fetching r c else c
                    | fetching ↦ c
                    | writing batches ↦ c
                  ])) [
                    | awaiting_chain ↦
                        if_cases IsCoherent (is_settled c)
                          (λ settled.
                            begin_fetching-IsCoherent r c (is_running c (some r) e refl v))
                          (λ busy. v)
                    | fetching ↦ v
                    | writing batches ↦ v
                  ]
          ]
      refl

fail_live_write-IsCoherent : (c : Coordinator) → IsCoherent c → IsCoherent (fail_live_write c)
unfolding fail_live_write
fail_live_write-IsCoherent c v = record { accounts = v.accounts }

raise_to-IsCoherent : (o : Option ℕ) (c : Coordinator) → IsCoherent c → IsCoherent (raise_to o c)
raise_to-IsCoherent none c v = v
raise_to-IsCoherent (some n) c v = record {
  accounts =
      reposition (max c.covered_through n) (max c.scheduled_through n) v.accounts
        (ground (arith, v.accounts.behind));
}

pub cover-IsCoherent :
    (items : List Tagged) (c : Coordinator) → IsCoherent c → IsCoherent (cover items c)
unfolding cover
cover-IsCoherent [] c v = v
cover-IsCoherent (item ∷ items) c v =
    cover-IsCoherent items (raise_to (sequence_of item) c)
      (raise_to-IsCoherent (sequence_of item) c v)

module _ (transform : Tagged → Option (List ℕ)) where
  receive_answer-IsCoherent :
      (answer : Option Page) (r : Recovery) (c : Coordinator)
      → IsRunning c
      → IsCoherent (receive_answer transform answer r c)
  receive_answer-IsCoherent none r c v = fail_recovery-IsCoherent other c v.coherent
  receive_answer-IsCoherent (some page) r c v = receive_page-IsCoherent transform page r c v

  pub answer_fetch-IsCoherent :
      (answer : Option Page) (c : Coordinator)
      → IsCoherent c
      → IsCoherent (answer_fetch transform answer c)
  unfolding answer_fetch
  answer_fetch-IsCoherent answer c v =
      elim c.recovery
          as (λ o.
            c.recovery ≡ o
            → IsCoherent (elim o [
              | none ↦ c
              | some r ↦ elim r.stage [
                | awaiting_chain ↦ c
                | fetching ↦ receive_answer transform answer r c
                | writing batches ↦ c
              ]
            ])) [
              | none ↦ λ e. v
              | some r ↦ λ e.
                  elim r.stage
                    as (λ s. IsCoherent (elim s [
                      | awaiting_chain ↦ c
                      | fetching ↦ receive_answer transform answer r c
                      | writing batches ↦ c
                    ])) [
                      | awaiting_chain ↦ v
                      | fetching ↦
                          receive_answer-IsCoherent answer r c (is_running c (some r) e refl v)
                      | writing batches ↦ v
                    ]
            ]
        refl

  write_live-IsCoherent :
      (batches : List (List Tagged)) (c : Coordinator)
      → IsCoherent c
      → IsCoherent (write_live transform batches c)
  unfolding write_live
  write_live-IsCoherent batches c v =
      let w = flush_batches-IsCoherent transform of_chain batches c v in
      record { accounts = w.accounts }

  take_pending-IsCoherent :
      (jobs : ℕ) (c : Coordinator) → IsCoherent c → IsCoherent (take_pending transform jobs c)
  unfolding take_pending
  take_pending-IsCoherent jobs c v =
      write_live-IsCoherent (ordered_batches c.policy.max_write_batch_bytes c.pending_live_writes)
        (record c { live_jobs = jobs; pending_live_writes = []; live_write_scheduled = false })
        (record { accounts = v.accounts })

  pub run_live_job-IsCoherent :
      (c : Coordinator) → IsCoherent c → IsCoherent (run_live_job transform c)
  unfolding run_live_job
  run_live_job-IsCoherent c v =
      elim c.live_jobs
        as (λ n. IsCoherent (elim n [
          | zero ↦ c
          | suc jobs ↦ elim c.live_batches [
            | none ↦ take_pending transform jobs c
            | some batches ↦ c
          ]
        ])) [
          | zero ↦ v
          | suc jobs ↦
              elim c.live_batches
                as (λ o.
                  IsCoherent (elim o [ none ↦ take_pending transform jobs c | some batches ↦ c ])) [
                    | none ↦ take_pending-IsCoherent jobs c v
                    | some batches ↦ v
                  ]
        ]

  pub continue_chain-IsCoherent :
      (succeeded : Bool) (c : Coordinator)
      → IsCoherent c
      → IsCoherent (continue_chain transform succeeded c)
  unfolding continue_chain
  continue_chain-IsCoherent succeeded c v =
      elim c.live_batches
        as (λ o. IsCoherent (elim o [
          | none ↦ c
          | some batches ↦ if succeeded then write_live transform batches c else fail_live_write c
        ])) [
          | none ↦ v
          | some batches ↦
              if_cases IsCoherent succeeded (λ s. write_live-IsCoherent batches c v)
                (λ f. fail_live_write-IsCoherent c v)
        ]
