-- ===== src/Paged/Invariant/Replay.antt =====
-- PagedTerminalOutputCoordinator.ts: from a page that arrives to the replay, the invariant is kept.
use floeterm.Common.{ℕ, ◌+◌, ◌&&◌, not, List, Option, none, if_cases}
use floeterm.Common.Fallible.{Result, ok, err, ◌>>=◌}
use floeterm.Paged.History.{Page, Thrown, invalid, contract, history_coverage_incomplete}
use floeterm.Paged.State.{Tagged, Recovery, Coordinator}
use floeterm.Paged.Live.{prepare_retained_live_rebase}
use floeterm.Paged.Batches.{merge_recovery_chunks, ordered_batches}
use floeterm.Paged.Retry.{throwing, restarting, Step, throw_if, lift, exit}
use floeterm.Paged.Pages.{
  is_some, exceeds, beyond_end, claims_of, check_claims, generation_needs_rebase, rebase_recovery,
}
use floeterm.Paged.Loop.{
  page_coverage, page_step, add_page, start_replay, accept_page, check_page, receive_page,
}
use floeterm.Paged.Invariant.{IsCoherent}
use floeterm.Paged.Invariant.Live.{prepare_retained_live_rebase-IsCoherent}
use floeterm.Paged.Invariant.Endings.{ExitIsCoherent, exit-IsCoherent}
use floeterm.Paged.Invariant.Pages.{
  IsRunning, fetch_page-IsCoherent, write_replay-IsCoherent, merge_recovery_chunks-IsRunning,
}
use floeterm.Paged.Invariant.Loop.{
  Keeps, Checks, throw_if-Checks, check_claims-Checks, rebase_recovery-Keeps, page_coverage-Checks,
  page_step-Keeps,
}

-- The checks of a page end the recovery coherently, or leave it running.
abbrev Passes : Step (ℕ × Coordinator × Recovery) → Type 0
Passes (err left) = ExitIsCoherent left
Passes (ok (coverage, c, r)) = IsRunning c

lift-Checks :
    {A : Type 0} (c : Coordinator) (o : Result Thrown A) → IsCoherent c → Checks (lift c o)
lift-Checks c (err thrown) v = v
lift-Checks c (ok a) v = tt

chain-Passes :
    {A : Type 0} (first : Step A) (next : A → Step (ℕ × Coordinator × Recovery))
    → Checks first
    → ((a : A) → Passes (next a))
    → Passes (first >>= next)
chain-Passes (err left) next v f = v
chain-Passes (ok a) next v f = f a

keep-Passes :
    (first : Step (Coordinator × Recovery))
    (next : Coordinator × Recovery → Step (ℕ × Coordinator × Recovery))
    → Keeps first
    → ((q : Coordinator × Recovery) → IsRunning (q.0) → Passes (next q))
    → Passes (first >>= next)
keep-Passes (err left) next v f = v
keep-Passes (ok q) next v f = f q v

check_page-Passes :
    (page : Page) (r : Recovery) (c : Coordinator) → IsRunning c → Passes (check_page page r c)
unfolding check_page
check_page-Passes page r c v =
    chain-Passes (lift c (claims_of page)) _ (lift-Checks c (claims_of page) v.coherent) (λ n.
      chain-Passes (check_claims n r c) _ (check_claims-Checks n r c v.coherent) (λ u.
        keep-Passes (rebase_recovery page n r c) _ (rebase_recovery-Keeps page n r c v) (λ q w.
          chain-Passes
            (throw_if (q.0.history_rebase_prepared && generation_needs_rebase page n r) invalid
              (q.0))
            _ (throw_if-Checks _ invalid (q.0) w.coherent)
            (λ u.
              chain-Passes (page_coverage page n (q.1) (q.0)) _
                (page_coverage-Checks page n (q.1) (q.0) w.coherent)
                (λ coverage.
                  chain-Passes (throw_if (beyond_end q.1.snapshot_end coverage) invalid (q.0)) _
                    (throw_if-Checks _ invalid (q.0) w.coherent)
                    (λ u.
                      keep-Passes (page_step n (q.1) (q.0)) _ (page_step-Keeps n (q.1) (q.0) w)
                        (λ s x. x)))))))

module _ (transform : Tagged → Option (List ℕ)) where
  start_replay-IsCoherent :
      (r : Recovery) (c : Coordinator) → IsRunning c → IsCoherent (start_replay transform r c)
  unfolding start_replay
  start_replay-IsCoherent r c v =
      let merged = merge_recovery_chunks r.history_chunks r.covered_end c in
      if_cases IsCoherent (exceeds c.recovery_end r.covered_end)
        (λ short.
          exit-IsCoherent (throwing (contract history_coverage_incomplete none) c) v.coherent)
        (λ enough.
          if_cases IsCoherent c.needs_rebase
            (λ rebases.
              exit-IsCoherent (restarting (prepare_retained_live_rebase c))
                (prepare_retained_live_rebase-IsCoherent c v.coherent))
            (λ writes.
              write_replay-IsCoherent transform r
                (ordered_batches c.policy.max_write_batch_bytes (merged.0)) (merged.1)
                (merge_recovery_chunks-IsRunning r.history_chunks r.covered_end c v)))

  accept_page-IsCoherent :
      (page : Page) (coverage : ℕ) (r : Recovery) (c : Coordinator)
      → IsRunning c
      → IsCoherent (accept_page transform page coverage r c)
  unfolding accept_page
  accept_page-IsCoherent page coverage r0 c v =
      let r = add_page page coverage r0 in
      if_cases IsCoherent (not page.has_more) (λ last. start_replay-IsCoherent r c v)
        (λ goes_on.
          if_cases IsCoherent (is_some page.next_cursor)
            (λ continues. fetch_page-IsCoherent (record r { start_sequence = coverage + 1 }) c v)
            (λ stuck. exit-IsCoherent (throwing invalid c) v.coherent))

  pub receive_page-IsCoherent :
      (page : Page) (r : Recovery) (c : Coordinator)
      → IsRunning c
      → IsCoherent (receive_page transform page r c)
  unfolding receive_page
  receive_page-IsCoherent page r c v =
      elim (check_page page r c)
          as (λ o.
            Passes o
            → IsCoherent (elim o [
              | err left ↦ exit left
              | ok (coverage, q, s) ↦ accept_page transform page coverage s q
            ])) [
              | err left ↦ λ w. exit-IsCoherent left w
              | ok (coverage, q, s) ↦ λ w. accept_page-IsCoherent page coverage s q w
            ]
        (check_page-Passes page r c v)
