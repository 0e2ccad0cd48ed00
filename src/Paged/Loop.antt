-- ===== src/Paged/Loop.antt =====
-- PagedTerminalOutputCoordinator.ts: the rest of the loop of `runRecovery`, and what follows it.
use floeterm.Common.{
  ℕ, ◌+◌, ◌-◌, max, true, false, ◌&&◌, not, List, ◌++◌, map, Option, none, some, ltb, if◌then◌else◌,
}
use floeterm.Common.Fallible.{ok, err, ◌>>=◌, ◌>>◌}
use floeterm.Paged.History.{Page, invalid, history_coverage_incomplete, contract}
use floeterm.Paged.State.{Tagged, writing, Recovery, Coordinator, of_recovery, mark_rebased}
use floeterm.Paged.Live.{prepare_retained_live_rebase, prepare_history_generation_rebase}
use floeterm.Paged.Batches.{ordered_batches, flush_batches, merge_recovery_chunks}
use floeterm.Paged.Retry.{Exit, throwing, restarting, Step, throw_if, lift, exit, complete_recovery}
use floeterm.Paged.Pages.{
  is_some, differ, exceeds, beyond_end, tag_history, fetch_page, Claims, claims_of, check_claims,
  generation_needs_rebase, is_fully_evicted, rebase_recovery, report_eviction, validate_page,
}

unfoldable pub rebase_prepared : Claims → Coordinator → Exit
unfolding mark_rebased prepare_history_generation_rebase
rebase_prepared n c = restarting (
    prepare_history_generation_rebase n.first_retained
      (record (mark_rebased true c) { prepared_history = none }))

-- A page without valid coverage ends a recovery without a prepared history.
unfoldable pub page_coverage : Page → Claims → Recovery → Coordinator → Step ℕ
unfolding validate_page rebase_prepared
page_coverage page n r c = elim (validate_page page r.covered_end) [
  | err thrown ↦ err (if is_some r.prepared then rebase_prepared n c else throwing thrown c)
  | ok coverage ↦ ok coverage
]

-- Output before the first page's retention is gone.
unfoldable pub skip_evicted : Claims → Recovery → Coordinator → Coordinator
unfolding report_eviction
skip_evicted n r c0 =
    let c = if c0.history_rebase_prepared then c0 else report_eviction c0 in
    elim n.first_retained [
      | none ↦ c0
      | some first ↦
          if not (is_fully_evicted n c0) && ltb (max 1 r.start_sequence) first
          then (record c { covered_through = first - 1; scheduled_through = first - 1 })
          else c0
    ]

unfoldable pub first_page_step : Claims → Recovery → Coordinator → Step (Coordinator × Recovery)
unfolding skip_evicted
first_page_step n r c = do
  throw_if (differ c.recovery_end n.snapshot_end) invalid c
  ok (
    record (skip_evicted n r c) { history_rebase_prepared = false },
    record r {
      snapshot_end = if is_some c.recovery_end then c.recovery_end else n.snapshot_end;
      history_generation = n.generation;
    },
  )

unfoldable pub later_page_step : Claims → Recovery → Coordinator → Step (Coordinator × Recovery)
unfolding rebase_prepared
later_page_step n r c =
    if not (differ r.snapshot_end n.snapshot_end)
    then ok (c, r)
    else err (if is_some r.prepared then rebase_prepared n c else throwing invalid c)

unfoldable pub page_step : Claims → Recovery → Coordinator → Step (Coordinator × Recovery)
unfolding first_page_step later_page_step
page_step n r c = if r.first_page then first_page_step n r c else later_page_step n r c

unfoldable pub add_page : Page → (coverage : ℕ) → Recovery → Recovery
add_page page coverage r = record r {
  first_page = false;
  history_chunks = r.history_chunks ++ map tag_history page.chunks;
  covered_end = max r.covered_end coverage;
  cursor = page.next_cursor;
}

-- The writer is called for the next batch that has data, or the recovery is completed.
unfoldable pub write_replay :
    (Tagged → Option (List ℕ)) → Recovery → List (List Tagged) → Coordinator → Coordinator
unfolding flush_batches prepare_retained_live_rebase exit complete_recovery
write_replay transform r batches c =
    let (q, left) = flush_batches transform (of_recovery r.serial) batches c in
    elim left [
      | some rest ↦ record q { recovery = some (record r { stage = writing rest }) }
      | none ↦
          if q.needs_rebase
          then exit (restarting (prepare_retained_live_rebase q))
          else complete_recovery r q
    ]

-- After the loop.
unfoldable pub start_replay : (Tagged → Option (List ℕ)) → Recovery → Coordinator → Coordinator
unfolding exit prepare_retained_live_rebase merge_recovery_chunks ordered_batches write_replay
start_replay transform r c =
    let merged = merge_recovery_chunks r.history_chunks r.covered_end c in
    if exceeds c.recovery_end r.covered_end
    then exit (throwing (contract history_coverage_incomplete none) c)
    else if c.needs_rebase
    then exit (restarting (prepare_retained_live_rebase c))
    else write_replay transform r (ordered_batches c.policy.max_write_batch_bytes (merged.0))
        (merged.1)

-- A page whose checks have passed.
unfoldable pub accept_page :
    (Tagged → Option (List ℕ)) → Page → (coverage : ℕ) → Recovery → Coordinator → Coordinator
unfolding add_page start_replay exit fetch_page
accept_page transform page coverage r0 c =
    let r = add_page page coverage r0 in
    if not page.has_more
    then start_replay transform r c
    else if is_some page.next_cursor
    then fetch_page (record r { start_sequence = coverage + 1 }) c
    else exit (throwing invalid c)

-- The checks of a page, up to where its chunks are taken.
unfoldable pub check_page : Page → Recovery → Coordinator → Step (ℕ × Coordinator × Recovery)
unfolding claims_of check_claims rebase_recovery page_coverage page_step
check_page page r c = do
  n ← lift c (claims_of page)
  check_claims n r c
  rebased ← rebase_recovery page n r c
  throw_if (rebased.0.history_rebase_prepared && generation_needs_rebase page n r) invalid
      (rebased.0)
  coverage ← page_coverage page n (rebased.1) (rebased.0)
  throw_if (beyond_end rebased.1.snapshot_end coverage) invalid (rebased.0)
  stepped ← page_step n (rebased.1) (rebased.0)
  ok (coverage, stepped.0, stepped.1)

-- A page arrives for the recovery.
unfoldable pub receive_page :
    (Tagged → Option (List ℕ)) → Page → Recovery → Coordinator → Coordinator
unfolding check_page accept_page exit
receive_page transform page r c = elim (check_page page r c) [
  | err left ↦ exit left
  | ok (coverage, q, s) ↦ accept_page transform page coverage s q
]
