-- ===== src/Paged/Invariant/Pages.antt =====
-- PagedTerminalOutputCoordinator.ts: the loop of `runRecovery` keeps the invariant.
use floeterm.Common.{
  ℕ, ◌≤◌, ◌≡◌, refl, Bool, true, List, [], ◌∷◌, Option, none, some, length, if◌then◌else◌, if_cases,
  arith,
}
use floeterm.Paged.State.{
  Tagged, Policy, writing, fetching, Recovery, Coordinator, Owner, of_recovery, sizes, emit,
}
use floeterm.Paged.Live.{prepare_retained_live_rebase, is_empty}
use floeterm.Paged.Batches.{
  transformed, invoke_writer, flush_batches, is_covered, remaining_of, merge_recovery_chunks,
}
use floeterm.Paged.Retry.{restarting, exit, complete_recovery}
use floeterm.Paged.Pages.{
  fetch_page, begin_fresh, begin_prepared, prepared_baseline, begin_fetching,
}
use floeterm.Paged.Loop.{write_replay}
use floeterm.Paged.Invariant.{IsCoherent, Accounts, reposition}
use floeterm.Paged.Invariant.Live.{prepare_retained_live_rebase-IsCoherent}
use floeterm.Paged.Invariant.Endings.{exit-IsCoherent, complete_recovery-IsCoherent}

-- The state of a recovery that goes on.
pub record IsRunning (c : Coordinator) : Type 0 where
  pub coherent : IsCoherent c
  pub running : c.recovery_running ≡ true

abbrev pub keeps_running :
    {policy : Policy} {retained : List Tagged} {bytes covered scheduled attempt : ℕ}
    {running timer : Bool} {recovery : Option Recovery} (r : Recovery)
    → Accounts policy retained bytes covered scheduled attempt running timer recovery
    → running ≡ true
    → Accounts policy retained bytes covered scheduled attempt running timer (some r)
keeps_running r v e = record {
  counted = v.counted;
  few = v.few;
  light = v.light;
  behind = v.behind;
  attempts = v.attempts;
  runs = e;
  waits = v.waits;
}

pub fetch_page-IsCoherent :
    (r : Recovery) (c : Coordinator) → IsRunning c → IsCoherent (fetch_page r c)
unfolding fetch_page emit
fetch_page-IsCoherent r c v = record {
  accounts = keeps_running (record r { stage = fetching }) v.coherent.accounts v.running;
}

pub begin_fetching-IsCoherent :
    (r : Recovery) (c : Coordinator) → IsRunning c → IsCoherent (begin_fetching r c)
unfolding begin_fetching
begin_fetching-IsCoherent r c v =
    elim c.prepared_history
      as (λ o. IsCoherent (elim o [
        | none ↦ fetch_page (begin_fresh c r) c
        | some prepared ↦ fetch_page (begin_prepared prepared c r) (record c {
          covered_through = prepared_baseline prepared c;
          scheduled_through = prepared_baseline prepared c;
        })
      ])) [
        | none ↦ fetch_page-IsCoherent (begin_fresh c r) c v
        | some prepared ↦
            let start = prepared_baseline prepared c in
            fetch_page-IsCoherent (begin_prepared prepared c r)
              (record c { covered_through = start; scheduled_through = start })
              (record {
                coherent = record {
                  accounts = reposition start start v.coherent.accounts (omega arith);
                };
                running = v.running;
              })
      ]

module _ (transform : Tagged → Option (List ℕ)) where
  pub flush_batches-IsCoherent :
      (owner : Owner) (batches : List (List Tagged)) (c : Coordinator)
      → IsCoherent c
      → IsCoherent ((flush_batches transform owner batches c).0)
  unfolding flush_batches invoke_writer emit
  flush_batches-IsCoherent owner [] c v = v
  flush_batches-IsCoherent owner (batch ∷ batches) c v =
      if_cases (λ (o : Coordinator × Option (List (List Tagged))). IsCoherent (o.0))
        (is_empty (transformed transform batch))
        (λ nothing. flush_batches-IsCoherent owner batches c v)
        (λ something. record { accounts = v.accounts })

  flush_batches-IsRunning :
      (owner : Owner) (batches : List (List Tagged)) (c : Coordinator)
      → IsRunning c
      → IsRunning ((flush_batches transform owner batches c).0)
  unfolding flush_batches invoke_writer emit
  flush_batches-IsRunning owner [] c v = v
  flush_batches-IsRunning owner (batch ∷ batches) c v =
      if_cases (λ (o : Coordinator × Option (List (List Tagged))). IsRunning (o.0))
        (is_empty (transformed transform batch))
        (λ nothing. flush_batches-IsRunning owner batches c v)
        (λ something. record {
          coherent = record { accounts = v.coherent.accounts };
          running = v.running;
        })

  pub write_replay-IsCoherent :
      (r : Recovery) (batches : List (List Tagged)) (c : Coordinator)
      → IsRunning c
      → IsCoherent (write_replay transform r batches c)
  unfolding write_replay
  write_replay-IsCoherent r batches c v =
      let (q, left) = flush_batches transform (of_recovery r.serial) batches c in
      let w : IsRunning q = flush_batches-IsRunning (of_recovery r.serial) batches c v in
      elim left
        as (λ o. IsCoherent (elim o [
          | some rest ↦ record q { recovery = some (record r { stage = writing rest }) }
          | none ↦
              if q.needs_rebase
              then exit (restarting (prepare_retained_live_rebase q))
              else complete_recovery r q
        ])) [
          | some rest ↦ record {
            accounts =
                keeps_running (record r { stage = writing rest }) w.coherent.accounts w.running;
          }
          | none ↦
              if_cases IsCoherent q.needs_rebase
                (λ rebases.
                  exit-IsCoherent (restarting (prepare_retained_live_rebase q))
                    (prepare_retained_live_rebase-IsCoherent q w.coherent))
                (λ done. complete_recovery-IsCoherent r q w.coherent)
        ]

remaining_of_le :
    (covered_end : ℕ) (items : List Tagged)
    → (length (remaining_of covered_end items) ≤ length items)
      × (sizes (remaining_of covered_end items) ≤ sizes items)
unfolding remaining_of
remaining_of_le covered_end [] = ground arith
remaining_of_le covered_end (item ∷ items) =
    if_cases (λ o. (length o ≤ length (item ∷ items)) × (sizes o ≤ sizes (item ∷ items)))
      (is_covered covered_end item) (λ covered. ground (arith, remaining_of_le covered_end items))
      (λ stays. ground (arith, remaining_of_le covered_end items))

pub merge_recovery_chunks-IsRunning :
    (history : List Tagged) (covered_end : ℕ) (c : Coordinator)
    → IsRunning c
    → IsRunning ((merge_recovery_chunks history covered_end c).1)
unfolding merge_recovery_chunks
merge_recovery_chunks-IsRunning history covered_end c v =
    let a = v.coherent.accounts in
    let (fewer, lighter) = remaining_of_le covered_end c.retained_live in
    record {
      coherent = record {
        accounts = record {
          counted = refl;
          few = omega (arith, fewer, a.few);
          light = omega (arith, lighter, a.counted, a.light);
          behind = a.behind;
          attempts = a.attempts;
          runs = a.runs;
          waits = a.waits;
        };
      };
      running = v.running;
    }
