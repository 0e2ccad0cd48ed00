-- ===== src/Paged/Writers.antt =====
-- PagedTerminalOutputCoordinator.ts: what goes on after an `await`.
use floeterm.Common.{
  ℕ, zero, suc, Bool, true, false, ◌||◌, not, List, [], ◌∷◌, ◌++◌, Option, none, some, ◌==◌,
  if◌then◌else◌,
}
use floeterm.Paged.History.{Page, other}
use floeterm.Paged.State.{
  failed, catch_up, Tagged, awaiting_chain, fetching, writing, Recovery, Owner, of_recovery,
  of_chain, Writer, Coordinator,
}
use floeterm.Paged.Batches.{ordered_batches, flush_batches, cover}
use floeterm.Paged.Retry.{failure_of, fail_recovery}
use floeterm.Paged.Pages.{begin_fetching}
use floeterm.Paged.Loop.{write_replay, receive_page}
use floeterm.Paged.Calls.{is_settled}

-- The current recovery goes on where it waits for the write chain, and the chain has settled.
unfoldable pub settle_chain : Coordinator → Coordinator
unfolding begin_fetching
settle_chain c = elim c.recovery [
  | none ↦ c
  | some r ↦ elim r.stage [
    | awaiting_chain ↦ if is_settled c then begin_fetching r c else c
    | fetching ↦ c
    | writing batches ↦ c
  ]
]

-- A live write fails.
unfoldable pub fail_live_write : Coordinator → Coordinator
fail_live_write c = record c {
  live_write_scheduled = false;
  live_batches = none;
  last_error = some other;
  failure = some (record (failure_of other c) { phase = catch_up; first_retained_sequence = none });
  state = failed;
}

module _ (transform : Tagged → Option (List ℕ)) where
  abbrev pub receive_answer : Option Page → Recovery → Coordinator → Coordinator
  receive_answer none r c = fail_recovery other c
  receive_answer (some page) r c = receive_page transform page r c

  -- The page that the current recovery waits for, or the failure of its fetch.
  unfoldable pub answer_fetch : Option Page → Coordinator → Coordinator
  unfolding receive_page fail_recovery
  answer_fetch answer c = elim c.recovery [
    | none ↦ c
    | some r ↦ elim r.stage [
      | awaiting_chain ↦ c
      | fetching ↦ receive_answer answer r c
      | writing batches ↦ c
    ]
  ]

  -- The writes of the chain go on, up to the next call of a writer.
  unfoldable pub write_live : List (List Tagged) → Coordinator → Coordinator
  unfolding flush_batches
  write_live batches c =
      let (q, left) = flush_batches transform of_chain batches c in record q { live_batches = left }

  -- A job of the chain takes all of the chunks that are pending.
  unfoldable pub take_pending : (jobs : ℕ) → Coordinator → Coordinator
  unfolding write_live ordered_batches
  take_pending jobs c =
      write_live (ordered_batches c.policy.max_write_batch_bytes c.pending_live_writes)
        (record c { live_jobs = jobs; pending_live_writes = []; live_write_scheduled = false })

  -- The next job of the chain runs, once the one before it is done.
  unfoldable pub run_live_job : Coordinator → Coordinator
  unfolding take_pending
  run_live_job c = elim c.live_jobs [
    | zero ↦ c
    | suc jobs ↦ elim c.live_batches [ none ↦ take_pending jobs c | some batches ↦ c ]
  ]

  -- What waited for a writer goes on, if it is still current.
  unfoldable pub continue_chain : (succeeded : Bool) → Coordinator → Coordinator
  unfolding write_live fail_live_write
  continue_chain succeeded c = elim c.live_batches [
    | none ↦ c
    | some batches ↦ if succeeded then write_live batches c else fail_live_write c
  ]

  unfoldable pub continue_replay : (succeeded : Bool) → Recovery → Coordinator → Coordinator
  unfolding write_replay fail_recovery
  continue_replay succeeded r c = elim r.stage [
    | awaiting_chain ↦ c
    | fetching ↦ c
    | writing batches ↦
        if succeeded then write_replay transform r batches c else fail_recovery other c
  ]

  unfoldable pub continue_recovery : (succeeded : Bool) → (serial : ℕ) → Coordinator → Coordinator
  unfolding continue_replay
  continue_recovery succeeded serial c = elim c.recovery [
    | none ↦ c
    | some r ↦ if r.serial == serial then continue_replay succeeded r c else c
  ]

  unfoldable pub continue_owner : (succeeded : Bool) → Owner → Coordinator → Coordinator
  unfolding continue_chain continue_recovery
  continue_owner succeeded (of_recovery serial) c = continue_recovery succeeded serial c
  continue_owner succeeded of_chain c = continue_chain succeeded c

  -- A stale job that fails still clears the flag.
  abbrev pub stale : (succeeded : Bool) → Owner → Coordinator → Coordinator
  stale false of_chain c = record c { live_write_scheduled = false }
  stale false (of_recovery serial) c = c
  stale true owner c = c

  unfoldable pub return_writer : (succeeded : Bool) → Writer → Coordinator → Coordinator
  unfolding cover continue_owner
  return_writer succeeded writer c =
      if c.disposed || not (writer.generation == c.generation)
      then stale succeeded writer.owner c
      else continue_owner succeeded writer.owner (if succeeded then cover writer.chunks c else c)

  -- The writer at a place of the list returns.
  unfoldable pub return_writer_at :
      (succeeded : Bool) → ℕ → (before after : List Writer) → Coordinator → Coordinator
  unfolding return_writer
  return_writer_at succeeded n before [] c = c
  return_writer_at succeeded zero before (writer ∷ after) c =
      return_writer succeeded writer (record c { writers = before ++ after })
  return_writer_at succeeded (suc n) before (writer ∷ after) c =
      return_writer_at succeeded n (before ++ (writer ∷ [])) after c
