-- ===== src/Paged/Invariant/Returns.antt =====
-- PagedTerminalOutputCoordinator.ts: a writer that returns keeps the invariant.
use floeterm.Common.{
  ℕ, zero, suc, ◌≡◌, refl, Bool, true, false, ◌||◌, not, List, [], ◌∷◌, ◌++◌, Option, none, some,
  ◌==◌, if◌then◌else◌, if_cases,
}
use floeterm.Paged.History.{other}
use floeterm.Paged.State.{
  awaiting_chain, fetching, writing, Tagged, Recovery, Owner, of_recovery, of_chain, Writer,
  Coordinator,
}
use floeterm.Paged.Retry.{fail_recovery}
use floeterm.Paged.Loop.{write_replay}
use floeterm.Paged.Writers.{
  continue_replay, continue_recovery, continue_owner, stale, return_writer, return_writer_at,
}
use floeterm.Paged.Invariant.{IsCoherent}
use floeterm.Paged.Invariant.Endings.{fail_recovery-IsCoherent}
use floeterm.Paged.Invariant.Pages.{IsRunning, write_replay-IsCoherent}
use floeterm.Paged.Invariant.Writers.{is_running, cover-IsCoherent, continue_chain-IsCoherent}

module _ (transform : Tagged → Option (List ℕ)) where
  continue_replay-IsCoherent :
      (succeeded : Bool) (r : Recovery) (c : Coordinator)
      → IsRunning c
      → IsCoherent (continue_replay transform succeeded r c)
  unfolding continue_replay
  continue_replay-IsCoherent succeeded r c v =
      elim r.stage
        as (λ s. IsCoherent (elim s [
          | awaiting_chain ↦ c
          | fetching ↦ c
          | writing batches ↦
              if succeeded then write_replay transform r batches c else fail_recovery other c
        ])) [
          | awaiting_chain ↦ v.coherent
          | fetching ↦ v.coherent
          | writing batches ↦
              if_cases IsCoherent succeeded (λ s. write_replay-IsCoherent transform r batches c v)
                (λ f. fail_recovery-IsCoherent other c v.coherent)
        ]

  continue_recovery-IsCoherent :
      (succeeded : Bool) (serial : ℕ) (c : Coordinator)
      → IsCoherent c
      → IsCoherent (continue_recovery transform succeeded serial c)
  unfolding continue_recovery
  continue_recovery-IsCoherent succeeded serial c v =
      elim c.recovery
          as (λ o.
            c.recovery ≡ o
            → IsCoherent (elim o [
              | none ↦ c
              | some r ↦ if r.serial == serial then continue_replay transform succeeded r c else c
            ])) [
              | none ↦ λ e. v
              | some r ↦ λ e.
                  if_cases IsCoherent (r.serial == serial)
                    (λ same.
                      continue_replay-IsCoherent succeeded r c (is_running c (some r) e refl v))
                    (λ late. v)
            ]
        refl

  continue_owner-IsCoherent :
      (succeeded : Bool) (owner : Owner) (c : Coordinator)
      → IsCoherent c
      → IsCoherent (continue_owner transform succeeded owner c)
  unfolding continue_owner
  continue_owner-IsCoherent succeeded (of_recovery serial) c v =
      continue_recovery-IsCoherent succeeded serial c v
  continue_owner-IsCoherent succeeded of_chain c v =
      continue_chain-IsCoherent transform succeeded c v

  stale-IsCoherent :
      (succeeded : Bool) (owner : Owner) (c : Coordinator)
      → IsCoherent c
      → IsCoherent (stale transform succeeded owner c)
  stale-IsCoherent false of_chain c v = record { accounts = v.accounts }
  stale-IsCoherent false (of_recovery serial) c v = v
  stale-IsCoherent true owner c v = v

  return_writer-IsCoherent :
      (succeeded : Bool) (writer : Writer) (c : Coordinator)
      → IsCoherent c
      → IsCoherent (return_writer transform succeeded writer c)
  unfolding return_writer
  return_writer-IsCoherent succeeded writer c v =
      if_cases IsCoherent (c.disposed || not (writer.generation == c.generation))
        (λ late. stale-IsCoherent succeeded writer.owner c v)
        (λ current.
          continue_owner-IsCoherent succeeded writer.owner _
            (if_cases IsCoherent succeeded (λ s. cover-IsCoherent writer.chunks c v) (λ f. v)))

  pub return_writer_at-IsCoherent :
      (succeeded : Bool) (n : ℕ) (before after : List Writer) (c : Coordinator)
      → IsCoherent c
      → IsCoherent (return_writer_at transform succeeded n before after c)
  unfolding return_writer_at
  return_writer_at-IsCoherent succeeded n before [] c v = v
  return_writer_at-IsCoherent succeeded zero before (writer ∷ after) c v =
      return_writer-IsCoherent succeeded writer _ (record { accounts = v.accounts })
  return_writer_at-IsCoherent succeeded (suc n) before (writer ∷ after) c v =
      return_writer_at-IsCoherent succeeded n (before ++ (writer ∷ [])) after c v
