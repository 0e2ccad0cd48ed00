-- ===== src/Pipeline/Held.antt =====
-- TerminalOutputPipeline.ts: output is held while a catch-up is pending.
use floeterm.Common.{
  ℕ, ◌≡◌, refl, ◌∙◌, if_cases, Bool, true, ◌||◌, List, [], ◌∷◌, ltb, length, arith,
}
use floeterm.Pipeline.State.{Chunk, Pipeline, sequence_of, size}
use floeterm.Pipeline.CatchUp.{
  is_known, is_full, evict_catch_up, drop_catch_up, append_catch_up, enqueue_catch_up,
  count_enqueued,
}
use floeterm.Pipeline.Calls.{
  enqueue_normalized, enqueue, normalize_chunk, flush, flush_now, run_frame,
}
use floeterm.Pipeline.Lifecycle.{
  Call, enqueue_call, flush_call, flush_now_call, frame, reset_call, dispose_call, run, run_all,
}

-- The queues, the log and the flags stay.
abbrev Same : Pipeline → Pipeline → Type 0
Same p q =
    (q.catch_up_pending ≡ p.catch_up_pending)
    × (q.disposed ≡ p.disposed)
    × (q.log ≡ p.log)
    × (q.live_queue ≡ p.live_queue)
    × (q.inactive_queue ≡ p.inactive_queue)

evict_catch_up-Same :
    (queue : List Chunk) (extra : ℕ) (p : Pipeline) → Same p (evict_catch_up queue extra p)
unfolding evict_catch_up drop_catch_up
evict_catch_up-Same [] extra p = (refl, refl, refl, refl, refl)
evict_catch_up-Same (c ∷ queue) extra p =
    if_cases (Same p) (is_full p.policy (length (c ∷ queue)) p.catch_up_bytes extra)
      (λ full. evict_catch_up-Same queue extra (drop_catch_up c p))
      (λ room. (refl, refl, refl, refl, refl))

pub enqueue_catch_up-Same :
    (chunk : Chunk) (counted : Bool) (p : Pipeline) → Same p (enqueue_catch_up chunk counted p)
unfolding enqueue_catch_up append_catch_up
enqueue_catch_up-Same chunk counted p =
    if_cases (Same p) (is_known (sequence_of chunk) p.catch_up_sequences)
      (λ known. (refl, refl, refl, refl, refl))
      (λ fresh.
        if_cases (Same p) (ltb p.policy.max_inactive_bytes (size chunk))
          (λ large. (refl, refl, refl, refl, refl))
          (λ fits.
            evict_catch_up-Same p.catch_up_queue (size chunk)
              (record p { stats = count_enqueued counted chunk p.stats })))

-- The calls that can neither end a catch-up nor dispose the pipeline.
unfoldable pub IsPlain : Call → Type 0
IsPlain (reset_call i options) = ⊥
IsPlain dispose_call = ⊥
IsPlain call = Unit

unfoldable pub AllPlain : List Call → Type 0
AllPlain [] = Unit
AllPlain (call ∷ calls) = IsPlain call × AllPlain calls

run-Same :
    (call : Call) (p : Pipeline) → p.catch_up_pending ≡ true → IsPlain call → Same p (run call p)
unfolding run enqueue enqueue_normalized flush flush_now run_frame IsPlain
run-Same (enqueue_call i chunk) p held h =
    if_cases (Same p) p.disposed (λ gone. (refl, refl, refl, refl, refl))
      (λ alive.
        if_cases (Same p) p.catch_up_pending
          (λ waits. enqueue_catch_up-Same (normalize_chunk chunk) true p) (λ flows. absurd cc))
run-Same (flush_call i) p held h =
    if_cases (Same p) (p.disposed || p.catch_up_pending) (λ stopped. (refl, refl, refl, refl, refl))
      (λ flows. absurd (ground arith))
run-Same (flush_now_call i) p held h =
    if_cases (Same p) (p.disposed || p.catch_up_pending) (λ stopped. (refl, refl, refl, refl, refl))
      (λ flows. absurd (ground arith))
run-Same (frame i) p held h =
    if_cases (Same p) p.frame_scheduled
      (λ due.
        if_cases (Same p) (p.disposed || p.catch_up_pending)
          (λ stopped. (refl, refl, refl, refl, refl)) (λ flows. absurd (ground arith)))
      (λ idle. (refl, refl, refl, refl, refl))
run-Same (reset_call i options) p held h = absurd h
run-Same dispose_call p held h = absurd h

-- While a catch-up is pending, however the pipeline is called and its frames run, short of a reset or
-- a disposal, nothing is written, nothing is drained and the catch-up stays pending.
pub run_all_held :
    (calls : List Call) (p : Pipeline)
    → p.catch_up_pending ≡ true
    → AllPlain calls
    → ((run_all calls p).catch_up_pending ≡ true) × ((run_all calls p).log ≡ p.log)
unfolding run_all AllPlain
run_all_held [] p held h = (held, refl)
run_all_held (call ∷ calls) p held h =
    let same = run-Same call p held h.0 in
    let rest = run_all_held calls (run call p) (same.0 ∙ held) h.1 in (rest.0, rest.1 ∙ same.2)
