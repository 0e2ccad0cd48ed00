-- ===== src/Pipeline/Counted.antt =====
-- The accounts of TerminalOutputPipeline.ts over the calls of its handle and the frame callback.
use floeterm.Common.{
  ℕ, zero, suc, ◌+◌, ◌≡◌, refl, if_cases, Bool, true, ◌||◌, not, List, [], ◌∷◌, none, some, take,
  drop, ltb, leb, ◌==◌, arith,
}
use floeterm.Common.Sets.{contains}
use floeterm.Pipeline.State.{
  Chunk, Pipeline, sequence_of, size, count_chunk_bytes, take_chunk_batch,
  cancel_frame_if_scheduled, schedule_frame, is_empty, emit_drain_if_idle, mark_applied,
  promote_inactive_queue,
}
use floeterm.Pipeline.CatchUp.{enqueue_inactive}
use floeterm.Pipeline.Calls.{
  accept_number, accept_sequence, observe, append_live, place, enqueue_normalized, defer_chunks,
  defer_live_queue, send, write_batch, flush_next_batch, count_gap, expected_sequence, next_batch,
}
use floeterm.Pipeline.Accounts.{
  IsCounted, count_chunk_bytes-append, enqueue_catch_up-IsCounted,
  request_catch_up_for_gap-IsCounted, enqueue_inactive-IsCounted,
}

take-drop_bytes :
    (n : ℕ) (xs : List Chunk)
    → count_chunk_bytes (take n xs) + count_chunk_bytes (drop n xs) ≡ count_chunk_bytes xs
take-drop_bytes zero xs = omega arith
take-drop_bytes (suc n) [] = omega arith
take-drop_bytes (suc n) (x ∷ xs) = omega (arith, take-drop_bytes n xs)

pub mark_applied-IsCounted :
    (chunks : List Chunk) (p : Pipeline) → IsCounted p → IsCounted (mark_applied chunks p)
unfolding mark_applied
mark_applied-IsCounted [] p v = v
mark_applied-IsCounted (c ∷ cs) p v = mark_applied-IsCounted cs _ (ground arith)

abbrev AnswerIsCounted : Bool × Pipeline → Type 0
AnswerIsCounted r = IsCounted (r.1)

accept_number-IsCounted :
    (chunk : Chunk) (s : ℕ) (counted : Bool) (p : Pipeline)
    → IsCounted p
    → IsCounted ((accept_number chunk s counted p).1)
unfolding accept_number observe
accept_number-IsCounted chunk s counted p v =
    if_cases AnswerIsCounted (leb s p.last_applied || contains s p.queued_sequences)
      (λ old. ground arith)
      (λ new.
        if_cases AnswerIsCounted (ltb (expected_sequence p) s)
          (λ gap.
            if_cases AnswerIsCounted p.catches_up
              (λ asks.
                request_catch_up_for_gap-IsCounted chunk s (expected_sequence p) counted
                  (count_gap p) (ground arith))
              (λ skips. ground arith))
          (λ next. ground arith))

accept_sequence-IsCounted :
    (chunk : Chunk) (counted : Bool) (p : Pipeline)
    → IsCounted p
    → IsCounted ((accept_sequence chunk counted p).1)
unfolding accept_sequence
accept_sequence-IsCounted chunk counted p v =
    elim (sequence_of chunk)
      as (λ o.
        AnswerIsCounted (elim o [ none ↦ (true, p) | some s ↦ accept_number chunk s counted p ])) [
          | none ↦ v
          | some s ↦ accept_number-IsCounted chunk s counted p v
        ]

place-IsCounted :
    (interactive : Bool) (chunk : Chunk) (p : Pipeline)
    → IsCounted p
    → IsCounted (place interactive chunk p)
unfolding place append_live schedule_frame emit_drain_if_idle
place-IsCounted interactive chunk p v =
    if_cases IsCounted (size chunk == 0)
      (λ blank. let w = mark_applied-IsCounted (chunk ∷ []) p v in ground arith)
      (λ full.
        if_cases IsCounted (not interactive) (λ away. enqueue_inactive-IsCounted chunk p v)
          (λ here. ground (arith, count_chunk_bytes-append p.live_queue (chunk ∷ []))))

pub enqueue_normalized-IsCounted :
    (interactive : Bool) (chunk : Chunk) (counted : Bool) (p : Pipeline)
    → IsCounted p
    → IsCounted (enqueue_normalized interactive chunk counted p)
unfolding enqueue_normalized
enqueue_normalized-IsCounted interactive chunk counted p v =
    if_cases IsCounted p.disposed (λ gone. v)
      (λ alive.
        if_cases IsCounted p.catch_up_pending
          (λ waits. enqueue_catch_up-IsCounted chunk counted p v)
          (λ flows.
            let w = accept_sequence-IsCounted chunk counted p v in
            if_cases IsCounted ((accept_sequence chunk counted p).0)
              (λ accepted. place-IsCounted interactive chunk _ (ground arith)) (λ refused. w)))

defer_chunks-IsCounted :
    (pending : List Chunk) (p : Pipeline) → IsCounted p → IsCounted (defer_chunks pending p)
unfolding defer_chunks
defer_chunks-IsCounted [] p v = v
defer_chunks-IsCounted (chunk ∷ pending) p v =
    let w = enqueue_inactive-IsCounted chunk p v in
    if_cases IsCounted ((enqueue_inactive chunk p).catch_up_pending) (λ asked. w)
      (λ fits. defer_chunks-IsCounted pending (enqueue_inactive chunk p) w)

pub defer_live_queue-IsCounted : (p : Pipeline) → IsCounted p → IsCounted (defer_live_queue p)
unfolding defer_live_queue cancel_frame_if_scheduled
defer_live_queue-IsCounted p v =
    if_cases IsCounted (is_empty p.live_queue) (λ none_left. v)
      (λ some_left. defer_chunks-IsCounted p.live_queue _ (ground arith))

pub promote_inactive_queue-IsCounted :
    (p : Pipeline) → IsCounted p → IsCounted (promote_inactive_queue p)
unfolding promote_inactive_queue
promote_inactive_queue-IsCounted p v =
    if_cases IsCounted (is_empty p.inactive_queue) (λ none_left. v)
      (λ some_left. ground (arith, count_chunk_bytes-append p.live_queue p.inactive_queue))

write_batch-IsCounted :
    (batch rest : List Chunk) (p : Pipeline)
    → count_chunk_bytes batch + count_chunk_bytes rest ≡ count_chunk_bytes p.live_queue
    → IsCounted p
    → IsCounted (write_batch batch rest p)
unfolding write_batch send
write_batch-IsCounted batch rest p whole v =
    let w = mark_applied-IsCounted batch (send batch rest p) (ground arith) in ground arith

take_chunk_batch_bytes :
    (queue : List Chunk) (m n : ℕ)
    → count_chunk_bytes ((take_chunk_batch queue m n).0)
        + count_chunk_bytes ((take_chunk_batch queue m n).1)
      ≡ count_chunk_bytes queue
unfolding take_chunk_batch
take_chunk_batch_bytes [] m n = refl
take_chunk_batch_bytes (c ∷ queue) m n = take-drop_bytes _ (c ∷ queue)

pub flush_next_batch-IsCounted : (p : Pipeline) → IsCounted p → IsCounted ((flush_next_batch p).1)
unfolding flush_next_batch
flush_next_batch-IsCounted p v =
    if_cases AnswerIsCounted (is_empty ((next_batch p).0)) (λ none_left. v)
      (λ some_left.
        write_batch-IsCounted ((next_batch p).0) ((next_batch p).1) p
          (take_chunk_batch_bytes p.live_queue _ _) v)
