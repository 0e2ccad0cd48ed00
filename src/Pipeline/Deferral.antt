-- ===== src/Pipeline/Deferral.antt =====
-- TerminalOutputPipeline.ts: a deferral of the live queue that overflows the inactive queue.
use floeterm.Common.{ℕ, ◌≡◌, refl, sym, ap, ◌∙◌, if_true, true, false, List, [], ◌∷◌, ◌++◌, length}
use floeterm.Pipeline.State.{Chunk, Pipeline, size, cancel_frame_if_scheduled}
use floeterm.Pipeline.CatchUp.{
  is_full, enqueue_catch_up, enqueue_catch_up_all, begin_catch_up,
  request_catch_up_for_inactive_overflow, enqueue_inactive,
}
use floeterm.Pipeline.Calls.{defer_chunks, defer_live_queue}
use floeterm.Pipeline.Held.{enqueue_catch_up-Same}

enqueue_catch_up_all_pending :
    (chunks : List Chunk) (p : Pipeline)
    → (enqueue_catch_up_all chunks p).catch_up_pending ≡ p.catch_up_pending
unfolding enqueue_catch_up_all
enqueue_catch_up_all_pending [] p = refl
enqueue_catch_up_all_pending (c ∷ cs) p =
    enqueue_catch_up_all_pending cs (enqueue_catch_up c false p)
    ∙ (enqueue_catch_up-Same c false p).0

begin_catch_up_pending :
    (overflows : ℕ) (p : Pipeline) → (begin_catch_up overflows p).catch_up_pending ≡ true
unfolding begin_catch_up
begin_catch_up_pending overflows p =
    enqueue_catch_up_all_pending (p.inactive_queue ++ p.live_queue) _

-- A full inactive queue makes a catch-up pending.
enqueue_inactive_pending :
    (chunk : Chunk) (p : Pipeline)
    → p.catches_up ≡ true
    → is_full p.policy (length p.inactive_queue) p.inactive_bytes (size chunk) ≡ true
    → (enqueue_inactive chunk p).catch_up_pending ≡ true
unfolding enqueue_inactive request_catch_up_for_inactive_overflow
enqueue_inactive_pending chunk p asks full =
    ap (λ (q : Pipeline). q.catch_up_pending)
      (if_true (is_full p.policy (length p.inactive_queue) p.inactive_bytes (size chunk)) _ _ full
        ∙ if_true p.catches_up _ _ asks)
    ∙ (enqueue_catch_up-Same chunk false (begin_catch_up 1 p)).0
    ∙ begin_catch_up_pending 1 p

abbrev pub with_live : List Chunk → Pipeline → Pipeline
with_live queue p = record p { live_queue = queue }

defer_chunks_asks :
    (chunk : Chunk) (pending : List Chunk) (p : Pipeline)
    → (enqueue_inactive chunk p).catch_up_pending ≡ true
    → defer_chunks (chunk ∷ pending) p ≡ enqueue_inactive chunk p
unfolding defer_chunks
defer_chunks_asks chunk pending p asked =
    if_true ((enqueue_inactive chunk p).catch_up_pending) _ _ asked

-- When a pipeline that requests catch-ups defers its live queue and the first chunk does not fit in
-- the inactive queue, the chunks after the first leave no trace, neither in a queue nor in the
-- statistics nor in the request: the state is as if they had not been there.
pub defer_live_queue_forgets :
    (chunk : Chunk) (pending : List Chunk) (p : Pipeline)
    → p.catches_up ≡ true
    → is_full p.policy (length p.inactive_queue) p.inactive_bytes (size chunk) ≡ true
    → defer_live_queue (with_live (chunk ∷ pending) p) ≡ defer_live_queue (with_live (chunk ∷ []) p)
unfolding defer_live_queue cancel_frame_if_scheduled
defer_live_queue_forgets chunk pending p asks full =
    let q = record (cancel_frame_if_scheduled p) { live_queue = []; live_bytes = 0 } in
    let asked = enqueue_inactive_pending chunk q asks full in
    defer_chunks_asks chunk pending q asked ∙ sym (defer_chunks_asks chunk [] q asked)
