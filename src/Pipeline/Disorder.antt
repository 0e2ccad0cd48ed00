-- ===== src/Pipeline/Disorder.antt =====
-- TerminalOutputPipeline.ts: chunks without a sequence, around a change of `isInteractive`.
use floeterm.Common.{
  ℕ, ◌+◌, ◌≤◌, ◌≡◌, refl, ap, ◌∙◌, if_cases, if_false, Bool, true, false, [], ◌∷◌, ◌++◌, ltb, ◌==◌,
  length, arith, if◌then◌else◌, none, append-nil,
}
use floeterm.Pipeline.State.{
  Chunk, Pipeline, sequence_of, size, concat_chunks, schedule_frame, cancel_frame_if_scheduled,
}
use floeterm.Pipeline.CatchUp.{is_full, count_enqueued, enqueue_inactive, append_inactive}
use floeterm.Pipeline.Calls.{
  enqueue_normalized, enqueue, normalize_chunk, accept_sequence, place, append_live, defer_chunks,
  defer_live_queue, flush_now, run_frame, construct, normalize_policy,
}
use floeterm.Pipeline.Lifecycle.{enqueue_call, flush_now_call, frame, run, run_all}
use floeterm.Pipeline.Output.{output}
use floeterm.Pipeline.Flushed.{flush_now_lem}

-- The chunk has no sequence, and is neither empty nor too large.
pub record IsPlainChunk (limit : ℕ) (c : Chunk) : Type 0 where
  pub unnumbered : sequence_of c ≡ none
  pub filled : 1 ≤ size c
  pub fits : size c ≤ limit

normalize_chunk_unnumbered : (c : Chunk) → sequence_of c ≡ none → normalize_chunk c ≡ c
unfolding normalize_chunk
normalize_chunk_unnumbered c s = rw (s, normalize_chunk)

accept_sequence_unnumbered :
    (c : Chunk) (counted : Bool) (p : Pipeline)
    → sequence_of c ≡ none
    → accept_sequence c counted p ≡ (true, p)
unfolding accept_sequence
accept_sequence_unnumbered c counted p s = rw (s, accept_sequence)

abbrev counted_with : Chunk → Pipeline → Pipeline
counted_with c p = record p { stats = count_enqueued true c p.stats }

abbrev place_accepted : (interactive : Bool) → Chunk → Bool × Pipeline → Pipeline
place_accepted interactive c r = if r.0 then place interactive c (counted_with c (r.1)) else r.1

-- An accepted chunk is placed.
enqueue_unnumbered :
    (interactive : Bool) (c : Chunk) (p : Pipeline)
    → sequence_of c ≡ none
    → p.disposed ≡ false
    → p.catch_up_pending ≡ false
    → enqueue interactive c p ≡ place interactive c (counted_with c p)
unfolding enqueue enqueue_normalized
enqueue_unnumbered interactive c p s alive flows =
    ap (λ c. enqueue_normalized interactive c true p) (normalize_chunk_unnumbered c s)
    ∙ if_false p.disposed _ _ alive
    ∙ if_false p.catch_up_pending _ _ flows
    ∙ ap (place_accepted interactive c) (accept_sequence_unnumbered c true p s)

place_live : (c : Chunk) (p : Pipeline) → 1 ≤ size c → place true c p ≡ append_live c p
unfolding place
place_live c p filled = if_false (size c == 0) _ _ (ground arith)

place_away : (c : Chunk) (p : Pipeline) → 1 ≤ size c → place false c p ≡ enqueue_inactive c p
unfolding place
place_away c p filled = if_false (size c == 0) _ _ (ground arith)

enqueue_inactive_fits :
    (c : Chunk) (p : Pipeline)
    → length p.inactive_queue + 1 ≤ p.policy.max_inactive_chunks
    → p.inactive_bytes + size c ≤ p.policy.max_inactive_bytes
    → enqueue_inactive c p ≡ record p {
      inactive_queue = p.inactive_queue ++ c ∷ [];
      inactive_bytes = p.inactive_bytes + size c;
    }
unfolding enqueue_inactive append_inactive
enqueue_inactive_fits c p room fits =
    if_false (is_full p.policy (length p.inactive_queue) p.inactive_bytes (size c)) _ _
      (ground arith)
    ∙ if_false (ltb p.policy.max_inactive_bytes (size c)) _ _ (ground arith)

-- The pipeline with the default options, on which nothing has been called yet.
abbrev pub fresh : Pipeline
fresh =
    construct
      (record {
        max_live_batch_chunks = none;
        max_live_batch_bytes = none;
        max_inactive_chunks = none;
        max_inactive_bytes = none;
      })
      false none

defer_chunks_one : (c : Chunk) (p : Pipeline) → defer_chunks (c ∷ []) p ≡ enqueue_inactive c p
unfolding defer_chunks
defer_chunks_one c p =
    if_cases (λ q. q ≡ enqueue_inactive c p) ((enqueue_inactive c p).catch_up_pending)
      (λ asked. refl) (λ fits. refl)

abbrev live_then_away : Chunk → Chunk → Pipeline
live_then_away a b = counted_with b (append_live a (counted_with a fresh))

-- One chunk in each queue.
abbrev both : Chunk → Chunk → Pipeline
both a b = record (live_then_away a b) { inactive_queue = b ∷ []; inactive_bytes = 0 + size b }

both_lem :
    (a b : Chunk)
    → IsPlainChunk 65_536 a
    → IsPlainChunk 65_536 b
    → enqueue false b (enqueue true a fresh) ≡ both a b
unfolding append_live schedule_frame construct normalize_policy
both_lem a b v w =
    ap (enqueue false b)
      (enqueue_unnumbered true a fresh v.unnumbered refl refl ∙ place_live a _ v.filled)
    ∙ enqueue_unnumbered false b (append_live a (counted_with a fresh)) w.unnumbered refl refl
    ∙ place_away b _ w.filled
    ∙ enqueue_inactive_fits b (live_then_away a b) (ground arith) (ground arith)

-- The state that the frame defers the live queue in.
abbrev before_defer : Chunk → Chunk → Pipeline
before_defer a b = record (both a b) { frame_scheduled = false; live_queue = []; live_bytes = 0 }

frame_lem :
    (a b : Chunk)
    → IsPlainChunk 65_536 a
    → IsPlainChunk 65_536 b
    → run (frame false) (both a b) ≡ record (before_defer a b) {
      inactive_queue = b ∷ a ∷ [];
      inactive_bytes = 0 + size b + size a;
    }
unfolding run run_frame defer_live_queue cancel_frame_if_scheduled append_live schedule_frame
    construct normalize_policy
frame_lem a b v w =
    defer_chunks_one a (before_defer a b)
    ∙ enqueue_inactive_fits a (before_defer a b) (ground arith) (ground arith)

-- With the default options: a chunk arrives while the terminal is interactive, and another when it no
-- longer is, both without a sequence and of 1 to 65,536 bytes. Then the frame that was requested runs,
-- and the terminal is interactive again and flushed at once. The second chunk is written before the
-- first.
pub late_frame_swaps :
    (a b : Chunk)
    → IsPlainChunk 65_536 a
    → IsPlainChunk 65_536 b
    → output
        (run_all
          (enqueue_call true a ∷ enqueue_call false b ∷ frame false ∷ flush_now_call true ∷ [])
          fresh).log
      ≡ b.bytes ++ a.bytes
unfolding run run_all append_live schedule_frame construct normalize_policy output concat_chunks
late_frame_swaps a b v w =
    let q = record (before_defer a b) {
      inactive_queue = b ∷ a ∷ [];
      inactive_bytes = 0 + size b + size a;
    } in
    let e = ap (run (frame false)) (both_lem a b v w) ∙ frame_lem a b v w in
    ap (λ (p : Pipeline). output (flush_now true p).log) e
    ∙ (flush_now_lem q refl refl).2
    ∙ ap (λ o. b.bytes ++ o) (append-nil a.bytes)
