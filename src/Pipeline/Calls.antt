-- ===== src/Pipeline/Calls.antt =====
-- TerminalOutputPipeline.ts: the calls that move output, and the frame callback. `interactive` is what
-- `isInteractive` answers during the call.
use floeterm.Common.{
  ℕ, zero, suc, ◌+◌, ◌-◌, max, Bool, true, false, ◌||◌, not, List, [], ◌∷◌, ◌++◌, Option, none,
  some, length, ltb, leb, ◌==◌, if◌then◌else◌,
}
use floeterm.Common.Number.{Number, whole}
use floeterm.Common.Sets.{contains, add}
use floeterm.Pipeline.State.{
  Chunk, Policy, Pipeline, written, empty_stats, default_policy, normalize_positive_integer,
  normalize_start_sequence, sequence_of, size, count_chunk_bytes, take_chunk_batch, concat_chunks,
  cancel_frame_if_scheduled, schedule_frame, is_empty, emit_drain_if_idle, mark_applied,
  promote_inactive_queue,
}
use floeterm.Pipeline.CatchUp.{
  enqueue_catch_up, request_catch_up_for_gap, enqueue_inactive, count_enqueued,
}

-- An option that is missing is `none`.
pub record PartialPolicy : Type 0 where
  pub max_live_batch_chunks : Option Number
  pub max_live_batch_bytes : Option Number
  pub max_inactive_chunks : Option Number
  pub max_inactive_bytes : Option Number

unfoldable pub normalize_policy : PartialPolicy → Policy
unfolding normalize_positive_integer
normalize_policy p = record {
  max_live_batch_chunks =
      normalize_positive_integer p.max_live_batch_chunks default_policy.max_live_batch_chunks;
  max_live_batch_bytes =
      normalize_positive_integer p.max_live_batch_bytes default_policy.max_live_batch_bytes;
  max_inactive_chunks =
      normalize_positive_integer p.max_inactive_chunks default_policy.max_inactive_chunks;
  max_inactive_bytes =
      normalize_positive_integer p.max_inactive_bytes default_policy.max_inactive_bytes;
}

-- A start between 0 and 1, which the code rounds down to 0, leaves its cursors at -1; here they are 0.
unfoldable pub construct : PartialPolicy → (catches_up : Bool) → Option Number → Pipeline
construct policy catches_up start = record {
  policy = normalize_policy policy;
  catches_up = catches_up;
  live_queue = [];
  live_bytes = 0;
  inactive_queue = [];
  inactive_bytes = 0;
  catch_up_queue = [];
  catch_up_bytes = 0;
  catch_up_sequences = [];
  queued_sequences = [];
  frame_scheduled = false;
  disposed = false;
  catch_up_pending = false;
  last_observed = normalize_start_sequence start - 1;
  last_applied = normalize_start_sequence start - 1;
  stats = empty_stats;
  log = [];
}

abbrev pub count_duplicate : Pipeline → Pipeline
count_duplicate p = record p {
  stats = record (p.stats) { duplicate_chunks = p.stats.duplicate_chunks + 1 };
}

abbrev pub count_gap : Pipeline → Pipeline
count_gap p = record p { stats = record (p.stats) { sequence_gaps = p.stats.sequence_gaps + 1 } }

unfoldable pub observe : ℕ → Pipeline → Pipeline
observe s p = record p {
  last_observed = max p.last_observed s;
  queued_sequences = add s p.queued_sequences;
}

unfoldable pub expected_sequence : Pipeline → ℕ
expected_sequence p = max p.last_observed p.last_applied + 1

-- `acceptSequence` for a sequence, with its answer.
unfoldable pub accept_number : Chunk → ℕ → Bool → Pipeline → Bool × Pipeline
accept_number chunk s counted p =
    if leb s p.last_applied || contains s p.queued_sequences
    then (false, count_duplicate p)
    else if ltb (expected_sequence p) s
    then (if p.catches_up
        then (false, request_catch_up_for_gap chunk s (expected_sequence p) counted (count_gap p))
        else (true, observe s (count_gap p)))
    else (true, observe s p)

unfoldable pub accept_sequence : Chunk → Bool → Pipeline → Bool × Pipeline
unfolding accept_number observe expected_sequence
accept_sequence chunk counted p = elim (sequence_of chunk) [
  | none ↦ (true, p)
  | some s ↦ accept_number chunk s counted p
]

unfoldable pub append_live : Chunk → Pipeline → Pipeline
append_live chunk p =
    schedule_frame
      (record p { live_queue = p.live_queue ++ chunk ∷ []; live_bytes = p.live_bytes + size chunk })

-- `enqueueNormalized` for a chunk whose sequence has been accepted.
unfoldable pub place : (interactive : Bool) → Chunk → Pipeline → Pipeline
place interactive chunk p =
    if size chunk == 0
    then emit_drain_if_idle (mark_applied (chunk ∷ []) p)
    else if not interactive
    then enqueue_inactive chunk p
    else append_live chunk p

unfoldable pub enqueue_normalized :
    (interactive : Bool) → Chunk → (counted : Bool) → Pipeline → Pipeline
unfolding accept_sequence append_live place
enqueue_normalized interactive chunk counted p =
    if p.disposed
    then p
    else if p.catch_up_pending
    then enqueue_catch_up chunk counted p
    else let (accepted, q) = accept_sequence chunk counted p in
      if accepted
      then place interactive chunk (record q { stats = count_enqueued counted chunk q.stats })
      else q

-- `enqueue`: the chunk with its sequence rounded down, where that is not 0.
unfoldable pub normalize_chunk : Chunk → Chunk
normalize_chunk chunk = elim (sequence_of chunk) [
  | none ↦ chunk
  | some s ↦ record chunk { sequence = some (whole s) }
]

unfoldable pub enqueue : (interactive : Bool) → Chunk → Pipeline → Pipeline
unfolding normalize_chunk enqueue_normalized
enqueue interactive chunk p = enqueue_normalized interactive (normalize_chunk chunk) true p

-- The loop of `deferLiveQueue`; a request for a catch-up ends it.
unfoldable pub defer_chunks : List Chunk → Pipeline → Pipeline
defer_chunks [] p = p
defer_chunks (chunk ∷ pending) p =
    let q = enqueue_inactive chunk p in
    let rest = defer_chunks pending q in if q.catch_up_pending then q else rest

unfoldable pub defer_live_queue : Pipeline → Pipeline
unfolding defer_chunks
defer_live_queue p =
    if is_empty p.live_queue
    then p
    else let q = cancel_frame_if_scheduled p in
      defer_chunks p.live_queue (record q { live_queue = []; live_bytes = 0 })

-- The batch leaves the queue, and its payload is written, where it has one.
unfoldable pub send : List Chunk → List Chunk → Pipeline → Pipeline
send batch rest p = record p {
  live_queue = rest;
  live_bytes = p.live_bytes - count_chunk_bytes batch;
  log =
      if is_empty (concat_chunks batch)
      then p.log
      else p.log ++ written (concat_chunks batch) batch ∷ [];
}

unfoldable pub write_batch : List Chunk → List Chunk → Pipeline → Pipeline
unfolding send
write_batch batch rest p =
    let q = mark_applied batch (send batch rest p) in
    record q {
      stats = record (q.stats) {
        flushed_chunks = q.stats.flushed_chunks + length batch;
        flushed_bytes = q.stats.flushed_bytes + length (concat_chunks batch);
      };
    }

abbrev pub next_batch : Pipeline → List Chunk × List Chunk
next_batch p =
    take_chunk_batch p.live_queue p.policy.max_live_batch_chunks p.policy.max_live_batch_bytes

-- `flushNextBatch`, with its answer: there is more.
unfoldable pub flush_next_batch : Pipeline → Bool × Pipeline
unfolding write_batch
flush_next_batch p =
    let (batch, rest) = next_batch p in
    if is_empty batch then (false, p) else (not (is_empty rest), write_batch batch rest p)

unfoldable pub flush : (interactive : Bool) → Pipeline → Pipeline
flush interactive p =
    if p.disposed || p.catch_up_pending
    then p
    else if not interactive
    then defer_live_queue p
    else let q = promote_inactive_queue p in
      if is_empty q.live_queue then emit_drain_if_idle q else schedule_frame q

-- The loop of `flushNow`: each round takes a chunk at least.
unfoldable pub flush_rounds : ℕ → Pipeline → Pipeline
unfolding flush_next_batch
flush_rounds zero p = p
flush_rounds (suc rounds) p =
    let (more, q) = flush_next_batch p in
    let rest = flush_rounds rounds q in if more then rest else q

unfoldable pub flush_now : (interactive : Bool) → Pipeline → Pipeline
unfolding flush_rounds
flush_now interactive p =
    if p.disposed || p.catch_up_pending
    then p
    else if not interactive
    then defer_live_queue p
    else let q = promote_inactive_queue (cancel_frame_if_scheduled p) in
      emit_drain_if_idle (flush_rounds (suc (length q.live_queue)) q)

-- The callback of `requestFrame`, with `flushFrame`.
unfoldable pub run_frame : (interactive : Bool) → Pipeline → Pipeline
unfolding flush_next_batch
run_frame interactive p0 =
    let p = record p0 { frame_scheduled = false } in
    if p.disposed || p.catch_up_pending
    then p
    else if not interactive
    then defer_live_queue p
    else let (more, q) = flush_next_batch (promote_inactive_queue p) in
      if more then schedule_frame q else emit_drain_if_idle q
