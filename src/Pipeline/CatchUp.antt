-- ===== src/Pipeline/CatchUp.antt =====
-- TerminalOutputPipeline.ts: output that waits for a catch-up, and the requests for one.
use floeterm.Common.{
  ℕ, ◌+◌, ◌-◌, Bool, true, false, ◌||◌, List, [], ◌∷◌, ◌++◌, Option, none, some, length, ltb, leb,
  if◌then◌else◌,
}
use floeterm.Common.Sets.{contains, add}
use floeterm.Pipeline.State.{
  Chunk, Policy, Pipeline, Stats, sequence_gap, inactive_buffer_overflow, catch_up_requested,
  sequence_of, size, emit, clear_queues, cancel_frame_if_scheduled, count_dropped,
  find_first_buffered_sequence, without, drop_accepted_chunk,
}

abbrev pub count_enqueued : Bool → Chunk → Stats → Stats
count_enqueued true chunk s = record s {
  enqueued_chunks = s.enqueued_chunks + 1;
  enqueued_bytes = s.enqueued_bytes + size chunk;
}
count_enqueued false chunk s = s

-- A queue of `chunks` chunks and `bytes` bytes cannot take `extra` bytes more.
abbrev pub is_full : Policy → (chunks bytes extra : ℕ) → Bool
is_full policy chunks bytes extra =
    leb policy.max_inactive_chunks chunks || ltb policy.max_inactive_bytes (bytes + extra)

unfoldable pub drop_catch_up : Chunk → Pipeline → Pipeline
drop_catch_up dropped p = record p {
  catch_up_bytes = p.catch_up_bytes - size dropped;
  catch_up_sequences = without (sequence_of dropped) p.catch_up_sequences;
  stats = count_dropped dropped p.stats;
}

-- The eviction loop of `enqueueCatchUp`, on the queue from its front.
unfoldable pub evict_catch_up : List Chunk → ℕ → Pipeline → Pipeline
evict_catch_up [] extra p = record p { catch_up_queue = [] }
evict_catch_up (dropped ∷ queue) extra p =
    if is_full p.policy (length (dropped ∷ queue)) p.catch_up_bytes extra
    then evict_catch_up queue extra (drop_catch_up dropped p)
    else record p { catch_up_queue = dropped ∷ queue }

abbrev pub with_sequence : Option ℕ → List ℕ → List ℕ
with_sequence none s = s
with_sequence (some k) s = add k s

abbrev pub is_known : Option ℕ → List ℕ → Bool
is_known none s = false
is_known (some k) s = contains k s

unfoldable pub append_catch_up : Chunk → Pipeline → Pipeline
append_catch_up chunk p = record p {
  catch_up_queue = p.catch_up_queue ++ chunk ∷ [];
  catch_up_bytes = p.catch_up_bytes + size chunk;
  catch_up_sequences = with_sequence (sequence_of chunk) p.catch_up_sequences;
}

unfoldable pub enqueue_catch_up : Chunk → Bool → Pipeline → Pipeline
enqueue_catch_up chunk counted p =
    if is_known (sequence_of chunk) p.catch_up_sequences
    then record p { stats = record (p.stats) { duplicate_chunks = p.stats.duplicate_chunks + 1 } }
    else let q = record p { stats = count_enqueued counted chunk p.stats } in
      if ltb q.policy.max_inactive_bytes (size chunk)
      then record q { stats = count_dropped chunk q.stats }
      else append_catch_up chunk (evict_catch_up q.catch_up_queue (size chunk) q)

unfoldable pub enqueue_catch_up_all : List Chunk → Pipeline → Pipeline
enqueue_catch_up_all [] p = p
enqueue_catch_up_all (c ∷ cs) p = enqueue_catch_up_all cs (enqueue_catch_up c false p)

-- `this.lastAppliedSequence > 0 ? this.lastAppliedSequence + 1 : 0`.
abbrev pub next_unapplied : Pipeline → ℕ
next_unapplied p = if ltb 0 p.last_applied then p.last_applied + 1 else 0

-- What the two requests share, up to the call of `enqueueCatchUp` for the new chunk.
unfoldable pub begin_catch_up : (overflows : ℕ) → Pipeline → Pipeline
begin_catch_up overflows p =
    let pending = p.inactive_queue ++ p.live_queue in
    let q = cancel_frame_if_scheduled (clear_queues p) in
    enqueue_catch_up_all pending (record q {
      catch_up_pending = true;
      stats = record (q.stats) {
        catch_up_requests = q.stats.catch_up_requests + 1;
        inactive_overflows = q.stats.inactive_overflows + overflows;
      };
    })

unfoldable pub request_catch_up_for_gap :
    Chunk → (observed expected : ℕ) → (counted : Bool) → Pipeline → Pipeline
request_catch_up_for_gap chunk observed expected counted p =
    emit
      (catch_up_requested (record {
        reason = sequence_gap;
        start_sequence = next_unapplied p;
        expected_sequence = some expected;
        observed_sequence = some observed;
        first_buffered_sequence = none;
        dropped_chunks = length p.live_queue + length p.inactive_queue + 1;
        dropped_bytes = p.live_bytes + p.inactive_bytes + size chunk;
      }))
      (enqueue_catch_up chunk counted (begin_catch_up 0 p))

abbrev pub first_or : Option ℕ → ℕ → ℕ
first_or none n = n
first_or (some first) n = first

unfoldable pub request_catch_up_for_inactive_overflow : Chunk → Pipeline → Pipeline
request_catch_up_for_inactive_overflow chunk p =
    emit
      (catch_up_requested (record {
        reason = inactive_buffer_overflow;
        start_sequence = first_or (find_first_buffered_sequence p) (next_unapplied p);
        expected_sequence = none;
        observed_sequence = none;
        first_buffered_sequence = find_first_buffered_sequence p;
        dropped_chunks = length p.live_queue + length p.inactive_queue + 1;
        dropped_bytes = p.live_bytes + p.inactive_bytes + size chunk;
      }))
      (enqueue_catch_up chunk false (begin_catch_up 1 p))

unfoldable pub drop_inactive : Chunk → Pipeline → Pipeline
unfolding drop_accepted_chunk
drop_inactive dropped p =
    drop_accepted_chunk dropped (record p { inactive_bytes = p.inactive_bytes - size dropped })

-- The loop of `evictInactiveUntilFits`.
unfoldable pub evict_inactive : List Chunk → ℕ → Pipeline → Pipeline
evict_inactive [] extra p = record p { inactive_queue = [] }
evict_inactive (dropped ∷ queue) extra p =
    if is_full p.policy (length (dropped ∷ queue)) p.inactive_bytes extra
    then evict_inactive queue extra (drop_inactive dropped p)
    else record p { inactive_queue = dropped ∷ queue }

unfoldable pub count_overflow : Pipeline → Pipeline
count_overflow p = record p {
  stats = record (p.stats) { inactive_overflows = p.stats.inactive_overflows + 1 };
}

unfoldable pub append_inactive : Chunk → Pipeline → Pipeline
append_inactive chunk p =
    if ltb p.policy.max_inactive_bytes (size chunk)
    then count_overflow (drop_accepted_chunk chunk p)
    else record p {
      inactive_queue = p.inactive_queue ++ chunk ∷ [];
      inactive_bytes = p.inactive_bytes + size chunk;
    }

unfoldable pub enqueue_inactive : Chunk → Pipeline → Pipeline
enqueue_inactive chunk p =
    if is_full p.policy (length p.inactive_queue) p.inactive_bytes (size chunk)
    then (if p.catches_up
        then request_catch_up_for_inactive_overflow chunk p
        else append_inactive chunk
            (evict_inactive p.inactive_queue (size chunk) (count_overflow p)))
    else append_inactive chunk p
