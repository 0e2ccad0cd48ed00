-- ===== src/Pipeline/State.antt =====
-- TerminalOutputPipeline.ts: the state, its options, and the helpers that touch a part of it.
-- Callbacks are effects in a log: they are taken not to call the pipeline back before they return.
use floeterm.Common.{
  ℕ, ◌+◌, max, Bool, true, false, ◌&&◌, ◌||◌, not, List, [], ◌∷◌, ◌++◌, Option, none, some, length,
  take, drop, ltb, leb, ◌==◌, if◌then◌else◌,
}
use floeterm.Common.Number.{Number, positive_floor}
use floeterm.Common.Sets.{discard}

pub record Chunk : Type 0 where
  pub bytes : List ℕ
  pub sequence : Option Number
  pub timestamp_ms : Option Number

pub record Policy : Type 0 where
  pub max_live_batch_chunks : ℕ
  pub max_live_batch_bytes : ℕ
  pub max_inactive_chunks : ℕ
  pub max_inactive_bytes : ℕ

pub data Reason : Type 0 where
  sequence_gap inactive_buffer_overflow : Reason

pub record CatchUpRequest : Type 0 where
  pub reason : Reason
  pub start_sequence : ℕ
  pub expected_sequence : Option ℕ
  pub observed_sequence : Option ℕ
  pub first_buffered_sequence : Option ℕ
  pub dropped_chunks : ℕ
  pub dropped_bytes : ℕ

pub record Stats : Type 0 where
  pub enqueued_chunks : ℕ
  pub enqueued_bytes : ℕ
  pub flushed_chunks : ℕ
  pub flushed_bytes : ℕ
  pub dropped_chunks : ℕ
  pub dropped_bytes : ℕ
  pub duplicate_chunks : ℕ
  pub sequence_gaps : ℕ
  pub catch_up_requests : ℕ
  pub inactive_overflows : ℕ

pub data Effect : Type 0 where
  written : (payload : List ℕ) (batch : List Chunk) → Effect
  catch_up_requested : CatchUpRequest → Effect
  drained frame_requested frame_canceled : Effect

-- `catches_up`: the options hold a `requestCatchUp`. The frame handle is a flag.
pub record Pipeline : Type 0 where
  pub policy : Policy
  pub catches_up : Bool
  pub live_queue : List Chunk
  pub live_bytes : ℕ
  pub inactive_queue : List Chunk
  pub inactive_bytes : ℕ
  pub catch_up_queue : List Chunk
  pub catch_up_bytes : ℕ
  pub catch_up_sequences : List ℕ
  pub queued_sequences : List ℕ
  pub frame_scheduled : Bool
  pub disposed : Bool
  pub catch_up_pending : Bool
  pub last_observed : ℕ
  pub last_applied : ℕ
  pub stats : Stats
  pub log : List Effect

abbrev pub default_policy : Policy
default_policy = record {
  max_live_batch_chunks = 256;
  max_live_batch_bytes = 65_536;
  max_inactive_chunks = 256;
  max_inactive_bytes = 524_288;
}

abbrev pub empty_stats : Stats
empty_stats = record {
  enqueued_chunks = 0;
  enqueued_bytes = 0;
  flushed_chunks = 0;
  flushed_bytes = 0;
  dropped_chunks = 0;
  dropped_bytes = 0;
  duplicate_chunks = 0;
  sequence_gaps = 0;
  catch_up_requests = 0;
  inactive_overflows = 0;
}

unfoldable pub normalize_positive_integer : Option Number → ℕ → ℕ
normalize_positive_integer none fallback = fallback
normalize_positive_integer (some value) fallback = elim (positive_floor value) [
  | none ↦ fallback
  | some n ↦ max 1 n
]

unfoldable pub normalize_sequence : Option Number → Option ℕ
normalize_sequence none = none
normalize_sequence (some value) = positive_floor value

-- `normalizeSequence(chunk.sequence)` as it is always tested, `if (sequence)`: 0 counts as none.
unfoldable pub sequence_of : Chunk → Option ℕ
sequence_of chunk = elim (normalize_sequence chunk.sequence) [
  | none ↦ none
  | some n ↦ if n == 0 then none else some n
]

unfoldable pub normalize_start_sequence : Option Number → ℕ
normalize_start_sequence sequence = elim (normalize_sequence sequence) [ none ↦ 1 | some n ↦ n ]

abbrev pub size : Chunk → ℕ
size chunk = length chunk.bytes

abbrev pub count_chunk_bytes : List Chunk → ℕ
count_chunk_bytes [] = 0
count_chunk_bytes (c ∷ cs) = size c + count_chunk_bytes cs

-- The loop of `takeChunkBatch`, on what is left of the queue.
unfoldable pub batch_count : (max_chunks max_bytes : ℕ) → List Chunk → (count byte_length : ℕ) → ℕ
batch_count max_chunks max_bytes [] count byte_length = count
batch_count max_chunks max_bytes (next ∷ queue) count byte_length =
    let more = batch_count max_chunks max_bytes queue (count + 1) (byte_length + size next) in
    if not (ltb count max_chunks)
    then count
    else if ltb 0 count && ltb max_bytes (byte_length + size next)
    then count
    else if leb max_bytes (byte_length + size next)
    then count + 1
    else more

-- The batch, and what stays in the queue.
unfoldable pub take_chunk_batch : List Chunk → (max_chunks max_bytes : ℕ) → List Chunk × List Chunk
take_chunk_batch [] max_chunks max_bytes = ([], [])
take_chunk_batch (c ∷ queue) max_chunks max_bytes =
    let count = max 1 (batch_count max_chunks max_bytes (c ∷ queue) 0 0) in
    (take count (c ∷ queue), drop count (c ∷ queue))

unfoldable pub concat_chunks : List Chunk → List ℕ
concat_chunks [] = []
concat_chunks (c ∷ cs) = c.bytes ++ concat_chunks cs

abbrev pub emit : Effect → Pipeline → Pipeline
emit e p = record p { log = p.log ++ e ∷ [] }

-- `clearQueues`, and the part of `takeQueuedOutput` that clears.
unfoldable pub clear_queues : Pipeline → Pipeline
clear_queues p = record p {
  live_queue = [];
  live_bytes = 0;
  inactive_queue = [];
  inactive_bytes = 0;
  queued_sequences = [];
}

unfoldable pub clear_catch_up_queue : Pipeline → Pipeline
clear_catch_up_queue p = record p {
  catch_up_queue = [];
  catch_up_bytes = 0;
  catch_up_sequences = [];
}

unfoldable pub cancel_frame_if_scheduled : Pipeline → Pipeline
cancel_frame_if_scheduled p = record p {
  frame_scheduled = false;
  log = if p.frame_scheduled then p.log ++ frame_canceled ∷ [] else p.log;
}

unfoldable pub schedule_frame : Pipeline → Pipeline
schedule_frame p =
    let blocked = p.frame_scheduled || p.disposed || p.catch_up_pending in
    record p {
      frame_scheduled = if blocked then p.frame_scheduled else true;
      log = if blocked then p.log else p.log ++ frame_requested ∷ [];
    }

abbrev pub is_empty {ℓ} : {A : Type ℓ} → List A → Bool
is_empty [] = true
is_empty (x ∷ xs) = false

unfoldable pub emit_drain_if_idle : Pipeline → Pipeline
emit_drain_if_idle p =
    let busy =
      p.disposed
      || p.catch_up_pending
      || not (is_empty p.live_queue)
      || not (is_empty p.inactive_queue)
      || p.frame_scheduled in
    record p { log = if busy then p.log else p.log ++ drained ∷ [] }

-- `if (sequence) set.delete(sequence)`.
abbrev pub without : Option ℕ → List ℕ → List ℕ
without none s = s
without (some k) s = discard k s

unfoldable pub forget_queued_sequence : Chunk → Pipeline → Pipeline
forget_queued_sequence chunk p = record p {
  queued_sequences = without (sequence_of chunk) p.queued_sequences;
}

-- The statistics of a chunk that is dropped.
abbrev pub count_dropped : Chunk → Stats → Stats
count_dropped chunk s = record s {
  dropped_chunks = s.dropped_chunks + 1;
  dropped_bytes = s.dropped_bytes + size chunk;
}

unfoldable pub drop_accepted_chunk : Chunk → Pipeline → Pipeline
unfolding forget_queued_sequence
drop_accepted_chunk chunk p = record (forget_queued_sequence chunk p) {
  stats = count_dropped chunk p.stats;
}

-- `if (sequence > this.lastAppliedSequence) this.lastAppliedSequence = sequence`.
abbrev pub raise : Option ℕ → ℕ → ℕ
raise none applied = applied
raise (some s) applied = if ltb applied s then s else applied

unfoldable pub mark_applied : List Chunk → Pipeline → Pipeline
mark_applied [] p = p
mark_applied (chunk ∷ chunks) p = mark_applied chunks (record p {
  queued_sequences = without (sequence_of chunk) p.queued_sequences;
  last_applied = raise (sequence_of chunk) p.last_applied;
})

unfoldable pub promote_inactive_queue : Pipeline → Pipeline
promote_inactive_queue p = if is_empty p.inactive_queue then p else record p {
  live_queue = p.live_queue ++ p.inactive_queue;
  live_bytes = p.live_bytes + p.inactive_bytes;
  inactive_queue = [];
  inactive_bytes = 0;
}

abbrev pub lower : Option ℕ → Option ℕ → Option ℕ
lower first none = first
lower none (some s) = some s
lower (some first) (some s) = if ltb s first then some s else some first

-- The smallest sequence among the chunks and `first`.
unfoldable pub first_sequence : Option ℕ → List Chunk → Option ℕ
first_sequence first [] = first
first_sequence first (chunk ∷ chunks) = first_sequence (lower first (sequence_of chunk)) chunks

unfoldable pub find_first_buffered_sequence : Pipeline → Option ℕ
find_first_buffered_sequence p = first_sequence none (p.inactive_queue ++ p.live_queue)
