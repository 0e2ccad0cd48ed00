-- ===== src/Pipeline/Tests.antt =====
-- TerminalOutputPipeline.ts at concrete values.
use floeterm.Common.{ℕ, ◌≡◌, refl, true, false, List, [], ◌∷◌, none, some, arith, length}
use floeterm.Common.Number.{whole, positive_floor}
use floeterm.Pipeline.State.{
  Chunk, Pipeline, sequence_of, normalize_sequence, normalize_positive_integer,
}
use floeterm.Pipeline.CatchUp.{is_full}
use floeterm.Pipeline.Calls.{
  PartialPolicy, normalize_policy, construct, flush_now, defer_live_queue,
}
use floeterm.Pipeline.Lifecycle.{Call, enqueue_call, flush_now_call, frame, run_all}
use floeterm.Pipeline.Accounts.{IsCounted}
use floeterm.Pipeline.Reachable.{run_all-IsCounted}
use floeterm.Pipeline.Output.{output}
use floeterm.Pipeline.Flushed.{FlushedWhole, flush_now_lem}
use floeterm.Pipeline.Held.{IsPlain, AllPlain, run_all_held}
use floeterm.Pipeline.Disorder.{IsPlainChunk, fresh, late_frame_swaps}
use floeterm.Pipeline.Deferral.{with_live, defer_live_queue_forgets}

abbrev plain : List ℕ → Chunk
plain bytes = record { bytes = bytes; sequence = none; timestamp_ms = none }

abbrev numbered : ℕ → List ℕ → Chunk
numbered n bytes = record { bytes = bytes; sequence = some (whole n); timestamp_ms = none }

abbrev small : PartialPolicy
small = record {
  max_live_batch_chunks = none;
  max_live_batch_bytes = none;
  max_inactive_chunks = some (whole 2);
  max_inactive_bytes = none;
}

abbrev away_calls : List Call
away_calls =
    enqueue_call false (numbered 1 (b'a' ∷ []))
    ∷ enqueue_call false (numbered 2 (b'b' ∷ []))
    ∷ enqueue_call false (numbered 3 (b'c' ∷ []))
    ∷ []

run_all-IsCounted_example : IsCounted (run_all away_calls (construct small true none))
run_all-IsCounted_example = run_all-IsCounted small true none away_calls

-- A chunk in each queue.
abbrev two_queues : Pipeline
two_queues = record fresh {
  live_queue = plain (b'a' ∷ []) ∷ [];
  live_bytes = 1;
  inactive_queue = plain (b'b' ∷ []) ∷ [];
  inactive_bytes = 1;
}

is_alive : two_queues.disposed ≡ false
unfolding construct
is_alive = refl

is_flowing : two_queues.catch_up_pending ≡ false
unfolding construct
is_flowing = refl

flush_now_lem_example : FlushedWhole two_queues (flush_now true two_queues)
flush_now_lem_example = flush_now_lem two_queues is_alive is_flowing

abbrev waiting : Pipeline
waiting = record fresh { catch_up_pending = true }

plain_calls : AllPlain (enqueue_call true (plain (b'a' ∷ [])) ∷ flush_now_call true ∷ [])
unfolding AllPlain IsPlain
plain_calls = (tt, (tt, tt))

run_all_held_example :
    ((run_all
        (enqueue_call true (plain (b'a' ∷ [])) ∷ flush_now_call true ∷ [])
        waiting).catch_up_pending
      ≡ true)
    × ((run_all (enqueue_call true (plain (b'a' ∷ [])) ∷ flush_now_call true ∷ []) waiting).log
        ≡ waiting.log)
run_all_held_example =
    run_all_held (enqueue_call true (plain (b'a' ∷ [])) ∷ flush_now_call true ∷ []) waiting refl
      plain_calls

plain_is_plain : (n : ℕ) → IsPlainChunk 65_536 (plain (n ∷ []))
unfolding sequence_of normalize_sequence
plain_is_plain n = record { unnumbered = refl; filled = omega arith; fits = omega arith }

late_frame_swaps_example :
    output
      (run_all
        (enqueue_call true (plain (b'a' ∷ []))
          ∷ enqueue_call false (plain (b'b' ∷ []))
          ∷ frame false
          ∷ flush_now_call true
          ∷ [])
        fresh).log
    ≡ b'b' ∷ b'a' ∷ []
late_frame_swaps_example =
    late_frame_swaps (plain (b'a' ∷ [])) (plain (b'b' ∷ [])) (plain_is_plain b'a')
      (plain_is_plain b'b')

-- The inactive queue is full, and the live queue has two chunks.
abbrev crowded : Pipeline
crowded = record (construct small true none) {
  inactive_queue = plain (b'a' ∷ []) ∷ plain (b'b' ∷ []) ∷ [];
  inactive_bytes = 2;
}

crowded_is_full :
    is_full crowded.policy (length crowded.inactive_queue) crowded.inactive_bytes 1 ≡ true
unfolding construct normalize_policy normalize_positive_integer positive_floor
crowded_is_full = refl

crowded_asks : crowded.catches_up ≡ true
unfolding construct
crowded_asks = refl

defer_live_queue_forgets_example :
    defer_live_queue (with_live (plain (b'c' ∷ []) ∷ plain (b'd' ∷ []) ∷ []) crowded)
    ≡ defer_live_queue (with_live (plain (b'c' ∷ []) ∷ []) crowded)
defer_live_queue_forgets_example =
    defer_live_queue_forgets (plain (b'c' ∷ [])) (plain (b'd' ∷ []) ∷ []) crowded crowded_asks
      crowded_is_full
