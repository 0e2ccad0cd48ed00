-- ===== src/Reorder.antt =====
-- terminal-web/src/internal/SequenceBuffer.ts: chunks that arrive out of order wait until every
-- earlier sequence has been delivered.
pub mod Entries
pub mod Delivery
pub mod Invariant
pub mod Coverage
pub mod Cover
mod Tests
use floeterm.Common.{
  ℕ, zero, suc, ◌+◌, ◌-◌, Bool, true, false, ◌||◌, List, [], ◌∷◌, ◌++◌, Option, none, some, length,
  ltb, leb, ◌==◌, if◌then◌else◌,
}
use floeterm.Common.Number.{Number, safe_from}
use floeterm.Common.Assoc.{lookup, has, delete, insert}
use floeterm.Common.Fallible.{Result, ok, err}

pub record Chunk : Type 0 where
  pub sequence : Number
  pub bytes : List ℕ
  pub timestamp_ms : Number

pub record Config : Type 0 where
  pub max_pending_chunks : ℕ
  pub max_pending_bytes : ℕ

pub record SequenceBuffer : Type 0 where
  pub expected_sequence : ℕ
  pub pending : List (ℕ × Chunk)
  pub pending_bytes : ℕ
  pub config : Config

pub data Failure : Type 0 where
  queue_limit_exceeded : Failure
  boundary_invalid : Failure
  coverage_invalid : Failure
  missing_sequence : (expected boundary : ℕ) → Failure

abbrev pub default_config : Config
default_config = record { max_pending_chunks = 4096; max_pending_bytes = 8_388_608 }

-- A missing option is `none`.
unfoldable pub normalize_positive_integer : Option Number → ℕ → ℕ
unfolding safe_from
normalize_positive_integer none fallback = fallback
normalize_positive_integer (some value) fallback = elim (safe_from 1 value) [
  | none ↦ fallback
  | some n ↦ n
]

unfoldable pub construct : (chunks bytes : Option Number) → SequenceBuffer
unfolding normalize_positive_integer
construct chunks bytes = record {
  expected_sequence = 1;
  pending = [];
  pending_bytes = 0;
  config = record {
    max_pending_chunks = normalize_positive_integer chunks default_config.max_pending_chunks;
    max_pending_bytes = normalize_positive_integer bytes default_config.max_pending_bytes;
  };
}

unfoldable pub reset : Number → SequenceBuffer → SequenceBuffer
reset start b = record b {
  expected_sequence = elim (safe_from 1 start) [ none ↦ 1 | some n ↦ n ];
  pending = [];
  pending_bytes = 0;
}

-- One round of the loop in `flushPending`, for the pending chunk that is expected next.
unfoldable pub advance : SequenceBuffer → Chunk → SequenceBuffer
advance b chunk = record b {
  expected_sequence = b.expected_sequence + 1;
  pending = delete b.expected_sequence b.pending;
  pending_bytes = b.pending_bytes - length chunk.bytes;
}

unfoldable pub flush_rounds : ℕ → SequenceBuffer → List Chunk × SequenceBuffer
unfolding advance
flush_rounds zero b = ([], b)
flush_rounds (suc rounds) b = elim (lookup b.expected_sequence b.pending) [
  | none ↦ ([], b)
  | some chunk ↦ let (ready, rest) = flush_rounds rounds (advance b chunk) in (chunk ∷ ready, rest)
]

-- Each round takes a chunk out, so there are at most as many rounds as pending chunks.
unfoldable pub flush_pending : SequenceBuffer → List Chunk × SequenceBuffer
unfolding flush_rounds
flush_pending b = flush_rounds (length b.pending) b

unfoldable pub deliver : Chunk → SequenceBuffer → List Chunk × SequenceBuffer
deliver chunk b =
    let (ready, rest) = flush_pending (record b { expected_sequence = b.expected_sequence + 1 }) in
    (chunk ∷ ready, rest)

unfoldable pub hold : ℕ → Chunk → SequenceBuffer → Result Failure (List Chunk × SequenceBuffer)
hold sequence chunk b =
    if ltb b.config.max_pending_chunks (length b.pending + 1)
      || ltb b.config.max_pending_bytes (b.pending_bytes + length chunk.bytes)
    then err queue_limit_exceeded
    else ok (
      [],
      record b {
        pending = insert sequence chunk b.pending;
        pending_bytes = b.pending_bytes + length chunk.bytes;
      },
    )

unfoldable pub push_sequenced :
    ℕ → Chunk → SequenceBuffer → Result Failure (List Chunk × SequenceBuffer)
push_sequenced sequence chunk b =
    if ltb sequence b.expected_sequence || has sequence b.pending
    then ok ([], b)
    else if sequence == b.expected_sequence
    then ok (deliver chunk b)
    else hold sequence chunk b

-- A failed `push` throws before it changes anything.
unfoldable pub push : Chunk → SequenceBuffer → Result Failure (List Chunk × SequenceBuffer)
push chunk b = elim (safe_from 1 chunk.sequence) [
  | none ↦ ok (chunk ∷ [], b)
  | some sequence ↦ push_sequenced sequence chunk b
]

unfoldable pub assert_covered_through : Number → SequenceBuffer → Result Failure (Unit {0})
assert_covered_through boundary b = elim (safe_from 0 boundary) [
  | none ↦ err boundary_invalid
  | some sequence ↦
      if leb b.expected_sequence sequence
      then err (missing_sequence b.expected_sequence sequence)
      else ok tt
]

-- The pending entries up to `sequence`, which `coverThrough` filters out, by ascending key.
unfoldable pub insert_sorted : ℕ × Chunk → List (ℕ × Chunk) → List (ℕ × Chunk)
insert_sorted (k, c) [] = (k, c) ∷ []
insert_sorted (k, c) ((j, d) ∷ m) =
    if leb k j then (k, c) ∷ (j, d) ∷ m else (j, d) ∷ insert_sorted (k, c) m

unfoldable pub covered_entries : ℕ → List (ℕ × Chunk) → List (ℕ × Chunk)
unfolding insert_sorted
covered_entries sequence [] = []
covered_entries sequence ((k, c) ∷ m) =
    let rest = covered_entries sequence m in
    if leb k sequence then insert_sorted (k, c) rest else rest

-- The last step of `coverThrough`: each covered entry leaves the map.
unfoldable pub release : List (ℕ × Chunk) → SequenceBuffer → List Chunk × SequenceBuffer
release [] b = ([], b)
release ((k, c) ∷ m) b =
    let (chunks, rest) = release m (record b {
      pending = delete k b.pending;
      pending_bytes = b.pending_bytes - length c.bytes;
    }) in
    (c ∷ chunks, rest)

unfoldable pub cover_sequence : ℕ → SequenceBuffer → List Chunk × SequenceBuffer
cover_sequence sequence b =
    if ltb (sequence + 1) b.expected_sequence
    then ([], b)
    else let (covered, rest) = release (covered_entries sequence b.pending) b in
      let (ready, last) = flush_pending (record rest { expected_sequence = sequence + 1 }) in
      (covered ++ ready, last)

unfoldable pub cover_through :
    Number → SequenceBuffer → Result Failure (List Chunk × SequenceBuffer)
cover_through boundary b = elim (safe_from 0 boundary) [
  | none ↦ err coverage_invalid
  | some sequence ↦ ok (cover_sequence sequence b)
]
