-- ===== src/Reorder/Invariant.antt =====
-- The accounts of SequenceBuffer.ts: `pendingBytes` is what the pending chunks hold, and both limits
-- are kept.
use floeterm.Common.{
  ℕ, zero, suc, ◌+◌, ◌-◌, ◌≤◌, ◌≡◌, inl, inr, false, List, [], ◌∷◌, some, arith, length, ltb, ◌==◌,
  Option-cases, Bool-cases, ◌||◌,
}
use floeterm.Common.Number.{safe_from}
use floeterm.Common.Assoc.{lookup, has, delete}
use floeterm.Common.Assoc.{has-lookup, length-delete, length-insert, lookup-delete_ne}
use floeterm.Common.Fallible.{Result, ok, err}
use floeterm.Reorder.{
  Chunk, SequenceBuffer, Failure, advance, flush_rounds, flush_pending, deliver, hold,
  push_sequenced, push, release,
}
use floeterm.Reorder.Entries.{total_bytes, total_bytes-delete, total_bytes-insert}

pub record IsCounted (b : SequenceBuffer) : Type 0 where
  pub counted : b.pending_bytes ≡ total_bytes b.pending
  pub chunks_within : length b.pending ≤ b.config.max_pending_chunks
  pub bytes_within : b.pending_bytes ≤ b.config.max_pending_bytes

-- Taking out an entry with its bytes keeps the accounts, whatever the expected sequence.
pub drop_entry :
    (b : SequenceBuffer) (k next : ℕ) (c : Chunk)
    → lookup k b.pending ≡ some c
    → IsCounted b
    → IsCounted (record b {
      expected_sequence = next;
      pending = delete k b.pending;
      pending_bytes = b.pending_bytes - length c.bytes;
    })
drop_entry b k next c h v =
    let bytes = total_bytes-delete k b.pending h in
    let shorter = length-delete k b.pending (has-lookup k b.pending h) in omega arith

flush_rounds-IsCounted :
    (rounds : ℕ) (b : SequenceBuffer) → IsCounted b → IsCounted (flush_rounds rounds b).1
unfolding flush_rounds
flush_rounds-IsCounted zero b v = v
flush_rounds-IsCounted (suc rounds) b v =
    elim (Option-cases (lookup b.expected_sequence b.pending)) [
      | inl missing ↦ rw (missing, flush_rounds) v
      | inr (c, found) ↦
          rw (found, flush_rounds)
            (flush_rounds-IsCounted rounds (advance b c)
              (drop_entry b b.expected_sequence (b.expected_sequence + 1) c found v))
    ]

pub flush_pending-IsCounted : (b : SequenceBuffer) → IsCounted b → IsCounted (flush_pending b).1
unfolding flush_pending
flush_pending-IsCounted b v = flush_rounds-IsCounted _ b v

deliver-IsCounted : (c : Chunk) (b : SequenceBuffer) → IsCounted b → IsCounted (deliver c b).1
unfolding deliver
deliver-IsCounted c b v =
    flush_pending-IsCounted (record b { expected_sequence = b.expected_sequence + 1 })
      (record {
        counted = v.counted;
        chunks_within = v.chunks_within;
        bytes_within = v.bytes_within;
      })

-- What holds after a call, whether it throws or not: the buffer is then as it was.
abbrev pub after : SequenceBuffer → Result Failure (List Chunk × SequenceBuffer) → SequenceBuffer
after b (ok r) = r.1
after b (err e) = b

hold-IsCounted :
    (k : ℕ) (c : Chunk) (b : SequenceBuffer)
    → has k b.pending ≡ false
    → IsCounted b
    → IsCounted (after b (hold k c b))
unfolding hold
hold-IsCounted k c b new v =
    ground (arith, total_bytes-insert k c b.pending, length-insert k c b.pending)

push_sequenced-IsCounted :
    (k : ℕ) (c : Chunk) (b : SequenceBuffer)
    → IsCounted b
    → IsCounted (after b (push_sequenced k c b))
unfolding push_sequenced
push_sequenced-IsCounted k c b v =
    elim (Bool-cases (ltb k b.expected_sequence || has k b.pending)) [
      | inl seen ↦ rw seen v
      | inr new ↦ rw new (elim (Bool-cases (k == b.expected_sequence)) [
        | inl due ↦ rw due (deliver-IsCounted c b v)
        | inr early ↦ rw early (hold-IsCounted k c b (ground arith) v)
      ])
    ]

-- Whatever chunk is pushed, and whether the push throws or not, the byte count stays exact and the
-- pending chunks stay within the limits on their number and their bytes.
pub push-IsCounted : (c : Chunk) (b : SequenceBuffer) → IsCounted b → IsCounted (after b (push c b))
unfolding push
push-IsCounted c b v = elim (Option-cases (safe_from 1 c.sequence)) [
  | inl e ↦ rw (e, push) v
  | inr (k, e) ↦ rw (e, push) (push_sequenced-IsCounted k c b v)
]

-- `release` takes out entries that the map holds.
abbrev pub Within : List (ℕ × Chunk) → List (ℕ × Chunk) → Type 0
Within p [] = Unit
Within p ((k, c) ∷ m) = (lookup k p ≡ some c) × (has k m ≡ false) × Within p m

pub Within-delete :
    (k : ℕ) (p m : List (ℕ × Chunk)) → has k m ≡ false → Within p m → Within (delete k p) m
unfolding has
Within-delete k p [] h w = tt
Within-delete k p ((j, c) ∷ m) h w = ground (arith, Within-delete k p m, lookup-delete_ne k j p)

pub release-IsCounted :
    (m : List (ℕ × Chunk)) (b : SequenceBuffer)
    → Within b.pending m
    → IsCounted b
    → IsCounted (release m b).1
unfolding release
release-IsCounted [] b w v = v
release-IsCounted ((k, c) ∷ m) b w v =
    release-IsCounted m _ (Within-delete k b.pending m w.1 w.2)
      (drop_entry b k b.expected_sequence c w.0 v)
