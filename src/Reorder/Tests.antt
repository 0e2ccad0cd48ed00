-- ===== src/Reorder/Tests.antt =====
-- Runs of SequenceBuffer.ts at concrete chunks, some of them from SequenceBuffer.test.ts.
use floeterm.Common.{All, ℕ, ◌≤◌, ◌≡◌, refl, List, [], ◌∷◌, none, arith}
use floeterm.Common.Number.{whole, safe_from}
use floeterm.Common.Assoc.{lookup, has, delete, insert}
use floeterm.Common.Fallible.{ok, err}
use floeterm.Reorder.{
  Chunk, SequenceBuffer, queue_limit_exceeded, missing_sequence, construct, push, push_sequenced,
  deliver, hold, flush_pending, cover_sequence, covered_entries, release, assert_covered_through,
}
use floeterm.Reorder.Delivery.{IsSettled, IsSequenced, Delivers, push_all, push_all-Consecutive}
use floeterm.Reorder.Invariant.{IsCounted, after, push-IsCounted}
use floeterm.Reorder.Cover.{Covered, cover_sequence-Covered}

abbrev chunk : ℕ → Chunk
chunk n = record { sequence = whole n; bytes = n ∷ []; timestamp_ms = whole 0 }

abbrev fresh : SequenceBuffer
fresh = record {
  expected_sequence = 1;
  pending = [];
  pending_bytes = 0;
  config = record { max_pending_chunks = 2; max_pending_bytes = 8 };
}

-- Chunks 3 and 5 wait for 1.
abbrev waiting : SequenceBuffer
waiting = record fresh { pending = (5, chunk 5) ∷ (3, chunk 3) ∷ []; pending_bytes = 2 }

abbrev shuffled : List Chunk
shuffled = chunk 3 ∷ chunk 2 ∷ chunk 2 ∷ chunk 1 ∷ []

construct_default :
    (construct none none).config
    ≡ record { max_pending_chunks = 4096; max_pending_bytes = 8_388_608 }
unfolding construct
construct_default = refl

shuffled_run :
    push_all shuffled fresh
    ≡ ok (chunk 1 ∷ chunk 2 ∷ chunk 3 ∷ [], record fresh { expected_sequence = 4 })
unfolding push push_sequenced deliver hold flush_pending safe_from has insert lookup delete
shuffled_run = refl

limit_reached : push (chunk 7) waiting ≡ err queue_limit_exceeded
unfolding push push_sequenced hold safe_from has
limit_reached = refl

covered_run :
    cover_sequence 4 waiting ≡ (chunk 3 ∷ chunk 5 ∷ [], record fresh { expected_sequence = 6 })
unfolding cover_sequence covered_entries release flush_pending safe_from has lookup delete
covered_run = refl

boundary_gap : assert_covered_through (whole 2) waiting ≡ err (missing_sequence 1 2)
unfolding assert_covered_through safe_from
boundary_gap = refl

chunk-IsSequenced : (n : ℕ) → 1 ≤ n → n ≤ 9 → IsSequenced (chunk n)
unfolding safe_from
chunk-IsSequenced n p q = (n, ground arith)

shuffled-AreSequenced : All IsSequenced shuffled
shuffled-AreSequenced =
    let two = chunk-IsSequenced 2 (omega arith) (omega arith) in
    (
      chunk-IsSequenced 3 (omega arith) (omega arith),
      (two, (two, (chunk-IsSequenced 1 (omega arith) (omega arith), tt))),
    )

fresh-IsSettled : IsSettled fresh
unfolding has
fresh-IsSettled = record { entries = tt; waiting = refl }

waiting-IsSettled : IsSettled waiting
unfolding has
waiting-IsSettled = record {
  entries = (omega arith, refl, refl, (omega arith, refl, refl, tt));
  waiting = refl;
}

waiting-IsCounted : IsCounted waiting
waiting-IsCounted = record {
  counted = refl;
  chunks_within = omega arith;
  bytes_within = omega arith;
}

push_all-Consecutive_example : Delivers fresh (push_all shuffled fresh)
push_all-Consecutive_example =
    push_all-Consecutive shuffled fresh shuffled-AreSequenced fresh-IsSettled

push-IsCounted_example : IsCounted (after waiting (push (chunk 1) waiting))
push-IsCounted_example = push-IsCounted (chunk 1) waiting waiting-IsCounted

cover_sequence-Covered_example : Covered 4 waiting (cover_sequence 4 waiting)
cover_sequence-Covered_example =
    cover_sequence-Covered 4 waiting (omega arith) waiting-IsSettled waiting-IsCounted
