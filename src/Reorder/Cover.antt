-- ===== src/Reorder/Cover.antt =====
-- `coverThrough` of SequenceBuffer.ts: history covered the stream up to a sequence.
use floeterm.Common.{
  ℕ, ◌+◌, ◌≤◌, ◌<◌, ◌≡◌, refl, inl, inr, true, false, List, [], ◌∷◌, ◌++◌, some, arith, leb, ltb,
  ◌==◌, if◌then◌else◌, Bool-cases, ◌&&◌,
}
use floeterm.Common.Number.{whole}
use floeterm.Common.Assoc.{lookup, has, has-delete_le}
use floeterm.Reorder.{
  Chunk, SequenceBuffer, insert_sorted, covered_entries, release, cover_sequence,
}
use floeterm.Reorder.Entries.{Entries, Entries-delete, has_self_delete}
use floeterm.Reorder.Delivery.{IsSettled, Consecutive, Consecutive-le, flush_pending-Flushed}
use floeterm.Reorder.Invariant.{IsCounted, Within, release-IsCounted, flush_pending-IsCounted}

has-insert_sorted :
    (k j : ℕ) (c : Chunk) (m : List (ℕ × Chunk))
    → has j (insert_sorted (k, c) m) ≡ (if k == j then true else has j m)
unfolding has insert_sorted
has-insert_sorted k j c [] = refl
has-insert_sorted k j c ((i, d) ∷ m) = ground (arith, has-insert_sorted k j c m)

has-covered_entries :
    (s j : ℕ) (m : List (ℕ × Chunk)) → has j (covered_entries s m) ≡ (has j m && leb j s)
unfolding has covered_entries
has-covered_entries s j [] = refl
has-covered_entries s j ((i, d) ∷ m) =
    ground (arith, has-covered_entries s j m, has-insert_sorted i j d (covered_entries s m))

Within-insert_sorted :
    (k : ℕ) (c : Chunk) (p m : List (ℕ × Chunk))
    → lookup k p ≡ some c
    → has k m ≡ false
    → Within p m
    → Within p (insert_sorted (k, c) m)
unfolding insert_sorted has
Within-insert_sorted k c p [] h n w = (h, refl, tt)
Within-insert_sorted k c p ((j, d) ∷ m) h n w =
    ground (arith, Within-insert_sorted k c p m, has-insert_sorted k j c m)

Within-cons :
    (j : ℕ) (d : Chunk) (p m : List (ℕ × Chunk))
    → has j m ≡ false
    → Within p m
    → Within ((j, d) ∷ p) m
unfolding lookup has
Within-cons j d p [] n w = tt
Within-cons j d p ((k, c) ∷ m) n w = ground (arith, Within-cons j d p m)

covered_entries-Within :
    (low s : ℕ) (m : List (ℕ × Chunk)) → Entries low m → Within m (covered_entries s m)
unfolding covered_entries lookup
covered_entries-Within low s [] e = tt
covered_entries-Within low s ((k, c) ∷ m) e =
    let rest =
      Within-cons k c m (covered_entries s m) absent (covered_entries-Within low s m e.3) in
    elim (Bool-cases (leb k s)) [
      | inl h ↦ rw h (Within-insert_sorted k c ((k, c) ∷ m) _ here absent rest)
      | inr h ↦ rw h rest
    ]
  where
    absent : has k (covered_entries s m) ≡ false
    absent = ground (arith, has-covered_entries s k m)

    here : lookup k ((k, c) ∷ m) ≡ some c
    here = ground arith

-- Entries by ascending key, each the sequence of its chunk.
abbrev Sorted : ℕ → List (ℕ × Chunk) → ℕ → Type 0
Sorted low [] high = low ≤ high
Sorted low ((k, c) ∷ m) high = (low ≤ k) × (c.sequence ≡ whole k) × Sorted (k + 1) m high

insert_sorted-Sorted :
    (low high k : ℕ) (c : Chunk) (m : List (ℕ × Chunk))
    → low ≤ k
    → k < high
    → c.sequence ≡ whole k
    → has k m ≡ false
    → Sorted low m high
    → Sorted low (insert_sorted (k, c) m) high
unfolding insert_sorted has
insert_sorted-Sorted low high k c [] h l e n o = (h, e, omega arith)
insert_sorted-Sorted low high k c ((j, d) ∷ m) h l e n o =
    ground (arith, insert_sorted-Sorted (j + 1) high k c m)

covered_entries-Sorted :
    (low s : ℕ) (m : List (ℕ × Chunk))
    → low ≤ s + 1
    → Entries low m
    → Sorted low (covered_entries s m) (s + 1)
unfolding covered_entries
covered_entries-Sorted low s [] h e = h
covered_entries-Sorted low s ((k, c) ∷ m) h e = ground (
  arith,
  covered_entries-Sorted low s m h e.3,
  has-covered_entries s k m,
  insert_sorted-Sorted low (s + 1) k c (covered_entries s m),
)

-- The chunks carry ascending sequences from `low` on and below `high`.
abbrev pub Ascending : ℕ → List Chunk → ℕ → Type 0
Ascending low [] high = low ≤ high
Ascending low (c ∷ cs) high =
    (k : ℕ) × (c.sequence ≡ whole k) × (low ≤ k) × Ascending (k + 1) cs high

release-Ascending :
    (low high : ℕ) (m : List (ℕ × Chunk)) (b : SequenceBuffer)
    → Sorted low m high
    → Ascending low (release m b).0 high
unfolding release
release-Ascending low high [] b o = o
release-Ascending low high ((k, c) ∷ m) b o = (k, o.1, o.0, release-Ascending (k + 1) high m _ o.2)

Ascending-Consecutive :
    (low middle high : ℕ) (xs ys : List Chunk)
    → Ascending low xs middle
    → Consecutive middle ys high
    → Ascending low (xs ++ ys) high
Ascending-Consecutive low middle high [] [] h k = omega arith
Ascending-Consecutive low middle high [] (y ∷ ys) h k =
    (middle, k.0, h, Ascending-Consecutive (middle + 1) (middle + 1) high [] ys (omega arith) k.1)
Ascending-Consecutive low middle high (x ∷ xs) ys h k =
    (h.0, h.1, h.2, Ascending-Consecutive (h.0 + 1) middle high xs ys h.3 k)

release-has :
    (k : ℕ) (m : List (ℕ × Chunk)) (b : SequenceBuffer)
    → has k b.pending ≡ false
    → has k (release m b).1.pending ≡ false
unfolding release
release-has k [] b h = h
release-has k ((j, c) ∷ m) b h = release-has k m _ (has-delete_le j k b.pending h)

release-has_self :
    (low k : ℕ) (m : List (ℕ × Chunk)) (b : SequenceBuffer)
    → Entries low b.pending
    → has k m ≡ true
    → has k (release m b).1.pending ≡ false
unfolding release has
release-has_self low k [] b e h = cc
release-has_self low k ((j, c) ∷ m) b e h = elim (Bool-cases (j == k)) [
  | inl same ↦ release-has k m _ (ground (arith, has_self_delete low k b.pending e))
  | inr other ↦ release-has_self low k m _ (Entries-delete low j b.pending e) (ground arith)
]

release-Entries :
    (low : ℕ) (m : List (ℕ × Chunk)) (b : SequenceBuffer)
    → Entries low b.pending
    → Entries low (release m b).1.pending
unfolding release
release-Entries low [] b e = e
release-Entries low ((j, c) ∷ m) b e = release-Entries low m _ (Entries-delete low j b.pending e)

Entries-above :
    (low s : ℕ) (m : List (ℕ × Chunk))
    → Entries low m
    → ((k : ℕ) → k ≤ s → has k m ≡ false)
    → Entries (s + 1) m
unfolding has
Entries-above low s [] e h = tt
Entries-above low s ((k, c) ∷ m) e h =
    (beyond, e.1, e.2, Entries-above low s m e.3 (λ j le. let f = h j le in ground arith))
  where
    beyond : s + 1 ≤ k
    beyond = elim (Bool-cases (leb k s)) [
      | inl below ↦ let le : k ≤ s = ground arith in let f = h k le in ground arith
      | inr above ↦ ground arith
    ]

-- What covering through `s` does.
pub record Covered (s : ℕ) (b : SequenceBuffer) (r : List Chunk × SequenceBuffer) : Type 0 where
  pub settled : IsSettled r.1
  pub counted : IsCounted r.1
  pub beyond : s + 1 ≤ r.1.expected_sequence
  pub ascending : Ascending b.expected_sequence r.0 r.1.expected_sequence

released-Entries :
    (s : ℕ) (b : SequenceBuffer)
    → Entries b.expected_sequence b.pending
    → Entries (s + 1) (release (covered_entries s b.pending) b).1.pending
released-Entries s b e =
    Entries-above b.expected_sequence s _ (release-Entries b.expected_sequence _ b e) λ k le.
      elim (Bool-cases (has k b.pending)) [
        | inl held ↦
            release-has_self b.expected_sequence k _ b e
              (ground (arith, has-covered_entries s k b.pending))
        | inr absent ↦ release-has k _ b absent
      ]

-- Covering through a sequence that is not behind: what is handed on ascends from the expected
-- sequence, the new expected sequence lies beyond `s`, nothing pending is due, and the accounts are
-- exact and within the limits.
pub cover_sequence-Covered :
    (s : ℕ) (b : SequenceBuffer)
    → b.expected_sequence ≤ s + 1
    → IsSettled b
    → IsCounted b
    → Covered s b (cover_sequence s b)
unfolding cover_sequence
cover_sequence-Covered s b h v c =
    let covered = covered_entries s b.pending in
    let kept = (release covered b).1 in
    let raised = record kept { expected_sequence = s + 1 } in
    let counts =
      release-IsCounted covered b (covered_entries-Within b.expected_sequence s b.pending v.entries)
        c in
    let flushed = flush_pending-Flushed raised (released-Entries s b v.entries) in
    let on_time : ltb (s + 1) b.expected_sequence ≡ false = ground arith in
    rw on_time (record {
      settled = flushed.settled;
      counted = flush_pending-IsCounted raised (record {
        counted = counts.counted;
        chunks_within = counts.chunks_within;
        bytes_within = counts.bytes_within;
      });
      beyond = Consecutive-le (s + 1) _ _ flushed.consecutive;
      ascending =
          Ascending-Consecutive b.expected_sequence (s + 1) _ _ _
            (release-Ascending b.expected_sequence (s + 1) covered b
              (covered_entries-Sorted b.expected_sequence s b.pending h v.entries))
            flushed.consecutive;
    })
