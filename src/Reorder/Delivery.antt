-- ===== src/Reorder/Delivery.antt =====
-- What SequenceBuffer.ts hands on: every sequence once, in order, with none left out.
use floeterm.Common.{
  ℕ, zero, suc, ◌+◌, ◌≤◌, ◌<◌, ◌≡◌, refl, inl, inr, Bool, false, List, [], ◌∷◌, ◌++◌, some, arith,
  length, ◌==◌, All, Option-cases, subst, sym, ltb, Bool-cases, ◌||◌,
}
use floeterm.Common.Number.{whole, safe_from, safe_from-whole}
use floeterm.Common.Assoc.{lookup, has}
use floeterm.Common.Assoc.{has_of_none, has-lookup, has-insert, length-delete}
use floeterm.Common.Fallible.{Result, ok, err, ◌>>=◌}
use floeterm.Reorder.{
  Chunk, SequenceBuffer, Failure, advance, flush_rounds, flush_pending, deliver, hold,
  push_sequenced, push,
}
use floeterm.Reorder.Entries.{
  Entries, Entries-delete, Entries-insert, Entries-raise, has_self_delete, lookup-sequence,
}

-- The chunks carry the sequences from `first` up to but not including `next`, in that order.
abbrev pub Consecutive : ℕ → List Chunk → ℕ → Type 0
Consecutive first [] next = first ≡ next
Consecutive first (c ∷ cs) next = (c.sequence ≡ whole first) × Consecutive (first + 1) cs next

pub Consecutive-append :
    (a b c : ℕ) (xs ys : List Chunk)
    → Consecutive a xs b
    → Consecutive b ys c
    → Consecutive a (xs ++ ys) c
Consecutive-append a b c [] ys h k = subst (λ n. Consecutive n ys c) (sym h) k
Consecutive-append a b c (x ∷ xs) ys h k = (h.0, Consecutive-append (a + 1) b c xs ys h.1 k)

pub Consecutive-le : (a c : ℕ) (cs : List Chunk) → Consecutive a cs c → a ≤ c
Consecutive-le a c [] h = omega arith
Consecutive-le a c (x ∷ cs) h = omega (arith, Consecutive-le (a + 1) c cs h.1)

-- Between two calls nothing that is pending is due.
pub record IsSettled (b : SequenceBuffer) : Type 0 where
  pub entries : Entries b.expected_sequence b.pending
  pub waiting : has b.expected_sequence b.pending ≡ false

abbrev Due : SequenceBuffer → Type 0
Due b = Entries b.expected_sequence b.pending

advance-Due : (b : SequenceBuffer) (c : Chunk) → Due b → Due (advance b c)
unfolding advance
advance-Due b c e =
    Entries-raise _ _ (has_self_delete _ b.expected_sequence b.pending e)
      (Entries-delete _ b.expected_sequence b.pending e)

-- What a flush with enough rounds leaves.
pub record Flushed (b : SequenceBuffer) (r : List Chunk × SequenceBuffer) : Type 0 where
  pub settled : IsSettled r.1
  pub consecutive : Consecutive b.expected_sequence r.0 r.1.expected_sequence

has_of_empty : (k : ℕ) (m : List (ℕ × Chunk)) → length m ≤ 0 → has k m ≡ false
unfolding has
has_of_empty k [] h = refl
has_of_empty k (e ∷ m) h = absurd (omega arith)

flush_rounds-Flushed :
    (rounds : ℕ) (b : SequenceBuffer)
    → length b.pending ≤ rounds
    → Due b
    → Flushed b (flush_rounds rounds b)
unfolding flush_rounds
flush_rounds-Flushed zero b h e = record {
  settled = record { entries = e; waiting = has_of_empty _ _ h };
  consecutive = refl;
}
flush_rounds-Flushed (suc rounds) b h e =
    elim (Option-cases (lookup b.expected_sequence b.pending)) [
      | inl missing ↦
          rw (missing, flush_rounds)
            (record {
              settled = record { entries = e; waiting = has_of_none _ _ missing };
              consecutive = refl;
            })
      | inr (c, found) ↦
          let shorter = length-delete b.expected_sequence b.pending (has-lookup _ _ found) in
          let rest = flush_rounds-Flushed rounds (advance b c) (omega arith) (advance-Due b c e) in
          rw (found, flush_rounds)
            (record {
              settled = rest.settled;
              consecutive =
                  (lookup-sequence b.expected_sequence _ b.pending e found, rest.consecutive);
            })
    ]

-- The loop stops by its own test: the rounds suffice.
pub flush_pending-Flushed :
    (b : SequenceBuffer) → Entries b.expected_sequence b.pending → Flushed b (flush_pending b)
unfolding flush_pending
flush_pending-Flushed b e = flush_rounds-Flushed (length b.pending) b (omega arith) e

pub deliver-Flushed :
    (c : Chunk) (b : SequenceBuffer)
    → IsSettled b
    → c.sequence ≡ whole b.expected_sequence
    → Flushed b (deliver c b)
unfolding deliver
deliver-Flushed c b v s =
    let rest =
      flush_pending-Flushed (record b { expected_sequence = b.expected_sequence + 1 })
        (Entries-raise b.expected_sequence b.pending v.waiting v.entries) in
    record { settled = rest.settled; consecutive = (s, rest.consecutive) }

-- What a call that does not throw does to a settled buffer.
abbrev pub Delivers : SequenceBuffer → Result Failure (List Chunk × SequenceBuffer) → Type 0
Delivers b (ok r) = Flushed b r
Delivers b (err e) = Unit

hold-Flushed :
    (k : ℕ) (c : Chunk) (b : SequenceBuffer)
    → IsSettled b
    → c.sequence ≡ whole k
    → b.expected_sequence < k
    → has k b.pending ≡ false
    → Delivers b (hold k c b)
unfolding hold
hold-Flushed k c b v s later new = elim (Bool-cases full) [
  | inl e ↦ rw e tt
  | inr e ↦ rw e (record {
    settled = record {
      entries = Entries-insert b.expected_sequence k c b.pending (omega arith) s new v.entries;
      waiting = ground (arith, has-insert k b.expected_sequence c b.pending);
    };
    consecutive = refl;
  })
]
  where
    full : Bool
    full =
        ltb b.config.max_pending_chunks (length b.pending + 1)
        || ltb b.config.max_pending_bytes (b.pending_bytes + length c.bytes)

push_sequenced-Flushed :
    (k : ℕ) (c : Chunk) (b : SequenceBuffer)
    → IsSettled b
    → c.sequence ≡ whole k
    → Delivers b (push_sequenced k c b)
unfolding push_sequenced
push_sequenced-Flushed k c b v s =
    elim (Bool-cases (ltb k b.expected_sequence || has k b.pending)) [
      | inl seen ↦ rw seen (record { settled = v; consecutive = refl })
      | inr new ↦ rw new (elim (Bool-cases (k == b.expected_sequence)) [
        | inl due ↦ rw due (deliver-Flushed c b v (ground arith))
        | inr early ↦ rw early (hold-Flushed k c b v s (ground arith) (ground arith))
      ])
    ]

-- A sequenced chunk never disturbs the order.
pub push-Flushed :
    (c : Chunk) (b : SequenceBuffer) {k : ℕ}
    → IsSettled b
    → safe_from 1 c.sequence ≡ some k
    → Delivers b (push c b)
unfolding push
push-Flushed c b {k} v s =
    rw (s, push) (push_sequenced-Flushed k c b v (safe_from-whole 1 c.sequence s).0)

-- Pushes one after another, up to the first that throws.
abbrev pub push_all : List Chunk → SequenceBuffer → Result Failure (List Chunk × SequenceBuffer)
push_all [] b = ok ([], b)
push_all (c ∷ cs) b = do
  (ready, b1) ← push c b
  (later, b2) ← push_all cs b1
  ok (ready ++ later, b2)

-- The chunk is sequenced: a positive safe integer.
abbrev pub IsSequenced : Chunk → Type 0
IsSequenced c = (k : ℕ) × (safe_from 1 c.sequence ≡ some k)

Delivers->>= :
    (b : SequenceBuffer) (cs : List Chunk) (r : Result Failure (List Chunk × SequenceBuffer))
    → ((b1 : SequenceBuffer) → IsSettled b1 → Delivers b1 (push_all cs b1))
    → Delivers b r
    → Delivers b (do (ready, b1) ← r; (later, b2) ← push_all cs b1; ok (ready ++ later, b2))
Delivers->>= b cs (err e) rest d = tt
Delivers->>= b cs (ok (ready, b1)) rest d = joined (push_all cs b1) (rest b1 d.settled)
  where
    joined :
        (q : Result Failure (List Chunk × SequenceBuffer))
        → Delivers b1 q
        → Delivers b (q >>= λ (later, b2). ok (ready ++ later, b2))
    joined (err e) k = tt
    joined (ok (later, b2)) k = record {
      settled = k.settled;
      consecutive =
          Consecutive-append b.expected_sequence b1.expected_sequence b2.expected_sequence ready
            later d.consecutive k.consecutive;
    }

-- Sequenced chunks in any order, repeats and late ones included: as long as no push throws, what is
-- handed on carries the sequences from the expected one on, each once, in order and with no gap;
-- the expected sequence is then the first that was not handed on, and nothing pending is due.
pub push_all-Consecutive :
    (cs : List Chunk) (b : SequenceBuffer)
    → All IsSequenced cs
    → IsSettled b
    → Delivers b (push_all cs b)
push_all-Consecutive [] b s v = record { settled = v; consecutive = refl }
push_all-Consecutive (c ∷ cs) b s v =
    Delivers->>= b cs (push c b) (λ b1 v1. push_all-Consecutive cs b1 s.1 v1)
      (push-Flushed c b v s.0.1)
