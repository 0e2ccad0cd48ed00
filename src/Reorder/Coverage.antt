-- ===== src/Reorder/Coverage.antt =====
-- Nothing that SequenceBuffer.ts accepts is lost: it is handed on, or it is pending.
use floeterm.Common.{ℕ, ◌<◌, ◌≡◌, ◌⊎◌, true, List, [], ◌∷◌}
use floeterm.Common.Number.{whole}
use floeterm.Common.Assoc.{has}
use floeterm.Common.Fallible.{Result, ok, err}
use floeterm.Reorder.{Chunk, SequenceBuffer, Failure}

-- The sequence has been handed on, or it is pending.
abbrev pub Seen : ℕ → SequenceBuffer → Type 0
Seen s b = (s < b.expected_sequence) ⊎ (has s b.pending ≡ true)

-- What holds of the buffer after a call that does not throw.
abbrev pub Ensures :
    (SequenceBuffer → Type 0) → Result Failure (List Chunk × SequenceBuffer) → Type 0
Ensures P (ok r) = P r.1
Ensures P (err e) = Unit

-- Some chunk of the list carries the sequence.
abbrev pub Carries : ℕ → List Chunk → Type 0
Carries s [] = ⊥
Carries s (c ∷ cs) = (c.sequence ≡ whole s) ⊎ Carries s cs
