-- ===== src/Reorder/Entries.antt =====
-- The pending map of SequenceBuffer.ts: distinct keys, each the sequence of its chunk.
use floeterm.Common.{ℕ, ◌+◌, ◌≤◌, ◌<◌, ◌≡◌, refl, false, List, [], ◌∷◌, some, arith, length}
use floeterm.Common.Number.{whole}
use floeterm.Common.Assoc.{lookup, has, delete, insert, has-insert, has-delete_le}
use floeterm.Reorder.{Chunk}

-- Keys are distinct and at least `low`, and each is the sequence of its chunk.
abbrev pub Entries : ℕ → List (ℕ × Chunk) → Type 0
Entries low [] = Unit
Entries low ((k, c) ∷ m) = (low ≤ k) × (c.sequence ≡ whole k) × (has k m ≡ false) × Entries low m

-- The bytes that the map holds.
abbrev pub total_bytes : List (ℕ × Chunk) → ℕ
total_bytes [] = 0
total_bytes ((k, c) ∷ m) = length c.bytes + total_bytes m

pub Entries-delete : (low k : ℕ) (m : List (ℕ × Chunk)) → Entries low m → Entries low (delete k m)
unfolding delete
Entries-delete low k [] e = tt
Entries-delete low k ((j, c) ∷ m) e =
    ground (arith, Entries-delete low k m e.3, has-delete_le k j m)

pub has_self_delete :
    (low k : ℕ) (m : List (ℕ × Chunk)) → Entries low m → has k (delete k m) ≡ false
unfolding delete has
has_self_delete low k [] e = refl
has_self_delete low k ((j, c) ∷ m) e = ground (arith, has_self_delete low k m e.3)

pub Entries-raise :
    (low : ℕ) (m : List (ℕ × Chunk)) → has low m ≡ false → Entries low m → Entries (low + 1) m
unfolding has
Entries-raise low [] h e = tt
Entries-raise low ((j, c) ∷ m) h e = ground (arith, Entries-raise low m)

pub Entries-insert :
    (low k : ℕ) (c : Chunk) (m : List (ℕ × Chunk))
    → low ≤ k
    → c.sequence ≡ whole k
    → has k m ≡ false
    → Entries low m
    → Entries low (insert k c m)
unfolding insert has
Entries-insert low k c [] h s f e = (h, s, refl, tt)
Entries-insert low k c ((j, d) ∷ m) h s f e =
    ground (arith, Entries-insert low k c m h s, has-insert k j c m)

pub has_below : (low k : ℕ) (m : List (ℕ × Chunk)) → k < low → Entries low m → has k m ≡ false
unfolding has
has_below low k [] h e = refl
has_below low k ((j, c) ∷ m) h e = ground (arith, has_below low k m)

pub lookup-sequence :
    (low k : ℕ) (m : List (ℕ × Chunk)) {c : Chunk}
    → Entries low m
    → lookup k m ≡ some c
    → c.sequence ≡ whole k
unfolding lookup
lookup-sequence low k [] {c} e h = cc
lookup-sequence low k ((j, d) ∷ m) {c} e h = ground (arith, lookup-sequence low k m {c = c} e.3)

pub total_bytes-delete :
    (k : ℕ) (m : List (ℕ × Chunk)) {c : Chunk}
    → lookup k m ≡ some c
    → total_bytes (delete k m) + length c.bytes ≡ total_bytes m
unfolding delete lookup
total_bytes-delete k [] {c} h = cc
total_bytes-delete k ((j, d) ∷ m) {c} h = ground (arith, total_bytes-delete k m {c = c})

pub total_bytes-insert :
    (k : ℕ) (c : Chunk) (m : List (ℕ × Chunk))
    → has k m ≡ false
    → total_bytes (insert k c m) ≡ total_bytes m + length c.bytes
unfolding insert has
total_bytes-insert k c [] h = omega arith
total_bytes-insert k c ((j, d) ∷ m) h = ground (arith, total_bytes-insert k c m)
