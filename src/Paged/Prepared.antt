-- ===== src/Paged/Prepared.antt =====
-- PagedTerminalOutputCoordinator.ts: what holds of a history while it is prepared.
use floeterm.Common.{
  ℕ, ◌+◌, ◌≤◌, ◌<◌, ◌≡◌, List, [], ◌∷◌, ◌++◌, Option, none, some, ltb, leb, ◌||◌, arith, ap, ◌⊎◌,
}
use floeterm.Common.Number.{Number, whole, safe_from-whole}
use floeterm.Common.Fallible.{ok, >>=-eq-ok, guard-not_then}
use floeterm.Pipeline.State.{Chunk}
use floeterm.Paged.History.{
  Page, invalid, normalize_sequence, normalize_chunk, required, byte_count,
}
use floeterm.Paged.Preparation.{
  Preparation, PageNumbers, check_chunks, check_page, adopt_page, take_chunks,
}

-- The sequences rise strictly, above `low` and up to `high`.
abbrev pub Ascending : (low high : ℕ) → List Chunk → Type 0
Ascending low high [] = Unit
Ascending low high (c ∷ cs) =
    (n : ℕ) × (c.sequence ≡ some (whole n)) × (low < n) × (n ≤ high) × Ascending n high cs

pub Ascending-weaken :
    (low high top : ℕ) (cs : List Chunk) → high ≤ top → Ascending low high cs → Ascending low top cs
Ascending-weaken low high top [] h a = tt
Ascending-weaken low high top (c ∷ cs) h (n, s, l, u, a) =
    (n, s, l, omega arith, Ascending-weaken n high top cs h a)

pub Ascending-append :
    (low mid high : ℕ) (xs ys : List Chunk)
    → low ≤ mid
    → mid ≤ high
    → Ascending low mid xs
    → Ascending mid high ys
    → Ascending low high (xs ++ ys)
Ascending-append low mid high [] [] p q a b = tt
Ascending-append low mid high [] (y ∷ ys) p q a (n, s, l, u, b) = (n, s, omega arith, u, b)
Ascending-append low mid high (x ∷ xs) ys p q (n, s, l, u, a) b =
    (n, s, l, omega arith, Ascending-append n mid high xs ys u q a b)

pub byte_count-append : (xs ys : List Chunk) → byte_count (xs ++ ys) ≡ byte_count xs + byte_count ys
byte_count-append [] ys = omega arith
byte_count-append (x ∷ xs) ys = omega (arith, byte_count-append xs ys)

pub normalize_sequence-eq-ok :
    (value : Number) {n : ℕ} → normalize_sequence value ≡ ok n → value ≡ whole n
unfolding normalize_sequence
normalize_sequence-eq-ok value {n} h = ground (arith, safe_from-whole 0 value {n = n})

pub normalize_chunk-eq-ok :
    (s : Option Number) {n : ℕ} → normalize_chunk s ≡ ok n → s ≡ some (whole n)
unfolding normalize_chunk
normalize_chunk-eq-ok none h = cc
normalize_chunk-eq-ok (some value) h = ap some (normalize_sequence-eq-ok value h)

pub required-eq-ok : (s : Option Number) {n : ℕ} → required s ≡ ok n → s ≡ some (whole n)
unfolding required
required-eq-ok none h = cc
required-eq-ok (some value) h = ap some (normalize_sequence-eq-ok value h)

-- What passes the check ascends, from what was covered to the page's coverage.
pub check_chunks-Ascending :
    (previous coverage : ℕ) (cs : List Chunk) {last : ℕ}
    → check_chunks previous coverage cs ≡ ok last
    → Ascending previous coverage cs
unfolding check_chunks
check_chunks-Ascending previous coverage [] h = tt
check_chunks-Ascending previous coverage (c ∷ cs) h =
    let (n, s, rest) = >>=-eq-ok (normalize_chunk c.sequence) _ h in
    let (k, again) =
      guard-not_then (leb n previous || ltb coverage n) invalid (check_chunks n coverage cs) rest in
    let a = check_chunks-Ascending n coverage cs again in
    (n, normalize_chunk-eq-ok _ s, ground arith, ground arith, a)

-- Chunks that have passed are still numbered.
pub check_chunks-last :
    (previous coverage : ℕ) (cs : List Chunk) {last : ℕ}
    → check_chunks previous coverage cs ≡ ok last
    → (previous ≤ last) × (previous ≡ last ⊎ last ≤ coverage)
unfolding check_chunks
check_chunks-last previous coverage [] h = ground arith
check_chunks-last previous coverage (c ∷ cs) h =
    let (n, s, rest) = >>=-eq-ok (normalize_chunk c.sequence) _ h in
    let (k, again) =
      guard-not_then (leb n previous || ltb coverage n) invalid (check_chunks n coverage cs) rest in
    ground (arith, check_chunks-last n coverage cs again)

-- What is kept while pages are taken: the chunks ascend and end within what is covered, and their
-- bytes are counted and within the limit.
pub record IsSound (p : Preparation) : Type 0 where
  pub last : ℕ
  pub ascending : Ascending 0 last p.chunks
  pub within : last ≤ p.covered_through
  pub counted : p.byte_length ≡ byte_count p.chunks
  pub limited : p.byte_length ≤ p.max_bytes
  pub rebases : p.rebase_attempts ≤ 2

pub check_page-eq-ok :
    (page : Page) (n : PageNumbers) (p : Preparation) {u : Unit {0}}
    → check_page page n p ≡ ok u
    → (p.covered_through ≤ n.coverage)
      × (n.coverage ≤ n.snapshot_end)
      × Ascending p.covered_through n.coverage page.chunks
unfolding check_page
check_page-eq-ok page n p h =
    let (a, h1) = guard-not_then (ltb n.coverage p.covered_through) invalid _ h in
    let (b, h2) = guard-not_then (ltb n.snapshot_end n.coverage) invalid _ h1 in
    let (last, c, h3) = >>=-eq-ok (check_chunks p.covered_through n.coverage page.chunks) _ h2 in
    (ground arith, ground arith, check_chunks-Ascending _ _ page.chunks c)

pub take_chunks-IsSound :
    (page : Page) (n : PageNumbers) (p : Preparation)
    → IsSound p
    → Ascending p.covered_through n.coverage page.chunks
    → p.covered_through ≤ n.coverage
    → p.byte_length + byte_count page.chunks ≤ p.max_bytes
    → IsSound (take_chunks page n (adopt_page n p))
unfolding take_chunks adopt_page
take_chunks-IsSound page n p v a le fits = record {
  last = n.coverage;
  ascending =
      Ascending-append 0 p.covered_through n.coverage p.chunks page.chunks (omega arith) le
        (Ascending-weaken 0 v.last p.covered_through p.chunks v.within v.ascending) a;
  within = ground arith;
  counted = omega (arith, v.counted, byte_count-append p.chunks page.chunks);
  limited = fits;
  rebases = v.rebases;
}
