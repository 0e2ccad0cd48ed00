-- ===== src/Paged/Termination.antt =====
-- PagedTerminalOutputCoordinator.ts: the preparation of a history ends.
use floeterm.Common.{
  ℕ, ◌+◌, ◌-◌, ◌*◌, ◌≤◌, ◌<◌, ◌≡◌, Bool, true, false, ◌&&◌, not, List, [], ◌∷◌, Option, none, some,
  length, leb, if◌then◌else◌, if_cases, arith, refl, subst, All,
}
use floeterm.Common.Number.{Number, finite, pos, whole}
use floeterm.Common.Fallible.{ok, err, ◌>>=◌, then_cases, guard, guard-not-eq-ok, >>=-eq-ok}
use floeterm.Pipeline.State.{Chunk}
use floeterm.Paged.History.{
  Page, Prepared, Outcome, invalid, normalize_sequence, required, or_else, byte_count,
}
use floeterm.Paged.Preparation.{
  Preparation, PageNumbers, present, begun, begin_preparation, page_numbers, has_changed, rebase,
  check_page, adopt_page, take_fitting, Round, done, more, take_chunks, next_page, finish_page,
  partial_page, settle_page, stable_page, changed_page, take_page, take_pages, prepare_history,
  positive_or, default_max_bytes,
}
use floeterm.Paged.Prepared.{Ascending, required-eq-ok, check_page-eq-ok}

abbrev within : (limit : ℕ) → Option Number → Bool
within limit (some (finite (pos n) false)) = leb n limit
within limit _ = true

within-le :
    (limit n : ℕ) (s : Option Number) → within limit s ≡ true → s ≡ some (whole n) → n ≤ limit
within-le limit n s h e =
    let k : leb n limit ≡ true = subst (λ s. within limit s ≡ true) e h in ground arith

and-true : (a b : Bool) → (a && b) ≡ true → (a ≡ true) × (b ≡ true)
and-true true b h = (refl, h)
and-true false b h = cc

abbrev is_last_or_filled : Page → Bool
is_last_or_filled page = elim page.chunks [ [] ↦ not page.has_more | c ∷ cs ↦ true ]

-- A page of a history that ends by `limit`: it is the last one, or it has a chunk.
abbrev pub advances : (limit : ℕ) → Page → Bool
advances limit page = within limit page.snapshot_end_sequence && is_last_or_filled page

abbrev rebases_left : (limit attempts : ℕ) → ℕ
rebases_left limit attempts =
    if leb 2 attempts then 0 else if leb 1 attempts then limit + 2 else limit + 2 + (limit + 2)

-- How many pages can still follow.
abbrev pages_left : ℕ → Preparation → ℕ
pages_left limit p = rebases_left limit p.rebase_attempts + (limit + 1 - p.covered_through)

abbrev Decreases : (limit bound : ℕ) → Outcome Round → Type 0
Decreases limit bound (err e) = Unit
Decreases limit bound (ok (done h)) = Unit
Decreases limit bound (ok (more q)) = pages_left limit q < bound

page_numbers-snapshot_end :
    (page : Page) (n : PageNumbers)
    → page_numbers page ≡ ok n
    → page.snapshot_end_sequence ≡ some (whole n.snapshot_end)
unfolding page_numbers required
page_numbers-snapshot_end page n e =
    let (u1, p1, e1) = >>=-eq-ok (present page.covered_through_sequence) _ e in
    let (u2, p2, e2) = >>=-eq-ok (present page.snapshot_end_sequence) _ e1 in
    let (u3, p3, e3) = >>=-eq-ok (present page.history_generation) _ e2 in
    let (u4, p4, e4) =
      >>=-eq-ok (present (or_else page.first_retained_sequence page.first_available_sequence)) _
        e3 in
    let (coverage, p5, e5) = >>=-eq-ok (required page.covered_through_sequence) _ e4 in
    let (snapshot_end, p6, e6) = >>=-eq-ok (required page.snapshot_end_sequence) _ e5 in
    let (generation, p7, e7) = >>=-eq-ok (required page.history_generation) _ e6 in
    let (first_retained, p8, e8) =
      >>=-eq-ok (required (or_else page.first_retained_sequence page.first_available_sequence)) _
        e7 in
    let same : snapshot_end ≡ n.snapshot_end = ground (arith, e8) in
    subst (λ k. page.snapshot_end_sequence ≡ some (whole k)) same
      (required-eq-ok page.snapshot_end_sequence p6)

rises :
    (low high : ℕ) (cs : List Chunk) (last : Bool)
    → elim cs [ [] ↦ last | c ∷ cs ↦ true ] ≡ true
    → last ≡ false
    → Ascending low high cs
    → low < high
rises low high [] last f g a = ground arith
rises low high (c ∷ cs) last f g (n, s, l, u, a) = omega arith

module _ (limit : ℕ) (page : Page) where
  -- A page that is taken whole, and is not the last one, extends the coverage within the limit.
  finish_page-Decreases :
      (n : PageNumbers) (p q : Preparation)
      → is_last_or_filled page ≡ true
      → n.snapshot_end ≤ limit
      → Ascending p.covered_through n.coverage page.chunks
      → n.coverage ≤ n.snapshot_end
      → q.rebase_attempts ≡ p.rebase_attempts
      → n.coverage ≤ q.covered_through
      → Decreases limit (pages_left limit p) (finish_page page n q)
  unfolding finish_page
  finish_page-Decreases n p q f l a le same covers =
      if_cases (Decreases limit (pages_left limit p)) (not page.has_more) (λ last. tt)
        (λ goes_on.
          if_cases (Decreases limit (pages_left limit p)) (leb q.max_bytes q.byte_length)
            (λ full. tt)
            (λ fits.
              elim page.next_cursor
                as (λ cursor. Decreases limit (pages_left limit p) (next_page cursor n q)) [
                  | none ↦ tt
                  | some cursor ↦
                      let up =
                        rises p.covered_through n.coverage page.chunks (not page.has_more) f goes_on
                          a in
                      ground arith
                ]))

  stable_page-Decreases :
      (n : PageNumbers) (p : Preparation)
      → is_last_or_filled page ≡ true
      → n.snapshot_end ≤ limit
      → Decreases limit (pages_left limit p) (stable_page page n p)
  unfolding stable_page settle_page partial_page adopt_page take_chunks
  stable_page-Decreases n p f l =
      then_cases (Decreases limit (pages_left limit p)) (check_page page n p) _ (λ e. tt)
        (λ u e.
          let (covers, ends, a) = check_page-eq-ok page n p e in
          if_cases (Decreases limit (pages_left limit p))
            (leb (p.byte_length + byte_count page.chunks) p.max_bytes)
            (λ fits.
              finish_page-Decreases n p (take_chunks page n (adopt_page n p)) f l a ends refl
                (ground arith))
            (λ part.
              then_cases (Decreases limit (pages_left limit p))
                (take_fitting page.chunks (adopt_page n p)) _ (λ e. tt) (λ q e. tt)))

  changed_page-Decreases :
      (n : PageNumbers) (p : Preparation) → Decreases limit (pages_left limit p) (changed_page n p)
  unfolding changed_page rebase
  changed_page-Decreases n p =
      then_cases (Decreases limit (pages_left limit p))
        (guard (not (leb 2 p.rebase_attempts)) invalid) _ (λ e. tt)
        (λ u e. let few = guard-not-eq-ok (leb 2 p.rebase_attempts) invalid e in ground arith)

  take_page-Decreases :
      (p : Preparation)
      → advances limit page ≡ true
      → Decreases limit (pages_left limit p) (take_page page p)
  unfolding take_page
  take_page-Decreases p0 h =
      let p : Preparation = record p0 { page_count = p0.page_count + 1 } in
      then_cases (Decreases limit (pages_left limit p)) (page_numbers page) _ (λ e. tt)
        (λ n e.
          if_cases (Decreases limit (pages_left limit p)) (has_changed page n p.snapshot)
            (λ changed. changed_page-Decreases n p)
            (λ stable.
              let (w, f) = and-true _ _ h in
              stable_page-Decreases n p f (
                within-le limit n.snapshot_end page.snapshot_end_sequence w
                  (page_numbers-snapshot_end page n e))))

-- A run over more pages than can follow does not ask for another.
abbrev Answers : Outcome (Option Prepared) → Type 0
Answers (err e) = Unit
Answers (ok none) = ⊥
Answers (ok (some h)) = Unit

take_pages-Answers :
    (limit : ℕ) (pages : List Page) (p : Preparation)
    → All (λ page. advances limit page ≡ true) pages
    → pages_left limit p < length pages
    → Answers (take_pages pages p)
unfolding take_pages
take_pages-Answers limit [] p a l = ground arith
take_pages-Answers limit (page ∷ pages) p a l =
    elim (take_page page p)
        as (λ o.
          Decreases limit (pages_left limit p) o
          → Answers (elim o [
            | err e ↦ err e
            | ok (done h) ↦ ok (some h)
            | ok (more q) ↦ take_pages pages q
          ])) [
            | err e ↦ λ d. tt
            | ok (done h) ↦ λ d. tt
            | ok (more q) ↦ λ d. take_pages-Answers limit pages q a.1 (ground arith)
          ]
      (take_page-Decreases limit page p a.0)

-- The preparation ends: where every page but a last one has a chunk, and no snapshot ends beyond
-- `limit`, it does not ask for more than three times `limit + 2` pages, however often the history
-- changes meanwhile. It has then thrown, or returned a history.
pub prepare_history-ends :
    (limit : ℕ) (start : Number) (max_bytes : Option Number) (pages : List Page)
    → All (λ page. advances limit page ≡ true) pages
    → 3 * (limit + 2) ≤ length pages
    → ¬ (prepare_history start max_bytes pages ≡ ok none)
unfolding prepare_history begin_preparation
prepare_history-ends limit start max_bytes pages a l e = subst Answers e (
    then_cases (λ o. Answers (o >>= take_pages pages)) (normalize_sequence start) _ (λ t. tt)
      (λ requested n.
        take_pages-Answers limit pages (begun requested (positive_or default_max_bytes max_bytes)) a
          (ground arith)))
