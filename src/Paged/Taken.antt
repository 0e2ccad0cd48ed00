-- ===== src/Paged/Taken.antt =====
-- PagedTerminalOutputCoordinator.ts: what a round of the preparation makes of its page.
use floeterm.Common.{
  ℕ, ◌+◌, ◌≤◌, ◌<◌, ◌≡◌, ◌⊎◌, inl, inr, Bool, true, false, not, max, List, [], ◌∷◌, ◌++◌,
  append_assoc, append-nil, Option, none, some, length, ltb, leb, if_cases, refl, ap, subst, arith,
}
use floeterm.Common.Number.{whole}
use floeterm.Common.Fallible.{ok, err, then_cases, guard}
use floeterm.Pipeline.State.{Chunk}
use floeterm.Paged.History.{Page, Prepared, Outcome, invalid, normalize_chunk, byte_count}
use floeterm.Paged.Preparation.{
  Preparation, PageNumbers, Snapshot, page_numbers, has_changed, rebase, check_page, adopt_page,
  prepared_of, take_fitting, Round, done, more, take_chunks, next_page, finish_page, partial_page,
  settle_page, stable_page, changed_page, take_page,
}
use floeterm.Paged.Prepared.{byte_count-append}

abbrev pub snapshot_of : PageNumbers → Snapshot
snapshot_of n = record {
  generation = n.generation;
  end_sequence = n.snapshot_end;
  first_retained = n.first_retained;
}

-- The first of the chunks that are left out would exceed the limit.
abbrev pub Overflows : ℕ → List Chunk → List Chunk → Type 0
Overflows limit chunks [] = ⊥
Overflows limit chunks (c ∷ left) = limit < byte_count chunks + length c.bytes

-- The history starts with `chunks` as far as the limit lets it, and an incomplete one may end before.
pub record StartsOf (limit : ℕ) (chunks : List Chunk) (h : Prepared) : Type 0 where
  pub left : List Chunk
  pub kept : h.chunks ++ left ≡ chunks
  pub cut : (left ≡ []) ⊎ ((h.complete ≡ false) × Overflows limit h.chunks left)

-- The page is the last, or the limit is reached.
abbrev pub Stops : ℕ → List Chunk → Page → Type 0
Stops limit chunks page = (page.has_more ≡ false) ⊎ (limit ≤ byte_count chunks)

pub record Holds (limit : ℕ) (chunks : List Chunk) (count : ℕ) (q : Preparation) : Type 0 where
  pub collected : q.chunks ≡ chunks
  pub counted : q.byte_length ≡ byte_count chunks
  pub limited : q.max_bytes ≡ limit
  pub numbered : q.page_count ≡ count

-- With `chunks` when the page has been taken, and the snapshot.
abbrev pub Settles :
    (limit : ℕ) → List Chunk → (count : ℕ) → Option Snapshot → Page → Outcome Round → Type 0
Settles limit chunks count s page (err e) = Unit
Settles limit chunks count s page (ok (done h)) =
    StartsOf limit chunks h × (h.page_count ≡ whole count) × Stops limit chunks page
Settles limit chunks count s page (ok (more q)) = Holds limit chunks count q × (q.snapshot ≡ s)

abbrev Fits : ℕ → List Chunk → ℕ → Outcome Preparation → Type 0
Fits limit chunks count (err e) = Unit
Fits limit chunks count (ok q) =
    (left : List Chunk) × (q.chunks ++ left ≡ chunks)
    × ((left ≡ []) ⊎ Overflows limit q.chunks left)
    × (q.page_count ≡ count)

take_fitting-Fits :
    (cs : List Chunk) (p : Preparation)
    → p.byte_length ≡ byte_count p.chunks
    → Fits p.max_bytes (p.chunks ++ cs) p.page_count (take_fitting cs p)
unfolding take_fitting
take_fitting-Fits [] p b = ([], refl, inl refl, refl)
take_fitting-Fits (c ∷ cs) p b =
    then_cases (Fits p.max_bytes (p.chunks ++ (c ∷ cs)) p.page_count) (normalize_chunk c.sequence) _
      (λ e. tt)
      (λ n e.
        let q : Preparation = record p {
          chunks = p.chunks ++ (c ∷ []);
          byte_length = p.byte_length + length c.bytes;
          covered_through = max p.covered_through n;
        } in
        if_cases (Fits p.max_bytes (p.chunks ++ (c ∷ cs)) p.page_count)
          (not (ltb p.max_bytes (p.byte_length + length c.bytes)))
          (λ fits.
            subst (λ all. Fits p.max_bytes all p.page_count (take_fitting cs q))
              (append_assoc p.chunks (c ∷ []) cs)
              (take_fitting-Fits cs q (omega (arith, b, byte_count-append p.chunks (c ∷ [])))))
          (λ full. (c ∷ cs, refl, inr (ground arith), refl)))

finish_page-Settles :
    (page : Page) (n : PageNumbers) (p : Preparation)
    → p.byte_length ≡ byte_count p.chunks
    → Settles p.max_bytes p.chunks p.page_count p.snapshot page (finish_page page n p)
unfolding finish_page prepared_of
finish_page-Settles page n p b =
    let whole_page : (complete : Bool) → StartsOf p.max_bytes p.chunks (prepared_of complete n p) =
      λ complete. record { left = []; kept = append-nil p.chunks; cut = inl refl } in
    if_cases (Settles p.max_bytes p.chunks p.page_count p.snapshot page) (not page.has_more)
      (λ last. (whole_page (leb n.snapshot_end p.covered_through), refl, inl (ground arith)))
      (λ goes_on.
        if_cases (Settles p.max_bytes p.chunks p.page_count p.snapshot page)
          (leb p.max_bytes p.byte_length) (λ full. (whole_page false, refl, inr (ground arith)))
          (λ fits.
            elim page.next_cursor
              as (λ cursor.
                Settles p.max_bytes p.chunks p.page_count p.snapshot page (next_page cursor n p)) [
                  | none ↦ tt
                  | some cursor ↦ (
                    record { collected = refl; counted = b; limited = refl; numbered = refl },
                    refl,
                  )
                ]))

settle_page-Settles :
    (page : Page) (n : PageNumbers) (p : Preparation)
    → p.byte_length ≡ byte_count p.chunks
    → Settles p.max_bytes
        (p.chunks ++ page.chunks)
        p.page_count
        p.snapshot
        page
        (settle_page page n p)
unfolding settle_page partial_page take_chunks prepared_of
settle_page-Settles page n p b =
    let P = Settles p.max_bytes (p.chunks ++ page.chunks) p.page_count p.snapshot page in
    if_cases P (leb (p.byte_length + byte_count page.chunks) p.max_bytes)
      (λ fits.
        finish_page-Settles page n (take_chunks page n p)
          (omega (arith, b, byte_count-append p.chunks page.chunks)))
      (λ part.
        then_cases P (take_fitting page.chunks p) _ (λ e. tt)
          (λ q e.
            let (left, kept, over, numbered) =
              subst (Fits p.max_bytes (p.chunks ++ page.chunks) p.page_count) e
                (take_fitting-Fits page.chunks p b) in
            (
              record {
                left = left;
                kept = kept;
                cut = elim over [ inl none_left ↦ inl none_left | inr o ↦ inr (refl, o) ];
              },
              ap whole numbered,
              inr (ground (arith, b, byte_count-append p.chunks page.chunks)),
            )))

abbrev pub Restarts : (limit count : ℕ) → Outcome Round → Type 0
Restarts limit count (err e) = Unit
Restarts limit count (ok (done h)) = ⊥
Restarts limit count (ok (more q)) = Holds limit [] count q × (q.snapshot ≡ none)

-- A page that changes the history begins anew; any other is taken.
abbrev pub Sorts : Page → Preparation → PageNumbers → Outcome Round → Type 0
Sorts page p n o =
    ((has_changed page n p.snapshot ≡ true) × Restarts p.max_bytes (p.page_count + 1) o)
    ⊎ ((has_changed page n p.snapshot ≡ false)
        × Settles p.max_bytes (p.chunks ++ page.chunks) (p.page_count + 1) (some (snapshot_of n))
            page o)

abbrev pub Takes : Page → Preparation → Outcome Round → Type 0
Takes page p (err e) = Unit
Takes page p (ok r) = (n : PageNumbers) × (page_numbers page ≡ ok n) × Sorts page p n (ok r)

changed_page-Restarts :
    (n : PageNumbers) (p : Preparation) → Restarts p.max_bytes p.page_count (changed_page n p)
unfolding changed_page rebase
changed_page-Restarts n p =
    then_cases (Restarts p.max_bytes p.page_count) (guard (not (leb 2 p.rebase_attempts)) invalid) _
      (λ e. tt)
      (λ u e. (record { collected = refl; counted = refl; limited = refl; numbered = refl }, refl))

stable_page-Settles :
    (page : Page) (n : PageNumbers) (p : Preparation)
    → p.byte_length ≡ byte_count p.chunks
    → Settles p.max_bytes
        (p.chunks ++ page.chunks)
        p.page_count
        (some (snapshot_of n))
        page
        (stable_page page n p)
unfolding stable_page adopt_page
stable_page-Settles page n p b =
    then_cases
      (Settles p.max_bytes (p.chunks ++ page.chunks) p.page_count (some (snapshot_of n)) page)
      (check_page page n p) _ (λ e. tt) (λ u e. settle_page-Settles page n (adopt_page n p) b)

with_numbers :
    (page : Page) (p : Preparation) (n : PageNumbers) (o : Outcome Round)
    → page_numbers page ≡ ok n
    → Sorts page p n o
    → Takes page p o
with_numbers page p n (err e) k s = tt
with_numbers page p n (ok r) k s = (n, k, s)

pub take_page-Takes :
    (page : Page) (p : Preparation)
    → p.byte_length ≡ byte_count p.chunks
    → Takes page p (take_page page p)
unfolding take_page
take_page-Takes page p0 b =
    let p : Preparation = record p0 { page_count = p0.page_count + 1 } in
    then_cases (Takes page p0) (page_numbers page) _ (λ e. tt)
      (λ n e.
        if_cases (Takes page p0) (has_changed page n p.snapshot)
          (λ changed.
            with_numbers page p0 n (changed_page n p) e (inl (changed, changed_page-Restarts n p)))
          (λ stable.
            with_numbers page p0 n (stable_page page n p) e
              (inr (stable, stable_page-Settles page n p b))))
