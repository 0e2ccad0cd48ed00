-- ===== src/Paged/Rounds.antt =====
-- PagedTerminalOutputCoordinator.ts: what holds of the history that has been prepared.
use floeterm.Common.{
  ℕ, ◌+◌, ◌≤◌, ◌≡◌, ◌⊎◌, inl, Bool, false, not, List, [], ◌∷◌, Option, none, some, length, ltb, leb,
  if_cases, arith, refl, subst,
}
use floeterm.Common.Number.{Number, whole}
use floeterm.Common.Fallible.{ok, err, ◌>>=◌, then_cases, guard, guard-not-eq-ok}
use floeterm.Pipeline.State.{Chunk}
use floeterm.Paged.History.{
  Page, Prepared, Outcome, invalid, normalize_chunk, normalize_sequence, byte_count,
}
use floeterm.Paged.Preparation.{
  Preparation, PageNumbers, begun, begin_preparation, positive_or, default_max_bytes, page_numbers,
  has_changed, rebase, check_page, adopt_page, prepared_of, take_fitting, Round, done, more,
  take_chunks, next_page, finish_page, partial_page, settle_page, stable_page, changed_page,
  take_page, take_pages, prepare_history,
}
use floeterm.Paged.Prepared.{
  Ascending, Ascending-weaken, Ascending-append, byte_count-append, normalize_chunk-eq-ok, IsSound,
  check_page-eq-ok, take_chunks-IsSound,
}

-- The chunks of a prepared history rise strictly within its coverage, their bytes are counted, and
-- it counts as complete only where its coverage reaches the end of its snapshot.
pub record IsWellFormed (max_bytes : ℕ) (h : Prepared) : Type 0 where
  pub covered : ℕ
  pub snapshot_end : ℕ
  pub covers : h.covered_through_sequence ≡ whole covered
  pub ends : h.snapshot_end_sequence ≡ whole snapshot_end
  pub ascending : Ascending 0 covered h.chunks
  pub counted : h.byte_length ≡ whole (byte_count h.chunks)
  pub limited : byte_count h.chunks ≤ max_bytes
  pub finished : (h.complete ≡ false) ⊎ (snapshot_end ≤ covered)

-- What a round leaves: a history, or a preparation that can go on.
abbrev pub RoundIsSound : ℕ → Round → Type 0
RoundIsSound limit (done h) = IsWellFormed limit h
RoundIsSound limit (more p) = IsSound p × (p.max_bytes ≡ limit)

abbrev pub Leads : ℕ → Outcome Round → Type 0
Leads limit (err e) = Unit
Leads limit (ok r) = RoundIsSound limit r

pub prepared_of-IsWellFormed :
    (complete : Bool) (n : PageNumbers) (p : Preparation)
    → IsSound p
    → (complete ≡ false) ⊎ (n.snapshot_end ≤ p.covered_through)
    → IsWellFormed p.max_bytes (prepared_of complete n p)
unfolding prepared_of
prepared_of-IsWellFormed complete n p v f = record {
  covered = p.covered_through;
  snapshot_end = n.snapshot_end;
  covers = refl;
  ends = refl;
  ascending = Ascending-weaken 0 v.last p.covered_through p.chunks v.within v.ascending;
  counted = cc (v.counted);
  limited = omega (arith, v.counted, v.limited);
  finished = f;
}

-- The counters of the pages do not count.
renumber :
    (p : Preparation) (page_count : ℕ) (cursor : Option ℕ) (start : ℕ)
    → IsSound p
    → IsSound (record p { page_count = page_count; cursor = cursor; start_sequence = start })
renumber p page_count cursor start v = record {
  last = v.last;
  ascending = v.ascending;
  within = v.within;
  counted = v.counted;
  limited = v.limited;
  rebases = v.rebases;
}

finish_page-Leads :
    (page : Page) (n : PageNumbers) (p : Preparation)
    → IsSound p
    → Leads p.max_bytes (finish_page page n p)
unfolding finish_page
finish_page-Leads page n p v =
    if_cases (Leads p.max_bytes) (not page.has_more)
      (λ last. prepared_of-IsWellFormed (leb n.snapshot_end p.covered_through) n p v (ground arith))
      (λ goes_on.
        if_cases (Leads p.max_bytes) (leb p.max_bytes p.byte_length)
          (λ full. prepared_of-IsWellFormed false n p v (inl refl))
          (λ fits. elim page.next_cursor as (λ cursor. Leads p.max_bytes (next_page cursor n p)) [
            | none ↦ tt
            | some cursor ↦ (renumber p p.page_count (some cursor) (n.coverage + 1) v, refl)
          ]))

abbrev Fits : ℕ → Outcome Preparation → Type 0
Fits limit (err e) = Unit
Fits limit (ok p) = IsSound p × (p.max_bytes ≡ limit)

-- The chunks that fit are taken in order.
take_fitting-Fits :
    (cs : List Chunk) (low coverage : ℕ) (p : Preparation) (v : IsSound p)
    → v.last ≤ low
    → Ascending low coverage cs
    → Fits p.max_bytes (take_fitting cs p)
unfolding take_fitting
take_fitting-Fits [] low coverage p v b a = (v, refl)
take_fitting-Fits (c ∷ cs) low coverage p v b (m, s, l, u, a) =
    then_cases (Fits p.max_bytes) (normalize_chunk c.sequence) _ (λ e. tt)
      (λ n e.
        let same : m ≡ n = ground (arith, normalize_chunk-eq-ok c.sequence e, s) in
        if_cases (Fits p.max_bytes) (not (ltb p.max_bytes (p.byte_length + length c.bytes)))
          (λ fits.
            take_fitting-Fits cs m coverage _
              (record {
                last = m;
                ascending =
                    Ascending-append 0 low m p.chunks (c ∷ []) (omega arith) (omega arith)
                      (Ascending-weaken 0 v.last low p.chunks b v.ascending)
                      (m, s, omega arith, omega arith, tt);
                within = ground arith;
                counted = omega (arith, v.counted, byte_count-append p.chunks (c ∷ []));
                limited = ground arith;
                rebases = v.rebases;
              })
              (omega arith) a)
          (λ full. (v, refl)))

settle_page-Leads :
    (page : Page) (n : PageNumbers) (p : Preparation)
    → IsSound p
    → Ascending p.covered_through n.coverage page.chunks
    → p.covered_through ≤ n.coverage
    → Leads p.max_bytes (settle_page page n (adopt_page n p))
unfolding settle_page adopt_page partial_page
settle_page-Leads page n p v a le =
    if_cases (Leads p.max_bytes) (leb (p.byte_length + byte_count page.chunks) p.max_bytes)
      (λ whole_page.
        finish_page-Leads page n (take_chunks page n (adopt_page n p))
          (take_chunks-IsSound page n p v a le (ground arith)))
      (λ part.
        then_cases (Leads p.max_bytes) (take_fitting page.chunks (adopt_page n p)) _ (λ e. tt)
          (λ q e.
            let f = subst (Fits p.max_bytes) e (
              take_fitting-Fits page.chunks p.covered_through n.coverage (adopt_page n p)
                (record {
                  last = v.last;
                  ascending = v.ascending;
                  within = ground (arith, v.within);
                  counted = v.counted;
                  limited = v.limited;
                  rebases = v.rebases;
                })
                v.within a) in
            subst (λ limit. IsWellFormed limit (prepared_of false n q)) f.1
              (prepared_of-IsWellFormed false n q f.0 (inl refl))))

changed_page-Leads :
    (n : PageNumbers) (p : Preparation) → IsSound p → Leads p.max_bytes (changed_page n p)
unfolding changed_page rebase
changed_page-Leads n p v =
    then_cases (Leads p.max_bytes) (guard (not (leb 2 p.rebase_attempts)) invalid) _ (λ e. tt)
      (λ u e.
        let few = guard-not-eq-ok (leb 2 p.rebase_attempts) invalid e in
        (
          record {
            last = 0;
            ascending = tt;
            within = omega arith;
            counted = refl;
            limited = omega arith;
            rebases = ground arith;
          },
          refl,
        ))

pub take_page-Leads :
    (page : Page) (p : Preparation) → IsSound p → Leads p.max_bytes (take_page page p)
unfolding take_page stable_page
take_page-Leads page p0 v0 =
    let p : Preparation = record p0 { page_count = p0.page_count + 1 } in
    let v = renumber p0 (p0.page_count + 1) p0.cursor p0.start_sequence v0 in
    then_cases (Leads p.max_bytes) (page_numbers page) _ (λ e. tt)
      (λ n e.
        if_cases (Leads p.max_bytes) (has_changed page n p.snapshot)
          (λ changed. changed_page-Leads n p v)
          (λ stable.
            then_cases (Leads p.max_bytes) (check_page page n p) _ (λ e. tt)
              (λ u e.
                let (le, b, a) = check_page-eq-ok page n p e in settle_page-Leads page n p v a le)))

abbrev Ends : ℕ → Outcome (Option Prepared) → Type 0
Ends limit (err e) = Unit
Ends limit (ok none) = Unit
Ends limit (ok (some h)) = IsWellFormed limit h

take_pages-Ends :
    (pages : List Page) (p : Preparation) → IsSound p → Ends p.max_bytes (take_pages pages p)
unfolding take_pages
take_pages-Ends [] p v = tt
take_pages-Ends (page ∷ pages) p v =
    elim (take_page page p)
        as (λ o.
          Leads p.max_bytes o
          → Ends p.max_bytes (elim o [
            | err e ↦ err e
            | ok (done h) ↦ ok (some h)
            | ok (more q) ↦ take_pages pages q
          ])) [
            | err e ↦ λ l. tt
            | ok (done h) ↦ λ l. l
            | ok (more q) ↦ λ l.
                subst (λ limit. Ends limit (take_pages pages q)) l.1 (take_pages-Ends pages q l.0)
          ]
      (take_page-Leads page p v)

-- Whatever pages the fetches answer with, a history that their preparation ends with is well formed:
-- its chunks rise strictly within what it covers, its bytes are the ones it counts and no more than
-- the limit, or 32 MiB where no positive limit is asked for, and it is complete only if it covers its
-- snapshot to the end.
pub prepare_history-IsWellFormed :
    (start : Number) (max_bytes : Option Number) (pages : List Page) {h : Prepared}
    → prepare_history start max_bytes pages ≡ ok (some h)
    → IsWellFormed (positive_or default_max_bytes max_bytes) h
unfolding prepare_history begin_preparation
prepare_history-IsWellFormed start max_bytes pages e =
    let limit = positive_or default_max_bytes max_bytes in
    subst (Ends limit) e (
      then_cases (λ o. Ends limit (o >>= take_pages pages)) (normalize_sequence start) _ (λ t. tt)
        (λ requested n. take_pages-Ends pages (begun requested limit) (record {
          last = 0;
          ascending = tt;
          within = omega arith;
          counted = refl;
          limited = omega arith;
          rebases = omega arith;
        })))
