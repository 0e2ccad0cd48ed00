-- ===== src/Paged/Kept.antt =====
-- PagedTerminalOutputCoordinator.ts: which of the chunks that were fetched a prepared history holds.
use floeterm.Common.{
  ℕ, ◌+◌, ◌≡◌, inl, inr, List, [], ◌∷◌, ◌++◌, append_assoc, Option, none, some, length, refl, sym,
  ap, subst, ◌∙◌, arith, length-append,
}
use floeterm.Common.Number.{Number, whole}
use floeterm.Common.Fallible.{ok, err, ◌>>=◌, then_cases}
use floeterm.Paged.History.{Page, Prepared, Outcome, normalize_sequence, byte_count}
use floeterm.Paged.Preparation.{
  Preparation, PageNumbers, begun, begin_preparation, page_numbers, done, more, take_page,
  take_pages, prepare_history, positive_or, default_max_bytes,
}
use floeterm.Paged.Taken.{StartsOf, Stops, Holds, Sorts, Takes, take_page-Takes}
use floeterm.Paged.Cut.{
  chunks_of, EndsChanged, IsCut, with_page, Follows, first, behind, used-IsStable, used-EndsChanged,
  EndsChanged-before,
}

abbrev Ends : (seen limit : ℕ) → List Page → Outcome (Option Prepared) → Type 0
Ends seen limit pages (err e) = Unit
Ends seen limit pages (ok none) = Unit
Ends seen limit pages (ok (some h)) = IsCut seen limit pages h

Ends-skip :
    (seen limit : ℕ) (front pages : List Page) (o : Outcome (Option Prepared))
    → EndsChanged front
    → Ends (seen + length front) limit pages o
    → Ends seen limit (front ++ pages) o
Ends-skip seen limit front pages (err e) changed v = tt
Ends-skip seen limit front pages (ok none) changed v = tt
Ends-skip seen limit front pages (ok (some h)) changed v = record {
  skipped = front ++ v.skipped;
  used = v.used;
  last = v.last;
  rest = v.rest;
  parts =
      ap (λ all. front ++ all) v.parts
      ∙ sym (append_assoc front v.skipped (v.used ++ (v.last ∷ v.rest)));
  changed = inr (EndsChanged-before front v.skipped changed v.changed);
  stable = v.stable;
  numbered = v.numbered ∙ ap whole (omega (arith, length-append front v.skipped));
  holds = v.holds;
  stops = v.stops;
}

-- The history that a page ends.
done-IsCut :
    (seen limit : ℕ) (used pages : List Page) (page : Page) (p : Preparation) (n : PageNumbers)
    (h : Prepared)
    → Follows used p.snapshot
    → Holds limit (chunks_of used) (seen + length used) p
    → page_numbers page ≡ ok n
    → Sorts page p n (ok (done h))
    → IsCut seen limit (used ++ (page ∷ pages)) h
done-IsCut seen limit used pages page p n h f v k (inl (other, none_done)) = absurd none_done
done-IsCut seen limit used pages page p n h f v k (inr (same, (holds, numbered, stops))) = record {
  skipped = [];
  used = used;
  last = page;
  rest = pages;
  parts = refl;
  changed = inl refl;
  stable = used-IsStable used p.snapshot page n f k same;
  numbered = numbered ∙ ap whole (omega (arith, v.numbered));
  holds =
      subst (λ l. StartsOf l (chunks_of used ++ page.chunks) h) v.limited
        (subst (λ cs. StartsOf p.max_bytes (cs ++ page.chunks) h) v.collected holds);
  stops =
      subst (λ l. Stops l (chunks_of used ++ page.chunks) page) v.limited
        (subst (λ cs. Stops p.max_bytes (cs ++ page.chunks) page) v.collected stops);
}

-- The page has been taken, and the loop goes on.
more-Holds :
    (seen limit : ℕ) (used : List Page) (page : Page) (p q : Preparation)
    → Holds limit (chunks_of used) (seen + length used) p
    → Holds p.max_bytes (p.chunks ++ page.chunks) (p.page_count + 1) q
    → Holds limit (chunks_of (used ++ (page ∷ []))) (seen + length (used ++ (page ∷ []))) q
more-Holds seen limit used page p q v w =
    let taken = ap (λ cs. cs ++ page.chunks) v.collected ∙ with_page used page in
    record {
      collected = w.collected ∙ taken;
      counted = w.counted ∙ ap byte_count taken;
      limited = w.limited ∙ v.limited;
      numbered = omega (arith, w.numbered, v.numbered, length-append used (page ∷ []));
    }

take_pages-Ends :
    (seen limit : ℕ) (used pages : List Page) (p : Preparation)
    → Follows used p.snapshot
    → Holds limit (chunks_of used) (seen + length used) p
    → Ends seen limit (used ++ pages) (take_pages pages p)
unfolding take_pages
take_pages-Ends seen limit used [] p f v = tt
take_pages-Ends seen limit used (page ∷ pages) p f v =
    let front = used ++ (page ∷ []) in
    let whole_list = append_assoc used (page ∷ []) pages in
    elim (take_page page p)
        as (λ o.
          Takes page p o
          → Ends seen limit (used ++ (page ∷ pages)) (elim o [
            | err e ↦ err e
            | ok (done h) ↦ ok (some h)
            | ok (more q) ↦ take_pages pages q
          ])) [
            | err e ↦ λ t. tt
            | ok (done h) ↦ λ t. done-IsCut seen limit used pages page p t.0 h f v t.1 t.2
            | ok (more q) ↦ λ t. elim t.2 [
              | inl (other, (begins, no_snapshot)) ↦
                  subst (λ all. Ends seen limit all (take_pages pages q)) whole_list
                    (Ends-skip seen limit front pages (take_pages pages q)
                      (used-EndsChanged used p.snapshot page t.0 f t.1 other)
                      (take_pages-Ends (seen + length front) limit [] pages q
                        (subst (Follows []) (sym no_snapshot) first) (restarted q begins)))
              | inr (same, (holds, snapshot)) ↦
                  subst (λ all. Ends seen limit all (take_pages pages q)) whole_list
                    (take_pages-Ends seen limit front pages q
                      (subst (Follows front) (sym snapshot) (
                        behind used page t.0 t.1
                          (used-IsStable used p.snapshot page t.0 f t.1 same)))
                      (more-Holds seen limit used page p q v holds))
            ]
          ]
      (take_page-Takes page p (v.counted ∙ ap byte_count (sym v.collected)))
  where
    restarted :
        (q : Preparation)
        → Holds p.max_bytes [] (p.page_count + 1) q
        → Holds limit [] (seen + length (used ++ (page ∷ [])) + 0) q
    restarted q w = record {
      collected = w.collected;
      counted = w.counted;
      limited = w.limited ∙ v.limited;
      numbered = omega (arith, w.numbered, v.numbered, length-append used (page ∷ []));
    }

-- A prepared history is cut from the pages that were fetched: it counts the pages up to the one at
-- which the preparation ended. If one of them changed the history, those up to the last that did are
-- skipped; none after it does. The history holds, in their order and each once, the chunks of all
-- those that are left, less none if it counts as complete, and else less at most an end of them whose
-- first chunk would exceed the limit on bytes. The page at which it ended has no successor, or the
-- chunks reach the limit.
pub prepare_history-IsCut :
    (start : Number) (max_bytes : Option Number) (pages : List Page) {h : Prepared}
    → prepare_history start max_bytes pages ≡ ok (some h)
    → IsCut 0 (positive_or default_max_bytes max_bytes) pages h
unfolding prepare_history begin_preparation
prepare_history-IsCut start max_bytes pages e =
    let limit = positive_or default_max_bytes max_bytes in
    subst (Ends 0 limit pages) e (
      then_cases (λ o. Ends 0 limit pages (o >>= take_pages pages)) (normalize_sequence start) _
        (λ t. tt)
        (λ requested n.
          take_pages-Ends 0 limit [] pages (begun requested limit) first
            (record { collected = refl; counted = refl; limited = refl; numbered = refl })))
