-- ===== src/Paged/Replayed.antt =====
-- PagedTerminalOutputCoordinator.ts: what a recovery replays, in its order.
use floeterm.Common.{
  ℕ, ◌≤◌, ◌<◌, ◌≡◌, refl, ap, ◌∙◌, Bool, true, false, ◌&&◌, List, [], ◌∷◌, Option, none, some, ltb,
  leb, ◌==◌, if◌then◌else◌, if_cases, arith, All,
}
use floeterm.Common.Assoc.{lookup, has}
use floeterm.Paged.History.{or_else}
use floeterm.Paged.State.{Tagged}
use floeterm.Paged.Batches.{
  select_history, select_live, insert_entry, sort_entries, selected_entries,
}
use floeterm.Paged.Merged.{
  last_with, Keyed, select_history-lookup, select_live-lookup, select_history-Keyed,
  select_live-Keyed,
}

-- The keys of entries rise strictly.
abbrev pub Rising : List (ℕ × Tagged) → Type 0
Rising [] = Unit
Rising (entry ∷ entries) = All (λ next. entry.0 < next.0) entries × Rising entries

-- The sort keeps what is found, and the keys rise.
insert_entry-All :
    (low : ℕ) (entry : ℕ × Tagged) (entries : List (ℕ × Tagged))
    → low < entry.0
    → All (λ next. low < next.0) entries
    → All (λ next. low < next.0) (insert_entry entry entries)
unfolding insert_entry
insert_entry-All low entry [] h a = (h, tt)
insert_entry-All low entry (next ∷ entries) h a =
    if_cases (All (λ next. low < next.0)) (leb (entry.0) (next.0)) (λ first. (h, a))
      (λ later. (a.0, insert_entry-All low entry entries h a.1))

All-weaken :
    (low high : ℕ) (entries : List (ℕ × Tagged))
    → low ≤ high
    → All (λ next. high < next.0) entries
    → All (λ next. low < next.0) entries
All-weaken low high [] h a = tt
All-weaken low high (next ∷ entries) h a = (omega (arith, a.0), All-weaken low high entries h a.1)

insert_entry-Rising :
    (entry : ℕ × Tagged) (entries : List (ℕ × Tagged))
    → has (entry.0) entries ≡ false
    → Rising entries
    → Rising (insert_entry entry entries)
unfolding insert_entry has
insert_entry-Rising entry [] h r = (tt, tt)
insert_entry-Rising entry (next ∷ entries) h r =
    if_cases Rising (leb (entry.0) (next.0))
      (λ first.
        let below : entry.0 < next.0 = ground (arith, h) in
        ((below, All-weaken (entry.0) (next.0) entries (omega (arith, below)) r.0), r))
      (λ later. (
        insert_entry-All (next.0) entry entries (ground arith) r.0,
        insert_entry-Rising entry entries (ground (arith, h)) r.1,
      ))

insert_entry-lookup :
    (n : ℕ) (entry : ℕ × Tagged) (entries : List (ℕ × Tagged))
    → has (entry.0) entries ≡ false
    → lookup n (insert_entry entry entries)
      ≡ (if entry.0 == n then some (entry.1) else lookup n entries)
unfolding insert_entry has lookup
insert_entry-lookup n entry [] h = refl
insert_entry-lookup n entry (next ∷ entries) h = ground (arith, insert_entry-lookup n entry entries)

insert_entry-has :
    (n : ℕ) (entry : ℕ × Tagged) (entries : List (ℕ × Tagged))
    → has n (insert_entry entry entries) ≡ (if entry.0 == n then true else has n entries)
unfolding insert_entry has
insert_entry-has n entry [] = refl
insert_entry-has n entry (next ∷ entries) = ground (arith, insert_entry-has n entry entries)

sort_entries-has :
    (n : ℕ) (entries : List (ℕ × Tagged)) → has n (sort_entries entries) ≡ has n entries
unfolding sort_entries has
sort_entries-has n [] = refl
sort_entries-has n (entry ∷ entries) =
    ground (arith, insert_entry-has n entry (sort_entries entries), sort_entries-has n entries)

sort_entries-Rising : (entries : List (ℕ × Tagged)) → Keyed entries → Rising (sort_entries entries)
unfolding sort_entries
sort_entries-Rising [] h = tt
sort_entries-Rising (entry ∷ entries) h =
    insert_entry-Rising entry (sort_entries entries) (sort_entries-has (entry.0) entries ∙ h.0)
      (sort_entries-Rising entries h.1)

sort_entries-lookup :
    (n : ℕ) (entries : List (ℕ × Tagged))
    → Keyed entries
    → lookup n (sort_entries entries) ≡ lookup n entries
unfolding sort_entries lookup
sort_entries-lookup n [] h = refl
sort_entries-lookup n (entry ∷ entries) h =
    insert_entry-lookup n entry (sort_entries entries) (sort_entries-has (entry.0) entries ∙ h.0)
    ∙ ap (λ o. if entry.0 == n then some (entry.1) else o) (sort_entries-lookup n entries h.1)

-- Live output goes before history.
under_end :
    (ends starts : Bool) (live history found : Option Tagged)
    → found ≡ (if starts && ends then or_else history none else none)
    → (if ends then or_else live found else found)
      ≡ (if ends then or_else live (if starts then history else none) else none)
under_end true true live none found e = ap (or_else live) e
under_end true true live (some h) found e = ap (or_else live) e
under_end true false live history found e = ap (or_else live) e
under_end false true live history found e = e
under_end false false live history found e = e

-- A recovery replays its numbered chunks in strictly rising order, and for a sequence up to the end of
-- its coverage exactly the last live chunk that was retained for it, or else, where the sequence is
-- not covered already, the last one that history holds; for a sequence beyond, none.
pub selected_entries_lem :
    (covered covered_end : ℕ) (history retained : List Tagged) (n : ℕ)
    → Rising (selected_entries covered covered_end history retained)
      × (lookup n (selected_entries covered covered_end history retained) ≡ (
          if leb n covered_end
          then or_else (last_with n retained) (if ltb covered n then last_with n history else none)
          else none))
unfolding selected_entries lookup
selected_entries_lem covered covered_end history retained n =
    let from_history = select_history covered covered_end history [] in
    let found =
      select_live-lookup covered_end n retained from_history
      ∙ under_end (leb n covered_end) (ltb covered n) (last_with n retained) (last_with n history) _
          (select_history-lookup covered covered_end n history []) in
    let k : Keyed (select_live covered_end retained from_history) =
      select_live-Keyed covered_end retained from_history
        (select_history-Keyed covered covered_end history [] tt) in
    (sort_entries-Rising _ k, sort_entries-lookup n _ k ∙ found)
