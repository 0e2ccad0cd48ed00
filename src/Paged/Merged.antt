-- ===== src/Paged/Merged.antt =====
-- PagedTerminalOutputCoordinator.ts: what a recovery replays.
use floeterm.Common.{
  ℕ, ◌≡◌, refl, ◌∙◌, false, ◌&&◌, List, [], ◌∷◌, Option, none, some, ltb, leb, ◌==◌, if◌then◌else◌,
  if_cases, arith,
}
use floeterm.Common.Assoc.{lookup, has, insert, has-insert}
use floeterm.Paged.History.{or_else}
use floeterm.Paged.State.{Tagged, sequence_of}
use floeterm.Paged.Batches.{select_history, select_live}

-- The last of some chunks that has the sequence, if there is one.
abbrev pub last_with : ℕ → List Tagged → Option Tagged
last_with n [] = none
last_with n (item ∷ items) =
    or_else (last_with n items)
      (elim (sequence_of item) [ none ↦ none | some m ↦ if m == n then some item else none ])

abbrev pub Keyed : List (ℕ × Tagged) → Type 0
Keyed [] = Unit
Keyed (entry ∷ entries) = (has (entry.0) entries ≡ false) × Keyed entries

lookup-insert :
    (k j : ℕ) (v : Tagged) (m : List (ℕ × Tagged))
    → lookup j (insert k v m) ≡ (if k == j then some v else lookup j m)
unfolding lookup insert
lookup-insert k j v [] = ground arith
lookup-insert k j v ((i, w) ∷ m) = ground (arith, lookup-insert k j v m)

insert-Keyed : (k : ℕ) (v : Tagged) (m : List (ℕ × Tagged)) → Keyed m → Keyed (insert k v m)
unfolding insert has
insert-Keyed k v [] h = (refl, tt)
insert-Keyed k v ((i, w) ∷ m) h =
    if_cases Keyed (i == k) (λ same. ground (arith, h))
      (λ differs. (has-insert k i v m ∙ ground (arith, h.0), insert-Keyed k v m h.1))

-- What was selected last for a sequence is found.
pub select_history-lookup :
    (covered covered_end n : ℕ) (items : List Tagged) (m : List (ℕ × Tagged))
    → lookup n (select_history covered covered_end items m) ≡ (
        if ltb covered n && leb n covered_end
        then or_else (last_with n items) (lookup n m)
        else lookup n m)
unfolding select_history
select_history-lookup covered covered_end n [] m = ground arith
select_history-lookup covered covered_end n (item ∷ items) m =
    elim (sequence_of item)
      as (λ o.
        lookup n (
          select_history covered covered_end items (elim o [
            | none ↦ m
            | some k ↦ if ltb covered k && leb k covered_end then insert k item m else m
          ]))
        ≡ (if ltb covered n && leb n covered_end
            then or_else
                (or_else (last_with n items)
                  (elim o [ none ↦ none | some k ↦ if k == n then some item else none ]))
                (lookup n m)
            else lookup n m)) [
              | none ↦ ground (arith, select_history-lookup covered covered_end n items m)
              | some k ↦
                  if_cases
                    (λ q. lookup n (select_history covered covered_end items q) ≡ (
                      if ltb covered n && leb n covered_end
                      then or_else
                          (or_else (last_with n items) (if k == n then some item else none))
                          (lookup n m)
                      else lookup n m))
                    (ltb covered k && leb k covered_end)
                    (λ taken. ground (
                      arith,
                      select_history-lookup covered covered_end n items (insert k item m),
                      lookup-insert k n item m,
                    ))
                    (λ skipped. ground (arith, select_history-lookup covered covered_end n items m))
            ]

pub select_live-lookup :
    (covered_end n : ℕ) (items : List Tagged) (m : List (ℕ × Tagged))
    → lookup n (select_live covered_end items m)
      ≡ (if leb n covered_end then or_else (last_with n items) (lookup n m) else lookup n m)
unfolding select_live
select_live-lookup covered_end n [] m = ground arith
select_live-lookup covered_end n (item ∷ items) m =
    elim (sequence_of item)
      as (λ o.
        lookup n (
          select_live covered_end items
            (elim o [ none ↦ m | some k ↦ if leb k covered_end then insert k item m else m ]))
        ≡ (if leb n covered_end
            then or_else
                (or_else (last_with n items)
                  (elim o [ none ↦ none | some k ↦ if k == n then some item else none ]))
                (lookup n m)
            else lookup n m)) [
              | none ↦ ground (arith, select_live-lookup covered_end n items m)
              | some k ↦
                  if_cases
                    (λ q. lookup n (select_live covered_end items q) ≡ (
                      if leb n covered_end
                      then or_else
                          (or_else (last_with n items) (if k == n then some item else none))
                          (lookup n m)
                      else lookup n m))
                    (leb k covered_end)
                    (λ taken. ground (
                      arith,
                      select_live-lookup covered_end n items (insert k item m),
                      lookup-insert k n item m,
                    ))
                    (λ skipped. ground (arith, select_live-lookup covered_end n items m))
            ]

pub select_history-Keyed :
    (covered covered_end : ℕ) (items : List Tagged) (m : List (ℕ × Tagged))
    → Keyed m
    → Keyed (select_history covered covered_end items m)
unfolding select_history
select_history-Keyed covered covered_end [] m h = h
select_history-Keyed covered covered_end (item ∷ items) m h =
    select_history-Keyed covered covered_end items _
      (elim (sequence_of item)
        as (λ o. Keyed (elim o [
          | none ↦ m
          | some k ↦ if ltb covered k && leb k covered_end then insert k item m else m
        ])) [
          | none ↦ h
          | some k ↦
              if_cases Keyed (ltb covered k && leb k covered_end) (λ taken. insert-Keyed k item m h)
                (λ skipped. h)
        ])

pub select_live-Keyed :
    (covered_end : ℕ) (items : List Tagged) (m : List (ℕ × Tagged))
    → Keyed m
    → Keyed (select_live covered_end items m)
unfolding select_live
select_live-Keyed covered_end [] m h = h
select_live-Keyed covered_end (item ∷ items) m h =
    select_live-Keyed covered_end items _
      (elim (sequence_of item)
        as (λ o.
          Keyed (elim o [ none ↦ m | some k ↦ if leb k covered_end then insert k item m else m ])) [
            | none ↦ h
            | some k ↦
                if_cases Keyed (leb k covered_end) (λ taken. insert-Keyed k item m h) (λ skipped. h)
          ])
