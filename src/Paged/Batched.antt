-- ===== src/Paged/Batched.antt =====
-- PagedTerminalOutputCoordinator.ts: the batches that output is written in.
use floeterm.Common.{
  ℕ, ◌+◌, ◌≤◌, ◌≡◌, ◌⊎◌, inl, inr, refl, ap, ◌∙◌, true, ◌||◌, not, List, [], ◌∷◌, ◌++◌,
  append_assoc, ltb, if_cases, arith, All, All-append,
}
use floeterm.Paged.State.{Source, from_history, from_live, Tagged, size, sizes}
use floeterm.Paged.Batches.{same_source, batches_of, ordered_batches}
use floeterm.Paged.Invariant.{sizes-append}

abbrev pub joined : List (List Tagged) → List Tagged
joined [] = []
joined (batch ∷ batches) = batch ++ joined batches

-- A batch has a chunk, all of its chunks are of one source, and it is within the limit or has one
-- chunk only.
pub record IsBatch (max_bytes : ℕ) (batch : List Tagged) : Type 0 where
  pub first : Tagged
  pub rest : List Tagged
  pub shape : batch ≡ first ∷ rest
  pub same : All (λ item. item.source ≡ first.source) rest
  pub fits : (rest ≡ []) ⊎ (sizes batch ≤ max_bytes)

same_source-eq : (a b : Source) → same_source a b ≡ true → a ≡ b
same_source-eq from_history from_history h = refl
same_source-eq from_live from_live h = refl
same_source-eq from_history from_live h = cc
same_source-eq from_live from_history h = cc

-- What `batches_of` makes of what it has and what comes.
record AreBatches (max_bytes : ℕ) (items : List Tagged) (batches : List (List Tagged))
    : Type 0 where
  whole : joined batches ≡ items
  good : All (IsBatch max_bytes) batches

module _ (max_bytes : ℕ) where
  batches_of-AreBatches :
      (items : List Tagged) (first : Tagged) (rest : List Tagged) (source : Source)
      → source ≡ first.source
      → All (λ item. item.source ≡ first.source) rest
      → (rest ≡ []) ⊎ (sizes (first ∷ rest) ≤ max_bytes)
      → AreBatches max_bytes
          ((first ∷ rest) ++ items)
          (batches_of max_bytes items (first ∷ rest) source)
  unfolding batches_of
  batches_of-AreBatches [] first rest source s a f = record {
    whole = refl;
    good = (record { first = first; rest = rest; shape = refl; same = a; fits = f }, tt);
  }
  batches_of-AreBatches (item ∷ items) first rest source s a f =
      if_cases (AreBatches max_bytes ((first ∷ rest) ++ (item ∷ items)))
        (not (same_source item.source source) || ltb max_bytes (sizes (first ∷ rest) + size item))
        (λ flushes.
          let v = batches_of-AreBatches items item [] item.source refl tt (inl refl) in
          record {
            whole = ap (λ more. (first ∷ rest) ++ more) v.whole;
            good =
                (record { first = first; rest = rest; shape = refl; same = a; fits = f }, v.good);
          })
        (λ joins.
          let e : item.source ≡ first.source =
            same_source-eq item.source source (ground (arith, joins)) ∙ s in
          let v =
            batches_of-AreBatches items first (rest ++ (item ∷ [])) item.source e
              (All-append (λ item. item.source ≡ first.source) rest (item ∷ []) a (e, tt))
              (inr (ground (arith, joins, sizes-append rest (item ∷ [])))) in
          record { whole = v.whole ∙ append_assoc (first ∷ rest) (item ∷ []) items; good = v.good })

  all_batches : (items : List Tagged) → AreBatches max_bytes items (ordered_batches max_bytes items)
  unfolding ordered_batches batches_of
  all_batches [] = record { whole = refl; good = tt }
  all_batches (item ∷ items) = batches_of-AreBatches items item [] item.source refl tt (inl refl)

-- Output is cut into batches that make up all of it in its order; each has a chunk, is of history or
-- of live output only, and has no more bytes than the policy's limit, unless it is a single chunk.
pub ordered_batches_lem :
    (max_bytes : ℕ) (items : List Tagged)
    → (joined (ordered_batches max_bytes items) ≡ items)
      × All (IsBatch max_bytes) (ordered_batches max_bytes items)
ordered_batches_lem max_bytes items = let v = all_batches max_bytes items in (v.whole, v.good)
