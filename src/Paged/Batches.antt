-- ===== src/Paged/Batches.antt =====
-- PagedTerminalOutputCoordinator.ts: which chunks a recovery replays, and how they and live output are
-- cut into batches and written. `transform` is `transformChunk`.
use floeterm.Common.{
  ℕ, ◌+◌, max, Bool, true, false, ◌&&◌, ◌||◌, not, List, [], ◌∷◌, ◌++◌, Option, none, some, ltb,
  leb, if◌then◌else◌,
}
use floeterm.Common.Assoc.{insert}
use floeterm.Paged.State.{
  Source, from_history, from_live, Tagged, Coordinator, Owner, written, size, sizes, sequence_of,
  emit,
}
use floeterm.Paged.Live.{is_empty}

abbrev pub same_source : Source → Source → Bool
same_source from_history from_history = true
same_source from_live from_live = true
same_source _ _ = false

-- The loop of `writeOrdered`: the batches that it flushes. `source` is that of the batch, if it has a
-- chunk.
unfoldable pub batches_of :
    (max_bytes : ℕ) → List Tagged → (batch : List Tagged) → Source → List (List Tagged)
batches_of max_bytes [] batch source = if is_empty batch then [] else batch ∷ []
batches_of max_bytes (item ∷ items) batch source =
    let flushed = batch ∷ batches_of max_bytes items (item ∷ []) item.source in
    let joined = batches_of max_bytes items (batch ++ (item ∷ [])) item.source in
    if not (is_empty batch)
      && (not (same_source item.source source) || ltb max_bytes (sizes batch + size item))
    then flushed
    else joined

unfoldable pub ordered_batches : (max_bytes : ℕ) → List Tagged → List (List Tagged)
unfolding batches_of
ordered_batches max_bytes items = batches_of max_bytes items [] from_live

abbrev pub with_bytes : Tagged → List ℕ → Tagged
with_bytes item bytes = record item {
  chunk = record {
    bytes = bytes;
    sequence = item.chunk.sequence;
    timestamp_ms = item.chunk.timestamp_ms;
  };
}

abbrev pub keep : Tagged → Option (List ℕ) → List Tagged → List Tagged
keep item none items = items
keep item (some bytes) items = with_bytes item bytes ∷ items

module _ (transform : Tagged → Option (List ℕ)) where
  -- The chunks of a batch that are not transformed to nothing, with their data.
  unfoldable pub transformed : List Tagged → List Tagged
  transformed [] = []
  transformed (item ∷ items) = keep item (transform item) (transformed items)

abbrev pub data_of : List Tagged → List ℕ
data_of [] = []
data_of (item ∷ items) = item.chunk.bytes ++ data_of items

abbrev pub source_of : List Tagged → Source
source_of [] = from_live
source_of (item ∷ items) = item.source

-- The call of a writer.
unfoldable pub invoke_writer : Owner → Source → List Tagged → Coordinator → Coordinator
unfolding emit
invoke_writer owner source items c = emit (written source (data_of items)) (record c {
  writers = c.writers ++ (record { generation = c.generation; owner = owner; chunks = items } ∷ []);
})

module _ (transform : Tagged → Option (List ℕ)) where
  -- Flushes up to the next call of a writer, with the batches that are left then: `none` if there
  -- was none to call it for.
  unfoldable pub flush_batches :
      Owner → List (List Tagged) → Coordinator → Coordinator × Option (List (List Tagged))
  unfolding transformed invoke_writer
  flush_batches owner [] c = (c, none)
  flush_batches owner (batch ∷ batches) c =
      let items = transformed transform batch in
      let rest = flush_batches owner batches c in
      if is_empty items then rest else (invoke_writer owner (source_of batch) items c, some batches)

abbrev pub raise_to : Option ℕ → Coordinator → Coordinator
raise_to none c = c
raise_to (some n) c = record c {
  covered_through = max c.covered_through n;
  scheduled_through = max c.scheduled_through n;
}

-- After a writer has returned.
unfoldable pub cover : List Tagged → Coordinator → Coordinator
unfolding sequence_of
cover [] c = c
cover (item ∷ items) c = cover items (raise_to (sequence_of item) c)

-- The chunks of history with a sequence, a later one in place of an earlier one.
unfoldable pub select_history :
    (covered covered_end : ℕ) → List Tagged → List (ℕ × Tagged) → List (ℕ × Tagged)
unfolding sequence_of
select_history covered covered_end [] selected = selected
select_history covered covered_end (item ∷ items) selected =
    select_history covered covered_end items (elim (sequence_of item) [
      | none ↦ selected
      | some n ↦ if ltb covered n && leb n covered_end then insert n item selected else selected
    ])

unfoldable pub unsequenced_of : List Tagged → List Tagged
unfolding sequence_of
unsequenced_of [] = []
unsequenced_of (item ∷ items) = elim (sequence_of item) [
  | none ↦ item ∷ unsequenced_of items
  | some n ↦ unsequenced_of items
]

abbrev pub is_covered : (covered_end : ℕ) → Tagged → Bool
is_covered covered_end item = elim (sequence_of item) [ none ↦ false | some n ↦ leb n covered_end ]

-- A live copy takes the place of one from history.
unfoldable pub select_live : (covered_end : ℕ) → List Tagged → List (ℕ × Tagged) → List (ℕ × Tagged)
unfolding sequence_of
select_live covered_end [] selected = selected
select_live covered_end (item ∷ items) selected =
    select_live covered_end items (elim (sequence_of item) [
      | none ↦ selected
      | some n ↦ if leb n covered_end then insert n item selected else selected
    ])

unfoldable pub remaining_of : (covered_end : ℕ) → List Tagged → List Tagged
remaining_of covered_end [] = []
remaining_of covered_end (item ∷ items) =
    if is_covered covered_end item
    then remaining_of covered_end items
    else item ∷ remaining_of covered_end items

unfoldable pub insert_entry : ℕ × Tagged → List (ℕ × Tagged) → List (ℕ × Tagged)
insert_entry entry [] = entry ∷ []
insert_entry entry (next ∷ entries) =
    if leb entry.0 next.0 then entry ∷ (next ∷ entries) else next ∷ insert_entry entry entries

unfoldable pub sort_entries : List (ℕ × Tagged) → List (ℕ × Tagged)
unfolding insert_entry
sort_entries [] = []
sort_entries (entry ∷ entries) = insert_entry entry (sort_entries entries)

abbrev pub items_of : List (ℕ × Tagged) → List Tagged
items_of [] = []
items_of (entry ∷ entries) = entry.1 ∷ items_of entries

unfoldable pub selected_entries :
    (covered covered_end : ℕ) → (history retained : List Tagged) → List (ℕ × Tagged)
unfolding select_history select_live sort_entries
selected_entries covered covered_end history retained =
    sort_entries (select_live covered_end retained (select_history covered covered_end history []))

-- What `mergeRecoveryChunks` returns, and what it leaves retained.
unfoldable pub merge_recovery_chunks :
    List Tagged → (covered_end : ℕ) → Coordinator → List Tagged × Coordinator
unfolding selected_entries unsequenced_of remaining_of
merge_recovery_chunks history covered_end c = (
  items_of (selected_entries c.covered_through covered_end history c.retained_live)
      ++ unsequenced_of history,
  record c {
    retained_live = remaining_of covered_end c.retained_live;
    retained_live_bytes = sizes (remaining_of covered_end c.retained_live);
  },
)
