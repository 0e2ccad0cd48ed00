-- ===== src/Paged/Tests.antt =====
-- PagedTerminalOutputCoordinator.ts at concrete values.
use floeterm.Common.{
  ℕ, ◌≡◌, refl, arith, Bool, true, false, List, [], ◌∷◌, Option, none, some, All, leb, ltb,
  if◌then◌else◌,
}
use floeterm.Common.Number.{whole, safe_from}
use floeterm.Common.Fallible.{ok, err}
use floeterm.Pipeline.State.{Chunk}
use floeterm.Paged.History.{
  Page, Prepared, Outcome, normalize_sequence, required, normalize_chunk, or_else, other,
}
use floeterm.Paged.Preparation.{
  prepare_history, begin_preparation, take_pages, take_page, page_numbers, stable_page, check_page,
  check_chunks, settle_page, adopt_page, take_chunks, finish_page, prepared_of, positive_or,
  default_max_bytes,
}
use floeterm.Paged.Rounds.{IsWellFormed, prepare_history-IsWellFormed}
use floeterm.Paged.Cut.{IsCut}
use floeterm.Paged.Kept.{prepare_history-IsCut}
use floeterm.Paged.Termination.{prepare_history-ends}
use floeterm.Paged.Invariant.{IsCoherent}
use floeterm.Paged.Invariant.Reachable.{steps-IsCoherent}
use floeterm.Paged.Disposed.{dispose_is_final}
use floeterm.Paged.Merged.{last_with}
use floeterm.Paged.Replayed.{Rising, selected_entries_lem}
use floeterm.Paged.Batched.{joined, IsBatch, ordered_batches_lem}
use floeterm.Paged.State.{
  initial_replay, failed, disposed, fetching, from_live, from_history, of_chain, Tagged,
  Coordinator,
}
use floeterm.Paged.Attach.{dispose, check_prepared}
use floeterm.Paged.Refetched.{WaitsAt}
use floeterm.Paged.Retried.{failing, retries_end}
use floeterm.Paged.Resumed.{nothing_new, prepared_resume_refused}
use floeterm.Paged.Batches.{ordered_batches, selected_entries}
use floeterm.Common.Assoc.{lookup}
use floeterm.Paged.Events.{
  Event, begin_attach_call, complete_attach_call, push_live_call, chain_settled, job_started,
  fetch_answered, writer_returned, steps, construct, default_delays, PartialPolicy,
}

abbrev numbered : ℕ → List ℕ → Chunk
numbered n bytes = record { bytes = bytes; sequence = some (whole n); timestamp_ms = none }

abbrev live_item : ℕ → Tagged
live_item n = record { chunk = numbered n (b'l' ∷ []); source = from_live }

abbrev history_item : ℕ → Tagged
history_item n = record { chunk = numbered n (b'h' ∷ []); source = from_history }

abbrev page : List Chunk → (has_more : Bool) → Option ℕ → (coverage snapshot_end : ℕ) → Page
page chunks has_more cursor coverage snapshot_end = record {
  chunks = chunks;
  has_more = has_more;
  next_cursor = cursor;
  first_available_sequence = none;
  first_retained_sequence = some (whole 1);
  covered_through_sequence = some (whole coverage);
  snapshot_end_sequence = some (whole snapshot_end);
  history_generation = some (whole 7);
  history_reset = false;
  history_truncated = false;
}

abbrev two_pages : List Page
two_pages =
    page (numbered 1 (b'a' ∷ []) ∷ numbered 2 (b'b' ∷ []) ∷ []) true (some 5) 2 3
    ∷ page (numbered 3 (b'c' ∷ []) ∷ []) false none 3 3
    ∷ []

abbrev prepared : Outcome (Option Prepared)
prepared = prepare_history (whole 1) none two_pages

abbrev whole_bytes : Tagged → Option (List ℕ)
whole_bytes item = some item.chunk.bytes

abbrev no_policy : PartialPolicy
no_policy = record {
  max_retained_live_chunks = none;
  max_retained_live_bytes = none;
  retry_delays_ms = none;
  max_write_batch_bytes = none;
}

abbrev attached : List Event
attached =
    begin_attach_call 1
    ∷ complete_attach_call 1 (some (whole 3)) none
    ∷ push_live_call (numbered 4 (b'd' ∷ []))
    ∷ chain_settled
    ∷ fetch_answered
        (some (page (numbered 1 (b'a' ∷ []) ∷ numbered 2 (b'b' ∷ []) ∷ []) true (some 5) 2 3))
    ∷ fetch_answered (some (page (numbered 3 (b'c' ∷ []) ∷ []) false none 3 3))
    ∷ writer_returned true 0
    ∷ job_started
    ∷ writer_returned true 0
    ∷ []

abbrev after : Coordinator
after = steps whole_bytes attached (construct no_policy)

abbrev expected : Prepared
expected = record {
  chunks = numbered 1 (b'a' ∷ []) ∷ numbered 2 (b'b' ∷ []) ∷ numbered 3 (b'c' ∷ []) ∷ [];
  requested_start_sequence = whole 1;
  first_retained_sequence = whole 1;
  covered_through_sequence = whole 3;
  snapshot_end_sequence = whole 3;
  history_generation = whole 7;
  byte_length = whole 3;
  page_count = whole 2;
  complete = true;
}

prepares : prepare_history (whole 1) none two_pages ≡ ok (some expected)
unfolding prepare_history begin_preparation normalize_sequence take_pages take_page page_numbers
    required stable_page check_page check_chunks normalize_chunk settle_page adopt_page take_chunks
    finish_page prepared_of safe_from
prepares = refl

prepare_history-IsWellFormed_example : IsWellFormed (positive_or default_max_bytes none) expected
prepare_history-IsWellFormed_example =
    prepare_history-IsWellFormed (whole 1) none two_pages prepares

prepare_history-IsCut_example : IsCut 0 (positive_or default_max_bytes none) two_pages expected
prepare_history-IsCut_example = prepare_history-IsCut (whole 1) none two_pages prepares

abbrev one_page : Page
one_page = page (numbered 1 (b'a' ∷ []) ∷ []) true (some 5) 1 1

abbrev nine_pages : List Page
nine_pages =
    one_page ∷ one_page ∷ one_page ∷ one_page ∷ one_page ∷ one_page ∷ one_page ∷ one_page ∷ one_page
    ∷ []

prepare_history-ends_example : ¬ (prepare_history (whole 1) none nine_pages ≡ ok none)
prepare_history-ends_example =
    prepare_history-ends 1 (whole 1) none nine_pages
      (refl, (refl, (refl, (refl, (refl, (refl, (refl, (refl, (refl, tt))))))))) (omega arith)

steps-IsCoherent_example : IsCoherent (steps whole_bytes attached (construct no_policy))
steps-IsCoherent_example = steps-IsCoherent whole_bytes no_policy attached

abbrev late : Chunk
late = numbered 9 (b'z' ∷ [])

-- A coordinator in the midst of a recovery, with a live write under way.
abbrev busy : Coordinator
busy = record (construct no_policy) {
  state = initial_replay;
  recovery_running = true;
  recovery = some (record {
    serial = 1;
    stage = fetching;
    history_chunks = [];
    cursor = none;
    start_sequence = 1;
    snapshot_end = none;
    history_generation = none;
    covered_end = 0;
    first_page = true;
    prepared = none;
  });
  live_jobs = 1;
  pending_live_writes = live_item 4 ∷ [];
  writers = record { generation = 0; owner = of_chain; chunks = live_item 3 ∷ [] } ∷ [];
  baseline_waiters = 1;
}

is_alive : busy.disposed ≡ false
unfolding construct
is_alive = refl

abbrev afterwards : List Event
afterwards =
    push_live_call late
    ∷ job_started
    ∷ fetch_answered (some one_page)
    ∷ writer_returned true 0
    ∷ chain_settled
    ∷ []

dispose_is_final_example :
    (((steps whole_bytes afterwards (dispose busy)).log) ≡ ((dispose busy).log))
    × (((steps whole_bytes afterwards (dispose busy)).state) ≡ disposed)
    × (((steps whole_bytes afterwards (dispose busy)).recovery) ≡ none)
dispose_is_final_example = dispose_is_final whole_bytes afterwards busy is_alive

abbrev mixed : List Tagged
mixed = history_item 1 ∷ history_item 2 ∷ live_item 3 ∷ live_item 4 ∷ []

ordered_batches_lem_example :
    (joined (ordered_batches 1 mixed) ≡ mixed) × All (IsBatch 1) (ordered_batches 1 mixed)
ordered_batches_lem_example = ordered_batches_lem 1 mixed

abbrev history_items : List Tagged
history_items = history_item 1 ∷ history_item 2 ∷ history_item 3 ∷ []

abbrev retained_items : List Tagged
retained_items = live_item 4 ∷ live_item 3 ∷ []

selected_entries_lem_example :
    Rising (selected_entries 1 3 history_items retained_items)
    × (lookup 3 (selected_entries 1 3 history_items retained_items) ≡ (
        if leb 3 3
        then or_else
            (last_with 3 retained_items)
            (if ltb 1 3 then last_with 3 history_items else none)
        else none))
selected_entries_lem_example = selected_entries_lem 1 3 history_items retained_items 3

prepared_resume_refused_example :
    (h : Prepared) × (prepare_history (whole 5) none (nothing_new 3 ∷ []) ≡ ok (some h))
    × (h.complete ≡ true)
    × (check_prepared 5 4 h ≡ err other)
prepared_resume_refused_example = prepared_resume_refused 3 (omega arith)

-- The same recovery, with nothing being written.
abbrev fetching_only : Coordinator
fetching_only = record busy { live_jobs = 0; writers = [] }

waits : WaitsAt default_delays fetching 0 fetching_only
unfolding construct
waits = record {
  current = _;
  runs = refl;
  stands = refl;
  alive = refl;
  untimed = refl;
  jobless = refl;
  unwritten = refl;
  policed = refl;
  tried = refl;
}

retries_end_example :
    (((steps whole_bytes (failing 4) fetching_only).state) ≡ failed)
    × (((steps whole_bytes (failing 4) fetching_only).recovery) ≡ none)
    × (((steps whole_bytes (failing 4) fetching_only).retry_timer) ≡ false)
retries_end_example =
    retries_end whole_bytes default_delays 4 0 fetching_only waits (omega arith) (omega arith)
