-- ===== src/Paged/Resumed.antt =====
-- PagedTerminalOutputCoordinator.ts: a history that is prepared where there is nothing new.
use floeterm.Common.{ℕ, ◌+◌, ◌≤◌, ◌≡◌, refl, true, false, [], ◌∷◌, none, some, arith}
use floeterm.Common.Number.{whole, safe_from, safe_from_of, max_safe_integer}
use floeterm.Common.Fallible.{ok, err}
use floeterm.Paged.History.{Page, Prepared, other, normalize_sequence, required}
use floeterm.Paged.Preparation.{
  begin_preparation, page_numbers, check_page, check_chunks, adopt_page, take_chunks, prepared_of,
  finish_page, settle_page, stable_page, take_page, take_pages, prepare_history,
}
use floeterm.Paged.Attach.{check_prepared_chunks, check_prepared}

normalize_whole : (n : ℕ) → n ≤ max_safe_integer → normalize_sequence (whole n) ≡ ok n
unfolding normalize_sequence
normalize_whole n h = ground (arith, safe_from_of 0 n)

-- The answer where everything up to `n + 1` is retained and known, and nothing follows.
abbrev pub nothing_new : ℕ → Page
nothing_new n = record {
  chunks = [];
  has_more = false;
  next_cursor = none;
  first_available_sequence = none;
  first_retained_sequence = some (whole 1);
  covered_through_sequence = some (whole (n + 1));
  snapshot_end_sequence = some (whole (n + 1));
  history_generation = some (whole 1);
  history_reset = false;
  history_truncated = false;
}

abbrev pub empty_history : ℕ → Prepared
empty_history n = record {
  chunks = [];
  requested_start_sequence = whole (n + 2);
  first_retained_sequence = whole 1;
  covered_through_sequence = whole (n + 1);
  snapshot_end_sequence = whole (n + 1);
  history_generation = whole 1;
  byte_length = whole 0;
  page_count = whole 1;
  complete = true;
}

refused :
    (n : ℕ)
    → n + 2 ≤ max_safe_integer
    → check_prepared (n + 2) (n + 1) (empty_history n) ≡ err other
unfolding check_prepared check_prepared_chunks normalize_sequence safe_from
refused n h = ground arith

prepared :
    (n : ℕ)
    → n + 2 ≤ max_safe_integer
    → prepare_history (whole (n + 2)) none (nothing_new n ∷ []) ≡ ok (some (empty_history n))
unfolding prepare_history begin_preparation take_pages take_page page_numbers required
    normalize_sequence safe_from stable_page check_page check_chunks adopt_page settle_page
    take_chunks finish_page prepared_of
prepared n h = ground arith

-- A history that is prepared to go on from `n + 2`, where everything before is retained and nothing
-- is new, is complete and covers everything up to `n + 1`; the coordinator that attaches at `n + 2`
-- with that end refuses it all the same.
pub prepared_resume_refused :
    (n : ℕ)
    → n + 2 ≤ max_safe_integer
    → (h : Prepared) × (prepare_history (whole (n + 2)) none (nothing_new n ∷ []) ≡ ok (some h))
      × (h.complete ≡ true)
      × (check_prepared (n + 2) (n + 1) h ≡ err other)
prepared_resume_refused n h = (empty_history n, prepared n h, refl, refused n h)
