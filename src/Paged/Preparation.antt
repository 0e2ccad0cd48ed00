-- ===== src/Paged/Preparation.antt =====
-- PagedTerminalOutputCoordinator.ts: `preparePagedTerminalHistory`. Its loop is run over the pages
-- that the calls of `fetchPage` answer with; abort signals and pauses between pages are left out.
use floeterm.Common.{
  ℕ, ◌+◌, ◌-◌, max, Bool, false, ◌&&◌, ◌||◌, not, List, [], ◌∷◌, ◌++◌, Option, none, some, length,
  ltb, leb, ◌==◌, if◌then◌else◌,
}
use floeterm.Common.Number.{Number, whole, safe_from}
use floeterm.Common.Fallible.{ok, err, ◌>>=◌, ◌>>◌, guard}
use floeterm.Pipeline.State.{Chunk}
use floeterm.Paged.History.{
  Page, Prepared, Outcome, missing, invalid, normalize_sequence, normalize_chunk, required, or_else,
  byte_count,
}

abbrev pub default_max_bytes : ℕ
default_max_bytes = 33_554_432

-- The variables of the loop. The three that are set together after a page are one option.
pub record Snapshot : Type 0 where
  pub generation : ℕ
  pub end_sequence : ℕ
  pub first_retained : ℕ

pub record Preparation : Type 0 where
  pub max_bytes : ℕ
  pub requested_start : ℕ
  pub start_sequence : ℕ
  pub cursor : Option ℕ
  pub snapshot : Option Snapshot
  pub covered_through : ℕ
  pub byte_length : ℕ
  pub page_count : ℕ
  pub chunks : List Chunk
  pub rebase_attempts : ℕ

abbrev pub positive_or : ℕ → Option Number → ℕ
positive_or fallback none = fallback
positive_or fallback (some value) = elim (safe_from 1 value) [ none ↦ fallback | some n ↦ n ]

-- The variables up to the loop.
abbrev pub begun : (requested max_bytes : ℕ) → Preparation
begun requested max_bytes = record {
  max_bytes = max_bytes;
  requested_start = requested;
  start_sequence = max 1 requested;
  cursor = none;
  snapshot = none;
  covered_through = max 1 requested - 1;
  byte_length = 0;
  page_count = 0;
  chunks = [];
  rebase_attempts = 0;
}

unfoldable pub begin_preparation : Number → Option Number → Outcome Preparation
begin_preparation start max_bytes = do
  requested ← normalize_sequence start
  ok (begun requested (positive_or default_max_bytes max_bytes))

-- The numbers of a page, in the order in which the checks throw.
pub record PageNumbers : Type 0 where
  pub coverage : ℕ
  pub snapshot_end : ℕ
  pub generation : ℕ
  pub first_retained : ℕ

abbrev pub present : Option Number → Outcome (Unit {0})
present none = err missing
present (some value) = ok tt

unfoldable pub page_numbers : Page → Outcome PageNumbers
page_numbers page = do
  present page.covered_through_sequence
  present page.snapshot_end_sequence
  present page.history_generation
  present (or_else page.first_retained_sequence page.first_available_sequence)
  coverage ← required page.covered_through_sequence
  snapshot_end ← required page.snapshot_end_sequence
  generation ← required page.history_generation
  first_retained ← required (or_else page.first_retained_sequence page.first_available_sequence)
  ok (record {
    coverage = coverage;
    snapshot_end = snapshot_end;
    generation = generation;
    first_retained = first_retained;
  })

-- The history has changed since the snapshot was taken.
abbrev pub has_changed : Page → PageNumbers → Option Snapshot → Bool
has_changed page n none = false
has_changed page n (some s) =
    page.history_reset
    || page.history_truncated
    || not (n.generation == s.generation)
    || not (n.snapshot_end == s.end_sequence)
    || ltb s.first_retained n.first_retained

unfoldable pub rebase : ℕ → Preparation → Preparation
rebase first_retained p = record p {
  start_sequence = max 1 first_retained;
  cursor = none;
  snapshot = none;
  covered_through = max 1 first_retained - 1;
  byte_length = 0;
  chunks = [];
  rebase_attempts = p.rebase_attempts + 1;
}

-- The check of the chunks' sequences, with the last one.
unfoldable pub check_chunks : (previous coverage : ℕ) → List Chunk → Outcome ℕ
check_chunks previous coverage [] = ok previous
check_chunks previous coverage (c ∷ cs) = do
  sequence ← normalize_chunk c.sequence
  guard (not (leb sequence previous || ltb coverage sequence)) invalid
  check_chunks sequence coverage cs

unfoldable pub check_page : Page → PageNumbers → Preparation → Outcome (Unit {0})
unfolding check_chunks
check_page page n p = do
  guard (not (ltb n.coverage p.covered_through)) invalid
  guard (not (ltb n.snapshot_end n.coverage)) invalid
  last ← check_chunks p.covered_through n.coverage page.chunks
  guard (not (ltb (n.first_retained - 1) n.coverage && not (last == n.coverage))) invalid

-- After the checks: the snapshot is taken, and what is not retained any more counts as covered.
unfoldable pub adopt_page : PageNumbers → Preparation → Preparation
adopt_page n p = record p {
  snapshot = some (record {
    generation = n.generation;
    end_sequence = n.snapshot_end;
    first_retained = n.first_retained;
  });
  covered_through =
      if ltb p.start_sequence n.first_retained
      then max p.covered_through (n.first_retained - 1)
      else p.covered_through;
}

unfoldable pub prepared_of : (complete : Bool) → PageNumbers → Preparation → Prepared
prepared_of complete n p = record {
  chunks = p.chunks;
  requested_start_sequence = whole p.requested_start;
  first_retained_sequence = whole n.first_retained;
  covered_through_sequence = whole p.covered_through;
  snapshot_end_sequence = whole n.snapshot_end;
  history_generation = whole n.generation;
  byte_length = whole p.byte_length;
  page_count = whole p.page_count;
  complete = complete;
}

-- The chunks of a page that is too large, as far as they fit.
unfoldable pub take_fitting : List Chunk → Preparation → Outcome Preparation
take_fitting [] p = ok p
take_fitting (c ∷ cs) p = do
  sequence ← normalize_chunk c.sequence
  let fits = not (ltb p.max_bytes (p.byte_length + length c.bytes))
  let rest = take_fitting cs (record p {
    chunks = p.chunks ++ c ∷ [];
    byte_length = p.byte_length + length c.bytes;
    covered_through = max p.covered_through sequence;
  })
  if fits then rest else ok p

-- A round of the loop ends the preparation, or goes on to the next page.
pub data Round : Type 0 where
  done : Prepared → Round
  more : Preparation → Round

unfoldable pub take_chunks : Page → PageNumbers → Preparation → Preparation
take_chunks page n p = record p {
  chunks = p.chunks ++ page.chunks;
  byte_length = p.byte_length + byte_count page.chunks;
  covered_through = max p.covered_through n.coverage;
}

abbrev pub next_page : Option ℕ → PageNumbers → Preparation → Outcome Round
next_page none n p = err invalid
next_page (some cursor) n p =
    ok (more (record p { cursor = some cursor; start_sequence = n.coverage + 1 }))

-- The whole page has been taken.
unfoldable pub finish_page : Page → PageNumbers → Preparation → Outcome Round
unfolding prepared_of
finish_page page n p =
    if not page.has_more
    then ok (done (prepared_of (leb n.snapshot_end p.covered_through) n p))
    else if leb p.max_bytes p.byte_length
    then ok (done (prepared_of false n p))
    else next_page page.next_cursor n p

unfoldable pub partial_page : Page → PageNumbers → Preparation → Outcome Round
unfolding take_fitting prepared_of
partial_page page n p = do q ← take_fitting page.chunks p; ok (done (prepared_of false n q))

-- The page is taken whole if it fits.
unfoldable pub settle_page : Page → PageNumbers → Preparation → Outcome Round
unfolding take_chunks finish_page partial_page
settle_page page n p =
    if leb (p.byte_length + byte_count page.chunks) p.max_bytes
    then finish_page page n (take_chunks page n p)
    else partial_page page n p

unfoldable pub stable_page : Page → PageNumbers → Preparation → Outcome Round
unfolding check_page adopt_page settle_page
stable_page page n p = do check_page page n p; settle_page page n (adopt_page n p)

unfoldable pub changed_page : PageNumbers → Preparation → Outcome Round
unfolding rebase
changed_page n p = do
  guard (not (leb 2 p.rebase_attempts)) invalid
  ok (more (rebase n.first_retained p))

unfoldable pub take_page : Page → Preparation → Outcome Round
unfolding page_numbers stable_page changed_page
take_page page p0 = do
  let p = record p0 { page_count = p0.page_count + 1 }
  n ← page_numbers page
  if has_changed page n p.snapshot then changed_page n p else stable_page page n p

-- The loop over the pages: `none` if they end before it does.
unfoldable pub take_pages : List Page → Preparation → Outcome (Option Prepared)
unfolding take_page
take_pages [] p = ok none
take_pages (page ∷ pages) p = elim (take_page page p) [
  | err e ↦ err e
  | ok (done prepared) ↦ ok (some prepared)
  | ok (more q) ↦ take_pages pages q
]

unfoldable pub prepare_history : Number → Option Number → List Page → Outcome (Option Prepared)
unfolding begin_preparation take_pages
prepare_history start max_bytes pages = do p ← begin_preparation start max_bytes; take_pages pages p
