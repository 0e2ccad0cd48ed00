-- ===== src/Paged/Pages.antt =====
-- PagedTerminalOutputCoordinator.ts: the loop of `runRecovery`, page by page. Each definition is a part
-- of its body, in the order of the parts.
use floeterm.Common.{
  ℕ, ◌+◌, ◌-◌, max, Bool, true, false, ◌&&◌, ◌||◌, not, [], map, Option, none, some, ltb, ◌==◌,
  if◌then◌else◌,
}
use floeterm.Common.Fallible.{ok, err, ◌>>=◌, ◌>>◌, guard}
use floeterm.Pipeline.State.{Chunk}
use floeterm.Paged.History.{Page, Outcome, invalid, required, normalize_optional, or_else}
use floeterm.Paged.State.{
  from_history, Tagged, Accepted, history_evicted, cleared, truncated, fetched, fetching, Recovery,
  Coordinator, emit, mark_rebased,
}
use floeterm.Paged.Live.{prepare_history_generation_rebase}
use floeterm.Paged.Retry.{restarting, Step}

abbrev pub is_some : {A : Type 0} → Option A → Bool
is_some none = false
is_some (some a) = true

abbrev pub value_or : ℕ → Option ℕ → ℕ
value_or fallback none = fallback
value_or fallback (some n) = n

-- Both are there, and differ; and the first is there and greater.
abbrev pub differ : Option ℕ → Option ℕ → Bool
differ (some n) (some m) = not (n == m)
differ _ _ = false

abbrev pub exceeds : Option ℕ → ℕ → Bool
exceeds none m = false
exceeds (some n) m = ltb m n

abbrev pub beyond_end : Option ℕ → ℕ → Bool
beyond_end none m = false
beyond_end (some n) m = ltb n m

abbrev pub tag_history : Chunk → Tagged
tag_history chunk = record { chunk = chunk; source = from_history }

unfoldable pub fetch_page : Recovery → Coordinator → Coordinator
unfolding emit
fetch_page r c =
    emit
      (fetched (record {
        start_sequence = r.start_sequence;
        end_sequence = r.snapshot_end;
        history_generation = r.history_generation;
        cursor = r.cursor;
      }))
      (record c { recovery = some (record r { stage = fetching }) })

-- The variables before the loop.
abbrev pub begin_fresh : Coordinator → Recovery → Recovery
begin_fresh c r = record r {
  history_chunks = [];
  cursor = none;
  start_sequence = c.recovery_start;
  snapshot_end = c.recovery_end;
  history_generation = none;
  covered_end = c.covered_through;
  first_page = true;
  prepared = none;
}

abbrev pub begin_prepared : Accepted → Coordinator → Recovery → Recovery
begin_prepared prepared c r = record r {
  history_chunks = map tag_history prepared.chunks;
  cursor = none;
  start_sequence = max 1 (
      prepared.covered_through
      + (if ltb prepared.covered_through (value_or 0 c.recovery_end) then 1 else 0));
  snapshot_end = c.recovery_end;
  history_generation = some prepared.history_generation;
  covered_end = prepared.covered_through;
  first_page = false;
  prepared = some prepared;
}

abbrev pub prepared_baseline : Accepted → Coordinator → ℕ
prepared_baseline prepared c = max (max 1 c.recovery_start - 1) (prepared.first_retained - 1)

-- After the write chain has settled.
unfoldable pub begin_fetching : Recovery → Coordinator → Coordinator
unfolding fetch_page
begin_fetching r c = elim c.prepared_history [
  | none ↦ fetch_page (begin_fresh c r) c
  | some prepared ↦ fetch_page (begin_prepared prepared c r) (record c {
    covered_through = prepared_baseline prepared c;
    scheduled_through = prepared_baseline prepared c;
  })
]

-- What a page says of its snapshot.
pub record Claims : Type 0 where
  pub snapshot_end : Option ℕ
  pub generation : Option ℕ
  pub first_retained : Option ℕ

unfoldable pub claims_of : Page → Outcome Claims
unfolding normalize_optional
claims_of page = do
  snapshot_end ← normalize_optional page.snapshot_end_sequence
  generation ← normalize_optional page.history_generation
  first_retained ←
      normalize_optional (or_else page.first_retained_sequence page.first_available_sequence)
  ok (record {
    snapshot_end = snapshot_end;
    generation = generation;
    first_retained = first_retained;
  })

unfoldable pub discard_prepared_history : Coordinator → Coordinator
unfolding mark_rebased
discard_prepared_history c = record (mark_rebased true c) {
  prepared_history = none;
  covered_through = c.recovery_start - 1;
  scheduled_through = c.recovery_start - 1;
  history_rebase_prepared = false;
}

abbrev pub is_full : Claims → Bool
is_full n = is_some n.snapshot_end && is_some n.generation && is_some n.first_retained

-- A prepared history can only be continued by pages that say all of it.
unfoldable pub check_claims : Claims → Recovery → Coordinator → Step (Unit {0})
unfolding discard_prepared_history
check_claims n r c =
    if is_some r.prepared && not (is_full n)
    then err (restarting (discard_prepared_history c))
    else ok tt

abbrev pub advanced_over : Option Accepted → Option ℕ → Bool
advanced_over none first_retained = false
advanced_over (some prepared) first_retained = exceeds first_retained prepared.first_retained

abbrev pub generation_needs_rebase : Page → Claims → Recovery → Bool
generation_needs_rebase page n r = page.history_reset || differ r.history_generation n.generation

abbrev pub retention_needs_rebase : Page → Claims → Recovery → Bool
retention_needs_rebase page n r =
    page.history_truncated
    || exceeds n.first_retained (max 1 r.start_sequence)
    || advanced_over r.prepared n.first_retained

abbrev pub is_fully_evicted : Claims → Coordinator → Bool
is_fully_evicted n c = elim c.recovery_end [
  | none ↦ false
  | some last ↦ exceeds n.first_retained last
]

-- The prepared history is given up, with the outcome that it was rebased.
abbrev pub give_up_prepared : Recovery → Coordinator → Coordinator
give_up_prepared r c = record (mark_rebased (is_some r.prepared) c) { prepared_history = none }

unfoldable pub report_eviction : Coordinator → Coordinator
unfolding emit
report_eviction c = emit (truncated history_evicted) (emit cleared c)

-- The recovery goes on after a change only where the whole range it is to fetch is gone.
unfoldable pub rebase_recovery :
    Page → Claims → Recovery → Coordinator → Step (Coordinator × Recovery)
unfolding mark_rebased report_eviction prepare_history_generation_rebase
rebase_recovery page n r c =
    if c.history_rebase_prepared
      || not (generation_needs_rebase page n r || retention_needs_rebase page n r)
    then ok (c, r)
    else if not (is_fully_evicted n c)
    then err
        (restarting (prepare_history_generation_rebase n.first_retained (give_up_prepared r c)))
    else if generation_needs_rebase page n r
    then err (
        restarting
          (record (report_eviction (give_up_prepared r c)) { history_rebase_prepared = true }))
    else ok (
      report_eviction (give_up_prepared r c),
      if is_some r.prepared then (record r { history_chunks = [] }) else r,
    )

-- `validatePage`.
unfoldable pub validate_page : Page → (previous_coverage : ℕ) → Outcome ℕ
validate_page page previous_coverage = do
  coverage ← required page.covered_through_sequence
  guard (not (ltb coverage previous_coverage)) invalid
  ok coverage
