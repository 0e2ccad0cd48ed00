-- ===== src/Paged/Events.antt =====
-- PagedTerminalOutputCoordinator.ts: everything that happens to the coordinator, one event at a time.
use floeterm.Common.{ℕ, Bool, true, false, List, [], ◌∷◌, Option, none, some}
use floeterm.Common.Number.{Number}
use floeterm.Pipeline.State.{Chunk}
use floeterm.Paged.History.{Page, Prepared}
use floeterm.Paged.Preparation.{positive_or}
use floeterm.Paged.State.{idle, initial, Tagged, not_provided, Coordinator}
use floeterm.Paged.Attach.{begin_attach, complete_attach, clear, dispose}
use floeterm.Paged.Calls.{fire_timer, pause, push_live, retry, set_active, wait_for_baseline}
use floeterm.Paged.Writers.{answer_fetch, return_writer_at, run_live_job, settle_chain}

pub data Event : Type 0 where
  begin_attach_call : (start : ℕ) → Event
  complete_attach_call : (generation : ℕ) → (snapshot_end : Option Number) → Option Prepared → Event
  pause_call wait_for_baseline_call retry_call dispose_call : Event
  push_live_call : Chunk → Event
  set_active_call : Bool → Event
  clear_call : (start : ℕ) → Event
  interactive_changed : Bool → Event
  timer_fired chain_settled job_started : Event
  fetch_answered : Option Page → Event
  writer_returned : (succeeded : Bool) → (place : ℕ) → Event

module _ (transform : Tagged → Option (List ℕ)) where
  unfoldable pub step : Event → Coordinator → Coordinator
  unfolding begin_attach complete_attach pause wait_for_baseline retry dispose push_live set_active
      clear fire_timer settle_chain run_live_job answer_fetch return_writer_at
  step (begin_attach_call start) c = begin_attach start c
  step (complete_attach_call generation snapshot_end h) c =
      complete_attach generation snapshot_end h c
  step pause_call c = pause c
  step wait_for_baseline_call c = wait_for_baseline c
  step retry_call c = retry c
  step dispose_call c = dispose c
  step (push_live_call chunk) c = push_live chunk c
  step (set_active_call active) c = set_active active c
  step (clear_call start) c = clear start c
  step (interactive_changed interactive) c = record c { interactive = interactive }
  step timer_fired c = fire_timer c
  step chain_settled c = settle_chain c
  step job_started c = run_live_job transform c
  step (fetch_answered answer) c = answer_fetch transform answer c
  step (writer_returned succeeded place) c =
      return_writer_at transform succeeded place [] c.writers c

  unfoldable pub steps : List Event → Coordinator → Coordinator
  unfolding step
  steps [] c = c
  steps (event ∷ events) c = steps events (step event c)

-- The delays are what `Math.max(0, Math.floor(…))` makes of them.
pub record PartialPolicy : Type 0 where
  pub max_retained_live_chunks : Option Number
  pub max_retained_live_bytes : Option Number
  pub retry_delays_ms : Option (List ℕ)
  pub max_write_batch_bytes : Option Number

abbrev pub default_delays : List ℕ
default_delays = 250 ∷ 1000 ∷ 4000 ∷ []

abbrev pub delays_or : Option (List ℕ) → List ℕ
delays_or none = default_delays
delays_or (some delays) = delays

unfoldable pub construct : PartialPolicy → Coordinator
construct policy = record {
  policy = record {
    max_retained_live_chunks = positive_or 2048 policy.max_retained_live_chunks;
    max_retained_live_bytes = positive_or 8_388_608 policy.max_retained_live_bytes;
    retry_delays_ms = delays_or policy.retry_delays_ms;
    max_write_batch_bytes = positive_or 524_288 policy.max_write_batch_bytes;
  };
  interactive = true;
  active = true;
  state = idle;
  baseline_ready = false;
  covered_through = 0;
  scheduled_through = 0;
  retained_live = [];
  retained_live_bytes = 0;
  retry_attempt = 0;
  retry_timer = false;
  generation = 0;
  recovery_serial = 0;
  disposed = false;
  last_error = none;
  failure = none;
  recovery_start = 1;
  recovery_end = none;
  explicit_attach_fence = false;
  recovery_kind = initial;
  recovery_running = false;
  needs_rebase = false;
  history_rebase_prepared = false;
  pending_live_writes = [];
  live_write_scheduled = false;
  baseline_waiters = 0;
  paused_recovery_pending = false;
  dropped_live_through = 0;
  prepared_history = none;
  prepared_outcome = record { status = not_provided; rebased = false };
  recovery = none;
  live_jobs = 0;
  live_batches = none;
  writers = [];
  log = [];
}
