-- ===== src/Pipeline/Lifecycle.antt =====
-- TerminalOutputPipeline.ts: resets, disposal, and the calls and frames in any order.
use floeterm.Common.{
  ℕ, ◌-◌, Bool, true, false, ◌||◌, not, List, [], ◌∷◌, Option, none, some, ltb, if◌then◌else◌,
}
use floeterm.Common.Number.{Number}
use floeterm.Pipeline.State.{
  Chunk, Pipeline, empty_stats, normalize_start_sequence, sequence_of, clear_queues,
  clear_catch_up_queue, cancel_frame_if_scheduled, is_empty,
}
use floeterm.Pipeline.Calls.{
  enqueue_normalized, enqueue, flush, flush_now, run_frame, expected_sequence,
}

pub record ResetOptions : Type 0 where
  pub start_sequence : Option Number
  pub reset_stats : Bool
  pub resume_catch_up : Bool
  pub allow_sequence_skip_on_resume : Bool

-- What a sequence that is skipped to leaves of the cursors.
abbrev pub skip_past : Option ℕ → Pipeline → Pipeline
skip_past none p = p
skip_past (some s) p =
    if ltb (expected_sequence p) s
    then record p { last_observed = s - 1; last_applied = s - 1 }
    else p

abbrev pub skip_to : (allow : Bool) → Chunk → Pipeline → Pipeline
skip_to false chunk p = p
skip_to true chunk p = skip_past (sequence_of chunk) p

unfoldable pub resume_catch_up_queue :
    (interactive : Bool) → List Chunk → (allow : Bool) → Pipeline → Pipeline
resume_catch_up_queue interactive [] allow p = p
resume_catch_up_queue interactive (chunk ∷ queue) allow p =
    resume_catch_up_queue interactive queue allow
      (enqueue_normalized interactive chunk false (skip_to allow chunk p))

-- `reset` up to its loop over the catch-up queue. A start between 0 and 1 leaves the code's cursors at
-- -1, and here at 0.
unfoldable pub restart : ResetOptions → Pipeline → Pipeline
restart options p =
    let start = normalize_start_sequence options.start_sequence in
    let q = clear_catch_up_queue (clear_queues (cancel_frame_if_scheduled p)) in
    record q {
      catch_up_pending = false;
      last_observed = start - 1;
      last_applied = start - 1;
      stats = if options.reset_stats then empty_stats else q.stats;
    }

abbrev pub resumed : ResetOptions → Pipeline → List Chunk
resumed options p = if options.resume_catch_up then p.catch_up_queue else []

unfoldable pub reset : (interactive : Bool) → ResetOptions → Pipeline → Pipeline
unfolding resume_catch_up_queue restart
reset interactive options p =
    resume_catch_up_queue interactive (resumed options p) options.allow_sequence_skip_on_resume
      (restart options p)

unfoldable pub dispose : Pipeline → Pipeline
dispose p =
    if p.disposed
    then p
    else let q =
        clear_catch_up_queue
          (clear_queues (cancel_frame_if_scheduled (record p { disposed = true }))) in
      record q { catch_up_pending = false }

pub record DrainState : Type 0 where
  pub live_pending : Bool
  pub inactive_pending : Bool
  pub catch_up_pending : Bool
  pub drain_pending : Bool
  pub disposed : Bool

unfoldable pub get_drain_state : Pipeline → DrainState
get_drain_state p =
    let live = not (is_empty p.live_queue) || p.frame_scheduled in
    let inactive = not (is_empty p.inactive_queue) in
    record {
      live_pending = live;
      inactive_pending = inactive;
      catch_up_pending = p.catch_up_pending;
      drain_pending = live || inactive || p.catch_up_pending;
      disposed = p.disposed;
    }

-- A call of the handle, with what `isInteractive` answers, or the frame that was requested.
pub data Call : Type 0 where
  enqueue_call : (interactive : Bool) → Chunk → Call
  flush_call flush_now_call frame : (interactive : Bool) → Call
  reset_call : (interactive : Bool) → ResetOptions → Call
  dispose_call : Call

-- No frame runs that is not scheduled.
unfoldable pub run : Call → Pipeline → Pipeline
unfolding enqueue flush flush_now run_frame reset dispose
run (enqueue_call interactive chunk) p = enqueue interactive chunk p
run (flush_call interactive) p = flush interactive p
run (flush_now_call interactive) p = flush_now interactive p
run (frame interactive) p = if p.frame_scheduled then run_frame interactive p else p
run (reset_call interactive options) p = reset interactive options p
run dispose_call p = dispose p

unfoldable pub run_all : List Call → Pipeline → Pipeline
unfolding run
run_all [] p = p
run_all (call ∷ calls) p = run_all calls (run call p)
