-- ===== src/Pipeline/Reachable.antt =====
-- TerminalOutputPipeline.ts: the accounts hold in every state that calls and frames lead to.
use floeterm.Common.{
  ℕ, zero, suc, if_cases, Bool, true, false, ◌||◌, not, List, [], ◌∷◌, Option, none, some, length,
  arith,
}
use floeterm.Common.Number.{Number}
use floeterm.Pipeline.State.{
  Chunk, Pipeline, sequence_of, clear_queues, clear_catch_up_queue, cancel_frame_if_scheduled,
  schedule_frame, is_empty, emit_drain_if_idle, promote_inactive_queue, normalize_positive_integer,
}
use floeterm.Pipeline.Calls.{
  enqueue, normalize_chunk, flush_next_batch, flush, flush_rounds, flush_now, run_frame,
  PartialPolicy, construct, normalize_policy,
}
use floeterm.Pipeline.Lifecycle.{
  resume_catch_up_queue, reset, ResetOptions, dispose, skip_to, restart, resumed, skip_past, Call,
  enqueue_call, flush_call, flush_now_call, frame, reset_call, dispose_call, run, run_all,
}
use floeterm.Pipeline.Accounts.{IsCounted}
use floeterm.Pipeline.Counted.{
  enqueue_normalized-IsCounted, defer_live_queue-IsCounted, promote_inactive_queue-IsCounted,
  flush_next_batch-IsCounted,
}

flush_rounds-IsCounted :
    (rounds : ℕ) (p : Pipeline) → IsCounted p → IsCounted (flush_rounds rounds p)
unfolding flush_rounds
flush_rounds-IsCounted zero p v = v
flush_rounds-IsCounted (suc rounds) p v =
    let w = flush_next_batch-IsCounted p v in
    if_cases IsCounted ((flush_next_batch p).0) (λ more. flush_rounds-IsCounted rounds _ w)
      (λ done. w)

schedule_frame-IsCounted : (p : Pipeline) → IsCounted p → IsCounted (schedule_frame p)
unfolding schedule_frame
schedule_frame-IsCounted p v = ground arith

emit_drain_if_idle-IsCounted : (p : Pipeline) → IsCounted p → IsCounted (emit_drain_if_idle p)
unfolding emit_drain_if_idle
emit_drain_if_idle-IsCounted p v = ground arith

flush-IsCounted :
    (interactive : Bool) (p : Pipeline) → IsCounted p → IsCounted (flush interactive p)
unfolding flush
flush-IsCounted interactive p v =
    if_cases IsCounted (p.disposed || p.catch_up_pending) (λ stopped. v)
      (λ flows.
        if_cases IsCounted (not interactive) (λ away. defer_live_queue-IsCounted p v)
          (λ here.
            let w = promote_inactive_queue-IsCounted p v in
            if_cases IsCounted (is_empty ((promote_inactive_queue p).live_queue))
              (λ idle. emit_drain_if_idle-IsCounted (promote_inactive_queue p) w)
              (λ busy. schedule_frame-IsCounted (promote_inactive_queue p) w)))

flush_now-IsCounted :
    (interactive : Bool) (p : Pipeline) → IsCounted p → IsCounted (flush_now interactive p)
unfolding flush_now cancel_frame_if_scheduled
flush_now-IsCounted interactive p v =
    if_cases IsCounted (p.disposed || p.catch_up_pending) (λ stopped. v)
      (λ flows.
        if_cases IsCounted (not interactive) (λ away. defer_live_queue-IsCounted p v)
          (λ here.
            let q = promote_inactive_queue (cancel_frame_if_scheduled p) in
            emit_drain_if_idle-IsCounted _ (
              flush_rounds-IsCounted (suc (length q.live_queue)) q
                (promote_inactive_queue-IsCounted (cancel_frame_if_scheduled p) (ground arith)))))

run_frame-IsCounted :
    (interactive : Bool) (p : Pipeline) → IsCounted p → IsCounted (run_frame interactive p)
unfolding run_frame
run_frame-IsCounted interactive p0 v =
    let p = record p0 { frame_scheduled = false } in
    if_cases IsCounted (p.disposed || p.catch_up_pending) (λ stopped. ground arith)
      (λ flows.
        if_cases IsCounted (not interactive) (λ away. defer_live_queue-IsCounted p (ground arith))
          (λ here.
            let w =
              flush_next_batch-IsCounted (promote_inactive_queue p)
                (promote_inactive_queue-IsCounted p (ground arith)) in
            if_cases IsCounted ((flush_next_batch (promote_inactive_queue p)).0)
              (λ more. schedule_frame-IsCounted _ w) (λ done. emit_drain_if_idle-IsCounted _ w)))

skip_to-IsCounted :
    (allow : Bool) (chunk : Chunk) (p : Pipeline) → IsCounted p → IsCounted (skip_to allow chunk p)
skip_to-IsCounted false chunk p v = v
skip_to-IsCounted true chunk p v = elim (sequence_of chunk) as (λ o. IsCounted (skip_past o p)) [
  | none ↦ v
  | some s ↦ ground arith
]

resume_catch_up_queue-IsCounted :
    (interactive : Bool) (queue : List Chunk) (allow : Bool) (p : Pipeline)
    → IsCounted p
    → IsCounted (resume_catch_up_queue interactive queue allow p)
unfolding resume_catch_up_queue
resume_catch_up_queue-IsCounted interactive [] allow p v = v
resume_catch_up_queue-IsCounted interactive (chunk ∷ queue) allow p v =
    resume_catch_up_queue-IsCounted interactive queue allow _ (
      enqueue_normalized-IsCounted interactive chunk false (skip_to allow chunk p)
        (skip_to-IsCounted allow chunk p v))

restart-IsCounted :
    (options : ResetOptions) (p : Pipeline) → IsCounted p → IsCounted (restart options p)
unfolding restart clear_queues clear_catch_up_queue cancel_frame_if_scheduled
restart-IsCounted options p v = ground arith

reset-IsCounted :
    (interactive : Bool) (options : ResetOptions) (p : Pipeline)
    → IsCounted p
    → IsCounted (reset interactive options p)
unfolding reset
reset-IsCounted interactive options p v =
    resume_catch_up_queue-IsCounted interactive (resumed options p)
      options.allow_sequence_skip_on_resume (restart options p) (restart-IsCounted options p v)

dispose-IsCounted : (p : Pipeline) → IsCounted p → IsCounted (dispose p)
unfolding dispose clear_queues clear_catch_up_queue cancel_frame_if_scheduled
dispose-IsCounted p v = if_cases IsCounted p.disposed (λ gone. v) (λ alive. ground arith)

run-IsCounted : (call : Call) (p : Pipeline) → IsCounted p → IsCounted (run call p)
unfolding run enqueue
run-IsCounted (enqueue_call i chunk) p v =
    enqueue_normalized-IsCounted i (normalize_chunk chunk) true p v
run-IsCounted (flush_call i) p v = flush-IsCounted i p v
run-IsCounted (flush_now_call i) p v = flush_now-IsCounted i p v
run-IsCounted (frame i) p v =
    if_cases IsCounted p.frame_scheduled (λ due. run_frame-IsCounted i p v) (λ idle. v)
run-IsCounted (reset_call i options) p v = reset-IsCounted i options p v
run-IsCounted dispose_call p v = dispose-IsCounted p v

construct-IsCounted :
    (policy : PartialPolicy) (catches_up : Bool) (start : Option Number)
    → IsCounted (construct policy catches_up start)
unfolding construct normalize_policy normalize_positive_integer
construct-IsCounted policy catches_up start = ground arith

calls-IsCounted : (calls : List Call) (p : Pipeline) → IsCounted p → IsCounted (run_all calls p)
unfolding run_all
calls-IsCounted [] p v = v
calls-IsCounted (call ∷ calls) p v = calls-IsCounted calls (run call p) (run-IsCounted call p v)

-- However the pipeline is called, its byte counts are exact, and neither the inactive queue nor the
-- catch-up queue holds more chunks or bytes than the policy allows.
pub run_all-IsCounted :
    (policy : PartialPolicy) (catches_up : Bool) (start : Option Number) (calls : List Call)
    → IsCounted (run_all calls (construct policy catches_up start))
run_all-IsCounted policy catches_up start calls =
    calls-IsCounted calls _ (construct-IsCounted policy catches_up start)
