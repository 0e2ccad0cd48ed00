-- ===== src/Paged/Calls.antt =====
-- PagedTerminalOutputCoordinator.ts: the other calls, and the timer of a retry.
use floeterm.Common.{◌+◌, Bool, true, false, ◌&&◌, ◌||◌, not, none, some, ◌==◌, if◌then◌else◌}
use floeterm.Pipeline.State.{Chunk}
use floeterm.Paged.State.{
  State, initial_replay, catching_up, retry_wait, failed, from_live, Tagged, Coordinator,
  cancel_recovery, can_render_live,
}
use floeterm.Paged.Live.{
  is_live, run_recovery, retain_live, prepare_retained_live_rebase, accept_live,
  drain_retained_live,
}

abbrev pub is_recovering : State → Bool
is_recovering initial_replay = true
is_recovering catching_up = true
is_recovering retry_wait = true
is_recovering _ = false

-- Up to its first `await`.
unfoldable pub pause : Coordinator → Coordinator
unfolding cancel_recovery
pause c0 =
    let c : Coordinator = record c0 { active = false } in
    if c0.disposed
    then c0
    else if c.recovery_running || is_recovering c.state
    then cancel_recovery false (record c { paused_recovery_pending = true })
    else c

unfoldable pub push_live : Chunk → Coordinator → Coordinator
unfolding retain_live accept_live
push_live chunk c =
    let item : Tagged = record { chunk = chunk; source = from_live } in
    if c.disposed
    then c
    else if not (is_live c.state) || not (can_render_live c)
    then retain_live item c
    else accept_live item c

-- `setActive(true)`.
unfoldable pub activate : Coordinator → Coordinator
unfolding run_recovery prepare_retained_live_rebase drain_retained_live
activate c =
    if c.paused_recovery_pending
    then run_recovery (record c { paused_recovery_pending = false })
    else if c.needs_rebase && c.recovery_running
    then c
    else if c.needs_rebase
    then run_recovery (prepare_retained_live_rebase c)
    else if is_live c.state
    then drain_retained_live c
    else c

unfoldable pub set_active : Bool → Coordinator → Coordinator
unfolding activate
set_active active c =
    if c.disposed
    then c
    else if active
    then activate (record c { active = true })
    else (record c { active = false })

abbrev pub is_failed : State → Bool
is_failed state = elim state [ failed ↦ true | _ ↦ false ]

unfoldable pub retry : Coordinator → Coordinator
unfolding run_recovery
retry c =
    if c.disposed || not (is_failed c.state)
    then c
    else run_recovery (record c { retry_attempt = 0; failure = none })

-- The promise is kept until the baseline is ready, where it is not answered at once.
unfoldable pub wait_for_baseline : Coordinator → Coordinator
wait_for_baseline c =
    if c.baseline_ready || is_failed c.state || c.disposed
    then c
    else (record c { baseline_waiters = c.baseline_waiters + 1 })

-- The retry timer fires.
unfoldable pub fire_timer : Coordinator → Coordinator
unfolding run_recovery
fire_timer c =
    let q : Coordinator = record c { retry_timer = false } in
    if not c.retry_timer then c else if c.disposed then q else run_recovery q

abbrev pub is_settled : Coordinator → Bool
is_settled c = elim c.live_batches [ none ↦ c.live_jobs == 0 | some batches ↦ false ]
