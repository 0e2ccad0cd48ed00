-- ===== src/Paged/Invariant/Calls.antt =====
-- PagedTerminalOutputCoordinator.ts: the calls keep the invariant.
use floeterm.Common.{refl, Bool, true, false, ◌&&◌, ◌||◌, not, if_cases}
use floeterm.Pipeline.State.{Chunk}
use floeterm.Paged.State.{from_live, Tagged, Coordinator, can_render_live}
use floeterm.Paged.Live.{is_live}
use floeterm.Paged.Calls.{
  is_recovering, pause, push_live, activate, set_active, is_failed, retry, wait_for_baseline,
  fire_timer,
}
use floeterm.Paged.Invariant.{
  IsCoherent, reattempt, cancel_recovery-IsCoherent, run_recovery-IsCoherent,
  retain_live-IsCoherent,
}
use floeterm.Paged.Invariant.Live.{
  accept_live-IsCoherent, prepare_retained_live_rebase-IsCoherent, drain_retained_live-IsCoherent,
}

pub pause-IsCoherent : (c : Coordinator) → IsCoherent c → IsCoherent (pause c)
unfolding pause
pause-IsCoherent c0 v =
    let c : Coordinator = record c0 { active = false } in
    if_cases IsCoherent c0.disposed (λ stays. v)
      (λ pauses.
        if_cases IsCoherent (c.recovery_running || is_recovering c.state)
          (λ recovering.
            cancel_recovery-IsCoherent false (record c { paused_recovery_pending = true })
              (record { accounts = v.accounts }))
          (λ idle. record { accounts = v.accounts }))

pub push_live-IsCoherent :
    (chunk : Chunk) (c : Coordinator) → IsCoherent c → IsCoherent (push_live chunk c)
unfolding push_live
push_live-IsCoherent chunk c v =
    let item : Tagged = record { chunk = chunk; source = from_live } in
    if_cases IsCoherent c.disposed (λ stays. v)
      (λ lives.
        if_cases IsCoherent (not (is_live c.state) || not (can_render_live c))
          (λ away. retain_live-IsCoherent item c v) (λ here. accept_live-IsCoherent item c v))

activate-IsCoherent : (c : Coordinator) → IsCoherent c → IsCoherent (activate c)
unfolding activate
activate-IsCoherent c v =
    if_cases IsCoherent c.paused_recovery_pending
      (λ paused. run_recovery-IsCoherent _ (record { accounts = v.accounts }))
      (λ not_paused.
        if_cases IsCoherent (c.needs_rebase && c.recovery_running) (λ runs. v)
          (λ not_running.
            if_cases IsCoherent c.needs_rebase
              (λ rebases. run_recovery-IsCoherent _ (prepare_retained_live_rebase-IsCoherent c v))
              (λ stable.
                if_cases IsCoherent (is_live c.state) (λ drains. drain_retained_live-IsCoherent c v)
                  (λ waits. v))))

pub set_active-IsCoherent :
    (active : Bool) (c : Coordinator) → IsCoherent c → IsCoherent (set_active active c)
unfolding set_active
set_active-IsCoherent active c v =
    if_cases IsCoherent c.disposed (λ stays. v)
      (λ lives.
        if_cases IsCoherent active
          (λ on.
            activate-IsCoherent (record c { active = true }) (record { accounts = v.accounts }))
          (λ off. record { accounts = v.accounts }))

pub retry-IsCoherent : (c : Coordinator) → IsCoherent c → IsCoherent (retry c)
unfolding retry
retry-IsCoherent c v =
    if_cases IsCoherent (c.disposed || not (is_failed c.state)) (λ stays. v)
      (λ retries. run_recovery-IsCoherent _ (record { accounts = reattempt v.accounts }))

pub wait_for_baseline-IsCoherent :
    (c : Coordinator) → IsCoherent c → IsCoherent (wait_for_baseline c)
unfolding wait_for_baseline
wait_for_baseline-IsCoherent c v =
    if_cases IsCoherent (c.baseline_ready || is_failed c.state || c.disposed) (λ answered. v)
      (λ waits. record { accounts = v.accounts })

pub fire_timer-IsCoherent : (c : Coordinator) → IsCoherent c → IsCoherent (fire_timer c)
unfolding fire_timer
fire_timer-IsCoherent c v =
    let q : Coordinator = record c { retry_timer = false } in
    let w : IsCoherent q = record {
      accounts = record {
        counted = v.accounts.counted;
        few = v.accounts.few;
        light = v.accounts.light;
        behind = v.accounts.behind;
        attempts = v.accounts.attempts;
        runs = v.accounts.runs;
        waits = refl;
      };
    } in
    if_cases IsCoherent (not c.retry_timer) (λ none_set. v)
      (λ fires.
        if_cases IsCoherent c.disposed (λ stays. w) (λ retries. run_recovery-IsCoherent q w))
