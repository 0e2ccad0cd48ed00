-- ===== src/Paged/Invariant.antt =====
-- PagedTerminalOutputCoordinator.ts: the invariant of the coordinator.
mod Live
mod Endings
mod Pages
mod Loop
mod Replay
mod Attach
mod Calls
mod Writers
mod Returns
pub mod Reachable
use floeterm.Common.{
  ℕ, zero, suc, ◌+◌, ◌-◌, ◌≤◌, max, ◌≡◌, refl, ap, Bool, true, false, ◌&&◌, ◌||◌, not, List, [],
  ◌∷◌, ◌++◌, Option, none, some, length, length-append, ltb, leb, ◌==◌, if◌then◌else◌, if_cases,
  arith,
}
use floeterm.Paged.State.{
  Tagged, Policy, Recovery, Coordinator, size, sizes, sequence_of, first_sequence, emit,
  cancel_recovery, mark_rebased, resolve_baseline_waiters, set_state, can_render_live,
}
use floeterm.Paged.Live.{
  is_live, run_recovery, evict, retain_live, prepare_retained_live_rebase, rebase_start,
  prepare_history_generation_rebase, begin_catch_up, is_initial_replay, enqueue_live_write,
  accept_sequence, accept_live, sort_items, retain_all, accept_all, is_empty, drain_retained_live,
}
use floeterm.Paged.Pages.{is_some}

-- What is retained is counted, and within the policy's limits; no more is covered than is scheduled;
-- there are no more attempts to recover than the policy has delays; a recovery is suspended exactly
-- while one counts as running, and none while the timer of a retry runs.
pub record Accounts (policy : Policy) (retained : List Tagged) (bytes covered scheduled attempt : ℕ)
    (running timer : Bool) (recovery : Option Recovery) : Type 0 where
  pub counted : bytes ≡ sizes retained
  pub few : length retained ≤ policy.max_retained_live_chunks
  pub light : bytes ≤ policy.max_retained_live_bytes
  pub behind : covered ≤ scheduled
  pub attempts : attempt ≤ length policy.retry_delays_ms
  pub runs : running ≡ is_some recovery
  pub waits : (timer && running) ≡ false

pub record IsCoherent (c : Coordinator) : Type 0 where
  pub accounts :
      Accounts c.policy c.retained_live c.retained_live_bytes c.covered_through c.scheduled_through
        c.retry_attempt c.recovery_running c.retry_timer c.recovery

-- A recovery begins, or ends.
pub run_again :
    {policy : Policy} {retained : List Tagged} {bytes covered scheduled attempt : ℕ}
    {running timer : Bool} {recovery : Option Recovery} (next : Option Recovery)
    → Accounts policy retained bytes covered scheduled attempt running timer recovery
    → Accounts policy retained bytes covered scheduled attempt (is_some next) false next
run_again next v = record {
  counted = v.counted;
  few = v.few;
  light = v.light;
  behind = v.behind;
  attempts = v.attempts;
  runs = refl;
  waits = refl;
}

pub cancel_recovery-IsCoherent :
    (increment : Bool) (c : Coordinator) → IsCoherent c → IsCoherent (cancel_recovery increment c)
unfolding cancel_recovery
cancel_recovery-IsCoherent increment c v = record { accounts = run_again none v.accounts }

pub run_recovery-IsCoherent : (c : Coordinator) → IsCoherent c → IsCoherent (run_recovery c)
unfolding run_recovery cancel_recovery
run_recovery-IsCoherent c v =
    if_cases IsCoherent (c.disposed || c.recovery_running) (λ stays. v)
      (λ runs. record { accounts = run_again (some _) v.accounts })

-- No recovery runs any more.
pub stop_running :
    {policy : Policy} {retained : List Tagged} {bytes covered scheduled attempt : ℕ}
    {running timer : Bool} {recovery : Option Recovery}
    → Accounts policy retained bytes covered scheduled attempt running timer recovery
    → Accounts policy retained bytes covered scheduled attempt false timer none
stop_running {timer} v = record {
  counted = v.counted;
  few = v.few;
  light = v.light;
  behind = v.behind;
  attempts = v.attempts;
  runs = refl;
  waits = ground arith;
}

-- The eviction restores the limits, from any accounts that are right.
pub evict-IsCoherent :
    (items : List Tagged) (c : Coordinator)
    → c.retained_live_bytes ≡ sizes items
    → c.covered_through ≤ c.scheduled_through
    → c.retry_attempt ≤ length c.policy.retry_delays_ms
    → c.recovery_running ≡ is_some c.recovery
    → (c.retry_timer && c.recovery_running) ≡ false
    → IsCoherent (evict items c)
unfolding evict
evict-IsCoherent [] c b l a r w = record {
  accounts = record {
    counted = b;
    few = omega arith;
    light = omega (arith, b);
    behind = l;
    attempts = a;
    runs = r;
    waits = w;
  };
}
evict-IsCoherent (item ∷ items) c b l a r w =
    if_cases IsCoherent
      (ltb c.policy.max_retained_live_chunks (length (item ∷ items))
        || ltb c.policy.max_retained_live_bytes c.retained_live_bytes)
      (λ over. evict-IsCoherent items _ (omega (arith, b)) l a r w)
      (λ within. record {
        accounts = record {
          counted = b;
          few = ground arith;
          light = ground arith;
          behind = l;
          attempts = a;
          runs = r;
          waits = w;
        };
      })

pub sizes-append : (xs ys : List Tagged) → sizes (xs ++ ys) ≡ sizes xs + sizes ys
sizes-append [] ys = omega arith
sizes-append (x ∷ xs) ys = omega (arith, sizes-append xs ys)

pub retain_live-IsCoherent :
    (item : Tagged) (c : Coordinator) → IsCoherent c → IsCoherent (retain_live item c)
unfolding retain_live
retain_live-IsCoherent item c v =
    evict-IsCoherent (c.retained_live ++ (item ∷ [])) _
      (omega (arith, v.accounts.counted, sizes-append c.retained_live (item ∷ [])))
      v.accounts.behind v.accounts.attempts v.accounts.runs v.accounts.waits

pub retain_all-IsCoherent :
    (items : List Tagged) (c : Coordinator) → IsCoherent c → IsCoherent (retain_all items c)
unfolding retain_all
retain_all-IsCoherent [] c v = v
retain_all-IsCoherent (item ∷ items) c v =
    retain_all-IsCoherent items _ (retain_live-IsCoherent item c v)

-- The positions can be set to any that are in order.
pub reposition :
    {policy : Policy} {retained : List Tagged} {bytes covered scheduled attempt : ℕ}
    {running timer : Bool} {recovery : Option Recovery} (low high : ℕ)
    → Accounts policy retained bytes covered scheduled attempt running timer recovery
    → low ≤ high
    → Accounts policy retained bytes low high attempt running timer recovery
reposition low high v le = record {
  counted = v.counted;
  few = v.few;
  light = v.light;
  behind = le;
  attempts = v.attempts;
  runs = v.runs;
  waits = v.waits;
}

-- A new count of attempts.
pub reattempt :
    {policy : Policy} {retained : List Tagged} {bytes covered scheduled attempt : ℕ}
    {running timer : Bool} {recovery : Option Recovery}
    → Accounts policy retained bytes covered scheduled attempt running timer recovery
    → Accounts policy retained bytes covered scheduled 0 running timer recovery
reattempt v = record {
  counted = v.counted;
  few = v.few;
  light = v.light;
  behind = v.behind;
  attempts = omega arith;
  runs = v.runs;
  waits = v.waits;
}

-- Nothing is retained any more.
pub forget :
    {policy : Policy} {retained : List Tagged} {bytes covered scheduled attempt : ℕ}
    {running timer : Bool} {recovery : Option Recovery}
    → Accounts policy retained bytes covered scheduled attempt running timer recovery
    → Accounts policy [] 0 covered scheduled attempt running timer recovery
forget v = record {
  counted = refl;
  few = omega arith;
  light = omega arith;
  behind = v.behind;
  attempts = v.attempts;
  runs = v.runs;
  waits = v.waits;
}
