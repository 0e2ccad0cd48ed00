-- ===== src/Admission.antt =====
-- terminal-web/src/internal/TerminalInitializationScheduler.ts: the gate that terminals pass before
-- they initialize. A waiter is named by a number; `waiters` holds what its object holds. A turn that
-- has been scheduled may come at any time after.
pub mod Handled
pub mod Drain
pub mod Permits
pub mod Counted
pub mod Granted
pub mod Limit
mod Tests
use floeterm.Common.{
  ℕ, zero, suc, ◌+◌, ◌-◌, Bool, true, false, ◌&&◌, ◌||◌, not, List, [], ◌∷◌, ◌++◌, Option, none,
  some, length, ltb, ◌==◌, if◌then◌else◌,
}
use floeterm.Common.Assoc.{lookup, insert}
use floeterm.Common.Sets.{contains}

pub data Priority : Type 0 where
  interactive background : Priority

abbrev pub is_background : Priority → Bool
is_background background = true
is_background interactive = false

-- With the `released` of its permit, once it has been granted one.
pub record Waiter : Type 0 where
  pub priority : Priority
  pub active : Bool
  pub released : Option Bool

-- A permit is granted, or a waiter is told that there is none, or a turn is asked for.
pub data Effect : Type 0 where
  granted refused : ℕ → Effect
  turn_requested : Effect

pub record Scheduler : Type 0 where
  pub max_concurrent : ℕ
  pub max_background_concurrent : ℕ
  pub interactive_queue : List ℕ
  pub background_queue : List ℕ
  pub active_count : ℕ
  pub active_background_count : ℕ
  pub drain_scheduled : Bool
  pub waiters : List (ℕ × Waiter)
  pub log : List Effect

unfoldable pub create : (max_concurrent max_background : ℕ) → Scheduler
create max_concurrent max_background = record {
  max_concurrent = max_concurrent;
  max_background_concurrent = max_background;
  interactive_queue = [];
  background_queue = [];
  active_count = 0;
  active_background_count = 0;
  drain_scheduled = false;
  waiters = [];
  log = [];
}

unfoldable pub schedule_drain : Scheduler → Scheduler
schedule_drain s = record s {
  drain_scheduled = true;
  log = if s.drain_scheduled then s.log else s.log ++ turn_requested ∷ [];
}

-- `queueFor(priority).push(waiter)`.
unfoldable pub push_waiter : Priority → ℕ → Scheduler → Scheduler
push_waiter background w s = record s { background_queue = s.background_queue ++ w ∷ [] }
push_waiter interactive w s = record s { interactive_queue = s.interactive_queue ++ w ∷ [] }

-- The new waiter is named by the number of those before it.
unfoldable pub request : Priority → Scheduler → Scheduler
unfolding push_waiter schedule_drain
request priority s =
    let w = length s.waiters in
    schedule_drain (
      push_waiter priority w (record s {
        waiters = (w, record { priority = priority; active = true; released = none }) ∷ s.waiters;
      }))

-- `indexOf`, then `splice`: the first occurrence goes.
unfoldable pub remove_first : ℕ → List ℕ → List ℕ
remove_first w [] = []
remove_first w (v ∷ queue) = if v == w then queue else v ∷ remove_first w queue

unfoldable pub promote_waiter : ℕ → Waiter → Scheduler → Scheduler
promote_waiter w waiter s =
    if not waiter.active
      || not (is_background waiter.priority)
      || not (contains w s.background_queue)
    then s
    else schedule_drain (record s {
      background_queue = remove_first w s.background_queue;
      interactive_queue = s.interactive_queue ++ w ∷ [];
      waiters = insert w (record waiter { priority = interactive }) s.waiters;
    })

unfoldable pub promote : ℕ → Scheduler → Scheduler
unfolding promote_waiter
promote w s = elim (lookup w s.waiters) [ none ↦ s | some waiter ↦ promote_waiter w waiter s ]

abbrev pub queue_for : Priority → Scheduler → List ℕ
queue_for background s = s.background_queue
queue_for interactive s = s.interactive_queue

unfoldable pub cancel_waiter : ℕ → Waiter → Scheduler → Scheduler
cancel_waiter w waiter s =
    let back = is_background waiter.priority in
    if not waiter.active || not (contains w (queue_for waiter.priority s)) then s else record s {
      background_queue = if back then remove_first w s.background_queue else s.background_queue;
      interactive_queue = if back then s.interactive_queue else remove_first w s.interactive_queue;
      waiters = insert w (record waiter { active = false }) s.waiters;
      log = s.log ++ refused w ∷ [];
    }

unfoldable pub cancel : ℕ → Scheduler → Scheduler
unfolding cancel_waiter
cancel w s = elim (lookup w s.waiters) [ none ↦ s | some waiter ↦ cancel_waiter w waiter s ]

-- A waiter that has been shifted off its queue: it is passed over, or granted a permit.
unfoldable pub grant_waiter : ℕ → Waiter → Scheduler → Scheduler
grant_waiter w waiter s = if not waiter.active then s else record s {
  waiters = insert w (record waiter { active = false; released = some false }) s.waiters;
  active_count = s.active_count + 1;
  active_background_count =
      if is_background waiter.priority
      then s.active_background_count + 1
      else s.active_background_count;
  log = s.log ++ granted w ∷ [];
}

abbrev pub grant_found : ℕ → Option Waiter → Scheduler → Scheduler
grant_found w none s = s
grant_found w (some waiter) s = grant_waiter w waiter s

unfoldable pub grant : ℕ → Scheduler → Scheduler
unfolding grant_waiter
grant w s = grant_found w (lookup w s.waiters) s

-- The waiter that a round takes, and the state without it, from the two queues.
unfoldable pub take_next : List ℕ → List ℕ → Scheduler → Option (ℕ × Scheduler)
take_next (w ∷ queue) back s = some (w, record s { interactive_queue = queue })
take_next [] [] s = none
take_next [] (w ∷ queue) s =
    if ltb s.active_background_count s.max_background_concurrent
    then some (w, record s { background_queue = queue })
    else none

abbrev pub grant_taken : Option (ℕ × Scheduler) → Option Scheduler
grant_taken none = none
grant_taken (some (w, s)) = some (grant w s)

-- A round of the loop of `drain`, or its end.
unfoldable pub drain_round : Scheduler → Option Scheduler
unfolding take_next grant
drain_round s =
    if ltb s.active_count s.max_concurrent
    then grant_taken (take_next s.interactive_queue s.background_queue s)
    else none

-- Each round takes a waiter off a queue.
unfoldable pub drain_rounds : ℕ → Scheduler → Scheduler
unfolding drain_round
drain_rounds zero s = s
drain_rounds (suc rounds) s = elim (drain_round s) [ none ↦ s | some t ↦ drain_rounds rounds t ]

unfoldable pub drain : Scheduler → Scheduler
unfolding drain_rounds
drain s = drain_rounds (suc (length s.interactive_queue + length s.background_queue)) s

-- The turn that `scheduleDrain` has asked for.
unfoldable pub run_turn : Scheduler → Scheduler
unfolding drain
run_turn s = if s.drain_scheduled then drain (record s { drain_scheduled = false }) else s

abbrev pub is_empty : List ℕ → Bool
is_empty [] = true
is_empty (w ∷ queue) = false

-- `release` of a permit that is out; the priority is the waiter's.
unfoldable pub release_permit : ℕ → Waiter → Scheduler → Scheduler
release_permit w waiter s =
    let t = record s {
      waiters = insert w (record waiter { released = some true }) s.waiters;
      active_count = s.active_count - 1;
      active_background_count =
          if is_background waiter.priority
          then s.active_background_count - 1
          else s.active_background_count;
    } in
    if not (is_empty s.interactive_queue) || not (is_empty s.background_queue)
    then schedule_drain t
    else t

-- There is nothing to call before a permit has been granted, and a second call does nothing.
abbrev pub release_once : ℕ → Waiter → Option Bool → Scheduler → Scheduler
release_once w waiter none s = s
release_once w waiter (some true) s = s
release_once w waiter (some false) s = release_permit w waiter s

abbrev pub release_found : ℕ → Option Waiter → Scheduler → Scheduler
release_found w none s = s
release_found w (some waiter) s = release_once w waiter waiter.released s

unfoldable pub release : ℕ → Scheduler → Scheduler
unfolding release_permit
release w s = release_found w (lookup w s.waiters) s

pub data Call : Type 0 where
  request_call : Priority → Call
  promote_call cancel_call release_call : ℕ → Call
  turn : Call

unfoldable pub run : Call → Scheduler → Scheduler
unfolding request promote cancel run_turn release
run (request_call priority) s = request priority s
run (promote_call w) s = promote w s
run (cancel_call w) s = cancel w s
run turn s = run_turn s
run (release_call w) s = release w s

unfoldable pub run_all : List Call → Scheduler → Scheduler
unfolding run
run_all [] s = s
run_all (call ∷ calls) s = run_all calls (run call s)
