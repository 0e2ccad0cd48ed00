-- ===== src/Paged/Live.antt =====
-- PagedTerminalOutputCoordinator.ts: live output that is retained or accepted, and the recoveries that
-- it leads to.
use floeterm.Common.{
  ℕ, ◌+◌, ◌-◌, max, Bool, true, false, ◌&&◌, ◌||◌, not, List, [], ◌∷◌, ◌++◌, Option, none, some,
  length, ltb, leb, ◌==◌, if◌then◌else◌,
}
use floeterm.Common.Number.{max_safe_integer}
use floeterm.Paged.State.{
  State, initial_replay, live, catching_up, RecoveryKind, initial, catch_up, Tagged,
  history_evicted, retained_live_overflow, cleared, truncated, awaiting_chain, Coordinator, size,
  sequence_of, first_sequence, emit, cancel_recovery, mark_rebased, can_render_live,
}

abbrev pub is_live : State → Bool
is_live state = elim state [ live ↦ true | _ ↦ false ]

abbrev pub replay_state : RecoveryKind → State
replay_state initial = initial_replay
replay_state catch_up = catching_up

-- `runRecovery` up to its first `await`, on the write chain.
unfoldable pub run_recovery : Coordinator → Coordinator
unfolding cancel_recovery
run_recovery c =
    let q = cancel_recovery false c in
    if c.disposed || c.recovery_running then c else (record q {
      recovery_serial = q.recovery_serial + 1;
      recovery = some (record {
        serial = q.recovery_serial + 1;
        stage = awaiting_chain;
        history_chunks = [];
        cursor = none;
        start_sequence = 0;
        snapshot_end = none;
        history_generation = none;
        covered_end = 0;
        first_page = true;
        prepared = none;
      });
      last_error = none;
      failure = none;
      recovery_running = true;
      state = replay_state q.recovery_kind;
    })

-- The loop of `retainLive`, on what is retained.
unfoldable pub evict : List Tagged → Coordinator → Coordinator
unfolding sequence_of
evict [] c = record c { retained_live = [] }
evict (item ∷ items) c =
    let rest = evict items (record c {
      retained_live_bytes = c.retained_live_bytes - size item;
      dropped_live_through = elim (sequence_of item) [
        | none ↦ c.dropped_live_through
        | some n ↦ max c.dropped_live_through n
      ];
      needs_rebase = true;
    }) in
    if ltb c.policy.max_retained_live_chunks (length (item ∷ items))
      || ltb c.policy.max_retained_live_bytes c.retained_live_bytes
    then rest
    else (record c { retained_live = item ∷ items })

unfoldable pub retain_live : Tagged → Coordinator → Coordinator
unfolding evict
retain_live item c =
    evict (c.retained_live ++ (item ∷ []))
      (record c { retained_live_bytes = c.retained_live_bytes + size item })

abbrev pub kind_of_rebase : (baseline_ready : Bool) → RecoveryKind
kind_of_rebase true = catch_up
kind_of_rebase false = initial

-- `… || undefined`.
abbrev pub nonzero : ℕ → Option ℕ
nonzero n = if n == 0 then none else some n

abbrev pub before_first : Option ℕ → ℕ
before_first none = 0
before_first (some n) = n - 1

unfoldable pub prepare_retained_live_rebase : Coordinator → Coordinator
unfolding mark_rebased emit first_sequence
prepare_retained_live_rebase c = emit (truncated retained_live_overflow) (
    emit cleared (record (mark_rebased false c) {
      needs_rebase = false;
      history_rebase_prepared = false;
      recovery_kind = kind_of_rebase c.baseline_ready;
      recovery_start = 0;
      recovery_end =
          nonzero (max c.dropped_live_through (before_first (first_sequence c.retained_live)));
      dropped_live_through = 0;
      covered_through = 0;
      scheduled_through = 0;
    }))

abbrev pub rebase_start : Option ℕ → ℕ
rebase_start none = 0
rebase_start (some n) = if ltb 1 n then n else 0

unfoldable pub prepare_history_generation_rebase :
    (first_retained : Option ℕ) → Coordinator → Coordinator
unfolding emit
prepare_history_generation_rebase first_retained c = emit (truncated history_evicted) (
    emit cleared (record c {
      recovery_kind = kind_of_rebase c.baseline_ready;
      history_rebase_prepared = true;
      recovery_start = rebase_start first_retained;
      covered_through = rebase_start first_retained - 1;
      scheduled_through = rebase_start first_retained - 1;
    }))

abbrev pub is_initial_replay : State → Bool
is_initial_replay state = elim state [ initial_replay ↦ true | _ ↦ false ]

unfoldable pub begin_catch_up : (start : ℕ) → Coordinator → Coordinator
unfolding run_recovery first_sequence
begin_catch_up start c =
    if c.disposed || c.recovery_running || is_initial_replay c.state
    then c
    else run_recovery (record c {
      recovery_kind = catch_up;
      recovery_start = start;
      recovery_end = elim (first_sequence c.retained_live) [ none ↦ none | some n ↦ some (n - 1) ];
      retry_attempt = 0;
    })

unfoldable pub enqueue_live_write : Tagged → Coordinator → Coordinator
unfolding sequence_of
enqueue_live_write item c = record c {
  scheduled_through = elim (sequence_of item) [
    | none ↦ c.scheduled_through
    | some n ↦ max c.scheduled_through n
  ];
  pending_live_writes = c.pending_live_writes ++ (item ∷ []);
  live_write_scheduled = true;
  live_jobs = if c.live_write_scheduled then c.live_jobs else c.live_jobs + 1;
}

-- `acceptLive` of a chunk with a sequence.
unfoldable pub accept_sequence : Tagged → ℕ → Coordinator → Coordinator
unfolding retain_live begin_catch_up enqueue_live_write
accept_sequence item n c =
    if leb n c.scheduled_through
    then c
    else if c.explicit_attach_fence && c.scheduled_through == 0 && ltb 1 n
    then begin_catch_up 1 (retain_live item c)
    else if ltb 0 c.scheduled_through && ltb (c.scheduled_through + 1) n
    then begin_catch_up (c.scheduled_through + 1) (retain_live item c)
    else if c.scheduled_through == 0
    then enqueue_live_write item (record c { covered_through = n - 1; scheduled_through = n - 1 })
    else enqueue_live_write item c

unfoldable pub accept_live : Tagged → Coordinator → Coordinator
unfolding sequence_of accept_sequence enqueue_live_write
accept_live item c = elim (sequence_of item) [
  | none ↦ enqueue_live_write item c
  | some n ↦ accept_sequence item n c
]

abbrev pub sort_key : Tagged → ℕ
sort_key item = elim (sequence_of item) [ none ↦ max_safe_integer | some n ↦ n ]

-- The sort of `drainRetainedLive` is stable.
unfoldable pub insert_item : Tagged → List Tagged → List Tagged
insert_item item [] = item ∷ []
insert_item item (next ∷ items) =
    if leb (sort_key item) (sort_key next)
    then item ∷ (next ∷ items)
    else next ∷ insert_item item items

unfoldable pub sort_items : List Tagged → List Tagged
unfolding insert_item
sort_items [] = []
sort_items (item ∷ items) = insert_item item (sort_items items)

unfoldable pub retain_all : List Tagged → Coordinator → Coordinator
unfolding retain_live
retain_all [] c = c
retain_all (item ∷ items) c = retain_all items (retain_live item c)

unfoldable pub accept_all : List Tagged → Coordinator → Coordinator
unfolding accept_live retain_all
accept_all [] c = c
accept_all (item ∷ items) c =
    let rest = accept_all items (accept_live item c) in
    if is_live ((accept_live item c).state) then rest else retain_all items (accept_live item c)

abbrev pub is_empty {ℓ} : {A : Type ℓ} → List A → Bool
is_empty [] = true
is_empty (x ∷ xs) = false

unfoldable pub drain_retained_live : Coordinator → Coordinator
unfolding accept_all sort_items
drain_retained_live c =
    if not (can_render_live c) || is_empty c.retained_live || not (is_live c.state)
    then c
    else accept_all (sort_items c.retained_live)
        (record c { retained_live = []; retained_live_bytes = 0 })
