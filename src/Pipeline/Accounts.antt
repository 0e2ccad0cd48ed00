-- ===== src/Pipeline/Accounts.antt =====
-- The accounts of TerminalOutputPipeline.ts: the byte counts are exact, and what is kept back stays
-- within the policy's limits.
use floeterm.Common.{
  ℕ, ◌+◌, ◌≤◌, ◌<◌, ◌≡◌, refl, ap, inl, inr, ◌⊎◌, if_cases, Bool, false, List, [], ◌∷◌, ◌++◌,
  length, length-append, ltb, arith,
}
use floeterm.Pipeline.State.{
  Chunk, Policy, Pipeline, sequence_of, size, count_chunk_bytes, clear_queues,
  cancel_frame_if_scheduled, forget_queued_sequence, drop_accepted_chunk,
}
use floeterm.Pipeline.CatchUp.{
  is_known, is_full, evict_catch_up, drop_catch_up, drop_inactive, append_catch_up,
  enqueue_catch_up, enqueue_catch_up_all, begin_catch_up, request_catch_up_for_gap,
  request_catch_up_for_inactive_overflow, evict_inactive, count_overflow, append_inactive,
  enqueue_inactive, count_enqueued,
}

pub count_chunk_bytes-append :
    (xs ys : List Chunk)
    → count_chunk_bytes (xs ++ ys) ≡ count_chunk_bytes xs + count_chunk_bytes ys
count_chunk_bytes-append [] ys = omega arith
count_chunk_bytes-append (x ∷ xs) ys = omega (arith, count_chunk_bytes-append xs ys)

-- The accounts of the queues, over their fields alone.
pub record IsCounted (p : Pipeline) : Type 0 where
  pub positive : 1 ≤ p.policy.max_inactive_chunks
  pub live : p.live_bytes ≡ count_chunk_bytes p.live_queue
  pub inactive : p.inactive_bytes ≡ count_chunk_bytes p.inactive_queue
  pub inactive_chunks : length p.inactive_queue ≤ p.policy.max_inactive_chunks
  pub inactive_limit : p.inactive_bytes ≤ p.policy.max_inactive_bytes
  pub catch_up : p.catch_up_bytes ≡ count_chunk_bytes p.catch_up_queue
  pub catch_up_chunks : length p.catch_up_queue ≤ p.policy.max_inactive_chunks
  pub catch_up_limit : p.catch_up_bytes ≤ p.policy.max_inactive_bytes

-- What an eviction loop leaves has room for the chunk, or is empty.
abbrev HasRoom : (queue : List Chunk) (bytes extra : ℕ) → Policy → Type 0
HasRoom queue bytes extra policy =
    (bytes ≡ count_chunk_bytes queue)
    × (length queue < policy.max_inactive_chunks)
    × ((queue ≡ []) ⊎ (bytes + extra ≤ policy.max_inactive_bytes))

-- The fields that the catch-up queue's operations leave alone.
abbrev SameQueues : Pipeline → Pipeline → Type 0
SameQueues p q =
    (q.policy ≡ p.policy)
    × (q.live_queue ≡ p.live_queue)
    × (q.live_bytes ≡ p.live_bytes)
    × (q.inactive_queue ≡ p.inactive_queue)
    × (q.inactive_bytes ≡ p.inactive_bytes)

abbrev EvictsCatchUp : ℕ → Pipeline → Pipeline → Type 0
EvictsCatchUp extra p q = HasRoom q.catch_up_queue q.catch_up_bytes extra q.policy × SameQueues p q

evict_catch_up_lem :
    (queue : List Chunk) (extra : ℕ) (p : Pipeline)
    → 1 ≤ p.policy.max_inactive_chunks
    → p.catch_up_bytes ≡ count_chunk_bytes queue
    → EvictsCatchUp extra p (evict_catch_up queue extra p)
unfolding evict_catch_up drop_catch_up
evict_catch_up_lem [] extra p h e = ((e, omega arith, inl refl), (refl, refl, refl, refl, refl))
evict_catch_up_lem (c ∷ queue) extra p h e =
    if_cases (EvictsCatchUp extra p) (is_full p.policy (length (c ∷ queue)) p.catch_up_bytes extra)
      (λ full. evict_catch_up_lem queue extra (drop_catch_up c p) h (omega arith))
      (λ room. ((e, ground arith, inr (ground arith)), (refl, refl, refl, refl, refl)))

-- The fields that the inactive queue's eviction leaves alone.
abbrev SameOthers : Pipeline → Pipeline → Type 0
SameOthers p q =
    (q.policy ≡ p.policy)
    × (q.live_queue ≡ p.live_queue)
    × (q.live_bytes ≡ p.live_bytes)
    × (q.catch_up_queue ≡ p.catch_up_queue)
    × (q.catch_up_bytes ≡ p.catch_up_bytes)

abbrev EvictsInactive : ℕ → Pipeline → Pipeline → Type 0
EvictsInactive extra p q = HasRoom q.inactive_queue q.inactive_bytes extra q.policy × SameOthers p q

evict_inactive_lem :
    (queue : List Chunk) (extra : ℕ) (p : Pipeline)
    → 1 ≤ p.policy.max_inactive_chunks
    → p.inactive_bytes ≡ count_chunk_bytes queue
    → EvictsInactive extra p (evict_inactive queue extra p)
unfolding evict_inactive drop_inactive
evict_inactive_lem [] extra p h e = ((e, omega arith, inl refl), (refl, refl, refl, refl, refl))
evict_inactive_lem (c ∷ queue) extra p h e =
    if_cases (EvictsInactive extra p) (is_full p.policy (length (c ∷ queue)) p.inactive_bytes extra)
      (λ full. evict_inactive_lem queue extra (drop_inactive c p) h (omega arith))
      (λ room. ((e, ground arith, inr (ground arith)), (refl, refl, refl, refl, refl)))

append_catch_up-IsCounted :
    (chunk : Chunk) (p q : Pipeline)
    → size chunk ≤ p.policy.max_inactive_bytes
    → IsCounted p
    → EvictsCatchUp (size chunk) p q
    → IsCounted (append_catch_up chunk q)
unfolding append_catch_up
append_catch_up-IsCounted chunk p q fits v e = ground (
  arith,
  count_chunk_bytes-append q.catch_up_queue (chunk ∷ []),
  length-append q.catch_up_queue (chunk ∷ []),
)

pub enqueue_catch_up-IsCounted :
    (chunk : Chunk) (counted : Bool) (p : Pipeline)
    → IsCounted p
    → IsCounted (enqueue_catch_up chunk counted p)
unfolding enqueue_catch_up
enqueue_catch_up-IsCounted chunk counted p v =
    if_cases IsCounted (is_known (sequence_of chunk) p.catch_up_sequences) (λ known. ground arith)
      (λ fresh.
        if_cases IsCounted (ltb p.policy.max_inactive_bytes (size chunk)) (λ large. ground arith)
          (λ fits. append_catch_up-IsCounted chunk p _ (ground arith) v (
            evict_catch_up_lem p.catch_up_queue (size chunk)
              (record p { stats = count_enqueued counted chunk p.stats }) v.positive v.catch_up)))

enqueue_catch_up_all-IsCounted :
    (chunks : List Chunk) (p : Pipeline) → IsCounted p → IsCounted (enqueue_catch_up_all chunks p)
unfolding enqueue_catch_up_all
enqueue_catch_up_all-IsCounted [] p v = v
enqueue_catch_up_all-IsCounted (c ∷ cs) p v =
    enqueue_catch_up_all-IsCounted cs (enqueue_catch_up c false p)
      (enqueue_catch_up-IsCounted c false p v)

begin_catch_up-IsCounted :
    (overflows : ℕ) (p : Pipeline) → IsCounted p → IsCounted (begin_catch_up overflows p)
unfolding begin_catch_up clear_queues cancel_frame_if_scheduled
begin_catch_up-IsCounted overflows p v =
    enqueue_catch_up_all-IsCounted (p.inactive_queue ++ p.live_queue) _ (ground arith)

pub request_catch_up_for_gap-IsCounted :
    (chunk : Chunk) (observed expected : ℕ) (counted : Bool) (p : Pipeline)
    → IsCounted p
    → IsCounted (request_catch_up_for_gap chunk observed expected counted p)
unfolding request_catch_up_for_gap
request_catch_up_for_gap-IsCounted chunk observed expected counted p v =
    let w =
      enqueue_catch_up-IsCounted chunk counted (begin_catch_up 0 p)
        (begin_catch_up-IsCounted 0 p v) in
    ground arith

request_catch_up_for_inactive_overflow-IsCounted :
    (chunk : Chunk) (p : Pipeline)
    → IsCounted p
    → IsCounted (request_catch_up_for_inactive_overflow chunk p)
unfolding request_catch_up_for_inactive_overflow
request_catch_up_for_inactive_overflow-IsCounted chunk p v =
    let w =
      enqueue_catch_up-IsCounted chunk false (begin_catch_up 1 p)
        (begin_catch_up-IsCounted 1 p v) in
    ground arith

append_inactive-IsCounted :
    (chunk : Chunk) (p : Pipeline)
    → length p.inactive_queue < p.policy.max_inactive_chunks
    → ((p.inactive_queue ≡ []) ⊎ (p.inactive_bytes + size chunk ≤ p.policy.max_inactive_bytes))
    → IsCounted p
    → IsCounted (append_inactive chunk p)
unfolding append_inactive count_overflow drop_accepted_chunk forget_queued_sequence
append_inactive-IsCounted chunk p room fits v =
    if_cases IsCounted (ltb p.policy.max_inactive_bytes (size chunk)) (λ large. ground arith)
      (λ small. ground (
        arith,
        count_chunk_bytes-append p.inactive_queue (chunk ∷ []),
        length-append p.inactive_queue (chunk ∷ []),
      ))

evicted-IsCounted :
    (extra : ℕ) (p q : Pipeline) → IsCounted p → EvictsInactive extra p q → IsCounted q
evicted-IsCounted extra p q v e = elim e.0.2 [
  | inl none_left ↦ ground (arith, ap count_chunk_bytes none_left)
  | inr fits ↦ ground arith
]

pub enqueue_inactive-IsCounted :
    (chunk : Chunk) (p : Pipeline) → IsCounted p → IsCounted (enqueue_inactive chunk p)
unfolding enqueue_inactive count_overflow
enqueue_inactive-IsCounted chunk p v =
    if_cases IsCounted (is_full p.policy (length p.inactive_queue) p.inactive_bytes (size chunk))
      (λ full.
        if_cases IsCounted p.catches_up
          (λ asks. request_catch_up_for_inactive_overflow-IsCounted chunk p v)
          (λ drops.
            let e =
              evict_inactive_lem p.inactive_queue (size chunk) (count_overflow p) v.positive
                v.inactive in
            let q = evict_inactive p.inactive_queue (size chunk) (count_overflow p) in
            append_inactive-IsCounted chunk q (ground arith) (ground arith)
              (evicted-IsCounted (size chunk) (count_overflow p) q (ground arith) e)))
      (λ room. append_inactive-IsCounted chunk p (ground arith) (inr (ground arith)) v)
