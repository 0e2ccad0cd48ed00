-- ===== src/Pipeline/Flushed.antt =====
-- TerminalOutputPipeline.ts: what a flush writes.
use floeterm.Common.{
  ℕ, zero, suc, ◌<◌, ◌≡◌, refl, sym, ap, ap₂, ◌∙◌, if_cases, max, Bool, true, false, ◌||◌, not,
  List, [], ◌∷◌, ◌++◌, length, arith, append-nil, append_assoc, length-drop,
}
use floeterm.Pipeline.State.{
  Chunk, Pipeline, written, drained, frame_canceled, take_chunk_batch, cancel_frame_if_scheduled,
  is_empty, emit_drain_if_idle, batch_count, mark_applied, promote_inactive_queue, concat_chunks,
}
use floeterm.Pipeline.Calls.{
  send, write_batch, flush_next_batch, next_batch, flush_rounds, flush_now,
}
use floeterm.Pipeline.Output.{
  output, output-append, concat_chunks-append, take-drop_append, is_empty_lem, not-eq-false,
  is_empty-take,
}

-- What marking chunks as applied leaves alone.
abbrev SameOutput : Pipeline → Pipeline → Type 0
SameOutput p q =
    (q.policy ≡ p.policy)
    × (q.live_queue ≡ p.live_queue)
    × (q.inactive_queue ≡ p.inactive_queue)
    × (q.log ≡ p.log)

mark_applied-SameOutput :
    (chunks : List Chunk) (p : Pipeline) → SameOutput p (mark_applied chunks p)
unfolding mark_applied
mark_applied-SameOutput [] p = (refl, refl, refl, refl)
mark_applied-SameOutput (c ∷ cs) p = mark_applied-SameOutput cs _

-- What a batch leaves: everything else as it was, the bytes moved from the queue to the log.
abbrev Writes : Pipeline → List Chunk → Pipeline → Type 0
Writes p rest q =
    (q.policy ≡ p.policy)
    × (q.live_queue ≡ rest)
    × (q.inactive_queue ≡ p.inactive_queue)
    × (output q.log ++ concat_chunks rest ≡ output p.log ++ concat_chunks p.live_queue)

-- The payload, where there is one, is what the log gains.
send-output :
    (batch rest : List Chunk) (p : Pipeline)
    → output (send batch rest p).log ≡ output p.log ++ concat_chunks batch
unfolding send output
send-output batch rest p =
    if_cases (λ log. output log ≡ output p.log ++ concat_chunks batch)
      (is_empty (concat_chunks batch))
      (λ blank. sym (ap (λ o. output p.log ++ o) (is_empty_lem _ blank) ∙ append-nil _))
      (λ full.
        output-append p.log (written (concat_chunks batch) batch ∷ [])
        ∙ ap (λ o. output p.log ++ o) (append-nil (concat_chunks batch)))

write_batch-Writes :
    (batch rest : List Chunk) (p : Pipeline)
    → batch ++ rest ≡ p.live_queue
    → Writes p rest (write_batch batch rest p)
unfolding write_batch
write_batch-Writes batch rest p whole =
    let same = mark_applied-SameOutput batch (send batch rest p) in (same.0, same.1, same.2, moved)
  where
    moved :
        output (write_batch batch rest p).log ++ concat_chunks rest
        ≡ output p.log ++ concat_chunks p.live_queue
    moved =
        ap (λ log. output log ++ concat_chunks rest)
          ((mark_applied-SameOutput batch (send batch rest p)).3)
        ∙ ap (λ o. o ++ concat_chunks rest) (send-output batch rest p)
        ∙ append_assoc (output p.log) (concat_chunks batch) (concat_chunks rest)
        ∙ ap (λ o. output p.log ++ o)
            (sym (concat_chunks-append batch rest) ∙ ap concat_chunks whole)

take_chunk_batch-append :
    (queue : List Chunk) (m n : ℕ)
    → (take_chunk_batch queue m n).0 ++ (take_chunk_batch queue m n).1 ≡ queue
unfolding take_chunk_batch
take_chunk_batch-append [] m n = refl
take_chunk_batch-append (c ∷ queue) m n = take-drop_append _ (c ∷ queue)

-- A batch takes a chunk at least.
take_chunk_batch-length :
    (queue : List Chunk) (m n : ℕ)
    → is_empty ((take_chunk_batch queue m n).0) ≡ false
    → length ((take_chunk_batch queue m n).1) < length queue
unfolding take_chunk_batch
take_chunk_batch-length [] m n h = cc
take_chunk_batch-length (c ∷ queue) m n h =
    omega (arith, length-drop (max 1 (batch_count m n (c ∷ queue) 0 0)) (c ∷ queue))

take_chunk_batch_empty :
    (queue : List Chunk) (m n : ℕ) → is_empty ((take_chunk_batch queue m n).0) ≡ true → queue ≡ []
unfolding take_chunk_batch
take_chunk_batch_empty [] m n h = refl
take_chunk_batch_empty (c ∷ queue) m n h =
    let filled = is_empty-take (max 1 (batch_count m n (c ∷ queue) 0 0)) c queue (omega arith) in cc

-- After a round, with its answer: the queue is empty, or there is more and it is shorter.
abbrev Flushes : Pipeline → Bool × Pipeline → Type 0
Flushes p r =
    ((r.1).policy ≡ p.policy)
    × ((r.1).inactive_queue ≡ p.inactive_queue)
    × (output (r.1).log ++ concat_chunks (r.1).live_queue
        ≡ output p.log ++ concat_chunks p.live_queue)
    × (r.0 ≡ false → (r.1).live_queue ≡ [])
    × (r.0 ≡ true → length (r.1).live_queue < length p.live_queue)

flush_next_batch-Flushes : (p : Pipeline) → Flushes p (flush_next_batch p)
unfolding flush_next_batch
flush_next_batch-Flushes p =
    if_cases (Flushes p) (is_empty ((next_batch p).0))
      (λ blank. (refl, refl, refl, (λ h. take_chunk_batch_empty p.live_queue _ _ blank), (λ h. cc)))
      (λ full.
        let w =
          write_batch-Writes ((next_batch p).0) ((next_batch p).1) p
            (take_chunk_batch-append p.live_queue _ _) in
        (
          w.0,
          w.2,
          ap
                (λ queue.
                  output (write_batch ((next_batch p).0) ((next_batch p).1) p).log
                  ++ concat_chunks queue)
                w.1
              ∙ w.3,
          (λ done. w.1 ∙ is_empty_lem ((next_batch p).1) (not-eq-false _ done)),
          (λ more. omega (arith, ap length w.1, take_chunk_batch-length p.live_queue _ _ full)),
        ))

-- A whole flush: the queue is empty and its bytes are written.
abbrev Drains : Pipeline → Pipeline → Type 0
Drains p q =
    (q.inactive_queue ≡ p.inactive_queue)
    × (q.live_queue ≡ [])
    × (output q.log ≡ output p.log ++ concat_chunks p.live_queue)

-- As many rounds as the queue has chunks, and one, are enough.
flush_rounds-Drains :
    (rounds : ℕ) (p : Pipeline) → length p.live_queue < rounds → Drains p (flush_rounds rounds p)
unfolding flush_rounds concat_chunks
flush_rounds-Drains zero p enough = absurd (omega arith)
flush_rounds-Drains (suc rounds) p enough =
    let w = flush_next_batch-Flushes p in
    let q = (flush_next_batch p).1 in
    if_cases (Drains p) ((flush_next_batch p).0)
      (λ more.
        let d = flush_rounds-Drains rounds q (omega (arith, w.4 more)) in
        (d.0 ∙ w.1, d.1, d.2 ∙ w.2))
      (λ done. (
        w.1,
        w.3 done,
        sym (append-nil (output q.log))
            ∙ ap (λ queue. output q.log ++ concat_chunks queue) (sym (w.3 done))
            ∙ w.2,
      ))

emit_drain_if_idle-output : (p : Pipeline) → output (emit_drain_if_idle p).log ≡ output p.log
unfolding emit_drain_if_idle output
emit_drain_if_idle-output p =
    if_cases (λ log. output log ≡ output p.log)
      (p.disposed
        || p.catch_up_pending
        || not (is_empty p.live_queue)
        || not (is_empty p.inactive_queue)
        || p.frame_scheduled)
      (λ busy. refl) (λ idle. output-append p.log (drained ∷ []) ∙ append-nil (output p.log))

cancel_frame_if_scheduled-output :
    (p : Pipeline) → output (cancel_frame_if_scheduled p).log ≡ output p.log
unfolding cancel_frame_if_scheduled output
cancel_frame_if_scheduled-output p =
    if_cases (λ log. output log ≡ output p.log) p.frame_scheduled
      (λ due. output-append p.log (frame_canceled ∷ []) ∙ append-nil (output p.log)) (λ idle. refl)

abbrev Promotes : Pipeline → Pipeline → Type 0
Promotes p q =
    (q.live_queue ≡ p.live_queue ++ p.inactive_queue) × (q.inactive_queue ≡ []) × (q.log ≡ p.log)

promote_inactive_queue_lem : (p : Pipeline) → Promotes p (promote_inactive_queue p)
unfolding promote_inactive_queue
promote_inactive_queue_lem p =
    if_cases (Promotes p) (is_empty p.inactive_queue)
      (λ blank.
        let e = is_empty_lem p.inactive_queue blank in
        (sym (append-nil p.live_queue) ∙ ap (λ i. p.live_queue ++ i) (sym e), e, refl))
      (λ full. (refl, refl, refl))

abbrev pub FlushedWhole : Pipeline → Pipeline → Type 0
FlushedWhole p q =
    (q.live_queue ≡ [])
    × (q.inactive_queue ≡ [])
    × (output q.log ≡ output p.log ++ concat_chunks (p.live_queue ++ p.inactive_queue))

-- An immediate flush of an interactive pipeline that is not disposed and not waiting for a catch-up
-- empties both queues, and what it writes is the live queue's bytes followed by the inactive queue's.
pub flush_now_lem :
    (p : Pipeline)
    → p.disposed ≡ false
    → p.catch_up_pending ≡ false
    → FlushedWhole p (flush_now true p)
unfolding flush_now cancel_frame_if_scheduled emit_drain_if_idle
flush_now_lem p alive flows =
    if_cases (FlushedWhole p) (p.disposed || p.catch_up_pending) (λ stopped. absurd (ground arith))
      (λ running.
        let c = cancel_frame_if_scheduled p in
        let q = promote_inactive_queue c in
        let d = flush_rounds-Drains (suc (length q.live_queue)) q (omega arith) in
        let e = promote_inactive_queue_lem c in
        (
          d.1,
          d.0 ∙ e.1,
          emit_drain_if_idle-output (flush_rounds (suc (length q.live_queue)) q)
              ∙ d.2
              ∙ ap₂ (λ log queue. output log ++ concat_chunks queue) e.2 e.0
              ∙ ap (λ o. o ++ concat_chunks (p.live_queue ++ p.inactive_queue))
                  (cancel_frame_if_scheduled-output p),
        ))
