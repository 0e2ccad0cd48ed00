-- ===== src/Client/Queue.antt =====
-- live/client.ts: the bytes of input that wait to be written.
use floeterm.Common.{
  ℕ, ◌+◌, ◌≤◌, ◌≡◌, refl, ap, if_cases, Bool, true, false, ◌||◌, List, [], ◌∷◌, ◌++◌, Option,
  length, ltb, ◌==◌, arith,
}
use floeterm.Common.Number.{Number}
use floeterm.Common.Fallible.{ok, err}
use floeterm.Live.Failure.{Outcome}
use floeterm.Live.Bytes.{Bytes}
use floeterm.Live.Frame.{max_input_bytes}
use floeterm.Client.State.{
  Problem, Connection, WriteJob, input_job, resize_job, max_queued_input_bytes,
}
use floeterm.Client.Writes.{
  send_input, resize, write_input, write_resize, run_job, write_next, finish_input,
}
use floeterm.Client.Events.{
  Event, send_called, resize_called, close_called, write_ended, frame_read, end_read, read_failed,
  step, steps,
}

-- The bytes of the inputs whose promises have not settled.
abbrev pub unsettled : List WriteJob → ℕ
unsettled [] = 0
unsettled (input_job sequence rest total ∷ jobs) = total + unsettled jobs
unsettled (resize_job sequence cols rows ∷ jobs) = unsettled jobs

unsettled-append : (xs ys : List WriteJob) → unsettled (xs ++ ys) ≡ unsettled xs + unsettled ys
unsettled-append [] ys = omega arith
unsettled-append (input_job sequence rest total ∷ xs) ys = omega (arith, unsettled-append xs ys)
unsettled-append (resize_job sequence cols rows ∷ xs) ys = unsettled-append xs ys

module _ {Text : Type 0} where
  pub record IsBounded (c : Connection Text) : Type 0 where
    pub exact : c.queued_input_bytes ≡ unsettled c.jobs
    pub limit : c.queued_input_bytes ≤ max_queued_input_bytes

  abbrev Bounded : Option (Problem Text) × Connection Text → Type 0
  Bounded r = IsBounded (r.1)

  pub send_input-IsBounded :
      (bytes : Bytes) (c : Connection Text) → IsBounded c → IsBounded ((send_input bytes c).1)
  unfolding send_input
  send_input-IsBounded bytes c v =
      if_cases Bounded c.closed (λ closed. v)
        (λ is_open.
          if_cases Bounded (length bytes == 0) (λ blank. v)
            (λ filled.
              if_cases Bounded
                (ltb max_queued_input_bytes (length bytes)
                  || ltb max_queued_input_bytes (c.queued_input_bytes + length bytes))
                (λ full. v)
                (λ fits. ground (
                  arith,
                  unsettled-append c.jobs
                      (input_job (c.input_sequence + 1) bytes (length bytes) ∷ []),
                ))))

  pub resize-IsBounded :
      (cols rows : Number) (c : Connection Text) → IsBounded c → IsBounded ((resize cols rows c).1)
  unfolding resize
  resize-IsBounded cols rows c v =
      if_cases Bounded c.closed (λ closed. v)
        (λ is_open.
          ground
            (arith, unsettled-append c.jobs (resize_job (c.resize_sequence + 1) cols rows ∷ [])))

  write_input-IsBounded :
      (succeeds : Bool) (o : Outcome Bytes) (sequence : ℕ) (rest : Bytes) (total : ℕ)
      (jobs : List WriteJob) (c : Connection Text)
      → c.queued_input_bytes ≡ total + unsettled jobs
      → c.queued_input_bytes ≤ max_queued_input_bytes
      → IsBounded (write_input succeeds o sequence rest total jobs c)
  unfolding write_input finish_input
  write_input-IsBounded succeeds (err e) sequence rest total jobs c h k = ground arith
  write_input-IsBounded false (ok bytes) sequence rest total jobs c h k = ground arith
  write_input-IsBounded true (ok bytes) sequence rest total jobs c h k =
      if_cases IsBounded (ltb max_input_bytes (length rest)) (λ more. ground arith)
        (λ last. ground arith)

  write_resize-IsBounded :
      (succeeds : Bool) (o : Outcome Bytes) (sequence : ℕ) (jobs : List WriteJob)
      (c : Connection Text)
      → c.queued_input_bytes ≡ unsettled jobs
      → c.queued_input_bytes ≤ max_queued_input_bytes
      → IsBounded (write_resize succeeds o sequence jobs c)
  unfolding write_resize
  write_resize-IsBounded succeeds (err e) sequence jobs c h k = ground arith
  write_resize-IsBounded false (ok bytes) sequence jobs c h k = ground arith
  write_resize-IsBounded true (ok bytes) sequence jobs c h k = ground arith

  run_job-IsBounded :
      (succeeds : Bool) (jobs : List WriteJob) (c : Connection Text)
      → c.queued_input_bytes ≡ unsettled jobs
      → c.jobs ≡ jobs
      → c.queued_input_bytes ≤ max_queued_input_bytes
      → IsBounded (run_job succeeds jobs c)
  unfolding run_job
  run_job-IsBounded succeeds [] c h e k = ground (arith, ap unsettled e)
  run_job-IsBounded succeeds (input_job sequence rest total ∷ jobs) c h e k =
      write_input-IsBounded succeeds _ sequence rest total jobs c h k
  run_job-IsBounded succeeds (resize_job sequence cols rows ∷ jobs) c h e k =
      write_resize-IsBounded succeeds _ sequence jobs c h k

  pub write_next-IsBounded :
      (succeeds : Bool) (c : Connection Text) → IsBounded c → IsBounded (write_next succeeds c)
  unfolding write_next
  write_next-IsBounded succeeds c v = run_job-IsBounded succeeds c.jobs c v.exact refl v.limit

module _ {Text : Type 0} (decode_text : Bytes → Option Text) where
  -- Calls that queue input or a resize, and writes.
  abbrev pub AllWriting : List (Event Text) → Type 0
  AllWriting [] = Unit
  AllWriting (send_called bytes ∷ es) = AllWriting es
  AllWriting (resize_called cols rows ∷ es) = AllWriting es
  AllWriting (write_ended succeeds ∷ es) = AllWriting es
  AllWriting (_ ∷ es) = ⊥

  -- However sends, resizes and writes that succeed or fail follow each other, the count of queued
  -- bytes is the size of the inputs whose promises have not settled, and at most eight mebibytes.
  pub steps-IsBounded :
      (es : List (Event Text)) (c : Connection Text)
      → AllWriting es
      → IsBounded c
      → IsBounded (steps decode_text es c)
  unfolding steps step
  steps-IsBounded [] c h v = v
  steps-IsBounded (send_called bytes ∷ es) c h v =
      steps-IsBounded es ((send_input bytes c).1) h (send_input-IsBounded bytes c v)
  steps-IsBounded (resize_called cols rows ∷ es) c h v =
      steps-IsBounded es ((resize cols rows c).1) h (resize-IsBounded cols rows c v)
  steps-IsBounded (write_ended succeeds ∷ es) c h v =
      steps-IsBounded es (write_next succeeds c) h (write_next-IsBounded succeeds c v)
  steps-IsBounded (close_called ∷ es) c h v = absurd h
  steps-IsBounded (frame_read frame ∷ es) c h v = absurd h
  steps-IsBounded (end_read ∷ es) c h v = absurd h
  steps-IsBounded (read_failed e ∷ es) c h v = absurd h
