-- ===== src/Client/Course.antt =====
-- live/client.ts: the order of the output over every course that a connection can take.
use floeterm.Common.{
  ℕ, ◌+◌, ◌≡◌, refl, sym, subst, if_cases, Bool, true, false, ◌||◌, List, [], ◌∷◌, Option, none,
  some, length, ltb, ◌==◌,
}
use floeterm.Common.Fallible.{ok, err, >>=-eq-ok}
use floeterm.Common.Number.{Number}
use floeterm.Live.Failure.{Outcome}
use floeterm.Live.Frame.{max_input_bytes}
use floeterm.Client.State.{connection_closed, written, input_resolved}
use floeterm.Common.{if◌then◌else◌}
use floeterm.Live.Bytes.{Bytes}
use floeterm.Live.Messages.{Attached}
use floeterm.Client.State.{
  Problem, ended, stream_closed, stream_reset, error_reported, closed_reported, stream_ended,
  Connection, WriteJob, input_job, resize_job, report, reject_resize_waiters, fail, to_safe_number,
  close, construct, connected, max_queued_input_bytes,
}
use floeterm.Client.Geometry.{Step}
use floeterm.Client.Frames.{handle_frame, continue_reading, receive, receive_end, receive_failure}
use floeterm.Client.Writes.{
  send_input, resize, write_input, write_resize, run_job, write_next, finish_input,
}
use floeterm.Client.Events.{
  Event, send_called, resize_called, close_called, write_ended, frame_read, end_read, read_failed,
  step, steps,
}
use floeterm.Client.Delivered.{Run, delivered, quiet}
use floeterm.Client.InOrder.{InOrder, LevelStep}
use floeterm.Client.Sequence.{
  IsSound, Still, Still-IsSound, reject_resize_waiters-Still, report-Still, handle_type-LevelStep,
}

module _ {Text : Type 0} where
  stopped-IsSound :
      (from : ℕ) (c d : Connection Text)
      → InOrder from c
      → delivered d.log ≡ delivered c.log
      → d.reading ≡ false
      → IsSound from d
  stopped-IsSound from c d h same stops =
      ((h.0, subst (λ ns. Run from ns h.0) (sym same) h.1), (λ reads. absurd cc))

  ending_blank :
      (b : Bool) (e : Problem Text)
      → delivered ((if b then stream_reset e else stream_closed) ∷ []) ≡ []
  unfolding delivered
  ending_blank true e = refl
  ending_blank false e = refl

  fail-IsSound :
      (from : ℕ) (e : Problem Text) (c : Connection Text) → InOrder from c → IsSound from (fail e c)
  unfolding fail delivered
  fail-IsSound from e c h =
      if_cases (IsSound from) c.failed
        (λ again. stopped-IsSound from c (record c { reading = false }) h refl refl)
        (λ first.
          let d = record c { failed = true; closed = true; reading = false } in
          let r = reject_resize_waiters e d in
          let s =
            report-Still (if c.resets then stream_reset e else stream_closed) d
              (report (error_reported e) r) (ending_blank c.resets e)
              (report-Still (error_reported e) d r refl (reject_resize_waiters-Still e d)) in
          stopped-IsSound from d
            (report (if c.resets then stream_reset e else stream_closed)
              (report (error_reported e) r))
            h s.0.0 s.1)

  close-IsSound : (from : ℕ) (c : Connection Text) → IsSound from c → IsSound from (close c)
  unfolding close delivered
  close-IsSound from c h =
      if_cases (IsSound from) c.closed (λ again. h)
        (λ first.
          let d = record c { closed = true } in
          let r = reject_resize_waiters connection_closed d in
          Still-IsSound from d (report stream_closed r) h
            (report-Still stream_closed d r refl (reject_resize_waiters-Still connection_closed d)))

  -- Writes deliver nothing.
  write_input-Still :
      (succeeds : Bool) (o : Outcome Bytes) (sequence : ℕ) (rest : Bytes) (total : ℕ)
      (jobs : List WriteJob) (c : Connection Text)
      → Still c (write_input succeeds o sequence rest total jobs c)
  unfolding write_input finish_input delivered
  write_input-Still succeeds (err e) sequence rest total jobs c = ((quiet c _ refl, refl), refl)
  write_input-Still false (ok bytes) sequence rest total jobs c = ((quiet c _ refl, refl), refl)
  write_input-Still true (ok bytes) sequence rest total jobs c =
      if_cases (Still c) (ltb max_input_bytes (length rest))
        (λ more. ((quiet c (written bytes) refl, refl), refl))
        (λ last.
          let d = finish_input total jobs (report (written bytes) c) in
          report-Still input_resolved c d refl ((quiet c (written bytes) refl, refl), refl))

  write_resize-Still :
      (succeeds : Bool) (o : Outcome Bytes) (sequence : ℕ) (jobs : List WriteJob)
      (c : Connection Text)
      → Still c (write_resize succeeds o sequence jobs c)
  unfolding write_resize delivered
  write_resize-Still succeeds (err e) sequence jobs c = ((quiet c _ refl, refl), refl)
  write_resize-Still false (ok bytes) sequence jobs c = ((quiet c _ refl, refl), refl)
  write_resize-Still true (ok bytes) sequence jobs c = ((quiet c _ refl, refl), refl)

  run_job-Still :
      (succeeds : Bool) (jobs : List WriteJob) (c : Connection Text)
      → Still c (run_job succeeds jobs c)
  unfolding run_job
  run_job-Still succeeds [] c = ((refl, refl), refl)
  run_job-Still succeeds (input_job sequence rest total ∷ jobs) c =
      write_input-Still succeeds _ sequence rest total jobs c
  run_job-Still succeeds (resize_job sequence cols rows ∷ jobs) c =
      write_resize-Still succeeds _ sequence jobs c

  abbrev StillAnswer : Connection Text → Option (Problem Text) × Connection Text → Type 0
  StillAnswer c r = Still c (r.1)

  send_input-Still : (bytes : Bytes) (c : Connection Text) → StillAnswer c (send_input bytes c)
  unfolding send_input
  send_input-Still bytes c =
      if_cases (StillAnswer c) c.closed (λ closed. ((refl, refl), refl))
        (λ is_open.
          if_cases (StillAnswer c) (length bytes == 0) (λ blank. ((refl, refl), refl))
            (λ filled.
              if_cases (StillAnswer c)
                (ltb max_queued_input_bytes (length bytes)
                  || ltb max_queued_input_bytes (c.queued_input_bytes + length bytes))
                (λ full. ((refl, refl), refl)) (λ fits. ((refl, refl), refl))))

  resize-Still : (cols rows : Number) (c : Connection Text) → StillAnswer c (resize cols rows c)
  unfolding resize
  resize-Still cols rows c =
      if_cases (StillAnswer c) c.closed (λ closed. ((refl, refl), refl))
        (λ is_open. ((refl, refl), refl))

module _ {Text : Type 0} (decode_text : Bytes → Option Text) where
  continue_reading-IsSound :
      (from : ℕ) (r : Step Text) → LevelStep from r → IsSound from (continue_reading decode_text r)
  unfolding continue_reading
  continue_reading-IsSound from (none, c) h = ((c.next_output_sequence, h), (λ reads. h))
  continue_reading-IsSound from (some e, c) h = fail-IsSound from e c h

  receive_end-IsSound :
      (from : ℕ) (c : Connection Text) → IsSound from c → IsSound from (receive_end decode_text c)
  unfolding receive_end delivered
  receive_end-IsSound from c h =
      if_cases (IsSound from) c.reading
        (λ reads.
          let d = record c { closed = true; reading = false } in
          let r = reject_resize_waiters ended d in
          let s =
            report-Still (closed_reported stream_ended) d r refl
              (reject_resize_waiters-Still ended d) in
          stopped-IsSound from d (report (closed_reported stream_ended) r) h.0 s.0.0 s.1)
        (λ stopped. h)

  step-IsSound :
      (from : ℕ) (e : Event Text) (c : Connection Text)
      → IsSound from c
      → IsSound from (step decode_text e c)
  unfolding step receive receive_failure handle_frame write_next
  step-IsSound from (send_called bytes) c h =
      Still-IsSound from c ((send_input bytes c).1) h (send_input-Still bytes c)
  step-IsSound from (resize_called cols rows) c h =
      Still-IsSound from c ((resize cols rows c).1) h (resize-Still cols rows c)
  step-IsSound from close_called c h = close-IsSound from c h
  step-IsSound from (write_ended succeeds) c h =
      Still-IsSound from c (run_job succeeds c.jobs c) h (run_job-Still succeeds c.jobs c)
  step-IsSound from (frame_read frame) c h =
      if_cases (IsSound from) c.reading
        (λ reads.
          continue_reading-IsSound from (handle_frame decode_text frame c)
            (handle_type-LevelStep decode_text from frame.type frame c (h.1 reads)))
        (λ stopped. h)
  step-IsSound from end_read c h = receive_end-IsSound from c h
  step-IsSound from (read_failed e) c h =
      if_cases (IsSound from) c.reading (λ reads. fail-IsSound from e c h.0) (λ stopped. h)

  steps-IsSound :
      (from : ℕ) (es : List (Event Text)) (c : Connection Text)
      → IsSound from c
      → IsSound from (steps decode_text es c)
  unfolding steps
  steps-IsSound from [] c h = h
  steps-IsSound from (e ∷ es) c h =
      steps-IsSound from es (step decode_text e c) (step-IsSound from e c h)

  connected-IsSound :
      (resets : Bool) (attached : Attached) (boundary history start generation : ℕ)
      → IsSound {Text = Text}
          (boundary + 1)
          (connected resets attached boundary history start generation)
  unfolding connected delivered
  connected-IsSound resets attached boundary history start generation =
      ((boundary + 1, refl), (λ reads. refl))

  construct-IsSound :
      (resets : Bool) (attached : Attached) (c : Connection Text)
      → construct resets attached ≡ ok c
      → IsSound (c.attached.history_boundary_sequence + 1) c
  unfolding construct
  construct-IsSound resets attached c h =
      let (boundary, b, h1) = >>=-eq-ok (to_safe_number attached.history_boundary_sequence) _ h in
      let (history, i, h2) = >>=-eq-ok (to_safe_number attached.history_generation) _ h1 in
      let (start, s, h3) = >>=-eq-ok (to_safe_number attached.history_start_sequence) _ h2 in
      let (generation, g, h4) = >>=-eq-ok (to_safe_number attached.geometry_generation) _ h3 in
      let e : connected resets attached boundary history start generation ≡ c = cc in
      subst (λ (d : Connection Text). IsSound (d.attached.history_boundary_sequence + 1) d) e
        (connected-IsSound resets attached boundary history start generation)

  -- Once a stream has been attached, whatever is called, written and read, in any order and with any
  -- failures, the sequences of all output that the connection has delivered are the numbers from the
  -- one behind the history's boundary on, without a gap, a repetition or an exchange.
  pub delivered-Run :
      (resets : Bool) (attached : Attached) (es : List (Event Text)) (c : Connection Text)
      → construct resets attached ≡ ok c
      → InOrder (c.attached.history_boundary_sequence + 1) (steps decode_text es c)
  delivered-Run resets attached es c h =
      (steps-IsSound (c.attached.history_boundary_sequence + 1) es c
        (construct-IsSound resets attached c h)).0
