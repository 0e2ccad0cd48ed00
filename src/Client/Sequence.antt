-- ===== src/Client/Sequence.antt =====
-- live/client.ts: the order of the output over every course that a connection can take.
use floeterm.Common.{
  ℕ, ◌≡◌, refl, sym, ap, ◌∙◌, subst, if_cases, true, not, [], ◌∷◌, ◌++◌, Option, length, ◌==◌,
  append-nil,
}
use floeterm.Common.Sets.{contains}
use floeterm.Live.Bytes.{Bytes}
use floeterm.Live.Frame.{Frame, FrameType}
use floeterm.Live.Messages.{
  ResizeApplied, GeometryChanged, decode_resize_applied, decode_geometry_changed,
}
use floeterm.Live.Batch.{decode_output_batch}
use floeterm.Live.Attach.{decode_protocol_error}
use floeterm.Client.State.{
  magnitude, Problem, terminal_closed, stream_closed, closed_reported, session_closed, LiveGeometry,
  Connection, Effect, report, reject_resize_waiters, rejections, to_safe_number,
}
use floeterm.Client.Geometry.{queue_geometry, await_output}
use floeterm.Client.Frames.{
  thrown, handle_resize_applied, handle_geometry_changed, handle_session_closed, handle_type,
}
use floeterm.Client.Delivered.{
  Run, delivered, delivered-append, delivered-rejections, Silent, SilentStep, quiet,
  flush_pending_geometries-Silent,
}
use floeterm.Client.InOrder.{
  Level, InOrder, LevelStep, Level-Silent, LevelStep-Silent, with_value-LevelStep,
  handle_batch-LevelStep,
}

module _ {Text : Type 0} where
  -- While the loop reads, what has been counted has been delivered.
  abbrev pub IsSound : ℕ → Connection Text → Type 0
  IsSound from c = InOrder from c × (c.reading ≡ true → Level from c)

  -- Nothing is delivered, and the loop does not begin to read.
  abbrev pub Still : Connection Text → Connection Text → Type 0
  Still c d = Silent c d × (d.reading ≡ c.reading)

  pub Still-IsSound :
      (from : ℕ) (c d : Connection Text) → IsSound from c → Still c d → IsSound from d
  Still-IsSound from c d h s = (
    (h.0.0, subst (λ ns. Run from ns h.0.0) (sym s.0.0) h.0.1),
    (λ reads. Level-Silent from c d (h.1 (sym s.1 ∙ reads)) s.0),
  )

  pub reject_resize_waiters-Still :
      (e : Problem Text) (c : Connection Text) → Still c (reject_resize_waiters e c)
  unfolding reject_resize_waiters
  reject_resize_waiters-Still e c = (
    (
      delivered-append c.log (rejections e c.resize_waiters)
          ∙ ap (λ ns. delivered c.log ++ ns) (delivered-rejections e c.resize_waiters)
          ∙ append-nil (delivered c.log),
      refl,
    ),
    refl,
  )

  pub report-Still :
      (e : Effect Text) (c d : Connection Text)
      → delivered (e ∷ []) ≡ []
      → Still c d
      → Still c (report e d)
  report-Still e c d blank s = ((quiet d e blank ∙ s.0.0, s.0.1), s.1)

  queue_geometry-Silent :
      (geometry : LiveGeometry) (boundary : ℕ) (sequence : Option ℕ) (c : Connection Text)
      → SilentStep c (queue_geometry geometry boundary sequence c)
  unfolding queue_geometry
  queue_geometry-Silent geometry boundary sequence c =
      flush_pending_geometries-Silent (await_output geometry boundary sequence c)

  queue_geometry-LevelStep :
      (from : ℕ) (geometry : LiveGeometry) (boundary : ℕ) (sequence : Option ℕ)
      (c : Connection Text)
      → Level from c
      → LevelStep from (queue_geometry geometry boundary sequence c)
  queue_geometry-LevelStep from geometry boundary sequence c h =
      LevelStep-Silent from c (queue_geometry geometry boundary sequence c) h
        (queue_geometry-Silent geometry boundary sequence c)

  handle_resize_applied-LevelStep :
      (from : ℕ) (applied : ResizeApplied) (c : Connection Text)
      → Level from c
      → LevelStep from (handle_resize_applied applied c)
  unfolding handle_resize_applied
  handle_resize_applied-LevelStep from applied c h =
      if_cases (LevelStep from) (not (contains (magnitude applied.sequence) c.resize_waiters))
        (λ unknown. (c.next_output_sequence, h))
        (λ known.
          with_value-LevelStep from (to_safe_number applied.geometry_generation) c _ h
            (λ generation.
              with_value-LevelStep from (to_safe_number applied.output_sequence_boundary) c _ h
                (λ boundary. queue_geometry-LevelStep from _ _ _ c h)))

  handle_geometry_changed-LevelStep :
      (from : ℕ) (changed : GeometryChanged) (c : Connection Text)
      → Level from c
      → LevelStep from (handle_geometry_changed changed c)
  unfolding handle_geometry_changed
  handle_geometry_changed-LevelStep from changed c h =
      with_value-LevelStep from (to_safe_number changed.generation) c _ h (λ generation.
        with_value-LevelStep from (to_safe_number changed.output_sequence_boundary) c _ h
          (λ boundary. queue_geometry-LevelStep from _ _ _ c h))

  handle_session_closed-LevelStep :
      (from : ℕ) (frame : Frame) (c : Connection Text)
      → Level from c
      → LevelStep from (handle_session_closed frame c)
  unfolding handle_session_closed delivered
  handle_session_closed-LevelStep from frame c h =
      if_cases (LevelStep from) (not (length frame.payload == 0))
        (λ filled. (c.next_output_sequence, h))
        (λ blank.
          let d = record c { closed = true } in
          let e = reject_resize_waiters terminal_closed d in
          let s = report-Still stream_closed d (report (closed_reported session_closed) e) refl (
            report-Still (closed_reported session_closed) d e refl
              (reject_resize_waiters-Still terminal_closed d)) in
          Level-Silent from d (report stream_closed (report (closed_reported session_closed) e)) h
            s.0)

module _ {Text : Type 0} (decode_text : Bytes → Option Text) where
  pub handle_type-LevelStep :
      (from : ℕ) (type : FrameType) (frame : Frame) (c : Connection Text)
      → Level from c
      → LevelStep from (handle_type decode_text type frame c)
  unfolding handle_type
  handle_type-LevelStep from FrameType.output_batch frame c h =
      with_value-LevelStep from (thrown (decode_output_batch frame)) c _ h
        (λ batch. handle_batch-LevelStep from batch c h)
  handle_type-LevelStep from FrameType.resize_applied frame c h =
      with_value-LevelStep from (thrown (decode_resize_applied frame)) c _ h
        (λ applied. handle_resize_applied-LevelStep from applied c h)
  handle_type-LevelStep from FrameType.geometry_changed frame c h =
      with_value-LevelStep from (thrown (decode_geometry_changed frame)) c _ h
        (λ changed. handle_geometry_changed-LevelStep from changed c h)
  handle_type-LevelStep from FrameType.session_closed frame c h =
      handle_session_closed-LevelStep from frame c h
  handle_type-LevelStep from FrameType.error frame c h =
      with_value-LevelStep from (thrown (decode_protocol_error decode_text frame)) c _ h
        (λ e. (c.next_output_sequence, h))
  handle_type-LevelStep from _ frame c h = (c.next_output_sequence, h)
