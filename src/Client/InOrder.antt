-- ===== src/Client/InOrder.antt =====
-- live/client.ts: the output that a connection delivers is in sequence, however it is used.
use floeterm.Common.{
  ℕ, ◌+◌, ◌≡◌, refl, sym, ap, ◌∙◌, subst, if_cases, List, [], ◌∷◌, ◌++◌, none, some, ◌==◌,
  append-nil, arith,
}
use floeterm.Common.Fallible.{Result, ok, err}
use floeterm.Live.Batch.{OutputRecord, OutputBatch}
use floeterm.Client.State.{Problem, Connection, magnitude, output_reported, to_safe_number}
use floeterm.Client.Geometry.{Step, and_then, flush_pending_geometries}
use floeterm.Client.Frames.{with_value, count_records, deliver, handle_batch, boundary_before}
use floeterm.Client.Delivered.{
  sequences, Run, Run-append, delivered, delivered-append, Silent, SilentStep,
  apply_geometry-Silent, flush_pending_geometries-Silent,
}

module _ {Text : Type 0} where
  -- All that has been counted has been delivered.
  abbrev pub Level : ℕ → Connection Text → Type 0
  Level from c = Run from (delivered c.log) c.next_output_sequence

  -- What has been delivered is in sequence, whether or not more has been counted.
  abbrev pub InOrder : ℕ → Connection Text → Type 0
  InOrder from c = (to : ℕ) × Run from (delivered c.log) to

  -- The same of a handler's result: a failure may have counted more than was delivered.
  abbrev pub LevelStep : ℕ → Step Text → Type 0
  LevelStep from (none, c) = Level from c
  LevelStep from (some e, c) = InOrder from c

  pub Level-Silent : (from : ℕ) (c d : Connection Text) → Level from c → Silent c d → Level from d
  Level-Silent from c d h s =
      subst (λ n. Run from (delivered d.log) n) (sym s.1)
        (subst (λ ns. Run from ns c.next_output_sequence) (sym s.0) h)

  pub LevelStep-Silent :
      (from : ℕ) (c : Connection Text) (r : Step Text)
      → Level from c
      → SilentStep c r
      → LevelStep from r
  LevelStep-Silent from c (none, d) h s = Level-Silent from c d h s
  LevelStep-Silent from c (some e, d) h s = (d.next_output_sequence, Level-Silent from c d h s)

  pub and_then-LevelStep :
      (from : ℕ) (r : Step Text) (f : Connection Text → Step Text)
      → LevelStep from r
      → ((d : Connection Text) → Level from d → LevelStep from (f d))
      → LevelStep from (and_then r f)
  and_then-LevelStep from (some e, d) f h k = h
  and_then-LevelStep from (none, d) f h k = k d h

  pub with_value-LevelStep :
      {A : Type 0} (from : ℕ) (m : Result (Problem Text) A) (c : Connection Text)
      (f : A → Step Text)
      → Level from c
      → ((a : A) → LevelStep from (f a))
      → LevelStep from (with_value m c f)
  with_value-LevelStep from (ok a) c f h k = k a
  with_value-LevelStep from (err e) c f h k = (c.next_output_sequence, h)

  -- What counting the records changes.
  abbrev Counts : Connection Text → List OutputRecord → Step Text → Type 0
  Counts c records (none, d) =
      (delivered d.log ≡ delivered c.log)
      × Run c.next_output_sequence (sequences records) d.next_output_sequence
  Counts c records (some e, d) = delivered d.log ≡ delivered c.log

  Counts-cons :
      (c : Connection Text) (r : OutputRecord) (rs : List OutputRecord) (s : Step Text)
      → magnitude r.sequence ≡ c.next_output_sequence
      → Counts (record c { next_output_sequence = c.next_output_sequence + 1 }) rs s
      → Counts c (r ∷ rs) s
  Counts-cons c r rs (none, d) h k = (k.0, (h, k.1))
  Counts-cons c r rs (some e, d) h k = k

  count_records-Counts :
      (rs : List OutputRecord) (c : Connection Text) → Counts c rs (count_records rs c)
  unfolding count_records
  count_records-Counts [] c = (refl, refl)
  count_records-Counts (r ∷ rs) c =
      if_cases (Counts c (r ∷ rs)) (magnitude r.sequence == c.next_output_sequence)
        (λ next. Counts-cons c r rs _ (ground arith) (count_records-Counts rs _)) (λ other. refl)

  -- The records have been counted, and are not yet delivered.
  abbrev Counted : ℕ → List OutputRecord → Connection Text → Type 0
  Counted from records c =
      (to : ℕ) × Run from (delivered c.log) to × Run to (sequences records) c.next_output_sequence

  Counted-Silent :
      (from : ℕ) (records : List OutputRecord) (c d : Connection Text)
      → Counted from records c
      → Silent c d
      → Counted from records d
  Counted-Silent from records c d h s = (
    h.0,
    subst (λ ns. Run from ns h.0) (sym s.0) h.1,
    subst (λ n. Run h.0 (sequences records) n) (sym s.1) h.2,
  )

  deliver-Level :
      (from : ℕ) (records : List OutputRecord) (c : Connection Text)
      → Counted from records c
      → Level from (deliver records c)
  unfolding deliver delivered
  deliver-Level from records c h =
      subst (λ ns. Run from ns c.next_output_sequence)
        (sym (
          delivered-append c.log (output_reported records ∷ [])
          ∙ ap (λ ns. delivered c.log ++ ns) (append-nil (sequences records))))
        (Run-append from (delivered c.log) h.0 (sequences records) c.next_output_sequence h.1 h.2)

  -- Any failure after the count leaves what was delivered.
  finish-LevelStep :
      (from : ℕ) (records : List OutputRecord) (c : Connection Text) (r : Step Text)
      → Counted from records c
      → SilentStep c r
      → LevelStep from (and_then r (λ e. flush_pending_geometries (deliver records e)))
  finish-LevelStep from records c (some e, d) h s =
      let k = Counted-Silent from records c d h s in (k.0, k.1)
  finish-LevelStep from records c (none, d) h s =
      LevelStep-Silent from (deliver records d) (flush_pending_geometries (deliver records d))
        (deliver-Level from records d (Counted-Silent from records c d h s))
        (flush_pending_geometries-Silent (deliver records d))

  with_value-Counted :
      {A : Type 0} (from : ℕ) (records : List OutputRecord) (m : Result (Problem Text) A)
      (c : Connection Text) (f : A → Step Text)
      → Counted from records c
      → ((a : A) → LevelStep from (f a))
      → LevelStep from (with_value m c f)
  with_value-Counted from records (ok a) c f h k = k a
  with_value-Counted from records (err e) c f h k = (h.0, h.1)

  after_count-LevelStep :
      (from : ℕ) (records : List OutputRecord) (c : Connection Text) (r : Step Text)
      (f : Connection Text → Step Text)
      → Level from c
      → Counts c records r
      → ((d : Connection Text) → Counted from records d → LevelStep from (f d))
      → LevelStep from (and_then r f)
  after_count-LevelStep from records c (some e, d) f h k g =
      (c.next_output_sequence, subst (λ ns. Run from ns c.next_output_sequence) (sym k) h)
  after_count-LevelStep from records c (none, d) f h k g =
      g d
        (c.next_output_sequence, subst (λ ns. Run from ns c.next_output_sequence) (sym k.0) h, k.1)

  pub handle_batch-LevelStep :
      (from : ℕ) (batch : OutputBatch) (c : Connection Text)
      → Level from c
      → LevelStep from (handle_batch batch c)
  unfolding handle_batch
  handle_batch-LevelStep from batch c h =
      after_count-LevelStep from batch.records c (count_records batch.records c) _ h
        (count_records-Counts batch.records c)
        (λ d k.
          with_value-Counted from batch.records (to_safe_number batch.geometry_generation) d _ k
            (λ generation.
              with_value-Counted from batch.records (to_safe_number (boundary_before batch.records))
                d _ k
                (λ boundary.
                  finish-LevelStep from batch.records d _ k (apply_geometry-Silent _ d))))
