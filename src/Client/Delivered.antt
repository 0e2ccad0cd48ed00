-- ===== src/Client/Delivered.antt =====
-- live/client.ts: the output that the connection delivers is in sequence.
use floeterm.Common.{
  ℕ, ◌+◌, ◌≡◌, refl, sym, ap, ◌∙◌, subst, if_cases, ◌||◌, not, List, [], ◌∷◌, ◌++◌, Option, none,
  some, ltb, ◌==◌, append-nil, append_assoc,
}
use floeterm.Common.Sets.{contains}
use floeterm.Live.Batch.{OutputRecord}
use floeterm.Client.State.{
  Problem, LiveGeometry, PendingGeometry, Connection, Effect, output_reported, geometry_reported,
  magnitude, rejections,
}
use floeterm.Client.Geometry.{
  Step, and_then, apply_geometry, resolve_resize, apply_ready, flush_pending_geometries,
  sort_pending, ready_of,
}

abbrev pub sequences : List OutputRecord → List ℕ
sequences [] = []
sequences (r ∷ rs) = magnitude r.sequence ∷ sequences rs

-- The numbers from the first one on, without a gap, up to the last one.
abbrev pub Run : ℕ → List ℕ → ℕ → Type 0
Run from [] to = from ≡ to
Run from (n ∷ ns) to = (n ≡ from) × Run (from + 1) ns to

pub Run-append :
    (from : ℕ) (xs : List ℕ) (middle : ℕ) (ys : List ℕ) (to : ℕ)
    → Run from xs middle
    → Run middle ys to
    → Run from (xs ++ ys) to
Run-append from [] middle ys to h k = subst (λ n. Run n ys to) (sym h) k
Run-append from (x ∷ xs) middle ys to h k = (h.0, Run-append (from + 1) xs middle ys to h.1 k)

module _ {Text : Type 0} where
  -- The sequences of the records that have been delivered, in order.
  abbrev carried : Effect Text → List ℕ
  carried (output_reported records) = sequences records
  carried _ = []

  unfoldable pub delivered : List (Effect Text) → List ℕ
  delivered [] = []
  delivered (e ∷ log) = carried e ++ delivered log

  pub delivered-append :
      (xs ys : List (Effect Text)) → delivered (xs ++ ys) ≡ delivered xs ++ delivered ys
  unfolding delivered
  delivered-append [] ys = refl
  delivered-append (e ∷ xs) ys =
      ap (λ d. carried e ++ d) (delivered-append xs ys)
      ∙ sym (append_assoc (carried e) (delivered xs) (delivered ys))

  pub delivered-rejections :
      (e : Problem Text) (waiters : List ℕ) → delivered (rejections e waiters) ≡ []
  unfolding delivered
  delivered-rejections e [] = refl
  delivered-rejections e (s ∷ waiters) = delivered-rejections e waiters

  -- What is delivered, and what is expected next, stay.
  abbrev pub Silent : Connection Text → Connection Text → Type 0
  Silent c d =
      (delivered d.log ≡ delivered c.log) × (d.next_output_sequence ≡ c.next_output_sequence)

  pub quiet :
      (c : Connection Text) (e : Effect Text)
      → delivered (e ∷ []) ≡ []
      → delivered (c.log ++ e ∷ []) ≡ delivered c.log
  quiet c e h =
      delivered-append c.log (e ∷ [])
      ∙ ap (λ d. delivered c.log ++ d) h
      ∙ append-nil (delivered c.log)

  abbrev pub SilentStep : Connection Text → Step Text → Type 0
  SilentStep c r = Silent c (r.1)

  pub Silent-trans : (c d e : Connection Text) → Silent c d → Silent d e → Silent c e
  Silent-trans c d e h k = (k.0 ∙ h.0, k.1 ∙ h.1)

  pub and_then-Silent :
      (c : Connection Text) (r : Step Text) (f : Connection Text → Step Text)
      → SilentStep c r
      → ((d : Connection Text) → SilentStep d (f d))
      → SilentStep c (and_then r f)
  and_then-Silent c (some e, d) f h k = h
  and_then-Silent c (none, d) f h k = Silent-trans c d ((f d).1) h (k d)

  pub apply_geometry-Silent :
      (next : LiveGeometry) (c : Connection Text) → SilentStep c (apply_geometry next c)
  unfolding apply_geometry delivered
  apply_geometry-Silent next c =
      if_cases (SilentStep c) (ltb next.generation c.geometry.generation) (λ old. (refl, refl))
        (λ recent.
          if_cases (SilentStep c) (next.generation == c.geometry.generation)
            (λ same.
              if_cases (SilentStep c)
                (not (next.cols == c.geometry.cols) || not (next.rows == c.geometry.rows))
                (λ differs. (refl, refl))
                (λ agrees.
                  if_cases (SilentStep c)
                    (ltb c.geometry.output_sequence_boundary next.output_sequence_boundary)
                    (λ later. (refl, refl)) (λ earlier. (refl, refl))))
            (λ newer. (quiet c (geometry_reported next) refl, refl)))

  resolve_resize-Silent :
      (resize : Option ℕ) (c : Connection Text) → Silent c (resolve_resize resize c)
  unfolding resolve_resize delivered
  resolve_resize-Silent none c = (refl, refl)
  resolve_resize-Silent (some s) c =
      if_cases (Silent c) (contains s c.resize_waiters) (λ waits. (quiet c _ refl, refl))
        (λ gone. (refl, refl))

  apply_ready-Silent :
      (ps : List PendingGeometry) (c : Connection Text) → SilentStep c (apply_ready ps c)
  unfolding apply_ready
  apply_ready-Silent [] c = (refl, refl)
  apply_ready-Silent (p ∷ ps) c =
      and_then-Silent c (apply_geometry p.geometry c) _ (apply_geometry-Silent p.geometry c) (λ d.
        Silent-trans d (resolve_resize p.resize_sequence d)
          ((apply_ready ps (resolve_resize p.resize_sequence d)).1)
          (resolve_resize-Silent p.resize_sequence d)
          (apply_ready-Silent ps (resolve_resize p.resize_sequence d)))

  pub flush_pending_geometries-Silent :
      (c : Connection Text) → SilentStep c (flush_pending_geometries c)
  unfolding flush_pending_geometries
  flush_pending_geometries-Silent c =
      apply_ready-Silent (sort_pending (ready_of c.last_output_sequence c.pending_geometries)) _
