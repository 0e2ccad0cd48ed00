-- ===== src/Client/Geometry.antt =====
-- live/client.ts: geometries wait for the output that they follow. A handler answers with what it
-- threw, if anything, and the state that it left.
use floeterm.Common.{
  ℕ, Bool, ◌||◌, not, List, [], ◌∷◌, ◌++◌, Option, none, some, ltb, leb, ◌==◌, if◌then◌else◌,
}
use floeterm.Common.Sets.{contains, discard}
use floeterm.Client.State.{
  LiveGeometry, PendingGeometry, Problem, geometry_not_advanced, Connection, report,
  geometry_reported, resize_resolved,
}

abbrev pub Step : Type 0 → Type 0
Step Text = Option (Problem Text) × Connection Text

abbrev pub and_then : {Text : Type 0} → Step Text → (Connection Text → Step Text) → Step Text
and_then (some e, c) f = (some e, c)
and_then (none, c) f = f c

-- Whether the comparison sorts the left one behind the right one.
abbrev pub sorts_after : PendingGeometry → PendingGeometry → Bool
sorts_after left right =
    if left.output_sequence_boundary == right.output_sequence_boundary
    then ltb right.geometry.generation left.geometry.generation
    else ltb right.output_sequence_boundary left.output_sequence_boundary

-- `Array.sort` is stable: the first one stays before those that it equals.
unfoldable pub insert_pending : PendingGeometry → List PendingGeometry → List PendingGeometry
insert_pending p [] = p ∷ []
insert_pending p (q ∷ qs) = if sorts_after p q then q ∷ insert_pending p qs else p ∷ q ∷ qs

unfoldable pub sort_pending : List PendingGeometry → List PendingGeometry
unfolding insert_pending
sort_pending [] = []
sort_pending (p ∷ ps) = insert_pending p (sort_pending ps)

-- Those that are ready, and those that wait.
unfoldable pub ready_of : ℕ → List PendingGeometry → List PendingGeometry
ready_of last [] = []
ready_of last (p ∷ ps) =
    if leb p.output_sequence_boundary last then p ∷ ready_of last ps else ready_of last ps

unfoldable pub waiting_of : ℕ → List PendingGeometry → List PendingGeometry
waiting_of last [] = []
waiting_of last (p ∷ ps) =
    if leb p.output_sequence_boundary last then waiting_of last ps else p ∷ waiting_of last ps

module _ {Text : Type 0} where
  unfoldable pub apply_geometry : LiveGeometry → Connection Text → Step Text
  apply_geometry next c =
      if ltb next.generation c.geometry.generation
      then (none, c)
      else if next.generation == c.geometry.generation
      then (if not (next.cols == c.geometry.cols) || not (next.rows == c.geometry.rows)
          then (some geometry_not_advanced, c)
          else if ltb c.geometry.output_sequence_boundary next.output_sequence_boundary
          then (none, record c { geometry = next })
          else (none, c))
      else (none, report (geometry_reported next) (record c { geometry = next }))

  -- The waiter of a resize, where there is one, is resolved.
  unfoldable pub resolve_resize : Option ℕ → Connection Text → Connection Text
  resolve_resize none c = c
  resolve_resize (some s) c =
      if contains s c.resize_waiters
      then report (resize_resolved s) (record c { resize_waiters = discard s c.resize_waiters })
      else c

  -- The loop over the geometries that are ready.
  unfoldable pub apply_ready : List PendingGeometry → Connection Text → Step Text
  unfolding apply_geometry resolve_resize
  apply_ready [] c = (none, c)
  apply_ready (p ∷ ps) c =
      and_then (apply_geometry p.geometry c)
        (λ d. apply_ready ps (resolve_resize p.resize_sequence d))

  unfoldable pub flush_pending_geometries : Connection Text → Step Text
  unfolding apply_ready sort_pending ready_of waiting_of
  flush_pending_geometries c =
      apply_ready (sort_pending (ready_of c.last_output_sequence c.pending_geometries))
        (record c { pending_geometries = waiting_of c.last_output_sequence c.pending_geometries })

  abbrev pub await_output : LiveGeometry → ℕ → Option ℕ → Connection Text → Connection Text
  await_output geometry boundary resize c = record c {
    pending_geometries =
        c.pending_geometries
        ++ (record {
          geometry = geometry;
          output_sequence_boundary = boundary;
          resize_sequence = resize;
        })
          ∷ [];
  }

  unfoldable pub queue_geometry : LiveGeometry → ℕ → Option ℕ → Connection Text → Step Text
  unfolding flush_pending_geometries
  queue_geometry geometry boundary resize c =
      flush_pending_geometries (await_output geometry boundary resize c)
