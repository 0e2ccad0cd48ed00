-- ===== src/Admission/Handled.antt =====
-- TerminalInitializationScheduler.ts: what becomes of a waiter who is taken off a queue.
use floeterm.Common.{
  ℕ, ◌+◌, ◌≤◌, ◌<◌, ◌≡◌, refl, sym, subst, if_cases, true, false, not, List, [], ◌∷◌, ◌++◌, map,
  append-nil, Option, none, some, length, ltb, ◌⊎◌, inl, inr, arith,
}
use floeterm.Common.Assoc.{lookup, insert}
use floeterm.Admission.{Scheduler, Waiter, granted, grant, grant_found, grant_waiter, take_next}

-- The waiters that are left.
abbrev pub queued : Scheduler → ℕ
queued s = length s.interactive_queue + length s.background_queue

-- Nobody is left whom the limits would let pass.
abbrev pub IsSettled : Scheduler → Type 0
IsSettled s =
    (s.max_concurrent ≤ s.active_count)
    ⊎ ((s.interactive_queue ≡ [])
        × ((s.background_queue ≡ []) ⊎ (s.max_background_concurrent ≤ s.active_background_count)))

-- Nobody is named so, or one who waits no more.
abbrev pub IsPassed : Option Waiter → Type 0
IsPassed none = Unit
IsPassed (some waiter) = waiter.active ≡ false

-- Of waiters in their order, those who are granted a permit: each who waits, once.
pub data Admits : List (ℕ × Waiter) → List ℕ → List ℕ → Type 0 where
  nobody : (waiters : List (ℕ × Waiter)) → Admits waiters [] []
  passed :
      (waiters : List (ℕ × Waiter)) (w : ℕ) (queue admitted : List ℕ)
      → IsPassed (lookup w waiters)
      → Admits waiters queue admitted
      → Admits waiters (w ∷ queue) admitted
  let_in :
      (waiters : List (ℕ × Waiter)) (w : ℕ) (waiter : Waiter) (queue admitted : List ℕ)
      → lookup w waiters ≡ some waiter
      → waiter.active ≡ true
      → Admits
          (insert w (record waiter { active = false; released = some false }) waiters)
          queue
          admitted
      → Admits waiters (w ∷ queue) (w ∷ admitted)

-- From the fronts of the two queues, the background one behind the whole interactive one: those who
-- wait are granted a permit each, which is counted, and the others are dropped.
pub record Drained (s t : Scheduler) : Type 0 where
  pub front : List ℕ
  pub back : List ℕ
  pub admitted : List ℕ
  pub interactive_taken : s.interactive_queue ≡ front ++ t.interactive_queue
  pub background_taken : s.background_queue ≡ back ++ t.background_queue
  pub in_order : (back ≡ []) ⊎ (t.interactive_queue ≡ [])
  pub admits : Admits s.waiters (front ++ back) admitted
  pub told : t.log ≡ s.log ++ map granted admitted
  pub counted : t.active_count ≡ s.active_count + length admitted
  pub limit : t.max_concurrent ≡ s.max_concurrent
  pub within : t.active_count ≤ t.max_concurrent
  pub settled : IsSettled t

-- What becomes of one waiter who has been taken.
abbrev pub Handled : ℕ → Scheduler → Scheduler → Type 0
Handled w s t =
    (t.max_concurrent ≡ s.max_concurrent)
    × (t.interactive_queue ≡ s.interactive_queue)
    × (t.background_queue ≡ s.background_queue)
    × (admitted : List ℕ) × (t.log ≡ s.log ++ map granted admitted)
    × (t.active_count ≡ s.active_count + length admitted)
    × (length admitted ≤ 1)
    × ((queue more : List ℕ)
        → Admits t.waiters queue more
        → Admits s.waiters (w ∷ queue) (admitted ++ more))

grant_found-Handled :
    (w : ℕ) (o : Option Waiter) (s : Scheduler)
    → lookup w s.waiters ≡ o
    → Handled w s (grant_found w o s)
unfolding grant_waiter
grant_found-Handled w none s found = (
  refl,
  refl,
  refl,
  [],
  sym (append-nil s.log),
  omega arith,
  omega arith,
  λ queue more a. passed s.waiters w queue more (subst IsPassed (sym found) tt) a,
)
grant_found-Handled w (some waiter) s found =
    if_cases (Handled w s) (not waiter.active)
      (λ idle. (
        refl,
        refl,
        refl,
        [],
        sym (append-nil s.log),
        omega arith,
        omega arith,
        λ queue more a. passed s.waiters w queue more (subst IsPassed (sym found) (ground arith)) a,
      ))
      (λ waits. (
        refl,
        refl,
        refl,
        w ∷ [],
        refl,
        refl,
        omega arith,
        λ queue more a. let_in s.waiters w waiter queue more found (ground arith) a,
      ))

pub grant-Handled : (w : ℕ) (s : Scheduler) → Handled w s (grant w s)
unfolding grant
grant-Handled w s = grant_found-Handled w (lookup w s.waiters) s refl

-- The one who is taken, and the state behind.
abbrev pub Takes : Scheduler → Option (ℕ × Scheduler) → Type 0
Takes s none =
    (s.interactive_queue ≡ [])
    × ((s.background_queue ≡ []) ⊎ (s.max_background_concurrent ≤ s.active_background_count))
Takes s (some (w, t)) =
    ((queue : List ℕ) × (s.interactive_queue ≡ w ∷ queue)
      × (t ≡ record s { interactive_queue = queue }))
    ⊎ ((queue : List ℕ) × (s.interactive_queue ≡ [])
        × (s.background_queue ≡ w ∷ queue)
        × (s.active_background_count < s.max_background_concurrent)
        × (t ≡ record s { background_queue = queue }))

-- For a state whose queues are the given ones.
pub take_next-Takes :
    (front back : List ℕ) (s : Scheduler)
    → s.interactive_queue ≡ front
    → s.background_queue ≡ back
    → Takes s (take_next front back s)
unfolding take_next
take_next-Takes (w ∷ queue) back s e f = inl (queue, e, refl)
take_next-Takes [] [] s e f = (e, inl f)
take_next-Takes [] (w ∷ queue) s e f =
    if_cases (Takes s) (ltb s.active_background_count s.max_background_concurrent)
      (λ room. inr (queue, e, f, ground arith, refl)) (λ full. (e, inr (ground arith)))
