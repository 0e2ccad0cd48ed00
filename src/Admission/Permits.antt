-- ===== src/Admission/Permits.antt =====
-- TerminalInitializationScheduler.ts: the permits that are out, counted from the waiters.
use floeterm.Common.{
  ℕ, sym, if_true, ◌+◌, ◌<◌, ◌≡◌, refl, ap, if_cases, if_false, subst, ◌∙◌, Bool, true, false, ◌++◌,
  if◌then◌else◌, List, [], ◌∷◌, Option, none, some, length, ◌==◌, arith,
}
use floeterm.Common.Assoc.{lookup, insert}
use floeterm.Admission.{Priority, interactive, background, Waiter, Scheduler, remove_first}

-- A permit is out from its grant to its first release.
abbrev pub out_of : Option Bool → ℕ
out_of none = 0
out_of (some true) = 0
out_of (some false) = 1

abbrev pub permit_out : Waiter → ℕ
permit_out waiter = out_of waiter.released

abbrev pub for_background : Priority → ℕ → ℕ
for_background background n = n
for_background interactive n = 0

abbrev pub background_permit_out : Waiter → ℕ
background_permit_out waiter = for_background waiter.priority (permit_out waiter)

abbrev pub total : (Waiter → ℕ) → List (ℕ × Waiter) → ℕ
total f [] = 0
total f ((k, waiter) ∷ waiters) = f waiter + total f waiters

abbrev pub permits_out : Scheduler → ℕ
permits_out s = total permit_out s.waiters

abbrev pub background_permits_out : Scheduler → ℕ
background_permits_out s = total background_permit_out s.waiters

pub total-insert :
    (f : Waiter → ℕ) (w : ℕ) (old new : Waiter) (waiters : List (ℕ × Waiter))
    → lookup w waiters ≡ some old
    → total f (insert w new waiters) + f old ≡ total f waiters + f new
unfolding lookup insert
total-insert f w old new [] h = cc
total-insert f w old new ((k, waiter) ∷ waiters) h =
    ground (arith, total-insert f w old new waiters)

-- A waiter who still waits has no permit; the names count up.
abbrev pub IsRegistry : List (ℕ × Waiter) → Type 0
IsRegistry [] = Unit
IsRegistry ((k, waiter) ∷ waiters) =
    (k ≡ length waiters) × (waiter.active ≡ true → waiter.released ≡ none) × IsRegistry waiters

pub lookup-below :
    (w : ℕ) (waiters : List (ℕ × Waiter)) {waiter : Waiter}
    → IsRegistry waiters
    → lookup w waiters ≡ some waiter
    → w < length waiters
unfolding lookup
lookup-below w [] r h = cc
lookup-below w ((k, x) ∷ waiters) {waiter} r h =
    ground (arith, r.0, lookup-below w waiters {waiter = waiter} r.2)

pub lookup_waiting :
    (w : ℕ) (waiters : List (ℕ × Waiter)) (waiter : Waiter)
    → IsRegistry waiters
    → lookup w waiters ≡ some waiter
    → waiter.active ≡ true
    → waiter.released ≡ none
unfolding lookup
lookup_waiting w [] waiter r h a = cc
lookup_waiting w ((k, x) ∷ waiters) waiter r h a =
    if_cases (λ o. o ≡ some waiter → waiter.released ≡ none) (k == w)
      (λ here e.
        let same : x ≡ waiter = cc in
        subst (λ x. x.released ≡ none) same (r.1 (ap (λ x. x.active) same ∙ a)))
      (λ there e. lookup_waiting w waiters waiter r.2 e a) h

length-insert_known :
    (w : ℕ) (old new : Waiter) (waiters : List (ℕ × Waiter))
    → lookup w waiters ≡ some old
    → length (insert w new waiters) ≡ length waiters
unfolding lookup insert
length-insert_known w old new [] h = cc
length-insert_known w old new ((k, x) ∷ waiters) h =
    ground (arith, length-insert_known w old new waiters)

pub insert-IsRegistry :
    (w : ℕ) (old new : Waiter) (waiters : List (ℕ × Waiter))
    → lookup w waiters ≡ some old
    → (new.active ≡ true → new.released ≡ none)
    → IsRegistry waiters
    → IsRegistry (insert w new waiters)
unfolding lookup insert
insert-IsRegistry w old new [] h i r = cc
insert-IsRegistry w old new ((k, x) ∷ waiters) h i r =
    if_cases IsRegistry (k == w) (λ here. (ground (arith, r.0), i, r.2))
      (λ there.
        let found = sym (if_false (k == w) _ _ there) ∙ h in
        (
          r.0 ∙ sym (length-insert_known w old new waiters found),
          r.1,
          insert-IsRegistry w old new waiters found i r.2,
        ))

-- Every one in the queue is interactive.
abbrev pub IsInteractive : List (ℕ × Waiter) → List ℕ → Type 0
IsInteractive waiters [] = Unit
IsInteractive waiters (w ∷ queue) =
    ((waiter : Waiter) × (lookup w waiters ≡ some waiter) × (waiter.priority ≡ interactive))
    × IsInteractive waiters queue

lookup-insert :
    (w v : ℕ) (new : Waiter) (waiters : List (ℕ × Waiter))
    → lookup v (insert w new waiters) ≡ (if w == v then some new else lookup v waiters)
unfolding lookup insert
lookup-insert w v new [] = refl
lookup-insert w v new ((k, x) ∷ waiters) = ground (arith, lookup-insert w v new waiters)

abbrev IsInteractiveWaiter : Option Waiter → Type 0
IsInteractiveWaiter o = (waiter : Waiter) × (o ≡ some waiter) × (waiter.priority ≡ interactive)

pub insert-IsInteractive :
    (w : ℕ) (old new : Waiter) (waiters : List (ℕ × Waiter)) (queue : List ℕ)
    → lookup w waiters ≡ some old
    → (old.priority ≡ interactive → new.priority ≡ interactive)
    → IsInteractive waiters queue
    → IsInteractive (insert w new waiters) queue
insert-IsInteractive w old new waiters [] h k i = tt
insert-IsInteractive w old new waiters (v ∷ queue) h k ((waiter, found, e), i) = (
  subst IsInteractiveWaiter (sym (lookup-insert w v new waiters)) (
      if_cases IsInteractiveWaiter (w == v)
        (λ here.
          let same : w ≡ v = ground arith in
          let both : old ≡ waiter = cc (h, found, same) in
          (new, refl, k (ap (λ x. x.priority) both ∙ e)))
        (λ there. (waiter, found, e))),
  insert-IsInteractive w old new waiters queue h k i,
)

pub IsInteractive-snoc :
    (waiters : List (ℕ × Waiter)) (queue : List ℕ) (w : ℕ) (waiter : Waiter)
    → lookup w waiters ≡ some waiter
    → waiter.priority ≡ interactive
    → IsInteractive waiters queue
    → IsInteractive waiters (queue ++ w ∷ [])
IsInteractive-snoc waiters [] w waiter h e i = ((waiter, h, e), tt)
IsInteractive-snoc waiters (v ∷ queue) w waiter h e i =
    (i.0, IsInteractive-snoc waiters queue w waiter h e i.1)

pub remove_first-IsInteractive :
    (waiters : List (ℕ × Waiter)) (w : ℕ) (queue : List ℕ)
    → IsInteractive waiters queue
    → IsInteractive waiters (remove_first w queue)
unfolding remove_first
remove_first-IsInteractive waiters w [] i = tt
remove_first-IsInteractive waiters w (v ∷ queue) i =
    if_cases (IsInteractive waiters) (v == w) (λ here. i.1)
      (λ there. (i.0, remove_first-IsInteractive waiters w queue i.1))

pub cons-IsInteractive :
    (waiters : List (ℕ × Waiter)) (new : Waiter) (queue : List ℕ)
    → IsRegistry waiters
    → IsInteractive waiters queue
    → IsInteractive ((length waiters, new) ∷ waiters) queue
unfolding lookup
cons-IsInteractive waiters new [] r i = tt
cons-IsInteractive waiters new (v ∷ queue) r ((waiter, found, e), i) =
    let below = lookup-below v waiters {waiter = waiter} r found in
    (
      (waiter, if_false (length waiters == v) _ _ (ground arith) ∙ found, e),
      cons-IsInteractive waiters new queue r i,
    )

pub lookup_new :
    (waiters : List (ℕ × Waiter)) (new : Waiter)
    → lookup (length waiters) ((length waiters, new) ∷ waiters) ≡ some new
unfolding lookup
lookup_new waiters new = if_true (length waiters == length waiters) _ _ (ground arith)

pub lookup-insert_self :
    (w : ℕ) (new : Waiter) (waiters : List (ℕ × Waiter))
    → lookup w (insert w new waiters) ≡ some new
lookup-insert_self w new waiters =
    lookup-insert w w new waiters ∙ if_true (w == w) _ _ (ground arith)
