-- ===== src/Admission/Counted.antt =====
-- TerminalInitializationScheduler.ts: the counters, the limits and the permits that are out.
use floeterm.Common.{
  ℕ, ◌+◌, ◌-◌, ◌≤◌, ◌<◌, ◌≡◌, refl, ap, ◌∙◌, true, List, [], ◌∷◌, ◌++◌, none, some, length,
  if◌then◌else◌, ◌⊎◌, inl, inr, arith,
}
use floeterm.Common.Assoc.{lookup, insert}
use floeterm.Admission.{Scheduler, Waiter, Priority, interactive, background, is_background}
use floeterm.Admission.Permits.{
  out_of, permit_out, for_background, background_permit_out, total, total-insert, IsRegistry,
  insert-IsRegistry, IsInteractive, insert-IsInteractive, IsInteractive-snoc, cons-IsInteractive,
}

-- The counters count the permits that are out, and keep the limits.
pub record Counted (limit back_limit : ℕ) (queue : List ℕ) (waiters : List (ℕ × Waiter))
    (active back : ℕ) : Type 0 where
  pub registry : IsRegistry waiters
  pub interactives : IsInteractive waiters queue
  pub counted : active ≡ total permit_out waiters
  pub background_counted : back ≡ total background_permit_out waiters
  pub limited : active ≤ limit
  pub background_limited : back ≤ back_limit

pub for_background_zero : (priority : Priority) → for_background priority 0 ≡ 0
for_background_zero background = refl
for_background_zero interactive = refl

pub no_back_permit : (waiter : Waiter) → waiter.released ≡ none → background_permit_out waiter ≡ 0
no_back_permit waiter e =
    ap (λ r. for_background waiter.priority (out_of r)) e ∙ for_background_zero waiter.priority

pub one_more :
    (priority : Priority) (n : ℕ)
    → (if is_background priority then n + 1 else n) ≡ n + for_background priority 1
one_more background n = refl
one_more interactive n = omega arith

pub one_fewer :
    (priority : Priority) (n : ℕ)
    → (if is_background priority then n - 1 else n) ≡ n - for_background priority 1
one_fewer background n = refl
one_fewer interactive n = omega arith

-- There is room for the permit of a waiter.
abbrev pub HasRoom : Priority → (back back_limit : ℕ) → Type 0
HasRoom priority back back_limit = (priority ≡ interactive) ⊎ (back < back_limit)

pub room_for_one :
    (priority : Priority) (back back_limit : ℕ)
    → HasRoom priority back back_limit
    → back ≤ back_limit
    → back + for_background priority 1 ≤ back_limit
room_for_one interactive back back_limit room h = omega arith
room_for_one background back back_limit (inl e) h = cc
room_for_one background back back_limit (inr few) h = omega arith

module _ {limit back_limit : ℕ} {queue : List ℕ} {waiters : List (ℕ × Waiter)}
    {active back : ℕ} where
  pub request-Counted :
      (priority : Priority)
      → Counted limit back_limit queue waiters active back
      → Counted limit back_limit queue
          ((length waiters, record { priority = priority; active = true; released = none })
            ∷ waiters)
          active
          back
  request-Counted priority v = record {
    registry = (refl, λ waits. refl, v.registry);
    interactives = cons-IsInteractive waiters _ queue v.registry v.interactives;
    counted = omega (arith, v.counted);
    background_counted = omega (arith, v.background_counted, for_background_zero priority);
    limited = v.limited;
    background_limited = v.background_limited;
  }

  pub requeue-Counted :
      (other : List ℕ)
      → IsInteractive waiters other
      → Counted limit back_limit queue waiters active back
      → Counted limit back_limit other waiters active back
  requeue-Counted other i v = record {
    registry = v.registry;
    interactives = i;
    counted = v.counted;
    background_counted = v.background_counted;
    limited = v.limited;
    background_limited = v.background_limited;
  }

  pub join-Counted :
      (w : ℕ) (waiter : Waiter)
      → lookup w waiters ≡ some waiter
      → waiter.priority ≡ interactive
      → Counted limit back_limit queue waiters active back
      → Counted limit back_limit (queue ++ w ∷ []) waiters active back
  join-Counted w waiter found e v =
      requeue-Counted (queue ++ w ∷ [])
        (IsInteractive-snoc waiters queue w waiter found e v.interactives) v

  -- A waiter changes, and the counters with its permit.
  pub change-Counted :
      (w : ℕ) (old new : Waiter) (new_active new_back : ℕ)
      → lookup w waiters ≡ some old
      → (old.priority ≡ interactive → new.priority ≡ interactive)
      → (new.active ≡ true → new.released ≡ none)
      → new_active + permit_out old ≡ active + permit_out new
      → new_back + background_permit_out old ≡ back + background_permit_out new
      → new_active ≤ limit
      → new_back ≤ back_limit
      → Counted limit back_limit queue waiters active back
      → Counted limit back_limit queue (insert w new waiters) new_active new_back
  change-Counted w old new new_active new_back found p i e f h k v = record {
    registry = insert-IsRegistry w old new waiters found i v.registry;
    interactives = insert-IsInteractive w old new waiters queue found p v.interactives;
    counted = omega (arith, e, v.counted, total-insert permit_out w old new waiters found);
    background_counted = omega (
      arith,
      f,
      v.background_counted,
      total-insert background_permit_out w old new waiters found,
    );
    limited = h;
    background_limited = k;
  }

abbrev pub IsCounted : (limit back_limit : ℕ) → Scheduler → Type 0
IsCounted limit back_limit s =
    Counted limit back_limit s.interactive_queue s.waiters s.active_count s.active_background_count
    × (s.max_concurrent ≡ limit)
    × (s.max_background_concurrent ≡ back_limit)
