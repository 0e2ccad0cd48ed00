-- ===== src/Admission/Granted.antt =====
-- TerminalInitializationScheduler.ts: the counts of permits during a drain.
use floeterm.Common.{
  ℕ, zero, suc, ◌+◌, ◌<◌, ◌≡◌, refl, sym, ap, ◌∙◌, subst, if_cases, false, not, Option, none, some,
  length, ltb, inl, inr, arith,
}
use floeterm.Common.Assoc.{lookup}
use floeterm.Admission.{
  Scheduler, Waiter, grant, grant_found, grant_waiter, take_next, grant_taken, drain_round,
  drain_rounds, drain,
}
use floeterm.Admission.Handled.{Takes, take_next-Takes}
use floeterm.Admission.Permits.{out_of, lookup_waiting, IsInteractive}
use floeterm.Admission.Counted.{
  no_back_permit, one_more, HasRoom, room_for_one, requeue-Counted, change-Counted, IsCounted,
}

module _ (limit back_limit : ℕ) where
  grant_found-IsCounted :
      (w : ℕ) (o : Option Waiter) (s : Scheduler)
      → lookup w s.waiters ≡ o
      → s.active_count < limit
      → ((waiter : Waiter)
          → o ≡ some waiter
          → HasRoom waiter.priority s.active_background_count back_limit)
      → IsCounted limit back_limit s
      → IsCounted limit back_limit (grant_found w o s)
  unfolding grant_waiter
  grant_found-IsCounted w none s found room back_room v = v
  grant_found-IsCounted w (some waiter) s found room back_room v =
      if_cases (IsCounted limit back_limit) (not waiter.active) (λ idle. v)
        (λ waits.
          let none_yet = lookup_waiting w s.waiters waiter v.0.registry found (ground arith) in
          let more = one_more waiter.priority s.active_background_count in
          (
            change-Counted w waiter (record waiter { active = false; released = some false }) _ _
                found (λ e. e) (λ never. cc) (omega (arith, ap out_of none_yet))
                (omega (arith, more, no_back_permit waiter none_yet)) (omega arith)
                (omega (
                  arith,
                  more,
                  room_for_one waiter.priority s.active_background_count back_limit
                      (back_room waiter refl) v.0.background_limited,
                ))
                v.0,
            v.1,
            v.2,
          ))

  -- A waiter taken off a queue is granted a permit.
  abbrev RoundIsCounted : Option Scheduler → Type 0
  RoundIsCounted none = Unit
  RoundIsCounted (some t) = IsCounted limit back_limit t

  grant_taken-IsCounted :
      (s : Scheduler) (o : Option (ℕ × Scheduler))
      → s.active_count < limit
      → IsCounted limit back_limit s
      → Takes s o
      → RoundIsCounted (grant_taken o)
  unfolding grant
  grant_taken-IsCounted s none room v t = tt
  grant_taken-IsCounted s (some (w, t)) room v (inl (queue, e, same)) =
      let u = record s { interactive_queue = queue } in
      let (known, others) = subst (IsInteractive s.waiters) e v.0.interactives in
      subst (λ t. IsCounted limit back_limit (grant w t)) (sym same)
        (grant_found-IsCounted w (lookup w u.waiters) u refl room
          (λ waiter found.
            let both : known.0 ≡ waiter = cc (known.1, found) in
            inl (ap (λ x. x.priority) (sym both) ∙ known.2))
          (requeue-Counted queue others v.0, v.1, v.2))
  grant_taken-IsCounted s (some (w, t)) room v (inr (queue, e, f, few, same)) =
      let u = record s { background_queue = queue } in
      subst (λ t. IsCounted limit back_limit (grant w t)) (sym same)
        (grant_found-IsCounted w (lookup w u.waiters) u refl room
          (λ waiter found. inr (omega (arith, v.2))) v)

  drain_round-IsCounted :
      (s : Scheduler) → IsCounted limit back_limit s → RoundIsCounted (drain_round s)
  unfolding drain_round
  drain_round-IsCounted s v =
      if_cases RoundIsCounted (ltb s.active_count s.max_concurrent)
        (λ room.
          grant_taken-IsCounted s (take_next s.interactive_queue s.background_queue s)
            (ground (arith, v.1)) v
            (take_next-Takes s.interactive_queue s.background_queue s refl refl))
        (λ full. tt)

  drain_rounds-IsCounted :
      (rounds : ℕ) (s : Scheduler)
      → IsCounted limit back_limit s
      → IsCounted limit back_limit (drain_rounds rounds s)
  unfolding drain_rounds
  drain_rounds-IsCounted zero s v = v
  drain_rounds-IsCounted (suc rounds) s v =
      elim (drain_round s)
          as (λ o.
            RoundIsCounted o
            → IsCounted limit back_limit (elim o [ none ↦ s | some t ↦ drain_rounds rounds t ])) [
              | none ↦ λ h. v
              | some t ↦ λ h. drain_rounds-IsCounted rounds t h
            ]
        (drain_round-IsCounted s v)

  pub drain-IsCounted :
      (s : Scheduler) → IsCounted limit back_limit s → IsCounted limit back_limit (drain s)
  unfolding drain
  drain-IsCounted s v =
      drain_rounds-IsCounted (suc (length s.interactive_queue + length s.background_queue)) s v
