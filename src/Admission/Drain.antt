-- ===== src/Admission/Drain.antt =====
-- TerminalInitializationScheduler.ts: what a drain does.
use floeterm.Common.{
  ℕ, zero, suc, ◌+◌, ◌≤◌, ◌<◌, ◌≡◌, refl, sym, ap, ◌∙◌, subst, if_cases, List, [], ◌∷◌, ◌++◌, map,
  append_assoc, append-nil, length-append, Option, none, some, length, ltb, inl, inr, arith,
}
use floeterm.Admission.{
  Scheduler, Effect, granted, grant, take_next, grant_taken, drain_round, drain_rounds, drain,
}
use floeterm.Admission.Handled.{
  queued, IsSettled, Admits, Drained, Handled, grant-Handled, Takes, take_next-Takes, nobody,
}

map-append : (xs ys : List ℕ) → map granted (xs ++ ys) ≡ map granted xs ++ map granted ys
map-append [] ys = refl
map-append (x ∷ xs) ys = ap (λ r. granted x ∷ r) (map-append xs ys)

append_nil_lem : (xs ys : List ℕ) → [] ≡ xs ++ ys → (xs ≡ []) × (ys ≡ [])
append_nil_lem [] ys e = (refl, sym e)
append_nil_lem (x ∷ xs) ys e = cc

told_twice :
    (before : List Effect) (xs ys : List ℕ)
    → (before ++ map granted xs) ++ map granted ys ≡ before ++ map granted (xs ++ ys)
told_twice before xs ys =
    append_assoc before (map granted xs) (map granted ys)
    ∙ ap (λ r. before ++ r) (sym (map-append xs ys))

settled-Drained : (s : Scheduler) → IsSettled s → s.active_count ≤ s.max_concurrent → Drained s s
settled-Drained s settled within = record {
  front = [];
  back = [];
  admitted = [];
  interactive_taken = refl;
  background_taken = refl;
  in_order = inl refl;
  admits = nobody s.waiters;
  told = sym (append-nil s.log);
  counted = omega arith;
  limit = refl;
  within = within;
  settled = settled;
}

-- A round that takes an interactive waiter, and those behind it.
interactive-Drained :
    (w : ℕ) (queue : List ℕ) (s u v : Scheduler)
    → s.interactive_queue ≡ w ∷ queue
    → Handled w (record s { interactive_queue = queue }) u
    → Drained u v
    → Drained s v
interactive-Drained w queue s u v e (limit, iq, bq, admitted, log, count, few, admits) d = record {
  front = w ∷ d.front;
  back = d.back;
  admitted = admitted ++ d.admitted;
  interactive_taken = e ∙ ap (λ r. w ∷ r) (sym iq ∙ d.interactive_taken);
  background_taken = sym bq ∙ d.background_taken;
  in_order = d.in_order;
  admits = admits (d.front ++ d.back) d.admitted d.admits;
  told = d.told ∙ ap (λ r. r ++ map granted d.admitted) log ∙ told_twice s.log admitted d.admitted;
  counted = omega (arith, d.counted, count, length-append admitted d.admitted);
  limit = d.limit ∙ limit;
  within = d.within;
  settled = d.settled;
}

-- A round that takes a background waiter.
background-Drained :
    (w : ℕ) (queue : List ℕ) (s u v : Scheduler)
    → s.interactive_queue ≡ []
    → s.background_queue ≡ w ∷ queue
    → Handled w (record s { background_queue = queue }) u
    → Drained u v
    → Drained s v
background-Drained w queue s u v e f (limit, iq, bq, admitted, log, count, few, admits) d =
    let (no_front, none_left) =
      append_nil_lem d.front v.interactive_queue (sym e ∙ sym iq ∙ d.interactive_taken) in
    record {
      front = [];
      back = w ∷ d.back;
      admitted = admitted ++ d.admitted;
      interactive_taken = e ∙ sym none_left;
      background_taken = f ∙ ap (λ r. w ∷ r) (sym bq ∙ d.background_taken);
      in_order = inr none_left;
      admits =
          admits d.back d.admitted
            (subst (λ r. Admits u.waiters (r ++ d.back) d.admitted) no_front d.admits);
      told =
          d.told ∙ ap (λ r. r ++ map granted d.admitted) log ∙ told_twice s.log admitted d.admitted;
      counted = omega (arith, d.counted, count, length-append admitted d.admitted);
      limit = d.limit ∙ limit;
      within = d.within;
      settled = d.settled;
    }

-- What a round leaves: nobody to take, or one waiter fewer, and what a drain of the rest amounts to.
abbrev Rounds : Scheduler → Option Scheduler → Type 0
Rounds s none = IsSettled s
Rounds s (some u) =
    (u.max_concurrent ≡ s.max_concurrent)
    × (queued u < queued s)
    × (u.active_count ≤ s.active_count + 1)
    × (s.active_count < s.max_concurrent)
    × ((v : Scheduler) → Drained u v → Drained s v)

interactive-Rounds :
    (w : ℕ) (queue : List ℕ) (s : Scheduler)
    → s.active_count < s.max_concurrent
    → s.interactive_queue ≡ w ∷ queue
    → Rounds s (some (grant w (record s { interactive_queue = queue })))
interactive-Rounds w queue s room e =
    let h = grant-Handled w (record s { interactive_queue = queue }) in
    (
      h.0,
      omega (arith, ap length e, ap length h.1, ap length h.2),
      omega (arith, h.5, h.6),
      room,
      λ v. interactive-Drained w queue s _ v e h,
    )

background-Rounds :
    (w : ℕ) (queue : List ℕ) (s : Scheduler)
    → s.active_count < s.max_concurrent
    → s.interactive_queue ≡ []
    → s.background_queue ≡ w ∷ queue
    → Rounds s (some (grant w (record s { background_queue = queue })))
background-Rounds w queue s room e f =
    let h = grant-Handled w (record s { background_queue = queue }) in
    (
      h.0,
      omega (arith, ap length f, ap length h.1, ap length h.2),
      omega (arith, h.5, h.6),
      room,
      λ v. background-Drained w queue s _ v e f h,
    )

grant_taken-Rounds :
    (s : Scheduler) (o : Option (ℕ × Scheduler))
    → s.active_count < s.max_concurrent
    → Takes s o
    → Rounds s (grant_taken o)
grant_taken-Rounds s none room h = inr h
grant_taken-Rounds s (some (w, t)) room (inl (queue, e, same)) =
    subst (λ t. Rounds s (some (grant w t))) (sym same) (interactive-Rounds w queue s room e)
grant_taken-Rounds s (some (w, t)) room (inr (queue, e, f, few, same)) =
    subst (λ t. Rounds s (some (grant w t))) (sym same) (background-Rounds w queue s room e f)

drain_round-Rounds : (s : Scheduler) → Rounds s (drain_round s)
unfolding drain_round
drain_round-Rounds s =
    if_cases (Rounds s) (ltb s.active_count s.max_concurrent)
      (λ room.
        grant_taken-Rounds s (take_next s.interactive_queue s.background_queue s) (ground arith)
          (take_next-Takes s.interactive_queue s.background_queue s refl refl))
      (λ full. inl (ground arith))

-- As many rounds as waiters are left, and one, are enough.
drain_rounds-Drained :
    (rounds : ℕ) (s : Scheduler)
    → queued s < rounds
    → s.active_count ≤ s.max_concurrent
    → Drained s (drain_rounds rounds s)
unfolding drain_rounds
drain_rounds-Drained zero s enough within = absurd (omega arith)
drain_rounds-Drained (suc rounds) s enough within =
    elim (drain_round s)
        as (λ o. Rounds s o → Drained s (elim o [ none ↦ s | some t ↦ drain_rounds rounds t ])) [
          | none ↦ λ settled. settled-Drained s settled within
          | some t ↦ λ h.
              h.4 (drain_rounds rounds t)
                (drain_rounds-Drained rounds t (omega (arith, h.1)) (omega (arith, h.0, h.2, h.3)))
        ]
      (drain_round-Rounds s)

-- A drain that begins within the limit on permits takes waiters off the fronts of the two queues, a
-- background one only when no interactive one is left. Each of them who waits is granted one permit,
-- in that order, and the count of permits rises by as many; nothing else is granted. It stays within
-- the limit, and ends with as many permits counted as the limit allows, or with nobody left in the
-- interactive queue and nobody in the background queue whom the limit on background permits would let
-- pass.
pub drain_lem : (s : Scheduler) → s.active_count ≤ s.max_concurrent → Drained s (drain s)
unfolding drain
drain_lem s within = drain_rounds-Drained (suc (queued s)) s (omega arith) within
