-- ===== src/Shell/Cuts.antt =====
-- TerminalShellIntegrationParser.ts: how the output is cut into chunks makes no difference.
use floeterm.Common.{
  ℕ, ◌≤◌, ◌<◌, ◌≡◌, refl, sym, ap, ◌∙◌, subst, true, false, List, [], ◌∷◌, ◌++◌, append_assoc,
  append-nil, Option, none, some, length, ltb, if_false, arith,
}
use floeterm.Shell.{
  esc, osc, Token, Payload, Start, find_start, Terminated, find_terminator, append_display,
  ends_with_esc, without_last, Output, plain, end_plain, end_open, last, tokens_of, close,
  scan_round, scan,
}
use floeterm.Shell.Rounds.{
  with_tokens, after_round, RoundWithin, scan-eq-after_round, scan_round-RoundWithin,
}
use floeterm.Shell.Prefix.{
  WithBehind, find_start-WithBehind, Located, find_start-Located, find_start-push_all,
  find_start_before_last, without_last-append, Keeps, find_terminator-Keeps,
}
use floeterm.Shell.Shifted.{
  bytes_items, items, items-append, items-append_display, Shifts, scan-Shifts,
}

module _ (limit : ℕ) (recognize : List ℕ → Payload) where
  pub scan_of_no_start : (s : List ℕ) → find_start s ≡ none → scan limit recognize s ≡ end_plain s
  unfolding scan_round
  scan_of_no_start s e =
      scan-eq-after_round limit recognize s
      ∙ ap
          (λ o. after_round limit recognize (elim o [
            | none ↦ last (end_plain s)
            | some st ↦ close limit recognize st (find_terminator st.behind)
          ]))
          e

  round_of_start :
      (s : List ℕ) (st : Start) (o : Option Terminated)
      → find_start s ≡ some st
      → find_terminator st.behind ≡ o
      → scan_round limit recognize s ≡ close limit recognize st o
  unfolding scan_round
  round_of_start s st o e f =
      ap
        (λ o. elim o [
          | none ↦ last (end_plain s)
          | some st ↦ close limit recognize st (find_terminator st.behind)
        ])
        e
      ∙ ap (close limit recognize st) f

  pub scan_of_start :
      (s : List ℕ) (st : Start) (o : Option Terminated)
      → find_start s ≡ some st
      → find_terminator st.behind ≡ o
      → scan limit recognize s ≡ after_round limit recognize (close limit recognize st o)
  scan_of_start s st o e f =
      scan-eq-after_round limit recognize s
      ∙ ap (after_round limit recognize) (round_of_start s st o e f)

  -- The output of the whole is that of the part, and of what comes with what it left.
  pub record Joins (t : List ℕ) (out whole : Output) : Type 0 where
    pub shown :
        items whole.tokens
        ≡ items out.tokens ++ items ((scan limit recognize (out.pending ++ t)).tokens)
    pub kept : whole.pending ≡ (scan limit recognize (out.pending ++ t)).pending

  -- Where a part has been passed over, but for what is pending.
  Joins-shift :
      (u t : List ℕ) (out whole : Output)
      → items out.tokens ≡ bytes_items u
      → Shifts u whole (scan limit recognize (out.pending ++ t))
      → Joins t out whole
  Joins-shift u t out whole e v = record {
    shown =
        v.shown ∙ ap (λ zs. zs ++ items ((scan limit recognize (out.pending ++ t)).tokens)) (sym e);
    kept = v.kept;
  }

  ends_with_esc-append :
      (s t : List ℕ) → ends_with_esc s ≡ false → ends_with_esc (s ++ t) ≡ ends_with_esc t
  ends_with_esc-append [] t h = refl
  ends_with_esc-append (b ∷ []) [] h = h
  ends_with_esc-append (b ∷ []) (c ∷ t) h = refl
  ends_with_esc-append (b ∷ (c ∷ s)) t h = ends_with_esc-append (c ∷ s) t h

  ends_with_esc-append_cons :
      (s t : List ℕ) (b : ℕ) → ends_with_esc (s ++ (b ∷ t)) ≡ ends_with_esc (b ∷ t)
  ends_with_esc-append_cons [] t b = refl
  ends_with_esc-append_cons (a ∷ []) t b = refl
  ends_with_esc-append_cons (a ∷ (c ∷ s)) t b = ends_with_esc-append_cons (c ∷ s) t b

  shown_alone : (u : List ℕ) → items (append_display u []) ≡ bytes_items u
  shown_alone u = items-append_display u [] ∙ append-nil (bytes_items u)

  pub plain-Joins :
      (s t : List ℕ) → find_start s ≡ none → Joins t (end_plain s) (scan limit recognize (s ++ t))
  unfolding end_plain
  plain-Joins s t e =
      elim (ends_with_esc s)
          as (λ x. ends_with_esc s ≡ x → Joins t (plain x s) (scan limit recognize (s ++ t))) [
            | true ↦ λ h.
                Joins-shift (without_last s) t (plain true s) (scan limit recognize (s ++ t))
                  (shown_alone (without_last s))
                  (subst
                    (λ w.
                      Shifts (without_last s) (scan limit recognize w)
                        (scan limit recognize (esc ∷ t)))
                    (sym (without_last-append s t h))
                    (scan-Shifts limit recognize (without_last s) (esc ∷ t)
                      (ap find_start (sym (without_last-append s t h))
                        ∙ find_start_before_last s t e h)
                      (ends_with_esc-append_cons (without_last s) t esc)))
            | false ↦ λ h.
                Joins-shift s t (plain false s) (scan limit recognize (s ++ t)) (shown_alone s) (
                  scan-Shifts limit recognize s t (find_start-push_all s t e h)
                    (ends_with_esc-append s t h))
          ]
        refl

  -- A sequence that stays open, and is not too long.
  pub open-Joins :
      (s t : List ℕ) (st : Start)
      → find_start s ≡ some st
      → Joins t
          (record { tokens = append_display st.before []; pending = esc ∷ (osc ∷ st.behind) })
          (scan limit recognize (s ++ t))
  unfolding find_start
  open-Joins s t st e =
      let place : s ≡ st.before ++ (esc ∷ (osc ∷ st.behind)) =
        subst (Located s) e (find_start-Located s) in
      let more : find_start (s ++ t) ≡ some (record st { behind = st.behind ++ t }) =
        subst (λ o. WithBehind t o (find_start (s ++ t))) e (find_start-WithBehind s t) in
      let whole : s ++ t ≡ st.before ++ (esc ∷ (osc ∷ (st.behind ++ t))) =
        ap (λ w. w ++ t) place ∙ append_assoc st.before (esc ∷ (osc ∷ st.behind)) t in
      Joins-shift st.before t _ (scan limit recognize (s ++ t)) (shown_alone st.before) (
        subst
          (λ w.
            Shifts st.before (scan limit recognize w)
              (scan limit recognize (esc ∷ (osc ∷ (st.behind ++ t)))))
          (sym whole)
          (scan-Shifts limit recognize st.before (esc ∷ (osc ∷ (st.behind ++ t)))
            (ap find_start (sym whole)
              ∙ more
              ∙ ap (λ b. some (record { before = b; behind = st.behind ++ t }))
                  (sym (append-nil st.before)))
            (ends_with_esc-append_cons st.before (osc ∷ (st.behind ++ t)) esc)))

  pub with_tokens-Joins :
      (tokens : List Token) (t : List ℕ) (out whole : Output)
      → Joins t out whole
      → Joins t (with_tokens limit recognize tokens out) (with_tokens limit recognize tokens whole)
  with_tokens-Joins tokens t out whole v = record {
    shown =
        items-append tokens whole.tokens
        ∙ ap (λ zs. items tokens ++ zs) v.shown
        ∙ sym (append_assoc (items tokens) (items out.tokens) _)
        ∙ ap (λ zs. zs ++ items ((scan limit recognize (out.pending ++ t)).tokens))
            (sym (items-append tokens out.tokens));
    kept = v.kept;
  }

  -- A sequence within the limit is kept.
  pub end_open_within :
      (st : Start)
      → length (esc ∷ (osc ∷ st.behind)) ≤ limit
      → end_open limit st
        ≡ record { tokens = append_display st.before []; pending = esc ∷ (osc ∷ st.behind) }
  unfolding end_open
  end_open_within st h =
      if_false (ltb limit (length (esc ∷ (osc ∷ st.behind)))) _ _ (ground (arith, h))

  -- The same start and terminator are found with more behind them.
  pub scan_more :
      (s t : List ℕ) (st : Start) (tm : Terminated)
      → find_start s ≡ some st
      → find_terminator st.behind ≡ some tm
      → scan limit recognize (s ++ t)
        ≡ with_tokens limit recognize
            (append_display st.before (tokens_of (recognize tm.payload) tm.payload tm.terminator))
            (scan limit recognize (tm.behind ++ t))
  scan_more s t st tm e f =
      scan_of_start (s ++ t) (record st { behind = st.behind ++ t })
        (some (record tm { behind = tm.behind ++ t }))
        (subst (λ o. WithBehind t o (find_start (s ++ t))) e (find_start-WithBehind s t))
        (subst (λ o. Keeps t o (find_terminator (st.behind ++ t))) f
          (find_terminator-Keeps st.behind t))

  pub behind_shorter :
      (s : List ℕ) (st : Start) (tm : Terminated)
      → find_start s ≡ some st
      → find_terminator st.behind ≡ some tm
      → length tm.behind < length s
  behind_shorter s st tm e f =
      subst (RoundWithin (length s)) (round_of_start s st (some tm) e f)
        (scan_round-RoundWithin limit recognize s)
