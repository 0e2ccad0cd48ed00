-- ===== src/Shell/Parsed.antt =====
-- TerminalShellIntegrationParser.ts: the parser on a stream that comes in chunks.
use floeterm.Common.{
  ℕ, zero, suc, ◌≤◌, ◌<◌, ◌≡◌, refl, sym, ap, ◌∙◌, subst, not, List, [], ◌∷◌, ◌++◌, append_assoc,
  none, some, length, length-append, if◌then◌else◌, arith, Option-cases, inl, inr,
}
use floeterm.Shell.{
  esc, osc, max_pending_bytes, Payload, Start, find_start, find_terminator, append_display, Output,
  end_plain, scan, has_start, parse, tokens_of,
}
use floeterm.Shell.Rounds.{with_tokens}
use floeterm.Shell.Prefix.{Located, find_start-Located}
use floeterm.Shell.Shifted.{items, items-append}
use floeterm.Shell.Cuts.{
  scan_of_no_start, scan_of_start, Joins, plain-Joins, open-Joins, with_tokens-Joins,
  end_open_within, scan_more, behind_shorter,
}

-- How much of a sequence is open at the end, where nothing is too long to be kept.
abbrev pub open_length : (recognize : List ℕ → Payload) → List ℕ → ℕ
open_length recognize bytes = length ((scan (length bytes) recognize bytes).pending)

not_below_zero : (n : ℕ) → n < 0 → ⊥
not_below_zero n l = omega arith

fragment_le :
    (s : List ℕ) (st : Start) → find_start s ≡ some st → length (esc ∷ (osc ∷ st.behind)) ≤ length s
fragment_le s st e =
    let place = subst (Located s) e (find_start-Located s) in
    omega (arith, ap length place, length-append st.before (esc ∷ (osc ∷ st.behind)))

module _ (limit : ℕ) (recognize : List ℕ → Payload) where
  scan-Joins :
      (n big : ℕ) (s t : List ℕ)
      → length s < n
      → length s ≤ big
      → length ((scan big recognize s).pending) ≤ limit
      → Joins limit recognize t (scan limit recognize s) (scan limit recognize (s ++ t))
  scan-Joins zero big s t l b h = elim (not_below_zero (length s) l) [ ]
  scan-Joins (suc n) big s t l b h = elim (Option-cases (find_start s)) [
    | inl e ↦
        subst (λ o. Joins limit recognize t o (scan limit recognize (s ++ t)))
          (sym (scan_of_no_start limit recognize s e)) (plain-Joins limit recognize s t e)
    | inr (st, e) ↦ elim (Option-cases (find_terminator st.behind)) [
      | inl f ↦
          let kept =
            scan_of_start big recognize s st none e f
            ∙ end_open_within big recognize st (omega (arith, fragment_le s st e, b)) in
          subst (λ o. Joins limit recognize t o (scan limit recognize (s ++ t)))
            (sym (
              scan_of_start limit recognize s st none e f
              ∙ end_open_within limit recognize st (subst (λ o. length o.pending ≤ limit) kept h)))
            (open-Joins limit recognize s t st e)
      | inr (tm, f) ↦
          let shorter = behind_shorter limit recognize s st tm e f in
          let tokens =
            append_display st.before (tokens_of (recognize tm.payload) tm.payload tm.terminator) in
          subst (λ o. Joins limit recognize t o (scan limit recognize (s ++ t)))
            (sym (scan_of_start limit recognize s st (some tm) e f))
            (subst
              (Joins limit recognize t
                (with_tokens limit recognize tokens (scan limit recognize tm.behind)))
              (sym (scan_more limit recognize s t st tm e f))
              (with_tokens-Joins limit recognize tokens t (scan limit recognize tm.behind)
                (scan limit recognize (tm.behind ++ t))
                (scan-Joins n big tm.behind t (omega (arith, shorter)) (omega (arith, shorter)) (
                  subst (λ o. length o.pending ≤ limit)
                    (scan_of_start big recognize s st (some tm) e f) h))))
    ]
  ]

-- The short cut of `parse` answers what the loop would.
parse-eq-scan :
    (recognize : List ℕ → Payload) (pending chunk : List ℕ)
    → parse recognize pending chunk ≡ scan max_pending_bytes recognize (pending ++ chunk)
unfolding parse
parse-eq-scan recognize [] chunk =
    elim (find_start chunk)
        as (λ o.
          find_start chunk ≡ o
          → (if not (has_start o) then end_plain chunk else scan max_pending_bytes recognize chunk)
            ≡ scan max_pending_bytes recognize chunk) [
              | none ↦ λ e. sym (scan_of_no_start max_pending_bytes recognize chunk e)
              | some st ↦ λ e. refl
            ]
      refl
parse-eq-scan recognize (p ∷ pending) chunk = refl

-- The whole of a stream.
abbrev pub stream_of : (chunk : List ℕ) → List (List ℕ) → List ℕ
stream_of chunk [] = chunk
stream_of chunk (next_chunk ∷ chunks) = chunk ++ stream_of next_chunk chunks

module _ (recognize : List ℕ → Payload) where
  -- The parser, chunk by chunk.
  abbrev pub parse_all : (pending chunk : List ℕ) → List (List ℕ) → Output
  parse_all pending chunk [] = parse recognize pending chunk
  parse_all pending chunk (next_chunk ∷ chunks) =
      let out = parse recognize pending chunk in
      let rest = parse_all out.pending next_chunk chunks in
      record { tokens = out.tokens ++ rest.tokens; pending = rest.pending }

  -- At every cut, no more of a sequence is open than the parser Keeps.
  abbrev pub AllKept : (pending chunk : List ℕ) → List (List ℕ) → Type 0
  AllKept pending chunk [] = Unit
  AllKept pending chunk (next_chunk ∷ chunks) =
      (open_length recognize (pending ++ chunk) ≤ max_pending_bytes)
      × AllKept ((parse recognize pending chunk).pending) next_chunk chunks

  parse-Joins :
      (pending s t : List ℕ)
      → open_length recognize (pending ++ s) ≤ max_pending_bytes
      → Joins max_pending_bytes recognize t
          (parse recognize pending s)
          (parse recognize pending (s ++ t))
  parse-Joins pending s t h =
      subst (λ o. Joins max_pending_bytes recognize t o (parse recognize pending (s ++ t)))
        (sym (parse-eq-scan recognize pending s))
        (subst
          (Joins max_pending_bytes recognize t (scan max_pending_bytes recognize (pending ++ s)))
          (ap (scan max_pending_bytes recognize) (append_assoc pending s t)
            ∙ sym (parse-eq-scan recognize pending (s ++ t)))
          (scan-Joins max_pending_bytes recognize (suc (length (pending ++ s)))
            (length (pending ++ s)) (pending ++ s) t (omega arith) (omega arith) h))

  -- However a stream is cut into chunks, the parser shows the same bytes and the same events in the
  -- same order, and Keeps the same bytes for later, as if the stream had come in one chunk; provided
  -- that at no cut more than 4096 bytes of a sequence are open.
  pub parse_all_lem :
      (pending chunk : List ℕ) (chunks : List (List ℕ))
      → AllKept pending chunk chunks
      → (items ((parse_all pending chunk chunks).tokens)
          ≡ items ((parse recognize pending (stream_of chunk chunks)).tokens))
        × ((parse_all pending chunk chunks).pending
            ≡ (parse recognize pending (stream_of chunk chunks)).pending)
  parse_all_lem pending chunk [] h = (refl, refl)
  parse_all_lem pending chunk (next_chunk ∷ chunks) h =
      let out = parse recognize pending chunk in
      let (same, left) = parse_all_lem out.pending next_chunk chunks h.1 in
      let v = parse-Joins pending chunk (stream_of next_chunk chunks) h.0 in
      let again = parse-eq-scan recognize out.pending (stream_of next_chunk chunks) in
      (
        items-append out.tokens ((parse_all out.pending next_chunk chunks).tokens)
            ∙ ap (λ zs. items out.tokens ++ zs) (same ∙ ap (λ o. items o.tokens) again)
            ∙ sym v.shown,
        left ∙ ap (λ o. o.pending) again ∙ sym v.kept,
      )
