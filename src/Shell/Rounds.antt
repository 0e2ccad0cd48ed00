-- ===== src/Shell/Rounds.antt =====
-- TerminalShellIntegrationParser.ts: the rounds of `parse` are enough.
use floeterm.Common.{
  ℕ, zero, suc, ◌<◌, ◌≤◌, ◌≡◌, refl, ap, ◌&&◌, List, [], ◌∷◌, ◌++◌, Option, none, some, length,
  ◌==◌, if_cases, arith,
}
use floeterm.Shell.{
  esc, osc, bel, st, Token, Payload, Start, push_before, find_start, Terminated, push_payload,
  find_terminator, Output, end_plain, Round, last, next, close, scan_round, scan_rounds, scan,
}

abbrev StartWithin : ℕ → Option Start → Type 0
StartWithin n none = Unit
StartWithin n (some s) = length s.behind < n

abbrev TerminatedWithin : ℕ → Option Terminated → Type 0
TerminatedWithin n none = Unit
TerminatedWithin n (some t) = length t.behind < n

abbrev pub RoundWithin : ℕ → Round → Type 0
RoundWithin n (last out) = Unit
RoundWithin n (next tokens behind) = length behind < n

StartWithin-push :
    (n : ℕ) (b : ℕ) (o : Option Start) → StartWithin n o → StartWithin (suc n) (push_before b o)
StartWithin-push n b none w = tt
StartWithin-push n b (some s) w = omega arith

TerminatedWithin-push :
    (n : ℕ) (b : ℕ) (o : Option Terminated)
    → TerminatedWithin n o
    → TerminatedWithin (suc n) (push_payload b o)
TerminatedWithin-push n b none w = tt
TerminatedWithin-push n b (some t) w = omega arith

find_start-StartWithin : (bytes : List ℕ) → StartWithin (length bytes) (find_start bytes)
unfolding find_start
find_start-StartWithin [] = tt
find_start-StartWithin (b ∷ []) = tt
find_start-StartWithin (b ∷ (c ∷ bs)) =
    if_cases (StartWithin (suc (suc (length bs)))) (b == esc && c == osc) (λ found. omega arith)
      (λ goes_on.
        StartWithin-push (suc (length bs)) b (find_start (c ∷ bs))
          (find_start-StartWithin (c ∷ bs)))

find_terminator-TerminatedWithin :
    (bytes : List ℕ) → TerminatedWithin (length bytes) (find_terminator bytes)
unfolding find_terminator
find_terminator-TerminatedWithin [] = tt
find_terminator-TerminatedWithin (b ∷ []) =
    if_cases (TerminatedWithin 1) (b == bel) (λ found. omega arith) (λ stays. tt)
find_terminator-TerminatedWithin (b ∷ (c ∷ bs)) =
    if_cases (TerminatedWithin (suc (suc (length bs)))) (b == bel) (λ found. omega arith)
      (λ no_bell.
        if_cases (TerminatedWithin (suc (suc (length bs)))) (b == esc && c == st)
          (λ found. omega arith)
          (λ goes_on.
            TerminatedWithin-push (suc (length bs)) b (find_terminator (c ∷ bs))
              (find_terminator-TerminatedWithin (c ∷ bs))))

module _ (limit : ℕ) (recognize : List ℕ → Payload) where
  close-RoundWithin :
      (n : ℕ) (s : Start) (o : Option Terminated)
      → TerminatedWithin n o
      → RoundWithin n (close limit recognize s o)
  close-RoundWithin n s none w = tt
  close-RoundWithin n s (some t) w = w

  RoundWithin-weaken : (n m : ℕ) (r : Round) → n ≤ m → RoundWithin n r → RoundWithin m r
  RoundWithin-weaken n m (last out) l w = tt
  RoundWithin-weaken n m (next tokens behind) l w = omega arith

  pub scan_round-RoundWithin :
      (bytes : List ℕ) → RoundWithin (length bytes) (scan_round limit recognize bytes)
  unfolding scan_round
  scan_round-RoundWithin bytes =
      elim (find_start bytes)
          as (λ o.
            StartWithin (length bytes) o
            → RoundWithin (length bytes) (elim o [
              | none ↦ last (end_plain bytes)
              | some s ↦ close limit recognize s (find_terminator s.behind)
            ])) [
              | none ↦ λ w. tt
              | some s ↦ λ w.
                  RoundWithin-weaken (length s.behind) (length bytes) _ (omega (arith, w)) (
                    close-RoundWithin (length s.behind) s (find_terminator s.behind)
                      (find_terminator-TerminatedWithin s.behind))
            ]
        (find_start-StartWithin bytes)

  abbrev pub with_tokens : List Token → Output → Output
  with_tokens tokens out = record out { tokens = tokens ++ out.tokens }

  scan_rounds_enough :
      (n m : ℕ) (bytes : List ℕ)
      → length bytes < n
      → length bytes < m
      → scan_rounds limit recognize n bytes ≡ scan_rounds limit recognize m bytes
  unfolding scan_rounds
  scan_rounds_enough zero m bytes p q = ground arith
  scan_rounds_enough (suc n) zero bytes p q = ground arith
  scan_rounds_enough (suc n) (suc m) bytes p q =
      elim (scan_round limit recognize bytes)
          as (λ r.
            RoundWithin (length bytes) r
            → elim r [
              | last out ↦ out
              | next tokens behind ↦
                  let out = scan_rounds limit recognize n behind in
                  (record out { tokens = tokens ++ out.tokens })
            ]
              ≡ elim r [
                | last out ↦ out
                | next tokens behind ↦
                    let out = scan_rounds limit recognize m behind in
                    (record out { tokens = tokens ++ out.tokens })
              ]) [
                | last out ↦ λ w. refl
                | next tokens behind ↦ λ w.
                    ap (with_tokens tokens)
                      (scan_rounds_enough n m behind (omega (arith, w)) (omega (arith, w)))
              ]
        (scan_round-RoundWithin bytes)

  abbrev pub after_round : Round → Output
  after_round (last out) = out
  after_round (next tokens behind) = with_tokens tokens (scan limit recognize behind)

  -- The loop, without its count of rounds.
  pub scan-eq-after_round :
      (bytes : List ℕ) → scan limit recognize bytes ≡ after_round (scan_round limit recognize bytes)
  unfolding scan scan_rounds
  scan-eq-after_round bytes =
      elim (scan_round limit recognize bytes)
          as (λ r.
            RoundWithin (length bytes) r
            → elim r [
              | last out ↦ out
              | next tokens behind ↦
                  let out = scan_rounds limit recognize (length bytes) behind in
                  (record out { tokens = tokens ++ out.tokens })
            ]
              ≡ after_round r) [
                | last out ↦ λ w. refl
                | next tokens behind ↦ λ w.
                    ap (with_tokens tokens) (
                      scan_rounds_enough (length bytes) (suc (length behind)) behind w
                        (omega arith))
              ]
        (scan_round-RoundWithin bytes)
