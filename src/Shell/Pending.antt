-- ===== src/Shell/Pending.antt =====
-- TerminalShellIntegrationParser.ts: what the parser Keeps for later.
use floeterm.Common.{
  ℕ, zero, suc, ◌≤◌, Bool, true, false, ◌&&◌, not, List, ◌∷◌, ◌++◌, Option, none, some, length, ltb,
  if_cases, arith,
}
use floeterm.Shell.{
  esc, osc, max_pending_bytes, Payload, Start, find_start, Terminated, find_terminator,
  ends_with_esc, Output, plain, end_plain, end_open, Round, last, next, close, scan_round,
  scan_rounds, scan, has_start, is_empty, parse,
}

record IsKept (o : Output) : Type 0 where
  kept : length o.pending ≤ max_pending_bytes

abbrev RoundIsKept : Round → Type 0
RoundIsKept (last o) = IsKept o
RoundIsKept (next tokens behind) = Unit

plain-IsKept : (ends : Bool) (bytes : List ℕ) → IsKept (plain ends bytes)
plain-IsKept true bytes = record { kept = omega arith }
plain-IsKept false bytes = record { kept = omega arith }

end_open-IsKept : (s : Start) → IsKept (end_open max_pending_bytes s)
unfolding end_open
end_open-IsKept s =
    if_cases IsKept (ltb max_pending_bytes (length (esc ∷ (osc ∷ s.behind))))
      (λ long. record { kept = omega arith }) (λ short. record { kept = ground arith })

module _ (recognize : List ℕ → Payload) where
  close-RoundIsKept :
      (s : Start) (o : Option Terminated) → RoundIsKept (close max_pending_bytes recognize s o)
  close-RoundIsKept s none = end_open-IsKept s
  close-RoundIsKept s (some t) = tt

  scan_round-RoundIsKept :
      (bytes : List ℕ) → RoundIsKept (scan_round max_pending_bytes recognize bytes)
  unfolding scan_round end_plain
  scan_round-RoundIsKept bytes =
      elim (find_start bytes)
        as (λ o. RoundIsKept (elim o [
          | none ↦ last (end_plain bytes)
          | some s ↦ close max_pending_bytes recognize s (find_terminator s.behind)
        ])) [
          | none ↦ plain-IsKept (ends_with_esc bytes) bytes
          | some s ↦ close-RoundIsKept s (find_terminator s.behind)
        ]

  scan_rounds-IsKept :
      (rounds : ℕ) (bytes : List ℕ) → IsKept (scan_rounds max_pending_bytes recognize rounds bytes)
  unfolding scan_rounds
  scan_rounds-IsKept zero bytes = record { kept = omega arith }
  scan_rounds-IsKept (suc rounds) bytes =
      elim (scan_round max_pending_bytes recognize bytes)
          as (λ r.
            RoundIsKept r
            → IsKept (elim r [
              | last out ↦ out
              | next tokens behind ↦
                  let out = scan_rounds max_pending_bytes recognize rounds behind in
                  (record out { tokens = tokens ++ out.tokens })
            ])) [
              | last out ↦ λ v. v
              | next tokens behind ↦ λ v. record { kept = (scan_rounds-IsKept rounds behind).kept }
            ]
        (scan_round-RoundIsKept bytes)

  parse-IsKept : (pending chunk : List ℕ) → IsKept (parse recognize pending chunk)
  unfolding parse scan end_plain
  parse-IsKept pending chunk =
      if_cases IsKept (is_empty pending && not (has_start (find_start chunk)))
        (λ none_starts. plain-IsKept (ends_with_esc chunk) chunk)
        (λ starts. scan_rounds-IsKept (suc (length (pending ++ chunk))) (pending ++ chunk))

-- Whatever comes, the parser Keeps no more than 4096 bytes for later.
pub parse-pending_le :
    (recognize : List ℕ → Payload) (pending chunk : List ℕ)
    → length ((parse recognize pending chunk).pending) ≤ max_pending_bytes
parse-pending_le recognize pending chunk = (parse-IsKept recognize pending chunk).kept
