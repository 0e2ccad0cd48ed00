-- ===== src/Shell/Tests.antt =====
-- TerminalShellIntegrationParser.ts at concrete values.
use floeterm.Common.{ℕ, ◌≤◌, ◌≡◌, refl, List, [], ◌∷◌, length, arith, ◌-◌}
use floeterm.Common.Number.{Number, whole}
use floeterm.Shell.{
  esc, osc, bel, max_pending_bytes, Payload, Output, scan, scan_rounds, scan_round, find_start,
  find_terminator, end_plain, end_open, parse, parse_payload,
}
use floeterm.Shell.Shifted.{items}
use floeterm.Shell.Parsed.{open_length, parse_all, stream_of, AllKept, parse_all_lem}
use floeterm.Shell.Pending.{parse-pending_le}

-- Payloads of ASCII, and an exit code of one digit.
abbrev digit : List ℕ → Number
digit [] = whole 0
digit (c ∷ cs) = whole (c - 48)

abbrev recognize : List ℕ → Payload
recognize = parse_payload (λ bytes. bytes) digit (λ name. name)

-- `a ESC ] 6 | 33;D;1 BEL b`, cut after the 6.
abbrev start_of_command : List ℕ
start_of_command = b'a' ∷ esc ∷ osc ∷ b'6' ∷ []

abbrev end_of_command : List ℕ
end_of_command = b'3' ∷ b'3' ∷ b';' ∷ b'D' ∷ b';' ∷ b'1' ∷ bel ∷ b'b' ∷ []

abbrev cuts : List (List ℕ)
cuts = end_of_command ∷ []

abbrev answer : Output
answer = parse_all recognize [] start_of_command cuts

is_open : open_length recognize start_of_command ≡ 3
unfolding scan scan_rounds scan_round find_start find_terminator end_plain end_open
is_open = refl

is_kept : AllKept recognize [] start_of_command cuts
is_kept = (omega (arith, is_open), tt)

parse_all_lem_example :
    (items ((parse_all recognize [] start_of_command cuts).tokens)
      ≡ items ((parse recognize [] (stream_of start_of_command cuts)).tokens))
    × ((parse_all recognize [] start_of_command cuts).pending
        ≡ (parse recognize [] (stream_of start_of_command cuts)).pending)
parse_all_lem_example = parse_all_lem recognize [] start_of_command cuts is_kept

parse-pending_le_example :
    length ((parse recognize (esc ∷ []) (osc ∷ b'6' ∷ [])).pending) ≤ max_pending_bytes
parse-pending_le_example = parse-pending_le recognize (esc ∷ []) (osc ∷ b'6' ∷ [])
