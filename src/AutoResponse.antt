-- ===== src/AutoResponse.antt =====
-- terminal-web/src/utils/xtermAutoResponseFilter.ts: the answers of the emulator to queries are taken
-- out of the input. A string is the list of its UTF-16 units; an index is the units from there on.
pub mod Removed
pub mod Sound
pub mod Complete
pub mod Ignored
mod Tests
use floeterm.Common.{
  ℕ, zero, suc, ◌+◌, ◌-◌, ◌*◌, Bool, true, false, ◌&&◌, ◌||◌, not, List, [], ◌∷◌, Option, none,
  some, length, leb, ◌==◌, if◌then◌else◌,
}

abbrev pub esc : ℕ
esc = 0x1b

abbrev pub bel : ℕ
bel = 0x07

abbrev pub is_digit : ℕ → Bool
is_digit c = leb b'0' c && leb c b'9'

abbrev pub is_parameter : ℕ → Bool
is_parameter c = is_digit c || c == b';'

-- A loop that advances while the test holds.
unfoldable pub skip_while : (ℕ → Bool) → List ℕ → List ℕ
skip_while test [] = []
skip_while test (c ∷ units) = let rest = skip_while test units in if test c then rest else c ∷ units

unfoldable pub take_while : (ℕ → Bool) → List ℕ → List ℕ
take_while test [] = []
take_while test (c ∷ units) = let rest = take_while test units in if test c then c ∷ rest else []

-- What is behind the unit, where it is the next one.
abbrev pub expect : ℕ → List ℕ → Option (List ℕ)
expect c [] = none
expect c (d ∷ units) = if d == c then some units else none

abbrev pub or_else : Option (List ℕ) → Option (List ℕ) → Option (List ℕ)
or_else none other = other
or_else (some rest) other = some rest

-- `\x1b[`, on what is behind it: device attributes, a cursor report, keyboard flags, focus.
unfoldable pub skip_csi : List ℕ → Option (List ℕ)
unfolding skip_while
skip_csi [] = none
skip_csi (c ∷ units) =
    if c == b'?'
    then or_else (expect b'c' (skip_while is_parameter units))
        (expect b'u' (skip_while is_digit units))
    else if c == b'>'
    then expect b'c' (skip_while is_parameter units)
    else if is_digit c
    then expect b'R' (skip_while is_parameter (c ∷ units))
    else if c == b'I' || c == b'O'
    then some units
    else none

-- The loops that look for `\x1b\` or `\x07`: what is behind it, or nothing.
unfoldable pub skip_text : List ℕ → List ℕ
skip_text [] = []
skip_text (c ∷ []) = []
skip_text (c ∷ d ∷ units) =
    let rest = skip_text (d ∷ units) in
    if c == esc && d == b'\\' then units else if c == bel then d ∷ units else rest

-- `\x1bP`: an end that is not behind the introducer is none.
unfoldable pub skip_dcs : List ℕ → Option (List ℕ)
unfolding skip_text
skip_dcs [] = none
skip_dcs (c ∷ units) = some (skip_text (c ∷ units))

-- `Number.parseInt` of decimal digits.
unfoldable pub parse_digits : ℕ → List ℕ → ℕ
parse_digits value [] = value
parse_digits value (c ∷ digits) = parse_digits (value * 10 + (c - b'0')) digits

abbrev pub is_empty : List ℕ → Bool
is_empty [] = true
is_empty (c ∷ units) = false

abbrev pub map_text : Option (List ℕ) → Option (List ℕ)
map_text none = none
map_text (some units) = some (skip_text units)

-- `\x1b]`: a report of the foreground or background colour.
unfoldable pub skip_osc : List ℕ → Option (List ℕ)
unfolding parse_digits take_while skip_while skip_text
skip_osc units =
    let digits = take_while is_digit units in
    let code = parse_digits 0 digits in
    if is_empty digits
    then none
    else if code == 10 || code == 11
    then map_text (expect b';' (skip_while is_digit units))
    else none

-- On what is behind an escape: the units behind the response that it begins.
unfoldable pub skip_response : List ℕ → Option (List ℕ)
unfolding skip_csi skip_dcs skip_osc
skip_response [] = none
skip_response (c ∷ units) =
    if c == b'['
    then skip_csi units
    else if c == b'P'
    then skip_dcs units
    else if c == b']'
    then skip_osc units
    else none

-- The loop: each round takes a unit at least.
unfoldable pub filter_rounds : ℕ → List ℕ → List ℕ
unfolding skip_response
filter_rounds zero units = []
filter_rounds (suc rounds) [] = []
filter_rounds (suc rounds) (c ∷ units) = elim (if c == esc then skip_response units else none) [
  | some rest ↦ filter_rounds rounds rest
  | none ↦ c ∷ filter_rounds rounds units
]

unfoldable pub has_escape : List ℕ → Bool
has_escape [] = false
has_escape (c ∷ units) = let rest = has_escape units in if c == esc then true else rest

unfoldable pub filter_xterm_auto_responses : List ℕ → List ℕ
unfolding filter_rounds has_escape
filter_xterm_auto_responses units =
    if has_escape units then filter_rounds (length units) units else units
