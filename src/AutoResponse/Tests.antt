-- ===== src/AutoResponse/Tests.antt =====
-- xtermAutoResponseFilter.ts at concrete values.
use floeterm.Common.{some, ◌≡◌, refl, List, [], ◌∷◌, ℕ}
use floeterm.AutoResponse.{esc, bel, filter_xterm_auto_responses, skip_response}
use floeterm.AutoResponse.Complete.{Report, cursor, skip_response-Report}
use floeterm.AutoResponse.Sound.{Removal, filter_xterm_auto_responses-Removal}

-- A letter, a cursor report, an arrow key, a colour report with its bell, a letter.
abbrev typed : List ℕ
typed =
    b'a' ∷ esc ∷ b'[' ∷ b'1' ∷ b';' ∷ b'2' ∷ b'R' ∷ esc ∷ b'[' ∷ b'A' ∷ esc ∷ b']' ∷ b'1' ∷ b'0'
    ∷ b';' ∷ b'r' ∷ bel ∷ b'z' ∷ []

typed_filtered : filter_xterm_auto_responses typed ≡ b'a' ∷ esc ∷ b'[' ∷ b'A' ∷ b'z' ∷ []
unfolding filter_xterm_auto_responses
typed_filtered = refl

filter_xterm_auto_responses-Removal_example : Removal typed (filter_xterm_auto_responses typed)
filter_xterm_auto_responses-Removal_example = filter_xterm_auto_responses-Removal typed

abbrev after_escape : List ℕ
after_escape = b'[' ∷ b'1' ∷ b';' ∷ b'2' ∷ b'R' ∷ b'z' ∷ []

sample-Report : Report after_escape (b'z' ∷ [])
sample-Report = cursor b'1' (b';' ∷ b'2' ∷ []) (b'z' ∷ []) refl (refl, (refl, tt))

skip_response-Report_example : skip_response after_escape ≡ some (b'z' ∷ [])
skip_response-Report_example = skip_response-Report after_escape (b'z' ∷ []) sample-Report
