-- ===== src/AutoResponse/Sound.antt =====
-- xtermAutoResponseFilter.ts: nothing but automatic responses is removed.
use floeterm.Common.{
  false, ℕ, zero, suc, ◌≤◌, ◌≡◌, refl, sym, ap, ◌∙◌, subst, if_cases, ◌||◌, List, [], ◌∷◌, ◌++◌,
  Option, none, some, length, ◌==◌, if◌then◌else◌, arith, append_assoc, length-append, ◌⊎◌,
}
use floeterm.AutoResponse.{
  esc, is_digit, skip_while, take_while, expect, skip_text, skip_dcs, parse_digits, is_empty,
  map_text, skip_osc, skip_response, filter_rounds, has_escape, filter_xterm_auto_responses,
}
use floeterm.AutoResponse.Ignored.{IsIgnored, skip_response-none}
use floeterm.AutoResponse.Removed.{
  Each, Ending, Response, device_control, color, Begins, Claims, Each-take_while, skip_while-append,
  skip_text_lem, skip_csi-Claims,
}

skip_dcs-Claims : (units : List ℕ) → Claims (b'P' ∷ units) (skip_dcs units)
unfolding skip_dcs
skip_dcs-Claims [] rest h = cc
skip_dcs-Claims (c ∷ units) rest h =
    let (text, ending, o, e, whole) = skip_text_lem (c ∷ units) in
    let same : skip_text (c ∷ units) ≡ rest = cc in
    (
      b'P' ∷ text ++ ending,
      device_control text ending rest o (subst (Ending ending) same e),
      ap (λ r. b'P' ∷ r)
          (append_assoc text ending rest ∙ ap (λ r. text ++ (ending ++ r)) (sym same) ∙ whole),
    )

-- After the code and its semicolon.
color-Claims :
    (digits units after : List ℕ)
    → Each is_digit digits
    → (parse_digits 0 digits ≡ 10) ⊎ (parse_digits 0 digits ≡ 11)
    → digits ++ after ≡ units
    → Claims (b']' ∷ units) (map_text (expect b';' after))
color-Claims digits units [] d code whole = λ rest h. cc
color-Claims digits units (c ∷ after) d code whole =
    if_cases (λ o. Claims (b']' ∷ units) (map_text o)) (c == b';')
      (λ semicolon rest h.
        let (text, ending, o, e, body) = skip_text_lem after in
        let same : skip_text after ≡ rest = cc in
        (
          b']' ∷ digits ++ (b';' ∷ text ++ ending),
          color digits text ending rest d code o (subst (Ending ending) same e),
          ap (λ r. b']' ∷ r)
              (append_assoc digits (b';' ∷ text ++ ending) rest
                ∙ ap (λ r. digits ++ b';' ∷ r)
                    (append_assoc text ending rest
                      ∙ ap (λ r. text ++ (ending ++ r)) (sym same)
                      ∙ body)
                ∙ ap (λ r. digits ++ r ∷ after) (ground arith)
                ∙ whole),
        ))
      (λ other rest h. cc)

skip_osc-Claims : (units : List ℕ) → Claims (b']' ∷ units) (skip_osc units)
unfolding skip_osc
skip_osc-Claims units =
    if_cases (Claims (b']' ∷ units)) (is_empty (take_while is_digit units))
      (λ none_given rest h. cc)
      (λ some_given.
        if_cases (Claims (b']' ∷ units))
          (parse_digits 0 (take_while is_digit units) == 10
            || parse_digits 0 (take_while is_digit units) == 11)
          (λ code.
            color-Claims (take_while is_digit units) units (skip_while is_digit units)
              (Each-take_while is_digit units) (ground arith) (skip_while-append is_digit units))
          (λ other rest h. cc))

skip_response-Claims : (units : List ℕ) → Claims units (skip_response units)
unfolding skip_response
skip_response-Claims [] = λ rest h. cc
skip_response-Claims (c ∷ units) =
    if_cases (Claims (c ∷ units)) (c == b'[')
      (λ csi rest h. at c b'[' units rest (ground arith) (skip_csi-Claims units rest h))
      (λ no_csi.
        if_cases (Claims (c ∷ units)) (c == b'P')
          (λ dcs rest h. at c b'P' units rest (ground arith) (skip_dcs-Claims units rest h))
          (λ no_dcs.
            if_cases (Claims (c ∷ units)) (c == b']')
              (λ osc rest h. at c b']' units rest (ground arith) (skip_osc-Claims units rest h))
              (λ other rest h. cc)))
  where
    at :
        (c mark : ℕ) (units rest : List ℕ)
        → mark ≡ c
        → Begins (mark ∷ units) rest
        → Begins (c ∷ units) rest
    at c mark units rest e b = subst (λ m. Begins (m ∷ units) rest) e b

abbrev Answers : ℕ → List ℕ → Option (List ℕ) → Type 0
Answers c units none = c ≡ esc → IsIgnored units
Answers c units (some rest) = (c ≡ esc) × Begins units rest

found-Answers :
    (c : ℕ) (units : List ℕ) (o : Option (List ℕ))
    → c ≡ esc
    → skip_response units ≡ o
    → Answers c units o
found-Answers c units none e same = λ escape. skip_response-none units same
found-Answers c units (some rest) e same = (e, skip_response-Claims units rest same)

answer-Answers :
    (c : ℕ) (units : List ℕ) → Answers c units (if c == esc then skip_response units else none)
answer-Answers c units =
    if_cases (Answers c units) (c == esc)
      (λ escape. found-Answers c units (skip_response units) (ground arith) refl)
      (λ other same. ground arith)

-- The second is the first without some automatic responses. A unit is kept where it is no escape, or an
-- escape at which none begins.
pub data Removal : List ℕ → List ℕ → Type 0 where
  finished : Removal [] []
  kept :
      (c : ℕ) {units rest : List ℕ}
      → (c ≡ esc → IsIgnored units)
      → Removal units rest
      → Removal (c ∷ units) (c ∷ rest)
  removed :
      (response : List ℕ) {units rest : List ℕ}
      → Response response units
      → Removal units rest
      → Removal (esc ∷ response ++ units) rest

removed-Removal :
    (c : ℕ) (units rest kept_units : List ℕ)
    → (c ≡ esc) × Begins units rest
    → Removal rest kept_units
    → Removal (c ∷ units) kept_units
removed-Removal c units rest kept_units h r =
    subst (λ m. Removal (m ∷ units) kept_units) (sym h.0)
      (subst (λ u. Removal (esc ∷ u) kept_units) h.1.2 (removed h.1.0 h.1.1 r))

-- As many rounds as there are units are enough.
filter_rounds-Removal :
    (rounds : ℕ) (units : List ℕ)
    → length units ≤ rounds
    → Removal units (filter_rounds rounds units)
unfolding filter_rounds
filter_rounds-Removal zero [] enough = finished
filter_rounds-Removal zero (c ∷ units) enough = absurd (omega arith)
filter_rounds-Removal (suc rounds) [] enough = finished
filter_rounds-Removal (suc rounds) (c ∷ units) enough =
    elim (if c == esc then skip_response units else none)
        as (λ o.
          Answers c units o
          → Removal (c ∷ units) (elim o [
            | some rest ↦ filter_rounds rounds rest
            | none ↦ c ∷ filter_rounds rounds units
          ])) [
            | none ↦ λ h. kept c h (filter_rounds-Removal rounds units (omega (arith, enough)))
            | some rest ↦ λ h. removed-Removal c units rest (filter_rounds rounds rest) h (
                filter_rounds-Removal rounds rest
                  (omega (arith, enough, length-append h.1.0 rest, ap length h.1.2)))
          ]
      (answer-Answers c units)

unchanged-Removal : (units : List ℕ) → has_escape units ≡ false → Removal units units
unfolding has_escape
unchanged-Removal [] h = finished
unchanged-Removal (c ∷ units) h =
    if_cases (λ b. b ≡ false → Removal (c ∷ units) (c ∷ units)) (c == esc) (λ escape e. cc)
      (λ other e. kept c (λ same. ground arith) (unchanged-Removal units e)) h

-- What the filter answers is its input without some escape sequences, each of which is an automatic
-- response by the grammar: device attributes, a cursor report, keyboard flags, a change of focus, or
-- a device control string or a report of colour 10 or 11 up to the first ST or BEL in its text, or to
-- the end of the input where neither stands in it. All else is kept, in its order: of the escapes
-- those at which no whole report of the first four kinds begins, no device control string with a
-- unit of text behind its introducer, and no report of these colours.
pub filter_xterm_auto_responses-Removal :
    (units : List ℕ) → Removal units (filter_xterm_auto_responses units)
unfolding filter_xterm_auto_responses
filter_xterm_auto_responses-Removal units =
    if_cases (Removal units) (has_escape units)
      (λ some_escape. filter_rounds-Removal (length units) units (omega arith))
      (λ no_escape. unchanged-Removal units no_escape)
