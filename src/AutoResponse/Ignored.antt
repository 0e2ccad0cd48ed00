-- ===== src/AutoResponse/Ignored.antt =====
-- xtermAutoResponseFilter.ts: escapes at which no automatic response is found.
use floeterm.Common.{
  ℕ, ◌≡◌, refl, ap, ◌∙◌, if_true, if_false, Bool, true, false, ◌||◌, List, [], ◌∷◌, ◌++◌, none,
  some, ◌==◌, arith, ◌⊎◌,
}
use floeterm.AutoResponse.{
  is_digit, take_while, expect, skip_text, skip_dcs, parse_digits, is_empty, map_text, skip_osc,
  skip_response,
}
use floeterm.AutoResponse.Removed.{Each}
use floeterm.AutoResponse.Complete.{Report, skip_while_stops, skip_response-Report}

-- No whole report begins here, no device control string with a text, and no report of a colour.
pub record IsIgnored (units : List ℕ) : Type 0 where
  pub no_report : (rest : List ℕ) → ¬ Report units rest
  pub no_device_control : (c : ℕ) (text : List ℕ) → ¬ (units ≡ b'P' ∷ c ∷ text)
  pub no_color :
      (digits text : List ℕ)
      → Each is_digit digits
      → (parse_digits 0 digits ≡ 10) ⊎ (parse_digits 0 digits ≡ 11)
      → ¬ (units ≡ b']' ∷ digits ++ (b';' ∷ text))

take_while_stops :
    (test : ℕ → Bool) (front : List ℕ) (c : ℕ) (rest : List ℕ)
    → Each test front
    → test c ≡ false
    → take_while test (front ++ (c ∷ rest)) ≡ front
unfolding take_while
take_while_stops test [] c rest h stops = if_false (test c) _ _ stops
take_while_stops test (d ∷ front) c rest h stops =
    if_true (test d) _ _ h.0 ∙ ap (λ r. d ∷ r) (take_while_stops test front c rest h.1 stops)

digits_given :
    (digits : List ℕ)
    → (parse_digits 0 digits ≡ 10) ⊎ (parse_digits 0 digits ≡ 11)
    → is_empty digits ≡ false
unfolding parse_digits
digits_given [] code = ground arith
digits_given (d ∷ digits) code = refl

is_color : (n : ℕ) → (n ≡ 10) ⊎ (n ≡ 11) → (n == 10 || n == 11) ≡ true
is_color n code = ground arith

skip_osc_color :
    (digits text : List ℕ)
    → Each is_digit digits
    → (parse_digits 0 digits ≡ 10) ⊎ (parse_digits 0 digits ≡ 11)
    → skip_osc (digits ++ (b';' ∷ text)) ≡ some (skip_text text)
unfolding skip_osc
skip_osc_color digits text d code =
    let all = digits ++ (b';' ∷ text) in
    let taken = take_while_stops is_digit digits b';' text d refl in
    let behind = skip_while_stops is_digit digits b';' text d refl in
    if_false (is_empty (take_while is_digit all)) _ _ (ap is_empty taken ∙ digits_given digits code)
    ∙ if_true
        (parse_digits 0 (take_while is_digit all) == 10
          || parse_digits 0 (take_while is_digit all) == 11)
        _ _ (ap (λ ds. parse_digits 0 ds == 10 || parse_digits 0 ds == 11) taken ∙ is_color _ code)
    ∙ ap (λ r. map_text (expect b';' r)) behind

pub skip_response-none : (units : List ℕ) → skip_response units ≡ none → IsIgnored units
unfolding skip_response skip_dcs
skip_response-none units e = record {
  no_report = λ rest report. cc (e, skip_response-Report units rest report);
  no_device_control = λ c text same. cc (e, ap skip_response same);
  no_color = λ digits text d code same. cc (e, same, skip_osc_color digits text d code);
}
