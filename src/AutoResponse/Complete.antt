-- ===== src/AutoResponse/Complete.antt =====
-- xtermAutoResponseFilter.ts: control sequences that are automatic responses are found.
use floeterm.Common.{
  ℕ, ◌≡◌, refl, ap, ◌∙◌, if_true, if_false, Bool, true, false, List, [], ◌∷◌, ◌++◌, some, ◌==◌,
  arith,
}
use floeterm.AutoResponse.{
  is_digit, is_parameter, skip_while, expect, or_else, skip_csi, skip_response,
}
use floeterm.AutoResponse.Removed.{Each}

-- The units begin with a whole control sequence, behind its escape, that answers a query; the second
-- list is what follows it.
pub data Report : List ℕ → List ℕ → Type 0 where
  primary :
      (parameters rest : List ℕ)
      → Each is_parameter parameters
      → Report (b'[' ∷ b'?' ∷ (parameters ++ (b'c' ∷ rest))) rest
  secondary :
      (parameters rest : List ℕ)
      → Each is_parameter parameters
      → Report (b'[' ∷ b'>' ∷ (parameters ++ (b'c' ∷ rest))) rest
  cursor :
      (digit : ℕ) (parameters rest : List ℕ)
      → is_digit digit ≡ true
      → Each is_parameter parameters
      → Report (b'[' ∷ digit ∷ (parameters ++ (b'R' ∷ rest))) rest
  keyboard :
      (digits rest : List ℕ)
      → Each is_digit digits
      → Report (b'[' ∷ b'?' ∷ (digits ++ (b'u' ∷ rest))) rest
  gained : (rest : List ℕ) → Report (b'[' ∷ b'I' ∷ rest) rest
  lost : (rest : List ℕ) → Report (b'[' ∷ b'O' ∷ rest) rest

pub skip_while_stops :
    (test : ℕ → Bool) (front : List ℕ) (c : ℕ) (rest : List ℕ)
    → Each test front
    → test c ≡ false
    → skip_while test (front ++ (c ∷ rest)) ≡ c ∷ rest
unfolding skip_while
skip_while_stops test [] c rest h stops = if_false (test c) _ _ stops
skip_while_stops test (d ∷ front) c rest h stops =
    if_true (test d) _ _ h.0 ∙ skip_while_stops test front c rest h.1 stops

digits-parameters : (digits : List ℕ) → Each is_digit digits → Each is_parameter digits
digits-parameters [] h = tt
digits-parameters (d ∷ digits) h = (ground arith, digits-parameters digits h.1)

-- A whole report of device attributes, of the cursor, of keyboard flags or of focus is found, and the
-- scan goes on right behind it, whatever follows.
pub skip_response-Report :
    (units rest : List ℕ) → Report units rest → skip_response units ≡ some rest
unfolding skip_response skip_csi
skip_response-Report _ _ (primary parameters rest h) =
    ap
      (λ u.
        or_else (expect b'c' u) (expect b'u' (skip_while is_digit (parameters ++ (b'c' ∷ rest)))))
      (skip_while_stops is_parameter parameters b'c' rest h refl)
skip_response-Report _ _ (secondary parameters rest h) =
    ap (expect b'c') (skip_while_stops is_parameter parameters b'c' rest h refl)
skip_response-Report _ _ (cursor digit parameters rest d h) =
    if_false (digit == b'?') _ _ (ground arith)
    ∙ if_false (digit == b'>') _ _ (ground arith)
    ∙ if_true (is_digit digit) _ _ d
    ∙ ap (expect b'R')
        (skip_while_stops is_parameter (digit ∷ parameters) b'R' rest (ground arith, h) refl)
skip_response-Report _ _ (keyboard digits rest h) =
    ap (λ u. or_else (expect b'c' u) (expect b'u' (skip_while is_digit (digits ++ (b'u' ∷ rest)))))
      (skip_while_stops is_parameter digits b'u' rest (digits-parameters digits h) refl)
    ∙ ap (expect b'u') (skip_while_stops is_digit digits b'u' rest h refl)
skip_response-Report _ _ (gained rest) = refl
skip_response-Report _ _ (lost rest) = refl
