-- ===== src/AutoResponse/Removed.antt =====
-- xtermAutoResponseFilter.ts: the grammar of what is removed.
use floeterm.Common.{
  ℕ, ◌≡◌, refl, sym, ap, ◌∙◌, subst, if_cases, if_true, Bool, true, false, ◌&&◌, ◌||◌, List, [],
  ◌∷◌, ◌++◌, Option, none, some, ap₂, Bool-cases, ◌==◌, arith, append_assoc, ◌⊎◌, inl, inr,
}
use floeterm.AutoResponse.{
  esc, bel, is_digit, is_parameter, skip_while, take_while, expect, or_else, skip_csi, skip_text,
  parse_digits,
}

-- Units that all pass a test.
abbrev pub Each : (ℕ → Bool) → List ℕ → Type 0
Each test [] = Unit
Each test (c ∷ units) = (test c ≡ true) × Each test units

-- A text in which neither a BEL nor an ST stands.
abbrev pub IsOpen : List ℕ → Type 0
IsOpen [] = Unit
IsOpen (c ∷ []) = (c == bel) ≡ false
IsOpen (c ∷ d ∷ text) =
    ((c == bel) ≡ false) × ((c == esc && d == b'\\') ≡ false) × IsOpen (d ∷ text)

-- The end of a control string, before what follows it: an ST, a BEL, or the end of the input.
pub data Ending : List ℕ → List ℕ → Type 0 where
  string_terminator : (rest : List ℕ) → Ending (esc ∷ b'\\' ∷ []) rest
  bell : (rest : List ℕ) → Ending (bel ∷ []) rest
  cut_off : Ending [] []

-- What may stand behind an escape that begins an automatic response, before what follows it.
pub data Response : List ℕ → List ℕ → Type 0 where
  attributes :
      (mark : ℕ) (parameters rest : List ℕ)
      → (mark ≡ b'?') ⊎ (mark ≡ b'>')
      → Each is_parameter parameters
      → Response (b'[' ∷ mark ∷ parameters ++ b'c' ∷ []) rest
  cursor :
      (digit : ℕ) (parameters rest : List ℕ)
      → is_digit digit ≡ true
      → Each is_parameter parameters
      → Response (b'[' ∷ digit ∷ parameters ++ b'R' ∷ []) rest
  keyboard :
      (mark : ℕ) (digits rest : List ℕ)
      → mark ≡ b'?'
      → Each is_digit digits
      → Response (b'[' ∷ mark ∷ digits ++ b'u' ∷ []) rest
  focus :
      (mark : ℕ) (rest : List ℕ) → (mark ≡ b'I') ⊎ (mark ≡ b'O') → Response (b'[' ∷ mark ∷ []) rest
  device_control :
      (text ending rest : List ℕ)
      → IsOpen text
      → Ending ending rest
      → Response (b'P' ∷ text ++ ending) rest
  color :
      (digits text ending rest : List ℕ)
      → Each is_digit digits
      → (parse_digits 0 digits ≡ 10) ⊎ (parse_digits 0 digits ≡ 11)
      → IsOpen text
      → Ending ending rest
      → Response (b']' ∷ digits ++ (b';' ∷ text ++ ending)) rest

-- A response, and what is behind it.
abbrev pub Begins : List ℕ → List ℕ → Type 0
Begins units rest = (response : List ℕ) × Response response rest × (response ++ rest ≡ units)

pub skip_while-append :
    (test : ℕ → Bool) (units : List ℕ) → take_while test units ++ skip_while test units ≡ units
unfolding skip_while take_while
skip_while-append test [] = refl
skip_while-append test (c ∷ units) = elim (Bool-cases (test c)) [
  | inl passes ↦ rw passes (ap (λ r. c ∷ r) (skip_while-append test units))
  | inr stops ↦ rw stops
]

pub Each-take_while : (test : ℕ → Bool) (units : List ℕ) → Each test (take_while test units)
unfolding take_while
Each-take_while test [] = tt
Each-take_while test (c ∷ units) =
    if_cases (Each test) (test c) (λ passes. (passes, Each-take_while test units)) (λ stops. tt)

pub expect_lem : (c : ℕ) (units rest : List ℕ) → expect c units ≡ some rest → units ≡ c ∷ rest
expect_lem c [] rest h = cc
expect_lem c (d ∷ units) rest h = ground arith

-- A text up to its first end, and what follows.
abbrev pub TextBegins : List ℕ → List ℕ → Type 0
TextBegins units rest =
    (text : List ℕ) × (ending : List ℕ) × IsOpen text
    × Ending ending rest
    × (text ++ (ending ++ rest) ≡ units)

-- A unit before a text that is open.
cons-IsOpen :
    (c d : ℕ) (units text after : List ℕ)
    → (c == esc && d == b'\\') ≡ false
    → (c == bel) ≡ false
    → IsOpen text
    → text ++ after ≡ d ∷ units
    → IsOpen (c ∷ text)
cons-IsOpen c d units [] after st plain h whole = plain
cons-IsOpen c d units (e ∷ text) after st plain h whole =
    let same : d ≡ e = cc in (plain, subst (λ x. (c == esc && x == b'\\') ≡ false) same st, h)

pub skip_text_lem : (units : List ℕ) → TextBegins units (skip_text units)
unfolding skip_text
skip_text_lem [] = ([], [], tt, cut_off, refl)
skip_text_lem (c ∷ []) = elim (Bool-cases (c == bel)) [
  | inl rings ↦ ([], bel ∷ [], tt, bell [], ap (λ a. a ∷ []) (ground arith))
  | inr plain ↦ (c ∷ [], [], plain, cut_off, refl)
]
skip_text_lem (c ∷ d ∷ units) =
    if_cases (TextBegins (c ∷ d ∷ units)) (c == esc && d == b'\\')
      (λ st. (
        [],
        esc ∷ b'\\' ∷ [],
        tt,
        string_terminator units,
        ap₂ (λ a b. a ∷ b ∷ units) (ground arith) (ground arith),
      ))
      (λ other.
        if_cases (TextBegins (c ∷ d ∷ units)) (c == bel)
          (λ rings. ([], bel ∷ [], tt, bell (d ∷ units), ap (λ a. a ∷ d ∷ units) (ground arith)))
          (λ plain.
            let (text, ending, o, e, whole) = skip_text_lem (d ∷ units) in
            (
              c ∷ text,
              ending,
              cons-IsOpen c d units text (ending ++ skip_text (d ∷ units)) other plain o whole,
              e,
              ap (λ r. c ∷ r) whole,
            )))

-- What an answer of the scanner means.
abbrev pub Claims : List ℕ → Option (List ℕ) → Type 0
Claims units o = (rest : List ℕ) → o ≡ some rest → Begins units rest

-- Units that pass a test, up to a final one.
run_up_to :
    (test : ℕ → Bool) (c : ℕ) (units rest : List ℕ)
    → expect c (skip_while test units) ≡ some rest
    → (take_while test units ++ c ∷ []) ++ rest ≡ units
run_up_to test c units rest h =
    append_assoc (take_while test units) (c ∷ []) rest
    ∙ ap (λ r. take_while test units ++ r) (sym (expect_lem c (skip_while test units) rest h))
    ∙ skip_while-append test units

attributes-Claims :
    (mark : ℕ) (units : List ℕ)
    → (mark ≡ b'?') ⊎ (mark ≡ b'>')
    → Claims (b'[' ∷ mark ∷ units) (expect b'c' (skip_while is_parameter units))
attributes-Claims mark units m rest h = (
  b'[' ∷ mark ∷ take_while is_parameter units ++ b'c' ∷ [],
  attributes mark (take_while is_parameter units) rest m (Each-take_while is_parameter units),
  ap (λ r. b'[' ∷ mark ∷ r) (run_up_to is_parameter b'c' units rest h),
)

keyboard-Claims :
    (mark : ℕ) (units : List ℕ)
    → mark ≡ b'?'
    → Claims (b'[' ∷ mark ∷ units) (expect b'u' (skip_while is_digit units))
keyboard-Claims mark units m rest h = (
  b'[' ∷ mark ∷ take_while is_digit units ++ b'u' ∷ [],
  keyboard mark (take_while is_digit units) rest m (Each-take_while is_digit units),
  ap (λ r. b'[' ∷ mark ∷ r) (run_up_to is_digit b'u' units rest h),
)

cursor-Claims :
    (digit : ℕ) (units : List ℕ)
    → is_digit digit ≡ true
    → Claims (b'[' ∷ digit ∷ units) (expect b'R' (skip_while is_parameter (digit ∷ units)))
unfolding skip_while
cursor-Claims digit units d rest h = (
  b'[' ∷ digit ∷ take_while is_parameter units ++ b'R' ∷ [],
  cursor digit (take_while is_parameter units) rest d (Each-take_while is_parameter units),
  ap (λ r. b'[' ∷ digit ∷ r)
      (run_up_to is_parameter b'R' units rest
        (ap (expect b'R') (sym (if_true (is_parameter digit) _ _ (ground arith))) ∙ h)),
)

or_else-Claims :
    (units : List ℕ) (o other : Option (List ℕ))
    → Claims units o
    → Claims units other
    → Claims units (or_else o other)
or_else-Claims units none other h k = k
or_else-Claims units (some found) other h k = h

pub skip_csi-Claims : (units : List ℕ) → Claims (b'[' ∷ units) (skip_csi units)
unfolding skip_csi
skip_csi-Claims [] = λ rest h. cc
skip_csi-Claims (c ∷ units) =
    if_cases (Claims (b'[' ∷ c ∷ units)) (c == b'?')
      (λ query.
        or_else-Claims (b'[' ∷ c ∷ units) (expect b'c' (skip_while is_parameter units)) _
          (attributes-Claims c units (inl (ground arith))) (keyboard-Claims c units (ground arith)))
      (λ no_query.
        if_cases (Claims (b'[' ∷ c ∷ units)) (c == b'>')
          (λ secondary. attributes-Claims c units (inr (ground arith)))
          (λ no_secondary.
            if_cases (Claims (b'[' ∷ c ∷ units)) (is_digit c) (λ digit. cursor-Claims c units digit)
              (λ no_digit.
                if_cases (Claims (b'[' ∷ c ∷ units)) (c == b'I' || c == b'O')
                  (λ mark rest h.
                    (b'[' ∷ c ∷ [], focus c rest (ground arith), ap (λ r. b'[' ∷ c ∷ r) cc))
                  (λ other rest h. cc))))
