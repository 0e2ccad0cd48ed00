-- ===== src/Common/Fallible.antt =====
-- Results of code that throws: `err` carries what was thrown.
use mathlib.Core.Path.{◌≡◌, refl}
use mathlib.Core.Bool.{Bool, true, false, not}

pub data Result {ℓ κ} (E : Type ℓ) (A : Type κ) : Type (ℓ ⊔ κ) where
  err : (thrown : E) → Result E A
  ok : (value : A) → Result E A

-- `if (!test) throw e`.
abbrev pub guard {ℓ} : {E : Type ℓ} → (test : Bool) → E → Result E (Unit {0})
guard false thrown = err thrown
guard true thrown = ok tt

module _ {ℓ κ} {E : Type ℓ} {B : Type κ} where
  infixl 5 ◌>>=◌
  abbrev pub ◌>>=◌ {ι} : {A : Type ι} → Result E A → (A → Result E B) → Result E B
  err thrown >>= next = err thrown
  ok value >>= next = next value

  infixl 5 ◌>>◌
  abbrev pub ◌>>◌ : Result E (Unit {0}) → Result E B → Result E B
  first >> second = first >>= λ done. second

-- What a successful chain went through.
pub >>=-eq-ok {ℓ κ ι} :
    {E : Type ℓ} {A : Type κ} {B : Type ι} (first : Result E A) (next : A → Result E B) {last : B}
    → (first >>= next) ≡ ok last
    → (middle : A) × (first ≡ ok middle) × (next middle ≡ ok last)
>>=-eq-ok (err thrown) next h = cc
>>=-eq-ok (ok middle) next h = (middle, refl, h)

module _ {ℓ} {E : Type ℓ} where
  pub guard-not-eq-ok :
      (test : Bool) (thrown : E) {u : Unit {0}} → guard (not test) thrown ≡ ok u → test ≡ false
  guard-not-eq-ok true thrown h = cc
  guard-not-eq-ok false thrown h = refl

  pub guard-eq-ok :
      (test : Bool) (thrown : E) {u : Unit {0}} → guard test thrown ≡ ok u → test ≡ true
  guard-eq-ok false thrown h = cc
  guard-eq-ok true thrown h = refl

-- A chain goes on past `if (test) throw thrown` only if the test fails.
pub guard-not_then {ℓ κ} :
    {E : Type ℓ} {B : Type κ} (test : Bool) (thrown : E) (next : Result E B) {last : B}
    → (guard (not test) thrown >> next) ≡ ok last
    → (test ≡ false) × (next ≡ ok last)
guard-not_then true thrown next h = cc
guard-not_then false thrown next h = (refl, h)

-- To prove a property of a chain whose first part may have thrown.
pub then_cases {ℓ κ ι φ} :
    {E : Type ℓ} {A : Type κ} {B : Type ι} (P : Result E B → Type φ) (first : Result E A)
    (next : A → Result E B)
    → ((thrown : E) → P (err thrown))
    → ((value : A) → first ≡ ok value → P (next value))
    → P (first >>= next)
then_cases P (err thrown) next f g = f thrown
then_cases P (ok value) next f g = g value refl
