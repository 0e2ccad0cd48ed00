-- ===== src/Live/Fields.antt =====
-- The checks of live/codec.ts on numbers and BigInts, and payloads of big-endian fields.
use floeterm.Common.{
  ℕ, zero, suc, ◌+◌, ◌-◌, ◌^◌, ◌%◌, ◌<◌, ◌≡◌, refl, List, [], ◌∷◌, ◌++◌, Option, none, some, arith,
  length, length-append, drop, subst, ap, append_assoc, ◌∙◌, ltb, ◌==◌, if◌then◌else◌, ◌||◌,
}
use floeterm.Common.Fallible.{ok, err}
use floeterm.Common.Number.{ℤ, pos, negsuc, Number, whole, safe_from, safe_from-whole, safe_from_of}
use floeterm.Live.Failure.{Outcome, not_positive_uint32, not_positive_uint64, not_uint64}
use floeterm.Live.Bytes.{
  Bytes, to_be, get_uint, length-to_be, get_uint-to_be, get_uint-skip, drop-append,
}

-- `assertPositiveUint32`, with the number that passed.
unfoldable pub positive_uint32 : Number → Outcome ℕ
positive_uint32 value = elim (safe_from 1 value) [
  | none ↦ err not_positive_uint32
  | some n ↦ if ltb 0xffffffff n then err not_positive_uint32 else ok n
]

-- `assertPositiveUint64`.
unfoldable pub positive_uint64 : ℤ → Outcome ℕ
positive_uint64 (pos n) =
    if n == 0 || ltb 0xffff_ffff_ffff_ffff n then err not_positive_uint64 else ok n
positive_uint64 (negsuc n) = err not_positive_uint64

-- `assertUint64`.
unfoldable pub uint64 : ℤ → Outcome ℕ
uint64 (pos n) = if ltb 0xffff_ffff_ffff_ffff n then err not_uint64 else ok n
uint64 (negsuc n) = err not_uint64

-- The value that `setBigUint64` writes, which it takes modulo 2 ^ 64.
unfoldable pub big_uint64 : ℤ → ℕ
big_uint64 (pos n) = n % 2 ^ 64
big_uint64 (negsuc n) = 2 ^ 64 - 1 - n % 2 ^ 64

abbrev pub Fits32 : ℕ → Type 0
Fits32 n = (0 < n) × (n < 2 ^ 32)

abbrev pub Fits64 : ℕ → Type 0
Fits64 n = (0 < n) × (n < 2 ^ 64)

pub positive_uint32-eq-ok :
    (x : Number) {n : ℕ} → positive_uint32 x ≡ ok n → (x ≡ whole n) × Fits32 n
unfolding positive_uint32
positive_uint32-eq-ok x {n} h = ground (arith, safe_from-whole 1 x {n = n})

pub positive_uint32_of : (n : ℕ) → Fits32 n → positive_uint32 (whole n) ≡ ok n
unfolding positive_uint32
positive_uint32_of n f =
    rw (safe_from_of 1 n (omega arith) (omega arith), positive_uint32) (ground arith)

pub positive_uint64-eq-ok : (z : ℤ) {n : ℕ} → positive_uint64 z ≡ ok n → (z ≡ pos n) × Fits64 n
unfolding positive_uint64
positive_uint64-eq-ok (pos m) {n} h = ground arith
positive_uint64-eq-ok (negsuc m) {n} h = cc

pub positive_uint64_of : (n : ℕ) → Fits64 n → positive_uint64 (pos n) ≡ ok n
unfolding positive_uint64
positive_uint64_of n f = ground arith

pub uint64-eq-ok : (z : ℤ) {n : ℕ} → uint64 z ≡ ok n → (z ≡ pos n) × (n < 2 ^ 64)
unfolding uint64
uint64-eq-ok (pos m) {n} h = ground arith
uint64-eq-ok (negsuc m) {n} h = cc

pub uint64_of : (n : ℕ) → n < 2 ^ 64 → uint64 (pos n) ≡ ok n
unfolding uint64
uint64_of n q = ground arith

-- A payload that begins with fields of given widths.
abbrev pub layout : List (ℕ × ℕ) → Bytes → Bytes
layout [] rest = rest
layout ((width, n) ∷ fields) rest = to_be width n ++ layout fields rest

abbrev pub widths : List (ℕ × ℕ) → ℕ
widths [] = 0
widths ((width, n) ∷ fields) = width + widths fields

-- Where a field begins.
abbrev pub offset : ℕ → List (ℕ × ℕ) → ℕ
offset zero fields = 0
offset (suc i) [] = 0
offset (suc i) ((width, n) ∷ fields) = width + offset i fields

abbrev pub field_at : ℕ → List (ℕ × ℕ) → Option (ℕ × ℕ)
field_at i [] = none
field_at zero (f ∷ fields) = some f
field_at (suc i) (f ∷ fields) = field_at i fields

pub get_uint-layout :
    (i : ℕ) (fields : List (ℕ × ℕ)) (rest : Bytes) {width n : ℕ}
    → field_at i fields ≡ some (width, n)
    → n < 256 ^ width
    → get_uint width (layout fields rest) (offset i fields) ≡ ok n
get_uint-layout i [] rest {width} {n} h b = cc
get_uint-layout zero ((w, m) ∷ fields) rest {width} {n} h b =
    let p : w ≡ width = cc in
    let q : m ≡ n = cc in rw (p, q) (get_uint-to_be width n (layout fields rest) b)
get_uint-layout (suc i) ((w, m) ∷ fields) rest {width} {n} h b =
    rw (get_uint-skip width w m (offset i fields) (layout fields rest))
      (get_uint-layout i fields rest h b)

pub length-layout :
    (fields : List (ℕ × ℕ)) (rest : Bytes)
    → length (layout fields rest) ≡ widths fields + length rest
length-layout [] rest = omega arith
length-layout ((w, m) ∷ fields) rest = omega (
  arith,
  length-append (to_be w m) (layout fields rest),
  length-to_be w m,
  length-layout fields rest,
)

pub drop-layout :
    (fields : List (ℕ × ℕ)) (rest : Bytes) → drop (widths fields) (layout fields rest) ≡ rest
drop-layout [] rest = refl
drop-layout ((w, m) ∷ fields) rest =
    subst (λ n. drop (n + widths fields) (to_be w m ++ layout fields rest) ≡ rest)
      (length-to_be w m)
      (drop-append (to_be w m) (layout fields rest) (widths fields) ∙ drop-layout fields rest)

pub layout-append :
    (fields : List (ℕ × ℕ)) (xs ys : Bytes) → layout fields xs ++ ys ≡ layout fields (xs ++ ys)
layout-append [] xs ys = refl
layout-append ((w, m) ∷ fields) xs ys =
    append_assoc (to_be w m) (layout fields xs) ys
    ∙ ap (◌++◌ (to_be w m)) (layout-append fields xs ys)

pub big_uint64_lem : (n : ℕ) → n < 2 ^ 64 → big_uint64 (pos n) ≡ n
unfolding big_uint64
big_uint64_lem n h = omega arith
