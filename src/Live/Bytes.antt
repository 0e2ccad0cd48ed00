-- ===== src/Live/Bytes.antt =====
-- Byte arrays and the big-endian fields that `DataView` reads and writes (live/codec.ts).
use native.Mathlib.Nat.{pow-suc}
use floeterm.Common.{
  ℕ, zero, suc, ◌+◌, ◌*◌, ◌/◌, ◌%◌, ◌^◌, ◌<◌, ◌≡◌, refl, ap, ◌∙◌, true, List, [], ◌∷◌, ◌++◌, subst,
  arith, length, length-append, take, drop, leb, if◌then◌else◌, All, All-append,
}
use Prim.Native.Nat.add
use floeterm.Common.Fallible.{ok, err}
use floeterm.Live.Failure.{Outcome, out_of_range}

-- A `Uint8Array`; `IsBytes` says that its entries are below 256.
abbrev pub Bytes : Type 0
Bytes = List ℕ

abbrev pub IsBytes : Bytes → Type 0
IsBytes = All (λ b. b < 256)

-- The big-endian form of a number in `width` bytes: the number modulo 256 ^ width.
unfoldable pub to_be : ℕ → ℕ → Bytes
to_be zero n = []
to_be (suc width) n = to_be width (n / 256) ++ (n % 256) ∷ []

unfoldable pub from_be : ℕ → Bytes → ℕ
from_be acc [] = acc
from_be acc (b ∷ bs) = from_be (acc * 256 + b) bs

pub length-to_be : (width n : ℕ) → length (to_be width n) ≡ width
unfolding to_be
length-to_be zero n = refl
length-to_be (suc width) n =
    omega
      (arith, length-append (to_be width (n / 256)) ((n % 256) ∷ []), length-to_be width (n / 256))

pub to_be-IsBytes : (width n : ℕ) → IsBytes (to_be width n)
unfolding to_be
to_be-IsBytes zero n = tt
to_be-IsBytes (suc width) n =
    All-append (λ b. b < 256) (to_be width (n / 256)) ((n % 256) ∷ [])
      (to_be-IsBytes width (n / 256)) (omega arith, tt)

from_be-append : (acc : ℕ) (xs ys : Bytes) → from_be acc (xs ++ ys) ≡ from_be (from_be acc xs) ys
unfolding from_be
from_be-append acc [] ys = refl
from_be-append acc (x ∷ xs) ys = from_be-append (acc * 256 + x) xs ys

pub from_be-to_be : (width n : ℕ) → n < 256 ^ width → from_be 0 (to_be width n) ≡ n
unfolding to_be from_be
from_be-to_be zero n h = omega arith
from_be-to_be (suc width) n h =
    let high : n / 256 < 256 ^ width = omega (arith, pow-suc 256 width) in
    from_be-append 0 (to_be width (n / 256)) ((n % 256) ∷ [])
    ∙ rw (from_be-to_be width (n / 256) high) (omega arith)

-- `DataView.getUintN(offset)`; past the end it throws.
unfoldable pub get_uint : ℕ → Bytes → ℕ → Outcome ℕ
get_uint width payload offset =
    if leb (offset + width) (length payload)
    then ok (from_be 0 (take width (drop offset payload)))
    else err out_of_range

pub drop-append : (xs ys : Bytes) (k : ℕ) → drop (length xs + k) (xs ++ ys) ≡ drop k ys
drop-append [] ys k = rw add.zero
drop-append (x ∷ xs) ys k = rw add.suc (drop-append xs ys k)

pub drop-length : (xs ys : Bytes) → drop (length xs) (xs ++ ys) ≡ ys
drop-length [] ys = refl
drop-length (x ∷ xs) ys = drop-length xs ys

pub take-append : (xs ys : Bytes) → take (length xs) (xs ++ ys) ≡ xs
take-append [] ys = refl
take-append (x ∷ xs) ys = ap (◌∷◌ x) (take-append xs ys)

-- A field that stands at the front is read back.
pub get_uint-to_be :
    (width n : ℕ) (rest : Bytes) → n < 256 ^ width → get_uint width (to_be width n ++ rest) 0 ≡ ok n
unfolding get_uint
get_uint-to_be width n rest h =
    let fits : leb (0 + width) (length (to_be width n ++ rest)) ≡ true =
      ground (arith, length-append (to_be width n) rest, length-to_be width n) in
    let front : take width (to_be width n ++ rest) ≡ to_be width n =
      subst (λ w. take w (to_be width n ++ rest) ≡ to_be width n) (length-to_be width n)
        (take-append (to_be width n) rest) in
    rw (fits, front) (ap ok (from_be-to_be width n h))

-- Past a prefix, offsets count from its end.
pub get_uint-append :
    (width k : ℕ) (xs rest : Bytes)
    → get_uint width (xs ++ rest) (length xs + k) ≡ get_uint width rest k
unfolding get_uint
get_uint-append width k xs rest =
    let same : leb (length xs + k + width) (length (xs ++ rest)) ≡ leb (k + width) (length rest) =
      ground (arith, length-append xs rest) in
    rw (same, drop-append xs rest k)

pub get_uint-skip :
    (width skipped n k : ℕ) (rest : Bytes)
    → get_uint width (to_be skipped n ++ rest) (skipped + k) ≡ get_uint width rest k
get_uint-skip width skipped n k rest =
    subst (λ w. get_uint width (to_be skipped n ++ rest) (w + k) ≡ get_uint width rest k)
      (length-to_be skipped n) (get_uint-append width k (to_be skipped n) rest)
