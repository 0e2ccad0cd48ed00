-- ===== src/Common/Number.antt =====
-- JavaScript numbers as far as the code looks into them, and BigInts. `finite z f` stands for z
-- when f is false and for some number strictly between z and z + 1 when f is true.
use Prim.Native.Nat.{ℕ, ◌≤◌}
use mathlib.Core.Path.{◌≡◌}
use mathlib.Core.Bool.{Bool, true, false, ◌&&◌, ◌||◌}
use mathlib.Core.Option.{Option, none, some}
use native.Mathlib.Omega.{arith}
use floeterm.Common.Tests.{leb, ltb, if◌then◌else◌}

-- `negsuc n` is -(n + 1).
pub data ℤ : Type 0 where
  pos : ℕ → ℤ
  negsuc : ℕ → ℤ

pub data Number : Type 0 where
  finite : ℤ → Bool → Number
  not_finite : Number

-- The number n itself.
abbrev pub whole : ℕ → Number
whole n = finite (pos n) false

-- Number.MAX_SAFE_INTEGER.
abbrev pub max_safe_integer : ℕ
max_safe_integer = 9_007_199_254_740_991

-- `Number.isSafeInteger(x) && x >= low`, with the integer that passes the test.
unfoldable pub safe_from : ℕ → Number → Option ℕ
safe_from low (finite (pos n) false) = if leb low n && leb n max_safe_integer then some n else none
safe_from low _ = none

-- What `safe_from` accepts is the integer itself, in its range.
pub safe_from-whole :
    (low : ℕ) (x : Number) {n : ℕ}
    → safe_from low x ≡ some n
    → (x ≡ whole n) × (low ≤ n) × (n ≤ max_safe_integer)
unfolding safe_from
safe_from-whole low (finite (pos n) false) h = ground arith
safe_from-whole low (finite (pos n) true) h = ground arith
safe_from-whole low (finite (negsuc n) f) h = ground arith
safe_from-whole low not_finite h = ground arith

pub safe_from_of : (low n : ℕ) → low ≤ n → n ≤ max_safe_integer → safe_from low (whole n) ≡ some n
unfolding safe_from
safe_from_of low n h k = ground arith

-- `Number.isFinite(x) && x > 0`, with `Math.floor(x)`.
unfoldable pub positive_floor : Number → Option ℕ
positive_floor (finite (pos n) fraction) = if fraction || ltb 0 n then some n else none
positive_floor _ = none
