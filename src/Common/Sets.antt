-- ===== src/Common/Sets.antt =====
-- A JavaScript `Set` of numbers, as a list.
use Prim.Native.Nat.{ℕ}
use mathlib.Core.Bool.{Bool, true, false}
use mathlib.Core.List.{List, [], ◌∷◌}
use floeterm.Common.Tests.{◌==◌, if◌then◌else◌}

unfoldable pub contains : ℕ → List ℕ → Bool
contains k [] = false
contains k (j ∷ s) = if j == k then true else contains k s

unfoldable pub add : ℕ → List ℕ → List ℕ
unfolding contains
add k s = if contains k s then s else k ∷ s

unfoldable pub discard : ℕ → List ℕ → List ℕ
discard k [] = []
discard k (j ∷ s) = if j == k then discard k s else j ∷ discard k s
