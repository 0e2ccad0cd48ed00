-- ===== src/Common/Assoc.antt =====
-- A JavaScript `Map` with numeric keys: an association list in insertion order.
use Prim.Native.Nat.{ℕ, suc, ◌+◌}
use mathlib.Core.Path.{◌≡◌, refl}
use mathlib.Core.Logic.{◌≢◌}
use mathlib.Core.Bool.{Bool, true, false}
use mathlib.Core.Option.{Option, none, some}
use mathlib.Core.List.{List, [], ◌∷◌}
use native.Mathlib.Omega.{arith}
use floeterm.Common.Tests.{◌==◌, if◌then◌else◌}
use floeterm.Common.Lists.{length}

module _ {ℓ} {V : Type ℓ} where
  unfoldable pub lookup : ℕ → List (ℕ × V) → Option V
  lookup k [] = none
  lookup k ((j, v) ∷ m) = if j == k then some v else lookup k m

  unfoldable pub has : ℕ → List (ℕ × V) → Bool
  has k [] = false
  has k ((j, v) ∷ m) = if j == k then true else has k m

  unfoldable pub delete : ℕ → List (ℕ × V) → List (ℕ × V)
  delete k [] = []
  delete k ((j, v) ∷ m) = if j == k then m else (j, v) ∷ delete k m

  -- `Map.set`: a present key keeps its place, a new one goes to the end.
  unfoldable pub insert : ℕ → V → List (ℕ × V) → List (ℕ × V)
  insert k v [] = (k, v) ∷ []
  insert k v ((j, w) ∷ m) = if j == k then (k, v) ∷ m else (j, w) ∷ insert k v m

  pub has-lookup : (k : ℕ) (m : List (ℕ × V)) {v : V} → lookup k m ≡ some v → has k m ≡ true
  unfolding lookup has
  has-lookup k [] h = ground arith
  has-lookup k ((j, w) ∷ m) {v} h = ground (arith, has-lookup k m {v = v})

  pub has_of_none : (k : ℕ) (m : List (ℕ × V)) → lookup k m ≡ none → has k m ≡ false
  unfolding lookup has
  has_of_none k [] h = refl
  has_of_none k ((j, w) ∷ m) h = ground (arith, has_of_none k m)

  pub has-insert :
      (k j : ℕ) (v : V) (m : List (ℕ × V))
      → has j (insert k v m) ≡ (if k == j then true else has j m)
  unfolding has insert
  has-insert k j v [] = ground arith
  has-insert k j v ((i, w) ∷ m) = ground (arith, has-insert k j v m)

  pub has-delete_ne : (k j : ℕ) (m : List (ℕ × V)) → k ≢ j → has j (delete k m) ≡ has j m
  unfolding has delete
  has-delete_ne k j [] h = refl
  has-delete_ne k j ((i, w) ∷ m) h = ground (arith, has-delete_ne k j m h)

  pub has-delete_le : (k j : ℕ) (m : List (ℕ × V)) → has j m ≡ false → has j (delete k m) ≡ false
  unfolding has delete
  has-delete_le k j [] h = refl
  has-delete_le k j ((i, w) ∷ m) h = ground (arith, has-delete_le k j m)

  pub length-delete :
      (k : ℕ) (m : List (ℕ × V)) → has k m ≡ true → suc (length (delete k m)) ≡ length m
  unfolding has delete
  length-delete k [] h = ground arith
  length-delete k ((i, w) ∷ m) h = ground (arith, length-delete k m)

  pub length-insert :
      (k : ℕ) (v : V) (m : List (ℕ × V)) → has k m ≡ false → length (insert k v m) ≡ length m + 1
  unfolding has insert
  length-insert k v [] h = ground arith
  length-insert k v ((i, w) ∷ m) h = ground (arith, length-insert k v m)

  pub lookup-delete_ne : (k j : ℕ) (m : List (ℕ × V)) → k ≢ j → lookup j (delete k m) ≡ lookup j m
  unfolding lookup delete
  lookup-delete_ne k j [] h = refl
  lookup-delete_ne k j ((i, w) ∷ m) h = ground (arith, lookup-delete_ne k j m h)
