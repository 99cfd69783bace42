-- ===== src/Base/HashMap.antt =====
-- `HashMap<u64, V>` as an association list: nothing that the clients do depends on its order.
use Prim.Native.Nat.{ℕ}
use mathlib.Core.Path.{◌≡◌}
use mathlib.Core.Option.{Option, none, some}
use mathlib.Core.List.{List, [], ◌∷◌}
use native.Mathlib.Omega.{arith}
use polaris_trade.Base.Tests.{◌==◌, if◌then◌else◌}

module _ {V : Type 0} where
  unfoldable pub lookup : ℕ → List (ℕ × V) → Option V
  lookup k [] = none
  lookup k ((a, v) ∷ m) = if k == a then some v else lookup k m

  unfoldable pub remove : ℕ → List (ℕ × V) → List (ℕ × V)
  remove k [] = []
  remove k ((a, v) ∷ m) = if k == a then remove k m else (a, v) ∷ remove k m

  -- `entry(k).or_insert(v)`
  unfoldable pub or_insert : ℕ → V → List (ℕ × V) → List (ℕ × V)
  or_insert k v m = elim (lookup k m) [ none ↦ (k, v) ∷ m | some w ↦ m ]

  pub lookup-remove :
      (k j : ℕ) (m : List (ℕ × V)) → lookup j (remove k m) ≡ (if j == k then none else lookup j m)
  unfolding lookup remove
  lookup-remove k j [] = ground arith
  lookup-remove k j ((a, v) ∷ m) = ground (arith, lookup-remove k j m)

  pub lookup-or_insert :
      (k j : ℕ) (v : V) (m : List (ℕ × V))
      → lookup j (or_insert k v m)
        ≡ (if j == k then elim (lookup k m) [ none ↦ some v | some w ↦ some w ] else lookup j m)
  unfolding lookup or_insert
  lookup-or_insert k j v m = ground arith
