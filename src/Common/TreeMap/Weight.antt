-- ===== src/Common/TreeMap/Weight.antt =====
-- The sum of a measure over the values of a map, and its change by `insert` and `remove`.
use Prim.Native.Nat.{ℕ, ◌+◌}
use mathlib.Core.Path.{◌≡◌}
use mathlib.Core.Option.{Option, none, some}
use mathlib.Core.List.{[], ◌∷◌}
use native.Mathlib.Omega.{arith}
use apolysis.Common.Ordered.{Ord}
use apolysis.Common.TreeMap.{TreeMap, get, insert, remove}
use apolysis.Common.TreeMap.Sorted.{IsSorted, get-Above, remove-Above_self, Above-trans}

abbrev pub weight_of {κ} : {V : Type κ} → (V → ℕ) → Option V → ℕ
weight_of f none = 0
weight_of f (some v) = f v

module _ {ℓ κ} {K : Type ℓ} {V : Type κ} where
  unfoldable pub weight : (V → ℕ) → TreeMap K V → ℕ
  weight f [] = 0
  weight f ((k, v) ∷ m) = f v + weight f m

module _ {ℓ κ} {K : Type ℓ} {V : Type κ} ⦃o : Ord K⦄ where
  pub weight-insert :
      (f : V → ℕ) (k : K) (v : V) (m : TreeMap K V)
      → IsSorted m
      → weight f (insert k v m) + weight_of f (get k m) ≡ weight f m + f v
  unfolding weight insert get
  weight-insert f k v [] s = omega arith
  weight-insert f k v ((j, w) ∷ m) s =
      ground (arith, weight-insert f k v m s.1, get-Above k m, Above-trans k j m, o.eq_of_cmp k j)

  pub weight-remove :
      (f : V → ℕ) (k : K) (m : TreeMap K V)
      → IsSorted m
      → weight f (remove k m) + weight_of f (get k m) ≡ weight f m
  unfolding weight remove get
  weight-remove f k [] s = omega arith
  weight-remove f k ((j, w) ∷ m) s =
      ground (arith, weight-remove f k m s.1, remove-Above_self k m, o.eq_of_cmp k j)
