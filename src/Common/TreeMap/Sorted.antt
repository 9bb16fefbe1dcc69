-- ===== src/Common/TreeMap/Sorted.antt =====
-- The order of the entries: every operation keeps the keys strictly ascending, so a key stands once.
use Prim.Native.Nat.Ordering.{lt}
use mathlib.Core.Path.{◌≡◌, refl}
use mathlib.Core.Option.{none}
use mathlib.Core.List.{List, [], ◌∷◌}
use native.Mathlib.Omega.{arith}
use apolysis.Common.Ordered.{Ord}
use apolysis.Common.TreeMap.{TreeMap, get, insert, remove, modify, remove_all}

module _ {ℓ κ} {K : Type ℓ} {V : Type κ} ⦃o : Ord K⦄ where
  abbrev pub Above : K → TreeMap K V → Type 0
  Above k [] = Unit
  Above k ((j, v) ∷ m) = (o.cmp k j ≡ lt) × Above k m

  abbrev pub IsSorted : TreeMap K V → Type 0
  IsSorted [] = Unit
  IsSorted ((k, v) ∷ m) = Above k m × IsSorted m

  pub Above-trans : (a b : K) (m : TreeMap K V) → o.cmp a b ≡ lt → Above b m → Above a m
  Above-trans a b [] h u = tt
  Above-trans a b ((j, v) ∷ m) h u = (o.lt_trans a b j h u.0, Above-trans a b m h u.1)

  pub get-Above : (k : K) (m : TreeMap K V) → Above k m → get k m ≡ none
  unfolding get
  get-Above k [] u = refl
  get-Above k ((j, v) ∷ m) u = ground (arith, get-Above k m u.1)

  pub remove-Above_self : (k : K) (m : TreeMap K V) → Above k m → remove k m ≡ m
  unfolding remove
  remove-Above_self k [] u = refl
  remove-Above_self k ((j, v) ∷ m) u = ground (arith, remove-Above_self k m u.1)

  insert-Above :
      (a k : K) (v : V) (m : TreeMap K V) → o.cmp a k ≡ lt → Above a m → Above a (insert k v m)
  unfolding insert
  insert-Above a k v [] h u = (h, tt)
  insert-Above a k v ((j, w) ∷ m) h u = ground (arith, insert-Above a k v m h u.1)

  pub insert-IsSorted : (k : K) (v : V) (m : TreeMap K V) → IsSorted m → IsSorted (insert k v m)
  unfolding insert
  insert-IsSorted k v [] s = (tt, tt)
  insert-IsSorted k v ((j, w) ∷ m) s = ground (
    arith,
    insert-IsSorted k v m s.1,
    insert-Above j k v m,
    Above-trans k j m,
    o.eq_of_cmp k j,
    o.lt_of_gt k j,
  )

  remove-Above : (a k : K) (m : TreeMap K V) → Above a m → Above a (remove k m)
  unfolding remove
  remove-Above a k [] u = tt
  remove-Above a k ((j, w) ∷ m) u = ground (arith, remove-Above a k m u.1)

  pub remove-IsSorted : (k : K) (m : TreeMap K V) → IsSorted m → IsSorted (remove k m)
  unfolding remove
  remove-IsSorted k [] s = tt
  remove-IsSorted k ((j, w) ∷ m) s = ground (arith, remove-IsSorted k m s.1, remove-Above j k m s.0)

  modify-Above : (a k : K) (f : V → V) (m : TreeMap K V) → Above a m → Above a (modify k f m)
  unfolding modify
  modify-Above a k f [] u = tt
  modify-Above a k f ((j, w) ∷ m) u = ground (arith, modify-Above a k f m u.1)

  pub modify-IsSorted : (k : K) (f : V → V) (m : TreeMap K V) → IsSorted m → IsSorted (modify k f m)
  unfolding modify
  modify-IsSorted k f [] s = tt
  modify-IsSorted k f ((j, w) ∷ m) s =
      ground (arith, modify-IsSorted k f m s.1, modify-Above j k f m s.0)

  pub remove_all-IsSorted :
      (ks : List K) (m : TreeMap K V) → IsSorted m → IsSorted (remove_all ks m)
  unfolding remove_all
  remove_all-IsSorted [] m s = s
  remove_all-IsSorted (k ∷ ks) m s = remove_all-IsSorted ks (remove k m) (remove-IsSorted k m s)
