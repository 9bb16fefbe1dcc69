-- ===== src/Common/TreeMap.antt =====
-- `std::collections::BTreeMap` as a list of entries in ascending order of keys, with the operations
-- that the program calls; iteration follows the list. A set (`BTreeSet<K>`) is a map into the unit.
-- The laws of `get` hold for every list; those of the order are in Sorted and Weight.
pub mod Sorted
pub mod Weight
use Prim.Native.Nat.{ℕ, suc, ◌+◌, ◌≤◌}
use Prim.Native.Nat.Ordering.{lt, eq, gt}
use mathlib.Core.Path.{◌≡◌, refl}
use mathlib.Core.Bool.{Bool, true, false, not, ◌&&◌}
use mathlib.Core.Option.{Option, none, some}
use mathlib.Core.List.{List, [], ◌∷◌}
use native.Mathlib.Omega.{arith}
use apolysis.Common.Tests.{if◌then◌else◌, is_some}
use apolysis.Common.Lists.{length, any}
use apolysis.Common.Ordered.{Ord, same}

abbrev pub map_option {ℓ κ} : {A : Type ℓ} {B : Type κ} → (A → B) → Option A → Option B
map_option f none = none
map_option f (some v) = some (f v)

abbrev pub TreeMap {ℓ κ} : Type ℓ → Type κ → Type (ℓ ⊔ κ)
TreeMap K V = List (K × V)

module _ {ℓ κ} {K : Type ℓ} {V : Type κ} ⦃o : Ord K⦄ where
  unfoldable pub get : K → TreeMap K V → Option V
  get k [] = none
  get k ((j, v) ∷ m) = if same k j then some v else get k m

  unfoldable pub insert : K → V → TreeMap K V → TreeMap K V
  insert k v [] = (k, v) ∷ []
  insert k v ((j, w) ∷ m) = elim (o.cmp k j) [
    | lt ↦ (k, v) ∷ (j, w) ∷ m
    | eq ↦ (k, v) ∷ m
    | gt ↦ (j, w) ∷ insert k v m
  ]

  unfoldable pub remove : K → TreeMap K V → TreeMap K V
  remove k [] = []
  remove k ((j, v) ∷ m) = if same k j then remove k m else (j, v) ∷ remove k m

  -- A write through `get_mut`: a missing key changes nothing.
  unfoldable pub modify : K → (V → V) → TreeMap K V → TreeMap K V
  modify k f [] = []
  modify k f ((j, v) ∷ m) = if same k j then (j, f v) ∷ m else (j, v) ∷ modify k f m

  abbrev pub contains_key : K → TreeMap K V → Bool
  contains_key k m = is_some (get k m)

  -- The keys that a list of removals leaves.
  unfoldable pub remove_all : List K → TreeMap K V → TreeMap K V
  remove_all [] m = m
  remove_all (k ∷ ks) m = remove_all ks (remove k m)

module _ {ℓ κ} {K : Type ℓ} {V : Type κ} where
  abbrev pub keys : TreeMap K V → List K
  keys [] = []
  keys ((k, v) ∷ m) = k ∷ keys m

  abbrev pub values : TreeMap K V → List V
  values [] = []
  values ((k, v) ∷ m) = v ∷ values m

module _ {ℓ κ} {K : Type ℓ} {V : Type κ} ⦃o : Ord K⦄ where
  pub get-insert :
      (k j : K) (v : V) (m : TreeMap K V)
      → get j (insert k v m) ≡ (if same j k then some v else get j m)
  unfolding get insert
  get-insert k j v [] = refl
  get-insert k j v ((i, w) ∷ m) =
      ground
        (arith, get-insert k j v m, o.eq_of_cmp k i, o.eq_of_cmp j k, o.eq_of_cmp j i, o.cmp_self k)

  pub get-remove :
      (k j : K) (m : TreeMap K V) → get j (remove k m) ≡ (if same j k then none else get j m)
  unfolding get remove
  get-remove k j [] = ground arith
  get-remove k j ((i, w) ∷ m) =
      ground
        (arith, get-remove k j m, o.eq_of_cmp k i, o.eq_of_cmp j k, o.eq_of_cmp j i, o.cmp_self k)

  pub get-modify :
      (k j : K) (f : V → V) (m : TreeMap K V)
      → get j (modify k f m) ≡ (if same j k then map_option f (get j m) else get j m)
  unfolding get modify
  get-modify k j f [] = ground arith
  get-modify k j f ((i, w) ∷ m) =
      ground
        (arith, get-modify k j f m, o.eq_of_cmp k i, o.eq_of_cmp j k, o.eq_of_cmp j i, o.cmp_self k)

  pub length-insert : (k : K) (v : V) (m : TreeMap K V) → length (insert k v m) ≤ suc (length m)
  unfolding insert
  length-insert k v [] = omega arith
  length-insert k v ((j, w) ∷ m) = ground (arith, length-insert k v m)

  pub length-remove : (k : K) (m : TreeMap K V) → length (remove k m) ≤ length m
  unfolding remove
  length-remove k [] = omega arith
  length-remove k ((j, w) ∷ m) = ground (arith, length-remove k m)

  pub get-remove_all :
      (ks : List K) (j : K) (m : TreeMap K V)
      → get j (remove_all ks m) ≡ (if any (same j) ks then none else get j m)
  unfolding remove_all
  get-remove_all [] j m = refl
  get-remove_all (k ∷ ks) j m = ground (arith, get-remove_all ks j (remove k m), get-remove k j m)

  pub length-modify : (k : K) (f : V → V) (m : TreeMap K V) → length (modify k f m) ≡ length m
  unfolding modify
  length-modify k f [] = refl
  length-modify k f ((j, w) ∷ m) = ground (arith, length-modify k f m)
