-- ===== src/Common/Ordered.antt =====
-- Keys with a total order (`K: Ord`): numbers, byte strings and enums by their rank.
use mathlib.Core.Bool.{Bool, true, false}
use mathlib.Core.List.{List, [], ◌∷◌}
use mathlib.Core.Logic.{◌↔◌}
use mathlib.Core.Path.{◌≡◌, refl}
use native.Mathlib.Omega.{arith}
use Prim.Native.Nat.Ordering.{gt, eq, lt}
use Prim.Native.Nat.{Ordering, compare, ℕ}

pub record Ord {ℓ} (K : Type ℓ) : Type ℓ where
  pub cmp : K → K → Ordering
  pub lt_trans : (x y z : K) → cmp x y ≡ lt → cmp y z ≡ lt → cmp x z ≡ lt
  pub lt_of_gt : (x y : K) → cmp x y ≡ gt → cmp y x ≡ lt
  pub eq_of_cmp : (x y : K) → cmp x y ≡ eq → x ≡ y
  pub cmp_self : (x : K) → cmp x x ≡ eq

-- `==` of a key type, which agrees with its order.
abbrev pub same {ℓ} : {K : Type ℓ} ⦃o : Ord K⦄ → K → K → Bool
same ⦃o⦄ a b = elim (o.cmp a b) [ eq ↦ true | _ ↦ false ]

pub same_iff {ℓ} : {K : Type ℓ} ⦃o : Ord K⦄ (a b : K) → (same a b ≡ true) ↔ (a ≡ b)
same_iff ⦃o⦄ a b = ground (arith, o.eq_of_cmp a b, o.cmp_self a)

pub compare_self : (a : ℕ) → compare a a ≡ eq
compare_self a = ground arith

pub eq_of_compare : (a b : ℕ) → compare a b ≡ eq → a ≡ b
eq_of_compare a b h = ground arith

pub lt_of_compare : (a b : ℕ) → compare a b ≡ gt → compare b a ≡ lt
lt_of_compare a b h = ground arith

pub compare_trans : (a b c : ℕ) → compare a b ≡ lt → compare b c ≡ lt → compare a c ≡ lt
compare_trans a b c h k = ground arith

instance abbrev pub number_ord : Ord ℕ
number_ord = record {
  cmp = compare;
  cmp_self = compare_self;
  eq_of_cmp = eq_of_compare;
  lt_of_gt = lt_of_compare;
  lt_trans = compare_trans;
}

-- Byte strings compare lexicographically, as `String` does.
abbrev pub compare_bytes : List ℕ → List ℕ → Ordering
compare_bytes [] [] = eq
compare_bytes [] (b ∷ bs) = lt
compare_bytes (a ∷ as') [] = gt
compare_bytes (a ∷ as') (b ∷ bs) =
    let rest = compare_bytes as' bs in elim (compare a b) [ eq ↦ rest | o ↦ o ]

pub bytes_self : (a : List ℕ) → compare_bytes a a ≡ eq
bytes_self [] = refl
bytes_self (a ∷ as') = ground (arith, bytes_self as')

pub eq_of_bytes : (a b : List ℕ) → compare_bytes a b ≡ eq → a ≡ b
eq_of_bytes [] [] h = refl
eq_of_bytes [] (b ∷ bs) h = cc
eq_of_bytes (a ∷ as') [] h = cc
eq_of_bytes (a ∷ as') (b ∷ bs) h = ground (arith, eq_of_bytes as' bs)

pub lt_of_bytes : (a b : List ℕ) → compare_bytes a b ≡ gt → compare_bytes b a ≡ lt
lt_of_bytes [] [] h = cc
lt_of_bytes [] (b ∷ bs) h = cc
lt_of_bytes (a ∷ as') [] h = refl
lt_of_bytes (a ∷ as') (b ∷ bs) h = ground (arith, lt_of_bytes as' bs)

pub bytes_trans :
    (a b c : List ℕ) → compare_bytes a b ≡ lt → compare_bytes b c ≡ lt → compare_bytes a c ≡ lt
bytes_trans [] [] c h k = cc
bytes_trans [] (b ∷ bs) [] h k = cc
bytes_trans [] (b ∷ bs) (c ∷ cs) h k = refl
bytes_trans (a ∷ as') [] c h k = cc
bytes_trans (a ∷ as') (b ∷ bs) [] h k = cc
bytes_trans (a ∷ as') (b ∷ bs) (c ∷ cs) h k = ground (arith, bytes_trans as' bs cs)

instance abbrev pub bytes_ord : Ord (List ℕ)
bytes_ord = record {
  cmp = compare_bytes;
  cmp_self = bytes_self;
  eq_of_cmp = eq_of_bytes;
  lt_of_gt = lt_of_bytes;
  lt_trans = bytes_trans;
}

-- The order that `#[derive(Ord)]` gives to an enum: by the position of the variant.
module _ {K : Type 0} (rank : K → ℕ) (injective : (a b : K) → rank a ≡ rank b → a ≡ b) where
  pub rank_self : (a : K) → compare (rank a) (rank a) ≡ eq
  rank_self a = ground arith

  pub eq_of_rank : (a b : K) → compare (rank a) (rank b) ≡ eq → a ≡ b
  eq_of_rank a b h = injective a b (ground arith)

  pub lt_of_rank : (a b : K) → compare (rank a) (rank b) ≡ gt → compare (rank b) (rank a) ≡ lt
  lt_of_rank a b h = ground arith

  pub rank_trans :
      (a b c : K)
      → compare (rank a) (rank b) ≡ lt
      → compare (rank b) (rank c) ≡ lt
      → compare (rank a) (rank c) ≡ lt
  rank_trans a b c h k = ground arith

  abbrev pub by_rank : Ord K
  by_rank = record {
    cmp = λ a b. compare (rank a) (rank b);
    cmp_self = rank_self;
    eq_of_cmp = eq_of_rank;
    lt_of_gt = lt_of_rank;
    lt_trans = rank_trans;
  }
