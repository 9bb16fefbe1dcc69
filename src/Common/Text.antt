-- ===== src/Common/Text.antt =====
-- `&str` and `String` as lists of Unicode scalar values, with the methods that the program calls.
-- UTF-8 keeps the order of code points and never splits one, so comparing, searching and cutting
-- give the same answers here as on the bytes; `len` and `bytes` are written out.
use Prim.Native.Char.{code}
use Prim.Native.String.{String}
use Prim.Native.Nat.{ℕ, ◌+◌}
use mathlib.Core.Path.{◌≡◌, refl, ap, sym}
use mathlib.Core.Logic.{◌↔◌, inl, inr}
use mathlib.Core.Bool.{Bool, true, false, ◌&&◌, ◌||◌}
use mathlib.Core.Option.{Option, none, some}
use mathlib.Core.List.{List, [], ◌∷◌, ◌++◌}
use native.Mathlib.Omega.{arith}
use apolysis.Common.Tests.{ltb, leb, ◌==◌, if◌then◌else◌, is_some, Bool-cases}

abbrev pub Text : Type 0
Text = List ℕ

-- A literal of the source.
abbrev pub text : String → Text
text String.[] = []
text (String.◌∷◌ c s) = code c ∷ text s

-- `char::is_whitespace`: the White_Space property.
unfoldable pub is_whitespace : ℕ → Bool
is_whitespace c =
    (leb 9 c && leb c 13)
    || c == 32
    || c == 0x85
    || c == 0xa0
    || c == 0x1680
    || (leb 0x2000 c && leb c 0x200a)
    || c == 0x2028
    || c == 0x2029
    || c == 0x202f
    || c == 0x205f
    || c == 0x3000

-- `u8::is_ascii_alphanumeric`; a byte of a longer encoding is at least 128.
unfoldable pub is_ascii_alphanumeric : ℕ → Bool
is_ascii_alphanumeric c =
    (leb b'0' c && leb c b'9') || (leb b'A' c && leb c b'Z') || (leb b'a' c && leb c b'z')

-- `char::len_utf8`.
abbrev pub len_utf8 : ℕ → ℕ
len_utf8 c = if ltb c 0x80 then 1 else if ltb c 0x800 then 2 else if ltb c 0x10000 then 3 else 4

-- `str::len`, in bytes.
unfoldable pub byte_len : Text → ℕ
byte_len [] = 0
byte_len (c ∷ s) = len_utf8 c + byte_len s

abbrev pub is_nil {ℓ} : {A : Type ℓ} → List A → Bool
is_nil [] = true
is_nil (x ∷ xs) = false

abbrev pub trim_start_by : (ℕ → Bool) → Text → Text
trim_start_by p [] = []
trim_start_by p (c ∷ s) = if p c then trim_start_by p s else c ∷ s

abbrev pub trim_end_by : (ℕ → Bool) → Text → Text
trim_end_by p [] = []
trim_end_by p (c ∷ s) = let r = trim_end_by p s in if is_nil r && p c then [] else c ∷ r

-- `str::trim`.
unfoldable pub trim : Text → Text
unfolding is_whitespace
trim s = trim_end_by is_whitespace (trim_start_by is_whitespace s)

-- `str::trim_end_matches(c)`.
unfoldable pub trim_end_matches : ℕ → Text → Text
trim_end_matches a s = trim_end_by (λ c. c == a) s

-- `str::strip_prefix` and `str::starts_with`.
unfoldable pub strip_prefix : Text → Text → Option Text
strip_prefix [] s = some s
strip_prefix (a ∷ p) [] = none
strip_prefix (a ∷ p) (c ∷ s) = if a == c then strip_prefix p s else none

unfoldable pub starts_with : Text → Text → Bool
starts_with p s = is_some (strip_prefix p s)

abbrev pub eqb : Text → Text → Bool
eqb [] [] = true
eqb [] (b ∷ t) = false
eqb (a ∷ s) [] = false
eqb (a ∷ s) (b ∷ t) = a == b && eqb s t

-- `s.ends_with(p)`.
unfoldable pub ends_with : Text → Text → Bool
ends_with p [] = is_nil p
ends_with p (c ∷ s) = eqb p (c ∷ s) || ends_with p s

-- `s.contains(p)`.
unfoldable pub contains_text : Text → Text → Bool
unfolding starts_with strip_prefix
contains_text p [] = is_nil p
contains_text p (c ∷ s) = starts_with p (c ∷ s) || contains_text p s

pub eqb_iff : (s t : Text) → (eqb s t ≡ true) ↔ (s ≡ t)
eqb_iff [] [] = ground arith
eqb_iff [] (b ∷ t) = ground arith
eqb_iff (a ∷ s) [] = ground arith
eqb_iff (a ∷ s) (b ∷ t) = ground (arith, eqb_iff s t)

pub strip_prefix_append : (p s : Text) → strip_prefix p (p ++ s) ≡ some s
unfolding strip_prefix
strip_prefix_append [] s = refl
strip_prefix_append (a ∷ p) s = ground (arith, strip_prefix_append p s)

pub append_of_strip_prefix : (p s r : Text) → strip_prefix p s ≡ some r → s ≡ p ++ r
unfolding strip_prefix
append_of_strip_prefix [] s r h = ground arith
append_of_strip_prefix (a ∷ p) [] r h = cc
append_of_strip_prefix (a ∷ p) (c ∷ s) r h = ground (arith, append_of_strip_prefix p s r)

pub ends_with_append : (s p : Text) → ends_with p (s ++ p) ≡ true
unfolding ends_with
ends_with_append [] [] = refl
ends_with_append [] (a ∷ p) = ground (arith, eqb_iff (a ∷ p) (a ∷ p))
ends_with_append (c ∷ s) p = ground (arith, ends_with_append s p)

pub append_of_ends_with : (p s : Text) → ends_with p s ≡ true → (r : Text) × (s ≡ r ++ p)
unfolding ends_with
append_of_ends_with [] [] h = ([], refl)
append_of_ends_with (a ∷ p) [] h = cc
append_of_ends_with p (c ∷ s) h = elim (Bool-cases (eqb p (c ∷ s))) [
  | inl e ↦ ([], sym ((eqb_iff p (c ∷ s)).0 e))
  | inr e ↦ let (r, f) = append_of_ends_with p s (ground arith) in (c ∷ r, ap (◌∷◌ c) f)
]
