-- ===== src/Finding/Matching.antt =====
-- What the matchers of the analyzer accept, as statements about the texts.
use apolysis.Common.{
  inl, inr, ◌⊎◌, ◌↔◌, ◌≡◌, refl, ap, ◌∙◌, true, Option, none, some, [], ◌∷◌, ◌++◌, arith,
  Bool-cases,
}
use apolysis.Common.Text.{
  Text, text, trim_end_matches, strip_prefix, starts_with, eqb, eqb_iff, strip_prefix_append,
  append_of_strip_prefix, ends_with_append, append_of_ends_with,
}
use apolysis.Finding.{path_matches, has_slash, endpoint_matches, has_suffix}

has_slash_iff : (s : Text) → (has_slash (some s) ≡ true) ↔ ((r : Text) × (s ≡ b'/' ∷ r))
unfolding starts_with strip_prefix
has_slash_iff [] = (λ h. cc, λ (r, e). cc)
has_slash_iff (c ∷ s) = (λ h. (s, ground arith), λ (r, e). ground arith)

-- A path policy covers exactly the directory itself, its trailing slashes aside, and what lies
-- below it.
pub path_matches_iff :
    (prefix resource : Text)
    → (path_matches prefix resource ≡ true) ↔ (
        (resource ≡ trim_end_matches b'/' prefix)
        ⊎ ((r : Text) × (resource ≡ trim_end_matches b'/' prefix ++ b'/' ∷ r)))
unfolding path_matches
path_matches_iff prefix resource = (to, from)
  where
    trimmed : Text
    trimmed = trim_end_matches b'/' prefix

    to_below :
        (o : Option Text)
        → strip_prefix trimmed resource ≡ o
        → has_slash o ≡ true
        → (r : Text) × (resource ≡ trimmed ++ b'/' ∷ r)
    to_below none e h = cc
    to_below (some s) e h =
        let (r, f) = (has_slash_iff s).0 h in
        (r, append_of_strip_prefix trimmed resource s e ∙ ap (◌++◌ trimmed) f)

    to :
        path_matches prefix resource ≡ true
        → (resource ≡ trimmed) ⊎ ((r : Text) × (resource ≡ trimmed ++ b'/' ∷ r))
    to h = elim (Bool-cases (eqb resource trimmed)) [
      | inl e ↦ inl ((eqb_iff resource trimmed).0 e)
      | inr e ↦ inr (to_below (strip_prefix trimmed resource) refl (ground arith))
    ]

    from :
        (resource ≡ trimmed) ⊎ ((r : Text) × (resource ≡ trimmed ++ b'/' ∷ r))
        → path_matches prefix resource ≡ true
    from (inl e) = ground (arith, (eqb_iff resource trimmed).1 e)
    from (inr (r, e)) =
        let cut = strip_prefix_append trimmed (b'/' ∷ r) in
        ground (arith, e, cut, (has_slash_iff (b'/' ∷ r)).1 (r, refl))

-- An egress selector accepts exactly the endpoint that equals it and, if it begins with a star
-- and a dot, the endpoints that end with what follows.
pub endpoint_matches_iff :
    (selector endpoint : Text)
    → (endpoint_matches selector endpoint ≡ true) ↔ (
        (selector ≡ endpoint)
        ⊎ ((suffix head : Text) × (selector ≡ text "*." ++ suffix) × (endpoint ≡ head ++ suffix)))
unfolding endpoint_matches
endpoint_matches_iff selector endpoint = (to, from)
  where
    to_wild :
        (o : Option Text)
        → strip_prefix (text "*.") selector ≡ o
        → has_suffix endpoint o ≡ true
        → (suffix head : Text) × (selector ≡ text "*." ++ suffix) × (endpoint ≡ head ++ suffix)
    to_wild none e h = cc
    to_wild (some s) e h =
        let (r, f) = append_of_ends_with s endpoint h in
        (s, r, append_of_strip_prefix (text "*.") selector s e, f)

    to :
        endpoint_matches selector endpoint ≡ true
        → (selector ≡ endpoint)
          ⊎ ((suffix head : Text) × (selector ≡ text "*." ++ suffix) × (endpoint ≡ head ++ suffix))
    to h = elim (Bool-cases (eqb selector endpoint)) [
      | inl e ↦ inl ((eqb_iff selector endpoint).0 e)
      | inr e ↦ inr (to_wild (strip_prefix (text "*.") selector) refl (ground arith))
    ]

    from :
        (selector ≡ endpoint)
          ⊎ ((suffix head : Text) × (selector ≡ text "*." ++ suffix) × (endpoint ≡ head ++ suffix))
        → endpoint_matches selector endpoint ≡ true
    from (inl e) = ground (arith, (eqb_iff selector endpoint).1 e)
    from (inr (s, r, e, f)) =
        ground (arith, e, f, strip_prefix_append (text "*.") s, ends_with_append r s)
