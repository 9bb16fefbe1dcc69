-- ===== src/Redaction/Paths.antt =====
-- crates/apolysis-observer/src/redaction.rs, `relative_path_stays_in_workspace`: a relative path
-- against the names and the `..` that lead up to each point of it.
use apolysis.Common.{
  ℕ, zero, suc, ◌+◌, ◌^◌, ◌≤◌, ◌<◌, Bool, true, false, List, [], ◌∷◌, ◌≡◌, ◌↔◌, refl, ap, sym, ◌∙◌,
  length, take, arith,
}
use apolysis.Common.Text.{Text}
use apolysis.Redaction.{
  Component, root_dir, cur_dir, parent_dir, normal, components, inner_components, segments,
  relative_components, is_absolute, stays_from, saturating_suc32, relative_path_stays_in_workspace,
}

unfoldable pub names : List Component → ℕ
names [] = 0
names (normal name ∷ cs) = suc (names cs)
names (_ ∷ cs) = names cs

unfoldable pub ups : List Component → ℕ
ups [] = 0
ups (parent_dir ∷ cs) = suc (ups cs)
ups (_ ∷ cs) = ups cs

unfoldable pub has_root : List Component → Bool
has_root [] = false
has_root (root_dir ∷ cs) = true
has_root (_ ∷ cs) = has_root cs

-- No beginning of the list has more `..` than names and the depth it starts from.
pub NeverAbove : ℕ → List Component → Type 0
NeverAbove depth cs = (n : ℕ) → ups (take n cs) ≤ depth + names (take n cs)

saturating_suc32-below : (depth : ℕ) → depth + 1 < 2 ^ 32 → saturating_suc32 depth ≡ depth + 1
saturating_suc32-below depth h = ground arith

stays_from-parent :
    (depth : ℕ) (cs : List Component)
    → stays_from (suc depth) (parent_dir ∷ cs) ≡ stays_from depth cs
unfolding stays_from
stays_from-parent depth cs = ground arith

stays_from-NeverAbove :
    (depth : ℕ) (cs : List Component)
    → has_root cs ≡ false
    → depth + length cs < 2 ^ 32
    → stays_from depth cs ≡ true
    → NeverAbove depth cs
unfolding stays_from has_root names ups NeverAbove
stays_from-NeverAbove depth [] h b s zero = ground arith
stays_from-NeverAbove depth [] h b s (suc n) = ground arith
stays_from-NeverAbove depth (c ∷ cs) h b s zero = ground arith
stays_from-NeverAbove depth (cur_dir ∷ cs) h b s (suc n) =
    stays_from-NeverAbove depth cs h (ground arith) s n
stays_from-NeverAbove depth (normal name ∷ cs) h b s (suc n) =
    let e = saturating_suc32-below depth (ground arith) in
    let later =
      stays_from-NeverAbove (depth + 1) cs h (ground arith) (ap (λ d. stays_from d cs) (sym e) ∙ s)
        n in
    omega arith
stays_from-NeverAbove zero (parent_dir ∷ cs) h b s (suc n) = ground arith
stays_from-NeverAbove (suc depth) (parent_dir ∷ cs) h b s (suc n) =
    let later =
      stays_from-NeverAbove depth cs h (ground arith) (sym (stays_from-parent depth cs) ∙ s) n in
    omega arith
stays_from-NeverAbove depth (root_dir ∷ cs) h b s (suc n) = ground arith

NeverAbove-stays_from :
    (depth : ℕ) (cs : List Component)
    → has_root cs ≡ false
    → depth + length cs < 2 ^ 32
    → NeverAbove depth cs
    → stays_from depth cs ≡ true
unfolding stays_from has_root names ups NeverAbove
NeverAbove-stays_from depth [] h b s = refl
NeverAbove-stays_from depth (cur_dir ∷ cs) h b s =
    NeverAbove-stays_from depth cs h (ground arith) (λ n. s (suc n))
NeverAbove-stays_from depth (normal name ∷ cs) h b s =
    let e = saturating_suc32-below depth (ground arith) in
    let later =
      NeverAbove-stays_from (depth + 1) cs h (ground arith)
        (λ n. let x = s (suc n) in omega arith) in
    ap (λ d. stays_from d cs) e ∙ later
NeverAbove-stays_from zero (parent_dir ∷ cs) h b s = let x = s 1 in ground arith
NeverAbove-stays_from (suc depth) (parent_dir ∷ cs) h b s =
    let later =
      NeverAbove-stays_from depth cs h (ground arith) (λ n. let x = s (suc n) in omega arith) in
    stays_from-parent depth cs ∙ later
NeverAbove-stays_from depth (root_dir ∷ cs) h b s = ground arith

inner_components-rootless : (ss : List Text) → has_root (inner_components ss) ≡ false
unfolding inner_components has_root
inner_components-rootless [] = refl
inner_components-rootless (s ∷ ss) = let later = inner_components-rootless ss in ground arith

relative_components-rootless : (ss : List Text) → has_root (relative_components ss) ≡ false
unfolding has_root
relative_components-rootless [] = refl
relative_components-rootless (s ∷ ss) =
    let later = inner_components-rootless ss in
    let whole = inner_components-rootless (s ∷ ss) in ground arith

-- A path that does not start at the root has no root among its components.
components-rootless : (path : Text) → is_absolute path ≡ false → has_root (components path) ≡ false
unfolding components
components-rootless path h = let r = relative_components-rootless (segments [] path) in ground arith

-- A relative path of fewer than 2 ^ 32 components counts as inside the workspace exactly if no
-- beginning of it, component by component, has more `..` than names.
pub relative_path_stays_lem :
    (path : Text)
    → is_absolute path ≡ false
    → length (components path) < 2 ^ 32
    → (relative_path_stays_in_workspace path ≡ true)
      ↔ ((n : ℕ) → ups (take n (components path)) ≤ names (take n (components path)))
unfolding relative_path_stays_in_workspace NeverAbove
relative_path_stays_lem path h b =
    let rootless = components-rootless path h in
    (
      λ s n.
          let x = stays_from-NeverAbove 0 (components path) rootless (omega arith) s n in
          omega arith,
      λ s.
          NeverAbove-stays_from 0 (components path) rootless (omega arith)
            (λ n. let x = s n in omega arith),
    )
