-- ===== src/Jsonl/Rotation.antt =====
-- What an append does to the files.
use mathlib.Core.Path.{subst, sym}
use apolysis.Common.{
  ap, ◌∙◌, ℕ, zero, suc, ◌+◌, ◌-◌, ◌≤◌, ◌<◌, ◌≡◌, ◌⊎◌, inl, inr, refl, ◌&&◌, none, some, [], ◌∷◌,
  ◌++◌, leb, ◌==◌, if◌then◌else◌, length, length-append, saturating_add, u64_mod, arith, ok,
  Bool-cases, Option-cases, ==_iff,
}
use apolysis.Common.Ordered.{number_ord, same_iff}
use apolysis.Common.TreeMap
use apolysis.Common.TreeMap.{TreeMap, get-insert, get-remove}
use apolysis.Jsonl.{
  Bytes, JsonlRotationPolicy, JsonlStore, move_up, move_all, rotate, validate_rotation_policy,
  should_rotate_before, make_room, room_for, append, write_line,
}

get-move_up :
    (i j : ℕ) (m : TreeMap ℕ Bytes)
    → TreeMap.get (i + 1) m ≡ none
    → TreeMap.get j (move_up i m)
      ≡ (if j == i then none else if j == i + 1 then TreeMap.get i m else TreeMap.get j m)
unfolding move_up
get-move_up i j m e = elim (Option-cases (TreeMap.get i m)) [
  | inl n ↦ rw (n, move_up) (ground (arith, n, e, ==_iff j i, ==_iff j (i + 1)))
  | inr (b, n) ↦
      rw (n, move_up)
        (ground (
          arith,
          n,
          e,
          get-insert (i + 1) j b (TreeMap.remove i m),
          get-remove i j m,
          same_iff j i,
          same_iff j (i + 1),
          ==_iff j i,
          ==_iff j (i + 1),
        ))
]

-- With nothing above it, each archive up to a number moves up by one.
get-move_all :
    (n j : ℕ) (m : TreeMap ℕ Bytes)
    → TreeMap.get (n + 1) m ≡ none
    → TreeMap.get j (move_all n m) ≡ (
        if leb 1 j && leb j (n + 1)
        then (if j == 1 then none else TreeMap.get (j - 1) m)
        else TreeMap.get j m)
unfolding move_all
get-move_all zero j m e = elim (Bool-cases (j == 1)) [
  | inl h ↦ let one : j ≡ 1 = (==_iff j 1).0 h in rw one e
  | inr h ↦ ground (arith, h)
]
get-move_all (suc n) j m e =
    let next = move_up (suc n) m in
    let free : TreeMap.get (n + 1) next ≡ none =
      ground (arith, get-move_up (suc n) (n + 1) m e, ==_iff (n + 1) (suc n)) in
    let later = get-move_all n j next free in
    elim (Bool-cases (j == suc n + 1)) [
      | inl h ↦
          let top : j ≡ suc n + 1 = (==_iff j (suc n + 1)).0 h in
          let below : j - 1 ≡ suc n = omega (arith, top) in
          ground (arith, later, get-move_up (suc n) j m e, top, below, ==_iff j (suc n))
      | inr h ↦ ground (
        arith,
        later,
        get-move_up (suc n) j m e,
        get-move_up (suc n) (j - 1) m e,
        h,
        ==_iff j (suc n),
        ==_iff (j - 1) (suc n),
      )
    ]

-- What a rotation has done to the files: each archive has moved up by one, what was written is the
-- first, the oldest is gone, and the active file is empty.
pub record IsRotated (r : JsonlRotationPolicy) (s s' : JsonlStore) : Type 0 where
  pub emptied : (s'.active ≡ []) × (s'.current_bytes ≡ 0)
  pub first : TreeMap.get 1 s'.archives ≡ some s.active
  pub moved :
      (j : ℕ)
      → 2 ≤ j
      → j ≤ r.max_archived_files
      → TreeMap.get j s'.archives ≡ TreeMap.get (j - 1) s.archives
  pub others :
      (j : ℕ) → r.max_archived_files < j → TreeMap.get j s'.archives ≡ TreeMap.get j s.archives
  pub policy : s'.rotation ≡ s.rotation

rotate-IsRotated :
    (r : JsonlRotationPolicy) (s : JsonlStore)
    → 1 ≤ r.max_archived_files
    → IsRotated r s (rotate r s)
unfolding rotate
rotate-IsRotated r s p =
    let top = r.max_archived_files in
    let start = TreeMap.remove top s.archives in
    let width : top - 1 + 1 ≡ top = omega (arith, p) in
    let gone : TreeMap.get (top - 1 + 1) start ≡ none =
      rw width (ground (arith, get-remove top top s.archives, same_iff top top)) in
    record {
      emptied = (refl, refl);
      first =
          ground (arith, get-insert 1 1 s.active (move_all (top - 1) start), same_iff {K = ℕ} 1 1);
      moved = λ j low high. ground (
        arith,
        low,
        high,
        p,
        get-insert 1 j s.active (move_all (top - 1) start),
        same_iff j 1,
        get-move_all (top - 1) j start gone,
        get-remove top (j - 1) s.archives,
        same_iff (j - 1) top,
        ==_iff j 1,
      );
      others = λ j high. ground (
        arith,
        high,
        p,
        get-insert 1 j s.active (move_all (top - 1) start),
        same_iff j 1,
        get-move_all (top - 1) j start gone,
        get-remove top j s.archives,
        same_iff j top,
      );
      policy = refl;
    }

abbrev pub ended : Bytes → Bytes
ended line = line ++ 10 ∷ []

-- What an append has done: the line stands whole at the end of the active file, after what stood
-- there or, if that would pass the limit, alone after a rotation.
pub record IsAppended (line : Bytes) (r : JsonlRotationPolicy) (s s' : JsonlStore) : Type 0 where
  pub counted : s'.current_bytes ≡ length s'.active
  pub bounded : (length s'.active ≤ r.max_file_bytes) ⊎ (s'.active ≡ ended line)
  pub files :
      ((s'.archives ≡ s.archives) × (s'.active ≡ s.active ++ ended line))
      ⊎ ((r.max_file_bytes < length s.active + length (ended line))
          × (t : JsonlStore) × IsRotated r s t
          × (s'.archives ≡ t.archives)
          × (s'.active ≡ ended line))

nothing : (bs : Bytes) → length bs ≡ 0 → bs ≡ []
nothing [] h = refl
nothing (b ∷ bs) h = absurd (omega (arith, h))

rotated-IsAppended :
    (line : Bytes) (r : JsonlRotationPolicy) (s t : JsonlStore)
    → r.max_file_bytes < length s.active + length (ended line)
    → length line + 1 < u64_mod
    → IsRotated r s t
    → IsAppended line r s (write_line line t)
rotated-IsAppended line r s t over w i =
    let alone : t.active ++ ended line ≡ ended line = ap (λ x. x ++ ended line) i.emptied.0 in
    record {
      counted = ground (arith, w, i.emptied.1, ap length alone, length-append line (10 ∷ []));
      bounded = inr alone;
      files = inr (over, t, i, refl, alone);
    }

fitting-IsAppended :
    (line : Bytes) (r : JsonlRotationPolicy) (s : JsonlStore)
    → s.current_bytes ≡ length s.active
    → length s.active + length line + 1 < u64_mod
    → (s.current_bytes ≡ 0) ⊎ (length s.active + length (ended line) ≤ r.max_file_bytes)
    → IsAppended line r s (write_line line s)
fitting-IsAppended line r s c w room =
    let size = length-append line (10 ∷ []) in
    let whole = length-append s.active (ended line) in
    record {
      counted = ground (arith, c, w, size, whole);
      bounded = elim room [
        | inl zero_bytes ↦ inr (ap (λ x. x ++ ended line) (nothing s.active (sym c ∙ zero_bytes)))
        | inr fits ↦ inl (omega (arith, fits, whole))
      ];
      files = inl (refl, refl);
    }

-- With a policy that the store accepts, a count that is the size of the active file, and sizes
-- that fit in 64 bits: an append puts the line whole at the end of the active file, or, only if
-- that would pass the limit, alone in a new one after a rotation that moves every archive up by
-- one, the written file to the first, and drops the oldest; the count is right again, and the
-- active file is within the limit or is that one line.
pub append-IsAppended :
    (line : Bytes) (r : JsonlRotationPolicy) (s : JsonlStore)
    → s.rotation ≡ some r
    → validate_rotation_policy r ≡ ok tt
    → s.current_bytes ≡ length s.active
    → length s.active + length line + 1 < u64_mod
    → IsAppended line r s (append line s)
unfolding append validate_rotation_policy should_rotate_before make_room
append-IsAppended line r s e v c w =
    let size = length-append line (10 ∷ []) in
    let next = saturating_add (length line) 1 in
    let many : 1 ≤ r.max_archived_files = ground (arith, v) in
    elim (Bool-cases (should_rotate_before next r s)) [
      | inl full ↦
          let room : make_room next s ≡ rotate r s =
            ap (λ o. room_for o next s) e ∙ ap (λ b. if b then rotate r s else s) full in
          subst (λ t. IsAppended line r s (write_line line t)) (sym room)
            (rotated-IsAppended line r s (rotate r s) (ground (arith, full, c, w, size))
              (omega (arith, w)) (rotate-IsRotated r s many))
      | inr fits ↦
          let room : make_room next s ≡ s =
            ap (λ o. room_for o next s) e ∙ ap (λ b. if b then rotate r s else s) fits in
          subst (λ t. IsAppended line r s (write_line line t)) (sym room)
            (fitting-IsAppended line r s c w (ground (arith, fits, c, w, size)))
    ]
