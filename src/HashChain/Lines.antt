-- ===== src/HashChain/Lines.antt =====
-- The loops run over the positions of newlines and cut slices out of the file. They are the loops
-- over the complete lines of the file.
use mathlib.Core.List.{append_assoc}
use apolysis.Common.{
  inl, inr, ℕ, ◌+◌, ◌-◌, ◌≡◌, refl, sym, ap, ◌∙◌, true, false, Option, none, some, List, [], ◌∷◌,
  ◌++◌, arith, ◌==◌, ok, err, Result-cases, Bool-cases, length, length-append, drop-append,
  take-append, saturating_add,
}
use apolysis.HashChain.{
  Bytes, newline, Codec, ChainRecord, Failure, broken_line, validate_line, Progress, at_start,
  advance, positions_from, slice, verify_loop, verify_existing,
}

-- The complete lines of a file, the first of which begins with `part`.
unfoldable pub lines_from : Bytes → Bytes → List Bytes
lines_from part [] = []
lines_from part (b ∷ bs) = elim (b == newline) [
  | true ↦ part ∷ lines_from [] bs
  | false ↦ lines_from (part ++ b ∷ []) bs
]

slice_part :
    (pre part rest : Bytes)
    → slice (pre ++ (part ++ rest)) (length pre) (length pre + length part) ≡ part
slice_part pre part rest =
    let width : length pre + length part - length pre ≡ length part = omega arith in
    rw width (rw (drop-append pre (part ++ rest)) (take-append part rest))

pub length_step :
    (pre part : Bytes) (b : ℕ) → length (pre ++ (part ++ b ∷ [])) ≡ length pre + length part + 1
length_step pre part b =
    omega (arith, length-append pre (part ++ b ∷ []), length-append part (b ∷ []))

pub regroup :
    (pre part bs : Bytes) (b : ℕ) → pre ++ (part ++ b ∷ bs) ≡ (pre ++ (part ++ b ∷ [])) ++ bs
regroup pre part bs b = simp append_assoc

module _ (codec : Codec) where
  unfoldable pub verify_lines : List Bytes → Progress codec → Progress codec × Option Failure
  verify_lines [] p = (p, none)
  verify_lines (l ∷ ls) p =
      let expected = saturating_add p.sequence 1 in
      elim (validate_line codec l expected p.previous_hash) [
        | ok r ↦ verify_lines ls (advance codec r (p.start + length l) p)
        | err detail ↦ (p, some (broken_line expected detail))
      ]

  -- Inside the file: `pre` has been read, `part` is the line so far.
  record At (pre part rest bytes : Bytes) (i : ℕ) (p : Progress codec) : Type 0 where
    whole : bytes ≡ pre ++ (part ++ rest)
    begun : p.start ≡ length pre
    index : i ≡ length pre + length part

  after_line :
      (pre part bs bytes : Bytes) (b i : ℕ) (p : Progress codec) (r : ChainRecord codec.Value)
      → At pre part (b ∷ bs) bytes i p
      → At (pre ++ (part ++ b ∷ [])) [] bs bytes (i + 1) (advance codec r i p)
  after_line pre part bs bytes b i p r a = record {
    whole = a.whole ∙ regroup pre part bs b;
    begun = omega (arith, length_step pre part b, a.index);
    index = omega (arith, length_step pre part b, a.index);
  }

  loop_hit :
      (bytes l : Bytes) (n : ℕ) (ns : List ℕ) (ls : List Bytes) (p : Progress codec)
      → slice bytes p.start n ≡ l
      → n ≡ p.start + length l
      → ((r : ChainRecord codec.Value)
          → verify_loop codec bytes ns (advance codec r n p)
            ≡ verify_lines ls (advance codec r n p))
      → verify_loop codec bytes (n ∷ ns) p ≡ verify_lines (l ∷ ls) p
  unfolding verify_loop verify_lines
  loop_hit bytes l n ns ls p e w later =
      let expected = saturating_add p.sequence 1 in
      rw (e, verify_loop)
        (elim (Result-cases (validate_line codec l expected p.previous_hash)) [
          | inl (r, v) ↦ rw (v, verify_loop, verify_lines) (rw (← w) (later r))
          | inr (x, v) ↦ rw (v, verify_loop, verify_lines)
        ])

  verify_loop-lines :
      (rest pre part bytes : Bytes) (i : ℕ) (p : Progress codec)
      → At pre part rest bytes i p
      → verify_loop codec bytes (positions_from i rest) p ≡ verify_lines (lines_from part rest) p
  unfolding positions_from lines_from
  verify_loop-lines [] pre part bytes i p a = unfold verify_loop verify_lines in refl
  verify_loop-lines (b ∷ bs) pre part bytes i p a = elim (Bool-cases (b == newline)) [
    | inl e ↦
        rw (e, lines_from)
          (loop_hit bytes part i (positions_from (i + 1) bs) (lines_from [] bs) p
            (rw (a.whole, a.begun, a.index) (slice_part pre part (b ∷ bs)))
            (omega (arith, a.index, a.begun))
            (λ r.
              verify_loop-lines bs (pre ++ (part ++ b ∷ [])) [] bytes (i + 1) (advance codec r i p)
                (after_line pre part bs bytes b i p r a)))
    | inr e ↦
        rw (e, lines_from)
          (verify_loop-lines bs pre (part ++ b ∷ []) bytes (i + 1) p (record {
            whole = a.whole ∙ ap (◌++◌ pre) (sym (append_assoc part (b ∷ []) bs));
            begun = a.begun;
            index = omega (arith, a.index, length-append part (b ∷ []));
          }))
  ]

  -- Verification by the positions of newlines and slices of the file gives what a loop over the
  -- complete lines of the file gives.
  pub verify_existing-lines :
      (bytes : Bytes)
      → verify_existing codec bytes ≡ verify_lines (lines_from [] bytes) (at_start codec)
  unfolding verify_existing
  verify_existing-lines bytes =
      verify_loop-lines bytes [] [] bytes 0 (at_start codec)
        (record { whole = refl; begun = refl; index = refl })
