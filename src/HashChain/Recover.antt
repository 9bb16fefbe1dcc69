-- ===== src/HashChain/Recover.antt =====
-- Recovery keeps what verification accepts, and puts the rest aside.
use mathlib.Core.Path.{subst}
use mathlib.Core.List.{append-nil}
use apolysis.Common.{
  inl, inr, ℕ, ◌+◌, ◌≡◌, refl, sym, ap, ◌∙◌, Bool, false, none, some, List, [], ◌∷◌, ◌++◌, arith,
  ◌==◌, ok, err, Result-cases, Bool-cases, length, length-append, saturating_add, All, take, drop,
  drop-append, take-append, All-append, All-prefix, ltb, unwrap_or, ◌||◌,
}
use apolysis.HashChain.{
  verify, recover_at, verify, Bytes, newline, Codec, broken_line, validate_line, Progress, slice,
  at_start, advance, verify_existing, verify_loop, validate_loop, validate_existing, StoreError,
  integrity, LineError, Recovery, create_or_recover, positions_from,
}
use apolysis.HashChain.Lines.{lines_from, verify_lines, verify_existing-lines}
use apolysis.HashChain.Chain.{cut, nothing_left, unlines, last_part, verify_lines-Run}
use apolysis.HashChain.Append.{IsLine, IsOpen, lines_from-line}

lines_from-IsLine : (part bs : Bytes) → IsLine part → All IsLine (lines_from part bs)
unfolding lines_from
lines_from-IsLine part [] a = tt
lines_from-IsLine part (b ∷ bs) a = elim (Bool-cases (b == newline)) [
  | inl e ↦ rw (e, lines_from) (a, lines_from-IsLine [] bs tt)
  | inr e ↦
      rw (e, lines_from)
        (lines_from-IsLine (part ++ b ∷ []) bs
          (All-append (λ b. (b == newline) ≡ false) part (b ∷ []) a (e, tt)))
]

lines_from-unlines : (ls : List Bytes) → All IsLine ls → lines_from [] (unlines ls) ≡ ls
unfolding unlines lines_from
lines_from-unlines [] a = refl
lines_from-unlines (l ∷ ls) (h, a) =
    lines_from-line [] l (unlines ls) h ∙ ap (◌∷◌ l) (lines_from-unlines ls a)

module _ (codec : Codec) where
  validate_loop-ok :
      (bytes : Bytes) (trailing : Bool) (count index : ℕ) (ns : List ℕ) (p q : Progress codec)
      → p.valid_len ≡ p.start
      → validate_loop codec bytes trailing count index ns p ≡ ok q
      → q ≡ (verify_loop codec bytes ns p).0
  unfolding validate_loop verify_loop
  validate_loop-ok bytes trailing count index [] p q h e = cc
  validate_loop-ok bytes trailing count index (n ∷ ns) p q h e =
      elim (Result-cases (
        validate_line codec (slice bytes p.start n) (saturating_add p.sequence 1)
          p.previous_hash)) [
            | inl (r, v) ↦
                rw (v, verify_loop)
                  (validate_loop-ok bytes trailing count (index + 1) ns (advance codec r n p) q refl
                    (rw (v, validate_loop) at e))
            | inr (x, v) ↦ elim (Bool-cases (ltb (index + 1) count || trailing)) [
              | inl t ↦ cc (rw (v, t, validate_loop) at e)
              | inr t ↦
                  let stopped : record p { valid_len = p.start } ≡ q =
                    cc (rw (v, t, validate_loop) at e) in
                  rw (v, verify_loop) (sym stopped ∙ ap (λ n. record p { valid_len = n }) (sym h))
            ]
          ]

  validate_loop-err :
      (bytes : Bytes) (trailing : Bool) (count index : ℕ) (ns : List ℕ) (p : Progress codec)
      (e : StoreError)
      → validate_loop codec bytes trailing count index ns p ≡ err e
      → (n : ℕ) × ((d : LineError) × ((e ≡ integrity n d)
            × ((verify_loop codec bytes ns p).1 ≡ some (broken_line n d))))
  unfolding validate_loop verify_loop
  validate_loop-err bytes trailing count index [] p e h = cc
  validate_loop-err bytes trailing count index (n ∷ ns) p e h =
      elim (Result-cases (
        validate_line codec (slice bytes p.start n) (saturating_add p.sequence 1)
          p.previous_hash)) [
            | inl (r, v) ↦
                rw (v, verify_loop)
                  (validate_loop-err bytes trailing count (index + 1) ns (advance codec r n p) e
                    (rw (v, validate_loop) at h))
            | inr (x, v) ↦ elim (Bool-cases (ltb (index + 1) count || trailing)) [
              | inl t ↦ (
                saturating_add p.sequence 1,
                (x, (cc (rw (v, t, validate_loop) at h), rw (v, verify_loop) refl)),
              )
              | inr t ↦ cc (rw (v, t, validate_loop) at h)
            ]
          ]

  -- What recovery leaves: an open store, of the records that it returns, whose file and the
  -- quarantined bytes are the file that was found.
  pub record Recovered (bytes : Bytes) (found : Recovery codec) : Type 0 where
    pub is_open : IsOpen codec found.store found.records
    pub nothing_lost : found.store.file ++ unwrap_or found.quarantined [] ≡ bytes
    pub next : found.next_sequence ≡ saturating_add found.store.sequence 1

  -- The accepted part of a file, as a file of its own, is accepted whole.
  accepted_again :
      (bytes : Bytes)
      → let run = verify_lines-Run codec (lines_from [] bytes) (at_start codec) in
        verify_existing codec (unlines run.consumed) ≡ ((verify_existing codec bytes).0, none)
  accepted_again bytes =
      let run = verify_lines-Run codec (lines_from [] bytes) (at_start codec) in
      verify_existing-lines codec (unlines run.consumed)
      ∙ ap (λ t. verify_lines codec t (at_start codec))
          (lines_from-unlines run.consumed (
            All-prefix IsLine run.consumed run.left
              (subst (All IsLine) run.split (lines_from-IsLine [] bytes tt))))
      ∙ run.again
      ∙ ap (λ x. (x.0, none)) (sym (verify_existing-lines codec bytes))

  validate_existing-ok :
      (bytes : Bytes) (q : Progress codec)
      → validate_existing codec bytes ≡ ok q
      → q ≡ (verify_existing codec bytes).0
  unfolding validate_existing verify_existing
  validate_existing-ok bytes q e =
      validate_loop-ok bytes _ _ 0 (positions_from 0 bytes) (at_start codec) q refl e

  record Cut (bytes kept rest : Bytes) (q : Progress codec) : Type 0 where
    whole : bytes ≡ kept ++ rest
    counted : q.valid_len ≡ length kept

  recover_at-file :
      (bytes kept rest : Bytes) (q : Progress codec)
      → Cut bytes kept rest q
      → ((recover_at codec bytes q).store.file ≡ kept)
        × ((recover_at codec bytes q).store.file
              ++ unwrap_or (recover_at codec bytes q).quarantined []
            ≡ bytes)
  unfolding recover_at
  recover_at-file bytes kept rest q c =
      let taken : take q.valid_len bytes ≡ kept = rw (c.counted, c.whole) (take-append kept rest) in
      let dropped : drop q.valid_len bytes ≡ rest =
        rw (c.counted, c.whole) (drop-append kept rest) in
      elim (Bool-cases (ltb q.valid_len (length bytes))) [
        | inl t ↦ rw t (
          taken,
          ap (λ x. x ++ drop q.valid_len bytes) taken ∙ ap (◌++◌ kept) dropped ∙ sym c.whole,
        )
        | inr t ↦
            let short : rest ≡ [] =
              nothing_left bytes kept rest c.whole
                (ground (arith, t, c.counted, ap length c.whole, length-append kept rest)) in
            rw t (c.whole ∙ ap (◌++◌ kept) short ∙ append-nil kept, append-nil bytes)
      ]

  recover_at-Recovered :
      (bytes : Bytes) (q : Progress codec)
      → q ≡ (verify_existing codec bytes).0
      → Recovered bytes (recover_at codec bytes q)
  unfolding recover_at
  recover_at-Recovered bytes q e =
      let run = verify_lines-Run codec (lines_from [] bytes) (at_start codec) in
      let at_end = verify_existing-lines codec bytes in
      let (kept, lost) =
        recover_at-file bytes (unlines run.consumed) (unlines run.left ++ last_part [] bytes) q
          (record {
            whole = cut codec bytes;
            counted = rw (e, at_end) (omega (arith, run.valid refl, run.moved));
          }) in
      let again : verify_existing codec (recover_at codec bytes q).store.file ≡ (q, none) =
        ap (verify_existing codec) kept ∙ accepted_again bytes ∙ ap (λ t. (t, none)) (sym e) in
      record {
        is_open = record {
          unbroken = ap (λ x. x.1) again;
          records = ap (λ x. x.0.records) again;
          whole =
              ap (λ x. x.0.valid_len) again
              ∙ rw (e, at_end) (omega (arith, run.valid refl, run.moved))
              ∙ sym (ap length kept);
          sequence = ap (λ x. x.0.sequence) again;
          previous_hash = ap (λ x. x.0.previous_hash) again;
        };
        nothing_lost = lost;
        next = refl;
      }

  -- A recovery that succeeds leaves an open store of the records that it returns; the kept file
  -- and the quarantined bytes are together the file that was found; the next sequence number
  -- follows the last one.
  pub create_or_recover-Recovered :
      (bytes : Bytes) (found : Recovery codec)
      → create_or_recover codec bytes ≡ ok found
      → Recovered bytes found
  unfolding create_or_recover
  create_or_recover-Recovered bytes found e = elim (Result-cases (validate_existing codec bytes)) [
    | inr (x, v) ↦ cc (rw v at e)
    | inl (q, v) ↦
        let same : recover_at codec bytes q ≡ found = cc (rw v at e) in
        subst (Recovered bytes) same (recover_at-Recovered bytes q (validate_existing-ok bytes q v))
  ]

  -- Recovery refuses a file only with the error of a line that verification reports as broken
  -- too.
  pub create_or_recover-refused :
      (bytes : Bytes) (e : StoreError)
      → create_or_recover codec bytes ≡ err e
      → (n : ℕ) × ((d : LineError) × ((e ≡ integrity n d)
            × ((verify codec bytes).failure ≡ some (broken_line n d))))
  unfolding create_or_recover verify validate_existing verify_existing
  create_or_recover-refused bytes e h = elim (Result-cases (validate_existing codec bytes)) [
    | inl (q, v) ↦ cc (rw v at h)
    | inr (x, v) ↦
        let (n, (d, (same, broken))) =
          validate_loop-err bytes _ _ 0 (positions_from 0 bytes) (at_start codec) x v in
        (n, (d, (cc (rw v at h), rw broken refl)))
  ]
