-- ===== src/HashChain/Chain.antt =====
-- Soundness of verification: what it has accepted is a chain of records that stand in the file, one
-- to a line.
use mathlib.Core.List.{append_assoc, append-nil}
use apolysis.Common.{
  inl, inr, ℕ, ◌+◌, ◌≡◌, refl, sym, ap, ◌∙◌, true, false, Option, none, List, [], ◌∷◌, ◌++◌, arith,
  ◌==◌, ==_iff, Result, ok, err, Result-cases, Bool-cases, length, length-append, saturating_add,
}
use apolysis.Common.Text.{eqb_iff}
use apolysis.HashChain.{
  Bytes, newline, Codec, ChainRecord, Failure, validate_line, calculate_hash, Progress, at_start,
  advance, verify_existing, verify, VerificationReport, zero_hash,
}
use apolysis.HashChain.Lines.{lines_from, verify_lines, verify_existing-lines}

-- Complete lines, and the bytes after the last newline.
unfoldable pub unlines : List Bytes → Bytes
unlines [] = []
unlines (l ∷ ls) = l ++ (newline ∷ unlines ls)

unfoldable pub last_part : Bytes → Bytes → Bytes
last_part part [] = part
last_part part (b ∷ bs) = elim (b == newline) [
  | true ↦ last_part [] bs
  | false ↦ last_part (part ++ b ∷ []) bs
]

pub unlines-lines_from :
    (part bs : Bytes) → part ++ bs ≡ unlines (lines_from part bs) ++ last_part part bs
unfolding lines_from unlines last_part
unlines-lines_from part [] = append-nil part
unlines-lines_from part (b ∷ bs) = elim (Bool-cases (b == newline)) [
  | inl e ↦
      rw (e, lines_from, last_part)
        (rw ((==_iff b newline).0 e) (
          ap (λ t. part ++ (newline ∷ t)) (unlines-lines_from [] bs)
          ∙ sym (append_assoc part (newline ∷ unlines (lines_from [] bs)) (last_part [] bs))))
  | inr e ↦
      rw (e, lines_from, last_part)
        (sym (append_assoc part (b ∷ []) bs) ∙ unlines-lines_from (part ++ b ∷ []) bs)
]

pub unlines-append : (xs ys : List Bytes) → unlines (xs ++ ys) ≡ unlines xs ++ unlines ys
unfolding unlines
unlines-append [] ys = refl
unlines-append (x ∷ xs) ys =
    ap (λ t. x ++ (newline ∷ t)) (unlines-append xs ys)
    ∙ sym (append_assoc x (newline ∷ unlines xs) (unlines ys))

-- A prefix that is as long as the list is the list.
pub nothing_left : (xs ys zs : Bytes) → xs ≡ ys ++ zs → length ys ≡ length xs → zs ≡ []
nothing_left xs ys [] e n = refl
nothing_left xs ys (z ∷ zs) e n = absurd (omega (arith, n, ap length e, length-append ys (z ∷ zs)))

abbrev text_of : Result Bytes Bytes → Bytes
text_of (ok s) = s
text_of (err e) = []

module _ (codec : Codec) where
  open codec use {Value, record_from_slice, value_to_string}

  -- A record continues the chain that ends in this sequence number and hash.
  pub record IsNext (sequence : ℕ) (previous : Bytes) (r : ChainRecord Value) : Type 0 where
    pub numbered : r.sequence ≡ saturating_add sequence 1
    pub linked : r.previous_hash ≡ previous
    pub canonical : Bytes
    pub printed : value_to_string r.payload ≡ ok canonical
    pub hashed :
        r.record_hash ≡ calculate_hash codec r.schema_version r.sequence r.previous_hash canonical

  -- The records lead from one end of a chain to another.
  abbrev pub IsChain : List (ChainRecord Value) → ℕ → Bytes → ℕ → Bytes → Type 0
  IsChain [] s h s' h' = (s' ≡ s) × (h' ≡ h)
  IsChain (r ∷ rs) s h s' h' = IsNext s h r × IsChain rs r.sequence r.record_hash s' h'

  -- The lines read as the records.
  abbrev pub ReadAs : List Bytes → List (ChainRecord Value) → Type 0
  ReadAs [] [] = Unit
  ReadAs [] (r ∷ rs) = Unit × ⊥
  ReadAs (l ∷ ls) [] = Unit × ⊥
  ReadAs (l ∷ ls) (r ∷ rs) = (record_from_slice l ≡ ok r) × ReadAs ls rs

  -- A line is accepted only if it reads as the next record of the chain.
  pub validate_line-IsNext :
      (line : Bytes) (s : ℕ) (h : Bytes) (r : ChainRecord Value)
      → validate_line codec line (saturating_add s 1) h ≡ ok r
      → (record_from_slice line ≡ ok r) × IsNext s h r
  unfolding validate_line
  validate_line-IsNext line s h r v =
      let e : record_from_slice line ≡ ok r = ground arith in
      (
        e,
        record {
          numbered = ground (arith, e);
          linked = (eqb_iff r.previous_hash h).0 (ground (arith, e));
          canonical = text_of (value_to_string r.payload);
          printed = ground (arith, e);
          hashed = (eqb_iff _ _).0 (ground (arith, e));
        },
      )

  -- What a run over lines has read: a part of the lines, as the next records of the chain.
  pub record Run (ls : List Bytes) (p : Progress codec) (x : Progress codec × Option Failure)
      : Type 0 where
    pub consumed : List Bytes
    pub left : List Bytes
    pub fresh : List (ChainRecord Value)
    pub split : ls ≡ consumed ++ left
    pub read : ReadAs consumed fresh
    pub collected : x.0.records ≡ p.records ++ fresh
    pub chained : IsChain fresh p.sequence p.previous_hash x.0.sequence x.0.previous_hash
    pub moved : x.0.start ≡ p.start + length (unlines consumed)
    pub valid : p.valid_len ≡ p.start → x.0.valid_len ≡ x.0.start
    pub finished : x.1 ≡ none → left ≡ []
    pub again : verify_lines codec consumed p ≡ (x.0, none)

  Run-step :
      (l : Bytes) (ls : List Bytes) (p : Progress codec) (r : ChainRecord Value)
      → validate_line codec l (saturating_add p.sequence 1) p.previous_hash ≡ ok r
      → (x : Progress codec × Option Failure) → Run ls (advance codec r (p.start + length l) p) x
      → Run (l ∷ ls) p x
  unfolding unlines verify_lines
  Run-step l ls p r v x run =
      let (e, n) = validate_line-IsNext l p.sequence p.previous_hash r v in
      record {
        consumed = l ∷ run.consumed;
        left = run.left;
        fresh = r ∷ run.fresh;
        split = ap (◌∷◌ l) run.split;
        read = (e, run.read);
        collected = run.collected ∙ append_assoc p.records (r ∷ []) run.fresh;
        chained = (n, run.chained);
        moved = omega (arith, run.moved, length-append l (newline ∷ unlines run.consumed));
        valid = λ h. run.valid refl;
        finished = run.finished;
        again = rw (v, verify_lines) run.again;
      }

  pub verify_lines-Run : (ls : List Bytes) (p : Progress codec) → Run ls p (verify_lines codec ls p)
  unfolding verify_lines unlines
  verify_lines-Run [] p = record {
    consumed = [];
    left = [];
    fresh = [];
    split = refl;
    read = tt;
    collected = sym (append-nil p.records);
    chained = (refl, refl);
    moved = omega arith;
    valid = λ h. h;
    finished = λ h. refl;
    again = refl;
  }
  verify_lines-Run (l ∷ ls) p =
      elim (Result-cases (validate_line codec l (saturating_add p.sequence 1) p.previous_hash)) [
        | inl (r, v) ↦
            rw (v, verify_lines)
              (Run-step l ls p r v _ (verify_lines-Run ls (advance codec r (p.start + length l) p)))
        | inr (x, v) ↦
            rw (v, verify_lines)
              (record {
                consumed = [];
                left = l ∷ ls;
                fresh = [];
                split = refl;
                read = tt;
                collected = sym (append-nil p.records);
                chained = (refl, refl);
                moved = omega arith;
                valid = λ h. h;
                finished = λ h. cc;
                again = refl;
              })
      ]

  -- The accepted lines and what is left make up the file.
  pub cut :
      (bytes : Bytes)
      → let run = verify_lines-Run (lines_from [] bytes) (at_start codec) in
        let rest = unlines run.left ++ last_part [] bytes in bytes ≡ unlines run.consumed ++ rest
  cut bytes =
      let run = verify_lines-Run (lines_from [] bytes) (at_start codec) in
      unlines-lines_from [] bytes
      ∙ ap (λ t. unlines t ++ last_part [] bytes) run.split
      ∙ ap (λ t. t ++ last_part [] bytes) (unlines-append run.consumed run.left)
      ∙ append_assoc (unlines run.consumed) (unlines run.left) (last_part [] bytes)

  -- The accepted part of a file: lines that read as the records, which form a chain from the zero
  -- hash to the reported end, and whose bytes are counted.
  pub record Accepted (bytes : Bytes) (p : Progress codec) : Type 0 where
    pub lines : List Bytes
    pub rest : Bytes
    pub prefix : bytes ≡ unlines lines ++ rest
    pub counted : p.valid_len ≡ length (unlines lines)
    pub read : ReadAs lines p.records
    pub chained : IsChain p.records 0 zero_hash p.sequence p.previous_hash

  -- Whatever the file holds, the prefix that verification accepts is such a chain.
  pub verify_existing-Accepted : (bytes : Bytes) → Accepted bytes (verify_existing codec bytes).0
  verify_existing-Accepted bytes =
      let run = verify_lines-Run (lines_from [] bytes) (at_start codec) in
      rw (verify_existing-lines codec bytes) (record {
        lines = run.consumed;
        rest = unlines run.left ++ last_part [] bytes;
        prefix = cut bytes;
        counted = omega (arith, run.valid refl, run.moved);
        read = rw run.collected run.read;
        chained = rw run.collected run.chained;
      })

  -- A file that holds nothing but its chain: every byte of it belongs to the lines of the records,
  -- which the report counts, and the report names the end of the chain.
  pub record Whole (bytes : Bytes) (report : VerificationReport codec) : Type 0 where
    pub lines : List Bytes
    pub records : List (ChainRecord Value)
    pub nothing_else : bytes ≡ unlines lines
    pub read : ReadAs lines records
    pub chained : IsChain records 0 zero_hash report.last_sequence report.last_record_hash
    pub counted : report.record_count ≡ length records

  -- A file that passes verification is nothing but lines of records that form one chain from the
  -- zero hash to the reported end, and the report counts these records.
  pub verify-Whole :
      (bytes : Bytes) → (verify codec bytes).passed ≡ true → Whole bytes (verify codec bytes)
  unfolding verify
  verify-Whole bytes passed =
      let a = verify_existing-Accepted bytes in
      record {
        lines = a.lines;
        records = (verify_existing codec bytes).0.records;
        nothing_else =
            a.prefix
            ∙ ap (λ t. unlines a.lines ++ t)
                (nothing_left bytes (unlines a.lines) a.rest a.prefix
                  (sym a.counted ∙ ground (arith, passed)))
            ∙ append-nil (unlines a.lines);
        read = a.read;
        chained = a.chained;
        counted = refl;
      }
