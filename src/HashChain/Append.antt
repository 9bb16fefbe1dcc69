-- ===== src/HashChain/Append.antt =====
-- What is appended to a store is read back, by verification and by recovery.
use mathlib.Core.Path.{subst}
use mathlib.Core.List.{append_assoc, append-nil}
use apolysis.Common.{
  inl, inr, ℕ, ◌+◌, ◌≡◌, refl, sym, ap, ◌∙◌, false, none, List, [], ◌∷◌, ◌++◌, arith, ◌==◌, ==_iff,
  ok, Result-cases, Bool-cases, length, length-append, saturating_add, All,
}
use apolysis.Common.Text.{eqb_iff}
use apolysis.HashChain.{
  Bytes, newline, Codec, ChainRecord, validate_line, calculate_hash, Progress, at_start, advance,
  verify_existing, HashChainStore, append_json,
}
use apolysis.HashChain.Lines.{lines_from, verify_lines, verify_existing-lines}
use apolysis.HashChain.Chain.{
  unlines, last_part, unlines-lines_from, nothing_left, verify_lines-Run,
}

-- No byte is a newline.
abbrev pub IsLine : Bytes → Type 0
IsLine bs = All (λ b. (b == newline) ≡ false) bs

lines_from-append :
    (part xs ys : Bytes)
    → lines_from part (xs ++ ys) ≡ lines_from part xs ++ lines_from (last_part part xs) ys
unfolding lines_from last_part
lines_from-append part [] ys = refl
lines_from-append part (x ∷ xs) ys = elim (Bool-cases (x == newline)) [
  | inl e ↦ rw (e, lines_from, last_part) (ap (◌∷◌ part) (lines_from-append [] xs ys))
  | inr e ↦ rw (e, lines_from, last_part) (lines_from-append (part ++ x ∷ []) xs ys)
]

pub lines_from-line :
    (part line rest : Bytes)
    → IsLine line
    → lines_from part (line ++ newline ∷ rest) ≡ (part ++ line) ∷ lines_from [] rest
unfolding lines_from
lines_from-line part [] rest a = sym (ap (λ t. t ∷ lines_from [] rest) (append-nil part))
lines_from-line part (b ∷ bs) rest (h, a) =
    rw (h, lines_from)
      (lines_from-line (part ++ b ∷ []) bs rest a
        ∙ ap (λ t. t ∷ lines_from [] rest) (append_assoc part (b ∷ []) bs))

module _ (codec : Codec) where
  open codec use {Value, record_from_slice, record_to_string, value_from_str, value_to_string}

  -- The serialiser writes a record on one line, which reads as the record.
  pub record IsFaithful : Type 0 where
    pub one_line :
        (r : ChainRecord Value) (line : Bytes) → record_to_string r ≡ ok line → IsLine line
    pub read_back :
        (r : ChainRecord Value) (line : Bytes)
        → record_to_string r ≡ ok line
        → record_from_slice line ≡ ok r

  -- The store stands at the end of its file, all of which verification accepts as these records.
  pub record IsOpen (s : HashChainStore codec) (rs : List (ChainRecord Value)) : Type 0 where
    pub unbroken : (verify_existing codec s.file).1 ≡ none
    pub records : (verify_existing codec s.file).0.records ≡ rs
    pub whole : (verify_existing codec s.file).0.valid_len ≡ length s.file
    pub sequence : (verify_existing codec s.file).0.sequence ≡ s.sequence
    pub previous_hash : (verify_existing codec s.file).0.previous_hash ≡ s.previous_hash

  verify_lines-append :
      (ls : List Bytes) (l : Bytes) (r : ChainRecord Value) (p q : Progress codec)
      → verify_lines codec ls p ≡ (q, none)
      → validate_line codec l (saturating_add q.sequence 1) q.previous_hash ≡ ok r
      → verify_lines codec (ls ++ l ∷ []) p ≡ (advance codec r (q.start + length l) q, none)
  unfolding verify_lines
  verify_lines-append [] l r p q n v =
      let e : q ≡ p = sym (ap (λ x. x.0) n) in
      rw
        (
          sym (ap (λ t. validate_line codec l (saturating_add t.sequence 1) t.previous_hash) e) ∙ v,
          e,
          verify_lines,
        )
        refl
  verify_lines-append (x ∷ ls) l r p q n v =
      elim (Result-cases (validate_line codec x (saturating_add p.sequence 1) p.previous_hash)) [
        | inl (y, w) ↦
            rw (w, verify_lines)
              (verify_lines-append ls l r (advance codec y (p.start + length x) p) q
                (rw (w, verify_lines) at n) v)
        | inr (y, w) ↦ cc (rw (w, verify_lines) at n)
      ]

  -- What a successful append has done.
  record Appended (schema : ℕ) (s s' : HashChainStore codec) (r : ChainRecord Value) : Type 0 where
    line : Bytes
    canonical : Bytes
    printed : record_to_string r ≡ ok line
    payload : value_to_string r.payload ≡ ok canonical
    file : s'.file ≡ s.file ++ (line ++ newline ∷ [])
    numbered : r.sequence ≡ saturating_add s.sequence 1
    linked : r.previous_hash ≡ s.previous_hash
    hashed :
        r.record_hash ≡ calculate_hash codec r.schema_version r.sequence r.previous_hash canonical
    sequence : s'.sequence ≡ r.sequence
    previous_hash : s'.previous_hash ≡ r.record_hash

  append_json-Appended :
      (schema : ℕ) (payload : Bytes) (s s' : HashChainStore codec) (r : ChainRecord Value)
      → append_json codec schema payload s ≡ ok (s', r)
      → Appended schema s s' r
  unfolding append_json
  append_json-Appended schema payload s s' r e = elim (Result-cases (value_from_str payload)) [
    | inr (x, v) ↦ cc (rw v at e)
    | inl (value, v) ↦ elim (Result-cases (value_to_string value)) [
      | inr (x, w) ↦ cc (rw (v, w) at e)
      | inl (canonical, w) ↦
          let sequence = saturating_add s.sequence 1 in
          let r' : ChainRecord Value = record {
            schema_version = schema;
            sequence = sequence;
            previous_hash = s.previous_hash;
            record_hash = calculate_hash codec schema sequence s.previous_hash canonical;
            payload = value;
          } in
          elim (Result-cases (record_to_string r')) [
            | inr (x, u) ↦ cc (rw (v, w, u) at e)
            | inl (line, u) ↦
                let added : HashChainStore codec = record {
                  file = s.file ++ (line ++ newline ∷ []);
                  sequence = sequence;
                  previous_hash = r'.record_hash;
                } in
                let same : ◌≡◌ {A = HashChainStore codec × ChainRecord Value} (added, r') (s', r) =
                  cc (rw (v, w, u) at e) in
                subst (λ x. Appended schema s x.0 x.1) same
                  (record {
                    line = line;
                    canonical = canonical;
                    printed = u;
                    payload = w;
                    file = refl;
                    numbered = refl;
                    linked = refl;
                    hashed = refl;
                    sequence = refl;
                    previous_hash = refl;
                  })
          ]
    ]
  ]

  Appended-validates :
      (schema : ℕ) (s s' : HashChainStore codec) (r : ChainRecord Value)
      (a : Appended schema s s' r)
      → IsFaithful
      → validate_line codec a.line (saturating_add s.sequence 1) s.previous_hash ≡ ok r
  unfolding validate_line
  Appended-validates schema s s' r a f =
      rw
        (
          f.read_back r a.line a.printed,
          (==_iff _ _).1 a.numbered,
          (eqb_iff _ _).1 a.linked,
          a.payload,
          (eqb_iff _ _).1 a.hashed,
        )
        refl

  -- The file of an open store ends with a newline.
  IsOpen-ended :
      (s : HashChainStore codec) (rs : List (ChainRecord Value))
      → IsOpen s rs
      → (last_part [] s.file ≡ []) × ((verify_existing codec s.file).0.start ≡ length s.file)
  IsOpen-ended s rs o =
      let run = verify_lines-Run codec (lines_from [] s.file) (at_start codec) in
      let at_end = verify_existing-lines codec s.file in
      let unbroken : (verify_lines codec (lines_from [] s.file) (at_start codec)).1 ≡ none =
        ap (λ x. x.1) (sym at_end) ∙ o.unbroken in
      let valid : (verify_existing codec s.file).0.valid_len
          ≡ (verify_existing codec s.file).0.start =
        rw at_end (run.valid refl) in
      let moved : (verify_existing codec s.file).0.start ≡ 0 + length (unlines run.consumed) =
        rw at_end run.moved in
      let all : lines_from [] s.file ≡ run.consumed =
        run.split ∙ ap (◌++◌ run.consumed) (run.finished unbroken) ∙ append-nil run.consumed in
      (
        nothing_left s.file (unlines run.consumed) (last_part [] s.file)
            (unlines-lines_from [] s.file ∙ ap (λ t. unlines t ++ last_part [] s.file) all)
            (omega (arith, moved, valid, o.whole)),
        sym valid ∙ o.whole,
      )

  IsOpen-lines :
      (schema : ℕ) (s s' : HashChainStore codec) (r : ChainRecord Value)
      (rs : List (ChainRecord Value)) (a : Appended schema s s' r)
      → IsFaithful
      → IsOpen s rs
      → lines_from [] s'.file ≡ lines_from [] s.file ++ a.line ∷ []
  unfolding lines_from
  IsOpen-lines schema s s' r rs a f o =
      ap (lines_from []) a.file
      ∙ lines_from-append [] s.file (a.line ++ newline ∷ [])
      ∙ ap (λ t. lines_from [] s.file ++ lines_from t (a.line ++ newline ∷ []))
          (IsOpen-ended s rs o).0
      ∙ ap (◌++◌ (lines_from [] s.file))
          (lines_from-line [] a.line [] (f.one_line r a.line a.printed))

  -- With a serialiser that writes a record on one line which reads back as the record: a
  -- successful append to an open store leaves an open store, in whose file verification reads
  -- the earlier records and then the new one.
  pub append_json-IsOpen :
      IsFaithful
      → (schema : ℕ) (payload : Bytes) (s s' : HashChainStore codec) (r : ChainRecord Value)
        (rs : List (ChainRecord Value))
      → IsOpen s rs
      → append_json codec schema payload s ≡ ok (s', r)
      → IsOpen s' (rs ++ r ∷ [])
  append_json-IsOpen f schema payload s s' r rs o e =
      let a = append_json-Appended schema payload s s' r e in
      let q = (verify_existing codec s.file).0 in
      let read : verify_existing codec s'.file
          ≡ (advance codec r (q.start + length a.line) q, none) =
        verify_existing-lines codec s'.file
        ∙ ap (λ t. verify_lines codec t (at_start codec)) (IsOpen-lines schema s s' r rs a f o)
        ∙ verify_lines-append (lines_from [] s.file) a.line r (at_start codec) q
            (sym (verify_existing-lines codec s.file) ∙ ap (λ t. (q, t)) o.unbroken)
            (rw (o.sequence, o.previous_hash) (Appended-validates schema s s' r a f)) in
      record {
        unbroken = ap (λ x. x.1) read;
        records = ap (λ x. x.0.records) read ∙ ap (λ t. t ++ r ∷ []) o.records;
        whole =
            ap (λ x. x.0.valid_len) read
            ∙ omega (
              arith,
              (IsOpen-ended s rs o).1,
              ap length a.file,
              length-append s.file (a.line ++ newline ∷ []),
              length-append a.line (newline ∷ []),
            );
        sequence = ap (λ x. x.0.sequence) read ∙ sym a.sequence;
        previous_hash = ap (λ x. x.0.previous_hash) read ∙ sym a.previous_hash;
      }
