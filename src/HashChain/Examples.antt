-- ===== src/HashChain/Examples.antt =====
-- The timeline on small files, with a serialiser and a hash that fit on a page: a text shifts every
-- number past the newline, and a hash is one byte.
use mathlib.Core.Path.{subst}
use apolysis.Common.{
  ℕ, ◌+◌, ◌-◌, ◌%◌, ◌≡◌, refl, ap, ◌∙◌, some, [], ◌∷◌, ◌++◌, arith, Result, ok, err, length, take,
  drop, take-append, drop-append,
}
use apolysis.Common.Text.{text}
use apolysis.HashChain.{
  Bytes, newline, Codec, ChainRecord, HashChainStore, Recovery, append_json, create_or_recover,
  verify, verify_existing, integrity, StoreError, zero_hash, at_start, calculate_hash, recover_at,
  validate_existing, validate_loop, validate_line, positions_from, to_be_bytes, encode_hex,
  verify_loop, invalid_record_json,
}
use apolysis.HashChain.Lines.{lines_from, verify_lines, verify_existing-lines}
use apolysis.HashChain.Chain.{Whole, verify-Whole}
use apolysis.HashChain.Append.{IsLine, IsFaithful, IsOpen, append_json-IsOpen}
use apolysis.HashChain.Recover.{Recovered, create_or_recover-Recovered}

abbrev shift : Bytes → Bytes
shift [] = []
shift (b ∷ bs) = (b + 11) ∷ shift bs

abbrev unshift : Bytes → Bytes
unshift [] = []
unshift (b ∷ bs) = (b - 11) ∷ unshift bs

unshift-shift : (bs : Bytes) → unshift (shift bs) ≡ bs
unshift-shift [] = refl
unshift-shift (b ∷ bs) = let e : b + 11 - 11 ≡ b = omega arith in rw (e, unshift-shift bs) refl

shift-IsLine : (bs : Bytes) → IsLine (shift bs)
shift-IsLine [] = tt
shift-IsLine (b ∷ bs) = (ground arith, shift-IsLine bs)

abbrev flat : ChainRecord ℕ → Bytes
flat r =
    r.schema_version
    ∷ r.sequence
    ∷ r.payload
    ∷ length r.previous_hash
    ∷ (r.previous_hash ++ r.record_hash)

abbrev unflat : Bytes → Result (ChainRecord ℕ) Bytes
unflat (v ∷ s ∷ p ∷ n ∷ bs) = ok (record {
  schema_version = v;
  sequence = s;
  previous_hash = take n bs;
  record_hash = drop n bs;
  payload = p;
})
unflat _ = err (text "EOF")

abbrev value_of : Bytes → Result ℕ Bytes
value_of (p ∷ []) = ok p
value_of _ = err (text "EOF")

abbrev sum : Bytes → ℕ
sum [] = 0
sum (b ∷ bs) = (b + sum bs) % 256

abbrev shifting : Codec
shifting = record {
  Value = ℕ;
  record_from_slice = λ bs. unflat (unshift bs);
  record_to_string = λ r. ok (shift (flat r));
  value_from_str = value_of;
  value_to_string = λ p. ok (p ∷ []);
  sha256 = λ bs. sum bs ∷ [];
}

unflat-flat : (r : ChainRecord ℕ) → unflat (flat r) ≡ ok r
unflat-flat r =
    rw (take-append r.previous_hash r.record_hash, drop-append r.previous_hash r.record_hash) refl

shifting-IsFaithful : IsFaithful shifting
shifting-IsFaithful = record {
  one_line = λ r line e.
      let same : shift (flat r) ≡ line = cc e in subst IsLine same (shift-IsLine (flat r));
  read_back = λ r line e.
      let same : shift (flat r) ≡ line = cc e in
      subst (λ t. unflat (unshift t) ≡ ok r) same
        (ap unflat (unshift-shift (flat r)) ∙ unflat-flat r);
}

-- A store without a record.
abbrev fresh : HashChainStore shifting
fresh = record { file = []; sequence = 0; previous_hash = zero_hash }

fresh-IsOpen : IsOpen shifting fresh []
unfolding verify_existing verify_loop positions_from
fresh-IsOpen = record {
  unbroken = refl;
  records = refl;
  whole = refl;
  sequence = refl;
  previous_hash = refl;
}

-- The first record.
abbrev first_record : ChainRecord ℕ
first_record = record {
  schema_version = 1;
  sequence = 1;
  previous_hash = zero_hash;
  record_hash = calculate_hash shifting 1 1 zero_hash (42 ∷ []);
  payload = 42;
}

abbrev grown : HashChainStore shifting
grown = record {
  file = shift (flat first_record) ++ newline ∷ [];
  sequence = 1;
  previous_hash = first_record.record_hash;
}

append_json-first : append_json shifting 1 (42 ∷ []) fresh ≡ ok (grown, first_record)
unfolding append_json
append_json-first = refl

append_json-IsOpen_example : IsOpen shifting grown (first_record ∷ [])
append_json-IsOpen_example =
    append_json-IsOpen shifting shifting-IsFaithful 1 (42 ∷ []) fresh grown first_record []
      fresh-IsOpen append_json-first

-- The file of `grown`, and a torn line after it.
abbrev torn : Bytes
torn = grown.file ++ 7 ∷ 8 ∷ []

abbrev recovered : Recovery shifting
recovered = record {
  store = grown;
  next_sequence = 2;
  previous_hash = first_record.record_hash;
  quarantined = some (7 ∷ 8 ∷ []);
  records = first_record ∷ [];
}

create_or_recover-torn : create_or_recover shifting torn ≡ ok recovered
unfolding create_or_recover recover_at validate_existing validate_loop validate_line positions_from
    calculate_hash to_be_bytes encode_hex
create_or_recover-torn = refl

create_or_recover-Recovered_example : Recovered shifting torn recovered
create_or_recover-Recovered_example =
    create_or_recover-Recovered shifting torn recovered create_or_recover-torn

verify-Whole_example : Whole shifting grown.file (verify shifting grown.file)
unfolding verify verify_existing verify_loop validate_line positions_from calculate_hash to_be_bytes
    encode_hex
verify-Whole_example = verify-Whole shifting grown.file refl

-- A broken line with bytes after it.
abbrev broken : Bytes
broken = 7 ∷ newline ∷ 8 ∷ []

abbrev refusal : StoreError
refusal = integrity 1 (invalid_record_json (text "EOF"))

verify_existing-lines_example :
    verify_existing shifting torn ≡ verify_lines shifting (lines_from [] torn) (at_start shifting)
verify_existing-lines_example = verify_existing-lines shifting torn
