-- ===== src/HashChain.antt =====
-- crates/apolysis-store/src/hash_chain.rs: the append-only timeline whose records are linked by
-- hashes. A file is its bytes and its path is left out, error texts are the data that they print,
-- and hashes and serialised texts are bytes too; writing is assumed to succeed, and the buffer of
-- the writer is taken to be flushed after each append, as its callers do, so that the bytes of a
-- record stand in the file. serde_json and SHA-256 are the parameter `Codec`.
pub mod Lines
pub mod Chain
pub mod Append
pub mod Recover
mod Examples
use apolysis.Common.{
  ℕ, zero, suc, ◌+◌, ◌-◌, ◌*◌, ◌/◌, ◌%◌, ◌^◌, ◌≤◌, ◌≡◌, Bool, true, false, not, ◌&&◌, ◌||◌, Option,
  none, some, List, [], ◌∷◌, ◌++◌, map, ltb, leb, ◌==◌, if◌then◌else◌, Result, ok, err, ◌>>=◌, ◌>>◌,
  reject_if, map_err, length, take, drop, saturating_add, unwrap_or,
}
use apolysis.Common.Text.{text, eqb, is_nil}

abbrev pub Bytes : Type 0
Bytes = List ℕ

abbrev pub newline : ℕ
newline = 10

pub record ChainRecord (Value : Type 0) : Type 0 where
  pub schema_version : ℕ
  pub sequence : ℕ
  pub previous_hash : Bytes
  pub record_hash : Bytes
  pub payload : Value

-- `serde_json` at the types that the store reads and writes, and the hash function.
pub record Codec : Type 1 where
  pub Value : Type 0
  pub record_from_slice : Bytes → Result (ChainRecord Value) Bytes
  pub record_to_string : ChainRecord Value → Result Bytes Bytes
  pub value_from_str : Bytes → Result Value Bytes
  pub value_to_string : Value → Result Bytes Bytes
  pub sha256 : Bytes → Bytes

pub data LineError : Type 0 where
  invalid_record_json : Bytes → LineError
  wrong_sequence : ℕ → ℕ → LineError
  wrong_previous_hash : LineError
  unserialisable_payload : Bytes → LineError
  wrong_record_hash : LineError

pub data StoreError : Type 0 where
  invalid_payload : Bytes → StoreError
  integrity : ℕ → LineError → StoreError

-- `Some(..)` of a failed verification: the line that breaks the chain, or bytes after the last line.
pub data Failure : Type 0 where
  broken_line : ℕ → LineError → Failure
  truncated_tail : ℕ → Failure

-- `to_be_bytes` of an integer of `n` bytes.
unfoldable pub to_be_bytes : ℕ → ℕ → Bytes
to_be_bytes zero v = []
to_be_bytes (suc n) v = (v / 256 ^ n % 256) ∷ to_be_bytes n v

abbrev pub hex_digit : ℕ → ℕ
hex_digit d = if ltb d 10 then b'0' + d else b'a' + (d - 10)

unfoldable pub encode_hex : Bytes → Bytes
encode_hex [] = []
encode_hex (b ∷ bs) = hex_digit (b / 16) ∷ hex_digit (b % 16) ∷ encode_hex bs

abbrev pub zero_hash : Bytes
zero_hash = text "0000000000000000000000000000000000000000000000000000000000000000"

module _ (codec : Codec) where
  open codec use {
    Value, record_from_slice, record_to_string, value_from_str, value_to_string, sha256,
  }

  unfoldable pub calculate_hash : ℕ → ℕ → Bytes → Bytes → Bytes
  unfolding to_be_bytes encode_hex
  calculate_hash schema sequence previous payload =
      encode_hex
        (sha256 (to_be_bytes 4 schema ++ (to_be_bytes 8 sequence ++ (previous ++ payload))))

  unfoldable pub validate_line : Bytes → ℕ → Bytes → Result (ChainRecord Value) LineError
  validate_line line expected previous = do
    r ← map_err invalid_record_json (record_from_slice line)
    reject_if (not (r.sequence == expected)) (wrong_sequence expected r.sequence)
    reject_if (not (eqb r.previous_hash previous)) wrong_previous_hash
    canonical ← map_err unserialisable_payload (value_to_string r.payload)
    reject_if
        (not (
          eqb r.record_hash (calculate_hash r.schema_version r.sequence r.previous_hash canonical)))
        wrong_record_hash
    ok r

  -- The variables of the two validation loops.
  pub record Progress : Type 0 where
    pub sequence : ℕ
    pub previous_hash : Bytes
    pub valid_len : ℕ
    pub records : List (ChainRecord Value)
    pub start : ℕ

  abbrev pub at_start : Progress
  at_start = record {
    sequence = 0;
    previous_hash = zero_hash;
    valid_len = 0;
    records = [];
    start = 0;
  }

  abbrev pub advance : ChainRecord Value → ℕ → Progress → Progress
  advance r newline_at p = record {
    sequence = r.sequence;
    previous_hash = r.record_hash;
    valid_len = newline_at + 1;
    records = p.records ++ r ∷ [];
    start = newline_at + 1;
  }

-- The indices of the newlines, counted from the first argument.
unfoldable pub positions_from : ℕ → Bytes → List ℕ
positions_from i [] = []
positions_from i (b ∷ bs) =
    let later = positions_from (i + 1) bs in if b == newline then i ∷ later else later

abbrev pub slice : Bytes → ℕ → ℕ → Bytes
slice bytes from to = take (to - from) (drop from bytes)

-- `newline_positions.last().map(|position| position + 1 < bytes.len()).unwrap_or(!bytes.is_empty())`
abbrev pub has_trailing : ℕ → Bool → List ℕ → Bool
has_trailing len nonempty [] = nonempty
has_trailing len nonempty (n ∷ ns) = has_trailing len (ltb (n + 1) len) ns

module _ (codec : Codec) where
  open codec use {
    Value, record_from_slice, record_to_string, value_from_str, value_to_string, sha256,
  }

  -- The loop of `verify_existing`: where it stops, and the line that stopped it.
  unfoldable pub verify_loop : Bytes → List ℕ → Progress codec → Progress codec × Option Failure
  verify_loop bytes [] p = (p, none)
  verify_loop bytes (n ∷ ns) p =
      let expected = saturating_add p.sequence 1 in
      elim (validate_line codec (slice bytes p.start n) expected p.previous_hash) [
        | ok r ↦ verify_loop bytes ns (advance codec r n p)
        | err detail ↦ (p, some (broken_line expected detail))
      ]

  unfoldable pub verify_existing : Bytes → Progress codec × Option Failure
  unfolding verify_loop
  verify_existing bytes = verify_loop bytes (positions_from 0 bytes) (at_start codec)

  pub record VerificationReport : Type 0 where
    pub passed : Bool
    pub record_count : ℕ
    pub last_sequence : ℕ
    pub last_record_hash : Bytes
    pub valid_bytes : ℕ
    pub total_bytes : ℕ
    pub failure : Option Failure

  -- `failure.or_else(|| (valid_bytes != total_bytes).then(..))`
  abbrev pub or_tail : Option Failure → ℕ → ℕ → Option Failure
  or_tail (some f) valid total = some f
  or_tail none valid total = if valid == total then none else some (truncated_tail valid)

  abbrev pub is_none : Option Failure → Bool
  is_none none = true
  is_none (some f) = false

  -- `HashChainStore::verify`, on the bytes of the file.
  unfoldable pub verify : Bytes → VerificationReport
  verify bytes =
      let (p, broken) = verify_existing bytes in
      let failure = or_tail broken p.valid_len (length bytes) in
      record {
        passed = is_none failure;
        record_count = length p.records;
        last_sequence = p.sequence;
        last_record_hash = p.previous_hash;
        valid_bytes = p.valid_len;
        total_bytes = length bytes;
        failure = failure;
      }

  -- The loop of `validate_existing`, with the index of the line and the number of lines.
  unfoldable pub validate_loop :
      Bytes → Bool → ℕ → ℕ → List ℕ → Progress codec → Result (Progress codec) StoreError
  validate_loop bytes trailing count index [] p = ok p
  validate_loop bytes trailing count index (n ∷ ns) p =
      let expected = saturating_add p.sequence 1 in
      elim (validate_line codec (slice bytes p.start n) expected p.previous_hash) [
        | ok r ↦ validate_loop bytes trailing count (index + 1) ns (advance codec r n p)
        | err detail ↦
            if ltb (index + 1) count || trailing
            then err (integrity expected detail)
            else ok (record p { valid_len = p.start })
      ]

  unfoldable pub validate_existing : Bytes → Result (Progress codec) StoreError
  unfolding validate_loop
  validate_existing bytes =
      let positions = positions_from 0 bytes in
      validate_loop bytes (has_trailing (length bytes) (not (is_nil bytes)) positions)
        (length positions) 0 positions (at_start codec)

  -- An open store: what it appends to, and the end of the chain.
  pub record HashChainStore : Type 0 where
    pub file : Bytes
    pub sequence : ℕ
    pub previous_hash : Bytes

  pub record Recovery : Type 0 where
    pub store : HashChainStore
    pub next_sequence : ℕ
    pub previous_hash : Bytes
    pub quarantined : Option Bytes
    pub records : List (ChainRecord Value)

  -- What `create_or_recover` returns once the file is validated: the invalid tail is moved to the
  -- quarantine file and cut off.
  unfoldable pub recover_at : Bytes → Progress codec → Recovery
  recover_at bytes v = record {
    store = record {
      file = if ltb v.valid_len (length bytes) then take v.valid_len bytes else bytes;
      sequence = v.sequence;
      previous_hash = v.previous_hash;
    };
    next_sequence = saturating_add v.sequence 1;
    previous_hash = v.previous_hash;
    quarantined = if ltb v.valid_len (length bytes) then some (drop v.valid_len bytes) else none;
    records = v.records;
  }

  -- `create_or_recover` on the bytes that were found, none if there was no file.
  unfoldable pub create_or_recover : Bytes → Result Recovery StoreError
  create_or_recover bytes = do v ← validate_existing bytes; ok (recover_at bytes v)

  unfoldable pub append_json :
      ℕ → Bytes → HashChainStore → Result (HashChainStore × ChainRecord Value) StoreError
  append_json schema payload s = do
    value ← map_err invalid_payload (value_from_str payload)
    canonical ← map_err invalid_payload (value_to_string value)
    let sequence = saturating_add s.sequence 1
    let hash = calculate_hash codec schema sequence s.previous_hash canonical
    let r : ChainRecord Value = record {
      schema_version = schema;
      sequence = sequence;
      previous_hash = s.previous_hash;
      record_hash = hash;
      payload = value;
    }
    line ← map_err invalid_payload (record_to_string r)
    ok (
      record { file = s.file ++ (line ++ newline ∷ []); sequence = sequence; previous_hash = hash },
      r,
    )
