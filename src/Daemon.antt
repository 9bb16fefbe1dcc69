-- ===== src/Daemon.antt =====
-- crates/apolysis-daemon/src/state.rs: the daemon's state and the writes to the sessions' timelines.
-- A method on `&self` takes the state last and returns the new one beside its result; the locks only
-- serialise the methods. What the operating system and the observer's worker answer is the list
-- `outcomes`, one entry for each call, and every call succeeds once the list is empty. A timeline is
-- the payloads of its whole records, which is what HashChain reads back from the bytes it wrote.
pub mod Scope
pub mod Sessions
pub mod Queries
pub mod Evidence
pub mod Replay
pub mod Restart
pub mod Writes
pub mod Records
pub mod Recorded
pub mod Durable
pub mod Handlers
pub mod Observing
pub mod Forgetting
pub mod Ingesting
pub mod Reached
pub mod Restoring
pub mod Attempts
pub mod Restarted
pub mod Resumed
pub mod FailStop
pub mod Examples
mod RestartExamples
use apolysis.Common.{
  ℕ, ◌≡◌, ◌<◌, u64_mod, Bool, true, false, not, Option, none, some, List, [], ◌∷◌, ◌++◌,
  if◌then◌else◌, Result, ok, err, ◌>>=◌, unwrap_or, map_err,
}
use apolysis.Common.Ordered.{bytes_ord, number_ord}
use apolysis.Common.Text.{Text, text}
use apolysis.Common.TreeMap
use apolysis.Common.TreeMap.{TreeMap, contains_key}
use apolysis.Intent.{SessionIntent}
use apolysis.Finding.{AccountabilityFinding}
use apolysis.Health
use apolysis.Health.{HealthSnapshot}
use apolysis.Policy.{Policy}
use apolysis.Pipeline.{
  DaemonRecord, EventPipeline, RecordWriteOutcome, written, failed as write_failed,
}
use apolysis.Registry
use apolysis.Registry.{SessionRegistry, SessionState, RegistryError}

-- serde_json at the types of the daemon's records, and the reader of policy files.
pub record Services : Type 1 where
  pub Value : Type 0
  pub null : Value
  pub string : Text → Value
  pub number : ℕ → Value
  pub object : TreeMap Text Value → Value
  pub get : Text → Value → Option Value
  pub as_str : Value → Option Text
  pub as_u64 : Value → Option ℕ
  pub as_object : Value → Option (TreeMap Text Value)
  pub Serialised : Type 0
  pub to_string : Value → Result Serialised Text
  pub from_str : Serialised → Result Value Text
  pub intent_to_value : SessionIntent → Value
  pub intent_from_value : Value → Result SessionIntent Text
  pub finding_to_value : AccountabilityFinding → Result Value Text
  pub read_to_string : Text → Option Text
  pub parse_policy : Text → Option Policy

-- What serde_json documents: an object gives back its fields, a string and a 64-bit number are read
-- as themselves, and what is serialised is read back.
pub record Documented (s : Services) : Type 0 where
  pub get_object : (k : Text) (m : TreeMap Text s.Value) → s.get k (s.object m) ≡ TreeMap.get k m
  pub as_str_string : (t : Text) → s.as_str (s.string t) ≡ some t
  pub as_u64_number : (n : ℕ) → n < u64_mod → s.as_u64 (s.number n) ≡ some n
  pub from_to_string : (v : s.Value) (t : s.Serialised) → s.to_string v ≡ ok t → s.from_str t ≡ ok v
  pub intent_from_to : (i : SessionIntent) → s.intent_from_value (s.intent_to_value i) ≡ ok i

pub data DaemonError : Type 0 where
  refused : RegistryError → DaemonError
  storage_unavailable not_an_object : DaemonError
  io_failed unserialisable scope_failed : Text → DaemonError
  rollback_failed : DaemonError → DaemonError → DaemonError

-- The answer of one call to the file system or to the observer's worker.
pub data CallOutcome : Type 0 where
  done : CallOutcome
  failed : Text → CallOutcome

-- A session's `timeline.jsonl`, and the quarantine file for the invalid tail, if one follows its
-- records.
pub record Timeline (Value : Type 0) : Type 0 where
  pub records : List Value
  pub quarantine : Option Text

abbrev pub empty_timeline : {Value : Type 0} → Timeline Value
empty_timeline = record { records = []; quarantine = none }

module _ (services : Services) where
  open services use {Value, to_string, from_str, read_to_string, parse_policy}

  pub record DaemonState : Type 0 where
    pub registry : SessionRegistry
    pub health : HealthSnapshot
    pub stores : TreeMap Text (Unit {0})
    pub paused_sessions : TreeMap Text DaemonError
    pub disk : TreeMap Text (Timeline Value)
    pub storage_writable : Bool
    pub scope : Option (TreeMap ℕ (Unit {0}))
    pub pipeline : EventPipeline Value
    pub redaction_policies : TreeMap Text (Option Policy)
    pub feedback : Option (Option AccountabilityFinding)
    pub outcomes : List CallOutcome

  abbrev pub Answer : Type 0 → Type 0
  Answer A = DaemonState × Result A DaemonError

  -- The next answer from outside.
  unfoldable pub call : (Text → DaemonError) → DaemonState → Answer (Unit {0})
  call why d = elim d.outcomes [
    | [] ↦ (d, ok tt)
    | done ∷ later ↦ (record d { outcomes = later }, ok tt)
    | failed text ∷ later ↦ (record d { outcomes = later }, err (why text))
  ]

  abbrev pub timeline_of : Text → TreeMap Text (Timeline Value) → List Value
  timeline_of session disk = (unwrap_or (TreeMap.get session disk) empty_timeline).records

  -- The records of a session on disk.
  abbrev pub timeline : Text → DaemonState → List Value
  timeline session d = timeline_of session d.disk

  -- `HashChainStore::create_or_recover` for a session whose store is not open yet.
  unfoldable pub open_store : Text → DaemonState → Answer (Unit {0})
  open_store session d =
      if contains_key session d.stores
      then (d, ok tt)
      else let (next, result) = call io_failed d in
        elim result [
          | err e ↦ (next, err e)
          | ok _ ↦ (
            record next {
              stores = TreeMap.insert session tt next.stores;
              disk =
                  TreeMap.insert session
                    (record { records = timeline session next; quarantine = none }) next.disk;
            },
            ok tt,
          )
        ]

  abbrev pub append : Text → Value → DaemonState → DaemonState
  append session payload d = record d {
    disk =
        TreeMap.insert session
          (record { records = timeline session d ++ payload ∷ []; quarantine = none }) d.disk;
  }

  -- `append_json(1, &payload)` and `flush()`: a failed flush leaves the record in the file.
  unfoldable pub append_json : Text → Value → DaemonState → Answer (Unit {0})
  append_json session payload d =
      let (next, result) = call io_failed d in
      elim result [ err e ↦ (next, err e) | ok _ ↦ call io_failed (append session payload next) ]

  -- What the text of a payload reads back as.
  unfoldable pub serialised : Value → Result Value DaemonError
  serialised payload = map_err unserialisable (to_string payload >>= from_str)

  unfoldable pub persist_inner : Text → Value → DaemonState → Answer (Unit {0})
  persist_inner session payload d =
      let (next, opened) = open_store session d in
      elim opened [
        | err e ↦ (next, err e)
        | ok _ ↦ elim (serialised payload) [
          | err e ↦ (next, err e)
          | ok value ↦ append_json session value next
        ]
      ]

  abbrev pub storage_failed : DaemonState → DaemonState
  storage_failed d = record d {
    storage_writable = false;
    health = Health.set_storage Health.unavailable d.health;
  }

  unfoldable pub persist : Text → Value → DaemonState → Answer (Unit {0})
  persist session payload d =
      if not d.storage_writable
      then (d, err storage_unavailable)
      else let (next, result) = persist_inner session payload d in
        elim result [ ok _ ↦ (next, ok tt) | err e ↦ (storage_failed next, err e) ]
