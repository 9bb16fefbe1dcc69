-- ===== src/Daemon/Restart.antt =====
-- crates/apolysis-daemon/src/state.rs: `new_with_scope`, which starts the daemon on the timelines
-- that it finds. The directory is listed in any order; the argument is that list, of entries with
-- their kind and with the timeline that they hold. Each call to the operating system takes its
-- answer from the list of outcomes, the recovery of a timeline as one call; where the start fails
-- the state is given up, and what it has written by then is not modelled.
use apolysis.Common.{
  ℕ, Bool, true, false, Option, none, some, List, [], ◌∷◌, ◌++◌, Result, ok, err, ◌>>=◌, map_err,
  if◌then◌else◌, length,
}
use apolysis.Common.Ordered.{bytes_ord}
use apolysis.Common.Text.{Text, text}
use apolysis.Common.TreeMap
use apolysis.Common.TreeMap.{TreeMap}
use apolysis.Health
use apolysis.Health.{HealthSnapshot}
use apolysis.Policy.{Policy}
use apolysis.Pipeline
use apolysis.Queue.{new_stats}
use apolysis.Registry
use apolysis.Registry.{SessionRegistry, RegistryError}
use apolysis.Daemon.{
  Services, Timeline, DaemonState, DaemonError, CallOutcome, done, failed, serialised,
}
use apolysis.Daemon.Sessions.{fields, load_redaction_policy}
use apolysis.Daemon.Replay.{RecoveredSession, ReplayError, replay_active_session}

-- What stops the start: a call to the operating system, a finding that does not serialise, a timeline
-- that does not replay, an intent that the registry refuses, or a cgroup that it refuses.
pub data StartError : Type 0 where
  call_failed : Text → StartError
  finding_refused : DaemonError → StartError
  unreplayable : Text → ReplayError → StartError
  not_restored : Text → RegistryError → StartError
  cgroup_not_restored : Text → ℕ → RegistryError → StartError

-- `DaemonConfig`, the part that the state reads.
pub record DaemonConfig : Type 0 where
  pub sessions_dir : Text
  pub max_sessions : ℕ
  pub max_pending : ℕ
  pub queue_capacity : ℕ
  pub writes_feedback : Bool

-- An entry of the directory of sessions, and the timeline in it if there is one.
pub record Entry (Value : Type 0) : Type 0 where
  pub file_name : Text
  pub is_dir : Bool
  pub timeline : Option (Timeline Value)

abbrev pub found : {Value : Type 0} → Entry Value → Option (Timeline Value)
found entry = if entry.is_dir then entry.timeline else none

module _ (services : Services) where
  open services use {Value, object, string, number}

  -- The variables of the loop over the directories.
  pub record Starting : Type 0 where
    pub registry : SessionRegistry
    pub stores : TreeMap Text (Unit {0})
    pub redaction_policies : TreeMap Text (Option Policy)
    pub disk : TreeMap Text (Timeline Value)
    pub recovered_integrity_issue : Bool
    pub outcomes : List CallOutcome

  abbrev pub integrity_finding : Text → Text → Text → ℕ → Value
  integrity_finding session timeline quarantine valid = object (
      fields services (
        (text "record_type", string (text "integrity_finding"))
        ∷ (text "session_id", string session)
        ∷ (text "reason", string (text "hash_chain_tail_quarantined"))
        ∷ (text "timeline_path", string timeline)
        ∷ (text "quarantine_path", string quarantine)
        ∷ (text "valid_records", number valid)
        ∷ []))

  abbrev pub timeline_path : Text → Text → Text
  timeline_path sessions_dir session =
      sessions_dir ++ (text "/" ++ (session ++ text "/timeline.jsonl"))

  -- The next answer of the operating system.
  unfoldable pub start_call : Starting → Result Starting StartError
  start_call s = elim s.outcomes [
    | [] ↦ ok s
    | done ∷ later ↦ ok (record s { outcomes = later })
    | failed text ∷ later ↦ err (call_failed text)
  ]

  -- A finding about an invalid tail, which the recovery has cut off: it is serialised, appended and flushed.
  unfoldable pub append_integrity_finding :
      Text → Text → Timeline Value → Text → Starting → Result Starting StartError
  append_integrity_finding dir session t path s = do
    value ← map_err finding_refused (
        serialised services
          (integrity_finding session (timeline_path dir session) path (length t.records)))
    appended ← start_call s
    flushed ← start_call appended
    ok (record flushed {
      disk =
          TreeMap.insert session (record { records = t.records ++ value ∷ []; quarantine = none })
            flushed.disk;
      recovered_integrity_issue = true;
    })

  -- `create_or_recover`, and the finding if a tail was put into quarantine.
  unfoldable pub recover_session :
      Text → Text → Timeline Value → Starting → Result Starting StartError
  recover_session dir session t s = do
    recovered ← start_call s
    elim t.quarantine [
      | none ↦ ok (record recovered { disk = TreeMap.insert session t recovered.disk })
      | some path ↦ append_integrity_finding dir session t path recovered
    ]

  -- `for cgroup_id in recovered.cgroup_ids { registry.discover_cgroup(..)?; }`
  unfoldable pub restore_cgroups :
      Text → List ℕ → SessionRegistry → Result SessionRegistry StartError
  restore_cgroups session [] r = ok r
  restore_cgroups session (c ∷ cs) r =
      let (next, result) = Registry.discover_cgroup session c r in
      let later = restore_cgroups session cs next in
      elim result [ ok _ ↦ later | err e ↦ err (cgroup_not_restored session c e) ]

  unfoldable pub restore :
      Text → ℕ → RecoveredSession → SessionRegistry → Result SessionRegistry StartError
  restore session now recovered r =
      let (next, result) = Registry.register recovered.intent now r in
      let later = restore_cgroups session recovered.cgroup_ids next in
      elim result [ ok _ ↦ later | err e ↦ err (not_restored session e) ]

  -- The store of a session's timeline is kept.
  abbrev pub with_store : Text → Starting → Starting
  with_store session s = record s { stores = TreeMap.insert session tt s.stores }

  abbrev pub with_session : Text → RecoveredSession → SessionRegistry → Starting → Starting
  with_session session recovered registry s = record s {
    registry = registry;
    redaction_policies =
        TreeMap.insert session (load_redaction_policy services recovered.intent.policy_ref)
          s.redaction_policies;
  }

  -- A recovered session is restored, and its store kept.
  unfoldable pub restore_session :
      ℕ → Text → Option RecoveredSession → Starting → Result Starting StartError
  restore_session now session none s = ok (with_store session s)
  restore_session now session (some recovered) s = elim (restore session now recovered s.registry) [
    | err e ↦ err e
    | ok registry ↦ ok (with_store session (with_session session recovered registry s))
  ]

  -- The body of the loop for a directory with a timeline.
  unfoldable pub start_session :
      Text → ℕ → Text → Timeline Value → Starting → Result Starting StartError
  start_session dir now session t s = do
    recovered ← recover_session dir session t s
    elim (replay_active_session services t.records now) [
      | err e ↦ err (unreplayable session e)
      | ok found ↦ restore_session now session found recovered
    ]

  -- What is no directory or has no timeline is passed over.
  abbrev pub start_found :
      Text → ℕ → Text → Option (Timeline Value) → Starting → Result Starting StartError
  start_found dir now session none s = ok s
  start_found dir now session (some t) s = start_session dir now session t s

  -- The body of the loop: the entry and its type are asked for.
  unfoldable pub start_entry : Text → ℕ → Entry Value → Starting → Result Starting StartError
  start_entry dir now entry s = do
    inspected ← start_call s
    typed ← start_call inspected
    start_found dir now entry.file_name (found entry) typed

  unfoldable pub start_all : Text → ℕ → List (Entry Value) → Starting → Result Starting StartError
  start_all dir now [] s = ok s
  start_all dir now (entry ∷ more) s = do
    next ← start_entry dir now entry s
    start_all dir now more next

  -- Before the first directory.
  abbrev pub starting : DaemonConfig → List CallOutcome → Starting
  starting config outcomes = record {
    outcomes = outcomes;
    registry = Registry.new config.max_sessions config.max_pending;
    stores = [];
    redaction_policies = [];
    disk = [];
    recovered_integrity_issue = false;
  }

  abbrev pub started_with :
      DaemonConfig → Option (TreeMap ℕ (Unit {0})) → Starting → DaemonState services
  started_with config scope s = record {
    registry = s.registry;
    health = Health.set_ebpf Health.unavailable (
        Health.set_storage (if s.recovered_integrity_issue then Health.degraded else Health.ready)
          (Health.new (new_stats config.queue_capacity)));
    stores = s.stores;
    paused_sessions = [];
    disk = s.disk;
    storage_writable = true;
    scope = scope;
    pipeline = Pipeline.new config.queue_capacity;
    redaction_policies = s.redaction_policies;
    feedback = if config.writes_feedback then some none else none;
    outcomes = s.outcomes;
  }

  -- The directory is created, the clock is read and the directory is scanned before the loop.
  unfoldable pub start_sessions :
      DaemonConfig → ℕ → List (Entry Value) → Starting → Result Starting StartError
  start_sessions config now entries s = do
    created ← start_call s
    timed ← start_call created
    scanned ← start_call timed
    start_all config.sessions_dir now entries scanned

  unfoldable pub new_with_scope :
      DaemonConfig
      → Option (TreeMap ℕ (Unit {0}))
      → ℕ
      → List (Entry Value)
      → List CallOutcome
      → Result (DaemonState services) StartError
  new_with_scope config scope now entries outcomes = do
    s ← start_sessions config now entries (starting config outcomes)
    ok (started_with config scope s)
