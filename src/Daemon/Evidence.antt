-- ===== src/Daemon/Evidence.antt =====
-- crates/apolysis-daemon/src/state.rs: the records of what was observed. A failed write of one
-- degrades its session and pauses its timeline; the records of a runtime's workload are written
-- like those of the sessions.
use apolysis.Common.{
  ℕ, not, Option, none, some, List, [], ◌∷◌, ◌++◌, Result, ok, err, if◌then◌else◌,
}
use apolysis.Common.Ordered.{bytes_ord}
use apolysis.Common.Text.{Text, text}
use apolysis.Common.TreeMap
use apolysis.Common.TreeMap.{contains_key, map_option}
use apolysis.Health
use apolysis.Health.{AdapterKind, docker, containerd, k3s_containerd, kubernetes}
use apolysis.Finding.{AccountabilityFinding, ObservedEffect, exec, host_boundary, evaluate}
use apolysis.Registry
use apolysis.Registry.{SessionState, AssociationOutcome, attached, missing_intent, RegistryError}
use apolysis.Registry.Retention.{get}
use apolysis.Pipeline.{DaemonRecord, RecordWriteOutcome, written, failed, Turn, Writer, run_turns}
use apolysis.Daemon.{
  Services, DaemonState, Answer, DaemonError, storage_unavailable, not_an_object, unserialisable,
  io_failed, call, persist, persist_inner,
}
use apolysis.Daemon.Scope.{untrack, apply_all_ignoring}
use apolysis.Daemon.Sessions.{fields, outcome_name, discover_cgroup}

pub record RuntimeWorkload : Type 0 where
  pub adapter : AdapterKind
  pub session_id : Text
  pub workload_id : Text
  pub cgroup_id : ℕ
  pub image : Option Text
  pub runtime_handler : Option Text

unfoldable pub adapter_name : AdapterKind → Text
adapter_name docker = text "docker"
adapter_name containerd = text "containerd"
adapter_name k3s_containerd = text "k3s_containerd"
adapter_name kubernetes = text "kubernetes"

unfoldable pub container_identity : RuntimeWorkload → Option Text
container_identity w = elim w.adapter [ kubernetes ↦ none | _ ↦ some w.workload_id ]

unfoldable pub missing_intent_effect : RuntimeWorkload → ObservedEffect
unfolding adapter_name container_identity
missing_intent_effect w = record {
  session_id = w.session_id;
  evidence_ref = text "runtime_workload:" ++ w.workload_id;
  kind = exec;
  actor = w.workload_id;
  resource = w.workload_id;
  runtime = record {
    runtime = adapter_name w.adapter;
    container_id = container_identity w;
    pod_uid = none;
    cgroup_id = some w.cgroup_id;
  };
  evidence_boundary = host_boundary;
}

abbrev cgroups_of : Result SessionState RegistryError → List ℕ
cgroups_of (ok s) = s.cgroup_ids
cgroups_of (err e) = []

module _ (services : Services) where
  open services use {Value, null, object, string, number, as_object, finding_to_value}

  -- The session's timeline is paused and the session degraded.
  abbrev pub paused : Text → DaemonError → DaemonState services → DaemonState services
  paused session why d = record d {
    paused_sessions = TreeMap.insert session why d.paused_sessions;
    registry = (Registry.degrade session d.registry).0;
  }

  -- `registry.degrade(..).map(|state| state.cgroup_ids).unwrap_or_default()`
  abbrev pub freed : Text → DaemonState services → List ℕ
  freed session d = cgroups_of (Registry.degrade session d.registry).1

  unfoldable pub mark_session_degraded :
      Text → DaemonError → DaemonState services → DaemonState services
  mark_session_degraded session why d =
      let untracked : DaemonState services = elim d.scope [
        | none ↦ paused session why d
        | some m ↦ apply_all_ignoring services untrack (freed session d) (paused session why d)
      ] in
      record untracked { health = Health.set_storage Health.degraded untracked.health }

  unfoldable pub persist_record :
      DaemonRecord Value → DaemonState services → Answer services RecordWriteOutcome
  persist_record r d =
      let (next, result) = persist_inner services r.session_id r.payload d in
      if not d.storage_writable
      then (d, err storage_unavailable)
      else if contains_key r.session_id d.paused_sessions
      then (d, ok failed)
      else elim result [
        | ok _ ↦ (next, ok written)
        | err e ↦ (mark_session_degraded r.session_id e next, ok failed)
      ]

  -- `DaemonState::run_writer`: the pipeline's loop with `persist_record` as its sink.
  abbrev pub run_writer :
      List (List (DaemonRecord Value))
      → Writer Value (DaemonState services)
      → Turn Value (DaemonState services) DaemonError
  run_writer = run_turns persist_record

  unfoldable pub finding_payload : AccountabilityFinding → Result Value DaemonError
  finding_payload f = elim (finding_to_value f) [
    | err e ↦ err (unserialisable e)
    | ok value ↦ elim (as_object value) [
      | none ↦ err not_an_object
      | some m ↦
          ok (
            object (TreeMap.insert (text "record_type") (string (text "accountability_finding")) m))
    ]
  ]

  -- `write_last_accountability_finding`, if there is a writer.
  unfoldable pub write_feedback :
      AccountabilityFinding → DaemonState services → Answer services (Unit {0})
  write_feedback f d = elim d.feedback [
    | none ↦ (d, ok tt)
    | some last ↦
        let (next, result) = call services io_failed d in
        elim result [
          | err e ↦ (next, err e)
          | ok _ ↦ (record next { feedback = some (some f) }, ok tt)
        ]
  ]

  unfoldable pub payloads_of :
      List AccountabilityFinding → DaemonState services → Answer services (List Value)
  payloads_of [] d = (d, ok [])
  payloads_of (f ∷ fs) d =
      let (next, fed) = write_feedback f d in
      let (final, rest) = payloads_of fs next in
      elim fed [
        | err e ↦ (next, err e)
        | ok _ ↦ elim (finding_payload f) [
          | err e ↦ (next, err e)
          | ok payload ↦ elim rest [
            | err e ↦ (final, err e)
            | ok more ↦ (final, ok (payload ∷ more))
          ]
        ]
      ]

  unfoldable pub accountability_finding_payloads :
      ObservedEffect → DaemonState services → Answer services (List Value)
  accountability_finding_payloads effect d =
      payloads_of (evaluate (map_option (λ s. s.intent) (get effect.session_id d.registry)) effect)
        d

  unfoldable pub persist_all : Text → List Value → DaemonState services → Answer services (Unit {0})
  persist_all session [] d = (d, ok tt)
  persist_all session (v ∷ vs) d =
      let (next, result) = persist services session v d in
      let later = persist_all session vs next in
      elim result [ ok _ ↦ later | err e ↦ (next, err e) ]

  unfoldable pub persist_missing_intent_finding :
      RuntimeWorkload → DaemonState services → Answer services (Unit {0})
  unfolding missing_intent_effect
  persist_missing_intent_finding w d =
      let (next, result) = accountability_finding_payloads (missing_intent_effect w) d in
      elim result [ err e ↦ (next, err e) | ok payloads ↦ persist_all w.session_id payloads next ]

  abbrev or_null : Option Text → Value
  or_null none = null
  or_null (some t) = string t

  abbrev pub workload_discovered : RuntimeWorkload → AssociationOutcome → Value
  workload_discovered w outcome = object (
      fields services (
        (text "record_type", string (text "runtime_workload_discovered"))
        ∷ (text "adapter", string (adapter_name w.adapter))
        ∷ (text "session_id", string w.session_id)
        ∷ (text "workload_id", string w.workload_id)
        ∷ (text "cgroup_id", number w.cgroup_id)
        ∷ (text "image", or_null w.image)
        ∷ (text "runtime_handler", or_null w.runtime_handler)
        ∷ (text "outcome", string (outcome_name services outcome))
        ∷ []))

  -- `if outcome == AssociationOutcome::MissingIntent`
  unfoldable pub report_if_missing :
      AssociationOutcome → RuntimeWorkload → DaemonState services → Answer services (Unit {0})
  report_if_missing attached w d = (d, ok tt)
  report_if_missing missing_intent w d = persist_missing_intent_finding w d

  unfoldable pub ingest_runtime_workload :
      RuntimeWorkload → DaemonState services → Answer services AssociationOutcome
  ingest_runtime_workload w d =
      let (next, discovered) = discover_cgroup services w.session_id w.cgroup_id d in
      elim discovered [
        | err e ↦ (next, err e)
        | ok outcome ↦
            let (stored, persisted) =
              persist services w.session_id (workload_discovered w outcome) next in
            elim persisted [
              | err e ↦ (stored, err e)
              | ok _ ↦
                  let (final, reported) = report_if_missing outcome w stored in
                  elim reported [
                    | err e ↦ (final, err e)
                    | ok _ ↦ (
                      record final {
                        health = Health.set_adapter w.adapter Health.ready final.health;
                      },
                      ok outcome,
                    )
                  ]
            ]
      ]
