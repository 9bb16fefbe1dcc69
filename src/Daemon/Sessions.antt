-- ===== src/Daemon/Sessions.antt =====
-- crates/apolysis-daemon/src/state.rs: the methods that change sessions. Each works on a copy of the
-- registry, writes its record to the timeline, and only then puts the copy in place.
use apolysis.Common.{
  ℕ, Bool, true, false, Option, none, some, List, [], ◌∷◌, ok, err, is_some, if◌then◌else◌,
}
use apolysis.Common.Ordered.{bytes_ord, same}
use apolysis.Common.Text.{Text, text, is_nil}
use apolysis.Common.TreeMap
use apolysis.Common.TreeMap.{TreeMap, remove_all}
use apolysis.Intent.{SessionIntent}
use apolysis.Registry
use apolysis.Registry.{
  SessionRegistry, RegisterOutcome, AssociationOutcome, attached, missing_intent,
}
use apolysis.Registry.Retention.{
  RetentionPurgeReport, session_for_cgroup, get, retention_purge_report_for_tenant,
  apply_retention_for_tenant,
}
use apolysis.Policy.{Policy}
use apolysis.Daemon.{Services, DaemonState, Answer, refused, io_failed, call, persist}
use apolysis.Daemon.Scope.{track, untrack, untrack_closed, apply_if_scoped, roll_back_if_scoped}

module _ (services : Services) where
  open services use {Value, object, string, number, intent_to_value, read_to_string, parse_policy}

  -- The records that are written, as `json!` builds them.
  abbrev pub fields : List (Text × Value) → TreeMap Text Value
  fields [] = []
  fields ((k, v) ∷ more) = TreeMap.insert k v (fields more)

  abbrev pub intent_registered : SessionIntent → Value
  intent_registered intent = object (
      fields (
        (text "record_type", string (text "intent_registered"))
        ∷ (text "intent", intent_to_value intent)
        ∷ []))

  abbrev pub intent_renewed : Text → ℕ → Value
  intent_renewed session expires = object (
      fields (
        (text "record_type", string (text "intent_renewed"))
        ∷ (text "session_id", string session)
        ∷ (text "expires_at_unix_ms", number expires)
        ∷ []))

  abbrev pub session_closed : Text → Value
  session_closed session = object (
      fields (
        (text "record_type", string (text "session_closed"))
        ∷ (text "session_id", string session)
        ∷ []))

  abbrev pub outcome_name : AssociationOutcome → Text
  outcome_name attached = text "attached"
  outcome_name missing_intent = text "missing_intent"

  abbrev pub cgroup_discovered : Text → ℕ → AssociationOutcome → Value
  cgroup_discovered session cgroup outcome = object (
      fields (
        (text "record_type", string (text "cgroup_discovered"))
        ∷ (text "session_id", string session)
        ∷ (text "cgroup_id", number cgroup)
        ∷ (text "outcome", string (outcome_name outcome))
        ∷ []))

  -- A policy file that cannot be read or parsed gives none.
  unfoldable pub load_redaction_policy : Text → Option Policy
  load_redaction_policy path = elim (read_to_string path) [
    | none ↦ none
    | some input ↦ parse_policy input
  ]

  unfoldable pub register :
      SessionIntent → ℕ → DaemonState services → Answer services RegisterOutcome
  register intent now d =
      let (candidate, result) = Registry.register intent now d.registry in
      elim result [
        | err e ↦ (d, err (refused e))
        | ok outcome ↦
            let (next, persisted) =
              persist services intent.session_id (intent_registered intent) d in
            elim persisted [
              | err e ↦ (next, err e)
              | ok _ ↦ (
                record next {
                  registry = candidate;
                  redaction_policies =
                      TreeMap.insert intent.session_id (load_redaction_policy intent.policy_ref)
                        next.redaction_policies;
                },
                ok outcome,
              )
            ]
      ]

  unfoldable pub renew : Text → ℕ → ℕ → DaemonState services → Answer services (Unit {0})
  renew session expires now d =
      let (candidate, result) = Registry.renew session expires now d.registry in
      elim result [
        | err e ↦ (d, err (refused e))
        | ok _ ↦
            let (next, persisted) = persist services session (intent_renewed session expires) d in
            elim persisted [
              | err e ↦ (next, err e)
              | ok _ ↦ (record next { registry = candidate }, ok tt)
            ]
      ]

  -- The second half of `close`: the record, and what a failed write undoes.
  unfoldable pub close_untracked :
      Text → SessionRegistry → List ℕ → DaemonState services → Answer services (Unit {0})
  close_untracked session candidate removed d =
      let (next, persisted) = persist services session (session_closed session) d in
      elim persisted [
        | err e ↦ roll_back_if_scoped services track removed e next
        | ok _ ↦ (record next { registry = candidate }, ok tt)
      ]

  unfoldable pub close : Text → DaemonState services → Answer services (Unit {0})
  close session d =
      let (candidate, result) = Registry.close session d.registry in
      elim result [
        | err e ↦ (d, err (refused e))
        | ok closed ↦
            let (next, untracked) = untrack_closed services closed.cgroup_ids d in
            elim untracked [
              | err e ↦ (next, err e)
              | ok removed ↦ close_untracked session candidate removed next
            ]
      ]

  -- The second half of `discover_cgroup`.
  unfoldable pub record_discovery :
      Text
      → ℕ
      → SessionRegistry
      → AssociationOutcome
      → DaemonState services
      → Answer services AssociationOutcome
  record_discovery session cgroup candidate outcome d =
      let (next, persisted) =
        persist services session (cgroup_discovered session cgroup outcome) d in
      elim persisted [
        | ok _ ↦ (record next { registry = candidate }, ok outcome)
        | err e ↦
            let (undone, result) = roll_back_if_scoped services untrack (cgroup ∷ []) e next in
            elim result [ ok _ ↦ (undone, err e) | err f ↦ (undone, err f) ]
      ]

  abbrev pub is_held_by : Option Text → Text → Bool
  is_held_by none session = false
  is_held_by (some owner) session = same owner session

  unfoldable pub discover_cgroup :
      Text → ℕ → DaemonState services → Answer services AssociationOutcome
  discover_cgroup session cgroup d =
      if is_held_by (session_for_cgroup cgroup d.registry) session
      then (d, ok (if is_some (get session d.registry) then attached else missing_intent))
      else let (candidate, result) = Registry.discover_cgroup session cgroup d.registry in
        elim result [
          | err e ↦ (d, err (refused e))
          | ok outcome ↦
              let (next, tracked) = apply_if_scoped services track cgroup d in
              elim tracked [
                | err e ↦ (next, err e)
                | ok _ ↦ record_discovery session cgroup candidate outcome next
              ]
        ]

  -- `remove_dir_all` of each session's directory; the first that fails ends the loop.
  unfoldable pub remove_directories : List Text → DaemonState services → Answer services (Unit {0})
  remove_directories [] d = (d, ok tt)
  remove_directories (k ∷ ks) d =
      let (next, result) = call services io_failed d in
      let later = remove_directories ks (record next { disk = TreeMap.remove k next.disk }) in
      elim result [ ok _ ↦ later | err e ↦ (next, err e) ]

  unfoldable pub forget_sessions : List Text → DaemonState services → Answer services (Unit {0})
  forget_sessions purged d =
      let (next, result) =
        remove_directories purged (record d { stores = remove_all purged d.stores }) in
      elim result [
        | err e ↦ (next, err e)
        | ok _ ↦ (
          record next {
            redaction_policies = remove_all purged next.redaction_policies;
            paused_sessions = remove_all purged next.paused_sessions;
          },
          ok tt,
        )
      ]

  unfoldable pub apply_retention :
      Text → ℕ → Bool → DaemonState services → Answer services RetentionPurgeReport
  apply_retention tenant now dry_run d =
      let (candidate, report) = apply_retention_for_tenant tenant now d.registry in
      let (next, forgotten) = forget_sessions report.purged_session_ids d in
      if dry_run
      then (d, ok (retention_purge_report_for_tenant tenant now true d.registry))
      else if is_nil report.purged_session_ids
      then (record d { registry = candidate }, ok report)
      else elim forgotten [
        | err e ↦ (next, err e)
        | ok _ ↦ (record next { registry = candidate }, ok report)
      ]
