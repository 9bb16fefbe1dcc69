-- ===== src/Daemon/RestartExamples.antt =====
-- A restart on what the small run has left, and one that a shared cgroup prevents.
use apolysis.Common.{
  ℕ, ◌≡◌, ◌⊎◌, err, refl, true, false, none, some, List, [], ◌∷◌, ok, arith, is_ok, sort,
  insert_sorted,
}
use apolysis.Common.Ordered.{bytes_ord, number_ord}
use apolysis.Common.Text.{Text, text, trim, byte_len}
use apolysis.Common.TreeMap
use apolysis.Common.TreeMap.{TreeMap, remove_all}
use apolysis.Intent.{
  SessionIntent, validate_intent, validate_tenant_id, validate_session_id, is_id_char,
}
use apolysis.Queue.{ordinary}
use apolysis.Registry
use apolysis.Registry.Retention.{session_for_cgroup}
use apolysis.Daemon.{
  DaemonState, CallOutcome, done, timeline, failed, persist, persist_inner, open_store, append_json,
  call, serialised,
}
use apolysis.Daemon.Scope.{untrack_closed, untrack_each, apply, apply_if_scoped, apply_all_ignoring}
use apolysis.Daemon.Sessions.{
  record_discovery, load_redaction_policy, register, renew, close, close_untracked, discover_cgroup,
}
use apolysis.Daemon.Evidence.{persist_record, mark_session_degraded}
use apolysis.Daemon.Replay.{
  RecoveredSession, replay_active_session, replay_from, replay_one, kind_of, still_active,
}
use apolysis.Daemon.Restart.{
  DaemonConfig, Entry, call_failed, new_with_scope, start_all, start_session, restore,
  restore_cgroups, start_call, start_sessions, start_entry, recover_session, restore_session,
}
use apolysis.Daemon.Reached.{registers, closes, discovers, observes, serve, live_intent}
use apolysis.Daemon.Restoring.{seen}
use apolysis.Daemon.Attempts.{all_done}
use apolysis.Daemon.Restarted.{Plan, names, told, owner, new_with_scope_restores}
use apolysis.Daemon.Resumed.{in_force, restart_resumes}
use apolysis.Daemon.Examples.{
  sample, sample_documented, intent, renewed, renewed_run, renewed-Reached,
}

abbrev config : DaemonConfig
config = record {
  sessions_dir = text "sessions";
  max_sessions = 2;
  max_pending = 2;
  queue_capacity = 8;
  writes_feedback = false;
}

abbrev resumed : RecoveredSession
resumed = record { intent = record intent { expires_at_unix_ms = 200 }; cgroup_ids = 7 ∷ [] }

abbrev plan : Plan
plan = (text "a", some resumed) ∷ []

abbrev directory : Text → DaemonState sample → Entry sample.Value
directory session d = record {
  file_name = session;
  is_dir = true;
  timeline = some (record { records = timeline sample session d; quarantine = none });
}

-- A stray file lies beside the session's directory.
abbrev left_behind : List (Entry sample.Value)
left_behind =
    record { file_name = text "x"; is_dir = false; timeline = none }
    ∷ directory (text "a") renewed
    ∷ []

renewed_replays :
    replay_active_session sample (timeline sample (text "a") renewed) 150 ≡ ok (some resumed)
unfolding serve register renew discover_cgroup Registry.register Registry.renew
    Registry.discover_cgroup Registry.new persist persist_inner open_store append_json call
    serialised record_discovery apply_if_scoped apply load_redaction_policy TreeMap.get
    session_for_cgroup validate_intent validate_tenant_id trim byte_len is_id_char
    validate_session_id Registry.adopt_pending TreeMap.insert Registry.associate_cgroup
    Registry.new_state Registry.attach_known_cgroup Registry.ensure_cgroup_available TreeMap.modify
    replay_active_session replay_from replay_one kind_of still_active sort insert_sorted
renewed_replays = refl

resumed_valid : validate_intent resumed.intent 150 ≡ ok tt
unfolding validate_intent validate_tenant_id trim byte_len is_id_char validate_session_id
resumed_valid = refl

-- The scan of the directory succeeds, and then a call fails or none does.
abbrev answers : List CallOutcome
answers = done ∷ done ∷ done ∷ []

new_with_scope_restores_example :
    ((d : DaemonState sample) × (new_with_scope sample config none 150 left_behind answers ≡ ok d)
      × ((j : Text) → seen (TreeMap.get j d.registry.sessions) ≡ told plan j)
      × ((c : ℕ) → TreeMap.get c d.registry.cgroup_index ≡ owner plan c))
    ⊎ (((why : Text) × (new_with_scope sample config none 150 left_behind answers
            ≡ err (call_failed why)))
        × (all_done answers ≡ false))
new_with_scope_restores_example =
    new_with_scope_restores sample config none 150 left_behind plan answers
      (refl, renewed_replays, tt) ((λ path e. cc), tt)
      (refl, (refl, resumed_valid), (λ c h. refl), tt) (omega arith)

restart_resumes_example :
    ((e : DaemonState sample) × (new_with_scope sample config none 150 left_behind [] ≡ ok e)
      × ((j : Text)
          → names plan j ≡ true
          → seen (TreeMap.get j e.registry.sessions)
            ≡ in_force (live_intent 150 (TreeMap.get j renewed.registry.sessions))))
    ⊎ (((why : Text) × (new_with_scope sample config none 150 left_behind []
            ≡ err (call_failed why)))
        × (all_done [] ≡ false))
restart_resumes_example =
    restart_resumes sample sample_documented renewed config none 150 left_behind plan []
      renewed-Reached renewed_run.0 (refl, tt) (refl, renewed_replays, tt) ((λ path e. cc), tt)
      (refl, (refl, resumed_valid), (λ c h. refl), tt) (omega arith)

-- A directory that cannot be scanned stops the start.
unscanned_prevents_start :
    new_with_scope sample config none 150 left_behind (done ∷ done ∷ failed (text "EIO") ∷ [])
    ≡ err (call_failed (text "EIO"))
unfolding new_with_scope start_sessions start_call Registry.new
unscanned_prevents_start = refl

-- A session loses its cgroup when a write of its evidence fails; another session takes it over.
abbrev second : SessionIntent
second = record intent { session_id = text "b" }

abbrev lost : DaemonState sample
lost =
    serve sample
      (observes (record { session_id = text "a"; priority = ordinary; payload = sample.null }))
      (record renewed { outcomes = failed (text "disk full") ∷ [] })

abbrev taken_over : DaemonState sample
taken_over = serve sample (discovers (text "b") 7) (serve sample (registers second 30) lost)

abbrev both_behind : List (Entry sample.Value)
both_behind = directory (text "a") taken_over ∷ directory (text "b") taken_over ∷ []

-- Both timelines list the cgroup now, and the daemon does not start on them.
shared_cgroup_prevents_start : is_ok (new_with_scope sample config none 50 both_behind []) ≡ false
unfolding serve register renew discover_cgroup Registry.register Registry.renew
    Registry.discover_cgroup Registry.new persist persist_inner open_store append_json call
    serialised record_discovery apply_if_scoped apply load_redaction_policy TreeMap.get
    session_for_cgroup validate_intent validate_tenant_id trim byte_len is_id_char
    validate_session_id Registry.adopt_pending TreeMap.insert Registry.associate_cgroup
    Registry.new_state Registry.attach_known_cgroup Registry.ensure_cgroup_available TreeMap.modify
    replay_active_session replay_from replay_one kind_of still_active sort insert_sorted
    persist_record mark_session_degraded Registry.degrade Registry.deactivated Registry.deactivate
    remove_all TreeMap.remove apply_all_ignoring new_with_scope start_sessions start_call start_all
    start_entry start_session recover_session restore_session restore restore_cgroups
shared_cgroup_prevents_start = refl

-- A late record about a closed session fails; the session can be renewed then, and is lost at the
-- next start.
abbrev late : DaemonState sample
late =
    serve sample
      (observes (record { session_id = text "a"; priority = ordinary; payload = sample.null }))
      (record (serve sample (closes (text "a")) renewed) {
        outcomes = failed (text "disk full") ∷ [];
      })

closed_session_renewed :
    let x = renew sample (text "a") 300 60 late in
    (is_ok x.1 ≡ true)
    × (replay_active_session sample (timeline sample (text "a") x.0) 70 ≡ ok none)
unfolding serve close close_untracked untrack_closed untrack_each Registry.close register renew
    discover_cgroup Registry.register Registry.renew Registry.discover_cgroup Registry.new persist
    persist_inner open_store append_json call serialised record_discovery apply_if_scoped apply
    load_redaction_policy TreeMap.get session_for_cgroup validate_intent validate_tenant_id trim
    byte_len is_id_char validate_session_id Registry.adopt_pending TreeMap.insert
    Registry.associate_cgroup Registry.new_state Registry.attach_known_cgroup
    Registry.ensure_cgroup_available TreeMap.modify replay_active_session replay_from replay_one
    kind_of still_active sort insert_sorted persist_record mark_session_degraded Registry.degrade
    Registry.deactivated Registry.deactivate remove_all TreeMap.remove apply_all_ignoring
    new_with_scope start_all start_session restore restore_cgroups
closed_session_renewed = (refl, refl)
