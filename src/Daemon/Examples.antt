-- ===== src/Daemon/Examples.antt =====
-- A run of the daemon's state on a JSON of its own, and the theorems applied to it.
use apolysis.Common.{
  ℕ, ◌≡◌, refl, Bool, true, Option, none, some, [], ◌∷◌, Result, ok, err, arith, unwrap_or,
  if◌then◌else◌, contains,
}
use apolysis.Common.Ordered.{bytes_ord, number_ord}
use apolysis.Common.Text.{Text, text, trim, byte_len}
use apolysis.Common.TreeMap
use apolysis.Common.TreeMap.{TreeMap, map_option, contains_key}
use apolysis.Intent.{
  SessionIntent, standard, validate_intent, validate_tenant_id, validate_session_id, is_id_char,
}
use apolysis.Health
use apolysis.Queue.{new_stats}
use apolysis.Pipeline
use apolysis.Registry
use apolysis.Registry.Retention.{session_for_cgroup}
use apolysis.Daemon.{
  Services, Documented, DaemonState, failed, timeline, persist, persist_inner, open_store,
  append_json, call, serialised,
}
use apolysis.Daemon.Scope.{apply, apply_if_scoped}
use apolysis.Daemon.Sessions.{
  record_discovery, load_redaction_policy, register, renew, close, discover_cgroup,
}
use apolysis.Daemon.Replay.{RecoveredSession, replay_active_session}
use apolysis.Daemon.Reached.{
  registers, renews, discovers, serve, Reached, started, served, live_intent, timelines_tell,
}
use apolysis.Daemon.FailStop.{Answered, session_methods-Answered}

pub data Json : Type 0 where
  nothing : Json
  words : Text → Json
  figure : ℕ → Json
  whole : SessionIntent → Json
  object : (Text → Bool) → (Text → Json) → Json

abbrev fields_of : TreeMap Text Json → Json
fields_of m = object (λ k. contains_key k m) (λ k. unwrap_or (TreeMap.get k m) nothing)

abbrev get : Text → Json → Option Json
get k (object has at) = if has k then some (at k) else none
get k _ = none

abbrev as_words : Json → Option Text
as_words (words t) = some t
as_words _ = none

abbrev as_figure : Json → Option ℕ
as_figure (figure n) = some n
as_figure _ = none

abbrev read_intent : Json → Result SessionIntent Text
read_intent (whole i) = ok i
read_intent _ = err (text "no intent")

abbrev pub sample : Services
sample = record {
  Value = Json;
  null = nothing;
  string = words;
  number = figure;
  object = fields_of;
  get = get;
  as_str = as_words;
  as_u64 = as_figure;
  as_object = λ v. some [];
  Serialised = Json;
  to_string = λ v. ok v;
  from_str = λ v. ok v;
  intent_to_value = whole;
  intent_from_value = read_intent;
  finding_to_value = λ f. ok nothing;
  read_to_string = λ path. none;
  parse_policy = λ input. none;
}

get_fields_of : (k : Text) (m : TreeMap Text Json) → get k (fields_of m) ≡ TreeMap.get k m
get_fields_of k m = ground arith

pub sample_documented : Documented sample
sample_documented = record {
  get_object = get_fields_of;
  as_str_string = λ t. refl;
  as_u64_number = λ n h. refl;
  from_to_string = λ v t h. ground (arith, h);
  intent_from_to = λ i. refl;
}

abbrev pub intent : SessionIntent
intent = record {
  schema_version = 1;
  tenant_id = text "default";
  retention_tier = standard;
  session_id = text "a";
  expires_at_unix_ms = 100;
  declared_actions = [];
  allowed_resources = [];
  policy_ref = text "policy";
  workload_selectors = [];
}

abbrev pub empty : DaemonState sample
empty = record {
  registry = Registry.new 4 4;
  health = Health.new (new_stats 8);
  stores = [];
  paused_sessions = [];
  disk = [];
  storage_writable = true;
  scope = some [];
  pipeline = Pipeline.new 8;
  redaction_policies = [];
  feedback = none;
  outcomes = [];
}

abbrev pub registered : DaemonState sample
registered = serve sample (registers intent 10) empty

abbrev pub found : DaemonState sample
found = serve sample (discovers (text "a") 7) registered

abbrev pub renewed : DaemonState sample
renewed = serve sample (renews (text "a") 200 20) found

-- The storage still takes writes, and the registry has the new expiry.
pub renewed_run :
    (renewed.storage_writable ≡ true)
    × (map_option
          (λ s. s.intent.expires_at_unix_ms)
          (TreeMap.get (text "a") renewed.registry.sessions)
        ≡ some 200)
unfolding serve register renew discover_cgroup Registry.register Registry.renew
    Registry.discover_cgroup Registry.new persist persist_inner open_store append_json call
    serialised record_discovery apply_if_scoped apply load_redaction_policy TreeMap.get
    session_for_cgroup validate_intent validate_tenant_id trim byte_len is_id_char
    validate_session_id Registry.adopt_pending TreeMap.insert Registry.associate_cgroup
    Registry.new_state Registry.attach_known_cgroup Registry.ensure_cgroup_available TreeMap.modify
renewed_run = (refl, refl)

pub renewed-Reached : Reached sample renewed
renewed-Reached = served (renews (text "a") 200 20) found (omega arith) (
    served (discovers (text "a") 7) registered (omega arith)
      (served (registers intent 10) empty tt (started 4 4 empty refl refl)))

-- A session that was registered, found in a cgroup and renewed.
timelines_tell_example :
    (x : Option RecoveredSession) × (replay_active_session sample
        (timeline sample (text "a") renewed)
        150
      ≡ ok x)
    × (map_option (λ s. s.intent) x
        ≡ live_intent 150 (TreeMap.get (text "a") renewed.registry.sessions))
    × ((s : RecoveredSession) (c : ℕ)
        → x ≡ some s
        → TreeMap.get c renewed.registry.cgroup_index ≡ some (text "a")
        → contains s.cgroup_ids c ≡ true)
timelines_tell_example =
    timelines_tell sample sample_documented renewed (text "a") 150 renewed-Reached renewed_run.0

-- The write of the next request fails.
abbrev failing : DaemonState sample
failing = record renewed { outcomes = failed (text "disk full") ∷ [] }

session_methods-Answered_example :
    ((i : SessionIntent) (now : ℕ) → Answered sample failing (register sample i now failing))
    × ((k : Text) (expires now : ℕ) → Answered sample failing (renew sample k expires now failing))
    × ((k : Text) → Answered sample failing (close sample k failing))
    × ((k : Text) (c : ℕ) → Answered sample failing (discover_cgroup sample k c failing))
session_methods-Answered_example = session_methods-Answered sample sample_documented failing
