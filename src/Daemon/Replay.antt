-- ===== src/Daemon/Replay.antt =====
-- crates/apolysis-daemon/src/state.rs: `replay_active_session`, which reads a session back from the
-- records of its timeline.
use apolysis.Common.{
  ℕ, Bool, true, false, not, ◌&&◌, Option, none, some, List, [], ◌∷◌, ◌++◌, ltb, contains, sort,
  Result, ok, ◌>>=◌, map_err, ok_or, if◌then◌else◌,
}
use apolysis.Common.Text.{Text, text, eqb}
use apolysis.Intent.{SessionIntent}
use apolysis.Registry.Transitions.{expiring}
use apolysis.Daemon.{Services}

pub record RecoveredSession : Type 0 where
  pub intent : SessionIntent
  pub cgroup_ids : List ℕ

-- The variables of the loop.
pub record Replayed : Type 0 where
  pub intent : Option SessionIntent
  pub cgroup_ids : List ℕ
  pub closed : Bool

abbrev pub nothing_replayed : Replayed
nothing_replayed = record { intent = none; cgroup_ids = []; closed = false }

-- The kinds of record that the replay reads; every other record is passed over.
pub data RecordKind : Type 0 where
  intent_registered intent_renewed cgroup_discovered session_closed other : RecordKind

unfoldable pub kind_of_name : Text → RecordKind
kind_of_name name =
    if eqb name (text "intent_registered")
    then intent_registered
    else if eqb name (text "intent_renewed")
    then intent_renewed
    else if eqb name (text "cgroup_discovered")
    then cgroup_discovered
    else if eqb name (text "session_closed")
    then session_closed
    else other

pub data ReplayError : Type 0 where
  missing_intent : ReplayError
  unreadable_intent : Text → ReplayError

-- `intent.filter(..)`, and the sorted cgroups beside it.
unfoldable pub still_active : ℕ → Replayed → Option RecoveredSession
still_active now p = elim p.intent [
  | none ↦ none
  | some intent ↦
      if not p.closed && ltb now intent.expires_at_unix_ms
      then some (record { intent = intent; cgroup_ids = sort p.cgroup_ids })
      else none
]

module _ (services : Services) where
  open services use {Value, get, as_str, as_u64, intent_from_value}

  -- `record.payload.get("record_type").and_then(Value::as_str)`
  unfoldable pub kind_of : Value → RecordKind
  unfolding kind_of_name
  kind_of payload = elim (get (text "record_type") payload) [
    | none ↦ other
    | some value ↦ elim (as_str value) [ none ↦ other | some name ↦ kind_of_name name ]
  ]

  abbrev number_at : Text → Value → Option ℕ
  number_at key payload = elim (get key payload) [ none ↦ none | some value ↦ as_u64 value ]

  abbrev reregistered : Replayed → SessionIntent → Replayed
  reregistered p intent = record {
    intent = some intent;
    cgroup_ids = if p.closed then [] else p.cgroup_ids;
    closed = false;
  }

  abbrev renewed : Option SessionIntent → Option ℕ → Option SessionIntent
  renewed (some intent) (some expires) = some (expiring expires intent)
  renewed intent expires = intent

  abbrev found : List ℕ → Option ℕ → List ℕ
  found cgroups none = cgroups
  found cgroups (some c) = if contains cgroups c then cgroups else cgroups ++ c ∷ []

  -- One turn of the loop, by the kind of the record.
  unfoldable pub replay_one : Value → Replayed → RecordKind → Result Replayed ReplayError
  replay_one payload p intent_registered = do
    value ← ok_or (get (text "intent") payload) missing_intent
    intent ← map_err unreadable_intent (intent_from_value value)
    ok (reregistered p intent)
  replay_one payload p intent_renewed =
      ok (record p { intent = renewed p.intent (number_at (text "expires_at_unix_ms") payload) })
  replay_one payload p cgroup_discovered =
      ok (record p { cgroup_ids = found p.cgroup_ids (number_at (text "cgroup_id") payload) })
  replay_one payload p session_closed = ok (record p { closed = true; cgroup_ids = [] })
  replay_one payload p other = ok p

  unfoldable pub replay_from : Replayed → List Value → Result Replayed ReplayError
  replay_from p [] = ok p
  replay_from p (v ∷ vs) = do next ← replay_one v p (kind_of v); replay_from next vs

  unfoldable pub replay_active_session :
      List Value → ℕ → Result (Option RecoveredSession) ReplayError
  replay_active_session records now = do
    p ← replay_from nothing_replayed records
    ok (still_active now p)
