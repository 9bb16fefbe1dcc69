-- ===== src/Registry.antt =====
-- crates/apolysis-accountability/src/session.rs: the registry of sessions, of the cgroups that they
-- own and of the cgroups found before their session. A method that takes `&mut self` returns the new
-- registry beside its result; on an early return it is the registry as it then stands.
pub mod Retention
pub mod Calls
pub mod Bounded
pub mod Capacity
pub mod Claims
pub mod Adoption
pub mod Ownership
pub mod Completion
pub mod Stale
pub mod Attaching
pub mod Effects
pub mod Transitions
pub mod Purging
pub mod Purged
mod Examples
use apolysis.Common.{
  ℕ, ◌+◌, ◌-◌, ◌≤◌, ◌≡◌, Bool, true, false, not, ◌&&◌, ◌||◌, Option, none, some, List, [], ◌∷◌,
  ◌++◌, ltb, leb, ◌==◌, if◌then◌else◌, Result, ok, err, ◌>>=◌, ◌>>◌, reject_if, map_err, ok_or, all,
  length, contains, sort, is_some, unwrap_or, keep, map, saturating_add, add64, sub64,
}
use apolysis.Common.Ordered.{bytes_ord, number_ord, same}
use apolysis.Common.Text.{Text}
use apolysis.Common.TreeMap
use apolysis.Common.TreeMap.{TreeMap, contains_key, keys, values, remove_all}
use apolysis.Intent.{
  SessionIntent, IntentError, RetentionTier, validate_intent, retention_window_ms,
}

pub data SessionStatus : Type 0 where
  active degraded expired closed : SessionStatus

abbrev pub is_active : SessionStatus → Bool
is_active active = true
is_active _ = false

pub record SessionState : Type 0 where
  pub intent : SessionIntent
  pub expires_at_unix_ms : ℕ
  pub status : SessionStatus
  pub cgroup_ids : List ℕ

unfoldable pub new_state : SessionIntent → SessionState
new_state intent = record {
  intent = intent;
  expires_at_unix_ms = intent.expires_at_unix_ms;
  status = active;
  cgroup_ids = [];
}

pub data RegisterOutcome : Type 0 where
  inserted replaced : RegisterOutcome

pub data AssociationOutcome : Type 0 where
  attached missing_intent : AssociationOutcome

pub data RegistryError : Type 0 where
  invalid_intent : IntentError → RegistryError
  session_capacity_reached : ℕ → RegistryError
  pending_capacity_reached : ℕ → RegistryError
  session_not_found : Text → RegistryError
  session_not_active : Text → RegistryError
  cgroup_already_assigned : ℕ → Text → RegistryError

pub record SessionRegistry : Type 0 where
  pub max_sessions : ℕ
  pub max_pending : ℕ
  pub sessions : TreeMap Text SessionState
  pub cgroup_index : TreeMap ℕ Text
  pub pending : TreeMap Text (List ℕ)
  pub pending_count : ℕ

abbrev pub Outcome : Type 0 → Type 0
Outcome A = SessionRegistry × Result A RegistryError

unfoldable pub new : ℕ → ℕ → SessionRegistry
new max_sessions max_pending = record {
  max_sessions = max_sessions;
  max_pending = max_pending;
  sessions = [];
  cgroup_index = [];
  pending = [];
  pending_count = 0;
}

-- Who holds a cgroup, if somebody other than the given session does.
unfoldable pub ensure_cgroup_available :
    Text → ℕ → SessionRegistry → Result (Unit {0}) RegistryError
ensure_cgroup_available session cgroup r = elim (TreeMap.get cgroup r.cgroup_index) [
  | none ↦ ok tt
  | some owner ↦ reject_if (not (same owner session)) (cgroup_already_assigned cgroup owner)
]

abbrev pub add_cgroup : ℕ → SessionState → SessionState
add_cgroup cgroup s = record s {
  cgroup_ids =
      if contains s.cgroup_ids cgroup then s.cgroup_ids else sort (s.cgroup_ids ++ cgroup ∷ []);
}

abbrev pub attach : Text → ℕ → SessionRegistry → SessionRegistry
attach session cgroup r = record r {
  sessions = TreeMap.modify session (add_cgroup cgroup) r.sessions;
  cgroup_index = TreeMap.insert cgroup session r.cgroup_index;
}

unfoldable pub attach_known_cgroup : Text → ℕ → SessionRegistry → Outcome (Unit {0})
attach_known_cgroup session cgroup r = elim (ensure_cgroup_available session cgroup r) [
  | err e ↦ (r, err e)
  | ok _ ↦ elim (TreeMap.get session r.sessions) [
    | none ↦ (r, err (session_not_found session))
    | some s ↦ (attach session cgroup r, ok tt)
  ]
]

-- `for cgroup_id in cgroups { self.attach_known_cgroup(..)?; }`
unfoldable pub attach_all : Text → List ℕ → SessionRegistry → Outcome (Unit {0})
attach_all session [] r = (r, ok tt)
attach_all session (c ∷ cs) r =
    let (next, result) = attach_known_cgroup session c r in
    let later = attach_all session cs next in elim result [ ok _ ↦ later | err e ↦ (next, err e) ]

-- A repeated registration replaces the intent and its expiry, and reactivates the session.
abbrev pub reregister : SessionIntent → SessionState → SessionState
reregister intent s = record s {
  intent = intent;
  expires_at_unix_ms = intent.expires_at_unix_ms;
  status = active;
}

-- The second half of `register`: the cgroups that waited for the session.
unfoldable pub adopt_pending : Text → SessionRegistry → Outcome (Unit {0})
adopt_pending session r = elim (TreeMap.get session r.pending) [
  | none ↦ (r, ok tt)
  | some cgroups ↦ attach_all session cgroups (record r {
    pending = TreeMap.remove session r.pending;
    pending_count = sub64 r.pending_count (length cgroups);
  })
]

abbrev pub finish : RegisterOutcome → Outcome (Unit {0}) → Outcome RegisterOutcome
finish outcome (r, ok u) = (r, ok outcome)
finish outcome (r, err e) = (r, err e)

unfoldable pub register : SessionIntent → ℕ → SessionRegistry → Outcome RegisterOutcome
register intent now r = elim (validate_intent intent now) [
  | err e ↦ (r, err (invalid_intent e))
  | ok _ ↦ elim (TreeMap.get intent.session_id r.sessions) [
    | some s ↦ finish replaced (
        adopt_pending intent.session_id
          (record r { sessions = TreeMap.modify intent.session_id (reregister intent) r.sessions }))
    | none ↦
        if leb r.max_sessions (length r.sessions)
        then (r, err (session_capacity_reached r.max_sessions))
        else finish inserted (
            adopt_pending intent.session_id (record r {
              sessions = TreeMap.insert intent.session_id (new_state intent) r.sessions;
            }))
  ]
]

abbrev pub renewed : ℕ → SessionState → SessionState
renewed expires s = record s {
  intent = record (s.intent) { expires_at_unix_ms = expires };
  expires_at_unix_ms = expires;
  status = active;
}

abbrev pub is_closed : SessionStatus → Bool
is_closed closed = true
is_closed _ = false

unfoldable pub renew : Text → ℕ → ℕ → SessionRegistry → Outcome (Unit {0})
renew session expires now r =
    if leb expires now
    then (r, err (invalid_intent IntentError.expired))
    else elim (TreeMap.get session r.sessions) [
      | none ↦ (r, err (session_not_found session))
      | some s ↦
          if is_closed s.status
          then (r, err (session_not_active session))
          else (record r { sessions = TreeMap.modify session (renewed expires) r.sessions }, ok tt)
    ]

abbrev pub with_status : SessionStatus → SessionState → SessionState
with_status status s = record s { status = status }

unfoldable pub deactivate : Text → SessionStatus → SessionRegistry → Outcome (Unit {0})
deactivate session status r = elim (TreeMap.get session r.sessions) [
  | none ↦ (r, err (session_not_found session))
  | some s ↦ (
    record r {
      sessions = TreeMap.modify session (with_status status) r.sessions;
      cgroup_index = remove_all s.cgroup_ids r.cgroup_index;
    },
    ok tt,
  )
]

-- `deactivate(..)?` and then a copy of the session.
unfoldable pub deactivated : Text → SessionStatus → SessionRegistry → Outcome SessionState
deactivated session status r =
    let (next, result) = deactivate session status r in
    elim result [
      | err e ↦ (next, err e)
      | ok _ ↦ (next, ok_or (TreeMap.get session next.sessions) (session_not_found session))
    ]

unfoldable pub close : Text → SessionRegistry → Outcome SessionState
unfolding deactivated
close session r = deactivated session closed r

unfoldable pub degrade : Text → SessionRegistry → Outcome SessionState
unfolding deactivated
degrade session r = deactivated session degraded r

abbrev pub is_overdue : ℕ → SessionState → Bool
is_overdue now s = is_active s.status && leb s.expires_at_unix_ms now

-- `self.sessions.iter().filter(..)`, the keys alone.
abbrev pub select : (SessionState → Bool) → TreeMap Text SessionState → List Text
select p [] = []
select p ((k, s) ∷ m) = if p s then k ∷ select p m else select p m

unfoldable pub deactivate_all : List Text → SessionStatus → SessionRegistry → SessionRegistry
deactivate_all [] status r = r
deactivate_all (k ∷ ks) status r = deactivate_all ks status (deactivate k status r).0

unfoldable pub expire : ℕ → SessionRegistry → SessionRegistry × List Text
expire now r =
    let overdue = select (is_overdue now) r.sessions in (deactivate_all overdue expired r, overdue)

unfoldable pub associate_cgroup : Text → ℕ → SessionRegistry → Outcome (Unit {0})
associate_cgroup session cgroup r = elim (TreeMap.get session r.sessions) [
  | none ↦ (r, err (session_not_found session))
  | some s ↦
      if is_active s.status
      then attach_known_cgroup session cgroup r
      else (r, err (session_not_active session))
]

abbrev pub await_session : Text → ℕ → List ℕ → SessionRegistry → SessionRegistry
await_session session cgroup waiting r = record r {
  pending = TreeMap.insert session (sort (waiting ++ cgroup ∷ [])) r.pending;
  pending_count = add64 r.pending_count 1;
  cgroup_index = TreeMap.insert cgroup session r.cgroup_index;
}

-- The part of `discover_cgroup` for a session that is not registered.
unfoldable pub discover_pending : Text → ℕ → SessionRegistry → Outcome AssociationOutcome
discover_pending session cgroup r = elim (ensure_cgroup_available session cgroup r) [
  | err e ↦ (r, err e)
  | ok _ ↦
      if leb r.max_pending r.pending_count
      then (r, err (pending_capacity_reached r.max_pending))
      else let waiting = unwrap_or (TreeMap.get session r.pending) [] in
        if contains waiting cgroup
        then (r, ok missing_intent)
        else (await_session session cgroup waiting r, ok missing_intent)
]

abbrev pub attached_or : Outcome (Unit {0}) → Outcome AssociationOutcome
attached_or (r, ok u) = (r, ok attached)
attached_or (r, err e) = (r, err e)

unfoldable pub discover_cgroup : Text → ℕ → SessionRegistry → Outcome AssociationOutcome
discover_cgroup session cgroup r =
    if contains_key session r.sessions
    then attached_or (associate_cgroup session cgroup r)
    else discover_pending session cgroup r
