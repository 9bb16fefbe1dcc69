-- ===== src/Registry/Retention.antt =====
-- crates/apolysis-accountability/src/session.rs: the queries and the retention of the registry.
use apolysis.Common.{
  ℕ, Bool, true, false, not, ◌&&◌, ◌||◌, Option, none, some, List, [], ◌∷◌, leb, if◌then◌else◌,
  is_some, keep, saturating_add,
}
use apolysis.Common.Ordered.{bytes_ord, number_ord, same}
use apolysis.Common.Text.{Text}
use apolysis.Common.TreeMap
use apolysis.Common.TreeMap.{TreeMap, keys, values, remove_all}
use apolysis.Intent.{RetentionTier, short, standard, extended, retention_window_ms}
use apolysis.Registry.{
  SessionState, SessionStatus, SessionRegistry, expired, closed, is_active, select,
}

unfoldable pub get : Text → SessionRegistry → Option SessionState
get session r = TreeMap.get session r.sessions

abbrev pub filter_option : (SessionState → Bool) → Option SessionState → Option SessionState
filter_option p none = none
filter_option p (some s) = if p s then some s else none

abbrev pub is_of_tenant : Text → SessionState → Bool
is_of_tenant tenant s = same s.intent.tenant_id tenant

unfoldable pub get_for_tenant : Text → Text → SessionRegistry → Option SessionState
get_for_tenant session tenant r =
    filter_option (is_of_tenant tenant) (TreeMap.get session r.sessions)

abbrev pub same_tier : RetentionTier → RetentionTier → Bool
same_tier short short = true
same_tier standard standard = true
same_tier extended extended = true
same_tier _ _ = false

abbrev pub is_of_tier : Option RetentionTier → SessionState → Bool
is_of_tier none s = true
is_of_tier (some tier) s = same_tier s.intent.retention_tier tier

unfoldable pub list_for_tenant : Text → Option RetentionTier → SessionRegistry → List SessionState
list_for_tenant tenant tier r =
    keep (λ s. is_of_tenant tenant s && is_of_tier tier s) (values r.sessions)

abbrev pub is_terminal : SessionStatus → Bool
is_terminal closed = true
is_terminal expired = true
is_terminal _ = false

unfoldable pub retention_eligible : SessionState → ℕ → Bool
retention_eligible s now =
    (is_terminal s.status || (is_active s.status && leb s.expires_at_unix_ms now))
    && leb (saturating_add s.expires_at_unix_ms (retention_window_ms s.intent.retention_tier)) now

pub record RetentionPurgeReport : Type 0 where
  pub tenant_id : Text
  pub now_unix_ms : ℕ
  pub dry_run : Bool
  pub eligible_session_ids : List Text
  pub purged_session_ids : List Text
  pub retained_session_ids : List Text

unfoldable pub retention_purge_report_for_tenant :
    Text → ℕ → Bool → SessionRegistry → RetentionPurgeReport
retention_purge_report_for_tenant tenant now dry_run r = record {
  tenant_id = tenant;
  now_unix_ms = now;
  dry_run = dry_run;
  eligible_session_ids = select (λ s. is_of_tenant tenant s && retention_eligible s now) r.sessions;
  purged_session_ids = [];
  retained_session_ids =
      select (λ s. is_of_tenant tenant s && not (retention_eligible s now)) r.sessions;
}

-- One turn of the purge: the session and the index entries of its cgroups go.
unfoldable pub purge : Text → SessionRegistry → SessionRegistry
purge session r = elim (TreeMap.get session r.sessions) [
  | none ↦ r
  | some s ↦ record r {
    sessions = TreeMap.remove session r.sessions;
    cgroup_index = remove_all s.cgroup_ids r.cgroup_index;
  }
]

unfoldable pub purge_all : List Text → SessionRegistry → SessionRegistry × List Text
purge_all [] r = (r, [])
purge_all (k ∷ ks) r =
    let (final, purged) = purge_all ks (purge k r) in
    (final, if is_some (TreeMap.get k r.sessions) then k ∷ purged else purged)

unfoldable pub apply_retention_for_tenant :
    Text → ℕ → SessionRegistry → SessionRegistry × RetentionPurgeReport
apply_retention_for_tenant tenant now r =
    let report = retention_purge_report_for_tenant tenant now false r in
    let (final, purged) = purge_all report.eligible_session_ids r in
    (final, record report { purged_session_ids = purged })

unfoldable pub session_for_cgroup : ℕ → SessionRegistry → Option Text
session_for_cgroup cgroup r = TreeMap.get cgroup r.cgroup_index

unfoldable pub tracked_cgroups : SessionRegistry → List ℕ
tracked_cgroups r = keys r.cgroup_index

unfoldable pub is_scope_admitted : Text → SessionRegistry → Bool
is_scope_admitted session r = elim (TreeMap.get session r.sessions) [
  | none ↦ false
  | some s ↦ is_active s.status
]
