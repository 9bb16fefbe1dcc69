-- ===== src/Registry/Examples.antt =====
-- The registry on small histories.
use apolysis.Common.{
  ◌↔◌, contains, ◌+◌, ◌≤◌, if◌then◌else◌, inl, ℕ, ◌≡◌, ◌≢◌, refl, List, [], ◌∷◌, some, none, true,
  ok, arith, unwrap_or, ==_iff, ap, length, sort, insert_sorted,
}
use apolysis.Common.Text.{text, Text, trim, byte_len, is_whitespace, is_ascii_alphanumeric}
use apolysis.Common.Ordered.{bytes_ord, number_ord, same}
use apolysis.Common.TreeMap
use apolysis.Common.TreeMap.{remove_all}
use apolysis.Intent.{
  retention_window_ms, SessionIntent, short, validate_intent, validate_session_id,
  validate_tenant_id, is_id_char,
}
use apolysis.Registry.{
  with_status, renewed, closed, SessionRegistry, SessionState, new, close, renew, inserted,
  replaced, degraded, new_state,
}
use apolysis.Registry.Retention.{
  get, session_for_cgroup, is_scope_admitted, retention_eligible, apply_retention_for_tenant,
  retention_purge_report_for_tenant,
}
use apolysis.Registry.{
  register, discover_cgroup, discover_pending, degrade, deactivate, deactivated, associate_cgroup,
  attach_known_cgroup, ensure_cgroup_available, attach_all, adopt_pending,
}
use apolysis.Registry.Completion.{IsReserved, TakenOver, register-TakenOver}
use apolysis.Registry.Calls.{Call, registers, associates, discovers, degrades, step, run}
use apolysis.Registry.Bounded.{IsBounded}
use apolysis.Registry.Capacity.{run-new-IsBounded}
use apolysis.Registry.Claims.{IsOwned, new-IsOwned}
use apolysis.Registry.Ownership.{step-IsOwned}
use apolysis.Registry.Stale.{close_frees_listed, degrade-renew_untracked}
use apolysis.Registry.Purging.{
  apply_retention_exact, retention_eligible_lem, satisfies, is_purgeable,
}

abbrev intent_of : Text → ℕ → SessionIntent
intent_of session until = record {
  schema_version = 1;
  tenant_id = text "default";
  retention_tier = short;
  session_id = session;
  expires_at_unix_ms = until;
  declared_actions = [];
  allowed_resources = [];
  policy_ref = text "local";
  workload_selectors = [];
}

abbrev first : Text
first = text "a"

abbrev second : Text
second = text "b"

-- A cgroup moves from a session that was degraded to another.
abbrev moves : List Call
moves =
    registers (intent_of first 50) 10
    ∷ associates first 7
    ∷ degrades first
    ∷ registers (intent_of second 60) 20
    ∷ associates second 7
    ∷ []

run-new-IsBounded_example : IsBounded (run moves (new 4 4))
run-new-IsBounded_example = run-new-IsBounded 4 4 moves (omega arith)

-- A cgroup that waits for its session.
abbrev waiting : SessionRegistry
waiting = step (discovers second 7) (new 4 4)

waiting-IsOwned : IsOwned waiting
waiting-IsOwned = step-IsOwned (discovers second 7) (new 4 4) tt (new-IsOwned 4 4)

abbrev registered : SessionRegistry
registered = step (registers (intent_of second 60) 20) waiting

-- The history of `moves`, computed.
abbrev moved : SessionRegistry
moved = run moves (new 4 4)

abbrev first_state : SessionState
first_state = record (new_state (intent_of first 50)) { status = degraded; cgroup_ids = 7 ∷ [] }

computed :
    ((register (intent_of second 60) 20 waiting).1 ≡ ok inserted)
    × (validate_intent (intent_of second 60) 20 ≡ ok tt)
    × (TreeMap.get second waiting.pending ≡ some (7 ∷ []))
    × (TreeMap.get 7 waiting.cgroup_index ≡ some second)
    × (waiting.sessions ≡ [])
    × (waiting.max_sessions ≡ 4)
    × (session_for_cgroup 7 registered ≡ some second)
    × (get first moved ≡ some first_state)
    × (session_for_cgroup 7 moved ≡ some second)
    × (session_for_cgroup 9 moved ≡ none)
unfolding trim sort insert_sorted step run new new_state register validate_intent
    validate_session_id validate_tenant_id byte_len is_whitespace is_ascii_alphanumeric is_id_char
    discover_cgroup discover_pending associate_cgroup attach_known_cgroup ensure_cgroup_available
    attach_all adopt_pending degrade deactivated deactivate get session_for_cgroup TreeMap.get
    TreeMap.insert TreeMap.modify TreeMap.remove remove_all
computed = (refl, refl, refl, refl, refl, refl, refl, refl, refl, refl)

step-IsOwned_example : IsOwned (step (registers (intent_of second 60) 20) waiting)
step-IsOwned_example =
    step-IsOwned (registers (intent_of second 60) 20) waiting (inl (inserted, computed.0))
      waiting-IsOwned

waiting-IsReserved :
    IsReserved second (unwrap_or (TreeMap.get second waiting.pending) []) waiting.cgroup_index
waiting-IsReserved c h = ground (arith, computed.2, computed.3, ==_iff 7 c)

register-TakenOver_example :
    ((register (intent_of second 60) 20 waiting).1
      ≡ ok (elim (TreeMap.get second waiting.sessions) [ none ↦ inserted | some _ ↦ replaced ]))
    × TakenOver second
        (unwrap_or (TreeMap.get second waiting.pending) [])
        (register (intent_of second 60) 20 waiting).0
register-TakenOver_example =
    register-TakenOver (intent_of second 60) 20 waiting computed.1
      (λ _. omega (arith, computed.5, ap length computed.4)) waiting-IsReserved

apply_retention_exact_example :
    let x = apply_retention_for_tenant (text "default") 1_000_000_000 moved in
    ((k : Text)
      → get k x.0 ≡ (
          if satisfies (is_purgeable (text "default") 1_000_000_000) (get k moved)
          then none
          else get k moved))
    × (x.1.purged_session_ids ≡ x.1.eligible_session_ids)
    × (x.1.eligible_session_ids
        ≡ (retention_purge_report_for_tenant
            (text "default")
            1_000_000_000
            true
            moved).eligible_session_ids)
apply_retention_exact_example =
    apply_retention_exact (text "default") 1_000_000_000 moved
      run-new-IsBounded_example.sessions_sorted

retention_eligible_lem_example : (retention_eligible first_state 1_000_000_000 ≡ true) ↔ (
    (first_state.status ≢ degraded)
    × (first_state.expires_at_unix_ms + retention_window_ms first_state.intent.retention_tier
        ≤ 1_000_000_000))
retention_eligible_lem_example = retention_eligible_lem first_state 1_000_000_000 (omega arith)

close_frees_listed_example :
    ((close first moved).1 ≡ ok (with_status closed first_state))
    × ((c : ℕ)
        → session_for_cgroup c (close first moved).0
          ≡ (if contains (7 ∷ []) c then none else session_for_cgroup c moved))
    × ((j : Text)
        → get j (close first moved).0
          ≡ (if same j first then some (with_status closed first_state) else get j moved))
close_frees_listed_example = close_frees_listed first moved first_state computed.7

degrade-renew_untracked_example :
    ((renew first 90 30 (degrade first moved).0).1 ≡ ok tt)
    × (is_scope_admitted first (renew first 90 30 (degrade first moved).0).0 ≡ true)
    × (get first (renew first 90 30 (degrade first moved).0).0 ≡ some (renewed 90 first_state))
    × ((c : ℕ)
        → session_for_cgroup c (renew first 90 30 (degrade first moved).0).0
          ≡ (if contains (7 ∷ []) c then none else session_for_cgroup c moved))
degrade-renew_untracked_example =
    degrade-renew_untracked first 90 30 moved first_state computed.7 (omega arith)
