-- ===== src/Registry/Stale.antt =====
-- What the list of cgroups of a session that is no longer active leads to: it stays when the
-- entries of the index go, and later calls read it again.
use apolysis.Common.{ℕ, ◌<◌, ◌≡◌, true, none, some, contains, ok, arith, if◌then◌else◌}
use apolysis.Common.Ordered.{bytes_ord, number_ord, same, same_iff}
use apolysis.Common.Text.{Text}
use apolysis.Common.TreeMap.{get-modify}
use apolysis.Registry.{
  SessionRegistry, SessionState, closed, degraded, close, degrade, deactivate, deactivated, renew,
  renewed, with_status,
}
use apolysis.Registry.Ownership.{get-freed}
use apolysis.Registry.Retention.{session_for_cgroup, is_scope_admitted, get}

-- Closing a registered session succeeds, frees every cgroup that it lists, whichever session
-- that cgroup is tracked for by then, and no other, and changes the status of this session
-- alone.
pub close_frees_listed :
    (k : Text) (r : SessionRegistry) (s : SessionState)
    → get k r ≡ some s
    → ((close k r).1 ≡ ok (with_status closed s))
      × ((c : ℕ)
          → session_for_cgroup c (close k r).0
            ≡ (if contains s.cgroup_ids c then none else session_for_cgroup c r))
      × ((j : Text)
          → get j (close k r).0 ≡ (if same j k then some (with_status closed s) else get j r))
unfolding close deactivated deactivate session_for_cgroup get
close_frees_listed k r s e = (
  ground (arith, e, get-modify k k (with_status closed) r.sessions, same_iff k k),
  λ c. ground (arith, e, get-freed s c r.cgroup_index),
  λ j. ground (arith, e, get-modify k j (with_status closed) r.sessions, same_iff j k),
)

-- A registered session that is degraded and then renewed, to a later time, is admitted again
-- with that expiry and still lists its cgroups, but none of them is tracked; the other cgroups
-- are tracked as before.
pub degrade-renew_untracked :
    (k : Text) (at now : ℕ) (r : SessionRegistry) (s : SessionState)
    → get k r ≡ some s
    → now < at
    → ((renew k at now (degrade k r).0).1 ≡ ok tt)
      × (is_scope_admitted k (renew k at now (degrade k r).0).0 ≡ true)
      × (get k (renew k at now (degrade k r).0).0 ≡ some (renewed at s))
      × ((c : ℕ)
          → session_for_cgroup c (renew k at now (degrade k r).0).0
            ≡ (if contains s.cgroup_ids c then none else session_for_cgroup c r))
unfolding renew degrade deactivated deactivate session_for_cgroup is_scope_admitted get
degrade-renew_untracked k at now r s e later =
    let d = get-modify k k (with_status degraded) r.sessions in
    let m = (degrade k r).0.sessions in
    let n = get-modify k k (renewed at) m in
    (
      ground (arith, e, d, n, same_iff k k),
      ground (arith, e, d, n, same_iff k k),
      ground (arith, e, d, n, same_iff k k),
      λ c. ground (arith, e, d, same_iff k k, get-freed s c r.cgroup_index),
    )
