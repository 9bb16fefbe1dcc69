-- ===== src/Daemon/Scope.antt =====
-- crates/apolysis-daemon/src/scope.rs and the calls of it in state.rs: the cgroups that the observer
-- tracks. `ScopeController::apply` sends a request and waits; that the queue is full, that the worker
-- stopped and that it refused are one failed call.
use apolysis.Common.{ℕ, none, some, List, [], ◌∷◌, ◌++◌, ok, err}
use apolysis.Common.Ordered.{number_ord}
use apolysis.Common.TreeMap
use apolysis.Common.TreeMap.{TreeMap, map_option}
use apolysis.Daemon.{
  Services, DaemonState, Answer, DaemonError, scope_failed, rollback_failed, call,
}

pub data ScopeOperation : Type 0 where
  track untrack : ScopeOperation

module _ (services : Services) where
  abbrev pub apply_to : ScopeOperation → ℕ → TreeMap ℕ (Unit {0}) → TreeMap ℕ (Unit {0})
  apply_to track cgroup m = TreeMap.insert cgroup tt m
  apply_to untrack cgroup m = TreeMap.remove cgroup m

  unfoldable pub apply : ScopeOperation → ℕ → DaemonState services → Answer services (Unit {0})
  apply operation cgroup d =
      let (next, result) = call services scope_failed d in
      elim result [
        | err e ↦ (next, err e)
        | ok _ ↦ (record next { scope = map_option (apply_to operation cgroup) next.scope }, ok tt)
      ]

  -- `let _ = scope.track(..)` or `untrack`, for each of these cgroups.
  unfoldable pub apply_all_ignoring :
      ScopeOperation → List ℕ → DaemonState services → DaemonState services
  apply_all_ignoring operation [] d = d
  apply_all_ignoring operation (c ∷ cs) d = apply_all_ignoring operation cs (apply operation c d).0

  -- The rollback after a failed write: the first error ends it.
  unfoldable pub roll_back :
      ScopeOperation → List ℕ → DaemonError → DaemonState services → Answer services (Unit {0})
  roll_back operation [] why d = (d, err why)
  roll_back operation (c ∷ cs) why d =
      let (next, result) = apply operation c d in
      let later = roll_back operation cs why next in
      elim result [ ok _ ↦ later | err e ↦ (next, err (rollback_failed why e)) ]

  -- The loop of `close`: an error tracks again what was untracked, and ends it.
  unfoldable pub untrack_each : List ℕ → List ℕ → DaemonState services → Answer services (List ℕ)
  untrack_each [] removed d = (d, ok removed)
  untrack_each (c ∷ cs) removed d =
      let (next, result) = apply untrack c d in
      let later = untrack_each cs (removed ++ c ∷ []) next in
      elim result [ ok _ ↦ later | err e ↦ (apply_all_ignoring track removed next, err e) ]

  -- `if let Some(scope) = &self.scope`
  unfoldable pub untrack_closed : List ℕ → DaemonState services → Answer services (List ℕ)
  untrack_closed cgroups d = elim d.scope [ none ↦ (d, ok []) | some m ↦ untrack_each cgroups [] d ]

  unfoldable pub apply_if_scoped :
      ScopeOperation → ℕ → DaemonState services → Answer services (Unit {0})
  apply_if_scoped operation cgroup d = elim d.scope [
    | none ↦ (d, ok tt)
    | some m ↦ apply operation cgroup d
  ]

  unfoldable pub roll_back_if_scoped :
      ScopeOperation → List ℕ → DaemonError → DaemonState services → Answer services (Unit {0})
  roll_back_if_scoped operation cgroups why d = elim d.scope [
    | none ↦ (d, err why)
    | some m ↦ roll_back operation cgroups why d
  ]
