-- ===== src/Adapter/Tallies.antt =====
-- crates/apolysis-daemon/src/adapter.rs: the summary of a runtime adapter against its turns.
use apolysis.Common.{
  ℕ, ◌+◌, ◌≤◌, ◌<◌, ◌≡◌, refl, List, [], ◌∷◌, Result, ok, err, length, arith, u64_mod, ltb,
  if◌then◌else◌,
}
use apolysis.Common.Text.{Text}
use apolysis.Health.{AdapterKind}
use apolysis.Registry.{attached, missing_intent}
use apolysis.Daemon.{DaemonState, Services}
use apolysis.Daemon.Evidence.{RuntimeWorkload, ingest_runtime_workload}
use apolysis.Adapter.{
  RuntimeAdapterSummary, Adapter, associated, turn, run_turns, run_runtime_adapter, started,
}

-- Each turn has one place in the summary; a recovery is a workload found after an error.
pub IsTallied : ℕ → ℕ → RuntimeAdapterSummary → Type 0
IsTallied turns errors s =
    (s.discovered + s.ingest_errors + s.backend_errors ≡ turns)
    × (s.missing_intent ≤ s.discovered)
    × (s.backend_recoveries ≤ s.discovered)
    × (s.backend_recoveries + (if ltb 0 errors then 1 else 0) ≤ s.backend_errors)

module _ (services : Services) where
  turn-IsTallied :
      (answer : Result RuntimeWorkload Text) (a : Adapter services) (turns : ℕ)
      → turns + 1 < u64_mod
      → a.consecutive_backend_errors ≤ turns
      → IsTallied turns a.consecutive_backend_errors a.summary
      → IsTallied
          (turns + 1)
          (turn services answer a).consecutive_backend_errors
          (turn services answer a).summary
  unfolding turn IsTallied associated
  turn-IsTallied (err error) a turns h c t = ground arith
  turn-IsTallied (ok workload) a turns h c t =
      elim (ingest_runtime_workload services workload a.state).1 [
        | ok attached ↦ ground arith
        | ok missing_intent ↦ ground arith
        | err e ↦ ground arith
      ]

  turn-errors :
      (answer : Result RuntimeWorkload Text) (a : Adapter services) (turns : ℕ)
      → a.consecutive_backend_errors ≤ turns
      → (turn services answer a).consecutive_backend_errors ≤ turns + 1
  unfolding turn
  turn-errors (err error) a turns c = ground arith
  turn-errors (ok workload) a turns c = elim (ingest_runtime_workload services workload a.state).1 [
    | ok outcome ↦ ground arith
    | err e ↦ ground arith
  ]

  run_turns-IsTallied :
      (answers : List (Result RuntimeWorkload Text)) (a : Adapter services) (turns : ℕ)
      → turns + length answers < u64_mod
      → a.consecutive_backend_errors ≤ turns
      → IsTallied turns a.consecutive_backend_errors a.summary
      → IsTallied
          (turns + length answers)
          (run_turns services answers a).consecutive_backend_errors
          (run_turns services answers a).summary
  unfolding run_turns IsTallied
  run_turns-IsTallied [] a turns h c t = ground arith
  run_turns-IsTallied (answer ∷ answers) a turns h c t =
      let now = turn-IsTallied answer a turns (ground arith) c t in
      let errors = turn-errors answer a turns c in
      let later =
        run_turns-IsTallied answers (turn services answer a) (turns + 1) (ground arith) errors
          now in
      ground arith

  -- An adapter that its backend answers fewer than 2 ^ 64 times counts each answer once, as a
  -- workload found, an error of the intake or an error of the backend; of the workloads found it
  -- counts no more as without intent or as recoveries than there are, and no more recoveries
  -- than backend errors.
  pub run_runtime_adapter-IsTallied :
      (adapter : AdapterKind) (state : DaemonState services)
      (answers : List (Result RuntimeWorkload Text))
      → length answers < u64_mod
      → IsTallied
          (length answers)
          (run_runtime_adapter services adapter state answers).consecutive_backend_errors
          (run_runtime_adapter services adapter state answers).summary
  unfolding run_runtime_adapter IsTallied
  run_runtime_adapter-IsTallied adapter state answers h =
      let start : Adapter services = started services adapter state in
      let tally =
        run_turns-IsTallied answers start 0 (omega arith) (omega arith)
          (refl, omega arith, omega arith, omega arith) in
      ground arith
