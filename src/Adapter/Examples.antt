-- ===== src/Adapter/Examples.antt =====
-- The delay of the default policy, and the tally of a run.
use apolysis.Common.{
  some, ◌≤◌, ℕ, ◌⊎◌, ◌<◌, u64_max, List, [], ◌∷◌, Result, ok, err, none, ◌≡◌, ◌≤◌, ◌+◌, refl, arith,
}
use apolysis.Health.{docker}
use apolysis.Adapter.{
  AdapterBackoffPolicy, adapter_backoff_delay, initial, max_delay, base, jitter,
  run_runtime_adapter,
}
use apolysis.Common.Text.{Text, text}
use apolysis.Daemon.Evidence.{RuntimeWorkload}
use apolysis.Daemon.Examples.{sample, registered}
use apolysis.Adapter.Tallies.{IsTallied, run_runtime_adapter-IsTallied}
use apolysis.Adapter.Backoff.{adapter_backoff_delay_bounds}

abbrev default_policy : AdapterBackoffPolicy
default_policy = record { initial_delay_ms = 250; max_delay_ms = 5_000; jitter_ms = 100 }

abbrev wild_policy : AdapterBackoffPolicy
wild_policy = record { initial_delay_ms = 250; max_delay_ms = 5_000; jitter_ms = u64_max }

delays :
    (adapter_backoff_delay default_policy docker 1 ≡ some 278)
    × (adapter_backoff_delay default_policy docker 5 ≡ some 4096)
    × (adapter_backoff_delay default_policy docker 6 ≡ some 5012)
    × (adapter_backoff_delay wild_policy docker 1 ≡ none)
unfolding adapter_backoff_delay initial max_delay base jitter
delays = (refl, refl, refl, refl)

adapter_backoff_delay_bounds_example :
    ((100 ≡ u64_max) × (adapter_backoff_delay default_policy docker 40 ≡ none))
    ⊎ ((delay : ℕ) × (100 < u64_max)
        × (adapter_backoff_delay default_policy docker 40 ≡ some delay)
        × (initial default_policy ≤ delay)
        × (delay ≤ max_delay default_policy + 100))
unfolding initial
adapter_backoff_delay_bounds_example =
    adapter_backoff_delay_bounds default_policy docker 40 (ground arith) (ground arith)

abbrev workload : RuntimeWorkload
workload = record {
  adapter = docker;
  session_id = text "a";
  workload_id = text "c1";
  cgroup_id = 8;
  image = none;
  runtime_handler = none;
}

abbrev answers : List (Result RuntimeWorkload Text)
answers = err (text "socket gone") ∷ ok workload ∷ []

run_runtime_adapter-IsTallied_example :
    IsTallied 2
      (run_runtime_adapter sample docker registered answers).consecutive_backend_errors
      (run_runtime_adapter sample docker registered answers).summary
run_runtime_adapter-IsTallied_example =
    run_runtime_adapter-IsTallied sample docker registered answers (ground arith)
