-- ===== src/Adapter.antt =====
-- crates/apolysis-daemon/src/adapter.rs: the loop of a runtime adapter and its delay after errors.
-- The backend is the list of its answers; a shutdown, like the end of the workloads, ends the list.
pub mod Backoff
pub mod Tallies
mod Examples
use apolysis.Common.{
  Option, none, some, add64, ℕ, ◌+◌, ◌*◌, ◌-◌, ◌%◌, ◌^◌, Bool, true, false, List, [], ◌∷◌, Result,
  ok, err, ltb, ◌==◌, if◌then◌else◌, saturating_add, u64_mod, u64_max,
}
use apolysis.Common.Text.{Text}
use apolysis.Health.{AdapterKind, docker, containerd, k3s_containerd, kubernetes, degraded}
use apolysis.Registry.{AssociationOutcome, attached, missing_intent}
use apolysis.Daemon.{DaemonState, Services}
use apolysis.Daemon.Queries.{set_adapter}
use apolysis.Daemon.Evidence.{RuntimeWorkload, ingest_runtime_workload}

pub record AdapterBackoffPolicy : Type 0 where
  pub initial_delay_ms : ℕ
  pub max_delay_ms : ℕ
  pub jitter_ms : ℕ

abbrev pub max : ℕ → ℕ → ℕ
max a b = if ltb a b then b else a

abbrev pub min : ℕ → ℕ → ℕ
min a b = if ltb a b then a else b

abbrev pub saturating_mul : ℕ → ℕ → ℕ
saturating_mul a b = if ltb (a * b) u64_mod then a * b else u64_max

abbrev pub adapter_seed : AdapterKind → ℕ
adapter_seed docker = 11
adapter_seed containerd = 23
adapter_seed k3s_containerd = 37
adapter_seed kubernetes = 53

unfoldable pub initial : AdapterBackoffPolicy → ℕ
initial policy = max policy.initial_delay_ms 1

unfoldable pub max_delay : AdapterBackoffPolicy → ℕ
max_delay policy = max policy.max_delay_ms (initial policy)

-- The delay without jitter.
unfoldable pub base : AdapterBackoffPolicy → ℕ → ℕ
base policy consecutive_errors =
    let exponent = min (consecutive_errors - 1) 16 in
    min (saturating_mul (initial policy) (2 ^ exponent)) (max_delay policy)

-- The sums wrap around, as in a release build; the remainder by zero, none, is a panic.
unfoldable pub jitter : AdapterBackoffPolicy → AdapterKind → ℕ → Option ℕ
jitter policy adapter consecutive_errors =
    let span = add64 policy.jitter_ms 1 in
    if policy.jitter_ms == 0
    then some 0
    else if span == 0
    then none
    else some (add64 (adapter_seed adapter) (saturating_mul consecutive_errors 17) % span)

-- None is a panic.
unfoldable pub adapter_backoff_delay : AdapterBackoffPolicy → AdapterKind → ℕ → Option ℕ
adapter_backoff_delay policy adapter consecutive_errors =
    elim (jitter policy adapter consecutive_errors) [
      | none ↦ none
      | some jitter_ms ↦ some (saturating_add (base policy consecutive_errors) jitter_ms)
    ]

pub record RuntimeAdapterSummary : Type 0 where
  pub adapter : AdapterKind
  pub discovered : ℕ
  pub missing_intent : ℕ
  pub backend_errors : ℕ
  pub backend_recoveries : ℕ
  pub ingest_errors : ℕ

abbrev pub recovery : ℕ → ℕ → ℕ
recovery consecutive_errors recoveries =
    if ltb 0 consecutive_errors then saturating_add recoveries 1 else recoveries

module _ (services : Services) where
  pub record Adapter : Type 1 where
    pub state : DaemonState services
    pub summary : RuntimeAdapterSummary
    pub consecutive_backend_errors : ℕ

  unfoldable pub associated : ℕ → AssociationOutcome → RuntimeAdapterSummary → RuntimeAdapterSummary
  associated errors attached s = record s {
    discovered = saturating_add s.discovered 1;
    backend_recoveries = recovery errors s.backend_recoveries;
  }
  associated errors missing_intent s = record s {
    discovered = saturating_add s.discovered 1;
    missing_intent = saturating_add s.missing_intent 1;
    backend_recoveries = recovery errors s.backend_recoveries;
  }

  -- One answer of the backend.
  unfoldable pub turn : Result RuntimeWorkload Text → Adapter → Adapter
  turn (ok workload) a =
      let (next, ingested) = ingest_runtime_workload services workload a.state in
      elim ingested [
        | ok outcome ↦ record {
          state = next;
          summary = associated a.consecutive_backend_errors outcome a.summary;
          consecutive_backend_errors = 0;
        }
        | err error ↦ record {
          state = set_adapter services a.summary.adapter degraded next;
          summary = record (a.summary) { ingest_errors = saturating_add a.summary.ingest_errors 1 };
          consecutive_backend_errors = 0;
        }
      ]
  turn (err error) a = record {
    state = set_adapter services a.summary.adapter degraded a.state;
    summary = record (a.summary) { backend_errors = saturating_add a.summary.backend_errors 1 };
    consecutive_backend_errors = saturating_add a.consecutive_backend_errors 1;
  }

  unfoldable pub run_turns : List (Result RuntimeWorkload Text) → Adapter → Adapter
  run_turns [] a = a
  run_turns (answer ∷ answers) a = run_turns answers (turn answer a)

  abbrev pub started : AdapterKind → DaemonState services → Adapter
  started adapter state = record {
    state = state;
    summary = record {
      adapter = adapter;
      discovered = 0;
      missing_intent = 0;
      backend_errors = 0;
      backend_recoveries = 0;
      ingest_errors = 0;
    };
    consecutive_backend_errors = 0;
  }

  unfoldable pub run_runtime_adapter :
      AdapterKind → DaemonState services → List (Result RuntimeWorkload Text) → Adapter
  run_runtime_adapter adapter state answers = run_turns answers (started adapter state)
