-- ===== src/Health.antt =====
-- crates/apolysis-accountability/src/health.rs: the health of the daemon's parts.
pub mod Readiness
mod Examples
use apolysis.Common.{
  ℕ, ◌≡◌, Bool, true, false, ◌&&◌, Option, none, some, List, [], ◌∷◌, arith, unwrap_or,
  if◌then◌else◌,
}
use apolysis.Common.Ordered.{Ord, by_rank}
use apolysis.Common.Text.{Text, text}
use apolysis.Common.TreeMap
use apolysis.Common.TreeMap.{TreeMap}
use apolysis.Queue.{QueueStats}

pub data ComponentState : Type 0 where
  ready degraded unavailable : ComponentState

pub data AdapterKind : Type 0 where
  docker containerd k3s_containerd kubernetes : AdapterKind

abbrev pub adapter_rank : AdapterKind → ℕ
adapter_rank docker = 0
adapter_rank containerd = 1
adapter_rank k3s_containerd = 2
adapter_rank kubernetes = 3

pub adapter_rank_injective : (a b : AdapterKind) → adapter_rank a ≡ adapter_rank b → a ≡ b
adapter_rank_injective a b h = ground arith

instance abbrev pub adapter_ord : Ord AdapterKind
adapter_ord = by_rank adapter_rank adapter_rank_injective

pub record HealthSnapshot : Type 0 where
  pub event_loop_running : Bool
  pub ebpf_state : ComponentState
  pub storage_state : ComponentState
  pub adapters : TreeMap AdapterKind ComponentState
  pub queue : QueueStats

unfoldable pub new : QueueStats → HealthSnapshot
new queue = record {
  event_loop_running = true;
  ebpf_state = unavailable;
  storage_state = unavailable;
  adapters = [];
  queue = queue;
}

unfoldable pub set_event_loop_running : Bool → HealthSnapshot → HealthSnapshot
set_event_loop_running running h = record h { event_loop_running = running }

unfoldable pub set_ebpf : ComponentState → HealthSnapshot → HealthSnapshot
set_ebpf state h = record h { ebpf_state = state }

unfoldable pub set_storage : ComponentState → HealthSnapshot → HealthSnapshot
set_storage state h = record h { storage_state = state }

unfoldable pub set_adapter : AdapterKind → ComponentState → HealthSnapshot → HealthSnapshot
set_adapter kind state h = record h { adapters = TreeMap.insert kind state h.adapters }

unfoldable pub adapter : AdapterKind → HealthSnapshot → ComponentState
adapter kind h = unwrap_or (TreeMap.get kind h.adapters) unavailable

abbrev pub is_ready : ComponentState → Bool
is_ready ready = true
is_ready _ = false

unfoldable pub liveness : HealthSnapshot → Bool
liveness h = h.event_loop_running

unfoldable pub readiness : HealthSnapshot → Bool
unfolding liveness
readiness h = liveness h && (is_ready h.ebpf_state && is_ready h.storage_state)

unfoldable pub metric_label_keys : List Text
metric_label_keys = text "component" ∷ text "adapter" ∷ text "priority" ∷ []
