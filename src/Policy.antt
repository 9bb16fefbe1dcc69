-- ===== src/Policy.antt =====
-- crates/apolysis-policy/src/lib.rs, its types: what a policy asks for, what a host can do, and what
-- becomes of a decision. The event is the one of crates/apolysis-core/src/lib.rs, less the fields
-- that the engine does not read.
pub mod Capabilities
pub mod Rules
pub mod Honest
pub mod Evidence
pub mod Verdict
mod Examples
use apolysis.Common.{ℕ, Bool, true, false, ◌||◌, Option, none, List, [], Result, ok, err}
use apolysis.Common.Text.{Text, text}

pub data DecisionKind : Type 0 where
  allow notify block kill review : DecisionKind

pub data EnforcementRuntime : Type 0 where
  local docker containerd kubernetes gvisor kata firecracker unknown : EnforcementRuntime

pub data EventType : Type 0 where
  session_started runtime_metadata exec file_open file_create file_truncate : EventType
  file_unlink file_rename network_connect credential_read process_exit : EventType

pub data EnforcementAction : Type 0 where
  exec file_read file_write network_connect credential_read other : EnforcementAction

-- `EnforcementAction::from_event_type`.
unfoldable pub from_event_type : EventType → EnforcementAction
from_event_type exec = exec
from_event_type file_open = file_read
from_event_type credential_read = credential_read
from_event_type file_create = file_write
from_event_type file_truncate = file_write
from_event_type file_unlink = file_write
from_event_type file_rename = file_write
from_event_type network_connect = network_connect
from_event_type session_started = other
from_event_type runtime_metadata = other
from_event_type process_exit = other

-- `as_str` of the decision, the runtime and the action.
unfoldable pub decision_str : DecisionKind → Text
decision_str allow = text "allow"
decision_str notify = text "notify"
decision_str block = text "block"
decision_str kill = text "kill"
decision_str review = text "review"

unfoldable pub runtime_str : EnforcementRuntime → Text
runtime_str local = text "local"
runtime_str docker = text "docker"
runtime_str containerd = text "containerd"
runtime_str kubernetes = text "kubernetes"
runtime_str gvisor = text "gvisor"
runtime_str kata = text "kata"
runtime_str firecracker = text "firecracker"
runtime_str unknown = text "unknown"

unfoldable pub action_str : EnforcementAction → Text
action_str exec = text "exec"
action_str file_read = text "file_read"
action_str file_write = text "file_write"
action_str network_connect = text "network_connect"
action_str credential_read = text "credential_read"
action_str other = text "other"

pub record CredentialPolicy : Type 0 where
  pub deny_read : List Text

pub record RuntimePolicy : Type 0 where
  pub max_seconds : Option ℕ
  pub max_processes : Option ℕ

pub record WorkspacePolicy : Type 0 where
  pub allow_read : List Text
  pub allow_write : List Text

pub record CommandPolicy : Type 0 where
  pub deny : List Text

pub record NetworkPolicy : Type 0 where
  pub allow_egress : List Text

pub record EnforcementPolicy : Type 0 where
  pub requested : DecisionKind
  pub fallback : DecisionKind

pub record Policy : Type 0 where
  pub credentials : CredentialPolicy
  pub runtime : RuntimePolicy
  pub workspace : WorkspacePolicy
  pub commands : CommandPolicy
  pub network : NetworkPolicy
  pub enforcement : EnforcementPolicy

-- `Policy::default`.
abbrev pub default_policy : Policy
default_policy = record {
  credentials = record { deny_read = [] };
  runtime = record { max_seconds = none; max_processes = none };
  workspace = record { allow_read = []; allow_write = [] };
  commands = record { deny = [] };
  network = record { allow_egress = [] };
  enforcement = record { requested = notify; fallback = notify };
}

pub data EnforcementBackend : Type 0 where
  audit_only tracepoint_notify bpf_lsm_block seccomp_block signal_kill : EnforcementBackend

pub data EnforcementTiming : Type 0 where
  audit_only post_event_feedback post_event_containment pre_operation : EnforcementTiming

pub data BlockPrototypeBackend : Type 0 where
  bpf_lsm seccomp : BlockPrototypeBackend

unfoldable pub enforcement_backend_of : BlockPrototypeBackend → EnforcementBackend
enforcement_backend_of bpf_lsm = bpf_lsm_block
enforcement_backend_of seccomp = seccomp_block

pub data BlockPrototypeEvidenceSource : Type 0 where
  fixture live_host : BlockPrototypeEvidenceSource

pub record BlockPrototypeEvidence : Type 0 where
  pub backend : BlockPrototypeBackend
  pub source : BlockPrototypeEvidenceSource
  pub runtime : EnforcementRuntime
  pub action : EventType
  pub preoperation_prevention : Bool
  pub decision_latency_ms : Option ℕ
  pub side_effect_race_window_ms : Option ℕ

pub record PreoperationBlockSupport : Type 0 where
  pub exec : Bool
  pub file_read : Bool
  pub file_write : Bool
  pub network_connect : Bool
  pub credential_read : Bool

abbrev pub no_support : PreoperationBlockSupport
no_support = record {
  exec = false;
  file_read = false;
  file_write = false;
  network_connect = false;
  credential_read = false;
}

-- `PreoperationBlockSupport::any`.
unfoldable pub any_enabled : PreoperationBlockSupport → Bool
any_enabled s =
    s.exec || (s.file_read || (s.file_write || (s.network_connect || s.credential_read)))

unfoldable pub supports : EnforcementAction → PreoperationBlockSupport → Bool
supports exec s = s.exec
supports file_read s = s.file_read
supports file_write s = s.file_write
supports network_connect s = s.network_connect
supports credential_read s = s.credential_read
supports other s = false

unfoldable pub enable :
    EnforcementAction → PreoperationBlockSupport → Result PreoperationBlockSupport Text
enable exec s = ok (record s { exec = true })
enable file_read s = ok (record s { file_read = true })
enable file_write s = ok (record s { file_write = true })
enable network_connect s = ok (record s { network_connect = true })
enable credential_read s = ok (record s { credential_read = true })
enable other s = err (text "event type does not map to a blockable action")

pub record PolicyRuntimeCapabilities : Type 0 where
  pub kernel_release : Option Text
  pub bpf_lsm_available : Bool
  pub seccomp_available : Bool
  pub runtime : EnforcementRuntime
  pub preoperation_block_backend : Option BlockPrototypeBackend
  pub preoperation_block : PreoperationBlockSupport

pub record DecisionDowngrade : Type 0 where
  pub downgraded_from : DecisionKind
  pub to : DecisionKind
  pub reason : Text

pub record EnforcementCapability : Type 0 where
  pub requested : DecisionKind
  pub effective : DecisionKind
  pub action : EnforcementAction
  pub runtime : EnforcementRuntime
  pub requested_supported : Bool
  pub enforcement_backend : EnforcementBackend
  pub timing : EnforcementTiming
  pub preoperation_prevention : Bool
  pub downgrade : Option DecisionDowngrade

pub data PolicyDecision : Type 0 where
  allow : PolicyDecision
  notify block kill review : Text → Text → PolicyDecision

-- The fields of a `CanonicalEvent` that the engine reads.
pub record CanonicalEvent : Type 0 where
  pub event_type : EventType
  pub actor : Text
  pub resource : Text

pub record PolicyEvaluation : Type 0 where
  pub decision : PolicyDecision
  pub requested : DecisionKind
  pub effective : DecisionKind
  pub enforcement_backend : EnforcementBackend
  pub timing : EnforcementTiming
  pub runtime : EnforcementRuntime
  pub action : EnforcementAction
  pub preoperation_prevention : Bool
  pub downgrade : Option DecisionDowngrade
