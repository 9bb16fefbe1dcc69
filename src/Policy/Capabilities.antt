-- ===== src/Policy/Capabilities.antt =====
-- crates/apolysis-policy/src/lib.rs: what a host can block, and which decision takes effect. The
-- texts of `format!` are appended.
use apolysis.Common.{
  ℕ, Bool, true, false, not, ◌&&◌, Option, none, some, ◌++◌, ◌==◌, if◌then◌else◌, is_some, Result,
  ok, ◌>>=◌, ◌>>◌, reject_if,
}
use apolysis.Common.Text.{Text, text}
use apolysis.Policy.{
  DecisionKind, allow, notify, block, kill, review, EnforcementRuntime, local, docker, containerd,
  kubernetes, EventType, EnforcementAction, from_event_type, decision_str, runtime_str, action_str,
  EnforcementBackend, audit_only, tracepoint_notify, bpf_lsm_block, signal_kill, EnforcementTiming,
  post_event_feedback, post_event_containment, pre_operation, BlockPrototypeBackend, bpf_lsm,
  seccomp, enforcement_backend_of, BlockPrototypeEvidence, BlockPrototypeEvidenceSource, live_host,
  supports, any_enabled, enable, PolicyRuntimeCapabilities, EnforcementCapability,
}

unfoldable pub runtime_supports_host_bpf_lsm : EnforcementRuntime → Bool
runtime_supports_host_bpf_lsm local = true
runtime_supports_host_bpf_lsm docker = true
runtime_supports_host_bpf_lsm containerd = true
runtime_supports_host_bpf_lsm kubernetes = true
runtime_supports_host_bpf_lsm _ = false

unfoldable pub runtime_supports_seccomp_prototype : EnforcementRuntime → Bool
runtime_supports_seccomp_prototype local = true
runtime_supports_seccomp_prototype _ = false

abbrev pub same_runtime : EnforcementRuntime → EnforcementRuntime → Bool
same_runtime local local = true
same_runtime docker docker = true
same_runtime containerd containerd = true
same_runtime kubernetes kubernetes = true
same_runtime EnforcementRuntime.gvisor EnforcementRuntime.gvisor = true
same_runtime EnforcementRuntime.kata EnforcementRuntime.kata = true
same_runtime EnforcementRuntime.firecracker EnforcementRuntime.firecracker = true
same_runtime EnforcementRuntime.unknown EnforcementRuntime.unknown = true
same_runtime _ _ = false

unfoldable pub backend_available_for_runtime :
    BlockPrototypeBackend → EnforcementRuntime → PolicyRuntimeCapabilities → Bool
backend_available_for_runtime bpf_lsm runtime c =
    c.bpf_lsm_available && runtime_supports_host_bpf_lsm runtime
backend_available_for_runtime seccomp runtime c =
    c.seccomp_available && runtime_supports_seccomp_prototype runtime

-- `preoperation_block_backend.is_some_and(|backend| self.backend_available_for_runtime(..))`
unfoldable pub has_backend : EnforcementRuntime → PolicyRuntimeCapabilities → Bool
has_backend runtime c = elim (c.preoperation_block_backend) [
  | none ↦ false
  | some backend ↦ backend_available_for_runtime backend runtime c
]

unfoldable pub can_preoperation_block :
    EnforcementRuntime → EnforcementAction → PolicyRuntimeCapabilities → Bool
can_preoperation_block runtime action c =
    has_backend runtime c && supports action c.preoperation_block

unfoldable pub any_preoperation_block_available : PolicyRuntimeCapabilities → Bool
any_preoperation_block_available c = has_backend c.runtime c && any_enabled c.preoperation_block

unfoldable pub validate_block_backend :
    BlockPrototypeBackend → EnforcementRuntime → PolicyRuntimeCapabilities → Result (Unit {0}) Text
validate_block_backend bpf_lsm runtime c = do
  reject_if (not c.bpf_lsm_available)
      (text "BPF-LSM must be available before enabling block prototype")
  reject_if (not (runtime_supports_host_bpf_lsm runtime)) (
      text "runtime "
      ++ (runtime_str runtime ++ text " does not support host BPF-LSM block validation"))
validate_block_backend seccomp runtime c = do
  reject_if (not c.seccomp_available)
      (text "seccomp must be available before enabling block prototype")
  reject_if (not (runtime_supports_seccomp_prototype runtime)) (
      text "runtime " ++ (runtime_str runtime ++ text " does not support seccomp block validation"))

abbrev pub is_live : BlockPrototypeEvidenceSource → Bool
is_live live_host = true
is_live _ = false

abbrev pub is_zero : Option ℕ → Bool
is_zero none = false
is_zero (some n) = n == 0

unfoldable pub with_validated_block_prototype :
    BlockPrototypeEvidence → PolicyRuntimeCapabilities → Result PolicyRuntimeCapabilities Text
with_validated_block_prototype e c = do
  reject_if (not (is_live e.source))
      (text "pre-operation block requires live-host validation evidence")
  validate_block_backend e.backend e.runtime c
  reject_if (not (same_runtime c.runtime e.runtime)) (
      text "validation runtime "
      ++ (runtime_str e.runtime
          ++ (text " does not match capability runtime " ++ runtime_str c.runtime)))
  reject_if (not e.preoperation_prevention)
      (text "block prototype evidence must prove pre-operation prevention")
  reject_if (not (is_some e.decision_latency_ms))
      (text "block prototype evidence must include decision latency")
  reject_if (not (is_zero e.side_effect_race_window_ms))
      (text "block prototype evidence must prove a zero side-effect race window")
  support ← enable (from_event_type e.action) c.preoperation_block
  ok (record c { preoperation_block_backend = some e.backend; preoperation_block = support })

abbrev pub tail_of_reason : EnforcementRuntime → EnforcementAction → Text → DecisionKind → Text
tail_of_reason runtime action middle fallback =
    runtime_str runtime ++ (text "/" ++ (action_str action ++ (middle ++ decision_str fallback)))

unfoldable pub block_downgrade_reason :
    EnforcementRuntime → EnforcementAction → DecisionKind → PolicyRuntimeCapabilities → Text
block_downgrade_reason runtime action fallback c =
    if not c.bpf_lsm_available
    then text "BPF-LSM is not available; requested block for "
      ++ tail_of_reason runtime action (text " downgraded to ") fallback
    else if not (runtime_supports_host_bpf_lsm runtime)
    then text "pre-operation block is unsupported for "
      ++ tail_of_reason runtime action (text "; requested block downgraded to ") fallback
    else text "pre-operation block prototype is not enabled for "
      ++ tail_of_reason runtime action (text "; requested block downgraded to ") fallback

unfoldable pub safe_non_block_fallback : DecisionKind → DecisionKind
safe_non_block_fallback block = notify
safe_non_block_fallback d = d

unfoldable pub backend_for_fallback : DecisionKind → EnforcementBackend
backend_for_fallback allow = audit_only
backend_for_fallback notify = tracepoint_notify
backend_for_fallback review = tracepoint_notify
backend_for_fallback block = tracepoint_notify
backend_for_fallback kill = signal_kill

unfoldable pub timing_for_fallback : DecisionKind → EnforcementTiming
timing_for_fallback allow = audit_only
timing_for_fallback notify = post_event_feedback
timing_for_fallback review = post_event_feedback
timing_for_fallback block = post_event_feedback
timing_for_fallback kill = post_event_containment

abbrev pub backend_in_force : Option BlockPrototypeBackend → EnforcementBackend
backend_in_force none = bpf_lsm_block
backend_in_force (some b) = enforcement_backend_of b

unfoldable pub resolve_block :
    DecisionKind
    → EnforcementRuntime
    → EnforcementAction
    → PolicyRuntimeCapabilities
    → EnforcementCapability
resolve_block fallback runtime action c =
    if can_preoperation_block runtime action c
    then record {
      requested = block;
      effective = block;
      action = action;
      runtime = runtime;
      requested_supported = true;
      enforcement_backend = backend_in_force c.preoperation_block_backend;
      timing = pre_operation;
      preoperation_prevention = true;
      downgrade = none;
    }
    else let safe = safe_non_block_fallback fallback in
      record {
        requested = block;
        effective = safe;
        action = action;
        runtime = runtime;
        requested_supported = false;
        enforcement_backend = backend_for_fallback safe;
        timing = timing_for_fallback safe;
        preoperation_prevention = false;
        downgrade = some (record {
          downgraded_from = block;
          to = safe;
          reason = block_downgrade_reason runtime action safe c;
        });
      }

-- The four decisions that need no support.
abbrev pub supported :
    DecisionKind
    → EnforcementBackend
    → EnforcementTiming
    → EnforcementRuntime
    → EnforcementAction
    → EnforcementCapability
supported decision backend timing runtime action = record {
  requested = decision;
  effective = decision;
  action = action;
  runtime = runtime;
  requested_supported = true;
  enforcement_backend = backend;
  timing = timing;
  preoperation_prevention = false;
  downgrade = none;
}

-- `EnforcementCapabilityMatrix::resolve`.
unfoldable pub resolve :
    DecisionKind
    → DecisionKind
    → EnforcementRuntime
    → EventType
    → PolicyRuntimeCapabilities
    → EnforcementCapability
resolve allow fallback runtime event c =
    supported allow audit_only audit_only runtime (from_event_type event)
resolve notify fallback runtime event c =
    supported notify tracepoint_notify post_event_feedback runtime (from_event_type event)
resolve review fallback runtime event c =
    supported review tracepoint_notify post_event_feedback runtime (from_event_type event)
resolve kill fallback runtime event c =
    supported kill signal_kill post_event_containment runtime (from_event_type event)
resolve block fallback runtime event c = resolve_block fallback runtime (from_event_type event) c
