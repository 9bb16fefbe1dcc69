-- ===== src/Policy/Examples.antt =====
-- The policy engine on small inputs.
use apolysis.Common.{◌≡◌, ◌≢◌, ◌↔◌, ◌⊎◌, refl, true, none, some, [], ◌∷◌, ok}
use apolysis.Common.Text.{text}
use apolysis.Policy.{
  Policy, block, notify, local, EventType, exec, network_connect, bpf_lsm, seccomp, live_host,
  BlockPrototypeEvidence, BlockPrototypeBackend, PolicyRuntimeCapabilities, CanonicalEvent,
  DecisionDowngrade, from_event_type, no_support, default_policy, enable, supports,
  enforcement_backend_of,
}
use apolysis.Policy.Capabilities.{
  resolve, can_preoperation_block, with_validated_block_prototype, validate_block_backend,
  runtime_supports_host_bpf_lsm, runtime_supports_seccomp_prototype, has_backend,
  backend_available_for_runtime,
}
use apolysis.Policy.Rules.{
  effective_decision, startup_downgrade, match_event_rule, evaluate_event, endpoint_matches,
}
use apolysis.Policy.Honest.{IsHonest, resolve-IsHonest, startup_downgrade-agrees}
use apolysis.Policy.Evidence.{IsProven, accept_all, accept_all-IsProven, later_backend_blocks_all}
use apolysis.Policy.Verdict.{evaluate_event_blocks, Covers, endpoint_matches-Covers}

abbrev host : PolicyRuntimeCapabilities
host = record {
  kernel_release = none;
  bpf_lsm_available = true;
  seccomp_available = true;
  runtime = local;
  preoperation_block_backend = none;
  preoperation_block = no_support;
}

abbrev evidence_of : BlockPrototypeBackend → EventType → BlockPrototypeEvidence
evidence_of backend action = record {
  backend = backend;
  source = live_host;
  runtime = local;
  action = action;
  preoperation_prevention = true;
  decision_latency_ms = some 3;
  side_effect_race_window_ms = some 0;
}

-- The host with evidence for commands.
abbrev proven_host : PolicyRuntimeCapabilities
proven_host = record host {
  preoperation_block_backend = some bpf_lsm;
  preoperation_block = record no_support { exec = true };
}

-- The same with evidence for connections, by the other backend.
abbrev mixed_host : PolicyRuntimeCapabilities
mixed_host = record host {
  preoperation_block_backend = some seccomp;
  preoperation_block = record no_support { exec = true; network_connect = true };
}

accept_all-host : accept_all (evidence_of bpf_lsm exec ∷ []) host ≡ ok proven_host
unfolding accept_all with_validated_block_prototype validate_block_backend
    runtime_supports_host_bpf_lsm enable from_event_type
accept_all-host = refl

can_block-proven_host : can_preoperation_block local (from_event_type exec) proven_host ≡ true
unfolding can_preoperation_block has_backend backend_available_for_runtime
    runtime_supports_host_bpf_lsm supports from_event_type
can_block-proven_host = refl

accept_all-IsProven_example : IsProven (evidence_of bpf_lsm exec ∷ []) (from_event_type exec)
accept_all-IsProven_example =
    accept_all-IsProven (evidence_of bpf_lsm exec ∷ []) host proven_host local
      (from_event_type exec) refl accept_all-host can_block-proven_host

with_validated-mixed :
    with_validated_block_prototype (evidence_of seccomp network_connect) proven_host ≡ ok mixed_host
unfolding with_validated_block_prototype validate_block_backend runtime_supports_seccomp_prototype
    enable from_event_type
with_validated-mixed = refl

supports-proven_host : supports (from_event_type exec) proven_host.preoperation_block ≡ true
unfolding supports from_event_type
supports-proven_host = refl

later_backend_blocks_all_example :
    let r = resolve block notify local exec mixed_host in
    (r.effective ≡ block) × (r.enforcement_backend ≡ enforcement_backend_of seccomp)
later_backend_blocks_all_example =
    later_backend_blocks_all (evidence_of seccomp network_connect) proven_host mixed_host notify
      exec with_validated-mixed supports-proven_host

resolve-IsHonest_example :
    IsHonest block notify
      (can_preoperation_block local (from_event_type exec) proven_host)
      (resolve block notify local exec proven_host)
resolve-IsHonest_example = resolve-IsHonest block notify local exec proven_host

-- A policy that asks for blocks.
abbrev strict : Policy
strict = record default_policy {
  commands = record { deny = text "rm" ∷ [] };
  enforcement = record { requested = block; fallback = notify };
}

startup_downgrade-agrees_example :
    ((d : DecisionDowngrade)
      → startup_downgrade proven_host strict ≡ some d
      → (strict.enforcement.requested ≡ block)
        × ((event : EventType) → (effective_decision proven_host event strict).effective ≡ d.to))
    × (startup_downgrade proven_host strict ≡ none
        → (strict.enforcement.requested ≢ block)
          ⊎ ((event : EventType) × ((effective_decision proven_host event strict).effective
                ≡ block)))
startup_downgrade-agrees_example = startup_downgrade-agrees proven_host strict

abbrev removal : CanonicalEvent
removal = record { event_type = exec; actor = text "rm -r"; resource = text "/w" }

evaluate_event_blocks_example :
    (((evaluate_event removal proven_host strict).effective ≡ block) ↔ (
      (match_event_rule removal strict ≢ none)
      × (strict.enforcement.requested ≡ block)
      × (can_preoperation_block local (from_event_type exec) proven_host ≡ true)))
    × (((evaluate_event removal proven_host strict).preoperation_prevention ≡ true)
        ↔ ((evaluate_event removal proven_host strict).effective ≡ block))
evaluate_event_blocks_example = evaluate_event_blocks removal proven_host strict

endpoint_matches-Covers_example :
    (endpoint_matches (text "api.io") (text "api.io.evil:443") ≡ true)
    ↔ Covers (text "api.io") (text "api.io.evil:443")
endpoint_matches-Covers_example = endpoint_matches-Covers (text "api.io") (text "api.io.evil:443")
