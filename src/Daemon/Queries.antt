-- ===== src/Daemon/Queries.antt =====
-- crates/apolysis-daemon/src/state.rs: the methods that only read, and the settings of the health.
use apolysis.Common.{
  ℕ, Bool, true, false, Option, none, some, List, [], ◌∷◌, ok, err, unwrap_or, if◌then◌else◌,
}
use apolysis.Common.Ordered.{bytes_ord}
use apolysis.Common.Text.{Text, text}
use apolysis.Common.TreeMap
use apolysis.Common.TreeMap.{map_option}
use apolysis.Health
use apolysis.Health.{HealthSnapshot, ComponentState, AdapterKind}
use apolysis.Intent.{RetentionTier, ResourceKind, ResourceSelector, workspace}
use apolysis.Registry.{SessionState}
use apolysis.Registry.Retention as Retention
use apolysis.Pipeline
use apolysis.Policy.{Policy}
use apolysis.Policy.Rules.{denies_credential_path}
use apolysis.Daemon.{Services, DaemonState}

abbrev pub is_workspace : ResourceKind → Bool
is_workspace workspace = true
is_workspace _ = false

-- `iter().find(..)`.
abbrev pub find_workspace : List ResourceSelector → Option ResourceSelector
find_workspace [] = none
find_workspace (s ∷ ss) = if is_workspace s.kind then some s else find_workspace ss

abbrev pub denies : Text → Option Policy → Bool
denies path none = true
denies path (some policy) = denies_credential_path path policy

module _ (services : Services) where
  unfoldable pub query : Text → DaemonState services → Option SessionState
  query session d = Retention.get session d.registry

  unfoldable pub query_for_tenant : Text → Text → DaemonState services → Option SessionState
  query_for_tenant session tenant d = Retention.get_for_tenant session tenant d.registry

  unfoldable pub list_for_tenant :
      Text → Option RetentionTier → DaemonState services → List SessionState
  list_for_tenant tenant tier d = Retention.list_for_tenant tenant tier d.registry

  unfoldable pub session_for_cgroup : ℕ → DaemonState services → Option Text
  session_for_cgroup cgroup d = Retention.session_for_cgroup cgroup d.registry

  unfoldable pub tracked_cgroups : DaemonState services → List ℕ
  tracked_cgroups d = Retention.tracked_cgroups d.registry

  unfoldable pub workspace_root_for_session : Text → DaemonState services → Text
  workspace_root_for_session session d = elim (Retention.get session d.registry) [
    | none ↦ text "/__apolysis_no_workspace__"
    | some s ↦
        unwrap_or (map_option (λ r. r.value) (find_workspace s.intent.allowed_resources))
          (text "/__apolysis_no_workspace__")
  ]

  -- A session without a readable policy has every path redacted.
  unfoldable pub credential_path_requires_redaction : Text → Text → DaemonState services → Bool
  credential_path_requires_redaction session path d =
      denies path (unwrap_or (TreeMap.get session d.redaction_policies) none)

  unfoldable pub health : DaemonState services → HealthSnapshot
  health d = elim (Pipeline.stats d.pipeline) [
    | ok stats ↦ record (d.health) { queue = stats }
    | err e ↦ d.health
  ]

  unfoldable pub set_ebpf : ComponentState → DaemonState services → DaemonState services
  set_ebpf state d = record d { health = Health.set_ebpf state d.health }

  unfoldable pub set_adapter :
      AdapterKind → ComponentState → DaemonState services → DaemonState services
  set_adapter adapter state d = record d { health = Health.set_adapter adapter state d.health }
