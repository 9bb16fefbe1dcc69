-- ===== src/Finding.antt =====
-- crates/apolysis-accountability/src/finding.rs: the analyzer that compares an observed effect with
-- the intent of its session.
pub mod Matching
pub mod Verdict
mod Examples
use apolysis.Common.{
  ℕ, ◌≡◌, Bool, true, false, not, ◌&&◌, ◌||◌, Option, none, some, List, [], ◌∷◌, ◌++◌, any,
  if◌then◌else◌,
}
use apolysis.Common.Text.{
  Text, text, trim_end_matches, strip_prefix, starts_with, ends_with, contains_text, eqb,
}
use apolysis.Intent.{
  SessionIntent, ActionClass, test, build, execute, read_file, write_file, network, credential,
  ResourceKind, workspace, path, egress,
}

abbrev pub finding_schema_v1 : ℕ
finding_schema_v1 = 1

pub data EffectKind : Type 0 where
  exec file_read file_write network_connect credential_read service_account_token_read : EffectKind

unfoldable pub action_class : EffectKind → ActionClass
action_class exec = execute
action_class file_read = read_file
action_class service_account_token_read = read_file
action_class file_write = write_file
action_class network_connect = network
action_class credential_read = credential

pub data EvidenceBoundary : Type 0 where
  host_boundary guest_semantic : EvidenceBoundary

pub record RuntimeIdentity : Type 0 where
  pub runtime : Text
  pub container_id : Option Text
  pub pod_uid : Option Text
  pub cgroup_id : Option ℕ

pub record ObservedEffect : Type 0 where
  pub session_id : Text
  pub evidence_ref : Text
  pub kind : EffectKind
  pub actor : Text
  pub resource : Text
  pub runtime : RuntimeIdentity
  pub evidence_boundary : EvidenceBoundary

pub data FindingKind : Type 0 where
  missing_intent undeclared_action credential_read workspace_boundary unknown_egress : FindingKind
  dangerous_command service_account_token_read : FindingKind

pub data FindingDecision : Type 0 where
  notify review : FindingDecision

pub record AccountabilityFinding : Type 0 where
  pub schema_version : ℕ
  pub session_id : Text
  pub kind : FindingKind
  pub decision : FindingDecision
  pub reason : Text
  pub evidence_ref : Text
  pub runtime : RuntimeIdentity
  pub evidence_boundary : EvidenceBoundary

unfoldable pub finding :
    ObservedEffect → FindingKind → FindingDecision → Text → AccountabilityFinding
finding effect kind decision reason = record {
  schema_version = finding_schema_v1;
  session_id = effect.session_id;
  kind = kind;
  decision = decision;
  reason = reason;
  evidence_ref = effect.evidence_ref;
  runtime = effect.runtime;
  evidence_boundary = effect.evidence_boundary;
}

abbrev pub action_eqb : ActionClass → ActionClass → Bool
action_eqb test test = true
action_eqb build build = true
action_eqb execute execute = true
action_eqb read_file read_file = true
action_eqb write_file write_file = true
action_eqb network network = true
action_eqb credential credential = true
action_eqb _ _ = false

-- `matches!(selector.kind, ResourceKind::Workspace | ResourceKind::Path)`
abbrev pub is_path_kind : ResourceKind → Bool
is_path_kind workspace = true
is_path_kind path = true
is_path_kind _ = false

abbrev pub is_egress_kind : ResourceKind → Bool
is_egress_kind egress = true
is_egress_kind _ = false

unfoldable pub has_path_policy : SessionIntent → Bool
has_path_policy intent = any (λ s. is_path_kind s.kind) intent.allowed_resources

abbrev pub has_slash : Option Text → Bool
has_slash none = false
has_slash (some suffix) = starts_with (text "/") suffix

unfoldable pub path_matches : Text → Text → Bool
path_matches prefix resource =
    let trimmed = trim_end_matches b'/' prefix in
    eqb resource trimmed || has_slash (strip_prefix trimmed resource)

abbrev pub has_suffix : Text → Option Text → Bool
has_suffix endpoint none = false
has_suffix endpoint (some suffix) = ends_with suffix endpoint

unfoldable pub endpoint_matches : Text → Text → Bool
endpoint_matches selector endpoint =
    if eqb selector endpoint then true else has_suffix endpoint (strip_prefix (text "*.") selector)

abbrev pub dangerous_commands : List Text
dangerous_commands =
    text "rm -rf" ∷ text "curl | sh" ∷ text "wget | sh" ∷ text "chmod 777" ∷ text "dd if=" ∷ []

unfoldable pub is_dangerous_command : Text → Bool
is_dangerous_command command = any (λ p. contains_text p command) dangerous_commands

unfoldable pub declares : SessionIntent → EffectKind → Bool
unfolding action_class
declares intent kind = any (action_eqb (action_class kind)) intent.declared_actions

unfoldable pub allows_path : SessionIntent → Text → Bool
allows_path intent resource =
    any (λ s. is_path_kind s.kind && path_matches s.value resource) intent.allowed_resources

unfoldable pub allows_egress : SessionIntent → Text → Bool
allows_egress intent resource =
    any (λ s. is_egress_kind s.kind && endpoint_matches s.value resource) intent.allowed_resources

abbrev pub file_findings : SessionIntent → ObservedEffect → List AccountabilityFinding
file_findings intent effect =
    if has_path_policy intent && not (allows_path intent effect.resource)
    then finding effect workspace_boundary review
        (text "file access crossed the declared workspace boundary")
      ∷ []
    else []

-- The `match effect.kind`.
unfoldable pub kind_findings :
    EffectKind → SessionIntent → ObservedEffect → List AccountabilityFinding
kind_findings credential_read intent effect =
    finding effect credential_read notify (text "workload read a credential-classified resource")
    ∷ []
kind_findings file_read intent effect = file_findings intent effect
kind_findings file_write intent effect = file_findings intent effect
kind_findings network_connect intent effect =
    if not (allows_egress intent effect.resource)
    then finding effect unknown_egress review
        (text "network endpoint is outside the declared egress set")
      ∷ []
    else []
kind_findings exec intent effect =
    if is_dangerous_command effect.actor
    then finding effect dangerous_command review
        (text "command matches the dangerous-command baseline")
      ∷ []
    else []
kind_findings service_account_token_read intent effect =
    finding effect service_account_token_read review
      (text "workload read a Kubernetes service account token")
    ∷ []

abbrev pub declaration_findings : SessionIntent → ObservedEffect → List AccountabilityFinding
declaration_findings intent effect =
    if not (declares intent effect.kind)
    then finding effect undeclared_action review
        (text "observed action class was not declared by intent")
      ∷ []
    else []

-- `AccountabilityAnalyzer::evaluate`.
unfoldable pub evaluate : Option SessionIntent → ObservedEffect → List AccountabilityFinding
evaluate none effect =
    finding effect missing_intent review (text "marked workload has no registered intent") ∷ []
evaluate (some intent) effect =
    declaration_findings intent effect ++ kind_findings effect.kind intent effect
