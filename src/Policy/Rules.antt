-- ===== src/Policy/Rules.antt =====
-- crates/apolysis-policy/src/lib.rs: the rules of a policy, and the evaluation of an event.
use apolysis.Common.{
  ℕ, Bool, true, false, not, ◌&&◌, ◌||◌, Option, none, some, List, [], ◌∷◌, ◌++◌, ◌==◌, any,
  if◌then◌else◌, unwrap_or,
}
use apolysis.Common.Text.{
  Text, text, is_nil, eqb, strip_prefix, starts_with, ends_with, contains_text,
}
use apolysis.Policy.{
  DecisionKind, allow, notify, block, kill, review, EnforcementRuntime, local, EventType, exec,
  file_open, file_create, file_truncate, file_unlink, file_rename, network_connect, credential_read,
  session_started, runtime_metadata, process_exit, other, audit_only, Policy, PolicyDecision,
  PolicyEvaluation, PolicyRuntimeCapabilities, DecisionDowngrade, EnforcementCapability,
  CanonicalEvent, runtime_str, decision_str,
}
use apolysis.Policy.Capabilities.{
  resolve, safe_non_block_fallback, any_preoperation_block_available,
}

-- `s.rsplit_once(c)`: what stands before and after the last occurrence.
unfoldable pub rsplit_once : ℕ → Text → Option (Text × Text)
rsplit_once a [] = none
rsplit_once a (c ∷ s) = elim (rsplit_once a s) [
  | some (before, after) ↦ some (c ∷ before, after)
  | none ↦ if c == a then some ([], s) else none
]

abbrev pub without_dot : Text → Text
without_dot s = unwrap_or (strip_prefix (text "./") s) s

-- `path.ends_with(&suffix) || path.contains(&format!("{suffix}/"))`
unfoldable pub occurs_as_part : Text → Text → Bool
occurs_as_part suffix path = ends_with suffix path || contains_text (suffix ++ text "/") path

abbrev pub matches_inside : Text → Text → Option Text → Bool
matches_inside rule path (some home_relative) = occurs_as_part (text "/" ++ home_relative) path
matches_inside rule path none =
    if not (starts_with (text "/") rule) then occurs_as_part (text "/" ++ rule) path else false

unfoldable pub path_matches : Text → Text → Bool
path_matches rule_text path_text =
    let rule = without_dot rule_text in
    let path = without_dot path_text in
    if eqb path rule || starts_with (rule ++ text "/") path
    then true
    else matches_inside rule path (strip_prefix (text "~/") rule)

unfoldable pub path_matches_any : List Text → Text → Bool
path_matches_any rules path = any (λ rule. path_matches rule path) rules

abbrev pub host_matches : Text × Text → Option (Text × Text) → Bool
host_matches (host, port) none = false
host_matches (host, port) (some (endpoint_host, endpoint_port)) =
    eqb host endpoint_host && eqb port (text "0")

abbrev pub split_matches : Text → Text → Option (Text × Text) → Bool
split_matches rule endpoint none = starts_with rule endpoint
split_matches rule endpoint (some parts) = host_matches parts (rsplit_once b':' endpoint)

unfoldable pub endpoint_matches : Text → Text → Bool
endpoint_matches rule endpoint =
    if eqb rule endpoint then true else split_matches rule endpoint (rsplit_once b':' rule)

unfoldable pub endpoint_matches_any : List Text → Text → Bool
endpoint_matches_any rules endpoint = any (λ rule. endpoint_matches rule endpoint) rules

unfoldable pub decision_for_kind : DecisionKind → Text → Text → PolicyDecision
decision_for_kind allow rule_id reason = allow
decision_for_kind notify rule_id reason = notify rule_id reason
decision_for_kind block rule_id reason = block rule_id reason
decision_for_kind kill rule_id reason = kill rule_id reason
decision_for_kind review rule_id reason = review rule_id reason

-- `PolicyEvaluation::allow`.
abbrev pub allowed : PolicyEvaluation
allowed = record {
  decision = allow;
  requested = allow;
  effective = allow;
  enforcement_backend = audit_only;
  timing = audit_only;
  runtime = local;
  action = other;
  preoperation_prevention = false;
  downgrade = none;
}

unfoldable pub denies_credential_path : Text → Policy → Bool
denies_credential_path path p = any (λ rule. path_matches rule path) p.credentials.deny_read

unfoldable pub evaluate_file_read : Text → Policy → PolicyDecision
evaluate_file_read path p =
    if denies_credential_path path p
    then notify (text "credentials.deny_read") (text "file path matches credential deny list")
    else allow

-- The rule of an allow list: it is broken if there is a list and nothing in it matches.
abbrev pub unless_listed : Bool → Bool → Text → Text → Option (Text × Text)
unless_listed empty matched rule_id reason =
    if not empty && not matched then some (rule_id, reason) else none

abbrev pub write_rule : Text → Policy → Option (Text × Text)
write_rule resource p =
    unless_listed (is_nil p.workspace.allow_write)
      (path_matches_any p.workspace.allow_write resource) (text "workspace.allow_write")
      (text "file write is outside workspace write allow list")

-- The match of `match_event_rule`.
unfoldable pub match_rule : EventType → Text → Text → Policy → Option (Text × Text)
match_rule credential_read actor resource p =
    some (text "credentials.deny_read", text "file path matches credential deny list")
match_rule file_open actor resource p =
    unless_listed (is_nil p.workspace.allow_read) (path_matches_any p.workspace.allow_read resource)
      (text "workspace.allow_read") (text "file read is outside workspace read allow list")
match_rule file_create actor resource p = write_rule resource p
match_rule file_truncate actor resource p = write_rule resource p
match_rule file_unlink actor resource p = write_rule resource p
match_rule file_rename actor resource p = write_rule resource p
match_rule network_connect actor resource p =
    unless_listed (is_nil p.network.allow_egress)
      (endpoint_matches_any p.network.allow_egress resource) (text "network.allow_egress")
      (text "network endpoint is outside egress allow list")
match_rule exec actor resource p =
    if any (λ rule. contains_text rule actor || contains_text rule resource) p.commands.deny
    then some (text "commands.deny", text "command matches deny list")
    else none
match_rule session_started actor resource p = none
match_rule runtime_metadata actor resource p = none
match_rule process_exit actor resource p = none

unfoldable pub match_event_rule : CanonicalEvent → Policy → Option (Text × Text)
match_event_rule e p = match_rule e.event_type e.actor e.resource p

unfoldable pub effective_decision :
    PolicyRuntimeCapabilities → EventType → Policy → EnforcementCapability
effective_decision c event p =
    resolve p.enforcement.requested p.enforcement.fallback c.runtime event c

unfoldable pub evaluation_of : Text → Text → EnforcementCapability → PolicyEvaluation
evaluation_of rule_id reason c = record {
  decision = decision_for_kind c.effective rule_id reason;
  requested = c.requested;
  effective = c.effective;
  enforcement_backend = c.enforcement_backend;
  timing = c.timing;
  runtime = c.runtime;
  action = c.action;
  preoperation_prevention = c.preoperation_prevention;
  downgrade = c.downgrade;
}

unfoldable pub evaluate_event :
    CanonicalEvent → PolicyRuntimeCapabilities → Policy → PolicyEvaluation
evaluate_event e c p = elim (match_event_rule e p) [
  | none ↦ allowed
  | some (rule_id, reason) ↦ evaluation_of rule_id reason (effective_decision c e.event_type p)
]

abbrev pub is_block : DecisionKind → Bool
is_block block = true
is_block _ = false

abbrev pub downgraded_at_start : EnforcementRuntime → DecisionKind → DecisionDowngrade
downgraded_at_start runtime fallback = record {
  downgraded_from = block;
  to = fallback;
  reason =
      text "pre-operation block is not available for runtime "
      ++ (runtime_str runtime
          ++ (text "; requested block downgraded to " ++ decision_str fallback));
}

unfoldable pub startup_downgrade : PolicyRuntimeCapabilities → Policy → Option DecisionDowngrade
startup_downgrade c p =
    if is_block p.enforcement.requested && not (any_preoperation_block_available c)
    then some (downgraded_at_start c.runtime (safe_non_block_fallback p.enforcement.fallback))
    else none
