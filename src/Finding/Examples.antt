-- ===== src/Finding/Examples.antt =====
-- The analyzer on small inputs.
use apolysis.Common.{◌⊎◌, ◌++◌, ◌≡◌, ◌≢◌, ◌↔◌, true, some, none, [], ◌∷◌}
use apolysis.Common.Text.{Text, text, trim_end_matches}
use apolysis.Intent.{SessionIntent, standard, network, egress}
use apolysis.Finding.{
  ObservedEffect, network_connect, host_boundary, evaluate, declares, endpoint_matches,
  path_matches,
}
use apolysis.Finding.Matching.{path_matches_iff, endpoint_matches_iff}
use apolysis.Finding.Verdict.{IsInOrder, evaluate-nil_iff}

abbrev intent : SessionIntent
intent = record {
  schema_version = 1;
  tenant_id = text "default";
  retention_tier = standard;
  session_id = text "run-1";
  expires_at_unix_ms = 50;
  declared_actions = network ∷ [];
  allowed_resources = record { kind = egress; value = text "*.x.io" } ∷ [];
  policy_ref = text "local";
  workload_selectors = [];
}

abbrev connection : ObservedEffect
connection = record {
  session_id = text "run-1";
  evidence_ref = text "ev-1";
  kind = network_connect;
  actor = text "curl";
  resource = text "api.x.io";
  runtime = record {
    runtime = text "docker";
    container_id = none;
    pod_uid = none;
    cgroup_id = some 7;
  };
  evidence_boundary = host_boundary;
}

path_matches_iff_example : (path_matches (text "/w/") (text "/w/a") ≡ true) ↔ (
    (text "/w/a" ≡ trim_end_matches b'/' (text "/w/"))
    ⊎ ((r : Text) × (text "/w/a" ≡ trim_end_matches b'/' (text "/w/") ++ b'/' ∷ r)))
path_matches_iff_example = path_matches_iff (text "/w/") (text "/w/a")

endpoint_matches_iff_example : (endpoint_matches (text "*.x.io") (text "evilx.io") ≡ true) ↔ (
    (text "*.x.io" ≡ text "evilx.io")
    ⊎ ((suffix head : Text) × (text "*.x.io" ≡ text "*." ++ suffix)
        × (text "evilx.io" ≡ head ++ suffix)))
endpoint_matches_iff_example = endpoint_matches_iff (text "*.x.io") (text "evilx.io")

evaluate-nil_iff_example :
    ((evaluate (some intent) connection ≡ [])
      ↔ ((declares intent network_connect ≡ true) × IsInOrder network_connect intent connection))
    × (evaluate none connection ≢ [])
evaluate-nil_iff_example = evaluate-nil_iff intent connection
