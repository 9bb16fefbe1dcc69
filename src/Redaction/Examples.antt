-- ===== src/Redaction/Examples.antt =====
-- Redaction on small inputs.
use apolysis.Common.{
  ℕ, ◌≡◌, ◌↔◌, ◌≤◌, refl, true, false, none, some, List, [], ◌∷◌, ◌++◌, take, arith, Bool,
}
use apolysis.Common.Text.{
  Text, text, starts_with, strip_prefix, ends_with, contains_text, is_whitespace,
}
use apolysis.HashChain.{encode_hex}
use apolysis.Policy.Rules.{rsplit_once}
use apolysis.Policy.{file_open, credential_read}
use apolysis.Redaction.{
  RawKernelEvent, kernel_tracepoint, Redactor, redact_resource, redact_raw_event_for_persistence,
  relative_path_stays_in_workspace, components, is_workspace_path, socket_port, persisted_type,
  is_absolute, stays_from, segments, inner_components, token, token_value, begins_with,
  parses_as_u16, digits_value, redact_as, persisted_payload, marked,
}
use apolysis.Redaction.Paths.{relative_path_stays_lem, ups, names}
use apolysis.Redaction.Hidden.{about, hidden_alike}
use apolysis.Redaction.Command.{
  redact_command_text_for_persistence, redact_words, redact_word, redact_assignment,
  redact_plain_word, redact_command_argument_resource, network_argument_resource, redact_next_after,
  announces_secret, secret_flag, secret_word, authorization_marker, looks_like_secret_value,
  looks_like_path_argument, looks_like_credential_path, unquoted, to_ascii_lowercase, join,
  split_once, split_whitespace, words_from,
}
use apolysis.Redaction.Command.Concealed.{redact_command-Concealed, redact_next_from}

-- A digest that tells nothing.
abbrev zeros : List ℕ → List ℕ
zeros bytes = 0 ∷ 0 ∷ 0 ∷ 0 ∷ 0 ∷ 0 ∷ 0 ∷ 0 ∷ 0 ∷ 0 ∷ 0 ∷ 0 ∷ 0 ∷ 0 ∷ []

abbrev redactor : Redactor
redactor = record { session_id = text "run-1"; workspace_root = text "/work/repo" }

abbrev raw_event : Text → Text → Text → RawKernelEvent
raw_event event_name resource payload = record {
  timestamp_unix_ms = 10;
  session_id = text "run-1";
  event_source = kernel_tracepoint;
  event_name = event_name;
  event_id = none;
  pid = 7;
  ppid = 1;
  uid = 1000;
  gid = 1000;
  comm = text "agent";
  resource = resource;
  action = text "open";
  container_id = none;
  cgroup_id = none;
  raw_payload = payload;
}

abbrev hidden_path : Text
hidden_path = text "path_token:000000000000000000000000"

written_paths :
    ((redact_resource zeros redactor file_open (text "src/../a")).value ≡ text "src/../a")
    × ((redact_resource zeros redactor file_open (text "../a")).value ≡ hidden_path)
    × ((redact_resource zeros redactor file_open (text "/etc/passwd")).value ≡ hidden_path)
    × ((redact_resource zeros redactor file_open (text "/work/repo/a")).value ≡ text "/work/repo/a")
    × ((redact_resource zeros redactor credential_read (text "a")).value ≡ hidden_path)
unfolding redact_resource is_workspace_path relative_path_stays_in_workspace stays_from token
    token_value encode_hex is_absolute starts_with strip_prefix begins_with components segments
    inner_components
written_paths = (refl, refl, refl, refl, refl)

ports :
    (socket_port (text "10.0.0.1:443") ≡ some (text "443"))
    × (socket_port (text "[::1]:65536") ≡ none)
    × (socket_port (text "host") ≡ none)
unfolding socket_port rsplit_once parses_as_u16 digits_value
ports = (refl, refl, refl)

-- A hidden rename with a payload keeps no mark for its resource.
rename_marks :
    (redact_raw_event_for_persistence zeros
      (raw_event (text "rename") (text "/etc/a") (text "/work/repo/a"))
      redactor
      false).raw_payload
    ≡ text "/work/repo/a"
unfolding redact_raw_event_for_persistence persisted_type redact_as persisted_payload marked
    redact_resource is_workspace_path is_absolute starts_with strip_prefix begins_with components
    segments inner_components
rename_marks = refl

-- An absolute path that climbs out of the workspace counts as inside it.
climbing_path : is_workspace_path redactor (text "/work/repo/../../etc/shadow") ≡ true
unfolding is_workspace_path is_absolute starts_with strip_prefix begins_with components segments
    inner_components
climbing_path = refl

relative_path_stays_lem_example : (relative_path_stays_in_workspace (text "a/../b") ≡ true) ↔ (
    (n : ℕ)
    → ups (take n (components (text "a/../b"))) ≤ names (take n (components (text "a/../b"))))
unfolding is_absolute starts_with strip_prefix begins_with components segments inner_components
relative_path_stays_lem_example = relative_path_stays_lem (text "a/../b") refl (ground arith)

hidden_alike_example :
    redact_raw_event_for_persistence zeros
      (about (raw_event (text "openat") [] []) (text "/etc/shadow"))
      redactor
      false
    ≡ redact_raw_event_for_persistence zeros
        (about (raw_event (text "openat") [] []) (text "../x"))
        redactor
        false
unfolding persisted_type redact_resource is_workspace_path relative_path_stays_in_workspace
    stays_from token token_value encode_hex is_absolute starts_with strip_prefix begins_with
    components segments inner_components
hidden_alike_example =
    hidden_alike zeros redactor (raw_event (text "openat") [] []) false file_open
      (text "/etc/shadow") (text "../x") refl (λ e. ground arith) refl refl refl

abbrev no_address : Text → Bool
no_address value = false

abbrev written_command : Text → Text
written_command command =
    (redact_command_text_for_persistence zeros no_address no_address (text "run-1")
      (text "/work/repo") command).value

abbrev keyed : Text → Text
keyed key = text "tool --api-key " ++ (key ++ text " src/a")

command_words :
    (written_command (keyed (text "k1")) ≡ text "tool --api-key <redacted> src/a")
    × (written_command (text "x  PASSWORD=p  ghp_a") ≡ text "x PASSWORD=<redacted> <redacted>")
    × (written_command (text "cat /etc/x") ≡ text "cat " ++ hidden_path)
unfolding redact_command_text_for_persistence redact_words redact_word redact_assignment
    redact_plain_word redact_command_argument_resource network_argument_resource redact_next_after
    announces_secret secret_flag secret_word authorization_marker looks_like_secret_value
    looks_like_path_argument looks_like_credential_path unquoted to_ascii_lowercase join split_once
    split_whitespace words_from ends_with contains_text is_whitespace redact_resource
    is_workspace_path relative_path_stays_in_workspace stays_from token token_value encode_hex
    is_absolute starts_with strip_prefix begins_with components segments inner_components
command_words = (refl, refl, refl)

-- A flag joined to its secret by an equals sign is written as it stands, and the next word is
-- hidden in its place.
joined_flag_leaks : written_command (text "curl --token=abc x") ≡ text "curl --token=abc <redacted>"
unfolding redact_command_text_for_persistence redact_words redact_word redact_assignment
    redact_plain_word redact_command_argument_resource network_argument_resource redact_next_after
    announces_secret secret_flag secret_word authorization_marker looks_like_secret_value
    looks_like_path_argument looks_like_credential_path unquoted to_ascii_lowercase join split_once
    split_whitespace words_from ends_with contains_text is_whitespace redact_resource
    is_workspace_path relative_path_stays_in_workspace stays_from token token_value encode_hex
    is_absolute starts_with strip_prefix begins_with components segments inner_components
joined_flag_leaks = refl

-- Of a header with a scheme, the scheme is hidden and the secret is written.
bearer_leaks :
    written_command (text "curl -H 'Authorization: Bearer abc'")
    ≡ text "curl -H 'Authorization: <redacted> abc'"
unfolding redact_command_text_for_persistence redact_words redact_word redact_assignment
    redact_plain_word redact_command_argument_resource network_argument_resource redact_next_after
    announces_secret secret_flag secret_word authorization_marker looks_like_secret_value
    looks_like_path_argument looks_like_credential_path unquoted to_ascii_lowercase join split_once
    split_whitespace words_from ends_with contains_text is_whitespace redact_resource
    is_workspace_path relative_path_stays_in_workspace stays_from token token_value encode_hex
    is_absolute starts_with strip_prefix begins_with components segments inner_components
bearer_leaks = refl

redact_command-Concealed_example :
    redact_command_text_for_persistence zeros no_address no_address
      (text "run-1")
      (text "/work/repo")
      (keyed (text "k1"))
    ≡ redact_command_text_for_persistence zeros no_address no_address
        (text "run-1")
        (text "/work/repo")
        (keyed (text "k2"))
unfolding redact_next_from redact_next_after announces_secret secret_flag secret_word starts_with
    strip_prefix contains_text to_ascii_lowercase authorization_marker unquoted split_whitespace
    words_from is_whitespace
redact_command-Concealed_example =
    redact_command-Concealed zeros no_address no_address (text "run-1") (text "/work/repo")
      (keyed (text "k1")) (keyed (text "k2")) (text "tool" ∷ []) (text "src/a" ∷ [])
      (text "--api-key") (text "k1") (text "k2") refl refl refl refl
