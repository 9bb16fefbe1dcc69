-- ===== src/Redaction.antt =====
-- crates/apolysis-observer/src/redaction.rs: what is hidden of an observed event before it is written.
-- Paths are texts with the components that `std::path` documents; SHA-256 is a parameter, from bytes
-- to bytes.
pub mod Paths
pub mod Hidden
pub mod Command
mod Examples
use apolysis.Common.{
  ℕ, zero, suc, ◌+◌, ◌-◌, ◌*◌, ◌/◌, ◌%◌, ◌^◌, Bool, true, false, not, ◌&&◌, ◌||◌, Option, none,
  some, List, [], ◌∷◌, ◌++◌, ltb, leb, ◌==◌, if◌then◌else◌, take, unwrap_or, length,
}
use apolysis.Common.Text.{Text, text, eqb, starts_with, is_nil}
use apolysis.HashChain.{encode_hex}
use apolysis.Policy.{
  EventType, exec, file_open, file_create, file_truncate, file_unlink, file_rename, network_connect,
  credential_read,
}
use apolysis.Policy.Rules.{rsplit_once}

-- `crates/apolysis-core/src/lib.rs`: where an event comes from, and the event as delivered.
pub data EventSource : Type 0 where
  manual process_tree kernel_tracepoint bpf_lsm uprobe runtime_metadata agent_feedback : EventSource

pub record RawKernelEvent : Type 0 where
  pub timestamp_unix_ms : ℕ
  pub session_id : Text
  pub event_source : EventSource
  pub event_name : Text
  pub event_id : Option Text
  pub pid : ℕ
  pub ppid : ℕ
  pub uid : ℕ
  pub gid : ℕ
  pub comm : Text
  pub resource : Text
  pub action : Text
  pub container_id : Option Text
  pub cgroup_id : Option Text
  pub raw_payload : Text

pub record RedactedValue : Type 0 where
  pub value : Text
  pub redacted : Bool

pub record Redactor : Type 0 where
  pub session_id : Text
  pub workspace_root : Text

-- `std::path::Component`, on Unix.
pub data Component : Type 0 where
  root_dir cur_dir parent_dir : Component
  normal : Text → Component

-- `split('/')`.
unfoldable pub segments : Text → Text → List Text
segments part [] = part ∷ []
segments part (c ∷ s) =
    let later = segments [] s in
    let longer = segments (part ++ c ∷ []) s in if c == b'/' then part ∷ later else longer

-- Past the start of a path, empty segments and dots are no components.
unfoldable pub inner_components : List Text → List Component
inner_components [] = []
inner_components (s ∷ ss) =
    let later = inner_components ss in
    if is_nil s || eqb s (text ".")
    then later
    else if eqb s (text "..")
    then parent_dir ∷ later
    else normal s ∷ later

abbrev pub relative_components : List Text → List Component
relative_components [] = []
relative_components (s ∷ ss) =
    if eqb s (text ".") then cur_dir ∷ inner_components ss else inner_components (s ∷ ss)

unfoldable pub is_absolute : Text → Bool
is_absolute path = starts_with (text "/") path

-- `Path::components`.
unfoldable pub components : Text → List Component
components path =
    if is_absolute path
    then root_dir ∷ inner_components (segments [] path)
    else relative_components (segments [] path)

abbrev pub same_component : Component → Component → Bool
same_component root_dir root_dir = true
same_component cur_dir cur_dir = true
same_component parent_dir parent_dir = true
same_component (normal a) (normal b) = eqb a b
same_component _ _ = false

-- `Path::starts_with`, by components.
unfoldable pub begins_with : List Component → List Component → Bool
begins_with [] path = true
begins_with (c ∷ prefix) [] = false
begins_with (c ∷ prefix) (d ∷ path) = same_component c d && begins_with prefix path

abbrev pub saturating_suc32 : ℕ → ℕ
saturating_suc32 n = if ltb (n + 1) (2 ^ 32) then n + 1 else n

-- The loop of `relative_path_stays_in_workspace`.
unfoldable pub stays_from : ℕ → List Component → Bool
stays_from depth [] = true
stays_from depth (cur_dir ∷ cs) = stays_from depth cs
stays_from depth (normal name ∷ cs) = stays_from (saturating_suc32 depth) cs
stays_from depth (parent_dir ∷ cs) =
    let later = stays_from (depth - 1) cs in if depth == 0 then false else later
stays_from depth (root_dir ∷ cs) = false

unfoldable pub relative_path_stays_in_workspace : Text → Bool
relative_path_stays_in_workspace path = stays_from 0 (components path)

unfoldable pub is_workspace_path : Redactor → Text → Bool
is_workspace_path r resource =
    if is_absolute resource
    then begins_with (components r.workspace_root) (components resource)
    else relative_path_stays_in_workspace resource

-- `char::encode_utf8`, and `str::as_bytes`.
abbrev encode_utf8 : ℕ → List ℕ
encode_utf8 c =
    if ltb c 0x80
    then c ∷ []
    else if ltb c 0x800
    then (0xc0 + c / 64) ∷ (0x80 + c % 64) ∷ []
    else if ltb c 0x10000
    then (0xe0 + c / 4096) ∷ (0x80 + c / 64 % 64) ∷ (0x80 + c % 64) ∷ []
    else (0xf0 + c / 262144) ∷ (0x80 + c / 4096 % 64) ∷ (0x80 + c / 64 % 64) ∷ (0x80 + c % 64) ∷ []

unfoldable pub as_bytes : Text → List ℕ
as_bytes [] = []
as_bytes (c ∷ s) = encode_utf8 c ++ as_bytes s

-- `port.parse::<u16>().is_ok()`: digits, after at most one plus sign, of a value that fits.
unfoldable pub digits_value : ℕ → Text → Option ℕ
digits_value n [] = some n
digits_value n (c ∷ s) =
    let later = digits_value (n * 10 + (c - b'0')) s in
    if leb b'0' c && leb c b'9' then later else none

abbrev pub fits_u16 : Option ℕ → Bool
fits_u16 none = false
fits_u16 (some n) = ltb n (2 ^ 16)

abbrev pub without_plus : Text → Text
without_plus [] = []
without_plus (c ∷ s) = if c == b'+' then s else c ∷ s

unfoldable pub parses_as_u16 : Text → Bool
parses_as_u16 s = not (is_nil (without_plus s)) && fits_u16 (digits_value 0 (without_plus s))

unfoldable pub socket_port : Text → Option Text
socket_port resource = elim (rsplit_once b':' resource) [
  | none ↦ none
  | some (host, port) ↦ if parses_as_u16 port then some port else none
]

unfoldable pub append_marker : Text → Text → Text
append_marker payload marker = if is_nil payload then marker else payload ++ (text "," ++ marker)

module _ (sha256 : List ℕ → List ℕ) where
  unfoldable pub token_value : Redactor → Text → Text → Text
  token_value r kind value =
      encode_hex
        (take 12 (sha256 (as_bytes r.session_id ++ (0 ∷ as_bytes kind ++ (0 ∷ as_bytes value)))))

  unfoldable pub token : Redactor → Text → Text → RedactedValue
  token r kind value = record {
    value = kind ++ (text "_token:" ++ token_value r kind value);
    redacted = true;
  }

  abbrev pub plain : Text → RedactedValue
  plain resource = record { value = resource; redacted = false }

  abbrev pub redact_path : Redactor → Text → RedactedValue
  redact_path r resource =
      if is_workspace_path r resource then plain resource else token r (text "path") resource

  unfoldable pub redact_resource : Redactor → EventType → Text → RedactedValue
  redact_resource r credential_read resource = token r (text "path") resource
  redact_resource r file_open resource = redact_path r resource
  redact_resource r file_create resource = redact_path r resource
  redact_resource r file_truncate resource = redact_path r resource
  redact_resource r file_unlink resource = redact_path r resource
  redact_resource r file_rename resource = redact_path r resource
  redact_resource r network_connect resource = record {
    value =
        text "address_token:"
        ++ (token_value r (text "address") resource
            ++ (text ":port:" ++ unwrap_or (socket_port resource) (text "unknown")));
    redacted = true;
  }
  redact_resource r _ resource = plain resource

-- The type that the name of an event tells; the other names are written as they came.
unfoldable pub persisted_type : Text → Bool → Option EventType
persisted_type event_name is_credential =
    if eqb event_name (text "open")
      || eqb event_name (text "openat")
      || eqb event_name (text "openat2")
    then some (if is_credential then credential_read else file_open)
    else if eqb event_name (text "creat")
    then some file_create
    else if eqb event_name (text "truncate") || eqb event_name (text "ftruncate")
    then some file_truncate
    else if eqb event_name (text "unlink") || eqb event_name (text "unlinkat")
    then some file_unlink
    else if eqb event_name (text "rename")
        || eqb event_name (text "renameat")
        || eqb event_name (text "renameat2")
    then some file_rename
    else if eqb event_name (text "connect")
    then some network_connect
    else none

abbrev pub is_file_rename : EventType → Bool
is_file_rename file_rename = true
is_file_rename _ = false

unfoldable pub marked : RedactedValue → Text → Text → Text
marked resource payload marker = if resource.redacted then append_marker payload marker else payload

module _ (sha256 : List ℕ → List ℕ) where
  unfoldable pub persisted_payload : Redactor → EventType → RawKernelEvent → Text
  persisted_payload r event_type raw =
      let first =
        marked (redact_resource sha256 r event_type raw.resource) raw.raw_payload
          (text "redacted:resource") in
      let payload = redact_resource sha256 r file_rename raw.raw_payload in
      if is_file_rename event_type && not (is_nil raw.raw_payload)
      then marked payload payload.value (text "redacted:payload")
      else first

  unfoldable pub redact_as : Redactor → RawKernelEvent → EventType → RawKernelEvent
  redact_as r raw event_type = record raw {
    resource = (redact_resource sha256 r event_type raw.resource).value;
    raw_payload = persisted_payload r event_type raw;
  }

  unfoldable pub redact_raw_event_for_persistence :
      RawKernelEvent → Redactor → Bool → RawKernelEvent
  redact_raw_event_for_persistence raw r is_credential =
      elim (persisted_type raw.event_name is_credential) [
        | none ↦ raw
        | some event_type ↦ redact_as r raw event_type
      ]
