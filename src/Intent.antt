-- ===== src/Intent.antt =====
-- crates/apolysis-accountability/src/intent.rs: session intents, the requests of the intent socket
-- and their validation. `serde_json::from_slice` is a parameter of the frame decoder; what serde
-- fills in for absent fields happens inside it.
pub mod Accepted
mod Examples
use apolysis.Common.{
  ℕ, ◌+◌, ◌*◌, ◌≤◌, ◌≡◌, Bool, true, false, not, ◌&&◌, ◌||◌, Option, none, some, List, [], ◌∷◌, ltb,
  leb, ◌==◌, if◌then◌else◌, Result, ok, err, ◌>>=◌, ◌>>◌, reject_if, map_err, all, length,
}
use apolysis.Common.Text.{Text, text, trim, byte_len, is_nil, is_ascii_alphanumeric}

abbrev pub intent_schema_v1 : ℕ
intent_schema_v1 = 1

abbrev pub max_intent_frame_bytes : ℕ
max_intent_frame_bytes = 64 * 1024

abbrev pub default_tenant_id : Text
default_tenant_id = text "default"

pub data RetentionTier : Type 0 where
  short standard extended : RetentionTier

abbrev pub day_ms : ℕ
day_ms = 24 * 60 * 60 * 1_000

unfoldable pub retention_window_ms : RetentionTier → ℕ
retention_window_ms short = 7 * day_ms
retention_window_ms standard = 30 * day_ms
retention_window_ms extended = 365 * day_ms

pub data ActionClass : Type 0 where
  test build execute read_file write_file network credential : ActionClass

pub data ResourceKind : Type 0 where
  workspace path egress command credential service_account_token : ResourceKind

pub record ResourceSelector : Type 0 where
  pub kind : ResourceKind
  pub value : Text

pub data RuntimeSelector : Type 0 where
  local docker containerd kubernetes : RuntimeSelector

pub record WorkloadSelector : Type 0 where
  pub runtime : RuntimeSelector
  pub key : Text
  pub value : Text

pub record SessionIntent : Type 0 where
  pub schema_version : ℕ
  pub tenant_id : Text
  pub retention_tier : RetentionTier
  pub session_id : Text
  pub expires_at_unix_ms : ℕ
  pub declared_actions : List ActionClass
  pub allowed_resources : List ResourceSelector
  pub policy_ref : Text
  pub workload_selectors : List WorkloadSelector

pub data IntentError : Type 0 where
  frame_too_large : ℕ → IntentError
  invalid_json : Text → IntentError
  unsupported_schema_version : ℕ → IntentError
  empty_tenant_id invalid_tenant_id empty_session_id invalid_session_id : IntentError
  empty_policy_ref expired : IntentError

-- The test of both identifiers on each byte; the bytes of a longer encoding fail it too.
unfoldable pub is_id_char : ℕ → Bool
unfolding is_ascii_alphanumeric
is_id_char c = is_ascii_alphanumeric c || (c == b'.' || (c == b'_' || c == b'-'))

unfoldable pub validate_session_id : Text → Result (Unit {0}) IntentError
validate_session_id s = do
  reject_if (is_nil (trim s)) empty_session_id
  reject_if (ltb 128 (byte_len s) || not (all is_id_char s)) invalid_session_id
  ok tt

unfoldable pub validate_tenant_id : Text → Result (Unit {0}) IntentError
validate_tenant_id s = do
  reject_if (is_nil (trim s)) empty_tenant_id
  reject_if (ltb 63 (byte_len s) || not (all is_id_char s)) invalid_tenant_id
  ok tt

-- `SessionIntent::validate`.
unfoldable pub validate_intent : SessionIntent → ℕ → Result (Unit {0}) IntentError
validate_intent i now = do
  reject_if (not (i.schema_version == intent_schema_v1))
      (unsupported_schema_version i.schema_version)
  validate_tenant_id i.tenant_id
  validate_session_id i.session_id
  reject_if (leb i.expires_at_unix_ms now) expired
  reject_if (is_nil (trim i.policy_ref)) empty_policy_ref
  ok tt

pub data IntentRequest : Type 0 where
  register : SessionIntent → IntentRequest
  renew : Text → ℕ → IntentRequest
  close : Text → IntentRequest
  query : Text → Text → IntentRequest
  list_sessions : Text → Option RetentionTier → IntentRequest
  apply_retention : Text → Bool → Option ℕ → IntentRequest
  health : IntentRequest

-- `IntentRequest::validate`.
unfoldable pub validate_request : IntentRequest → ℕ → Result (Unit {0}) IntentError
validate_request (register intent) now = validate_intent intent now
validate_request (renew session expires) now = do
  validate_session_id session
  reject_if (leb expires now) expired
  ok tt
validate_request (close session) now = validate_session_id session
validate_request (query tenant session) now = do
  validate_tenant_id tenant
  validate_session_id session
validate_request (list_sessions tenant tier) now = validate_tenant_id tenant
validate_request (apply_retention tenant dry_run at) now = validate_tenant_id tenant
validate_request health now = ok tt

-- `decode_intent_frame`, over the JSON reader.
unfoldable pub decode_intent_frame :
    (List ℕ → Result IntentRequest Text) → List ℕ → ℕ → Result IntentRequest IntentError
decode_intent_frame from_slice frame now = do
  reject_if (ltb max_intent_frame_bytes (length frame)) (frame_too_large (length frame))
  request ← map_err invalid_json (from_slice frame)
  validate_request request now
  ok request
