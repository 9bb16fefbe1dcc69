-- ===== src/Intent/Examples.antt =====
-- The validation of intents on small inputs.
use apolysis.Common.{ℕ, ◌≤◌, ◌≡◌, ◌↔◌, refl, List, [], ◌∷◌, Result, ok, err, length}
use apolysis.Common.Text.{Text, text, trim, byte_len, is_whitespace, is_ascii_alphanumeric}
use apolysis.Intent.{
  SessionIntent, IntentRequest, renew, standard, validate_session_id, decode_intent_frame,
  invalid_session_id, max_intent_frame_bytes, is_id_char,
}
use apolysis.Intent.Accepted.{RequestIsInOrder, decode_intent_frame-ok}

-- A slash is no character of an identifier.
validate_session_id-slash : validate_session_id (text "a/b") ≡ err invalid_session_id
unfolding validate_session_id trim byte_len is_whitespace is_ascii_alphanumeric is_id_char
validate_session_id-slash = refl

abbrev run_intent : SessionIntent
run_intent = record {
  schema_version = 1;
  tenant_id = text "default";
  retention_tier = standard;
  session_id = text "run-1";
  expires_at_unix_ms = 50;
  declared_actions = [];
  allowed_resources = [];
  policy_ref = text "local";
  workload_selectors = [];
}

abbrev renewal : IntentRequest
renewal = renew (text "run-1") 90

-- A reader that knows one frame.
abbrev reader : List ℕ → Result IntentRequest Text
reader [] = err (text "EOF")
reader (b ∷ bs) = ok renewal

abbrev frame : List ℕ
frame = 1 ∷ []

decode_intent_frame-ok_example : (decode_intent_frame reader frame 10 ≡ ok renewal) ↔ (
    (length frame ≤ max_intent_frame_bytes)
    × (reader frame ≡ ok renewal)
    × RequestIsInOrder renewal 10)
decode_intent_frame-ok_example = decode_intent_frame-ok reader frame 10 renewal
