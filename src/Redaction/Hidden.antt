-- ===== src/Redaction/Hidden.antt =====
-- crates/apolysis-observer/src/redaction.rs: what a written event tells of a resource that is
-- hidden.
use apolysis.Common.{ℕ, ◌≡◌, ◌≢◌, refl, ap, sym, ◌∙◌, Bool, true, List, some, ◌++◌, arith}
use apolysis.Common.Text.{Text, text}
use apolysis.Policy.{
  EventType, exec, file_open, file_create, file_truncate, file_unlink, file_rename, network_connect,
  credential_read, session_started, runtime_metadata, process_exit,
}
use apolysis.Redaction.{
  RawKernelEvent, Redactor, redact_resource, redact_path, token, token_value, redact_as,
  persisted_payload, redact_raw_event_for_persistence, persisted_type,
}

abbrev pub about : RawKernelEvent → Text → RawKernelEvent
about raw x = record raw { resource = x }

module _ (sha256 : List ℕ → List ℕ) (r : Redactor) where
  abbrev pub IsHidden : EventType → Text → Type 0
  IsHidden event_type x = (redact_resource sha256 r event_type x).redacted ≡ true

  token-same :
      (kind x y : Text)
      → token_value sha256 r kind x ≡ token_value sha256 r kind y
      → token sha256 r kind x ≡ token sha256 r kind y
  unfolding token
  token-same kind x y d =
      ap (λ v. record { value = kind ++ (text "_token:" ++ v); redacted = true }) d

  redact_path-token :
      (x : Text)
      → (redact_path sha256 r x).redacted ≡ true
      → redact_path sha256 r x ≡ token sha256 r (text "path") x
  redact_path-token x h = ground arith

  path-same :
      (x y : Text)
      → (redact_path sha256 r x).redacted ≡ true
      → (redact_path sha256 r y).redacted ≡ true
      → token_value sha256 r (text "path") x ≡ token_value sha256 r (text "path") y
      → redact_path sha256 r x ≡ redact_path sha256 r y
  path-same x y hx hy d =
      redact_path-token x hx ∙ token-same (text "path") x y d ∙ sym (redact_path-token y hy)

  hidden-same :
      (event_type : EventType) (x y : Text)
      → event_type ≢ network_connect
      → IsHidden event_type x
      → IsHidden event_type y
      → token_value sha256 r (text "path") x ≡ token_value sha256 r (text "path") y
      → redact_resource sha256 r event_type x ≡ redact_resource sha256 r event_type y
  unfolding redact_resource
  hidden-same network_connect x y n hx hy d = absurd (n refl)
  hidden-same credential_read x y n hx hy d = token-same (text "path") x y d
  hidden-same file_open x y n hx hy d = path-same x y hx hy d
  hidden-same file_create x y n hx hy d = path-same x y hx hy d
  hidden-same file_truncate x y n hx hy d = path-same x y hx hy d
  hidden-same file_unlink x y n hx hy d = path-same x y hx hy d
  hidden-same file_rename x y n hx hy d = path-same x y hx hy d
  hidden-same exec x y n hx hy d = ground arith
  hidden-same session_started x y n hx hy d = ground arith
  hidden-same runtime_metadata x y n hx hy d = ground arith
  hidden-same process_exit x y n hx hy d = ground arith

  redact_as-same :
      (raw : RawKernelEvent) (event_type : EventType) (x y : Text)
      → redact_resource sha256 r event_type x ≡ redact_resource sha256 r event_type y
      → redact_as sha256 r (about raw x) event_type ≡ redact_as sha256 r (about raw y) event_type
  unfolding redact_as persisted_payload
  redact_as-same raw event_type x y s = cc

  -- Take two events that differ only in their resource and whose name tells a type of event that
  -- is not a connection. If both resources are hidden and have the same token, then the two are
  -- written as the same event.
  pub hidden_alike :
      (raw : RawKernelEvent) (is_credential : Bool) (event_type : EventType) (x y : Text)
      → persisted_type raw.event_name is_credential ≡ some event_type
      → event_type ≢ network_connect
      → IsHidden event_type x
      → IsHidden event_type y
      → token_value sha256 r (text "path") x ≡ token_value sha256 r (text "path") y
      → redact_raw_event_for_persistence sha256 (about raw x) r is_credential
        ≡ redact_raw_event_for_persistence sha256 (about raw y) r is_credential
  unfolding redact_raw_event_for_persistence
  hidden_alike raw is_credential event_type x y e n hx hy d =
      let s = hidden-same event_type x y n hx hy d in
      rw (redact_raw_event_for_persistence, e) (redact_as-same raw event_type x y s)
