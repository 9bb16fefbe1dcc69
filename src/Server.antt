-- ===== src/Server.antt =====
-- crates/apolysis-daemon/src/server.rs: what the daemon answers to a request on its socket. Reading and
-- writing the stream is left out: a connection is the announced length and the bytes that follow.
pub mod Answers
mod Examples
use apolysis.Common.{
  ℕ, Bool, true, false, Option, none, some, List, [], ◌∷◌, ltb, length, Result, ok, err,
  if◌then◌else◌, unwrap_or,
}
use apolysis.Common.Text.{Text, text}
use apolysis.Health
use apolysis.Health.{HealthSnapshot}
use apolysis.Intent.{
  IntentRequest, IntentError, RetentionTier, SessionIntent, decode_intent_frame,
  max_intent_frame_bytes, frame_too_large, register, renew, close, query, list_sessions,
  apply_retention, health,
}
use apolysis.Registry.{SessionState}
use apolysis.Daemon.{Services, DaemonState, DaemonError}
use apolysis.Daemon.Sessions as Sessions
use apolysis.Daemon.Queries as Queries

abbrev pub daemon_schema_v1 : ℕ
daemon_schema_v1 = 1

-- The message of an error response, before it is printed.
pub data Message : Type 0 where
  frame_length : ℕ → Message
  intent_message : IntentError → Message
  state_message : DaemonError → Message

pub data DaemonResponse : Type 0 where
  ack : ℕ → Text → Option Text → DaemonResponse
  health_report : ℕ → Bool → Bool → HealthSnapshot → DaemonResponse
  session_report : ℕ → Option SessionState → DaemonResponse
  session_list : ℕ → Text → Option RetentionTier → List SessionState → DaemonResponse
  retention_purge : ℕ → Text → Bool → ℕ → List Text → List Text → List Text → DaemonResponse
  error_report : ℕ → Text → Message → DaemonResponse

unfoldable pub acknowledge : Text → Option Text → DaemonResponse
acknowledge operation session = ack daemon_schema_v1 operation session

unfoldable pub error_response : Text → Message → DaemonResponse
error_response code message = error_report daemon_schema_v1 code message

unfoldable pub intent_error_code : IntentError → Text
intent_error_code (frame_too_large n) = text "frame_too_large"
intent_error_code _ = text "invalid_request"

-- The response to a change of one session.
abbrev pub respond : {A : Type 0} → Text → Text → Result A DaemonError → DaemonResponse
respond operation session (ok a) = acknowledge operation (some session)
respond operation session (err e) = error_response (text "state_error") (state_message e)

module _ (services : Services) where
  unfoldable pub dispatch :
      IntentRequest → ℕ → DaemonState services → DaemonState services × DaemonResponse
  dispatch (register intent) now d =
      let (next, result) = Sessions.register services intent now d in
      (next, respond (text "register") intent.session_id result)
  dispatch (renew session expires) now d =
      let (next, result) = Sessions.renew services session expires now d in
      (next, respond (text "renew") session result)
  dispatch (close session) now d =
      let (next, result) = Sessions.close services session d in
      (next, respond (text "close") session result)
  dispatch (query tenant session) now d =
      (d, session_report daemon_schema_v1 (Queries.query_for_tenant services session tenant d))
  dispatch (list_sessions tenant tier) now d = (
    d,
    session_list daemon_schema_v1 tenant tier (Queries.list_for_tenant services tenant tier d),
  )
  dispatch (apply_retention tenant dry_run requested_now) now d =
      let (next, result) =
        Sessions.apply_retention services tenant (unwrap_or requested_now now) dry_run d in
      elim result [
        | err e ↦ (next, error_response (text "state_error") (state_message e))
        | ok report ↦ (
          next,
          retention_purge daemon_schema_v1 report.tenant_id report.dry_run report.now_unix_ms
              report.eligible_session_ids report.purged_session_ids report.retained_session_ids,
        )
      ]
  dispatch health now d =
      let h = Queries.health services d in
      (d, health_report daemon_schema_v1 (Health.liveness h) (Health.readiness h) h)

  -- `handle_connection` past the reading of the length and the frame; the reader of requests is
  -- serde_json.
  unfoldable pub handle_connection :
      (List ℕ → Result IntentRequest Text)
      → ℕ
      → List ℕ
      → ℕ
      → DaemonState services
      → DaemonState services × DaemonResponse
  handle_connection from_slice announced frame now d =
      if ltb max_intent_frame_bytes announced
      then (d, error_response (text "frame_too_large") (frame_length announced))
      else elim (decode_intent_frame from_slice frame now) [
        | err e ↦ (d, error_response (intent_error_code e) (intent_message e))
        | ok request ↦ dispatch request now d
      ]
