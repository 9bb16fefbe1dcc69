-- ===== src/Server/Answers.antt =====
-- What an answer says of the sessions.
use apolysis.Common.{
  ℕ, ◌≡◌, inl, inr, refl, Bool, true, false, List, [], ◌∷◌, ok, err, arith, Bool-cases,
  Result-cases, Result, ltb, is_ok, unwrap_or,
}
use apolysis.Common.Ordered.{bytes_ord}
use apolysis.Common.Text.{Text, is_nil}
use apolysis.Common.TreeMap
use apolysis.Common.TreeMap.{remove_all}
use apolysis.Intent.{
  IntentRequest, decode_intent_frame, max_intent_frame_bytes, register, renew, close, query,
  list_sessions, apply_retention, health,
}
use apolysis.Registry.Retention.{apply_retention_for_tenant}
use apolysis.Daemon.{Services, Documented, DaemonState, Answer, DaemonError, io_failed}
use apolysis.Daemon.Sessions as Sessions
use apolysis.Daemon.Sessions.{remove_directories, forget_sessions}
use apolysis.Daemon.Writes.{call_cases}
use apolysis.Daemon.FailStop.{Answered, session_methods-Answered}
use apolysis.Server.{
  DaemonResponse, error_report, acknowledge, error_response, respond, dispatch, handle_connection,
}

abbrev pub is_error : DaemonResponse → Bool
is_error (error_report v code message) = true
is_error _ = false

-- A request that only reads.
abbrev pub only_reads : IntentRequest → Bool
only_reads (query tenant session) = true
only_reads (list_sessions tenant tier) = true
only_reads (apply_retention tenant dry_run at) = dry_run
only_reads health = true
only_reads _ = false

module _ (services : Services) where
  respond-registry :
      {A : Type 0} (operation session : Text) (d : DaemonState services) (x : Answer services A)
      → Answered services d x
      → is_error (respond operation session x.1) ≡ true
      → x.0.registry ≡ d.registry
  unfolding acknowledge
  respond-registry operation session d (e, ok a) (inl y) h = cc
  respond-registry operation session d (e, err w) (inl (y, z)) h = cc
  respond-registry operation session d x (inr r) h = r.registry

  remove_directories-registry :
      (ks : List Text) (d : DaemonState services)
      → (remove_directories services ks d).0.registry ≡ d.registry
  unfolding remove_directories
  remove_directories-registry [] d = refl
  remove_directories-registry (k ∷ ks) d = elim (call_cases services io_failed d) [
    | inr (o, t, x) ↦ ground (arith, x)
    | inl (o, x) ↦ ground (
      arith,
      x,
      remove_directories-registry ks (record d { disk = TreeMap.remove k d.disk; outcomes = o }),
    )
  ]

  forget_sessions-registry :
      (ks : List Text) (d : DaemonState services)
      → (forget_sessions services ks d).0.registry ≡ d.registry
  unfolding forget_sessions
  forget_sessions-registry ks d =
      let shut : DaemonState services = record d { stores = remove_all ks d.stores } in
      elim (Result-cases (remove_directories services ks shut).1) [
        | inr (e, x) ↦ ground (arith, x, remove_directories-registry ks shut)
        | inl (u, x) ↦ ground (arith, x, remove_directories-registry ks shut)
      ]

  retention_failed :
      (tenant : Text) (now : ℕ) (dry_run : Bool) (d : DaemonState services) (e : DaemonError)
      → (Sessions.apply_retention services tenant now dry_run d).1 ≡ err e
      → (Sessions.apply_retention services tenant now dry_run d).0.registry ≡ d.registry
  unfolding Sessions.apply_retention
  retention_failed tenant now true d e h = cc
  retention_failed tenant now false d e h =
      let ks = (apply_retention_for_tenant tenant now d.registry).1.purged_session_ids in
      elim (Bool-cases (is_nil ks)) [
        | inl y ↦ absurd (ground (arith, y, h))
        | inr y ↦ elim (Result-cases (forget_sessions services ks d).1) [
          | inl (u, z) ↦ absurd (ground (arith, y, z, h))
          | inr (w, z) ↦ ground (arith, y, z, forget_sessions-registry ks d)
        ]
      ]

  module _ (documented : Documented services) where
    dispatch_error :
        (request : IntentRequest) (now : ℕ) (d : DaemonState services)
        → is_error (dispatch services request now d).1 ≡ true
        → (dispatch services request now d).0.registry ≡ d.registry
    unfolding dispatch
    dispatch_error (register intent) now d h =
        let (a, b, c, e) = session_methods-Answered services documented d in
        respond-registry _ _ d (Sessions.register services intent now d) (a intent now) h
    dispatch_error (renew session expires) now d h =
        let (a, b, c, e) = session_methods-Answered services documented d in
        respond-registry _ _ d (Sessions.renew services session expires now d)
          (b session expires now) h
    dispatch_error (close session) now d h =
        let (a, b, c, e) = session_methods-Answered services documented d in
        respond-registry _ _ d (Sessions.close services session d) (c session) h
    dispatch_error (query tenant session) now d h = refl
    dispatch_error (list_sessions tenant tier) now d h = refl
    dispatch_error (apply_retention tenant dry_run at) now d h =
        elim (Result-cases
          (Sessions.apply_retention services tenant (unwrap_or at now) dry_run d).1) [
            | inl (r, x) ↦ absurd (ground (arith, x, h))
            | inr (e, x) ↦
                ground (arith, x, retention_failed tenant (unwrap_or at now) dry_run d e x)
          ]
    dispatch_error health now d h = refl

    dispatch_reading :
        (request : IntentRequest) (now : ℕ) (d : DaemonState services)
        → only_reads request ≡ true
        → (dispatch services request now d).0 ≡ d
    unfolding dispatch Sessions.apply_retention
    dispatch_reading (register intent) now d h = cc
    dispatch_reading (renew session expires) now d h = cc
    dispatch_reading (close session) now d h = cc
    dispatch_reading (query tenant session) now d h = refl
    dispatch_reading (list_sessions tenant tier) now d h = refl
    dispatch_reading (apply_retention tenant true at) now d h = refl
    dispatch_reading (apply_retention tenant false at) now d h = cc
    dispatch_reading health now d h = refl

    -- Whatever arrives on the socket: an error response means that the registry is as it was; a
    -- request that only reads, a dry run of retention included, leaves the whole state; and a
    -- frame that does not decode into a valid request leaves it too and is answered by an error.
    pub handle_connection_errors :
        (from_slice : List ℕ → Result IntentRequest Text) (announced : ℕ) (frame : List ℕ) (now : ℕ)
        (d : DaemonState services)
        → let x = handle_connection services from_slice announced frame now d in
          (is_error x.1 ≡ true → x.0.registry ≡ d.registry)
          × ((r : IntentRequest)
              → decode_intent_frame from_slice frame now ≡ ok r
              → only_reads r ≡ true
              → x.0 ≡ d)
          × (is_ok (decode_intent_frame from_slice frame now) ≡ false
              → (x.0 ≡ d) × (is_error x.1 ≡ true))
    unfolding handle_connection error_response
    handle_connection_errors from_slice announced frame now d =
        elim (Bool-cases (ltb max_intent_frame_bytes announced)) [
          | inl y ↦ (
            λ h. ground (arith, y),
            λ r e h. ground (arith, y),
            λ e. (ground (arith, y), ground (arith, y)),
          )
          | inr n ↦ elim (Result-cases (decode_intent_frame from_slice frame now)) [
            | inl (r, e) ↦ (
              λ h. ground (arith, n, e, dispatch_error r now d, h),
              λ q f h. ground (arith, n, e, f, dispatch_reading r now d, h),
              λ f. absurd (ground (arith, e, f)),
            )
            | inr (w, e) ↦ (
              λ h. ground (arith, n, e),
              λ r f h. absurd (ground (arith, e, f)),
              λ f. (ground (arith, n, e), ground (arith, n, e)),
            )
          ]
        ]
