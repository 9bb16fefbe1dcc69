-- ===== src/Daemon/Observing.antt =====
-- Records of what was observed do not disturb the replay, and a failed one leaves its session, which
-- is degraded then, as the timeline tells it.
use apolysis.Common.{
  ◌≡◌, ◌⊎◌, inl, inr, refl, sym, ◌∙◌, false, some, List, [], ◌∷◌, ◌++◌, arith, Bool-cases,
  Option-cases, Result-cases,
}
use apolysis.Common.Ordered.{bytes_ord}
use apolysis.Common.Text.{Text}
use apolysis.Common.TreeMap
use apolysis.Common.TreeMap.{contains_key}
use apolysis.Pipeline.{DaemonRecord}
use apolysis.Registry
use apolysis.Registry.{SessionRegistry, SessionState, RegistryError}
use apolysis.Registry.Attaching.{closed_of}
use apolysis.Registry.Transitions.{degrade-Deactivated, degrade_refused}
use apolysis.Registry.Ownership.{degrade-IsOwned}
use apolysis.Daemon.{Services, Documented, DaemonState, DaemonError, timeline}
use apolysis.Daemon.Scope.{untrack}
use apolysis.Daemon.Evidence.{mark_session_degraded, persist_record, paused, freed}
use apolysis.Daemon.Replay.{kind_of, other, nothing_replayed}
use apolysis.Daemon.Records.{replay_from-append, turn_other}
use apolysis.Daemon.Writes.{Attempted, Written-Attempted, persist_inner_cases}
use apolysis.Daemon.Recorded.{IsRecorded, same-IsRecorded, unmoved-Follows}
use apolysis.Daemon.Durable.{IsDurable, apply_all_ignoring-Quiet}

module _ (services : Services) where
  open services use {Value}

  -- A record that the replay passes over, in one timeline or in none.
  passed_over-IsRecorded :
      (v : Value) (r : SessionRegistry) (lines after : Text → List Value)
      → kind_of services v ≡ other
      → IsRecorded services r lines
      → ((k : Text) → (after k ≡ lines k) ⊎ (after k ≡ lines k ++ v ∷ []))
      → IsRecorded services r after
  passed_over-IsRecorded v r lines after o h wrote = record {
    owned = h.owned;
    settled = h.settled;
    replays = λ k.
        let (p, x, f) = h.replays k in
        (
          p,
          elim (wrote k) [
            | inl y ↦ ground (arith, y, x)
            | inr y ↦ ground (
              arith,
              y,
              x,
              replay_from-append services nothing_replayed (lines k) v,
              turn_other services v p o,
            )
          ],
          f,
        );
  }

  -- A session that is degraded, and was not closed, is replayed as before.
  degraded-IsRecorded :
      (k : Text) (r : SessionRegistry) (lines : Text → List Value)
      → closed_of (TreeMap.get k r.sessions) ≡ false
      → IsRecorded services r lines
      → IsRecorded services (Registry.degrade k r).0 lines
  degraded-IsRecorded k r lines opens h = elim (Result-cases (Registry.degrade k r).1) [
    | inr (e, x) ↦ rw (degrade_refused k r e x) h
    | inl (s, x) ↦
        let d = degrade-Deactivated k r s h.settled x in
        record {
          owned = degrade-IsOwned k r h.owned;
          settled = d.effect.settled;
          replays = λ j.
              let (p, y, f) = h.replays j in
              (
                p,
                y,
                unmoved-Follows k j (some d.before.intent) false r _ p (ground (arith, d.found))
                    (sym opens) d.effect f,
              );
        }
  ]

  degraded_registry :
      (k : Text) (why : DaemonError) (d : DaemonState services)
      → let e = mark_session_degraded services k why d in
        (e.registry ≡ (Registry.degrade k d.registry).0)
        × (e.storage_writable ≡ d.storage_writable)
        × ((j : Text) → timeline services j e ≡ timeline services j d)
  unfolding mark_session_degraded
  degraded_registry k why d = elim (Option-cases d.scope) [
    | inl e ↦ (ground (arith, e), ground (arith, e), λ j. ground (arith, e))
    | inr (m, e) ↦
        let quiet =
          apply_all_ignoring-Quiet services untrack (freed services k d)
            (paused services k why d) in
        (
          ground (arith, e, quiet.registry),
          ground (arith, e, quiet.writable),
          λ j. ground (arith, e, quiet.records j),
        )
  ]

  mark_session_degraded-IsDurable :
      (k : Text) (why : DaemonError) (d : DaemonState services)
      → closed_of (TreeMap.get k d.registry.sessions) ≡ false
      → IsDurable services d
      → IsDurable services (mark_session_degraded services k why d)
  mark_session_degraded-IsDurable k why d opens h still =
      let (registry, writable, records) = degraded_registry k why d in
      same-IsRecorded services _ _ _ _ registry records
        (degraded-IsRecorded k d.registry _ opens (h (sym writable ∙ still)))

  pub Attempted-IsDurable :
      (k : Text) (v : Value) (d e : DaemonState services)
      → kind_of services v ≡ other
      → Attempted services k v d e
      → IsDurable services d
      → IsDurable services e
  Attempted-IsDurable k v d e o w h still =
      same-IsRecorded services d.registry e.registry (λ j. timeline services j e)
        (λ j. timeline services j e) w.keeps.registry (λ j. refl)
        (passed_over-IsRecorded v d.registry (λ j. timeline services j d)
          (λ j. timeline services j e) o (h (sym w.writable ∙ still))
          λ j. elim (w.records j) [ inl a ↦ inl a | inr (a, b) ↦ inr b ])

  -- A pipeline record that the replay passes over is written, or its session is degraded, and
  -- every timeline is still true to the registry; a session that is degraded must not be closed.
  module _ (documented : Documented services) where
    pub persist_record-IsDurable :
        (x : DaemonRecord Value) (d : DaemonState services)
        → kind_of services x.payload ≡ other
        → closed_of (TreeMap.get x.session_id d.registry.sessions) ≡ false
        → IsDurable services d
        → IsDurable services (persist_record services x d).0
    unfolding persist_record
    persist_record-IsDurable x d o opens h = elim (Bool-cases d.storage_writable) [
      | inr n ↦ let next : (persist_record services x d).0 ≡ d = ground (arith, n) in rw next h
      | inl y ↦ elim (Bool-cases (contains_key x.session_id d.paused_sessions)) [
        | inl z ↦ let next : (persist_record services x d).0 ≡ d = ground (arith, y, z) in rw next h
        | inr z ↦ elim (persist_inner_cases services documented x.session_id x.payload d) [
          | inl (e, a, t, w) ↦
              let next : (persist_record services x d).0 ≡ e = ground (arith, y, z, t) in
              rw next (
                Attempted-IsDurable x.session_id x.payload d e o
                  (Written-Attempted services x.session_id x.payload d e w) h)
          | inr (e, why, t, w) ↦
              let next : (persist_record services x d).0
                  ≡ mark_session_degraded services x.session_id why e =
                ground (arith, y, z, t) in
              rw next (
                mark_session_degraded-IsDurable x.session_id why e
                  (ground (arith, opens, w.keeps.registry))
                  (Attempted-IsDurable x.session_id x.payload d e o w h))
        ]
      ]
    ]
