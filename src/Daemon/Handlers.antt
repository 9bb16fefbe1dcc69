-- ===== src/Daemon/Handlers.antt =====
-- Each session method keeps every timeline true to the registry.
use mathlib.Core.Path.{subst}
use apolysis.Common.{
  ℕ, ◌≡◌, ◌<◌, inl, inr, false, List, [], ◌∷◌, ok, arith, u64_mod, Bool-cases, Result-cases,
}
use apolysis.Common.Ordered.{bytes_ord}
use apolysis.Common.Text.{Text}
use apolysis.Intent.{SessionIntent}
use apolysis.Registry
use apolysis.Registry.{SessionRegistry, AssociationOutcome, SessionState, attached, missing_intent}
use apolysis.Registry.Retention.{session_for_cgroup}
use apolysis.Daemon.{Services, Documented, DaemonState, timeline}
use apolysis.Daemon.Scope.{track, untrack, untrack_closed, apply_if_scoped, roll_back_if_scoped}
use apolysis.Daemon.Sessions.{
  intent_registered, intent_renewed, session_closed, cgroup_discovered, register, renew, close,
  close_untracked, discover_cgroup, record_discovery, is_held_by,
}
use apolysis.Daemon.Writes.{persist_cases}
use apolysis.Daemon.Recorded.{
  IsRecorded, same-IsRecorded, register-IsRecorded, renew-IsRecorded, close-IsRecorded,
  discover-IsRecorded,
}
use apolysis.Daemon.Durable.{
  IsDurable, Quiet-IsDurable, untrack_closed-Quiet, apply_if_scoped-Quiet,
  roll_back_if_scoped-Quiet,
}

module _ (services : Services) where
  -- Nothing is claimed once the storage has failed.
  pub failed-IsDurable :
      (e : DaemonState services) → e.storage_writable ≡ false → IsDurable services e
  failed-IsDurable e n w = absurd (ground (arith, n, w))

  -- The copy of the registry takes its place beside the timelines that tell it.
  committed-IsDurable :
      (candidate : SessionRegistry) (e f : DaemonState services)
      → IsRecorded services candidate (λ k. timeline services k e)
      → f.registry ≡ candidate
      → ((k : Text) → timeline services k f ≡ timeline services k e)
      → IsDurable services f
  committed-IsDurable candidate e f h r t w =
      same-IsRecorded services candidate f.registry (λ k. timeline services k e) _ r t h

  module _ (documented : Documented services) where
    pub register-IsDurable :
        (intent : SessionIntent) (now : ℕ) (d : DaemonState services)
        → IsDurable services d
        → IsDurable services (register services intent now d).0
    unfolding register
    register-IsDurable intent now d h =
        let k = intent.session_id in
        elim (Result-cases (Registry.register intent now d.registry).1) [
          | inr (e, x) ↦
              let next : (register services intent now d).0 ≡ d = ground (arith, x) in rw next h
          | inl (o, x) ↦
              elim (persist_cases services documented k (intent_registered services intent) d) [
                | inr (e, why, y, (keeps, n)) ↦
                    let next : (register services intent now d).0 ≡ e = ground (arith, x, y) in
                    rw next (failed-IsDurable e n)
                | inl (e, a, y, (was, w)) ↦
                    committed-IsDurable (Registry.register intent now d.registry).0 e
                      (register services intent now d).0
                      (register-IsRecorded services documented intent now d.registry o
                        (λ j. timeline services j d) (λ j. timeline services j e) (h was) x
                        w.records)
                      (ground (arith, x, y)) (λ j. ground (arith, x, y))
              ]
        ]

    pub renew-IsDurable :
        (k : Text) (expires now : ℕ) (d : DaemonState services)
        → expires < u64_mod
        → IsDurable services d
        → IsDurable services (renew services k expires now d).0
    unfolding renew
    renew-IsDurable k expires now d fits h =
        elim (Result-cases (Registry.renew k expires now d.registry).1) [
          | inr (e, x) ↦
              let next : (renew services k expires now d).0 ≡ d = ground (arith, x) in rw next h
          | inl (o, x) ↦
              elim (persist_cases services documented k (intent_renewed services k expires) d) [
                | inr (e, why, y, (keeps, n)) ↦
                    let next : (renew services k expires now d).0 ≡ e = ground (arith, x, y) in
                    rw next (failed-IsDurable e n)
                | inl (e, a, y, (was, w)) ↦
                    committed-IsDurable (Registry.renew k expires now d.registry).0 e
                      (renew services k expires now d).0
                      (renew-IsRecorded services documented k expires now d.registry
                        (λ j. timeline services j d) (λ j. timeline services j e) fits (h was) x
                        w.records)
                      (ground (arith, x, y)) (λ j. ground (arith, x, y))
              ]
        ]

    close_untracked-IsDurable :
        (k : Text) (s : SessionState) (removed : List ℕ) (r : SessionRegistry)
        (d : DaemonState services)
        → d.registry ≡ r
        → (Registry.close k r).1 ≡ ok s
        → IsDurable services d
        → IsDurable services (close_untracked services k (Registry.close k r).0 removed d).0
    unfolding close_untracked
    close_untracked-IsDurable k s removed r d eq x h =
        elim (persist_cases services documented k (session_closed services k) d) [
          | inr (e, why, y, (keeps, n)) ↦
              let next : (close_untracked services k (Registry.close k r).0 removed d).0
                  ≡ (roll_back_if_scoped services track removed why e).0 =
                ground (arith, y) in
              rw next (
                Quiet-IsDurable services e _
                  (roll_back_if_scoped-Quiet services track removed why e) (failed-IsDurable e n))
          | inl (e, a, y, (was, w)) ↦
              committed-IsDurable (Registry.close k r).0 e
                (close_untracked services k (Registry.close k r).0 removed d).0
                (close-IsRecorded services documented k r s (λ j. timeline services j d)
                  (λ j. timeline services j e)
                  (subst (λ r. IsRecorded services r (λ j. timeline services j d)) eq (h was)) x
                  w.records)
                (ground (arith, y)) (λ j. ground (arith, y))
        ]

    pub close-IsDurable :
        (k : Text) (d : DaemonState services)
        → IsDurable services d
        → IsDurable services (close services k d).0
    unfolding close
    close-IsDurable k d h = elim (Result-cases (Registry.close k d.registry).1) [
      | inr (e, x) ↦ let next : (close services k d).0 ≡ d = ground (arith, x) in rw next h
      | inl (s, x) ↦
          let e = (untrack_closed services s.cgroup_ids d).0 in
          let quiet = untrack_closed-Quiet services s.cgroup_ids d in
          let still = Quiet-IsDurable services d e quiet h in
          elim (Result-cases (untrack_closed services s.cgroup_ids d).1) [
            | inr (why, y) ↦
                let next : (close services k d).0 ≡ e = ground (arith, x, y) in rw next still
            | inl (removed, y) ↦
                let next : (close services k d).0
                    ≡ (close_untracked services k (Registry.close k d.registry).0 removed e).0 =
                  ground (arith, x, y) in
                rw next (close_untracked-IsDurable k s removed d.registry e quiet.registry x still)
          ]
    ]

    record_discovery-IsDurable :
        (k : Text) (c : ℕ) (o : AssociationOutcome) (r : SessionRegistry) (d : DaemonState services)
        → c < u64_mod
        → d.registry ≡ r
        → (Registry.discover_cgroup k c r).1 ≡ ok o
        → IsDurable services d
        → IsDurable services
            (record_discovery services k c (Registry.discover_cgroup k c r).0 o d).0
    unfolding record_discovery
    record_discovery-IsDurable k c o r d fits eq x h =
        elim (persist_cases services documented k (cgroup_discovered services k c o) d) [
          | inr (e, why, y, (keeps, n)) ↦
              let undone = roll_back_if_scoped services untrack (c ∷ []) why e in
              let next : (record_discovery services k c (Registry.discover_cgroup k c r).0 o d).0
                  ≡ undone.0 =
                elim (Result-cases undone.1) [
                  | inl (u, z) ↦ ground (arith, y, z)
                  | inr (f, z) ↦ ground (arith, y, z)
                ] in
              rw next (
                Quiet-IsDurable services e _
                  (roll_back_if_scoped-Quiet services untrack (c ∷ []) why e)
                  (failed-IsDurable e n))
          | inl (e, a, y, (was, w)) ↦
              committed-IsDurable (Registry.discover_cgroup k c r).0 e
                (record_discovery services k c (Registry.discover_cgroup k c r).0 o d).0
                (discover-IsRecorded services documented k c r o (λ j. timeline services j d)
                  (λ j. timeline services j e) fits
                  (subst (λ r. IsRecorded services r (λ j. timeline services j d)) eq (h was)) x
                  w.records)
                (ground (arith, y)) (λ j. ground (arith, y))
        ]

    pub discover_cgroup-IsDurable :
        (k : Text) (c : ℕ) (d : DaemonState services)
        → c < u64_mod
        → IsDurable services d
        → IsDurable services (discover_cgroup services k c d).0
    unfolding discover_cgroup
    discover_cgroup-IsDurable k c d fits h =
        elim (Bool-cases (is_held_by services (session_for_cgroup c d.registry) k)) [
          | inl held ↦
              let next : (discover_cgroup services k c d).0 ≡ d = ground (arith, held) in rw next h
          | inr free ↦ elim (Result-cases (Registry.discover_cgroup k c d.registry).1) [
            | inr (e, x) ↦
                let next : (discover_cgroup services k c d).0 ≡ d = ground (arith, free, x) in
                rw next h
            | inl (o, x) ↦
                let e = (apply_if_scoped services track c d).0 in
                let quiet = apply_if_scoped-Quiet services track c d in
                let still = Quiet-IsDurable services d e quiet h in
                elim (Result-cases (apply_if_scoped services track c d).1) [
                  | inr (why, y) ↦
                      let next : (discover_cgroup services k c d).0 ≡ e =
                        ground (arith, free, x, y) in
                      rw next still
                  | inl (u, y) ↦
                      let next : (discover_cgroup services k c d).0
                          ≡ (record_discovery services k c
                              (Registry.discover_cgroup k c d.registry).0 o e).0 =
                        ground (arith, free, x, y) in
                      rw next
                        (record_discovery-IsDurable k c o d.registry e fits quiet.registry x still)
                ]
          ]
        ]
