-- ===== src/Daemon/FailStop.antt =====
-- A session method that does not succeed leaves the sessions as they were, and after a write has failed
-- none succeeds any more.
use apolysis.Common.{
  ℕ, ◌≡◌, ◌⊎◌, inl, inr, sym, ◌∙◌, true, false, List, [], ◌∷◌, ok, err, arith, Bool-cases,
  Result-cases, is_ok,
}
use apolysis.Common.Text.{Text}
use apolysis.Intent.{SessionIntent}
use apolysis.Registry
use apolysis.Registry.{
  SessionRegistry, RegisterOutcome, AssociationOutcome, attached, missing_intent,
}
use apolysis.Registry.Retention.{session_for_cgroup}
use apolysis.Daemon.{
  Services, Documented, DaemonState, Answer, DaemonError, storage_unavailable, timeline, persist,
}
use apolysis.Daemon.Scope.{track, untrack, untrack_closed, apply_if_scoped, roll_back_if_scoped}
use apolysis.Daemon.Sessions.{
  intent_registered, intent_renewed, session_closed, cgroup_discovered, register, renew, close,
  close_untracked, discover_cgroup, record_discovery, is_held_by,
}
use apolysis.Daemon.Writes.{persist_cases}
use apolysis.Daemon.Durable.{
  Quiet, Quiet-refl, untrack_closed-Quiet, apply_if_scoped-Quiet, roll_back_if_scoped-Quiet,
}

module _ (services : Services) where
  -- The sessions are as they were, and so is every timeline unless the storage fails just now.
  pub record Refused (d e : DaemonState services) : Type 0 where
    pub registry : e.registry ≡ d.registry
    pub records :
        (e.storage_writable ≡ true) ⊎ (d.storage_writable ≡ false)
        → (k : Text) → timeline services k e ≡ timeline services k d
    pub latched : d.storage_writable ≡ false → e.storage_writable ≡ false

  Quiet-Refused : (d e : DaemonState services) → Quiet services d e → Refused d e
  Quiet-Refused d e q = record {
    registry = q.registry;
    records = λ w. q.records;
    latched = λ n. q.writable ∙ n;
  }

  -- Quiet steps before and after.
  around-Refused :
      (a d e b : DaemonState services)
      → Quiet services a d
      → Refused d e
      → Quiet services e b
      → Refused a b
  around-Refused a d e b p r q = record {
    registry = q.registry ∙ (r.registry ∙ p.registry);
    records = λ w k.
        q.records k
        ∙ (r.records (elim w [ inl y ↦ inl (sym q.writable ∙ y) | inr n ↦ inr (p.writable ∙ n) ]) k
            ∙ p.records k);
    latched = λ n. q.writable ∙ r.latched (p.writable ∙ n);
  }

  -- A call succeeds, and then the storage was writable, or it is refused.
  abbrev pub Answered : {A : Type 0} → DaemonState services → Answer services A → Type 0
  Answered d x = ((is_ok x.1 ≡ true) × (d.storage_writable ≡ true)) ⊎ Refused d x.0

  -- A call that leaves the state.
  unmoved-Answered :
      {A : Type 0} (d : DaemonState services) (x : Answer services A) → x.0 ≡ d → Answered d x
  unmoved-Answered d x e = inr (Quiet-Refused d x.0 (rw e (Quiet-refl services d)))

  module _ (documented : Documented services) where
    -- A write is done on writable storage, or it is refused.
    persist_answers :
        (k : Text) (v : services.Value) (d : DaemonState services)
        → ((e : DaemonState services) × (persist services k v d ≡ (e, ok tt))
            × (d.storage_writable ≡ true))
          ⊎ ((e : DaemonState services) × (why : DaemonError) × (persist services k v d
                ≡ (e, err why))
              × Refused d e)
    unfolding persist
    persist_answers k v d = elim (Bool-cases d.storage_writable) [
      | inr n ↦
          inr (d, storage_unavailable, ground (arith, n), Quiet-Refused d d (Quiet-refl services d))
      | inl y ↦ elim (persist_cases services documented k v d) [
        | inl (e, a, x, w) ↦ inl (e, x, y)
        | inr (e, why, x, (keeps, n)) ↦ inr (
          e,
          why,
          x,
          record {
            registry = keeps.registry;
            records = λ w k.
                absurd (elim w [ inl z ↦ ground (arith, z, n) | inr z ↦ ground (arith, z, y) ]);
            latched = λ z. n;
          },
        )
      ]
    ]

    register-Answered :
        (intent : SessionIntent) (now : ℕ) (d : DaemonState services)
        → Answered d (register services intent now d)
    unfolding register
    register-Answered intent now d =
        elim (Result-cases (Registry.register intent now d.registry).1) [
          | inr (e, x) ↦ unmoved-Answered d (register services intent now d) (ground (arith, x))
          | inl (o, x) ↦
              elim (persist_answers intent.session_id (intent_registered services intent) d) [
                | inl (e, y, w) ↦ inl (ground (arith, x, y), w)
                | inr (e, why, y, r) ↦
                    let next : (register services intent now d).0 ≡ e = ground (arith, x, y) in
                    inr (rw next r)
              ]
        ]

    renew-Answered :
        (k : Text) (expires now : ℕ) (d : DaemonState services)
        → Answered d (renew services k expires now d)
    unfolding renew
    renew-Answered k expires now d =
        elim (Result-cases (Registry.renew k expires now d.registry).1) [
          | inr (e, x) ↦ unmoved-Answered d (renew services k expires now d) (ground (arith, x))
          | inl (o, x) ↦ elim (persist_answers k (intent_renewed services k expires) d) [
            | inl (e, y, w) ↦ inl (ground (arith, x, y), w)
            | inr (e, why, y, r) ↦
                let next : (renew services k expires now d).0 ≡ e = ground (arith, x, y) in
                inr (rw next r)
          ]
        ]

    -- What a second half says, after the observer has been called.
    later-Answered :
        {A : Type 0} (a d : DaemonState services) (x : Answer services A)
        → Quiet services a d
        → Answered d x
        → Answered a x
    later-Answered a d x q (inl (y, w)) = inl (y, sym q.writable ∙ w)
    later-Answered a d x q (inr r) = inr (around-Refused a d x.0 x.0 q r (Quiet-refl services x.0))

    close_untracked-Answered :
        (k : Text) (candidate : SessionRegistry) (removed : List ℕ) (d : DaemonState services)
        → Answered d (close_untracked services k candidate removed d)
    unfolding close_untracked
    close_untracked-Answered k candidate removed d =
        elim (persist_answers k (session_closed services k) d) [
          | inl (e, y, w) ↦ inl (ground (arith, y), w)
          | inr (e, why, y, r) ↦
              let undone = roll_back_if_scoped services track removed why e in
              let next : (close_untracked services k candidate removed d).0 ≡ undone.0 =
                ground (arith, y) in
              inr (
                rw next (
                  around-Refused d d e undone.0 (Quiet-refl services d) r
                    (roll_back_if_scoped-Quiet services track removed why e)))
        ]

    close-Answered : (k : Text) (d : DaemonState services) → Answered d (close services k d)
    unfolding close
    close-Answered k d = elim (Result-cases (Registry.close k d.registry).1) [
      | inr (e, x) ↦ unmoved-Answered d (close services k d) (ground (arith, x))
      | inl (s, x) ↦
          let e = (untrack_closed services s.cgroup_ids d).0 in
          let quiet = untrack_closed-Quiet services s.cgroup_ids d in
          elim (Result-cases (untrack_closed services s.cgroup_ids d).1) [
            | inr (why, y) ↦
                let next : (close services k d).0 ≡ e = ground (arith, x, y) in
                inr (rw next (Quiet-Refused d e quiet))
            | inl (removed, y) ↦
                let next : close services k d
                    ≡ close_untracked services k (Registry.close k d.registry).0 removed e =
                  ground (arith, x, y) in
                rw next (
                  later-Answered d e _ quiet
                    (close_untracked-Answered k (Registry.close k d.registry).0 removed e))
          ]
    ]

    record_discovery-Answered :
        (k : Text) (c : ℕ) (candidate : SessionRegistry) (o : AssociationOutcome)
        (d : DaemonState services)
        → Answered d (record_discovery services k c candidate o d)
    unfolding record_discovery
    record_discovery-Answered k c candidate o d =
        elim (persist_answers k (cgroup_discovered services k c o) d) [
          | inl (e, y, w) ↦ inl (ground (arith, y), w)
          | inr (e, why, y, r) ↦
              let undone = roll_back_if_scoped services untrack (c ∷ []) why e in
              let next : (record_discovery services k c candidate o d).0 ≡ undone.0 =
                elim (Result-cases undone.1) [
                  | inl (u, z) ↦ ground (arith, y, z)
                  | inr (f, z) ↦ ground (arith, y, z)
                ] in
              inr (
                rw next (
                  around-Refused d d e undone.0 (Quiet-refl services d) r
                    (roll_back_if_scoped-Quiet services untrack (c ∷ []) why e)))
        ]

    discover_cgroup-Answered :
        (k : Text) (c : ℕ) (d : DaemonState services) → Answered d (discover_cgroup services k c d)
    unfolding discover_cgroup
    discover_cgroup-Answered k c d =
        elim (Bool-cases (is_held_by services (session_for_cgroup c d.registry) k)) [
          | inl held ↦ unmoved-Answered d (discover_cgroup services k c d) (ground (arith, held))
          | inr free ↦ elim (Result-cases (Registry.discover_cgroup k c d.registry).1) [
            | inr (e, x) ↦
                unmoved-Answered d (discover_cgroup services k c d) (ground (arith, free, x))
            | inl (o, x) ↦
                let e = (apply_if_scoped services track c d).0 in
                let quiet = apply_if_scoped-Quiet services track c d in
                elim (Result-cases (apply_if_scoped services track c d).1) [
                  | inr (why, y) ↦
                      let next : (discover_cgroup services k c d).0 ≡ e =
                        ground (arith, free, x, y) in
                      inr (rw next (Quiet-Refused d e quiet))
                  | inl (u, y) ↦
                      let next : discover_cgroup services k c d
                          ≡ record_discovery services k c
                              (Registry.discover_cgroup k c d.registry).0 o e =
                        ground (arith, free, x, y) in
                      rw next (
                        later-Answered d e _ quiet (
                          record_discovery-Answered k c (Registry.discover_cgroup k c d.registry).0
                            o e))
                ]
          ]
        ]

    -- Registering, renewing, closing and discovering each succeed on writable storage, or leave
    -- the registry as it was; where a call leaves the registry, every timeline is as it was
    -- unless the storage fails during the call, and storage that had failed before stays so. (A
    -- discovery of a cgroup that the session holds changes nothing and may succeed on failed
    -- storage.)
    pub session_methods-Answered :
        (d : DaemonState services)
        → ((intent : SessionIntent) (now : ℕ) → Answered d (register services intent now d))
          × ((k : Text) (expires now : ℕ) → Answered d (renew services k expires now d))
          × ((k : Text) → Answered d (close services k d))
          × ((k : Text) (c : ℕ) → Answered d (discover_cgroup services k c d))
    session_methods-Answered d = (
      λ intent now. register-Answered intent now d,
      λ k expires now. renew-Answered k expires now d,
      λ k. close-Answered k d,
      λ k c. discover_cgroup-Answered k c d,
    )
