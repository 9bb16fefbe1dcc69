-- ===== src/Daemon/Durable.antt =====
-- The session methods keep the timelines true to the registry, as long as the storage is writable.
use apolysis.Common.{
  ℕ, ◌≡◌, inl, inr, refl, sym, ◌∙◌, true, List, [], ◌∷◌, ◌++◌, arith, Option-cases, Result-cases,
}
use apolysis.Common.Ordered.{bytes_ord}
use apolysis.Common.Text.{Text}
use apolysis.Daemon.{Services, DaemonState, DaemonError, timeline, scope_failed}
use apolysis.Daemon.Scope.{
  ScopeOperation, track, untrack, apply, apply_all_ignoring, roll_back, untrack_each,
  untrack_closed, apply_if_scoped, roll_back_if_scoped,
}
use apolysis.Daemon.Writes.{call_cases}
use apolysis.Daemon.Recorded.{IsRecorded, same-IsRecorded}

module _ (services : Services) where
  -- As long as the storage is writable, every timeline replays to what the registry holds.
  abbrev pub IsDurable : DaemonState services → Type 0
  IsDurable d =
      d.storage_writable ≡ true → IsRecorded services d.registry (λ k. timeline services k d)

  -- Neither the registry nor a timeline has changed.
  pub record Quiet (d e : DaemonState services) : Type 0 where
    pub registry : e.registry ≡ d.registry
    pub writable : e.storage_writable ≡ d.storage_writable
    pub records : (k : Text) → timeline services k e ≡ timeline services k d

  pub Quiet-refl : (d : DaemonState services) → Quiet d d
  Quiet-refl d = record { registry = refl; writable = refl; records = λ k. refl }

  Quiet-trans : (d e f : DaemonState services) → Quiet d e → Quiet e f → Quiet d f
  Quiet-trans d e f h k = record {
    registry = k.registry ∙ h.registry;
    writable = k.writable ∙ h.writable;
    records = λ j. k.records j ∙ h.records j;
  }

  pub Quiet-IsDurable : (d e : DaemonState services) → Quiet d e → IsDurable d → IsDurable e
  Quiet-IsDurable d e q h w =
      same-IsRecorded services d.registry e.registry (λ k. timeline services k d) _ q.registry
        q.records (h (sym q.writable ∙ w))

  -- The observer's calls are quiet.
  pub apply-Quiet :
      (o : ScopeOperation) (c : ℕ) (d : DaemonState services) → Quiet d (apply services o c d).0
  unfolding apply
  apply-Quiet o c d = elim (call_cases services scope_failed d) [
    | inl (p, x) ↦ record {
      registry = ground (arith, x);
      writable = ground (arith, x);
      records = λ k. ground (arith, x);
    }
    | inr (p, t, x) ↦ record {
      registry = ground (arith, x);
      writable = ground (arith, x);
      records = λ k. ground (arith, x);
    }
  ]

  pub apply_all_ignoring-Quiet :
      (o : ScopeOperation) (cs : List ℕ) (d : DaemonState services)
      → Quiet d (apply_all_ignoring services o cs d)
  unfolding apply_all_ignoring
  apply_all_ignoring-Quiet o [] d = Quiet-refl d
  apply_all_ignoring-Quiet o (c ∷ cs) d =
      Quiet-trans d _ _ (apply-Quiet o c d) (apply_all_ignoring-Quiet o cs (apply services o c d).0)

  roll_back-Quiet :
      (o : ScopeOperation) (cs : List ℕ) (why : DaemonError) (d : DaemonState services)
      → Quiet d (roll_back services o cs why d).0
  unfolding roll_back
  roll_back-Quiet o [] why d = Quiet-refl d
  roll_back-Quiet o (c ∷ cs) why d = elim (Result-cases (apply services o c d).1) [
    | inl (u, x) ↦
        rw (x, roll_back)
          (Quiet-trans d _ _ (apply-Quiet o c d)
            (roll_back-Quiet o cs why (apply services o c d).0))
    | inr (e, x) ↦ rw (x, roll_back) (apply-Quiet o c d)
  ]

  untrack_each-Quiet :
      (cs removed : List ℕ) (d : DaemonState services)
      → Quiet d (untrack_each services cs removed d).0
  unfolding untrack_each
  untrack_each-Quiet [] removed d = Quiet-refl d
  untrack_each-Quiet (c ∷ cs) removed d =
      let next = (apply services untrack c d).0 in
      elim (Result-cases (apply services untrack c d).1) [
        | inl (u, x) ↦
            rw (x, untrack_each)
              (Quiet-trans d _ _ (apply-Quiet untrack c d)
                (untrack_each-Quiet cs (removed ++ c ∷ []) next))
        | inr (e, x) ↦
            rw (x, untrack_each)
              (Quiet-trans d _ _ (apply-Quiet untrack c d)
                (apply_all_ignoring-Quiet track removed next))
      ]

  pub untrack_closed-Quiet :
      (cs : List ℕ) (d : DaemonState services) → Quiet d (untrack_closed services cs d).0
  unfolding untrack_closed
  untrack_closed-Quiet cs d = elim (Option-cases d.scope) [
    | inl e ↦
        let same_state : (untrack_closed services cs d).0 ≡ d = ground (arith, e) in
        rw same_state (Quiet-refl d)
    | inr (m, e) ↦
        let through : (untrack_closed services cs d).0 ≡ (untrack_each services cs [] d).0 =
          ground (arith, e) in
        rw through (untrack_each-Quiet cs [] d)
  ]

  pub apply_if_scoped-Quiet :
      (o : ScopeOperation) (c : ℕ) (d : DaemonState services)
      → Quiet d (apply_if_scoped services o c d).0
  unfolding apply_if_scoped
  apply_if_scoped-Quiet o c d = elim (Option-cases d.scope) [
    | inl e ↦
        let same_state : (apply_if_scoped services o c d).0 ≡ d = ground (arith, e) in
        rw same_state (Quiet-refl d)
    | inr (m, e) ↦
        let through : (apply_if_scoped services o c d).0 ≡ (apply services o c d).0 =
          ground (arith, e) in
        rw through (apply-Quiet o c d)
  ]

  pub roll_back_if_scoped-Quiet :
      (o : ScopeOperation) (cs : List ℕ) (why : DaemonError) (d : DaemonState services)
      → Quiet d (roll_back_if_scoped services o cs why d).0
  unfolding roll_back_if_scoped
  roll_back_if_scoped-Quiet o cs why d = elim (Option-cases d.scope) [
    | inl e ↦
        let same_state : (roll_back_if_scoped services o cs why d).0 ≡ d = ground (arith, e) in
        rw same_state (Quiet-refl d)
    | inr (m, e) ↦
        let through : (roll_back_if_scoped services o cs why d).0
            ≡ (roll_back services o cs why d).0 =
          ground (arith, e) in
        rw through (roll_back-Quiet o cs why d)
  ]
