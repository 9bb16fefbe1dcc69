-- ===== src/Daemon/Writes.antt =====
-- What a write to a timeline does, whatever the operating system answers.
use apolysis.Common.{
  ◌≡◌, ◌⊎◌, inl, inr, refl, ◌∙◌, true, false, none, List, [], ◌∷◌, ◌++◌, ok, err, arith, Bool-cases,
  Result-cases, if◌then◌else◌,
}
use apolysis.Common.Ordered.{bytes_ord, same, same_iff}
use apolysis.Common.Text.{Text}
use apolysis.Common.TreeMap
use apolysis.Common.TreeMap.{TreeMap, contains_key, get-insert}
use apolysis.Daemon.{
  Services, Documented, timeline, DaemonState, DaemonError, call, CallOutcome, done, failed,
  open_store, append, append_json, serialised, persist_inner, persist, Answer, io_failed,
  storage_failed, storage_unavailable,
}

module _ (services : Services) where
  open services use {Value}

  -- The parts of the state that no write to a timeline changes.
  pub record Keeps (d e : DaemonState services) : Type 0 where
    pub registry : e.registry ≡ d.registry
    pub scope : e.scope ≡ d.scope
    pub paused : e.paused_sessions ≡ d.paused_sessions
    pub policies : e.redaction_policies ≡ d.redaction_policies

  pub Keeps-refl : (d : DaemonState services) → Keeps d d
  Keeps-refl d = record { registry = refl; scope = refl; paused = refl; policies = refl }

  pub Keeps-trans : (d e f : DaemonState services) → Keeps d e → Keeps e f → Keeps d f
  Keeps-trans d e f h k = record {
    registry = k.registry ∙ h.registry;
    scope = k.scope ∙ h.scope;
    paused = k.paused ∙ h.paused;
    policies = k.policies ∙ h.policies;
  }

  -- Nothing was written.
  pub record Unwritten (d e : DaemonState services) : Type 0 where
    pub keeps : Keeps d e
    pub writable : e.storage_writable ≡ d.storage_writable
    pub records : (k : Text) → timeline services k e ≡ timeline services k d

  -- One record was added to one timeline.
  pub record Written (session : Text) (v : Value) (d e : DaemonState services) : Type 0 where
    pub keeps : Keeps d e
    pub writable : e.storage_writable ≡ d.storage_writable
    pub records :
        (k : Text)
        → timeline services k e ≡ (
            if same k session then timeline services session d ++ v ∷ [] else timeline services k d)

  -- The state past a call.
  abbrev past : DaemonState services → List CallOutcome → DaemonState services
  past d o = record d { outcomes = o }

  -- A call takes an answer, or none is left.
  abbrev Called : (Text → DaemonError) → DaemonState services → Type 0
  Called why d =
      ((o : List CallOutcome) × (call services why d ≡ (past d o, ok tt)))
      ⊎ ((o : List CallOutcome) × (t : Text) × (call services why d ≡ (past d o, err (why t))))

  call_from :
      (why : Text → DaemonError) (d : DaemonState services) (o : List CallOutcome)
      → d.outcomes ≡ o
      → Called why d
  unfolding call
  call_from why d [] e = inl (d.outcomes, ground (arith, e))
  call_from why d (done ∷ o) e = inl (o, ground (arith, e))
  call_from why d (failed t ∷ o) e = inr (o, t, ground (arith, e))

  pub call_cases : (why : Text → DaemonError) (d : DaemonState services) → Called why d
  call_cases why d = call_from why d d.outcomes refl

  past-Unwritten : (d : DaemonState services) (o : List CallOutcome) → Unwritten d (past d o)
  past-Unwritten d o = record {
    keeps = record { registry = refl; scope = refl; paused = refl; policies = refl };
    writable = refl;
    records = λ k. refl;
  }

  -- The state once a store is open.
  abbrev opened : Text → DaemonState services → DaemonState services
  opened session d = record d {
    stores = TreeMap.insert session tt d.stores;
    disk =
        TreeMap.insert session (record { records = timeline services session d; quarantine = none })
          d.disk;
  }

  opened-Unwritten :
      (session : Text) (d : DaemonState services) (o : List CallOutcome)
      → Unwritten d (opened session (past d o))
  opened-Unwritten session d o = record {
    keeps = record { registry = refl; scope = refl; paused = refl; policies = refl };
    writable = refl;
    records = λ k. ground (
      arith,
      get-insert session k (record { records = timeline services session d; quarantine = none })
          d.disk,
      same_iff k session,
    );
  }

  -- A result with a state of which a property holds.
  abbrev pub Ends :
      {A : Type 0}
      → Answer services A
      → (DaemonState services → Type 0)
      → (DaemonState services → Type 0)
      → Type 0
  Ends {A} x P Q =
      ((e : DaemonState services) × (a : A) × (x ≡ (e, ok a)) × P e)
      ⊎ ((e : DaemonState services) × (why : DaemonError) × (x ≡ (e, err why)) × Q e)

  open_cases :
      (session : Text) (d : DaemonState services)
      → Ends (open_store services session d) (Unwritten d) (Unwritten d)
  unfolding open_store
  open_cases session d = elim (Bool-cases (contains_key session d.stores)) [
    | inl e ↦ inl (d, tt, ground (arith, e), past-Unwritten d d.outcomes)
    | inr e ↦ elim (call_cases io_failed d) [
      | inl (o, c) ↦
          inl (opened session (past d o), tt, ground (arith, e, c), opened-Unwritten session d o)
      | inr (o, t, c) ↦ inr (past d o, io_failed t, ground (arith, e, c), past-Unwritten d o)
    ]
  ]

  -- The write failed, before or after its record reached the file.
  pub record Attempted (session : Text) (v : Value) (d e : DaemonState services) : Type 0 where
    pub keeps : Keeps d e
    pub writable : e.storage_writable ≡ d.storage_writable
    pub records :
        (k : Text)
        → (timeline services k e ≡ timeline services k d)
          ⊎ ((k ≡ session) × (timeline services k e ≡ timeline services k d ++ v ∷ []))

  append-Written :
      (session : Text) (v : Value) (d : DaemonState services) (o p : List CallOutcome)
      → Written session v d (past (append services session v (past d o)) p)
  append-Written session v d o p = record {
    keeps = record { registry = refl; scope = refl; paused = refl; policies = refl };
    writable = refl;
    records = λ k. ground (
      arith,
      get-insert session k
          (record { records = timeline services session d ++ v ∷ []; quarantine = none }) d.disk,
      same_iff k session,
    );
  }

  pub Unwritten-Attempted :
      (session : Text) (v : Value) (d e : DaemonState services)
      → Unwritten d e
      → Attempted session v d e
  Unwritten-Attempted session v d e u = record {
    keeps = u.keeps;
    writable = u.writable;
    records = λ k. inl (u.records k);
  }

  pub Written-Attempted :
      (session : Text) (v : Value) (d e : DaemonState services)
      → Written session v d e
      → Attempted session v d e
  Written-Attempted session v d e w = record {
    keeps = w.keeps;
    writable = w.writable;
    records = λ k. elim (Bool-cases (same k session)) [
      | inl s ↦ inr ((same_iff k session).0 s, ground (arith, w.records k, same_iff k session))
      | inr s ↦ inl (ground (arith, w.records k, s))
    ];
  }

  append_cases :
      (session : Text) (v : Value) (d : DaemonState services)
      → Ends (append_json services session v d) (Written session v d) (Attempted session v d)
  unfolding append_json
  append_cases session v d = elim (call_cases io_failed d) [
    | inr (o, t, c) ↦ inr (
      past d o,
      io_failed t,
      ground (arith, c),
      Unwritten-Attempted session v d (past d o) (past-Unwritten d o),
    )
    | inl (o, c) ↦
        let grown = append services session v (past d o) in
        elim (call_cases io_failed grown) [
          | inl (p, f) ↦
              inl (past grown p, tt, ground (arith, c, f), append-Written session v d o p)
          | inr (p, t, f) ↦ inr (
            past grown p,
            io_failed t,
            ground (arith, c, f),
            Written-Attempted session v d (past grown p) (append-Written session v d o p),
          )
        ]
  ]

  -- What holds past an opened store holds from the start.
  Unwritten-Written :
      (session : Text) (v : Value) (d e f : DaemonState services)
      → Unwritten d e
      → Written session v e f
      → Written session v d f
  Unwritten-Written session v d e f u w = record {
    keeps = Keeps-trans d e f u.keeps w.keeps;
    writable = w.writable ∙ u.writable;
    records = λ k. ground (arith, w.records k, u.records k, u.records session);
  }

  Unwritten-then_Attempted :
      (session : Text) (v : Value) (d e f : DaemonState services)
      → Unwritten d e
      → Attempted session v e f
      → Attempted session v d f
  Unwritten-then_Attempted session v d e f u w = record {
    keeps = Keeps-trans d e f u.keeps w.keeps;
    writable = w.writable ∙ u.writable;
    records = λ k. elim (w.records k) [
      | inl s ↦ inl (s ∙ u.records k)
      | inr (s, a) ↦ inr (s, ground (arith, a, u.records k))
    ];
  }

  module _ (documented : Documented services) where
    serialised-same : (v w : Value) → serialised services v ≡ ok w → w ≡ v
    unfolding serialised
    serialised-same v w e = elim (Result-cases (services.to_string v)) [
      | inl (t, s) ↦ ground (arith, s, documented.from_to_string v t s)
      | inr (t, s) ↦ absurd (ground (arith, s))
    ]

    pub persist_inner_cases :
        (session : Text) (v : Value) (d : DaemonState services)
        → Ends (persist_inner services session v d) (Written session v d) (Attempted session v d)
    unfolding persist_inner
    persist_inner_cases session v d = elim (open_cases session d) [
      | inr (e, why, x, u) ↦ inr (e, why, ground (arith, x), Unwritten-Attempted session v d e u)
      | inl (e, a, x, u) ↦ elim (Result-cases (serialised services v)) [
        | inr (why, s) ↦ inr (e, why, ground (arith, x, s), Unwritten-Attempted session v d e u)
        | inl (w, s) ↦
            let kept : serialised services v ≡ ok v = ground (arith, s, serialised-same v w s) in
            elim (append_cases session v e) [
              | inl (f, b, y, g) ↦
                  inl (f, tt, ground (arith, x, kept, y), Unwritten-Written session v d e f u g)
              | inr (f, why, y, g) ↦
                  inr (
                    f,
                    why,
                    ground (arith, x, kept, y),
                    Unwritten-then_Attempted session v d e f u g,
                  )
            ]
      ]
    ]

    -- A write that fails leaves the storage unusable from then on.
    pub persist_cases :
        (session : Text) (v : Value) (d : DaemonState services)
        → Ends
            (persist services session v d)
            (λ e. (d.storage_writable ≡ true) × Written session v d e)
            (λ e. Keeps d e × (e.storage_writable ≡ false))
    unfolding persist
    persist_cases session v d = elim (Bool-cases d.storage_writable) [
      | inr n ↦ inr (d, storage_unavailable, ground (arith, n), (Keeps-refl d, n))
      | inl y ↦ elim (persist_inner_cases session v d) [
        | inl (e, a, x, w) ↦ inl (e, tt, ground (arith, y, x), (y, w))
        | inr (e, why, x, w) ↦ inr (
          storage_failed services e,
          why,
          ground (arith, y, x),
          (
            record {
              registry = w.keeps.registry;
              scope = w.keeps.scope;
              paused = w.keeps.paused;
              policies = w.keeps.policies;
            },
            refl,
          ),
        )
      ]
    ]
