-- ===== src/Registry/Transitions.antt =====
-- What a renewal, a closing, a degradation and a discovery do that succeed, seen from outside.
use apolysis.Common.{
  ℕ, ◌≡◌, inl, inr, refl, Bool, true, false, none, some, List, [], ◌∷◌, ◌++◌, ok, err, arith,
  contains, unwrap_or, Bool-cases, Option-cases, Result-cases, leb, contains-sort, any-append, sort,
  ◌==◌,
}
use apolysis.Common.Ordered.{bytes_ord, number_ord, same, same_iff}
use apolysis.Common.Text.{Text}
use apolysis.Common.TreeMap
use apolysis.Common.TreeMap.{
  TreeMap, map_option, remove_all, get-insert, get-remove, get-modify, get-remove_all, contains_key,
}
use apolysis.Intent.{SessionIntent}
use apolysis.Registry.{
  SessionRegistry, SessionState, SessionStatus, AssociationOutcome, is_closed, is_active, attach,
  add_cgroup, renew, renewed, closed, degraded, deactivate, deactivated, close, degrade,
  with_status, discover_cgroup, associate_cgroup, discover_pending, await_session,
  ensure_cgroup_available, RegistryError,
}
use apolysis.Registry.Claims.{IsOwned}
use apolysis.Registry.Ownership.{get-freed}
use apolysis.Registry.Attaching.{intent_of, closed_of, Settled, attach-Attaching, attached_whole}
use apolysis.Registry.Effects.{Effect}

-- The intent with another expiry.
abbrev pub expiring : ℕ → SessionIntent → SessionIntent
expiring expires intent = record intent { expires_at_unix_ms = expires }

-- A session's entry is replaced by one with this intent and flag; the rest stays.
modified-Effect :
    (k : Text) (f : SessionState → SessionState) (r q : SessionRegistry) (s : SessionState)
    → Settled r
    → TreeMap.get k r.sessions ≡ some s
    → q.sessions ≡ TreeMap.modify k f r.sessions
    → q.pending ≡ r.pending
    → ((j : Text) (c : ℕ)
        → TreeMap.get c q.cgroup_index ≡ some j
        → TreeMap.get c r.cgroup_index ≡ some j)
    → Effect k (some (f s).intent) (is_closed (f s).status) [] r q
modified-Effect k f r q s settled e sessions pending index = record {
  intents = λ j. ground (arith, e, sessions, get-modify k j f r.sessions, same_iff j k);
  closes = λ j. ground (arith, e, sessions, get-modify k j f r.sessions, same_iff j k);
  waits = λ j c w. inl (ground (arith, pending, w));
  indexed = λ j c x. inl (index j c x);
  settled = λ j t x. elim (Option-cases (TreeMap.get j r.sessions)) [
    | inl n ↦ absurd (ground (arith, n, x, sessions, get-modify k j f r.sessions))
    | inr (u, y) ↦ ground (arith, pending, settled j u y)
  ];
}

-- A renewal that succeeds is of a session that is registered and not closed.
pub renew-Effect :
    (k : Text) (expires now : ℕ) (r : SessionRegistry)
    → Settled r
    → (renew k expires now r).1 ≡ ok tt
    → (s : SessionState) × (TreeMap.get k r.sessions ≡ some s)
      × (is_closed s.status ≡ false)
      × Effect k (some (expiring expires s.intent)) false [] r (renew k expires now r).0
unfolding renew
renew-Effect k expires now r settled h = elim (Bool-cases (leb expires now)) [
  | inl late ↦ absurd (ground (arith, late, h))
  | inr live ↦ elim (Option-cases (TreeMap.get k r.sessions)) [
    | inl e ↦ absurd (ground (arith, live, e, h))
    | inr (s, e) ↦
        let opens : is_closed s.status ≡ false = ground (arith, live, e, h) in
        let next : (renew k expires now r).0
            ≡ record r { sessions = TreeMap.modify k (renewed expires) r.sessions } =
          ground (arith, live, e, opens) in
        (
          s,
          e,
          opens,
          rw next (modified-Effect k (renewed expires) r _ s settled e refl refl (λ j c x. x)),
        )
  ]
]

-- Of a session that is no longer active, no cgroup is indexed.
pub record Deactivated (k : Text) (shut : Bool) (listed : List ℕ) (r q : SessionRegistry)
    : Type 0 where
  pub before : SessionState
  pub found : TreeMap.get k r.sessions ≡ some before
  pub cgroups : listed ≡ before.cgroup_ids
  pub effect : Effect k (some before.intent) shut [] r q
  pub index : q.cgroup_index ≡ remove_all before.cgroup_ids r.cgroup_index

deactivated-Deactivated :
    (k : Text) (status : SessionStatus) (r : SessionRegistry) (s : SessionState)
    → Settled r
    → (deactivated k status r).1 ≡ ok s
    → Deactivated k (is_closed status) s.cgroup_ids r (deactivated k status r).0
unfolding deactivated deactivate
deactivated-Deactivated k status r s settled h = elim (Option-cases (TreeMap.get k r.sessions)) [
  | inl e ↦ absurd (ground (arith, e, h))
  | inr (t, e) ↦
      let after : SessionRegistry = record r {
        sessions = TreeMap.modify k (with_status status) r.sessions;
        cgroup_index = remove_all t.cgroup_ids r.cgroup_index;
      } in
      let next : (deactivated k status r).0 ≡ after = ground (arith, e) in
      rw next (record {
        before = t;
        found = e;
        cgroups =
            ground (arith, e, h, get-modify k k (with_status status) r.sessions, same_iff k k);
        effect =
            modified-Effect k (with_status status) r after t settled e refl refl
              (λ j c x. ground (arith, x, get-remove_all t.cgroup_ids c r.cgroup_index));
        index = refl;
      })
]

pub close-Deactivated :
    (k : Text) (r : SessionRegistry) (s : SessionState)
    → Settled r
    → (close k r).1 ≡ ok s
    → Deactivated k true s.cgroup_ids r (close k r).0
unfolding close
close-Deactivated k r s settled h = deactivated-Deactivated k closed r s settled h

pub degrade-Deactivated :
    (k : Text) (r : SessionRegistry) (s : SessionState)
    → Settled r
    → (degrade k r).1 ≡ ok s
    → Deactivated k false s.cgroup_ids r (degrade k r).0
unfolding degrade
degrade-Deactivated k r s settled h = deactivated-Deactivated k degraded r s settled h

-- Deactivation frees every cgroup that was indexed to the session.
pub Deactivated-freed :
    (k : Text) (shut : Bool) (cs : List ℕ) (r q : SessionRegistry) (c : ℕ)
    → IsOwned r
    → Settled r
    → Deactivated k shut cs r q
    → TreeMap.get c q.cgroup_index ≡ some k
    → ⊥
Deactivated-freed k shut cs r q c owned settled d h =
    let x = d.found in
    ground (
      arith,
      h,
      d.index,
      x,
      settled k d.before x,
      get-freed d.before c r.cgroup_index,
      owned.backed c k,
    )

-- A discovery that succeeds: the session is not closed, and it may have gained the cgroup.
pub record Discovered (k : Text) (c : ℕ) (r q : SessionRegistry) : Type 0 where
  pub opens : closed_of (TreeMap.get k r.sessions) ≡ false
  pub effect : Effect k (intent_of (TreeMap.get k r.sessions)) false (c ∷ []) r q

attach-Discovered :
    (k : Text) (c : ℕ) (r : SessionRegistry) (s : SessionState)
    → Settled r
    → TreeMap.get k r.sessions ≡ some s
    → is_closed s.status ≡ false
    → Discovered k c r (attach k c r)
attach-Discovered k c r s settled e opens =
    let a = attach-Attaching k c r in
    record {
      opens = ground (arith, e, opens);
      effect = record {
        intents = λ j. ground (arith, a.intents j, same_iff j k);
        closes = λ j. ground (arith, e, opens, a.closes j, same_iff j k);
        waits = λ j d w. inl w;
        indexed = a.indexed;
        settled = λ j t x. elim (Option-cases (TreeMap.get j r.sessions)) [
          | inl n ↦ absurd (ground (arith, n, x, get-modify k j (add_cgroup c) r.sessions))
          | inr (u, y) ↦ settled j u y
        ];
      };
    }

await_session-Discovered :
    (k : Text) (c : ℕ) (r : SessionRegistry)
    → Settled r
    → TreeMap.get k r.sessions ≡ none
    → Discovered k c r (await_session k c (unwrap_or (TreeMap.get k r.pending) []) r)
await_session-Discovered k c r settled e =
    let waiting = unwrap_or (TreeMap.get k r.pending) [] in
    record {
      opens = ground (arith, e);
      effect = record {
        intents = λ j. ground (arith, same_iff j k);
        closes = λ j. ground (arith, e, same_iff j k);
        waits = λ j d w. elim (Bool-cases (same j k)) [
          | inr n ↦ inl (ground (arith, n, w, get-insert k j (sort (waiting ++ c ∷ [])) r.pending))
          | inl y ↦ elim (Bool-cases (contains waiting d)) [
            | inl z ↦ inl (ground (arith, z, y, same_iff j k))
            | inr z ↦ inr (
              (same_iff j k).0 y,
              ground (
                arith,
                y,
                z,
                w,
                get-insert k j (sort (waiting ++ c ∷ [])) r.pending,
                contains-sort (waiting ++ c ∷ []) d,
                any-append (λ x. x == d) waiting (c ∷ []),
              ),
            )
          ]
        ];
        indexed = λ j d x. elim (Bool-cases (same d c)) [
          | inl y ↦ inr (ground (arith, y, x, get-insert c d k r.cgroup_index), ground (arith, y))
          | inr n ↦ inl (ground (arith, n, x, get-insert c d k r.cgroup_index))
        ];
        settled = λ j t x. elim (Bool-cases (same j k)) [
          | inl y ↦ absurd (ground (arith, y, x, e, same_iff j k))
          | inr n ↦
              ground (arith, n, settled j t x, get-insert k j (sort (waiting ++ c ∷ [])) r.pending)
        ];
      };
    }

unchanged-Discovered :
    (k : Text) (c : ℕ) (r : SessionRegistry)
    → Settled r
    → closed_of (TreeMap.get k r.sessions) ≡ false
    → Discovered k c r r
unchanged-Discovered k c r settled e = record {
  opens = e;
  effect = record {
    intents = λ j. ground (arith, same_iff j k);
    closes = λ j. ground (arith, e, same_iff j k);
    waits = λ j d w. inl w;
    indexed = λ j d x. inl x;
    settled = settled;
  };
}

pub discover_cgroup-Discovered :
    (k : Text) (c : ℕ) (r : SessionRegistry) (o : AssociationOutcome)
    → Settled r
    → (discover_cgroup k c r).1 ≡ ok o
    → Discovered k c r (discover_cgroup k c r).0
unfolding discover_cgroup associate_cgroup discover_pending
discover_cgroup-Discovered k c r o settled h = elim (Option-cases (TreeMap.get k r.sessions)) [
  | inr (s, e) ↦ elim (Bool-cases (is_active s.status)) [
    | inr n ↦ absurd (ground (arith, e, n, h))
    | inl y ↦
        let whole = attached_whole k c r (ground (arith, e, y, h)) in
        let next : (discover_cgroup k c r).0 ≡ attach k c r = ground (arith, e, y, whole) in
        rw next (attach-Discovered k c r s settled e (ground (arith, y)))
  ]
  | inl e ↦ elim (Result-cases (ensure_cgroup_available k c r)) [
    | inr (x, f) ↦ absurd (ground (arith, e, f, h))
    | inl (u, f) ↦ elim (Bool-cases (contains (unwrap_or (TreeMap.get k r.pending) []) c)) [
      | inl y ↦
          let next : (discover_cgroup k c r).0 ≡ r = ground (arith, e, f, y, h) in
          rw next (unchanged-Discovered k c r settled (ground (arith, e)))
      | inr n ↦
          let next : (discover_cgroup k c r).0
              ≡ await_session k c (unwrap_or (TreeMap.get k r.pending) []) r =
            ground (arith, e, f, n, h) in
          rw next (await_session-Discovered k c r settled e)
    ]
  ]
]

-- A degradation that is refused changes nothing.
pub degrade_refused :
    (k : Text) (r : SessionRegistry) (e : RegistryError)
    → (degrade k r).1 ≡ err e
    → (degrade k r).0 ≡ r
unfolding degrade deactivated deactivate
degrade_refused k r e h = elim (Option-cases (TreeMap.get k r.sessions)) [
  | inl n ↦ ground (arith, n)
  | inr (s, x) ↦
      absurd (ground (arith, x, h, get-modify k k (with_status degraded) r.sessions, same_iff k k))
]
