-- ===== src/Registry/Effects.antt =====
-- What a successful call does, seen from outside: the intent that each session is registered with,
-- whether it is closed, which cgroups wait for it and which are indexed to it.
use apolysis.Common.{
  ℕ, ◌≡◌, ◌⊎◌, inl, inr, refl, ◌∙◌, Bool, true, false, Option, none, some, List, [], ok, err, arith,
  contains, unwrap_or, Bool-cases, Option-cases, if◌then◌else◌,
}
use apolysis.Common.Ordered.{bytes_ord, number_ord, same, same_iff}
use apolysis.Common.Text.{Text}
use apolysis.Common.TreeMap
use apolysis.Common.TreeMap.{
  TreeMap, map_option, remove_all, get-insert, get-remove, get-modify, get-remove_all,
}
use apolysis.Intent.{SessionIntent}
use apolysis.Registry.{
  SessionRegistry, SessionState, adopt_pending, finish, register, RegisterOutcome, Outcome,
  inserted, replaced, new_state, reregister,
}
use apolysis.Registry.Attaching.{
  intent_of, closed_of, waits_for, Settled, Adopting, adopt_pending-Adopting,
}
use apolysis.Registry.Adoption.{
  finish-ok, register_refused, reregistered, with_session, register_known, register_new,
}

-- The session k has this intent and this closed flag now, it may have gained these cgroups, and
-- nothing else has changed.
pub record Effect (k : Text) (intent : Option SessionIntent) (shut : Bool) (gained : List ℕ)
    (r q : SessionRegistry) : Type 0 where
  pub intents :
      (j : Text)
      → intent_of (TreeMap.get j q.sessions)
        ≡ (if same j k then intent else intent_of (TreeMap.get j r.sessions))
  pub closes :
      (j : Text)
      → closed_of (TreeMap.get j q.sessions)
        ≡ (if same j k then shut else closed_of (TreeMap.get j r.sessions))
  pub waits :
      (j : Text) (c : ℕ)
      → waits_for j c q ≡ true
      → (waits_for j c r ≡ true) ⊎ ((j ≡ k) × (contains gained c ≡ true))
  pub indexed :
      (j : Text) (c : ℕ)
      → TreeMap.get c q.cgroup_index ≡ some j
      → (TreeMap.get c r.cgroup_index ≡ some j) ⊎ ((j ≡ k) × (contains gained c ≡ true))
  pub settled : Settled q

-- A session whose intent is now this one, before it adopts.
record Entered (intent : SessionIntent) (r q : SessionRegistry) : Type 0 where
  intents :
      (j : Text)
      → intent_of (TreeMap.get j q.sessions)
        ≡ (if same j intent.session_id then some intent else intent_of (TreeMap.get j r.sessions))
  closes :
      (j : Text)
      → closed_of (TreeMap.get j q.sessions)
        ≡ (if same j intent.session_id then false else closed_of (TreeMap.get j r.sessions))
  pending : q.pending ≡ r.pending
  index : q.cgroup_index ≡ r.cgroup_index

reregistered-Entered :
    (intent : SessionIntent) (r : SessionRegistry) (s : SessionState)
    → TreeMap.get intent.session_id r.sessions ≡ some s
    → Entered intent r (reregistered intent r)
reregistered-Entered intent r s e =
    let id = intent.session_id in
    record {
      intents =
          λ j. ground (arith, e, get-modify id j (reregister intent) r.sessions, same_iff j id);
      closes =
          λ j. ground (arith, e, get-modify id j (reregister intent) r.sessions, same_iff j id);
      pending = refl;
      index = refl;
    }

with_session-Entered :
    (intent : SessionIntent) (r : SessionRegistry) → Entered intent r (with_session intent r)
unfolding new_state
with_session-Entered intent r =
    let id = intent.session_id in
    record {
      intents = λ j. ground (arith, get-insert id j (new_state intent) r.sessions, same_iff j id);
      closes = λ j. ground (arith, get-insert id j (new_state intent) r.sessions, same_iff j id);
      pending = refl;
      index = refl;
    }

some_of_intent :
    (a b : Option SessionState) (s : SessionState)
    → intent_of a ≡ intent_of b
    → a ≡ some s
    → (t : SessionState) × (b ≡ some t)
some_of_intent a none s e f = absurd (ground (arith, e, f))
some_of_intent a (some t) s e f = (t, refl)

Entered-Effect :
    (intent : SessionIntent) (r q p : SessionRegistry)
    → Settled r
    → Entered intent r q
    → Adopting intent.session_id q p
    → Effect intent.session_id
        (some intent)
        false
        (unwrap_or (TreeMap.get intent.session_id r.pending) [])
        r
        p
Entered-Effect intent r q p settled e a = record {
  intents = λ j. a.intents j ∙ e.intents j;
  closes = λ j. a.closes j ∙ e.closes j;
  waits = λ j c w. inl (ground (arith, w, a.pending j, e.pending));
  indexed = λ j c x. elim (a.indexed j c x) [
    | inl y ↦ inl (rw e.index at y)
    | inr (i, y) ↦ inr (i, ground (arith, y, e.pending))
  ];
  settled = λ j s x. elim (Bool-cases (same j intent.session_id)) [
    | inl i ↦ ground (arith, i, a.pending j)
    | inr i ↦
        let (t, y) =
          some_of_intent (TreeMap.get j p.sessions) (TreeMap.get j r.sessions) s
            (a.intents j ∙ (e.intents j ∙ ground (arith, i))) x in
        ground (arith, i, a.pending j, e.pending, settled j t y)
  ];
}

finish-state : (x : Outcome (Unit {0})) (o : RegisterOutcome) → (finish o x).0 ≡ x.0
finish-state (r, ok u) o = refl
finish-state (r, err e) o = refl

Entered-finish :
    (intent : SessionIntent) (r q : SessionRegistry) (o p : RegisterOutcome)
    → Settled r
    → Entered intent r q
    → (finish o (adopt_pending intent.session_id q)).1 ≡ ok p
    → Effect intent.session_id
        (some intent)
        false
        (unwrap_or (TreeMap.get intent.session_id r.pending) [])
        r
        (finish o (adopt_pending intent.session_id q)).0
Entered-finish intent r q o p settled e h =
    let x = adopt_pending intent.session_id q in
    rw (finish-state x o) (
      Entered-Effect intent r q x.0 settled e
        (adopt_pending-Adopting intent.session_id q (finish-ok x o p h)))

-- A registration that succeeds.
pub register-Effect :
    (intent : SessionIntent) (now : ℕ) (r : SessionRegistry) (o : RegisterOutcome)
    → Settled r
    → (register intent now r).1 ≡ ok o
    → Effect intent.session_id
        (some intent)
        false
        (unwrap_or (TreeMap.get intent.session_id r.pending) [])
        r
        (register intent now r).0
register-Effect intent now r o settled h =
    let (v, room) = register_refused intent now r o h in
    elim (Option-cases (TreeMap.get intent.session_id r.sessions)) [
      | inr (s, e) ↦
          let path = register_known intent now r s v e in
          rw path (
            Entered-finish intent r (reregistered intent r) replaced o settled
              (reregistered-Entered intent r s e) (rw path at h))
      | inl e ↦
          let path = register_new intent now r v e (room e) in
          rw path (
            Entered-finish intent r (with_session intent r) inserted o settled
              (with_session-Entered intent r) (rw path at h))
    ]
