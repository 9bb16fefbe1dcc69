-- ===== src/Daemon/Recorded.antt =====
-- The timelines record the registry: what the replay reads back from each session's records is what
-- the registry holds of it.
use mathlib.Core.Path.{subst}
use apolysis.Common.{
  ℕ, ◌≡◌, ◌<◌, ◌⊎◌, inl, inr, sym, ap, ◌∙◌, Bool, true, false, Option, some, List, [], ◌∷◌, ◌++◌,
  ok, arith, u64_mod, contains, unwrap_or, Bool-cases, Option-cases, any-append, if◌then◌else◌,
  ◌==◌,
}
use apolysis.Common.Ordered.{bytes_ord, number_ord, same, same_iff}
use apolysis.Common.Text.{Text}
use apolysis.Common.TreeMap
use apolysis.Common.TreeMap.{TreeMap, map_option}
use apolysis.Intent.{SessionIntent}
use apolysis.Registry
use apolysis.Registry.{
  SessionRegistry, SessionState, AssociationOutcome, RegisterOutcome, is_closed, is_active,
}
use apolysis.Registry.Adoption.{register-IsOwned}
use apolysis.Registry.Ownership.{renew-IsOwned, close-IsOwned, discover_cgroup-IsOwned}
use apolysis.Registry.Claims.{IsOwned}
use apolysis.Registry.Attaching.{intent_of, closed_of, waits_for, Settled}
use apolysis.Registry.Effects.{Effect, register-Effect}
use apolysis.Registry.Transitions.{
  expiring, renew-Effect, close-Deactivated, Deactivated-freed, discover_cgroup-Discovered,
}
use apolysis.Daemon.{Services, Documented}
use apolysis.Daemon.Sessions as Sessions
use apolysis.Daemon.Replay.{Replayed, nothing_replayed, replay_from}
use apolysis.Daemon.Records.{
  replay_from-append, turn, turn_registered, turn_renewed, turn_closed, turn_discovered,
}

-- The replayed variables of a session are what the registry holds of it: its intent with its
-- current expiry and whether it is closed, and every cgroup that is indexed to it or waits for it.
pub record Follows (k : Text) (p : Replayed) (r : SessionRegistry) : Type 0 where
  pub intent : p.intent ≡ intent_of (TreeMap.get k r.sessions)
  pub closed : p.closed ≡ closed_of (TreeMap.get k r.sessions)
  pub indexed : (c : ℕ) → TreeMap.get c r.cgroup_index ≡ some k → contains p.cgroup_ids c ≡ true
  pub waits : (c : ℕ) → waits_for k c r ≡ true → contains p.cgroup_ids c ≡ true

-- Another session's call leaves it.
other-Follows :
    (k j : Text) (i : Option SessionIntent) (b : Bool) (gained : List ℕ) (r q : SessionRegistry)
    (p : Replayed)
    → same j k ≡ false
    → Effect k i b gained r q
    → Follows j p r
    → Follows j p q
other-Follows k j i b gained r q p n e f = record {
  intent = f.intent ∙ ground (arith, n, e.intents j);
  closed = f.closed ∙ ground (arith, n, e.closes j);
  indexed = λ c x. elim (e.indexed j c x) [
    | inl y ↦ f.indexed c y
    | inr (y, z) ↦ absurd (ground (arith, n, (same_iff j k).1 y))
  ];
  waits = λ c x. elim (e.waits j c x) [
    | inl y ↦ f.waits c y
    | inr (y, z) ↦ absurd (ground (arith, n, (same_iff j k).1 y))
  ];
}

-- A call that leaves the session's intent and its closed flag leaves every session.
pub unmoved-Follows :
    (k j : Text) (i : Option SessionIntent) (b : Bool) (r q : SessionRegistry) (p : Replayed)
    → i ≡ intent_of (TreeMap.get k r.sessions)
    → b ≡ closed_of (TreeMap.get k r.sessions)
    → Effect k i b [] r q
    → Follows j p r
    → Follows j p q
unmoved-Follows k j i b r q p a z e f = record {
  intent = f.intent ∙ ground (arith, a, e.intents j, same_iff j k);
  closed = f.closed ∙ ground (arith, z, e.closes j, same_iff j k);
  indexed = λ c x. elim (e.indexed j c x) [ inl y ↦ f.indexed c y | inr (y, z) ↦ cc ];
  waits = λ c x. elim (e.waits j c x) [ inl y ↦ f.waits c y | inr (y, z) ↦ cc ];
}

-- A closed session holds no cgroup.
closed_holds_none :
    (k : Text) (c : ℕ) (r : SessionRegistry)
    → IsOwned r
    → Settled r
    → closed_of (TreeMap.get k r.sessions) ≡ true
    → (TreeMap.get c r.cgroup_index ≡ some k) ⊎ (waits_for k c r ≡ true)
    → ⊥
closed_holds_none k c r owned settled h x = elim (Option-cases (TreeMap.get k r.sessions)) [
  | inl e ↦ ground (arith, e, h)
  | inr (s, e) ↦ ground (arith, e, h, x, owned.backed c k, settled k s e)
]

-- What a successful call of session k has done, when one record tells it.
module _ (k : Text) (i : Option SessionIntent) (b : Bool) (gained : List ℕ) (r q : SessionRegistry)
    (p : Replayed) (e : Effect k i b gained r q) (f : Follows k p r) where
  -- The replayed variables keep the cgroups and take up what was gained.
  kept-Follows :
      (cs : List ℕ)
      → ((c : ℕ)
          → (TreeMap.get c r.cgroup_index ≡ some k) ⊎ (waits_for k c r ≡ true)
          → contains cs c ≡ true)
      → ((c : ℕ) → contains gained c ≡ true → contains cs c ≡ true)
      → Follows k (record { intent = i; cgroup_ids = cs; closed = b }) q
  kept-Follows cs old new = record {
    intent = ground (arith, e.intents k, same_iff k k);
    closed = ground (arith, e.closes k, same_iff k k);
    indexed = λ c x. elim (e.indexed k c x) [ inl y ↦ old c (inl y) | inr (y, z) ↦ new c z ];
    waits = λ c x. elim (e.waits k c x) [ inl y ↦ old c (inr y) | inr (y, z) ↦ new c z ];
  }

Follows-listed :
    (k : Text) (p : Replayed) (r : SessionRegistry) (c : ℕ)
    → Follows k p r
    → (TreeMap.get c r.cgroup_index ≡ some k) ⊎ (waits_for k c r ≡ true)
    → contains p.cgroup_ids c ≡ true
Follows-listed k p r c f (inl y) = f.indexed c y
Follows-listed k p r c f (inr y) = f.waits c y

-- A registration of a closed session drops its old cgroups.
reopened-listed :
    (k : Text) (p : Replayed) (r : SessionRegistry) (c : ℕ)
    → IsOwned r
    → Settled r
    → Follows k p r
    → (TreeMap.get c r.cgroup_index ≡ some k) ⊎ (waits_for k c r ≡ true)
    → contains (if p.closed then [] else p.cgroup_ids) c ≡ true
reopened-listed k p r c owned settled f x = elim (Bool-cases p.closed) [
  | inl y ↦ absurd (closed_holds_none k c r owned settled (sym f.closed ∙ y) x)
  | inr n ↦ ground (arith, n, Follows-listed k p r c f x)
]

module _ (services : Services) where
  open services use {Value}

  -- Every timeline replays, to what the registry holds.
  pub record IsRecorded (r : SessionRegistry) (lines : Text → List Value) : Type 0 where
    pub owned : IsOwned r
    pub settled : Settled r
    pub replays :
        (k : Text)
        → (p : Replayed) × (replay_from services nothing_replayed (lines k) ≡ ok p) × Follows k p r

  -- It depends on the lines and the registry only.
  pub same-IsRecorded :
      (r q : SessionRegistry) (lines after : Text → List Value)
      → q ≡ r
      → ((k : Text) → after k ≡ lines k)
      → IsRecorded r lines
      → IsRecorded q after
  same-IsRecorded r q lines after e t h = record {
    owned = rw e h.owned;
    settled = rw e h.settled;
    replays = λ k. rw (e, t k) (h.replays k);
  }

  -- A call of session k beside the record that tells it.
  extend-IsRecorded :
      (k : Text) (v : Value) (i : Option SessionIntent) (b : Bool) (gained : List ℕ)
      (r q : SessionRegistry) (lines after : Text → List Value)
      → IsRecorded r lines
      → IsOwned q
      → Effect k i b gained r q
      → ((j : Text) → after j ≡ (if same j k then lines k ++ v ∷ [] else lines j))
      → ((p : Replayed)
          → Follows k p r
          → (p' : Replayed) × (turn services v p ≡ ok p') × Follows k p' q)
      → IsRecorded q after
  extend-IsRecorded k v i b gained r q lines after h owned e wrote told = record {
    owned = owned;
    settled = e.settled;
    replays = λ j. elim (Bool-cases (same j k)) [
      | inr n ↦
          let (p, x, f) = h.replays j in
          (p, ground (arith, wrote j, n, x), other-Follows k j i b gained r q p n e f)
      | inl y ↦
          let (p, x, f) = h.replays k in
          let (p', t, g) = told p f in
          let here : replay_from services nothing_replayed (after j) ≡ ok p' =
            ground
              (arith, wrote j, y, x, t, replay_from-append services nothing_replayed (lines k) v) in
          (p', here, subst (λ (x : Text). Follows x p' q) (sym ((same_iff j k).0 y)) g)
    ];
  }

  module _ (documented : Documented services) where
    pub register-IsRecorded :
        (intent : SessionIntent) (now : ℕ) (r : SessionRegistry) (o : RegisterOutcome)
        (lines after : Text → List Value)
        → IsRecorded r lines
        → (Registry.register intent now r).1 ≡ ok o
        → ((j : Text)
            → after j ≡ (
                if same j intent.session_id
                then lines intent.session_id ++ Sessions.intent_registered services intent ∷ []
                else lines j))
        → IsRecorded (Registry.register intent now r).0 after
    register-IsRecorded intent now r o lines after h done wrote =
        let k = intent.session_id in
        let waiting = unwrap_or (TreeMap.get k r.pending) [] in
        let e = register-Effect intent now r o h.settled done in
        extend-IsRecorded k (Sessions.intent_registered services intent) (some intent) false waiting
          r _ lines after h (register-IsOwned intent now r o h.owned done) e wrote
          λ p f. (
            _,
            turn_registered services documented intent p,
            kept-Follows k (some intent) false waiting r _ p e f
                (if p.closed then [] else p.cgroup_ids)
                (λ c. reopened-listed k p r c h.owned h.settled f)
                (λ c x. reopened-listed k p r c h.owned h.settled f (inr x)),
          )

    pub renew-IsRecorded :
        (k : Text) (expires now : ℕ) (r : SessionRegistry) (lines after : Text → List Value)
        → expires < u64_mod
        → IsRecorded r lines
        → (Registry.renew k expires now r).1 ≡ ok tt
        → ((j : Text)
            → after j ≡ (
                if same j k
                then lines k ++ Sessions.intent_renewed services k expires ∷ []
                else lines j))
        → IsRecorded (Registry.renew k expires now r).0 after
    renew-IsRecorded k expires now r lines after fits h done wrote =
        let (s, x, opens, e) = renew-Effect k expires now r h.settled done in
        extend-IsRecorded k (Sessions.intent_renewed services k expires)
          (some (expiring expires s.intent)) false [] r _ lines after h
          (renew-IsOwned k expires now r h.owned) e wrote
          λ p f.
            let shut : p.closed ≡ false = f.closed ∙ ground (arith, x, opens) in
            (
              record {
                intent = some (expiring expires s.intent);
                cgroup_ids = p.cgroup_ids;
                closed = false;
              },
              turn_renewed services documented k expires p s.intent fits
                    (f.intent ∙ ground (arith, x))
                  ∙ ap
                      (λ b. ok (record p { intent = some (expiring expires s.intent); closed = b }))
                      shut,
              kept-Follows k (some (expiring expires s.intent)) false [] r _ p e f p.cgroup_ids
                  (λ c. Follows-listed k p r c f) (λ c y. cc),
            )

    pub close-IsRecorded :
        (k : Text) (r : SessionRegistry) (s : SessionState) (lines after : Text → List Value)
        → IsRecorded r lines
        → (Registry.close k r).1 ≡ ok s
        → ((j : Text)
            → after j
              ≡ (if same j k then lines k ++ Sessions.session_closed services k ∷ [] else lines j))
        → IsRecorded (Registry.close k r).0 after
    close-IsRecorded k r s lines after h done wrote =
        let d = close-Deactivated k r s h.settled done in
        let owned = close-IsOwned k r h.owned in
        extend-IsRecorded k (Sessions.session_closed services k) (some d.before.intent) true [] r _
          lines after h owned d.effect wrote
          λ p f. (
            record { intent = p.intent; cgroup_ids = []; closed = true },
            turn_closed services documented k p,
            record {
              intent = f.intent ∙ ground (arith, d.found, d.effect.intents k, same_iff k k);
              closed = ground (arith, d.effect.closes k, same_iff k k);
              indexed =
                  λ c x. absurd (Deactivated-freed k true s.cgroup_ids r _ c h.owned h.settled d x);
              waits = λ c x. absurd (elim (d.effect.waits k c x) [
                | inl y ↦ ground (arith, y, d.found, h.settled k d.before)
                | inr (y, z) ↦ cc
              ]);
            },
          )

    pub discover-IsRecorded :
        (k : Text) (c : ℕ) (r : SessionRegistry) (o : AssociationOutcome)
        (lines after : Text → List Value)
        → c < u64_mod
        → IsRecorded r lines
        → (Registry.discover_cgroup k c r).1 ≡ ok o
        → ((j : Text)
            → after j ≡ (
                if same j k
                then lines k ++ Sessions.cgroup_discovered services k c o ∷ []
                else lines j))
        → IsRecorded (Registry.discover_cgroup k c r).0 after
    discover-IsRecorded k c r o lines after fits h done wrote =
        let d = discover_cgroup-Discovered k c r o h.settled done in
        extend-IsRecorded k (Sessions.cgroup_discovered services k c o)
          (intent_of (TreeMap.get k r.sessions)) false (c ∷ []) r _ lines after h
          (discover_cgroup-IsOwned k c r h.owned) d.effect wrote
          λ p f.
            let shut : p.closed ≡ false = f.closed ∙ d.opens in
            let cs = if contains p.cgroup_ids c then p.cgroup_ids else p.cgroup_ids ++ c ∷ [] in
            (
              record {
                intent = intent_of (TreeMap.get k r.sessions);
                cgroup_ids = cs;
                closed = false;
              },
              turn_discovered services documented k c o p fits
                  ∙ ap
                      (λ (x : Option SessionIntent × Bool).
                        ok (record { intent = x.0; cgroup_ids = cs; closed = x.1 }))
                      (ap (λ (b : Bool). (p.intent, b)) shut ∙ ap (λ i. (i, false)) f.intent),
              kept-Follows k (intent_of (TreeMap.get k r.sessions)) false (c ∷ []) r _ p d.effect f
                  cs
                  (λ b x. ground (
                    arith,
                    Follows-listed k p r b f x,
                    any-append (λ y. y == b) p.cgroup_ids (c ∷ []),
                  ))
                  (λ b x. ground (arith, x, any-append (λ y. y == b) p.cgroup_ids (c ∷ []))),
            )
