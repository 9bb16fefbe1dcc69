-- ===== src/Registry/Attaching.antt =====
-- What is seen of a session from outside, and what attaching cgroups to it changes of that.
use apolysis.Common.{
  ℕ, ◌≡◌, ◌⊎◌, inl, inr, refl, ◌∙◌, Bool, true, false, Option, none, some, List, [], ◌∷◌, ok, arith,
  contains, unwrap_or, Bool-cases, Option-cases, Result-cases, length, sub64, if◌then◌else◌,
}
use apolysis.Common.Ordered.{bytes_ord, number_ord, same, same_iff}
use apolysis.Common.Text.{Text}
use apolysis.Common.TreeMap
use apolysis.Common.TreeMap.{
  TreeMap, map_option, remove_all, get-insert, get-remove, get-modify, get-remove_all,
}
use apolysis.Intent.{SessionIntent}
use apolysis.Registry.{
  SessionRegistry, SessionState, is_closed, attach, attach_all, attach_known_cgroup, adopt_pending,
  add_cgroup,
}

abbrev pub intent_of : Option SessionState → Option SessionIntent
intent_of s = map_option (λ s. s.intent) s

abbrev pub closed_of : Option SessionState → Bool
closed_of none = false
closed_of (some s) = is_closed s.status

abbrev pub waits_for : Text → ℕ → SessionRegistry → Bool
waits_for k c r = contains (unwrap_or (TreeMap.get k r.pending) []) c

-- No cgroup waits for a session that is registered.
abbrev pub Settled : SessionRegistry → Type 0
Settled r =
    (k : Text) (s : SessionState)
    → TreeMap.get k r.sessions ≡ some s
    → TreeMap.get k r.pending ≡ none

-- `attach_known_cgroup` that succeeds is `attach`.
pub attached_whole :
    (k : Text) (c : ℕ) (r : SessionRegistry)
    → (attach_known_cgroup k c r).1 ≡ ok tt
    → attach_known_cgroup k c r ≡ (attach k c r, ok tt)
unfolding attach_known_cgroup
attached_whole k c r h = ground (arith, h)

-- What attaching keeps.
pub record Attaching (k : Text) (cs : List ℕ) (r q : SessionRegistry) : Type 0 where
  pub intents :
      (j : Text) → intent_of (TreeMap.get j q.sessions) ≡ intent_of (TreeMap.get j r.sessions)
  pub closes :
      (j : Text) → closed_of (TreeMap.get j q.sessions) ≡ closed_of (TreeMap.get j r.sessions)
  pub pending : q.pending ≡ r.pending
  pub indexed :
      (j : Text) (c : ℕ)
      → TreeMap.get c q.cgroup_index ≡ some j
      → (TreeMap.get c r.cgroup_index ≡ some j) ⊎ ((j ≡ k) × (contains cs c ≡ true))

pub attach-Attaching :
    (k : Text) (c : ℕ) (r : SessionRegistry) → Attaching k (c ∷ []) r (attach k c r)
attach-Attaching k c r = record {
  intents = λ j. ground (arith, get-modify k j (add_cgroup c) r.sessions);
  closes = λ j. ground (arith, get-modify k j (add_cgroup c) r.sessions);
  pending = refl;
  indexed = λ j d h. elim (Bool-cases (same d c)) [
    | inl e ↦ inr (ground (arith, e, h, get-insert c d k r.cgroup_index), ground (arith, e))
    | inr e ↦ inl (ground (arith, e, h, get-insert c d k r.cgroup_index))
  ];
}

attach_all-Attaching :
    (k : Text) (cs : List ℕ) (r : SessionRegistry)
    → (attach_all k cs r).1 ≡ ok tt
    → Attaching k cs r (attach_all k cs r).0
unfolding attach_all
attach_all-Attaching k [] r h = record {
  intents = λ j. refl;
  closes = λ j. refl;
  pending = refl;
  indexed = λ j c e. inl e;
}
attach_all-Attaching k (c ∷ cs) r h = elim (Result-cases (attach_known_cgroup k c r).1) [
  | inr (e, f) ↦ absurd (ground (arith, f, h))
  | inl (u, f) ↦
      let here = attached_whole k c r f in
      let rest : (attach_all k cs (attach k c r)).1 ≡ ok tt = ground (arith, h, here) in
      let same_end : (attach_all k (c ∷ cs) r).0 ≡ (attach_all k cs (attach k c r)).0 =
        ground (arith, here) in
      let later = attach_all-Attaching k cs (attach k c r) rest in
      let first = attach-Attaching k c r in
      rw same_end (record {
        intents = λ j. later.intents j ∙ first.intents j;
        closes = λ j. later.closes j ∙ first.closes j;
        pending = later.pending ∙ first.pending;
        indexed = λ j d x. elim (later.indexed j d x) [
          | inr (a, b) ↦ inr (a, ground (arith, b))
          | inl y ↦ elim (first.indexed j d y) [
            | inl z ↦ inl z
            | inr (a, b) ↦ inr (a, ground (arith, b))
          ]
        ];
      })
]

-- What `adopt_pending` keeps; nothing waits for the session afterwards.
pub record Adopting (k : Text) (r q : SessionRegistry) : Type 0 where
  pub intents :
      (j : Text) → intent_of (TreeMap.get j q.sessions) ≡ intent_of (TreeMap.get j r.sessions)
  pub closes :
      (j : Text) → closed_of (TreeMap.get j q.sessions) ≡ closed_of (TreeMap.get j r.sessions)
  pub pending :
      (j : Text) → TreeMap.get j q.pending ≡ (if same j k then none else TreeMap.get j r.pending)
  pub indexed :
      (j : Text) (c : ℕ)
      → TreeMap.get c q.cgroup_index ≡ some j
      → (TreeMap.get c r.cgroup_index ≡ some j) ⊎ ((j ≡ k) × (waits_for k c r ≡ true))

pub adopt_pending-Adopting :
    (k : Text) (r : SessionRegistry)
    → (adopt_pending k r).1 ≡ ok tt
    → Adopting k r (adopt_pending k r).0
unfolding adopt_pending
adopt_pending-Adopting k r h = elim (Option-cases (TreeMap.get k r.pending)) [
  | inl e ↦
      rw (e, adopt_pending)
        (record {
          intents = λ j. refl;
          closes = λ j. refl;
          pending = λ j. ground (arith, e, same_iff j k);
          indexed = λ j c x. inl x;
        })
  | inr (cs, e) ↦
      let start : SessionRegistry = record r {
        pending = TreeMap.remove k r.pending;
        pending_count = sub64 r.pending_count (length cs);
      } in
      let all = attach_all-Attaching k cs start (rw (e, adopt_pending) at h) in
      rw (e, adopt_pending)
        (record {
          intents = all.intents;
          closes = all.closes;
          pending = λ j. ground (arith, all.pending, get-remove k j r.pending);
          indexed = λ j c x. elim (all.indexed j c x) [
            | inl y ↦ inl y
            | inr (a, b) ↦ inr (a, ground (arith, b, e))
          ];
        })
]
