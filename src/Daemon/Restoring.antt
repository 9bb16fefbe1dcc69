-- ===== src/Daemon/Restoring.antt =====
-- One session read back at the start: its registration and its cgroups succeed on a registry that does
-- not know them.
use mathlib.Core.Path.{subst}
use apolysis.Common.{
  ℕ, suc, ◌<◌, ◌≤◌, ◌≡◌, ◌⊎◌, inl, inr, refl, ◌∙◌, Bool, true, Option, none, some, List, [], ◌∷◌,
  ok, arith, Bool-cases, contains, if◌then◌else◌, length, ==_iff,
}
use apolysis.Common.Ordered.{bytes_ord, number_ord, same, same_iff}
use apolysis.Common.Text.{Text}
use apolysis.Common.TreeMap
use apolysis.Common.TreeMap.{
  TreeMap, map_option, get-insert, get-modify, length-modify, length-insert, contains_key,
}
use apolysis.Intent.{SessionIntent, validate_intent}
use apolysis.Registry
use apolysis.Registry.{
  SessionRegistry, SessionState, is_active, active, attach, add_cgroup, attached, inserted,
  new_state, associate_cgroup, attach_known_cgroup, ensure_cgroup_available, adopt_pending, finish,
}
use apolysis.Registry.Claims.{IsLive, attach-IsLive}
use apolysis.Registry.Adoption.{with_session, register_new, insert_session-IsLive}
use apolysis.Daemon.{Services}
use apolysis.Daemon.Replay.{RecoveredSession}
use apolysis.Daemon.Restart.{restore_cgroups, restore}

-- What is seen of a session: its intent, and whether it is active.
abbrev pub seen : Option SessionState → Option (SessionIntent × Bool)
seen s = map_option (λ s. (s.intent, is_active s.status)) s

-- Cgroups that were taken over by one session.
record Tracked (k : Text) (cs : List ℕ) (r q : SessionRegistry) : Type 0 where
  sessions : (j : Text) → seen (TreeMap.get j q.sessions) ≡ seen (TreeMap.get j r.sessions)
  index :
      (c : ℕ)
      → TreeMap.get c q.cgroup_index
        ≡ (if contains cs c then some k else TreeMap.get c r.cgroup_index)
  pending : q.pending ≡ r.pending
  room : q.max_sessions ≡ r.max_sessions
  count : length q.sessions ≡ length r.sessions

-- The discovery of a cgroup of a live session that nobody else holds.
discovered_free :
    (k : Text) (c : ℕ) (r : SessionRegistry)
    → IsLive k r
    → ensure_cgroup_available k c r ≡ ok tt
    → Registry.discover_cgroup k c r ≡ (attach k c r, ok attached)
unfolding Registry.discover_cgroup associate_cgroup attach_known_cgroup
discovered_free k c r (s, e, a) free = ground (arith, e, a, free)

free_available :
    (k : Text) (c : ℕ) (r : SessionRegistry)
    → (TreeMap.get c r.cgroup_index ≡ none) ⊎ (TreeMap.get c r.cgroup_index ≡ some k)
    → ensure_cgroup_available k c r ≡ ok tt
unfolding ensure_cgroup_available
free_available k c r (inl e) = ground (arith, e)
free_available k c r (inr e) = ground (arith, e, same_iff k k)

module _ (services : Services) where
  restore_cgroups-Tracked :
      (k : Text) (cs : List ℕ) (r : SessionRegistry)
      → IsLive k r
      → ((c : ℕ)
          → contains cs c ≡ true
          → (TreeMap.get c r.cgroup_index ≡ none) ⊎ (TreeMap.get c r.cgroup_index ≡ some k))
      → (q : SessionRegistry) × (restore_cgroups services k cs r ≡ ok q) × Tracked k cs r q
  unfolding restore_cgroups
  restore_cgroups-Tracked k [] r live free = (
    r,
    refl,
    record { sessions = λ j. refl; index = λ c. refl; pending = refl; room = refl; count = refl },
  )
  restore_cgroups-Tracked k (c ∷ cs) r live free =
      let here = free_available k c r (free c (ground (arith, ==_iff c c))) in
      let next = attach k c r in
      let (q, e, t) = restore_cgroups-Tracked k cs next (attach-IsLive k c r live) (λ d h.
        elim (Bool-cases (same d c)) [
          | inl y ↦ inr (ground (arith, y, get-insert c d k r.cgroup_index))
          | inr n ↦ elim (free d (ground (arith, h))) [
            | inl f ↦ inl (ground (arith, n, f, get-insert c d k r.cgroup_index))
            | inr f ↦ inr (ground (arith, n, f, get-insert c d k r.cgroup_index))
          ]
        ]) in
      (
        q,
        ground (arith, discovered_free k c r live here, e),
        record {
          sessions = λ j. t.sessions j ∙ ground (arith, get-modify k j (add_cgroup c) r.sessions);
          index = λ d. ground (arith, t.index d, get-insert c d k r.cgroup_index);
          pending = t.pending;
          room = t.room;
          count = t.count ∙ length-modify k (add_cgroup c) r.sessions;
        },
      )

  -- A session that was read back into the registry.
  pub record Restored (k : Text) (y : RecoveredSession) (r q : SessionRegistry) : Type 0 where
    pub sessions :
        (j : Text)
        → seen (TreeMap.get j q.sessions)
          ≡ (if same j k then some (y.intent, true) else seen (TreeMap.get j r.sessions))
    pub index :
        (c : ℕ)
        → TreeMap.get c q.cgroup_index
          ≡ (if contains y.cgroup_ids c then some k else TreeMap.get c r.cgroup_index)
    pub pending : q.pending ≡ r.pending
    pub room : q.max_sessions ≡ r.max_sessions
    pub count : length q.sessions ≤ suc (length r.sessions)

  registered_fresh :
      (intent : SessionIntent) (now : ℕ) (r : SessionRegistry)
      → validate_intent intent now ≡ ok tt
      → TreeMap.get intent.session_id r.sessions ≡ none
      → r.pending ≡ []
      → length r.sessions < r.max_sessions
      → Registry.register intent now r ≡ (with_session intent r, ok inserted)
  unfolding adopt_pending TreeMap.get
  registered_fresh intent now r v e p room = register_new intent now r v e room ∙ ground (arith, p)

  pub restore-Restored :
      (k : Text) (now : ℕ) (y : RecoveredSession) (r : SessionRegistry)
      → y.intent.session_id ≡ k
      → validate_intent y.intent now ≡ ok tt
      → TreeMap.get k r.sessions ≡ none
      → r.pending ≡ []
      → length r.sessions < r.max_sessions
      → ((c : ℕ) → contains y.cgroup_ids c ≡ true → TreeMap.get c r.cgroup_index ≡ none)
      → (q : SessionRegistry) × (restore services k now y r ≡ ok q) × Restored k y r q
  unfolding restore new_state
  restore-Restored k now y r id v e p room free =
      let first = registered_fresh y.intent now r v (rw id e) p room in
      let next = with_session y.intent r in
      let live : IsLive k next = subst (λ j. IsLive j next) id (insert_session-IsLive y.intent r) in
      let (q, f, t) = restore_cgroups-Tracked k y.cgroup_ids next live (λ c h. inl (free c h)) in
      (
        q,
        ground (arith, first, f),
        record {
          sessions = λ j.
              t.sessions j
              ∙ ground
                  (arith, id, get-insert y.intent.session_id j (new_state y.intent) r.sessions);
          index = t.index;
          pending = t.pending;
          room = t.room;
          count =
              omega
                (arith, t.count, length-insert y.intent.session_id (new_state y.intent) r.sessions);
        },
      )
