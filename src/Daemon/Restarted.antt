-- ===== src/Daemon/Restarted.antt =====
-- The start of the daemon on the timelines that it finds: unless a call fails, it rebuilds the
-- sessions that they tell of.
use apolysis.Common.{
  ℕ, ◌+◌, ◌≤◌, ◌≡◌, refl, ◌∙◌, Bool, true, false, Option, none, some, List, [], ◌∷◌, ok, err, ◌⊎◌,
  inl, inr, arith, contains, if◌then◌else◌, length, is_some, ◌||◌,
}
use apolysis.Common.Ordered.{bytes_ord, number_ord, same, same_iff}
use apolysis.Common.Text.{Text}
use apolysis.Common.TreeMap
use apolysis.Common.TreeMap.{TreeMap, map_option}
use apolysis.Intent.{SessionIntent, validate_intent}
use apolysis.Registry
use apolysis.Registry.{SessionRegistry, SessionState}
use apolysis.Daemon.{Services, Timeline, DaemonState, CallOutcome}
use apolysis.Daemon.Replay.{RecoveredSession, replay_active_session}
use apolysis.Daemon.Restart.{
  DaemonConfig, Starting, Entry, found, call_failed, start_session, start_found, restore,
  restore_session, starting, started_with, start_all, new_with_scope, with_store, with_session,
  start_sessions,
}
use apolysis.Daemon.Attempts.{
  all_done, Ran, IsReported, bind-Ran, map-Ran, start_call-Ran, recover_session-Ran,
  start_entry-Ran,
}
use apolysis.Daemon.Restoring.{seen, Restored, restore-Restored}

-- What each directory, in the order found, replays to.
abbrev pub Plan : Type 0
Plan = List (Text × Option RecoveredSession)

-- The sessions and the owners of cgroups that a plan tells of.
abbrev pub told : Plan → Text → Option (SessionIntent × Bool)
told [] j = none
told ((k, x) ∷ plan) j = if same j k then map_option (λ y. (y.intent, true)) x else told plan j

abbrev holds : Option RecoveredSession → ℕ → Bool
holds none c = false
holds (some y) c = contains y.cgroup_ids c

abbrev pub owner : Plan → ℕ → Option Text
owner [] c = none
owner ((k, x) ∷ plan) c = if holds x c then some k else owner plan c

abbrev pub names : Plan → Text → Bool
names [] j = false
names ((k, x) ∷ plan) j = same j k || names plan j

-- An intent is filed under its own session and still valid.
abbrev IsProper : ℕ → Text → Option RecoveredSession → Type 0
IsProper now k none = Unit
IsProper now k (some y) = (y.intent.session_id ≡ k) × (validate_intent y.intent now ≡ ok tt)

-- Each directory is named once, its intent is proper, and no two sessions claim one cgroup.
abbrev pub IsSound : ℕ → Plan → Type 0
IsSound now [] = Unit
IsSound now ((k, x) ∷ plan) =
    (names plan k ≡ false)
    × IsProper now k x
    × ((c : ℕ) → holds x c ≡ true → owner plan c ≡ none)
    × IsSound now plan

-- What a plan adds to a registry.
record Planned (plan : Plan) (r q : SessionRegistry) : Type 0 where
  sessions :
      (j : Text)
      → seen (TreeMap.get j q.sessions)
        ≡ (if names plan j then told plan j else seen (TreeMap.get j r.sessions))
  index :
      (c : ℕ)
      → TreeMap.get c q.cgroup_index
        ≡ (if is_some (owner plan c) then owner plan c else TreeMap.get c r.cgroup_index)

-- The registry knows nothing of what the plan tells of, and has room for it.
record IsFresh (plan : Plan) (r : SessionRegistry) : Type 0 where
  unknown : (j : Text) → names plan j ≡ true → TreeMap.get j r.sessions ≡ none
  unheld : (c : ℕ) → is_some (owner plan c) ≡ true → TreeMap.get c r.cgroup_index ≡ none
  nothing_waits : r.pending ≡ []
  fits : length r.sessions + length plan ≤ r.max_sessions

-- A plan tells nothing of what it does not name.
told_named : (plan : Plan) (j : Text) → (if names plan j then told plan j else none) ≡ told plan j
told_named [] j = refl
told_named ((k, x) ∷ plan) j = ground (arith, told_named plan j)

none_of_seen : (o : Option SessionState) → seen o ≡ none → o ≡ none
none_of_seen none h = refl
none_of_seen (some s) h = cc

module _ (services : Services) where
  open services use {Value}

  -- The directories replay to the plan.
  abbrev pub ReplaysTo : ℕ → List (Text × Timeline Value) → Plan → Type 0
  ReplaysTo now [] [] = Unit
  ReplaysTo now ((k, t) ∷ ds) ((j, x) ∷ plan) =
      (j ≡ k) × (replay_active_session services t.records now ≡ ok x) × ReplaysTo now ds plan
  ReplaysTo now _ _ = Unit × ⊥

  after_none :
      (k : Text) (plan : Plan) (r : SessionRegistry) → IsFresh ((k, none) ∷ plan) r → IsFresh plan r
  after_none k plan r h = record {
    unknown = λ j x. h.unknown j (ground (arith, x));
    unheld = λ c x. h.unheld c (ground (arith, x));
    nothing_waits = h.nothing_waits;
    fits = omega (arith, h.fits);
  }

  after_some :
      (now : ℕ) (k : Text) (y : RecoveredSession) (plan : Plan) (r q : SessionRegistry)
      → IsSound now ((k, some y) ∷ plan)
      → IsFresh ((k, some y) ∷ plan) r
      → Restored services k y r q
      → IsFresh plan q
  after_some now k y plan r q (once, proper, apart, sound) h t = record {
    unknown = λ j x.
        none_of_seen (TreeMap.get j q.sessions)
          (t.sessions j ∙ ground (arith, x, once, same_iff j k, h.unknown j (ground (arith, x))));
    unheld = λ c x. t.index c ∙ ground (arith, x, apart c, h.unheld c (ground (arith, x)));
    nothing_waits = t.pending ∙ h.nothing_waits;
    fits = omega (arith, h.fits, t.count, t.room);
  }

  -- A session read back and what the rest of the plan adds.
  both-Planned :
      (k : Text) (y : RecoveredSession) (plan : Plan) (r q p : SessionRegistry)
      → names plan k ≡ false
      → ((c : ℕ) → contains y.cgroup_ids c ≡ true → owner plan c ≡ none)
      → Restored services k y r q
      → Planned plan q p
      → Planned ((k, some y) ∷ plan) r p
  both-Planned k y plan r q p once apart t rest = record {
    sessions = λ j. ground (arith, rest.sessions j, t.sessions j, once, same_iff j k);
    index = λ c. ground (arith, rest.index c, t.index c, apart c);
  }

  none-Planned :
      (k : Text) (plan : Plan) (r p : SessionRegistry)
      → names plan k ≡ false
      → TreeMap.get k r.sessions ≡ none
      → Planned plan r p
      → Planned ((k, none) ∷ plan) r p
  none-Planned k plan r p once e rest = record {
    sessions = λ j. ground (arith, rest.sessions j, once, e, same_iff j k);
    index = λ c. ground (arith, rest.index c);
  }

  -- A directory whose timeline replays to something, on a registry that has room for it.
  found-Ran :
      (dir : Text) (now : ℕ) (k : Text) (t : Timeline Value) (x : Option RecoveredSession)
      (q : SessionRegistry) (s : Starting services)
      → IsReported services dir k t
      → replay_active_session services t.records now ≡ ok x
      → ((r : Starting services)
          → r.registry ≡ s.registry
          → Ran services (λ p. p ≡ q) r (restore_session services now k x r))
      → Ran services (λ p. p ≡ q) s (start_found services dir now k (some t) s)
  unfolding start_session
  found-Ran dir now k t x q s reported e h =
      rw (start_session, e)
        (bind-Ran services (λ p. p ≡ s.registry) (λ p. p ≡ q) s _ _
          (recover_session-Ran services (λ p. p ≡ s.registry) dir k t s reported refl) h)

  restored-Ran :
      (now : ℕ) (k : Text) (y : RecoveredSession) (r q : SessionRegistry) (s : Starting services)
      → s.registry ≡ r
      → restore services k now y r ≡ ok q
      → Ran services (λ p. p ≡ q) s (restore_session services now k (some y) s)
  unfolding restore_session
  restored-Ran now k y r q s e f =
      inl (with_store services k (with_session services k y q s), ground (arith, e, f), refl, refl)

  -- The timelines among the entries of the directory.
  abbrev pub with_found :
      Text → Option (Timeline Value) → List (Text × Timeline Value) → List (Text × Timeline Value)
  with_found name none ds = ds
  with_found name (some t) ds = (name, t) ∷ ds

  abbrev pub timelines_found : List (Entry Value) → List (Text × Timeline Value)
  timelines_found [] = []
  timelines_found (entry ∷ more) = with_found entry.file_name (found entry) (timelines_found more)

  -- The findings about invalid tails serialise.
  abbrev pub AreReported : Text → List (Text × Timeline Value) → Type 0
  AreReported dir [] = Unit
  AreReported dir ((k, t) ∷ ds) = IsReported services dir k t × AreReported dir ds

  -- The loop from a registry.
  abbrev Loops : Text → ℕ → List (Entry Value) → Type 0
  Loops dir now entries =
      (plan : Plan) (r : SessionRegistry) (s : Starting services)
      → s.registry ≡ r
      → ReplaysTo now (timelines_found entries) plan
      → AreReported dir (timelines_found entries)
      → IsSound now plan
      → IsFresh plan r
      → Ran services (Planned plan r) s (start_all services dir now entries s)

  entry-Loops :
      (dir : Text) (now : ℕ) (entry : Entry Value) (more : List (Entry Value))
      (o : Option (Timeline Value)) (plan : Plan) (r : SessionRegistry) (s : Starting services)
      → found entry ≡ o
      → Loops dir now more
      → s.registry ≡ r
      → ReplaysTo now (with_found entry.file_name o (timelines_found more)) plan
      → AreReported dir (with_found entry.file_name o (timelines_found more))
      → IsSound now plan
      → IsFresh plan r
      → Ran services (Planned plan r) s (start_all services dir now (entry ∷ more) s)
  unfolding start_all restore_session
  entry-Loops dir now entry more none plan r s o later same a reported b h =
      bind-Ran services (λ p. p ≡ r) (Planned plan r) s _ _
        (start_entry-Ran services (λ p. p ≡ r) (λ p. p ≡ r) dir now entry s same
          (λ q e. rw o (inl (q, refl, e, refl))))
        (λ q e. later plan r q e a reported b h)
  entry-Loops dir now entry more (some t) [] r s o later same a reported b h = absurd a.1
  entry-Loops dir now entry more (some t) ((j, none) ∷ plan) r s o later same (i, a, rest)
        (one, others) (once, proper, apart, sound) h =
      bind-Ran services (λ p. p ≡ r) (Planned ((j, none) ∷ plan) r) s _ _
        (start_entry-Ran services (λ p. p ≡ r) (λ p. p ≡ r) dir now entry s same
          (λ q e. rw o (
            found-Ran dir now entry.file_name t none r q one a
              (λ v f. inl (_, refl, f ∙ e, refl)))))
        (λ q e.
          map-Ran services (Planned plan r) (Planned ((j, none) ∷ plan) r) q _
            (λ p. none-Planned j plan r p once (h.unknown j (ground (arith, same_iff j j))))
            (later plan r q e rest others sound (after_none j plan r h)))
  entry-Loops dir now entry more (some t) ((j, some y) ∷ plan) r s o later same (i, a, rest)
        (one, others) (once, proper, apart, sound) h =
      let (p, f, restored) =
        restore-Restored services j now y r proper.0 proper.1
          (h.unknown j (ground (arith, same_iff j j))) h.nothing_waits (omega (arith, h.fits))
          (λ c x. h.unheld c (ground (arith, x))) in
      bind-Ran services (λ x. x ≡ p) (Planned ((j, some y) ∷ plan) r) s _ _
        (start_entry-Ran services (λ x. x ≡ r) (λ x. x ≡ p) dir now entry s same
          (λ q e. rw o (
            found-Ran dir now entry.file_name t (some y) p q one a
              (λ v g. restored-Ran now entry.file_name y r p v (g ∙ e) (rw (← i) f)))))
        (λ q e.
          map-Ran services (Planned plan p) (Planned ((j, some y) ∷ plan) r) q _
            (λ x. both-Planned j y plan r p x once apart restored)
            (later plan p q e rest others sound
              (after_some now j y plan r p (once, proper, apart, sound) h restored)))

  start_all-Loops : (dir : Text) (now : ℕ) (entries : List (Entry Value)) → Loops dir now entries
  unfolding start_all
  start_all-Loops dir now [] [] r s same a reported b h = inl (
    s,
    refl,
    record { sessions = λ j. ground (arith, same); index = λ c. ground (arith, same) },
    refl,
  )
  start_all-Loops dir now [] (p ∷ plan) r s same a reported b h = absurd a.1
  start_all-Loops dir now (entry ∷ more) plan r s same a reported b h =
      entry-Loops dir now entry more (found entry) plan r s refl (start_all-Loops dir now more) same
        a reported b h

  start_sessions-Ran :
      (config : DaemonConfig) (now : ℕ) (entries : List (Entry Value)) (plan : Plan)
      (outcomes : List CallOutcome)
      → ReplaysTo now (timelines_found entries) plan
      → AreReported config.sessions_dir (timelines_found entries)
      → IsSound now plan
      → length plan ≤ config.max_sessions
      → Ran services
          (Planned plan (Registry.new config.max_sessions config.max_pending))
          (starting services config outcomes)
          (start_sessions services config now entries (starting services config outcomes))
  unfolding start_sessions Registry.new TreeMap.get
  start_sessions-Ran config now entries plan outcomes a reported b fits =
      let r = Registry.new config.max_sessions config.max_pending in
      let P : SessionRegistry → Type 0 = λ p. p ≡ r in
      let Q = Planned plan r in
      let first = starting services config outcomes in
      let fresh : IsFresh plan r = record {
        unknown = λ j x. refl;
        unheld = λ c x. refl;
        nothing_waits = refl;
        fits = omega (arith, fits);
      } in
      bind-Ran services P Q first _ _ (start_call-Ran services P first refl) (λ created e.
        bind-Ran services P Q created _ _ (start_call-Ran services P created e) (λ timed f.
          bind-Ran services P Q timed _ _ (start_call-Ran services P timed f) (λ scanned g.
            start_all-Loops config.sessions_dir now entries plan r scanned g a reported b fresh)))

  -- Let the timelines found among the entries replay to a plan in which each directory is named
  -- once, each recovered intent is filed under its own session and valid, no two sessions claim
  -- one cgroup, and there are at most as many timelines as sessions allowed; and let the
  -- findings about invalid tails serialise. Whatever the operating system answers, either the
  -- daemon starts, its registry has exactly the sessions that the plan tells of, active and with
  -- their intents, and each cgroup is indexed to the session that claims it; or the start fails
  -- with the error of a call, and some call to come was to fail.
  pub new_with_scope_restores :
      (config : DaemonConfig) (scope : Option (TreeMap ℕ (Unit {0}))) (now : ℕ)
      (entries : List (Entry Value)) (plan : Plan) (outcomes : List CallOutcome)
      → ReplaysTo now (timelines_found entries) plan
      → AreReported config.sessions_dir (timelines_found entries)
      → IsSound now plan
      → length plan ≤ config.max_sessions
      → ((d : DaemonState services) × (new_with_scope services config scope now entries outcomes
            ≡ ok d)
          × ((j : Text) → seen (TreeMap.get j d.registry.sessions) ≡ told plan j)
          × ((c : ℕ) → TreeMap.get c d.registry.cgroup_index ≡ owner plan c))
        ⊎ (((text : Text) × (new_with_scope services config scope now entries outcomes
                ≡ err (call_failed text)))
            × (all_done outcomes ≡ false))
  unfolding new_with_scope Registry.new TreeMap.get
  new_with_scope_restores config scope now entries plan outcomes a reported b fits =
      elim (start_sessions-Ran config now entries plan outcomes a reported b fits) [
        | inl (q, e, p, _) ↦ inl (
          started_with services config scope q,
          ground (arith, e),
          λ j. p.sessions j ∙ told_named plan j,
          λ c. p.index c ∙ ground arith,
        )
        | inr ((text, e), d) ↦ inr ((text, ground (arith, e)), d)
      ]
