-- ===== src/Daemon/Resumed.antt =====
-- A restart on the timelines that a daemon has left resumes its sessions.
use apolysis.Common.{
  ℕ, ◌≤◌, ◌≡◌, ◌⊎◌, err, inl, inr, ◌∙◌, Bool, true, false, Option, none, some, List, [], ◌∷◌, ok,
  arith, length, Bool-cases,
}
use apolysis.Common.Ordered.{bytes_ord, number_ord, same, same_iff}
use apolysis.Common.Text.{Text}
use apolysis.Common.TreeMap
use apolysis.Common.TreeMap.{TreeMap, map_option}
use apolysis.Intent.{SessionIntent}
use apolysis.Daemon.{Services, Documented, Timeline, DaemonState, timeline, CallOutcome}
use apolysis.Daemon.Replay.{RecoveredSession}
use apolysis.Daemon.Restart.{DaemonConfig, Entry, call_failed, new_with_scope}
use apolysis.Daemon.Attempts.{all_done}
use apolysis.Daemon.Reached.{Reached, live_intent, timelines_tell}
use apolysis.Daemon.Restoring.{seen}
use apolysis.Daemon.Restarted.{
  Plan, told, names, IsSound, ReplaysTo, AreReported, timelines_found, new_with_scope_restores,
}

-- An intent that is in force.
abbrev pub in_force : Option SessionIntent → Option (SessionIntent × Bool)
in_force i = map_option (λ i. (i, true)) i

in_force-intent :
    (x : Option RecoveredSession)
    → map_option (λ y. (y.intent, true)) x ≡ in_force (map_option (λ y. y.intent) x)
in_force-intent none = ground arith
in_force-intent (some y) = ground arith

module _ (services : Services) where
  open services use {Value}

  -- The directories hold the timelines of this state.
  abbrev pub AreLeftBy : DaemonState services → List (Text × Timeline Value) → Type 0
  AreLeftBy d [] = Unit
  AreLeftBy d ((k, t) ∷ ds) = (t.records ≡ timeline services k d) × AreLeftBy d ds

  module _ (documented : Documented services) where
    told-live :
        (d : DaemonState services) (now : ℕ) (ds : List (Text × Timeline Value)) (plan : Plan)
        (j : Text)
        → Reached services d
        → d.storage_writable ≡ true
        → AreLeftBy d ds
        → ReplaysTo services now ds plan
        → names plan j ≡ true
        → told plan j ≡ in_force (live_intent now (TreeMap.get j d.registry.sessions))
    told-live d now [] [] j r w c a n = cc
    told-live d now [] (p ∷ plan) j r w c a n = absurd a.1
    told-live d now (e ∷ ds) [] j r w c a n = absurd a.1
    told-live d now ((k, t) ∷ ds) ((i, x) ∷ plan) j r w (c, cs) (same_name, a, later) n =
        elim (Bool-cases (same j i)) [
          | inr other ↦
              ground
                (arith, other, told-live d now ds plan j r w cs later (ground (arith, n, other)))
          | inl here ↦
              let (y, e, live, found) = timelines_tell services documented d k now r w in
              let equal : x ≡ y = ground (arith, a, e, c) in
              ground (arith, here, in_force-intent x, equal, live, same_iff j i, same_name)
        ]

    -- Let a daemon start on the timelines that a state has left which requests have led to and
    -- whose storage no write had found broken; let these replay to a plan in which each
    -- directory is named once, each recovered intent is filed under its own session and valid,
    -- no two sessions claim one cgroup, and there are at most as many timelines as sessions
    -- allowed; and let the findings about invalid tails serialise. Whatever the operating system
    -- answers, either it starts, and each session named there is registered and active with the
    -- intent it had if it was not closed and its time is not over, and is not registered
    -- otherwise; or the start fails with the error of a call, and some call to come was to fail.
    pub restart_resumes :
        (d : DaemonState services) (config : DaemonConfig) (scope : Option (TreeMap ℕ (Unit {0})))
        (now : ℕ) (entries : List (Entry Value)) (plan : Plan) (outcomes : List CallOutcome)
        → Reached services d
        → d.storage_writable ≡ true
        → AreLeftBy d (timelines_found services entries)
        → ReplaysTo services now (timelines_found services entries) plan
        → AreReported services config.sessions_dir (timelines_found services entries)
        → IsSound now plan
        → length plan ≤ config.max_sessions
        → ((e : DaemonState services) × (new_with_scope services config scope now entries outcomes
              ≡ ok e)
            × ((j : Text)
                → names plan j ≡ true
                → seen (TreeMap.get j e.registry.sessions)
                  ≡ in_force (live_intent now (TreeMap.get j d.registry.sessions))))
          ⊎ (((text : Text) × (new_with_scope services config scope now entries outcomes
                  ≡ err (call_failed text)))
              × (all_done outcomes ≡ false))
    restart_resumes d config scope now entries plan outcomes r w c a reported b fits =
        elim (new_with_scope_restores services config scope now entries plan outcomes a reported b
          fits) [
            | inr stopped ↦ inr stopped
            | inl (e, x, sessions, index) ↦ inl (
              e,
              x,
              λ j n.
                  sessions j ∙ told-live d now (timelines_found services entries) plan j r w c a n,
            )
          ]
