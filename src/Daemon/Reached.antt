-- ===== src/Daemon/Reached.antt =====
-- The states that requests lead to, in any order and with any answers from outside, and what the
-- timelines of such a state say of the registry.
use apolysis.Common.{
  ℕ, ◌≡◌, ◌<◌, inl, inr, ◌∙◌, Bool, true, false, not, ◌&&◌, Option, none, some, [], ok, arith,
  Option-cases, Bool-cases, is_ok, u64_mod, ltb, contains, contains-sort, if◌then◌else◌, sort,
}
use apolysis.Common.Ordered.{bytes_ord, number_ord}
use apolysis.Common.Text.{Text}
use apolysis.Common.TreeMap
use apolysis.Common.TreeMap.{map_option, TreeMap}
use apolysis.Intent.{SessionIntent}
use apolysis.Pipeline.{DaemonRecord}
use apolysis.Registry
use apolysis.Registry.{SessionRegistry, SessionState, is_closed}
use apolysis.Registry.Claims.{new-IsOwned}
use apolysis.Registry.Attaching.{closed_of}
use apolysis.Daemon.{Services, Documented, DaemonState, timeline}
use apolysis.Daemon.Sessions.{register, renew, close, discover_cgroup, apply_retention}
use apolysis.Daemon.Evidence.{RuntimeWorkload, ingest_runtime_workload, persist_record}
use apolysis.Daemon.Replay.{
  RecoveredSession, Replayed, kind_of, other, still_active, replay_from, replay_active_session,
  nothing_replayed,
}
use apolysis.Daemon.Recorded.{Follows}
use apolysis.Daemon.Durable.{IsDurable}
use apolysis.Daemon.Handlers.{
  register-IsDurable, renew-IsDurable, close-IsDurable, discover_cgroup-IsDurable,
}
use apolysis.Daemon.Observing.{persist_record-IsDurable}
use apolysis.Daemon.Ingesting.{ingest_runtime_workload-IsDurable}
use apolysis.Daemon.Forgetting.{apply_retention-IsDurable}

-- The intent that a restart owes a session: none if it is closed or its time is over.
abbrev pub live_intent : ℕ → Option SessionState → Option SessionIntent
live_intent now none = none
live_intent now (some s) =
    if not (is_closed s.status) && ltb now s.intent.expires_at_unix_ms then some s.intent else none

still_active-live :
    (k : Text) (now : ℕ) (p : Replayed) (r : SessionRegistry)
    → Follows k p r
    → map_option (λ x. x.intent) (still_active now p) ≡ live_intent now (TreeMap.get k r.sessions)
unfolding still_active
still_active-live k now p r f = elim (Option-cases (TreeMap.get k r.sessions)) [
  | inl e ↦ ground (arith, e, f.intent)
  | inr (s, e) ↦ ground (arith, e, f.intent, f.closed)
]

still_active-cgroups :
    (now : ℕ) (p : Replayed) (x : RecoveredSession) (c : ℕ)
    → still_active now p ≡ some x
    → contains x.cgroup_ids c ≡ contains p.cgroup_ids c
unfolding still_active
still_active-cgroups now p x c h = elim (Option-cases p.intent) [
  | inl e ↦ absurd (ground (arith, e, h))
  | inr (i, e) ↦ elim (Bool-cases (not p.closed && ltb now i.expires_at_unix_ms)) [
    | inl y ↦
        let built : x ≡ record { intent = i; cgroup_ids = sort p.cgroup_ids } =
          ground (arith, e, y, h) in
        rw built (contains-sort p.cgroup_ids c)
    | inr n ↦ absurd (ground (arith, e, n, h))
  ]
]

module _ (services : Services) where
  open services use {Value}

  -- The calls that change sessions or timelines.
  pub data Request : Type 0 where
    registers : SessionIntent → ℕ → Request
    renews : Text → ℕ → ℕ → Request
    closes : Text → Request
    discovers : Text → ℕ → Request
    ingests : RuntimeWorkload → Request
    observes : DaemonRecord Value → Request
    retains : Text → ℕ → Bool → Request

  unfoldable pub serve : Request → DaemonState services → DaemonState services
  serve (registers intent now) d = (register services intent now d).0
  serve (renews k expires now) d = (renew services k expires now d).0
  serve (closes k) d = (close services k d).0
  serve (discovers k c) d = (discover_cgroup services k c d).0
  serve (ingests w) d = (ingest_runtime_workload services w d).0
  serve (observes x) d = (persist_record services x d).0
  serve (retains tenant now dry_run) d = (apply_retention services tenant now dry_run d).0

  -- Numbers are 64-bit; what the pipeline brings is no record of the sessions and not about a closed
  -- session; no directory resists its removal.
  abbrev pub Admissible : Request → DaemonState services → Type 0
  Admissible (registers intent now) d = Unit
  Admissible (renews k expires now) d = expires < u64_mod
  Admissible (closes k) d = Unit
  Admissible (discovers k c) d = c < u64_mod
  Admissible (ingests w) d = w.cgroup_id < u64_mod
  Admissible (observes x) d =
      (kind_of services x.payload ≡ other)
      × (closed_of (TreeMap.get x.session_id d.registry.sessions) ≡ false)
  Admissible (retains tenant now dry_run) d =
      is_ok (apply_retention services tenant now dry_run d).1 ≡ true

  -- A daemon that started on an empty directory, and one that served a request.
  pub data Reached : DaemonState services → Type 0 where
    started :
        (max_sessions max_pending : ℕ) (d : DaemonState services)
        → d.registry ≡ Registry.new max_sessions max_pending
        → d.disk ≡ []
        → Reached d
    served :
        (q : Request) (d : DaemonState services) → Admissible q d → Reached d → Reached (serve q d)

  started-IsDurable :
      (max_sessions max_pending : ℕ) (d : DaemonState services)
      → d.registry ≡ Registry.new max_sessions max_pending
      → d.disk ≡ []
      → IsDurable services d
  unfolding Registry.new replay_from TreeMap.get
  started-IsDurable m n d e f w = record {
    owned = rw e (new-IsOwned m n);
    settled = λ k s x. ground (arith, e, x);
    replays = λ k. (
      nothing_replayed,
      ground (arith, f),
      record {
        intent = ground (arith, e);
        closed = ground (arith, e);
        indexed = λ c x. absurd (ground (arith, e, x));
        waits = λ c x. absurd (ground (arith, e, x));
      },
    );
  }

  module _ (documented : Documented services) where
    serve-IsDurable :
        (q : Request) (d : DaemonState services)
        → Admissible q d
        → IsDurable services d
        → IsDurable services (serve q d)
    unfolding serve
    serve-IsDurable (registers intent now) d a h =
        register-IsDurable services documented intent now d h
    serve-IsDurable (renews k expires now) d a h =
        renew-IsDurable services documented k expires now d a h
    serve-IsDurable (closes k) d a h = close-IsDurable services documented k d h
    serve-IsDurable (discovers k c) d a h = discover_cgroup-IsDurable services documented k c d a h
    serve-IsDurable (ingests w) d a h =
        ingest_runtime_workload-IsDurable services documented w d a h
    serve-IsDurable (observes x) d (o, c) h = persist_record-IsDurable services documented x d o c h
    serve-IsDurable (retains tenant now dry_run) d a h =
        apply_retention-IsDurable services tenant now dry_run d a h

    pub Reached-IsDurable : (d : DaemonState services) → Reached d → IsDurable services d
    Reached-IsDurable _ (started m n d e f) = started-IsDurable m n d e f
    Reached-IsDurable _ (served q d a r) = serve-IsDurable q d a (Reached-IsDurable d r)

    -- Let the requests that change sessions or timelines be served in any order from an empty
    -- state directory, whatever the file system and the observer answer, where numbers are
    -- 64-bit, no pipeline record is of a kind that the replay reads or is about a closed
    -- session, and no retention stops at a directory. As long as the storage is writable, the
    -- replay of a session's timeline gives the registered intent with its current expiry if the
    -- session is not closed and its time is not over, and else nothing; and it gives back every
    -- cgroup that is indexed to the session.
    pub timelines_tell :
        (d : DaemonState services) (k : Text) (now : ℕ)
        → Reached d
        → d.storage_writable ≡ true
        → (x : Option RecoveredSession) × (replay_active_session services
              (timeline services k d)
              now
            ≡ ok x)
          × (map_option (λ s. s.intent) x ≡ live_intent now (TreeMap.get k d.registry.sessions))
          × ((s : RecoveredSession) (c : ℕ)
              → x ≡ some s
              → TreeMap.get c d.registry.cgroup_index ≡ some k
              → contains s.cgroup_ids c ≡ true)
    unfolding replay_active_session
    timelines_tell d k now r w =
        let (p, e, f) = (Reached-IsDurable d r w).replays k in
        (
          still_active now p,
          ground (arith, e),
          still_active-live k now p d.registry f,
          λ s c x y. still_active-cgroups now p s c x ∙ f.indexed c y,
        )
