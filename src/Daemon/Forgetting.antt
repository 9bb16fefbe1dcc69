-- ===== src/Daemon/Forgetting.antt =====
-- Retention removes the timelines of exactly the sessions that it takes out of the registry.
use apolysis.Common.{
  ℕ, ◌≡◌, inl, inr, refl, ◌∙◌, Bool, true, false, List, [], ◌∷◌, any, ok, arith, Bool-cases,
  Option-cases, Result-cases, is_ok, if◌then◌else◌,
}
use apolysis.Common.Ordered.{bytes_ord, same}
use apolysis.Common.Text.{Text, is_nil}
use apolysis.Common.TreeMap
use apolysis.Common.TreeMap.{get-remove_all, remove_all, TreeMap}
use apolysis.Registry.{SessionRegistry}
use apolysis.Registry.Claims.{IsOwned}
use apolysis.Registry.Attaching.{Settled, waits_for}
use apolysis.Registry.Purged.{Purged, Purged-Settled, retention-Purged}
use apolysis.Registry.Ownership.{retention-IsOwned}
use apolysis.Registry.Retention.{apply_retention_for_tenant}
use apolysis.Daemon.{Services, DaemonState, timeline, io_failed}
use apolysis.Daemon.Sessions.{remove_directories, forget_sessions, apply_retention}
use apolysis.Daemon.Replay.{Replayed, replay_from, nothing_replayed}
use apolysis.Daemon.Writes.{call_cases}
use apolysis.Daemon.Recorded.{IsRecorded, same-IsRecorded, Follows}
use apolysis.Daemon.Durable.{IsDurable}

-- A session that was purged is as one that was never there.
Purged-Follows :
    (ks : List Text) (k : Text) (r q : SessionRegistry)
    → IsOwned q
    → Settled r
    → Purged ks r q
    → any (same k) ks ≡ true
    → Follows k nothing_replayed q
Purged-Follows ks k r q owned settled p h = elim (Option-cases (TreeMap.get k r.sessions)) [
  | inl e ↦ absurd (ground (arith, e, p.found k h))
  | inr (s, e) ↦
      let none_waits : (c : ℕ) → waits_for k c q ≡ true → ⊥ =
        λ c w. ground (arith, p.pending, settled k s e, w) in
      record {
        intent = ground (arith, p.sessions k, h);
        closed = ground (arith, p.sessions k, h);
        indexed =
            λ c x. absurd (none_waits c (ground (arith, owned.backed c k x, p.sessions k, h)));
        waits = λ c x. absurd (none_waits c x);
      }
]

kept-Follows :
    (ks : List Text) (k : Text) (r q : SessionRegistry) (x : Replayed)
    → Purged ks r q
    → any (same k) ks ≡ false
    → Follows k x r
    → Follows k x q
kept-Follows ks k r q x p h f = record {
  intent = f.intent ∙ ground (arith, p.sessions k, h);
  closed = f.closed ∙ ground (arith, p.sessions k, h);
  indexed = λ c y. f.indexed c (p.index c k y);
  waits = λ c y. f.waits c (ground (arith, p.pending, y));
}

module _ (services : Services) where
  open services use {Value}

  Purged-IsRecorded :
      (ks : List Text) (r q : SessionRegistry) (lines after : Text → List Value)
      → (IsOwned r → IsOwned q)
      → Purged ks r q
      → IsRecorded services r lines
      → ((k : Text) → after k ≡ (if any (same k) ks then [] else lines k))
      → IsRecorded services q after
  unfolding replay_from
  Purged-IsRecorded ks r q lines after owned p h wrote = record {
    owned = owned h.owned;
    settled = Purged-Settled ks r q p h.settled;
    replays = λ k. elim (Bool-cases (any (same k) ks)) [
      | inl y ↦ (
        nothing_replayed,
        ground (arith, wrote k, y),
        Purged-Follows ks k r q (owned h.owned) h.settled p y,
      )
      | inr n ↦
          let (x, e, f) = h.replays k in
          (x, ground (arith, wrote k, n, e), kept-Follows ks k r q x p n f)
    ];
  }

  -- Directories that were all removed.
  record Removed (ks : List Text) (d e : DaemonState services) : Type 0 where
    writable : e.storage_writable ≡ d.storage_writable
    disk : e.disk ≡ remove_all ks d.disk

  remove_directories-Removed :
      (ks : List Text) (d : DaemonState services)
      → (remove_directories services ks d).1 ≡ ok tt
      → Removed ks d (remove_directories services ks d).0
  unfolding remove_directories remove_all
  remove_directories-Removed [] d h = record { writable = refl; disk = refl }
  remove_directories-Removed (k ∷ ks) d h = elim (call_cases services io_failed d) [
    | inr (o, t, x) ↦ absurd (ground (arith, x, h))
    | inl (o, x) ↦
        let next : DaemonState services = record d {
          disk = TreeMap.remove k d.disk;
          outcomes = o;
        } in
        let same_end : remove_directories services (k ∷ ks) d
            ≡ remove_directories services ks next =
          ground (arith, x) in
        let later = remove_directories-Removed ks next (rw same_end at h) in
        record {
          writable = ground (arith, same_end, later.writable);
          disk = ground (arith, same_end, later.disk);
        }
  ]

  forget_sessions-Removed :
      (ks : List Text) (d : DaemonState services)
      → (forget_sessions services ks d).1 ≡ ok tt
      → Removed ks d (forget_sessions services ks d).0
  unfolding forget_sessions
  forget_sessions-Removed ks d h =
      let shut : DaemonState services = record d { stores = remove_all ks d.stores } in
      elim (Result-cases (remove_directories services ks shut).1) [
        | inr (e, x) ↦ absurd (ground (arith, x, h))
        | inl (u, x) ↦
            let all = remove_directories-Removed ks shut x in
            record {
              writable = ground (arith, x, all.writable);
              disk = ground (arith, x, all.disk);
            }
      ]

  timeline-Removed :
      (ks : List Text) (d e : DaemonState services) (k : Text)
      → Removed ks d e
      → timeline services k e ≡ (if any (same k) ks then [] else timeline services k d)
  timeline-Removed ks d e k r = ground (arith, r.disk, get-remove_all ks k d.disk)

  nil_of : (ks : List Text) → is_nil ks ≡ true → ks ≡ []
  nil_of [] h = refl
  nil_of (k ∷ ks) h = cc

  -- Retention that is not stopped by a directory keeps every timeline true to the registry.
  pub apply_retention-IsDurable :
      (tenant : Text) (now : ℕ) (dry_run : Bool) (d : DaemonState services)
      → is_ok (apply_retention services tenant now dry_run d).1 ≡ true
      → IsDurable services d
      → IsDurable services (apply_retention services tenant now dry_run d).0
  unfolding apply_retention
  apply_retention-IsDurable tenant now true d done h = h
  apply_retention-IsDurable tenant now false d done h =
      let x = apply_retention_for_tenant tenant now d.registry in
      let ks = x.1.purged_session_ids in
      let purged = retention-Purged tenant now d.registry in
      elim (Bool-cases (is_nil ks)) [
        | inl y ↦
            let none_gone = nil_of ks y in
            λ still.
              same-IsRecorded services x.0 _ (λ k. timeline services k d) _ (ground (arith, y))
                (λ k. ground (arith, y))
                (Purged-IsRecorded ks d.registry x.0 _ _ (retention-IsOwned tenant now d.registry)
                  purged (h (ground (arith, y, still))) (λ k. ground (arith, none_gone)))
        | inr y ↦ elim (Result-cases (forget_sessions services ks d).1) [
          | inr (e, z) ↦ absurd (ground (arith, y, z, done))
          | inl (u, z) ↦
              let removed = forget_sessions-Removed ks d z in
              let next = (forget_sessions services ks d).0 in
              λ still.
                same-IsRecorded services x.0 _ (λ k. timeline services k next) _
                  (ground (arith, y, z)) (λ k. ground (arith, y, z))
                  (Purged-IsRecorded ks d.registry x.0 _ _ (retention-IsOwned tenant now d.registry)
                    purged (h (ground (arith, y, z, removed.writable, still)))
                    (λ k. timeline-Removed ks d next k removed))
        ]
      ]
