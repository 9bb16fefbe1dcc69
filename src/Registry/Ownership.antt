-- ===== src/Registry/Ownership.antt =====
-- Who owns a tracked cgroup: the session that the index names is active and lists the cgroup, or it
-- is not registered and the cgroup waits for it.
use apolysis.Common.{
  inl, inr, ◌⊎◌, ℕ, ◌≡◌, refl, List, [], ◌∷◌, ◌++◌, none, any, any-append, contains-sort, sort,
  contains, ok, err, arith, ◌==◌, ==_iff, Option-cases, Result-cases, Bool-cases, unwrap_or, leb,
  if◌then◌else◌,
}
use apolysis.Common.Ordered.{bytes_ord, number_ord, same, same_iff}
use apolysis.Common.Text.{Text}
use apolysis.Common.TreeMap
use apolysis.Common.TreeMap.{
  TreeMap, remove_all, get-insert, get-remove, get-modify, get-remove_all, map_option,
}
use apolysis.Registry.{
  SessionRegistry, SessionState, SessionStatus, is_active, RegisterOutcome, Outcome, new,
  attach_known_cgroup, register, renew, renewed, deactivate, deactivated, deactivate_all, close,
  degrade, closed, degraded, expired, expire, associate_cgroup, await_session, discover_pending,
  discover_cgroup, attached_or, add_cgroup, with_status, ensure_cgroup_available, select,
  is_overdue,
}
use apolysis.Registry.Retention.{purge, purge_all, apply_retention_for_tenant}
use apolysis.Registry.Calls.{
  Call, registers, renews, closes, degrades, expires, associates, discovers, retains, step,
}
use apolysis.Registry.Adoption.{register-IsOwned}
use apolysis.Registry.Claims.{IsOwned, IsLive, contains-add}

pub renew-IsOwned :
    (k : Text) (at now : ℕ) (r : SessionRegistry) → IsOwned r → IsOwned (renew k at now r).0
unfolding renew
renew-IsOwned k at now r o = record {
  backed =
      λ c j h. ground (arith, o.backed c j, get-modify k j (renewed at) r.sessions, same_iff j k);
}

any-same : (cs : List ℕ) (c : ℕ) → any (same c) cs ≡ contains cs c
any-same [] c = refl
any-same (d ∷ cs) c = ground (arith, any-same cs c)

-- The index after the entries of a session's cgroups are taken out.
pub get-freed :
    (s : SessionState) (c : ℕ) (index : TreeMap ℕ Text)
    → TreeMap.get c (remove_all s.cgroup_ids index)
      ≡ (if contains s.cgroup_ids c then none else TreeMap.get c index)
get-freed s c index = rw (← any-same s.cgroup_ids c) (get-remove_all s.cgroup_ids c index)

deactivate-IsOwned :
    (k : Text) (status : SessionStatus) (r : SessionRegistry)
    → IsOwned r
    → IsOwned (deactivate k status r).0
unfolding deactivate
deactivate-IsOwned k status r o = record {
  backed = λ c j. elim (Option-cases (TreeMap.get k r.sessions)) [
    | inl e ↦ λ h. ground (arith, e, o.backed c j)
    | inr (s, e) ↦ λ h. ground (
      arith,
      e,
      o.backed c j,
      get-freed s c r.cgroup_index,
      get-modify k j (with_status status) r.sessions,
      same_iff j k,
    )
  ];
}

attach_known_cgroup-IsOwned :
    (k : Text) (c : ℕ) (r : SessionRegistry)
    → IsLive k r
    → IsOwned r
    → IsOwned (attach_known_cgroup k c r).0
unfolding attach_known_cgroup
attach_known_cgroup-IsOwned k c r (s, e, a) o = record {
  backed = λ d j h. ground (
    arith,
    e,
    a,
    o.backed d j,
    get-insert c d k r.cgroup_index,
    get-modify k j (add_cgroup c) r.sessions,
    contains-add s c d,
    same_iff j k,
    ==_iff c d,
  );
}

await_session-IsOwned :
    (k : Text) (c : ℕ) (r : SessionRegistry)
    → TreeMap.get k r.sessions ≡ none
    → IsOwned r
    → IsOwned (await_session k c (unwrap_or (TreeMap.get k r.pending) []) r)
await_session-IsOwned k c r e o = record {
  backed = λ d j h.
      let waiting = unwrap_or (TreeMap.get k r.pending) [] in
      ground (
        arith,
        e,
        o.backed d j,
        get-insert c d k r.cgroup_index,
        get-insert k j (sort (waiting ++ c ∷ [])) r.pending,
        contains-sort (waiting ++ c ∷ []) d,
        any-append (λ x. x == d) waiting (c ∷ []),
        same_iff j k,
        ==_iff c d,
      );
}

purge-IsOwned : (k : Text) (r : SessionRegistry) → IsOwned r → IsOwned (purge k r)
unfolding purge
purge-IsOwned k r o = record {
  backed = λ c j. elim (Option-cases (TreeMap.get k r.sessions)) [
    | inl e ↦ λ h. ground (arith, e, o.backed c j)
    | inr (s, e) ↦ λ h. ground (
      arith,
      e,
      o.backed c j,
      get-freed s c r.cgroup_index,
      get-remove k j r.sessions,
      same_iff j k,
    )
  ];
}

deactivated-IsOwned :
    (k : Text) (status : SessionStatus) (r : SessionRegistry)
    → IsOwned r
    → IsOwned (deactivated k status r).0
unfolding deactivated
deactivated-IsOwned k status r o = elim (Result-cases (deactivate k status r).1) [
  | inl (u, e) ↦ rw (e, deactivated) (deactivate-IsOwned k status r o)
  | inr (x, e) ↦ rw (e, deactivated) (deactivate-IsOwned k status r o)
]

deactivate_all-IsOwned :
    (ks : List Text) (status : SessionStatus) (r : SessionRegistry)
    → IsOwned r
    → IsOwned (deactivate_all ks status r)
unfolding deactivate_all
deactivate_all-IsOwned [] status r o = o
deactivate_all-IsOwned (k ∷ ks) status r o =
    deactivate_all-IsOwned ks status _ (deactivate-IsOwned k status r o)

purge_all-IsOwned : (ks : List Text) (r : SessionRegistry) → IsOwned r → IsOwned (purge_all ks r).0
unfolding purge_all
purge_all-IsOwned [] r o = o
purge_all-IsOwned (k ∷ ks) r o = purge_all-IsOwned ks (purge k r) (purge-IsOwned k r o)

associate_cgroup-IsOwned :
    (k : Text) (c : ℕ) (r : SessionRegistry) → IsOwned r → IsOwned (associate_cgroup k c r).0
unfolding associate_cgroup
associate_cgroup-IsOwned k c r o = elim (Option-cases (TreeMap.get k r.sessions)) [
  | inl e ↦ rw (e, associate_cgroup) o
  | inr (s, e) ↦
      rw (e, associate_cgroup)
        (elim (Bool-cases (is_active s.status)) [
          | inl live ↦ rw live (attach_known_cgroup-IsOwned k c r (s, e, ground arith) o)
          | inr idle ↦ rw idle o
        ])
]

attached_or-IsOwned : (x : Outcome (Unit {0})) → IsOwned x.0 → IsOwned (attached_or x).0
attached_or-IsOwned (r, ok u) o = o
attached_or-IsOwned (r, err e) o = o

discover_pending-IsOwned :
    (k : Text) (c : ℕ) (r : SessionRegistry)
    → TreeMap.get k r.sessions ≡ none
    → IsOwned r
    → IsOwned (discover_pending k c r).0
unfolding discover_pending
discover_pending-IsOwned k c r e o = elim (Result-cases (ensure_cgroup_available k c r)) [
  | inr (x, v) ↦ rw (v, discover_pending) o
  | inl (u, v) ↦
      rw (v, discover_pending)
        (elim (Bool-cases (leb r.max_pending r.pending_count)) [
          | inl full ↦ rw full o
          | inr room ↦
              rw room (elim (Bool-cases (contains (unwrap_or (TreeMap.get k r.pending) []) c)) [
                | inl known ↦ rw known o
                | inr new ↦ rw new (await_session-IsOwned k c r e o)
              ])
        ])
]

pub discover_cgroup-IsOwned :
    (k : Text) (c : ℕ) (r : SessionRegistry) → IsOwned r → IsOwned (discover_cgroup k c r).0
unfolding discover_cgroup
discover_cgroup-IsOwned k c r o = elim (Option-cases (TreeMap.get k r.sessions)) [
  | inl e ↦ rw (e, discover_cgroup) (discover_pending-IsOwned k c r e o)
  | inr (s, e) ↦ rw (e, discover_cgroup) (attached_or-IsOwned _ (associate_cgroup-IsOwned k c r o))
]

pub close-IsOwned : (k : Text) (r : SessionRegistry) → IsOwned r → IsOwned (close k r).0
unfolding close
close-IsOwned k r o = deactivated-IsOwned k closed r o

pub degrade-IsOwned : (k : Text) (r : SessionRegistry) → IsOwned r → IsOwned (degrade k r).0
unfolding degrade
degrade-IsOwned k r o = deactivated-IsOwned k degraded r o

pub retention-IsOwned :
    (tenant : Text) (now : ℕ) (r : SessionRegistry)
    → IsOwned r
    → IsOwned (apply_retention_for_tenant tenant now r).0
unfolding apply_retention_for_tenant
retention-IsOwned tenant now r o = purge_all-IsOwned _ r o

-- A registration ends whole if it succeeds or leaves the registry as it was; the other calls do.
abbrev pub EndsWhole : Call → SessionRegistry → Type 0
EndsWhole (registers intent now) r =
    ((p : RegisterOutcome) × ((register intent now r).1 ≡ ok p)) ⊎ ((register intent now r).0 ≡ r)
EndsWhole _ r = Unit

-- If every tracked cgroup is backed in a registry, by an active session that lists it or as
-- waiting for a session that is not registered, then it is so after any call that changes the
-- registry; a registration must succeed or leave the registry as it was.
pub step-IsOwned : (c : Call) (r : SessionRegistry) → EndsWhole c r → IsOwned r → IsOwned (step c r)
unfolding step expire
step-IsOwned (registers intent now) r (inl (p, done)) o = register-IsOwned intent now r p o done
step-IsOwned (registers intent now) r (inr unchanged) o = rw unchanged o
step-IsOwned (renews k at now) r u o = renew-IsOwned k at now r o
step-IsOwned (closes k) r u o = close-IsOwned k r o
step-IsOwned (degrades k) r u o = degrade-IsOwned k r o
step-IsOwned (expires now) r u o =
    deactivate_all-IsOwned (select (is_overdue now) r.sessions) expired r o
step-IsOwned (associates k c) r u o = associate_cgroup-IsOwned k c r o
step-IsOwned (discovers k c) r u o = discover_cgroup-IsOwned k c r o
step-IsOwned (retains tenant now) r u o = retention-IsOwned tenant now r o
