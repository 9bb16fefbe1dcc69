-- ===== src/Registry/Capacity.antt =====
-- No history of calls passes the bounds of the registry.
use apolysis.Common.{
  inl, inr, suc, ℕ, ◌<◌, ◌≡◌, refl, List, [], ◌∷◌, ◌++◌, Option, none, some, length, length-append,
  length-sort, sort, ok, err, u64_mod, arith, Option-cases, Result-cases, Bool-cases, unwrap_or,
  leb, is_some,
}
use apolysis.Common.Ordered.{bytes_ord, number_ord}
use apolysis.Common.Text.{Text}
use apolysis.Common.TreeMap
use apolysis.Common.TreeMap.{TreeMap, remove_all, length-insert, length-remove, length-modify}
use apolysis.Common.TreeMap.Sorted.{insert-IsSorted, remove-IsSorted, remove_all-IsSorted}
use apolysis.Common.TreeMap.Weight.{weight_of, weight-insert}
use apolysis.Intent.{SessionIntent, validate_intent}
use apolysis.Registry.{
  SessionRegistry, SessionStatus, RegisterOutcome, Outcome, new, new_state, finish, register,
  reregister, renew, renewed, deactivate, deactivated, deactivate_all, close, degrade, closed,
  degraded, expired, expire, associate_cgroup, await_session, discover_pending, discover_cgroup,
  attached_or, with_status, select, is_overdue,
}
use apolysis.Registry.Retention.{purge, purge_all, apply_retention_for_tenant}
use apolysis.Registry.Calls.{
  Call, registers, renews, closes, degrades, expires, associates, discovers, retains, step, run,
}
use apolysis.Registry.Bounded.{
  IsBounded, new-IsBounded, modify_session-IsBounded, set_index-IsBounded,
  attach_known_cgroup-IsBounded, adopt_pending-IsBounded, insert_session-IsBounded,
}

finish-IsBounded :
    (o : RegisterOutcome) (x : Outcome (Unit {0})) → IsBounded x.0 → IsBounded (finish o x).0
finish-IsBounded o (r, ok u) b = b
finish-IsBounded o (r, err e) b = b

register-IsBounded :
    (intent : SessionIntent) (now : ℕ) (r : SessionRegistry)
    → IsBounded r
    → IsBounded (register intent now r).0
unfolding register
register-IsBounded intent now r b =
    let k = intent.session_id in
    elim (Result-cases (validate_intent intent now)) [
      | inr (e, v) ↦ rw (v, register) b
      | inl (u, v) ↦
          rw (v, register)
            (elim (Option-cases (TreeMap.get k r.sessions)) [
              | inr (s, e) ↦
                  rw (e, register)
                    (finish-IsBounded _ _ (
                      adopt_pending-IsBounded k _
                        (modify_session-IsBounded k (reregister intent) r b)))
              | inl e ↦
                  rw (e, register)
                    (elim (Bool-cases (leb r.max_sessions (length r.sessions))) [
                      | inl full ↦ rw full b
                      | inr room ↦ rw room (
                          finish-IsBounded _ _ (
                            adopt_pending-IsBounded k _
                              (insert_session-IsBounded k (new_state intent) r (ground arith) b)))
                    ])
            ])
    ]

renew-IsBounded :
    (k : Text) (at now : ℕ) (r : SessionRegistry) → IsBounded r → IsBounded (renew k at now r).0
unfolding renew
renew-IsBounded k at now r b = ground (arith, b, modify_session-IsBounded k (renewed at) r b)

deactivate-IsBounded :
    (k : Text) (status : SessionStatus) (r : SessionRegistry)
    → IsBounded r
    → IsBounded (deactivate k status r).0
unfolding deactivate
deactivate-IsBounded k status r b = elim (Option-cases (TreeMap.get k r.sessions)) [
  | inl e ↦ rw (e, deactivate) b
  | inr (s, e) ↦
      rw (e, deactivate)
        (set_index-IsBounded (remove_all s.cgroup_ids r.cgroup_index) _
          (remove_all-IsSorted s.cgroup_ids r.cgroup_index b.index_sorted)
          (modify_session-IsBounded k (with_status status) r b))
]

deactivated-IsBounded :
    (k : Text) (status : SessionStatus) (r : SessionRegistry)
    → IsBounded r
    → IsBounded (deactivated k status r).0
unfolding deactivated
deactivated-IsBounded k status r b = ground (arith, deactivate-IsBounded k status r b)

deactivate_all-IsBounded :
    (ks : List Text) (status : SessionStatus) (r : SessionRegistry)
    → IsBounded r
    → IsBounded (deactivate_all ks status r)
unfolding deactivate_all
deactivate_all-IsBounded [] status r b = b
deactivate_all-IsBounded (k ∷ ks) status r b =
    deactivate_all-IsBounded ks status _ (deactivate-IsBounded k status r b)

associate_cgroup-IsBounded :
    (k : Text) (c : ℕ) (r : SessionRegistry) → IsBounded r → IsBounded (associate_cgroup k c r).0
unfolding associate_cgroup
associate_cgroup-IsBounded k c r b = ground (arith, b, attach_known_cgroup-IsBounded k c r b)

weight_of-unwrap : (o : Option (List ℕ)) → weight_of length o ≡ length (unwrap_or o [])
weight_of-unwrap none = refl
weight_of-unwrap (some cs) = refl

length-sort_snoc : (w : List ℕ) (c : ℕ) → length (sort (w ++ c ∷ [])) ≡ suc (length w)
length-sort_snoc w c = omega (arith, length-sort (w ++ c ∷ []), length-append w (c ∷ []))

await_session-IsBounded :
    (k : Text) (c : ℕ) (r : SessionRegistry)
    → r.pending_count < r.max_pending
    → IsBounded r
    → IsBounded (await_session k c (unwrap_or (TreeMap.get k r.pending) []) r)
await_session-IsBounded k c r room b =
    let waiting = unwrap_or (TreeMap.get k r.pending) [] in
    let sum = weight-insert length k (sort (waiting ++ c ∷ [])) r.pending b.pending_sorted in
    record {
      within = b.within;
      counted = omega (
        arith,
        sum,
        weight_of-unwrap (TreeMap.get k r.pending),
        length-sort_snoc waiting c,
        b.counted,
        b.bounded,
        b.word,
      );
      bounded = omega (arith, b.word);
      word = b.word;
      sessions_sorted = b.sessions_sorted;
      index_sorted = insert-IsSorted c k r.cgroup_index b.index_sorted;
      pending_sorted = insert-IsSorted k _ r.pending b.pending_sorted;
    }

discover_pending-IsBounded :
    (k : Text) (c : ℕ) (r : SessionRegistry) → IsBounded r → IsBounded (discover_pending k c r).0
unfolding discover_pending
discover_pending-IsBounded k c r b = ground (arith, b, await_session-IsBounded k c r)

attached_or-IsBounded : (x : Outcome (Unit {0})) → IsBounded x.0 → IsBounded (attached_or x).0
attached_or-IsBounded (r, ok u) b = b
attached_or-IsBounded (r, err e) b = b

discover_cgroup-IsBounded :
    (k : Text) (c : ℕ) (r : SessionRegistry) → IsBounded r → IsBounded (discover_cgroup k c r).0
unfolding discover_cgroup
discover_cgroup-IsBounded k c r b = elim (Bool-cases (is_some (TreeMap.get k r.sessions))) [
  | inl e ↦ rw e (attached_or-IsBounded _ (associate_cgroup-IsBounded k c r b))
  | inr e ↦ rw e (discover_pending-IsBounded k c r b)
]

purge-IsBounded : (k : Text) (r : SessionRegistry) → IsBounded r → IsBounded (purge k r)
unfolding purge
purge-IsBounded k r b = elim (Option-cases (TreeMap.get k r.sessions)) [
  | inl e ↦ rw (e, purge) b
  | inr (s, e) ↦
      rw (e, purge)
        (record {
          within = omega (arith, length-remove k r.sessions, b.within);
          counted = b.counted;
          bounded = b.bounded;
          word = b.word;
          sessions_sorted = remove-IsSorted k r.sessions b.sessions_sorted;
          index_sorted = remove_all-IsSorted s.cgroup_ids r.cgroup_index b.index_sorted;
          pending_sorted = b.pending_sorted;
        })
]

purge_all-IsBounded :
    (ks : List Text) (r : SessionRegistry) → IsBounded r → IsBounded (purge_all ks r).0
unfolding purge_all
purge_all-IsBounded [] r b = b
purge_all-IsBounded (k ∷ ks) r b = purge_all-IsBounded ks (purge k r) (purge-IsBounded k r b)

-- Every call keeps the registry within its limits and its maps in order.
pub step-IsBounded : (c : Call) (r : SessionRegistry) → IsBounded r → IsBounded (step c r)
unfolding step close degrade expire apply_retention_for_tenant
step-IsBounded (registers intent now) r b = register-IsBounded intent now r b
step-IsBounded (renews k at now) r b = renew-IsBounded k at now r b
step-IsBounded (closes k) r b = deactivated-IsBounded k closed r b
step-IsBounded (degrades k) r b = deactivated-IsBounded k degraded r b
step-IsBounded (expires now) r b =
    deactivate_all-IsBounded (select (is_overdue now) r.sessions) expired r b
step-IsBounded (associates k c) r b = associate_cgroup-IsBounded k c r b
step-IsBounded (discovers k c) r b = discover_cgroup-IsBounded k c r b
step-IsBounded (retains tenant now) r b = purge_all-IsBounded _ r b

run-IsBounded : (cs : List Call) (r : SessionRegistry) → IsBounded r → IsBounded (run cs r)
unfolding run
run-IsBounded [] r b = b
run-IsBounded (c ∷ cs) r b = run-IsBounded cs (step c r) (step-IsBounded c r b)

-- After any calls on a new registry whose pending limit is a 64-bit number: at most max_sessions
-- sessions, at most max_pending waiting cgroups, the counter of these is their number, and the
-- three maps are in order.
pub run-new-IsBounded :
    (max_sessions max_pending : ℕ) (cs : List Call)
    → max_pending < u64_mod
    → IsBounded (run cs (new max_sessions max_pending))
run-new-IsBounded m n cs h = run-IsBounded cs _ (new-IsBounded m n h)
