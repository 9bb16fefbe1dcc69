-- ===== src/Registry/Completion.antt =====
-- A registration that finds its waiting cgroups still its own takes all of them over.
use apolysis.Common.{
  inl, inr, ℕ, ◌<◌, ◌≡◌, refl, List, [], ◌∷◌, none, some, contains, true, ◌||◌, ok, err, arith,
  ==_iff, Option-cases, unwrap_or, length, sub64,
}
use apolysis.Common.Ordered.{bytes_ord, number_ord, same_iff}
use apolysis.Common.Text.{Text}
use apolysis.Common.TreeMap
use apolysis.Common.TreeMap.{TreeMap, get-insert, get-remove, get-modify}
use apolysis.Intent.{SessionIntent, validate_intent}
use apolysis.Registry.{
  SessionRegistry, RegisterOutcome, Outcome, inserted, replaced, attach, attach_all, adopt_pending,
  finish, register, add_cgroup, ensure_cgroup_available,
}
use apolysis.Registry.Claims.{holds, IsLive, contains-add, attach-IsLive}
use apolysis.Registry.Adoption.{
  attach_all_step, reregistered, with_session, register_known, register_new, reregister-IsLive,
  insert_session-IsLive,
}

-- The index names the session for each of these cgroups.
abbrev pub IsReserved : Text → List ℕ → TreeMap ℕ Text → Type 0
IsReserved session cs index = (c : ℕ) → contains cs c ≡ true → TreeMap.get c index ≡ some session

-- Of two registries: the second lists all cgroups of the session that the first lists, and these.
abbrev Gained : Text → List ℕ → SessionRegistry → SessionRegistry → Type 0
Gained session cs r r' =
    (c : ℕ) → (holds session c r || contains cs c) ≡ true → holds session c r' ≡ true

record Adopted (session : Text) (cs : List ℕ) (r : SessionRegistry) (x : Outcome (Unit {0}))
    : Type 0 where
  done : x.1 ≡ ok tt
  waiting : x.0.pending ≡ r.pending
  index :
      (c : ℕ)
      → TreeMap.get c r.cgroup_index ≡ some session
      → TreeMap.get c x.0.cgroup_index ≡ some session
  gained : Gained session cs r x.0

reserved-available :
    (session : Text) (c : ℕ) (r : SessionRegistry)
    → TreeMap.get c r.cgroup_index ≡ some session
    → ensure_cgroup_available session c r ≡ ok tt
unfolding ensure_cgroup_available
reserved-available session c r e = ground (arith, e, same_iff session session)

attach_all-Adopted :
    (session : Text) (cs : List ℕ) (r : SessionRegistry)
    → IsLive session r
    → IsReserved session cs r.cgroup_index
    → Adopted session cs r (attach_all session cs r)
unfolding attach_all
attach_all-Adopted session [] r live res = record {
  done = refl;
  waiting = refl;
  index = λ c e. e;
  gained = λ c h. ground arith;
}
attach_all-Adopted session (c ∷ cs) r (s, e, a) res =
    let here = res c (ground (arith, ==_iff c c)) in
    let next = attach session c r in
    let live' = attach-IsLive session c r (s, e, a) in
    let kept : (d : ℕ)
        → TreeMap.get d r.cgroup_index ≡ some session
        → TreeMap.get d next.cgroup_index ≡ some session =
      λ d h. ground (arith, h, get-insert c d session r.cgroup_index) in
    let later = attach_all-Adopted session cs next live' (λ d h. kept d (res d (ground arith))) in
    rw (attach_all_step session c cs r (s, e, a) (reserved-available session c r here)) (record {
      done = later.done;
      waiting = later.waiting;
      index = λ d h. later.index d (kept d h);
      gained = λ d h. later.gained d (
          ground (
            arith,
            e,
            a,
            get-modify session session (add_cgroup c) r.sessions,
            contains-add s c d,
            same_iff session session,
            h,
          ));
    })

-- What a completed registration has done with the cgroups that waited.
pub record TakenOver (session : Text) (waiting : List ℕ) (r : SessionRegistry) : Type 0 where
  pub released : TreeMap.get session r.pending ≡ none
  pub tracked : IsReserved session waiting r.cgroup_index
  pub listed : (c : ℕ) → contains waiting c ≡ true → holds session c r ≡ true

adopt_pending-TakenOver :
    (session : Text) (r : SessionRegistry)
    → IsLive session r
    → IsReserved session (unwrap_or (TreeMap.get session r.pending) []) r.cgroup_index
    → ((adopt_pending session r).1 ≡ ok tt)
      × TakenOver session (unwrap_or (TreeMap.get session r.pending) []) (adopt_pending session r).0
unfolding adopt_pending
adopt_pending-TakenOver session r live res = elim (Option-cases (TreeMap.get session r.pending)) [
  | inl e ↦
      rw (e, adopt_pending) (refl, record { released = e; tracked = λ c h. cc; listed = λ c h. cc })
  | inr (cs, e) ↦
      let start : SessionRegistry = record r {
        pending = TreeMap.remove session r.pending;
        pending_count = sub64 r.pending_count (length cs);
      } in
      let res' : IsReserved session cs r.cgroup_index = rw e at res in
      let all = attach_all-Adopted session cs start live res' in
      rw (e, adopt_pending)
        (
          all.done,
          record {
            released = ground (
              arith,
              all.waiting,
              get-remove session session r.pending,
              same_iff session session,
            );
            tracked = λ c h. all.index c (res' c h);
            listed = λ c h. all.gained c (ground (arith, h));
          },
        )
]

finish-TakenOver :
    (session : Text) (waiting : List ℕ) (o : RegisterOutcome) (x : Outcome (Unit {0}))
    → (x.1 ≡ ok tt) × TakenOver session waiting x.0
    → ((finish o x).1 ≡ ok o) × TakenOver session waiting (finish o x).0
finish-TakenOver session waiting o (r, ok u) (e, t) = (refl, t)
finish-TakenOver session waiting o (r, err x) (e, t) = cc

-- A registration of a valid intent, with room if the session is new, whose waiting cgroups are
-- all indexed to it, succeeds and says whether the session was known; afterwards nothing waits
-- for the session, and each of these cgroups is tracked for it and listed by it.
pub register-TakenOver :
    (intent : SessionIntent) (now : ℕ) (r : SessionRegistry)
    → validate_intent intent now ≡ ok tt
    → (TreeMap.get intent.session_id r.sessions ≡ none → length r.sessions < r.max_sessions)
    → IsReserved intent.session_id
        (unwrap_or (TreeMap.get intent.session_id r.pending) [])
        r.cgroup_index
    → ((register intent now r).1
        ≡ ok (elim (TreeMap.get intent.session_id r.sessions) [
          | none ↦ inserted
          | some _ ↦ replaced
        ]))
      × TakenOver intent.session_id
          (unwrap_or (TreeMap.get intent.session_id r.pending) [])
          (register intent now r).0
register-TakenOver intent now r v room res =
    let id = intent.session_id in
    elim (Option-cases (TreeMap.get id r.sessions)) [
      | inr (s, e) ↦ rw (register_known intent now r s v e) (
          rw e (
            finish-TakenOver id _ replaced _ (
              adopt_pending-TakenOver id (reregistered intent r) (reregister-IsLive intent r s e)
                res)))
      | inl e ↦ rw (register_new intent now r v e (room e)) (
          rw e (
            finish-TakenOver id _ inserted _ (
              adopt_pending-TakenOver id (with_session intent r) (insert_session-IsLive intent r)
                res)))
    ]
