-- ===== src/Registry/Adoption.antt =====
-- The adoption of waiting cgroups by `register`: with every entry of the index backed before, it is
-- backed after a registration that runs to its end.
use apolysis.Common.{
  inl, inr, ℕ, ◌<◌, ◌≡◌, refl, List, [], ◌∷◌, none, some, false, ok, err, arith, Option-cases,
  Result-cases, unwrap_or, leb, length, sub64,
}
use apolysis.Common.Ordered.{bytes_ord, number_ord, same_iff}
use apolysis.Common.Text.{Text}
use apolysis.Common.TreeMap
use apolysis.Common.TreeMap.{
  TreeMap, remove_all, get-insert, get-remove, get-modify, get-remove_all, map_option,
}
use apolysis.Intent.{SessionIntent, validate_intent}
use apolysis.Registry.{
  SessionRegistry, SessionState, RegisterOutcome, inserted, replaced, RegistryError, Outcome,
  new_state, attach, attach_known_cgroup, attach_all, adopt_pending, finish, register, reregister,
  ensure_cgroup_available,
}
use apolysis.Registry.Claims.{IsOwned, OwnedBut, IsLive, attach-OwnedBut, attach-IsLive}

pub attach_all_step :
    (session : Text) (c : ℕ) (cs : List ℕ) (r : SessionRegistry)
    → IsLive session r
    → ensure_cgroup_available session c r ≡ ok tt
    → attach_all session (c ∷ cs) r ≡ attach_all session cs (attach session c r)
unfolding attach_all attach_known_cgroup
attach_all_step session c cs r (s, e, a) free = ground (arith, e)

attach_all_blocked :
    (session : Text) (c : ℕ) (cs : List ℕ) (r : SessionRegistry) (e : RegistryError)
    → ensure_cgroup_available session c r ≡ err e
    → attach_all session (c ∷ cs) r ≡ (r, err e)
unfolding attach_all attach_known_cgroup
attach_all_blocked session c cs r e blocked = ground arith

attach_all-OwnedBut :
    (session : Text) (cs : List ℕ) (r : SessionRegistry)
    → IsLive session r
    → OwnedBut session cs r
    → (attach_all session cs r).1 ≡ ok tt
    → OwnedBut session [] (attach_all session cs r).0
attach_all-OwnedBut session [] r live o done = unfold attach_all in o
attach_all-OwnedBut session (c ∷ cs) r live o done =
    elim (Result-cases (ensure_cgroup_available session c r)) [
      | inr (e, blocked) ↦
          absurd (ground (arith, done, attach_all_blocked session c cs r e blocked))
      | inl (u, free) ↦
          let next = attach_all_step session c cs r live free in
          rw next (
            attach_all-OwnedBut session cs (attach session c r) (attach-IsLive session c r live)
              (attach-OwnedBut session c cs r live o) (rw next at done))
    ]

OwnedBut-nil : (session : Text) (r : SessionRegistry) → OwnedBut session [] r → IsOwned r
OwnedBut-nil session r o = record { backed = λ c k e. ground (arith, o c k e) }

release_pending-OwnedBut :
    (session : Text) (cs : List ℕ) (r : SessionRegistry)
    → IsLive session r
    → TreeMap.get session r.pending ≡ some cs
    → OwnedBut session cs r
    → OwnedBut session cs (record r {
      pending = TreeMap.remove session r.pending;
      pending_count = sub64 r.pending_count (length cs);
    })
release_pending-OwnedBut session cs r (s, f, a) e o c k h =
    ground (arith, f, a, o c k h, get-remove session k r.pending, same_iff k session)

-- The cgroups that wait for a session are taken over by it.
adopt_pending-IsOwned :
    (session : Text) (r : SessionRegistry)
    → IsLive session r
    → OwnedBut session (unwrap_or (TreeMap.get session r.pending) []) r
    → (adopt_pending session r).1 ≡ ok tt
    → IsOwned (adopt_pending session r).0
unfolding adopt_pending
adopt_pending-IsOwned session r live o done = elim (Option-cases (TreeMap.get session r.pending)) [
  | inl e ↦ rw (e, adopt_pending) (OwnedBut-nil session r (rw e at o))
  | inr (cs, e) ↦
      let start : SessionRegistry = record r {
        pending = TreeMap.remove session r.pending;
        pending_count = sub64 r.pending_count (length cs);
      } in
      rw (e, adopt_pending)
        (OwnedBut-nil session _ (
          attach_all-OwnedBut session cs start live
            (release_pending-OwnedBut session cs r live e (rw e at o))
            (rw (e, adopt_pending) at done)))
]

pub finish-ok :
    (x : Outcome (Unit {0})) (o p : RegisterOutcome) → (finish o x).1 ≡ ok p → x.1 ≡ ok tt
finish-ok (r, ok u) o p h = refl
finish-ok (r, err e) o p h = cc

finish-IsOwned :
    (x : Outcome (Unit {0})) (o : RegisterOutcome) → IsOwned x.0 → IsOwned (finish o x).0
finish-IsOwned (r, ok u) o h = h
finish-IsOwned (r, err e) o h = h

-- The two ways in which `register` makes the session live, before it adopts.
reregister-OwnedBut :
    (intent : SessionIntent) (r : SessionRegistry) (s : SessionState)
    → TreeMap.get intent.session_id r.sessions ≡ some s
    → IsOwned r
    → OwnedBut intent.session_id
        (unwrap_or (TreeMap.get intent.session_id r.pending) [])
        (record r { sessions = TreeMap.modify intent.session_id (reregister intent) r.sessions })
reregister-OwnedBut intent r s e o c k h =
    let id = intent.session_id in
    ground (arith, e, o.backed c k h, get-modify id k (reregister intent) r.sessions, same_iff k id)

insert_session-OwnedBut :
    (intent : SessionIntent) (r : SessionRegistry)
    → TreeMap.get intent.session_id r.sessions ≡ none
    → IsOwned r
    → OwnedBut intent.session_id
        (unwrap_or (TreeMap.get intent.session_id r.pending) [])
        (record r { sessions = TreeMap.insert intent.session_id (new_state intent) r.sessions })
unfolding new_state
insert_session-OwnedBut intent r e o c k h =
    let id = intent.session_id in
    ground (arith, e, o.backed c k h, get-insert id k (new_state intent) r.sessions, same_iff k id)

pub reregister-IsLive :
    (intent : SessionIntent) (r : SessionRegistry) (s : SessionState)
    → TreeMap.get intent.session_id r.sessions ≡ some s
    → IsLive intent.session_id
        (record r { sessions = TreeMap.modify intent.session_id (reregister intent) r.sessions })
reregister-IsLive intent r s e =
    let id = intent.session_id in
    (
      reregister intent s,
      ground (arith, e, get-modify id id (reregister intent) r.sessions, same_iff id id),
      refl,
    )

pub insert_session-IsLive :
    (intent : SessionIntent) (r : SessionRegistry)
    → IsLive intent.session_id
        (record r { sessions = TreeMap.insert intent.session_id (new_state intent) r.sessions })
unfolding new_state
insert_session-IsLive intent r =
    let id = intent.session_id in
    (
      new_state intent,
      ground (arith, get-insert id id (new_state intent) r.sessions, same_iff id id),
      refl,
    )

abbrev pub reregistered : SessionIntent → SessionRegistry → SessionRegistry
reregistered intent r = record r {
  sessions = TreeMap.modify intent.session_id (reregister intent) r.sessions;
}

abbrev pub with_session : SessionIntent → SessionRegistry → SessionRegistry
with_session intent r = record r {
  sessions = TreeMap.insert intent.session_id (new_state intent) r.sessions;
}

-- The two ways of `register` past its checks.
pub register_known :
    (intent : SessionIntent) (now : ℕ) (r : SessionRegistry) (s : SessionState)
    → validate_intent intent now ≡ ok tt
    → TreeMap.get intent.session_id r.sessions ≡ some s
    → register intent now r
      ≡ finish replaced (adopt_pending intent.session_id (reregistered intent r))
unfolding register
register_known intent now r s v e = rw (v, register) (rw (e, register) refl)

pub register_new :
    (intent : SessionIntent) (now : ℕ) (r : SessionRegistry)
    → validate_intent intent now ≡ ok tt
    → TreeMap.get intent.session_id r.sessions ≡ none
    → length r.sessions < r.max_sessions
    → register intent now r
      ≡ finish inserted (adopt_pending intent.session_id (with_session intent r))
unfolding register
register_new intent now r v e room =
    let free : leb r.max_sessions (length r.sessions) ≡ false = ground arith in
    rw (v, register) (rw (e, register) (rw free refl))

-- The ways in which it is refused before it changes anything.
pub register_refused :
    (intent : SessionIntent) (now : ℕ) (r : SessionRegistry) (p : RegisterOutcome)
    → (register intent now r).1 ≡ ok p
    → (validate_intent intent now ≡ ok tt)
      × ((TreeMap.get intent.session_id r.sessions ≡ none) → length r.sessions < r.max_sessions)
unfolding register
register_refused intent now r p h = (ground arith, λ e. ground (arith, e))

finished-IsOwned :
    (session : Text) (r : SessionRegistry) (o p : RegisterOutcome)
    → IsLive session r
    → OwnedBut session (unwrap_or (TreeMap.get session r.pending) []) r
    → (finish o (adopt_pending session r)).1 ≡ ok p
    → IsOwned (finish o (adopt_pending session r)).0
finished-IsOwned session r o p live owned done =
    finish-IsOwned _ o (adopt_pending-IsOwned session r live owned (finish-ok _ o p done))

-- A registration that succeeds keeps the index backed.
pub register-IsOwned :
    (intent : SessionIntent) (now : ℕ) (r : SessionRegistry) (p : RegisterOutcome)
    → IsOwned r
    → (register intent now r).1 ≡ ok p
    → IsOwned (register intent now r).0
register-IsOwned intent now r p o done =
    let (v, room) = register_refused intent now r p done in
    elim (Option-cases (TreeMap.get intent.session_id r.sessions)) [
      | inr (s, e) ↦
          let path = register_known intent now r s v e in
          rw path (
            finished-IsOwned intent.session_id _ replaced p (reregister-IsLive intent r s e)
              (reregister-OwnedBut intent r s e o) (rw path at done))
      | inl e ↦
          let path = register_new intent now r v e (room e) in
          rw path (
            finished-IsOwned intent.session_id _ inserted p (insert_session-IsLive intent r)
              (insert_session-OwnedBut intent r e o) (rw path at done))
    ]
