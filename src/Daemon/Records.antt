-- ===== src/Daemon/Records.antt =====
-- How the replay reads the records that the session methods write.
use apolysis.Common.{
  ℕ, ◌≡◌, ◌<◌, refl, false, some, List, [], ◌∷◌, ◌++◌, Result, ok, ◌>>=◌, arith, u64_mod,
  Result-cases, inl, inr, true, contains, if◌then◌else◌,
}
use apolysis.Common.Text.{Text, text}
use apolysis.Common.TreeMap
use apolysis.Intent.{SessionIntent}
use apolysis.Registry.{AssociationOutcome}
use apolysis.Registry.Transitions.{expiring}
use apolysis.Daemon.{Services, Documented}
use apolysis.Daemon.Sessions as Sessions
use apolysis.Daemon.Replay.{
  Replayed, other, kind_of, kind_of_name, ReplayError, replay_one, replay_from,
}

module _ (services : Services) where
  open services use {Value}

  -- One more record is one more turn of the loop.
  pub replay_from-append :
      (p : Replayed) (vs : List Value) (v : Value)
      → replay_from services p (vs ++ v ∷ [])
        ≡ (replay_from services p vs >>= λ q. replay_one services v q (kind_of services v))
  unfolding replay_from
  replay_from-append p [] v = elim (Result-cases (replay_one services v p (kind_of services v))) [
    | inl (q, e) ↦ ground (arith, e)
    | inr (x, e) ↦ ground (arith, e)
  ]
  replay_from-append p (w ∷ vs) v =
      elim (Result-cases (replay_one services w p (kind_of services w))) [
        | inl (q, e) ↦ ground (arith, e, replay_from-append q vs v)
        | inr (x, e) ↦ ground (arith, e)
      ]

  -- A turn of the loop.
  abbrev pub turn : Value → Replayed → Result Replayed ReplayError
  turn v p = replay_one services v p (kind_of services v)

  -- A record of any other kind changes nothing.
  pub turn_other : (v : Value) (p : Replayed) → kind_of services v ≡ other → turn v p ≡ ok p
  unfolding replay_one
  turn_other v p e = rw e refl

  module _ (documented : Documented services) where
    open services use {get, as_str, as_u64, string, number, intent_to_value}

    -- A record whose type is this name.
    abbrev pub IsNamed : Text → Value → Type 0
    IsNamed name v = get (text "record_type") v ≡ some (string name)

    pub kind_of-IsNamed :
        (name : Text) (v : Value) → IsNamed name v → kind_of services v ≡ kind_of_name name
    unfolding kind_of
    kind_of-IsNamed name v e = ground (arith, e, documented.as_str_string name)

    registered_fields :
        (intent : SessionIntent)
        → IsNamed (text "intent_registered") (Sessions.intent_registered services intent)
          × (get (text "intent") (Sessions.intent_registered services intent)
              ≡ some (intent_to_value intent))
    unfolding TreeMap.get TreeMap.insert
    registered_fields intent = (documented.get_object _ _, documented.get_object _ _)

    renewed_fields :
        (session : Text) (expires : ℕ)
        → IsNamed (text "intent_renewed") (Sessions.intent_renewed services session expires)
          × (get (text "expires_at_unix_ms") (Sessions.intent_renewed services session expires)
              ≡ some (number expires))
    unfolding TreeMap.get TreeMap.insert
    renewed_fields session expires = (documented.get_object _ _, documented.get_object _ _)

    closed_fields :
        (session : Text)
        → IsNamed (text "session_closed") (Sessions.session_closed services session)
    unfolding TreeMap.get TreeMap.insert
    closed_fields session = documented.get_object _ _

    discovered_fields :
        (session : Text) (cgroup : ℕ) (o : AssociationOutcome)
        → IsNamed (text "cgroup_discovered") (Sessions.cgroup_discovered services session cgroup o)
          × (get (text "cgroup_id") (Sessions.cgroup_discovered services session cgroup o)
              ≡ some (number cgroup))
    unfolding TreeMap.get TreeMap.insert
    discovered_fields session cgroup o = (documented.get_object _ _, documented.get_object _ _)

    pub turn_registered :
        (intent : SessionIntent) (p : Replayed)
        → turn (Sessions.intent_registered services intent) p
          ≡ ok (record {
            intent = some intent;
            cgroup_ids = if p.closed then [] else p.cgroup_ids;
            closed = false;
          })
    unfolding replay_one kind_of_name
    turn_registered intent p =
        let (named, field) = registered_fields intent in
        rw (kind_of-IsNamed _ _ named) (ground (arith, field, documented.intent_from_to intent))

    pub turn_renewed :
        (session : Text) (expires : ℕ) (p : Replayed) (intent : SessionIntent)
        → expires < u64_mod
        → p.intent ≡ some intent
        → turn (Sessions.intent_renewed services session expires) p
          ≡ ok (record p { intent = some (expiring expires intent) })
    unfolding replay_one kind_of_name
    turn_renewed session expires p intent fits e =
        let (named, field) = renewed_fields session expires in
        rw (kind_of-IsNamed _ _ named) (ground (arith, field, e, documented.as_u64_number expires))

    pub turn_closed :
        (session : Text) (p : Replayed)
        → turn (Sessions.session_closed services session) p
          ≡ ok (record p { closed = true; cgroup_ids = [] })
    unfolding replay_one kind_of_name
    turn_closed session p = rw (kind_of-IsNamed _ _ (closed_fields session)) refl

    pub turn_discovered :
        (session : Text) (cgroup : ℕ) (o : AssociationOutcome) (p : Replayed)
        → cgroup < u64_mod
        → turn (Sessions.cgroup_discovered services session cgroup o) p
          ≡ ok (record p {
            cgroup_ids =
                if contains p.cgroup_ids cgroup then p.cgroup_ids else p.cgroup_ids ++ cgroup ∷ [];
          })
    unfolding replay_one kind_of_name
    turn_discovered session cgroup o p fits =
        let (named, field) = discovered_fields session cgroup o in
        rw (kind_of-IsNamed _ _ named) (ground (arith, field, documented.as_u64_number cgroup))
