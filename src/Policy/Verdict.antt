-- ===== src/Policy/Verdict.antt =====
-- Which events break a policy, and which of them are blocked.
use apolysis.Common.{
  ◌≡◌, ◌≢◌, ◌↔◌, ◌⊎◌, inl, inr, refl, ap, Bool, true, false, not, ◌&&◌, ◌||◌, none, some, List, [],
  ◌∷◌, ◌++◌, ◌==◌, any, arith, Option, Option-cases, Bool-cases, ==_iff, is_some, if◌then◌else◌,
}
use apolysis.Common.Text.{
  Text, text, eqb, eqb_iff, is_nil, contains_text, starts_with, strip_prefix, strip_prefix_append,
  append_of_strip_prefix,
}
use apolysis.Policy.{
  Policy, block, EventType, exec, file_open, file_create, file_truncate, file_unlink, file_rename,
  network_connect, credential_read, session_started, runtime_metadata, process_exit, CanonicalEvent,
  PolicyRuntimeCapabilities, from_event_type,
}
use apolysis.Policy.Capabilities.{can_preoperation_block}
use apolysis.Policy.Rules.{
  match_event_rule, match_rule, evaluate_event, evaluation_of, effective_decision, path_matches_any,
  endpoint_matches_any, endpoint_matches, rsplit_once,
}
use apolysis.Policy.Honest.{resolve-IsHonest}

-- What a policy permits: an access that its allow list has, any access where that list is empty, a
-- command without a denied part, any event of the session, its metadata or the end of a process;
-- never the read of a credential.
abbrev pub IsListed : List Text → Bool → Type 0
IsListed list matched = (list ≡ []) ⊎ (matched ≡ true)

abbrev pub IsPermitted : EventType → Text → Text → Policy → Type 0
IsPermitted credential_read actor resource p = Unit × ⊥
IsPermitted file_open actor resource p =
    IsListed p.workspace.allow_read (path_matches_any p.workspace.allow_read resource)
IsPermitted file_create actor resource p =
    IsListed p.workspace.allow_write (path_matches_any p.workspace.allow_write resource)
IsPermitted file_truncate actor resource p =
    IsListed p.workspace.allow_write (path_matches_any p.workspace.allow_write resource)
IsPermitted file_unlink actor resource p =
    IsListed p.workspace.allow_write (path_matches_any p.workspace.allow_write resource)
IsPermitted file_rename actor resource p =
    IsListed p.workspace.allow_write (path_matches_any p.workspace.allow_write resource)
IsPermitted network_connect actor resource p =
    IsListed p.network.allow_egress (endpoint_matches_any p.network.allow_egress resource)
IsPermitted exec actor resource p =
    any (λ rule. contains_text rule actor || contains_text rule resource) p.commands.deny ≡ false
IsPermitted session_started actor resource p = Unit
IsPermitted runtime_metadata actor resource p = Unit
IsPermitted process_exit actor resource p = Unit

IsListed-iff :
    (list : List Text) (matched : Bool) (r : Text × Text)
    → ((if not (is_nil list) && not matched then some r else none) ≡ none) ↔ IsListed list matched
IsListed-iff [] matched r = (λ h. inl refl, λ h. refl)
IsListed-iff (x ∷ xs) matched r = ground arith

match_rule-none_iff :
    (event : EventType) (actor resource : Text) (p : Policy)
    → (match_rule event actor resource p ≡ none) ↔ IsPermitted event actor resource p
unfolding match_rule
match_rule-none_iff credential_read actor resource p = (λ h. cc, λ h. absurd h.1)
match_rule-none_iff file_open actor resource p = IsListed-iff _ _ _
match_rule-none_iff file_create actor resource p = IsListed-iff _ _ _
match_rule-none_iff file_truncate actor resource p = IsListed-iff _ _ _
match_rule-none_iff file_unlink actor resource p = IsListed-iff _ _ _
match_rule-none_iff file_rename actor resource p = IsListed-iff _ _ _
match_rule-none_iff network_connect actor resource p = IsListed-iff _ _ _
match_rule-none_iff exec actor resource p = ground arith
match_rule-none_iff session_started actor resource p = (λ h. tt, λ h. refl)
match_rule-none_iff runtime_metadata actor resource p = (λ h. tt, λ h. refl)
match_rule-none_iff process_exit actor resource p = (λ h. tt, λ h. refl)

-- No rule matches an event exactly if the policy permits it: an access that its allow list has
-- or any where that list is empty, a command without a denied part, and never the read of a
-- credential.
pub match_event_rule-IsPermitted :
    (e : CanonicalEvent) (p : Policy)
    → (match_event_rule e p ≡ none) ↔ IsPermitted e.event_type e.actor e.resource p
unfolding match_event_rule
match_event_rule-IsPermitted e p = match_rule-none_iff e.event_type e.actor e.resource p

-- An event is blocked, and only then said to be prevented, exactly if a rule of the policy
-- matches it, the policy asks for a block, and the host can block this kind of event.
pub evaluate_event_blocks :
    (e : CanonicalEvent) (c : PolicyRuntimeCapabilities) (p : Policy)
    → let able = can_preoperation_block c.runtime (from_event_type e.event_type) c in
      (((evaluate_event e c p).effective ≡ block)
        ↔ ((match_event_rule e p ≢ none) × (p.enforcement.requested ≡ block) × (able ≡ true)))
      × (((evaluate_event e c p).preoperation_prevention ≡ true)
          ↔ ((evaluate_event e c p).effective ≡ block))
unfolding evaluate_event evaluation_of effective_decision
evaluate_event_blocks e c p =
    let honest =
      resolve-IsHonest p.enforcement.requested p.enforcement.fallback c.runtime e.event_type c in
    elim (Option-cases (match_event_rule e p)) [
      | inl n ↦ rw (n, evaluate_event) ((λ h. cc, λ h. absurd (h.0 refl)), (λ h. cc, λ h. cc))
      | inr (r, n) ↦
          rw (n, evaluate_event)
            (
              (
                λ h. (λ m. cc, (honest.blocks.0 h).0, (honest.blocks.0 h).1),
                λ h. honest.blocks.1 (h.1, h.2),
              ),
              honest.prevents,
            )
    ]

-- No colon in a text.
abbrev pub is_colonless : Text → Bool
is_colonless s = not (any (λ c. c == b':') s)

-- The parts of a text around its last colon.
abbrev IsSplit : Text → Option (Text × Text) → Type 0
IsSplit s none = is_colonless s ≡ true
IsSplit s (some (host, port)) = (s ≡ host ++ b':' ∷ port) × (is_colonless port ≡ true)

rsplit_once-IsSplit : (s : Text) → IsSplit s (rsplit_once b':' s)
unfolding rsplit_once
rsplit_once-IsSplit [] = refl
rsplit_once-IsSplit (c ∷ s) =
    let rest = rsplit_once-IsSplit s in
    elim (Option-cases (rsplit_once b':' s)) [
      | inl e ↦
          let none_left : IsSplit s none = rw e at rest in
          elim (Bool-cases (c == b':')) [
            | inl y ↦ rw (e, y) (ap (λ x. x ∷ s) ((==_iff c b':').0 y), none_left)
            | inr n ↦ rw (e, n) (ground (arith, none_left, n))
          ]
      | inr ((before, after), e) ↦
          let (whole, last) : IsSplit s (some (before, after)) = rw e at rest in
          rw e (ap (λ x. c ∷ x) whole, last)
    ]

rsplit_once-colonless : (s : Text) → is_colonless s ≡ true → rsplit_once b':' s ≡ none
unfolding rsplit_once
rsplit_once-colonless [] h = refl
rsplit_once-colonless (c ∷ s) h = ground (arith, rsplit_once-colonless s (ground arith))

rsplit_once-append :
    (host port : Text)
    → is_colonless port ≡ true
    → rsplit_once b':' (host ++ b':' ∷ port) ≡ some (host, port)
unfolding rsplit_once
rsplit_once-append [] port h = ground (arith, rsplit_once-colonless port h)
rsplit_once-append (c ∷ host) port h = ground (arith, rsplit_once-append host port h)

-- What an entry of the egress list covers: itself; without a colon, whatever begins with it; with the
-- port 0, its host at every port.
abbrev pub Covers : Text → Text → Type 0
Covers rule endpoint =
    (rule ≡ endpoint)
    ⊎ (((is_colonless rule ≡ true) × ((rest : Text) × (endpoint ≡ rule ++ rest)))
        ⊎ ((host port : Text) × (rule ≡ host ++ text ":0")
            × (endpoint ≡ host ++ b':' ∷ port)
            × (is_colonless port ≡ true)))

-- An entry of the egress list accepts an endpoint exactly if it covers it: itself; without a
-- colon, whatever begins with it; with the port 0, its host at every port.
pub endpoint_matches-Covers :
    (rule endpoint : Text) → (endpoint_matches rule endpoint ≡ true) ↔ Covers rule endpoint
unfolding endpoint_matches starts_with
endpoint_matches-Covers rule endpoint = (to, from)
  where
    to_prefix :
        (o : Option Text)
        → strip_prefix rule endpoint ≡ o
        → is_some o ≡ true
        → (rest : Text) × (endpoint ≡ rule ++ rest)
    to_prefix none e h = cc
    to_prefix (some rest) e h = (rest, append_of_strip_prefix rule endpoint rest e)

    to : endpoint_matches rule endpoint ≡ true → Covers rule endpoint
    to h = elim (Bool-cases (eqb rule endpoint)) [
      | inl e ↦ inl ((eqb_iff rule endpoint).0 e)
      | inr n ↦ elim (Option-cases (rsplit_once b':' rule)) [
        | inl e ↦
            let bare : IsSplit rule none = rw e at (rsplit_once-IsSplit rule) in
            inr (inl (bare, to_prefix (strip_prefix rule endpoint) refl (ground (arith, n, e))))
        | inr ((host, port), e) ↦
            let parts : IsSplit rule (some (host, port)) = rw e at (rsplit_once-IsSplit rule) in
            elim (Option-cases (rsplit_once b':' endpoint)) [
              | inl f ↦ absurd (ground (arith, n, e, f, h))
              | inr ((at, last), f) ↦
                  let ends : IsSplit endpoint (some (at, last)) =
                    rw f at (rsplit_once-IsSplit endpoint) in
                  let same_host : host ≡ at = (eqb_iff host at).0 (ground (arith, n, e, f, h)) in
                  let zero_port : port ≡ text "0" =
                    (eqb_iff port (text "0")).0 (ground (arith, n, e, f, h)) in
                  inr (
                    inr (
                      host,
                      last,
                      ground (arith, parts.0, zero_port),
                      ground (arith, ends.0, same_host),
                      ends.1,
                    ))
            ]
      ]
    ]

    from : Covers rule endpoint → endpoint_matches rule endpoint ≡ true
    from (inl e) = ground (arith, (eqb_iff rule endpoint).1 e)
    from (inr (inl (h, (rest, e)))) =
        ground (arith, e, rsplit_once-colonless rule h, strip_prefix_append rule rest)
    from (inr (inr (host, port, e, f, h))) =
        let a = rsplit_once-append host (text "0") refl in
        let b = rsplit_once-append host port h in
        ground (arith, e, f, a, b, (eqb_iff host host).1 refl)
