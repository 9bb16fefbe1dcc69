-- ===== src/Daemon/Attempts.antt =====
-- The steps of the start of the daemon: each ends as intended, or at a call that failed.
use apolysis.Common.{
  ℕ, ◌≡◌, ◌⊎◌, inl, inr, refl, ◌∙◌, Bool, true, false, Option, none, some, List, [], ◌∷◌, ok, err,
  ◌>>=◌, Result, arith, length,
}
use apolysis.Common.Text.{Text}
use apolysis.Registry.{SessionRegistry}
use apolysis.Daemon.{Services, Timeline, CallOutcome, done, failed, serialised}
use apolysis.Daemon.Restart.{
  StartError, call_failed, Starting, Entry, found, start_call, integrity_finding, timeline_path,
  append_integrity_finding, recover_session, start_found, start_entry,
}

-- No call that is still to come fails.
abbrev pub all_done : List CallOutcome → Bool
all_done [] = true
all_done (done ∷ later) = all_done later
all_done (failed text ∷ later) = false

module _ (services : Services) where
  open services use {Value}

  -- The start stops at a call that failed.
  abbrev pub Stopped : {A : Type 0} → List CallOutcome → Result A StartError → Type 0
  Stopped outcomes x = ((text : Text) × (x ≡ err (call_failed text))) × (all_done outcomes ≡ false)

  -- A step from one state of the loop ends with a registry as intended, or is stopped.
  abbrev pub Ran :
      (SessionRegistry → Type 0)
      → Starting services
      → Result (Starting services) StartError
      → Type 0
  Ran P s x =
      ((q : Starting services) × (x ≡ ok q)
        × P q.registry
        × (all_done q.outcomes ≡ all_done s.outcomes))
      ⊎ Stopped s.outcomes x

  pub bind-Ran :
      (P Q : SessionRegistry → Type 0) (s : Starting services)
      (x : Result (Starting services) StartError)
      (f : Starting services → Result (Starting services) StartError)
      → Ran P s x
      → ((q : Starting services) → P q.registry → Ran Q q (f q))
      → Ran Q s (x >>= f)
  bind-Ran P Q s x f (inr ((text, e), d)) h = inr ((text, rw e refl), d)
  bind-Ran P Q s x f (inl (q, e, p, same)) h = elim (h q p) [
    | inl (next, g, r, same') ↦ inl (next, rw e g, r, same' ∙ same)
    | inr ((text, g), d) ↦ inr ((text, rw e g), ground (arith, same, d))
  ]

  pub map-Ran :
      (P Q : SessionRegistry → Type 0) (s : Starting services)
      (x : Result (Starting services) StartError)
      → ((r : SessionRegistry) → P r → Q r)
      → Ran P s x
      → Ran Q s x
  map-Ran P Q s x h (inl (q, e, p, same)) = inl (q, e, h q.registry p, same)
  map-Ran P Q s x h (inr stopped) = inr stopped

  pub start_call-Ran :
      (P : SessionRegistry → Type 0) (s : Starting services)
      → P s.registry
      → Ran P s (start_call services s)
  unfolding start_call
  start_call-Ran P s p = answered s.outcomes refl
    where
      answered :
          (outcomes : List CallOutcome) → s.outcomes ≡ outcomes → Ran P s (start_call services s)
      answered [] e = inl (s, ground (arith, e), p, refl)
      answered (done ∷ later) e =
          inl (record s { outcomes = later }, ground (arith, e), p, ground (arith, e))
      answered (failed text ∷ later) e = inr ((text, ground (arith, e)), ground (arith, e))

  -- The finding about a timeline with a quarantine file serialises.
  abbrev pub IsReported : Text → Text → Timeline Value → Type 0
  IsReported dir session t =
      (path : Text)
      → t.quarantine ≡ some path
      → (value : Value) × (serialised services (
            integrity_finding services session (timeline_path services dir session) path
              (length t.records))
          ≡ ok value)

  append_integrity_finding-Ran :
      (P : SessionRegistry → Type 0) (dir session : Text) (t : Timeline Value) (path : Text)
      (value : Value) (s : Starting services)
      → serialised services (
          integrity_finding services session
            (timeline_path services dir session)
            path
            (length t.records))
        ≡ ok value
      → P s.registry
      → Ran P s (append_integrity_finding services dir session t path s)
  unfolding append_integrity_finding
  append_integrity_finding-Ran P dir session t path value s e p =
      rw (append_integrity_finding, e)
        (bind-Ran P P s _ _ (start_call-Ran P s p) (λ appended a.
          bind-Ran P P appended _ _ (start_call-Ran P appended a)
            (λ flushed b. inl (_, refl, b, refl))))

  pub recover_session-Ran :
      (P : SessionRegistry → Type 0) (dir session : Text) (t : Timeline Value)
      (s : Starting services)
      → IsReported dir session t
      → P s.registry
      → Ran P s (recover_session services dir session t s)
  unfolding recover_session
  recover_session-Ran P dir session t s reported p = tail t.quarantine refl
    where
      tail :
          (quarantine : Option Text)
          → t.quarantine ≡ quarantine
          → Ran P s (recover_session services dir session t s)
      tail none e =
          rw (recover_session, e)
            (bind-Ran P P s _ _ (start_call-Ran P s p) (λ q a. inl (_, refl, a, refl)))
      tail (some path) e =
          let (value, f) = reported path e in
          rw (recover_session, e)
            (bind-Ran P P s _ _ (start_call-Ran P s p)
              (λ q a. append_integrity_finding-Ran P dir session t path value q f a))

  pub start_entry-Ran :
      (P Q : SessionRegistry → Type 0) (dir : Text) (now : ℕ) (entry : Entry Value)
      (s : Starting services)
      → P s.registry
      → ((q : Starting services)
          → P q.registry
          → Ran Q q (start_found services dir now entry.file_name (found entry) q))
      → Ran Q s (start_entry services dir now entry s)
  unfolding start_entry
  start_entry-Ran P Q dir now entry s p h =
      bind-Ran P Q s _ _ (start_call-Ran P s p)
        (λ inspected a. bind-Ran P Q inspected _ _ (start_call-Ran P inspected a) h)
