-- ===== src/Registry/Purging.antt =====
-- What `apply_retention_for_tenant` deletes: exactly the sessions of the tenant that are over and
-- whose retention window has passed.
use apolysis.Common.{
  ◌↔◌, ℕ, ◌+◌, ◌≤◌, ◌<◌, ◌≡◌, ◌≢◌, refl, List, [], ◌∷◌, Option, none, some, any, Bool, true, false,
  ◌&&◌, ◌||◌, arith, if◌then◌else◌, is_some, u64_mod,
}
use apolysis.Common.Ordered.{bytes_ord, number_ord, same, same_iff}
use apolysis.Common.Text.{Text}
use apolysis.Common.TreeMap
use apolysis.Common.TreeMap.{TreeMap, get-remove}
use apolysis.Common.TreeMap.Sorted.{IsSorted, Above}
use apolysis.Intent.{retention_window_ms}
use apolysis.Registry.{
  SessionRegistry, SessionState, SessionStatus, active, degraded, expired, closed, is_active,
  select,
}
use apolysis.Registry.Retention.{
  get, is_of_tenant, is_terminal, retention_eligible, retention_purge_report_for_tenant, purge,
  purge_all, apply_retention_for_tenant,
}

-- The test of the report on a session.
abbrev pub is_purgeable : Text → ℕ → SessionState → Bool
is_purgeable tenant now s = is_of_tenant tenant s && retention_eligible s now

abbrev listed : Text → List Text → Bool
listed k ks = any (same k) ks

abbrev pub satisfies : (SessionState → Bool) → Option SessionState → Bool
satisfies p none = false
satisfies p (some s) = p s

select-Above :
    (p : SessionState → Bool) (k : Text) (m : TreeMap Text SessionState)
    → Above k m
    → listed k (select p m) ≡ false
select-Above p k [] u = refl
select-Above p k ((j, s) ∷ m) u = ground (arith, select-Above p k m u.1)

-- With each key once, the selected keys are those whose session passes the test.
listed-select :
    (p : SessionState → Bool) (k : Text) (m : TreeMap Text SessionState)
    → IsSorted m
    → listed k (select p m) ≡ satisfies p (TreeMap.get k m)
unfolding TreeMap.get
listed-select p k [] s = refl
listed-select p k ((j, v) ∷ m) s =
    ground (arith, listed-select p k m s.1, same_iff k j, select-Above p j m s.0)

-- No key is selected twice.
abbrev Distinct : List Text → Type 0
Distinct [] = Unit
Distinct (k ∷ ks) = (listed k ks ≡ false) × Distinct ks

select-Distinct :
    (p : SessionState → Bool) (m : TreeMap Text SessionState) → IsSorted m → Distinct (select p m)
select-Distinct p [] s = tt
select-Distinct p ((k, v) ∷ m) s = ground (arith, select-Above p k m s.0, select-Distinct p m s.1)

get-purge :
    (k j : Text) (r : SessionRegistry)
    → TreeMap.get j (purge k r).sessions ≡ (if same j k then none else TreeMap.get j r.sessions)
unfolding purge
get-purge k j r = ground (arith, get-remove k j r.sessions, same_iff j k)

get-purge_all :
    (ks : List Text) (j : Text) (r : SessionRegistry)
    → TreeMap.get j (purge_all ks r).0.sessions
      ≡ (if listed j ks then none else TreeMap.get j r.sessions)
unfolding purge_all
get-purge_all [] j r = refl
get-purge_all (k ∷ ks) j r = ground (arith, get-purge_all ks j (purge k r), get-purge k j r)

-- Where every key to purge is there and stands once, the purge reports them all.
AllFound : List Text → SessionRegistry → Type 0
AllFound ks r = (k : Text) → listed k ks ≡ true → is_some (TreeMap.get k r.sessions) ≡ true

purged_all :
    (ks : List Text) (r : SessionRegistry) → Distinct ks → AllFound ks r → (purge_all ks r).1 ≡ ks
unfolding purge_all AllFound
purged_all [] r d f = refl
purged_all (k ∷ ks) r d f = ground (
  arith,
  purged_all ks (purge k r) d.1
      (λ j h. ground (arith, f j (ground arith), get-purge k j r, same_iff j k, d.0, h)),
  f k (ground (arith, same_iff k k)),
)

-- With the sessions in order, applying retention for a tenant deletes exactly the sessions of
-- that tenant that are up for retention and leaves all others; it reports all that it selected
-- as deleted, which are those that a dry run lists.
pub apply_retention_exact :
    (tenant : Text) (now : ℕ) (r : SessionRegistry)
    → IsSorted r.sessions
    → let x = apply_retention_for_tenant tenant now r in
      ((k : Text)
        → get k x.0 ≡ (if satisfies (is_purgeable tenant now) (get k r) then none else get k r))
      × (x.1.purged_session_ids ≡ x.1.eligible_session_ids)
      × (x.1.eligible_session_ids
          ≡ (retention_purge_report_for_tenant tenant now true r).eligible_session_ids)
unfolding apply_retention_for_tenant retention_purge_report_for_tenant get
apply_retention_exact tenant now r s =
    let p = is_purgeable tenant now in
    (
      λ k. ground (arith, get-purge_all (select p r.sessions) k r, listed-select p k r.sessions s),
      purged_all (select p r.sessions) r (select-Distinct p r.sessions s)
          (unfold AllFound in (λ k h. ground (arith, listed-select p k r.sessions s, h))),
      refl,
    )

ended :
    (status : SessionStatus) (over late : Bool)
    → status ≢ degraded
    → over ≡ true
    → late ≡ true
    → ((is_terminal status || (is_active status && over)) && late) ≡ true
ended active over late n o l = ground arith
ended degraded over late n o l = absurd (n refl)
ended expired over late n o l = ground arith
ended closed over late n o l = ground arith

-- Before the last millisecond that a u64 holds, a session is up for retention exactly if it is
-- not degraded and the window of its tier has passed since its expiry.
pub retention_eligible_lem :
    (s : SessionState) (now : ℕ)
    → now + 1 < u64_mod
    → (retention_eligible s now ≡ true) ↔ (
        (s.status ≢ degraded)
        × (s.expires_at_unix_ms + retention_window_ms s.intent.retention_tier ≤ now))
unfolding retention_eligible
retention_eligible_lem s now h = (
  λ e. (λ d. ground (arith, e, d), ground (arith, e)),
  λ (n, w). ended s.status _ _ n (ground arith) (ground arith),
)
