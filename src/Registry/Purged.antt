-- ===== src/Registry/Purged.antt =====
-- What a purge leaves, seen from outside: the sessions that it reports are gone, and nothing has been
-- added.
use apolysis.Common.{
  ℕ, ◌≡◌, refl, List, [], ◌∷◌, none, some, any, true, arith, if◌then◌else◌, is_some, Option-cases,
  inl, inr, ◌∙◌,
}
use apolysis.Common.Ordered.{bytes_ord, number_ord, same, same_iff}
use apolysis.Common.Text.{Text}
use apolysis.Common.TreeMap
use apolysis.Common.TreeMap.{TreeMap, get-remove, get-remove_all}
use apolysis.Registry.{SessionRegistry}
use apolysis.Registry.Attaching.{Settled}
use apolysis.Registry.Retention.{purge, purge_all, apply_retention_for_tenant}

pub record Purged (purged : List Text) (r q : SessionRegistry) : Type 0 where
  pub sessions :
      (j : Text)
      → TreeMap.get j q.sessions ≡ (if any (same j) purged then none else TreeMap.get j r.sessions)
  pub found : (j : Text) → any (same j) purged ≡ true → is_some (TreeMap.get j r.sessions) ≡ true
  pub pending : q.pending ≡ r.pending
  pub index :
      (c : ℕ) (j : Text)
      → TreeMap.get c q.cgroup_index ≡ some j
      → TreeMap.get c r.cgroup_index ≡ some j

-- One turn of the purge.
purge-pending : (k : Text) (r : SessionRegistry) → (purge k r).pending ≡ r.pending
unfolding purge
purge-pending k r = ground arith

purge-index :
    (k : Text) (r : SessionRegistry) (c : ℕ) (j : Text)
    → TreeMap.get c (purge k r).cgroup_index ≡ some j
    → TreeMap.get c r.cgroup_index ≡ some j
unfolding purge
purge-index k r c j h = elim (Option-cases (TreeMap.get k r.sessions)) [
  | inl e ↦ ground (arith, e, h)
  | inr (s, e) ↦ ground (arith, e, h, get-remove_all s.cgroup_ids c r.cgroup_index)
]

purge-sessions :
    (k j : Text) (r : SessionRegistry)
    → TreeMap.get j (purge k r).sessions ≡ (if same j k then none else TreeMap.get j r.sessions)
unfolding purge
purge-sessions k j r = ground (arith, get-remove k j r.sessions, same_iff j k)

purge_all-Purged :
    (ks : List Text) (r : SessionRegistry) → Purged (purge_all ks r).1 r (purge_all ks r).0
unfolding purge_all
purge_all-Purged [] r = record {
  sessions = λ j. refl;
  found = λ j h. cc;
  pending = refl;
  index = λ c j h. h;
}
purge_all-Purged (k ∷ ks) r =
    let later = purge_all-Purged ks (purge k r) in
    record {
      sessions = λ j. ground (arith, later.sessions j, purge-sessions k j r, same_iff j k);
      found = λ j h. ground (arith, h, later.found j, purge-sessions k j r, same_iff j k);
      pending = later.pending ∙ purge-pending k r;
      index = λ c j h. purge-index k r c j (later.index c j h);
    }

pub retention-Purged :
    (tenant : Text) (now : ℕ) (r : SessionRegistry)
    → let x = apply_retention_for_tenant tenant now r in Purged x.1.purged_session_ids r x.0
unfolding apply_retention_for_tenant
retention-Purged tenant now r = purge_all-Purged _ r

pub Purged-Settled :
    (ks : List Text) (r q : SessionRegistry) → Purged ks r q → Settled r → Settled q
Purged-Settled ks r q p settled k s h = ground (arith, p.pending, h, p.sessions k, settled k s)
