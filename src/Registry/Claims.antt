-- ===== src/Registry/Claims.antt =====
-- Who owns a tracked cgroup: the session that the index names is active and lists the cgroup, or it
-- is not registered and the cgroup waits for it.
use apolysis.Common.{
  ℕ, ◌≡◌, List, [], ◌∷◌, ◌++◌, Option, none, some, any-append, contains-sort, contains, Bool, true,
  ◌&&◌, ◌||◌, arith, ◌==◌, ==_iff, unwrap_or,
}
use apolysis.Common.Ordered.{bytes_ord, number_ord, same, same_iff}
use apolysis.Common.Text.{Text}
use apolysis.Common.TreeMap
use apolysis.Common.TreeMap.{
  TreeMap, remove_all, get-insert, get-remove, get-modify, get-remove_all, map_option,
}
use apolysis.Registry.{SessionRegistry, SessionState, active, is_active, new, attach, add_cgroup}

-- A session's claim to a cgroup: by an active registration, or by waiting for one.
abbrev pub claims : Option SessionState → Option (List ℕ) → ℕ → Bool
claims none waiting c = contains (unwrap_or waiting []) c
claims (some s) waiting c = is_active s.status && contains s.cgroup_ids c

abbrev pub holds : Text → ℕ → SessionRegistry → Bool
holds k c r = claims (TreeMap.get k r.sessions) (TreeMap.get k r.pending) c

-- Every entry of the index is backed by a claim of the session that it names.
pub record IsOwned (r : SessionRegistry) : Type 0 where
  pub backed : (c : ℕ) (k : Text) → TreeMap.get c r.cgroup_index ≡ some k → holds k c r ≡ true

pub new-IsOwned : (max_sessions max_pending : ℕ) → IsOwned (new max_sessions max_pending)
unfolding new TreeMap.get
new-IsOwned m n = record { backed = λ c k e. cc }

-- While a registration adopts cgroups, those of `session` in `rest` are still on their way.
abbrev pub OwnedBut : Text → List ℕ → SessionRegistry → Type 0
OwnedBut session rest r =
    (c : ℕ) (k : Text)
    → TreeMap.get c r.cgroup_index ≡ some k
    → (holds k c r || (same k session && contains rest c)) ≡ true

-- A session is registered and active.
abbrev pub IsLive : Text → SessionRegistry → Type 0
IsLive k r = (s : SessionState) × (TreeMap.get k r.sessions ≡ some s) × (s.status ≡ active)

pub contains-add :
    (s : SessionState) (c d : ℕ)
    → contains (add_cgroup c s).cgroup_ids d ≡ (contains s.cgroup_ids d || c == d)
contains-add s c d = ground (
  arith,
  contains-sort (s.cgroup_ids ++ c ∷ []) d,
  any-append (λ x. x == d) s.cgroup_ids (c ∷ []),
  ==_iff c d,
)

pub attach-OwnedBut :
    (session : Text) (c : ℕ) (rest : List ℕ) (r : SessionRegistry)
    → IsLive session r
    → OwnedBut session (c ∷ rest) r
    → OwnedBut session rest (attach session c r)
attach-OwnedBut session c rest r (s, e, a) o d k h = ground (
  arith,
  e,
  a,
  get-insert c d session r.cgroup_index,
  get-modify session k (add_cgroup c) r.sessions,
  contains-add s c d,
  same_iff k session,
  ==_iff c d,
  o d k,
)

pub attach-IsLive :
    (session : Text) (c : ℕ) (r : SessionRegistry)
    → IsLive session r
    → IsLive session (attach session c r)
attach-IsLive session c r (s, e, a) = (
  add_cgroup c s,
  ground (arith, e, get-modify session session (add_cgroup c) r.sessions, same_iff session session),
  a,
)
