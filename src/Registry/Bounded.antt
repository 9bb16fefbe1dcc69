-- ===== src/Registry/Bounded.antt =====
-- The bounds of the registry and the changes that its calls are made of: each keeps the limits, the
-- count of the waiting cgroups, so that its subtraction does not wrap, and the order of the maps.
use apolysis.Common.{
  inl, inr, ℕ, ◌≤◌, ◌<◌, ◌≡◌, List, [], ◌∷◌, some, length, u64_mod, arith, sub64, Option-cases,
}
use apolysis.Common.Ordered.{bytes_ord, number_ord}
use apolysis.Common.Text.{Text}
use apolysis.Common.TreeMap
use apolysis.Common.TreeMap.{TreeMap, remove_all, length-insert, length-remove, length-modify}
use apolysis.Common.TreeMap.Sorted.{IsSorted, insert-IsSorted, remove-IsSorted, modify-IsSorted}
use apolysis.Common.TreeMap.Weight.{weight, weight-remove}
use apolysis.Registry.{
  SessionRegistry, SessionState, new, attach_known_cgroup, attach_all, adopt_pending, add_cgroup,
}

pub record IsBounded (r : SessionRegistry) : Type 0 where
  pub within : length r.sessions ≤ r.max_sessions
  pub counted : r.pending_count ≡ weight length r.pending
  pub bounded : r.pending_count ≤ r.max_pending
  pub word : r.max_pending < u64_mod
  pub sessions_sorted : IsSorted r.sessions
  pub index_sorted : IsSorted r.cgroup_index
  pub pending_sorted : IsSorted r.pending

pub new-IsBounded :
    (max_sessions max_pending : ℕ)
    → max_pending < u64_mod
    → IsBounded (new max_sessions max_pending)
unfolding new weight
new-IsBounded m n h = omega arith

-- The changes that the calls are made of.
pub modify_session-IsBounded :
    (k : Text) (f : SessionState → SessionState) (r : SessionRegistry)
    → IsBounded r
    → IsBounded (record r { sessions = TreeMap.modify k f r.sessions })
modify_session-IsBounded k f r b = record {
  within = omega (arith, length-modify k f r.sessions, b.within);
  counted = b.counted;
  bounded = b.bounded;
  word = b.word;
  sessions_sorted = modify-IsSorted k f r.sessions b.sessions_sorted;
  index_sorted = b.index_sorted;
  pending_sorted = b.pending_sorted;
}

pub set_index-IsBounded :
    (index : TreeMap ℕ Text) (r : SessionRegistry)
    → IsSorted index
    → IsBounded r
    → IsBounded (record r { cgroup_index = index })
set_index-IsBounded index r s b = record {
  within = b.within;
  counted = b.counted;
  bounded = b.bounded;
  word = b.word;
  sessions_sorted = b.sessions_sorted;
  index_sorted = s;
  pending_sorted = b.pending_sorted;
}

pub attach_known_cgroup-IsBounded :
    (k : Text) (c : ℕ) (r : SessionRegistry) → IsBounded r → IsBounded (attach_known_cgroup k c r).0
unfolding attach_known_cgroup
attach_known_cgroup-IsBounded k c r b = ground (
  arith,
  b,
  set_index-IsBounded (TreeMap.insert c k r.cgroup_index)
      (record r { sessions = TreeMap.modify k (add_cgroup c) r.sessions })
      (insert-IsSorted c k r.cgroup_index b.index_sorted)
      (modify_session-IsBounded k (add_cgroup c) r b),
)

pub attach_all-IsBounded :
    (k : Text) (cs : List ℕ) (r : SessionRegistry) → IsBounded r → IsBounded (attach_all k cs r).0
unfolding attach_all
attach_all-IsBounded k [] r b = b
attach_all-IsBounded k (c ∷ cs) r b =
    let next = attach_known_cgroup-IsBounded k c r b in
    ground (arith, next, attach_all-IsBounded k cs (attach_known_cgroup k c r).0 next)

-- Taking the waiting cgroups of a session away subtracts exactly their number.
pub release_pending-IsBounded :
    (k : Text) (cs : List ℕ) (r : SessionRegistry)
    → TreeMap.get k r.pending ≡ some cs
    → IsBounded r
    → IsBounded (record r {
      pending = TreeMap.remove k r.pending;
      pending_count = sub64 r.pending_count (length cs);
    })
release_pending-IsBounded k cs r e b =
    let left = weight-remove length k r.pending b.pending_sorted in
    let counts = rw e at left in
    record {
      within = b.within;
      counted = omega (arith, counts, b.counted, b.bounded, b.word);
      bounded = omega (arith, counts, b.counted, b.bounded, b.word);
      word = b.word;
      sessions_sorted = b.sessions_sorted;
      index_sorted = b.index_sorted;
      pending_sorted = remove-IsSorted k r.pending b.pending_sorted;
    }

pub adopt_pending-IsBounded :
    (k : Text) (r : SessionRegistry) → IsBounded r → IsBounded (adopt_pending k r).0
unfolding adopt_pending
adopt_pending-IsBounded k r b = elim (Option-cases (TreeMap.get k r.pending)) [
  | inl e ↦ rw (e, adopt_pending) b
  | inr (cs, e) ↦
      rw (e, adopt_pending) (attach_all-IsBounded k cs _ (release_pending-IsBounded k cs r e b))
]

pub insert_session-IsBounded :
    (k : Text) (s : SessionState) (r : SessionRegistry)
    → length r.sessions < r.max_sessions
    → IsBounded r
    → IsBounded (record r { sessions = TreeMap.insert k s r.sessions })
insert_session-IsBounded k s r room b = record {
  within = omega (arith, length-insert k s r.sessions);
  counted = b.counted;
  bounded = b.bounded;
  word = b.word;
  sessions_sorted = insert-IsSorted k s r.sessions b.sessions_sorted;
  index_sorted = b.index_sorted;
  pending_sorted = b.pending_sorted;
}
