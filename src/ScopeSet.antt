-- ===== src/ScopeSet.antt =====
-- crates/apolysis-observer/src/scope.rs: the bounded set of cgroups that the observer tracks. A
-- `BTreeSet` is a TreeMap into the unit.
pub mod Behaviour
mod Examples
use apolysis.Common.{
  ℕ, ◌≡◌, Bool, true, false, Option, none, some, List, [], leb, ◌==◌, if◌then◌else◌, Result, ok,
  err, length, is_some,
}
use apolysis.Common.Ordered.{number_ord}
use apolysis.Common.TreeMap
use apolysis.Common.TreeMap.{TreeMap, contains_key, keys}

abbrev pub max_tracked_cgroups : ℕ
max_tracked_cgroups = 16_384

pub data ScopeSetError : Type 0 where
  invalid_cgroup_id : ScopeSetError
  capacity_reached : ℕ → ScopeSetError

pub record ScopeSet : Type 0 where
  pub capacity : ℕ
  pub cgroup_ids : TreeMap ℕ (Unit {0})

unfoldable pub with_capacity : ℕ → ScopeSet
with_capacity capacity = record { capacity = capacity; cgroup_ids = [] }

unfoldable pub new : ScopeSet
unfolding with_capacity
new = with_capacity max_tracked_cgroups

unfoldable pub insert : ℕ → ScopeSet → ScopeSet × Result Bool ScopeSetError
insert cgroup s =
    if cgroup == 0
    then (s, err invalid_cgroup_id)
    else if contains_key cgroup s.cgroup_ids
    then (s, ok false)
    else if leb s.capacity (length s.cgroup_ids)
    then (s, err (capacity_reached s.capacity))
    else (record s { cgroup_ids = TreeMap.insert cgroup tt s.cgroup_ids }, ok true)

unfoldable pub remove : ℕ → ScopeSet → ScopeSet × Bool
remove cgroup s =
    (record s { cgroup_ids = TreeMap.remove cgroup s.cgroup_ids }, contains_key cgroup s.cgroup_ids)

unfoldable pub contains : ℕ → ScopeSet → Bool
contains cgroup s = contains_key cgroup s.cgroup_ids

unfoldable pub len : ScopeSet → ℕ
len s = length s.cgroup_ids

unfoldable pub is_empty : ScopeSet → Bool
is_empty s = length s.cgroup_ids == 0

unfoldable pub iter : ScopeSet → List ℕ
iter s = keys s.cgroup_ids
