-- ===== src/ScopeSet/Behaviour.antt =====
-- What `insert` and `remove` do to the set, and the bounds that they keep.
use apolysis.Common.{
  ℕ, ◌≤◌, ◌≡◌, refl, Bool, true, false, not, ◌&&◌, ◌||◌, List, [], ◌∷◌, arith, ltb, ◌==◌,
  if◌then◌else◌, Result, ok, err,
}
use apolysis.Common.Ordered.{number_ord}
use apolysis.Common.TreeMap
use apolysis.Common.TreeMap.{TreeMap, get-insert, get-remove, length-insert, length-remove}
use apolysis.Common.TreeMap.Sorted.{IsSorted, insert-IsSorted, remove-IsSorted}
use apolysis.ScopeSet.{
  ScopeSet, ScopeSetError, invalid_cgroup_id, capacity_reached, insert, remove, contains, len,
  with_capacity,
}

-- Within its capacity, in order, and without the id 0.
pub record IsValid (s : ScopeSet) : Type 0 where
  pub within : len s ≤ s.capacity
  pub nonzero : contains 0 s ≡ false
  pub sorted : IsSorted s.cgroup_ids

abbrev pub expected : ℕ → ScopeSet → Result Bool ScopeSetError
expected c s =
    if c == 0
    then err invalid_cgroup_id
    else if contains c s
    then ok false
    else if ltb (len s) s.capacity
    then ok true
    else err (capacity_reached s.capacity)

-- The result of an insertion follows from the id, its presence and the free room; the set gains
-- the id exactly if that result is true, and nothing else changes.
pub insert_effect :
    (c : ℕ) (s : ScopeSet)
    → ((insert c s).1 ≡ expected c s)
      × ((insert c s).0.capacity ≡ s.capacity)
      × ((j : ℕ)
          → contains j (insert c s).0
            ≡ (contains j s || (j == c && not (c == 0) && (ltb (len s) s.capacity))))
unfolding insert contains len
insert_effect c s =
    (ground arith, ground arith, λ j. ground (arith, get-insert c j tt s.cgroup_ids))

-- A removal takes out that id alone and says whether it was there.
pub remove_effect :
    (c : ℕ) (s : ScopeSet)
    → ((remove c s).1 ≡ contains c s)
      × ((j : ℕ) → contains j (remove c s).0 ≡ (contains j s && not (j == c)))
unfolding remove contains
remove_effect c s = (refl, λ j. ground (arith, get-remove c j s.cgroup_ids))

pub with_capacity-IsValid : (n : ℕ) → IsValid (with_capacity n)
unfolding with_capacity contains len TreeMap.get
with_capacity-IsValid n = record { within = omega arith; nonzero = refl; sorted = tt }

insert-IsValid : (c : ℕ) (s : ScopeSet) → IsValid s → IsValid (insert c s).0
unfolding insert contains len
insert-IsValid c s v = ground (
  arith,
  v,
  length-insert c tt s.cgroup_ids,
  get-insert c 0 tt s.cgroup_ids,
  insert-IsSorted c tt s.cgroup_ids v.sorted,
)

remove-IsValid : (c : ℕ) (s : ScopeSet) → IsValid s → IsValid (remove c s).0
unfolding remove contains len
remove-IsValid c s v = ground (
  arith,
  v,
  length-remove c s.cgroup_ids,
  get-remove c 0 s.cgroup_ids,
  remove-IsSorted c s.cgroup_ids v.sorted,
)

-- A request of the daemon to the observer.
pub data Request : Type 0 where
  track untrack : ℕ → Request

unfoldable pub serve : List Request → ScopeSet → ScopeSet
serve [] s = s
serve (track c ∷ rs) s = serve rs (insert c s).0
serve (untrack c ∷ rs) s = serve rs (remove c s).0

serve-IsValid : (rs : List Request) (s : ScopeSet) → IsValid s → IsValid (serve rs s)
unfolding serve
serve-IsValid [] s v = v
serve-IsValid (track c ∷ rs) s v = serve-IsValid rs _ (insert-IsValid c s v)
serve-IsValid (untrack c ∷ rs) s v = serve-IsValid rs _ (remove-IsValid c s v)

-- After any insertions and removals, a set of scopes holds no more ids than its capacity, not
-- the id 0, and is in order.
pub serve-with_capacity-IsValid : (n : ℕ) (rs : List Request) → IsValid (serve rs (with_capacity n))
serve-with_capacity-IsValid n rs = serve-IsValid rs _ (with_capacity-IsValid n)
