-- ===== src/ScopeSet/Examples.antt =====
-- The set of scopes on small inputs.
use apolysis.Common.{◌≡◌, refl, [], ◌∷◌, err}
use apolysis.Common.TreeMap
use apolysis.ScopeSet.{ScopeSet, with_capacity, insert, capacity_reached}
use apolysis.ScopeSet.Behaviour.{IsValid, track, untrack, serve, serve-with_capacity-IsValid}

abbrev one : ScopeSet
one = (insert 5 (with_capacity 1)).0

insert-full : (insert 6 one).1 ≡ err (capacity_reached 1)
unfolding insert with_capacity TreeMap.get TreeMap.insert
insert-full = refl

serve-with_capacity-IsValid_example :
    IsValid (serve (track 5 ∷ track 6 ∷ untrack 5 ∷ []) (with_capacity 1))
serve-with_capacity-IsValid_example =
    serve-with_capacity-IsValid 1 (track 5 ∷ track 6 ∷ untrack 5 ∷ [])
