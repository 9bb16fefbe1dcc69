-- ===== src/Queue/Examples.antt =====
-- The queue on small inputs.
use apolysis.Common.{ℕ, ◌≡◌, refl, List, [], ◌∷◌, some, arith}
use apolysis.Common.TreeMap.{get, insert, modify}
use apolysis.Queue.{
  BoundedPriorityQueue, ordinary, lifecycle, integrity, priority_ord, accepted_after_shedding,
  dropped, new, push, pop, enqueue, reject, shed_oldest_ordinary, pop_front, pop_from,
  increment_drop,
}
use apolysis.Queue.Bounds.{IsValid, new-IsValid, push-IsValid}
use apolysis.Queue.Priority.{Pushed, Popped, push_effect, pop_effect}
use apolysis.Queue.Accounting.{Call, pushes, pops, run, opened, Balances, run-Balances}

-- A queue for two entries, after one ordinary entry and one of the lifecycle.
abbrev full : BoundedPriorityQueue ℕ
full = (push lifecycle 20 (push ordinary 10 (new 2)).0).0

full-IsValid : IsValid full
full-IsValid =
    push-IsValid lifecycle 20 _ (push-IsValid ordinary 10 (new 2) (new-IsValid 2 (omega arith)))

push-full : (push integrity 30 full).1 ≡ accepted_after_shedding ordinary
unfolding push new enqueue reject shed_oldest_ordinary pop_front increment_drop get insert modify
push-full = refl

push-full_ordinary : (push ordinary 30 full).1 ≡ dropped ordinary
unfolding push new enqueue reject get insert
push-full_ordinary = refl

pop-full : (pop full).1 ≡ some 20
unfolding pop pop_from pop_front push new enqueue get insert modify
pop-full = refl

push_effect_example : Pushed integrity 30 full (push integrity 30 full).0 (push integrity 30 full).1
push_effect_example = push_effect integrity 30 full

pop_effect_example : Popped full (pop full).0 (pop full).1
pop_effect_example = pop_effect full

abbrev calls : List (Call ℕ)
calls = pushes ordinary 1 ∷ pushes integrity 2 ∷ pushes lifecycle 3 ∷ pops ∷ []

run-Balances_example : Balances (run calls (opened 2))
run-Balances_example = run-Balances 2 calls (omega arith)
