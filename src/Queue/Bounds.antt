-- ===== src/Queue/Bounds.antt =====
-- The invariant of the queue: `depth` counts the entries held and never passes the capacity, so the
-- subtractions of `pop` and of shedding do not wrap.
use apolysis.Common.{ℕ, ◌≤◌, ◌<◌, ◌≡◌, List, ◌∷◌, arith, u64_mod}
use apolysis.Common.TreeMap.{get}
use apolysis.Queue.{
  priority_ord, QueuePriority, BoundedPriorityQueue, ordinary, enqueue, push, reject,
  increment_drop, pop, by_urgency, new,
}
use apolysis.Queue.Contents.{queued, size, size-enqueue}
use apolysis.Queue.Steps.{
  after_shedding, push_cases, pop_from_cases, size-taken, size-after_shedding,
}

module _ {ℓ} {T : Type ℓ} where
  pub record IsValid (q : BoundedPriorityQueue T) : Type 0 where
    pub counted : q.stats.depth ≡ size q
    pub bounded : q.stats.depth ≤ q.stats.capacity
    pub word : q.stats.capacity < u64_mod

  pub new-IsValid : (capacity : ℕ) → capacity < u64_mod → IsValid (new {T = T} capacity)
  unfolding new get
  new-IsValid capacity h = omega arith

  enqueue-IsValid :
      (p : QueuePriority) (v : T) (q : BoundedPriorityQueue T)
      → IsValid q
      → q.stats.depth < q.stats.capacity
      → IsValid (enqueue p v q)
  unfolding enqueue
  enqueue-IsValid p v q i room = record {
    counted = omega (arith, size-enqueue p v q, i.counted, i.bounded, i.word);
    bounded = omega (arith, i.bounded, i.word);
    word = i.word;
  }

  after_shedding-IsValid :
      (q : BoundedPriorityQueue T) (x : T) (xs : List T)
      → IsValid q
      → queued ordinary q ≡ x ∷ xs
      → IsValid (after_shedding q) × ((after_shedding q).stats.depth < q.stats.capacity)
  unfolding increment_drop
  after_shedding-IsValid q x xs i e = (
    record {
      counted = omega (arith, size-after_shedding q x xs e, i.counted, i.bounded, i.word);
      bounded = omega (arith, size-after_shedding q x xs e, i.counted, i.bounded, i.word);
      word = i.word;
    },
    omega (arith, size-after_shedding q x xs e, i.counted, i.bounded, i.word),
  )

  -- Where the depth is the number of entries held and at most the capacity, a 64-bit number, it
  -- is so after a push.
  pub push-IsValid :
      (p : QueuePriority) (v : T) (q : BoundedPriorityQueue T) → IsValid q → IsValid (push p v q).0
  unfolding increment_drop reject
  push-IsValid p v q i =
      push_cases (λ q' _. IsValid q') p v q (enqueue-IsValid p v q i)
        (λ x xs full n e.
          let (j, room) = after_shedding-IsValid q x xs i e in
          enqueue-IsValid p v (after_shedding q) j room)
        (λ full why. record { counted = i.counted; bounded = i.bounded; word = i.word })

  -- Where the depth is the number of entries held and at most the capacity, a 64-bit number, it
  -- is so after a pop.
  pub pop-IsValid : (q : BoundedPriorityQueue T) → IsValid q → IsValid (pop q).0
  unfolding pop
  pop-IsValid q i =
      pop_from_cases (λ q' _. IsValid q') by_urgency q i
        (λ p x xs e. record {
          counted = omega (arith, size-taken p q x xs e, i.counted, i.bounded, i.word);
          bounded = omega (arith, size-taken p q x xs e, i.counted, i.bounded, i.word);
          word = i.word;
        })
