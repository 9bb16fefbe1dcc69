-- ===== src/Queue/Contents.antt =====
-- The queue seen as five lists, one for each priority: what each step does to them.
use apolysis.Common.{
  ℕ, suc, ◌+◌, ◌≡◌, List, [], ◌∷◌, ◌++◌, arith, length, if◌then◌else◌, length-append,
}
use apolysis.Common.Ordered.{same}
use apolysis.Common.TreeMap.{TreeMap, insert, get-insert, get-modify}
use apolysis.Queue.{
  priority_ord, QueuePriority, BoundedPriorityQueue, ordinary, lifecycle, diagnostic, finding,
  integrity, deque, enqueue, pop_front, rest,
}

module _ {ℓ} {T : Type ℓ} where
  abbrev pub queued : QueuePriority → BoundedPriorityQueue T → List T
  queued p q = deque p q.queues

  -- The number of entries held.
  abbrev pub size : BoundedPriorityQueue T → ℕ
  size q =
      length (queued integrity q)
      + length (queued finding q)
      + length (queued diagnostic q)
      + length (queued lifecycle q)
      + length (queued ordinary q)

  pub deque-insert :
      (p j : QueuePriority) (xs : List T) (m : TreeMap QueuePriority (List T))
      → deque j (insert p xs m) ≡ (if same j p then xs else deque j m)
  deque-insert p j xs m = ground (arith, get-insert p j xs m)

  -- Removing the front entry touches one list.
  pub deque-pop_front :
      (p j : QueuePriority) (m : TreeMap QueuePriority (List T))
      → deque j (pop_front p m).1 ≡ (if same j p then rest (deque j m) else deque j m)
  unfolding pop_front
  deque-pop_front p j m = ground (arith, get-modify p j rest m)

  pub queued-enqueue :
      (p j : QueuePriority) (v : T) (q : BoundedPriorityQueue T)
      → queued j (enqueue p v q) ≡ (if same j p then queued p q ++ v ∷ [] else queued j q)
  unfolding enqueue
  queued-enqueue p j v q = deque-insert p j (deque p q.queues ++ v ∷ []) q.queues

  -- One more entry is held.
  pub size-enqueue :
      (p : QueuePriority) (v : T) (q : BoundedPriorityQueue T) → size (enqueue p v q) ≡ suc (size q)
  size-enqueue p v q = ground (
    arith,
    queued-enqueue p integrity v q,
    queued-enqueue p finding v q,
    queued-enqueue p diagnostic v q,
    queued-enqueue p lifecycle v q,
    queued-enqueue p ordinary v q,
    length-append (queued p q) (v ∷ []),
  )
