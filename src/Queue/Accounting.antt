-- ===== src/Queue/Accounting.antt =====
-- Every entry offered to the queue is held, was served, or stands in a drop counter.
use apolysis.Common.{
  ℕ, suc, ◌+◌, ◌≤◌, ◌<◌, ◌≡◌, List, [], ◌∷◌, Option, none, some, arith, length, u64_mod, refl,
  if◌then◌else◌, add64, sub64, unwrap_or,
}
use apolysis.Common.Ordered.{same}
use apolysis.Common.TreeMap.{TreeMap, get, insert, get-insert}
use apolysis.Queue.{
  priority_ord, QueuePriority, QueueStats, BoundedPriorityQueue, ordinary, lifecycle, diagnostic,
  finding, integrity, enqueue, push, reject, increment_drop, pop, by_urgency, new, dropped_count,
}
use apolysis.Queue.Contents.{size, size-enqueue}
use apolysis.Queue.Steps.{
  after_shedding, push_cases, pop_from_cases, size-taken, size-after_shedding,
}

abbrev counter : QueuePriority → TreeMap QueuePriority ℕ → ℕ
counter p m = unwrap_or (get p m) 0

counter-insert :
    (p j : QueuePriority) (n : ℕ) (m : TreeMap QueuePriority ℕ)
    → counter j (insert p n m) ≡ (if same j p then n else counter j m)
counter-insert p j n m = ground (arith, get-insert p j n m)

-- All entries dropped so far: the sum of the counters.
sum_counters : TreeMap QueuePriority ℕ → ℕ
sum_counters m =
    counter integrity m
    + counter finding m
    + counter diagnostic m
    + counter lifecycle m
    + counter ordinary m

pub total_drops : QueueStats → ℕ
total_drops s = sum_counters s.drops

-- It is the sum of what `dropped` reports for the five priorities.
pub total_drops_lem :
    (s : QueueStats)
    → total_drops s
      ≡ dropped_count s integrity
        + dropped_count s finding
        + dropped_count s diagnostic
        + dropped_count s lifecycle
        + dropped_count s ordinary
unfolding total_drops sum_counters dropped_count
total_drops_lem s = refl

-- A counted drop adds one.
total_drops-increment_drop :
    (p : QueuePriority) (s : QueueStats)
    → total_drops s + 1 < u64_mod
    → total_drops (increment_drop p s) ≡ suc (total_drops s)
unfolding total_drops increment_drop sum_counters
total_drops-increment_drop p s h =
    let next = add64 (counter p s.drops) 1 in
    ground (
      arith,
      counter-insert p integrity next s.drops,
      counter-insert p finding next s.drops,
      counter-insert p diagnostic next s.drops,
      counter-insert p lifecycle next s.drops,
      counter-insert p ordinary next s.drops,
    )

-- The calls of a client, and the queue with what went in and out so far.
pub data Call {ℓ} (T : Type ℓ) : Type ℓ where
  pushes : QueuePriority → T → Call T
  pops : Call T

pub record Ledger {ℓ} (T : Type ℓ) : Type ℓ where
  pub queue : BoundedPriorityQueue T
  pub offered : ℕ
  pub served : ℕ

abbrev pub served_by {ℓ} : {A : Type ℓ} → Option A → ℕ
served_by none = 0
served_by (some x) = 1

module _ {ℓ} {T : Type ℓ} where
  pub call : Call T → Ledger T → Ledger T
  call (pushes p v) l = record l { queue = (push p v l.queue).0; offered = suc l.offered }
  call pops l = record l { queue = (pop l.queue).0; served = l.served + served_by (pop l.queue).1 }

  pub run : List (Call T) → Ledger T → Ledger T
  run [] l = l
  run (c ∷ cs) l = run cs (call c l)

  pub opened : ℕ → Ledger T
  opened capacity = record { queue = new capacity; offered = 0; served = 0 }

  abbrev pub Balances : Ledger T → Type 0
  Balances l = l.offered ≡ size l.queue + l.served + total_drops l.queue.stats

  total_drops-enqueue :
      (p : QueuePriority) (v : T) (q : BoundedPriorityQueue T)
      → total_drops (enqueue p v q).stats ≡ total_drops q.stats
  unfolding total_drops enqueue
  total_drops-enqueue p v q = refl

  total_drops-after_shedding :
      (q : BoundedPriorityQueue T)
      → total_drops q.stats + 1 < u64_mod
      → total_drops (after_shedding q).stats ≡ suc (total_drops q.stats)
  unfolding total_drops
  total_drops-after_shedding q h =
      total_drops-increment_drop ordinary (record (q.stats) { depth = sub64 q.stats.depth 1 }) h

  push_balance :
      (p : QueuePriority) (v : T) (q : BoundedPriorityQueue T)
      → total_drops q.stats + 1 < u64_mod
      → size (push p v q).0 + total_drops (push p v q).0.stats ≡ suc (size q + total_drops q.stats)
  push_balance p v q h =
      push_cases (λ q' _. size q' + total_drops q'.stats ≡ suc (size q + total_drops q.stats)) p v q
        (λ room. omega (arith, size-enqueue p v q, total_drops-enqueue p v q))
        (λ x xs full n e. omega (
          arith,
          size-enqueue p v (after_shedding q),
          total_drops-enqueue p v (after_shedding q),
          size-after_shedding q x xs e,
          total_drops-after_shedding q h,
        ))
        (λ full why. unfold reject in (omega (arith, total_drops-increment_drop p q.stats h)))

  pop_balance :
      (q : BoundedPriorityQueue T)
      → size q + total_drops q.stats
        ≡ size (pop q).0 + served_by (pop q).1 + total_drops (pop q).0.stats
  unfolding pop
  pop_balance q =
      pop_from_cases
        (λ q' r. size q + total_drops q.stats ≡ size q' + served_by r + total_drops q'.stats)
        by_urgency q (omega arith)
        (λ p x xs e. unfold total_drops in (omega (arith, size-taken p q x xs e)))

  call-Balances :
      (c : Call T) (l : Ledger T)
      → l.offered + 1 < u64_mod
      → Balances l
      → Balances (call c l) × ((call c l).offered ≤ suc l.offered)
  unfolding call
  call-Balances (pushes p v) l h b =
      (omega (arith, push_balance p v l.queue (omega arith)), omega arith)
  call-Balances pops l h b = (omega (arith, pop_balance l.queue), omega arith)

  run-Balances_from :
      (cs : List (Call T)) (l : Ledger T)
      → l.offered + length cs < u64_mod
      → Balances l
      → Balances (run cs l)
  unfolding run
  run-Balances_from [] l h b = b
  run-Balances_from (c ∷ cs) l h b =
      let (kept, grown) = call-Balances c l (omega arith) b in
      run-Balances_from cs (call c l) (omega arith) kept

  -- After fewer than 2^64 calls on a new queue, the number of values offered is the number held,
  -- served and counted in the drop counters together.
  pub run-Balances :
      (capacity : ℕ) (cs : List (Call T))
      → length cs < u64_mod
      → Balances (run cs (opened capacity))
  run-Balances capacity cs h =
      run-Balances_from cs (opened capacity) (unfold opened in (omega arith))
        (unfold opened new get total_drops sum_counters in refl)
