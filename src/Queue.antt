-- ===== src/Queue.antt =====
-- crates/apolysis-accountability/src/queue.rs: the bounded queue with five priorities, which sheds
-- ordinary entries to make room for the others. `BTreeMap<QueuePriority, VecDeque<T>>` is a TreeMap
-- of lists, the front of the deque first. The counters wrap as `u64` and `usize` do in a release
-- build.
pub mod Contents
pub mod Steps
pub mod Bounds
pub mod Priority
pub mod Accounting
mod Examples
use apolysis.Common.{
  ℕ, ◌≡◌, ◌≢◌, refl, Bool, true, false, not, ◌&&◌, Option, none, some, List, [], ◌∷◌, ◌++◌, arith,
  ltb, ◌==◌, if◌then◌else◌, is_some, unwrap_or, add64, sub64,
}
use apolysis.Common.Ordered.{Ord, same, by_rank}
use apolysis.Common.TreeMap
use apolysis.Common.TreeMap.{TreeMap}

pub data QueuePriority : Type 0 where
  ordinary lifecycle diagnostic finding integrity : QueuePriority

abbrev pub rank : QueuePriority → ℕ
rank ordinary = 0
rank lifecycle = 1
rank diagnostic = 2
rank finding = 3
rank integrity = 4

pub rank_injective : (a b : QueuePriority) → rank a ≡ rank b → a ≡ b
rank_injective a b h = ground arith

instance abbrev pub priority_ord : Ord QueuePriority
priority_ord = by_rank rank rank_injective

abbrev pub by_urgency : List QueuePriority
by_urgency = integrity ∷ finding ∷ diagnostic ∷ lifecycle ∷ ordinary ∷ []

pub data PushOutcome : Type 0 where
  accepted : PushOutcome
  accepted_after_shedding : QueuePriority → PushOutcome
  dropped : QueuePriority → PushOutcome

pub record QueueStats : Type 0 where
  pub capacity : ℕ
  pub depth : ℕ
  pub accepted_count : ℕ
  pub drops : TreeMap QueuePriority ℕ

abbrev pub new_stats : ℕ → QueueStats
new_stats capacity = record { capacity = capacity; depth = 0; accepted_count = 0; drops = [] }

unfoldable pub dropped_count : QueueStats → QueuePriority → ℕ
dropped_count s p = unwrap_or (TreeMap.get p s.drops) 0

unfoldable pub increment_drop : QueuePriority → QueueStats → QueueStats
increment_drop p s = record s {
  drops = TreeMap.insert p (add64 (unwrap_or (TreeMap.get p s.drops) 0) 1) s.drops;
}

-- The builders of a statistics value.
unfoldable pub with_depth : QueueStats → ℕ → QueueStats
with_depth s depth = record s { depth = depth }

unfoldable pub with_accepted : QueueStats → ℕ → QueueStats
with_accepted s n = record s { accepted_count = n }

unfoldable pub with_drop : QueueStats → QueuePriority → QueueStats
with_drop s p = increment_drop p s

pub record BoundedPriorityQueue {ℓ} (T : Type ℓ) : Type ℓ where
  pub queues : TreeMap QueuePriority (List T)
  pub stats : QueueStats

module _ {ℓ} {T : Type ℓ} where
  unfoldable pub new : ℕ → BoundedPriorityQueue T
  new capacity = record { queues = []; stats = new_stats capacity }

  -- `entry(p).or_default()` read as a list.
  abbrev pub deque : QueuePriority → TreeMap QueuePriority (List T) → List T
  deque p m = unwrap_or (TreeMap.get p m) []

  unfoldable pub enqueue : QueuePriority → T → BoundedPriorityQueue T → BoundedPriorityQueue T
  enqueue p value q = record {
    queues = TreeMap.insert p (deque p q.queues ++ value ∷ []) q.queues;
    stats = record stats {
      depth = add64 stats.depth 1;
      accepted_count = add64 stats.accepted_count 1;
    };
  }
    where
      open q use {stats}

  abbrev pub front : List T → Option T
  front [] = none
  front (x ∷ xs) = some x

  abbrev pub rest : List T → List T
  rest [] = []
  rest (x ∷ xs) = xs

  -- `queues.get_mut(&p).and_then(VecDeque::pop_front)`: the value, and the queues without it.
  unfoldable pub pop_front :
      QueuePriority → TreeMap QueuePriority (List T) → Option T × TreeMap QueuePriority (List T)
  pop_front p m = (front (deque p m), TreeMap.modify p rest m)

  unfoldable pub shed_oldest_ordinary : BoundedPriorityQueue T → BoundedPriorityQueue T × Bool
  unfolding pop_front
  shed_oldest_ordinary q =
      let (value, queues) = pop_front ordinary q.queues in
      if is_some value
      then (
        record { queues = queues; stats = record (q.stats) { depth = sub64 q.stats.depth 1 } },
        true,
      )
      else (record q { queues = queues }, false)

  unfoldable pub reject :
      QueuePriority → BoundedPriorityQueue T → BoundedPriorityQueue T × PushOutcome
  reject p q = (record q { stats = increment_drop p q.stats }, dropped p)

  unfoldable pub push :
      QueuePriority → T → BoundedPriorityQueue T → BoundedPriorityQueue T × PushOutcome
  push p value q =
      if ltb q.stats.depth q.stats.capacity
      then (enqueue p value q, accepted)
      else if same p ordinary
      then reject p q
      else let (shed, freed) = shed_oldest_ordinary q in
        if freed
        then (
          enqueue p value (record shed { stats = increment_drop ordinary shed.stats }),
          accepted_after_shedding ordinary,
        )
        else reject p shed

  -- The loop of `pop` over the priorities, highest first.
  unfoldable pub pop_from :
      List QueuePriority → BoundedPriorityQueue T → BoundedPriorityQueue T × Option T
  pop_from [] q = (q, none)
  pop_from (p ∷ ps) q =
      let (value, queues) = pop_front p q.queues in
      let later = pop_from ps (record q { queues = queues }) in
      elim value [
        | some x ↦ (
          record { queues = queues; stats = record (q.stats) { depth = sub64 q.stats.depth 1 } },
          some x,
        )
        | none ↦ later
      ]

  unfoldable pub pop : BoundedPriorityQueue T → BoundedPriorityQueue T × Option T
  pop q = pop_from by_urgency q

  unfoldable pub len : BoundedPriorityQueue T → ℕ
  len q = q.stats.depth

  unfoldable pub is_empty : BoundedPriorityQueue T → Bool
  is_empty q = q.stats.depth == 0
