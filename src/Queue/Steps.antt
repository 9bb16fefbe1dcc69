-- ===== src/Queue/Steps.antt =====
-- `push` and `pop_from` as equations, one for each path through them.
use native.Mathlib.Decide.{dec_lt}
use apolysis.Common.{
  ◌⊎◌, inl, inr, Option, none, suc, if◌then◌else◌, ◌≤◌, ◌<◌, ◌≡◌, ◌≢◌, refl, some, List, [], ◌∷◌,
  arith, sub64,
}
use apolysis.Common.Ordered.{same, same_iff}
use apolysis.Common.TreeMap.{TreeMap, get, modify, get-modify}
use apolysis.Queue.{
  priority_ord, QueuePriority, BoundedPriorityQueue, lifecycle, diagnostic, finding, integrity,
  accepted, PushOutcome, accepted_after_shedding, ordinary, deque, enqueue, pop_front, rest, push,
  reject, shed_oldest_ordinary, increment_drop, pop_from,
}
use apolysis.Queue.Contents.{queued, size}

module _ {ℓ} {T : Type ℓ} where
  pub modify-rest :
      (p : QueuePriority) (m : TreeMap QueuePriority (List T))
      → deque p m ≡ []
      → modify p rest m ≡ m
  unfolding modify get
  modify-rest p [] e = refl
  modify-rest p ((j, []) ∷ m) e = ground (arith, modify-rest p m)
  modify-rest p ((j, x ∷ xs) ∷ m) e = ground (arith, modify-rest p m)

  -- The queue after its front entry of one priority is taken.
  abbrev pub taken : QueuePriority → BoundedPriorityQueue T → BoundedPriorityQueue T
  taken p q = record {
    queues = modify p rest q.queues;
    stats = record (q.stats) { depth = sub64 q.stats.depth 1 };
  }

  abbrev pub after_shedding : BoundedPriorityQueue T → BoundedPriorityQueue T
  after_shedding q = record {
    queues = modify ordinary rest q.queues;
    stats = increment_drop ordinary (record (q.stats) { depth = sub64 q.stats.depth 1 });
  }

  pub push_room :
      (p : QueuePriority) (v : T) (q : BoundedPriorityQueue T)
      → q.stats.depth < q.stats.capacity
      → push p v q ≡ (enqueue p v q, accepted)
  unfolding push
  push_room p v q h = ground arith

  pub push_shedding :
      (p : QueuePriority) (v : T) (q : BoundedPriorityQueue T) (x : T) (xs : List T)
      → q.stats.capacity ≤ q.stats.depth
      → p ≢ ordinary
      → queued ordinary q ≡ x ∷ xs
      → push p v q ≡ (enqueue p v (after_shedding q), accepted_after_shedding ordinary)
  unfolding push shed_oldest_ordinary pop_front
  push_shedding p v q x xs full n e = ground (arith, same_iff p ordinary)

  pub push_ordinary :
      (v : T) (q : BoundedPriorityQueue T)
      → q.stats.capacity ≤ q.stats.depth
      → push ordinary v q ≡ reject ordinary q
  unfolding push
  push_ordinary v q full = ground arith

  pub push_rejected :
      (p : QueuePriority) (v : T) (q : BoundedPriorityQueue T)
      → q.stats.capacity ≤ q.stats.depth
      → queued ordinary q ≡ []
      → push p v q ≡ reject p q
  unfolding push shed_oldest_ordinary pop_front
  push_rejected p v q full e = ground (arith, modify-rest ordinary q.queues e)

  pub pop_from_hit :
      (p : QueuePriority) (ps : List QueuePriority) (q : BoundedPriorityQueue T) (x : T)
      (xs : List T)
      → queued p q ≡ x ∷ xs
      → pop_from (p ∷ ps) q ≡ (taken p q, some x)
  unfolding pop_from pop_front
  pop_from_hit p ps q x xs e = ground arith

  pub pop_from_miss :
      (p : QueuePriority) (ps : List QueuePriority) (q : BoundedPriorityQueue T)
      → queued p q ≡ []
      → pop_from (p ∷ ps) q ≡ pop_from ps q
  unfolding pop_from pop_front
  pop_from_miss p ps q e = ground (arith, modify-rest p q.queues e)

  pub queued-after_shedding :
      (j : QueuePriority) (q : BoundedPriorityQueue T)
      → queued j (after_shedding q) ≡ (if same j ordinary then rest (queued j q) else queued j q)
  queued-after_shedding j q = ground (arith, get-modify ordinary j rest q.queues)

  pub queued-taken :
      (p j : QueuePriority) (q : BoundedPriorityQueue T)
      → queued j (taken p q) ≡ (if same j p then rest (queued j q) else queued j q)
  queued-taken p j q = ground (arith, get-modify p j rest q.queues)

  -- One entry fewer is held.
  pub size-taken :
      (p : QueuePriority) (q : BoundedPriorityQueue T) (x : T) (xs : List T)
      → queued p q ≡ x ∷ xs
      → size q ≡ suc (size (taken p q))
  size-taken p q x xs e = ground (
    arith,
    queued-taken p integrity q,
    queued-taken p finding q,
    queued-taken p diagnostic q,
    queued-taken p lifecycle q,
    queued-taken p ordinary q,
  )

  pub size-after_shedding :
      (q : BoundedPriorityQueue T) (x : T) (xs : List T)
      → queued ordinary q ≡ x ∷ xs
      → size q ≡ suc (size (after_shedding q))
  size-after_shedding q x xs e = size-taken ordinary q x xs e

module _ {ℓ κ} {T : Type ℓ} (P : BoundedPriorityQueue T → PushOutcome → Type κ) where
  push_full :
      (p : QueuePriority) (v : T) (q : BoundedPriorityQueue T) (xs : List T)
      → queued ordinary q ≡ xs
      → q.stats.capacity ≤ q.stats.depth
      → p ≢ ordinary
      → ((x : T)
          → queued ordinary q ≡ x ∷ rest xs
          → P (enqueue p v (after_shedding q)) (accepted_after_shedding ordinary))
      → (queued ordinary q ≡ [] → P (reject p q).0 (reject p q).1)
      → P (push p v q).0 (push p v q).1
  push_full p v q [] e full n sheds rejects = rw (push_rejected p v q full e) (rejects e)
  push_full p v q (x ∷ xs) e full n sheds rejects =
      rw (push_shedding p v q x xs full n e) (sheds x e)

  push_at_capacity :
      (p : QueuePriority) (v : T) (q : BoundedPriorityQueue T)
      → q.stats.capacity ≤ q.stats.depth
      → ((x : T) (xs : List T)
          → p ≢ ordinary
          → queued ordinary q ≡ x ∷ xs
          → P (enqueue p v (after_shedding q)) (accepted_after_shedding ordinary))
      → ((p ≡ ordinary) ⊎ (queued ordinary q ≡ []) → P (reject p q).0 (reject p q).1)
      → P (push p v q).0 (push p v q).1
  push_at_capacity ordinary v q full sheds rejects =
      rw (push_ordinary v q full) (rejects (inl refl))
  push_at_capacity p v q full sheds rejects =
      push_full p v q (queued ordinary q) refl full (λ e. cc) (λ x e. sheds x _ (λ d. cc) e)
        (λ e. rejects (inr e))

  -- The three paths through a push.
  pub push_cases :
      (p : QueuePriority) (v : T) (q : BoundedPriorityQueue T)
      → (q.stats.depth < q.stats.capacity → P (enqueue p v q) accepted)
      → ((x : T) (xs : List T)
          → q.stats.capacity ≤ q.stats.depth
          → p ≢ ordinary
          → queued ordinary q ≡ x ∷ xs
          → P (enqueue p v (after_shedding q)) (accepted_after_shedding ordinary))
      → (q.stats.capacity ≤ q.stats.depth
          → (p ≡ ordinary) ⊎ (queued ordinary q ≡ [])
          → P (reject p q).0 (reject p q).1)
      → P (push p v q).0 (push p v q).1
  push_cases p v q room sheds rejects = elim (dec_lt q.stats.depth q.stats.capacity) [
    | yes h ↦ rw (push_room p v q h) (room h)
    | no h ↦
        let full : q.stats.capacity ≤ q.stats.depth = omega arith in
        push_at_capacity p v q full (λ x xs. sheds x xs full) (rejects full)
  ]

module _ {ℓ κ} {T : Type ℓ} (P : BoundedPriorityQueue T → Option T → Type κ) where
  pop_from_step :
      (p : QueuePriority) (ps : List QueuePriority) (q : BoundedPriorityQueue T) (xs : List T)
      → queued p q ≡ xs
      → ((x : T) → queued p q ≡ x ∷ rest xs → P (taken p q) (some x))
      → P (pop_from ps q).0 (pop_from ps q).1
      → P (pop_from (p ∷ ps) q).0 (pop_from (p ∷ ps) q).1
  pop_from_step p ps q [] e hit ih = rw (pop_from_miss p ps q e) ih
  pop_from_step p ps q (x ∷ xs) e hit ih = rw (pop_from_hit p ps q x xs e) (hit x e)

  -- A pop takes the front entry of one list, or changes nothing.
  pub pop_from_cases :
      (ps : List QueuePriority) (q : BoundedPriorityQueue T)
      → P q none
      → ((p : QueuePriority) (x : T) (xs : List T) → queued p q ≡ x ∷ xs → P (taken p q) (some x))
      → P (pop_from ps q).0 (pop_from ps q).1
  pop_from_cases [] q miss hit = unfold pop_from in miss
  pop_from_cases (p ∷ ps) q miss hit =
      pop_from_step p ps q (queued p q) refl (λ x. hit p x _) (pop_from_cases ps q miss hit)
