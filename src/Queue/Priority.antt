-- ===== src/Queue/Priority.antt =====
-- What `push` and `pop` do, on every branch, to the five lists.
use apolysis.Common.{
  ◌≤◌, ◌<◌, ◌≡◌, ◌≢◌, ◌⊎◌, inl, inr, refl, Option, none, some, List, [], ◌∷◌, ◌++◌, arith,
  if◌then◌else◌,
}
use apolysis.Common.Ordered.{same, same_iff}
use apolysis.Queue.{
  priority_ord, QueuePriority, BoundedPriorityQueue, PushOutcome, accepted, accepted_after_shedding,
  dropped, ordinary, lifecycle, diagnostic, finding, integrity, rank, enqueue, push, reject, pop,
  pop_from, by_urgency,
}
use apolysis.Queue.Contents.{queued, queued-enqueue}
use apolysis.Queue.Steps.{
  after_shedding, push_cases, queued-taken, queued-after_shedding, pop_from_hit, pop_from_miss,
}

module _ {ℓ} {T : Type ℓ} where
  -- What a push has done, for each outcome.
  abbrev pub Pushed :
      QueuePriority → T → BoundedPriorityQueue T → BoundedPriorityQueue T → PushOutcome → Type ℓ
  Pushed p v q q' accepted =
      (q.stats.depth < q.stats.capacity)
      × ((j : QueuePriority)
          → queued j q' ≡ (if same j p then queued p q ++ v ∷ [] else queued j q))
  Pushed p v q q' (accepted_after_shedding r) =
      (q.stats.capacity ≤ q.stats.depth)
      × (p ≢ ordinary)
      × (r ≡ ordinary)
      × ((x : T) × (queued ordinary q ≡ x ∷ queued ordinary q'))
      × ((j : QueuePriority)
          → j ≢ ordinary
          → queued j q' ≡ (if same j p then queued p q ++ v ∷ [] else queued j q))
  Pushed p v q q' (dropped r) =
      (q.stats.capacity ≤ q.stats.depth)
      × (r ≡ p)
      × ((p ≡ ordinary) ⊎ (queued ordinary q ≡ []))
      × ((j : QueuePriority) → queued j q' ≡ queued j q)

  shed_effect :
      (p : QueuePriority) (v : T) (q : BoundedPriorityQueue T) (x : T) (xs : List T)
      → q.stats.capacity ≤ q.stats.depth
      → p ≢ ordinary
      → queued ordinary q ≡ x ∷ xs
      → Pushed p v q (enqueue p v (after_shedding q)) (accepted_after_shedding ordinary)
  shed_effect p v q x xs full n e = (
    full,
    n,
    refl,
    (
      x,
      ground (
        arith,
        same_iff ordinary p,
        queued-enqueue p ordinary v (after_shedding q),
        queued-after_shedding ordinary q,
      ),
    ),
    λ j m. ground (
      arith,
      same_iff j ordinary,
      same_iff p ordinary,
      queued-enqueue p j v (after_shedding q),
      queued-after_shedding j q,
      queued-after_shedding p q,
    ),
  )

  -- On each outcome of a push: below capacity the value is put last in the list of its priority;
  -- at capacity a value that is not ordinary takes the place of the oldest ordinary entry if
  -- there is one; else it is dropped and no list changes.
  pub push_effect :
      (p : QueuePriority) (v : T) (q : BoundedPriorityQueue T)
      → Pushed p v q (push p v q).0 (push p v q).1
  unfolding reject
  push_effect p v q =
      push_cases (Pushed p v q) p v q (λ room. (room, λ j. queued-enqueue p j v q))
        (λ x xs full n e. shed_effect p v q x xs full n e)
        (λ full why. (full, refl, why, λ j. refl))

  -- What a search of the given priorities for an entry has done.
  abbrev PoppedFrom :
      List QueuePriority → BoundedPriorityQueue T → BoundedPriorityQueue T → Option T → Type ℓ
  PoppedFrom [] q q' none = q' ≡ q
  PoppedFrom [] q q' (some x) = Unit × ⊥
  PoppedFrom (p ∷ ps) q q' none = (queued p q ≡ []) × PoppedFrom ps q q' none
  PoppedFrom (p ∷ ps) q q' (some x) =
      ((queued p q ≡ x ∷ queued p q') × ((j : QueuePriority) → j ≢ p → queued j q' ≡ queued j q))
      ⊎ ((queued p q ≡ []) × PoppedFrom ps q q' (some x))

  PoppedFrom-miss :
      (p : QueuePriority) (ps : List QueuePriority) (q q' : BoundedPriorityQueue T) (r : Option T)
      → queued p q ≡ []
      → PoppedFrom ps q q' r
      → PoppedFrom (p ∷ ps) q q' r
  PoppedFrom-miss p ps q q' none e h = (e, h)
  PoppedFrom-miss p ps q q' (some x) e h = inr (e, h)

  pop_from_step :
      (p : QueuePriority) (ps : List QueuePriority) (q : BoundedPriorityQueue T) (xs : List T)
      → queued p q ≡ xs
      → PoppedFrom ps q (pop_from ps q).0 (pop_from ps q).1
      → PoppedFrom (p ∷ ps) q (pop_from (p ∷ ps) q).0 (pop_from (p ∷ ps) q).1
  pop_from_step p ps q [] e ih = rw (pop_from_miss p ps q e) (PoppedFrom-miss p ps q _ _ e ih)
  pop_from_step p ps q (x ∷ xs) e ih = rw (pop_from_hit p ps q x xs e) (
      inl (
        ground (arith, queued-taken p p q, same_iff p p),
        λ j n. ground (arith, queued-taken p j q, same_iff j p),
      ))

  pop_from-PoppedFrom :
      (ps : List QueuePriority) (q : BoundedPriorityQueue T)
      → PoppedFrom ps q (pop_from ps q).0 (pop_from ps q).1
  pop_from-PoppedFrom [] q = unfold pop_from in refl
  pop_from-PoppedFrom (p ∷ ps) q = pop_from_step p ps q (queued p q) refl (pop_from-PoppedFrom ps q)

  -- What a pop has done, for each result.
  abbrev pub Popped : BoundedPriorityQueue T → BoundedPriorityQueue T → Option T → Type ℓ
  Popped q q' none = (q' ≡ q) × ((j : QueuePriority) → queued j q ≡ [])
  Popped q q' (some x) =
      (p : QueuePriority) × (queued p q ≡ x ∷ queued p q')
      × ((j : QueuePriority) → rank p < rank j → queued j q ≡ [])
      × ((j : QueuePriority) → j ≢ p → queued j q' ≡ queued j q)

  Popped-of_from :
      (q q' : BoundedPriorityQueue T) (r : Option T) → PoppedFrom by_urgency q q' r → Popped q q' r
  Popped-of_from q q' none (i, (f, (d, (l, (o, e))))) =
      (e, elim [ integrity ↦ i | finding ↦ f | diagnostic ↦ d | lifecycle ↦ l | ordinary ↦ o ])
  Popped-of_from q q' (some x) (inl (e, k)) = (integrity, e, λ j m. ground arith, k)
  Popped-of_from q q' (some x) (inr (i, inl (e, k))) = (finding, e, λ j m. ground arith, k)
  Popped-of_from q q' (some x) (inr (i, inr (f, inl (e, k)))) =
      (diagnostic, e, λ j m. ground arith, k)
  Popped-of_from q q' (some x) (inr (i, inr (f, inr (d, inl (e, k))))) =
      (lifecycle, e, λ j m. ground arith, k)
  Popped-of_from q q' (some x) (inr (i, inr (f, inr (d, inr (l, inl (e, k)))))) =
      (ordinary, e, λ j m. ground arith, k)
  Popped-of_from q q' (some x) (inr (i, inr (f, inr (d, inr (l, inr (o, u)))))) = absurd u.1

  -- A pop returns the oldest entry of the highest priority that has one, and all other lists
  -- stay; it returns nothing only if all five lists are empty, and then changes nothing.
  pub pop_effect : (q : BoundedPriorityQueue T) → Popped q (pop q).0 (pop q).1
  unfolding pop
  pop_effect q = Popped-of_from q _ _ (pop_from-PoppedFrom by_urgency q)
