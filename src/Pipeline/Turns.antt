-- ===== src/Pipeline/Turns.antt =====
-- What one turn of the writer does, and what the writer may end with.
use apolysis.Common.{
  Bool, ℕ, List, [], refl, length, ◌≤◌, ◌∷◌, ◌≢◌, suc, ◌+◌, ◌<◌, ◌≡◌, false, none, some, arith,
  if◌then◌else◌, Result, ok, err, u64_mod,
}
use apolysis.Queue
use apolysis.Queue.{
  BoundedPriorityQueue, QueuePriority, integrity, finding, diagnostic, lifecycle, ordinary, push,
  reject,
}
use apolysis.Queue.Contents.{size, queued, size-enqueue}
use apolysis.Queue.Steps.{after_shedding, push_cases, size-after_shedding}
use apolysis.Queue.Priority.{Popped}
use apolysis.Pipeline.{
  DaemonRecord, RecordWriteOutcome, written, failed, Writer, Turn, continues, waits, returns,
  WriterSummary, sink_failed, pop, stats, hand_over, summarise, turn, submit, submit_all,
  EventPipeline,
}

module _ {T : Type 0} where
  pub Popped-size-none : (q q' : BoundedPriorityQueue T) → Popped q q' none → size q ≡ 0
  Popped-size-none q q' (e, h) =
      ground (arith, h integrity, h finding, h diagnostic, h lifecycle, h ordinary)

  -- The lengths of the five lists decide it.
  five_lengths :
      (p : QueuePriority) (q q' : BoundedPriorityQueue T) (x : T)
      → queued p q ≡ x ∷ queued p q'
      → ((j : QueuePriority) → j ≢ p → queued j q' ≡ queued j q)
      → size q ≡ suc (size q')
  five_lengths integrity q q' x e k = ground (
    arith,
    e,
    k finding (λ z. cc),
    k diagnostic (λ z. cc),
    k lifecycle (λ z. cc),
    k ordinary (λ z. cc),
  )
  five_lengths finding q q' x e k = ground (
    arith,
    e,
    k integrity (λ z. cc),
    k diagnostic (λ z. cc),
    k lifecycle (λ z. cc),
    k ordinary (λ z. cc),
  )
  five_lengths diagnostic q q' x e k = ground (
    arith,
    e,
    k integrity (λ z. cc),
    k finding (λ z. cc),
    k lifecycle (λ z. cc),
    k ordinary (λ z. cc),
  )
  five_lengths lifecycle q q' x e k = ground (
    arith,
    e,
    k integrity (λ z. cc),
    k finding (λ z. cc),
    k diagnostic (λ z. cc),
    k ordinary (λ z. cc),
  )
  five_lengths ordinary q q' x e k = ground (
    arith,
    e,
    k integrity (λ z. cc),
    k finding (λ z. cc),
    k diagnostic (λ z. cc),
    k lifecycle (λ z. cc),
  )

  pub Popped-size-some :
      (q q' : BoundedPriorityQueue T) (x : T) → Popped q q' (some x) → size q ≡ suc (size q')
  Popped-size-some q q' x (p, e, above, kept) = five_lengths p q q' x e kept

-- Pushing adds one entry at most.
push-size :
    {T : Type 0} (p : QueuePriority) (v : T) (q : BoundedPriorityQueue T)
    → size (push p v q).0 ≤ suc (size q)
push-size p v q =
    push_cases (λ q' _. size q' ≤ suc (size q)) p v q (λ room. omega (arith, size-enqueue p v q))
      (λ x xs full n e.
        omega (arith, size-enqueue p v (after_shedding q), size-after_shedding q x xs e))
      (λ full why. unfold reject in (omega arith))

-- What submissions do to a pipeline: they add at most their number, and nothing once it is closed.
module _ {Value : Type 0} where
  pub submit_all-Kept :
      (rs : List (DaemonRecord Value)) (p : EventPipeline Value)
      → ((submit_all rs p).accepting ≡ p.accepting)
        × ((submit_all rs p).poisoned ≡ p.poisoned)
        × (size (submit_all rs p).queue ≤ size p.queue + (if p.accepting then length rs else 0))
  unfolding submit_all submit
  submit_all-Kept [] p = (refl, refl, ground arith)
  submit_all-Kept (r ∷ rs) p =
      let (a, b, c) = submit_all-Kept rs (submit r p).0 in
      let more = push-size r.priority r p.queue in
      (ground (arith, a), ground (arith, b), ground (arith, c, more))

  pub submit_all-closed :
      (rs : List (DaemonRecord Value)) (p : EventPipeline Value)
      → p.accepting ≡ false
      → submit_all rs p ≡ p
  unfolding submit_all submit
  submit_all-closed [] p h = refl
  submit_all-closed (r ∷ rs) p h =
      let same : (submit r p).0 ≡ p = ground (arith, h) in rw same (submit_all-closed rs p h)

-- The submissions of some turns that a pipeline takes: none once it is closed.
unfoldable pub admitted : {A : Type 0} → Bool → List (List A) → ℕ
admitted accepting [] = 0
admitted accepting (rs ∷ later) = (if accepting then length rs else 0) + admitted accepting later

pub admitted-closed : {A : Type 0} (turns : List (List A)) → admitted false turns ≡ 0
unfolding admitted
admitted-closed [] = refl
admitted-closed (rs ∷ later) = omega (arith, admitted-closed later)

module _ {Value S : Type 0} where
  abbrev pub summary_of : Writer Value S → WriterSummary
  summary_of w = record {
    written = w.written;
    failed = w.failed;
    final_stats = w.pipeline.queue.stats;
  }

  -- The writer has emptied the queue, and waits for more, or returns its summary if it is to stop.
  -- No more is counted as written or failed than was queued or submitted, and where nothing was
  -- accepted any more, each entry is counted.
  pub record Drained {E : Type 0} (submissions : ℕ) (w : Writer Value S) (t : Turn Value S E)
      : Type 0 where
    pub left : Writer Value S
    pub result : t ≡ (if w.stopping then returns left (ok (summary_of left)) else waits left)
    pub empty : size left.pipeline.queue ≡ 0
    pub counted :
        left.written + left.failed ≤ w.written + w.failed + size w.pipeline.queue + submissions
    pub all_counted :
        w.pipeline.accepting ≡ false
        → left.written + left.failed ≡ w.written + w.failed + size w.pipeline.queue
    pub same_sender : left.pipeline.accepting ≡ w.pipeline.accepting

  -- The writer past a record that the sink has taken.
  abbrev pub served :
      List (DaemonRecord Value) → S → RecordWriteOutcome → Writer Value S → Writer Value S
  served submitted s written w = record w {
    pipeline = submit_all submitted w.pipeline;
    sink_state = s;
    written = suc w.written;
  }
  served submitted s failed w = record w {
    pipeline = submit_all submitted w.pipeline;
    sink_state = s;
    failed = suc w.failed;
  }

  abbrev pub with_queue :
      BoundedPriorityQueue (DaemonRecord Value) → Writer Value S → Writer Value S
  with_queue q w = record w { pipeline = record (w.pipeline) { queue = q } }

  module _ {E : Type 0} (sink : DaemonRecord Value → S → S × Result RecordWriteOutcome E) where
    -- The sink gave up on a record: nothing more is accepted.
    pub record GaveUp (w : Writer Value S) (t : Turn Value S E) : Type 0 where
      pub left : Writer Value S
      pub error : E
      pub result : t ≡ returns left (err (sink_failed error))
      pub shut : left.pipeline.accepting ≡ false
      pub cause : (r : DaemonRecord Value) × (s : S) × ((sink r s).1 ≡ err error)

    abbrev pub IsUsable : Writer Value S → Type 0
    IsUsable w = w.pipeline.poisoned ≡ false

    pub turn_empty :
        (submitted : List (DaemonRecord Value)) (w : Writer Value S)
        → IsUsable w
        → (Queue.pop w.pipeline.queue).1 ≡ none
        → turn sink submitted w ≡ (
            if w.stopping
            then returns
                (with_queue (Queue.pop w.pipeline.queue).0 w)
                (ok (summary_of (with_queue (Queue.pop w.pipeline.queue).0 w)))
            else waits (with_queue (Queue.pop w.pipeline.queue).0 w))
    unfolding turn pop summarise stats
    turn_empty submitted w u e = ground (arith, e, u)

    pub turn_entry :
        (submitted : List (DaemonRecord Value)) (w : Writer Value S) (r : DaemonRecord Value)
        → IsUsable w
        → (Queue.pop w.pipeline.queue).1 ≡ some r
        → turn sink submitted w
          ≡ hand_over sink submitted r (with_queue (Queue.pop w.pipeline.queue).0 w)
    unfolding turn pop
    turn_entry submitted w r u e = ground (arith, e, u)

    pub hand_over_gives_up :
        (submitted : List (DaemonRecord Value)) (r : DaemonRecord Value) (w : Writer Value S)
        (e : E)
        → (sink r w.sink_state).1 ≡ err e
        → hand_over sink submitted r w
          ≡ returns
              (record w {
                sink_state = (sink r w.sink_state).0;
                pipeline = record (submit_all submitted w.pipeline) { accepting = false };
              })
              (err (sink_failed e))
    unfolding hand_over
    hand_over_gives_up submitted r w e h = ground (arith, h)

    pub hand_over_served :
        (submitted : List (DaemonRecord Value)) (r : DaemonRecord Value) (w : Writer Value S)
        (o : RecordWriteOutcome)
        → w.written + w.failed + 1 < u64_mod
        → (sink r w.sink_state).1 ≡ ok o
        → hand_over sink submitted r w ≡ continues (served submitted (sink r w.sink_state).0 o w)
    unfolding hand_over
    hand_over_served submitted r w written b h = ground (arith, h)
    hand_over_served submitted r w failed b h = ground (arith, h)
