-- ===== src/Pipeline/Draining.antt =====
-- The writer's loop ends: it stops going round once it has had more turns than there are entries.
use apolysis.Common.{
  List, [], ◌∷◌, length, ◌≤◌, suc, ◌+◌, ◌<◌, ◌≡◌, ◌⊎◌, inl, inr, refl, ap, sym, ◌∙◌, true, false,
  none, arith, if◌then◌else◌, Result, ok, err, Result-cases, is_ok, Bool-cases, Option-cases,
  u64_mod,
}
use apolysis.Queue
use apolysis.Queue.{
  BoundedPriorityQueue, QueuePriority, integrity, finding, diagnostic, lifecycle, ordinary,
}
use apolysis.Queue.Contents.{size}
use apolysis.Queue.Priority.{Popped, pop_effect}
use apolysis.Pipeline.{
  DaemonRecord, RecordWriteOutcome, written, failed, Writer, Turn, continues, waits, returns,
  sink_failed, submit, closed, shut_down, turn, run_turns, submit_all,
}
use apolysis.Pipeline.Turns.{
  Popped-size-none, Popped-size-some, summary_of, Drained, GaveUp, served, with_queue, turn_empty,
  turn_entry, hand_over_gives_up, hand_over_served, admitted, admitted-closed, submit_all-Kept,
  submit_all-closed,
}

module _ {Value S : Type 0} where
  module _ {E : Type 0} (sink : DaemonRecord Value → S → S × Result RecordWriteOutcome E) where
    waiting_turn :
        (rs : List (DaemonRecord Value)) (later : List (List (DaemonRecord Value)))
        (w v : Writer Value S)
        → turn sink rs w ≡ (if w.stopping then returns v (ok (summary_of v)) else waits v)
        → run_turns sink (rs ∷ later) w
          ≡ (if w.stopping then returns v (ok (summary_of v)) else waits v)
    unfolding run_turns
    waiting_turn rs later w v e = elim (Bool-cases w.stopping) [
      | inl s ↦ ground (arith, e, s)
      | inr s ↦ ground (arith, e, s)
    ]

    next_turn :
        (rs : List (DaemonRecord Value)) (later : List (List (DaemonRecord Value)))
        (w v : Writer Value S)
        → turn sink rs w ≡ continues v
        → run_turns sink (rs ∷ later) w ≡ run_turns sink later v
    unfolding run_turns
    next_turn rs later w v e = rw (e, run_turns) refl

    last_turn :
        (rs : List (DaemonRecord Value)) (later : List (List (DaemonRecord Value)))
        (w v : Writer Value S) (e : E)
        → turn sink rs w ≡ returns v (err (sink_failed e))
        → run_turns sink (rs ∷ later) w ≡ returns v (err (sink_failed e))
    unfolding run_turns
    last_turn rs later w v e h = rw (h, run_turns) refl

    served_counts :
        (rs : List (DaemonRecord Value)) (s : S) (o : RecordWriteOutcome) (w : Writer Value S)
        → ((served rs s o w).stopping ≡ w.stopping)
          × ((served rs s o w).pipeline ≡ submit_all rs w.pipeline)
          × ((served rs s o w).written + (served rs s o w).failed ≡ w.written + w.failed + 1)
    served_counts rs s written w = (refl, refl, omega arith)
    served_counts rs s failed w = (refl, refl, omega arith)

    -- A turn that serves an entry, and then what the later turns do.
    after_served :
        (rs : List (DaemonRecord Value)) (later : List (List (DaemonRecord Value)))
        (w v : Writer Value S) (t : Turn Value S E)
        → t ≡ run_turns sink later v
        → v.stopping ≡ w.stopping
        → v.pipeline.accepting ≡ w.pipeline.accepting
        → v.written + v.failed ≡ w.written + w.failed + 1
        → suc (size v.pipeline.queue)
          ≤ size w.pipeline.queue + (if w.pipeline.accepting then length rs else 0)
        → (w.pipeline.accepting ≡ false → size w.pipeline.queue ≡ suc (size v.pipeline.queue))
        → Drained (admitted v.pipeline.accepting later) v (run_turns sink later v)
          ⊎ GaveUp sink v (run_turns sink later v)
        → Drained (admitted w.pipeline.accepting (rs ∷ later)) w t ⊎ GaveUp sink w t
    unfolding admitted
    after_served rs later w v t e s a c z shut (inl d) = inl (record {
      left = d.left;
      result = rw (e, sym s) d.result;
      empty = d.empty;
      counted = omega (arith, d.counted, ap (λ b. admitted b later) a);
      all_counted =
          λ closed_. let n = shut closed_ in let m = d.all_counted (a ∙ closed_) in omega arith;
      same_sender = d.same_sender ∙ a;
    })
    after_served rs later w v t e s a c z shut (inr g) = inr (record {
      left = g.left;
      error = g.error;
      result = e ∙ g.result;
      shut = g.shut;
      cause = g.cause;
    })

    -- Let a writer whose queue is not poisoned make turns while other tasks submit to it, more
    -- turns than it has entries queued and submissions to come, those to a closed pipeline left
    -- out, and let its counters have room for all of them. Then it stops going round. Either it
    -- has emptied the queue and waits, or returns its summary if it is to stop, with no more
    -- counted as written or failed than was queued and submitted, and each entry counted if the
    -- pipeline was closed; or its sink gave up on a record, and then nothing more is accepted.
    pub run_turns-Ends :
        (turns : List (List (DaemonRecord Value))) (w : Writer Value S)
        → w.pipeline.poisoned ≡ false
        → size w.pipeline.queue + admitted w.pipeline.accepting turns < length turns
        → w.written + w.failed + size w.pipeline.queue + admitted w.pipeline.accepting turns
          < u64_mod
        → Drained (admitted w.pipeline.accepting turns) w (run_turns sink turns w)
          ⊎ GaveUp sink w (run_turns sink turns w)
    unfolding admitted
    run_turns-Ends [] w u h b = absurd (omega (arith, h))
    run_turns-Ends (rs ∷ later) w u h b =
        let q = (Queue.pop w.pipeline.queue).0 in
        let w' = with_queue q w in
        let effect = pop_effect w.pipeline.queue in
        elim (Option-cases (Queue.pop w.pipeline.queue).1) [
          | inl e ↦
              let (same, empty) : Popped w.pipeline.queue q none = rw e at effect in
              let zero_size = Popped-size-none w.pipeline.queue q (same, empty) in
              inl (record {
                left = w';
                result = waiting_turn rs later w w' (turn_empty sink rs w u e);
                empty = rw same zero_size;
                counted = omega (arith, zero_size);
                all_counted = λ _. omega (arith, zero_size);
                same_sender = refl;
              })
          | inr (r, e) ↦
              let fewer : size w.pipeline.queue ≡ suc (size q) =
                Popped-size-some w.pipeline.queue q r (rw e at effect) in
              let here = turn_entry sink rs w r u e in
              let (same_sender, same_lock, added) = submit_all-Kept rs w'.pipeline in
              elim (Result-cases (sink r w.sink_state).1) [
                | inl (o, k) ↦
                    let v = served rs (sink r w.sink_state).0 o w' in
                    let (stop, line, count) = served_counts rs (sink r w.sink_state).0 o w' in
                    let bounded : suc (size v.pipeline.queue)
                        ≤ size w.pipeline.queue + (if w.pipeline.accepting then length rs else 0) =
                      rw line (omega (arith, fewer, added)) in
                    let sender : v.pipeline.accepting ≡ w.pipeline.accepting =
                      rw line same_sender in
                    let same_count = ap (λ a. admitted a later) sender in
                    after_served rs later w v _
                      (next_turn rs later w v
                        (here ∙ hand_over_served sink rs r w' o (omega (arith, b, fewer)) k))
                      stop sender count bounded
                      (λ closed_. rw (line, submit_all-closed rs w'.pipeline closed_) fewer)
                      (run_turns-Ends later v (rw line (same_lock ∙ u))
                        (omega (arith, h, bounded, same_count))
                        (omega (arith, b, bounded, count, same_count)))
                | inr (x, k) ↦ inr (record {
                  left = _;
                  error = x;
                  result = last_turn rs later w _ x (here ∙ hand_over_gives_up sink rs r w' x k);
                  shut = refl;
                  cause = (r, _, k);
                })
              ]
        ]

    -- Let a writer be told to shut down, whose sink takes every record, whose queue is not
    -- poisoned and whose counters have room. Whatever is submitted while it works, it returns
    -- its summary after as many turns as there are entries and one more; all entries are
    -- counted, the queue is empty, and every later submission is refused as closed.
    pub shut_down_completes :
        (turns : List (List (DaemonRecord Value))) (w : Writer Value S)
        → w.pipeline.poisoned ≡ false
        → size w.pipeline.queue < length turns
        → w.written + w.failed + size w.pipeline.queue < u64_mod
        → ((r : DaemonRecord Value) (s : S) → is_ok (sink r s).1 ≡ true)
        → (left : Writer Value S) × (run_turns sink turns (shut_down w)
            ≡ returns left (ok (summary_of left)))
          × (size left.pipeline.queue ≡ 0)
          × (left.written + left.failed ≡ w.written + w.failed + size w.pipeline.queue)
          × ((r : DaemonRecord Value) → submit r left.pipeline ≡ (left.pipeline, err closed))
    unfolding shut_down submit
    shut_down_completes turns w u h b takes =
        let none_come = admitted-closed turns in
        elim (run_turns-Ends turns (shut_down w) u (omega (arith, h, none_come))
          (omega (arith, b, none_come))) [
            | inl d ↦
                (d.left, d.result, d.empty, d.all_counted refl, λ r. ground (arith, d.same_sender))
            | inr g ↦ let (r, s, e) = g.cause in absurd (ground (arith, e, takes r s))
          ]
