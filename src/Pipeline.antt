-- ===== src/Pipeline.antt =====
-- crates/apolysis-daemon/src/pipeline.rs: the queue of records between the observer and the writer of
-- the timelines. The shared `PipelineInner` is a record that the operations pass on; its mutex is the
-- queue and whether a panic has poisoned it. The writer is a loop whose turns are `turn`; what it
-- hands a record to, the sink, is a function on a state of its own. `Notify` only wakes the
-- writer, so it is the event `notified`.
pub mod Turns
pub mod Draining
mod Examples
use apolysis.Common.{
  ℕ, List, [], ◌∷◌, Bool, true, false, not, Option, none, some, if◌then◌else◌, Result, ok, err,
  ◌>>=◌, saturating_add,
}
use apolysis.Common.Text.{Text}
use apolysis.Queue
use apolysis.Queue.{BoundedPriorityQueue, PushOutcome, QueuePriority, QueueStats}

pub record DaemonRecord (Value : Type 0) : Type 0 where
  pub session_id : Text
  pub priority : QueuePriority
  pub payload : Value

pub data SubmitError : Type 0 where
  closed unavailable : SubmitError

pub record WriterSummary : Type 0 where
  pub written : ℕ
  pub failed : ℕ
  pub final_stats : QueueStats

pub data RecordWriteOutcome : Type 0 where
  written failed : RecordWriteOutcome

pub record EventPipeline (Value : Type 0) : Type 0 where
  pub queue : BoundedPriorityQueue (DaemonRecord Value)
  pub poisoned : Bool
  pub accepting : Bool
  pub writer_started : Bool

-- Why the writer ends: it is the second one, the queue is poisoned, or the sink gave up.
pub data WriterError (E : Type 0) : Type 0 where
  already_started queue_unavailable : WriterError E
  sink_failed : E → WriterError E

module _ {Value : Type 0} where
  unfoldable pub new : ℕ → EventPipeline Value
  new capacity = record {
    queue = Queue.new capacity;
    poisoned = false;
    accepting = true;
    writer_started = false;
  }

  -- The flag is read before and after the lock is taken.
  unfoldable pub submit :
      DaemonRecord Value
      → EventPipeline Value
      → EventPipeline Value × Result PushOutcome SubmitError
  submit r p =
      if not p.accepting
      then (p, err closed)
      else if p.poisoned
      then (p, err unavailable)
      else if not p.accepting
      then (p, err closed)
      else let (queue, outcome) = Queue.push r.priority r p.queue in
        (record p { queue = queue }, ok outcome)

  unfoldable pub stats : EventPipeline Value → Result QueueStats SubmitError
  stats p = if p.poisoned then err unavailable else ok p.queue.stats

  unfoldable pub pop :
      {E : Type 0}
      → EventPipeline Value
      → EventPipeline Value × Result (Option (DaemonRecord Value)) (WriterError E)
  pop p =
      let (queue, value) = Queue.pop p.queue in
      if p.poisoned then (p, err queue_unavailable) else (record p { queue = queue }, ok value)

-- Submissions of other tasks, in the order in which they are served.
unfoldable pub submit_all :
    {Value : Type 0} → List (DaemonRecord Value) → EventPipeline Value → EventPipeline Value
submit_all [] p = p
submit_all (r ∷ rs) p = submit_all rs (submit r p).0

-- A writer at work: the shared pipeline, the state of its sink and its variables.
pub record Writer (Value S : Type 0) : Type 0 where
  pub pipeline : EventPipeline Value
  pub sink_state : S
  pub stopping : Bool
  pub written : ℕ
  pub failed : ℕ

-- What a turn of the loop does: it goes round again, waits in `select!`, or returns.
pub data Turn (Value S E : Type 0) : Type 0 where
  continues waits : Writer Value S → Turn Value S E
  returns : Writer Value S → Result WriterSummary (WriterError E) → Turn Value S E

module _ {Value S : Type 0} where
  unfoldable pub shut_down : Writer Value S → Writer Value S
  shut_down w = record w { pipeline = record (w.pipeline) { accepting = false }; stopping = true }

module _ {Value S E : Type 0} where
  unfoldable pub start :
      EventPipeline Value → S → EventPipeline Value × Result (Writer Value S) (WriterError E)
  start p s =
      if p.writer_started
      then (p, err already_started)
      else let started : EventPipeline Value = record p { writer_started = true } in
        (
          started,
          ok (record {
            pipeline = started;
            sink_state = s;
            stopping = false;
            written = 0;
            failed = 0;
          }),
        )

  module _ (sink : DaemonRecord Value → S → S × Result RecordWriteOutcome E) where
    -- `match sink(record).await`, with what other tasks submit until the sink has answered.
    unfoldable pub hand_over :
        List (DaemonRecord Value) → DaemonRecord Value → Writer Value S → Turn Value S E
    hand_over submitted r w =
        let (s, result) = sink r w.sink_state in
        let p = submit_all submitted w.pipeline in
        elim result [
          | ok written ↦
              continues
                (record w { pipeline = p; sink_state = s; written = saturating_add w.written 1 })
          | ok failed ↦
              continues
                (record w { pipeline = p; sink_state = s; failed = saturating_add w.failed 1 })
          | err e ↦
              returns (record w { sink_state = s; pipeline = record p { accepting = false } })
                (err (sink_failed e))
        ]

    -- `stats().map_err(..)?` and the summary.
    unfoldable pub summarise : Writer Value S → Turn Value S E
    summarise w = elim (stats w.pipeline) [
      | err e ↦ returns w (err queue_unavailable)
      | ok final ↦
          returns w (ok (record { written = w.written; failed = w.failed; final_stats = final }))
    ]

    unfoldable pub turn : List (DaemonRecord Value) → Writer Value S → Turn Value S E
    turn submitted w =
        let (p, popped) = pop {E = E} w.pipeline in
        let w' : Writer Value S = record w { pipeline = p } in
        elim popped [
          | err e ↦ returns w' (err e)
          | ok (some r) ↦ hand_over submitted r w'
          | ok none ↦ if w.stopping then summarise w' else waits w'
        ]

    -- At most so many turns as there are lists, up to the first that does not go round again, each with
    -- what is submitted while its record is with the sink.
    unfoldable pub run_turns : List (List (DaemonRecord Value)) → Writer Value S → Turn Value S E
    run_turns [] w = continues w
    run_turns (submitted ∷ later) w = elim (turn submitted w) [
      | continues w' ↦ run_turns later w'
      | waits w' ↦ waits w'
      | returns w' result ↦ returns w' result
    ]
