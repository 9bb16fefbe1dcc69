-- ===== src/Pipeline/Examples.antt =====
-- A writer that drains a small queue.
use apolysis.Common.{ℕ, ◌+◌, ◌≡◌, ◌⊎◌, refl, false, List, [], ◌∷◌, Result, ok, err, arith}
use apolysis.Common.TreeMap
use apolysis.Common.Text.{text}
use apolysis.Queue
use apolysis.Queue.{ordinary, finding, enqueue}
use apolysis.Queue.Contents.{size}
use apolysis.Pipeline.{
  DaemonRecord, RecordWriteOutcome, written, Writer, new, submit, closed, returns, run_turns,
  shut_down,
}
use apolysis.Pipeline.Turns.{summary_of, Drained, GaveUp, admitted}
use apolysis.Pipeline.Draining.{run_turns-Ends, shut_down_completes}

abbrev record_of : ℕ → DaemonRecord ℕ
record_of n = record { session_id = text "a"; priority = ordinary; payload = n }

-- Two records wait.
abbrev loaded : Writer ℕ (List ℕ)
loaded = record {
  pipeline = (submit (record_of 2) (submit (record_of 1) (new 4)).0).0;
  sink_state = [];
  stopping = false;
  written = 0;
  failed = 0;
}

-- Odd payloads are written, and kept.
abbrev sink : DaemonRecord ℕ → List ℕ → List ℕ × Result RecordWriteOutcome ℕ
sink r kept = (r.payload ∷ kept, ok written)

-- A sink that gives up on its second record.
abbrev fragile : DaemonRecord ℕ → List ℕ → List ℕ × Result RecordWriteOutcome ℕ
fragile r [] = (r.payload ∷ [], ok written)
fragile r kept = (kept, err 5)

loaded_size : size loaded.pipeline.queue ≡ 2
unfolding submit new Queue.new Queue.push enqueue TreeMap.get TreeMap.insert
loaded_size = refl

loaded_usable : loaded.pipeline.poisoned ≡ false
unfolding submit new
loaded_usable = refl

-- A third record comes while the first is with the sink.
abbrev turns : List (List (DaemonRecord ℕ))
turns = (record_of 3 ∷ []) ∷ [] ∷ [] ∷ [] ∷ []

loaded_admitted : admitted loaded.pipeline.accepting turns ≡ 1
unfolding submit new admitted
loaded_admitted = refl

run_turns-Ends_example :
    Drained (admitted loaded.pipeline.accepting turns) loaded (run_turns fragile turns loaded)
    ⊎ GaveUp fragile loaded (run_turns fragile turns loaded)
run_turns-Ends_example =
    run_turns-Ends fragile turns loaded loaded_usable
      (rw (loaded_size, loaded_admitted) (omega arith))
      (rw (loaded_size, loaded_admitted) (omega arith))

shut_down_completes_example :
    (left : Writer ℕ (List ℕ)) × (run_turns sink turns (shut_down loaded)
      ≡ returns left (ok (summary_of left)))
    × (size left.pipeline.queue ≡ 0)
    × (left.written + left.failed ≡ loaded.written + loaded.failed + size loaded.pipeline.queue)
    × ((r : DaemonRecord ℕ) → submit r left.pipeline ≡ (left.pipeline, err closed))
shut_down_completes_example =
    shut_down_completes sink turns loaded loaded_usable (rw loaded_size (omega arith))
      (rw loaded_size (omega arith)) (λ r s. refl)
