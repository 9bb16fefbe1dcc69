-- ===== src/ProcessContext/Examples.antt =====
-- The contexts of processes on a small history.
use apolysis.Common.{ℕ, ◌≡◌, refl, none, some, [], ◌∷◌}
use apolysis.Common.Ordered.{number_ord}
use apolysis.Common.Text.{Text, text, trim, is_whitespace, strip_prefix}
use apolysis.Common.TreeMap.{get, insert, remove}
use apolysis.Policy.{EventType, exec, file_open, process_exit}
use apolysis.Redaction.{RawKernelEvent, kernel_tracepoint}
use apolysis.ProcessContext.{
  CanonicalEvent, exec_command, stripped_command, strip_exec_payload_marker, strip_suffix, observe,
  observe_all, enriched, started_context, should_enrich, with_process_context,
}
use apolysis.ProcessContext.Latest.{observe-latest, started, latest}

abbrev raw_event : ℕ → Text → Text → RawKernelEvent
raw_event time resource payload = record {
  timestamp_unix_ms = time;
  session_id = text "run-1";
  event_source = kernel_tracepoint;
  event_name = text "openat";
  event_id = none;
  pid = 7;
  ppid = 1;
  uid = 1000;
  gid = 1000;
  comm = text "agent";
  resource = resource;
  action = text "open";
  container_id = none;
  cgroup_id = none;
  raw_payload = payload;
}

abbrev canonical : EventType → CanonicalEvent
canonical event_type = record {
  timestamp_unix_ms = 10;
  session_id = text "run-1";
  event_source = kernel_tracepoint;
  event_type = event_type;
  raw_event_id = none;
  pid = 7;
  ppid = 1;
  actor = text "agent";
  resource = text "a";
  action = text "open";
  container_id = none;
  cgroup_id = none;
  process_command = none;
  process_executable = none;
  process_started_at_unix_ms = none;
}

abbrev start : RawKernelEvent × CanonicalEvent
start = (raw_event 3 (text "/bin/ls") (text "argv:ls -l,argv_truncated:true"), canonical exec)

abbrev exit : RawKernelEvent × CanonicalEvent
exit = (raw_event 9 (text "") (text ""), canonical process_exit)

abbrev opening : RawKernelEvent
opening = raw_event 5 (text "a") (text "")

commands :
    (exec_command (raw_event 3 (text "/bin/ls") (text "argv:ls -l,argv_truncated:true"))
      ≡ some (text "ls -l"))
    × (exec_command (raw_event 3 (text "/bin/ls") (text "argv= ")) ≡ none)
unfolding exec_command stripped_command strip_exec_payload_marker strip_suffix strip_prefix trim
    is_whitespace
commands = (refl, refl)

opened :
    ((observe (observe_all [] (start ∷ [])).0 opening (canonical file_open)).1.process_command
      ≡ some (text "ls -l"))
    × ((observe (observe_all [] (start ∷ exit ∷ [])).0 opening (canonical file_open)).1
        ≡ canonical file_open)
unfolding observe observe_all enriched started_context should_enrich with_process_context
    exec_command stripped_command strip_exec_payload_marker strip_suffix strip_prefix trim
    is_whitespace get insert remove
opened = (refl, refl)

observe-latest_example :
    (observe (observe_all [] (start ∷ [])).0 opening (canonical file_open)).1
    ≡ enriched
        (started (opening, canonical file_open) (latest 7 none (start ∷ [])))
        (canonical file_open)
observe-latest_example = observe-latest (start ∷ []) opening (canonical file_open)
