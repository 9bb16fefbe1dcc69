-- ===== src/ProcessContext.antt =====
-- crates/apolysis-observer/src/process_context.rs: the command that a process was last started
-- with, kept by its pid and added to what the process does. The `HashMap` is an ordered map; its
-- order is never looked at.
pub mod Latest
mod Examples
use apolysis.Common.{ℕ, Bool, true, false, Option, none, some, List, [], ◌∷◌, ◌++◌, if◌then◌else◌}
use apolysis.Common.Ordered.{number_ord}
use apolysis.Common.Text.{Text, text, is_nil, strip_prefix, trim, eqb}
use apolysis.Common.TreeMap.{TreeMap, get, insert, remove}
use apolysis.Policy.{EventType, session_started, runtime_metadata, exec, process_exit}
use apolysis.Redaction.{EventSource, RawKernelEvent}

-- `crates/apolysis-core/src/lib.rs`.
pub record CanonicalEvent : Type 0 where
  pub timestamp_unix_ms : ℕ
  pub session_id : Text
  pub event_source : EventSource
  pub event_type : EventType
  pub raw_event_id : Option Text
  pub pid : ℕ
  pub ppid : ℕ
  pub actor : Text
  pub resource : Text
  pub action : Text
  pub container_id : Option Text
  pub cgroup_id : Option Text
  pub process_command : Option Text
  pub process_executable : Option Text
  pub process_started_at_unix_ms : Option ℕ

pub record ProcessContext : Type 0 where
  pub command : Text
  pub executable : Text
  pub started_at_unix_ms : ℕ

unfoldable pub with_process_context : ProcessContext → CanonicalEvent → CanonicalEvent
with_process_context c e = record e {
  process_command = some c.command;
  process_executable = some c.executable;
  process_started_at_unix_ms = some c.started_at_unix_ms;
}

abbrev pub is_exec : EventType → Bool
is_exec exec = true
is_exec _ = false

abbrev pub is_exit : EventType → Bool
is_exit process_exit = true
is_exit _ = false

unfoldable pub should_enrich : EventType → Bool
should_enrich session_started = false
should_enrich runtime_metadata = false
should_enrich _ = true

-- `str::strip_suffix`.
unfoldable pub strip_suffix : Text → Text → Option Text
strip_suffix p [] = if is_nil p then some [] else none
strip_suffix p (c ∷ s) =
    let rest : Option Text = elim (strip_suffix p s) [
      | none ↦ none
      | some before ↦ some (c ∷ before)
    ] in
    if eqb p (c ∷ s) then some [] else rest

unfoldable pub strip_exec_payload_marker : Text → Text → Text
strip_exec_payload_marker value marker = elim (strip_suffix marker value) [
  | none ↦ value
  | some before ↦ elim (strip_suffix (text ",") before) [ none ↦ value | some command ↦ command ]
]

unfoldable pub stripped_command : Text → Option Text
stripped_command payload =
    let command = trim (
      strip_exec_payload_marker
        (strip_exec_payload_marker
          (strip_exec_payload_marker payload (text "payload_truncated:true"))
          (text "argv_truncated:true"))
        (text "resource_truncated:true")) in
    if is_nil command then none else some command

unfoldable pub exec_command : RawKernelEvent → Option Text
exec_command raw = elim (strip_prefix (text "argv:") raw.raw_payload) [
  | some command ↦ stripped_command command
  | none ↦ elim (strip_prefix (text "argv=") raw.raw_payload) [
    | some command ↦ stripped_command command
    | none ↦ none
  ]
]

unfoldable pub started_context : RawKernelEvent → ProcessContext
started_context raw = record {
  command = elim (exec_command raw) [ none ↦ raw.resource | some command ↦ command ];
  executable = raw.resource;
  started_at_unix_ms = raw.timestamp_unix_ms;
}

unfoldable pub enriched : Option ProcessContext → CanonicalEvent → CanonicalEvent
enriched none e = e
enriched (some c) e = if should_enrich e.event_type then with_process_context c e else e

-- The table and the event that is handed on.
unfoldable pub observe :
    TreeMap ℕ ProcessContext
    → RawKernelEvent
    → CanonicalEvent
    → TreeMap ℕ ProcessContext × CanonicalEvent
observe by_pid raw e =
    let known =
      if is_exec e.event_type then insert raw.pid (started_context raw) by_pid else by_pid in
    (if is_exit e.event_type then remove raw.pid known else known, enriched (get raw.pid known) e)

unfoldable pub observe_all :
    TreeMap ℕ ProcessContext
    → List (RawKernelEvent × CanonicalEvent)
    → TreeMap ℕ ProcessContext × List CanonicalEvent
observe_all by_pid [] = (by_pid, [])
observe_all by_pid ((raw, e) ∷ es) =
    let now = observe by_pid raw e in let later = observe_all now.0 es in (later.0, now.1 ∷ later.1)
