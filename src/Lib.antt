-- ===== src/Lib.antt =====
-- Apolysis observes what coding agents and their workloads do on a host, and compares it with what
-- they declared. This library models the parts of the daemon that decide, with their theorems.
--
-- How the parts interact: a client sends requests over the intent socket (Intent), which the server
-- (Server) dispatches to the daemon's state (Daemon). That applies them to a copy of the registry of
-- sessions (Registry), writes a record to the session's timeline, and then puts the copy in place;
-- at its start it reads the sessions back from the timelines. The registry says which session a
-- cgroup belongs to; the cgroups it tracks are the scopes of the observer (ScopeSet). Observed
-- effects are compared with the session's intent (Finding), what they tell of paths, addresses and
-- secrets outside the workspace is hidden (Redaction), and they wait in a bounded queue (Queue)
-- until the writer of the pipeline (Pipeline) hands them to a timeline whose records are chained by
-- hashes (HashChain); the events of a run go to a JSONL file with rotation (Jsonl). Health reports
-- on the parts. A policy (Policy) says which events break its rules and which decision takes effect
-- on the host.
--
-- Files and what they model:
--   Common      the shared vocabulary: Boolean tests, lists and words over the native numbers, text
--               as a list of code points, the result type, and BTreeMap as an ordered list of
--               entries (Common/TreeMap)
--   Queue       crates/apolysis-accountability/src/queue.rs (BoundedPriorityQueue: push, pop)
--   Intent      crates/apolysis-accountability/src/intent.rs (SessionIntent::validate,
--               IntentRequest::validate, decode_intent_frame)
--   Registry    crates/apolysis-accountability/src/session.rs (SessionRegistry: register, renew,
--               close, degrade, expire, associate_cgroup, discover_cgroup; the queries and retention
--               are in Registry/Retention)
--   Finding     crates/apolysis-accountability/src/finding.rs (AccountabilityAnalyzer::evaluate)
--   Health      crates/apolysis-accountability/src/health.rs (HealthSnapshot)
--   ScopeSet    crates/apolysis-observer/src/scope.rs (ScopeSet)
--   Policy      crates/apolysis-policy/src/lib.rs (Policy, PolicyRuntimeCapabilities; resolution and
--               evidence in Policy/Capabilities, evaluate_event and the rules in Policy/Rules)
--   HashChain   crates/apolysis-store/src/hash_chain.rs (HashChainStore: create_or_recover,
--               append_json, verify)
--   Jsonl       crates/apolysis-store/src/lib.rs (JsonlStore: append, rotate)
--   Pipeline    crates/apolysis-daemon/src/pipeline.rs (EventPipeline: submit, run_writer)
--   Daemon      crates/apolysis-daemon/src/state.rs (DaemonState: persist; register, renew, close,
--               discover_cgroup and apply_retention in Daemon/Sessions; persist_record,
--               mark_session_degraded and ingest_runtime_workload in Daemon/Evidence; the queries in
--               Daemon/Queries; replay_active_session in Daemon/Replay; new_with_scope in
--               Daemon/Restart) and crates/apolysis-daemon/src/scope.rs (ScopeController, in
--               Daemon/Scope)
--   Server      crates/apolysis-daemon/src/server.rs (handle_connection, dispatch)
--   Redaction   crates/apolysis-observer/src/redaction.rs (Redactor::redact_resource,
--               redact_raw_event_for_persistence; redact_command_text_for_persistence in
--               Redaction/Command)
--   ProcessContext  crates/apolysis-observer/src/process_context.rs (ProcessContextTable::observe)
--   Adapter     crates/apolysis-daemon/src/adapter.rs (adapter_backoff_delay,
--               run_runtime_adapter_with_policy)
-- Each part's definitions are in the file of its name; the files below it hold the proofs, by what
-- they prove, and an Examples file with the definitions run on small inputs.
--
-- How the code corresponds: a struct is a record and an enum a data type with the variants' names in
-- snake case. A method that takes &mut self takes the state and returns the new state beside its
-- result; on an early return it is the state as it then stands. Result and ? are Result and a do
-- block; a for loop is a recursion over the list that it runs over. u64 and usize counters that are
-- added to or subtracted from wrap at 2^64 (add64, sub64), saturating_add stops at 2^64 - 1.
--
-- The daemon's state: calls to the file system and to the observer's worker take their answers from
-- the list outcomes in the state, one for each call and success once it is empty, so that a theorem
-- for every state holds for every pattern of failures. A failed append leaves the timeline, a failed
-- flush leaves the record in it. Locks only serialise the methods, which are single steps here; an
-- interleaving of requests is a sequence of steps (Daemon/Reached). The start takes its answers from
-- the list too, one for each entry of the directory, its type and its recovery (Daemon/Restart);
-- what a start that fails has written is not modelled. While the writer waits for its sink other
-- tasks submit: each turn has the list of what they submit (Pipeline).
--
-- Bounds: every loop runs over a list, the writer's over the submissions of its turns; one turn more
-- than there are entries queued and submissions to come is enough (Pipeline/Draining). Text is a list of Unicode scalar
-- values; its length in bytes is byte_len. Numbers in states are not bounded by their types, so the
-- theorems hold for all of them, with a hypothesis where a word must not overflow.
--
-- Parameters: serde_json and SHA-256 are not part of the repository. The frame decoder takes the
-- JSON reader as an argument; the timeline takes a Codec, and the theorem on appending asks that the
-- serialiser writes a record on one line that reads back as the record (IsFaithful). The daemon takes
-- Services, which are serde_json at the records of the timelines and the reader of policy files;
-- what serde_json documents of it is the hypothesis Documented, and that a finding serialises is
-- AreReported. Redaction takes SHA-256 and the
-- parsers of socket and IP addresses, of which its theorems ask nothing.
--
-- Not modelled: the printing of errors, serde's derives, files, sockets, threads and kernel probes.
-- Of the policy engine, the YAML and JSON readers and the detection of what the host has; of the
-- other crates, the daemon's listeners, metrics and readers of runtime answers, a write that
-- leaves part of a line, the asynchronous JSONL writer, the core schema, the probes of the
-- observer, visibility, feedback, the runtimes, Kubernetes, the validation of evidence bundles and
-- the command line are left out.
pub mod Adapter
pub mod Common
pub mod Daemon
pub mod Finding
pub mod HashChain
pub mod Health
pub mod Intent
pub mod Jsonl
pub mod Pipeline
pub mod Policy
pub mod ProcessContext
pub mod Queue
pub mod Redaction
pub mod Registry
pub mod ScopeSet
pub mod Server
