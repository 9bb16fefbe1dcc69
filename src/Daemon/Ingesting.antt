-- ===== src/Daemon/Ingesting.antt =====
-- The records of a runtime's workload, and of the findings about it, do not disturb the replay.
use apolysis.Common.{
  ◌≡◌, ◌<◌, inl, inr, List, [], ◌∷◌, ok, arith, Option-cases, Result-cases, u64_mod,
}
use apolysis.Common.Ordered.{bytes_ord, same_iff}
use apolysis.Common.Text.{Text, text}
use apolysis.Common.TreeMap
use apolysis.Common.TreeMap.{get-insert}
use apolysis.Finding.{AccountabilityFinding}
use apolysis.Registry.{AssociationOutcome, attached, missing_intent}
use apolysis.Daemon.{Services, Documented, DaemonState, persist, io_failed}
use apolysis.Daemon.Sessions.{discover_cgroup}
use apolysis.Daemon.Evidence.{
  RuntimeWorkload, finding_payload, write_feedback, payloads_of, accountability_finding_payloads,
  persist_all, persist_missing_intent_finding, missing_intent_effect, workload_discovered,
  report_if_missing, ingest_runtime_workload,
}
use apolysis.Daemon.Replay.{kind_of, kind_of_name, other}
use apolysis.Daemon.Records.{kind_of-IsNamed}
use apolysis.Daemon.Writes.{persist_cases, call_cases, Written-Attempted}
use apolysis.Daemon.Durable.{IsDurable, Quiet, Quiet-refl, Quiet-IsDurable}
use apolysis.Daemon.Handlers.{failed-IsDurable, discover_cgroup-IsDurable}
use apolysis.Daemon.Observing.{Attempted-IsDurable}

module _ (services : Services) where
  open services use {Value, object, string}

  -- Every payload of a list is passed over.
  abbrev PassedOver : List Value → Type 0
  PassedOver [] = Unit
  PassedOver (v ∷ vs) = (kind_of services v ≡ other) × PassedOver vs

  write_feedback-Quiet :
      (f : AccountabilityFinding) (d : DaemonState services)
      → Quiet services d (write_feedback services f d).0
  unfolding write_feedback
  write_feedback-Quiet f d = elim (Option-cases d.feedback) [
    | inl e ↦
        let next : (write_feedback services f d).0 ≡ d = ground (arith, e) in
        rw next (Quiet-refl services d)
    | inr (m, e) ↦ elim (call_cases services io_failed d) [
      | inl (o, x) ↦ record {
        registry = ground (arith, e, x);
        writable = ground (arith, e, x);
        records = λ k. ground (arith, e, x);
      }
      | inr (o, t, x) ↦ record {
        registry = ground (arith, e, x);
        writable = ground (arith, e, x);
        records = λ k. ground (arith, e, x);
      }
    ]
  ]

  module _ (documented : Documented services) where
    finding_payload-other :
        (f : AccountabilityFinding) (v : Value)
        → finding_payload services f ≡ ok v
        → kind_of services v ≡ other
    unfolding finding_payload kind_of_name
    finding_payload-other f v h = elim (Result-cases (services.finding_to_value f)) [
      | inr (e, x) ↦ absurd (ground (arith, x, h))
      | inl (w, x) ↦ elim (Option-cases (services.as_object w)) [
        | inl y ↦ absurd (ground (arith, x, y, h))
        | inr (m, y) ↦
            let whole =
              TreeMap.insert (text "record_type") (string (text "accountability_finding")) m in
            let built : v ≡ object whole = ground (arith, x, y, h) in
            rw built (
              kind_of-IsNamed services documented (text "accountability_finding") (object whole) (
                ground (
                  arith,
                  documented.get_object (text "record_type") whole,
                  get-insert (text "record_type") (text "record_type")
                      (string (text "accountability_finding")) m,
                  same_iff (text "record_type") (text "record_type"),
                )))
      ]
    ]

    workload_discovered-other :
        (w : RuntimeWorkload) (o : AssociationOutcome)
        → kind_of services (workload_discovered services w o) ≡ other
    unfolding kind_of_name TreeMap.get TreeMap.insert
    workload_discovered-other w o =
        kind_of-IsNamed services documented (text "runtime_workload_discovered") _
          (documented.get_object _ _)

    persist-IsDurable :
        (k : Text) (v : Value) (d : DaemonState services)
        → kind_of services v ≡ other
        → IsDurable services d
        → IsDurable services (persist services k v d).0
    persist-IsDurable k v d o h = elim (persist_cases services documented k v d) [
      | inr (e, why, y, (keeps, n)) ↦
          let next : (persist services k v d).0 ≡ e = ground (arith, y) in
          rw next (failed-IsDurable services e n)
      | inl (e, a, y, (was, w)) ↦
          let next : (persist services k v d).0 ≡ e = ground (arith, y) in
          rw next (Attempted-IsDurable services k v d e o (Written-Attempted services k v d e w) h)
    ]

    persist_all-IsDurable :
        (k : Text) (vs : List Value) (d : DaemonState services)
        → PassedOver vs
        → IsDurable services d
        → IsDurable services (persist_all services k vs d).0
    unfolding persist_all
    persist_all-IsDurable k [] d p h = h
    persist_all-IsDurable k (v ∷ vs) d (o, p) h =
        let first = persist-IsDurable k v d o h in
        let e = (persist services k v d).0 in
        elim (Result-cases (persist services k v d).1) [
          | inl (u, x) ↦
              let next : (persist_all services k (v ∷ vs) d).0 ≡ (persist_all services k vs e).0 =
                ground (arith, x) in
              rw next (persist_all-IsDurable k vs e p first)
          | inr (f, x) ↦
              let next : (persist_all services k (v ∷ vs) d).0 ≡ e = ground (arith, x) in
              rw next first
        ]

    payloads_of-IsDurable :
        (fs : List AccountabilityFinding) (d : DaemonState services)
        → IsDurable services d
        → IsDurable services (payloads_of services fs d).0
    unfolding payloads_of
    payloads_of-IsDurable [] d h = h
    payloads_of-IsDurable (f ∷ fs) d h =
        let e = (write_feedback services f d).0 in
        let first = Quiet-IsDurable services d e (write_feedback-Quiet f d) h in
        elim (Result-cases (write_feedback services f d).1) [
          | inr (x, y) ↦
              let next : (payloads_of services (f ∷ fs) d).0 ≡ e = ground (arith, y) in
              rw next first
          | inl (u, y) ↦ elim (Result-cases (finding_payload services f)) [
            | inr (x, z) ↦
                let next : (payloads_of services (f ∷ fs) d).0 ≡ e = ground (arith, y, z) in
                rw next first
            | inl (v, z) ↦
                let next : (payloads_of services (f ∷ fs) d).0 ≡ (payloads_of services fs e).0 =
                  ground (arith, y, z) in
                rw next (payloads_of-IsDurable fs e first)
          ]
        ]

    payloads_of-other :
        (fs : List AccountabilityFinding) (d : DaemonState services) (vs : List Value)
        → (payloads_of services fs d).1 ≡ ok vs
        → PassedOver vs
    unfolding payloads_of
    payloads_of-other [] d vs h = let whole : vs ≡ [] = ground (arith, h) in rw whole tt
    payloads_of-other (f ∷ fs) d vs h =
        let e = (write_feedback services f d).0 in
        elim (Result-cases (write_feedback services f d).1) [
          | inr (x, y) ↦ absurd (ground (arith, y, h))
          | inl (u, y) ↦ elim (Result-cases (finding_payload services f)) [
            | inr (x, z) ↦ absurd (ground (arith, y, z, h))
            | inl (v, z) ↦ elim (Result-cases (payloads_of services fs e).1) [
              | inr (x, t) ↦ absurd (ground (arith, y, z, t, h))
              | inl (more, t) ↦
                  let whole : vs ≡ v ∷ more = ground (arith, y, z, t, h) in
                  rw whole (finding_payload-other f v z, payloads_of-other fs e more t)
            ]
          ]
        ]

    report_if_missing-IsDurable :
        (o : AssociationOutcome) (w : RuntimeWorkload) (d : DaemonState services)
        → IsDurable services d
        → IsDurable services (report_if_missing services o w d).0
    unfolding report_if_missing persist_missing_intent_finding accountability_finding_payloads
    report_if_missing-IsDurable attached w d h = h
    report_if_missing-IsDurable missing_intent w d h =
        let x = accountability_finding_payloads services (missing_intent_effect w) d in
        let first : IsDurable services x.0 = payloads_of-IsDurable _ d h in
        elim (Result-cases x.1) [
          | inr (e, y) ↦
              let next : (persist_missing_intent_finding services w d).0 ≡ x.0 =
                ground (arith, y) in
              rw next first
          | inl (vs, y) ↦
              let next : (persist_missing_intent_finding services w d).0
                  ≡ (persist_all services w.session_id vs x.0).0 =
                ground (arith, y) in
              rw next (persist_all-IsDurable w.session_id vs x.0 (payloads_of-other _ d vs y) first)
        ]

    pub ingest_runtime_workload-IsDurable :
        (w : RuntimeWorkload) (d : DaemonState services)
        → w.cgroup_id < u64_mod
        → IsDurable services d
        → IsDurable services (ingest_runtime_workload services w d).0
    unfolding ingest_runtime_workload
    ingest_runtime_workload-IsDurable w d fits h =
        let found = discover_cgroup services w.session_id w.cgroup_id d in
        let first =
          discover_cgroup-IsDurable services documented w.session_id w.cgroup_id d fits h in
        elim (Result-cases found.1) [
          | inr (e, x) ↦
              let next : (ingest_runtime_workload services w d).0 ≡ found.0 = ground (arith, x) in
              rw next first
          | inl (o, x) ↦
              let stored =
                persist services w.session_id (workload_discovered services w o) found.0 in
              let second =
                persist-IsDurable w.session_id _ found.0 (workload_discovered-other w o) first in
              elim (Result-cases stored.1) [
                | inr (e, y) ↦
                    let next : (ingest_runtime_workload services w d).0 ≡ stored.0 =
                      ground (arith, x, y) in
                    rw next second
                | inl (u, y) ↦
                    let final = report_if_missing services o w stored.0 in
                    let third = report_if_missing-IsDurable o w stored.0 second in
                    Quiet-IsDurable services final.0 (ingest_runtime_workload services w d).0
                      (elim (Result-cases final.1) [
                        | inr (e, z) ↦ record {
                          registry = ground (arith, x, y, z);
                          writable = ground (arith, x, y, z);
                          records = λ k. ground (arith, x, y, z);
                        }
                        | inl (t, z) ↦ record {
                          registry = ground (arith, x, y, z);
                          writable = ground (arith, x, y, z);
                          records = λ k. ground (arith, x, y, z);
                        }
                      ])
                      third
              ]
        ]
