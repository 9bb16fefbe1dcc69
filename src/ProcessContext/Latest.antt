-- ===== src/ProcessContext/Latest.antt =====
-- crates/apolysis-observer/src/process_context.rs: the table against the history of a process.
use apolysis.Common.{ℕ, ◌≡◌, refl, ap, ◌∙◌, Option, none, some, List, [], ◌∷◌, arith, if◌then◌else◌}
use apolysis.Common.Ordered.{number_ord, same, same_iff}
use apolysis.Common.TreeMap.{TreeMap, get, insert, get-insert, get-remove}
use apolysis.Redaction.{RawKernelEvent}
use apolysis.ProcessContext.{
  CanonicalEvent, ProcessContext, is_exec, is_exit, started_context, enriched, observe, observe_all,
}

-- What an event makes of the context of its own process, before and after it is handed on.
unfoldable pub started :
    RawKernelEvent × CanonicalEvent → Option ProcessContext → Option ProcessContext
started (raw, e) c = if is_exec e.event_type then some (started_context raw) else c

unfoldable pub ended :
    RawKernelEvent × CanonicalEvent → Option ProcessContext → Option ProcessContext
ended (raw, e) c = if is_exit e.event_type then none else c

-- The context of one process after a history.
unfoldable pub latest :
    ℕ → Option ProcessContext → List (RawKernelEvent × CanonicalEvent) → Option ProcessContext
latest pid c [] = c
latest pid c (e ∷ es) = latest pid (if same pid e.0.pid then ended e (started e c) else c) es

get-observe :
    (pid : ℕ) (t : TreeMap ℕ ProcessContext) (raw : RawKernelEvent) (e : CanonicalEvent)
    → get pid (observe t raw e).0
      ≡ (if same pid raw.pid then ended (raw, e) (started (raw, e) (get pid t)) else get pid t)
unfolding observe started ended
get-observe pid t raw e =
    let i = get-insert raw.pid pid (started_context raw) t in
    let r = get-remove raw.pid pid t in
    let ri = get-remove raw.pid pid (insert raw.pid (started_context raw) t) in ground arith

get-observe_all :
    (pid : ℕ) (t : TreeMap ℕ ProcessContext) (es : List (RawKernelEvent × CanonicalEvent))
    → get pid (observe_all t es).0 ≡ latest pid (get pid t) es
unfolding observe_all latest
get-observe_all pid t [] = refl
get-observe_all pid t ((raw, e) ∷ es) =
    get-observe_all pid (observe t raw e).0 es ∙ ap (λ c. latest pid c es) (get-observe pid t raw e)

observe-enriched :
    (t : TreeMap ℕ ProcessContext) (raw : RawKernelEvent) (e : CanonicalEvent)
    → (observe t raw e).1 ≡ enriched (started (raw, e) (get raw.pid t)) e
unfolding observe started
observe-enriched t raw e =
    let i = get-insert raw.pid raw.pid (started_context raw) t in
    let s = (same_iff raw.pid raw.pid).1 refl in ap (λ c. enriched c e) (ground arith)

-- After any history, an event is handed on with the command of the last start of its process
-- since the last exit, a start counting its own, if there is one and its type is to be enriched.
pub observe-latest :
    (es : List (RawKernelEvent × CanonicalEvent)) (raw : RawKernelEvent) (e : CanonicalEvent)
    → (observe (observe_all [] es).0 raw e).1
      ≡ enriched (started (raw, e) (latest raw.pid none es)) e
unfolding get
observe-latest es raw e =
    observe-enriched (observe_all [] es).0 raw e
    ∙ ap (λ c. enriched (started (raw, e) c) e) (get-observe_all raw.pid [] es)
