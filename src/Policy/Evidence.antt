-- ===== src/Policy/Evidence.antt =====
-- What the evidence that a host has accepted says of the actions that it can block.
use mathlib.Core.Path.{subst, sym}
use apolysis.Common.{
  ℕ, ==_iff, ap, ◌≡◌, ◌≢◌, ◌⊎◌, inl, inr, refl, true, Option, none, some, List, [], ◌∷◌, arith,
  Result, ok, Result-cases, ◌>>=◌, is_some,
}
use apolysis.Common.Text.{Text}
use apolysis.Policy.{
  BlockPrototypeBackend, EnforcementAction, exec, file_read, file_write, network_connect,
  credential_read, other, block, DecisionKind, EventType, from_event_type, BlockPrototypeEvidence,
  BlockPrototypeEvidenceSource, fixture, EnforcementRuntime, bpf_lsm, seccomp, live_host,
  enforcement_backend_of, PolicyRuntimeCapabilities, PreoperationBlockSupport, supports, enable,
  no_support,
}
use apolysis.Policy.Capabilities.{
  with_validated_block_prototype, validate_block_backend, resolve, resolve_block,
  can_preoperation_block, is_live, is_zero, same_runtime, has_backend,
  backend_available_for_runtime,
}

-- Evidence that a backend prevents an action: taken on a live host, in time, without a window.
pub record Proves (e : BlockPrototypeEvidence) (action : EnforcementAction) : Type 0 where
  pub live : e.source ≡ live_host
  pub about : from_event_type e.action ≡ action
  pub prevented : e.preoperation_prevention ≡ true
  pub measured : is_some e.decision_latency_ms ≡ true
  pub no_window : e.side_effect_race_window_ms ≡ some 0

enable_effect :
    (a b : EnforcementAction) (s s' : PreoperationBlockSupport)
    → enable a s ≡ ok s'
    → supports b s' ≡ true
    → (a ≡ b) ⊎ (supports b s ≡ true)
unfolding enable supports
enable_effect exec b s s' h k = ground arith
enable_effect file_read b s s' h k = ground arith
enable_effect file_write b s s' h k = ground arith
enable_effect network_connect b s s' h k = ground arith
enable_effect credential_read b s s' h k = ground arith
enable_effect other b s s' h k = cc

enable_keeps :
    (a b : EnforcementAction) (s s' : PreoperationBlockSupport)
    → enable a s ≡ ok s'
    → supports b s ≡ true
    → supports b s' ≡ true
unfolding enable supports
enable_keeps exec b s s' h k = ground arith
enable_keeps file_read b s s' h k = ground arith
enable_keeps file_write b s s' h k = ground arith
enable_keeps network_connect b s s' h k = ground arith
enable_keeps credential_read b s s' h k = ground arith
enable_keeps other b s s' h k = cc

nothing_supported : (a : EnforcementAction) → supports a no_support ≢ true
unfolding supports
nothing_supported a h = ground arith

-- What accepting a piece of evidence has done.
record Accepts (e : BlockPrototypeEvidence) (c c' : PolicyRuntimeCapabilities) : Type 0 where
  proven : Proves e (from_event_type e.action)
  backend : c'.preoperation_block_backend ≡ some e.backend
  support : enable (from_event_type e.action) c.preoperation_block ≡ ok c'.preoperation_block
  available : has_backend c'.runtime c' ≡ true

live_of : (s : BlockPrototypeEvidenceSource) → is_live s ≡ true → s ≡ live_host
live_of fixture h = cc
live_of live_host h = refl

zero_of : (o : Option ℕ) → is_zero o ≡ true → o ≡ some 0
zero_of none h = cc
zero_of (some n) h = ap some ((==_iff n 0).0 h)

same_runtime_lem : (a b : EnforcementRuntime) → same_runtime a b ≡ true → a ≡ b
same_runtime_lem a b h = ground arith

abbrev set_support :
    BlockPrototypeBackend
    → PreoperationBlockSupport
    → PolicyRuntimeCapabilities
    → PolicyRuntimeCapabilities
set_support b s c = record c { preoperation_block_backend = some b; preoperation_block = s }

available_of :
    (b d : BlockPrototypeBackend) (r : EnforcementRuntime) (s : PreoperationBlockSupport)
    (c : PolicyRuntimeCapabilities)
    → validate_block_backend b r c ≡ ok tt
    → backend_available_for_runtime b r (set_support d s c) ≡ true
unfolding validate_block_backend backend_available_for_runtime
available_of bpf_lsm d r s c h = ground arith
available_of seccomp d r s c h = ground arith

with_validated-Accepts :
    (e : BlockPrototypeEvidence) (c c' : PolicyRuntimeCapabilities)
    → with_validated_block_prototype e c ≡ ok c'
    → Accepts e c c'
unfolding with_validated_block_prototype
with_validated-Accepts e c c' h =
    elim (Result-cases (validate_block_backend e.backend e.runtime c)) [
      | inr (x, v) ↦ absurd (ground (arith, h, v))
      | inl (u, v) ↦ elim (Result-cases (enable (from_event_type e.action) c.preoperation_block)) [
        | inr (x, w) ↦ absurd (ground (arith, h, v, w))
        | inl (s, w) ↦
            let after = set_support e.backend s c in
            let live : is_live e.source ≡ true = ground (arith, h, v, w) in
            let here : same_runtime c.runtime e.runtime ≡ true = ground (arith, h, v, w) in
            let zero_window : is_zero e.side_effect_race_window_ms ≡ true =
              ground (arith, h, v, w) in
            let same : after ≡ c' = ground (arith, h, v, w) in
            subst (Accepts e c) same (record {
              proven = record {
                live = live_of e.source live;
                about = refl;
                prevented = ground (arith, h, v, w);
                measured = ground (arith, h, v, w);
                no_window = zero_of e.side_effect_race_window_ms zero_window;
              };
              backend = refl;
              support = w;
              available =
                  unfold has_backend in
                  subst (λ r. backend_available_for_runtime e.backend r after ≡ true)
                    (sym (same_runtime_lem c.runtime e.runtime here))
                    (available_of e.backend e.backend e.runtime s c v);
            })
      ]
    ]

-- Evidence that is accepted piece by piece; a refusal ends it.
unfoldable pub accept_all :
    List BlockPrototypeEvidence → PolicyRuntimeCapabilities → Result PolicyRuntimeCapabilities Text
accept_all [] c = ok c
accept_all (e ∷ es) c = do next ← with_validated_block_prototype e c; accept_all es next

-- Some piece of evidence proves the action.
abbrev pub IsProven : List BlockPrototypeEvidence → EnforcementAction → Type 0
IsProven [] action = Unit × ⊥
IsProven (e ∷ es) action = Proves e action ⊎ IsProven es action

accept_all-new :
    (es : List BlockPrototypeEvidence) (c c' : PolicyRuntimeCapabilities)
    (action : EnforcementAction)
    → accept_all es c ≡ ok c'
    → supports action c'.preoperation_block ≡ true
    → IsProven es action ⊎ (supports action c.preoperation_block ≡ true)
unfolding accept_all
accept_all-new [] c c' action h k = let same : c ≡ c' = ground (arith, h) in inr (rw same k)
accept_all-new (e ∷ es) c c' action h k = elim (Result-cases (with_validated_block_prototype e c)) [
  | inr (x, v) ↦ absurd (ground (arith, h, v))
  | inl (next, v) ↦
      let a = with_validated-Accepts e c next v in
      elim (accept_all-new es next c' action (rw v at h) k) [
        | inl p ↦ inl (inr p)
        | inr s ↦
            elim (enable_effect (from_event_type e.action) action c.preoperation_block
              next.preoperation_block a.support s) [
                | inl same ↦ inl (inl (subst (Proves e) same a.proven))
                | inr old ↦ inr old
              ]
      ]
]

-- A host that could block nothing and has accepted pieces of evidence can block an action only
-- if one of them proves it: taken on a live host, with a latency, and the operation prevented
-- without a window.
pub accept_all-IsProven :
    (es : List BlockPrototypeEvidence) (c c' : PolicyRuntimeCapabilities)
    (runtime : EnforcementRuntime) (action : EnforcementAction)
    → c.preoperation_block ≡ no_support
    → accept_all es c ≡ ok c'
    → can_preoperation_block runtime action c' ≡ true
    → IsProven es action
unfolding can_preoperation_block
accept_all-IsProven es c c' runtime action n h k =
    elim (accept_all-new es c c' action h (ground arith)) [
      | inl p ↦ p
      | inr s ↦ absurd (nothing_supported action (subst (λ t. supports action t ≡ true) n s))
    ]

-- Once a piece of evidence is accepted, each action that was enabled before it is blocked by the
-- backend of that evidence.
pub later_backend_blocks_all :
    (e : BlockPrototypeEvidence) (c c' : PolicyRuntimeCapabilities) (fallback : DecisionKind)
    (event : EventType)
    → with_validated_block_prototype e c ≡ ok c'
    → supports (from_event_type event) c.preoperation_block ≡ true
    → let r = resolve block fallback c'.runtime event c' in
      (r.effective ≡ block) × (r.enforcement_backend ≡ enforcement_backend_of e.backend)
unfolding resolve resolve_block can_preoperation_block
later_backend_blocks_all e c c' fallback event h k =
    let a = with_validated-Accepts e c c' h in
    let kept : supports (from_event_type event) c'.preoperation_block ≡ true =
      enable_keeps (from_event_type e.action) (from_event_type event) c.preoperation_block
        c'.preoperation_block a.support k in
    (ground (arith, a.available, kept), ground (arith, a.available, kept, a.backend))
