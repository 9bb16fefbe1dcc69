-- ===== src/Policy/Honest.antt =====
-- What the engine says of a decision agrees with itself and with what the host can do.
use apolysis.Common.{
  ap, if◌then◌else◌, ◌≡◌, ◌≢◌, ◌↔◌, ◌⊎◌, inl, inr, refl, Bool, true, false, Option, none, some,
  arith, Bool-cases, not, ◌&&◌,
}
use apolysis.Common.Text.{Text}
use apolysis.Policy.{
  DecisionKind, allow, notify, block, kill, review, EnforcementRuntime, EventType,
  EnforcementAction, from_event_type, signal_kill, pre_operation, BlockPrototypeBackend, bpf_lsm,
  seccomp, enforcement_backend_of, PolicyRuntimeCapabilities, EnforcementCapability, Policy,
  DecisionDowngrade, supports, any_enabled, file_read, file_write, other, file_open, file_create,
}
use apolysis.Policy.Capabilities.{
  resolve, resolve_block, can_preoperation_block, safe_non_block_fallback, backend_for_fallback,
  timing_for_fallback, any_preoperation_block_available, backend_in_force,
}
use apolysis.Policy.Rules.{startup_downgrade, effective_decision, is_block, downgraded_at_start}

-- A resolved decision is honest: it says block, and that it acts before the operation, exactly if
-- the host can block this action; it kills only if asked to or told to fall back on it; it is the
-- requested one exactly if no downgrade is reported, and a downgrade names both decisions.
pub record IsHonest (requested fallback : DecisionKind) (able : Bool) (c : EnforcementCapability)
    : Type 0 where
  pub asked : c.requested ≡ requested
  pub blocks : (c.effective ≡ block) ↔ ((requested ≡ block) × (able ≡ true))
  pub prevents : (c.preoperation_prevention ≡ true) ↔ (c.effective ≡ block)
  pub early : (c.timing ≡ pre_operation) ↔ (c.effective ≡ block)
  pub kills : (c.enforcement_backend ≡ signal_kill) ↔ (c.effective ≡ kill)
  pub kept : (c.downgrade ≡ none) ↔ (c.effective ≡ requested)
  pub told :
      (d : DecisionDowngrade)
      → c.downgrade ≡ some d
      → (d.downgraded_from ≡ requested) × (d.to ≡ c.effective)

-- No backend for blocking kills.
never_kills : (b : Option BlockPrototypeBackend) → backend_in_force b ≢ signal_kill
unfolding enforcement_backend_of
never_kills none = λ h. cc
never_kills (some bpf_lsm) = λ h. cc
never_kills (some seccomp) = λ h. cc

-- What a request to block becomes on a host that cannot.
abbrev fallen : DecisionKind → EnforcementRuntime → EnforcementAction → Text → EnforcementCapability
fallen fallback runtime action reason = record {
  requested = block;
  effective = safe_non_block_fallback fallback;
  action = action;
  runtime = runtime;
  requested_supported = false;
  enforcement_backend = backend_for_fallback (safe_non_block_fallback fallback);
  timing = timing_for_fallback (safe_non_block_fallback fallback);
  preoperation_prevention = false;
  downgrade =
      some (record {
        downgraded_from = block;
        to = safe_non_block_fallback fallback;
        reason = reason;
      });
}

fallen-IsHonest :
    (fallback : DecisionKind) (runtime : EnforcementRuntime) (action : EnforcementAction)
    (reason : Text)
    → IsHonest block fallback false (fallen fallback runtime action reason)
unfolding safe_non_block_fallback backend_for_fallback timing_for_fallback
fallen-IsHonest allow runtime action reason = ground arith
fallen-IsHonest notify runtime action reason = ground arith
fallen-IsHonest block runtime action reason = ground arith
fallen-IsHonest kill runtime action reason = ground arith
fallen-IsHonest review runtime action reason = ground arith

resolve_block-IsHonest :
    (fallback : DecisionKind) (runtime : EnforcementRuntime) (action : EnforcementAction)
    (c : PolicyRuntimeCapabilities)
    → IsHonest block fallback
        (can_preoperation_block runtime action c)
        (resolve_block fallback runtime action c)
unfolding resolve_block
resolve_block-IsHonest fallback runtime action c =
    elim (Bool-cases (can_preoperation_block runtime action c)) [
      | inl e ↦ rw (e, resolve_block) (ground (arith, never_kills c.preoperation_block_backend))
      | inr e ↦ rw (e, resolve_block) (fallen-IsHonest fallback runtime action _)
    ]

-- Every resolution blocks, in time and with the claim of prevention, exactly if a block is asked
-- for and the host can block the action; its backend kills exactly if it decides to kill; it
-- reports a downgrade exactly if the decision is not the one asked for, and the downgrade names
-- both.
pub resolve-IsHonest :
    (requested fallback : DecisionKind) (runtime : EnforcementRuntime) (event : EventType)
    (c : PolicyRuntimeCapabilities)
    → IsHonest requested fallback
        (can_preoperation_block runtime (from_event_type event) c)
        (resolve requested fallback runtime event c)
unfolding resolve
resolve-IsHonest allow fallback runtime event c = ground arith
resolve-IsHonest notify fallback runtime event c = ground arith
resolve-IsHonest review fallback runtime event c = ground arith
resolve-IsHonest kill fallback runtime event c = ground arith
resolve-IsHonest block fallback runtime event c =
    resolve_block-IsHonest fallback runtime (from_event_type event) c

-- If the host can block anything, it can block some kind of event.
any_action :
    (c : PolicyRuntimeCapabilities)
    → any_preoperation_block_available c ≡ true
    → (event : EventType) × (can_preoperation_block c.runtime (from_event_type event) c ≡ true)
unfolding any_preoperation_block_available can_preoperation_block supports any_enabled
    from_event_type
any_action c h =
    let o = c.preoperation_block in
    elim (Bool-cases o.exec) [
      | inl e ↦ (EventType.exec, ground (arith, h, e))
      | inr e1 ↦ elim (Bool-cases o.file_read) [
        | inl e ↦ (file_open, ground (arith, h, e))
        | inr e2 ↦ elim (Bool-cases o.file_write) [
          | inl e ↦ (file_create, ground (arith, h, e))
          | inr e3 ↦ elim (Bool-cases o.network_connect) [
            | inl e ↦ (EventType.network_connect, ground (arith, h, e))
            | inr e4 ↦ (EventType.credential_read, ground (arith, h, e1, e2, e3, e4))
          ]
        ]
      ]
    ]

no_action :
    (c : PolicyRuntimeCapabilities) (action : EnforcementAction)
    → any_preoperation_block_available c ≡ false
    → can_preoperation_block c.runtime action c ≡ false
unfolding any_preoperation_block_available can_preoperation_block supports any_enabled
no_action c EnforcementAction.exec h = ground arith
no_action c file_read h = ground arith
no_action c file_write h = ground arith
no_action c EnforcementAction.network_connect h = ground arith
no_action c EnforcementAction.credential_read h = ground arith
no_action c other h = ground arith

abbrev announced :
    DecisionKind → DecisionKind → PolicyRuntimeCapabilities → Option DecisionDowngrade
announced requested fallback c =
    if is_block requested && not (any_preoperation_block_available c)
    then some (downgraded_at_start c.runtime (safe_non_block_fallback fallback))
    else none

announced_met :
    (requested fallback : DecisionKind) (c : PolicyRuntimeCapabilities) (d : DecisionDowngrade)
    → announced requested fallback c ≡ some d
    → (requested ≡ block)
      × ((event : EventType) → (resolve requested fallback c.runtime event c).effective ≡ d.to)
unfolding resolve resolve_block
announced_met allow fallback c d h = cc
announced_met notify fallback c d h = cc
announced_met kill fallback c d h = cc
announced_met review fallback c d h = cc
announced_met block fallback c d h = elim (Bool-cases (any_preoperation_block_available c)) [
  | inl e ↦ cc (rw e at h)
  | inr e ↦
      let same : downgraded_at_start c.runtime (safe_non_block_fallback fallback) ≡ d =
        cc (rw e at h) in
      (
        refl,
        λ event. rw (no_action c (from_event_type event) e, resolve_block) (ap (λ x. x.to) same),
      )
]

silent_met :
    (requested fallback : DecisionKind) (c : PolicyRuntimeCapabilities)
    → announced requested fallback c ≡ none
    → (requested ≢ block)
      ⊎ ((event : EventType) × ((resolve requested fallback c.runtime event c).effective ≡ block))
unfolding resolve resolve_block
silent_met allow fallback c h = inl (λ e. cc)
silent_met notify fallback c h = inl (λ e. cc)
silent_met kill fallback c h = inl (λ e. cc)
silent_met review fallback c h = inl (λ e. cc)
silent_met block fallback c h = elim (Bool-cases (any_preoperation_block_available c)) [
  | inl e ↦ let (event, able) = any_action c e in inr (event, rw (able, resolve_block) refl)
  | inr e ↦ cc (rw e at h)
]

-- If a downgrade is announced at the start, a block is asked for and every event takes the
-- decision announced; if none is, the policy asks for no block or some kind of event is blocked.
pub startup_downgrade-agrees :
    (c : PolicyRuntimeCapabilities) (p : Policy)
    → ((d : DecisionDowngrade)
        → startup_downgrade c p ≡ some d
        → (p.enforcement.requested ≡ block)
          × ((event : EventType) → (effective_decision c event p).effective ≡ d.to))
      × (startup_downgrade c p ≡ none
          → (p.enforcement.requested ≢ block)
            ⊎ ((event : EventType) × ((effective_decision c event p).effective ≡ block)))
unfolding startup_downgrade effective_decision
startup_downgrade-agrees c p = (
  announced_met p.enforcement.requested p.enforcement.fallback c,
  silent_met p.enforcement.requested p.enforcement.fallback c,
)
