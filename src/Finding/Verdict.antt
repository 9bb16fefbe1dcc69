-- ===== src/Finding/Verdict.antt =====
-- When the analyzer is silent, and what every finding carries.
use apolysis.Common.{
  ◌⊎◌, ◌↔◌, ◌≤◌, ◌≡◌, ◌≢◌, refl, Bool, true, false, not, Option, none, some, List, [], ◌∷◌, ◌++◌,
  arith, All, All-append, length, length-append, if◌then◌else◌,
}
use apolysis.Common.Text.{Text, text}
use apolysis.Intent.{SessionIntent}
use apolysis.Finding.{
  EffectKind, exec, file_read, file_write, network_connect, ObservedEffect, FindingKind,
  FindingDecision, notify, review, AccountabilityFinding, finding, declares, has_path_policy,
  allows_path, allows_egress, is_dangerous_command, kind_findings, declaration_findings, evaluate,
  finding_schema_v1,
}

-- The intent allows the effect: its action class is declared, and its resource or command is in
-- order. Reading a credential or a service account token never is.
abbrev pub IsInOrder : EffectKind → SessionIntent → ObservedEffect → Type 0
IsInOrder EffectKind.credential_read intent effect = Unit × ⊥
IsInOrder EffectKind.service_account_token_read intent effect = Unit × ⊥
IsInOrder file_read intent effect =
    (has_path_policy intent ≡ false) ⊎ (allows_path intent effect.resource ≡ true)
IsInOrder file_write intent effect =
    (has_path_policy intent ≡ false) ⊎ (allows_path intent effect.resource ≡ true)
IsInOrder network_connect intent effect = allows_egress intent effect.resource ≡ true
IsInOrder exec intent effect = is_dangerous_command effect.actor ≡ false

kind_findings-nil_iff :
    (k : EffectKind) (intent : SessionIntent) (effect : ObservedEffect)
    → (kind_findings k intent effect ≡ []) ↔ IsInOrder k intent effect
unfolding kind_findings
kind_findings-nil_iff EffectKind.credential_read intent effect = (λ h. cc, λ h. absurd h.1)
kind_findings-nil_iff EffectKind.service_account_token_read intent effect =
    (λ h. cc, λ h. absurd h.1)
kind_findings-nil_iff file_read intent effect = ground arith
kind_findings-nil_iff file_write intent effect = ground arith
kind_findings-nil_iff network_connect intent effect = ground arith
kind_findings-nil_iff exec intent effect = ground arith

append-nil_iff : (xs ys : List AccountabilityFinding) → (xs ++ ys ≡ []) ↔ ((xs ≡ []) × (ys ≡ []))
append-nil_iff [] ys = ground arith
append-nil_iff (x ∷ xs) ys = (λ h. cc, λ (e, f). cc)

-- With an intent, an effect gives no finding exactly if its action class is declared and the
-- effect is in order for its kind; without an intent there is always a finding.
pub evaluate-nil_iff :
    (intent : SessionIntent) (effect : ObservedEffect)
    → ((evaluate (some intent) effect ≡ [])
        ↔ ((declares intent effect.kind ≡ true) × IsInOrder effect.kind intent effect))
      × (evaluate none effect ≢ [])
unfolding evaluate
evaluate-nil_iff intent effect = ((to, from), λ h. cc)
  where
    to :
        evaluate (some intent) effect ≡ []
        → (declares intent effect.kind ≡ true) × IsInOrder effect.kind intent effect
    to h =
        let (d, k) =
          (append-nil_iff (declaration_findings intent effect)
              (kind_findings effect.kind intent effect)).0
            h in
        (ground arith, (kind_findings-nil_iff effect.kind intent effect).0 k)

    from :
        (declares intent effect.kind ≡ true) × IsInOrder effect.kind intent effect
        → evaluate (some intent) effect ≡ []
    from (d, o) = rw d ((kind_findings-nil_iff effect.kind intent effect).1 o)

-- A finding is about the effect: it carries the effect's session, evidence, runtime and boundary, and
-- asks for review unless it reports the read of a credential.
pub record IsAbout (effect : ObservedEffect) (f : AccountabilityFinding) : Type 0 where
  pub schema : f.schema_version ≡ finding_schema_v1
  pub session : f.session_id ≡ effect.session_id
  pub evidence : f.evidence_ref ≡ effect.evidence_ref
  pub runtime : f.runtime ≡ effect.runtime
  pub boundary : f.evidence_boundary ≡ effect.evidence_boundary
  pub graded : (f.decision ≡ review) ↔ (f.kind ≢ FindingKind.credential_read)

finding-IsAbout :
    (effect : ObservedEffect) (k : FindingKind) (d : FindingDecision) (reason : Text)
    → ((d ≡ review) ↔ (k ≢ FindingKind.credential_read))
    → IsAbout effect (finding effect k d reason)
unfolding finding
finding-IsAbout effect k d reason g = record {
  schema = refl;
  session = refl;
  evidence = refl;
  runtime = refl;
  boundary = refl;
  graded = g;
}

reviewed :
    (k : FindingKind)
    → k ≢ FindingKind.credential_read
    → (review ≡ review) ↔ (k ≢ FindingKind.credential_read)
reviewed k n = (λ e. n, λ m. refl)

-- At most one finding, and it is about the effect.
abbrev AtMostOne : ObservedEffect → List AccountabilityFinding → Type 0
AtMostOne effect fs = All (IsAbout effect) fs × (length fs ≤ 1)

AtMostOne-if :
    (b : Bool) (effect : ObservedEffect) (k : FindingKind) (reason : Text)
    → k ≢ FindingKind.credential_read
    → AtMostOne effect (if b then finding effect k review reason ∷ [] else [])
AtMostOne-if true effect k reason n =
    ((finding-IsAbout effect k review reason (reviewed k n), tt), omega arith)
AtMostOne-if false effect k reason n = (tt, omega arith)

kind_findings-AtMostOne :
    (k : EffectKind) (intent : SessionIntent) (effect : ObservedEffect)
    → AtMostOne effect (kind_findings k intent effect)
unfolding kind_findings
kind_findings-AtMostOne EffectKind.credential_read intent effect =
    ((finding-IsAbout effect _ notify _ (λ e. cc, λ n. absurd (n refl)), tt), omega arith)
kind_findings-AtMostOne EffectKind.service_account_token_read intent effect =
    AtMostOne-if true effect _ _ (λ e. cc)
kind_findings-AtMostOne file_read intent effect = AtMostOne-if _ effect _ _ (λ e. cc)
kind_findings-AtMostOne file_write intent effect = AtMostOne-if _ effect _ _ (λ e. cc)
kind_findings-AtMostOne network_connect intent effect = AtMostOne-if _ effect _ _ (λ e. cc)
kind_findings-AtMostOne exec intent effect = AtMostOne-if _ effect _ _ (λ e. cc)

length-append_le :
    (xs ys : List AccountabilityFinding) → length xs ≤ 1 → length ys ≤ 1 → length (xs ++ ys) ≤ 2
length-append_le xs ys h k = omega (arith, length-append xs ys)

-- An effect gives at most two findings; each carries the session, evidence, runtime and boundary
-- of the effect and asks for review unless it reports the read of a credential.
pub evaluate-IsAbout :
    (intent : Option SessionIntent) (effect : ObservedEffect)
    → All (IsAbout effect) (evaluate intent effect) × (length (evaluate intent effect) ≤ 2)
unfolding evaluate
evaluate-IsAbout none effect =
    ((finding-IsAbout effect _ review _ (reviewed _ (λ e. cc)), tt), omega arith)
evaluate-IsAbout (some intent) effect =
    let (a, m) =
      AtMostOne-if (not (declares intent effect.kind)) effect FindingKind.undeclared_action
        (text "observed action class was not declared by intent") (λ e. cc) in
    let (b, n) = kind_findings-AtMostOne effect.kind intent effect in
    (
      All-append (IsAbout effect) _ _ a b,
      length-append_le (declaration_findings intent effect)
          (kind_findings effect.kind intent effect) m n,
    )
