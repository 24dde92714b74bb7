-- ===== src/Audit/Deny/Model/Confirmed.antt =====
-- When `callCyberDenyModel` refuses a text.
use newapi_risk_platform.Base.{
  ◌≡◌, refl, Bool, true, false, not, ◌&&◌, ◌||◌, String, List, [], ◌∷◌, ◌++◌, inl, inr, ◌⊎◌,
  if_holds, arith, Bool-cases,
}
use newapi_risk_platform.Audit.Types.{
  Verdict, allow, block, review, unknown, AuditDecision, Result, ok, err, AuditProfile,
}
use newapi_risk_platform.Audit.Deny.Normalize.{
  Rule, Engine, is_block, governs, canonical_cyber_block_risk_code, cyber_uncertainty_allow,
  normalize_cyber_evidence_gate, confirmed_cyber_block, cyber_decision_needs_fail_open,
  cyber_deny_verdict, verdict_case,
}
use newapi_risk_platform.Audit.Texts.{trim, is_blank, is_one_of, equal_fold}
use newapi_risk_platform.Audit.Deny.Rules.Vetoes.{Any}
use newapi_risk_platform.Audit.Deny.Grounding.{Models, SemanticState}
use newapi_risk_platform.Audit.Deny.Model.{
  needs_verification, after_adjudication, after_candidate, call_cyber_deny_model,
}

-- A rule that blocks has the code.
abbrev pub Governs : String → Rule → Type 0
Governs code r = (r.enabled ≡ true) × (r.action ≡ block) × (equal_fold r.code code ≡ true)

-- The eight harms, and the two relations, that a model may name.
abbrev pub IsNamedHarm : AuditDecision → Type 0
IsNamedHarm d =
    (is_one_of d.harm_type (
        "credential_theft" ∷ "deceptive_access" ∷ "unauthorized_access" ∷ "malware" ∷ "exfiltration"
        ∷ "destructive_impact" ∷ "security_evasion" ∷ "abusive_ai_operation" ∷ [])
      ≡ true)
    × (is_one_of d.evidence_relation ("direct_request" ∷ "adopted_reference" ∷ []) ≡ true)

-- The evidence is there, matches the expression of concrete harm, and has a rule's code or a verified quote of a named harm.
unfoldable pub IsConfirmed : Engine → AuditDecision → Type 0
IsConfirmed e d =
    (is_blank d.evidence ≡ false)
    × (e.patterns.concrete_harmful_action (trim d.evidence) ≡ true)
    × (((is_blank d.risk_code ≡ false) × Any (Governs d.risk_code) (e.loaded ++ e.baseline))
        ⊎ ((d.evidence_verified ≡ true) × IsNamedHarm d))

-- A decision is an allow, or a block that is confirmed.
unfoldable pub IsAllowOrConfirmed : Engine → AuditDecision → Type 0
IsAllowOrConfirmed e d = (d.verdict ≡ allow) ⊎ ((d.verdict ≡ block) × IsConfirmed e d)

-- The answers of which the decision, if there is one, is an allow or a confirmed block.
unfoldable pub IsGuarded : Engine → Result AuditDecision → Type 0
IsGuarded e (err _) = Unit
IsGuarded e (ok d) = IsAllowOrConfirmed e d

cyber_uncertainty_allow-IsAllowOrConfirmed :
    (e : Engine) (d : AuditDecision) (source : String)
    → IsAllowOrConfirmed e (cyber_uncertainty_allow d source)
unfolding cyber_uncertainty_allow IsAllowOrConfirmed
cyber_uncertainty_allow-IsAllowOrConfirmed e d source = inl refl

block_only : (v : Verdict) → is_block v ≡ true → v ≡ block
block_only block h = refl
block_only allow h = absurd (cc h)
block_only review h = absurd (cc h)
block_only (unknown s) h = absurd (cc h)

Any-append : {A : Type 0} (P : A → Type 0) (xs ys : List A) → Any P xs ⊎ Any P ys → Any P (xs ++ ys)
Any-append P [] ys (inl h) = absurd h
Any-append P [] ys (inr h) = h
Any-append P (x ∷ xs) ys (inl (inl h)) = inl h
Any-append P (x ∷ xs) ys (inl (inr h)) = inr (Any-append P xs ys (inl h))
Any-append P (x ∷ xs) ys (inr h) = inr (Any-append P xs ys (inr h))

governs-Any : (code : String) (rs : List Rule) → governs code rs ≡ true → Any (Governs code) rs
governs-Any code [] h = absurd (cc h)
governs-Any code (r ∷ rs) h =
    elim (Bool-cases (r.enabled && is_block r.action && equal_fold r.code code)) [
      | inl here ↦
          inl
            (ground (arith, here), block_only r.action (ground (arith, here)), ground (arith, here))
      | inr apart ↦ inr (governs-Any code rs (ground (arith, h, apart)))
    ]

canonical :
    (e : Engine) (code : String)
    → canonical_cyber_block_risk_code e code ≡ true
    → (is_blank code ≡ false) × Any (Governs code) (e.loaded ++ e.baseline)
unfolding canonical_cyber_block_risk_code
canonical e code h = (
  ground (arith, h),
  Any-append (Governs code) e.loaded e.baseline (elim (Bool-cases (governs code e.loaded)) [
    | inl loaded ↦ inl (governs-Any code e.loaded loaded)
    | inr apart ↦ inr (governs-Any code e.baseline (ground (arith, h, apart)))
  ]),
)

confirmed :
    (e : Engine) (d : AuditDecision)
    → d.verdict ≡ block
    → cyber_decision_needs_fail_open e d ≡ false
    → confirmed_cyber_block e d ≡ true
unfolding cyber_decision_needs_fail_open
confirmed e d b h = ground (arith, b, h)

confirmed_cyber_block-IsConfirmed :
    (e : Engine) (d : AuditDecision) → confirmed_cyber_block e d ≡ true → IsConfirmed e d
unfolding confirmed_cyber_block IsConfirmed
confirmed_cyber_block-IsConfirmed e d h = (
  ground (arith, h),
  ground (arith, h),
  elim (Bool-cases (canonical_cyber_block_risk_code e d.risk_code)) [
    | inl code ↦ inl (canonical e d.risk_code code)
    | inr other ↦
        inr (ground (arith, h, other), (ground (arith, h, other), ground (arith, h, other)))
  ],
)

verdict_case-IsAllowOrConfirmed :
    (e : Engine) (d : AuditDecision) (v : Verdict)
    → d.verdict ≡ v
    → cyber_decision_needs_fail_open e d ≡ false
    → IsAllowOrConfirmed e (verdict_case e d v)
unfolding IsAllowOrConfirmed
verdict_case-IsAllowOrConfirmed e d allow v h =
    if_holds (IsAllowOrConfirmed e) _
      (λ _. cyber_uncertainty_allow-IsAllowOrConfirmed e d "model_uncertainty_fail_open_v29")
      (λ _. inl v)
verdict_case-IsAllowOrConfirmed e d block v h =
    inr (v, confirmed_cyber_block-IsConfirmed e d (confirmed e d v h))
verdict_case-IsAllowOrConfirmed e d review v h =
    cyber_uncertainty_allow-IsAllowOrConfirmed e d "model_review_fail_open_v29"
verdict_case-IsAllowOrConfirmed e d (unknown s) v h =
    cyber_uncertainty_allow-IsAllowOrConfirmed e d "model_uncertainty_fail_open_v29"

cyber_deny_verdict-IsAllowOrConfirmed :
    (e : Engine) (d : AuditDecision)
    → cyber_decision_needs_fail_open e d ≡ false
    → IsAllowOrConfirmed e (cyber_deny_verdict e d)
unfolding cyber_deny_verdict
cyber_deny_verdict-IsAllowOrConfirmed e d h = verdict_case-IsAllowOrConfirmed e d d.verdict refl h

module _ {W : Type 0} (env : Models W) (engine : Engine) where
  abbrev Guards : Result AuditDecision × SemanticState × W → Type 0
  Guards a = IsGuarded engine a.0

  after_adjudication-IsGuarded :
      (text source : String) (a : Result AuditDecision × SemanticState × W)
      → IsGuarded engine (after_adjudication env engine text source a).0
  unfolding IsGuarded
  after_adjudication-IsGuarded text source (err e, s, w) = tt
  after_adjudication-IsGuarded text source (ok d, s, w) =
      let verified = normalize_cyber_evidence_gate engine d text source in
      if_holds Guards (cyber_decision_needs_fail_open engine verified)
        (λ _. cyber_uncertainty_allow-IsAllowOrConfirmed engine verified _)
        (λ h. cyber_deny_verdict-IsAllowOrConfirmed engine verified h)

  after_candidate-IsGuarded :
      (required : Bool) (p : AuditProfile) (text source : String) (r : Result AuditDecision)
      (s : SemanticState) (w : W)
      → IsGuarded engine (after_candidate env engine required p text source r s w).0
  unfolding IsGuarded
  after_candidate-IsGuarded required p text source (err e) s w = tt
  after_candidate-IsGuarded required p text source (ok d) s w =
      let c = normalize_cyber_evidence_gate engine d text source in
      if_holds Guards (cyber_decision_needs_fail_open engine c)
        (λ _. cyber_uncertainty_allow-IsAllowOrConfirmed engine c _)
        (λ h.
          if_holds Guards (is_block c.verdict || not (needs_verification required p c))
            (λ _. cyber_deny_verdict-IsAllowOrConfirmed engine c h)
            (λ _. after_adjudication-IsGuarded text source _))

  -- Whatever the models answer, the decision on a text, if there is one, is an allow, or a block whose evidence is not blank
  -- and matches the expression of concrete harm, and whose code, not blank, is that of an enabled rule that blocks, or else
  -- whose evidence is marked as verified, with one of eight harms and a direct or adopted relation to the request.
  pub call_cyber_deny_model-IsGuarded :
      (required : Bool) (p : AuditProfile) (text source : String) (s : SemanticState) (w : W)
      → IsGuarded engine (call_cyber_deny_model env engine required p text source s w).0
  unfolding call_cyber_deny_model
  call_cyber_deny_model-IsGuarded required p text source s w =
      after_candidate-IsGuarded required p text source _ _ _
