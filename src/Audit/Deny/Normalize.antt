-- ===== src/Audit/Deny/Normalize.antt =====
-- The gates between a model's decision and a refusal: `normalizeCyberOnlyScopeV24`, `normalizeCyberEvidenceGateV28`,
-- `confirmedCyberBlockV29` and `cyberDenyVerdict` of internal/platform/audit_v24_scope_precision.go,
-- audit_v28_defensive_scope.go, audit_v29_uncertainty_fail_open.go and audit_cyber_deny.go.
use newapi_risk_platform.Base.{
  ℕ, ◌*◌, Bool, true, false, not, ◌&&◌, ◌||◌, String, List, [], ◌∷◌, Option, none, some, leb, ltb,
  str_eq, if◌then◌else◌, max,
}
use newapi_risk_platform.Audit.Types.{
  Verdict, allow, block, review, unknown, AuditDecision, plain_decision, AuditProfile,
}
use newapi_risk_platform.Audit.Texts.{
  trim, is_blank, is_normalized, is_one_of, mentions, begins_with, equal_fold,
}
use Prim.Native.String.{◌++◌ as append}

-- What the gates read of an administrator's rule.
pub record Rule : Type 0 where
  pub id : ℕ
  pub code : String
  pub category : String
  pub action : Verdict
  pub enabled : Bool

-- The regular expressions of the gates, by the texts that they match.
pub record Patterns : Type 0 where
  pub scan_capability : String → Bool
  pub concrete_harmful_action : String → Bool
  pub active_security_scan : String → Bool
  pub passive_scan_reference : String → Bool
  pub git_history_label : AuditDecision → Bool
  pub git_history_operation : String → Bool
  pub git_history_evidence : String → Bool
  pub git_history_cyber_purpose : String → Bool

-- The engine's state as the gates see it; `unit` is the confidence .05.
pub record Engine : Type 0 where
  pub loaded : List Rule
  pub baseline : List Rule
  pub patterns : Patterns
  pub unit : ℕ

abbrev pub is_allow : Verdict → Bool
is_allow allow = true
is_allow _ = false

abbrev pub is_block : Verdict → Bool
is_block block = true
is_block _ = false

abbrev pub is_review : Verdict → Bool
is_review review = true
is_review _ = false

abbrev denied_categories : List String
denied_categories =
    "credential_access" ∷ "credential_theft" ∷ "exploitation" ∷ "malware" ∷ "security_testing"
    ∷ "reconnaissance" ∷ "security_evasion" ∷ "defense_evasion" ∷ "exfiltration" ∷ "persistence"
    ∷ "command_and_control" ∷ "privilege_escalation" ∷ "request_tampering" ∷ "reverse_engineering"
    ∷ "web_automation" ∷ "local_probing" ∷ "network_probing" ∷ "network_reconnaissance"
    ∷ "port_scanning" ∷ "system_configuration" ∷ "illicit" ∷ []

unfoldable pub cyber_denied_category : String → Bool
unfolding mentions
cyber_denied_category category =
    mentions category "cyber" && not (is_normalized category "non_cyber")
    || is_one_of category denied_categories

-- A confidence is a finite number: the decoder refuses the others.
unfoldable pub audit_confidence_meets : Engine → AuditDecision → (threshold : ℕ) → Bool
audit_confidence_meets e d threshold =
    if str_eq d.confidence_kind "qualitative"
    then str_eq d.confidence_label "high" && leb threshold (18 * e.unit)
    else leb threshold d.confidence

-- The candidate that the record of the review keeps is left out.
unfoldable pub cyber_uncertainty_allow : AuditDecision → (source : String) → AuditDecision
cyber_uncertainty_allow d source =
    plain_decision allow "audit_uncertainty" "" 0
      (if is_blank source then "model_uncertainty_fail_open_v29" else source)

-- An allow of the platform in place of a decision, which it remembers.
abbrev provisional : Engine → AuditDecision → (category source : String) → AuditDecision
provisional e d category source =
    let plain = plain_decision allow category "" (max d.confidence (19 * e.unit)) source in
    record plain {
      confidence_kind = d.confidence_kind;
      confidence_label = d.confidence_label;
      policy_original = some d.verdict;
    }

unfoldable pub provisional_cyber_allow : Engine → AuditDecision → AuditDecision
provisional_cyber_allow e d =
    provisional e d "benign_security_operations" "model_evidence_normalization_v28"

abbrev pub is_model_judgement : AuditDecision → Bool
is_model_judgement d = not (is_allow d.verdict) && begins_with d.source "model"

unfoldable pub normalize_cyber_only_scope :
    Engine → AuditDecision → (text source : String) → AuditDecision
normalize_cyber_only_scope e d text source =
    let p = e.patterns in
    if not (is_model_judgement d)
      || not (p.git_history_label d)
      || not (p.git_history_operation text) && not (p.git_history_operation source)
      || not (is_blank d.evidence) && not (p.git_history_evidence d.evidence)
      || p.git_history_cyber_purpose text
      || p.git_history_cyber_purpose source
    then d
    else provisional e d "normal_dev" "model_scope_normalization"

unfoldable pub normalize_cyber_evidence_gate :
    Engine → AuditDecision → (text source : String) → AuditDecision
normalize_cyber_evidence_gate e d text source =
    let p = e.patterns in
    let combined = append (append text "\n") source in
    let evidence = trim d.evidence in
    let scan = p.scan_capability evidence in
    if not (is_model_judgement d)
    then d
    else if str_eq evidence "" || not scan && not (p.concrete_harmful_action evidence)
    then provisional_cyber_allow e d
    else if scan && p.active_security_scan combined && not (p.passive_scan_reference evidence)
    then d
    else if scan && not (p.concrete_harmful_action combined)
    then provisional_cyber_allow e d
    else d

-- An enabled rule that blocks has the code.
abbrev pub governs : String → List Rule → Bool
governs code [] = false
governs code (r ∷ rs) = r.enabled && is_block r.action && equal_fold r.code code || governs code rs

unfoldable pub canonical_cyber_block_risk_code : Engine → String → Bool
canonical_cyber_block_risk_code e code =
    not (is_blank code) && (governs code e.loaded || governs code e.baseline)

abbrev pub semantic_harm_types : List String
semantic_harm_types =
    "credential_theft" ∷ "deceptive_access" ∷ "unauthorized_access" ∷ "malware" ∷ "exfiltration"
    ∷ "destructive_impact" ∷ "security_evasion" ∷ "abusive_ai_operation" ∷ []

unfoldable pub confirmed_cyber_block : Engine → AuditDecision → Bool
confirmed_cyber_block e d =
    is_block d.verdict
    && not (is_blank d.evidence)
    && e.patterns.concrete_harmful_action (trim d.evidence)
    && (canonical_cyber_block_risk_code e d.risk_code
        || d.evidence_verified
          && is_one_of d.harm_type semantic_harm_types
          && is_one_of d.evidence_relation ("direct_request" ∷ "adopted_reference" ∷ []))

abbrev pub is_recorded : Option Verdict → Bool
is_recorded none = false
is_recorded (some _) = true

unfoldable pub cyber_decision_needs_fail_open : Engine → AuditDecision → Bool
cyber_decision_needs_fail_open e d =
    is_review d.verdict
    || is_block d.verdict && not (confirmed_cyber_block e d)
    || is_allow d.verdict && is_recorded d.policy_original

abbrev pub verdict_case : Engine → AuditDecision → Verdict → AuditDecision
verdict_case e d allow =
    if cyber_denied_category d.category
      || not (str_eq d.risk_code "")
      || not (audit_confidence_meets e d (18 * e.unit))
    then cyber_uncertainty_allow d "model_uncertainty_fail_open_v29"
    else record d { risk_code = ""; evidence = "" }
verdict_case e d review = cyber_uncertainty_allow d "model_review_fail_open_v29"
verdict_case e d block = d
verdict_case e d (unknown _) = cyber_uncertainty_allow d "model_uncertainty_fail_open_v29"

unfoldable pub cyber_deny_verdict : Engine → AuditDecision → AuditDecision
cyber_deny_verdict e d = verdict_case e d d.verdict

unfoldable pub cyber_low_confidence_allow_needs_verification : AuditProfile → AuditDecision → Bool
cyber_low_confidence_allow_needs_verification p d =
    is_allow d.verdict
    && not (str_eq d.confidence_kind "qualitative")
    && ltb 0 p.block_threshold
    && ltb d.confidence p.block_threshold
