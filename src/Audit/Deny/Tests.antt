-- ===== src/Audit/Deny/Tests.antt =====
-- The audit on concrete rules and models.
use newapi_risk_platform.Base.{
  ℕ, Bool, true, false, String, [], ◌∷◌, Option, none, some, inl, str_eq, pos,
}
use newapi_risk_platform.Audit.Types.{block, AuditDecision, plain_decision, ok, AuditProfile}
use newapi_risk_platform.Audit.Failover.{Surroundings}
use newapi_risk_platform.Audit.Deny.Normalize.{Rule, Patterns, Engine}
use newapi_risk_platform.Audit.Deny.Rules.{RoleUnit, Evidence, Matcher, match_cyber_deny_rules}
use newapi_risk_platform.Audit.Deny.Rules.Vetoes.{IsVetoed, match_cyber_deny_rules-IsVetoed}
use newapi_risk_platform.Audit.Deny.Grounding.{Models, SemanticState}
use newapi_risk_platform.Audit.Deny.Model.{call_cyber_deny_model}
use newapi_risk_platform.Audit.Deny.Model.Confirmed.{IsGuarded, call_cyber_deny_model-IsGuarded}
use newapi_risk_platform.Audit.Deny.Pipeline.{Extraction, Platform, audit}
use newapi_risk_platform.Audit.Deny.Pipeline.Explained.{IsExplained, audit-IsExplained}

abbrev scan_rule : Rule
scan_rule = record {
  id = 1;
  code = "CYBER_SCAN";
  category = "reconnaissance";
  action = block;
  enabled = true;
}

-- A scan is harmful when the text is the one below.
abbrev patterns : Patterns
patterns = record {
  scan_capability = λ s. str_eq s "scan";
  concrete_harmful_action = λ s. str_eq s "scan";
  active_security_scan = λ s. true;
  passive_scan_reference = λ s. false;
  git_history_label = λ d. false;
  git_history_operation = λ s. false;
  git_history_evidence = λ s. false;
  git_history_cyber_purpose = λ s. false;
}

abbrev engine : Engine
engine = record { loaded = scan_rule ∷ []; baseline = []; patterns = patterns; unit = 5 }

abbrev unit_of : String → RoleUnit
unit_of s = record { index = 0; text = s; size = 4 }

abbrev finds : String → Option Evidence
finds s = if_scan (str_eq s "scan")
  where
    if_scan : Bool → Option Evidence
    if_scan true = some (record { start = 0; end = 4 })
    if_scan false = none

abbrev matcher : Matcher ℕ
matcher = record {
  ctx_err = λ w. (none, w);
  evidence_in = λ r u. finds u.text;
  evidence_after = λ r u n. none;
  rune_width = λ u n. 1;
  is_regex = λ r. true;
  is_precision_rule = λ r. false;
  weak_development_evidence = λ r u e. "";
  semantic_only_match = λ r u e. "";
  units_of = λ s. unit_of s ∷ [];
  whole = unit_of;
}

match_cyber_deny_rules-IsVetoed_example :
    IsVetoed matcher "scan" (scan_rule ∷ []) (match_cyber_deny_rules matcher engine "scan" 0).0
match_cyber_deny_rules-IsVetoed_example = match_cyber_deny_rules-IsVetoed matcher engine "scan" 0

abbrev profile : AuditProfile
profile = record {
  id = pos 1;
  enabled = true;
  fail_closed = true;
  retry_count = pos 0;
  fallback_profile_ids = [];
  block_threshold = 0;
  extra = [];
}

abbrev scan_block : AuditDecision
scan_block = record (plain_decision block "reconnaissance" "CYBER_SCAN" 95 "model") {
  evidence = "scan";
}

abbrev models : Models ℕ
models = record {
  ctx_err = λ w. (none, w);
  call_model_raw = λ repair p text source w. (record { decision = scan_block; error = none }, w);
  non_operational_audit_evidence = λ d source. false;
  semantic_verifier_profile = λ p w. (ok p, w);
  fusion_panel = λ p w. (ok [], w);
}

abbrev no_reviews : SemanticState
no_reviews = record { review_budget = 0; review_calls = 0; reviews = 0; records = [] }

call_cyber_deny_model-IsGuarded_example :
    IsGuarded engine (call_cyber_deny_model models engine false profile "scan" "" no_reviews 0).0
call_cyber_deny_model-IsGuarded_example =
    call_cyber_deny_model-IsGuarded models engine false profile "scan" "" no_reviews 0

abbrev extraction : Extraction
extraction = record {
  error = none;
  text = "scan";
  rule_text = "scan";
  coverage_status = "complete";
  serialized_tool_documents = 0;
}

abbrev surroundings : Surroundings ℕ
surroundings = record {
  ctx_err = λ w. (none, w);
  get_audit_profile = λ i w. (none, w);
  call_model = λ p format c w. ((ok scan_block, c), w);
  wait = λ n w. (none, w);
}

abbrev platform : Platform ℕ
platform = record {
  ctx_err = λ w. (none, w);
  extract_cyber_audit_text = λ body w. (extraction, w);
  matcher = matcher;
  rule_load_failed = λ w. false;
  get_audit_profile = λ target w. (inl profile, w);
  surroundings = λ required. surroundings;
}

audit-IsExplained_example :
    IsExplained platform engine extraction (audit platform engine none [] 0).0
audit-IsExplained_example = audit-IsExplained platform engine none [] 0
