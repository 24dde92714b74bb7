-- ===== src/Audit/Deny/Rules.antt =====
-- The match of the administrators' rules against a request: `matchCyberDenyRulesContext` of
-- internal/platform/audit_cyber_deny.go and `matchCyberRuleStructuredPreparedV31` of
-- internal/platform/audit_v25_structured_adjudication.go. What a pattern finds in a text is a parameter.
pub mod Vetoes
use newapi_risk_platform.Base.{
  ℕ, zero, suc, ◌+◌, ◌-◌, Bool, not, ◌&&◌, ◌||◌, String, List, [], ◌∷◌, ◌++◌, Option, none, some,
  leb, ltb, str_eq, if◌then◌else◌, length, max,
}
use newapi_risk_platform.Audit.Types.{
  block, AuditDecision, plain_decision, AuditError, new_audit_model_call_error, Result, ok, err,
}
use newapi_risk_platform.Audit.Deny.Normalize.{Rule, Engine, is_block}
use newapi_risk_platform.Audit.Texts.{is_blank}

-- A part of the request in one role, with its length in bytes.
pub record RoleUnit : Type 0 where
  pub index : ℕ
  pub text : String
  pub size : ℕ

-- The range of bytes that a pattern matched.
pub record Evidence : Type 0 where
  pub start : ℕ
  pub end : ℕ

pub record Suppression : Type 0 where
  pub rule_code : String
  pub unit_index : ℕ
  pub reason : String

pub record Matcher (W : Type 0) : Type 0 where
  pub ctx_err : W → Option AuditError × W
  pub evidence_in : Rule → RoleUnit → Option Evidence
  pub evidence_after : Rule → RoleUnit → ℕ → Option Evidence
  pub rune_width : RoleUnit → ℕ → ℕ
  pub is_regex : Rule → Bool
  pub is_precision_rule : Rule → Bool
  pub weak_development_evidence : Rule → RoleUnit → Evidence → String
  pub semantic_only_match : Rule → RoleUnit → Evidence → String
  pub units_of : String → List RoleUnit
  pub whole : String → RoleUnit

abbrev pub max_suppressions : ℕ
max_suppressions = 16

abbrev pub max_candidates : ℕ
max_candidates = 1024

unfoldable pub append_rule_suppression :
    List Suppression → Rule → RoleUnit → (reason : String) → List Suppression
append_rule_suppression items r u reason =
    if str_eq reason "" || leb max_suppressions (length items)
    then items
    else items ++ (record { rule_code = r.code; unit_index = u.index; reason = reason } ∷ [])

-- `weak = append(weak, item)` while there is room.
unfoldable pub append_weak : List Suppression → List Suppression → List Suppression
append_weak weak [] = weak
append_weak weak (s ∷ ss) =
    append_weak (if ltb (length weak) max_suppressions then weak ++ (s ∷ []) else weak) ss

-- What the match of one rule found.
pub data Found : Type 0 where
  matched : RoleUnit → Evidence → Found
  unmatched : Found
  stopped : AuditError → Found

-- The end of a unit: the candidates that are left, or the answer.
pub data Scan : Type 0 where
  answered : Found → Scan
  continue : ℕ → Scan

module _ {W : Type 0} (env : Matcher W) where
  unfoldable pub suppression_reason : Rule → RoleUnit → Evidence → String
  suppression_reason r u e =
      let weak =
        if env.is_regex r && env.is_precision_rule r
        then env.weak_development_evidence r u e
        else "" in
      if str_eq weak "" then env.semantic_only_match r u e else weak

  abbrev pub next_evidence : Rule → RoleUnit → Evidence → Option Evidence
  next_evidence r u e =
      let offset = e.start + max 1 (env.rune_width u e.start) in
      if not (env.is_regex r) || leb u.size offset then none else env.evidence_after r u offset

  abbrev Progress : Type 0
  Progress = Scan × List Suppression × W

  -- Evidence stands if nothing suppresses it; otherwise the scan goes on.
  unfoldable pub judge :
      Rule
      → RoleUnit
      → Evidence
      → Option AuditError
      → List Suppression
      → W
      → (List Suppression → Progress)
      → Progress
  judge r u e (some error) weak w next = (answered (stopped error), weak, w)
  judge r u e none weak w next =
      let reason = suppression_reason r u e in
      if str_eq reason ""
      then (answered (matched u e), weak, w)
      else next (append_rule_suppression weak r u reason)

  -- The matches in a unit, one after the other: `left` of them may be suppressed, and one more ends the scan.
  unfoldable pub scan_unit :
      Rule → RoleUnit → (left : ℕ) → Option Evidence → List Suppression → W → Progress
  scan_unit r u left none weak w = (continue left, weak, w)
  scan_unit r u zero (some e) weak w =
      let (ended, w') = env.ctx_err w in
      judge r u e ended weak w' (λ weak'. (
        answered (stopped (new_audit_model_call_error "cyber_rule_candidate_budget" 0)),
        weak',
        w',
      ))
  scan_unit r u (suc left) (some e) weak w =
      let (ended, w') = env.ctx_err w in
      judge r u e ended weak w' (λ weak'. scan_unit r u left (next_evidence r u e) weak' w')

  unfoldable pub after_unit : Progress → (ℕ → List Suppression → W → Progress) → Progress
  after_unit (answered f, weak, w) rest = (answered f, weak, w)
  after_unit (continue left, weak, w) rest = rest left weak w

  abbrev unless_ended : Option AuditError → List Suppression → W → Progress → Progress
  unless_ended none weak w next = next
  unless_ended (some error) weak w next = (answered (stopped error), weak, w)

  unfoldable pub scan_units : Rule → List RoleUnit → (left : ℕ) → List Suppression → W → Progress
  scan_units r [] left weak w = (continue left, weak, w)
  scan_units r (u ∷ us) left weak w =
      let (ended, w') = env.ctx_err w in
      unless_ended ended weak w'
        (after_unit (scan_unit r u left (env.evidence_in r u) weak w') (scan_units r us))

  -- A match that only the whole text has, across roles, is a suppression.
  unfoldable pub whole_match : Rule → String → List Suppression → List Suppression
  whole_match r text [] =
      let u = env.whole text in if is_blank text then [] else cross_role r u (env.evidence_in r u)
    where
      cross_role : Rule → RoleUnit → Option Evidence → List Suppression
      cross_role r u none = []
      cross_role r u (some e) =
          let specific =
            if env.is_regex r && env.is_precision_rule r
            then env.weak_development_evidence r u e
            else "" in
          append_rule_suppression [] r (record u { index = 0 })
            (if str_eq specific "" then "cross_role_or_noncurrent_match_disallowed" else specific)
  whole_match r text (s ∷ ss) = s ∷ ss

  abbrev conclude_scan : Rule → String → Progress → Found × List Suppression × W
  conclude_scan r text (answered f, weak, w) = (f, weak, w)
  conclude_scan r text (continue left, weak, w) = (unmatched, whole_match r text weak, w)

  unfoldable pub match_cyber_rule : Rule → String → W → Found × List Suppression × W
  match_cyber_rule r text w =
      conclude_scan r text (scan_units r (env.units_of text) (max_candidates - 1) [] w)

  abbrev Matched : Type 0
  Matched = Result (Option AuditDecision) × List Suppression × W

  abbrev rule_block : Rule → AuditDecision
  rule_block r = plain_decision block r.category r.code 0 "rule"

  unfoldable pub after_rule :
      Rule → Found → List Suppression → W → (List Suppression → W → Matched) → Matched
  after_rule r (stopped error) weak w rest = (err error, weak, w)
  after_rule r unmatched weak w rest = rest weak w
  after_rule r (matched u e) weak w rest =
      if is_block r.action
      then (ok (some (rule_block r)), weak, w)
      else rest (append_rule_suppression weak r u "non_block_rule_requires_semantic_review") w

  abbrev rule_unless_ended : Option AuditError → List Suppression → W → Matched → Matched
  rule_unless_ended none weak w next = next
  rule_unless_ended (some error) weak w next = (err error, weak, w)

  -- One rule after the other. `demoteGenericSecurityTestingRuleV28` is false for every rule.
  unfoldable pub match_rules : List Rule → String → List Suppression → W → Matched
  match_rules [] text weak w = (ok none, weak, w)
  match_rules (r ∷ rs) text weak w =
      let (ended, w1) = env.ctx_err w in
      let (found, suppressions, w2) = match_cyber_rule r text w1 in
      let skipped = match_rules rs text weak w1 in
      rule_unless_ended ended weak w1 (
        if r.enabled
        then after_rule r found (append_weak weak suppressions) w2 (match_rules rs text)
        else skipped)

  unfoldable pub match_cyber_deny_rules : Engine → String → W → Matched
  match_cyber_deny_rules e text w = match_rules (e.loaded ++ e.baseline) text [] w
