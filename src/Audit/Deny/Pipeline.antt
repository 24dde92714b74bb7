-- ===== src/Audit/Deny/Pipeline.antt =====
-- `AuditEngine.Audit` of internal/platform/audit.go: extraction, rules, profile and models, each with its failure. The
-- fields of the result that only report sizes, timings and names are left out.

pub mod Explained
use newapi_risk_platform.Base.{
  ℕ, ◌+◌, ◌-◌, Bool, true, false, not, ◌&&◌, ◌||◌, String, List, [], ◌∷◌, Option, none, some, ltb,
  str_eq, if◌then◌else◌, ℤ, ◌⊎◌, inl, inr,
}
use text.Mathlib.Text.{starts_with}
use newapi_risk_platform.Audit.Types.{
  Verdict, allow, review, AuditDecision, plain_decision, AuditError, deadline_exceeded, canceled,
  new_audit_model_call_error, audit_model_error_details, Result, ok, err, AuditProfile,
}
use newapi_risk_platform.Audit.Failover.{
  Surroundings, Answer, call_model_with_failover, FailoverMetadata, cyber_deny_profile,
}
use newapi_risk_platform.Audit.Deny.Normalize.{Engine, is_review, cyber_uncertainty_allow}
use newapi_risk_platform.Audit.Deny.Rules.{
  Suppression, Matcher, append_weak, match_cyber_deny_rules,
}

-- What the extraction of a request's text found.
pub record Extraction : Type 0 where
  pub error : Option AuditError
  pub text : String
  pub rule_text : String
  pub coverage_status : String
  pub serialized_tool_documents : ℕ

pub data LookupError : Type 0 where
  lookup_deadline lookup_canceled not_found lookup_failed : LookupError

-- The rest of the program. A rule's weak signals make the models verify a clean allow.
pub record Platform (W : Type 0) : Type 0 where
  pub ctx_err : W → Option AuditError × W
  pub extract_cyber_audit_text : List ℕ → W → Extraction × W
  pub matcher : Matcher W
  pub rule_load_failed : W → Bool
  pub get_audit_profile : Option ℤ → W → (AuditProfile ⊎ LookupError) × W
  pub surroundings : (require_verification : Bool) → Surroundings W

pub record AuditResult : Type 0 where
  pub decision : AuditDecision
  pub error_class : String
  pub failure_stage : String
  pub http_status : ℕ
  pub input_view : String
  pub suppressions : List Suppression
  pub used : Option AuditProfile
  pub metadata : Option FailoverMetadata
  pub tokens_over_limit : ℕ

abbrev pub empty_result : AuditResult
empty_result = record {
  decision = plain_decision allow "" "" 1 "empty";
  error_class = "";
  failure_stage = "";
  http_status = 0;
  input_view = "";
  suppressions = [];
  used = none;
  metadata = none;
  tokens_over_limit = 0;
}

abbrev platform_failure : AuditDecision
platform_failure =
    plain_decision allow "audit_uncertainty" "" 0 "platform_uncertainty_fail_open_v29"

-- `fail`: no error of these stages wraps the end of the context.
unfoldable pub fail : AuditError → (stage : String) → AuditResult → AuditResult
fail e stage r = record r {
  error_class = (audit_model_error_details e).0;
  failure_stage = stage;
  decision = platform_failure;
}

unfoldable pub audit_incomplete_input_decision : AuditDecision
audit_incomplete_input_decision =
    plain_decision allow "audit_uncertainty" "" 0 "coverage_fail_open_v29"

abbrev lookup_class : LookupError → AuditError
lookup_class lookup_deadline = new_audit_model_call_error "audit_profile_lookup_timeout" 0
lookup_class lookup_canceled = new_audit_model_call_error "audit_cancelled" 0
lookup_class not_found = new_audit_model_call_error "audit_profile_not_found" 0
lookup_class lookup_failed = new_audit_model_call_error "audit_profile_lookup_failed" 0

-- The end of the context comes first; the last case is a profile that is disabled.
unfoldable pub audit_profile_failure : Option AuditError → AuditProfile ⊎ LookupError → AuditError
audit_profile_failure (some e) found = e
audit_profile_failure none (inr e) = lookup_class e
audit_profile_failure none (inl p) = new_audit_model_call_error "audit_profile_disabled" 0

abbrev pub Ruled : Type 0 → Type 0
Ruled W = Result (Option AuditDecision) × List Suppression × W

abbrev view_of : Result (Option AuditDecision) → String → String
view_of (ok (some d)) view = view
view_of _ view = ""

abbrev pub is_empty_list : List Suppression → Bool
is_empty_list [] = true
is_empty_list (_ ∷ _) = false

module _ {W : Type 0} (env : Platform W) (engine : Engine) where
  abbrev pub merge_weak : List Suppression → Ruled W → String × Ruled W
  merge_weak weak (a, decoded, w) =
      (view_of a "decoded_tool_text", (a, append_weak weak decoded, w))

  abbrev pub decoded_pass : Extraction → Ruled W → String × Ruled W
  decoded_pass x (ok none, weak, w) =
      if ltb 0 x.serialized_tool_documents
      then merge_weak weak (match_cyber_deny_rules env.matcher engine x.text w)
      else ("", (ok none, weak, w))
  decoded_pass x (a, weak, w) = (view_of a "raw_input", (a, weak, w))

  -- The raw text, and then the decoded text of tools if nothing matched.
  unfoldable pub match_both_views : Extraction → W → String × Ruled W
  match_both_views x w = decoded_pass x (match_cyber_deny_rules env.matcher engine x.rule_text w)

  abbrev Audited : Type 0
  Audited = AuditResult × W

  unfoldable pub unless_failed :
      Option AuditError → (stage : String) → AuditResult → W → Audited → Audited
  unless_failed none stage r w next = next
  unless_failed (some e) stage r w next = (fail e stage r, w)

  -- The class and the status of a model's error, unless the context has ended meanwhile.
  abbrev model_error : Option AuditError → AuditError → String × ℕ
  model_error none e = audit_model_error_details e
  model_error (some ended) e =
      let details = audit_model_error_details e in
      if starts_with details.0 "cyber_" || starts_with details.0 "fusion_"
      then details
      else audit_model_error_details ended

  abbrev model_failure : String × ℕ → AuditResult → AuditResult
  model_failure details r = record r {
    error_class = details.0;
    failure_stage = if str_eq details.0 "audit_capacity_exceeded" then "planning" else "model";
    http_status = details.1;
    decision = plain_decision allow "audit_uncertainty" "" 0 "model_error_fail_open_v29";
  }

  -- A review that is left is an allow.
  unfoldable pub conclude_model : Result AuditDecision → AuditResult → W → Audited
  conclude_model (ok d) r w = (
    record r {
      decision =
          if is_review d.verdict then cyber_uncertainty_allow d "model_review_fail_open_v29" else d;
    },
    w,
  )
  conclude_model (err e) r w =
      let (ended, w') = env.ctx_err w in (model_failure (model_error ended e) r, w')

  abbrev tokens_over : FailoverMetadata → ℕ
  tokens_over m =
      let c = m.call_metadata in
      let tokens = c.requested_tokens + c.observed_output_tokens in
      if ltb c.context_window_tokens tokens && ltb 0 c.context_window_tokens
      then tokens - c.context_window_tokens
      else 0

  unfoldable pub ask_models : AuditProfile → AuditResult → W → Audited
  ask_models p r w =
      let (a, w1) =
        call_model_with_failover (env.surroundings (not (is_empty_list r.suppressions))) true
          (cyber_deny_profile p) w in
      let reported : AuditResult = record r {
        used = some a.used;
        metadata = some a.metadata;
        tokens_over_limit = tokens_over a.metadata;
      } in
      conclude_model a.result reported w1

  abbrev pub failed_profile : AuditProfile ⊎ LookupError → AuditResult → W → Audited
  failed_profile found r w =
      let (ended, w') = env.ctx_err w in (fail (audit_profile_failure ended found) "profile" r, w')

  unfoldable pub with_profile : AuditProfile ⊎ LookupError → AuditResult → W → Audited
  with_profile (inr e) r w = failed_profile (inr e) r w
  with_profile (inl p) r w = if p.enabled then ask_models p r w else failed_profile (inl p) r w

  abbrev pub look_up : Option ℤ → AuditResult → W → Audited
  look_up target r w =
      let (ended, w1) = env.ctx_err w in
      let (found, w2) = env.get_audit_profile target w1 in
      unless_failed ended "profile" r w1 (with_profile found r w2)

  abbrev pub incomplete : AuditResult → AuditResult
  incomplete r = record r {
    error_class = "input_coverage";
    failure_stage = "coverage";
    decision = audit_incomplete_input_decision;
  }

  unfoldable pub without_match : Option ℤ → Extraction → AuditResult → W → Audited
  without_match target x r w =
      if env.rule_load_failed w
      then (fail (new_audit_model_call_error "rules_unavailable" 0) "rules" r, w)
      else if str_eq x.coverage_status "complete"
      then look_up target r w
      else (incomplete r, w)

  unfoldable pub after_rules :
      Option ℤ → Extraction → (view : String) → Ruled W → AuditResult → Audited
  after_rules target x view (err e, weak, w) r =
      (fail e "rules" (record r { suppressions = weak }), w)
  after_rules target x view (ok (some d), weak, w) r =
      (record r { suppressions = weak; input_view = view; decision = d }, w)
  after_rules target x view (ok none, weak, w) r =
      without_match target x (record r { suppressions = weak }) w

  unfoldable pub audit : Option ℤ → (body : List ℕ) → W → Audited
  audit target body w =
      let (x, w1) = env.extract_cyber_audit_text body w in
      let (ended1, w2) = env.ctx_err w1 in
      let (ended2, w3) = env.ctx_err w2 in
      let (view, ruled) = match_both_views x w3 in
      unless_failed x.error "extraction" empty_result w1 (
        unless_failed ended1 "extraction" empty_result w2 (
          unless_failed ended2 "scope" empty_result w3
            (after_rules target x view ruled empty_result)))
