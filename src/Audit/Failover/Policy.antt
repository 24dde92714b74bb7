-- ===== src/Audit/Failover/Policy.antt =====
-- What the failover reads off errors and profiles: the classes that are retried or terminal, the merge of call
-- metadata, the panel that a fallback inherits, and the attempt log (internal/platform/audit_failover.go).
use newapi_risk_platform.Base.{
  ℕ, zero, suc, ◌+◌, ◌*◌, Bool, true, false, ◌&&◌, ◌||◌, String, List, [], ◌∷◌, ◌++◌, Option, none,
  some, ltb, ◌==◌, str_eq, if◌then◌else◌, ℤ, min, pos_part,
}
use newapi_risk_platform.Base.Maps
use newapi_risk_platform.Base.Maps.{Dict}
use text.Mathlib.Text.{starts_with}
use newapi_risk_platform.Audit.Types.{
  plain_decision, Verdict, allow, AuditDecision, AuditError, call_error, audit_model_error_details,
  CallMetadata, Result, ok, err, AuditProfile,
}

abbrev pub max_audit_fallback_profiles : ℕ
max_audit_fallback_profiles = 8

abbrev pub max_audit_retry_count : ℕ
max_audit_retry_count = 5

abbrev pub max_audit_total_attempts : ℕ
max_audit_total_attempts = 24

-- One entry of the attempt log.
pub record AuditAttempt : Type 0 where
  pub profile_id : ℤ
  pub attempt : ℕ
  pub outcome : Option Verdict
  pub error_class : String
  pub http_status : ℕ

pub record FailoverMetadata : Type 0 where
  pub call_metadata : CallMetadata
  pub attempt_count : ℕ
  pub model_retry_count : ℕ
  pub fallback_count : ℕ
  pub attempts : List AuditAttempt

abbrev pub or_text : String → String → String
or_text s t = if str_eq s "" then t else s

abbrev pub or_number : ℕ → ℕ → ℕ
or_number n m = if n == 0 then m else n

-- The last branch is `result.ContextWindowTokens == 0`; the one before it never applies.
unfoldable pub merge_audit_call_metadata : (existing current : CallMetadata) → CallMetadata
merge_audit_call_metadata old new =
    let larger = ltb new.requested_tokens old.requested_tokens in
    record {
      chunks_completed = new.chunks_completed;
      chunks_reused = new.chunks_reused;
      mode = or_text new.mode old.mode;
      chunk_count = or_number new.chunk_count old.chunk_count;
      chunk_bytes = or_number new.chunk_bytes old.chunk_bytes;
      retry_count =
          if ltb new.retry_count old.retry_count then old.retry_count else new.retry_count;
      requested_tokens = if larger then old.requested_tokens else new.requested_tokens;
      requested_tokens_lower_bound =
          if larger then old.requested_tokens_lower_bound else new.requested_tokens_lower_bound;
      observed_output_tokens =
          if larger then old.observed_output_tokens else new.observed_output_tokens;
      context_window_tokens =
          if larger
          then old.context_window_tokens
          else or_number new.context_window_tokens old.context_window_tokens;
    }

abbrev pub no_call_metadata : CallMetadata
no_call_metadata = record {
  chunks_completed = 0;
  chunks_reused = 0;
  mode = "";
  chunk_count = 0;
  chunk_bytes = 0;
  requested_tokens = 0;
  requested_tokens_lower_bound = false;
  observed_output_tokens = 0;
  context_window_tokens = 0;
  retry_count = 0;
}

abbrev pub no_metadata : FailoverMetadata
no_metadata = record {
  call_metadata = no_call_metadata;
  attempt_count = 0;
  model_retry_count = 0;
  fallback_count = 0;
  attempts = [];
}

abbrev pub mem : String → List String → Bool
mem s [] = false
mem s (t ∷ ts) = str_eq s t || mem s ts

abbrev pub retryable_classes : List String
retryable_classes =
    "connection" ∷ "timeout" ∷ "rate_limited" ∷ "audit_server_error" ∷ "response_read"
    ∷ "response_format" ∷ "empty_response" ∷ "invalid_json" ∷ "invalid_schema" ∷ "ambiguous_output"
    ∷ "output_truncated" ∷ "structured_output_unsupported" ∷ "invalid_decision" ∷ "invalid_evidence"
    ∷ []

unfoldable pub audit_error_retryable_on_same_profile : AuditError → Bool
audit_error_retryable_on_same_profile (call_error e) = mem e.class retryable_classes
audit_error_retryable_on_same_profile _ = false

abbrev pub recovery_classes : List String
recovery_classes =
    "response_format" ∷ "empty_response" ∷ "invalid_json" ∷ "invalid_schema" ∷ "ambiguous_output"
    ∷ "output_truncated" ∷ "structured_output_unsupported" ∷ "invalid_decision" ∷ []

unfoldable pub audit_error_needs_output_recovery : AuditError → Bool
audit_error_needs_output_recovery e = mem (audit_model_error_details e).0 recovery_classes

-- The errors after which no other profile may be asked.
unfoldable pub is_terminal : (deny : Bool) → AuditError → Bool
is_terminal deny e =
    let class = (audit_model_error_details e).0 in
    starts_with class "cyber_"
    || starts_with class "fusion_"
    || deny
      && (starts_with class "semantic_verifier_"
          || str_eq class "audit_capacity_exceeded"
          || str_eq class "audit_http_budget"
          || str_eq class "semantic_review_budget")

-- The delay of `waitAuditRetry` in milliseconds.
unfoldable pub retry_delay : (retry_index delay : ℕ) → ℕ
retry_delay zero delay = delay
retry_delay (suc n) delay =
    let rest = retry_delay n (if ltb 300 (delay * 2) then 300 else delay * 2) in
    if ltb delay 300 then rest else delay

abbrev pub panel_keys : List String
panel_keys =
    "_risk_fusion_profile_ids" ∷ "_risk_fusion_adjudicator_profile_id" ∷ "_risk_verifier_profile_id"
    ∷ []

-- A key of the panel is deleted, and set again when the root has it.
unfoldable pub copy_key : Option String → String → Dict String → Dict String
copy_key none k extra = Maps.delete k extra
copy_key (some v) k extra = Maps.put k v (Maps.delete k extra)

unfoldable pub copy_keys : List String → Dict String → Dict String → Dict String
copy_keys [] root extra = extra
copy_keys (k ∷ ks) root extra = copy_keys ks root (copy_key (Maps.lookup k root) k extra)

unfoldable pub cyber_deny_profile : AuditProfile → AuditProfile
cyber_deny_profile p = record p {
  fail_closed = true;
  extra = Maps.put "_risk_allow_local_debug_credentials" "false" (
      Maps.put "_risk_allow_user_provided_secrets" "false"
        (Maps.put "_risk_policy_mode" "\"cyber_deny\"" p.extra));
}

unfoldable pub govern_profile : (deny : Bool) → (root p : AuditProfile) → AuditProfile
govern_profile false root p = p
govern_profile true root p =
    cyber_deny_profile (record p { extra = copy_keys panel_keys root.extra p.extra })

-- A count that is negative is zero, and one above the maximum is the maximum.
unfoldable pub retries_of : AuditProfile → ℕ
retries_of p = min (pos_part p.retry_count) max_audit_retry_count

-- How the loop over the attempts of a profile ends.
pub data Ending : Type 0 where
  decided : AuditDecision → Ending
  failed_open : AuditError → Ending
  given_up : Option AuditError → Ending

unfoldable pub cyber_model_error_allow : AuditError → AuditDecision
cyber_model_error_allow e =
    plain_decision allow "audit_uncertainty" "" 0 "model_error_fail_open_v29"

unfoldable pub fail_open : (deny : Bool) → AuditError → Result AuditDecision
fail_open true e = ok (cyber_model_error_allow e)
fail_open false e = err e

abbrev pub details_of : Result AuditDecision → String × ℕ
details_of (ok d) = ("", 0)
details_of (err e) = audit_model_error_details e

abbrev pub verdict_of : Result AuditDecision → Option Verdict
verdict_of (ok d) = some d.verdict
verdict_of (err e) = none

-- One call is logged, whatever it returned.
unfoldable pub log_attempt :
    AuditProfile → ℕ → Result AuditDecision → CallMetadata → FailoverMetadata → FailoverMetadata
log_attempt p n result call m =
    let error = details_of result in
    record m {
      call_metadata = merge_audit_call_metadata m.call_metadata call;
      attempt_count = m.attempt_count + 1;
      attempts =
          m.attempts
          ++ (record {
            profile_id = p.id;
            attempt = n + 1;
            outcome = verdict_of result;
            error_class = error.0;
            http_status = error.1;
          }
              ∷ []);
    }
