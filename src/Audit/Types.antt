-- ===== src/Audit/Types.antt =====
-- The decisions, errors and call metadata of the audit: internal/platform/types.go, audit_diagnostics.go and
-- audit_long_context.go. A confidence is a whole number on a fixed scale; only its order is used. The
-- texts of reasons are left out.
use newapi_risk_platform.Base.{ℕ, Bool, false, String, List, Option, none, str_eq, if◌then◌else◌, ℤ}
use newapi_risk_platform.Base.Maps.{Dict}

pub data Verdict : Type 0 where
  allow block review : Verdict
  unknown : String → Verdict

pub record AuditDecision : Type 0 where
  pub verdict : Verdict
  pub category : String
  pub risk_code : String
  pub confidence : ℕ
  pub confidence_kind : String
  pub confidence_label : String
  pub source : String
  pub evidence : String
  pub evidence_relation : String
  pub harm_type : String
  pub evidence_verified : Bool
  pub policy_original : Option Verdict

-- A decision whose other fields are empty.
abbrev pub plain_decision :
    Verdict → (category risk_code : String) → (confidence : ℕ) → (source : String) → AuditDecision
plain_decision v category code confidence source = record {
  verdict = v;
  category = category;
  risk_code = code;
  confidence = confidence;
  confidence_kind = "";
  confidence_label = "";
  source = source;
  evidence = "";
  evidence_relation = "";
  harm_type = "";
  evidence_verified = false;
  policy_original = none;
}

-- The fields of `AuditModelCallError` that decide something. Each class is a literal, so trimming it changes nothing.
pub record CallError : Type 0 where
  pub class : String
  pub http_status : ℕ
  pub requested_tokens : ℕ
  pub max_context_tokens : ℕ
  pub requested_tokens_lower_bound : Bool
  pub observed_output_tokens : ℕ

pub data AuditError : Type 0 where
  call_error : CallError → AuditError
  deadline_exceeded canceled : AuditError
  other : String → AuditError

unfoldable pub new_audit_model_call_error : String → ℕ → AuditError
new_audit_model_call_error class status = call_error (record {
  class = class;
  http_status = status;
  requested_tokens = 0;
  max_context_tokens = 0;
  requested_tokens_lower_bound = false;
  observed_output_tokens = 0;
})

-- The class and the status of `auditModelErrorDetails`.
unfoldable pub audit_model_error_details : AuditError → String × ℕ
audit_model_error_details (call_error e) =
    (if str_eq e.class "" then "unknown" else e.class, e.http_status)
audit_model_error_details deadline_exceeded = ("audit_deadline_exceeded", 0)
audit_model_error_details canceled = ("audit_cancelled", 0)
audit_model_error_details (other _) = ("unknown", 0)

pub record CallMetadata : Type 0 where
  pub chunks_completed : ℕ
  pub chunks_reused : ℕ
  pub mode : String
  pub chunk_count : ℕ
  pub chunk_bytes : ℕ
  pub requested_tokens : ℕ
  pub requested_tokens_lower_bound : Bool
  pub observed_output_tokens : ℕ
  pub context_window_tokens : ℕ
  pub retry_count : ℕ

pub data Result (A : Type 0) : Type 0 where
  ok : A → Result A
  err : AuditError → Result A

-- The fields of an audit profile that the failover reads; `extra` is the decoded JSON object.
pub record AuditProfile : Type 0 where
  pub id : ℤ
  pub enabled : Bool
  pub fail_closed : Bool
  pub retry_count : ℤ
  pub fallback_profile_ids : List ℤ
  pub block_threshold : ℕ
  pub extra : Dict String
