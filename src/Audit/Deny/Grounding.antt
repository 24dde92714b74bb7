-- ===== src/Audit/Deny/Grounding.antt =====
-- One answer of a model with its evidence grounded: `callCyberGroundedModel` of internal/platform/audit_operation_grounding.go,
-- and the state of the reviews of internal/platform/audit_semantic_review.go.
use newapi_risk_platform.Base.{
  ℕ, ◌+◌, Bool, true, false, not, ◌&&◌, ◌||◌, String, List, [], ◌∷◌, ◌++◌, Option, none, some, leb,
  ltb, ◌==◌, str_eq, if◌then◌else◌, length, ℤ,
}
use newapi_risk_platform.Audit.Types.{
  AuditDecision, AuditError, new_audit_model_call_error, audit_model_error_details, Result, ok, err,
  AuditProfile,
}
use newapi_risk_platform.Audit.Deny.Normalize.{
  Engine, is_allow, is_block, is_review, cyber_deny_verdict,
}

abbrev pub max_audit_semantic_calls : ℕ
max_audit_semantic_calls = 32

abbrev pub max_audit_semantic_records : ℕ
max_audit_semantic_records = 16

pub data ReviewStatus : Type 0 where
  review_error review_confirmed review_overturned review_escalated review_unresolved : ReviewStatus
  grounding_error grounding_confirmed grounding_corrected : ReviewStatus
  evidence_repair_error evidence_repair_confirmed evidence_repair_corrected : ReviewStatus

pub record Vote : Type 0 where
  pub profile_id : ℤ
  pub outcome : Result AuditDecision

-- The record of a review; `votes` is there when several profiles are asked.
pub record SemanticReview : Type 0 where
  pub status : ReviewStatus
  pub candidate : AuditDecision
  pub outcome : Option AuditDecision
  pub votes : List Vote

pub record SemanticState : Type 0 where
  pub review_budget : ℕ
  pub review_calls : ℕ
  pub reviews : ℕ
  pub records : List SemanticReview

abbrev pub review_limit : SemanticState → ℕ
review_limit s = if s.review_budget == 0 then max_audit_semantic_calls else s.review_budget

unfoldable pub reserve_review : SemanticState → Bool × SemanticState
reserve_review s =
    if leb (review_limit s) s.review_calls
    then (false, s)
    else (true, record s { review_calls = s.review_calls + 1 })

unfoldable pub record_review : SemanticReview → SemanticState → SemanticState
record_review r s = record s {
  reviews = s.reviews + 1;
  records =
      if ltb (length s.records) max_audit_semantic_records
      then s.records ++ (r ∷ [])
      else s.records;
}

-- The last test that holds decides.
unfoldable pub finish_semantic_review : (candidate verified : AuditDecision) → ReviewStatus
finish_semantic_review candidate verified =
    if is_review verified.verdict
    then review_unresolved
    else if is_allow candidate.verdict && is_block verified.verdict
    then review_escalated
    else if is_allow verified.verdict && not (is_allow candidate.verdict)
    then review_overturned
    else review_confirmed

-- What `callModelRawWithEvidenceSource` returns: a decision, and perhaps an error beside it.
pub record RawAnswer : Type 0 where
  pub decision : AuditDecision
  pub error : Option AuditError

-- The calls of models and of the profile store; a repair is asked with its own feedback. `fusion_panel` gives the profiles
-- of a fusion, the root's own first.
pub record Models (W : Type 0) : Type 0 where
  pub ctx_err : W → Option AuditError × W
  pub call_model_raw :
      (is_repair : Bool) → AuditProfile → (text source : String) → W → RawAnswer × W
  pub non_operational_audit_evidence : AuditDecision → (source : String) → Bool
  pub semantic_verifier_profile : AuditProfile → W → Result AuditProfile × W
  pub fusion_panel : AuditProfile → W → Result (List AuditProfile) × W

-- Why a candidate is asked for once more: its quote is not in the source, or shows no operation.
pub data Doubt : Type 0 where
  invalid_quote no_operation : Doubt

abbrev pub doubt_error : Doubt → AuditError
doubt_error invalid_quote = new_audit_model_call_error "cyber_evidence_unresolved" 0
doubt_error no_operation = new_audit_model_call_error "cyber_operation_unresolved" 0

abbrev pub failed_status : Doubt → ReviewStatus
failed_status invalid_quote = evidence_repair_error
failed_status no_operation = grounding_error

abbrev pub checked_status : Doubt → (is_allowed : Bool) → ReviewStatus
checked_status invalid_quote true = evidence_repair_corrected
checked_status invalid_quote false = evidence_repair_confirmed
checked_status no_operation true = grounding_corrected
checked_status no_operation false = grounding_confirmed

abbrev pub has_invalid_quote : AuditError → AuditDecision → Bool
has_invalid_quote e d =
    str_eq (audit_model_error_details e).0 "invalid_evidence"
    && (is_block d.verdict || is_review d.verdict)

module _ {W : Type 0} (env : Models W) (engine : Engine) where
  abbrev Grounded : Type 0
  Grounded = Result AuditDecision × SemanticState × W

  abbrev pub failed_repair : Doubt → AuditDecision → SemanticState → W → Grounded
  failed_repair why d s w =
      let r : SemanticReview = record {
        status = failed_status why;
        candidate = d;
        outcome = none;
        votes = [];
      } in
      (err (doubt_error why), record_review r s, w)

  -- The answer of a repair; it counts as an answer only if its evidence shows an operation.
  abbrev pub concluded :
      Option AuditError
      → Doubt
      → (candidate answer : AuditDecision) → (source : String) → SemanticState
      → W
      → Grounded
  concluded (some e) why d answer source s w = failed_repair why d s w
  concluded none why d answer source s w =
      let c = cyber_deny_verdict engine answer in
      let r : SemanticReview = record {
        status = checked_status why (is_allow c.verdict);
        candidate = d;
        outcome = some c;
        votes = [];
      } in
      if env.non_operational_audit_evidence answer source
      then failed_repair why d s w
      else (ok c, record_review r s, w)

  abbrev pub conclude_repair :
      Doubt → AuditDecision → (source : String) → RawAnswer → SemanticState → W → Grounded
  conclude_repair why d source a s w = concluded a.error why d a.decision source s w

  abbrev pub repair_unless_ended :
      Option AuditError
      → Doubt
      → AuditProfile
      → (text source : String) → AuditDecision
      → SemanticState
      → W
      → Grounded
  repair_unless_ended (some e) why p text source d s w = failed_repair why d s w
  repair_unless_ended none why p text source d s w =
      let (a, w') = env.call_model_raw true p text source w in conclude_repair why d source a s w'

  -- One repair, if the budget has one left; a review is recorded on every return.
  unfoldable pub repair :
      Doubt → AuditProfile → (text source : String) → AuditDecision → SemanticState → W → Grounded
  repair why p text source d s w =
      let (reserved, s') = reserve_review s in
      let (ended, w') = env.ctx_err w in
      if reserved
      then repair_unless_ended ended why p text source d s' w'
      else failed_repair why d s w

  abbrev pub grounded_if :
      Option AuditError
      → AuditProfile
      → (text source : String) → AuditDecision
      → SemanticState
      → W
      → Grounded
  grounded_if none p text source d s w =
      if env.non_operational_audit_evidence d source
      then repair no_operation p text source d s w
      else (ok d, s, w)
  grounded_if (some e) p text source d s w =
      if has_invalid_quote e d then repair invalid_quote p text source d s w else (err e, s, w)

  abbrev pub after_raw :
      AuditProfile → (text source : String) → RawAnswer → SemanticState → W → Grounded
  after_raw p text source a s w = grounded_if a.error p text source a.decision s w

  unfoldable pub call_cyber_grounded_model :
      AuditProfile → (text source : String) → SemanticState → W → Grounded
  call_cyber_grounded_model p text source s w =
      let (a, w') = env.call_model_raw false p text source w in after_raw p text source a s w'
