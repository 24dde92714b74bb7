-- ===== src/Audit/Fusion.antt =====
-- The fusion of several verifiers: internal/platform/audit_fusion.go. Texts are lists of code points.
pub mod Agreement
pub mod Panel
mod Tests
use newapi_risk_platform.Base.{
  ℕ, zero, suc, Bool, true, false, not, ◌&&◌, ◌||◌, String, List, [], ◌∷◌, ◌++◌, Option, none, some,
  ltb, leb, ◌==◌, str_eq, if◌then◌else◌, length,
}
use newapi_risk_platform.Gateway.Text.{trim_space, has_prefix, is_empty}
use newapi_risk_platform.Audit.Types.{
  Verdict, allow, block, review, unknown, AuditError, new_audit_model_call_error, Result, ok, err,
}

-- What the fusion reads of a verifier's decision; `meets_threshold` is whether its confidence reaches the root's block
-- threshold (`auditConfidenceMeets`).
pub record Assessment : Type 0 where
  pub verdict : Verdict
  pub harm_type : String
  pub evidence_relation : String
  pub evidence : List ℕ
  pub request_evidence : List ℕ
  pub risk_code : String
  pub meets_threshold : Bool

abbrev contains : List ℕ → List ℕ → Bool
contains [] y = has_prefix y []
contains (c ∷ x) y = has_prefix y (c ∷ x) || contains x y

unfoldable pub compatible_quote : List ℕ → List ℕ → Bool
compatible_quote x y =
    let x' = trim_space x in
    let y' = trim_space y in
    not (is_empty x') && not (is_empty y') && (contains x' y' || contains y' x')

abbrev pub same_verdict : Verdict → Verdict → Bool
same_verdict allow allow = true
same_verdict block block = true
same_verdict review review = true
same_verdict (unknown s) (unknown t) = str_eq s t
same_verdict _ _ = false

abbrev pub is_review : Verdict → Bool
is_review review = true
is_review _ = false

abbrev is_allow : Verdict → Bool
is_allow allow = true
is_allow _ = false

unfoldable pub fusion_agreement : Assessment → Assessment → Bool
fusion_agreement a b =
    same_verdict a.verdict b.verdict
    && not (is_review a.verdict)
    && (if is_allow a.verdict
        then str_eq a.harm_type "none" && str_eq b.harm_type "none"
        else str_eq a.harm_type b.harm_type
          && str_eq a.evidence_relation b.evidence_relation
          && compatible_quote a.evidence b.evidence
          && compatible_quote a.request_evidence b.request_evidence)

-- A block below the threshold counts as a review.
abbrev weaken_verdict : Verdict → Bool → Assessment → Assessment
weaken_verdict block false d = record d { verdict = review; risk_code = "AUDIT_LOW_CONFIDENCE" }
weaken_verdict _ _ d = d

unfoldable pub weaken : Assessment → Assessment
weaken d = weaken_verdict d.verdict d.meets_threshold d

pub data Status : Type 0 where
  failed consensus adjudicated unresolved : Status

abbrev disagreement : Assessment
disagreement = record {
  verdict = review;
  harm_type = "";
  evidence_relation = "";
  evidence = [];
  request_evidence = [];
  risk_code = "AUDIT_FUSION_DISAGREEMENT";
  meets_threshold = false;
}

-- The assessments of the panel, if none is missing.
unfoldable pub complete_panel : List (Result Assessment) → Option (List Assessment)
complete_panel [] = some []
complete_panel (err e ∷ rs) = none
complete_panel (ok d ∷ rs) = elim (complete_panel rs) [
  | none ↦ none
  | some ds ↦ some (weaken d ∷ ds)
]

abbrev pub all_agree : Assessment → List Assessment → Bool
all_agree d [] = true
all_agree d (p ∷ ps) = fusion_agreement d p && all_agree d ps

abbrev pub some_agrees : Assessment → List Assessment → Bool
some_agrees d [] = false
some_agrees d (p ∷ ps) = fusion_agreement d p || some_agrees d ps

abbrev fusion_incomplete : AuditError
fusion_incomplete = new_audit_model_call_error "fusion_incomplete" 0

-- The arbiter is asked only when the panel disagrees; its own block is not weakened, but has to meet the threshold.
unfoldable pub arbitrate : List Assessment → Option (Result Assessment) → Result Assessment × Status
arbitrate panel none = (ok disagreement, unresolved)
arbitrate panel (some (err e)) = (err fusion_incomplete, failed)
arbitrate panel (some (ok d)) =
    if not (is_review d.verdict) && d.meets_threshold && some_agrees d panel
    then (ok d, adjudicated)
    else (ok disagreement, unresolved)

-- A panel has at least two profiles: the source has no case for an empty one.
unfoldable pub fuse_panel :
    Option AuditError → List Assessment → Option (Result Assessment) → Result Assessment × Status
fuse_panel (some e) panel arbiter = (err e, failed)
fuse_panel none [] arbiter = (err fusion_incomplete, failed)
fuse_panel none (d ∷ ds) arbiter =
    if not (is_review d.verdict) && all_agree d ds
    then (ok d, consensus)
    else arbitrate (d ∷ ds) arbiter

abbrev pub fuse_complete :
    Option (List Assessment)
    → Option AuditError
    → Option (Result Assessment)
    → Result Assessment × Status
fuse_complete none ended arbiter = (err fusion_incomplete, failed)
fuse_complete (some panel) ended arbiter = fuse_panel ended panel arbiter

-- The answers of the panel in its order (each worker writes its own place), the end of the context, and what the arbiter
-- would answer, if there is one.
unfoldable pub fuse_audit_intent :
    List (Result Assessment)
    → Option AuditError
    → Option (Result Assessment)
    → Result Assessment × Status
fuse_audit_intent votes ended arbiter = fuse_complete (complete_panel votes) ended arbiter
