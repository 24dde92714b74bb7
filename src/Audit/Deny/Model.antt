-- ===== src/Audit/Deny/Model.antt =====
-- One judgement of a text by a model and, where it is required, by verifiers: `callCyberDenyModel` of
-- internal/platform/audit_cyber_deny.go, `semanticAdjudicateCyberCandidateV25` of
-- internal/platform/audit_v25_structured_adjudication.go.

pub mod Confirmed
pub mod Budget
use newapi_risk_platform.Base.{
  ℕ, ◌+◌, Bool, true, false, not, ◌&&◌, ◌||◌, String, List, [], ◌∷◌, ◌++◌, Option, none, some, leb,
  ltb, ◌==◌, str_eq, if◌then◌else◌, length, ℤ,
}
use newapi_risk_platform.Base.Maps
use newapi_risk_platform.Audit.Types.{
  Verdict, allow, AuditDecision, plain_decision, AuditError, new_audit_model_call_error,
  audit_model_error_details, Result, ok, err, AuditProfile,
}
use newapi_risk_platform.Audit.Deny.Grounding.{
  ReviewStatus, review_error, Vote, SemanticReview, SemanticState, reserve_review, record_review,
  finish_semantic_review, Models, call_cyber_grounded_model,
}
use newapi_risk_platform.Audit.Deny.Normalize.{
  Engine, is_allow, is_block, is_review, cyber_uncertainty_allow, normalize_cyber_only_scope,
  normalize_cyber_evidence_gate, cyber_decision_needs_fail_open, cyber_deny_verdict,
  cyber_low_confidence_allow_needs_verification,
}

-- How the poll of the verifiers ends: the budget is spent, one does not allow, or all have answered.
pub data Poll : Type 0 where
  over_budget : Poll
  denied : AuditDecision → Poll
  polled : (failure : Option AuditError) → (last : AuditDecision) → Poll

unfoldable pub unresolved_evidence : Result AuditDecision → Result AuditDecision
unresolved_evidence (ok d) = ok d
unresolved_evidence (err e) =
    if str_eq (audit_model_error_details e).0 "invalid_evidence"
    then err (new_audit_model_call_error "cyber_evidence_unresolved" 0)
    else err e

unfoldable pub judged :
    Engine → (text source : String) → Result AuditDecision → Result AuditDecision
judged e text source (err error) = err error
judged e text source (ok d) = ok (cyber_deny_verdict e (normalize_cyber_only_scope e d text source))

abbrev is_there : Option String → Bool
is_there none = false
is_there (some _) = true

abbrev pub has_key : String → AuditProfile → Bool
has_key k p = is_there (Maps.lookup k p.extra)

abbrev holds_true : Option String → Bool
holds_true none = false
holds_true (some v) = str_eq v "true"

abbrev has_true : String → AuditProfile → Bool
has_true k p = holds_true (Maps.lookup k p.extra)

-- Whether a clean allow is verified once more.
unfoldable pub needs_verification : (required : Bool) → AuditProfile → AuditDecision → Bool
needs_verification required p c =
    required
    || has_key "_risk_fusion_profile_ids" p
    || has_key "_risk_verifier_profile_id" p
    || has_true "_risk_verify_clean_allows" p
    || has_true "_risk_verify_weak_allows" p && cyber_low_confidence_allow_needs_verification p c

module _ {W : Type 0} (env : Models W) (engine : Engine) where
  abbrev Polled : Type 0
  Polled = Poll × List Vote × SemanticState × W

  unfoldable pub count_vote :
      AuditProfile
      → Result AuditDecision
      → (failure : Option AuditError) → (last : AuditDecision) → List Vote
      → SemanticState
      → W
      → (Option AuditError → AuditDecision → List Vote → Polled)
      → Polled
  count_vote p (err e) failure last votes s w rest =
      rest (some e) last (votes ++ (record { profile_id = p.id; outcome = err e } ∷ []))
  count_vote p (ok d) failure last votes s w rest =
      let votes' = votes ++ (record { profile_id = p.id; outcome = ok d } ∷ []) in
      if is_allow d.verdict then rest failure d votes' else (denied d, votes', s, w)

  unfoldable pub poll_verifiers :
      (text source : String)
      → List AuditProfile
      → (failure : Option AuditError) → (last : AuditDecision) → List Vote
      → SemanticState
      → W
      → Polled
  poll_verifiers text source [] failure last votes s w = (polled failure last, votes, s, w)
  poll_verifiers text source (p ∷ ps) failure last votes s w =
      let (reserved, s') = reserve_review s in
      let (answer, s'', w') = call_cyber_grounded_model env engine p text source s' w in
      let vote = judged engine text source (unresolved_evidence answer) in
      if reserved
      then count_vote p vote failure last votes s'' w'
          (λ failure' last' votes'. poll_verifiers text source ps failure' last' votes' s'' w')
      else (over_budget, votes, s, w)

  abbrev Adjudicated : Type 0
  Adjudicated = Result AuditDecision × SemanticState × W

  -- The review is recorded on every return.
  abbrev pub recorded :
      (candidate : AuditDecision)
      → Option AuditDecision
      → List Vote
      → Result AuditDecision
      → SemanticState
      → W
      → Adjudicated
  recorded c none votes result s w =
      let r : SemanticReview = record {
        status = review_error;
        candidate = c;
        outcome = none;
        votes = votes;
      } in
      (result, record_review r s, w)
  recorded c (some d) votes result s w =
      let r : SemanticReview = record {
        status = finish_semantic_review c d;
        candidate = c;
        outcome = some d;
        votes = votes;
      } in
      (result, record_review r s, w)

  unfoldable pub conclude_poll :
      (fusion : Bool) → (candidate : AuditDecision) → Polled → Adjudicated
  conclude_poll fusion c (over_budget, votes, s, w) =
      recorded c none votes (err (new_audit_model_call_error "semantic_review_budget" 0)) s w
  conclude_poll fusion c (denied d, votes, s, w) = recorded c (some d) votes (ok d) s w
  conclude_poll true c (polled (some e) last, votes, s, w) =
      recorded c none votes (err (new_audit_model_call_error "fusion_incomplete" 0)) s w
  conclude_poll false c (polled (some e) last, votes, s, w) = recorded c none votes (err e) s w
  conclude_poll fusion c (polled none last, votes, s, w) =
      recorded c (some last) votes (ok last) s w

  abbrev pub with_panel :
      (text source : String)
      → (candidate : AuditDecision) → (fusion : Bool) → Result (List AuditProfile)
      → SemanticState
      → W
      → Adjudicated
  with_panel text source c fusion (err e) s w = recorded c none [] (err e) s w
  with_panel text source c fusion (ok ps) s w =
      conclude_poll fusion c (poll_verifiers text source ps none c [] s w)

  abbrev pub with_verifier :
      AuditProfile
      → (text source : String) → (candidate : AuditDecision) → Result AuditProfile
      → SemanticState
      → W
      → Adjudicated
  with_verifier p text source c (err e) s w = recorded c none [] (err e) s w
  with_verifier p text source c (ok verifier) s w =
      let (panel, w') = env.fusion_panel p w in
      if has_key "_risk_fusion_profile_ids" p
      then with_panel text source c true panel s w'
      else with_panel text source c false (ok (verifier ∷ [])) s w

  -- A candidate that is not an allow is returned as it is.
  unfoldable pub semantic_adjudicate_cyber_candidate :
      AuditProfile
      → (text source : String) → (candidate : AuditDecision) → SemanticState
      → W
      → Adjudicated
  semantic_adjudicate_cyber_candidate p text source candidate s w =
      let c = cyber_deny_verdict engine (normalize_cyber_only_scope engine candidate text source) in
      let (verifier, w') = env.semantic_verifier_profile p w in
      if is_allow c.verdict then with_verifier p text source c verifier s w' else (ok c, s, w)

  abbrev pub after_adjudication : (text source : String) → Adjudicated → Adjudicated
  after_adjudication text source (err e, s, w) = (err e, s, w)
  after_adjudication text source (ok d, s, w) =
      let verified = normalize_cyber_evidence_gate engine d text source in
      if cyber_decision_needs_fail_open engine verified
      then (ok (cyber_uncertainty_allow verified "verifier_uncertainty_fail_open_v29"), s, w)
      else (ok (cyber_deny_verdict engine verified), s, w)

  abbrev pub after_candidate :
      (required : Bool)
      → AuditProfile
      → (text source : String) → Result AuditDecision
      → SemanticState
      → W
      → Adjudicated
  after_candidate required p text source (err e) s w = (err e, s, w)
  after_candidate required p text source (ok d) s w =
      let c = normalize_cyber_evidence_gate engine d text source in
      let verified = semantic_adjudicate_cyber_candidate p text source c s w in
      if cyber_decision_needs_fail_open engine c
      then (ok (cyber_uncertainty_allow c "model_uncertainty_fail_open_v29"), s, w)
      else if is_block c.verdict || not (needs_verification required p c)
      then (ok (cyber_deny_verdict engine c), s, w)
      else after_adjudication text source verified

  unfoldable pub call_cyber_deny_model :
      (required : Bool) → AuditProfile → (text source : String) → SemanticState → W → Adjudicated
  call_cyber_deny_model required p text source s w =
      let (answer, s', w') = call_cyber_grounded_model env engine p text source s w in
      after_candidate required p text source answer s' w'
