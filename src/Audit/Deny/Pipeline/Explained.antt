-- ===== src/Audit/Deny/Pipeline/Explained.antt =====
-- Why `AuditEngine.Audit` refuses a request.
use newapi_risk_platform.Base.{
  ℕ, ◌<◌, ◌≡◌, arith, refl, ap, ◌∙◌, sym, not, false, String, List, [], ◌∷◌, ◌++◌, Option, none,
  some, subst, str_eq, ℤ, ◌⊎◌, inl, inr, if_holds, ltb,
}
use newapi_risk_platform.Audit.Types.{
  Verdict, allow, block, AuditDecision, AuditError, Result, ok, err, AuditProfile,
}
use newapi_risk_platform.Audit.Failover.{FailoverMetadata, cyber_deny_profile}
use newapi_risk_platform.Audit.Failover.Outcome.{EndsWith}
use newapi_risk_platform.Audit.Failover.Bounds.{deny_never_fails}
use newapi_risk_platform.Audit.Deny.Normalize.{Rule, Engine, is_review, cyber_uncertainty_allow}
use newapi_risk_platform.Audit.Deny.Rules.{Suppression, match_cyber_deny_rules}
use newapi_risk_platform.Audit.Deny.Rules.Vetoes.{
  Any, IsVeto, IsVetoed, match_cyber_deny_rules-IsVetoed,
}
use newapi_risk_platform.Audit.Deny.Pipeline.{
  audit_incomplete_input_decision, Extraction, LookupError, Platform, AuditResult, empty_result,
  fail, Ruled, decoded_pass, match_both_views, unless_failed, is_empty_list, incomplete,
  without_match, merge_weak, conclude_model, ask_models, with_profile, after_rules, audit,
}

-- The verdict is that of the last attempt of the log.
abbrev pub IsFromModel : Verdict → Option FailoverMetadata → Type 0
IsFromModel v none = ⊥
IsFromModel v (some m) = EndsWith v m

module _ {W : Type 0} (env : Platform W) (engine : Engine) where
  abbrev rules : List Rule
  rules = engine.loaded ++ engine.baseline

  -- An enabled rule that blocks has evidence in a unit of the text that the rules read, or, where the request holds
  -- documents of tools, of the decoded text.
  abbrev pub IsVetoOf : Extraction → AuditDecision → Type 0
  IsVetoOf x d =
      Any (IsVeto env.matcher x.rule_text d) (engine.loaded ++ engine.baseline)
      ⊎ ((0 < x.serialized_tool_documents)
          × Any (IsVeto env.matcher x.text d) (engine.loaded ++ engine.baseline))

  -- A decision other than an allow comes from a rule or from a model, without an error, and is no review.
  unfoldable pub IsExplained : Extraction → AuditResult → Type 0
  IsExplained x r =
      (r.decision.verdict ≡ allow)
      ⊎ ((r.error_class ≡ "")
          × (is_review r.decision.verdict ≡ false)
          × (IsVetoOf x r.decision ⊎ IsFromModel r.decision.verdict r.metadata))

  unfoldable Explains : Extraction → AuditResult × W → Type 0
  unfolding IsExplained
  Explains x a = IsExplained x a.0

  fail-IsExplained :
      (x : Extraction) (e : AuditError) (stage : String) (r : AuditResult)
      → IsExplained x (fail e stage r)
  unfolding IsExplained fail
  fail-IsExplained x e stage r = inl refl

  unless_failed-Explains :
      (x : Extraction) (ended : Option AuditError) (stage : String) (r : AuditResult) (w : W)
      (next : AuditResult × W)
      → Explains x next
      → Explains x (unless_failed env engine ended stage r w next)
  unfolding unless_failed Explains IsExplained
  unless_failed-Explains x none stage r w next h = h
  unless_failed-Explains x (some e) stage r w next h = fail-IsExplained x e stage r

  conclude_model-Explains :
      (x : Extraction) (d : AuditDecision) (m : FailoverMetadata) (r : AuditResult) (w : W)
      → r.error_class ≡ ""
      → r.metadata ≡ some m
      → (d.verdict ≡ allow) ⊎ EndsWith d.verdict m
      → Explains x (conclude_model env engine (ok d) r w)
  unfolding conclude_model Explains IsExplained cyber_uncertainty_allow
  conclude_model-Explains x d m r w clean logged (inl allowed) = inl (
      if_holds (λ (y : AuditDecision). y.verdict ≡ allow) (is_review d.verdict) (λ _. refl)
        (λ _. allowed))
  conclude_model-Explains x d m r w clean logged (inr last) =
      if_holds
        (λ (y : AuditDecision).
          (y.verdict ≡ allow)
          ⊎ ((r.error_class ≡ "")
              × (is_review y.verdict ≡ false)
              × (IsVetoOf x y ⊎ IsFromModel y.verdict r.metadata)))
        (is_review d.verdict) (λ _. inl refl)
        (λ final. inr (clean, final, inr (subst (IsFromModel d.verdict) (sym logged) last)))

  answered-Explains :
      (x : Extraction) (a : Result AuditDecision) (d : AuditDecision) (m : FailoverMetadata)
      (r : AuditResult) (w : W)
      → a ≡ ok d
      → r.error_class ≡ ""
      → r.metadata ≡ some m
      → (d.verdict ≡ allow) ⊎ EndsWith d.verdict m
      → Explains x (conclude_model env engine a r w)
  answered-Explains x a d m r w e clean logged h =
      subst (λ (y : Result AuditDecision). Explains x (conclude_model env engine y r w)) (sym e)
        (conclude_model-Explains x d m r w clean logged h)

  ask_models-Explains :
      (x : Extraction) (p : AuditProfile) (r : AuditResult) (w : W)
      → r.error_class ≡ ""
      → Explains x (ask_models env engine p r w)
  unfolding ask_models
  ask_models-Explains x p r w clean =
      let surroundings = env.surroundings (not (is_empty_list r.suppressions)) in
      let answer = deny_never_fails surroundings (cyber_deny_profile p) w in
      answered-Explains x _ answer.0 _ _ _ answer.1 clean refl answer.2

  failed-Explains :
      (x : Extraction) (e : AuditError) (stage : String) (r : AuditResult) (w : W)
      → Explains x (fail e stage r, w)
  unfolding Explains
  failed-Explains x e stage r w = fail-IsExplained x e stage r

  with_profile-Explains :
      (x : Extraction) (found : AuditProfile ⊎ LookupError) (r : AuditResult) (w : W)
      → r.error_class ≡ ""
      → Explains x (with_profile env engine found r w)
  unfolding with_profile
  with_profile-Explains x (inr e) r w clean = failed-Explains x _ "profile" r _
  with_profile-Explains x (inl p) r w clean =
      if_holds (Explains x) p.enabled (λ _. ask_models-Explains x p r w clean)
        (λ _. failed-Explains x _ "profile" r _)

  incomplete-Explains :
      (x : Extraction) (r : AuditResult) (w : W) → Explains x (incomplete env engine r, w)
  unfolding Explains IsExplained audit_incomplete_input_decision
  incomplete-Explains x r w = inl refl

  without_match-Explains :
      (target : Option ℤ) (x : Extraction) (r : AuditResult) (w : W)
      → r.error_class ≡ ""
      → Explains x (without_match env engine target x r w)
  unfolding without_match
  without_match-Explains target x r w clean =
      if_holds (Explains x) (env.rule_load_failed w) (λ _. failed-Explains x _ "rules" r w)
        (λ _.
          if_holds (Explains x) (str_eq x.coverage_status "complete")
            (λ _. unless_failed-Explains x _ "profile" r _ _ (with_profile-Explains x _ r _ clean))
            (λ _. incomplete-Explains x r w))

  veto_blocks :
      (text : String) (d : AuditDecision) (rs : List Rule)
      → Any (IsVeto env.matcher text d) rs
      → d.verdict ≡ block
  veto_blocks text d [] h = elim h [ ]
  veto_blocks text d (r ∷ rs) (inl h) = ap (λ (y : AuditDecision). y.verdict) h.2
  veto_blocks text d (r ∷ rs) (inr h) = veto_blocks text d rs h

  IsVetoOf-blocks : (x : Extraction) (d : AuditDecision) → IsVetoOf x d → d.verdict ≡ block
  IsVetoOf-blocks x d (inl h) = veto_blocks x.rule_text d _ h
  IsVetoOf-blocks x d (inr h) = veto_blocks x.text d _ h.1

  vetoed-IsExplained :
      (x : Extraction) (d : AuditDecision) (r : AuditResult)
      → r.error_class ≡ ""
      → r.decision ≡ d
      → IsVetoOf x d
      → IsExplained x r
  unfolding IsExplained
  vetoed-IsExplained x d r clean e h = inr (
    clean,
    ap is_review (ap (λ (y : AuditDecision). y.verdict) e ∙ IsVetoOf-blocks x d h),
    inl (subst (IsVetoOf x) (sym e) h),
  )

  -- The answer of the rules is an error, no match, or a veto of one of the two texts.
  unfoldable IsRuled : Extraction → Result (Option AuditDecision) → Type 0
  IsRuled x (err e) = Unit
  IsRuled x (ok none) = Unit
  IsRuled x (ok (some d)) = IsVetoOf x d

  first_view :
      (x : Extraction) (a : Result (Option AuditDecision))
      → IsVetoed env.matcher x.rule_text (engine.loaded ++ engine.baseline) a
      → IsRuled x a
  unfolding IsVetoed IsRuled
  first_view x (err e) h = tt
  first_view x (ok none) h = tt
  first_view x (ok (some d)) h = inl h

  second_view :
      (x : Extraction) (a : Result (Option AuditDecision))
      → 0 < x.serialized_tool_documents
      → IsVetoed env.matcher x.text (engine.loaded ++ engine.baseline) a
      → IsRuled x a
  unfolding IsVetoed IsRuled
  second_view x (err e) some_documents h = tt
  second_view x (ok none) some_documents h = tt
  second_view x (ok (some d)) some_documents h = inr (some_documents, h)

  after_rules-Explains :
      (target : Option ℤ) (x : Extraction) (view : String) (m : Ruled W)
      → IsRuled x m.0
      → Explains x (after_rules env engine target x view m empty_result)
  unfolding after_rules Explains IsRuled
  after_rules-Explains target x view (err e, weak, w) h = fail-IsExplained x e "rules" _
  after_rules-Explains target x view (ok (some d), weak, w) h =
      vetoed-IsExplained x d
        (record empty_result { suppressions = weak; input_view = view; decision = d }) refl refl h
  after_rules-Explains target x view (ok none, weak, w) h = without_match-Explains target x _ w refl

  match_both_views-IsRuled :
      (x : Extraction) (w : W) → IsRuled x (match_both_views env engine x w).1.0
  unfolding match_both_views
  match_both_views-IsRuled x w =
      decoded (match_cyber_deny_rules env.matcher engine x.rule_text w)
        (first_view x _ (match_cyber_deny_rules-IsVetoed env.matcher engine x.rule_text w))
    where
      merged :
          (weak : List Suppression) (m : Ruled W)
          → IsRuled x m.0
          → IsRuled x (merge_weak env engine weak m).1.0
      merged weak (a, more, w) h = h

      decoded : (m : Ruled W) → IsRuled x m.0 → IsRuled x (decoded_pass env engine x m).1.0
      decoded (err e, weak, w) h = h
      decoded (ok (some d), weak, w) h = h
      decoded (ok none, weak, w) h =
          if_holds (λ (v : String × Ruled W). IsRuled x v.1.0) (ltb 0 x.serialized_tool_documents)
            (λ documents. merged weak (match_cyber_deny_rules env.matcher engine x.text w) (
              second_view x _ (ground (arith, documents))
                (match_cyber_deny_rules-IsVetoed env.matcher engine x.text w)))
            (λ _. h)

  -- Whatever the request, the stores and the models do, the audit answers with an allow, or without an error and with a
  -- verdict that is no review: a block of an enabled rule that blocks, on evidence that its search finds and nothing
  -- suppresses in a unit of one role of the extracted text (or, if the request holds documents of tools, of the decoded
  -- text), or the verdict of the last attempt of the failover, after failures only.
  pub audit-IsExplained :
      (target : Option ℤ) (body : List ℕ) (w : W)
      → IsExplained (env.extract_cyber_audit_text body w).0 (audit env engine target body w).0
  unfolding audit Explains
  audit-IsExplained target body w =
      let x = (env.extract_cyber_audit_text body w).0 in
      unless_failed-Explains x _ "extraction" empty_result _ _ (
        unless_failed-Explains x _ "extraction" empty_result _ _ (
          unless_failed-Explains x _ "scope" empty_result _ _
            (after_rules-Explains target x _ _ (match_both_views-IsRuled x _))))
