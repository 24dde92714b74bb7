-- ===== src/Audit/Fusion/Agreement.antt =====
-- What stands behind the answer of a fusion.
use newapi_risk_platform.Base.{
  ℕ, ◌≡◌, refl, Bool, true, false, not, ◌&&◌, List, [], ◌∷◌, Option, none, some, arith, eq_iff, ◌⊎◌,
  inl, inr, if_holds, ap, subst,
}
use newapi_risk_platform.Audit.Types.{
  Verdict, allow, block, review, unknown, AuditError, Result, ok, err,
}
use newapi_risk_platform.Audit.Fusion.{
  Assessment, compatible_quote, fusion_agreement, same_verdict, is_review, weaken, Status,
  complete_panel, all_agree, some_agrees, arbitrate, fuse_panel, fuse_complete, fuse_audit_intent,
  is_allow,
}

compatible_quote_comm : (x y : List ℕ) → compatible_quote x y ≡ compatible_quote y x
unfolding compatible_quote
compatible_quote_comm x y = ground arith

same_verdict_comm : (v w : Verdict) → same_verdict v w ≡ same_verdict w v
same_verdict_comm allow w = ground arith
same_verdict_comm block w = ground arith
same_verdict_comm review w = ground arith
same_verdict_comm (unknown s) allow = refl
same_verdict_comm (unknown s) block = refl
same_verdict_comm (unknown s) review = refl
same_verdict_comm (unknown s) (unknown t) = ground (arith, eq_iff s t, eq_iff t s)

same_verdict-kind :
    (v w : Verdict)
    → same_verdict v w ≡ true
    → (is_review v ≡ is_review w) × (is_allow v ≡ is_allow w)
same_verdict-kind v w e = ground arith

-- Whether two assessments agree does not depend on their order.
fusion_agreement_comm : (a b : Assessment) → fusion_agreement a b ≡ fusion_agreement b a
unfolding fusion_agreement
fusion_agreement_comm a b = ground (
  arith,
  same_verdict_comm a.verdict b.verdict,
  same_verdict-kind a.verdict b.verdict,
  compatible_quote_comm a.evidence b.evidence,
  compatible_quote_comm a.request_evidence b.request_evidence,
  eq_iff a.harm_type b.harm_type,
  eq_iff b.harm_type a.harm_type,
  eq_iff a.evidence_relation b.evidence_relation,
  eq_iff b.evidence_relation a.evidence_relation,
)

-- No assessment of the panel is missing.
abbrev pub all_answered : List (Result Assessment) → Bool
all_answered [] = true
all_answered (ok d ∷ rs) = all_answered rs
all_answered (err e ∷ rs) = false

-- The panel as it is compared.
abbrev pub weakened : List (Result Assessment) → List Assessment
weakened [] = []
weakened (ok d ∷ rs) = weaken d ∷ weakened rs
weakened (err e ∷ rs) = weakened rs

-- A decision that is no review is the first of a panel that agrees with it throughout, or the arbiter's, and then it
-- meets the threshold and some assessment of the panel agrees with it.
abbrev pub IsSupported : List Assessment → Option (Result Assessment) → Assessment → Type 0
IsSupported panel arbiter d =
    ((ds : List Assessment) × (panel ≡ d ∷ ds) × (all_agree d ds ≡ true))
    ⊎ ((◌≡◌ {A = Option (Result Assessment)} arbiter (some (ok d)))
        × (d.meets_threshold ≡ true)
        × (some_agrees d panel ≡ true))

-- An answer is an error, a review, or supported by the panel.
unfoldable pub IsFair :
    List Assessment → Option (Result Assessment) → Result Assessment × Status → Type 0
IsFair panel arbiter (ok d, s) = is_review d.verdict ≡ false → IsSupported panel arbiter d
IsFair panel arbiter (err e, s) = Unit

arbitrate-IsFair :
    (panel : List Assessment) (arbiter : Option (Result Assessment))
    → IsFair panel arbiter (arbitrate panel arbiter)
unfolding arbitrate IsFair
arbitrate-IsFair panel none = λ v. absurd (ground (arith, v))
arbitrate-IsFair panel (some (err x)) = tt
arbitrate-IsFair panel (some (ok c)) =
    if_holds (IsFair panel (some (ok c)))
      (not (is_review c.verdict) && c.meets_threshold && some_agrees c panel)
      (λ yes v. inr (refl, ground (arith, yes), ground (arith, yes)))
      (λ _ v. absurd (ground (arith, v)))

fuse_panel-IsFair :
    (ended : Option AuditError) (panel : List Assessment) (arbiter : Option (Result Assessment))
    → IsFair panel arbiter (fuse_panel ended panel arbiter)
unfolding fuse_panel IsFair
fuse_panel-IsFair (some e) panel arbiter = tt
fuse_panel-IsFair none [] arbiter = tt
fuse_panel-IsFair none (d ∷ ds) arbiter =
    if_holds (IsFair (d ∷ ds) arbiter) (not (is_review d.verdict) && all_agree d ds)
      (λ yes v. inl (ds, refl, ground (arith, yes))) (λ _. arbitrate-IsFair (d ∷ ds) arbiter)

-- The panel is complete exactly when every answer is there, and then it is the weakened answers.
unfoldable pub IsPanelOf : List (Result Assessment) → Option (List Assessment) → Type 0
IsPanelOf rs none = all_answered rs ≡ false
IsPanelOf rs (some ds) = (all_answered rs ≡ true) × (ds ≡ weakened rs)

complete_panel-IsPanelOf : (rs : List (Result Assessment)) → IsPanelOf rs (complete_panel rs)
unfolding complete_panel IsPanelOf
complete_panel-IsPanelOf [] = (refl, refl)
complete_panel-IsPanelOf (err e ∷ rs) = refl
complete_panel-IsPanelOf (ok d ∷ rs) = add_to (complete_panel rs) (complete_panel-IsPanelOf rs)
  where
    add_to :
        (o : Option (List Assessment))
        → IsPanelOf rs o
        → IsPanelOf (ok d ∷ rs) (elim o as (λ _. Option (List Assessment)) [
          | none ↦ none
          | some ds ↦ some (weaken d ∷ ds)
        ])
    add_to none h = h
    add_to (some ds) h = (h.0, ap (λ xs. weaken d ∷ xs) h.1)

-- What an answer of the fusion says.
abbrev pub IsFused :
    List (Result Assessment) → Option (Result Assessment) → Result Assessment → Type 0
IsFused votes arbiter (err e) = Unit
IsFused votes arbiter (ok d) =
    (all_answered votes ≡ true)
    × (is_review d.verdict ≡ false → IsSupported (weakened votes) arbiter d)

fused :
    (votes : List (Result Assessment)) (o : Option (List Assessment))
    → IsPanelOf votes o
    → (ended : Option AuditError) (arbiter : Option (Result Assessment))
    → IsFused votes arbiter (fuse_complete o ended arbiter).0
unfolding IsPanelOf IsFair
fused votes none h ended arbiter = tt
fused votes (some panel) h ended arbiter =
    by_result (fuse_panel ended panel arbiter)
      (subst (λ ds. IsFair ds arbiter (fuse_panel ended panel arbiter)) h.1 fair)
  where
    fair : IsFair panel arbiter (fuse_panel ended panel arbiter)
    fair = fuse_panel-IsFair ended panel arbiter

    by_result :
        (r : Result Assessment × Status)
        → IsFair (weakened votes) arbiter r
        → IsFused votes arbiter r.0
    by_result (err e, s) k = tt
    by_result (ok d, s) k = (h.0, k)

-- An answer of the fusion that is no error had every answer of the panel. If it is no review either, it is the first
-- assessment of a panel all of which agree with it, or the arbiter's, and then it meets the threshold and some
-- assessment of the panel agrees with it.
pub fuse_audit_intent-IsFused :
    (votes : List (Result Assessment)) (ended : Option AuditError)
    (arbiter : Option (Result Assessment))
    → IsFused votes arbiter (fuse_audit_intent votes ended arbiter).0
unfolding fuse_audit_intent
fuse_audit_intent-IsFused votes ended arbiter =
    fused votes (complete_panel votes) (complete_panel-IsPanelOf votes) ended arbiter
