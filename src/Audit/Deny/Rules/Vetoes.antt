-- ===== src/Audit/Deny/Rules/Vetoes.antt =====
-- Why `matchCyberDenyRulesContext` refuses a request.
use newapi_risk_platform.Base.{
  ℕ, zero, suc, ◌+◌, ◌<◌, ◌≡◌, not, ◌||◌, leb, max, arith, refl, true, String, List, [], ◌∷◌, ◌++◌,
  Option, none, some, str_eq, inl, inr, ◌⊎◌, if_holds, if◌then◌else◌,
}
use newapi_risk_platform.Audit.Types.{
  block, AuditDecision, plain_decision, AuditError, Result, ok, err,
}
use newapi_risk_platform.Audit.Deny.Normalize.{Rule, Engine, is_block}
use newapi_risk_platform.Audit.Deny.Rules.{
  RoleUnit, Evidence, Suppression, Matcher, Found, matched, unmatched, stopped, Scan, answered,
  continue, suppression_reason, next_evidence, judge, scan_unit, after_unit, scan_units,
  unless_ended, conclude_scan, match_cyber_rule, after_rule, rule_unless_ended, append_weak,
  match_rules, match_cyber_deny_rules,
}

-- An element of the list has the property.
abbrev pub Any {ℓ} : {A : Type ℓ} → (A → Type 0) → List A → Type 0
Any P [] = ⊥
Any P (x ∷ xs) = P x ⊎ Any P xs

module _ {W : Type 0} (env : Matcher W) where
  -- The rule's search finds the evidence in the unit: its first match, or, for a regular expression, one from an offset
  -- within the unit on.
  abbrev pub IsFoundIn : Rule → RoleUnit → Evidence → Type 0
  IsFoundIn r u e =
      (env.evidence_in r u ≡ some e)
      ⊎ ((env.is_regex r ≡ true)
          × ((offset : ℕ) × (offset < u.size) × (env.evidence_after r u offset ≡ some e)))

  -- The unit has evidence of the rule that no reason suppresses.
  abbrev pub IsStandingIn : Rule → RoleUnit → Type 0
  IsStandingIn r u =
      (e : Evidence) × IsFoundIn r u e × (str_eq (suppression_reason env r u e) "" ≡ true)

  -- One of the units has such evidence, if there is a match.
  unfoldable pub IsStanding : Rule → List RoleUnit → Found → Type 0
  IsStanding r us (matched u e) = Any (IsStandingIn r) us
  IsStanding r us unmatched = Unit
  IsStanding r us (stopped _) = Unit

  unfoldable IsSound : Rule → List RoleUnit → Scan → Type 0
  IsSound r us (answered f) = IsStanding r us f
  IsSound r us (continue _) = Unit

  -- Evidence that a scan goes on with is found.
  abbrev IsFoundIf : Rule → RoleUnit → Option Evidence → Type 0
  IsFoundIf r u found = (e : Evidence) → found ≡ some e → IsFoundIn r u e

  next_evidence-IsFoundIf :
      (r : Rule) (u : RoleUnit) (e : Evidence) → IsFoundIf r u (next_evidence env r u e)
  next_evidence-IsFoundIf r u e =
      let offset = e.start + max 1 (env.rune_width u e.start) in
      if_holds (IsFoundIf r u) (not (env.is_regex r) || leb u.size offset)
        (λ _ d found. absurd (cc found))
        (λ on d found. inr (ground (arith, on), (offset, ground (arith, on), found)))

  IsSound-cons :
      (r : Rule) (u : RoleUnit) (us : List RoleUnit) (c : Scan)
      → IsSound r us c
      → IsSound r (u ∷ us) c
  unfolding IsSound IsStanding
  IsSound-cons r u us (answered (matched v e)) h = inr h
  IsSound-cons r u us (answered unmatched) h = tt
  IsSound-cons r u us (answered (stopped error)) h = tt
  IsSound-cons r u us (continue left) h = tt

  judge-IsSound :
      (r : Rule) (u : RoleUnit) (e : Evidence) (ended : Option AuditError) (weak : List Suppression)
      (w : W) (next : List Suppression → Scan × List Suppression × W)
      → IsFoundIn r u e
      → ((weak' : List Suppression) → IsSound r (u ∷ []) (next weak').0)
      → IsSound r (u ∷ []) (judge env r u e ended weak w next).0
  unfolding judge IsSound IsStanding
  judge-IsSound r u e (some error) weak w next found k = tt
  judge-IsSound r u e none weak w next found k =
      if_holds (λ (p : Scan × List Suppression × W). IsSound r (u ∷ []) p.0)
        (str_eq (suppression_reason env r u e) "") (λ h. inl (e, found, h)) (λ _. k _)

  scan_unit-IsSound :
      (r : Rule) (u : RoleUnit) (left : ℕ) (found : Option Evidence) (weak : List Suppression)
      (w : W)
      → IsFoundIf r u found
      → IsSound r (u ∷ []) (scan_unit env r u left found weak w).0
  unfolding scan_unit IsSound IsStanding
  scan_unit-IsSound r u left none weak w found = tt
  scan_unit-IsSound r u zero (some e) weak w found =
      judge-IsSound r u e _ weak _ _ (found e refl) (λ weak'. tt)
  scan_unit-IsSound r u (suc left) (some e) weak w found =
      judge-IsSound r u e _ weak _ _ (found e refl) (λ weak'.
        scan_unit-IsSound r u left (next_evidence env r u e) weak' _
          (next_evidence-IsFoundIf r u e))

  IsSound-first :
      (r : Rule) (u : RoleUnit) (us : List RoleUnit) (c : Scan)
      → IsSound r (u ∷ []) c
      → IsSound r (u ∷ us) c
  unfolding IsSound IsStanding
  IsSound-first r u us (answered (matched v e)) (inl h) = inl h
  IsSound-first r u us (answered (matched v e)) (inr h) = absurd h
  IsSound-first r u us (answered unmatched) h = tt
  IsSound-first r u us (answered (stopped error)) h = tt
  IsSound-first r u us (continue left) h = tt

  after_unit-IsSound :
      (r : Rule) (us : List RoleUnit) (p : Scan × List Suppression × W)
      (rest : ℕ → List Suppression → W → Scan × List Suppression × W)
      → IsSound r us p.0
      → ((left : ℕ) (weak : List Suppression) (w : W) → IsSound r us (rest left weak w).0)
      → IsSound r us (after_unit env p rest).0
  unfolding after_unit
  after_unit-IsSound r us (answered f, weak, w) rest h k = h
  after_unit-IsSound r us (continue left, weak, w) rest h k = k left weak w

  scan_units-IsSound :
      (r : Rule) (us : List RoleUnit) (left : ℕ) (weak : List Suppression) (w : W)
      → IsSound r us (scan_units env r us left weak w).0
  unfolding scan_units IsSound IsStanding
  scan_units-IsSound r [] left weak w = tt
  scan_units-IsSound r (u ∷ us) left weak w = by_context (env.ctx_err w).0 (scan_units-IsSound r us)
    where
      by_context :
          (ended : Option AuditError)
          → ((left : ℕ) (weak : List Suppression) (w : W)
              → IsSound r us (scan_units env r us left weak w).0)
          → IsSound r
              (u ∷ us)
              (unless_ended env ended weak (env.ctx_err w).1 (
                after_unit env
                  (scan_unit env r u left (env.evidence_in r u) weak (env.ctx_err w).1)
                  (scan_units env r us))).0
      by_context none k =
          after_unit-IsSound r (u ∷ us) _ _
            (IsSound-first r u us _
              (scan_unit-IsSound r u left (env.evidence_in r u) weak _ (λ e found. inl found)))
            (λ left' weak' w'. IsSound-cons r u us _ (k left' weak' w'))
      by_context (some error) k = tt

  match_cyber_rule-IsStanding :
      (r : Rule) (text : String) (w : W)
      → IsStanding r (env.units_of text) (match_cyber_rule env r text w).0
  unfolding match_cyber_rule IsStanding IsSound
  match_cyber_rule-IsStanding r text w =
      concluded (scan_units env r (env.units_of text) 1023 [] w)
        (scan_units-IsSound r (env.units_of text) 1023 [] w)
    where
      concluded :
          (p : Scan × List Suppression × W)
          → IsSound r (env.units_of text) p.0
          → IsStanding r (env.units_of text) (conclude_scan env r text p).0
      concluded (answered f, weak, w) h = h
      concluded (continue left, weak, w) h = tt

  -- The rule is enabled, blocks, gives the decision, and has evidence that no reason suppresses in one of the units of one
  -- role into which the text is split.
  abbrev pub IsVeto : (text : String) → AuditDecision → Rule → Type 0
  IsVeto text d r =
      (r.enabled ≡ true)
      × (is_block r.action ≡ true)
      × (d ≡ plain_decision block r.category r.code 0 "rule")
      × Any (IsStandingIn r) (env.units_of text)

  unfoldable pub IsVetoed : (text : String) → List Rule → Result (Option AuditDecision) → Type 0
  IsVetoed text rs (err _) = Unit
  IsVetoed text rs (ok none) = Unit
  IsVetoed text rs (ok (some d)) = Any (IsVeto text d) rs

  IsVetoed-cons :
      (text : String) (r : Rule) (rs : List Rule) (a : Result (Option AuditDecision))
      → IsVetoed text rs a
      → IsVetoed text (r ∷ rs) a
  unfolding IsVetoed
  IsVetoed-cons text r rs (err _) h = tt
  IsVetoed-cons text r rs (ok none) h = tt
  IsVetoed-cons text r rs (ok (some d)) h = inr h

  after_rule-IsVetoed :
      (text : String) (r : Rule) (rs : List Rule) (f : Found) (weak : List Suppression) (w : W)
      (rest : List Suppression → W → Result (Option AuditDecision) × List Suppression × W)
      → r.enabled ≡ true
      → IsStanding r (env.units_of text) f
      → ((weak : List Suppression) (w : W) → IsVetoed text rs (rest weak w).0)
      → IsVetoed text (r ∷ rs) (after_rule env r f weak w rest).0
  unfolding after_rule IsVetoed IsStanding
  after_rule-IsVetoed text r rs (stopped error) weak w rest on h k = tt
  after_rule-IsVetoed text r rs unmatched weak w rest on h k = IsVetoed-cons text r rs _ (k weak w)
  after_rule-IsVetoed text r rs (matched u e) weak w rest on h k =
      if_holds
        (λ (m : Result (Option AuditDecision) × List Suppression × W). IsVetoed text (r ∷ rs) m.0)
        (is_block r.action) (λ blocks. inl (on, blocks, refl, h))
        (λ _. IsVetoed-cons text r rs _ (k _ w))

  match_rules-IsVetoed :
      (rs : List Rule) (text : String) (weak : List Suppression) (w : W)
      → IsVetoed text rs (match_rules env rs text weak w).0
  unfolding match_rules IsVetoed
  match_rules-IsVetoed [] text weak w = tt
  match_rules-IsVetoed (r ∷ rs) text weak w =
      by_context (env.ctx_err w).0 (env.ctx_err w).1 (match_rules-IsVetoed rs text)
    where
      by_context :
          (ended : Option AuditError) (w1 : W)
          → ((weak : List Suppression) (w : W)
              → IsVetoed text rs (match_rules env rs text weak w).0)
          → let m = match_cyber_rule env r text w1 in
            IsVetoed text
              (r ∷ rs)
              (rule_unless_ended env ended weak w1 (
                if r.enabled
                then after_rule env r m.0 (append_weak weak m.1) m.2 (match_rules env rs text)
                else match_rules env rs text weak w1)).0
      by_context (some error) w1 k = tt
      by_context none w1 k =
          if_holds
            (λ (m : Result (Option AuditDecision) × List Suppression × W).
              IsVetoed text (r ∷ rs) m.0)
            r.enabled
            (λ on.
              after_rule-IsVetoed text r rs _ _ _ _ on (match_cyber_rule-IsStanding r text w1) k)
            (λ _. IsVetoed-cons text r rs _ (k weak w1))

  -- A request is refused by a rule only if an enabled rule, loaded or of the baseline, that blocks has evidence
  -- that its search finds and no reason suppresses in one of the units of one role into which the text is split; the
  -- decision is a block with the rule's code and category.
  pub match_cyber_deny_rules-IsVetoed :
      (e : Engine) (text : String) (w : W)
      → IsVetoed text (e.loaded ++ e.baseline) (match_cyber_deny_rules env e text w).0
  unfolding match_cyber_deny_rules
  match_cyber_deny_rules-IsVetoed e text w = match_rules-IsVetoed _ text [] w
