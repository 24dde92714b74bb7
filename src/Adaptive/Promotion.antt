-- ===== src/Adaptive/Promotion.antt =====
-- Which learned rules block.
use newapi_risk_platform.Base.{
  ℕ, ◌*◌, ◌≡◌, ◌≤◌, refl, Bool, true, false, ◌&&◌, String, Option, none, some, leb, str_eq,
  if◌then◌else◌, if_holds, arith, ◌⊎◌, inl, inr, Bool-cases, eq_iff, subst,
}
use newapi_risk_platform.Base.Maps
use newapi_risk_platform.Base.Maps.{Dict, lookup-put}
use newapi_risk_platform.Audit.{Verdict}
use newapi_risk_platform.Adaptive.{
  Candidate, StoredRule, Tables, AdaptiveRulePolicy, is_block, upsert_candidate,
  upsert_cyber_rule_candidate, proposed_action, promoted_rule, old_action, is_rejected,
  promote_cyber_rule_candidate, Learned, Reply, is_ripe, promote_if_ripe, process_adaptive_failure,
}

abbrev pub blocks : Option StoredRule → Bool
blocks none = false
blocks (some r) = r.enabled && is_block r.action

-- The code has an enabled rule whose action is block.
unfoldable pub Blocks : String → Tables → Type 0
Blocks k t = blocks (Maps.lookup k t.rules) ≡ true

abbrev pub forbids : Option StoredRule → Bool
forbids none = false
forbids (some r) = is_block r.action

-- The code has a rule whose action is block, enabled or disabled.
unfoldable pub Forbids : String → Tables → Type 0
Forbids k t = forbids (Maps.lookup k t.rules) ≡ true

module _ (unit : ℕ) where
  -- The candidate has what an automatic promotion takes: the setting, and the confidence, evidence and users of the policy.
  abbrev pub IsRipe : AdaptiveRulePolicy → Candidate → Type 0
  IsRipe p c =
      (p.auto_promote ≡ true)
      × (is_rejected c.status ≡ false)
      × (p.min_confidence ≤ c.confidence)
      × (p.min_evidence ≤ c.evidence_count)
      × (p.min_distinct_users ≤ c.distinct_users)

  -- And what an automatic block takes.
  abbrev pub IsEarned : AdaptiveRulePolicy → Candidate → Type 0
  IsEarned p c =
      (p.auto_block ≡ true)
      × (199 * unit ≤ c.confidence)
      × (10 ≤ c.evidence_count)
      × (3 ≤ c.distinct_users)

  is_ripe-IsRipe : (p : AdaptiveRulePolicy) (c : Candidate) → is_ripe p c ≡ true → IsRipe p c
  unfolding is_ripe
  is_ripe-IsRipe p c ripe = (
    ground (arith, ripe),
    ground (arith, ripe),
    ground (arith, ripe),
    ground (arith, ripe),
    ground (arith, ripe),
  )

  proposed_action-block :
      (p : AdaptiveRulePolicy) (c : Candidate)
      → is_block (proposed_action unit p.auto_block c) ≡ true
      → IsEarned p c
  unfolding proposed_action
  proposed_action-block p c b =
      (ground (arith, b), ground (arith, b), ground (arith, b), ground (arith, b))

  promoted-blocks :
      (action old : Verdict) (c : Candidate)
      → is_block (promoted_rule action old c).action ≡ true
      → (is_block old ≡ true) ⊎ (is_block action ≡ true)
  promoted-blocks action old c h = elim (Bool-cases (is_block old)) [
    | inl o ↦ inl o
    | inr o ↦ inr (elim (Bool-cases (is_block action)) [
      | inl a ↦ a
      | inr a ↦ absurd (ground (arith, h, o, a))
    ])
  ]

  promote-Blocks :
      (commits : Bool) (p : AdaptiveRulePolicy) (c : Candidate) (t : Tables) (k : String)
      → is_ripe p c ≡ true
      → Blocks k (promote_cyber_rule_candidate unit commits p.auto_block c t)
      → Blocks k t ⊎ ((c.proposed_code ≡ k) × IsRipe p c × (Forbids k t ⊎ IsEarned p c))
  unfolding promote_cyber_rule_candidate Blocks Forbids
  promote-Blocks false p c t k ripe h = inl h
  promote-Blocks true p c t k ripe h =
      let old = old_action (Maps.lookup c.proposed_code t.rules) in
      let rule = promoted_rule (proposed_action unit p.auto_block c) old c in
      let e : Maps.lookup k (Maps.put c.proposed_code rule t.rules)
          ≡ (if str_eq c.proposed_code k then some rule else Maps.lookup k t.rules) =
        lookup-put c.proposed_code k rule t.rules in
      elim (Bool-cases (str_eq c.proposed_code k)) [
        | inr apart ↦ inl (rw (e, apart) at h)
        | inl same ↦
            let code : c.proposed_code ≡ k = (eq_iff c.proposed_code k).0 same in
            elim (promoted-blocks (proposed_action unit p.auto_block c) old c (rw (e, same) at h)) [
              | inr new ↦ inr (code, is_ripe-IsRipe p c ripe, inr (proposed_action-block p c new))
              | inl kept ↦ inr (
                code,
                is_ripe-IsRipe p c ripe,
                inl (
                    subst (λ (j : String). forbids (Maps.lookup j t.rules) ≡ true) code
                      (forbidden (Maps.lookup c.proposed_code t.rules) kept)),
              )
            ]
      ]
    where
      forbidden : (o : Option StoredRule) → is_block (old_action o) ≡ true → forbids o ≡ true
      forbidden none b = absurd (ground (arith, b))
      forbidden (some r) b = b

  -- The upsert leaves the rules alone.
  upsert-rules :
      (commits : Bool) (c : Candidate) (digest : String) (t : Tables)
      → (upsert_cyber_rule_candidate commits c digest t).1.rules ≡ t.rules
  unfolding upsert_cyber_rule_candidate upsert_candidate
  upsert-rules false c digest t = refl
  upsert-rules true c digest t =
      if_holds (λ (x : Candidate × Tables). x.1.rules ≡ t.rules) (str_eq digest "") (λ _. refl)
        (λ _. refl)

  same_rules : (k : String) (t u : Tables) → u.rules ≡ t.rules → Blocks k u → Blocks k t
  unfolding Blocks
  same_rules k t u e h = subst (λ (rs : Dict StoredRule). blocks (Maps.lookup k rs) ≡ true) e h

  same_forbidden : (k : String) (t u : Tables) → u.rules ≡ t.rules → Forbids k u → Forbids k t
  unfolding Forbids
  same_forbidden k t u e h = subst (λ (rs : Dict StoredRule). forbids (Maps.lookup k rs) ≡ true) e h

  -- A rule that blocks after a sample blocked before, or the sample's candidate, as the tables keep it, is ripe for promotion
  -- and has the rule's code, and either the rule's action was block already or the candidate has earned it.
  abbrev pub MayBlock : AdaptiveRulePolicy → Option Candidate → String → Tables → Type 0
  MayBlock p stored k t =
      Blocks k t
      ⊎ ((c : Candidate) × (stored ≡ some c)
          × (c.proposed_code ≡ k)
          × IsRipe p c
          × (Forbids k t ⊎ IsEarned p c))

  promote_if_ripe-MayBlock :
      (r : Reply) (stored : Option Candidate) (t : Tables) (k : String)
      → Blocks k (promote_if_ripe unit r stored t)
      → MayBlock r.later_policy stored k t
  promote_if_ripe-MayBlock r none t k h = inl h
  promote_if_ripe-MayBlock r (some c) t k h =
      if_holds (λ (u : Tables). Blocks k u → MayBlock r.later_policy (some c) k t)
        (is_ripe r.later_policy c)
        (λ ripe b. earned ripe (promote-Blocks r.promote_commits r.later_policy c t k ripe b))
        (λ _ b. inl b) h
    where
      earned :
          is_ripe r.later_policy c ≡ true
          → Blocks k t
            ⊎ ((c.proposed_code ≡ k)
                × IsRipe r.later_policy c
                × (Forbids k t ⊎ IsEarned r.later_policy c))
          → MayBlock r.later_policy (some c) k t
      earned ripe (inl b) = inl b
      earned ripe (inr e) = inr (c, refl, e.0, e.1, e.2)

  -- An enabled rule that blocks after a sample was enabled and blocked before, or the sample promoted it: automatic promotion
  -- is on, and the candidate that the tables keep for the sample has the rule's code, is not rejected, and has the
  -- confidence, evidence and users of the policy; and then either the rule's action was block already, though it was
  -- disabled, or automatic blocking is on and the candidate has a confidence of .995, ten failures and three users at least.
  pub process_adaptive_failure-MayBlock :
      (policy : AdaptiveRulePolicy) (l : Learned) (r : Reply) (t : Tables) (k : String)
      → Blocks k (process_adaptive_failure unit policy (some l) r t)
      → MayBlock r.later_policy
          (upsert_cyber_rule_candidate r.upsert_commits l.proposal l.user_digest t).0
          k
          t
  unfolding process_adaptive_failure
  process_adaptive_failure-MayBlock policy l r t k h =
      let u = upsert_cyber_rule_candidate r.upsert_commits l.proposal l.user_digest t in
      if_holds (λ (x : Tables). Blocks k x → MayBlock r.later_policy u.0 k t)
        (policy.enabled
          && r.profile_enabled
          && l.is_cyber
          && leb (160 * unit) l.confidence
          && l.category_allowed
          && leb 2 l.indicators
          && l.has_pattern)
        (λ _ b.
          before u.0 u.1 (upsert-rules r.upsert_commits l.proposal l.user_digest t)
            (promote_if_ripe-MayBlock r u.0 u.1 k b))
        (λ _ b. inl b) h
    where
      before :
          (stored : Option Candidate) (u : Tables)
          → u.rules ≡ t.rules
          → MayBlock r.later_policy stored k u
          → MayBlock r.later_policy stored k t
      before stored u e (inl b) = inl (same_rules k t u e b)
      before stored u e (inr (c, kept, code, ripe, inl old)) =
          inr (c, kept, code, ripe, inl (same_forbidden k t u e old))
      before stored u e (inr (c, kept, code, ripe, inr new)) = inr (c, kept, code, ripe, inr new)
