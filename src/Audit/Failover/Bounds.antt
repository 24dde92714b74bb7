-- ===== src/Audit/Failover/Bounds.antt =====
-- Which profiles the failover may ask, what they inherit, and how long it waits.
use newapi_risk_platform.Base.{
  ℕ, zero, suc, ◌+◌, ◌*◌, ◌≤◌, ◌<◌, ◌≡◌, refl, Bool, true, false, ◌||◌, String, List, [], ◌∷◌,
  Option, none, some, ltb, arith, eq_iff, str_eq, length, if◌then◌else◌, All, All-append,
  length-append, ◌⊎◌, inl, inr, ℤ, if_holds, pos, lebℤ,
}
use newapi_risk_platform.Base.Maps
use newapi_risk_platform.Base.Maps.{Dict, lookup-put, lookup-delete}
use newapi_risk_platform.Audit.Types.{allow, AuditDecision, ok, AuditProfile}
use newapi_risk_platform.Audit.Failover.{
  mem, panel_keys, copy_key, copy_keys, cyber_deny_profile, govern_profile, retry_delay,
  Surroundings, Chosen, consider_fallback, choose_profiles, add_enabled,
  max_audit_fallback_profiles, call_model_with_failover, fail_open, cyber_model_error_allow, mem_id,
}
use newapi_risk_platform.Audit.Failover.Outcome.{EndsWith, call_model_with_failover-IsHonest}

-- The panel -----------------------------------------------------------------------------------------------------

lookup-copy_key :
    (j k : String) (root extra : Dict String)
    → Maps.lookup j (copy_key (Maps.lookup k root) k extra)
      ≡ (if str_eq k j then Maps.lookup j root else Maps.lookup j extra)
unfolding copy_key
lookup-copy_key j k root extra = by_value (Maps.lookup k root) refl
  where
    by_value :
        (o : Option String)
        → Maps.lookup k root ≡ o
        → Maps.lookup j (copy_key o k extra)
          ≡ (if str_eq k j then Maps.lookup j root else Maps.lookup j extra)
    by_value none e = ground (arith, eq_iff k j, lookup-delete k j extra)
    by_value (some v) e =
        ground (arith, eq_iff k j, lookup-put k j v (Maps.delete k extra), lookup-delete k j extra)

lookup-copy_keys :
    (j : String) (ks : List String) (root extra : Dict String)
    → Maps.lookup j (copy_keys ks root extra)
      ≡ (if mem j ks then Maps.lookup j root else Maps.lookup j extra)
unfolding copy_keys
lookup-copy_keys j [] root extra = refl
lookup-copy_keys j (k ∷ ks) root extra = ground (
  arith,
  eq_iff k j,
  eq_iff j k,
  lookup-copy_key j k root extra,
  lookup-copy_keys j ks root (copy_key (Maps.lookup k root) k extra),
)

-- The wait ------------------------------------------------------------------------------------------------------

-- No wait between two attempts is longer than 300 milliseconds.
retry_delay_le : (retry_index delay : ℕ) → delay ≤ 300 → retry_delay retry_index delay ≤ 300
unfolding retry_delay
retry_delay_le zero delay le = le
retry_delay_le (suc n) delay le =
    ground (arith, retry_delay_le n (if ltb 300 (delay * 2) then 300 else delay * 2))

-- The profiles --------------------------------------------------------------------------------------------------

module _ {W : Type 0} (env : Surroundings W) (deny : Bool) (root : AuditProfile) where
  -- A profile that may be asked is the root, or enabled.
  abbrev pub IsUsable : AuditProfile → Type 0
  IsUsable p = (p ≡ root) ⊎ (p.enabled ≡ true)

  abbrev pub IsShort : Chosen → Type 0
  IsShort c = (length c.profiles ≤ max_audit_fallback_profiles + 1) × All IsUsable c.profiles

  add_enabled-IsShort :
      (o : Option AuditProfile) (c : Chosen)
      → IsShort c
      → length c.profiles < max_audit_fallback_profiles + 1
      → IsShort (add_enabled o c)
  add_enabled-IsShort none c k room = k
  add_enabled-IsShort (some p) c k room =
      if_holds IsShort p.enabled
        (λ on. (
          omega (arith, length-append c.profiles (p ∷ [])),
          All-append IsUsable c.profiles (p ∷ []) k.1 (inr on, tt),
        ))
        (λ _. k)

  consider_fallback-IsShort :
      (i : ℤ) (c : Chosen) (w : W) → IsShort c → IsShort (consider_fallback env deny i c w).0
  unfolding consider_fallback
  consider_fallback-IsShort i c w k =
      if_holds (λ (x : Chosen × W). IsShort x.0)
        (lebℤ i (pos 0) || ltb max_audit_fallback_profiles (length c.profiles) || mem_id i c.seen)
        (λ _. k) (λ no. add_enabled-IsShort (env.get_audit_profile i w).0 _ k (ground (arith, no)))

  choose_profiles-IsShort :
      (is : List ℤ) (c : Chosen) (w : W) → IsShort c → IsShort (choose_profiles env deny is c w).0
  unfolding choose_profiles
  choose_profiles-IsShort [] c w k = k
  choose_profiles-IsShort (i ∷ is) c w k =
      choose_profiles-IsShort is _ _ (consider_fallback-IsShort i c w k)

  -- However many fallbacks a profile names, at most 9 profiles are asked, and each but the root is enabled.
  chosen-IsShort :
      (is : List ℤ) (w : W)
      → IsShort
          (choose_profiles env deny is (record { seen = root.id ∷ []; profiles = root ∷ [] }) w).0
  chosen-IsShort is w = choose_profiles-IsShort is _ w (omega arith, (inl refl, tt))

governed_key :
    (j : String) (root p : AuditProfile)
    → mem j panel_keys ≡ true
    → str_eq "_risk_allow_local_debug_credentials" j ≡ false
    → str_eq "_risk_allow_user_provided_secrets" j ≡ false
    → str_eq "_risk_policy_mode" j ≡ false
    → Maps.lookup j (govern_profile true root p).extra ≡ Maps.lookup j root.extra
unfolding govern_profile cyber_deny_profile
governed_key j root p inside a b c =
    let extra = copy_keys panel_keys root.extra p.extra in
    let with_mode = Maps.put "_risk_policy_mode" "\"cyber_deny\"" extra in
    let with_secrets = Maps.put "_risk_allow_user_provided_secrets" "false" with_mode in
    rw (
      lookup-put "_risk_allow_local_debug_credentials" j "false" with_secrets,
      a,
      lookup-put "_risk_allow_user_provided_secrets" j "false" with_mode,
      b,
      lookup-put "_risk_policy_mode" j "\"cyber_deny\"" extra,
      c,
      lookup-copy_keys j panel_keys root.extra p.extra,
      inside,
    )

-- Under the deny policy a fallback is asked with the root's fusion panel, adjudicator and verifier, whatever its own are.
lookup-govern_profile :
    (root p : AuditProfile)
    → All
        (λ key. Maps.lookup key (govern_profile true root p).extra ≡ Maps.lookup key root.extra)
        panel_keys
unfolding govern_profile cyber_deny_profile
lookup-govern_profile root p = (
  governed_key "_risk_fusion_profile_ids" root p refl refl refl refl,
  (
    governed_key "_risk_fusion_adjudicator_profile_id" root p refl refl refl refl,
    (governed_key "_risk_verifier_profile_id" root p refl refl refl refl, tt),
  ),
)

-- Under the deny policy the failover never returns an error; what it returns allows, or is the verdict of its last
-- attempt, which is in the log.
pub deny_never_fails :
    {W : Type 0} (env : Surroundings W) (root : AuditProfile) (w : W)
    → let a = (call_model_with_failover env true root w).0 in
      (d : AuditDecision) × (a.result ≡ ok d)
      × ((d.verdict ≡ allow) ⊎ EndsWith d.verdict a.metadata)
unfolding fail_open cyber_model_error_allow
deny_never_fails env root w = elim (call_model_with_failover-IsHonest env true root w).1 [
  | inl f ↦ (cyber_model_error_allow f.0, f.1, inl refl)
  | inr d ↦ (d.0, d.1, inr d.2)
]
