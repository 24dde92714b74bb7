-- ===== src/Audit/Failover/Tests.antt =====
-- The failover on a concrete program: three timeouts, then a block by a fallback.
use newapi_risk_platform.Base.{
  ℕ, ◌+◌, ◌≡◌, true, false, [], ◌∷◌, none, some, ltb, pos, if◌then◌else◌, ◌⊎◌,
}
use newapi_risk_platform.Audit.Types.{
  plain_decision, allow, block, AuditDecision, new_audit_model_call_error, ok, err, AuditProfile,
}
use newapi_risk_platform.Audit.Failover.{Surroundings, call_model_with_failover}
use newapi_risk_platform.Audit.Failover.Outcome.{
  IsHonest, EndsWith, call_model_with_failover-IsHonest,
}
use newapi_risk_platform.Audit.Failover.Bounds.{deny_never_fails}

abbrev profile_of : ℕ → AuditProfile
profile_of i = record {
  id = pos i;
  enabled = true;
  fail_closed = false;
  retry_count = pos 1;
  fallback_profile_ids = pos 2 ∷ pos 2 ∷ pos 0 ∷ pos 3 ∷ [];
  block_threshold = 0;
  extra = ("_risk_verifier_profile_id", "7") ∷ [];
}

abbrev blocking : AuditDecision
blocking = plain_decision block "cyber" "R1" 90 "model"

-- The state counts the calls; the fourth decides.
abbrev flaky : Surroundings ℕ
flaky = record {
  ctx_err = λ w. (none, w);
  get_audit_profile = λ i w. (some (profile_of 2), w);
  call_model = λ p format c w.
      ((if ltb w 3 then err (new_audit_model_call_error "timeout" 0) else ok blocking, c), w + 1);
  wait = λ n w. (none, w);
}

call_model_with_failover-IsHonest_example :
    IsHonest flaky true (call_model_with_failover flaky true (profile_of 1) 0).0
call_model_with_failover-IsHonest_example =
    call_model_with_failover-IsHonest flaky true (profile_of 1) 0

deny_never_fails_example :
    let a = (call_model_with_failover flaky true (profile_of 1) 0).0 in
    (d : AuditDecision) × (a.result ≡ ok d) × ((d.verdict ≡ allow) ⊎ EndsWith d.verdict a.metadata)
deny_never_fails_example = deny_never_fails flaky (profile_of 1) 0
