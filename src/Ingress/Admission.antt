-- ===== src/Ingress/Admission.antt =====
-- What the ingress guard admits, and what a rejection records.
use newapi_risk_platform.Base.{
  ◌-◌, ◌^◌, ◌≡◌, refl, ◌↔◌, Bool, true, false, ℤ, pos, ◌+ℤ◌, ◌≤ℤ◌, ◌<ℤ◌, ltbℤ, arith, if◌then◌else◌,
}
use newapi_risk_platform.Ingress.{
  RequestBodyLimitPolicy, effective_hard_limit, resolve_request_body_limit, exceeds_known_length,
  recommended_request_max_bytes, mark_request_too_large,
}

-- The size that an operator's settings allow, whatever the request declares.
abbrev pub ceiling : ℤ → ℤ → ℤ
ceiling configured_limit hard_limit =
    let hard = effective_hard_limit hard_limit in
    if ltbℤ (pos 0) configured_limit
    then (if ltbℤ hard configured_limit then hard else configured_limit)
    else hard

-- Whatever the settings and the declared length, the effective limit is at least one byte and at
-- most the hard ceiling of the policy.
resolve_request_body_limit_bounds :
    (configured hard content : ℤ)
    → (pos 1 ≤ℤ (resolve_request_body_limit configured hard content).effective_limit_bytes)
      × ((resolve_request_body_limit configured hard content).effective_limit_bytes
          ≤ℤ (resolve_request_body_limit configured hard content).hard_limit_bytes)
unfolding resolve_request_body_limit
resolve_request_body_limit_bounds configured hard content = (ground arith, ground arith)

-- A declared length is refused exactly when it is over the ceiling of the settings; so the
-- automatic limit, which follows the declared length, refuses nothing else and admits nothing more.
pub exceeds_known_length_iff :
    (configured hard content : ℤ)
    → (exceeds_known_length (resolve_request_body_limit configured hard content) content ≡ true)
      ↔ ((pos 0 ≤ℤ content) × (ceiling configured hard <ℤ content))
unfolding resolve_request_body_limit exceeds_known_length
exceeds_known_length_iff configured hard content =
    (λ h. (ground arith, ground arith), λ h. ground arith)

-- A rejection records more bytes than the limit it names, the recorded excess is the difference,
-- and neither the audit nor the upstream is said to have started; for every limit below the
-- largest 64-bit integer, whatever size was observed.
mark_request_too_large_excess :
    (observed : ℤ) (policy : RequestBodyLimitPolicy) (exact : Bool)
    → observed ≤ℤ pos (2 ^ 63 - 1)
    → policy.effective_limit_bytes <ℤ pos (2 ^ 63 - 1)
    → let mark = mark_request_too_large observed policy exact in
      (mark.request_body_limit_bytes <ℤ mark.request_body_bytes)
      × (mark.request_body_limit_bytes +ℤ mark.request_body_over_limit_bytes
          ≡ mark.request_body_bytes)
      × (observed ≤ℤ mark.request_body_bytes)
      × (mark.audit_started ≡ false)
      × (mark.upstream_started ≡ false)
unfolding mark_request_too_large
mark_request_too_large_excess observed policy exact h k =
    (ground arith, ground arith, ground arith, refl, refl)

-- The recommendation works: a positive recommended limit, set as the explicit limit, admits a
-- request of the size for which it was given.
recommended_limit_admits :
    (request_bytes hard : ℤ)
    → pos 0 <ℤ recommended_request_max_bytes request_bytes hard
    → exceeds_known_length
        (resolve_request_body_limit
          (recommended_request_max_bytes request_bytes hard)
          hard
          request_bytes)
        request_bytes
      ≡ false
unfolding resolve_request_body_limit exceeds_known_length recommended_request_max_bytes
recommended_limit_admits request_bytes hard h = ground arith
