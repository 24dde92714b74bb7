-- ===== src/Ingress/Tests.antt =====
-- The ingress guard on concrete sizes, and the theorems there.
use newapi_risk_platform.Base.{◌≡◌, refl, ◌↔◌, true, pos, negsuc, ◌≤ℤ◌, ◌<ℤ◌}
use newapi_risk_platform.Ingress.{
  RequestBodyLimitPolicy, resolve_request_body_limit, exceeds_known_length, mark_request_too_large,
  recommended_request_max_bytes, auto_hard_ceiling, configured,
}
use newapi_risk_platform.Ingress.Admission.{ceiling, exceeds_known_length_iff}

abbrev soft : RequestBodyLimitPolicy
soft = record {
  mode = configured;
  effective_limit_bytes = pos 10;
  hard_limit_bytes = pos 100;
  configured_limit_bytes = pos 10;
}

unknown_length_gets_ceiling :
    (resolve_request_body_limit (pos 0) (pos 100) (negsuc 0)).mode ≡ auto_hard_ceiling
unfolding resolve_request_body_limit
unknown_length_gets_ceiling = refl

soft_limit_recommends :
    (mark_request_too_large (pos 12) soft true).request_body_recommended_limit_bytes ≡ pos 12
unfolding mark_request_too_large recommended_request_max_bytes
soft_limit_recommends = refl

exceeds_known_length_iff_example :
    (exceeds_known_length (resolve_request_body_limit (pos 10) (pos 100) (pos 12)) (pos 12) ≡ true)
    ↔ ((pos 0 ≤ℤ pos 12) × (ceiling (pos 10) (pos 100) <ℤ pos 12))
exceeds_known_length_iff_example = exceeds_known_length_iff (pos 10) (pos 100) (pos 12)
