-- ===== src/Ingress.antt =====
-- The ingress guard on the size of a request body: internal/platform/request_limit_source.go, and
-- `markRequestTooLarge` of internal/platform/gateway.go.
pub mod Admission
mod Tests
use newapi_risk_platform.Base.{
  ℕ, ◌+◌, ◌*◌, Bool, true, false, not, ◌&&◌, ◌||◌, ℤ, pos, negsuc, lebℤ, ltbℤ, ◌+₆₄◌, ◌-₆₄◌,
  if◌then◌else◌,
}

-- `requestBodyLimitPolicy.Mode`, which the source spells as one of three strings.
pub data LimitMode : Type 0 where
  configured auto_actual_size auto_hard_ceiling : LimitMode

pub record RequestBodyLimitPolicy : Type 0 where
  pub mode : LimitMode
  pub effective_limit_bytes : ℤ
  pub hard_limit_bytes : ℤ
  pub configured_limit_bytes : ℤ

abbrev pub default_request_hard_max_bytes : ℤ
default_request_hard_max_bytes = pos (64 * 1024 * 1024)

-- A ceiling of zero or less means the default.
abbrev pub effective_hard_limit : ℤ → ℤ
effective_hard_limit hard_limit =
    if lebℤ hard_limit (pos 0) then default_request_hard_max_bytes else hard_limit

-- Go's `int64` content length is -1 where the client sent none.
unfoldable pub resolve_request_body_limit : ℤ → ℤ → ℤ → RequestBodyLimitPolicy
resolve_request_body_limit configured_limit hard_limit content_length =
    let hard = effective_hard_limit hard_limit in
    let soft = (if ltbℤ hard configured_limit then hard else configured_limit) in
    if ltbℤ (pos 0) configured_limit
    then record {
      mode = configured;
      effective_limit_bytes = soft;
      hard_limit_bytes = hard;
      configured_limit_bytes = soft;
    }
    else if lebℤ (pos 0) content_length && lebℤ content_length hard
    then record {
      mode = auto_actual_size;
      effective_limit_bytes = if ltbℤ content_length (pos 1) then pos 1 else content_length;
      hard_limit_bytes = hard;
      configured_limit_bytes = pos 0;
    }
    else record {
      mode = auto_hard_ceiling;
      effective_limit_bytes = hard;
      hard_limit_bytes = hard;
      configured_limit_bytes = pos 0;
    }

unfoldable pub exceeds_known_length : RequestBodyLimitPolicy → ℤ → Bool
exceeds_known_length policy content_length =
    lebℤ (pos 0) content_length && ltbℤ policy.effective_limit_bytes content_length

unfoldable pub request_body_needs_large_slot : ℤ → ℤ → Bool
request_body_needs_large_slot content_length threshold =
    ltbℤ content_length (pos 0) || ltbℤ threshold content_length

unfoldable pub recommended_request_max_bytes : ℤ → ℤ → ℤ
recommended_request_max_bytes request_bytes hard_limit =
    let hard = effective_hard_limit hard_limit in
    if lebℤ request_bytes (pos 0) || ltbℤ hard request_bytes then pos 0 else request_bytes

-- The configuration key that the rejection names.
pub data LimitConfig : Type 0 where
  request_max_bytes request_hard_max_bytes : LimitConfig

abbrev limit_config_of : LimitMode → LimitConfig
limit_config_of configured = request_max_bytes
limit_config_of _ = request_hard_max_bytes

-- The entries that depend on the request, of those that the function writes into the trace.
-- The constant ones and the wording of the two messages are left out.
pub record TooLargeMark : Type 0 where
  pub limit_config : LimitConfig
  pub audit_started : Bool
  pub upstream_started : Bool
  pub request_body_bytes : ℤ
  pub request_body_limit_bytes : ℤ
  pub request_body_over_limit_bytes : ℤ
  pub request_body_size_exact : Bool
  pub request_body_recommended_limit_bytes : ℤ

abbrev recommendation_of : LimitMode → ℤ → ℤ → ℤ
recommendation_of configured bytes hard = recommended_request_max_bytes bytes hard
recommendation_of _ bytes hard = pos 0

unfoldable pub mark_request_too_large : ℤ → RequestBodyLimitPolicy → Bool → TooLargeMark
mark_request_too_large request_bytes policy exact =
    let limit =
      (if ltbℤ policy.effective_limit_bytes (pos 1) then pos 1 else policy.effective_limit_bytes) in
    let bytes = (if lebℤ request_bytes limit then limit +₆₄ pos 1 else request_bytes) in
    record {
      limit_config = limit_config_of policy.mode;
      audit_started = false;
      upstream_started = false;
      request_body_bytes = bytes;
      request_body_limit_bytes = limit;
      request_body_over_limit_bytes = bytes -₆₄ limit;
      request_body_size_exact = exact;
      request_body_recommended_limit_bytes =
          recommendation_of policy.mode bytes policy.hard_limit_bytes;
    }
