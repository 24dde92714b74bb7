-- ===== src/Gateway/Types.antt =====
-- The data of one request through the gateway (internal/platform/gateway.go, types.go).
-- `Effect` lists the calls that the handler makes of other components, with their answers, and what
-- it writes to the client; a run's log holds them with the latest first.
use newapi_risk_platform.Base.{ℕ, Bool, String, List, Option, ℤ}
use newapi_risk_platform.Ingress.{TooLargeMark}

-- The code points of a header value.
abbrev pub Text : Type 0
Text = List ℕ

pub data Method : Type 0 where
  connect trace other : Method

pub record Request : Type 0 where
  pub method : Method
  pub slug : Text
  pub x_request_id : Text
  pub x_oneapi_request_id : Text
  pub x_risk_gateway_key : Text
  pub authorization : Text
  pub content_length : ℤ

-- The part of `Config` that the handler reads.
pub record Config : Type 0 where
  pub error_http_status : ℕ
  pub request_max_bytes : ℤ
  pub request_hard_max_bytes : ℤ
  pub large_request_threshold_bytes : ℤ

-- The part of `Route` that the handler reads.
pub record Route : Type 0 where
  pub enabled : Bool
  pub inbound_key_digest : Text
  pub max_concurrency : ℤ
  pub request_timeout_ms : ℤ

pub data Decision : Type 0 where
  allow block review : Decision

-- The part of `AuditResult` on which the handler branches.
pub record AuditResult : Type 0 where
  pub decision : Decision
  pub risk_code : String
  pub error_class : String

-- `io.ReadAll` over `http.MaxBytesReader`: the body, a body over the limit, or another error, each
-- with the number of bytes that were read.
pub data BodyRead : Type 0 where
  complete too_large failed : ℕ → BodyRead

-- Why the request's context ended, as the handler tells causes apart.
pub data Cause : Type 0 where
  request_timeout deadline_exceeded canceled other : Cause

pub data SendResult : Type 0 where
  send_failed : (cause : Cause) → (error_is_deadline_exceeded : Bool) → SendResult
  response : (status : ℕ) → (is_event_stream : Bool) → SendResult

-- What `proxySSE` and `proxyBuffered` return.
pub record ProxyResult : Type 0 where
  pub bytes_written : ℕ
  pub risk_code : String
  pub status : ℕ
  pub stream_committed : Bool

pub data TraceDecision : Type 0 where
  allow block error : TraceDecision

pub record Trace : Type 0 where
  pub request_id : Text
  pub route_slug : Text
  pub decision : TraceDecision
  pub risk_code : String
  pub http_status : ℕ
  pub upstream_status : ℕ
  pub request_bytes : ℤ
  pub response_bytes : ℕ
  pub audit_started : Bool
  pub upstream_started : Bool
  pub too_large_mark : Option TooLargeMark
  pub failure_stage : String
  pub error_class : String
  pub audit_timeout_fail_open : Bool
  pub logical_555_after_headers : Bool

pub data Slot : Type 0 where
  global large_bodies route : Slot

-- `writeGatewayError` and `writeRiskError` differ in the type and the code of the body.
pub data ErrorBody : Type 0 where
  gateway_error risk_control_error : ErrorBody

pub data Effect : Type 0 where
  looked_up : Option Route → Effect
  verified rate_allowed client_gone built : Bool → Effect
  slot_requested : Slot → Bool → Effect
  slot_released : Slot → Effect
  body_read : BodyRead → Effect
  audited : AuditResult → Effect
  sent : SendResult → Effect
  observed_upstream_failure : String → Effect
  proxied : ProxyResult → Effect
  submitted : Trace → Effect
  wrote_error : ErrorBody → ℕ → String → Effect

pub record Run (W : Type 0) : Type 0 where
  pub world : W
  pub log : List Effect
  pub trace : Trace
  pub finished : Bool

-- The other components, each with a state of its own inside `W`.
pub record Services (W : Type 0) : Type 0 where
  pub new_request_id : Text
  pub get_route : Text → W → Option Route × W
  pub verify_digest : Text → Text → Bool
  pub allow : Text → Route → W → Bool × W
  pub try_slot : Slot → W → Bool × W
  pub give_slot : Slot → W → W
  pub read_body : ℤ → W → BodyRead × W
  pub audit : Route → W → AuditResult × W
  pub is_client_gone : W → Bool
  pub acquire_route : Text → (limit : ℤ) → (ttl_ms : ℤ) → W → Bool × W
  pub build_upstream_request : Route → W → Bool × W
  pub send : W → SendResult × W
  pub observe_upstream_failure : String → W → W
  pub proxy_sse : W → ProxyResult × W
  pub proxy_buffered : W → ProxyResult × W
