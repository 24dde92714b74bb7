-- ===== src/Gateway/Serve/Admit.antt =====
-- The first half of `ServeHTTP`: who asks, which route, and whether the body is let in.
use newapi_risk_platform.Base.{
  ℕ, Bool, true, false, [], ◌∷◌, Option, none, some, ℤ, pos, ltbℤ, ◌+₆₄◌, if◌then◌else◌,
}
use newapi_risk_platform.Ingress.{
  RequestBodyLimitPolicy, resolve_request_body_limit, exceeds_known_length,
  request_body_needs_large_slot, mark_request_too_large,
}
use newapi_risk_platform.Gateway.Types.{
  Text, Method, Request, Config, Route, BodyRead, complete, too_large, failed, TraceDecision, Slot,
  gateway_error, risk_control_error, Effect, Run, Services,
}
use newapi_risk_platform.Gateway.Text.{
  is_empty, trim_space, normalize_request_id, first_non_empty, bearer_token,
}
use newapi_risk_platform.Gateway.Serve.Forward.{reject, give_back, audit_request}

abbrev pub is_forbidden : Method → Bool
is_forbidden Method.other = false
is_forbidden _ = true

-- A lower bound of the size of a body that went over the limit while it was read.
abbrev observed_bytes : RequestBodyLimitPolicy → ℕ → ℤ
observed_bytes policy n =
    let bound = policy.effective_limit_bytes +₆₄ pos 1 in
    if ltbℤ bound (pos n) then pos n else bound

abbrev inbound_credential : Request → Text
inbound_credential request =
    first_non_empty
      (trim_space request.x_risk_gateway_key ∷ bearer_token request.authorization ∷ [])

module _ {W : Type 0} (services : Services W) (config : Config) where
  unfoldable pub refuse_too_large : ℤ → RequestBodyLimitPolicy → Bool → Run W → Run W
  refuse_too_large observed policy exact r =
      let mark = mark_request_too_large observed policy exact in
      reject risk_control_error "REQUEST_TOO_LARGE" config.error_http_status (record r {
        trace = record r.trace {
          request_bytes = mark.request_body_bytes;
          too_large_mark = some mark;
          failure_stage = "gateway_ingress";
          error_class = "request_body_too_large";
        };
      })

  unfoldable pub after_body : Text → Route → RequestBodyLimitPolicy → BodyRead → Run W → Run W
  after_body slug route policy (complete n) r =
      audit_request services config slug route
        (record r { trace = record r.trace { request_bytes = pos n } })
  after_body slug route policy (too_large n) r =
      refuse_too_large (observed_bytes policy n) policy false r
  after_body slug route policy (failed n) r =
      reject risk_control_error "REQUEST_READ_ERROR" config.error_http_status (record r {
        trace = record r.trace { request_bytes = pos n; error_class = "request_body_read" };
      })

  unfoldable pub read_request_body : Text → Route → RequestBodyLimitPolicy → Run W → Run W
  read_request_body slug route policy r =
      let (body, w) = services.read_body policy.effective_limit_bytes r.world in
      after_body slug route policy body
        (record r { world = w; log = Effect.body_read body ∷ r.log })

  unfoldable pub with_large_slot : Text → Route → RequestBodyLimitPolicy → Run W → Run W
  with_large_slot slug route policy r =
      let (room, w) = services.try_slot Slot.large_bodies r.world in
      let r' = record r { world = w; log = Effect.slot_requested Slot.large_bodies room ∷ r.log } in
      if room
      then give_back services config Slot.large_bodies (read_request_body slug route policy r')
      else reject gateway_error "LARGE_REQUEST_CONCURRENCY_LIMITED" 503
          (record r' { trace = record r'.trace { failure_stage = "gateway_ingress" } })

  unfoldable pub admit_body : Request → Route → Run W → Run W
  admit_body request route r =
      let policy =
        resolve_request_body_limit config.request_max_bytes config.request_hard_max_bytes
          request.content_length in
      if exceeds_known_length policy request.content_length
      then refuse_too_large request.content_length policy true r
      else if request_body_needs_large_slot request.content_length
          config.large_request_threshold_bytes
      then with_large_slot request.slug route policy r
      else read_request_body request.slug route policy r

  unfoldable pub with_global_slot : Request → Route → Run W → Run W
  with_global_slot request route r =
      let (room, w) = services.try_slot Slot.global r.world in
      let r' = record r { world = w; log = Effect.slot_requested Slot.global room ∷ r.log } in
      if room
      then give_back services config Slot.global (admit_body request route r')
      else reject gateway_error "GATEWAY_OVERLOADED" 503 r'

  unfoldable pub check_rate : Request → Route → Run W → Run W
  check_rate request route r =
      let (allowed, w) = services.allow request.slug route r.world in
      let r' = record r { world = w; log = Effect.rate_allowed allowed ∷ r.log } in
      if allowed
      then with_global_slot request route r'
      else reject gateway_error "RATE_LIMITED" 429 r'

  unfoldable pub authenticate : Request → Route → Run W → Run W
  authenticate request route r =
      let verified = services.verify_digest (inbound_credential request) route.inbound_key_digest in
      let r' = record r { log = Effect.verified verified ∷ r.log } in
      if verified
      then check_rate request route r'
      else reject gateway_error "GATEWAY_AUTH_FAILED" 401 r'

  unfoldable pub on_route : Request → Option Route → Run W → Run W
  on_route request none r = reject gateway_error "ROUTE_NOT_FOUND" 404 r
  on_route request (some route) r =
      if route.enabled
      then authenticate request route r
      else reject gateway_error "ROUTE_NOT_FOUND" 404 r

  unfoldable pub look_up_route : Request → Run W → Run W
  look_up_route request r =
      let (found, w) = services.get_route request.slug r.world in
      on_route request found (record r { world = w; log = Effect.looked_up found ∷ r.log })

  abbrev request_id_of : Request → Text
  request_id_of request = first_non_empty (
      normalize_request_id request.x_request_id
      ∷ normalize_request_id request.x_oneapi_request_id
      ∷ services.new_request_id
      ∷ [])

  abbrev start : Request → W → Run W
  start request w = record {
    world = w;
    log = [];
    trace = record {
      request_id = request_id_of request;
      route_slug = request.slug;
      decision = TraceDecision.error;
      risk_code = "";
      http_status = 0;
      upstream_status = 0;
      request_bytes = pos 0;
      response_bytes = 0;
      audit_started = false;
      upstream_started = false;
      too_large_mark = none;
      failure_stage = "";
      error_class = "";
      audit_timeout_fail_open = false;
      logical_555_after_headers = false;
    };
    finished = false;
  }

  -- The two refusals before a trace exists write an error and submit nothing.
  unfoldable pub serve_http : Request → W → Run W
  serve_http request w =
      let r = start request w in
      if is_forbidden request.method
      then record r { log = Effect.wrote_error gateway_error 405 "METHOD_NOT_ALLOWED" ∷ [] }
      else if is_empty request.slug
      then record r { log = Effect.wrote_error gateway_error 404 "ROUTE_NOT_FOUND" ∷ [] }
      else look_up_route request r
