-- ===== src/Gateway/Serve/Forward.antt =====
-- The second half of `ServeHTTP`: the audit, and what follows a request that it lets through.
use newapi_risk_platform.Base.{
  ℕ, Bool, true, false, not, ◌&&◌, ◌||◌, String, ◌∷◌, ltb, leb, str_eq, ℤ, pos, ltbℤ, ◌+ℤ◌,
  if◌then◌else◌,
}
use newapi_risk_platform.Gateway.Types.{
  Text, Config, Route, AuditResult, Decision, Cause, SendResult, send_failed, response, ProxyResult,
  TraceDecision, Slot, ErrorBody, gateway_error, risk_control_error, Effect, Run, Services,
}

module _ {W : Type 0} where
  -- The closure `finish`: only its first call submits the trace.
  unfoldable pub finish : TraceDecision → String → ℕ → ℕ → ℕ → Run W → Run W
  finish decision risk_code status upstream_status response_bytes r =
      let t = record r.trace {
        decision = decision;
        risk_code = risk_code;
        http_status = status;
        upstream_status = upstream_status;
        response_bytes = response_bytes;
      } in
      if r.finished
      then r
      else record r { trace = t; finished = true; log = Effect.submitted t ∷ r.log }

  -- An error after `finish`, as the source writes both.
  unfoldable pub reject : ErrorBody → String → ℕ → Run W → Run W
  unfolding finish
  reject body code status r =
      let r' = finish TraceDecision.error code status 0 0 r in
      record r' { log = Effect.wrote_error body status code ∷ r'.log }

abbrev stage_of : String → String → String
stage_of stage code = if str_eq code "CLIENT_DISCONNECT" then "client_disconnect" else stage

abbrev is_timeout : Cause → Bool → Bool
is_timeout Cause.request_timeout _ = true
is_timeout Cause.deadline_exceeded _ = true
is_timeout _ error_is_deadline_exceeded = error_is_deadline_exceeded

abbrev is_canceled : Cause → Bool
is_canceled Cause.canceled = true
is_canceled _ = false

-- `RequestTimeoutMS`, two minutes where it is not positive.
abbrev timeout_ms : ℤ → ℤ
timeout_ms configured = if ltbℤ (pos 0) configured then configured else pos 120000

abbrev is_block : Decision → Bool
is_block Decision.block = true
is_block _ = false

abbrev is_allow : Decision → Bool
is_allow Decision.allow = true
is_allow _ = false

abbrev block_code : AuditResult → String
block_code a = if str_eq a.risk_code "" then "CYBER_POLICY_BLOCK" else a.risk_code

module _ {W : Type 0} (services : Services W) (config : Config) where
  -- From the proxied response to the end.
  unfoldable pub conclude :
      (observed_code : String) → (upstream_status : ℕ) → ProxyResult → Run W → Run W
  unfolding finish
  conclude observed_code upstream_status p r =
      if str_eq p.risk_code ""
      then finish TraceDecision.allow "" p.status upstream_status p.bytes_written r
      else finish TraceDecision.error p.risk_code p.status upstream_status p.bytes_written (
          if str_eq p.risk_code observed_code
          then record r {
            world = services.observe_upstream_failure p.risk_code r.world;
            log = Effect.observed_upstream_failure p.risk_code ∷ r.log;
          }
          else r)

  -- The response of an upstream that answered with a 2xx status.
  unfoldable pub relay : (status : ℕ) → (is_event_stream : Bool) → Run W → Run W
  relay status true r =
      let (p, w) = services.proxy_sse r.world in
      let failed = not (str_eq p.risk_code "") in
      conclude "UPSTREAM_STREAM_ERROR" status p (record r {
        world = w;
        log = Effect.proxied p ∷ r.log;
        trace = record r.trace {
          failure_stage =
              if failed then stage_of "upstream_stream" p.risk_code else r.trace.failure_stage;
          logical_555_after_headers =
              failed
              && p.stream_committed
              && (str_eq p.risk_code "UPSTREAM_STREAM_ERROR"
                  || str_eq p.risk_code "UPSTREAM_STREAM_INTERRUPTED"
                  || str_eq p.risk_code "UPSTREAM_STREAM_TIMEOUT");
        };
      })
  relay status false r =
      let (p, w) = services.proxy_buffered r.world in
      let failed = not (str_eq p.risk_code "") in
      conclude "UPSTREAM_MODEL_ERROR" status p (record r {
        world = w;
        log = Effect.proxied p ∷ r.log;
        trace = record r.trace {
          failure_stage =
              if failed then stage_of "upstream_response" p.risk_code else r.trace.failure_stage;
        };
      })

  -- The request ends with the client gone: the trace is submitted and nothing is written.
  unfoldable pub disconnect : Run W → Run W
  unfolding finish
  disconnect r = finish TraceDecision.error "CLIENT_DISCONNECT" 499 0 0 (record r {
    trace = record r.trace {
      failure_stage = "client_disconnect";
      error_class = "CLIENT_DISCONNECT";
    };
  })

  unfoldable pub upstream_failed : Cause → Bool → Run W → Run W
  upstream_failed cause error_is_deadline_exceeded r =
      let timed_out = is_timeout cause error_is_deadline_exceeded in
      let code = (if timed_out then "UPSTREAM_TIMEOUT" else "UPSTREAM_CONNECTION_ERROR") in
      if not timed_out && (is_canceled cause && services.is_client_gone r.world)
      then disconnect r
      else reject risk_control_error code config.error_http_status (record r {
        trace = record r.trace { failure_stage = "upstream_connect"; error_class = code };
      })

  -- An upstream that answered with another status than 2xx.
  unfoldable pub upstream_refused : (status : ℕ) → Run W → Run W
  unfolding finish
  upstream_refused status r =
      let code : String = "UPSTREAM_MODEL_ERROR" in
      let r' = finish TraceDecision.error code config.error_http_status status 0 (record r {
        world = services.observe_upstream_failure code r.world;
        log = Effect.observed_upstream_failure code ∷ r.log;
        trace = record r.trace {
          failure_stage = "upstream_http";
          error_class = "upstream_http_error";
        };
      }) in
      record r' {
        log = Effect.wrote_error risk_control_error config.error_http_status code ∷ r'.log;
      }

  unfoldable pub after_send : SendResult → Run W → Run W
  after_send (send_failed cause error_is_deadline_exceeded) r =
      upstream_failed cause error_is_deadline_exceeded r
  after_send (response status is_event_stream) r =
      if ltb status 200 || leb 300 status
      then upstream_refused status r
      else relay status is_event_stream r

  unfoldable pub send_upstream : Route → Run W → Run W
  send_upstream route r =
      let (built, w) = services.build_upstream_request route r.world in
      let r' = record r { world = w; log = Effect.built built ∷ r.log } in
      if built
      then (let (answer, w') = services.send w in
          after_send answer (record r' {
            world = w';
            log = Effect.sent answer ∷ r'.log;
            trace = record r'.trace { upstream_started = true };
          }))
      else reject risk_control_error "GATEWAY_CONFIG_ERROR" config.error_http_status
          (record r' { trace = record r'.trace { error_class = "route_configuration" } })

  unfoldable pub give_back : Slot → Run W → Run W
  give_back slot r = record r {
    world = services.give_slot slot r.world;
    log = Effect.slot_released slot ∷ r.log;
  }

  unfoldable pub with_route_slot : Text → Route → Run W → Run W
  with_route_slot slug route r =
      let (room, w) =
        services.acquire_route slug route.max_concurrency
          (timeout_ms route.request_timeout_ms +ℤ pos 30000) r.world in
      let r' = record r { world = w; log = Effect.slot_requested Slot.route room ∷ r.log } in
      if room
      then give_back Slot.route (send_upstream route r')
      else reject gateway_error "ROUTE_CONCURRENCY_LIMITED" 503 r'

  unfoldable pub blocked : AuditResult → Run W → Run W
  unfolding finish
  blocked a r =
      let r' = finish TraceDecision.block (block_code a) config.error_http_status 0 0 r in
      record r' {
        log =
            Effect.wrote_error risk_control_error config.error_http_status (block_code a) ∷ r'.log;
      }

  unfoldable pub after_audit : Text → Route → AuditResult → Run W → Run W
  after_audit slug route a r =
      let gone = services.is_client_gone r.world in
      let r' = record r { log = Effect.client_gone gone ∷ r.log } in
      if is_block a.decision
      then blocked a r
      else if gone
      then disconnect r'
      else with_route_slot slug route (record r' {
        trace = record r'.trace {
          audit_timeout_fail_open =
              is_allow a.decision && str_eq a.error_class "audit_deadline_exceeded";
        };
      })

  unfoldable pub audit_request : Text → Route → Run W → Run W
  audit_request slug route r =
      let (a, w) = services.audit route r.world in
      after_audit slug route a (record r {
        world = w;
        log = Effect.audited a ∷ r.log;
        trace = record r.trace { audit_started = true };
      })
