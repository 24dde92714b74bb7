-- ===== src/Gateway/Serve/Accounts.antt =====
-- What every stage of `ServeHTTP` keeps: one trace, slots given back, one response.
use newapi_risk_platform.Base.{
  ℕ, ◌+◌, ◌≡◌, ◌⊎◌, Bool, true, false, String, List, [], ◌∷◌, Option, none, some, arith, ℤ,
}
use newapi_risk_platform.Ingress.{RequestBodyLimitPolicy}
use newapi_risk_platform.Gateway.Types.{
  Text, Request, Config, Route, AuditResult, SendResult, send_failed, response, ProxyResult, Cause,
  BodyRead, complete, too_large, failed, Effect, Run, Services, ErrorBody, gateway_error, Slot,
  global, large_bodies, route,
}
use newapi_risk_platform.Gateway.Serve.Forward.{
  reject, conclude, relay, disconnect, upstream_failed, upstream_refused, after_send, send_upstream,
  give_back, with_route_slot, blocked, after_audit, audit_request,
}
use newapi_risk_platform.Gateway.Serve.Admit.{
  refuse_too_large, after_body, read_request_body, with_large_slot, admit_body, with_global_slot,
  check_rate, authenticate, on_route, look_up_route,
}

-- The traces submitted, in a log.
abbrev pub submissions : List Effect → ℕ
submissions [] = 0
submissions (Effect.submitted t ∷ log) = submissions log + 1
submissions (_ ∷ log) = submissions log

-- How often the handler answers the client: with an error of its own, or by the relay of the upstream's answer, which may
-- still find the client gone before anything is written.
abbrev pub answers : List Effect → ℕ
answers [] = 0
answers (Effect.wrote_error body status code ∷ log) = answers log + 1
answers (Effect.proxied p ∷ log) = answers log + 1
answers (_ ∷ log) = answers log

abbrev pub same_slot : Slot → Slot → ℕ
same_slot global global = 1
same_slot large_bodies large_bodies = 1
same_slot route route = 1
same_slot _ _ = 0

-- How often a slot was taken, and how often it was given back.
abbrev pub takings : Slot → List Effect → ℕ
takings s [] = 0
takings s (Effect.slot_requested t true ∷ log) = takings s log + same_slot s t
takings s (_ ∷ log) = takings s log

abbrev pub givings : Slot → List Effect → ℕ
givings s [] = 0
givings s (Effect.slot_released t ∷ log) = givings s log + same_slot s t
givings s (_ ∷ log) = givings s log

-- From `r` to `r'`: one trace, every slot given back as often as taken, and one response, or none
-- where the trace says by its status 499 that the client had gone.
pub record IsAccounted {W : Type 0} (s : Slot) (r r' : Run W) : Type 0 where
  pub once : submissions r'.log ≡ submissions r.log + 1
  pub finished : r'.finished ≡ true
  pub balanced : takings s r'.log + givings s r.log ≡ givings s r'.log + takings s r.log
  pub answered :
      (answers r'.log ≡ answers r.log + 1)
      ⊎ ((answers r'.log ≡ answers r.log) × (r'.trace.http_status ≡ 499))

module _ {W : Type 0} (s : Slot) where
  reject-IsAccounted :
      (body : ErrorBody) (code : String) (status : ℕ) (r : Run W)
      → r.finished ≡ false
      → IsAccounted s r (reject body code status r)
  unfolding reject
  reject-IsAccounted body code status r h = ground (arith)

module _ {W : Type 0} (services : Services W) (config : Config) (s : Slot) where
  blocked-IsAccounted :
      (a : AuditResult) (r : Run W)
      → r.finished ≡ false
      → IsAccounted s r (blocked services config a r)
  unfolding blocked
  blocked-IsAccounted a r h = ground (arith)

  disconnect-IsAccounted :
      (r : Run W) → r.finished ≡ false → IsAccounted s r (disconnect services config r)
  unfolding disconnect
  disconnect-IsAccounted r h = ground (arith)

  upstream_refused-IsAccounted :
      (status : ℕ) (r : Run W)
      → r.finished ≡ false
      → IsAccounted s r (upstream_refused services config status r)
  unfolding upstream_refused
  upstream_refused-IsAccounted status r h = ground (arith)

  conclude-IsAccounted :
      (code : String) (status : ℕ) (p : ProxyResult) (r : Run W)
      → r.finished ≡ false
      → (submissions (conclude services config code status p r).log ≡ submissions r.log + 1)
        × ((conclude services config code status p r).finished ≡ true)
        × (takings s (conclude services config code status p r).log ≡ takings s r.log)
        × (givings s (conclude services config code status p r).log ≡ givings s r.log)
        × (answers (conclude services config code status p r).log ≡ answers r.log)
  unfolding conclude
  conclude-IsAccounted code status p r h =
      (ground arith, ground arith, ground arith, ground arith, ground arith)

  relay-IsAccounted :
      (status : ℕ) (is_event_stream : Bool) (r : Run W)
      → r.finished ≡ false
      → IsAccounted s r (relay services config status is_event_stream r)
  unfolding relay
  relay-IsAccounted status true r h = grind (arith, conclude-IsAccounted)
  relay-IsAccounted status false r h = grind (arith, conclude-IsAccounted)

  upstream_failed-IsAccounted :
      (cause : Cause) (deadline : Bool) (r : Run W)
      → r.finished ≡ false
      → IsAccounted s r (upstream_failed services config cause deadline r)
  unfolding upstream_failed reject disconnect
  upstream_failed-IsAccounted cause deadline r h = ground arith

  after_send-IsAccounted :
      (answer : SendResult) (r : Run W)
      → r.finished ≡ false
      → IsAccounted s r (after_send services config answer r)
  unfolding after_send
  after_send-IsAccounted (send_failed cause deadline) r h =
      upstream_failed-IsAccounted cause deadline r h
  after_send-IsAccounted (response status stream) r h =
      grind (arith, upstream_refused-IsAccounted, relay-IsAccounted)

  send_upstream-IsAccounted :
      (target : Route) (r : Run W)
      → r.finished ≡ false
      → IsAccounted s r (send_upstream services config target r)
  unfolding send_upstream reject
  send_upstream-IsAccounted target r h = grind (arith, after_send-IsAccounted)

  with_route_slot-IsAccounted :
      (slug : Text) (target : Route) (r : Run W)
      → r.finished ≡ false
      → IsAccounted s r (with_route_slot services config slug target r)
  unfolding with_route_slot give_back reject
  with_route_slot-IsAccounted slug target r h = grind (arith, send_upstream-IsAccounted)

  after_audit-IsAccounted :
      (slug : Text) (target : Route) (a : AuditResult) (r : Run W)
      → r.finished ≡ false
      → IsAccounted s r (after_audit services config slug target a r)
  unfolding after_audit
  after_audit-IsAccounted slug target a r h =
      grind (arith, blocked-IsAccounted, disconnect-IsAccounted, with_route_slot-IsAccounted)

  audit_request-IsAccounted :
      (slug : Text) (target : Route) (r : Run W)
      → r.finished ≡ false
      → IsAccounted s r (audit_request services config slug target r)
  unfolding audit_request
  audit_request-IsAccounted slug target r h = grind (arith, after_audit-IsAccounted)

  refuse_too_large-IsAccounted :
      (observed : ℤ) (policy : RequestBodyLimitPolicy) (exact : Bool) (r : Run W)
      → r.finished ≡ false
      → IsAccounted s r (refuse_too_large services config observed policy exact r)
  unfolding refuse_too_large reject
  refuse_too_large-IsAccounted observed policy exact r h = grind arith

  after_body-IsAccounted :
      (slug : Text) (target : Route) (policy : RequestBodyLimitPolicy) (body : BodyRead) (r : Run W)
      → r.finished ≡ false
      → IsAccounted s r (after_body services config slug target policy body r)
  unfolding after_body reject
  after_body-IsAccounted slug target policy (complete n) r h =
      grind (arith, audit_request-IsAccounted)
  after_body-IsAccounted slug target policy (too_large n) r h =
      refuse_too_large-IsAccounted _ policy false r h
  after_body-IsAccounted slug target policy (failed n) r h = grind arith

  read_request_body-IsAccounted :
      (slug : Text) (target : Route) (policy : RequestBodyLimitPolicy) (r : Run W)
      → r.finished ≡ false
      → IsAccounted s r (read_request_body services config slug target policy r)
  unfolding read_request_body
  read_request_body-IsAccounted slug target policy r h = grind (arith, after_body-IsAccounted)

  with_large_slot-IsAccounted :
      (slug : Text) (target : Route) (policy : RequestBodyLimitPolicy) (r : Run W)
      → r.finished ≡ false
      → IsAccounted s r (with_large_slot services config slug target policy r)
  unfolding with_large_slot give_back reject
  with_large_slot-IsAccounted slug target policy r h = grind (arith, read_request_body-IsAccounted)

  admit_body-IsAccounted :
      (request : Request) (target : Route) (r : Run W)
      → r.finished ≡ false
      → IsAccounted s r (admit_body services config request target r)
  unfolding admit_body
  admit_body-IsAccounted request target r h = grind (
    arith, refuse_too_large-IsAccounted, with_large_slot-IsAccounted, read_request_body-IsAccounted,
  )

  with_global_slot-IsAccounted :
      (request : Request) (target : Route) (r : Run W)
      → r.finished ≡ false
      → IsAccounted s r (with_global_slot services config request target r)
  unfolding with_global_slot give_back reject
  with_global_slot-IsAccounted request target r h = grind (arith, admit_body-IsAccounted)

  check_rate-IsAccounted :
      (request : Request) (target : Route) (r : Run W)
      → r.finished ≡ false
      → IsAccounted s r (check_rate services config request target r)
  unfolding check_rate reject
  check_rate-IsAccounted request target r h = grind (arith, with_global_slot-IsAccounted)

  authenticate-IsAccounted :
      (request : Request) (target : Route) (r : Run W)
      → r.finished ≡ false
      → IsAccounted s r (authenticate services config request target r)
  unfolding authenticate reject
  authenticate-IsAccounted request target r h = grind (arith, check_rate-IsAccounted)

  on_route-IsAccounted :
      (request : Request) (found : Option Route) (r : Run W)
      → r.finished ≡ false
      → IsAccounted s r (on_route services config request found r)
  unfolding on_route reject
  on_route-IsAccounted request none r h =
      reject-IsAccounted s gateway_error "ROUTE_NOT_FOUND" 404 r h
  on_route-IsAccounted request (some target) r h = grind (arith, authenticate-IsAccounted)

  pub look_up_route-IsAccounted :
      (request : Request) (r : Run W)
      → r.finished ≡ false
      → IsAccounted s r (look_up_route services config request r)
  unfolding look_up_route
  look_up_route-IsAccounted request r h = grind (arith, on_route-IsAccounted)
