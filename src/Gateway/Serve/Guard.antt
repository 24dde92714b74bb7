-- ===== src/Gateway/Serve/Guard.antt =====
-- No request reaches the upstream past a check that it failed.
use newapi_risk_platform.Base.{
  ℕ, ◌≡◌, Bool, true, false, not, ◌&&◌, ◌||◌, List, [], ◌∷◌, some, arith,
}
use newapi_risk_platform.Ingress.{RequestBodyLimitPolicy}
use newapi_risk_platform.Gateway.Types.{
  Text, Request, Config, Route, Decision, SendResult, send_failed, response, complete, Effect, Run,
  Services, global, route,
}
use newapi_risk_platform.Gateway.Serve.Forward.{
  reject, conclude, relay, disconnect, upstream_failed, upstream_refused, after_send, send_upstream,
  give_back, with_route_slot, blocked, after_audit, audit_request,
}
use newapi_risk_platform.Gateway.Serve.Admit.{
  refuse_too_large, after_body, read_request_body, with_large_slot, admit_body, with_global_slot,
  check_rate, authenticate, on_route, look_up_route,
}

abbrev pub any : (Effect → Bool) → List Effect → Bool
any p [] = false
any p (e ∷ log) = p e || any p log

abbrev pub is_sent : Effect → Bool
is_sent (Effect.sent answer) = true
is_sent _ = false

abbrev pub found_enabled : Effect → Bool
found_enabled (Effect.looked_up (some target)) = target.enabled
found_enabled _ = false

abbrev pub is_verified : Effect → Bool
is_verified (Effect.verified b) = b
is_verified _ = false

abbrev pub is_rate_allowed : Effect → Bool
is_rate_allowed (Effect.rate_allowed b) = b
is_rate_allowed _ = false

abbrev pub took_global : Effect → Bool
took_global (Effect.slot_requested global b) = b
took_global _ = false

abbrev pub took_route : Effect → Bool
took_route (Effect.slot_requested route b) = b
took_route _ = false

abbrev pub read_body : Effect → Bool
read_body (Effect.body_read (complete n)) = true
read_body _ = false

abbrev pub blocks : Effect → Bool
blocks (Effect.audited a) = elim a.decision [ Decision.block ↦ true | _ ↦ false ]
blocks _ = false

abbrev pub passes_audit : Effect → Bool
passes_audit (Effect.audited a) = elim a.decision [ Decision.block ↦ false | _ ↦ true ]
passes_audit _ = false

abbrev pub is_connected : Effect → Bool
is_connected (Effect.client_gone b) = not b
is_connected _ = false

abbrev pub is_built : Effect → Bool
is_built (Effect.built b) = b
is_built _ = false

-- The checks in the order of the handler; each stage has those above it behind it.
abbrev pub nothing_sent : List Effect → Bool
nothing_sent log = not (any is_sent log) && not (any blocks log)

abbrev pub after_route : List Effect → Bool
after_route log = any found_enabled log && nothing_sent log

abbrev pub after_auth : List Effect → Bool
after_auth log = any is_verified log && after_route log

abbrev pub after_rate : List Effect → Bool
after_rate log = any is_rate_allowed log && after_auth log

abbrev pub after_global : List Effect → Bool
after_global log = any took_global log && after_rate log

abbrev pub after_read : List Effect → Bool
after_read log = any read_body log && after_global log

abbrev pub after_pass : List Effect → Bool
after_pass log = any passes_audit log && after_read log

abbrev pub after_connected : List Effect → Bool
after_connected log = any is_connected log && after_pass log

abbrev pub after_slot : List Effect → Bool
after_slot log = any took_route log && after_connected log

-- All that must be in the log below a call of the upstream.
abbrev pub is_cleared : List Effect → Bool
is_cleared log = any is_built log && after_slot log

-- Every call of the upstream is cleared, and no audit comes after one.
abbrev pub is_guarded : List Effect → Bool
is_guarded [] = true
is_guarded (Effect.sent answer ∷ log) = is_cleared log && is_guarded log
is_guarded (Effect.audited a ∷ log) = not (any is_sent log) && is_guarded log
is_guarded (_ ∷ log) = is_guarded log

module _ {W : Type 0} (services : Services W) (config : Config) where
  is_guarded-relay :
      (status : ℕ) (is_event_stream : Bool) (r : Run W)
      → is_guarded r.log ≡ true
      → is_guarded (relay services config status is_event_stream r).log ≡ true
  unfolding relay conclude
  is_guarded-relay status true r g = ground arith
  is_guarded-relay status false r g = ground arith

  is_guarded-after_send :
      (answer : SendResult) (r : Run W)
      → is_guarded r.log ≡ true
      → is_guarded (after_send services config answer r).log ≡ true
  unfolding after_send upstream_failed upstream_refused reject disconnect
  is_guarded-after_send (send_failed cause deadline) r g = ground arith
  is_guarded-after_send (response status stream) r g = grind (arith, is_guarded-relay)

  is_guarded-send_upstream :
      (target : Route) (r : Run W)
      → is_guarded r.log ≡ true
      → after_slot r.log ≡ true
      → is_guarded (send_upstream services config target r).log ≡ true
  unfolding send_upstream reject
  is_guarded-send_upstream target r g h = grind (arith, is_guarded-after_send)

  is_guarded-with_route_slot :
      (slug : Text) (target : Route) (r : Run W)
      → is_guarded r.log ≡ true
      → after_connected r.log ≡ true
      → is_guarded (with_route_slot services config slug target r).log ≡ true
  unfolding with_route_slot give_back reject
  is_guarded-with_route_slot slug target r g h = grind (arith, is_guarded-send_upstream)

  -- The audit's answer stands at the head of the log when the handler looks at it.
  is_guarded-audit_request :
      (slug : Text) (target : Route) (r : Run W)
      → is_guarded r.log ≡ true
      → after_read r.log ≡ true
      → is_guarded (audit_request services config slug target r).log ≡ true
  unfolding audit_request after_audit blocked disconnect
  is_guarded-audit_request slug target r g h = grind (arith, is_guarded-with_route_slot)

  is_guarded-read_request_body :
      (slug : Text) (target : Route) (policy : RequestBodyLimitPolicy) (r : Run W)
      → is_guarded r.log ≡ true
      → after_global r.log ≡ true
      → is_guarded (read_request_body services config slug target policy r).log ≡ true
  unfolding read_request_body after_body refuse_too_large reject
  is_guarded-read_request_body slug target policy r g h = grind (arith, is_guarded-audit_request)

  is_guarded-with_large_slot :
      (slug : Text) (target : Route) (policy : RequestBodyLimitPolicy) (r : Run W)
      → is_guarded r.log ≡ true
      → after_global r.log ≡ true
      → is_guarded (with_large_slot services config slug target policy r).log ≡ true
  unfolding with_large_slot give_back reject
  is_guarded-with_large_slot slug target policy r g h = grind (arith, is_guarded-read_request_body)

  is_guarded-admit_body :
      (request : Request) (target : Route) (r : Run W)
      → is_guarded r.log ≡ true
      → after_global r.log ≡ true
      → is_guarded (admit_body services config request target r).log ≡ true
  unfolding admit_body refuse_too_large reject
  is_guarded-admit_body request target r g h =
      grind (arith, is_guarded-with_large_slot, is_guarded-read_request_body)

  is_guarded-with_global_slot :
      (request : Request) (target : Route) (r : Run W)
      → is_guarded r.log ≡ true
      → after_rate r.log ≡ true
      → is_guarded (with_global_slot services config request target r).log ≡ true
  unfolding with_global_slot give_back reject
  is_guarded-with_global_slot request target r g h = grind (arith, is_guarded-admit_body)

  is_guarded-check_rate :
      (request : Request) (target : Route) (r : Run W)
      → is_guarded r.log ≡ true
      → after_auth r.log ≡ true
      → is_guarded (check_rate services config request target r).log ≡ true
  unfolding check_rate reject
  is_guarded-check_rate request target r g h = grind (arith, is_guarded-with_global_slot)

  is_guarded-authenticate :
      (request : Request) (target : Route) (r : Run W)
      → is_guarded r.log ≡ true
      → after_route r.log ≡ true
      → is_guarded (authenticate services config request target r).log ≡ true
  unfolding authenticate reject
  is_guarded-authenticate request target r g h = grind (arith, is_guarded-check_rate)

  pub is_guarded-look_up_route :
      (request : Request) (r : Run W)
      → is_guarded r.log ≡ true
      → nothing_sent r.log ≡ true
      → is_guarded (look_up_route services config request r).log ≡ true
  unfolding look_up_route on_route reject
  is_guarded-look_up_route request r g h = grind (arith, is_guarded-authenticate)
