-- ===== src/Gateway/Serve/Tests.antt =====
-- The handler on concrete requests, and the theorems there.
use newapi_risk_platform.Base.{◌≡◌, refl, ◌⊎◌, true, false, List, [], ◌∷◌, some, pos, take, drop}
use newapi_risk_platform.Ingress.{
  resolve_request_body_limit, exceeds_known_length, request_body_needs_large_slot,
  mark_request_too_large,
}
use newapi_risk_platform.Gateway.Types.{
  Method, Request, Config, Route, Decision, response, complete, Effect, Services, Slot,
}
use newapi_risk_platform.Gateway.Text.{
  first_non_empty, normalize_request_id, trim_space, bearer_token,
}
use newapi_risk_platform.Gateway.Serve.Forward.{
  reject, conclude, relay, disconnect, upstream_failed, upstream_refused, after_send, send_upstream,
  give_back, with_route_slot, blocked, after_audit, audit_request,
}
use newapi_risk_platform.Gateway.Serve.Admit.{
  refuse_too_large, after_body, read_request_body, with_large_slot, admit_body, with_global_slot,
  check_rate, authenticate, on_route, look_up_route, serve_http,
}
use newapi_risk_platform.Gateway.Serve.Accounts.{submissions, answers, takings, givings}
use newapi_risk_platform.Gateway.Serve.Guard.{any, is_sent, is_cleared}
use newapi_risk_platform.Gateway.Serve.Laws.{
  serve_http-is_cleared, submissions-serve_http, serve_http_slots, answers-serve_http,
}

handler : Unit {0}
unfolding reject conclude relay disconnect upstream_failed upstream_refused after_send send_upstream
    give_back with_route_slot blocked after_audit audit_request refuse_too_large after_body
    read_request_body with_large_slot admit_body with_global_slot check_rate authenticate on_route
    look_up_route serve_http resolve_request_body_limit exceeds_known_length
    request_body_needs_large_slot mark_request_too_large first_non_empty normalize_request_id
    trim_space bearer_token
handler = tt

abbrev config : Config
config = record {
  error_http_status = 555;
  request_max_bytes = pos 0;
  request_hard_max_bytes = pos 1000;
  large_request_threshold_bytes = pos 100;
}

abbrev chat : Route
chat = record {
  enabled = true;
  inbound_key_digest = 7 ∷ [];
  max_concurrency = pos 4;
  request_timeout_ms = pos 0;
}

-- Every part consents, and the audit gives the answer that is passed in.
abbrev consenting : Decision → Services (Unit {0})
consenting verdict = record {
  new_request_id = b'g' ∷ [];
  get_route = λ slug w. (some chat, w);
  verify_digest = λ credential digest. true;
  allow = λ slug target w. (true, w);
  try_slot = λ s w. (true, w);
  give_slot = λ s w. w;
  read_body = λ limit w. (complete 200, w);
  audit = λ target w. (record { decision = verdict; risk_code = ""; error_class = "" }, w);
  is_client_gone = λ w. false;
  acquire_route = λ slug limit ttl w. (true, w);
  build_upstream_request = λ target w. (true, w);
  send = λ w. (response 200 true, w);
  observe_upstream_failure = λ code w. w;
  proxy_sse =
      λ w. (record { bytes_written = 9; risk_code = ""; status = 200; stream_committed = true }, w);
  proxy_buffered =
      λ w. (record { bytes_written = 9; risk_code = ""; status = 200; stream_committed = true }, w);
}

abbrev ask : Request
ask = record {
  method = Method.other;
  slug = b'c' ∷ [];
  x_request_id = b' ' ∷ b'r' ∷ [];
  x_oneapi_request_id = [];
  x_risk_gateway_key = b'k' ∷ [];
  authorization = [];
  content_length = pos 200;
}

abbrev passed_log : List Effect
passed_log = (serve_http (consenting Decision.review) config ask tt).log

serve_http_allowed :
    ((serve_http (consenting Decision.review) config ask tt).trace.http_status ≡ 200)
    × ((serve_http (consenting Decision.review) config ask tt).trace.request_id ≡ b'r' ∷ [])
    × (any is_sent (serve_http (consenting Decision.review) config ask tt).log ≡ true)
unfolding handler
serve_http_allowed = (refl, refl, refl)

serve_http-is_cleared_example : is_cleared (drop 6 passed_log) ≡ true
unfolding handler
serve_http-is_cleared_example =
    serve_http-is_cleared (consenting Decision.review) config ask tt (take 5 passed_log)
      (drop 6 passed_log) (response 200 true) refl

submissions-serve_http_example :
    submissions (serve_http (consenting Decision.block) config ask tt).log ≡ 1
submissions-serve_http_example = submissions-serve_http (consenting Decision.block) config ask tt

serve_http_slots_example : takings Slot.route passed_log ≡ givings Slot.route passed_log
serve_http_slots_example = serve_http_slots (consenting Decision.review) config ask tt Slot.route

answers-serve_http_example :
    (answers passed_log ≡ 1)
    ⊎ ((answers passed_log ≡ 0)
        × ((serve_http (consenting Decision.review) config ask tt).trace.http_status ≡ 499))
answers-serve_http_example = answers-serve_http (consenting Decision.review) config ask tt
