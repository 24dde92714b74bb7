-- ===== src/Gateway/Serve/Laws.antt =====
-- What `ServeHTTP` guarantees for every request, configuration and behaviour of the other parts.
use newapi_risk_platform.Base.{
  ◌≡◌, refl, ◌⊎◌, Bool, true, false, ◌||◌, List, [], ◌∷◌, ◌++◌, arith, if◌then◌else◌,
}
use newapi_risk_platform.Gateway.Types.{Request, Config, SendResult, Effect, Services, Slot}
use newapi_risk_platform.Gateway.Text.{is_empty}
use newapi_risk_platform.Gateway.Serve.Admit.{serve_http, is_forbidden}
use newapi_risk_platform.Gateway.Serve.Accounts.{
  submissions, answers, takings, givings, look_up_route-IsAccounted,
}
use newapi_risk_platform.Gateway.Serve.Guard.{
  any, is_sent, blocks, is_cleared, is_guarded, is_guarded-look_up_route,
}

-- A request that is refused before it has a trace: a forbidden method, or no route in its path.
abbrev pub is_untraced : Request → Bool
is_untraced request = is_forbidden request.method || is_empty request.slug

sent-is_cleared :
    (newer older : List Effect) (answer : SendResult)
    → is_guarded (newer ++ Effect.sent answer ∷ older) ≡ true
    → is_cleared older ≡ true
sent-is_cleared [] older answer g = ground arith
sent-is_cleared (Effect.sent a ∷ newer) older answer g =
    sent-is_cleared newer older answer (ground arith)
sent-is_cleared (Effect.audited a ∷ newer) older answer g =
    sent-is_cleared newer older answer (ground arith)
sent-is_cleared (_ ∷ newer) older answer g = sent-is_cleared newer older answer g

blocked-not-sent :
    (log : List Effect) → is_guarded log ≡ true → any blocks log ≡ true → any is_sent log ≡ false
blocked-not-sent [] g b = refl
blocked-not-sent (Effect.sent a ∷ log) g b = ground (arith, blocked-not-sent log)
blocked-not-sent (Effect.audited a ∷ log) g b = ground arith
blocked-not-sent (_ ∷ log) g b = blocked-not-sent log g b

module _ {W : Type 0} (services : Services W) (config : Config) (request : Request) (w : W) where
  serve_http-is_guarded : is_guarded (serve_http services config request w).log ≡ true
  unfolding serve_http
  serve_http-is_guarded = grind (arith, is_guarded-look_up_route)

  -- A call of the upstream has below it in the log: an enabled route, a verified credential, the
  -- rate limiter's consent, a global slot, a body read to its end, an audit that does not block
  -- and none that does, a client that is still there, a slot of the route, and a request that was
  -- built; and no other call of the upstream.
  pub serve_http-is_cleared :
      (newer older : List Effect) (answer : SendResult)
      → (serve_http services config request w).log ≡ newer ++ Effect.sent answer ∷ older
      → is_cleared older ≡ true
  serve_http-is_cleared newer older answer e =
      sent-is_cleared newer older answer (rw (← e) serve_http-is_guarded)

  -- Where an audit of the request blocks it, the upstream is never called.
  serve_http_blocked :
      any blocks (serve_http services config request w).log ≡ true
      → any is_sent (serve_http services config request w).log ≡ false
  serve_http_blocked b =
      blocked-not-sent (serve_http services config request w).log serve_http-is_guarded b

  -- A request leaves exactly one trace, and none if it is refused before it has one.
  pub submissions-serve_http :
      submissions (serve_http services config request w).log
      ≡ (if is_untraced request then 0 else 1)
  unfolding serve_http
  submissions-serve_http =
      grind (arith, look_up_route-IsAccounted services config Slot.global request)

  -- On every path each slot, of the gateway, for large bodies and of the route, is given back as
  -- often as it was taken.
  pub serve_http_slots :
      (s : Slot)
      → takings s (serve_http services config request w).log
        ≡ givings s (serve_http services config request w).log
  unfolding serve_http
  serve_http_slots s = grind (arith, look_up_route-IsAccounted)

  -- The handler answers exactly once, with an error of its own or by one call of the relay (which may
  -- find the client gone and write nothing), or not at all, and then the trace has the status 499 of a
  -- client that has gone.
  pub answers-serve_http :
      (answers (serve_http services config request w).log ≡ 1)
      ⊎ ((answers (serve_http services config request w).log ≡ 0)
          × ((serve_http services config request w).trace.http_status ≡ 499))
  unfolding serve_http
  answers-serve_http = grind (arith, look_up_route-IsAccounted services config Slot.global request)
