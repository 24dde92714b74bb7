-- ===== src/Gateway/RouteCache/Tests.antt =====
-- The cache on a concrete sequence: a load, a hit, a change, and an expired entry.
use newapi_risk_platform.Base.{ℕ, ◌≡◌, refl, true, List, [], ◌∷◌, none, some, pos}
use newapi_risk_platform.Base.Maps.{lookup, put, delete}
use newapi_risk_platform.Gateway.Types.{Route}
use newapi_risk_platform.Gateway.RouteCache.{
  CacheOp, ask, changed, answers, get_route, invalidate_route,
}
use newapi_risk_platform.Gateway.RouteCache.Refinement.{past_answers, answers_refine}

abbrev route_of : ℕ → Route
route_of n = record {
  enabled = true;
  inbound_key_digest = [];
  max_concurrency = pos n;
  request_timeout_ms = pos 0;
}

abbrev day : List CacheOp
day =
    ask "a" 100 (some (route_of 1))
    ∷ ask "a" 104 none
    ∷ ask "a" 105 (some (route_of 2))
    ∷ changed "a"
    ∷ ask "a" 106 none
    ∷ ask "b" 107 (some (route_of 3))
    ∷ changed ""
    ∷ ask "b" 108 (some (route_of 4))
    ∷ []

-- With a lifetime of 5 the entry of 100 answers at 104 and no longer at 105.
day_is_answered :
    answers 5 day []
    ≡ some (route_of 1)
      ∷ some (route_of 1)
      ∷ some (route_of 2)
      ∷ none
      ∷ some (route_of 3)
      ∷ some (route_of 4)
      ∷ []
unfolding answers get_route invalidate_route lookup put delete
day_is_answered = refl

answers_refine_example : answers 5 day [] ≡ past_answers 5 day []
answers_refine_example = answers_refine 5 day
