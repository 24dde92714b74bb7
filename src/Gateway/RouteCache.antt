-- ===== src/Gateway/RouteCache.antt =====
-- `getRoute` and `InvalidateRoute` of internal/platform/gateway.go: the cache of routes with their lifetime. A time is a
-- number of nanoseconds, and an error of the store is `none`.
pub mod Refinement
mod Tests
use newapi_risk_platform.Base.{
  ℕ, ◌+◌, ◌≡◌, Bool, true, false, String, List, [], ◌∷◌, Option, none, some, ltb, str_eq,
  if◌then◌else◌,
}
use newapi_risk_platform.Base.Maps
use newapi_risk_platform.Base.Maps.{Dict}
use newapi_risk_platform.Gateway.Types.{Route}

pub record CachedRoute : Type 0 where
  pub route : Route
  pub expires_at : ℕ

unfoldable pub invalidate_route : String → Dict CachedRoute → Dict CachedRoute
invalidate_route slug cache = if str_eq slug "" then [] else Maps.delete slug cache

-- The route of an entry that has not expired.
abbrev pub unexpired : ℕ → Option CachedRoute → Option Route
unexpired now none = none
unexpired now (some c) = if ltb now c.expires_at then some c.route else none

-- An answer of the store is kept, an error is not.
abbrev store_answer :
    (ttl : ℕ) → String → ℕ → Option Route → Dict CachedRoute → Option Route × Dict CachedRoute
store_answer ttl slug now none cache = (none, cache)
store_answer ttl slug now (some r) cache =
    (some r, Maps.put slug (record { route = r; expires_at = now + ttl }) cache)

abbrev answer_or_load :
    (ttl : ℕ)
    → String
    → ℕ
    → Option Route
    → Option Route
    → Dict CachedRoute
    → Option Route × Dict CachedRoute
answer_or_load ttl slug now (some r) reply cache = (some r, cache)
answer_or_load ttl slug now none reply cache = store_answer ttl slug now reply cache

unfoldable pub get_route :
    (ttl : ℕ)
    → (slug : String) → (now : ℕ) → (reply : Option Route) → Dict CachedRoute
    → Option Route × Dict CachedRoute
get_route ttl slug now reply cache =
    answer_or_load ttl slug now (unexpired now (Maps.lookup slug cache)) reply cache

-- The uses of the cache: a request asks for a route, with what the store would reply, or an administrator has changed one.
pub data CacheOp : Type 0 where
  ask : String → (now : ℕ) → (reply : Option Route) → CacheOp
  changed : String → CacheOp

-- The answers to the requests of a sequence.
unfoldable pub answers : (ttl : ℕ) → List CacheOp → Dict CachedRoute → List (Option Route)
answers ttl [] cache = []
answers ttl (ask slug now reply ∷ ops) cache =
    let (r, cache') = get_route ttl slug now reply cache in r ∷ answers ttl ops cache'
answers ttl (changed slug ∷ ops) cache = answers ttl ops (invalidate_route slug cache)
