-- ===== src/Gateway/RouteCache/Refinement.antt =====
-- The cache answers as a history of loads and changes does.
use newapi_risk_platform.Base.{
  ℕ, ◌+◌, ◌≡◌, refl, ◌||◌, String, List, [], ◌∷◌, Option, none, some, str_eq, if◌then◌else◌, arith,
  eq_iff, ap,
}
use newapi_risk_platform.Base.Maps
use newapi_risk_platform.Base.Maps.{Dict, lookup, lookup-put, lookup-delete}
use newapi_risk_platform.Gateway.Types.{Route}
use newapi_risk_platform.Gateway.RouteCache.{
  CachedRoute, invalidate_route, unexpired, answer_or_load, get_route, CacheOp, ask, changed,
  answers,
}

-- What happened, the latest first: a route was loaded at a time, or one was changed (with "", all).
pub data Past : Type 0 where
  loaded : String → Route → ℕ → Past
  forgot : String → Past

-- The last load of a route that no change has followed, with the time at which its lifetime ends.
unfoldable pub latest : (ttl : ℕ) → String → List Past → Option CachedRoute
latest ttl slug [] = none
latest ttl slug (loaded s r t ∷ past) =
    let before = latest ttl slug past in
    if str_eq s slug then some (record { route = r; expires_at = t + ttl }) else before
latest ttl slug (forgot s ∷ past) =
    let before = latest ttl slug past in if str_eq s "" || str_eq s slug then none else before

abbrev load_into : String → ℕ → Option Route → List Past → Option Route × List Past
load_into slug now none past = (none, past)
load_into slug now (some r) past = (some r, loaded slug r now ∷ past)

abbrev recall : String → ℕ → Option Route → Option Route → List Past → Option Route × List Past
recall slug now (some r) reply past = (some r, past)
recall slug now none reply past = load_into slug now reply past

-- The answers of the history: a load within its lifetime that no change has followed, and else the store's.
unfoldable pub past_answers : (ttl : ℕ) → List CacheOp → List Past → List (Option Route)
past_answers ttl [] past = []
past_answers ttl (ask slug now reply ∷ ops) past =
    let (r, past') = recall slug now (unexpired now (latest ttl slug past)) reply past in
    r ∷ past_answers ttl ops past'
past_answers ttl (changed slug ∷ ops) past = past_answers ttl ops (forgot slug ∷ past)

-- The cache holds what the history says.
abbrev Represents : (ttl : ℕ) → Dict CachedRoute → List Past → Type 0
Represents ttl cache past = (slug : String) → Maps.lookup slug cache ≡ latest ttl slug past

Represents-put :
    (ttl : ℕ) (slug : String) (r : Route) (now : ℕ) (cache : Dict CachedRoute) (past : List Past)
    → Represents ttl cache past
    → Represents ttl
        (Maps.put slug (record { route = r; expires_at = now + ttl }) cache)
        (loaded slug r now ∷ past)
unfolding latest
Represents-put ttl slug r now cache past h j =
    rw (lookup-put slug j (record { route = r; expires_at = now + ttl }) cache, h j)

Represents-invalidate_route :
    (ttl : ℕ) (slug : String) (cache : Dict CachedRoute) (past : List Past)
    → Represents ttl cache past
    → Represents ttl (invalidate_route slug cache) (forgot slug ∷ past)
unfolding latest invalidate_route lookup
Represents-invalidate_route ttl slug cache past h j =
    ground (arith, eq_iff slug j, eq_iff slug "", lookup-delete slug j cache, h j)

module _ (ttl : ℕ) (ops : List CacheOp) where
  abbrev AgreeLater : Type 0
  AgreeLater =
      (cache : Dict CachedRoute) (past : List Past)
      → Represents ttl cache past
      → answers ttl ops cache ≡ past_answers ttl ops past

  ask_agrees :
      (slug : String) (now : ℕ) (entry reply : Option Route) (cache : Dict CachedRoute)
      (past : List Past)
      → AgreeLater
      → Represents ttl cache past
      → (let (r, cache') = answer_or_load ttl slug now entry reply cache in
          r ∷ answers ttl ops cache')
        ≡ (let (r, past') = recall slug now entry reply past in r ∷ past_answers ttl ops past')
  ask_agrees slug now (some r) reply cache past later h =
      ap (λ rs. some r ∷ rs) (later cache past h)
  ask_agrees slug now none none cache past later h = ap (λ rs. none ∷ rs) (later cache past h)
  ask_agrees slug now none (some r) cache past later h =
      ap (λ rs. some r ∷ rs) (later _ _ (Represents-put ttl slug r now cache past h))

answers-Represents :
    (ttl : ℕ) (ops : List CacheOp) (cache : Dict CachedRoute) (past : List Past)
    → Represents ttl cache past
    → answers ttl ops cache ≡ past_answers ttl ops past
unfolding answers past_answers get_route
answers-Represents ttl [] cache past h = refl
answers-Represents ttl (changed slug ∷ ops) cache past h =
    answers-Represents ttl ops (invalidate_route slug cache) (forgot slug ∷ past)
      (Represents-invalidate_route ttl slug cache past h)
answers-Represents ttl (ask slug now reply ∷ ops) cache past h = rw (h slug) (
    ask_agrees ttl ops slug now (unexpired now (latest ttl slug past)) reply cache past
      (answers-Represents ttl ops) h)

nothing-Represents : (ttl : ℕ) → Represents ttl [] []
unfolding latest lookup
nothing-Represents ttl slug = refl

-- For every sequence of requests and changes, whatever the store replies, the cache that starts empty gives the answers of
-- the history: a route that was loaded, whose lifetime has not ended and which no change has followed, and else what the
-- store replies now.
pub answers_refine : (ttl : ℕ) (ops : List CacheOp) → answers ttl ops [] ≡ past_answers ttl ops []
answers_refine ttl ops = answers-Represents ttl ops [] [] (nothing-Represents ttl)
