-- ===== src/Limits/Tests.antt =====
-- The fallback of the semaphores on concrete sequences.
use newapi_risk_platform.Base.{◌≤◌, ◌≡◌, refl, List, [], ◌∷◌, arith, inl, inr}
use newapi_risk_platform.Limits.Semaphore.{
  Op, take, give, disabled, failed, replied, count, run, start,
}
use newapi_risk_platform.Limits.Semaphore.Counts.{live_count, counts_exact, live_count_le}

-- Two permits of one key, a third attempt that is refused, one of another key, a double release, and one permit of Redis.
abbrev two_keys : List Op
two_keys =
    take "global" 2 disabled
    ∷ take "global" 2 failed
    ∷ take "global" 2 disabled
    ∷ take "route:1" 1 disabled
    ∷ give 1
    ∷ give 1
    ∷ take "global" 5 (replied 1)
    ∷ []

counts_exact_example :
    count "global" (run two_keys start).semaphores
    ≡ live_count "global" (run two_keys start).handles
counts_exact_example = counts_exact "global" two_keys

live_count_le_example : live_count "route:1" (run two_keys start).handles ≤ 1
live_count_le_example =
    live_count_le "route:1" 1 two_keys
      (inl refl, (inl refl, (inl refl, (inr (omega arith), (tt, (tt, (inl refl, tt)))))))
