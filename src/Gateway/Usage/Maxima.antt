-- ===== src/Gateway/Usage/Maxima.antt =====
-- The counts of a stream are the maxima of those that its events report, whatever their order.
use newapi_risk_platform.Base.{
  ℕ, ◌+◌, ◌^◌, ◌≤◌, ◌<◌, ◌≡◌, refl, ap, ◌∙◌, Bool, false, ◌||◌, List, [], ◌∷◌, if_holds, arith,
}
use newapi_risk_platform.Gateway.Usage.{
  TokenUsage, has_any, max_int64, with_computed, merged, merge, Parsed, Observation,
  new_observation, observe_sse_event, observe_all,
}

-- The largest value of a count among the events.
abbrev pub largest : (TokenUsage → ℕ) → List Parsed → ℕ
largest count [] = 0
largest count (p ∷ ps) = max_int64 (count p.usage) (largest count ps)

abbrev pub any_terminal : List Parsed → Bool
any_terminal [] = false
any_terminal (p ∷ ps) = p.is_terminal || any_terminal ps

-- No count of an input or an output is 2 ^ 62 or more.
unfoldable pub IsModest : List Parsed → Type 0
IsModest [] = Unit
IsModest (p ∷ ps) = (p.usage.input_tokens < 2 ^ 62) × (p.usage.output_tokens < 2 ^ 62) × IsModest ps

max_assoc : (a b c : ℕ) → max_int64 (max_int64 a b) c ≡ max_int64 a (max_int64 b c)
unfolding max_int64
max_assoc a b c = ground arith

-- The counts of an observation, with an explanation of the total, against an independent account.
unfoldable IsTally : TokenUsage → List Parsed → TokenUsage → Type 0
IsTally u ps v =
    (v.input_tokens ≡ max_int64 u.input_tokens (largest (λ w. w.input_tokens) ps))
    × (v.output_tokens ≡ max_int64 u.output_tokens (largest (λ w. w.output_tokens) ps))
    × (v.cached_tokens ≡ max_int64 u.cached_tokens (largest (λ w. w.cached_tokens) ps))
    × (v.cache_creation_tokens
        ≡ max_int64 u.cache_creation_tokens (largest (λ w. w.cache_creation_tokens) ps))
    × (v.reasoning_tokens ≡ max_int64 u.reasoning_tokens (largest (λ w. w.reasoning_tokens) ps))
    × (v.total_tokens
        ≡ max_int64 (max_int64 u.total_tokens (largest (λ w. w.total_tokens) ps))
            (v.input_tokens + v.output_tokens))

-- The total is not below the sum, and the sum does not wrap around.
unfoldable IsSettled : TokenUsage → Type 0
IsSettled u =
    (u.input_tokens < 2 ^ 62)
    × (u.output_tokens < 2 ^ 62)
    × (u.input_tokens + u.output_tokens ≤ u.total_tokens)

max_zero : (n : ℕ) → max_int64 n 0 ≡ n
unfolding max_int64
max_zero n = ground arith

with_computed-max :
    (i o t : ℕ) → i < 2 ^ 62 → o < 2 ^ 62 → with_computed i o t ≡ max_int64 t (i + o)
unfolding with_computed max_int64
with_computed-max i o t hi ho = ground (arith, hi, ho)

merge-IsSettled :
    (u v : TokenUsage)
    → IsSettled u
    → v.input_tokens < 2 ^ 62
    → v.output_tokens < 2 ^ 62
    → IsSettled (merge u v)
unfolding merge merged IsSettled max_int64 with_computed
merge-IsSettled u v (i, o, t) hi ho =
    if_holds IsSettled (has_any v) {x = merged u v} {y = u}
      (λ _. (ground arith, ground arith, ground arith)) (λ _. (i, o, t))

-- The counts of a merge, one by one.
unfoldable IsMerge : TokenUsage → TokenUsage → TokenUsage → Type 0
IsMerge u v w =
    (w.input_tokens ≡ max_int64 u.input_tokens v.input_tokens)
    × (w.output_tokens ≡ max_int64 u.output_tokens v.output_tokens)
    × (w.cached_tokens ≡ max_int64 u.cached_tokens v.cached_tokens)
    × (w.cache_creation_tokens ≡ max_int64 u.cache_creation_tokens v.cache_creation_tokens)
    × (w.reasoning_tokens ≡ max_int64 u.reasoning_tokens v.reasoning_tokens)
    × (w.total_tokens
        ≡ max_int64 (max_int64 u.total_tokens v.total_tokens) (w.input_tokens + w.output_tokens))

max-small : (a b : ℕ) → a < 2 ^ 62 → b < 2 ^ 62 → max_int64 a b < 2 ^ 62
unfolding max_int64
max-small a b ha hb = ground (arith, ha, hb)

merged-IsMerge :
    (u v : TokenUsage)
    → IsSettled u
    → v.input_tokens < 2 ^ 62
    → v.output_tokens < 2 ^ 62
    → IsMerge u v (merged u v)
unfolding merged IsMerge IsSettled
merged-IsMerge u v (i, o, t) hi ho = (
  refl,
  refl,
  refl,
  refl,
  refl,
  with_computed-max _ _ _ (max-small u.input_tokens v.input_tokens i hi)
      (max-small u.output_tokens v.output_tokens o ho),
)

-- An event without any count is as good as merged.
empty-IsMerge : (u v : TokenUsage) → IsSettled u → has_any v ≡ false → IsMerge u v u
unfolding has_any IsMerge IsSettled max_int64
empty-IsMerge u v (i, o, t) empty = (
  ground (arith, empty),
  ground (arith, empty),
  ground (arith, empty),
  ground (arith, empty),
  ground (arith, empty),
  ground (arith, empty, t),
)

merge-IsMerge :
    (u v : TokenUsage)
    → IsSettled u
    → v.input_tokens < 2 ^ 62
    → v.output_tokens < 2 ^ 62
    → IsMerge u v (merge u v)
unfolding merge
merge-IsMerge u v settled hi ho =
    if_holds (IsMerge u v) (has_any v) {x = merged u v} {y = u}
      (λ _. merged-IsMerge u v settled hi ho) (empty-IsMerge u v settled)

then_largest :
    (u p m l v : ℕ) → m ≡ max_int64 u p → v ≡ max_int64 m l → v ≡ max_int64 u (max_int64 p l)
then_largest u p m l v e h = h ∙ ap (λ x. max_int64 x l) e ∙ max_assoc u p l

-- The total after more events, whose sum is not below the one before.
then_total :
    (u p m l v before after : ℕ)
    → m ≡ max_int64 (max_int64 u p) before
    → v ≡ max_int64 (max_int64 m l) after
    → before ≤ after
    → v ≡ max_int64 (max_int64 u (max_int64 p l)) after
unfolding max_int64
then_total u p m l v before after e h le = ground (arith, e, h, le)

max-le : (m l v : ℕ) → v ≡ max_int64 m l → m ≤ v
unfolding max_int64
max-le m l v h = ground (arith, h)

IsTally-none : (u : TokenUsage) → IsSettled u → IsTally u [] u
unfolding IsTally IsSettled max_int64
IsTally-none u (i, o, t) =
    (ground arith, ground arith, ground arith, ground arith, ground arith, ground (arith, t))

IsTally-cons :
    (u m v : TokenUsage) (p : Parsed) (ps : List Parsed)
    → IsMerge u p.usage m
    → IsTally m ps v
    → IsTally u (p ∷ ps) v
unfolding IsTally IsMerge
IsTally-cons u m v p ps (i, o, c, k, r, t) (i', o', c', k', r', t') = (
  then_largest _ _ _ _ _ i i',
  then_largest _ _ _ _ _ o o',
  then_largest _ _ _ _ _ c c',
  then_largest _ _ _ _ _ k k',
  then_largest _ _ _ _ _ r r',
  then_total u.total_tokens p.usage.total_tokens m.total_tokens (largest (λ w. w.total_tokens) ps)
      v.total_tokens (m.input_tokens + m.output_tokens) (v.input_tokens + v.output_tokens) t t'
      (omega (
        arith,
        max-le m.input_tokens _ v.input_tokens i',
        max-le m.output_tokens _ v.output_tokens o',
      )),
)

observe_all-IsTally :
    (ps : List Parsed) (o : Observation)
    → IsModest ps
    → IsSettled o.usage
    → IsTally o.usage ps (observe_all ps o).usage
unfolding observe_all observe_sse_event IsModest
observe_all-IsTally [] o modest settled = IsTally-none o.usage settled
observe_all-IsTally (p ∷ ps) o (hi, ho, modest) settled =
    IsTally-cons o.usage (merge o.usage p.usage) _ p ps
      (merge-IsMerge o.usage p.usage settled hi ho)
      (observe_all-IsTally ps (observe_sse_event p o) modest
        (merge-IsSettled o.usage p.usage settled hi ho))

observe_all-completion :
    (ps : List Parsed) (o : Observation)
    → (observe_all ps o).completion_observed ≡ (o.completion_observed || any_terminal ps)
unfolding observe_all observe_sse_event
observe_all-completion [] o = ground arith
observe_all-completion (p ∷ ps) o =
    ground (arith, observe_all-completion ps (observe_sse_event p o))

-- The counts are the largest that an event reports, the total is not below their sum, and the answer has ended if an event
-- says so.
unfoldable pub IsMaximal : List Parsed → Observation → Type 0
IsMaximal ps o =
    (o.usage.input_tokens ≡ largest (λ w. w.input_tokens) ps)
    × (o.usage.output_tokens ≡ largest (λ w. w.output_tokens) ps)
    × (o.usage.cached_tokens ≡ largest (λ w. w.cached_tokens) ps)
    × (o.usage.cache_creation_tokens ≡ largest (λ w. w.cache_creation_tokens) ps)
    × (o.usage.reasoning_tokens ≡ largest (λ w. w.reasoning_tokens) ps)
    × (o.usage.total_tokens
        ≡ max_int64 (largest (λ w. w.total_tokens) ps)
            (largest (λ w. w.input_tokens) ps + largest (λ w. w.output_tokens) ps))
    × (o.completion_observed ≡ any_terminal ps)

zero_max : (n : ℕ) → max_int64 0 n ≡ n
unfolding max_int64
zero_max n = ground arith

-- After any events in any order, none with an input or output count of 2 ^ 62 or more, each count of
-- the observation is the largest that an event reported, the total is the larger of the largest reported
-- total and the sum of the input and output counts, and completion is observed exactly if an event was
-- terminal.
pub observe_all-IsMaximal :
    (ps : List Parsed) → IsModest ps → IsMaximal ps (observe_all ps new_observation)
unfolding IsMaximal IsTally IsSettled
observe_all-IsMaximal ps modest =
    let (i, o, c, k, r, t) =
      observe_all-IsTally ps new_observation modest (omega arith, omega arith, omega arith) in
    let input = i ∙ zero_max _ in
    let output = o ∙ zero_max _ in
    (
      input,
      output,
      c ∙ zero_max _,
      k ∙ zero_max _,
      r ∙ zero_max _,
      t ∙ rw (input, output, zero_max (largest (λ w. w.total_tokens) ps)) refl,
      observe_all-completion ps new_observation,
    )
