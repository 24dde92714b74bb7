-- ===== src/Gateway/Usage.antt =====
-- What a response tells of the tokens it used: `Merge` and the observations of internal/platform/upstream_usage.go. The
-- parser, which reads JSON, gives counts that are not negative; their 64-bit sum may be.
pub mod Maxima
mod Tests
use newapi_risk_platform.Base.{
  ℕ, ◌+◌, ◌^◌, Bool, true, false, not, ◌&&◌, ◌||◌, String, List, [], ◌∷◌, ltb, str_eq,
  if◌then◌else◌,
}

pub record TokenUsage : Type 0 where
  pub input_tokens : ℕ
  pub output_tokens : ℕ
  pub total_tokens : ℕ
  pub cached_tokens : ℕ
  pub cache_creation_tokens : ℕ
  pub reasoning_tokens : ℕ
  pub source : String
  pub exact : Bool

abbrev pub no_usage : TokenUsage
no_usage = record {
  input_tokens = 0;
  output_tokens = 0;
  total_tokens = 0;
  cached_tokens = 0;
  cache_creation_tokens = 0;
  reasoning_tokens = 0;
  source = "";
  exact = false;
}

unfoldable pub has_any : TokenUsage → Bool
has_any u =
    ltb 0 u.input_tokens
    || ltb 0 u.output_tokens
    || ltb 0 u.total_tokens
    || ltb 0 u.cached_tokens
    || ltb 0 u.cache_creation_tokens
    || ltb 0 u.reasoning_tokens

unfoldable pub max_int64 : ℕ → ℕ → ℕ
max_int64 left right = if ltb left right then right else left

-- The sum of the counts, if it is over the total; a sum of 2 ^ 63 or more is a negative number.
unfoldable pub with_computed : (input output total : ℕ) → ℕ
with_computed input output total =
    if ltb (input + output) (2 ^ 63) && ltb total (input + output) then input + output else total

unfoldable pub merged : TokenUsage → TokenUsage → TokenUsage
merged u v =
    let input = max_int64 u.input_tokens v.input_tokens in
    let output = max_int64 u.output_tokens v.output_tokens in
    record {
      input_tokens = input;
      output_tokens = output;
      total_tokens = with_computed input output (max_int64 u.total_tokens v.total_tokens);
      cached_tokens = max_int64 u.cached_tokens v.cached_tokens;
      cache_creation_tokens = max_int64 u.cache_creation_tokens v.cache_creation_tokens;
      reasoning_tokens = max_int64 u.reasoning_tokens v.reasoning_tokens;
      source = if str_eq u.source "" then v.source else u.source;
      exact = u.exact || v.exact;
    }

unfoldable pub merge : TokenUsage → TokenUsage → TokenUsage
merge u v = if has_any v then merged u v else u

-- One event as the parser sees it: its counts, whether it ends the answer, and what says so.
pub record Parsed : Type 0 where
  pub usage : TokenUsage
  pub is_terminal : Bool
  pub semantics : String

pub record Observation : Type 0 where
  pub usage : TokenUsage
  pub completion_observed : Bool
  pub completion_semantics : String

abbrev pub new_observation : Observation
new_observation = record {
  usage = no_usage;
  completion_observed = false;
  completion_semantics = "";
}

unfoldable pub observe_sse_event : Parsed → Observation → Observation
observe_sse_event p o = record {
  usage = merge o.usage p.usage;
  completion_observed = p.is_terminal || o.completion_observed;
  completion_semantics =
      if p.is_terminal && not (str_eq p.semantics "") then p.semantics else o.completion_semantics;
}

unfoldable pub observe_all : List Parsed → Observation → Observation
observe_all [] o = o
observe_all (p ∷ ps) o = observe_all ps (observe_sse_event p o)

-- A body that is not complete tells nothing.
unfoldable pub observe_buffered_body :
    (usage : TokenUsage) → (complete : Bool) → Observation → Observation
observe_buffered_body usage complete o =
    if complete
    then record {
      usage = merge o.usage usage;
      completion_observed = true;
      completion_semantics = "buffered_response_complete";
    }
    else o
