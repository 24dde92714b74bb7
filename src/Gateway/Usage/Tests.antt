-- ===== src/Gateway/Usage/Tests.antt =====
-- The observation of concrete events.
use newapi_risk_platform.Base.{◌≡◌, refl, true, false, List, [], ◌∷◌, arith}
use newapi_risk_platform.Gateway.Usage.{
  no_usage, has_any, max_int64, with_computed, merged, merge, Parsed, new_observation,
  observe_sse_event, observe_all,
}
use newapi_risk_platform.Gateway.Usage.Maxima.{IsMaximal, IsModest, observe_all-IsMaximal}

-- The input is reported early, and the output at the end.
abbrev events : List Parsed
events =
    record {
      usage = record no_usage { input_tokens = 12; total_tokens = 12 };
      is_terminal = false;
      semantics = "";
    }
    ∷ record {
      usage = record no_usage { output_tokens = 30 };
      is_terminal = true;
      semantics = "data_done";
    }
    ∷ []

both_sides_in_total : (observe_all events new_observation).usage.total_tokens ≡ 42
unfolding observe_all observe_sse_event merge merged has_any max_int64 with_computed
both_sides_in_total = refl

observe_all-IsMaximal_example : IsMaximal events (observe_all events new_observation)
unfolding IsModest
observe_all-IsMaximal_example =
    observe_all-IsMaximal events (omega arith, omega arith, (omega arith, omega arith, tt))
