-- ===== src/Trace/Timeline/Tests.antt =====
-- The timelines of concrete traces.
use newapi_risk_platform.Base.{◌≡◌, refl, pos, ◌≤ℤ◌}
use newapi_risk_platform.Trace.Timeline.{
  Timeline, normalize_trace_timeline, TrackingEvent, derive_tracking_timeline, not_before, or_else,
  is_zero, milliseconds, clamped, is_outside,
}
use newapi_risk_platform.Trace.Timeline.Laws.{
  IsBounded, derive_tracking_timeline-IsBounded, IsComplete, normalize_trace_timeline-IsStable,
}

-- A trace that was completed at one second, after 400 milliseconds.
abbrev completed : Timeline
completed = record {
  started_at = pos 0;
  completed_at = pos 1000000000;
  created_at = pos 0;
  ingested_at = pos 0;
  latency_ms = pos 400;
}

abbrev early : TrackingEvent
early = record { started_at = pos 7; completed_at = pos 0; occurred_at = pos 9; latency_ms = pos 3 }

start_from_latency :
    (normalize_trace_timeline (pos 5) (pos 2000000000) completed).started_at ≡ pos 600000000
unfolding normalize_trace_timeline or_else is_zero milliseconds
start_from_latency = refl

far_away_is_clamped :
    (derive_tracking_timeline (pos 1) early (pos 40000000000000000)).completed_at
    ≡ pos 40000000000000000
unfolding derive_tracking_timeline or_else is_zero clamped is_outside
far_away_is_clamped = refl

derive_tracking_timeline-IsBounded_example :
    IsBounded (derive_tracking_timeline (pos 1) early (pos 40000000000000000))
derive_tracking_timeline-IsBounded_example =
    derive_tracking_timeline-IsBounded (pos 1) early (pos 40000000000000000)

normalize_trace_timeline-IsStable_example :
    ((normalize_trace_timeline (pos 5) (pos 2000000000) completed).started_at
      ≤ℤ (normalize_trace_timeline (pos 5) (pos 2000000000) completed).completed_at)
    × (normalize_trace_timeline
          (pos 6)
          (pos 0)
          (normalize_trace_timeline (pos 5) (pos 2000000000) completed)
        ≡ normalize_trace_timeline (pos 5) (pos 2000000000) completed)
unfolding normalize_trace_timeline or_else is_zero milliseconds not_before IsComplete
normalize_trace_timeline-IsStable_example =
    normalize_trace_timeline-IsStable (pos 5) (pos 2000000000) (pos 6) (pos 0) completed
      (refl, refl, refl, refl)
