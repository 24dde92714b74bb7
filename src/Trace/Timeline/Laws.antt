-- ===== src/Trace/Timeline/Laws.antt =====
-- The order of the instants, and the window that a reported time cannot leave.
use newapi_risk_platform.Base.{◌≡◌, refl, false, ℤ, ◌+ℤ◌, ◌-ℤ◌, ◌≤ℤ◌, ltbℤ, if_holds, arith}
use newapi_risk_platform.Trace.Timeline.{
  is_zero, five_minutes, one_year, not_before, not_after, or_else, is_outside, clamped, Timeline,
  normalize_trace_timeline, TrackingEvent, TrackingTimeline, derive_tracking_timeline,
}

le-not_before : (start t : ℤ) → start ≤ℤ not_before start t
unfolding not_before
le-not_before start t = ground arith

not_before_self : (start : ℤ) → not_before start start ≡ start
unfolding not_before
not_before_self start = if_holds (λ (x : ℤ). x ≡ start) (ltbℤ start start) (λ _. refl) (λ _. refl)

not_before-later : (start t : ℤ) → ltbℤ t start ≡ false → not_before start t ≡ t
unfolding not_before
not_before-later start t later = rw later refl

not_before_stable : (start t : ℤ) → not_before start (not_before start t) ≡ not_before start t
unfolding not_before
not_before_stable start t =
    if_holds (λ (x : ℤ). not_before start x ≡ x) (ltbℤ t start) {x = start} {y = t}
      (λ _. not_before_self start) (not_before-later start t)

not_after-le : (end t : ℤ) → not_after end t ≤ℤ end
unfolding not_after
not_after-le end t = ground arith

clamped-early : (received t : ℤ) → clamped received t ≤ℤ received +ℤ five_minutes
unfolding clamped is_outside
clamped-early received t = ground arith

clamped-late : (received t : ℤ) → received -ℤ one_year ≤ℤ clamped received t
unfolding clamped is_outside
clamped-late received t = ground arith

or_else-set : (t default : ℤ) → is_zero t ≡ false → or_else t default ≡ t
unfolding or_else
or_else-set t default set = rw set refl

-- The start is not after the end, the end is at most five minutes after the reception and at most a
-- year before it.
unfoldable pub IsBounded : TrackingTimeline → Type 0
IsBounded t =
    (t.started_at ≤ℤ t.completed_at)
    × (t.completed_at ≤ℤ t.ingested_at +ℤ five_minutes)
    × (t.ingested_at -ℤ one_year ≤ℤ t.completed_at)

-- Whatever a client reports (missing times, times far away, a latency whose duration overflows), the
-- derived start is not after the derived end, and the end lies at most five minutes after the reception
-- and at most 366 days before it.
pub derive_tracking_timeline-IsBounded :
    (clock : ℤ) (e : TrackingEvent) (received_at : ℤ)
    → IsBounded (derive_tracking_timeline clock e received_at)
unfolding derive_tracking_timeline IsBounded
derive_tracking_timeline-IsBounded clock e received_at =
    (not_after-le _ _, clamped-early _ _, clamped-late _ _)

-- No instant is the zero time.
unfoldable pub IsComplete : Timeline → Type 0
IsComplete t =
    (is_zero t.started_at ≡ false)
    × (is_zero t.completed_at ≡ false)
    × (is_zero t.created_at ≡ false)
    × (is_zero t.ingested_at ≡ false)

normalize_trace_timeline-kept :
    (clock now : ℤ) (n : Timeline)
    → IsComplete n
    → not_before n.started_at n.completed_at ≡ n.completed_at
    → normalize_trace_timeline clock now n ≡ n
unfolding normalize_trace_timeline IsComplete
normalize_trace_timeline-kept clock now n (s, c, k, i) ordered =
    rw
      (
        or_else-set n.started_at _ s,
        or_else-set n.completed_at _ c,
        or_else-set n.created_at _ k,
        or_else-set n.ingested_at _ i,
        ordered,
      )
      refl

-- Where the normalized instants are set, the start is not after the end, and another normalization of
-- the trace, at any time, changes nothing.
pub normalize_trace_timeline-IsStable :
    (clock now clock' now' : ℤ) (e : Timeline)
    → IsComplete (normalize_trace_timeline clock now e)
    → ((normalize_trace_timeline clock now e).started_at
        ≤ℤ (normalize_trace_timeline clock now e).completed_at)
      × (normalize_trace_timeline clock' now' (normalize_trace_timeline clock now e)
          ≡ normalize_trace_timeline clock now e)
unfolding normalize_trace_timeline
normalize_trace_timeline-IsStable clock now clock' now' e complete = (
  le-not_before _ _,
  normalize_trace_timeline-kept clock' now' (normalize_trace_timeline clock now e) complete
      (not_before_stable _ _),
)
