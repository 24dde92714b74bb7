-- ===== src/Trace/Timeline.antt =====
-- The instants of a trace: internal/platform/trace_timeline.go. An instant is its nanoseconds since the zero time of Go, for
-- which `IsZero` holds; a zone is not part of it. A duration has 64 bits and wraps around.
pub mod Laws
mod Tests
use newapi_risk_platform.Base.{
  ℕ, suc, ◌+◌, ◌-◌, ◌*◌, Bool, true, false, not, ◌&&◌, ◌||◌, ℤ, pos, negsuc, lebℤ, ltbℤ, wrap64,
  ◌+ℤ◌, ◌-ℤ◌, if◌then◌else◌,
}

unfoldable pub is_zero : ℤ → Bool
is_zero t = lebℤ t (pos 0) && lebℤ (pos 0) t

abbrev second : ℕ
second = 1000000000

abbrev pub five_minutes : ℤ
five_minutes = pos (5 * 60 * second)

abbrev pub one_year : ℤ
one_year = pos (366 * 24 * 3600 * second)

abbrev pub max_int64_value : ℤ → ℤ → ℤ
max_int64_value value minimum = if ltbℤ value minimum then minimum else value

-- A number of milliseconds as a duration.
unfoldable pub milliseconds : ℤ → ℤ
milliseconds (pos n) = wrap64 (pos (n * 1000000))
milliseconds (negsuc n) = wrap64 (negsuc (suc n * 1000000 - 1))

abbrev pub negated : ℤ → ℤ
negated n = pos 0 -ℤ n

-- The later of the two, which keeps the end of a request from being before its start.
unfoldable pub not_before : (start t : ℤ) → ℤ
not_before start t = if ltbℤ t start then start else t

unfoldable pub not_after : (end t : ℤ) → ℤ
not_after end t = if ltbℤ end t then end else t

-- A time that is set, or else the given one.
unfoldable pub or_else : (t default : ℤ) → ℤ
or_else t default = if is_zero t then default else t

pub record Timeline : Type 0 where
  pub started_at : ℤ
  pub completed_at : ℤ
  pub created_at : ℤ
  pub ingested_at : ℤ
  pub latency_ms : ℤ

abbrev guessed_start : Timeline → (now : ℤ) → ℤ
guessed_start e now =
    if not (is_zero e.created_at)
    then e.created_at
    else if not (is_zero e.completed_at) && ltbℤ (pos 0) e.latency_ms
    then e.completed_at +ℤ milliseconds (negated e.latency_ms)
    else now

-- `clock` is the time of the call, where the caller gives none.
unfoldable pub normalize_trace_timeline : (clock now : ℤ) → Timeline → Timeline
normalize_trace_timeline clock now e =
    let now' = or_else now clock in
    let start = or_else e.started_at (guessed_start e now') in
    let end =
      or_else e.completed_at (start +ℤ milliseconds (max_int64_value e.latency_ms (pos 0))) in
    record {
      started_at = start;
      completed_at = not_before start end;
      created_at = or_else e.created_at start;
      ingested_at = or_else e.ingested_at now';
      latency_ms = e.latency_ms;
    }

-- What a client reports of a request that passed outside the gateway.
pub record TrackingEvent : Type 0 where
  pub started_at : ℤ
  pub completed_at : ℤ
  pub occurred_at : ℤ
  pub latency_ms : ℤ

pub data Origin : Type 0 where
  at_reception at_occurrence at_completion : Origin

pub record TrackingTimeline : Type 0 where
  pub started_at : ℤ
  pub completed_at : ℤ
  pub ingested_at : ℤ
  pub origin : Origin
  pub is_clamped : Bool
  pub from_start : Bool
  pub is_normalized : Bool
  pub clock_offset : ℤ

unfoldable pub is_outside : (received t : ℤ) → Bool
is_outside received t = ltbℤ (received +ℤ five_minutes) t || ltbℤ t (received -ℤ one_year)

-- A reported end that is too far from the reception is replaced by the reception.
unfoldable pub clamped : (received t : ℤ) → ℤ
clamped received t = if is_outside received t then received else t

abbrev origin_of : TrackingEvent → Origin
origin_of e =
    if not (is_zero e.completed_at)
    then at_completion
    else if not (is_zero e.occurred_at)
    then at_occurrence
    else at_reception

-- The four parts of `Source` are kept apart.
unfoldable pub derive_tracking_timeline :
    (clock : ℤ) → TrackingEvent → (received_at : ℤ) → TrackingTimeline
derive_tracking_timeline clock e received_at =
    let received = or_else received_at clock in
    let reported = or_else (or_else e.completed_at e.occurred_at) received in
    let end = clamped received reported in
    let start =
      or_else e.started_at (end +ℤ milliseconds (negated (max_int64_value e.latency_ms (pos 0)))) in
    record {
      started_at = not_after end start;
      completed_at = end;
      ingested_at = received;
      origin = origin_of e;
      is_clamped = is_outside received reported;
      from_start = not (is_zero e.started_at);
      is_normalized = ltbℤ end start;
      clock_offset = received -ℤ end;
    }
