-- ===== src/Gateway/Stream.antt =====
-- `proxySSE` of internal/platform/gateway.go: the relay of a server-sent event stream. The source
-- selects among a heartbeat, the end of the request's context and the next event that its reading
-- goroutine hands over; here the order in which these come is a list. A line is a list of code
-- points; the bytes of a line that is not UTF-8 are outside the model.
pub mod Order
pub mod Outcome
pub mod Answer
pub mod Laws
mod Tests
use newapi_risk_platform.Base.{
  ℕ, ◌+◌, ◌*◌, Bool, true, false, not, ◌&&◌, ◌||◌, String, List, [], ◌∷◌, ◌++◌, Option, none, some,
  ltb, leb, str_eq, length, if◌then◌else◌,
}
use newapi_risk_platform.Gateway.Types.{Text}
use newapi_risk_platform.Gateway.Text.{trim_space, has_prefix}

abbrev pub Event : Type 0
Event = List Text

-- `context.Cause` of the request, as `classifyUpstreamStreamReadError` tells causes apart.
pub data StreamCause : Type 0 where
  idle_timeout request_timeout deadline_exceeded canceled unknown : StreamCause

pub data Stimulus : Type 0 where
  heartbeat : Stimulus
  context_done read_error : StreamCause → Stimulus
  closed end_of_file : Stimulus
  event : Event → Stimulus

-- What the client is sent, in order: the two lines of a heartbeat, lines of the upstream, an error
-- body in place of a stream, or an error event within one.
pub data Item : Type 0 where
  beat line : Text → Item
  risk_error logical_error : String → Item

pub record Out : Type 0 where
  pub committed : Bool
  pub count : ℕ
  pub items : List Item

pub record StreamResult : Type 0 where
  pub out : Out
  pub risk_code : String
  pub status : ℕ
  pub stream_committed : Bool

unfoldable pub classify_read_error : StreamCause → String
classify_read_error StreamCause.idle_timeout = "UPSTREAM_STREAM_TIMEOUT"
classify_read_error StreamCause.request_timeout = "UPSTREAM_STREAM_TIMEOUT"
classify_read_error StreamCause.deadline_exceeded = "UPSTREAM_STREAM_TIMEOUT"
classify_read_error StreamCause.canceled = "CLIENT_DISCONNECT"
classify_read_error StreamCause.unknown = "UPSTREAM_STREAM_INTERRUPTED"

abbrev data_prefix : Text
data_prefix = b'd' ∷ b'a' ∷ b't' ∷ b'a' ∷ b':' ∷ []

abbrev event_prefix : Text
event_prefix = b'e' ∷ b'v' ∷ b'e' ∷ b'n' ∷ b't' ∷ b':' ∷ []

unfoldable pub is_meaningful_sse_event : Event → Bool
unfolding trim_space
is_meaningful_sse_event [] = false
is_meaningful_sse_event (l ∷ lines) =
    let trimmed = trim_space l in
    has_prefix data_prefix trimmed
    || has_prefix event_prefix trimmed
    || is_meaningful_sse_event lines

-- The bytes of a code point in UTF-8.
abbrev utf8_len : ℕ → ℕ
utf8_len c = if ltb c 0x80 then 1 else if ltb c 0x800 then 2 else if ltb c 0x10000 then 3 else 4

abbrev line_bytes : Text → ℕ
line_bytes [] = 0
line_bytes (c ∷ t) = utf8_len c + line_bytes t

unfoldable pub sse_event_size : Event → ℕ
sse_event_size [] = 0
sse_event_size (l ∷ lines) = line_bytes l + 1 + sse_event_size lines

-- ": risk-gateway-keepalive" and an empty line.
abbrev pub heartbeat_lines : List Text
heartbeat_lines =
    (b':' ∷ b' ' ∷ b'r' ∷ b'i' ∷ b's' ∷ b'k' ∷ b'-' ∷ b'g' ∷ b'a' ∷ b't' ∷ b'e' ∷ b'w' ∷ b'a' ∷ b'y'
      ∷ b'-' ∷ b'k' ∷ b'e' ∷ b'e' ∷ b'p' ∷ b'a' ∷ b'l' ∷ b'i' ∷ b'v' ∷ b'e' ∷ [])
    ∷ []
    ∷ []

abbrev pub silent : Out
silent = record { committed = false; count = 0; items = [] }

-- Whether the client takes the n-th line.
module _ (accepts : ℕ → Bool) where
  unfoldable pub write_lines : (Text → Item) → List Text → Out → Out × Bool
  write_lines kind [] o = (record o { committed = true }, true)
  write_lines kind (l ∷ lines) o =
      let rest =
        write_lines kind lines
          (record { committed = true; count = o.count + 1; items = o.items ++ kind l ∷ [] }) in
      if accepts o.count then rest else (record o { committed = true; count = o.count + 1 }, false)

  unfoldable pub write_events : List Event → Out → Out × Bool
  write_events [] o = (record o { committed = true }, true)
  write_events (e ∷ events) o =
      let (o', wrote) = write_lines line e o in
      let rest = write_events events o' in if wrote then rest else (o', false)

-- The status of the upstream's response.
module _ (status : ℕ) where
  abbrev pub disconnected : Out → StreamResult
  disconnected o = record {
    out = o;
    risk_code = "CLIENT_DISCONNECT";
    status = status;
    stream_committed = true;
  }

  abbrev pub ended : Out → StreamResult
  ended o = record {
    out = record o { committed = true };
    risk_code = "";
    status = status;
    stream_committed = true;
  }

  -- A failure within the stream: an error event at its end, unless the client has gone.
  unfoldable pub fail_within : String → Out → StreamResult
  fail_within code o = record {
    out =
        if str_eq code "CLIENT_DISCONNECT"
        then o
        else record o { items = o.items ++ logical_error code ∷ [] };
    risk_code = code;
    status = status;
    stream_committed = true;
  }

module _ (error_status : ℕ) where
  -- A failure before the response has started: an error body, unless the client has gone.
  unfoldable pub fail_before : String → Out → StreamResult
  fail_before code o = record {
    out =
        if str_eq code "CLIENT_DISCONNECT"
        then o
        else record o { items = o.items ++ risk_error code ∷ [] };
    risk_code = code;
    status = error_status;
    stream_committed = false;
  }

-- The first two parameters are the tests for an error event and for a terminal one, both of which
-- decode JSON.
module _ (is_error is_terminal : Event → Bool) (accepts : ℕ → Bool) (status error_status : ℕ) where
  -- The second loop, with whether a terminal event was seen. `none` where the stream goes on.
  unfoldable pub streaming : List Stimulus → Bool → Out → Option StreamResult
  streaming [] completed o = none
  streaming (heartbeat ∷ s) completed o =
      let (o', wrote) = write_lines accepts beat heartbeat_lines o in
      let rest = streaming s completed o' in if wrote then rest else some (disconnected status o')
  streaming (context_done cause ∷ s) completed o =
      some (fail_within status (classify_read_error cause) o)
  streaming (closed ∷ s) completed o = some (ended status o)
  streaming (end_of_file ∷ s) completed o = some (ended status o)
  streaming (read_error cause ∷ s) completed o =
      if completed
      then some (ended status o)
      else some (fail_within status (classify_read_error cause) o)
  streaming (event e ∷ s) completed o =
      let (o', wrote) = write_lines accepts line e o in
      let rest = streaming s (completed || is_terminal e) o' in
      if is_error e
      then some (fail_within status "UPSTREAM_STREAM_ERROR" o)
      else if wrote
      then rest
      else some (disconnected status o')

  -- The pending events are written, and the second loop goes on.
  unfoldable pub flush_then : List Stimulus → Bool → List Event → Out → Option StreamResult
  flush_then s completed pending o =
      let (o', wrote) = write_events accepts pending o in
      if wrote then streaming s completed o' else some (disconnected status o')

  -- The first loop, which holds events back until the response has to start.
  unfoldable pub initial :
      List Stimulus → Bool → List Event → (pending_bytes : ℕ) → Out → Option StreamResult
  initial [] completed pending bytes o = none
  initial (heartbeat ∷ s) completed pending bytes o =
      let (o', wrote) = write_lines accepts beat heartbeat_lines o in
      if wrote then flush_then s completed pending o' else some (disconnected status o')
  initial (context_done cause ∷ s) completed pending bytes o =
      some (fail_before error_status (classify_read_error cause) o)
  initial (closed ∷ s) completed pending bytes o =
      let (o', wrote) = write_events accepts pending o in
      if wrote then some (ended status o') else some (disconnected status o')
  initial (read_error cause ∷ s) completed pending bytes o =
      some (fail_before error_status (classify_read_error cause) o)
  initial (end_of_file ∷ s) completed pending bytes o = some (ended status o)
  initial (event e ∷ s) completed pending bytes o =
      let pending' = pending ++ e ∷ [] in
      let bytes' = bytes + sse_event_size e in
      let completed' = completed || is_terminal e in
      let rest = initial s completed' pending' bytes' o in
      if is_error e
      then some (fail_before error_status "UPSTREAM_STREAM_ERROR" o)
      else if is_meaningful_sse_event e || leb 16 (length pending') || leb (64 * 1024) bytes'
      then flush_then s completed' pending' o
      else rest

  unfoldable pub proxy_sse : List Stimulus → Option StreamResult
  proxy_sse s = initial s false [] 0 silent
