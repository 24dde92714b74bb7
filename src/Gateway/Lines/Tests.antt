-- ===== src/Gateway/Lines/Tests.antt =====
-- The events of a short stream.
use newapi_risk_platform.Base.{◌≡◌, refl, false, true, String, List, [], ◌∷◌, arith}
use newapi_risk_platform.Gateway.Lines.{conclude_event, next_from, then_read, read_events}
use newapi_risk_platform.Gateway.Lines.Whole.{closed, flattened, read_events-IsWhole}

-- Two events, of which the second is not ended.
abbrev stream : List String
stream = "data: 1" ∷ "" ∷ "event: done" ∷ "data: 2" ∷ []

failure_drops_the_open_event : read_events 5 true stream ≡ (("data: 1" ∷ "" ∷ []) ∷ [])
unfolding read_events then_read next_from conclude_event
failure_drops_the_open_event = refl

read_events-IsWhole_example : flattened (read_events 5 false stream) ≡ closed false stream
read_events-IsWhole_example = read_events-IsWhole 5 stream (omega arith)
