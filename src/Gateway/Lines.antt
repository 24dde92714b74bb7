-- ===== src/Gateway/Lines.antt =====
-- The reading of an event stream line by line: `nextSSEEvent` of internal/platform/gateway.go, and the calls of it by the
-- reader of `proxySSE`. The scanner is the lines that it gives, and whether it fails after them.
pub mod Whole
mod Tests
use newapi_risk_platform.Base.{
  ℕ, zero, suc, Bool, true, false, String, List, [], ◌∷◌, ◌++◌, str_eq, if◌then◌else◌,
}

pub data NextEvent : Type 0 where
  event : (lines : List String) → NextEvent
  ended failed : NextEvent

-- The scanner gives no more lines.
unfoldable pub conclude_event : (fails : Bool) → (held : List String) → NextEvent
conclude_event true held = failed
conclude_event false [] = ended
conclude_event false (l ∷ ls) = event ((l ∷ ls) ++ ("" ∷ []))

-- `held` are the lines of the event so far.
unfoldable pub next_from : (fails : Bool) → (held lines : List String) → NextEvent × List String
next_from fails held [] = (conclude_event fails held, [])
next_from fails held (l ∷ ls) =
    let more = next_from fails (held ++ (l ∷ [])) ls in
    if str_eq l "" then (event (held ++ (l ∷ [])), ls) else more

abbrev pub next_sse_event : (fails : Bool) → (lines : List String) → NextEvent × List String
next_sse_event fails lines = next_from fails [] lines

unfoldable pub then_read :
    (rest : List String → List (List String)) → NextEvent × List String → List (List String)
then_read rest (event e, ls) = e ∷ rest ls
then_read rest (ended, ls) = []
then_read rest (failed, ls) = []

-- The events that the reader sends before the end or an error.
unfoldable pub read_events :
    (fuel : ℕ) → (fails : Bool) → (lines : List String) → List (List String)
read_events zero fails lines = []
read_events (suc n) fails lines = then_read (read_events n fails) (next_sse_event fails lines)
