-- ===== src/Gateway/Lines/Whole.antt =====
-- The events hold every line of the stream.
use newapi_risk_platform.Base.{
  ℕ, zero, suc, ◌+◌, ◌≤◌, ◌≡◌, refl, sym, ap, ◌∙◌, Bool, true, false, not, String, List, [], ◌∷◌,
  ◌++◌, str_eq, if_holds, length, append_assoc, append-nil, arith,
}
use newapi_risk_platform.Gateway.Lines.{
  NextEvent, event, ended, failed, conclude_event, next_from, next_sse_event, then_read,
  read_events,
}

-- The lines of a stream, with an empty one after an event that it does not end.
abbrev pub closed : (is_open : Bool) → List String → List String
closed true [] = "" ∷ []
closed false [] = []
closed is_open (l ∷ ls) = l ∷ closed (not (str_eq l "")) ls

abbrev pub flattened : List (List String) → List String
flattened [] = []
flattened (e ∷ es) = e ++ flattened es

abbrev is_open : List String → Bool
is_open [] = false
is_open (l ∷ ls) = true

is_open-added : (held : List String) (l : String) → is_open (held ++ (l ∷ [])) ≡ true
is_open-added [] l = refl
is_open-added (h ∷ held) l = refl

-- One where there are lines to hand out already.
abbrev slack : List String → ℕ
slack [] = 0
slack (l ∷ ls) = 1

slack-added : (held : List String) (l : String) → slack (held ++ (l ∷ [])) ≡ 1
slack-added [] l = refl
slack-added (h ∷ held) l = refl

-- The next event and what is left are the lines held and those to come.
unfoldable IsNext : (held lines : List String) → NextEvent × List String → Type 0
IsNext held lines (event e, rest) =
    (e ++ closed false rest ≡ held ++ closed (is_open held) lines)
    × (suc (length rest) ≤ length lines + slack held)
IsNext held lines (ended, rest) = (held ≡ []) × (lines ≡ [])
IsNext held lines (failed, rest) = ⊥

conclude_event-IsNext : (held : List String) → IsNext held [] (conclude_event false held, [])
unfolding conclude_event IsNext
conclude_event-IsNext [] = (refl, refl)
conclude_event-IsNext (h ∷ held) = (append-nil ((h ∷ held) ++ ("" ∷ [])), omega arith)

event_ends :
    (held : List String) (l : String) (ls : List String)
    → str_eq l "" ≡ true
    → IsNext held (l ∷ ls) (event (held ++ (l ∷ [])), ls)
unfolding IsNext
event_ends held l ls blank = (rw blank (append_assoc held (l ∷ []) (closed false ls)), omega arith)

event_goes :
    (held : List String) (l : String) (ls : List String) (n : NextEvent × List String)
    → str_eq l "" ≡ false
    → IsNext (held ++ (l ∷ [])) ls n
    → IsNext held (l ∷ ls) n
unfolding IsNext
event_goes held l ls (event e, rest) more (w, le) = (
  w ∙ rw (is_open-added held l, more) (append_assoc held (l ∷ []) (closed true ls)),
  omega (arith, le, slack-added held l),
)
event_goes held l ls (ended, rest) more (h, e) =
    let never : true ≡ false = sym (is_open-added held l) ∙ ap is_open h in absurd (cc never)
event_goes held l ls (failed, rest) more h = h

next_from-IsNext : (held lines : List String) → IsNext held lines (next_from false held lines)
unfolding next_from
next_from-IsNext held [] = conclude_event-IsNext held
next_from-IsNext held (l ∷ ls) =
    if_holds (IsNext held (l ∷ ls)) (str_eq l "") {x = (event (held ++ (l ∷ [])), ls)}
      {y = next_from false (held ++ (l ∷ [])) ls} (event_ends held l ls)
      (λ more. event_goes held l ls _ more (next_from-IsNext (held ++ (l ∷ [])) ls))

then_read-IsWhole :
    (n : ℕ) (lines : List String) (x : NextEvent × List String)
    → IsNext [] lines x
    → ((ls : List String)
        → suc (length ls) ≤ length lines
        → flattened (read_events n false ls) ≡ closed false ls)
    → flattened (then_read (read_events n false) x) ≡ closed false lines
unfolding then_read IsNext
then_read-IsWhole n lines (event e, rest) (w, le) ih =
    ap (λ (ls : List String). e ++ ls) (ih rest (omega (arith, le))) ∙ w
then_read-IsWhole n lines (ended, rest) (h, e) ih = rw e refl
then_read-IsWhole n lines (failed, rest) h ih = absurd h

-- Where the scanner does not fail and the reader may call it once more often than there are lines, the
-- events that the reader sends are, one after the other, all lines of the stream in their order, with an
-- empty line added only where the last event had none.
pub read_events-IsWhole :
    (n : ℕ) (lines : List String)
    → suc (length lines) ≤ n
    → flattened (read_events n false lines) ≡ closed false lines
unfolding read_events
read_events-IsWhole zero lines le = absurd (omega (arith, le))
read_events-IsWhole (suc n) lines le =
    then_read-IsWhole n lines (next_sse_event false lines) (next_from-IsNext [] lines)
      (λ ls shorter. read_events-IsWhole n ls (omega (arith, le, shorter)))
