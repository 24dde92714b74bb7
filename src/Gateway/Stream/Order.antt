-- ===== src/Gateway/Stream/Order.antt =====
-- The lines of the upstream reach the client in order, without gaps and unchanged.
use newapi_risk_platform.Base.{
  ℕ, ◌≡◌, ◌≢◌, refl, sym, ap, ◌∙◌, Bool, true, false, ◌||◌, List, [], ◌∷◌, ◌++◌, some, append-nil,
  append_assoc, Bool-cases, subst_some, inl, inr, String, str_eq,
}
use newapi_risk_platform.Gateway.Types.{Text}
use newapi_risk_platform.Gateway.Stream.{
  Event, StreamCause, Stimulus, heartbeat, context_done, read_error, closed, end_of_file, event,
  Item, beat, line, risk_error, logical_error, Out, StreamResult, write_lines, write_events,
  fail_within, streaming, flush_then, heartbeat_lines, classify_read_error, disconnected, ended,
}

-- The upstream's lines among what the client was sent.
abbrev pub lines_of : List Item → List Text
lines_of [] = []
lines_of (line l ∷ items) = l ∷ lines_of items
lines_of (_ ∷ items) = lines_of items

-- The lines of the events that arrive before the stream ends.
abbrev pub arriving : List Stimulus → List Text
arriving [] = []
arriving (event e ∷ s) = e ++ arriving s
arriving (heartbeat ∷ s) = arriving s
arriving (_ ∷ s) = []

abbrev pub flat : List Event → List Text
flat [] = []
flat (e ∷ events) = e ++ flat events

abbrev pub IsPrefix : List Text → List Text → Type 0
IsPrefix xs ys = (rest : List Text) × (xs ++ rest ≡ ys)

pub lines_of-append : (xs ys : List Item) → lines_of (xs ++ ys) ≡ lines_of xs ++ lines_of ys
lines_of-append [] ys = refl
lines_of-append (line l ∷ xs) ys = ap (λ t. l ∷ t) (lines_of-append xs ys)
lines_of-append (beat l ∷ xs) ys = lines_of-append xs ys
lines_of-append (risk_error c ∷ xs) ys = lines_of-append xs ys
lines_of-append (logical_error c ∷ xs) ys = lines_of-append xs ys

pub flat-append : (xs ys : List Event) → flat (xs ++ ys) ≡ flat xs ++ flat ys
flat-append [] ys = refl
flat-append (e ∷ xs) ys = simp (flat-append xs ys, append_assoc)

-- A prefix stays one when more is to come.
pub IsPrefix-append : (xs ys zs : List Text) → IsPrefix xs ys → IsPrefix xs (ys ++ zs)
IsPrefix-append xs ys zs (rest, e) = (rest ++ zs, rw (← append_assoc, e))

-- The outcome of a write of `ls` after `o`: all of it if it succeeded, else a prefix of it.
pub record Wrote (o : Out) (ls : List Text) (result : Out × Bool) : Type 0 where
  pub all : result.1 ≡ true → lines_of result.0.items ≡ lines_of o.items ++ ls
  pub part : IsPrefix (lines_of result.0.items) (lines_of o.items ++ ls)

module _ (accepts : ℕ → Bool) where
  pub write_lines-beat :
      (ls : List Text) (o : Out)
      → lines_of (write_lines accepts beat ls o).0.items ≡ lines_of o.items
  unfolding write_lines
  write_lines-beat [] o = refl
  write_lines-beat (l ∷ ls) o = elim (Bool-cases (accepts o.count)) [
    | inl yields ↦
        rw yields (write_lines-beat ls _ ∙ lines_of-append o.items (beat l ∷ []) ∙ append-nil _)
    | inr fails ↦ rw fails
  ]

  -- One more line in front of what a write has still to do.
  Wrote-cons :
      (l : Text) (ls : List Text) (o o' : Out) (result : Out × Bool)
      → lines_of o'.items ≡ lines_of o.items ++ l ∷ []
      → Wrote o' ls result
      → Wrote o (l ∷ ls) result
  Wrote-cons l ls o o' result e w = record {
    all = λ h. w.all h ∙ rw (e, append_assoc);
    part = (w.part.0, w.part.1 ∙ rw (e, append_assoc));
  }

  write_lines-Wrote : (ls : List Text) (o : Out) → Wrote o ls (write_lines accepts line ls o)
  unfolding write_lines
  write_lines-Wrote [] o = record { all = λ _. sym (append-nil _); part = ([], refl) }
  write_lines-Wrote (l ∷ ls) o = elim (Bool-cases (accepts o.count)) [
    | inl yields ↦
        rw yields
          (Wrote-cons l ls o _ _ (lines_of-append o.items (line l ∷ [])) (write_lines-Wrote ls _))
    | inr fails ↦ rw fails (record { all = λ h. cc; part = (l ∷ ls, refl) })
  ]

  Wrote-append :
      (ls ms : List Text) (o o' : Out) (result : Out × Bool)
      → lines_of o'.items ≡ lines_of o.items ++ ls
      → Wrote o' ms result
      → Wrote o (ls ++ ms) result
  Wrote-append ls ms o o' result e w = record {
    all = λ h. w.all h ∙ rw (e, append_assoc);
    part = (w.part.0, w.part.1 ∙ rw (e, append_assoc));
  }

  pub write_events-Wrote :
      (events : List Event) (o : Out) → Wrote o (flat events) (write_events accepts events o)
  unfolding write_events
  write_events-Wrote [] o = record { all = λ _. sym (append-nil _); part = ([], refl) }
  write_events-Wrote (e ∷ events) o =
      let w = write_lines-Wrote e o in
      elim (Bool-cases (write_lines accepts line e o).1) [
        | inl wrote ↦ rw wrote (
            Wrote-append e (flat events) o (write_lines accepts line e o).0 _ (w.all wrote)
              (write_events-Wrote events _))
        | inr broke ↦ rw broke (record {
          all = λ h. cc;
          part = rw (← append_assoc) (IsPrefix-append _ _ (flat events) w.part);
        })
      ]

-- The relay of `ls` ended with `r`: a prefix of them went out, and all where the end was clean.
pub record Relayed (ls : List Text) (r : StreamResult) : Type 0 where
  pub part : IsPrefix (lines_of r.out.items) ls
  pub clean : r.risk_code ≡ "" → lines_of r.out.items ≡ ls

pub classify-ne-empty : (cause : StreamCause) → classify_read_error cause ≢ ""
unfolding classify_read_error
classify-ne-empty StreamCause.idle_timeout = λ e. cc
classify-ne-empty StreamCause.request_timeout = λ e. cc
classify-ne-empty StreamCause.deadline_exceeded = λ e. cc
classify-ne-empty StreamCause.canceled = λ e. cc
classify-ne-empty StreamCause.unknown = λ e. cc

module _ (status : ℕ) where
  fail_within-Relayed :
      (code : String) (o : Out) (ls : List Text)
      → code ≢ ""
      → Relayed (lines_of o.items ++ ls) (fail_within status code o)
  unfolding fail_within
  fail_within-Relayed code o ls h = record {
    part = elim (Bool-cases (str_eq code "CLIENT_DISCONNECT")) [
      | inl gone ↦ rw gone (ls, refl)
      | inr here ↦ rw here (ls, rw (lines_of-append o.items (logical_error code ∷ []), append-nil))
    ];
    clean = λ e. absurd (h e);
  }

  pub disconnected-Relayed :
      (o o' : Out) (ls ms : List Text)
      → IsPrefix (lines_of o'.items) (lines_of o.items ++ ls)
      → Relayed (lines_of o.items ++ (ls ++ ms)) (disconnected status o')
  disconnected-Relayed o o' ls ms p = record {
    part = rw (← append_assoc) (IsPrefix-append _ _ ms p);
    clean = λ e. cc;
  }

  ended-Relayed : (o : Out) → Relayed (lines_of o.items ++ []) (ended status o)
  ended-Relayed o = record { part = ([], refl); clean = λ e. sym (append-nil _) }

module _ (is_error is_terminal : Event → Bool) (accepts : ℕ → Bool) (status error_status : ℕ) where
  streaming-Relayed :
      (s : List Stimulus) (completed : Bool) (o : Out) (r : StreamResult)
      → streaming is_error is_terminal accepts status error_status s completed o ≡ some r
      → Relayed (lines_of o.items ++ arriving s) r
  unfolding streaming
  streaming-Relayed [] completed o r e = cc
  streaming-Relayed (heartbeat ∷ s) completed o r e =
      let (o', wrote) = write_lines accepts beat heartbeat_lines o in
      elim (Bool-cases wrote) [
        | inl yields ↦
            rw (← write_lines-beat accepts heartbeat_lines o)
              (streaming-Relayed s completed o' r (rw yields at e))
        | inr breaks ↦ subst_some (Relayed _) (rw breaks at e) (
            disconnected-Relayed status o o' [] (arriving s)
              (rw (write_lines-beat accepts heartbeat_lines o) ([], refl)))
      ]
  streaming-Relayed (context_done cause ∷ s) completed o r e =
      subst_some (Relayed _) e (fail_within-Relayed status _ o [] (classify-ne-empty cause))
  streaming-Relayed (closed ∷ s) completed o r e = subst_some (Relayed _) e (ended-Relayed status o)
  streaming-Relayed (end_of_file ∷ s) completed o r e =
      subst_some (Relayed _) e (ended-Relayed status o)
  streaming-Relayed (read_error cause ∷ s) true o r e =
      subst_some (Relayed _) e (ended-Relayed status o)
  streaming-Relayed (read_error cause ∷ s) false o r e =
      subst_some (Relayed _) e (fail_within-Relayed status _ o [] (classify-ne-empty cause))
  streaming-Relayed (event ev ∷ s) completed o r e =
      let (o', wrote) = write_lines accepts line ev o in
      let w = write_lines-Wrote accepts ev o in
      elim (Bool-cases (is_error ev)) [
        | inl bad ↦
            subst_some (Relayed _) (rw bad at e)
              (fail_within-Relayed status "UPSTREAM_STREAM_ERROR" o _ (λ h. cc))
        | inr good ↦ elim (Bool-cases wrote) [
          | inl yields ↦
              rw (← append_assoc, ← w.all yields)
                (streaming-Relayed s (completed || is_terminal ev) o' r (rw (good, yields) at e))
          | inr breaks ↦
              subst_some (Relayed _) (rw (good, breaks) at e)
                (disconnected-Relayed status o o' ev (arriving s) w.part)
        ]
      ]

  pub flush_then-Relayed :
      (s : List Stimulus) (completed : Bool) (pending : List Event) (o : Out) (r : StreamResult)
      → flush_then is_error is_terminal accepts status error_status s completed pending o ≡ some r
      → Relayed (lines_of o.items ++ (flat pending ++ arriving s)) r
  unfolding flush_then
  flush_then-Relayed s completed pending o r e =
      let (o', wrote) = write_events accepts pending o in
      let w = write_events-Wrote accepts pending o in
      elim (Bool-cases wrote) [
        | inl yields ↦
            rw (← append_assoc, ← w.all yields)
              (streaming-Relayed s completed o' r (rw yields at e))
        | inr breaks ↦
            subst_some (Relayed _) (rw breaks at e)
              (disconnected-Relayed status o o' (flat pending) (arriving s) w.part)
      ]
