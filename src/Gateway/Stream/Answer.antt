-- ===== src/Gateway/Stream/Answer.antt =====
-- What the client is told of the end of a stream, before and after the response has started.
use newapi_risk_platform.Base.{
  ℕ, ◌+◌, ◌*◌, ◌≡◌, refl, ◌⊎◌, inl, inr, Bool, true, false, ◌||◌, List, [], ◌∷◌, ◌++◌, some,
  Bool-cases, subst_some, String, str_eq, eq_iff, leb, length,
}
use newapi_risk_platform.Gateway.Stream.{
  Event, Stimulus, heartbeat, context_done, read_error, closed, end_of_file, event, Item, beat,
  line, risk_error, logical_error, Out, StreamResult, write_lines, write_events, fail_before,
  fail_within, streaming, flush_then, initial, heartbeat_lines, disconnected, ended,
  is_meaningful_sse_event, sse_event_size,
}

-- A failure within a stream is told to the client by an error event, which is the last thing sent.
abbrev pub IsReported : StreamResult → Type 0
IsReported r =
    ((r.risk_code ≡ "") ⊎ (r.risk_code ≡ "CLIENT_DISCONNECT"))
    ⊎ ((items : List Item) × (r.out.items ≡ items ++ logical_error r.risk_code ∷ []))

-- A failure before the stream is told by an error body, which is the only thing sent.
abbrev pub IsRefused : StreamResult → Type 0
IsRefused r =
    ((r.risk_code ≡ "CLIENT_DISCONNECT") × (r.out.items ≡ []))
    ⊎ (r.out.items ≡ risk_error r.risk_code ∷ [])

pub record Answered (status error_status : ℕ) (r : StreamResult) : Type 0 where
  pub within : r.stream_committed ≡ true → (r.status ≡ status) × IsReported r
  pub before : r.stream_committed ≡ false → (r.status ≡ error_status) × IsRefused r

module _ (status error_status : ℕ) where
  fail_within-Answered :
      (code : String) (o : Out) → Answered status error_status (fail_within status code o)
  unfolding fail_within
  fail_within-Answered code o = record {
    within = λ _. (
      refl,
      elim (Bool-cases (str_eq code "CLIENT_DISCONNECT")) [
        | inl gone ↦ inl (inr ((eq_iff code "CLIENT_DISCONNECT").0 gone))
        | inr here ↦ inr (o.items, rw here)
      ],
    );
    before = λ h. cc;
  }

  fail_before-Answered :
      (code : String) (o : Out)
      → o.items ≡ []
      → Answered status error_status (fail_before error_status code o)
  unfolding fail_before
  fail_before-Answered code o e = record {
    within = λ h. cc;
    before = λ _. (
      refl,
      elim (Bool-cases (str_eq code "CLIENT_DISCONNECT")) [
        | inl gone ↦ inl ((eq_iff code "CLIENT_DISCONNECT").0 gone, rw (gone, e))
        | inr here ↦ inr (rw (here, e))
      ],
    );
  }

  ended-Answered : (o : Out) → Answered status error_status (ended status o)
  ended-Answered o = record { within = λ _. (refl, inl (inl refl)); before = λ h. cc }

  disconnected-Answered : (o : Out) → Answered status error_status (disconnected status o)
  disconnected-Answered o = record { within = λ _. (refl, inl (inr refl)); before = λ h. cc }

module _ (is_error is_terminal : Event → Bool) (accepts : ℕ → Bool) (status error_status : ℕ) where
  streaming-Answered :
      (s : List Stimulus) (completed : Bool) (o : Out) (r : StreamResult)
      → streaming is_error is_terminal accepts status error_status s completed o ≡ some r
      → Answered status error_status r
  unfolding streaming
  streaming-Answered [] completed o r e = cc
  streaming-Answered (heartbeat ∷ s) completed o r e =
      let (o', wrote) = write_lines accepts beat heartbeat_lines o in
      elim (Bool-cases wrote) [
        | inl yields ↦ streaming-Answered s completed o' r (rw yields at e)
        | inr breaks ↦
            subst_some (Answered _ _) (rw breaks at e)
              (disconnected-Answered status error_status o')
      ]
  streaming-Answered (context_done cause ∷ s) completed o r e =
      subst_some (Answered _ _) e (fail_within-Answered status error_status _ o)
  streaming-Answered (closed ∷ s) completed o r e =
      subst_some (Answered _ _) e (ended-Answered status error_status o)
  streaming-Answered (end_of_file ∷ s) completed o r e =
      subst_some (Answered _ _) e (ended-Answered status error_status o)
  streaming-Answered (read_error cause ∷ s) true o r e =
      subst_some (Answered _ _) e (ended-Answered status error_status o)
  streaming-Answered (read_error cause ∷ s) false o r e =
      subst_some (Answered _ _) e (fail_within-Answered status error_status _ o)
  streaming-Answered (event ev ∷ s) completed o r e =
      let (o', wrote) = write_lines accepts line ev o in
      elim (Bool-cases (is_error ev)) [
        | inl bad ↦
            subst_some (Answered _ _) (rw bad at e)
              (fail_within-Answered status error_status "UPSTREAM_STREAM_ERROR" o)
        | inr good ↦ elim (Bool-cases wrote) [
          | inl yields ↦
              streaming-Answered s (completed || is_terminal ev) o' r (rw (good, yields) at e)
          | inr breaks ↦
              subst_some (Answered _ _) (rw (good, breaks) at e)
                (disconnected-Answered status error_status o')
        ]
      ]

  flush_then-Answered :
      (s : List Stimulus) (completed : Bool) (pending : List Event) (o : Out) (r : StreamResult)
      → flush_then is_error is_terminal accepts status error_status s completed pending o ≡ some r
      → Answered status error_status r
  unfolding flush_then
  flush_then-Answered s completed pending o r e =
      let (o', wrote) = write_events accepts pending o in
      elim (Bool-cases wrote) [
        | inl yields ↦ streaming-Answered s completed o' r (rw yields at e)
        | inr breaks ↦
            subst_some (Answered _ _) (rw breaks at e)
              (disconnected-Answered status error_status o')
      ]

  pub initial-Answered :
      (s : List Stimulus) (completed : Bool) (pending : List Event) (bytes : ℕ) (o : Out)
      (r : StreamResult)
      → o.items ≡ []
      → initial is_error is_terminal accepts status error_status s completed pending bytes o
        ≡ some r
      → Answered status error_status r
  unfolding initial
  initial-Answered [] completed pending bytes o r h e = cc
  initial-Answered (heartbeat ∷ s) completed pending bytes o r h e =
      let (o', wrote) = write_lines accepts beat heartbeat_lines o in
      elim (Bool-cases wrote) [
        | inl yields ↦ flush_then-Answered s completed pending o' r (rw yields at e)
        | inr breaks ↦
            subst_some (Answered _ _) (rw breaks at e)
              (disconnected-Answered status error_status o')
      ]
  initial-Answered (context_done cause ∷ s) completed pending bytes o r h e =
      subst_some (Answered _ _) e (fail_before-Answered status error_status _ o h)
  initial-Answered (closed ∷ s) completed pending bytes o r h e =
      let (o', wrote) = write_events accepts pending o in
      elim (Bool-cases wrote) [
        | inl yields ↦
            subst_some (Answered _ _) (rw yields at e) (ended-Answered status error_status o')
        | inr breaks ↦
            subst_some (Answered _ _) (rw breaks at e)
              (disconnected-Answered status error_status o')
      ]
  initial-Answered (end_of_file ∷ s) completed pending bytes o r h e =
      subst_some (Answered _ _) e (ended-Answered status error_status o)
  initial-Answered (read_error cause ∷ s) completed pending bytes o r h e =
      subst_some (Answered _ _) e (fail_before-Answered status error_status _ o h)
  initial-Answered (event ev ∷ s) completed pending bytes o r h e =
      let pending' = pending ++ ev ∷ [] in
      let completed' = completed || is_terminal ev in
      let bytes' = bytes + sse_event_size ev in
      let starts =
        is_meaningful_sse_event ev || leb 16 (length pending') || leb (64 * 1024) bytes' in
      elim (Bool-cases (is_error ev)) [
        | inl bad ↦
            subst_some (Answered _ _) (rw bad at e)
              (fail_before-Answered status error_status "UPSTREAM_STREAM_ERROR" o h)
        | inr good ↦ elim (Bool-cases starts) [
          | inl now ↦ flush_then-Answered s completed' pending' o r (rw (good, now) at e)
          | inr later ↦ initial-Answered s completed' pending' bytes' o r h (rw (good, later) at e)
        ]
      ]
