-- ===== src/Gateway/Stream/Outcome.antt =====
-- How a relayed stream ends: before or after the response has started, and what is lost.
use newapi_risk_platform.Base.{
  ℕ, ◌+◌, ◌*◌, ◌≡◌, ◌≢◌, refl, ◌⊎◌, inl, inr, Bool, true, false, not, ◌&&◌, ◌||◌, List, [], ◌∷◌,
  ◌++◌, some, append-nil, append_assoc, Bool-cases, subst_some, String, str_eq, leb, length,
}
use newapi_risk_platform.Gateway.Types.{Text}
use newapi_risk_platform.Gateway.Stream.{
  Event, Stimulus, heartbeat, context_done, read_error, closed, end_of_file, event, beat,
  risk_error, Out, StreamResult, write_lines, write_events, fail_before, initial, heartbeat_lines,
  is_meaningful_sse_event, sse_event_size,
}
use newapi_risk_platform.Gateway.Stream.Order.{
  lines_of, arriving, flat, flat-append, lines_of-append, IsPrefix, Relayed, write_lines-beat,
  write_events-Wrote, flush_then-Relayed, disconnected-Relayed, classify-ne-empty,
}

-- No event with data or a name arrives before the stream ends.
abbrev pub is_quiet : List Stimulus → Bool
is_quiet [] = true
is_quiet (event e ∷ s) = not (is_meaningful_sse_event e) && is_quiet s
is_quiet (heartbeat ∷ s) = is_quiet s
is_quiet (_ ∷ s) = true

-- The end of a relay that may stop while it still holds events back: after a clean end all lines
-- have gone out, or none has and no event with data or a name had arrived.
pub record Ended (sent held : List Text) (s : List Stimulus) (r : StreamResult) : Type 0 where
  pub part : IsPrefix (lines_of r.out.items) (sent ++ (held ++ arriving s))
  pub clean :
      r.risk_code ≡ ""
      → (lines_of r.out.items ≡ sent ++ (held ++ arriving s))
        ⊎ ((lines_of r.out.items ≡ sent) × (is_quiet s ≡ true))

of_Relayed :
    (sent held : List Text) (s : List Stimulus) (r : StreamResult)
    → Relayed (sent ++ (held ++ arriving s)) r
    → Ended sent held s r
of_Relayed sent held s r k = record { part = k.part; clean = λ h. inl (k.clean h) }

flat-snoc :
    (pending : List Event) (e : Event) (ls : List Text)
    → flat (pending ++ e ∷ []) ++ ls ≡ flat pending ++ (e ++ ls)
flat-snoc pending e ls = rw (flat-append pending (e ∷ []), append-nil, append_assoc)

-- An event is held back.
hold-Ended :
    (sent : List Text) (pending : List Event) (e : Event) (s : List Stimulus) (r : StreamResult)
    → is_meaningful_sse_event e ≡ false
    → Ended sent (flat (pending ++ e ∷ [])) s r
    → Ended sent (flat pending) (event e ∷ s) r
hold-Ended sent pending e s r dull k =
    let same = flat-snoc pending e (arriving s) in
    record { part = rw (← same) k.part; clean = λ h. rw (← same, dull) (k.clean h) }

module _ (error_status : ℕ) where
  fail_before-Ended :
      (code : String) (o : Out) (held : List Text) (s : List Stimulus)
      → code ≢ ""
      → Ended (lines_of o.items) held s (fail_before error_status code o)
  unfolding fail_before
  fail_before-Ended code o held s h = record {
    part = elim (Bool-cases (str_eq code "CLIENT_DISCONNECT")) [
      | inl gone ↦ rw gone (held ++ arriving s, refl)
      | inr here ↦
          rw here
            (held ++ arriving s, rw (lines_of-append o.items (risk_error code ∷ []), append-nil))
    ];
    clean = λ e. absurd (h e);
  }

module _ (is_error is_terminal : Event → Bool) (accepts : ℕ → Bool) (status error_status : ℕ) where
  pub initial-Ended :
      (s : List Stimulus) (completed : Bool) (pending : List Event) (bytes : ℕ) (o : Out)
      (r : StreamResult)
      → initial is_error is_terminal accepts status error_status s completed pending bytes o
        ≡ some r
      → Ended (lines_of o.items) (flat pending) s r
  unfolding initial
  initial-Ended [] completed pending bytes o r e = cc
  initial-Ended (heartbeat ∷ s) completed pending bytes o r e =
      let (o', wrote) = write_lines accepts beat heartbeat_lines o in
      let same = write_lines-beat accepts heartbeat_lines o in
      of_Relayed _ (flat pending) (heartbeat ∷ s) r (elim (Bool-cases wrote) [
        | inl yields ↦ rw (← same) (
            flush_then-Relayed is_error is_terminal accepts status error_status s completed pending
              o' r (rw yields at e))
        | inr breaks ↦
            subst_some (Relayed _) (rw breaks at e)
              (disconnected-Relayed status o o' [] _ (rw same ([], refl)))
      ])
  initial-Ended (context_done cause ∷ s) completed pending bytes o r e =
      subst_some (Ended _ _ _) e (
        fail_before-Ended error_status _ o (flat pending) (context_done cause ∷ s)
          (classify-ne-empty cause))
  initial-Ended (closed ∷ s) completed pending bytes o r e =
      let (o', wrote) = write_events accepts pending o in
      let w = write_events-Wrote accepts pending o in
      of_Relayed _ (flat pending) (closed ∷ s) r (elim (Bool-cases wrote) [
        | inl yields ↦ subst_some (Relayed _) (rw yields at e) (record {
          part = ([], rw (append-nil, append-nil) (w.all yields));
          clean = λ _. rw append-nil (w.all yields);
        })
        | inr breaks ↦
            subst_some (Relayed _) (rw breaks at e)
              (disconnected-Relayed status o o' (flat pending) [] w.part)
      ])
  initial-Ended (end_of_file ∷ s) completed pending bytes o r e =
      subst_some (Ended _ _ _) e
        (record { part = (flat pending ++ [], refl); clean = λ _. inr (refl, refl) })
  initial-Ended (read_error cause ∷ s) completed pending bytes o r e = subst_some (Ended _ _ _) e (
      fail_before-Ended error_status _ o (flat pending) (read_error cause ∷ s)
        (classify-ne-empty cause))
  initial-Ended (event ev ∷ s) completed pending bytes o r e =
      let pending' = pending ++ ev ∷ [] in
      let completed' = completed || is_terminal ev in
      let bytes' = bytes + sse_event_size ev in
      let full = leb 16 (length pending') || leb (64 * 1024) bytes' in
      elim (Bool-cases (is_error ev)) [
        | inl bad ↦ subst_some (Ended _ _ _) (rw bad at e) (
            fail_before-Ended error_status "UPSTREAM_STREAM_ERROR" o (flat pending) (event ev ∷ s)
              (λ h. cc))
        | inr good ↦ elim (Bool-cases (is_meaningful_sse_event ev)) [
          | inl starts ↦ of_Relayed _ (flat pending) (event ev ∷ s) r (
              rw (← flat-snoc pending ev (arriving s)) (
                flush_then-Relayed is_error is_terminal accepts status error_status s completed'
                  pending' o r (rw (good, starts) at e)))
          | inr dull ↦ elim (Bool-cases full) [
            | inl starts ↦ of_Relayed _ (flat pending) (event ev ∷ s) r (
                rw (← flat-snoc pending ev (arriving s)) (
                  flush_then-Relayed is_error is_terminal accepts status error_status s completed'
                    pending' o r (rw (good, dull, starts) at e)))
            | inr waits ↦
                hold-Ended _ pending ev s r dull
                  (initial-Ended s completed' pending' bytes' o r (rw (good, dull, waits) at e))
          ]
        ]
      ]
