-- ===== src/Gateway/Stream/Laws.antt =====
-- What the relay of an event stream guarantees to the client, and one thing that it loses.
use newapi_risk_platform.Base.{
  ℕ, ◌+◌, ◌*◌, ◌≡◌, ◌<◌, refl, ◌⊎◌, Bool, true, false, ◌||◌, List, [], ◌∷◌, ◌++◌, some, arith,
  length, length-append, All,
}
use newapi_risk_platform.Gateway.Stream.{
  Event, Stimulus, end_of_file, event, Out, StreamResult, initial, proxy_sse, silent, ended,
  is_meaningful_sse_event, sse_event_size,
}
use newapi_risk_platform.Gateway.Stream.Order.{lines_of, arriving, IsPrefix}
use newapi_risk_platform.Gateway.Stream.Outcome.{is_quiet, initial-Ended}
use newapi_risk_platform.Gateway.Stream.Answer.{Answered, initial-Answered}

abbrev pub arrive : List Event → List Stimulus → List Stimulus
arrive [] s = s
arrive (e ∷ events) s = event e ∷ arrive events s

abbrev pub total_size : List Event → ℕ
total_size [] = 0
total_size (e ∷ events) = sse_event_size e + total_size events

module _ (is_error is_terminal : Event → Bool) (accepts : ℕ → Bool) (status error_status : ℕ) where
  -- An event that neither reports an error nor holds data or a name.
  abbrev pub IsDull : Event → Type 0
  IsDull e = (is_error e ≡ false) × (is_meaningful_sse_event e ≡ false)

  -- However the stream ends, the upstream's lines that the client was sent are a prefix of those
  -- that arrived.
  proxy_sse_prefix :
      (s : List Stimulus) (r : StreamResult)
      → proxy_sse is_error is_terminal accepts status error_status s ≡ some r
      → IsPrefix (lines_of r.out.items) (arriving s)
  unfolding proxy_sse
  proxy_sse_prefix s r e =
      (initial-Ended is_error is_terminal accepts status error_status s false [] 0 silent r e).part

  -- After an end without an error all lines that arrived have been sent, or none have and no event
  -- with data or a name had arrived.
  pub proxy_sse_clean :
      (s : List Stimulus) (r : StreamResult)
      → proxy_sse is_error is_terminal accepts status error_status s ≡ some r
      → r.risk_code ≡ ""
      → (lines_of r.out.items ≡ arriving s) ⊎ ((lines_of r.out.items ≡ []) × (is_quiet s ≡ true))
  unfolding proxy_sse
  proxy_sse_clean s r e h =
      (initial-Ended is_error is_terminal accepts status error_status s false [] 0 silent r e).clean
        h

  -- A stream that has started keeps the upstream's status, and a failure other than the client's
  -- disconnection is the error event that ends it. One that has not started has the error status,
  -- and the error body is all that is sent, unless the client has gone, and then nothing is.
  pub proxy_sse-Answered :
      (s : List Stimulus) (r : StreamResult)
      → proxy_sse is_error is_terminal accepts status error_status s ≡ some r
      → Answered status error_status r
  unfolding proxy_sse
  proxy_sse-Answered s r e =
      initial-Answered is_error is_terminal accepts status error_status s false [] 0 silent r refl e

  initial_drops :
      (events : List Event) (completed : Bool) (pending : List Event) (bytes : ℕ) (o : Out)
      → All IsDull events
      → length pending + length events < 16
      → bytes + total_size events < 64 * 1024
      → initial is_error is_terminal accepts status error_status
          (arrive events (end_of_file ∷ []))
          completed
          pending
          bytes
          o
        ≡ some (ended status o)
  unfolding initial
  initial_drops [] completed pending bytes o dull few small = refl
  initial_drops (e ∷ events) completed pending bytes o ((quiet, plain), dull) few small = ground (
    arith,
    length-append pending (e ∷ []),
    initial_drops events (completed || is_terminal e) (pending ++ e ∷ []) (bytes + sse_event_size e)
        o dull,
  )

  -- Fewer than sixteen events of less than 64 KiB in all, with neither data nor a name nor an
  -- error, are dropped where the upstream then ends the stream: nothing is sent but the headers.
  quiet_stream_dropped :
      (events : List Event)
      → All IsDull events
      → length events < 16
      → total_size events < 64 * 1024
      → proxy_sse is_error is_terminal accepts status error_status
          (arrive events (end_of_file ∷ []))
        ≡ some (ended status silent)
  unfolding proxy_sse
  quiet_stream_dropped events dull few small =
      initial_drops events false [] 0 silent dull (omega arith) (omega arith)
