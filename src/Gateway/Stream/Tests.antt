-- ===== src/Gateway/Stream/Tests.antt =====
-- Streams on concrete events, and the theorems there.
use newapi_risk_platform.Base.{ℕ, ◌≡◌, refl, ◌⊎◌, Bool, true, false, List, [], ◌∷◌, some}
use newapi_risk_platform.Gateway.Stream.{
  Event, StreamCause, Stimulus, end_of_file, read_error, event, line, logical_error, Out,
  StreamResult, write_lines, write_events, fail_before, fail_within, streaming, flush_then, initial,
  proxy_sse, silent, ended, is_meaningful_sse_event, sse_event_size, classify_read_error,
}
use newapi_risk_platform.Gateway.Stream.Order.{lines_of, arriving}
use newapi_risk_platform.Gateway.Stream.Outcome.{is_quiet}
use newapi_risk_platform.Gateway.Stream.Answer.{Answered}
use newapi_risk_platform.Gateway.Stream.Laws.{proxy_sse_clean, proxy_sse-Answered}

relay : Unit {0}
unfolding write_lines write_events fail_before fail_within streaming flush_then initial proxy_sse
    is_meaningful_sse_event sse_event_size classify_read_error
relay = tt

abbrev never : Event → Bool
never e = false

abbrev always : ℕ → Bool
always n = true

-- "data:" and the empty line that ends the event.
abbrev chunk : Event
chunk = (b'd' ∷ b'a' ∷ b't' ∷ b'a' ∷ b':' ∷ []) ∷ [] ∷ []

-- "id" and the empty line.
abbrev id_only : Event
id_only = (b'i' ∷ b'd' ∷ []) ∷ [] ∷ []

abbrev whole : List Stimulus
whole = event id_only ∷ event chunk ∷ end_of_file ∷ []

abbrev sent : Out
sent = record {
  committed = true;
  count = 4;
  items =
      line (b'i' ∷ b'd' ∷ [])
      ∷ line []
      ∷ line (b'd' ∷ b'a' ∷ b't' ∷ b'a' ∷ b':' ∷ [])
      ∷ line []
      ∷ [];
}

abbrev relayed : StreamResult
relayed = record { out = sent; risk_code = ""; status = 200; stream_committed = true }

whole_is_relayed : proxy_sse never never always 200 555 whole ≡ some relayed
unfolding relay
whole_is_relayed = refl

interrupted :
    proxy_sse never never always 200 555 (event chunk ∷ read_error StreamCause.unknown ∷ [])
    ≡ some (record {
      out = record {
        committed = true;
        count = 2;
        items =
            line (b'd' ∷ b'a' ∷ b't' ∷ b'a' ∷ b':' ∷ [])
            ∷ line []
            ∷ logical_error "UPSTREAM_STREAM_INTERRUPTED"
            ∷ [];
      };
      risk_code = "UPSTREAM_STREAM_INTERRUPTED";
      status = 200;
      stream_committed = true;
    })
unfolding relay
interrupted = refl

proxy_sse_clean_example :
    (lines_of sent.items ≡ arriving whole) ⊎ ((lines_of sent.items ≡ []) × (is_quiet whole ≡ true))
proxy_sse_clean_example =
    proxy_sse_clean never never always 200 555 whole relayed whole_is_relayed refl

proxy_sse-Answered_example : Answered 200 555 relayed
proxy_sse-Answered_example =
    proxy_sse-Answered never never always 200 555 whole relayed whole_is_relayed

quiet_stream_is_empty :
    proxy_sse never never always 200 555 (event id_only ∷ end_of_file ∷ [])
    ≡ some (ended 200 silent)
unfolding proxy_sse initial is_meaningful_sse_event sse_event_size
quiet_stream_is_empty = refl
