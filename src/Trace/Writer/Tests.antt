-- ===== src/Trace/Writer/Tests.antt =====
-- The writer on concrete sequences.
use newapi_risk_platform.Base.{
  ◌≡◌, refl, Bool, true, false, String, List, [], ◌∷◌, str_eq, none, some, if◌then◌else◌,
}
use newapi_risk_platform.Trace.Writer.{
  TraceEvent, FlushReply, Settings, Op, submit, receive, tick, cancel, expire, run, start, step,
  submit_event, complete, on_worker, at_worker, receive_event, receive_in, add_to_batch, flush,
  insert_trace_batch, insert_trace,
}
use newapi_risk_platform.Trace.Writer.Conservation.{everywhere, submitted, traces_conserved}
use newapi_risk_platform.Trace.Writer.Dropped.{IsBounded, run-IsBounded}
use newapi_risk_platform.Trace.Writer.Skipped.{AreDuplicates, run-AreDuplicates}

abbrev small : Settings
small = record { queue_size = 2; batch_size = 2; has_events = true }

abbrev trace_of : String → TraceEvent
trace_of id = record {
  request_id = id;
  external_event_id = if str_eq id "c" then "x1" else "";
  created_at = 0;
  payload = "{}";
}

abbrev reply_of : Bool → FlushReply
reply_of ok = record {
  inserted = ok;
  pushed = λ e. if str_eq e.request_id "b" then some 0 else none;
}

-- A full queue, a batch that is inserted, one that fails, and a drained shutdown.
abbrev busy_day : List Op
busy_day =
    submit (trace_of "a") "n" 1 (some 1)
    ∷ submit (trace_of "") "b" 2 (some 1)
    ∷ submit (trace_of "c") "n" 3 (some 1)
    ∷ receive 0 (reply_of false)
    ∷ receive 0 (reply_of false)
    ∷ submit (trace_of "d") "n" 4 none
    ∷ receive 1 (reply_of true)
    ∷ cancel 1 (reply_of true)
    ∷ receive 1 (reply_of true)
    ∷ submit (trace_of "e") "n" 5 (some 1)
    ∷ expire (λ id. false)
    ∷ tick 2 (reply_of true)
    ∷ []

abbrev is_a : TraceEvent → Bool
is_a e = str_eq e.request_id "a"

traces_conserved_example : everywhere is_a (run small busy_day start) ≡ submitted is_a busy_day
traces_conserved_example = traces_conserved is_a small busy_day

run-IsBounded_example : IsBounded small (run small busy_day start)
run-IsBounded_example = run-IsBounded small busy_day

-- The same external identifier twice.
abbrev repeated : List Op
repeated =
    submit (trace_of "c") "n" 1 none
    ∷ submit (trace_of "c") "n" 2 none
    ∷ receive 0 (reply_of true)
    ∷ receive 0 (reply_of true)
    ∷ []

skips_one : (run small repeated start).sinks.skipped ≡ record (trace_of "c") { created_at = 2 } ∷ []
unfolding run step submit_event complete on_worker at_worker receive_event receive_in add_to_batch
    flush insert_trace_batch insert_trace start
skips_one = refl

run-AreDuplicates_example :
    AreDuplicates (run small repeated start).sinks.inserted (run small repeated start).sinks.skipped
run-AreDuplicates_example = run-AreDuplicates small repeated
