-- ===== src/Events/Tests.antt =====
-- The event sink on a concrete run: one place in the queue, Kafka refuses the batch, and the outbox sends it later.
use newapi_risk_platform.Base.{
  ◌≡◌, ◌+◌, refl, Bool, true, false, List, [], ◌∷◌, str_eq, arith, length, count_if,
}
use newapi_risk_platform.Events.{
  Event, draining, Sink, Settings, FlushReply, Op, publish, receive, cancel, relay, new_sink, run,
  step, publish_trace, enqueue_outbox, enqueue_all, flush, add_to_batch, receive_in, cancel_in,
  relay_outbox, relay_rows, is_due, claim_row, mark_published, tick_in,
}
use newapi_risk_platform.Events.Conservation.{in_row, everywhere, submitted, everywhere-run}
use newapi_risk_platform.Events.Drain.{IsDone, receives, run-IsDone}
use newapi_risk_platform.Events.Outbox.{IsSent}
use newapi_risk_platform.Events.Progress.{Delivers, goods, run-IsDelivered}

abbrev settings : Settings
settings = record { enabled = true; queue_size = 1 }

abbrev event : Event
event = record { key = "r1"; payload = "p" }

abbrev is_r1 : Event → Bool
is_r1 e = str_eq e.key "r1"

abbrev refused : FlushReply
refused = record { accepted = false; taken = λ es. es; stored = λ e. true }

abbrev ops : List Op
ops =
    publish event true true
    ∷ publish event true true
    ∷ receive refused
    ∷ cancel
    ∷ receive refused
    ∷ relay 5 true (record { accepted = true; marked = true } ∷ [])
    ∷ []

everywhere-run_example :
    everywhere is_r1 (run settings ops new_sink) ≡ submitted is_r1 ops + everywhere is_r1 new_sink
everywhere-run_example = everywhere-run is_r1 settings ops new_sink refl

abbrev stopping : Sink
stopping = record new_sink { phase = draining; queue = event ∷ [] }

run-IsDone_example : IsDone (run settings (receives (refused ∷ refused ∷ [])) stopping)
run-IsDone_example = run-IsDone settings (refused ∷ refused ∷ []) stopping refl (omega arith)

new_sink-IsSent : IsSent is_r1 new_sink
unfolding IsSent count_if
new_sink-IsSent = omega arith

-- The second event waits in the outbox, and the batch was refused: two rows are due.
abbrev waiting : List Op
waiting =
    publish event true true
    ∷ publish event true true
    ∷ receive refused
    ∷ cancel
    ∷ receive refused
    ∷ []

run-IsDelivered_example :
    IsSent is_r1 (run settings waiting new_sink)
    × (count_if (in_row is_r1) (relay_outbox 5 true [] (run settings waiting new_sink)).outbox
        ≡ count_if (in_row is_r1) (run settings waiting new_sink).outbox)
    × Delivers is_r1 5
        (run settings waiting new_sink)
        (relay_outbox 5 true (goods 2) (run settings waiting new_sink))
unfolding run step publish_trace enqueue_outbox enqueue_all flush add_to_batch receive_in cancel_in
    is_due count_if
run-IsDelivered_example =
    run-IsDelivered is_r1 settings waiting new_sink 5 2 true [] new_sink-IsSent (omega arith)
      (omega arith)

relayed_once : length (run settings ops new_sink).relayed ≡ 1
unfolding run step publish_trace enqueue_outbox enqueue_all flush add_to_batch receive_in tick_in
    cancel_in relay_outbox relay_rows is_due claim_row mark_published
relayed_once = refl
