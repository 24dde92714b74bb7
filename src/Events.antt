-- ===== src/Events.antt =====
-- `EventSink` of internal/platform/kafka.go with the outbox of internal/platform/store_traces.go: a bounded queue, the worker
-- that writes batches to Kafka, and the worker that retries the outbox. What Kafka and the database answer is part of a step.
pub mod Conservation
pub mod Drain
pub mod Outbox
pub mod Progress
mod Tests
use newapi_risk_platform.Base.{
  ℕ, zero, suc, ◌+◌, ◌*◌, Bool, true, false, not, ◌&&◌, ◌||◌, String, List, [], ◌∷◌, ◌++◌, Option,
  none, some, ltb, leb, if◌then◌else◌, length, min,
}

pub record Event : Type 0 where
  pub key : String
  pub payload : String

-- A row of `outbox_events`, with times in seconds; its place in the table is its identifier.
pub record Row : Type 0 where
  pub event : Event
  pub published : Bool
  pub next_attempt_at : ℕ
  pub locked_until : Option ℕ
  pub attempts : ℕ

pub data Phase : Type 0 where
  working draining exited : Phase

-- The queue, the write worker, the topic as each worker has written it, the outbox, and the events in the log alone.
-- `repeated` are events of the topic that Kafka took from a batch whose write it reported as failed.
pub record Sink : Type 0 where
  pub queue : List Event
  pub phase : Phase
  pub batch : List Event
  pub written : List Event
  pub repeated : List Event
  pub relayed : List Event
  pub outbox : List Row
  pub logged : List Event

pub record Settings : Type 0 where
  pub enabled : Bool
  pub queue_size : ℕ

-- What Kafka answers to a batch, the events of a failed batch that it has taken all the same, and what the database answers
-- to each event.
pub record FlushReply : Type 0 where
  pub accepted : Bool
  pub taken : List Event → List Event
  pub stored : Event → Bool

-- What Kafka answers to an event of the outbox, and whether the database takes the mark.
pub record RelayReply : Type 0 where
  pub accepted : Bool
  pub marked : Bool

pub data Op : Type 0 where
  -- A trace as an event, or one that cannot be encoded, with the answer of the outbox.
  publish : Event → (encoded stored : Bool) → Op
  -- What the select of the write worker chose: an event of the queue, the timer, or the end of the context.
  receive tick : FlushReply → Op
  cancel : Op
  -- A round of the outbox worker at a time, with the answers for the rows that it claims.
  relay : (now : ℕ) → (claimed : Bool) → List RelayReply → Op

abbrev pub max_batch : ℕ
max_batch = 200

abbrev pub max_claims : ℕ
max_claims = 100

abbrev pub new_sink : Sink
new_sink = record {
  queue = [];
  phase = working;
  batch = [];
  written = [];
  repeated = [];
  relayed = [];
  outbox = [];
  logged = [];
}

abbrev pub new_row : Event → Row
new_row e = record {
  event = e;
  published = false;
  next_attempt_at = 0;
  locked_until = none;
  attempts = 0;
}

unfoldable pub enqueue_outbox : Bool → Event → Sink → Sink
enqueue_outbox true e s = record s { outbox = s.outbox ++ (new_row e ∷ []) }
enqueue_outbox false e s = record s { logged = s.logged ++ (e ∷ []) }

unfoldable pub enqueue_all : (Event → Bool) → List Event → Sink → Sink
enqueue_all stored [] s = s
enqueue_all stored (e ∷ es) s = enqueue_all stored es (enqueue_outbox (stored e) e s)

-- An event that cannot be encoded is in the log alone.
unfoldable pub publish_trace : Settings → Event → (encoded stored : Bool) → Sink → Sink
publish_trace cfg e encoded stored s =
    if not cfg.enabled
    then s
    else if not encoded
    then record s { logged = s.logged ++ (e ∷ []) }
    else if ltb (length s.queue) cfg.queue_size
    then record s { queue = s.queue ++ (e ∷ []) }
    else enqueue_outbox stored e s

abbrev pub deliver : FlushReply → List Event → Sink → Sink
deliver reply es s =
    if reply.accepted
    then record s { written = s.written ++ es }
    else enqueue_all reply.stored es (record s { repeated = s.repeated ++ reply.taken es })

unfoldable pub flush : FlushReply → Sink → Sink
flush reply s = deliver reply s.batch (record s { batch = [] })

unfoldable pub add_to_batch : FlushReply → Event → List Event → Sink → Sink
add_to_batch reply e rest s =
    let s' = record s { queue = rest; batch = s.batch ++ (e ∷ []) } in
    if leb max_batch (length s'.batch) then flush reply s' else s'

-- An empty queue ends a worker that is draining; one that is working waits.
unfoldable pub receive_in : FlushReply → Phase → List Event → Sink → Sink
receive_in reply exited queue s = s
receive_in reply working [] s = s
receive_in reply draining [] s = flush reply (record s { phase = exited })
receive_in reply working (e ∷ rest) s = add_to_batch reply e rest s
receive_in reply draining (e ∷ rest) s = add_to_batch reply e rest s

unfoldable pub tick_in : FlushReply → Phase → Sink → Sink
tick_in reply working s = flush reply s
tick_in reply _ s = s

unfoldable pub cancel_in : Phase → Sink → Sink
cancel_in working s = record s { phase = draining }
cancel_in _ s = s

abbrev expired : ℕ → Option ℕ → Bool
expired now none = true
expired now (some t) = ltb t now

unfoldable pub is_due : ℕ → Row → Bool
is_due now r = not r.published && leb r.next_attempt_at now && expired now r.locked_until

unfoldable pub claim_row : ℕ → Row → Row
claim_row now r = record r { locked_until = some (now + 30); attempts = r.attempts + 1 }

unfoldable pub mark_published : Row → Row
mark_published r = record r { published = true; locked_until = none }

-- The wait grows with the square of the attempts, to an hour at most.
unfoldable pub mark_failed : ℕ → Row → Row
mark_failed now r = record r {
  locked_until = none;
  next_attempt_at = now + min (r.attempts * r.attempts) 3600;
}

abbrev pub settle : ℕ → RelayReply → Row → Row
settle now reply r =
    if not reply.marked then r else if reply.accepted then mark_published r else mark_failed now r

abbrev pub sent : RelayReply → Row → List Event
sent reply r = if reply.accepted then r.event ∷ [] else []

-- A round over the table, a row that is due at a time: no other step touches a row that is claimed. The events that
-- were sent, and the rows.
unfoldable pub relay_rows : ℕ → (claims : ℕ) → List RelayReply → List Row → List Event × List Row
relay_rows now claims replies [] = ([], [])
relay_rows now zero replies rows = ([], rows)
relay_rows now (suc claims) [] rows = ([], rows)
relay_rows now (suc claims) (reply ∷ replies) (r ∷ rows) =
    let (es, rows1) = relay_rows now claims replies rows in
    let (fs, rows2) = relay_rows now (suc claims) (reply ∷ replies) rows in
    if is_due now r
    then (sent reply r ++ es, settle now reply (claim_row now r) ∷ rows1)
    else (fs, r ∷ rows2)

unfoldable pub relay_outbox : ℕ → Bool → List RelayReply → Sink → Sink
relay_outbox now false replies s = s
relay_outbox now true replies s =
    let (es, rows) = relay_rows now max_claims replies s.outbox in
    record s { relayed = s.relayed ++ es; outbox = rows }

unfoldable pub step : Settings → Op → Sink → Sink
step cfg (publish e encoded stored) s = publish_trace cfg e encoded stored s
step cfg (receive reply) s = receive_in reply s.phase s.queue s
step cfg (tick reply) s = tick_in reply s.phase s
step cfg cancel s = cancel_in s.phase s
step cfg (relay now claimed replies) s = relay_outbox now claimed replies s

unfoldable pub run : Settings → List Op → Sink → Sink
run cfg [] s = s
run cfg (op ∷ ops) s = run cfg ops (step cfg op s)
