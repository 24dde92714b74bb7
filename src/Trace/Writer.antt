-- ===== src/Trace/Writer.antt =====
-- `TraceWriter` of internal/platform/trace_writer.go: a bounded queue, the workers that batch it, and where a trace ends up,
-- with `InsertTraceBatch` of store_traces.go and the dead-letter streams that `PushDLQ` of redis.go writes.
pub mod Conservation
pub mod Dropped
pub mod Skipped
mod Tests
use newapi_risk_platform.Base.{
  ℕ, zero, suc, ◌+◌, Bool, true, false, String, List, [], ◌∷◌, ◌++◌, ltb, leb, ◌==◌, if◌then◌else◌,
  length, str_eq, take, drop, Option, none, some, ◌||◌,
}

-- A trace: its identifier, that of the event of a tracking client (empty for the gateway's own), its time (0 is the zero
-- time), and the rest as a text.
pub record TraceEvent : Type 0 where
  pub request_id : String
  pub external_event_id : String
  pub created_at : ℕ
  pub payload : String

-- What the database and Redis answer to one flush: whether the transaction commits, and for each trace whether a
-- dead-letter stream takes it and then how many of the oldest entries the stream is trimmed by.
pub record FlushReply : Type 0 where
  pub inserted : Bool
  pub pushed : TraceEvent → Option ℕ

-- Where traces end up: in the database, skipped by it as known, at the event sink, in the two dead-letter streams or trimmed
-- off them, or in the log alone. `known` are the rows of `request_dedupe`.
pub record Sinks : Type 0 where
  pub inserted : List TraceEvent
  pub skipped : List TraceEvent
  pub known : List String
  pub published : List TraceEvent
  pub overflow_letters : List TraceEvent
  pub overflow_trimmed : List TraceEvent
  pub postgres_letters : List TraceEvent
  pub postgres_trimmed : List TraceEvent
  pub logged : List TraceEvent
  pub dropped : ℕ

pub data Phase : Type 0 where
  working draining exited : Phase

pub record Worker : Type 0 where
  pub phase : Phase
  pub batch : List TraceEvent

pub record Writer : Type 0 where
  pub queue : List TraceEvent
  pub workers : List Worker
  pub sinks : Sinks

pub record Settings : Type 0 where
  pub queue_size : ℕ
  pub batch_size : ℕ
  pub has_events : Bool

pub data Op : Type 0 where
  -- A submission, with the identifier and the time that fill its gaps and the reply of the dead-letter stream.
  submit : TraceEvent → (fresh : String) → (now : ℕ) → (pushed : Option ℕ) → Op
  -- What the select of a worker chose: an event of the queue, the timer, or the end of the context.
  receive tick cancel : ℕ → FlushReply → Op
  -- The maintenance deletes the identifiers that have expired.
  expire : (is_kept : String → Bool) → Op

abbrev start_worker : Worker
start_worker = record { phase = working; batch = [] }

abbrev no_sinks : Sinks
no_sinks = record {
  inserted = [];
  skipped = [];
  known = [];
  published = [];
  overflow_letters = [];
  overflow_trimmed = [];
  postgres_letters = [];
  postgres_trimmed = [];
  logged = [];
  dropped = 0;
}

-- Four workers.
unfoldable pub start : Writer
start = record {
  queue = [];
  workers = start_worker ∷ start_worker ∷ start_worker ∷ start_worker ∷ [];
  sinks = no_sinks;
}

unfoldable pub complete : TraceEvent → String → ℕ → TraceEvent
complete event fresh now = record {
  request_id = if str_eq event.request_id "" then fresh else event.request_id;
  external_event_id = event.external_event_id;
  created_at = if event.created_at == 0 then now else event.created_at;
  payload = event.payload;
}

-- `XADD` with a maximal length: the entry is added, and the oldest ones are trimmed.
abbrev pub push_letter : TraceEvent → (trimmed : ℕ) → List TraceEvent → List TraceEvent
push_letter e n letters = drop n (letters ++ (e ∷ []))

abbrev pub trim_letters :
    TraceEvent → (trimmed : ℕ) → (letters gone : List TraceEvent) → List TraceEvent
trim_letters e n letters gone = gone ++ take n (letters ++ (e ∷ []))

unfoldable pub overflow : TraceEvent → Option ℕ → Sinks → Sinks
overflow event (some n) k = record k {
  overflow_letters = push_letter event n k.overflow_letters;
  overflow_trimmed = trim_letters event n k.overflow_letters k.overflow_trimmed;
  dropped = k.dropped + 1;
}
overflow event none k = record k { logged = k.logged ++ (event ∷ []); dropped = k.dropped + 1 }

-- The submission and its answer: whether the queue took the trace.
unfoldable pub submit_event : Settings → TraceEvent → Option ℕ → Writer → Bool × Writer
submit_event cfg event pushed w =
    if ltb (length w.queue) cfg.queue_size
    then (true, record w { queue = w.queue ++ (event ∷ []) })
    else (false, record w { sinks = overflow event pushed w.sinks })

abbrev pub dead_letter_one : Option ℕ → TraceEvent → Sinks → Sinks
dead_letter_one (some n) e k = record k {
  postgres_letters = push_letter e n k.postgres_letters;
  postgres_trimmed = trim_letters e n k.postgres_letters k.postgres_trimmed;
}
dead_letter_one none e k = record k { logged = k.logged ++ (e ∷ []); dropped = k.dropped + 1 }

unfoldable pub dead_letter : (TraceEvent → Option ℕ) → List TraceEvent → Sinks → Sinks
dead_letter pushed [] k = k
dead_letter pushed (e ∷ es) k = dead_letter pushed es (dead_letter_one (pushed e) e k)

abbrev pub is_known : String → List String → Bool
is_known id [] = false
is_known id (x ∷ xs) = str_eq x id || is_known id xs

-- A trace with an external identifier is inserted only if the identifier is new.
unfoldable pub insert_trace : TraceEvent → Sinks → Sinks
insert_trace e k =
    if str_eq e.external_event_id ""
    then record k { inserted = k.inserted ++ (e ∷ []) }
    else if is_known e.external_event_id k.known
    then record k { skipped = k.skipped ++ (e ∷ []) }
    else record k { inserted = k.inserted ++ (e ∷ []); known = e.external_event_id ∷ k.known }

unfoldable pub insert_trace_batch : List TraceEvent → Sinks → Sinks
insert_trace_batch [] k = k
insert_trace_batch (e ∷ es) k = insert_trace_batch es (insert_trace e k)

abbrev pub publish_all : Bool → List TraceEvent → Sinks → Sinks
publish_all has_events es k = record k {
  published = if has_events then k.published ++ es else k.published;
}

unfoldable pub flush : Settings → FlushReply → List TraceEvent → Sinks → Sinks
flush cfg reply [] k = k
flush cfg reply (e ∷ es) k =
    if reply.inserted
    then publish_all cfg.has_events (e ∷ es) (insert_trace_batch (e ∷ es) k)
    else dead_letter reply.pushed (e ∷ es) k

abbrev pub kept_ids : (String → Bool) → List String → List String
kept_ids f [] = []
kept_ids f (x ∷ xs) = if f x then x ∷ kept_ids f xs else kept_ids f xs

-- What a worker shares with the others.
pub record Shared : Type 0 where
  pub queue : List TraceEvent
  pub sinks : Sinks

-- An event is appended to the batch, and the batch flushed when it is full.
unfoldable pub add_to_batch : Settings → FlushReply → TraceEvent → Worker → Sinks → Worker × Sinks
add_to_batch cfg reply e w k =
    let batch = w.batch ++ (e ∷ []) in
    if leb cfg.batch_size (length batch)
    then (record w { batch = [] }, flush cfg reply batch k)
    else (record w { batch = batch }, k)

-- A drained queue ends a worker that is draining; one that is working waits.
unfoldable pub receive_in :
    Settings → FlushReply → Phase → List TraceEvent → Worker → Sinks → Worker × Shared
receive_in cfg reply exited queue w k = (w, record { queue = queue; sinks = k })
receive_in cfg reply working [] w k = (w, record { queue = []; sinks = k })
receive_in cfg reply draining [] w k = (
  record { phase = exited; batch = [] },
  record { queue = []; sinks = flush cfg reply w.batch k },
)
receive_in cfg reply working (e ∷ rest) w k =
    let (w', k') = add_to_batch cfg reply e w k in (w', record { queue = rest; sinks = k' })
receive_in cfg reply draining (e ∷ rest) w k =
    let (w', k') = add_to_batch cfg reply e w k in (w', record { queue = rest; sinks = k' })

unfoldable pub receive_event : Settings → FlushReply → Worker → Shared → Worker × Shared
receive_event cfg reply w s = receive_in cfg reply w.phase s.queue w s.sinks

-- Only a worker that is working reads the timer and the context.
unfoldable pub tick_in : Settings → FlushReply → Phase → Worker → Shared → Worker × Shared
tick_in cfg reply working w s =
    (record w { batch = [] }, record s { sinks = flush cfg reply w.batch s.sinks })
tick_in cfg reply _ w s = (w, s)

unfoldable pub tick_worker : Settings → FlushReply → Worker → Shared → Worker × Shared
tick_worker cfg reply w s = tick_in cfg reply w.phase w s

unfoldable pub cancel_in : Phase → Worker → Shared → Worker × Shared
cancel_in working w s = (record w { phase = draining }, s)
cancel_in _ w s = (w, s)

unfoldable pub cancel_worker : Worker → Shared → Worker × Shared
cancel_worker w s = cancel_in w.phase w s

unfoldable pub at_worker :
    (Worker → Shared → Worker × Shared) → ℕ → List Worker → Shared → List Worker × Shared
at_worker f i [] s = ([], s)
at_worker f zero (w ∷ ws) s = let (w', s') = f w s in (w' ∷ ws, s')
at_worker f (suc i) (w ∷ ws) s = let (ws', s') = at_worker f i ws s in (w ∷ ws', s')

unfoldable pub on_worker : (Worker → Shared → Worker × Shared) → ℕ → Writer → Writer
on_worker f i w =
    let (ws, s) = at_worker f i w.workers (record { queue = w.queue; sinks = w.sinks }) in
    record { queue = s.queue; workers = ws; sinks = s.sinks }

unfoldable pub step : Settings → Op → Writer → Writer
step cfg (submit e fresh now pushed) w = (submit_event cfg (complete e fresh now) pushed w).1
step cfg (receive i reply) w = on_worker (receive_event cfg reply) i w
step cfg (tick i reply) w = on_worker (tick_worker cfg reply) i w
step cfg (cancel i reply) w = on_worker cancel_worker i w
step cfg (expire is_kept) w = record w {
  sinks = record w.sinks { known = kept_ids is_kept w.sinks.known };
}

unfoldable pub run : Settings → List Op → Writer → Writer
run cfg [] w = w
run cfg (op ∷ ops) w = run cfg ops (step cfg op w)
