-- ===== src/Trace/Writer/Dropped.antt =====
-- The counter of dropped traces, and the bound of the queue.
use newapi_risk_platform.Base.{
  ℕ, zero, suc, ◌+◌, ◌≡◌, refl, ap, Option, none, some, if_holds, str_eq, take, drop, take-drop,
  List, [], ◌∷◌, ◌++◌, arith, length, ◌≤◌, length-append,
}
use newapi_risk_platform.Trace.Writer.{
  TraceEvent, FlushReply, Sinks, Phase, working, draining, exited, Worker, Writer, Settings, Op,
  submit, receive, tick, cancel, expire, complete, overflow, submit_event, push_letter,
  trim_letters, dead_letter_one, dead_letter, is_known, insert_trace, insert_trace_batch,
  publish_all, flush, Shared, add_to_batch, receive_in, tick_in, cancel_in, receive_event,
  tick_worker, cancel_worker, at_worker, on_worker, step, run, start,
}

-- The counter is the number of traces that the full queue refused or that no database or stream took.
abbrev IsCounted : Sinks → Type 0
IsCounted k = k.dropped ≡ length k.overflow_letters + length k.overflow_trimmed + length k.logged

length-push_letter :
    (e : TraceEvent) (n : ℕ) (letters gone : List TraceEvent)
    → length (push_letter e n letters) + length (trim_letters e n letters gone)
      ≡ 1 + (length letters + length gone)
length-push_letter e n letters gone =
    let all = letters ++ (e ∷ []) in
    let parts : length all ≡ length (take n all ++ drop n all) = ap length (take-drop n all) in
    omega (
      arith,
      parts,
      length-append (take n all) (drop n all),
      length-append gone (take n all),
      length-append letters (e ∷ []),
    )

dead_letter_one-IsCounted :
    (pushed : Option ℕ) (e : TraceEvent) (k : Sinks)
    → IsCounted k
    → IsCounted (dead_letter_one pushed e k)
dead_letter_one-IsCounted (some n) e k c = c
dead_letter_one-IsCounted none e k c = omega (arith, c, length-append k.logged (e ∷ []))

dead_letter-IsCounted :
    (pushed : TraceEvent → Option ℕ) (es : List TraceEvent) (k : Sinks)
    → IsCounted k
    → IsCounted (dead_letter pushed es k)
unfolding dead_letter
dead_letter-IsCounted pushed [] k c = c
dead_letter-IsCounted pushed (e ∷ es) k c =
    dead_letter-IsCounted pushed es _ (dead_letter_one-IsCounted (pushed e) e k c)

insert_trace-IsCounted : (e : TraceEvent) (k : Sinks) → IsCounted k → IsCounted (insert_trace e k)
unfolding insert_trace
insert_trace-IsCounted e k c =
    if_holds IsCounted (str_eq e.external_event_id "") (λ _. c)
      (λ _. if_holds IsCounted (is_known e.external_event_id k.known) (λ _. c) (λ _. c))

insert_trace_batch-IsCounted :
    (es : List TraceEvent) (k : Sinks) → IsCounted k → IsCounted (insert_trace_batch es k)
unfolding insert_trace_batch
insert_trace_batch-IsCounted [] k c = c
insert_trace_batch-IsCounted (e ∷ es) k c =
    insert_trace_batch-IsCounted es _ (insert_trace-IsCounted e k c)

flush-IsCounted :
    (cfg : Settings) (reply : FlushReply) (es : List TraceEvent) (k : Sinks)
    → IsCounted k
    → IsCounted (flush cfg reply es k)
unfolding flush
flush-IsCounted cfg reply [] k c = c
flush-IsCounted cfg reply (e ∷ es) k c =
    if_holds IsCounted reply.inserted
      {x = publish_all cfg.has_events (e ∷ es) (insert_trace_batch (e ∷ es) k)}
      {y = dead_letter reply.pushed (e ∷ es) k} (λ _. insert_trace_batch-IsCounted (e ∷ es) k c)
      (λ _. dead_letter-IsCounted reply.pushed (e ∷ es) k c)

-- What a worker may do with what it shares: the counter stays right, and the queue does not grow.
abbrev IsTame : ℕ → Shared → Type 0
IsTame most s = IsCounted s.sinks × (length s.queue ≤ most)

receive_in-IsTame :
    (cfg : Settings) (reply : FlushReply) (phase : Phase) (q : List TraceEvent) (w : Worker)
    (k : Sinks)
    → IsTame cfg.queue_size (record { queue = q; sinks = k })
    → IsTame cfg.queue_size (receive_in cfg reply phase q w k).1
unfolding receive_in add_to_batch
receive_in-IsTame cfg reply exited q w k c = c
receive_in-IsTame cfg reply working [] w k c = c
receive_in-IsTame cfg reply draining [] w k c = (flush-IsCounted cfg reply w.batch k c.0, c.1)
receive_in-IsTame cfg reply working (e ∷ q) w k c =
    ground (arith, flush-IsCounted cfg reply (w.batch ++ (e ∷ [])) k c.0)
receive_in-IsTame cfg reply draining (e ∷ q) w k c =
    ground (arith, flush-IsCounted cfg reply (w.batch ++ (e ∷ [])) k c.0)

tick_in-IsTame :
    (cfg : Settings) (reply : FlushReply) (phase : Phase) (w : Worker) (s : Shared)
    → IsTame cfg.queue_size s
    → IsTame cfg.queue_size (tick_in cfg reply phase w s).1
unfolding tick_in
tick_in-IsTame cfg reply working w s c = (flush-IsCounted cfg reply w.batch s.sinks c.0, c.1)
tick_in-IsTame cfg reply draining w s c = c
tick_in-IsTame cfg reply exited w s c = c

cancel_in-IsTame :
    (most : ℕ) (phase : Phase) (w : Worker) (s : Shared)
    → IsTame most s
    → IsTame most (cancel_in phase w s).1
unfolding cancel_in
cancel_in-IsTame most working w s c = c
cancel_in-IsTame most draining w s c = c
cancel_in-IsTame most exited w s c = c

at_worker-IsTame :
    (most : ℕ) (f : Worker → Shared → Worker × Shared)
    → ((w : Worker) (s : Shared) → IsTame most s → IsTame most (f w s).1)
    → (i : ℕ) (ws : List Worker) (s : Shared) → IsTame most s
    → IsTame most (at_worker f i ws s).1
unfolding at_worker
at_worker-IsTame most f keeps i [] s c = c
at_worker-IsTame most f keeps zero (w ∷ ws) s c = keeps w s c
at_worker-IsTame most f keeps (suc i) (w ∷ ws) s c = at_worker-IsTame most f keeps i ws s c

abbrev pub IsBounded : Settings → Writer → Type 0
IsBounded cfg w =
    (w.sinks.dropped
      ≡ length w.sinks.overflow_letters + length w.sinks.overflow_trimmed + length w.sinks.logged)
    × (length w.queue ≤ cfg.queue_size)

submit_event-IsBounded :
    (cfg : Settings) (e : TraceEvent) (pushed : Option ℕ) (w : Writer)
    → IsBounded cfg w
    → IsBounded cfg (submit_event cfg e pushed w).1
unfolding submit_event overflow
submit_event-IsBounded cfg e (some n) w c = ground (
  arith,
  length-append w.queue (e ∷ []),
  length-push_letter e n w.sinks.overflow_letters w.sinks.overflow_trimmed,
)
submit_event-IsBounded cfg e none w c =
    ground (arith, length-append w.queue (e ∷ []), length-append w.sinks.logged (e ∷ []))

step-IsBounded :
    (cfg : Settings) (op : Op) (w : Writer) → IsBounded cfg w → IsBounded cfg (step cfg op w)
unfolding step on_worker receive_event tick_worker cancel_worker
step-IsBounded cfg (submit e fresh now pushed) w c =
    submit_event-IsBounded cfg (complete e fresh now) pushed w c
step-IsBounded cfg (receive i reply) w c =
    at_worker-IsTame cfg.queue_size (receive_event cfg reply)
      (λ v s t. receive_in-IsTame cfg reply v.phase s.queue v s.sinks t) i w.workers
      (record { queue = w.queue; sinks = w.sinks }) c
step-IsBounded cfg (tick i reply) w c =
    at_worker-IsTame cfg.queue_size (tick_worker cfg reply)
      (λ v s t. tick_in-IsTame cfg reply v.phase v s t) i w.workers
      (record { queue = w.queue; sinks = w.sinks }) c
step-IsBounded cfg (cancel i reply) w c =
    at_worker-IsTame cfg.queue_size cancel_worker
      (λ v s t. cancel_in-IsTame cfg.queue_size v.phase v s t) i w.workers
      (record { queue = w.queue; sinks = w.sinks }) c
step-IsBounded cfg (expire is_kept) w c = c

run-IsBounded_from :
    (cfg : Settings) (ops : List Op) (w : Writer) → IsBounded cfg w → IsBounded cfg (run cfg ops w)
unfolding run
run-IsBounded_from cfg [] w c = c
run-IsBounded_from cfg (op ∷ ops) w c =
    run-IsBounded_from cfg ops (step cfg op w) (step-IsBounded cfg op w c)

-- After any sequence of submissions, of steps of the workers and of deletions of expired identifiers the queue holds no more
-- traces than its size, and the counter of dropped traces is the number of those that the overflow stream took, whether it
-- still has them or Redis has trimmed them off, and of those that only the log has.
pub run-IsBounded : (cfg : Settings) (ops : List Op) → IsBounded cfg (run cfg ops start)
unfolding start
run-IsBounded cfg ops = run-IsBounded_from cfg ops start (refl, omega arith)
