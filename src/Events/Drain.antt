-- ===== src/Events/Drain.antt =====
-- The end of the write worker.
use newapi_risk_platform.Base.{
  ◌≡◌, ◌<◌, refl, sym, ◌∙◌, Bool, true, false, List, [], ◌∷◌, ◌++◌, if_holds, arith, length, leb,
  subst,
}
use newapi_risk_platform.Events.{
  Event, Phase, draining, exited, Sink, Settings, FlushReply, Op, receive, enqueue_outbox,
  enqueue_all, flush, add_to_batch, receive_in, step, run,
}

-- The queue, the phase and the batch that a step leaves.
abbrev Leaves : List Event → Phase → List Event → Sink → Type 0
Leaves q phase batch s = (s.queue ≡ q) × (s.phase ≡ phase) × (s.batch ≡ batch)

enqueue_outbox-Leaves :
    (stored : Bool) (e : Event) (s : Sink)
    → Leaves s.queue s.phase s.batch (enqueue_outbox stored e s)
unfolding enqueue_outbox
enqueue_outbox-Leaves true e s = (refl, refl, refl)
enqueue_outbox-Leaves false e s = (refl, refl, refl)

enqueue_all-Leaves :
    (stored : Event → Bool) (es : List Event) (s : Sink)
    → Leaves s.queue s.phase s.batch (enqueue_all stored es s)
unfolding enqueue_all
enqueue_all-Leaves stored [] s = (refl, refl, refl)
enqueue_all-Leaves stored (e ∷ es) s =
    let first = enqueue_outbox-Leaves (stored e) e s in
    let rest = enqueue_all-Leaves stored es (enqueue_outbox (stored e) e s) in
    (rest.0 ∙ first.0, rest.1 ∙ first.1, rest.2 ∙ first.2)

flush-Leaves : (reply : FlushReply) (s : Sink) → Leaves s.queue s.phase [] (flush reply s)
unfolding flush
flush-Leaves reply s =
    let s' : Sink = record s { batch = [] } in
    if_holds (Leaves s.queue s.phase []) reply.accepted
      {x = record s' { written = s.written ++ s.batch }}
      {y = enqueue_all reply.stored s.batch
        (record s' { repeated = s.repeated ++ reply.taken s.batch })}
      (λ _. (refl, refl, refl))
      (λ _.
        enqueue_all-Leaves reply.stored s.batch
          (record s' { repeated = s.repeated ++ reply.taken s.batch }))

-- What a receipt takes off the queue.
abbrev IsTaken : List Event → Phase → Sink → Type 0
IsTaken q phase s = (s.queue ≡ q) × (s.phase ≡ phase)

add_to_batch-IsTaken :
    (reply : FlushReply) (e : Event) (rest : List Event) (s : Sink)
    → IsTaken rest s.phase (add_to_batch reply e rest s)
unfolding add_to_batch
add_to_batch-IsTaken reply e rest s =
    let s' : Sink = record s { queue = rest; batch = s.batch ++ (e ∷ []) } in
    if_holds (IsTaken rest s.phase) (leb 200 (length s'.batch)) {x = flush reply s'} {y = s'}
      (λ _. ((flush-Leaves reply s').0, (flush-Leaves reply s').1)) (λ _. (refl, refl))

-- The worker has exited with an empty batch and an empty queue.
abbrev pub IsDone : Sink → Type 0
IsDone s = (s.phase ≡ exited) × (s.queue ≡ []) × (s.batch ≡ [])

abbrev pub receives : List FlushReply → List Op
receives [] = []
receives (reply ∷ replies) = receive reply ∷ receives replies

receive_in-exited :
    (reply : FlushReply) (phase : Phase) (q : List Event) (s : Sink)
    → phase ≡ exited
    → receive_in reply phase q s ≡ s
unfolding receive_in
receive_in-exited reply phase q s e = rw e refl

run-exited :
    (cfg : Settings) (replies : List FlushReply) (s : Sink)
    → IsDone s
    → IsDone (run cfg (receives replies) s)
unfolding run step
run-exited cfg [] s h = h
run-exited cfg (reply ∷ replies) s h =
    run-exited cfg replies _ (subst IsDone (sym (receive_in-exited reply s.phase s.queue s h.0)) h)

receive_in-last :
    (reply : FlushReply) (phase : Phase) (q : List Event) (s : Sink)
    → phase ≡ draining
    → q ≡ []
    → receive_in reply phase q s ≡ flush reply (record s { phase = exited })
unfolding receive_in
receive_in-last reply phase q s d e = rw (d, e) refl

receive_in-next :
    (reply : FlushReply) (phase : Phase) (q : List Event) (s : Sink) (x : Event) (rest : List Event)
    → phase ≡ draining
    → q ≡ x ∷ rest
    → receive_in reply phase q s ≡ add_to_batch reply x rest s
unfolding receive_in
receive_in-next reply phase q s x rest d e = rw (d, e) refl

drain :
    (cfg : Settings) (replies : List FlushReply) (q : List Event) (s : Sink)
    → s.phase ≡ draining
    → s.queue ≡ q
    → length q < length replies
    → IsDone (run cfg (receives replies) s)
unfolding run step
drain cfg [] q s d e enough = absurd (omega (arith, enough))
drain cfg (reply ∷ replies) [] s d e enough =
    let left = flush-Leaves reply (record s { phase = exited }) in
    subst (λ (t : Sink). IsDone (run cfg (receives replies) t))
      (sym (receive_in-last reply s.phase s.queue s d e))
      (run-exited cfg replies (flush reply (record s { phase = exited }))
        (left.1, left.0 ∙ e, left.2))
drain cfg (reply ∷ replies) (x ∷ q) s d e enough =
    let taken = add_to_batch-IsTaken reply x q s in
    subst (λ (t : Sink). IsDone (run cfg (receives replies) t))
      (sym (receive_in-next reply s.phase s.queue s x q d e))
      (drain cfg replies q (add_to_batch reply x q s) (taken.1 ∙ d) taken.0 (omega (arith, enough)))

-- Once the context has ended the write worker ends: after as many receipts as there are events in the queue, and one more,
-- it has exited, and nothing is left in the queue or in the batch, whatever Kafka and the database answer.
pub run-IsDone :
    (cfg : Settings) (replies : List FlushReply) (s : Sink)
    → s.phase ≡ draining
    → length s.queue < length replies
    → IsDone (run cfg (receives replies) s)
run-IsDone cfg replies s d enough = drain cfg replies s.queue s d refl enough
