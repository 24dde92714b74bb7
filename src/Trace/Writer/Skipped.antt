-- ===== src/Trace/Writer/Skipped.antt =====
-- Which traces `InsertTraceBatch` skips.
use newapi_risk_platform.Base.{
  ℕ, zero, suc, ◌≡◌, refl, Option, none, some, if_holds, str_eq, Bool, true, false, ◌||◌, List, [],
  ◌∷◌, ◌++◌, arith, length, ltb, leb, String, Bool-cases, inl, inr,
}
use newapi_risk_platform.Trace.Writer.{
  TraceEvent, FlushReply, Sinks, Phase, working, draining, exited, Worker, Writer, Settings, Op,
  submit, receive, tick, cancel, expire, kept_ids, complete, overflow, submit_event,
  dead_letter_one, dead_letter, is_known, insert_trace, insert_trace_batch, publish_all, flush,
  Shared, add_to_batch, receive_in, tick_in, cancel_in, receive_event, tick_worker, cancel_worker,
  at_worker, on_worker, step, run, start,
}

-- Some trace of the list has the external identifier.
unfoldable pub has_id : String → List TraceEvent → Bool
has_id id [] = false
has_id id (e ∷ es) = str_eq e.external_event_id id || has_id id es

-- The traces have external identifiers, each that of an inserted trace.
unfoldable pub AreDuplicates : (inserted skipped : List TraceEvent) → Type 0
AreDuplicates inserted [] = Unit
AreDuplicates inserted (e ∷ es) =
    (str_eq e.external_event_id "" ≡ false)
    × (has_id e.external_event_id inserted ≡ true)
    × AreDuplicates inserted es

has_id-append :
    (id : String) (xs ys : List TraceEvent) → has_id id (xs ++ ys) ≡ (has_id id xs || has_id id ys)
unfolding has_id
has_id-append id [] ys = refl
has_id-append id (x ∷ xs) ys = ground (arith, has_id-append id xs ys)

has_id_later :
    (id : String) (xs ys : List TraceEvent) → has_id id xs ≡ true → has_id id (xs ++ ys) ≡ true
has_id_later id xs ys h = ground (arith, has_id-append id xs ys, h)

duplicates_later : (xs ys es : List TraceEvent) → AreDuplicates xs es → AreDuplicates (xs ++ ys) es
unfolding AreDuplicates
duplicates_later xs ys [] d = tt
duplicates_later xs ys (e ∷ es) (n, i, d) =
    (n, has_id_later e.external_event_id xs ys i, duplicates_later xs ys es d)

AreDuplicates-append :
    (xs es : List TraceEvent) (e : TraceEvent)
    → AreDuplicates xs es
    → str_eq e.external_event_id "" ≡ false
    → has_id e.external_event_id xs ≡ true
    → AreDuplicates xs (es ++ (e ∷ []))
unfolding AreDuplicates
AreDuplicates-append xs [] e d n i = (n, i, tt)
AreDuplicates-append xs (x ∷ es) e (n', i', d) n i = (n', i', AreDuplicates-append xs es e d n i)

-- Each known identifier is that of an inserted trace, and each skipped trace is a duplicate.
abbrev IsBacked : Sinks → Type 0
IsBacked k =
    ((id : String) → is_known id k.known ≡ true → has_id id k.inserted ≡ true)
    × AreDuplicates k.inserted k.skipped

dead_letter_one-IsBacked :
    (pushed : Option ℕ) (e : TraceEvent) (k : Sinks)
    → IsBacked k
    → IsBacked (dead_letter_one pushed e k)
dead_letter_one-IsBacked (some n) e k c = c
dead_letter_one-IsBacked none e k c = c

dead_letter-IsBacked :
    (pushed : TraceEvent → Option ℕ) (es : List TraceEvent) (k : Sinks)
    → IsBacked k
    → IsBacked (dead_letter pushed es k)
unfolding dead_letter
dead_letter-IsBacked pushed [] k c = c
dead_letter-IsBacked pushed (e ∷ es) k c =
    dead_letter-IsBacked pushed es _ (dead_letter_one-IsBacked (pushed e) e k c)

has_id_last :
    (id : String) (xs : List TraceEvent) (e : TraceEvent)
    → str_eq e.external_event_id id ≡ true
    → has_id id (xs ++ (e ∷ [])) ≡ true
unfolding has_id
has_id_last id [] e h = ground (arith, h)
has_id_last id (x ∷ xs) e h = ground (arith, has_id_last id xs e h)

insert_trace-IsBacked : (e : TraceEvent) (k : Sinks) → IsBacked k → IsBacked (insert_trace e k)
unfolding insert_trace
insert_trace-IsBacked e k (known, skipped) =
    let later = duplicates_later k.inserted (e ∷ []) k.skipped skipped in
    if_holds IsBacked (str_eq e.external_event_id "")
      (λ _. ((λ id h. has_id_later id k.inserted (e ∷ []) (known id h)), later))
      (λ named.
        if_holds IsBacked (is_known e.external_event_id k.known)
          (λ h. (
            known,
            AreDuplicates-append k.inserted k.skipped e skipped named (known e.external_event_id h),
          ))
          (λ _. (
            (λ id h. elim (Bool-cases (str_eq e.external_event_id id)) [
              | inl same ↦ has_id_last id k.inserted e same
              | inr other ↦
                  has_id_later id k.inserted (e ∷ []) (known id (ground (arith, h, other)))
            ]),
            later,
          )))

insert_trace_batch-IsBacked :
    (es : List TraceEvent) (k : Sinks) → IsBacked k → IsBacked (insert_trace_batch es k)
unfolding insert_trace_batch
insert_trace_batch-IsBacked [] k c = c
insert_trace_batch-IsBacked (e ∷ es) k c =
    insert_trace_batch-IsBacked es _ (insert_trace-IsBacked e k c)

flush-IsBacked :
    (cfg : Settings) (reply : FlushReply) (es : List TraceEvent) (k : Sinks)
    → IsBacked k
    → IsBacked (flush cfg reply es k)
unfolding flush
flush-IsBacked cfg reply [] k c = c
flush-IsBacked cfg reply (e ∷ es) k c =
    if_holds IsBacked reply.inserted
      {x = publish_all cfg.has_events (e ∷ es) (insert_trace_batch (e ∷ es) k)}
      {y = dead_letter reply.pushed (e ∷ es) k} (λ _. insert_trace_batch-IsBacked (e ∷ es) k c)
      (λ _. dead_letter-IsBacked reply.pushed (e ∷ es) k c)

abbrev Backs : Worker × Sinks → Type 0
Backs x = IsBacked x.1

add_to_batch-IsBacked :
    (cfg : Settings) (reply : FlushReply) (e : TraceEvent) (w : Worker) (k : Sinks)
    → IsBacked k
    → Backs (add_to_batch cfg reply e w k)
unfolding add_to_batch
add_to_batch-IsBacked cfg reply e w k c =
    if_holds Backs (leb cfg.batch_size (length (w.batch ++ (e ∷ []))))
      (λ _. flush-IsBacked cfg reply (w.batch ++ (e ∷ [])) k c) (λ _. c)

receive_in-IsBacked :
    (cfg : Settings) (reply : FlushReply) (phase : Phase) (q : List TraceEvent) (w : Worker)
    (k : Sinks)
    → IsBacked k
    → IsBacked (receive_in cfg reply phase q w k).1.sinks
unfolding receive_in
receive_in-IsBacked cfg reply exited q w k c = c
receive_in-IsBacked cfg reply working [] w k c = c
receive_in-IsBacked cfg reply draining [] w k c = flush-IsBacked cfg reply w.batch k c
receive_in-IsBacked cfg reply working (e ∷ q) w k c = add_to_batch-IsBacked cfg reply e w k c
receive_in-IsBacked cfg reply draining (e ∷ q) w k c = add_to_batch-IsBacked cfg reply e w k c

tick_in-IsBacked :
    (cfg : Settings) (reply : FlushReply) (phase : Phase) (w : Worker) (s : Shared)
    → IsBacked s.sinks
    → IsBacked (tick_in cfg reply phase w s).1.sinks
unfolding tick_in
tick_in-IsBacked cfg reply working w s c = flush-IsBacked cfg reply w.batch s.sinks c
tick_in-IsBacked cfg reply draining w s c = c
tick_in-IsBacked cfg reply exited w s c = c

cancel_in-IsBacked :
    (phase : Phase) (w : Worker) (s : Shared)
    → IsBacked s.sinks
    → IsBacked (cancel_in phase w s).1.sinks
unfolding cancel_in
cancel_in-IsBacked working w s c = c
cancel_in-IsBacked draining w s c = c
cancel_in-IsBacked exited w s c = c

at_worker-IsBacked :
    (f : Worker → Shared → Worker × Shared)
    → ((w : Worker) (s : Shared) → IsBacked s.sinks → IsBacked (f w s).1.sinks)
    → (i : ℕ) (ws : List Worker) (s : Shared) → IsBacked s.sinks
    → IsBacked (at_worker f i ws s).1.sinks
unfolding at_worker
at_worker-IsBacked f keeps i [] s c = c
at_worker-IsBacked f keeps zero (w ∷ ws) s c = keeps w s c
at_worker-IsBacked f keeps (suc i) (w ∷ ws) s c = at_worker-IsBacked f keeps i ws s c

overflow-IsBacked :
    (e : TraceEvent) (pushed : Option ℕ) (k : Sinks) → IsBacked k → IsBacked (overflow e pushed k)
unfolding overflow
overflow-IsBacked e (some n) k c = c
overflow-IsBacked e none k c = c

abbrev BacksWriter : Bool × Writer → Type 0
BacksWriter x = IsBacked x.1.sinks

submit_event-IsBacked :
    (cfg : Settings) (e : TraceEvent) (pushed : Option ℕ) (w : Writer)
    → IsBacked w.sinks
    → BacksWriter (submit_event cfg e pushed w)
unfolding submit_event
submit_event-IsBacked cfg e pushed w c =
    if_holds BacksWriter (ltb (length w.queue) cfg.queue_size)
      {x = (true, record w { queue = w.queue ++ (e ∷ []) })}
      {y = (false, record w { sinks = overflow e pushed w.sinks })} (λ _. c)
      (λ _. overflow-IsBacked e pushed w.sinks c)

kept_known :
    (is_kept : String → Bool) (id : String) (ids : List String)
    → is_known id (kept_ids is_kept ids) ≡ true
    → is_known id ids ≡ true
kept_known is_kept id [] h = h
kept_known is_kept id (x ∷ xs) h =
    if_holds (λ (ids : List String). is_known id ids ≡ true → is_known id (x ∷ xs) ≡ true)
      (is_kept x) {x = x ∷ kept_ids is_kept xs} {y = kept_ids is_kept xs}
      (λ _ k. elim (Bool-cases (str_eq x id)) [
        | inl same ↦ ground (arith, same)
        | inr other ↦ ground (arith, kept_known is_kept id xs (ground (arith, k, other)))
      ])
      (λ _ k. ground (arith, kept_known is_kept id xs k)) h

step-IsBacked :
    (cfg : Settings) (op : Op) (w : Writer) → IsBacked w.sinks → IsBacked (step cfg op w).sinks
unfolding step on_worker receive_event tick_worker cancel_worker
step-IsBacked cfg (submit e fresh now pushed) w c =
    submit_event-IsBacked cfg (complete e fresh now) pushed w c
step-IsBacked cfg (receive i reply) w c =
    at_worker-IsBacked (receive_event cfg reply)
      (λ v s b. receive_in-IsBacked cfg reply v.phase s.queue v s.sinks b) i w.workers
      (record { queue = w.queue; sinks = w.sinks }) c
step-IsBacked cfg (tick i reply) w c =
    at_worker-IsBacked (tick_worker cfg reply) (λ v s b. tick_in-IsBacked cfg reply v.phase v s b) i
      w.workers (record { queue = w.queue; sinks = w.sinks }) c
step-IsBacked cfg (cancel i reply) w c =
    at_worker-IsBacked cancel_worker (λ v s b. cancel_in-IsBacked v.phase v s b) i w.workers
      (record { queue = w.queue; sinks = w.sinks }) c
step-IsBacked cfg (expire is_kept) w c =
    ((λ id h. c.0 id (kept_known is_kept id w.sinks.known h)), c.1)

run-IsBacked :
    (cfg : Settings) (ops : List Op) (w : Writer)
    → IsBacked w.sinks
    → IsBacked (run cfg ops w).sinks
unfolding run
run-IsBacked cfg [] w c = c
run-IsBacked cfg (op ∷ ops) w c = run-IsBacked cfg ops (step cfg op w) (step-IsBacked cfg op w c)

-- After any sequence of submissions, of steps of the workers and of deletions of expired identifiers, each trace that the
-- database has skipped has an external identifier, which is not empty and is that of a trace that was inserted.
pub run-AreDuplicates :
    (cfg : Settings) (ops : List Op)
    → AreDuplicates (run cfg ops start).sinks.inserted (run cfg ops start).sinks.skipped
unfolding start AreDuplicates
run-AreDuplicates cfg ops = (run-IsBacked cfg ops start ((λ id h. absurd (cc h)), tt)).1
