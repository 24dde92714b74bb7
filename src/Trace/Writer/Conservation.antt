-- ===== src/Trace/Writer/Conservation.antt =====
-- No trace is lost silently: each one submitted is in one place.
use newapi_risk_platform.Base.{
  ℕ, zero, suc, ◌+◌, ◌≡◌, refl, ap, ◌∙◌, Bool, String, List, [], ◌∷◌, ◌++◌, Option, none, some,
  arith, if◌then◌else◌, if_holds, take, drop, take-drop,
}
use newapi_risk_platform.Trace.Writer.{
  TraceEvent, FlushReply, Sinks, Phase, working, draining, exited, Worker, Writer, Settings, Op,
  submit, receive, tick, cancel, expire, kept_ids, complete, overflow, submit_event, push_letter,
  trim_letters, dead_letter_one, dead_letter, insert_trace, insert_trace_batch, publish_all, flush,
  Shared, add_to_batch, receive_in, tick_in, cancel_in, receive_event, tick_worker, cancel_worker,
  at_worker, on_worker, step, run, start,
}

module _ (p : TraceEvent → Bool) where
  -- How many traces of a list satisfy a test.
  unfoldable pub occ : List TraceEvent → ℕ
  occ [] = 0
  occ (e ∷ es) = (if p e then 1 else 0) + occ es

  occ-append : (xs ys : List TraceEvent) → occ (xs ++ ys) ≡ occ xs + occ ys
  unfolding occ
  occ-append [] ys = omega arith
  occ-append (x ∷ xs) ys = ground (arith, occ-append xs ys)

  occ-nil : occ [] ≡ 0
  unfolding occ
  occ-nil = refl

  -- Each place that a trace can end up in, once.
  unfoldable pub at_sinks : Sinks → ℕ
  at_sinks k =
      occ k.inserted
      + occ k.skipped
      + (occ k.overflow_letters + occ k.overflow_trimmed)
      + (occ k.postgres_letters + occ k.postgres_trimmed)
      + occ k.logged

  unfoldable pub in_batches : List Worker → ℕ
  in_batches [] = 0
  in_batches (w ∷ ws) = occ w.batch + in_batches ws

  unfoldable pub everywhere : Writer → ℕ
  everywhere w = occ w.queue + in_batches w.workers + at_sinks w.sinks

  -- The traces that a sequence of operations submits, completed.
  unfoldable pub submitted : List Op → ℕ
  submitted [] = 0
  submitted (submit e fresh now pushed ∷ ops) = occ (complete e fresh now ∷ []) + submitted ops
  submitted (_ ∷ ops) = submitted ops

  -- An entry is added to a stream, and what is trimmed off is gone from it.
  occ-push_letter :
      (e : TraceEvent) (n : ℕ) (letters gone : List TraceEvent)
      → occ (push_letter e n letters) + occ (trim_letters e n letters gone)
        ≡ occ (e ∷ []) + (occ letters + occ gone)
  occ-push_letter e n letters gone =
      let all = letters ++ (e ∷ []) in
      let parts : occ all ≡ occ (take n all ++ drop n all) = ap occ (take-drop n all) in
      omega (
        arith,
        parts,
        occ-append (take n all) (drop n all),
        occ-append gone (take n all),
        occ-append letters (e ∷ []),
      )

  at_sinks-dead_letter_one :
      (pushed : Option ℕ) (e : TraceEvent) (k : Sinks)
      → at_sinks (dead_letter_one pushed e k) ≡ occ (e ∷ []) + at_sinks k
  unfolding at_sinks
  at_sinks-dead_letter_one none e k = omega (arith, occ-append k.logged (e ∷ []))
  at_sinks-dead_letter_one (some n) e k =
      omega (arith, occ-push_letter e n k.postgres_letters k.postgres_trimmed)

  occ-cons : (e : TraceEvent) (es : List TraceEvent) → occ (e ∷ es) ≡ occ (e ∷ []) + occ es
  unfolding occ
  occ-cons e es = omega arith

  at_sinks-dead_letter :
      (pushed : TraceEvent → Option ℕ) (es : List TraceEvent) (k : Sinks)
      → at_sinks (dead_letter pushed es k) ≡ occ es + at_sinks k
  unfolding dead_letter
  at_sinks-dead_letter pushed [] k = omega (arith, occ-nil)
  at_sinks-dead_letter pushed (e ∷ es) k = omega (
    arith,
    at_sinks-dead_letter pushed es (dead_letter_one (pushed e) e k),
    at_sinks-dead_letter_one (pushed e) e k,
    occ-cons e es,
  )

  at_sinks-insert_trace :
      (e : TraceEvent) (k : Sinks) → at_sinks (insert_trace e k) ≡ occ (e ∷ []) + at_sinks k
  unfolding insert_trace at_sinks
  at_sinks-insert_trace e k =
      grind (arith, occ-append k.inserted (e ∷ []), occ-append k.skipped (e ∷ []))

  at_sinks-insert_trace_batch :
      (es : List TraceEvent) (k : Sinks) → at_sinks (insert_trace_batch es k) ≡ occ es + at_sinks k
  unfolding insert_trace_batch
  at_sinks-insert_trace_batch [] k = omega (arith, occ-nil)
  at_sinks-insert_trace_batch (e ∷ es) k = omega (
    arith,
    at_sinks-insert_trace_batch es (insert_trace e k),
    at_sinks-insert_trace e k,
    occ-cons e es,
  )

  at_sinks-publish_all :
      (has_events : Bool) (es : List TraceEvent) (k : Sinks)
      → at_sinks (publish_all has_events es k) ≡ at_sinks k
  unfolding at_sinks
  at_sinks-publish_all has_events es k = refl

  at_sinks-flush :
      (cfg : Settings) (reply : FlushReply) (es : List TraceEvent) (k : Sinks)
      → at_sinks (flush cfg reply es k) ≡ occ es + at_sinks k
  unfolding flush
  at_sinks-flush cfg reply [] k = omega (arith, occ-nil)
  at_sinks-flush cfg reply (e ∷ es) k =
      if_holds (λ (x : Sinks). at_sinks x ≡ occ (e ∷ es) + at_sinks k) reply.inserted
        (λ _.
          at_sinks-publish_all cfg.has_events (e ∷ es) (insert_trace_batch (e ∷ es) k)
          ∙ at_sinks-insert_trace_batch (e ∷ es) k)
        (λ _. at_sinks-dead_letter reply.pushed (e ∷ es) k)

  -- What a worker and what it shares hold.
  abbrev held : Worker × Shared → ℕ
  held (w, s) = occ w.batch + occ s.queue + at_sinks s.sinks

  occ-add_to_batch :
      (cfg : Settings) (reply : FlushReply) (e : TraceEvent) (w : Worker) (k : Sinks)
      → occ (add_to_batch cfg reply e w k).0.batch + at_sinks (add_to_batch cfg reply e w k).1
        ≡ occ (e ∷ []) + occ w.batch + at_sinks k
  unfolding add_to_batch
  occ-add_to_batch cfg reply e w k = grind (
    arith,
    at_sinks-flush cfg reply (w.batch ++ (e ∷ [])) k,
    occ-append w.batch (e ∷ []),
    occ-nil,
  )

  held-receive_in :
      (cfg : Settings) (reply : FlushReply) (phase : Phase) (q : List TraceEvent) (w : Worker)
      (k : Sinks)
      → held (receive_in cfg reply phase q w k) ≡ occ w.batch + occ q + at_sinks k
  unfolding receive_in occ
  held-receive_in cfg reply exited q w k = refl
  held-receive_in cfg reply working [] w k = refl
  held-receive_in cfg reply draining [] w k = omega (arith, at_sinks-flush cfg reply w.batch k)
  held-receive_in cfg reply working (e ∷ q) w k = omega (arith, occ-add_to_batch cfg reply e w k)
  held-receive_in cfg reply draining (e ∷ q) w k = omega (arith, occ-add_to_batch cfg reply e w k)

  held-tick_in :
      (cfg : Settings) (reply : FlushReply) (phase : Phase) (w : Worker) (s : Shared)
      → held (tick_in cfg reply phase w s) ≡ held (w, s)
  unfolding tick_in occ
  held-tick_in cfg reply working w s = omega (arith, at_sinks-flush cfg reply w.batch s.sinks)
  held-tick_in cfg reply draining w s = refl
  held-tick_in cfg reply exited w s = refl

  held-cancel_in :
      (phase : Phase) (w : Worker) (s : Shared) → held (cancel_in phase w s) ≡ held (w, s)
  unfolding cancel_in
  held-cancel_in working w s = refl
  held-cancel_in draining w s = refl
  held-cancel_in exited w s = refl

  everywhere-at_worker :
      (f : Worker → Shared → Worker × Shared)
      → ((w : Worker) (s : Shared) → held (f w s) ≡ held (w, s))
      → (i : ℕ) (ws : List Worker) (s : Shared)
      → in_batches (at_worker f i ws s).0
          + occ (at_worker f i ws s).1.queue
          + at_sinks (at_worker f i ws s).1.sinks
        ≡ in_batches ws + occ s.queue + at_sinks s.sinks
  unfolding at_worker in_batches
  everywhere-at_worker f keeps i [] s = refl
  everywhere-at_worker f keeps zero (w ∷ ws) s = omega (arith, keeps w s)
  everywhere-at_worker f keeps (suc i) (w ∷ ws) s =
      omega (arith, everywhere-at_worker f keeps i ws s)

  everywhere-on_worker :
      (f : Worker → Shared → Worker × Shared)
      → ((w : Worker) (s : Shared) → held (f w s) ≡ held (w, s))
      → (i : ℕ) (w : Writer) → everywhere (on_worker f i w) ≡ everywhere w
  unfolding on_worker everywhere
  everywhere-on_worker f keeps i w = omega (
    arith,
    everywhere-at_worker f keeps i w.workers (record { queue = w.queue; sinks = w.sinks }),
  )

  everywhere-submit_event :
      (cfg : Settings) (e : TraceEvent) (pushed : Option ℕ) (w : Writer)
      → everywhere (submit_event cfg e pushed w).1 ≡ everywhere w + occ (e ∷ [])
  unfolding submit_event everywhere overflow at_sinks
  everywhere-submit_event cfg e (some n) w = grind (
    arith,
    occ-append w.queue (e ∷ []),
    occ-push_letter e n w.sinks.overflow_letters w.sinks.overflow_trimmed,
  )
  everywhere-submit_event cfg e none w =
      grind (arith, occ-append w.queue (e ∷ []), occ-append w.sinks.logged (e ∷ []))

  everywhere-expire :
      (is_kept : String → Bool) (w : Writer)
      → everywhere (record w { sinks = record w.sinks { known = kept_ids is_kept w.sinks.known } })
        ≡ everywhere w
  unfolding everywhere at_sinks
  everywhere-expire is_kept w = refl

  everywhere-run :
      (cfg : Settings) (ops : List Op) (w : Writer)
      → everywhere (run cfg ops w) ≡ everywhere w + submitted ops
  unfolding run step submitted receive_event tick_worker cancel_worker
  everywhere-run cfg [] w = omega arith
  everywhere-run cfg (submit e fresh now pushed ∷ ops) w =
      let e' = complete e fresh now in
      let next = (submit_event cfg e' pushed w).1 in
      omega (arith, everywhere-run cfg ops next, everywhere-submit_event cfg e' pushed w)
  everywhere-run cfg (receive i reply ∷ ops) w =
      let keeps =
        λ (v : Worker) (s : Shared). held-receive_in cfg reply v.phase s.queue v s.sinks in
      omega (
        arith,
        everywhere-run cfg ops (on_worker (receive_event cfg reply) i w),
        everywhere-on_worker (receive_event cfg reply) keeps i w,
      )
  everywhere-run cfg (tick i reply ∷ ops) w =
      let keeps = λ (v : Worker) (s : Shared). held-tick_in cfg reply v.phase v s in
      omega (
        arith,
        everywhere-run cfg ops (on_worker (tick_worker cfg reply) i w),
        everywhere-on_worker (tick_worker cfg reply) keeps i w,
      )
  everywhere-run cfg (cancel i reply ∷ ops) w =
      let keeps = λ (v : Worker) (s : Shared). held-cancel_in v.phase v s in
      omega (
        arith,
        everywhere-run cfg ops (on_worker cancel_worker i w),
        everywhere-on_worker cancel_worker keeps i w,
      )
  everywhere-run cfg (expire is_kept ∷ ops) w = omega (
    arith,
    everywhere-run cfg ops
        (record w { sinks = record w.sinks { known = kept_ids is_kept w.sinks.known } }),
    everywhere-expire is_kept w,
  )

  everywhere-start : everywhere start ≡ 0
  unfolding everywhere in_batches at_sinks occ start
  everywhere-start = refl

  -- For any test on traces and any sequence of submissions, of steps of the workers and of deletions of expired identifiers,
  -- whatever the database and Redis answer, the number of submitted traces (completed with identifier and time) that satisfy
  -- the test is the number of those in the queue, in a batch, inserted into the database, skipped by it as duplicates, in a dead-letter
  -- stream, trimmed off a dead-letter stream by Redis, or in the log alone, each counted once.
  pub traces_conserved :
      (cfg : Settings) (ops : List Op) → everywhere (run cfg ops start) ≡ submitted ops
  traces_conserved cfg ops = omega (arith, everywhere-run cfg ops start, everywhere-start)
