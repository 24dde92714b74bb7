-- ===== src/Events/Conservation.antt =====
-- Each event is in one place, and a row that counts as published was sent.
use newapi_risk_platform.Base.{
  ℕ, zero, suc, ◌+◌, ◌≡◌, refl, ◌∙◌, Bool, true, false, not, List, [], ◌∷◌, ◌++◌, if◌then◌else◌,
  if_holds, arith, count_if, count_if-append, count_if-nil, length, ltb, leb,
}
use newapi_risk_platform.Events.{
  Event, Row, Phase, working, draining, exited, Sink, Settings, FlushReply, RelayReply, Op, publish,
  receive, tick, cancel, relay, new_row, enqueue_outbox, enqueue_all, publish_trace, flush,
  add_to_batch, receive_in, tick_in, cancel_in, is_due, claim_row, mark_published, mark_failed,
  relay_rows, relay_outbox, step, run, settle, deliver,
}

module _ (p : Event → Bool) where
  abbrev pub in_row : Row → Bool
  in_row r = p r.event

  -- How many events of a kind there are in the queue, the batch, the topic, the outbox and the log.
  unfoldable pub everywhere : Sink → ℕ
  everywhere s =
      count_if p s.queue
      + count_if p s.batch
      + count_if p s.written
      + count_if in_row s.outbox
      + count_if p s.logged

  everywhere-enqueue_outbox :
      (stored : Bool) (e : Event) (s : Sink)
      → everywhere (enqueue_outbox stored e s) ≡ count_if p (e ∷ []) + everywhere s
  unfolding enqueue_outbox everywhere count_if
  everywhere-enqueue_outbox true e s =
      ground (arith, count_if-append in_row s.outbox (new_row e ∷ []))
  everywhere-enqueue_outbox false e s = ground (arith, count_if-append p s.logged (e ∷ []))

  everywhere-enqueue_all :
      (stored : Event → Bool) (es : List Event) (s : Sink)
      → everywhere (enqueue_all stored es s) ≡ count_if p es + everywhere s
  unfolding enqueue_all count_if
  everywhere-enqueue_all stored [] s = omega arith
  everywhere-enqueue_all stored (e ∷ es) s = omega (
    arith,
    everywhere-enqueue_all stored es (enqueue_outbox (stored e) e s),
    everywhere-enqueue_outbox (stored e) e s,
  )

  written :
      (es : List Event) (s : Sink)
      → everywhere (record s { written = s.written ++ es }) ≡ count_if p es + everywhere s
  unfolding everywhere
  written es s = omega (arith, count_if-append p s.written es)

  logged :
      (e : Event) (s : Sink)
      → everywhere (record s { logged = s.logged ++ (e ∷ []) }) ≡ count_if p (e ∷ []) + everywhere s
  unfolding everywhere
  logged e s = omega (arith, count_if-append p s.logged (e ∷ []))

  queued :
      (e : Event) (s : Sink)
      → everywhere (record s { queue = s.queue ++ (e ∷ []) }) ≡ count_if p (e ∷ []) + everywhere s
  unfolding everywhere
  queued e s = omega (arith, count_if-append p s.queue (e ∷ []))

  unbatched : (s : Sink) → count_if p s.batch + everywhere (record s { batch = [] }) ≡ everywhere s
  unfolding everywhere
  unbatched s = omega (arith, count_if-nil p)

  phased : (phase : Phase) (s : Sink) → everywhere (record s { phase = phase }) ≡ everywhere s
  unfolding everywhere
  phased phase s = refl

  taken :
      (e : Event) (rest : List Event) (s : Sink)
      → s.queue ≡ e ∷ rest
      → everywhere (record s { queue = rest; batch = s.batch ++ (e ∷ []) }) ≡ everywhere s
  unfolding everywhere count_if
  taken e rest s q = rw q (omega (arith, count_if-append p s.batch (e ∷ [])))

  repeated :
      (es : List Event) (n : ℕ) (s : Sink)
      → n + everywhere (record s { repeated = s.repeated ++ es }) ≡ n + everywhere s
  unfolding everywhere
  repeated es n s = refl

  everywhere-deliver :
      (reply : FlushReply) (es : List Event) (s : Sink)
      → everywhere (deliver reply es s) ≡ count_if p es + everywhere s
  everywhere-deliver reply es s =
      if_holds (λ (x : Sink). everywhere x ≡ count_if p es + everywhere s) reply.accepted
        (λ _. written es s)
        (λ _.
          everywhere-enqueue_all reply.stored es
            (record s { repeated = s.repeated ++ reply.taken es })
          ∙ repeated (reply.taken es) (count_if p es) s)

  everywhere-flush : (reply : FlushReply) (s : Sink) → everywhere (flush reply s) ≡ everywhere s
  unfolding flush
  everywhere-flush reply s =
      everywhere-deliver reply s.batch (record s { batch = [] }) ∙ unbatched s

  everywhere-add_to_batch :
      (reply : FlushReply) (e : Event) (rest : List Event) (s : Sink)
      → s.queue ≡ e ∷ rest
      → everywhere (add_to_batch reply e rest s) ≡ everywhere s
  unfolding add_to_batch
  everywhere-add_to_batch reply e rest s q =
      let s' : Sink = record s { queue = rest; batch = s.batch ++ (e ∷ []) } in
      if_holds (λ (x : Sink). everywhere x ≡ everywhere s) (leb 200 (length s'.batch))
        (λ _. everywhere-flush reply s' ∙ taken e rest s q) (λ _. taken e rest s q)

  everywhere-receive_in :
      (reply : FlushReply) (phase : Phase) (q : List Event) (s : Sink)
      → s.queue ≡ q
      → everywhere (receive_in reply phase q s) ≡ everywhere s
  unfolding receive_in
  everywhere-receive_in reply exited q s e = refl
  everywhere-receive_in reply working [] s e = refl
  everywhere-receive_in reply draining [] s e =
      everywhere-flush reply (record s { phase = exited }) ∙ phased exited s
  everywhere-receive_in reply working (x ∷ q) s e = everywhere-add_to_batch reply x q s e
  everywhere-receive_in reply draining (x ∷ q) s e = everywhere-add_to_batch reply x q s e

  settle-in_row :
      (now : ℕ) (reply : RelayReply) (r : Row)
      → in_row (settle now reply (claim_row now r)) ≡ in_row r
  unfolding claim_row mark_published mark_failed
  settle-in_row now reply r =
      if_holds (λ (x : Row). in_row x ≡ in_row r) (not reply.marked) (λ _. refl)
        (λ _. if_holds (λ (x : Row). in_row x ≡ in_row r) reply.accepted (λ _. refl) (λ _. refl))

  pub count_if-relay_rows :
      (now claims : ℕ) (replies : List RelayReply) (rows : List Row)
      → count_if in_row (relay_rows now claims replies rows).1 ≡ count_if in_row rows
  unfolding relay_rows count_if
  count_if-relay_rows now claims replies [] = refl
  count_if-relay_rows now zero replies (r ∷ rows) = refl
  count_if-relay_rows now (suc claims) [] (r ∷ rows) = refl
  count_if-relay_rows now (suc claims) (reply ∷ replies) (r ∷ rows) =
      if_holds
        (λ (x : List Event × List Row).
          count_if in_row x.1 ≡ (if in_row r then 1 else 0) + count_if in_row rows)
        (is_due now r)
        (λ _.
          rw (settle-in_row now reply r)
            (omega (arith, count_if-relay_rows now claims replies rows)))
        (λ _. omega (arith, count_if-relay_rows now (suc claims) (reply ∷ replies) rows))

  -- The events of the operations that an enabled sink is given.
  unfoldable pub submitted : List Op → ℕ
  submitted [] = 0
  submitted (publish e encoded stored ∷ ops) = count_if p (e ∷ []) + submitted ops
  submitted (_ ∷ ops) = submitted ops

  everywhere-publish_trace :
      (cfg : Settings) (e : Event) (encoded stored : Bool) (s : Sink)
      → cfg.enabled ≡ true
      → everywhere (publish_trace cfg e encoded stored s) ≡ count_if p (e ∷ []) + everywhere s
  unfolding publish_trace
  everywhere-publish_trace cfg e encoded stored s on = rw on (
      if_holds (λ (x : Sink). everywhere x ≡ count_if p (e ∷ []) + everywhere s) (not encoded)
        (λ _. logged e s)
        (λ _.
          if_holds (λ (x : Sink). everywhere x ≡ count_if p (e ∷ []) + everywhere s)
            (ltb (length s.queue) cfg.queue_size) (λ _. queued e s)
            (λ _. everywhere-enqueue_outbox stored e s)))

  everywhere-tick_in :
      (reply : FlushReply) (phase : Phase) (s : Sink)
      → everywhere (tick_in reply phase s) ≡ everywhere s
  unfolding tick_in
  everywhere-tick_in reply working s = everywhere-flush reply s
  everywhere-tick_in reply draining s = refl
  everywhere-tick_in reply exited s = refl

  everywhere-cancel_in : (phase : Phase) (s : Sink) → everywhere (cancel_in phase s) ≡ everywhere s
  unfolding cancel_in
  everywhere-cancel_in working s = phased draining s
  everywhere-cancel_in draining s = refl
  everywhere-cancel_in exited s = refl

  everywhere-relay_outbox :
      (now : ℕ) (claimed : Bool) (replies : List RelayReply) (s : Sink)
      → everywhere (relay_outbox now claimed replies s) ≡ everywhere s
  unfolding relay_outbox everywhere
  everywhere-relay_outbox now false replies s = refl
  everywhere-relay_outbox now true replies s =
      omega (arith, count_if-relay_rows now 100 replies s.outbox)

  -- A sink that is enabled loses no event silently: of any kind, there are as many in the queue, in the batch, in the topic by
  -- a write that succeeded, in the outbox and in the log together as there were and as the operations have published, in
  -- whatever order they come and whatever Kafka and the database answer; Kafka may besides have taken events of a batch
  -- whose write failed.
  pub everywhere-run :
      (cfg : Settings) (ops : List Op) (s : Sink)
      → cfg.enabled ≡ true
      → everywhere (run cfg ops s) ≡ submitted ops + everywhere s
  unfolding run step submitted
  everywhere-run cfg [] s on = omega arith
  everywhere-run cfg (publish e encoded stored ∷ ops) s on = omega (
    arith,
    everywhere-run cfg ops (publish_trace cfg e encoded stored s) on,
    everywhere-publish_trace cfg e encoded stored s on,
  )
  everywhere-run cfg (receive reply ∷ ops) s on = omega (
    arith,
    everywhere-run cfg ops (receive_in reply s.phase s.queue s) on,
    everywhere-receive_in reply s.phase s.queue s refl,
  )
  everywhere-run cfg (tick reply ∷ ops) s on = omega (
    arith,
    everywhere-run cfg ops (tick_in reply s.phase s) on,
    everywhere-tick_in reply s.phase s,
  )
  everywhere-run cfg (cancel ∷ ops) s on =
      omega (arith, everywhere-run cfg ops (cancel_in s.phase s) on, everywhere-cancel_in s.phase s)
  everywhere-run cfg (relay now claimed replies ∷ ops) s on = omega (
    arith,
    everywhere-run cfg ops (relay_outbox now claimed replies s) on,
    everywhere-relay_outbox now claimed replies s,
  )
