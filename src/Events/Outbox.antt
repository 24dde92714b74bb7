-- ===== src/Events/Outbox.antt =====
-- What the outbox marks as published has been sent.
use newapi_risk_platform.Base.{
  ℕ, zero, suc, ◌+◌, ◌≡◌, ◌≤◌, refl, Bool, true, false, not, ◌&&◌, List, [], ◌∷◌, ◌++◌,
  if◌then◌else◌, if_holds, arith, count_if, count_if-append, length, ltb, leb,
}
use newapi_risk_platform.Events.{
  Event, Row, Phase, working, draining, exited, Sink, Settings, FlushReply, RelayReply, Op, publish,
  receive, tick, cancel, relay, new_row, enqueue_outbox, enqueue_all, publish_trace, flush,
  add_to_batch, receive_in, tick_in, cancel_in, is_due, claim_row, mark_published, mark_failed,
  relay_rows, relay_outbox, step, run, settle, sent,
}

module _ (p : Event → Bool) where
  abbrev pub is_published : Row → Bool
  is_published r = r.published && p r.event

  -- Of a kind, no more rows are marked than events were sent.
  unfoldable pub IsSent : Sink → Type 0
  IsSent s = count_if is_published s.outbox ≤ count_if p s.relayed

  enqueue_outbox-IsSent :
      (stored : Bool) (e : Event) (s : Sink) → IsSent s → IsSent (enqueue_outbox stored e s)
  unfolding enqueue_outbox IsSent count_if
  enqueue_outbox-IsSent true e s h =
      omega (arith, h, count_if-append is_published s.outbox (new_row e ∷ []))
  enqueue_outbox-IsSent false e s h = h

  enqueue_all-IsSent :
      (stored : Event → Bool) (es : List Event) (s : Sink)
      → IsSent s
      → IsSent (enqueue_all stored es s)
  unfolding enqueue_all
  enqueue_all-IsSent stored [] s h = h
  enqueue_all-IsSent stored (e ∷ es) s h =
      enqueue_all-IsSent stored es _ (enqueue_outbox-IsSent (stored e) e s h)

  -- A state with the same outbox and the same events sent.
  same : (s t : Sink) → t.outbox ≡ s.outbox → t.relayed ≡ s.relayed → IsSent s → IsSent t
  unfolding IsSent
  same s t o r h = rw (o, r) h

  flush-IsSent : (reply : FlushReply) (s : Sink) → IsSent s → IsSent (flush reply s)
  unfolding flush
  flush-IsSent reply s h =
      let s' : Sink = record s { batch = [] } in
      let t : Sink = record s' { repeated = s.repeated ++ reply.taken s.batch } in
      if_holds IsSent reply.accepted {x = record s' { written = s.written ++ s.batch }}
        {y = enqueue_all reply.stored s.batch t} (λ _. same s _ refl refl h)
        (λ _. enqueue_all-IsSent reply.stored s.batch t (same s t refl refl h))

  add_to_batch-IsSent :
      (reply : FlushReply) (e : Event) (rest : List Event) (s : Sink)
      → IsSent s
      → IsSent (add_to_batch reply e rest s)
  unfolding add_to_batch
  add_to_batch-IsSent reply e rest s h =
      let s' : Sink = record s { queue = rest; batch = s.batch ++ (e ∷ []) } in
      if_holds IsSent (leb 200 (length s'.batch)) {x = flush reply s'} {y = s'}
        (λ _. flush-IsSent reply s' (same s s' refl refl h)) (λ _. same s s' refl refl h)

  receive_in-IsSent :
      (reply : FlushReply) (phase : Phase) (q : List Event) (s : Sink)
      → IsSent s
      → IsSent (receive_in reply phase q s)
  unfolding receive_in
  receive_in-IsSent reply exited q s h = h
  receive_in-IsSent reply working [] s h = h
  receive_in-IsSent reply draining [] s h =
      flush-IsSent reply _ (same s (record s { phase = exited }) refl refl h)
  receive_in-IsSent reply working (x ∷ q) s h = add_to_batch-IsSent reply x q s h
  receive_in-IsSent reply draining (x ∷ q) s h = add_to_batch-IsSent reply x q s h

  -- A row that becomes published has been sent with it.
  settle_le :
      (now : ℕ) (reply : RelayReply) (r : Row)
      → (if is_published (settle now reply (claim_row now r)) then 1 else 0)
        ≤ (if is_published r then 1 else 0) + count_if p (sent reply (claim_row now r))
  unfolding claim_row mark_published mark_failed count_if
  settle_le now reply r = ground arith

  relay_rows_le :
      (now claims : ℕ) (replies : List RelayReply) (rows : List Row)
      → count_if is_published (relay_rows now claims replies rows).1
        ≤ count_if is_published rows + count_if p (relay_rows now claims replies rows).0
  unfolding relay_rows count_if claim_row mark_published mark_failed
  relay_rows_le now claims replies [] = omega arith
  relay_rows_le now zero replies (r ∷ rows) = omega arith
  relay_rows_le now (suc claims) [] (r ∷ rows) = omega arith
  relay_rows_le now (suc claims) (reply ∷ replies) (r ∷ rows) =
      let later = relay_rows now claims replies rows in
      let skipped = relay_rows now (suc claims) (reply ∷ replies) rows in
      if_holds
        (λ (x : List Event × List Row).
          count_if is_published x.1
          ≤ (if is_published r then 1 else 0) + count_if is_published rows + count_if p x.0)
        (is_due now r) {x = (sent reply r ++ later.0, settle now reply (claim_row now r) ∷ later.1)}
        {y = (skipped.0, r ∷ skipped.1)}
        (λ _. omega (
          arith,
          settle_le now reply r,
          count_if-append p (sent reply r) later.0,
          relay_rows_le now claims replies rows,
        ))
        (λ _. omega (arith, relay_rows_le now (suc claims) (reply ∷ replies) rows))

  relay_outbox-IsSent :
      (now : ℕ) (claimed : Bool) (replies : List RelayReply) (s : Sink)
      → IsSent s
      → IsSent (relay_outbox now claimed replies s)
  unfolding relay_outbox IsSent
  relay_outbox-IsSent now false replies s h = h
  relay_outbox-IsSent now true replies s h = omega (
    arith,
    h,
    relay_rows_le now 100 replies s.outbox,
    count_if-append p s.relayed (relay_rows now 100 replies s.outbox).0,
  )

  publish_trace-IsSent :
      (cfg : Settings) (e : Event) (encoded stored : Bool) (s : Sink)
      → IsSent s
      → IsSent (publish_trace cfg e encoded stored s)
  unfolding publish_trace
  publish_trace-IsSent cfg e encoded stored s h =
      let logged : Sink = record s { logged = s.logged ++ (e ∷ []) } in
      let queued : Sink = record s { queue = s.queue ++ (e ∷ []) } in
      if_holds IsSent (not cfg.enabled) (λ _. h)
        (λ _.
          if_holds IsSent (not encoded) {x = logged} (λ _. same s logged refl refl h)
            (λ _.
              if_holds IsSent (ltb (length s.queue) cfg.queue_size) {x = queued}
                (λ _. same s queued refl refl h) (λ _. enqueue_outbox-IsSent stored e s h)))

  tick_in-IsSent :
      (reply : FlushReply) (phase : Phase) (s : Sink) → IsSent s → IsSent (tick_in reply phase s)
  unfolding tick_in
  tick_in-IsSent reply working s h = flush-IsSent reply s h
  tick_in-IsSent reply draining s h = h
  tick_in-IsSent reply exited s h = h

  cancel_in-IsSent : (phase : Phase) (s : Sink) → IsSent s → IsSent (cancel_in phase s)
  unfolding cancel_in
  cancel_in-IsSent working s h = same s (record s { phase = draining }) refl refl h
  cancel_in-IsSent draining s h = h
  cancel_in-IsSent exited s h = h

  pub run-IsSent : (cfg : Settings) (ops : List Op) (s : Sink) → IsSent s → IsSent (run cfg ops s)
  unfolding run step
  run-IsSent cfg [] s h = h
  run-IsSent cfg (publish e encoded stored ∷ ops) s h =
      run-IsSent cfg ops _ (publish_trace-IsSent cfg e encoded stored s h)
  run-IsSent cfg (receive reply ∷ ops) s h =
      run-IsSent cfg ops _ (receive_in-IsSent reply s.phase s.queue s h)
  run-IsSent cfg (tick reply ∷ ops) s h = run-IsSent cfg ops _ (tick_in-IsSent reply s.phase s h)
  run-IsSent cfg (cancel ∷ ops) s h = run-IsSent cfg ops _ (cancel_in-IsSent s.phase s h)
  run-IsSent cfg (relay now claimed replies ∷ ops) s h =
      run-IsSent cfg ops _ (relay_outbox-IsSent now claimed replies s h)
