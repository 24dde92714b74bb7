-- ===== src/Events/Progress.antt =====
-- The rounds of the outbox in which everything that is due is delivered.
use newapi_risk_platform.Base.{
  ℕ, zero, suc, ◌+◌, ◌≡◌, ◌≤◌, refl, Bool, true, false, ◌&&◌, List, [], ◌∷◌, ◌++◌, if_holds, arith,
  count_if, count_if-append, count_if-nil,
}
use newapi_risk_platform.Events.{
  Event, Row, Sink, Settings, RelayReply, Op, is_due, claim_row, mark_published, relay_rows,
  relay_outbox, run, settle, sent,
}
use newapi_risk_platform.Events.Conservation.{in_row, count_if-relay_rows}
use newapi_risk_platform.Events.Outbox.{IsSent, is_published, run-IsSent}

abbrev good : RelayReply
good = record { accepted = true; marked = true }

-- Kafka takes each event, and the database each mark.
abbrev pub goods : ℕ → List RelayReply
goods zero = []
goods (suc n) = good ∷ goods n

-- How many rows are due.
abbrev pub due : ℕ → List Row → ℕ
due now rows = count_if (is_due now) rows

module _ (p : Event → Bool) where
  abbrev pub is_due_of : ℕ → Row → Bool
  is_due_of now r = is_due now r && p r.event

  -- Between two tables with the events sent: none is due any more, and of the kind as many were sent and are marked as were
  -- due.
  abbrev Settles : ℕ → List Row → List Event × List Row → Type 0
  Settles now rows x =
      (due now x.1 ≡ 0)
      × (count_if p x.0 ≡ count_if (is_due_of now) rows)
      × (count_if (is_published p) x.1
          ≡ count_if (is_published p) rows + count_if (is_due_of now) rows)

  due_of_le : (now : ℕ) (rows : List Row) → count_if (is_due_of now) rows ≤ due now rows
  unfolding count_if
  due_of_le now [] = omega arith
  due_of_le now (r ∷ rows) = ground (arith, due_of_le now rows)

  none_due : (now : ℕ) (rows : List Row) → due now rows ≤ 0 → Settles now rows ([], rows)
  unfolding count_if
  none_due now rows h =
      (omega (arith, h), omega (arith, h, due_of_le now rows), omega (arith, h, due_of_le now rows))

  settled :
      (now : ℕ) (r : Row)
      → is_due now r ≡ true
      → (is_due now (settle now good (claim_row now r)) ≡ false)
        × (is_published p (settle now good (claim_row now r)) ≡ p r.event)
        × (is_published p r ≡ false)
  unfolding is_due claim_row mark_published
  settled now r h = (refl, refl, ground (arith, h))

  settled_first :
      (now : ℕ) (r : Row) (rows rows' : List Row) (es : List Event)
      → is_due now r ≡ true
      → Settles now rows (es, rows')
      → Settles now (r ∷ rows) (sent good r ++ es, settle now good (claim_row now r) ∷ rows')
  unfolding count_if
  settled_first now r rows rows' es h (d, e, m) =
      let now_settled = settled now r h in
      (
        ground (arith, now_settled.0, d),
        ground (arith, h, e),
        ground (arith, h, now_settled.1, now_settled.2, m),
      )

  left_first :
      (now : ℕ) (r : Row) (rows rows' : List Row) (es : List Event)
      → is_due now r ≡ false
      → Settles now rows (es, rows')
      → Settles now (r ∷ rows) (es, r ∷ rows')
  unfolding count_if
  left_first now r rows rows' es h (d, e, m) =
      (ground (arith, h, d), ground (arith, h, e), ground (arith, h, m))

  due-first :
      (now n : ℕ) (r : Row) (rows : List Row)
      → is_due now r ≡ true
      → due now (r ∷ rows) ≤ suc n
      → due now rows ≤ n
  unfolding count_if
  due-first now n r rows h le = ground (arith, h, le)

  due-later : (now n : ℕ) (r : Row) (rows : List Row) → due now (r ∷ rows) ≤ n → due now rows ≤ n
  unfolding count_if
  due-later now n r rows le = ground (arith, le)

  relay_rows-Settles :
      (now claims n : ℕ) (rows : List Row)
      → due now rows ≤ claims
      → due now rows ≤ n
      → Settles now rows (relay_rows now claims (goods n) rows)
  unfolding relay_rows
  relay_rows-Settles now claims n [] c k =
      none_due now [] (omega (arith, count_if-nil (is_due now)))
  relay_rows-Settles now zero n (r ∷ rows) c k = none_due now (r ∷ rows) c
  relay_rows-Settles now (suc claims) zero (r ∷ rows) c k = none_due now (r ∷ rows) k
  relay_rows-Settles now (suc claims) (suc n) (r ∷ rows) c k =
      let first = relay_rows now claims (goods n) rows in
      let later = relay_rows now (suc claims) (goods (suc n)) rows in
      if_holds (Settles now (r ∷ rows)) (is_due now r)
        {x = (sent good r ++ first.0, settle now good (claim_row now r) ∷ first.1)}
        {y = (later.0, r ∷ later.1)}
        (λ h. settled_first now r rows first.1 first.0 h (
          relay_rows-Settles now claims n rows (due-first now claims r rows h c)
            (due-first now n r rows h k)))
        (λ h. left_first now r rows later.1 later.0 h (
          relay_rows-Settles now (suc claims) (suc n) rows (due-later now (suc claims) r rows c)
            (due-later now (suc n) r rows k)))

  -- A round in which Kafka and the database take everything leaves no row due, and has sent, and marked, as many of the kind
  -- as were due.
  unfoldable pub Delivers : ℕ → Sink → Sink → Type 0
  Delivers now s t =
      (due now t.outbox ≡ 0)
      × (count_if p t.relayed ≡ count_if p s.relayed + count_if (is_due_of now) s.outbox)
      × (count_if (is_published p) t.outbox
          ≡ count_if (is_published p) s.outbox + count_if (is_due_of now) s.outbox)

  relay_outbox-Delivers :
      (now n : ℕ) (s : Sink)
      → due now s.outbox ≤ n
      → n ≤ 100
      → Delivers now s (relay_outbox now true (goods n) s)
  unfolding relay_outbox Delivers
  relay_outbox-Delivers now n s k most =
      let (d, e, m) = relay_rows-Settles now 100 n s.outbox (omega (arith, k, most)) k in
      (
        d,
        omega (arith, e, count_if-append p s.relayed (relay_rows now 100 (goods n) s.outbox).0),
        m,
      )

  keeps_rows :
      (now : ℕ) (claimed : Bool) (replies : List RelayReply) (s : Sink)
      → count_if (in_row p) (relay_outbox now claimed replies s).outbox
        ≡ count_if (in_row p) s.outbox
  unfolding relay_outbox
  keeps_rows now false replies s = refl
  keeps_rows now true replies s = count_if-relay_rows p now 100 replies s.outbox

  -- In every state that operations reach from one of the kind, of any kind of event no
  -- more rows are marked as published than events that Kafka has accepted from the outbox; a round at any time, whatever is
  -- answered in it, removes no row; and a round in which at most a hundred rows are due, and Kafka and the database take
  -- everything, sends every row that is due, marks it as published, and leaves none due.
  pub run-IsDelivered :
      (cfg : Settings) (ops : List Op) (s : Sink) (now n : ℕ) (claimed : Bool)
      (replies : List RelayReply)
      → IsSent p s
      → due now (run cfg ops s).outbox ≤ n
      → n ≤ 100
      → IsSent p (run cfg ops s)
        × (count_if (in_row p) (relay_outbox now claimed replies (run cfg ops s)).outbox
            ≡ count_if (in_row p) (run cfg ops s).outbox)
        × Delivers now (run cfg ops s) (relay_outbox now true (goods n) (run cfg ops s))
  run-IsDelivered cfg ops s now n claimed replies h k most = (
    run-IsSent p cfg ops s h,
    keeps_rows now claimed replies (run cfg ops s),
    relay_outbox-Delivers now n (run cfg ops s) k most,
  )
