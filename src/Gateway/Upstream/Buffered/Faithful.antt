-- ===== src/Gateway/Upstream/Buffered/Faithful.antt =====
-- What the client receives of a buffered response, and what the relay reports of it.
use newapi_risk_platform.Base.{
  ℕ, zero, suc, ◌≡◌, ◌≤◌, ◌<◌, refl, sym, ap, subst, ◌∙◌, Bool, true, false, not, ◌&&◌, String,
  List, [], ◌∷◌, ◌++◌, Option, none, some, leb, length, take, drop, take-drop, ◌⊎◌, inl, inr,
  if_holds, Bool-cases, arith, append-nil, append_assoc, length-take, length-drop,
}
use newapi_risk_platform.Gateway.Types.{ProxyResult}
use newapi_risk_platform.Gateway.Upstream.{Header}
use newapi_risk_platform.Gateway.Upstream.Buffered.{
  Response, Sent, error_page, relayed, accepted, fits, left_after, page, finish, relay,
  proxy_buffered,
}

-- The client's connection fails before it has taken all bytes.
unfoldable pub IsGone : Option ℕ → List ℕ → Type 0
IsGone none bytes = ⊥
IsGone (some n) bytes = n < length bytes

-- An error page counts no bytes, has the status of errors, and says why: a read failed within the inspected bytes, or the
-- body, whole and within them, is an error envelope. Otherwise the bytes are a prefix of the body, they are counted, and no code says that they
-- are the whole body, which the provider has ended.
unfoldable pub IsFaithful :
    (limit error_status : ℕ)
    → (is_error_envelope : List ℕ → Bool) → Response
    → (client : Option ℕ) → ProxyResult × Sent
    → Type 0
IsFaithful limit error_status is_error_envelope r client (p, error_page status code) =
    (p.bytes_written ≡ 0)
    × (status ≡ error_status)
    × (p.status ≡ error_status)
    × (p.risk_code ≡ code)
    × (length r.body ≤ limit)
    × (((code ≡ "UPSTREAM_READ_ERROR") × (r.fails ≡ true))
        ⊎ ((code ≡ "UPSTREAM_MODEL_ERROR") × (r.fails ≡ false) × (is_error_envelope r.body ≡ true)))
IsFaithful limit error_status is_error_envelope r client (p, relayed status h bytes) =
    (p.bytes_written ≡ length bytes)
    × (status ≡ r.status)
    × ((limit < length r.body) ⊎ (is_error_envelope r.body ≡ false))
    × ((rest : List ℕ) × (r.body ≡ bytes ++ rest)
        × (((p.risk_code ≡ "") × (rest ≡ []) × (r.fails ≡ false))
            ⊎ ((p.risk_code ≡ "CLIENT_DISCONNECT") × ((r.fails ≡ true) ⊎ IsGone client r.body))))

take-all : (n : ℕ) (xs : List ℕ) → leb (length xs) n ≡ true → take n xs ≡ xs
take-all zero [] h = refl
take-all zero (x ∷ xs) h = absurd (ground (arith, h))
take-all (suc n) [] h = refl
take-all (suc n) (x ∷ xs) h = ap (λ (ys : List ℕ). x ∷ ys) (take-all n xs (ground (arith, h)))

accepted-all : (c : Option ℕ) (xs : List ℕ) → fits c xs ≡ true → accepted c xs ≡ xs
accepted-all none xs h = refl
accepted-all (some n) xs h = take-all n xs h

-- The bytes that a client does not take.
abbrev refused : Option ℕ → List ℕ → List ℕ
refused none xs = []
refused (some n) xs = drop n xs

accepted-refused : (c : Option ℕ) (xs : List ℕ) → xs ≡ accepted c xs ++ refused c xs
accepted-refused none xs = sym (append-nil xs)
accepted-refused (some n) xs = take-drop n xs

refused-none : (c : Option ℕ) (xs : List ℕ) → fits c xs ≡ true → refused c xs ≡ []
refused-none none xs h = refl
refused-none (some n) xs h = drop-none n xs h
  where
    drop-none : (n : ℕ) (xs : List ℕ) → leb (length xs) n ≡ true → drop n xs ≡ []
    drop-none zero [] h = refl
    drop-none zero (x ∷ xs) h = absurd (ground (arith, h))
    drop-none (suc n) [] h = refl
    drop-none (suc n) (x ∷ xs) h = drop-none n xs (ground (arith, h))

drop_complete :
    (n : ℕ) (xs : List ℕ) → leb (length (take (suc n) xs)) n ≡ true → drop (suc n) xs ≡ []
drop_complete zero [] h = refl
drop_complete zero (x ∷ xs) h = absurd (ground (arith, h))
drop_complete (suc n) [] h = refl
drop_complete (suc n) (x ∷ xs) h = drop_complete n xs (ground (arith, h))

-- A prefix that is not longer than the limit is the whole body.
take_complete :
    (n : ℕ) (xs : List ℕ) → leb (length (take (suc n) xs)) n ≡ true → take (suc n) xs ≡ xs
take_complete n xs h = take-all (suc n) xs (grind (arith, length-take, h))

-- What the relay itself adds to the inspection: the count, the status, and how much of the body was sent.
unfoldable IsRelayed : Response → (client : Option ℕ) → ProxyResult × Sent → Type 0
IsRelayed r client (p, error_page status code) = ⊥
IsRelayed r client (p, relayed status h bytes) =
    (p.bytes_written ≡ length bytes)
    × (status ≡ r.status)
    × ((rest : List ℕ) × (r.body ≡ bytes ++ rest)
        × (((p.risk_code ≡ "") × (rest ≡ []) × (r.fails ≡ false))
            ⊎ ((p.risk_code ≡ "CLIENT_DISCONNECT") × ((r.fails ≡ true) ⊎ IsGone client r.body))))

finish-IsRelayed :
    (r : Response) (client : Option ℕ) (h : Header) (bytes rest : List ℕ) (whole : Bool)
    → r.body ≡ bytes ++ rest
    → (whole ≡ true → (rest ≡ []) × (r.fails ≡ false))
    → (whole ≡ false → (r.fails ≡ true) ⊎ IsGone client r.body)
    → IsRelayed r client (finish r.status h bytes whole)
unfolding IsRelayed
finish-IsRelayed r client h bytes rest true e k lost =
    (refl, refl, (rest, e, inl (refl, (k refl).0, (k refl).1)))
finish-IsRelayed r client h bytes rest false e k lost =
    (refl, refl, (rest, e, inr (refl, lost refl)))

fits_prefix :
    (n : ℕ) (client : Option ℕ) (xs : List ℕ) → fits client (take n xs) ≡ false → IsGone client xs
unfolding IsGone
fits_prefix n none xs h = absurd (cc h)
fits_prefix n (some m) xs h = grind (arith, length-take, h)

fits_rest :
    (n : ℕ) (client : Option ℕ) (xs : List ℕ)
    → fits client (take n xs) ≡ true
    → fits (left_after client (take n xs)) (drop n xs) ≡ false
    → IsGone client xs
unfolding IsGone
fits_rest n none xs h k = absurd (cc k)
fits_rest n (some m) xs h k = grind (arith, length-take, length-drop, h, k)

relay-IsRelayed :
    (limit : ℕ) (r : Response) (h : Header) (client : Option ℕ)
    → (r.fails && leb (length r.body) limit) ≡ false
    → IsRelayed r client (
        relay r h
          (leb (length (take (suc limit) r.body)) limit)
          (take (suc limit) r.body)
          (drop (suc limit) r.body)
          client)
relay-IsRelayed limit r h client read =
    let prefix = take (suc limit) r.body in
    let rest = drop (suc limit) r.body in
    let complete = leb (length prefix) limit in
    let client' = left_after client prefix in
    if_holds (IsRelayed r client) (fits client prefix && not complete)
      (λ on.
        finish-IsRelayed r client h _ (refused client' rest) (fits client' rest && not r.fails)
          (take-drop (suc limit) r.body
            ∙ rw (accepted-all client prefix (ground (arith, on))) (
                ap (λ (ys : List ℕ). prefix ++ ys) (accepted-refused client' rest)
                ∙ sym (append_assoc prefix (accepted client' rest) (refused client' rest))))
          (λ sent. (refused-none client' rest (ground (arith, sent)), ground (arith, sent)))
          (λ unsent. elim (Bool-cases r.fails) [
            | inl fails ↦ inl fails
            | inr fine ↦ inr (
                fits_rest (suc limit) client r.body (ground (arith, on))
                  (ground (arith, unsent, fine)))
          ]))
      (λ off.
        finish-IsRelayed r client h _ (refused client prefix ++ rest) (fits client prefix)
          (take-drop (suc limit) r.body
            ∙ (ap (λ (ys : List ℕ). ys ++ rest) (accepted-refused client prefix)
                ∙ append_assoc (accepted client prefix) (refused client prefix) rest))
          (λ sent. ended (ground (arith, off, sent)) (refused-none client prefix sent))
          (λ unsent. inr (fits_prefix (suc limit) client r.body unsent)))
  where
    ended :
        leb (length (take (suc limit) r.body)) limit ≡ true
        → refused client (take (suc limit) r.body) ≡ []
        → (refused client (take (suc limit) r.body) ++ drop (suc limit) r.body ≡ [])
          × (r.fails ≡ false)
    ended complete taken = (
      rw (taken, drop_complete limit r.body complete) refl,
      grind (arith, length-take, read, complete),
    )

module _ (limit error_status : ℕ) (is_error_envelope : List ℕ → Bool) (r : Response)
    (client : Option ℕ) where
  abbrev IsSound : ProxyResult × Sent → Type 0
  IsSound = IsFaithful limit error_status is_error_envelope r client

  relayed-IsSound :
      (x : ProxyResult × Sent)
      → IsRelayed r client x
      → (limit < length r.body) ⊎ (is_error_envelope r.body ≡ false)
      → IsSound x
  unfolding IsRelayed IsFaithful
  relayed-IsSound (p, error_page status code) h inspected = absurd h
  relayed-IsSound (p, relayed status h bytes) (n, e, k) inspected = (n, e, inspected, k)

  read_failed-IsSound :
      (r.fails && leb (length r.body) limit) ≡ true
      → IsSound (page error_status "UPSTREAM_READ_ERROR")
  unfolding IsFaithful
  read_failed-IsSound h = (refl, refl, refl, refl, ground (arith, h), inl (refl, ground (arith, h)))

  envelope-IsSound :
      (r.fails && leb (length r.body) limit) ≡ false
      → (leb (length (take (suc limit) r.body)) limit
          && is_error_envelope (take (suc limit) r.body))
        ≡ true
      → IsSound (page error_status "UPSTREAM_MODEL_ERROR")
  unfolding IsFaithful
  envelope-IsSound read h =
      let complete : leb (length (take (suc limit) r.body)) limit ≡ true = ground (arith, h) in
      let whole : take (suc limit) r.body ≡ r.body = take_complete limit r.body complete in
      let short : leb (length r.body) limit ≡ true =
        subst (λ (xs : List ℕ). leb (length xs) limit ≡ true) whole complete in
      let envelope : is_error_envelope (take (suc limit) r.body) ≡ true = ground (arith, h) in
      (
        refl,
        refl,
        refl,
        refl,
        ground (arith, short),
        inr (
          refl,
          ground (arith, read, short),
          subst (λ (xs : List ℕ). is_error_envelope xs ≡ true) whole envelope,
        ),
      )

  inspected :
      (leb (length (take (suc limit) r.body)) limit && is_error_envelope (take (suc limit) r.body))
        ≡ false
      → (limit < length r.body) ⊎ (is_error_envelope r.body ≡ false)
  inspected h = elim (Bool-cases (leb (length (take (suc limit) r.body)) limit)) [
    | inr long ↦ inl (grind (arith, length-take, long))
    | inl complete ↦
        let off : is_error_envelope (take (suc limit) r.body) ≡ false =
          ground (arith, h, complete) in
        inr (
          subst (λ (xs : List ℕ). is_error_envelope xs ≡ false)
            (take_complete limit r.body complete) off)
  ]

-- Whatever the provider's response and the client's connection do, the client gets an error page of the gateway and none of
-- the body, with the code UPSTREAM_READ_ERROR only if a read failed within the limit and UPSTREAM_MODEL_ERROR only if the
-- whole body is within the limit and an error envelope; or it gets a prefix of a body that is longer than the limit or no
-- error envelope, with the provider's status and an exact count, and the code is empty only if that prefix is the whole
-- body and no read failed, and is CLIENT_DISCONNECT otherwise, which happens only if a read failed or the client's connection
-- did before it had the whole body.
pub proxy_buffered-IsFaithful :
    (limit error_status : ℕ) (is_error_envelope : List ℕ → Bool) (request_id : String)
    (r : Response) (client : Option ℕ)
    → IsFaithful limit error_status is_error_envelope r client
        (proxy_buffered limit error_status is_error_envelope request_id r client)
unfolding proxy_buffered
proxy_buffered-IsFaithful limit error_status is_error_envelope request_id r client =
    if_holds (IsSound limit error_status is_error_envelope r client)
      (r.fails && leb (length r.body) limit)
      (read_failed-IsSound limit error_status is_error_envelope r client)
      (λ read.
        if_holds (IsSound limit error_status is_error_envelope r client)
          (leb (length (take (suc limit) r.body)) limit
            && is_error_envelope (take (suc limit) r.body))
          (envelope-IsSound limit error_status is_error_envelope r client read)
          (λ off.
            relayed-IsSound limit error_status is_error_envelope r client _
              (relay-IsRelayed limit r _ client read)
              (inspected limit error_status is_error_envelope r client off)))
