-- ===== src/Audit/Chunks/Rounds/Allowing.antt =====
-- An allow of the model stands for the whole text.
use newapi_risk_platform.Base.{
  ℕ, zero, suc, ◌+◌, ◌≤◌, ◌≡◌, true, List, [], ◌∷◌, Option, none, some, ltb, leb, arith, length,
  ◌⊎◌, inl, inr, if_holds, ◌&&◌, str_eq,
}
use newapi_risk_platform.Audit.Types.{
  allow, AuditDecision, AuditError, CallMetadata, Result, ok, err,
}
use newapi_risk_platform.Audit.Chunks.Split.{split_audit_text_with_offsets}
use newapi_risk_platform.Audit.Chunks.Collect.{is_audit_context_length_error}
use newapi_risk_platform.Audit.Chunks.Collect.Verdicts.{all_allow, combine_chunks_allow}
use newapi_risk_platform.Audit.Chunks.Rounds.{
  Delivery, Model, call_model_chunks, halve, unless_error, after_round, run_round, chunk_rounds,
  after_once, call_model, answer_of, audit_chunk_retry_limit,
}

-- The results of a round allow: the one chunk allowed, or each of several answered and all that answered allowed.
abbrev pub AllAllowed : List (ℕ × ℕ) → Delivery → Type 0
AllAllowed [] d = ⊥
AllAllowed (c ∷ []) d = (a : AuditDecision) × (answer_of d.results ≡ ok a) × (a.verdict ≡ allow)
AllAllowed (c ∷ c' ∷ cs) d =
    (all_allow d.results ≡ true) × (length (c ∷ c' ∷ cs) ≤ length d.results)

call_model_chunks-AllAllowed :
    (full : ℕ) (chunks : List (ℕ × ℕ)) (d : Delivery) (a : AuditDecision)
    → call_model_chunks full chunks d ≡ ok a
    → a.verdict ≡ allow
    → AllAllowed chunks d
unfolding call_model_chunks
call_model_chunks-AllAllowed full [] d a e v = absurd (ground (arith, e))
call_model_chunks-AllAllowed full (c ∷ []) d a e v = (a, e, v)
call_model_chunks-AllAllowed full (c ∷ c' ∷ cs) d a e v =
    let k = combine_chunks_allow full (length (c ∷ c' ∷ cs)) d.results d.ended a e v in (k.0, k.1)

module _ {W : Type 0} (model : Model W) (text : List ℕ) where
  -- The chunks into which some size divides the text were delivered, and all allowed.
  abbrev pub ByChunks : Type 0
  ByChunks =
      (size : ℕ) × (w : W) × AllAllowed
        (split_audit_text_with_offsets text size model.chunk_overlap_bytes)
        (model.deliver (split_audit_text_with_offsets text size model.chunk_overlap_bytes) w).0

  -- The whole text was allowed in one call.
  abbrev pub AtOnce : Type 0
  AtOnce =
      (w : W) × (a : AuditDecision) × ((model.call_model_once text w).0 ≡ ok a)
      × (a.verdict ≡ allow)

  unfoldable IsBacked : Result AuditDecision × CallMetadata × W → Type 0
  IsBacked r = (a : AuditDecision) → r.0 ≡ ok a → a.verdict ≡ allow → AtOnce ⊎ ByChunks

  error-IsBacked : (e : AuditError) (m : CallMetadata) (w : W) → IsBacked (err e, m, w)
  unfolding IsBacked
  error-IsBacked e m w a eq v = absurd (ground (arith, eq))

  unless_error-IsBacked :
      (o : Option AuditError) (m : CallMetadata) (w : W)
      (next : Result AuditDecision × CallMetadata × W)
      → IsBacked next
      → IsBacked (unless_error model text o m w next)
  unfolding unless_error
  unless_error-IsBacked none m w next h = h
  unless_error-IsBacked (some e) m w next h = error-IsBacked e m w

  ok-IsBacked :
      (d : AuditDecision) (m : CallMetadata) (w : W)
      → ((a : AuditDecision) → ok d ≡ ok a → a.verdict ≡ allow → AtOnce ⊎ ByChunks)
      → IsBacked (ok d, m, w)
  unfolding IsBacked
  ok-IsBacked d m w k = k

  abbrev BacksAgain :
      (AuditError → CallMetadata → W → Result AuditDecision × CallMetadata × W) → Type 0
  BacksAgain again = (e : AuditError) (m : CallMetadata) (w : W) → IsBacked (again e m w)

  after_round-IsBacked :
      (r : Result AuditDecision) (m : CallMetadata) (w : W) (size : ℕ)
      → (again : AuditError → CallMetadata → W → Result AuditDecision × CallMetadata × W)
      → BacksAgain again
      → ((a : AuditDecision) → r ≡ ok a → a.verdict ≡ allow → ByChunks)
      → IsBacked (after_round model text r m w size again)
  unfolding after_round
  after_round-IsBacked (ok d) m w size again h k = ok-IsBacked d m w (λ a e v. inr (k a e v))
  after_round-IsBacked (err e) m w size again h k =
      if_holds IsBacked (is_audit_context_length_error e)
        (λ _. if_holds IsBacked (leb size 1024) (λ _. error-IsBacked e _ w) (λ _. h e _ w))
        (λ _. error-IsBacked e m w)

  run_round-IsBacked :
      (retry size : ℕ) (m : CallMetadata) (w : W)
      → (again : AuditError → CallMetadata → W → Result AuditDecision × CallMetadata × W)
      → BacksAgain again
      → IsBacked (run_round model text retry size m w again)
  unfolding run_round
  run_round-IsBacked retry size m w again h =
      let chunks = split_audit_text_with_offsets text size model.chunk_overlap_bytes in
      let m1 : CallMetadata = record m {
        chunk_count = length chunks;
        chunk_bytes = size;
        retry_count = retry + 1;
      } in
      let w1 = (model.ctx_err w).1 in
      let w2 = (model.configure_chunk_budget (length chunks) w1).1 in
      let (d, w3) = model.deliver chunks w2 in
      let m2 : CallMetadata = record m1 {
        chunks_completed = d.completed;
        chunks_reused = d.reused;
      } in
      let r = call_model_chunks model.full chunks d in
      let backed : (a : AuditDecision) → r ≡ ok a → a.verdict ≡ allow → ByChunks =
        λ a e v. (size, w2, call_model_chunks-AllAllowed model.full chunks d a e v) in
      let next = after_round-IsBacked r m2 w3 size again h backed in
      let budgeted =
        unless_error-IsBacked (model.configure_chunk_budget (length chunks) w1).0 m1 w2 _ next in
      if_holds IsBacked (ltb 0 model.max_audit_chunks && ltb model.max_audit_chunks (length chunks))
        (λ _. error-IsBacked _ m1 w)
        (λ _. unless_error-IsBacked (model.ctx_err w).0 m1 w1 _ budgeted)

  chunk_rounds-IsBacked :
      (left retry size : ℕ) (last : AuditError) (m : CallMetadata) (w : W)
      → IsBacked (chunk_rounds model text left retry size last m w)
  unfolding chunk_rounds
  chunk_rounds-IsBacked zero retry size last m w = error-IsBacked last m w
  chunk_rounds-IsBacked (suc left) retry size last m w =
      run_round-IsBacked retry size m w _ (chunk_rounds-IsBacked left (retry + 1) (halve size))

  after_once-IsBacked :
      (r : Result AuditDecision) (w : W)
      → ((a : AuditDecision) → r ≡ ok a → a.verdict ≡ allow → AtOnce)
      → IsBacked (after_once model text r w)
  unfolding after_once
  after_once-IsBacked (ok d) w k = ok-IsBacked d _ w (λ a e v. inl (k a e v))
  after_once-IsBacked (err e) w k =
      if_holds IsBacked (is_audit_context_length_error e)
        (λ _. chunk_rounds-IsBacked audit_chunk_retry_limit 0 (model.size_after e) e _ w)
        (λ _. error-IsBacked e _ w)

  call_model-IsBacked :
      (resume : CallMetadata) (no_error : AuditError) (w : W)
      → IsBacked (call_model model text resume no_error w)
  unfolding call_model
  call_model-IsBacked resume no_error w =
      if_holds IsBacked
        (str_eq resume.mode "chunked_after_context_limit" && ltb 0 resume.chunk_bytes)
        (λ _. chunk_rounds-IsBacked audit_chunk_retry_limit 0 resume.chunk_bytes no_error resume w)
        (λ _. unless_error-IsBacked _ _ _ _ (after_once-IsBacked _ _ (λ a e v. (_, a, e, v))))

  -- When the model's answer allows, then it allowed the whole text in one call, or the text was
  -- divided into chunks by some size, and the one chunk allowed, or at least as many answers as
  -- there are chunks were delivered and all of them allow.
  pub call_model_allow :
      (resume : CallMetadata) (no_error : AuditError) (w : W) (a : AuditDecision)
      → (call_model model text resume no_error w).0 ≡ ok a
      → a.verdict ≡ allow
      → AtOnce ⊎ ByChunks
  unfolding IsBacked
  call_model_allow resume no_error w = call_model-IsBacked resume no_error w
