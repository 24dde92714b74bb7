-- ===== src/Audit/Chunks/Rounds.antt =====
-- `callModel` and the entry of `callModelChunks` of internal/platform/audit_long_context.go: the whole text first, then
-- chunks that are halved as long as the model refuses their length.
pub mod Allowing
use newapi_risk_platform.Base.{
  ℕ, zero, suc, ◌+◌, ◌/◌, Bool, true, false, String, List, [], ◌∷◌, Option, none, some, ltb, leb,
  ◌==◌, str_eq, if◌then◌else◌, length, ◌&&◌,
}
use newapi_risk_platform.Audit.Types.{
  AuditDecision, AuditError, CallMetadata, Result, ok, err, new_audit_model_call_error,
}
use newapi_risk_platform.Audit.Chunks.Split.{split_audit_text_with_offsets}
use newapi_risk_platform.Audit.Chunks.Collect.{
  ChunkResult, combine_chunks, is_audit_context_length_error, observe_audit_context_error,
}

abbrev pub audit_chunk_retry_limit : ℕ
audit_chunk_retry_limit = 4

-- What the workers delivered for one round, and the counters that they moved.
pub record Delivery : Type 0 where
  pub results : List ChunkResult
  pub ended : Option AuditError
  pub completed : ℕ
  pub reused : ℕ

-- The model and the engine's other parts, as calls that may change a state. `size_after` is
-- `recoveryAuditChunkBytes`, which computes with floating-point numbers.
pub record Model (W : Type 0) : Type 0 where
  pub full : ℕ
  pub max_audit_chunks : ℕ
  pub chunk_overlap_bytes : ℕ
  pub ctx_err : W → Option AuditError × W
  pub configure_chunk_budget : ℕ → W → Option AuditError × W
  pub call_model_once : List ℕ → W → Result AuditDecision × W
  pub deliver : List (ℕ × ℕ) → W → Delivery × W
  pub size_after : AuditError → ℕ

abbrev answer_of : List ChunkResult → Result AuditDecision
answer_of [] = err (new_audit_model_call_error "connection" 0)
answer_of (r ∷ rs) = r.answer

-- No chunk is an error, one chunk answers for itself, and several are combined.
unfoldable pub call_model_chunks : (full : ℕ) → List (ℕ × ℕ) → Delivery → Result AuditDecision
call_model_chunks full [] d = err (new_audit_model_call_error "input_too_large" 0)
call_model_chunks full (c ∷ []) d = answer_of d.results
call_model_chunks full (c ∷ c' ∷ cs) d =
    combine_chunks full (length (c ∷ c' ∷ cs)) d.results d.ended

unfoldable pub halve : ℕ → ℕ
halve chunk_bytes = if ltb (chunk_bytes / 2) 1024 then 1024 else chunk_bytes / 2

module _ {W : Type 0} (model : Model W) (text : List ℕ) where
  abbrev Reply : Type 0
  Reply = Result AuditDecision × CallMetadata × W

  -- An error ends the call; otherwise it goes on.
  unfoldable pub unless_error : Option AuditError → CallMetadata → W → Reply → Reply
  unless_error none m w next = next
  unless_error (some e) m w next = (err e, m, w)

  -- After a round: only a refused length leads to another one.
  unfoldable pub after_round :
      Result AuditDecision
      → CallMetadata
      → W
      → (chunk_bytes : ℕ) → (again : AuditError → CallMetadata → W → Reply) → Reply
  after_round (ok d) m w chunk_bytes again = (ok d, m, w)
  after_round (err e) m w chunk_bytes again =
      let m' = observe_audit_context_error m e in
      if is_audit_context_length_error e
      then (if leb chunk_bytes 1024 then (err e, m', w) else again e m' w)
      else (err e, m, w)

  unfoldable pub run_round :
      (retry chunk_bytes : ℕ)
      → CallMetadata
      → W
      → (again : AuditError → CallMetadata → W → Reply) → Reply
  run_round retry chunk_bytes m w again =
      let chunks = split_audit_text_with_offsets text chunk_bytes model.chunk_overlap_bytes in
      let m1 = record m {
        chunk_count = length chunks;
        chunk_bytes = chunk_bytes;
        retry_count = retry + 1;
      } in
      let (e1, w1) = model.ctx_err w in
      let (e2, w2) = model.configure_chunk_budget (length chunks) w1 in
      let (d, w3) = model.deliver chunks w2 in
      let m2 = record m1 { chunks_completed = d.completed; chunks_reused = d.reused } in
      if ltb 0 model.max_audit_chunks && ltb model.max_audit_chunks (length chunks)
      then (err (new_audit_model_call_error "input_too_large" 0), m1, w)
      else unless_error e1 m1 w1 (
          unless_error e2 m1 w2
            (after_round (call_model_chunks model.full chunks d) m2 w3 chunk_bytes again))

  unfoldable pub chunk_rounds :
      (left retry chunk_bytes : ℕ) → (last : AuditError) → CallMetadata → W → Reply
  chunk_rounds zero retry chunk_bytes last m w = (err last, m, w)
  chunk_rounds (suc left) retry chunk_bytes last m w =
      run_round retry chunk_bytes m w (chunk_rounds left (retry + 1) (halve chunk_bytes))

  abbrev single : CallMetadata
  single = record {
    chunks_completed = 0;
    chunks_reused = 0;
    mode = "single";
    chunk_count = 1;
    chunk_bytes = length text;
    requested_tokens = 0;
    requested_tokens_lower_bound = false;
    observed_output_tokens = 0;
    context_window_tokens = 0;
    retry_count = 0;
  }

  unfoldable pub after_once : Result AuditDecision → W → Reply
  after_once (ok d) w = (ok d, record single { chunks_completed = 1 }, w)
  after_once (err e) w =
      let m =
        observe_audit_context_error (record single { mode = "chunked_after_context_limit" }) e in
      if is_audit_context_length_error e
      then chunk_rounds audit_chunk_retry_limit 0 (model.size_after e) e m w
      else (err e, single, w)

  -- A call resumes the chunks of an earlier attempt, or starts with the whole text.
  unfoldable pub call_model : (resume : CallMetadata) → (no_error : AuditError) → W → Reply
  call_model resume no_error w =
      let (e, w1) = model.configure_chunk_budget 1 w in
      let (r, w2) = model.call_model_once text w1 in
      if str_eq resume.mode "chunked_after_context_limit" && ltb 0 resume.chunk_bytes
      then chunk_rounds audit_chunk_retry_limit 0 resume.chunk_bytes no_error resume w
      else unless_error e single w1 (after_once r w2)
