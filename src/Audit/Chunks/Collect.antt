-- ===== src/Audit/Chunks/Collect.antt =====
-- `callModelChunks` and `callModel` of internal/platform/audit_long_context.go: the answers of the chunks in the order in
-- which the workers deliver them, and the chunks made smaller when the model refuses their length.
pub mod Verdicts
use newapi_risk_platform.Base.{
  ℕ, zero, suc, ◌+◌, ◌/◌, Bool, true, false, String, List, [], ◌∷◌, Option, none, some, ltb, leb,
  ◌==◌, str_eq, if◌then◌else◌, length, ◌&&◌, ◌||◌,
}
use newapi_risk_platform.Audit.Types.{
  plain_decision, Verdict, allow, block, review, unknown, AuditDecision, AuditError, call_error,
  CallMetadata, Result, ok, err, new_audit_model_call_error,
}
use newapi_risk_platform.Audit.Chunks.Split.{split_audit_text_with_offsets, slice}

pub record ChunkResult : Type 0 where
  pub index : ℕ
  pub answer : Result AuditDecision

-- A decision with the index of its chunk.
pub record Found : Type 0 where
  pub index : ℕ
  pub decision : AuditDecision

pub record Collected : Type 0 where
  pub first_block : Option Found
  pub strongest_review : Option Found
  pub first_error : Option AuditError
  pub allow_confidence : ℕ
  pub completed : ℕ

-- `full` is the confidence 1.0 on the scale of the decisions.
abbrev pub nothing_yet : (full : ℕ) → Collected
nothing_yet full = record {
  first_block = none;
  strongest_review = none;
  first_error = none;
  allow_confidence = full;
  completed = 0;
}

abbrev pub or_first {ℓ} : {A : Type ℓ} → Option A → A → Option A
or_first none a = some a
or_first (some b) a = some b

abbrev stronger : Option Found → Found → Option Found
stronger none f = some f
stronger (some g) f = if ltb g.decision.confidence f.decision.confidence then some f else some g

-- An error after a block is not kept.
abbrev error_unless_block : Option Found → Option AuditError → AuditError → Option AuditError
error_unless_block none first e = or_first first e
error_unless_block (some _) first e = first

unfoldable pub collect_verdict : Verdict → Found → Collected → Collected
collect_verdict block f c = record c { first_block = or_first c.first_block f }
collect_verdict review f c = record c { strongest_review = stronger c.strongest_review f }
collect_verdict allow f c = record c {
  allow_confidence =
      if ltb f.decision.confidence c.allow_confidence
      then f.decision.confidence
      else c.allow_confidence;
}
collect_verdict (unknown _) f c = record c {
  first_error = or_first c.first_error (new_audit_model_call_error "invalid_decision" 0);
}

unfoldable pub collect_answer : ℕ → Result AuditDecision → Collected → Collected
collect_answer i (ok d) c = collect_verdict d.verdict (record { index = i; decision = d }) c
collect_answer i (err e) c = record c {
  first_error = error_unless_block c.first_block c.first_error e;
}

unfoldable pub collect : List ChunkResult → Collected → Collected
collect [] c = c
collect (r ∷ rs) c =
    collect rs (collect_answer r.index r.answer (record c { completed = c.completed + 1 }))

-- The decoration keeps the fields that are modelled, but for the source.
unfoldable pub decorate_chunk_decision : Found → AuditDecision
decorate_chunk_decision f = record f.decision { source = "model_chunked" }

abbrev all_allowed : ℕ → AuditDecision
all_allowed confidence = plain_decision allow "benign" "" confidence "model_chunked"

-- The end of the context is read once more when no block and no error was found.
unfoldable pub conclude_review : Option Found → ℕ → Result AuditDecision
conclude_review (some f) confidence = ok (decorate_chunk_decision f)
conclude_review none confidence = ok (all_allowed confidence)

unfoldable pub conclude_complete :
    Option AuditError → (total : ℕ) → Collected → Result AuditDecision
conclude_complete (some e) total c = err e
conclude_complete none total c =
    if ltb c.completed total
    then err (new_audit_model_call_error "connection" 0)
    else conclude_review c.strongest_review c.allow_confidence

unfoldable pub conclude_error :
    Option AuditError → Option AuditError → (total : ℕ) → Collected → Result AuditDecision
conclude_error (some e) ended total c = err e
conclude_error none ended total c = conclude_complete ended total c

unfoldable pub conclude_block :
    Option Found → Option AuditError → (total : ℕ) → Collected → Result AuditDecision
conclude_block (some f) ended total c = ok (decorate_chunk_decision f)
conclude_block none ended total c = conclude_error c.first_error ended total c

-- The answer for `total` chunks, given what the workers delivered and the state of the context at the end.
unfoldable pub combine_chunks :
    (full total : ℕ) → List ChunkResult → Option AuditError → Result AuditDecision
combine_chunks full total rs ended =
    let c = collect rs (nothing_yet full) in conclude_block c.first_block ended total c

unfoldable pub is_audit_context_length_error : AuditError → Bool
is_audit_context_length_error (call_error e) = str_eq e.class "context_length"
is_audit_context_length_error _ = false

unfoldable pub observe_audit_context_error : CallMetadata → AuditError → CallMetadata
observe_audit_context_error m (call_error e) =
    if leb m.requested_tokens e.requested_tokens
    then record m {
      context_window_tokens = e.max_context_tokens;
      requested_tokens = e.requested_tokens;
      requested_tokens_lower_bound = e.requested_tokens_lower_bound;
      observed_output_tokens = e.observed_output_tokens;
    }
    else m
observe_audit_context_error m _ = m
