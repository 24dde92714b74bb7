-- ===== src/Audit/Chunks/Tests.antt =====
-- The chunks on concrete texts and answers.
use newapi_risk_platform.Base.{ℕ, ◌+◌, ◌≡◌, refl, false, List, [], ◌∷◌, none, arith, ◌⊎◌, All}
use newapi_risk_platform.Audit.Types.{
  plain_decision, Verdict, allow, block, review, AuditDecision, new_audit_model_call_error,
  canceled, ok, err, CallMetadata,
}
use newapi_risk_platform.Audit.Chunks.Split.{
  byte_at, rune_start, back_to_rune, forward_to_rune, last_newline, cut, chunk_end, next_start,
  split_from, split_audit_text_with_offsets,
}
use newapi_risk_platform.Audit.Chunks.Split.Coverage.{
  IsKept, IsFitting, split_audit_text_with_offsets-IsKept, split_audit_text_with_offsets-IsFitting,
}
use newapi_risk_platform.Audit.Chunks.Collect.{
  ChunkResult, combine_chunks, conclude_block, conclude_error, conclude_complete, conclude_review,
  collect, collect_answer, collect_verdict, is_audit_context_length_error,
  observe_audit_context_error,
}
use newapi_risk_platform.Audit.Chunks.Collect.Verdicts.{combine_chunks_block}
use newapi_risk_platform.Audit.Chunks.Rounds.{
  Model, call_model, after_once, chunk_rounds, run_round, after_round, unless_error,
  call_model_chunks,
}
use newapi_risk_platform.Audit.Chunks.Rounds.Allowing.{AtOnce, ByChunks, call_model_allow}

-- Two letters, a rune of two bytes, a newline and four letters.
abbrev short_text : List ℕ
short_text = 97 ∷ 98 ∷ 195 ∷ 169 ∷ 10 ∷ 99 ∷ 100 ∷ 101 ∷ 102 ∷ []

-- A cut never splits the rune at 2 and 3, and the overlap starts on a rune.
cuts : split_audit_text_with_offsets short_text 3 1 ≡ (0, 2) ∷ (2, 5) ∷ (5, 8) ∷ (8, 9) ∷ []
unfolding split_audit_text_with_offsets split_from chunk_end cut next_start forward_to_rune
    back_to_rune last_newline rune_start byte_at
cuts = refl

split_audit_text_with_offsets-IsKept_example :
    IsKept short_text 2 (split_audit_text_with_offsets short_text 3 1)
split_audit_text_with_offsets-IsKept_example =
    split_audit_text_with_offsets-IsKept short_text 3 1 2 (omega arith)

split_audit_text_with_offsets-IsFitting_example :
    All (IsFitting short_text 3) (split_audit_text_with_offsets short_text 3 1)
split_audit_text_with_offsets-IsFitting_example =
    split_audit_text_with_offsets-IsFitting short_text 3 1 (omega arith)

abbrev decision_of : Verdict → ℕ → AuditDecision
decision_of v c = plain_decision v "c" "" c "model"

-- A review, an error, and then a block.
abbrev mixed : List ChunkResult
mixed =
    record { index = 1; answer = ok (decision_of review 70) }
    ∷ record { index = 0; answer = err (new_audit_model_call_error "timeout" 0) }
    ∷ record { index = 2; answer = ok (decision_of block 90) }
    ∷ []

combine_chunks_block_example :
    (d : AuditDecision) × (combine_chunks 100 4 mixed none ≡ ok d) × (d.verdict ≡ block)
combine_chunks_block_example = combine_chunks_block 100 4 mixed none refl

abbrev both_allow : List ChunkResult
both_allow =
    record { index = 1; answer = ok (decision_of allow 70) }
    ∷ record { index = 0; answer = ok (decision_of allow 90) }
    ∷ []

-- The least confidence of the two.
abbrev agreed : AuditDecision
agreed = plain_decision allow "benign" "" 70 "model_chunked"

both_agree : combine_chunks 100 2 both_allow none ≡ ok agreed
unfolding combine_chunks conclude_block conclude_error conclude_complete conclude_review collect
    collect_answer collect_verdict
both_agree = refl

-- A model that refuses the whole text for its length and allows each of two chunks.
abbrev two_chunks : Model ℕ
two_chunks = record {
  full = 100;
  max_audit_chunks = 0;
  chunk_overlap_bytes = 0;
  ctx_err = λ w. (none, w);
  configure_chunk_budget = λ n w. (none, w);
  call_model_once = λ text w. (err (new_audit_model_call_error "context_length" 400), w + 1);
  deliver =
      λ chunks w. (record { results = both_allow; ended = none; completed = 2; reused = 0 }, w + 2);
  size_after = λ e. 5;
}

abbrev no_resume : CallMetadata
no_resume = record {
  chunks_completed = 0;
  chunks_reused = 0;
  mode = "";
  chunk_count = 0;
  chunk_bytes = 0;
  requested_tokens = 0;
  requested_tokens_lower_bound = false;
  observed_output_tokens = 0;
  context_window_tokens = 0;
  retry_count = 0;
}

chunks_agree : (call_model two_chunks short_text no_resume canceled 0).0 ≡ ok agreed
unfolding call_model after_once chunk_rounds run_round after_round unless_error call_model_chunks
    new_audit_model_call_error is_audit_context_length_error observe_audit_context_error
    combine_chunks conclude_block conclude_error conclude_complete conclude_review collect
    collect_answer collect_verdict split_audit_text_with_offsets split_from chunk_end cut next_start
    forward_to_rune back_to_rune last_newline rune_start byte_at
chunks_agree = refl

call_model_allow_example : AtOnce two_chunks short_text ⊎ ByChunks two_chunks short_text
call_model_allow_example =
    call_model_allow two_chunks short_text no_resume canceled 0 agreed chunks_agree refl
