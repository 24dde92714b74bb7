-- ===== src/Audit/Budget.antt =====
-- `configureChunkBudget` of internal/platform/audit_request_budget.go: the work plan of a request is reserved before it
-- runs. The numbers are 64-bit; each operation is taken modulo 2 ^ 64, and what is not negative is below 2 ^ 63.
use newapi_risk_platform.Base.{
  ℕ, zero, suc, ◌+◌, ◌-◌, ◌*◌, ◌/◌, ◌%◌, ◌≤◌, ◌≡◌, Bool, true, false, ◌||◌, ltb, leb, ◌==◌,
  if◌then◌else◌, max, arith, ◌⊎◌,
}

-- `maxInt`.
abbrev pub max_int : ℕ
max_int = 9223372036854775807

-- `maxAuditTotalAttempts * (auditChunkRetryLimit + 1)`.
abbrev pub max_audit_chunk_plans : ℕ
max_audit_chunk_plans = 120

abbrev pub cyber_deny_http_budget : ℕ
cyber_deny_http_budget = 64

abbrev pub max_audit_semantic_calls : ℕ
max_audit_semantic_calls = 32

pub record SemanticState : Type 0 where
  pub http_budget : ℕ
  pub review_budget : ℕ
  pub budget_plans : ℕ

abbrev wrap : ℕ → ℕ
wrap n = n % 18446744073709551616

-- Whether the plan is accepted, and the state after it. The numbers of chunks and of reviewers are zero where they are
-- not positive.
unfoldable pub configure_chunk_budget :
    (chunks reviewers : ℕ) → SemanticState → Bool × SemanticState
configure_chunk_budget chunks reviewers s =
    let http_per_chunk = wrap (2 * (1 + reviewers)) in
    let review_per_chunk = wrap (1 + 2 * reviewers) in
    let http_work = wrap (chunks * http_per_chunk) in
    let review_work = wrap (chunks * review_per_chunk) in
    let base_http = max cyber_deny_http_budget s.http_budget in
    let base_review = max max_audit_semantic_calls s.review_budget in
    if chunks == 0 || ltb reviewers 1 || ltb 3 reviewers
    then (false, s)
    else if ltb (max_int / http_per_chunk) chunks || ltb (max_int / review_per_chunk) chunks
    then (false, s)
    else if leb max_audit_chunk_plans s.budget_plans
        || ltb (max_int - base_http) http_work
        || ltb (max_int - base_review) review_work
    then (false, s)
    else (
      true,
      record {
        http_budget = wrap (base_http + http_work);
        review_budget = wrap (base_review + review_work);
        budget_plans = s.budget_plans + 1;
      },
    )

-- The budgets are numbers that do not overflow, and the plans are counted.
abbrev pub IsFinite : SemanticState → Type 0
IsFinite s =
    (s.http_budget ≤ max_int)
    × (s.review_budget ≤ max_int)
    × (s.budget_plans ≤ max_audit_chunk_plans)

-- From a finite state the plan leads to a finite one, accepted or not.
configure_chunk_budget-IsFinite :
    (chunks reviewers : ℕ) (s : SemanticState)
    → IsFinite s
    → IsFinite (configure_chunk_budget chunks reviewers s).1
unfolding configure_chunk_budget
configure_chunk_budget-IsFinite chunks zero s k = ground arith
configure_chunk_budget-IsFinite chunks (suc zero) s k = ground arith
configure_chunk_budget-IsFinite chunks (suc (suc zero)) s k = ground arith
configure_chunk_budget-IsFinite chunks (suc (suc (suc zero))) s k = ground arith
configure_chunk_budget-IsFinite chunks (suc (suc (suc (suc r)))) s k = ground arith

-- A plan was refused and nothing changed, or it was added to the budgets.
abbrev pub IsReserved : ℕ → ℕ → SemanticState → Bool × SemanticState → Type 0
IsReserved chunks reviewers s (accepted, s') =
    ((accepted ≡ false) × (s' ≡ s))
    ⊎ ((accepted ≡ true)
        × (s'.http_budget
            ≡ max cyber_deny_http_budget s.http_budget + chunks * (2 * (1 + reviewers)))
        × (s'.review_budget
            ≡ max max_audit_semantic_calls s.review_budget + chunks * (1 + 2 * reviewers))
        × (s'.budget_plans ≡ s.budget_plans + 1))

-- From a finite state an accepted plan adds the exact work of its chunks, without wrapping around, to budgets that are
-- first raised to the minimum, and counts one plan; a plan that is not accepted changes nothing.
configure_chunk_budget-IsReserved :
    (chunks reviewers : ℕ) (s : SemanticState)
    → IsFinite s
    → IsReserved chunks reviewers s (configure_chunk_budget chunks reviewers s)
unfolding configure_chunk_budget
configure_chunk_budget-IsReserved chunks zero s k = ground arith
configure_chunk_budget-IsReserved chunks (suc zero) s k = ground arith
configure_chunk_budget-IsReserved chunks (suc (suc zero)) s k = ground arith
configure_chunk_budget-IsReserved chunks (suc (suc (suc zero))) s k = ground arith
configure_chunk_budget-IsReserved chunks (suc (suc (suc (suc r)))) s k = ground arith
