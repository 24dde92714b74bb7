-- ===== src/Audit/Deny/Model/Budget.antt =====
-- The budget of semantic reviews over `callCyberDenyModel`.
use newapi_risk_platform.Base.{ℕ, ◌≤◌, ◌≡◌, ◌==◌, if◌then◌else◌, List, length}
use newapi_risk_platform.Audit.Types.{AuditDecision, Result}
use newapi_risk_platform.Audit.Deny.Normalize.{Engine}
use newapi_risk_platform.Audit.Deny.Grounding.{Models, SemanticState, Vote}
use newapi_risk_platform.Audit.Deny.Model.{Poll}

-- The budget is the given one, no more reviews are reserved than it allows (32 where it is 0), and no more than sixteen
-- are recorded.
unfoldable pub IsWithin : (budget : ℕ) → SemanticState → Type 0
IsWithin budget s =
    (s.review_budget ≡ budget)
    × (s.review_calls ≤ (if budget == 0 then 32 else budget))
    × (length s.records ≤ 16)

module _ {W : Type 0} (env : Models W) (engine : Engine) (budget : ℕ) where
  abbrev PollKeeps : Poll × List Vote × SemanticState × W → Type 0
  PollKeeps p = IsWithin budget p.2

  abbrev Keeps : Result AuditDecision × SemanticState × W → Type 0
  Keeps a = IsWithin budget a.1
