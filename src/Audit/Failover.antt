-- ===== src/Audit/Failover.antt =====
-- `callModelWithFailover` of internal/platform/audit_failover.go: retries on a profile, then the fallback profiles.
mod Policy
pub mod Bounds
pub mod Outcome
mod Tests
unfoldable pub use Policy.*
use newapi_risk_platform.Base.{
  ℕ, zero, suc, ◌+◌, ◌*◌, ◌<◌, Bool, true, false, not, ◌&&◌, ◌||◌, String, List, [], ◌∷◌, ◌++◌,
  Option, none, some, ltb, leb, ◌==◌, str_eq, if◌then◌else◌, length, ℤ, pos, negsuc, lebℤ, min,
  pos_part,
}
use newapi_risk_platform.Base.Maps
use newapi_risk_platform.Base.Maps.{Dict}
use text.Mathlib.Text.{starts_with}
use newapi_risk_platform.Audit.Types.{
  Verdict, allow, AuditDecision, CallError, AuditError, call_error, deadline_exceeded, canceled,
  other, new_audit_model_call_error, audit_model_error_details, CallMetadata, Result, ok, err,
  AuditProfile,
}

-- The rest of the program and the clock, as a state that each call may change.
pub record Surroundings (W : Type 0) : Type 0 where
  pub ctx_err : W → Option AuditError × W
  pub get_audit_profile : ℤ → W → Option AuditProfile × W
  pub call_model :
      AuditProfile
      → (format_attempt : ℕ) → CallMetadata
      → W
      → (Result AuditDecision × CallMetadata) × W
  pub wait : ℕ → W → Option AuditError × W

abbrev budget_exhausted : AuditError
budget_exhausted = new_audit_model_call_error "retry_budget_exhausted" 0

abbrev mem_id : ℤ → List ℤ → Bool
mem_id i [] = false
mem_id i (j ∷ js) = lebℤ i j && lebℤ j i || mem_id i js

pub record Chosen : Type 0 where
  pub seen : List ℤ
  pub profiles : List AuditProfile

abbrev add_enabled : Option AuditProfile → Chosen → Chosen
add_enabled none c = c
add_enabled (some p) c = if p.enabled then record c { profiles = c.profiles ++ (p ∷ []) } else c

pub record Answer : Type 0 where
  pub result : Result AuditDecision
  pub used : AuditProfile
  pub metadata : FailoverMetadata

-- The later of two errors.
abbrev or_last : Option AuditError → Option AuditError → Option AuditError
or_last none last = last
or_last (some e) last = some e

abbrev error_or_none : Option AuditError → AuditError
error_or_none none = new_audit_model_call_error "fallback_unavailable" 0
error_or_none (some e) = e

module _ {W : Type 0} (env : Surroundings W) (deny : Bool) where
  abbrev Step : Type 0
  Step = Ending × FailoverMetadata × W

  -- The end of the context ends the call.
  unfoldable pub stop_if : Option AuditError → FailoverMetadata → W → Step → Step
  stop_if none m w next = next
  stop_if (some e) m w next = (failed_open e, m, w)

  -- What a profile still may do after a failed attempt, if it has retries left.
  abbrev Again : Type 0
  Again = Option (ℕ → CallMetadata → FailoverMetadata → W → Step)

  unfoldable pub retry_profile :
      (attempt format : ℕ) → AuditError → CallMetadata → Again → FailoverMetadata → W → Step
  retry_profile attempt format e call none m w = (given_up (some e), m, w)
  retry_profile attempt format e call (some again) m w =
      let format' = if audit_error_needs_output_recovery e then format + 1 else format in
      let m' = record m { model_retry_count = m.model_retry_count + 1 } in
      let (ended, w') = env.wait (retry_delay attempt 75) w in
      if audit_error_retryable_on_same_profile e
      then stop_if ended m' w' (again format' call m' w')
      else (given_up (some e), m, w)

  unfoldable pub after_call :
      AuditProfile
      → (attempt format : ℕ) → Result AuditDecision
      → CallMetadata
      → Again
      → FailoverMetadata
      → W
      → Step
  after_call p attempt format (ok d) call again m w =
      (decided d, log_attempt p attempt (ok d) call m, w)
  after_call p attempt format (err e) call again m w =
      let m' = log_attempt p attempt (err e) call m in
      if is_terminal deny e
      then (failed_open e, m', w)
      else retry_profile attempt format e call again m' w

  unfoldable pub attempt_profile :
      AuditProfile → (attempt format : ℕ) → CallMetadata → Again → FailoverMetadata → W → Step
  attempt_profile p attempt format chunks again m w =
      let (ended, w1) = env.ctx_err w in
      let ((result, call), w2) = env.call_model p format chunks w1 in
      stop_if ended m w1 (
        if leb max_audit_total_attempts m.attempt_count
        then (given_up (some budget_exhausted), m, w1)
        else after_call p attempt format result call again m w2)

  -- The loop over the attempts: `remaining` retries may follow this one.
  unfoldable pub attempt_loop :
      AuditProfile → (remaining attempt format : ℕ) → CallMetadata → FailoverMetadata → W → Step
  attempt_loop p zero attempt format chunks m w = attempt_profile p attempt format chunks none m w
  attempt_loop p (suc r) attempt format chunks m w =
      attempt_profile p attempt format chunks (some (attempt_loop p r (attempt + 1))) m w

  -- A fallback is asked for once, when its identifier is positive and there is room for it.
  unfoldable pub consider_fallback : ℤ → Chosen → W → Chosen × W
  consider_fallback i c w =
      let (found, w') = env.get_audit_profile i w in
      if lebℤ i (pos 0) || ltb max_audit_fallback_profiles (length c.profiles) || mem_id i c.seen
      then (c, w)
      else (add_enabled found (record c { seen = i ∷ c.seen }), w')

  unfoldable pub choose_profiles : List ℤ → Chosen → W → Chosen × W
  choose_profiles [] c w = (c, w)
  choose_profiles (i ∷ is) c w = let (c', w') = consider_fallback i c w in choose_profiles is c' w'

  abbrev answer_with : AuditProfile → FailoverMetadata → W → Result AuditDecision → Answer × W
  answer_with used m w result = (record { result = result; used = used; metadata = m }, w)

  unfoldable pub answer_if :
      Option AuditError → AuditProfile → FailoverMetadata → W → Answer × W → Answer × W
  answer_if none used m w next = next
  answer_if (some e) used m w next = answer_with used m w (fail_open deny e)

  unfoldable pub after_profile :
      Ending → AuditProfile → FailoverMetadata → W → (Option AuditError → Answer × W) → Answer × W
  after_profile (decided d) used m w rest = answer_with used m w (ok d)
  after_profile (failed_open e) used m w rest = answer_with used m w (fail_open deny e)
  after_profile (given_up e) used m w rest = rest e

  -- Each profile is tried with its index; the last error stands until there is another.
  unfoldable pub profile_loop :
      (root : AuditProfile)
      → List AuditProfile
      → (index : ℕ) → (last : Option AuditError) → (used : AuditProfile) → FailoverMetadata
      → W
      → Answer × W
  profile_loop root [] index last used m w =
      (record { result = fail_open deny (error_or_none last); used = used; metadata = m }, w)
  profile_loop root (p ∷ ps) index last used m w =
      let (ended, w1) = env.ctx_err w in
      let p' = govern_profile deny root p in
      let m1 = record m {
        fallback_count = if index == 0 then m.fallback_count else m.fallback_count + 1;
      } in
      let (end, m2, w2) = attempt_loop p' (retries_of p') 0 0 no_call_metadata m1 w1 in
      let rest =
        λ (e : Option AuditError). profile_loop root ps (index + 1) (or_last e last) p' m2 w2 in
      answer_if ended used m w1 (
        if leb max_audit_total_attempts m.attempt_count
        then answer_with used m w1 (fail_open deny budget_exhausted)
        else after_profile end p' m2 w2 rest)

  unfoldable pub call_model_with_failover : AuditProfile → W → Answer × W
  call_model_with_failover root w =
      let first : Chosen = record { seen = root.id ∷ []; profiles = root ∷ [] } in
      let (c, w') = choose_profiles root.fallback_profile_ids first w in
      profile_loop root c.profiles 0 none root no_metadata w'
