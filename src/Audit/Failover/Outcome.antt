-- ===== src/Audit/Failover/Outcome.antt =====
-- The attempt log agrees with the answer, and is bounded.
use newapi_risk_platform.Base.{
  ℕ, zero, suc, ◌+◌, ◌≤◌, ◌≡◌, refl, Bool, false, List, [], ◌∷◌, ◌++◌, Option, none, some, leb,
  arith, length, All, All-append, inl, inr, length-append, ◌⊎◌, if_holds,
}
use newapi_risk_platform.Audit.Types.{
  Verdict, AuditDecision, AuditError, CallMetadata, Result, ok, err, AuditProfile,
}
use newapi_risk_platform.Audit.Failover.{
  AuditAttempt, FailoverMetadata, Ending, decided, failed_open, given_up, fail_open, log_attempt,
  Surroundings, stop_if, answer_if, after_profile, retry_profile, after_call, attempt_profile,
  attempt_loop, profile_loop, Answer, call_model_with_failover, is_terminal,
  audit_error_retryable_on_same_profile, govern_profile, max_audit_total_attempts,
}

abbrev pub IsFailure : AuditAttempt → Type 0
IsFailure a = a.outcome ≡ none

-- The log counts the attempts, and there are at most 24.
abbrev pub IsCounted : FailoverMetadata → Type 0
IsCounted m = (m.attempt_count ≡ length m.attempts) × (m.attempt_count ≤ max_audit_total_attempts)

abbrev IsFailing : FailoverMetadata → Type 0
IsFailing m = IsCounted m × All IsFailure m.attempts

-- Every attempt failed but the last, which gave the verdict.
abbrev pub EndsWith : Verdict → FailoverMetadata → Type 0
EndsWith v m =
    (failures : List AuditAttempt) × (last : AuditAttempt) × (m.attempts ≡ failures ++ (last ∷ []))
    × (last.outcome ≡ some v)
    × All IsFailure failures

abbrev Agrees : Ending → FailoverMetadata → Type 0
Agrees (decided d) m = IsCounted m × EndsWith d.verdict m
Agrees (failed_open e) m = IsFailing m
Agrees (given_up e) m = IsFailing m

log_attempt-IsCounted :
    (p : AuditProfile) (n : ℕ) (r : Result AuditDecision) (c : CallMetadata) (m : FailoverMetadata)
    → IsCounted m
    → leb max_audit_total_attempts m.attempt_count ≡ false
    → IsCounted (log_attempt p n r c m)
unfolding log_attempt
log_attempt-IsCounted p n r c m k room = grind (arith, length-append)

log_attempt-IsFailing :
    (p : AuditProfile) (n : ℕ) (e : AuditError) (c : CallMetadata) (m : FailoverMetadata)
    → IsFailing m
    → leb max_audit_total_attempts m.attempt_count ≡ false
    → IsFailing (log_attempt p n (err e) c m)
unfolding log_attempt
log_attempt-IsFailing p n e c m k room =
    (log_attempt-IsCounted p n (err e) c m k.0 room, All-append IsFailure _ _ k.1 (refl, tt))

log_attempt-EndsWith :
    (p : AuditProfile) (n : ℕ) (d : AuditDecision) (c : CallMetadata) (m : FailoverMetadata)
    → All IsFailure m.attempts
    → EndsWith d.verdict (log_attempt p n (ok d) c m)
unfolding log_attempt
log_attempt-EndsWith p n d c m k = (m.attempts, _, refl, refl, k)

module _ {W : Type 0} (env : Surroundings W) (deny : Bool) where
  abbrev Again : Type 0
  Again = Option (ℕ → CallMetadata → FailoverMetadata → W → Ending × FailoverMetadata × W)

  abbrev AgreesAgain : Again → Type 0
  AgreesAgain none = Unit
  AgreesAgain (some f) =
      (format : ℕ) (c : CallMetadata) (m : FailoverMetadata) (w : W)
      → IsFailing m
      → Agrees (f format c m w).0 (f format c m w).1

  abbrev AgreesStep : Ending × FailoverMetadata × W → Type 0
  AgreesStep s = Agrees s.0 s.1

  stop_if-Agrees :
      (o : Option AuditError) (m : FailoverMetadata) (w : W) (next : Ending × FailoverMetadata × W)
      → IsFailing m
      → AgreesStep next
      → AgreesStep (stop_if env deny o m w next)
  unfolding stop_if
  stop_if-Agrees none m w next k a = a
  stop_if-Agrees (some e) m w next k a = k

  retry_profile-Agrees :
      (attempt format : ℕ) (e : AuditError) (c : CallMetadata) (again : Again)
      → AgreesAgain again
      → (m : FailoverMetadata) (w : W) → IsFailing m
      → AgreesStep (retry_profile env deny attempt format e c again m w)
  unfolding retry_profile
  retry_profile-Agrees attempt format e c none h m w k = k
  retry_profile-Agrees attempt format e c (some f) h m w k =
      if_holds AgreesStep (audit_error_retryable_on_same_profile e)
        (λ _. stop_if-Agrees _ _ _ _ k (h _ c _ _ k)) (λ _. k)

  after_call-Agrees :
      (p : AuditProfile) (attempt format : ℕ) (r : Result AuditDecision) (c : CallMetadata)
      (again : Again)
      → AgreesAgain again
      → (m : FailoverMetadata) (w : W) → IsFailing m
      → leb max_audit_total_attempts m.attempt_count ≡ false
      → AgreesStep (after_call env deny p attempt format r c again m w)
  unfolding after_call
  after_call-Agrees p attempt format (ok d) c again h m w k room = (
    log_attempt-IsCounted p attempt (ok d) c m k.0 room,
    log_attempt-EndsWith p attempt d c m k.1,
  )
  after_call-Agrees p attempt format (err e) c again h m w k room =
      let failing = log_attempt-IsFailing p attempt e c m k room in
      if_holds AgreesStep (is_terminal deny e) (λ _. failing)
        (λ _. retry_profile-Agrees attempt format e c again h _ w failing)

  attempt_profile-Agrees :
      (p : AuditProfile) (attempt format : ℕ) (c : CallMetadata) (again : Again)
      → AgreesAgain again
      → (m : FailoverMetadata) (w : W) → IsFailing m
      → AgreesStep (attempt_profile env deny p attempt format c again m w)
  unfolding attempt_profile
  attempt_profile-Agrees p attempt format c again h m w k = stop_if-Agrees _ m _ _ k (
      if_holds AgreesStep (leb max_audit_total_attempts m.attempt_count) (λ _. k)
        (λ room. after_call-Agrees p attempt format _ _ again h m _ k room))

  attempt_loop-Agrees :
      (p : AuditProfile) (r attempt format : ℕ) (c : CallMetadata) (m : FailoverMetadata) (w : W)
      → IsFailing m
      → AgreesStep (attempt_loop env deny p r attempt format c m w)
  unfolding attempt_loop
  attempt_loop-Agrees p zero attempt format c m w k =
      attempt_profile-Agrees p attempt format c none tt m w k
  attempt_loop-Agrees p (suc r) attempt format c m w k =
      attempt_profile-Agrees p attempt format c (some (attempt_loop env deny p r (attempt + 1)))
        (attempt_loop-Agrees p r (attempt + 1)) m w k

  -- What an answer says agrees with its log.
  abbrev pub IsHonest : Answer → Type 0
  IsHonest a =
      IsCounted a.metadata
      × (((e : AuditError) × (a.result ≡ fail_open deny e) × All IsFailure a.metadata.attempts)
          ⊎ ((d : AuditDecision) × (a.result ≡ ok d) × EndsWith d.verdict a.metadata))

  abbrev honest_failure :
      (used : AuditProfile) (m : FailoverMetadata) (e : AuditError)
      → IsFailing m
      → IsHonest (record { result = fail_open deny e; used = used; metadata = m })
  honest_failure used m e k = (k.0, inl (e, refl, k.1))

  after_profile-IsHonest :
      (end : Ending) (used : AuditProfile) (m : FailoverMetadata) (w : W)
      → (rest : Option AuditError → Answer × W) → Agrees end m
      → (IsFailing m → (e : Option AuditError) → IsHonest (rest e).0)
      → IsHonest (after_profile env deny end used m w rest).0
  unfolding after_profile
  after_profile-IsHonest (decided d) used m w rest a h = (a.0, inr (d, refl, a.1))
  after_profile-IsHonest (failed_open e) used m w rest a h = honest_failure used m e a
  after_profile-IsHonest (given_up e) used m w rest a h = h a e

  answer_if-IsHonest :
      (o : Option AuditError) (used : AuditProfile) (m : FailoverMetadata) (w : W)
      (next : Answer × W)
      → IsFailing m
      → IsHonest next.0
      → IsHonest (answer_if env deny o used m w next).0
  unfolding answer_if
  answer_if-IsHonest none used m w next k h = h
  answer_if-IsHonest (some e) used m w next k h = honest_failure used m e k

  profile_loop-IsHonest :
      (root : AuditProfile) (ps : List AuditProfile) (index : ℕ) (last : Option AuditError)
      → (used : AuditProfile) (m : FailoverMetadata) (w : W) → IsFailing m
      → IsHonest (profile_loop env deny root ps index last used m w).0
  unfolding profile_loop
  profile_loop-IsHonest root [] index last used m w k = honest_failure used m _ k
  profile_loop-IsHonest root (p ∷ ps) index last used m w k = answer_if-IsHonest _ used m _ _ k (
      if_holds (λ (a : Answer × W). IsHonest a.0) (leb max_audit_total_attempts m.attempt_count)
        (λ _. honest_failure used m _ k)
        (λ _.
          after_profile-IsHonest _ _ _ _ _
            (attempt_loop-Agrees (govern_profile deny root p) _ 0 0 _ _ _ k)
            (λ k2 e. profile_loop-IsHonest root ps (index + 1) _ _ _ _ k2)))

  -- The log of attempts counts at most 24 of them, and either all of them failed and the answer is the error (or, under
  -- the deny policy, the allowing decision made from it), or all failed but the last, whose verdict the answer has.
  pub call_model_with_failover-IsHonest :
      (root : AuditProfile) (w : W) → IsHonest (call_model_with_failover env deny root w).0
  unfolding call_model_with_failover
  call_model_with_failover-IsHonest root w =
      profile_loop-IsHonest root _ 0 none root _ _ ((refl, omega arith), tt)
