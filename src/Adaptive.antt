-- ===== src/Adaptive.antt =====
-- The rules that are learned from failures of the provider: internal/platform/adaptive_rules.go, with its tables as lists of
-- rows. A confidence is a number of steps of .005, each `unit` wide.

pub mod Promotion
pub mod Users
mod Tests
use newapi_risk_platform.Base.{
  ℕ, zero, suc, ◌+◌, ◌*◌, Bool, true, false, not, ◌&&◌, ◌||◌, String, List, [], ◌∷◌, ◌++◌, Option,
  none, some, leb, ltb, ◌==◌, str_eq, if◌then◌else◌, count_if,
}
use newapi_risk_platform.Base.Maps
use newapi_risk_platform.Base.Maps.{Dict}
use newapi_risk_platform.Audit.{Verdict, allow, block, review}

pub data Status : Type 0 where
  candidate shadow promoted rejected : Status

pub record Candidate : Type 0 where
  pub fingerprint : String
  pub proposed_code : String
  pub category : String
  pub pattern : String
  pub confidence : ℕ
  pub evidence_count : ℕ
  pub distinct_users : ℕ
  pub status : Status

pub record StoredRule : Type 0 where
  pub category : String
  pub pattern : String
  pub action : Verdict
  pub enabled : Bool

-- The tables `cyber_rule_candidates` by fingerprint, `cyber_rule_candidate_users`, and `cyber_rules` by code.
pub record Tables : Type 0 where
  pub candidates : Dict Candidate
  pub users : List (String × String)
  pub rules : Dict StoredRule

pub record AdaptiveRulePolicy : Type 0 where
  pub enabled : Bool
  pub auto_promote : Bool
  pub min_confidence : ℕ
  pub min_evidence : ℕ
  pub min_distinct_users : ℕ
  pub auto_block : Bool

unfoldable pub normalize_adaptive_policy : (unit : ℕ) → AdaptiveRulePolicy → AdaptiveRulePolicy
normalize_adaptive_policy unit p = record p {
  min_confidence =
      if ltb p.min_confidence (160 * unit) || ltb (200 * unit) p.min_confidence
      then 197 * unit
      else p.min_confidence;
  min_evidence = if ltb p.min_evidence 1 || ltb 1000 p.min_evidence then 3 else p.min_evidence;
  min_distinct_users = if ltb 1000 p.min_distinct_users then 2 else p.min_distinct_users;
}

unfoldable pub adaptive_failure_eligible : (status : ℕ) → (error_class : String) → Bool
adaptive_failure_eligible status class =
    (status == 400 || status == 403 || status == 422 || status == 451)
    || (status == 200
        && (str_eq class "UPSTREAM_MODEL_ERROR" || str_eq class "UPSTREAM_STREAM_ERROR"))

abbrev pub is_promoted : Status → Bool
is_promoted promoted = true
is_promoted _ = false

abbrev pub is_rejected : Status → Bool
is_rejected rejected = true
is_rejected _ = false

abbrev pub is_block : Verdict → Bool
is_block block = true
is_block _ = false

abbrev pub seen_again : Status → Status
seen_again candidate = shadow
seen_again s = s

-- The row that the insertion gives, or the one that it merges with.
abbrev pub merged : Candidate → Option Candidate → Candidate
merged c none = record c { evidence_count = 1; distinct_users = 0; status = candidate }
merged c (some old) = record old {
  confidence = if ltb old.confidence c.confidence then c.confidence else old.confidence;
  evidence_count = old.evidence_count + 1;
  status = seen_again old.status;
}

abbrev pub is_user_of : String → String × String → Bool
is_user_of fingerprint (f, d) = str_eq f fingerprint

abbrev pub has_user : String × String → List (String × String) → Bool
has_user u [] = false
has_user (f, d) ((g, e) ∷ us) = str_eq f g && str_eq d e || has_user (f, d) us

abbrev pub add_user : String → String → List (String × String) → List (String × String)
add_user f d us = if has_user (f, d) us then us else us ++ ((f, d) ∷ [])

-- The committed transaction: the row and the tables.
unfoldable pub upsert_candidate : Candidate → (user_digest : String) → Tables → Candidate × Tables
upsert_candidate c digest t =
    let f = c.fingerprint in
    let stored = merged c (Maps.lookup f t.candidates) in
    let users = add_user f digest t.users in
    let counted = record stored { distinct_users = count_if (is_user_of f) users } in
    if str_eq digest ""
    then (stored, record t { candidates = Maps.put f stored t.candidates })
    else (counted, record t { candidates = Maps.put f counted t.candidates; users = users })

-- An error rolls the transaction back.
unfoldable pub upsert_cyber_rule_candidate :
    (commits : Bool) → Candidate → (user_digest : String) → Tables → Option Candidate × Tables
upsert_cyber_rule_candidate false c digest t = (none, t)
upsert_cyber_rule_candidate true c digest t =
    let (stored, t') = upsert_candidate c digest t in (some stored, t')

abbrev pub with_status : Status → Option Candidate → Dict Candidate → String → Bool × Dict Candidate
with_status s none rows f = (false, rows)
with_status s (some c) rows f =
    if is_promoted c.status
    then (false, rows)
    else (true, Maps.put f (record c { status = s }) rows)

-- No row is updated that does not exist or is promoted.
unfoldable pub set_cyber_rule_candidate_status : String → Status → Tables → Bool × Tables
set_cyber_rule_candidate_status f promoted t = (false, t)
set_cyber_rule_candidate_status f s t =
    let (updated, rows) = with_status s (Maps.lookup f t.candidates) t.candidates f in
    (updated, record t { candidates = rows })

abbrev pub old_action : Option StoredRule → Verdict
old_action none = review
old_action (some r) = r.action

unfoldable pub proposed_action : (unit : ℕ) → (auto_block : Bool) → Candidate → Verdict
proposed_action unit auto_block c =
    if auto_block
      && leb (199 * unit) c.confidence
      && leb 10 c.evidence_count
      && leb 3 c.distinct_users
    then block
    else review

abbrev pub mark_promoted : Option Candidate → String → Dict Candidate → Dict Candidate
mark_promoted none f rows = rows
mark_promoted (some c) f rows = Maps.put f (record c { status = promoted }) rows

-- A rule that blocks keeps blocking.
abbrev pub promoted_rule : (action old : Verdict) → Candidate → StoredRule
promoted_rule action old c = record {
  category = c.category;
  pattern = c.pattern;
  action = if is_block old || is_block action then block else action;
  enabled = true;
}

unfoldable pub promote_cyber_rule_candidate :
    (unit : ℕ) → (commits auto_block : Bool) → Candidate → Tables → Tables
promote_cyber_rule_candidate unit commits auto_block c t =
    let old = old_action (Maps.lookup c.proposed_code t.rules) in
    let rule = promoted_rule (proposed_action unit auto_block c) old c in
    let f = c.fingerprint in
    if commits
    then record t {
      candidates = mark_promoted (Maps.lookup f t.candidates) f t.candidates;
      rules = Maps.put c.proposed_code rule t.rules;
    }
    else t

abbrev pub is_open : Status → Bool
is_open candidate = true
is_open shadow = true
is_open _ = false

abbrev pub is_absent : Option StoredRule → Bool
is_absent none = true
is_absent (some _) = false

abbrev pub approve_row :
    (action : Verdict) → (valid commits : Bool) → Option Candidate → Tables → Bool × Tables
approve_row action valid commits none t = (false, t)
approve_row action valid commits (some c) t =
    if is_open c.status && valid && is_absent (Maps.lookup c.proposed_code t.rules) && commits
    then (
      true,
      record t {
        candidates = Maps.put c.fingerprint (record c { status = promoted }) t.candidates;
        rules =
            Maps.put c.proposed_code
              (record {
                category = c.category;
                pattern = c.pattern;
                action = action;
                enabled = true;
              })
              t.rules;
      },
    )
    else (false, t)

-- An approval replaces no rule; `valid` is whether the candidate's rule and the action are.
unfoldable pub promote_cyber_rule_candidate_manual :
    (fingerprint : String) → (action : Verdict) → (valid commits : Bool) → Tables → Bool × Tables
promote_cyber_rule_candidate_manual f action valid commits t =
    approve_row action valid commits (Maps.lookup f t.candidates) t

-- What the model and the checks of its answer give for a sample: a harmful classification with a candidate.
pub record Learned : Type 0 where
  pub is_cyber : Bool
  pub confidence : ℕ
  pub category_allowed : Bool
  pub indicators : ℕ
  pub has_pattern : Bool
  pub proposal : Candidate
  pub user_digest : String

-- What the surroundings answer: an enabled profile, the policy after the upsert, and the two transactions.
pub record Reply : Type 0 where
  pub profile_enabled : Bool
  pub upsert_commits : Bool
  pub promote_commits : Bool
  pub later_policy : AdaptiveRulePolicy

unfoldable pub is_ripe : AdaptiveRulePolicy → Candidate → Bool
is_ripe p c =
    p.auto_promote
    && not (is_rejected c.status)
    && leb p.min_confidence c.confidence
    && leb p.min_evidence c.evidence_count
    && leb p.min_distinct_users c.distinct_users

abbrev pub promote_if_ripe : (unit : ℕ) → Reply → Option Candidate → Tables → Tables
promote_if_ripe unit r none t = t
promote_if_ripe unit r (some c) t =
    if is_ripe r.later_policy c
    then promote_cyber_rule_candidate unit r.promote_commits r.later_policy.auto_block c t
    else t

unfoldable pub process_adaptive_failure :
    (unit : ℕ) → AdaptiveRulePolicy → Option Learned → Reply → Tables → Tables
process_adaptive_failure unit policy none r t = t
process_adaptive_failure unit policy (some l) r t =
    let (stored, t') = upsert_cyber_rule_candidate r.upsert_commits l.proposal l.user_digest t in
    if policy.enabled
      && r.profile_enabled
      && l.is_cyber
      && leb (160 * unit) l.confidence
      && l.category_allowed
      && leb 2 l.indicators
      && l.has_pattern
    then promote_if_ripe unit r stored t'
    else t

-- What happens to the tables: a sample, a change by an administrator, or an approval by one.
pub data Op : Type 0 where
  learn : AdaptiveRulePolicy → Option Learned → Reply → Op
  set_status : String → Status → Op
  approve : (fingerprint : String) → (action : Verdict) → (valid commits : Bool) → Op

unfoldable pub step : (unit : ℕ) → Op → Tables → Tables
step unit (learn policy l r) t = process_adaptive_failure unit policy l r t
step unit (set_status f s) t = (set_cyber_rule_candidate_status f s t).1
step unit (approve f action valid commits) t =
    (promote_cyber_rule_candidate_manual f action valid commits t).1

unfoldable pub run : (unit : ℕ) → List Op → Tables → Tables
run unit [] t = t
run unit (op ∷ ops) t = run unit ops (step unit op t)
