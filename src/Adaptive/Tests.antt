-- ===== src/Adaptive/Tests.antt =====
-- The learned rules on a concrete candidate.
use newapi_risk_platform.Base.{refl, arith, true, List, [], ◌∷◌, some, count_if}
use newapi_risk_platform.Base.Maps
use newapi_risk_platform.Adaptive.{
  Candidate, candidate, rejected, Tables, AdaptiveRulePolicy, Learned, Reply, Op, learn, set_status,
  run, upsert_cyber_rule_candidate, upsert_candidate, process_adaptive_failure, is_ripe,
  promote_cyber_rule_candidate, proposed_action,
}
use newapi_risk_platform.Adaptive.Promotion.{Blocks, MayBlock, process_adaptive_failure-MayBlock}
use newapi_risk_platform.Adaptive.Users.{IsCounted, IsDistinct, run-IsCounted}

abbrev proposal : Candidate
proposal = record {
  fingerprint = "f1";
  proposed_code = "CYBER_ADAPTIVE_1";
  category = "malware";
  pattern = "p";
  confidence = 200;
  evidence_count = 0;
  distinct_users = 0;
  status = candidate;
}

-- Nine failures of two users are known.
abbrev known : Candidate
known = record proposal { evidence_count = 9; distinct_users = 2 }

abbrev tables : Tables
tables = record {
  candidates = ("f1", known) ∷ [];
  users = ("f1", "u1") ∷ ("f1", "u2") ∷ [];
  rules = [];
}

abbrev policy : AdaptiveRulePolicy
policy = record {
  enabled = true;
  auto_promote = true;
  min_confidence = 197;
  min_evidence = 3;
  min_distinct_users = 2;
  auto_block = true;
}

abbrev learned : Learned
learned = record {
  is_cyber = true;
  confidence = 200;
  category_allowed = true;
  indicators = 2;
  has_pattern = true;
  proposal = proposal;
  user_digest = "u3";
}

abbrev reply : Reply
reply = record {
  profile_enabled = true;
  upsert_commits = true;
  promote_commits = true;
  later_policy = policy;
}

third_user :
    Blocks "CYBER_ADAPTIVE_1" (process_adaptive_failure 1 policy (some learned) reply tables)
unfolding Blocks process_adaptive_failure upsert_cyber_rule_candidate upsert_candidate is_ripe
    promote_cyber_rule_candidate proposed_action Maps.put Maps.lookup count_if
third_user = refl

process_adaptive_failure-MayBlock_example :
    MayBlock 1 policy
      (upsert_cyber_rule_candidate true proposal "u3" tables).0
      "CYBER_ADAPTIVE_1"
      tables
process_adaptive_failure-MayBlock_example =
    process_adaptive_failure-MayBlock 1 policy learned reply tables "CYBER_ADAPTIVE_1" third_user

abbrev no_tables : Tables
no_tables = record { candidates = []; users = []; rules = [] }

no_tables-IsCounted : IsCounted no_tables
unfolding IsCounted count_if Maps.lookup
no_tables-IsCounted f = refl

abbrev ops : List Op
ops = learn policy (some learned) reply ∷ set_status "f1" rejected ∷ []

no_tables-IsDistinct : IsDistinct no_tables.users
unfolding IsDistinct count_if
no_tables-IsDistinct f d = omega arith

run-IsCounted_example : IsCounted (run 1 ops no_tables) × IsDistinct (run 1 ops no_tables).users
run-IsCounted_example = run-IsCounted 1 ops no_tables no_tables-IsCounted no_tables-IsDistinct
