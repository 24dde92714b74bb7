-- ===== src/Audit/Fusion/Tests.antt =====
-- A fusion of two verifiers that disagree, with an arbiter, and a panel that is loaded.
use newapi_risk_platform.Base.{ℕ, true, List, [], ◌∷◌, Option, none, some, ◌==◌, if◌then◌else◌}
use newapi_risk_platform.Audit.Types.{allow, block, Result, ok}
use newapi_risk_platform.Audit.Fusion.{Assessment, fuse_audit_intent}
use newapi_risk_platform.Audit.Fusion.Agreement.{IsFused, fuse_audit_intent-IsFused}
use newapi_risk_platform.Audit.Fusion.Panel.{Expert}

abbrev blocks_on : List ℕ → Assessment
blocks_on quote = record {
  verdict = block;
  harm_type = "credential_theft";
  evidence_relation = "direct_request";
  evidence = quote;
  request_evidence = quote;
  risk_code = "R1";
  meets_threshold = true;
}

abbrev allows_all : Assessment
allows_all = record (blocks_on []) { verdict = allow; harm_type = "none" }

abbrev votes : List (Result Assessment)
votes = ok (blocks_on (97 ∷ 98 ∷ [])) ∷ ok allows_all ∷ []

fuse_audit_intent-IsFused_example :
    IsFused votes
      (some (ok (blocks_on (98 ∷ []))))
      (fuse_audit_intent votes none (some (ok (blocks_on (98 ∷ []))))).0
fuse_audit_intent-IsFused_example =
    fuse_audit_intent-IsFused votes none (some (ok (blocks_on (98 ∷ []))))

abbrev root_expert : Expert
root_expert = record { id = 1; enabled = true; endpoint_and_model = "https://a m1" }

abbrev stored : ℕ → Option Expert
stored i =
    if i == 2
    then some (record { id = 2; enabled = true; endpoint_and_model = "https://b m2" })
    else none
