-- ===== src/Audit/Output/Policy.antt =====
-- The policy in a model's answer: `decodeAuditPolicyObject`, `auditModelResponseFromValue` and
-- `parseAuditModelResponseContentDepth` of internal/platform/audit_output_decode.go, with `validateAuditModelResponse` of
-- internal/platform/audit_diagnostics.go.

pub mod Consistent
use newapi_risk_platform.Base.{
  ℕ, zero, suc, ◌+◌, Bool, true, false, not, ◌&&◌, ◌||◌, String, List, [], ◌∷◌, Option, none, some,
  ltb, ◌==◌, str_eq, if◌then◌else◌, length, drop,
}
use newapi_risk_platform.Gateway.Text.{has_prefix, text_eq}
use newapi_risk_platform.Audit.Types.{
  Verdict, allow, block, review, AuditError, new_audit_model_call_error, audit_model_error_details,
  Result, ok, err,
}
use newapi_risk_platform.Audit.Texts.{codes, lowered, trim, is_blank, is_normalized, equal_fold}
use newapi_risk_platform.Audit.Output.{
  text, number, boolean, null, Json, leaf, array, object, Items, no_items, item, Fields, no_fields,
  field, max_audit_response_bytes, invalid_json, ambiguous_output, output_limits, Content,
  decode_audit_json,
}

pub record Policy : Type 0 where
  pub verdict : Verdict
  pub risk_code : String
  pub category : String
  pub evidence : String
  pub request_evidence : String
  pub evidence_relation : String
  pub harm_type : String
  pub confidence : ℕ
  pub confidence_kind : String
  pub confidence_label : String
  pub contract_fields_present : Bool

-- A number that strconv.ParseFloat reads: one between 0 and 1, on a fixed scale, or another one.
pub data Parsed : Type 0 where
  in_range : ℕ → Parsed
  out_of_range : Parsed

-- The tokenizer, the parser of numbers, and the objects of `balancedJSONObjects`.
pub record Reader : Type 0 where
  pub content_of : String → Content
  pub parse_float : String → Option Parsed
  pub balanced_json_objects : String → List String

abbrev pub invalid_schema : AuditError
invalid_schema = new_audit_model_call_error "invalid_schema" 0

abbrev pub member : String → Fields → Option Json
member k no_fields = none
member k (field j v fs) = if str_eq j k then some v else member k fs

abbrev pub is_member : String → Fields → Bool
is_member k no_fields = false
is_member k (field j v fs) = str_eq j k || is_member k fs

abbrev are_members : List String → Fields → Bool
are_members [] fs = true
are_members (k ∷ ks) fs = is_member k fs && are_members ks fs

abbrev contract_fields : List String
contract_fields = "decision" ∷ "risk_code" ∷ "category" ∷ "confidence" ∷ "reason" ∷ "evidence" ∷ []

abbrev policy_fields : List String
policy_fields =
    "decision" ∷ "confidence" ∷ "risk_code" ∷ "category" ∷ "reason" ∷ "evidence"
    ∷ "request_evidence" ∷ "evidence_relation" ∷ "harm_type" ∷ []

-- The key is a field's name but for its case.
abbrev is_variant : String → List String → Bool
is_variant k [] = false
is_variant k (name ∷ names) =
    text_eq (lowered k) (codes name) && not (str_eq k name) || is_variant k names

abbrev pub has_variant : Fields → Bool
has_variant no_fields = false
has_variant (field k v fs) = is_variant k policy_fields || has_variant fs

abbrev pub text_of : Option Json → Result String
text_of none = ok ""
text_of (some (leaf (text s))) = ok s
text_of (some _) = err invalid_schema

abbrev pub then_text : Result String → (String → Result Policy) → Result Policy
then_text (ok s) next = next s
then_text (err e) next = err e

abbrev pub decision_of : String → Option Verdict
decision_of s =
    if is_normalized s "allow"
    then some allow
    else if is_normalized s "block"
    then some block
    else if is_normalized s "review"
    then some review
    else none

pub record Confidence : Type 0 where
  pub value : ℕ
  pub kind : String
  pub label : String

abbrev in_kind : String → Option Parsed → Result Confidence
in_kind kind (some (in_range n)) = ok (record { value = n; kind = kind; label = "" })
in_kind kind _ = err invalid_schema

abbrev qualitative : String → Result Confidence
qualitative label = ok (record { value = 0; kind = "qualitative"; label = label })

abbrev pub confidence_of : Reader → Option Json → Result Confidence
confidence_of r (some (leaf (number s))) = in_kind "numeric" (r.parse_float s)
confidence_of r (some (leaf (text s))) =
    if is_normalized s "high"
    then qualitative "high"
    else if is_normalized s "medium"
    then qualitative "medium"
    else if is_normalized s "low"
    then qualitative "low"
    else in_kind "numeric_string" (r.parse_float (trim s))
confidence_of r _ = err invalid_schema

-- The texts of a policy.
pub record Texts : Type 0 where
  pub decision : String
  pub risk_code : String
  pub category : String
  pub evidence : String
  pub request_evidence : String
  pub evidence_relation : String
  pub harm_type : String

abbrev pub policy_with : Fields → Texts → Verdict → Confidence → (risk_code : String) → Policy
policy_with fs t v c risk_code = record {
  verdict = v;
  risk_code = risk_code;
  category = trim t.category;
  evidence = t.evidence;
  request_evidence = t.request_evidence;
  evidence_relation = t.evidence_relation;
  harm_type = t.harm_type;
  confidence = c.value;
  confidence_kind = c.kind;
  confidence_label = c.label;
  contract_fields_present = are_members contract_fields fs;
}

abbrev pub is_allow : Verdict → Bool
is_allow allow = true
is_allow _ = false

abbrev pub accept_policy : Policy → Result Policy
accept_policy p =
    if is_allow p.verdict
      && (not (str_eq p.risk_code "")
          || not (is_blank p.evidence)
          || not (str_eq p.harm_type "") && not (str_eq p.harm_type "none"))
    then err invalid_schema
    else ok p

abbrev pub with_confidence : Fields → Texts → Verdict → Result Confidence → Result Policy
with_confidence fs t v (err e) = err e
with_confidence fs t v (ok c) =
    let code = trim t.risk_code in
    if equal_fold code "NONE"
    then if is_allow v then accept_policy (policy_with fs t v c "") else err invalid_schema
    else accept_policy (policy_with fs t v c code)

abbrev pub with_decision : Reader → Fields → Texts → Option Verdict → Result Policy
with_decision r fs t none = err (new_audit_model_call_error "invalid_decision" 0)
with_decision r fs t (some v) = with_confidence fs t v (confidence_of r (member "confidence" fs))

abbrev pub field_text : String → Fields → Result String
field_text k fs = text_of (member k fs)

unfoldable pub decode_audit_policy_object : Reader → Fields → Result Policy
decode_audit_policy_object r fs =
    let read = then_text (field_text "decision" fs) (λ decision.
      then_text (field_text "risk_code" fs) (λ risk_code.
        then_text (field_text "category" fs) (λ category.
          then_text (field_text "reason" fs) (λ reason.
            then_text (field_text "evidence" fs) (λ evidence.
              then_text (field_text "request_evidence" fs) (λ request_evidence.
                then_text (field_text "evidence_relation" fs) (λ evidence_relation.
                  then_text (field_text "harm_type" fs) (λ harm_type.
                    with_decision r fs
                      (record {
                        decision = decision;
                        risk_code = risk_code;
                        category = category;
                        evidence = evidence;
                        request_evidence = request_evidence;
                        evidence_relation = evidence_relation;
                        harm_type = harm_type;
                      })
                      (decision_of decision))))))))) in
    if has_variant fs then err invalid_schema else read

-- What a search for a policy gives.
pub data Search : Type 0 where
  nothing : Search
  found : Policy → Search
  search_failed : AuditError → Search

abbrev pub wrapper_keys : List String
wrapper_keys = "result" ∷ "policy" ∷ "decision_result" ∷ "output" ∷ "response" ∷ "data" ∷ []

abbrev add_child : Option Json → List Json → List Json
add_child none vs = vs
add_child (some v) vs = v ∷ vs

abbrev pub children : List String → Fields → List Json
children [] fs = []
children (k ∷ ks) fs = add_child (member k fs) (children ks fs)

abbrev pub items_of : Items → List Json
items_of no_items = []
items_of (item v xs) = v ∷ items_of xs

abbrev pub count_of : Items → ℕ
count_of no_items = 0
count_of (item v xs) = suc (count_of xs)

-- The only policy of several values; an error comes first.
abbrev pub conclude : (selected : Option Policy) → (count : ℕ) → Search
conclude none count = nothing
conclude (some p) count = if ltb 1 count then search_failed ambiguous_output else found p

abbrev pub after_child :
    Search → (Option Policy → ℕ → Search) → (selected : Option Policy) → ℕ → Search
after_child nothing rest selected count = rest selected count
after_child (found p) rest selected count = rest (some p) (suc count)
after_child (search_failed e) rest selected count = search_failed e

unfoldable pub only_policy : (Json → Search) → List Json → (selected : Option Policy) → ℕ → Search
only_policy from [] selected count = conclude selected count
only_policy from (v ∷ vs) selected count = after_child (from v) (only_policy from vs) selected count

abbrev pub as_search : Result Policy → Search
as_search (ok p) = found p
as_search (err e) = search_failed e

abbrev pub after_nested : Search → Search → Search
after_nested nothing rest = rest
after_nested (found q) rest = search_failed ambiguous_output
after_nested (search_failed e) rest = search_failed e

-- A policy with another one in a wrapper is ambiguous.
unfoldable pub direct_policy : (Json → Search) → List Json → Result Policy → Search
direct_policy from [] p = as_search p
direct_policy from (v ∷ vs) p = after_nested (from v) (direct_policy from vs p)

abbrev pub max_audit_policy_candidates : ℕ
max_audit_policy_candidates = 32

abbrev pub begins : String → String → Bool
begins prefix s = has_prefix (codes prefix) (codes s)

abbrev pub has_brace : List ℕ → Bool
has_brace [] = false
has_brace (c ∷ s) = c == b'{' || c == b'}' || has_brace s

-- `strings.Replace` of the first occurrence by nothing.
abbrev pub without_first : List ℕ → List ℕ → List ℕ
without_first p [] = []
without_first p (c ∷ s) =
    let rest = c ∷ without_first p s in
    if has_prefix p (c ∷ s) then drop (length p) (c ∷ s) else rest

-- What is left round the policy that was recovered from prose.
abbrev pub accept_recovered : (content first : String) → Search → Result Policy
accept_recovered content first nothing = err invalid_json
accept_recovered content first (search_failed e) = err e
accept_recovered content first (found p) =
    if begins "{" content && not (str_eq (trim content) (trim first))
    then err invalid_json
    else if has_brace (without_first (codes first) (codes content))
    then err invalid_json
    else ok p

abbrev pub decoded_search : (Json → Search) → Result Json → Search
decoded_search from (ok v) = from v
decoded_search from (err e) = search_failed e

unfoldable pub recover_objects :
    Reader → (Json → Search) → List String → (selected : Option Policy) → ℕ → Search
recover_objects r from [] selected count = conclude selected count
recover_objects r from (s ∷ ss) selected count =
    after_child (decoded_search from (decode_audit_json (r.content_of s)))
      (recover_objects r from ss) selected count

abbrev pub first_of : List String → String
first_of [] = ""
first_of (s ∷ ss) = s

-- A value that is no policy has no decision.
abbrev pub required : Search → Result Policy
required nothing = err invalid_schema
required (found p) = ok p
required (search_failed e) = err e

abbrev pub with_decoded :
    Reader → (Json → Search) → (content : String) → Result Json → Result Policy
with_decoded r from content (ok v) = required (from v)
with_decoded r from content (err e) =
    let candidates = r.balanced_json_objects content in
    if not (str_eq (audit_model_error_details e).0 "invalid_json")
      || begins "[" content
      || begins "\"" content
    then err e
    else if ltb max_audit_policy_candidates (length candidates)
    then err output_limits
    else accept_recovered content (first_of candidates) (recover_objects r from candidates none 0)

-- `from` searches the decoded value; `is_deep` is whether the wrappers are nested too deep.
unfoldable pub parse_content : Reader → (is_deep : Bool) → (Json → Search) → String → Result Policy
parse_content r is_deep from s =
    let c = r.content_of s in
    let content = trim s in
    if ltb max_audit_response_bytes c.size
    then err (new_audit_model_call_error "response_too_large" 0)
    else if not c.is_utf8
    then err invalid_json
    else if str_eq content ""
    then err (new_audit_model_call_error "empty_response" 0)
    else if is_deep
    then err output_limits
    else with_decoded r from content (decode_audit_json (r.content_of content))

-- A search with so many levels of wrappers left.
unfoldable pub response_from_value : Reader → (left : ℕ) → Json → Search
response_from_value r zero v = search_failed output_limits
response_from_value r (suc left) (object fs) =
    let inner = children wrapper_keys fs in
    if is_member "decision" fs
    then direct_policy (response_from_value r left) inner (decode_audit_policy_object r fs)
    else only_policy (response_from_value r left) inner none 0
response_from_value r (suc left) (array xs) =
    if ltb max_audit_policy_candidates (count_of xs)
    then search_failed output_limits
    else only_policy (response_from_value r left) (items_of xs) none 0
response_from_value r (suc left) (leaf (text s)) =
    if is_blank s
    then nothing
    else as_search (parse_content r (left == 0) (response_from_value r left) s)
response_from_value r (suc left) (leaf _) = nothing

-- The depth is 5 at most: six levels, the outermost included.
unfoldable pub parse_audit_model_response_content : Reader → String → Result Policy
parse_audit_model_response_content r s = parse_content r false (response_from_value r 6) s
