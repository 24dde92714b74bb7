-- ===== src/Audit/Output/Policy/Consistent.antt =====
-- Which policies the parser accepts.
use newapi_risk_platform.Base.{
  ℕ, zero, suc, ◌≡◌, refl, Bool, true, false, not, ◌&&◌, ◌||◌, String, List, [], ◌∷◌, Option, none,
  some, ltb, str_eq, length, if_holds, ◌==◌,
}
use newapi_risk_platform.Audit.Types.{
  Verdict, allow, block, review, unknown, AuditError, Result, ok, err, audit_model_error_details,
}
use newapi_risk_platform.Audit.Texts.{codes, trim, is_blank, equal_fold, is_normalized}
use newapi_risk_platform.Audit.Output.{
  ambiguous_output, text, number, boolean, null, Json, leaf, array, object, Fields,
  decode_audit_json, max_audit_response_bytes,
}
use newapi_risk_platform.Audit.Output.Policy.{
  Policy, Reader, Texts, Confidence, has_variant, then_text, decision_of, is_allow, accept_policy,
  with_confidence, with_decision, decode_audit_policy_object, Search, nothing, found, search_failed,
  conclude, only_policy, after_child, as_search, direct_policy, after_nested,
  max_audit_policy_candidates, accept_recovered, decoded_search, recover_objects, first_of,
  required, with_decoded, parse_content, response_from_value, children, wrapper_keys, is_member,
  count_of, items_of, begins, has_brace, without_first, field_text, policy_with,
  parse_audit_model_response_content,
}

abbrev pub is_known : Verdict → Bool
is_known (unknown _) = false
is_known _ = true

abbrev pub is_contradictory : Policy → Bool
is_contradictory p =
    is_allow p.verdict
    && (not (str_eq p.risk_code "")
        || not (is_blank p.evidence)
        || not (str_eq p.harm_type "") && not (str_eq p.harm_type "none"))

-- The verdict is one of the three, and an allow has no risk code, no evidence and no harm.
unfoldable pub IsConsistent : Policy → Type 0
IsConsistent p = (is_known p.verdict ≡ true) × (is_contradictory p ≡ false)

unfoldable pub AcceptsConsistent : Result Policy → Type 0
AcceptsConsistent (ok p) = IsConsistent p
AcceptsConsistent (err e) = Unit

unfoldable FindsConsistent : Search → Type 0
FindsConsistent nothing = Unit
FindsConsistent (found p) = IsConsistent p
FindsConsistent (search_failed e) = Unit

refused : (e : AuditError) → AcceptsConsistent (err e)
unfolding AcceptsConsistent
refused e = tt

lost : (e : AuditError) → FindsConsistent (search_failed e)
unfolding FindsConsistent
lost e = tt

unfoldable AcceptsKnown : Option Verdict → Type 0
AcceptsKnown none = Unit
AcceptsKnown (some v) = is_known v ≡ true

accepted :
    (p : Policy) → is_known p.verdict ≡ true → is_contradictory p ≡ false → AcceptsConsistent (ok p)
unfolding AcceptsConsistent IsConsistent
accepted p known h = (known, h)

accept_policy-AcceptsConsistent :
    (p : Policy) → is_known p.verdict ≡ true → AcceptsConsistent (accept_policy p)
accept_policy-AcceptsConsistent p known =
    if_holds AcceptsConsistent (is_contradictory p) (λ _. refused _) (accepted p known)

with_confidence-AcceptsConsistent :
    (fs : Fields) (t : Texts) (v : Verdict) (c : Result Confidence)
    → is_known v ≡ true
    → AcceptsConsistent (with_confidence fs t v c)
with_confidence-AcceptsConsistent fs t v (err e) known = refused e
with_confidence-AcceptsConsistent fs t v (ok c) known =
    if_holds AcceptsConsistent (equal_fold (trim t.risk_code) "NONE")
      (λ _.
        if_holds AcceptsConsistent (is_allow v)
          (λ _. accept_policy-AcceptsConsistent (policy_with fs t v c "") known) (λ _. refused _))
      (λ _. accept_policy-AcceptsConsistent (policy_with fs t v c (trim t.risk_code)) known)

known_verdict : (v : Verdict) → is_known v ≡ true → AcceptsKnown (some v)
unfolding AcceptsKnown
known_verdict v h = h

no_verdict : AcceptsKnown none
unfolding AcceptsKnown
no_verdict = tt

decision_of-is_known : (s : String) → AcceptsKnown (decision_of s)
decision_of-is_known s =
    if_holds AcceptsKnown (is_normalized s "allow") (λ _. known_verdict allow refl)
      (λ _.
        if_holds AcceptsKnown (is_normalized s "block") (λ _. known_verdict block refl)
          (λ _.
            if_holds AcceptsKnown (is_normalized s "review") (λ _. known_verdict review refl)
              (λ _. no_verdict)))

with_decision-AcceptsConsistent :
    (r : Reader) (fs : Fields) (t : Texts) (o : Option Verdict)
    → AcceptsKnown o
    → AcceptsConsistent (with_decision r fs t o)
unfolding AcceptsKnown
with_decision-AcceptsConsistent r fs t none k = refused _
with_decision-AcceptsConsistent r fs t (some v) k = with_confidence-AcceptsConsistent fs t v _ k

then_text-AcceptsConsistent :
    (s : Result String) (next : String → Result Policy)
    → ((s : String) → AcceptsConsistent (next s))
    → AcceptsConsistent (then_text s next)
then_text-AcceptsConsistent (ok s) next k = k s
then_text-AcceptsConsistent (err e) next k = refused e

abbrev texts :
    (decision risk_code category evidence request_evidence evidence_relation harm_type : String)
    → Texts
texts decision risk_code category evidence request_evidence evidence_relation harm_type = record {
  decision = decision;
  risk_code = risk_code;
  category = category;
  evidence = evidence;
  request_evidence = request_evidence;
  evidence_relation = evidence_relation;
  harm_type = harm_type;
}

decode-AcceptsConsistent :
    (r : Reader) (fs : Fields) → AcceptsConsistent (decode_audit_policy_object r fs)
unfolding decode_audit_policy_object
decode-AcceptsConsistent r fs =
    if_holds AcceptsConsistent (has_variant fs) (λ _. refused _)
      (λ _. then_text-AcceptsConsistent (field_text "decision" fs) _ (λ decision.
        then_text-AcceptsConsistent (field_text "risk_code" fs) _ (λ risk_code.
          then_text-AcceptsConsistent (field_text "category" fs) _ (λ category.
            then_text-AcceptsConsistent (field_text "reason" fs) _ (λ reason.
              then_text-AcceptsConsistent (field_text "evidence" fs) _ (λ evidence.
                then_text-AcceptsConsistent (field_text "request_evidence" fs) _
                  (λ request_evidence.
                    then_text-AcceptsConsistent (field_text "evidence_relation" fs) _
                      (λ evidence_relation.
                        then_text-AcceptsConsistent (field_text "harm_type" fs) _ (λ harm_type.
                          with_decision-AcceptsConsistent r fs
                            (texts decision risk_code category evidence request_evidence
                              evidence_relation harm_type)
                            (decision_of decision) (decision_of-is_known decision))))))))))

as_search-FindsConsistent :
    (p : Result Policy) → AcceptsConsistent p → FindsConsistent (as_search p)
unfolding AcceptsConsistent FindsConsistent
as_search-FindsConsistent (ok p) h = h
as_search-FindsConsistent (err e) h = tt

-- The policy that was selected, if any, is consistent.
unfoldable IsSelected : Option Policy → Type 0
IsSelected none = Unit
IsSelected (some p) = IsConsistent p

conclude-FindsConsistent :
    (selected : Option Policy) (n : ℕ) → IsSelected selected → FindsConsistent (conclude selected n)
unfolding IsSelected FindsConsistent
conclude-FindsConsistent none n h = tt
conclude-FindsConsistent (some p) n h =
    if_holds FindsConsistent (ltb 1 n) (λ _. lost ambiguous_output) (λ _. h)

after_child-FindsConsistent :
    (x : Search) (rest : Option Policy → ℕ → Search) (selected : Option Policy) (n : ℕ)
    → FindsConsistent x
    → IsSelected selected
    → ((o : Option Policy) (n : ℕ) → IsSelected o → FindsConsistent (rest o n))
    → FindsConsistent (after_child x rest selected n)
unfolding IsSelected FindsConsistent
after_child-FindsConsistent nothing rest selected n h k next = next selected n k
after_child-FindsConsistent (found p) rest selected n h k next = next (some p) (suc n) h
after_child-FindsConsistent (search_failed e) rest selected n h k next = tt

nothing-IsSelected : IsSelected none
unfolding IsSelected
nothing-IsSelected = tt

nothing_found : FindsConsistent nothing
unfolding FindsConsistent
nothing_found = tt

module _ (from : Json → Search) (finds : (v : Json) → FindsConsistent (from v)) where
  only_policy-FindsConsistent :
      (vs : List Json) (selected : Option Policy) (n : ℕ)
      → IsSelected selected
      → FindsConsistent (only_policy from vs selected n)
  unfolding only_policy
  only_policy-FindsConsistent [] selected n k = conclude-FindsConsistent selected n k
  only_policy-FindsConsistent (v ∷ vs) selected n k =
      after_child-FindsConsistent (from v) (only_policy from vs) selected n (finds v) k
        (only_policy-FindsConsistent vs)

  after_nested-FindsConsistent :
      (x rest : Search) → FindsConsistent rest → FindsConsistent (after_nested x rest)
  unfolding FindsConsistent
  after_nested-FindsConsistent nothing rest h = h
  after_nested-FindsConsistent (found p) rest h = tt
  after_nested-FindsConsistent (search_failed e) rest h = tt

  direct_policy-FindsConsistent :
      (vs : List Json) (p : Result Policy)
      → AcceptsConsistent p
      → FindsConsistent (direct_policy from vs p)
  unfolding direct_policy
  direct_policy-FindsConsistent [] p h = as_search-FindsConsistent p h
  direct_policy-FindsConsistent (v ∷ vs) p h =
      after_nested-FindsConsistent (from v) _ (direct_policy-FindsConsistent vs p h)

  decoded_search-FindsConsistent : (v : Result Json) → FindsConsistent (decoded_search from v)
  decoded_search-FindsConsistent (ok v) = finds v
  decoded_search-FindsConsistent (err e) = lost e

  recover_objects-FindsConsistent :
      (r : Reader) (ss : List String) (selected : Option Policy) (n : ℕ)
      → IsSelected selected
      → FindsConsistent (recover_objects r from ss selected n)
  unfolding recover_objects
  recover_objects-FindsConsistent r [] selected n k = conclude-FindsConsistent selected n k
  recover_objects-FindsConsistent r (s ∷ ss) selected n k =
      after_child-FindsConsistent _ (recover_objects r from ss) selected n
        (decoded_search-FindsConsistent (decode_audit_json (r.content_of s))) k
        (recover_objects-FindsConsistent r ss)

  required-AcceptsConsistent : (x : Search) → FindsConsistent x → AcceptsConsistent (required x)
  unfolding FindsConsistent AcceptsConsistent
  required-AcceptsConsistent nothing h = tt
  required-AcceptsConsistent (found p) h = h
  required-AcceptsConsistent (search_failed e) h = tt

  found-AcceptsConsistent : (p : Policy) → FindsConsistent (found p) → AcceptsConsistent (ok p)
  unfolding FindsConsistent AcceptsConsistent
  found-AcceptsConsistent p h = h

  accept_recovered-AcceptsConsistent :
      (content first : String) (x : Search)
      → FindsConsistent x
      → AcceptsConsistent (accept_recovered content first x)
  accept_recovered-AcceptsConsistent content first nothing h = refused _
  accept_recovered-AcceptsConsistent content first (search_failed e) h = refused e
  accept_recovered-AcceptsConsistent content first (found p) h =
      if_holds AcceptsConsistent (begins "{" content && not (str_eq (trim content) (trim first)))
        (λ _. refused _)
        (λ _.
          if_holds AcceptsConsistent (has_brace (without_first (codes first) (codes content)))
            (λ _. refused _) (λ _. found-AcceptsConsistent p h))

  with_decoded-AcceptsConsistent :
      (r : Reader) (content : String) (v : Result Json)
      → AcceptsConsistent (with_decoded r from content v)
  with_decoded-AcceptsConsistent r content (ok v) = required-AcceptsConsistent (from v) (finds v)
  with_decoded-AcceptsConsistent r content (err e) =
      let candidates = r.balanced_json_objects content in
      if_holds AcceptsConsistent
        (not (str_eq (audit_model_error_details e).0 "invalid_json")
          || begins "[" content
          || begins "\"" content)
        (λ _. refused e)
        (λ _.
          if_holds AcceptsConsistent (ltb max_audit_policy_candidates (length candidates))
            (λ _. refused _)
            (λ _.
              accept_recovered-AcceptsConsistent content (first_of candidates) _
                (recover_objects-FindsConsistent r candidates none 0 nothing-IsSelected)))

  parse_content-AcceptsConsistent :
      (r : Reader) (is_deep : Bool) (s : String)
      → AcceptsConsistent (parse_content r is_deep from s)
  unfolding parse_content
  parse_content-AcceptsConsistent r is_deep s =
      if_holds AcceptsConsistent (ltb max_audit_response_bytes (r.content_of s).size)
        (λ _. refused _)
        (λ _.
          if_holds AcceptsConsistent (not (r.content_of s).is_utf8) (λ _. refused _)
            (λ _.
              if_holds AcceptsConsistent (str_eq (trim s) "") (λ _. refused _)
                (λ _.
                  if_holds AcceptsConsistent is_deep (λ _. refused _)
                    (λ _.
                      with_decoded-AcceptsConsistent r (trim s)
                        (decode_audit_json (r.content_of (trim s)))))))

response_from_value-FindsConsistent :
    (r : Reader) (left : ℕ) (v : Json) → FindsConsistent (response_from_value r left v)
unfolding response_from_value
response_from_value-FindsConsistent r zero v = lost _
response_from_value-FindsConsistent r (suc left) (object fs) =
    let finds = response_from_value-FindsConsistent r left in
    if_holds FindsConsistent (is_member "decision" fs)
      (λ _.
        direct_policy-FindsConsistent _ finds (children wrapper_keys fs) _
          (decode-AcceptsConsistent r fs))
      (λ _.
        only_policy-FindsConsistent _ finds (children wrapper_keys fs) none 0 nothing-IsSelected)
response_from_value-FindsConsistent r (suc left) (array xs) =
    if_holds FindsConsistent (ltb max_audit_policy_candidates (count_of xs)) (λ _. lost _)
      (λ _.
        only_policy-FindsConsistent _ (response_from_value-FindsConsistent r left) (items_of xs)
          none 0 nothing-IsSelected)
response_from_value-FindsConsistent r (suc left) (leaf (text s)) =
    if_holds FindsConsistent (is_blank s) (λ _. nothing_found)
      (λ _. as_search-FindsConsistent _ (
        parse_content-AcceptsConsistent _ (response_from_value-FindsConsistent r left) r (left == 0)
          s))
response_from_value-FindsConsistent r (suc left) (leaf (number s)) = nothing_found
response_from_value-FindsConsistent r (suc left) (leaf (boolean b)) = nothing_found
response_from_value-FindsConsistent r (suc left) (leaf null) = nothing_found

-- Whatever text a model writes, wrapped, quoted or in prose, a policy that the parser accepts has one of the three
-- verdicts, and if it allows it has no risk code, no evidence and no harm type but "none".
pub parse_audit_model_response_content-AcceptsConsistent :
    (r : Reader) (s : String) → AcceptsConsistent (parse_audit_model_response_content r s)
unfolding parse_audit_model_response_content
parse_audit_model_response_content-AcceptsConsistent r s =
    parse_content-AcceptsConsistent _ (response_from_value-FindsConsistent r 6) r false s
