-- ===== src/Audit/Output/Tests.antt =====
-- The reader of a model's JSON on concrete values.
use newapi_risk_platform.Base.{◌≡◌, refl, true, List, [], ◌∷◌, some, arith}
use newapi_risk_platform.Audit.Types.{ok, err}
use newapi_risk_platform.Audit.Output.{
  text, number, Token, scalar, open_object, close_object, Json, leaf, array, object, no_items, item,
  no_fields, field, ambiguous_output, decode_audit_json, read_value,
}
use newapi_risk_platform.Audit.Output.RoundTrip.{
  print, height, IsUnambiguous, decode_audit_json-print,
}
use newapi_risk_platform.Audit.Output.Total.{IsEnded, read_value-IsEnded}
use newapi_risk_platform.Audit.Output.Policy.{Reader, in_range, parse_audit_model_response_content}
use newapi_risk_platform.Audit.Output.Policy.Consistent.{
  AcceptsConsistent, parse_audit_model_response_content-AcceptsConsistent,
}

-- {"decision": "allow", "confidence": [1]}
abbrev nested : Json
nested = object (
    field "decision" (leaf (text "allow"))
      (field "confidence" (array (item (leaf (number "1")) no_items)) no_fields))

nested-IsUnambiguous : IsUnambiguous nested
unfolding IsUnambiguous
nested-IsUnambiguous = (refl, tt, (refl, (tt, tt), tt))

decode_audit_json-print_example :
    decode_audit_json (record { size = 40; is_utf8 = true; tokens = print nested [] }) ≡ ok nested
unfolding height
decode_audit_json-print_example =
    decode_audit_json-print nested 40 nested-IsUnambiguous (omega arith) (omega arith)

abbrev twice : List Token
twice =
    open_object
    ∷ scalar (text "a")
    ∷ scalar (number "1")
    ∷ scalar (text "a")
    ∷ scalar (number "2")
    ∷ close_object
    ∷ []

duplicate_key :
    decode_audit_json (record { size = 14; is_utf8 = true; tokens = twice }) ≡ err ambiguous_output
unfolding decode_audit_json read_value
duplicate_key = refl

read_value-IsEnded_example : IsEnded twice (read_value 13 0 twice)
read_value-IsEnded_example = read_value-IsEnded twice

abbrev reader : Reader
reader = record {
  content_of = λ s. record {
    size = 60;
    is_utf8 = true;
    tokens =
        open_object
        ∷ scalar (text "decision")
        ∷ scalar (text "block")
        ∷ scalar (text "confidence")
        ∷ scalar (number "1")
        ∷ close_object
        ∷ [];
  };
  parse_float = λ s. some (in_range 100);
  balanced_json_objects = λ s. [];
}

parse_audit_model_response_content-AcceptsConsistent_example :
    AcceptsConsistent (parse_audit_model_response_content reader "{}")
parse_audit_model_response_content-AcceptsConsistent_example =
    parse_audit_model_response_content-AcceptsConsistent reader "{}"
