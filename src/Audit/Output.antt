-- ===== src/Audit/Output.antt =====
-- How a model's JSON is read: `decodeAuditJSON` and `readAuditJSONValue` of internal/platform/audit_output_decode.go, over
-- the tokens of encoding/json.
pub mod RoundTrip
pub mod Total
pub mod Policy
mod Tests
use newapi_risk_platform.Base.{
  ℕ, zero, suc, ◌+◌, ◌*◌, Bool, true, false, not, ◌&&◌, ◌||◌, String, List, [], ◌∷◌, ltb, str_eq,
  if◌then◌else◌, length,
}
use newapi_risk_platform.Audit.Types.{AuditError, new_audit_model_call_error, Result, ok, err}

pub data Scalar : Type 0 where
  text number : String → Scalar
  boolean : Bool → Scalar
  null : Scalar

-- What `decoder.Token` returns; `malformed` is an error of it.
pub data Token : Type 0 where
  scalar : Scalar → Token
  open_object close_object open_array close_array malformed : Token

mutual
  pub data Json : Type 0 where
    leaf : Scalar → Json
    array : Items → Json
    object : Fields → Json

  pub data Items : Type 0 where
    no_items : Items
    item : Json → Items → Items

  pub data Fields : Type 0 where
    no_fields : Fields
    field : String → Json → Fields → Fields

-- The end of a read: a value with the tokens after it, an error, or no fuel.
pub data Read (A : Type 0) : Type 0 where
  got : A → List Token → Read A
  failed : AuditError → Read A
  exhausted : Read A

abbrev pub max_audit_json_depth : ℕ
max_audit_json_depth = 32

abbrev pub max_audit_response_bytes : ℕ
max_audit_response_bytes = 1024 * 1024

abbrev pub invalid_json : AuditError
invalid_json = new_audit_model_call_error "invalid_json" 0

abbrev pub ambiguous_output : AuditError
ambiguous_output = new_audit_model_call_error "ambiguous_output" 0

abbrev pub output_limits : AuditError
output_limits = new_audit_model_call_error "output_limits" 0

abbrev pub is_key : String → List String → Bool
is_key k [] = false
is_key k (j ∷ js) = str_eq k j || is_key k js

abbrev pub within_depth : ℕ → Read Json → Read Json
within_depth depth r = if ltb max_audit_json_depth depth then failed output_limits else r

abbrev pub as_array : Read Items → Read Json
as_array (got xs ts) = got (array xs) ts
as_array (failed e) = failed e
as_array exhausted = exhausted

abbrev pub as_object : Read Fields → Read Json
as_object (got fs ts) = got (object fs) ts
as_object (failed e) = failed e
as_object exhausted = exhausted

abbrev pub add_item : Json → Read Items → Read Items
add_item v (got xs ts) = got (item v xs) ts
add_item v (failed e) = failed e
add_item v exhausted = exhausted

abbrev pub then_items : Read Json → (List Token → Read Items) → Read Items
then_items (got v ts) rest = add_item v (rest ts)
then_items (failed e) rest = failed e
then_items exhausted rest = exhausted

abbrev pub add_field : String → Json → Read Fields → Read Fields
add_field k v (got fs ts) = got (field k v fs) ts
add_field k v (failed e) = failed e
add_field k v exhausted = exhausted

abbrev pub then_fields : String → Read Json → (List Token → Read Fields) → Read Fields
then_fields k (got v ts) rest = add_field k v (rest ts)
then_fields k (failed e) rest = failed e
then_fields k exhausted rest = exhausted

-- The key of an object is checked before its value is read.
unfoldable mutual
  pub read_value : (fuel depth : ℕ) → List Token → Read Json
  read_value zero depth ts = exhausted
  read_value (suc n) depth [] = within_depth depth (failed invalid_json)
  read_value (suc n) depth (scalar s ∷ ts) = within_depth depth (got (leaf s) ts)
  read_value (suc n) depth (open_object ∷ ts) =
      within_depth depth (as_object (read_fields n depth [] ts))
  read_value (suc n) depth (open_array ∷ ts) = within_depth depth (as_array (read_items n depth ts))
  read_value (suc n) depth (close_object ∷ ts) = within_depth depth (failed invalid_json)
  read_value (suc n) depth (close_array ∷ ts) = within_depth depth (failed invalid_json)
  read_value (suc n) depth (malformed ∷ ts) = within_depth depth (failed invalid_json)

  pub read_items : (fuel depth : ℕ) → List Token → Read Items
  read_items zero depth ts = exhausted
  read_items (suc n) depth [] = failed invalid_json
  read_items (suc n) depth (close_array ∷ ts) = got no_items ts
  read_items (suc n) depth (close_object ∷ ts) = failed invalid_json
  read_items (suc n) depth (t ∷ ts) =
      then_items (read_value n (depth + 1) (t ∷ ts)) (read_items n depth)

  pub read_fields : (fuel depth : ℕ) → (seen : List String) → List Token → Read Fields
  read_fields zero depth seen ts = exhausted
  read_fields (suc n) depth seen (close_object ∷ ts) = got no_fields ts
  read_fields (suc n) depth seen (scalar (text k) ∷ ts) =
      let fields = then_fields k (read_value n (depth + 1) ts) (read_fields n depth (k ∷ seen)) in
      if is_key k seen then failed ambiguous_output else fields
  read_fields (suc n) depth seen ts = failed invalid_json

-- A text with its size in bytes, whether it is UTF-8, and its tokens.
pub record Content : Type 0 where
  pub size : ℕ
  pub is_utf8 : Bool
  pub tokens : List Token

abbrev whole : Read Json → Result Json
whole (got v []) = ok v
whole (got v (t ∷ ts)) = err invalid_json
whole (failed e) = err e
whole exhausted = err invalid_json

unfoldable pub decode_audit_json : Content → Result Json
decode_audit_json c =
    if ltb max_audit_response_bytes c.size
    then err (new_audit_model_call_error "response_too_large" 0)
    else if not c.is_utf8
    then err invalid_json
    else whole (read_value (2 * length c.tokens + 1) 0 c.tokens)
