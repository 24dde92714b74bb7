-- ===== src/Audit/Output/Total.antt =====
-- The reader of a model's JSON ends within its fuel.
use newapi_risk_platform.Base.{
  ℕ, zero, suc, ◌+◌, ◌*◌, ◌≤◌, ◌<◌, String, List, [], ◌∷◌, length, arith, if_holds, ltb,
}
use newapi_risk_platform.Audit.Output.{
  text, number, boolean, null, Token, scalar, open_object, close_object, open_array, close_array,
  malformed, Json, leaf, invalid_json, Items, Fields, Read, got, failed, exhausted, as_array,
  as_object, then_items, then_fields, add_item, add_field, within_depth, max_audit_json_depth,
  is_key, read_value, read_items, read_fields,
}

-- A read ends with an error, or with a value and fewer tokens than there were.
unfoldable pub IsEnded : {A : Type 0} → List Token → Read A → Type 0
IsEnded ts (got v rest) = length rest < length ts
IsEnded ts (failed e) = Unit
IsEnded ts exhausted = ⊥

within_depth-IsEnded :
    (depth : ℕ) (ts : List Token) (r : Read Json) → IsEnded ts r → IsEnded ts (within_depth depth r)
unfolding IsEnded
within_depth-IsEnded depth ts r h =
    if_holds (λ (x : Read Json). IsEnded ts x) (ltb max_audit_json_depth depth) (λ _. tt) (λ _. h)

as_array-IsEnded :
    (t : Token) (ts : List Token) (r : Read Items) → IsEnded ts r → IsEnded (t ∷ ts) (as_array r)
unfolding IsEnded
as_array-IsEnded t ts (got xs rest) h = omega (arith, h)
as_array-IsEnded t ts (failed e) h = tt
as_array-IsEnded t ts exhausted h = h

as_object-IsEnded :
    (t : Token) (ts : List Token) (r : Read Fields) → IsEnded ts r → IsEnded (t ∷ ts) (as_object r)
unfolding IsEnded
as_object-IsEnded t ts (got fs rest) h = omega (arith, h)
as_object-IsEnded t ts (failed e) h = tt
as_object-IsEnded t ts exhausted h = h

add_item-IsEnded :
    (v : Json) (ts rest : List Token) (r : Read Items)
    → length rest ≤ length ts
    → IsEnded rest r
    → IsEnded ts (add_item v r)
unfolding IsEnded
add_item-IsEnded v ts rest (got xs left) le h = omega (arith, le, h)
add_item-IsEnded v ts rest (failed e) le h = tt
add_item-IsEnded v ts rest exhausted le h = h

then_items-IsEnded :
    (ts : List Token) (r : Read Json) (next : List Token → Read Items)
    → IsEnded ts r
    → ((rest : List Token) → length rest < length ts → IsEnded rest (next rest))
    → IsEnded ts (then_items r next)
unfolding IsEnded
then_items-IsEnded ts (got v rest) next h k =
    add_item-IsEnded v ts rest (next rest) (omega (arith, h)) (k rest h)
then_items-IsEnded ts (failed e) next h k = tt
then_items-IsEnded ts exhausted next h k = h

add_field-IsEnded :
    (key : String) (v : Json) (ts rest : List Token) (r : Read Fields)
    → length rest ≤ length ts
    → IsEnded rest r
    → IsEnded ts (add_field key v r)
unfolding IsEnded
add_field-IsEnded key v ts rest (got fs left) le h = omega (arith, le, h)
add_field-IsEnded key v ts rest (failed e) le h = tt
add_field-IsEnded key v ts rest exhausted le h = h

then_fields-IsEnded :
    (t : Token) (key : String) (ts : List Token) (r : Read Json) (next : List Token → Read Fields)
    → IsEnded ts r
    → ((rest : List Token) → length rest < length ts → IsEnded rest (next rest))
    → IsEnded (t ∷ ts) (then_fields key r next)
unfolding IsEnded
then_fields-IsEnded t key ts (got v rest) next h k =
    add_field-IsEnded key v (t ∷ ts) rest (next rest) (omega (arith, h)) (k rest h)
then_fields-IsEnded t key ts (failed e) next h k = tt
then_fields-IsEnded t key ts exhausted next h k = h

mutual
  unfolding read_value IsEnded

  value-IsEnded :
      (n depth : ℕ) (ts : List Token) → 2 * length ts + 1 ≤ n → IsEnded ts (read_value n depth ts)
  value-IsEnded zero depth ts enough = omega (arith, enough)
  value-IsEnded (suc n) depth [] enough = within_depth-IsEnded depth [] (failed invalid_json) tt
  value-IsEnded (suc n) depth (scalar s ∷ ts) enough =
      within_depth-IsEnded depth (scalar s ∷ ts) (got (leaf s) ts) (omega arith)
  value-IsEnded (suc n) depth (open_object ∷ ts) enough =
      within_depth-IsEnded depth (open_object ∷ ts) (as_object (read_fields n depth [] ts)) (
        as_object-IsEnded open_object ts (read_fields n depth [] ts)
          (fields-IsEnded n depth [] ts (omega (arith, enough))))
  value-IsEnded (suc n) depth (open_array ∷ ts) enough =
      within_depth-IsEnded depth (open_array ∷ ts) (as_array (read_items n depth ts)) (
        as_array-IsEnded open_array ts (read_items n depth ts)
          (items-IsEnded n depth ts (omega (arith, enough))))
  value-IsEnded (suc n) depth (close_object ∷ ts) enough =
      within_depth-IsEnded depth (close_object ∷ ts) (failed invalid_json) tt
  value-IsEnded (suc n) depth (close_array ∷ ts) enough =
      within_depth-IsEnded depth (close_array ∷ ts) (failed invalid_json) tt
  value-IsEnded (suc n) depth (malformed ∷ ts) enough =
      within_depth-IsEnded depth (malformed ∷ ts) (failed invalid_json) tt

  items-IsEnded :
      (n depth : ℕ) (ts : List Token) → 2 * length ts + 2 ≤ n → IsEnded ts (read_items n depth ts)
  items-IsEnded zero depth ts enough = omega (arith, enough)
  items-IsEnded (suc n) depth [] enough = tt
  items-IsEnded (suc n) depth (close_array ∷ ts) enough = omega arith
  items-IsEnded (suc n) depth (close_object ∷ ts) enough = tt
  items-IsEnded (suc n) depth (scalar s ∷ ts) enough =
      then_items-IsEnded (scalar s ∷ ts) (read_value n (depth + 1) (scalar s ∷ ts))
        (read_items n depth) (value-IsEnded n (depth + 1) (scalar s ∷ ts) (omega (arith, enough)))
        (λ rest fewer. items-IsEnded n depth rest (omega (arith, enough, fewer)))
  items-IsEnded (suc n) depth (open_object ∷ ts) enough =
      then_items-IsEnded (open_object ∷ ts) (read_value n (depth + 1) (open_object ∷ ts))
        (read_items n depth)
        (value-IsEnded n (depth + 1) (open_object ∷ ts) (omega (arith, enough)))
        (λ rest fewer. items-IsEnded n depth rest (omega (arith, enough, fewer)))
  items-IsEnded (suc n) depth (open_array ∷ ts) enough =
      then_items-IsEnded (open_array ∷ ts) (read_value n (depth + 1) (open_array ∷ ts))
        (read_items n depth) (value-IsEnded n (depth + 1) (open_array ∷ ts) (omega (arith, enough)))
        (λ rest fewer. items-IsEnded n depth rest (omega (arith, enough, fewer)))
  items-IsEnded (suc n) depth (malformed ∷ ts) enough =
      then_items-IsEnded (malformed ∷ ts) (read_value n (depth + 1) (malformed ∷ ts))
        (read_items n depth) (value-IsEnded n (depth + 1) (malformed ∷ ts) (omega (arith, enough)))
        (λ rest fewer. items-IsEnded n depth rest (omega (arith, enough, fewer)))

  fields-IsEnded :
      (n depth : ℕ) (seen : List String) (ts : List Token)
      → 2 * length ts + 2 ≤ n
      → IsEnded ts (read_fields n depth seen ts)
  fields-IsEnded zero depth seen ts enough = omega (arith, enough)
  fields-IsEnded (suc n) depth seen [] enough = tt
  fields-IsEnded (suc n) depth seen (close_object ∷ ts) enough = omega arith
  fields-IsEnded (suc n) depth seen (scalar (text k) ∷ ts) enough =
      let t = scalar (text k) in
      let next = read_fields n depth (k ∷ seen) in
      if_holds (λ (x : Read Fields). IsEnded (t ∷ ts) x) (is_key k seen)
        {y = then_fields k (read_value n (depth + 1) ts) next} (λ _. tt)
        (λ _.
          then_fields-IsEnded t k ts (read_value n (depth + 1) ts) next
            (value-IsEnded n (depth + 1) ts (omega (arith, enough)))
            (λ rest fewer. fields-IsEnded n depth (k ∷ seen) rest (omega (arith, enough, fewer))))
  fields-IsEnded (suc n) depth seen (scalar (number s) ∷ ts) enough = tt
  fields-IsEnded (suc n) depth seen (scalar (boolean b) ∷ ts) enough = tt
  fields-IsEnded (suc n) depth seen (scalar null ∷ ts) enough = tt
  fields-IsEnded (suc n) depth seen (open_object ∷ ts) enough = tt
  fields-IsEnded (suc n) depth seen (open_array ∷ ts) enough = tt
  fields-IsEnded (suc n) depth seen (close_array ∷ ts) enough = tt
  fields-IsEnded (suc n) depth seen (malformed ∷ ts) enough = tt

-- The reader ends on every list of tokens: with the fuel that the decoder gives, it returns an error, or a value and fewer
-- tokens than there were.
pub read_value-IsEnded : (ts : List Token) → IsEnded ts (read_value (2 * length ts + 1) 0 ts)
read_value-IsEnded ts = value-IsEnded (2 * length ts + 1) 0 ts (omega arith)
