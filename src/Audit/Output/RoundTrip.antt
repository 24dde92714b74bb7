-- ===== src/Audit/Output/RoundTrip.antt =====
-- What `readAuditJSONValue` reads of a value that was printed.
use newapi_risk_platform.Base.{
  ℕ, zero, suc, ◌+◌, ◌*◌, ◌≤◌, ◌≡◌, refl, true, false, String, List, [], ◌∷◌, ltb, length, max,
  arith,
}
use newapi_risk_platform.Audit.Types.{ok}
use newapi_risk_platform.Audit.Output.{
  text, Token, scalar, open_object, close_object, open_array, close_array, Json, leaf, array,
  object, Items, no_items, item, Fields, no_fields, field, got, max_audit_json_depth, is_key,
  read_value, read_items, read_fields, then_items, decode_audit_json, max_audit_response_bytes,
}

-- The tokens of a value before other tokens.
unfoldable mutual
  pub print : Json → List Token → List Token
  print (leaf s) ts = scalar s ∷ ts
  print (array xs) ts = open_array ∷ print_items xs ts
  print (object fs) ts = open_object ∷ print_fields fs ts

  pub print_items : Items → List Token → List Token
  print_items no_items ts = close_array ∷ ts
  print_items (item v xs) ts = print v (print_items xs ts)

  pub print_fields : Fields → List Token → List Token
  print_fields no_fields ts = close_object ∷ ts
  print_fields (field k v fs) ts = scalar (text k) ∷ print v (print_fields fs ts)

-- How deep a value is nested: a leaf and an empty container are not.
unfoldable mutual
  pub height : Json → ℕ
  height (leaf s) = 0
  height (array xs) = height_items xs
  height (object fs) = height_fields fs

  pub height_items : Items → ℕ
  height_items no_items = 0
  height_items (item v xs) = max (suc (height v)) (height_items xs)

  pub height_fields : Fields → ℕ
  height_fields no_fields = 0
  height_fields (field k v fs) = max (suc (height v)) (height_fields fs)

-- No object has a key twice; the keys seen before count as keys of the object.
unfoldable mutual
  pub IsUnambiguous : Json → Type 0
  IsUnambiguous (leaf s) = Unit
  IsUnambiguous (array xs) = AreUnambiguous xs
  IsUnambiguous (object fs) = HaveDistinctKeys [] fs

  pub AreUnambiguous : Items → Type 0
  AreUnambiguous no_items = Unit
  AreUnambiguous (item v xs) = IsUnambiguous v × AreUnambiguous xs

  pub HaveDistinctKeys : (seen : List String) → Fields → Type 0
  HaveDistinctKeys seen no_fields = Unit
  HaveDistinctKeys seen (field k v fs) =
      (is_key k seen ≡ false) × IsUnambiguous v × HaveDistinctKeys (k ∷ seen) fs

-- The fuel that reading a value takes.
mutual
  cost : Json → ℕ
  cost (leaf s) = 1
  cost (array xs) = suc (cost_items xs)
  cost (object fs) = suc (cost_fields fs)

  cost_items : Items → ℕ
  cost_items no_items = 1
  cost_items (item v xs) = suc (cost v + cost_items xs)

  cost_fields : Fields → ℕ
  cost_fields no_fields = 1
  cost_fields (field k v fs) = suc (cost v + cost_fields fs)

read_items-print :
    (n depth : ℕ) (v : Json) (ts : List Token)
    → read_items (suc n) depth (print v ts)
      ≡ then_items (read_value n (depth + 1) (print v ts)) (read_items n depth)
unfolding read_value print
read_items-print n depth (leaf s) ts = refl
read_items-print n depth (array xs) ts = refl
read_items-print n depth (object fs) ts = refl

needs_fuel : (v : Json) → cost v ≤ 0 → ⊥
unfolding cost
needs_fuel (leaf s) h = omega (arith, h)
needs_fuel (array xs) h = omega (arith, h)
needs_fuel (object fs) h = omega (arith, h)

shallow : (depth h : ℕ) → depth + h ≤ 32 → ltb max_audit_json_depth depth ≡ false
shallow depth h le = ground (arith, le)

mutual
  unfolding read_value print height IsUnambiguous cost

  read_value-print :
      (v : Json) (n depth : ℕ) (ts : List Token)
      → cost v ≤ n
      → depth + height v ≤ 32
      → IsUnambiguous v
      → read_value n depth (print v ts) ≡ got v ts
  read_value-print v zero depth ts enough low k = absurd (needs_fuel v enough)
  read_value-print (leaf s) (suc n) depth ts enough low k = rw (shallow depth 0 low) refl
  read_value-print (array xs) (suc n) depth ts enough low k =
      rw
        (
          shallow depth (height_items xs) low,
          read_items-back xs n depth ts (omega (arith, enough)) low k,
        )
        refl
  read_value-print (object fs) (suc n) depth ts enough low k =
      rw
        (
          shallow depth (height_fields fs) low,
          read_fields-back fs n depth [] ts (omega (arith, enough)) low k,
        )
        refl

  read_items-back :
      (xs : Items) (n depth : ℕ) (ts : List Token)
      → cost_items xs ≤ n
      → depth + height_items xs ≤ 32
      → AreUnambiguous xs
      → read_items n depth (print_items xs ts) ≡ got xs ts
  read_items-back no_items zero depth ts enough low k = absurd (omega (arith, enough))
  read_items-back no_items (suc n) depth ts enough low k = refl
  read_items-back (item v xs) zero depth ts enough low k = absurd (omega (arith, enough))
  read_items-back (item v xs) (suc n) depth ts enough low k =
      rw
        (
          read_items-print n depth v (print_items xs ts),
          read_value-print v n (depth + 1) (print_items xs ts) (omega (arith, enough))
              (omega (arith, low)) k.0,
          read_items-back xs n depth ts (omega (arith, enough)) (omega (arith, low)) k.1,
        )
        refl

  read_fields-back :
      (fs : Fields) (n depth : ℕ) (seen : List String) (ts : List Token)
      → cost_fields fs ≤ n
      → depth + height_fields fs ≤ 32
      → HaveDistinctKeys seen fs
      → read_fields n depth seen (print_fields fs ts) ≡ got fs ts
  read_fields-back no_fields zero depth seen ts enough low k = absurd (omega (arith, enough))
  read_fields-back no_fields (suc n) depth seen ts enough low k = refl
  read_fields-back (field key v fs) zero depth seen ts enough low k = absurd (omega (arith, enough))
  read_fields-back (field key v fs) (suc n) depth seen ts enough low k =
      rw
        (
          k.0,
          read_value-print v n (depth + 1) (print_fields fs ts) (omega (arith, enough))
              (omega (arith, low)) k.1,
          read_fields-back fs n depth (key ∷ seen) ts (omega (arith, enough)) (omega (arith, low))
              k.2,
        )
        refl

mutual
  unfolding print cost

  cost_le : (v : Json) (ts : List Token) → cost v + 1 + 2 * length ts ≤ 2 * length (print v ts)
  cost_le (leaf s) ts = omega arith
  cost_le (array xs) ts = omega (arith, cost_items_le xs ts)
  cost_le (object fs) ts = omega (arith, cost_fields_le fs ts)

  cost_items_le :
      (xs : Items) (ts : List Token)
      → cost_items xs + 1 + 2 * length ts ≤ 2 * length (print_items xs ts)
  cost_items_le no_items ts = omega arith
  cost_items_le (item v xs) ts = omega (arith, cost_le v (print_items xs ts), cost_items_le xs ts)

  cost_fields_le :
      (fs : Fields) (ts : List Token)
      → cost_fields fs + 1 + 2 * length ts ≤ 2 * length (print_fields fs ts)
  cost_fields_le no_fields ts = omega arith
  cost_fields_le (field k v fs) ts =
      omega (arith, cost_le v (print_fields fs ts), cost_fields_le fs ts)

-- The tokens of a value are read back as that value if no object in it has a key twice, it is nested at most 32 deep, and
-- the text is UTF-8 and within the limit of bytes.
pub decode_audit_json-print :
    (v : Json) (size : ℕ)
    → IsUnambiguous v
    → height v ≤ 32
    → size ≤ max_audit_response_bytes
    → decode_audit_json (record { size = size; is_utf8 = true; tokens = print v [] }) ≡ ok v
unfolding decode_audit_json
decode_audit_json-print v size k low small =
    rw
      (
        not_larger,
        read_value-print v (2 * length (print v []) + 1) 0 [] (omega (arith, cost_le v []))
            (omega (arith, low)) k,
      )
      refl
  where
    not_larger : ltb max_audit_response_bytes size ≡ false
    not_larger = ground (arith, small)
