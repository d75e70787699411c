-- ===== src/Autoroute/Laws.antt =====
-- autoroute/autoroute.go: what the choice promises.
use confidential_model_route.Common.{
  ◌≤◌, ◌≡◌, inl, inr, Bool, true, false, Option, none, some, arith, ltb, if◌then◌else◌, Bool-cases,
  Option-cases, Text, text_eq,
}
use confidential_model_route.Common.Int.{ℤ, pos, negsuc}
use confidential_model_route.Json.{
  Value, Fields, obj, arr, number, float, str, null, bool, int, lookup, lookup-remove,
}
use confidential_model_route.Autoroute.{
  options_field, intelligence_key, max_intelligence, Parsed, level, rejected, validate_intelligence,
  intelligence_from_json, intelligence_from_header, parse_intelligence, is_empty_text,
}
use confidential_model_route.Limits.{trim_left, trim_right, parse_int}

abbrev pub IsInRange : Parsed → Type 0
IsInRange (level n) = n ≤ max_intelligence
IsInRange (rejected e) = Unit {0}

validate-IsInRange : (b : Bool) (n : ℤ) → IsInRange (validate_intelligence b n)
unfolding validate_intelligence
validate-IsInRange b (negsuc n) = tt
validate-IsInRange b (pos n) = elim (Bool-cases (ltb max_intelligence n)) [
  | inl e ↦ rw e tt
  | inr e ↦ rw e (ground (arith, e))
]

module _ (integral : Text → Option ℤ) where
  json-IsInRange : (v : Value) → IsInRange (intelligence_from_json integral v)
  unfolding intelligence_from_json
  json-IsInRange (number t) = elim (Option-cases (integral t)) [
    | inl e ↦ rw (e, intelligence_from_json) tt
    | inr (n, e) ↦ rw (e, intelligence_from_json) (validate-IsInRange true n)
  ]
  json-IsInRange (float t) = elim (Option-cases (integral t)) [
    | inl e ↦ rw (e, intelligence_from_json) tt
    | inr (n, e) ↦ rw (e, intelligence_from_json) (validate-IsInRange true n)
  ]
  json-IsInRange null = tt
  json-IsInRange (bool b) = tt
  json-IsInRange (str s) = tt
  json-IsInRange (int n) = tt
  json-IsInRange (arr vs) = tt
  json-IsInRange (obj m) = tt

  header-IsInRange : (t : Text) → IsInRange (intelligence_from_header integral t)
  unfolding intelligence_from_header
  header-IsInRange t = elim (Bool-cases (is_empty_text (trim_right (trim_left t)))) [
    | inl e ↦ rw e (omega arith)
    | inr e ↦ elim (Option-cases (parse_int (trim_right (trim_left t)))) [
      | inl f ↦ rw (e, f, intelligence_from_header) tt
      | inr (n, f) ↦ rw (e, f, intelligence_from_header) (validate-IsInRange false n)
    ]
  ]

  value-IsInRange :
      (header : Text) (o : Option Value)
      → IsInRange (elim o [
        | some value ↦ intelligence_from_json integral value
        | none ↦ intelligence_from_header integral header
      ])
  value-IsInRange header none = header-IsInRange header
  value-IsInRange header (some v) = json-IsInRange v

  options-IsInRange :
      (header : Text) (o : Option Value)
      → IsInRange (elim o [
        | some (obj options) ↦ elim (lookup intelligence_key options) [
          | some value ↦ intelligence_from_json integral value
          | none ↦ intelligence_from_header integral header
        ]
        | _ ↦ intelligence_from_header integral header
      ])
  options-IsInRange header none = header-IsInRange header
  options-IsInRange header (some (obj m)) = value-IsInRange header (lookup intelligence_key m)
  options-IsInRange header (some null) = header-IsInRange header
  options-IsInRange header (some (bool b)) = header-IsInRange header
  options-IsInRange header (some (str t)) = header-IsInRange header
  options-IsInRange header (some (number t)) = header-IsInRange header
  options-IsInRange header (some (float t)) = header-IsInRange header
  options-IsInRange header (some (int n)) = header-IsInRange header
  options-IsInRange header (some (arr vs)) = header-IsInRange header

  -- A requested level that is accepted is at most 100, whether it comes from the body, the header or
  -- the default; accepted or not, the body that goes on lacks the option field and has every other
  -- field as it was.
  pub parse_intelligence_lem :
      (header : Text) (body : Fields) (k : Text)
      → IsInRange (parse_intelligence integral header body).0
        × (lookup k (parse_intelligence integral header body).1
            ≡ (if text_eq options_field k then none else lookup k body))
  unfolding parse_intelligence
  parse_intelligence_lem header body k =
      (options-IsInRange header (lookup options_field body), lookup-remove options_field k body)
