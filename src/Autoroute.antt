-- ===== src/Autoroute.antt =====
-- autoroute/autoroute.go: the choice of a model and an effort for requests that name "auto". Scores
-- are not negative; below 2^40, where float64 is exact enough, `normalize` rounds as the code does.
-- Whether a JSON number's float64 is an integer of the int range is a parameter.
pub mod Effort
pub mod Ranking
pub mod Laws
pub mod Tests
use confidential_model_route.Common.{
  ℕ, zero, suc, ◌+◌, ◌-◌, ◌*◌, ◌/◌, ◌%◌, ◌^◌, ◌≤◌, ◌<◌, min, max, String, ◌≡◌, refl, sym, ap, ◌∙◌,
  ◌≢◌, ◌↔◌, ◌⊎◌, inl, inr, Bool, true, false, not, ◌&&◌, ◌||◌, Option, none, some, List, [], ◌∷◌,
  ◌++◌, map, arith, ltb, leb, ◌==◌, if◌then◌else◌, ltb→lt, lt→ltb, leb→le, le→leb, ==_iff,
  Bool-cases, Option-cases, length, get_elem?, take, drop, length-append, length-take, filter, All,
  All-append, All-mono, In, In-All, keep, In-filter, filter-In, In-append, append-In, not-In_empty,
  if-either, Text, text, text_eq, text_lt, text_eq-eq, text_eq_refl, text_eq_iff, text_lt_irrefl,
  text_lt_trans, text_lt_total, has_host,
}
use confidential_model_route.Common.Int.{ℤ, pos, negsuc, leℤ, ltℤ}
use confidential_model_route.Limits.{trim_left, trim_right, parse_int}
use confidential_model_route.Json.{
  Value, Items, Fields, obj, arr, number, float, nil, cons, lookup, remove, string_at,
}

abbrev pub options_field : Text
options_field = text "auto_model_options"

abbrev pub intelligence_key : Text
intelligence_key = text "intelligence"

abbrev pub max_intelligence : ℕ
max_intelligence = 100

abbrev pub default_intelligence : ℕ
default_intelligence = 50

-- `ValidationError`, by the message; the parameter is the body's, but for the header's.
pub data ValidationError : Type 0 where
  invalid_header : ValidationError
  invalid_param : ValidationError
  out_of_range : Bool → ℤ → ValidationError

pub data Parsed : Type 0 where
  level : ℕ → Parsed
  rejected : ValidationError → Parsed

-- `validateIntelligence`; the flag says that the level came from the body.
unfoldable pub validate_intelligence : Bool → ℤ → Parsed
validate_intelligence from_body (negsuc n) = rejected (out_of_range from_body (negsuc n))
validate_intelligence from_body (pos n) =
    if ltb max_intelligence n then rejected (out_of_range from_body (pos n)) else level n

abbrev pub is_empty_text : Text → Bool
is_empty_text [] = true
is_empty_text (c ∷ cs) = false

module _ (integral : Text → Option ℤ) where
  -- `intelligenceFromJSON`
  unfoldable pub intelligence_from_json : Value → Parsed
  unfolding validate_intelligence
  intelligence_from_json (number t) = elim (integral t) [
    | none ↦ rejected invalid_param
    | some n ↦ validate_intelligence true n
  ]
  intelligence_from_json (float t) = elim (integral t) [
    | none ↦ rejected invalid_param
    | some n ↦ validate_intelligence true n
  ]
  intelligence_from_json v = rejected invalid_param

  -- The header, or the default.
  unfoldable pub intelligence_from_header : Text → Parsed
  unfolding validate_intelligence trim_left trim_right parse_int
  intelligence_from_header header =
      let value = trim_right (trim_left header) in
      if is_empty_text value then level default_intelligence else elim (parse_int value) [
        | none ↦ rejected invalid_header
        | some n ↦ validate_intelligence false n
      ]

  -- `ParseIntelligence`, with the body that it leaves; a missing header reads as the empty text.
  unfoldable pub parse_intelligence : Text → Fields → Parsed × Fields
  unfolding intelligence_from_json intelligence_from_header lookup remove
  parse_intelligence header body = (
    elim (lookup options_field body) [
      | some (obj options) ↦ elim (lookup intelligence_key options) [
        | some value ↦ intelligence_from_json value
        | none ↦ intelligence_from_header header
      ]
      | _ ↦ intelligence_from_header header
    ],
    remove options_field body,
  )

-- `visualPartTypes`
abbrev pub visual_part_types : List Text
visual_part_types = text "image_url" ∷ text "input_image" ∷ text "file" ∷ text "input_file" ∷ []

unfoldable pub visual_part : Value → Bool
unfolding has_host string_at
visual_part (obj part) = has_host visual_part_types (string_at (text "type") part)
visual_part v = false

unfoldable pub any_item : (Value → Bool) → Items → Bool
any_item test nil = false
any_item test (cons v vs) = test v || any_item test vs

-- A message with a visual part in its content
unfoldable pub visual_message : Value → Bool
unfolding visual_part any_item lookup
visual_message (obj message) = elim (lookup (text "content") message) [
  | some (arr parts) ↦ any_item visual_part parts
  | _ ↦ false
]
visual_message v = false

unfoldable pub visual_in : Text → Fields → Bool
unfolding visual_message any_item lookup
visual_in key body = elim (lookup key body) [
  | some (arr items) ↦ any_item visual_message items
  | _ ↦ false
]

-- `HasVisualInput`
unfoldable pub has_visual_input : Fields → Bool
unfolding visual_in
has_visual_input body = visual_in (text "messages") body || visual_in (text "input") body
