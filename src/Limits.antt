-- ===== src/Limits.antt =====
-- max_output_tokens.go and completion_count.go: limits that a request's headers set.
pub mod Laws
pub mod Accepted
pub mod Tests
use confidential_model_route.Common.{
  ℕ, zero, suc, ◌+◌, ◌-◌, ◌*◌, ◌/◌, ◌%◌, ◌^◌, ◌≤◌, ◌<◌, min, max, String, ◌≡◌, refl, sym, ap, ◌∙◌,
  ◌≢◌, ◌↔◌, ◌⊎◌, inl, inr, Bool, true, false, not, ◌&&◌, ◌||◌, Option, none, some, List, [], ◌∷◌,
  ◌++◌, map, arith, ltb, leb, ◌==◌, if◌then◌else◌, ltb→lt, lt→ltb, leb→le, le→leb, ==_iff,
  Bool-cases, Option-cases, length, get_elem?, take, drop, length-append, length-take, filter, All,
  All-append, All-mono, In, In-All, keep, In-filter, filter-In, In-append, append-In, not-In_empty,
  if-either, Text, text, text_eq, text_lt, text_eq-eq, text_eq_refl, text_eq_iff, text_lt_irrefl,
  text_lt_trans, text_lt_total,
}
use confidential_model_route.Common.Int.{ℤ, pos, sub_ℕ, leℤ}
use confidential_model_route.Decimal.{all_digits, value_of}
use confidential_model_route.Json.{Fields, int, assign, remove}

-- `strings.TrimSpace` on ASCII
abbrev pub is_space : ℕ → Bool
is_space c = c == 32 || (leb 9 c && leb c 13)

unfoldable pub trim_left : Text → Text
trim_left [] = []
trim_left (c ∷ cs) = elim (is_space c) [ true ↦ trim_left cs | false ↦ c ∷ cs ]

unfoldable pub trim_right : Text → Text
trim_right [] = []
trim_right (c ∷ cs) = elim (trim_right cs) [
  | [] ↦ if is_space c then [] else c ∷ []
  | d ∷ ds ↦ c ∷ d ∷ ds
]

-- `strconv.ParseInt(s, 10, 64)`: a sign, and digits within the range of int64.
unfoldable pub unsigned : Text → Option ℕ
unfolding all_digits value_of
unsigned [] = none
unsigned (c ∷ cs) = if all_digits (c ∷ cs) then some (value_of 0 (c ∷ cs)) else none

abbrev pub int64_limit : ℕ
int64_limit = 9223372036854775808

unfoldable pub parse_int : Text → Option ℤ
unfolding unsigned
parse_int [] = none
parse_int (c ∷ cs) =
    if c == 45
    then elim (unsigned cs) [
      | none ↦ none
      | some n ↦ if leb n int64_limit then some (sub_ℕ 0 n) else none
    ]
    else elim (unsigned (if c == 43 then cs else c ∷ cs)) [
      | none ↦ none
      | some n ↦ if ltb n int64_limit then some (pos n) else none
    ]

-- `positiveIntHeader`, on the values that the header has; `none` is a refusal.
unfoldable pub positive_int_header : List Text → Option ℤ
unfolding trim_left trim_right parse_int
positive_int_header [] = some (pos 0)
positive_int_header (v ∷ w ∷ vs) = none
positive_int_header (v ∷ []) = elim (parse_int (trim_right (trim_left v))) [
  | none ↦ none
  | some n ↦ if leℤ (pos 1) n then some n else none
]

-- `maxOutputTokensFields`
pub limit_fields : Text → Option (Text × List Text)
unfolding text_eq
limit_fields path =
    if text_eq path (text "/v1/chat/completions")
    then some (text "max_completion_tokens", text "max_tokens" ∷ [])
    else if text_eq path (text "/v1/completions")
    then some (text "max_tokens", [])
    else if text_eq path (text "/v1/responses")
    then some (text "max_output_tokens", [])
    else none

pub data ApplyError : Type 0 where
  invalid_max_tokens_header : ApplyError
  invalid_completion_count_header : ApplyError

pub remove_all : List Text → Fields → Fields
unfolding remove
remove_all [] body = body
remove_all (k ∷ ks) body = remove_all ks (remove k body)

abbrev pub Applied : Type 0
Applied = Option ApplyError × Fields

-- `applyMaxOutputTokensHeader`: the error, if any, and the body.
unfoldable pub apply_max_output_tokens : List Text → Text → Fields → Applied
unfolding positive_int_header limit_fields remove_all assign
apply_max_output_tokens values path body = elim (limit_fields path) [
  | none ↦ (none, body)
  | some (first, others) ↦ elim (positive_int_header values) [
    | none ↦ (some invalid_max_tokens_header, body)
    | some (pos zero) ↦ (none, body)
    | some n ↦ (none, assign first (int n) (remove_all (first ∷ others) body))
  ]
]

-- `applyCompletionCountHeader`
unfoldable pub apply_completion_count : List Text → Text → Fields → Applied
unfolding positive_int_header assign text_eq
apply_completion_count values path body =
    if text_eq path (text "/v1/chat/completions")
    then elim (positive_int_header values) [
      | none ↦ (some invalid_completion_count_header, body)
      | some (pos zero) ↦ (none, body)
      | some n ↦ (none, assign (text "n") (int n) body)
    ]
    else (none, body)
