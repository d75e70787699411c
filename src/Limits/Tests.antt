-- ===== src/Limits/Tests.antt =====
-- max_output_tokens.go and completion_count.go: runs, and the theorems at concrete requests.
use confidential_model_route.Common.{
  ℕ, ◌≤◌, ◌<◌, ◌≡◌, refl, ◌⊎◌, true, none, some, [], ◌∷◌, arith, if◌then◌else◌, Text, text, text_eq,
}
use confidential_model_route.Common.Int.{ℤ, pos, negsuc}
use confidential_model_route.Decimal.{all_digits, value_of}
use confidential_model_route.Json.{Fields, field, end, int, number, bool, assign, remove, lookup}
use confidential_model_route.Limits.{
  trim_left, trim_right, unsigned, parse_int, positive_int_header, limit_fields, remove_all,
  apply_max_output_tokens, apply_completion_count, int64_limit, invalid_max_tokens_header,
  invalid_completion_count_header,
}
use confidential_model_route.Limits.Accepted.{IsNumeral, positive_int_header_accepts}
use confidential_model_route.Limits.Laws.{
  header_of, has, all_space, apply_max_output_tokens_replaces, apply_completion_count_replaces,
}

abbrev chat : Text
chat = text "/v1/chat/completions"

abbrev body : Fields
body =
    field (text "max_tokens") (number (text "99"))
      (field (text "stream") (bool true) (field (text "n") (number (text "5")) end))

negative : parse_int (text "-5") ≡ some (negsuc 4)
unfolding parse_int unsigned all_digits value_of
negative = refl

negative_header : positive_int_header (text "-5" ∷ []) ≡ none
unfolding positive_int_header trim_left trim_right parse_int unsigned all_digits value_of
negative_header = refl

two_headers :
    apply_max_output_tokens (text "1" ∷ text "1" ∷ []) chat body
    ≡ (some invalid_max_tokens_header, body)
unfolding apply_max_output_tokens positive_int_header limit_fields text_eq
two_headers = refl

bad_count :
    apply_completion_count (text "many" ∷ []) chat body
    ≡ (some invalid_completion_count_header, body)
unfolding apply_completion_count positive_int_header trim_left trim_right parse_int unsigned
    all_digits text_eq
bad_count = refl

limited : apply_max_output_tokens (text " 12 " ∷ []) chat body ≡ (
  none,
  field (text "stream") (bool true) (
      field
        (text "n")
        (number (text "5"))
        (field (text "max_completion_tokens") (int (pos 12)) end)),
)
unfolding apply_max_output_tokens positive_int_header limit_fields text_eq trim_left trim_right
    parse_int unsigned all_digits value_of remove_all remove assign
limited = refl

-- A tab before the number and a line end behind it
abbrev tab : Text
tab = 9 ∷ []

abbrev line_end : Text
line_end = 13 ∷ 10 ∷ []

tab_space : all_space tab ≡ true
unfolding all_space
tab_space = refl

line_end_space : all_space line_end ≡ true
unfolding all_space
line_end_space = refl

chat_fields : limit_fields chat ≡ some (text "max_completion_tokens", text "max_tokens" ∷ [])
unfolding limit_fields text_eq
chat_fields = refl

apply_max_output_tokens_replaces_example :
    ((apply_max_output_tokens (header_of tab line_end 12) chat body).0 ≡ none)
    × (lookup (text "max_tokens") (apply_max_output_tokens (header_of tab line_end 12) chat body).1
        ≡ (if text_eq (text "max_completion_tokens") (text "max_tokens")
            then some (int (pos 12))
            else if has (text "max_tokens") (text "max_tokens" ∷ [])
            then none
            else lookup (text "max_tokens") body))
apply_max_output_tokens_replaces_example =
    apply_max_output_tokens_replaces chat (text "max_completion_tokens") (text "max_tokens" ∷ [])
      body tab line_end 12 (text "max_tokens") chat_fields tab_space line_end_space (omega arith)
      (omega arith)

apply_completion_count_replaces_example :
    ((apply_completion_count (header_of tab line_end 3) chat body).0 ≡ none)
    × (lookup (text "n") (apply_completion_count (header_of tab line_end 3) chat body).1
        ≡ (if text_eq (text "n") (text "n") then some (int (pos 3)) else lookup (text "n") body))
apply_completion_count_replaces_example =
    apply_completion_count_replaces body tab line_end 3 (text "n") tab_space line_end_space
      (omega arith) (omega arith)

plus_limit : positive_int_header (text " +12" ∷ []) ≡ some (pos 12)
unfolding positive_int_header trim_left trim_right parse_int unsigned all_digits value_of
plus_limit = refl

positive_int_header_accepts_example :
    ((text " +12" ∷ [] ≡ []) × (◌≡◌ {A = ℤ} (pos 12) (pos 0)))
    ⊎ ((v : Text) × (m : ℕ) × (text " +12" ∷ [] ≡ v ∷ [])
        × (◌≡◌ {A = ℤ} (pos 12) (pos m))
        × (1 ≤ m)
        × (m < int64_limit)
        × IsNumeral (trim_right (trim_left v)) m)
positive_int_header_accepts_example =
    positive_int_header_accepts (text " +12" ∷ []) (pos 12) plus_limit
