-- ===== src/CacheRoute/Tests.antt =====
-- A short conversation, and a user message that fills the window.
use confidential_model_route.Common.{
  ℕ, zero, suc, ◌≡◌, refl, ap, false, none, some, [], ◌∷◌, ◌++◌, arith, length, Text, text, text_eq,
  text_lt,
}
use confidential_model_route.Json.{
  Value, null, str, arr, obj, Items, nil, cons, Fields, end, field, lookup, string_at, value_at,
  assign,
}
use confidential_model_route.CacheRoute.{
  prompt_fields, first_message, has_role, path_responses, path_completions, key_payload,
  insert_field, first_message_content,
}
use confidential_model_route.CacheRoute.Eligibility.{
  settings_from, default_settings, prompt_len, message_content_len, contents_len, value_len,
  extract_request, below_floor,
}
use confidential_model_route.CacheRoute.Growth.{append_messages, prompt_fields-append}
use confidential_model_route.CacheRoute.Window.{key_payload-grows}

abbrev message : Text → Text → Value
message role content =
    obj (field (text "role") (str role) (field (text "content") (str content) end))

abbrev conversation : Items
conversation =
    cons (message (text "system") (text "be brief"))
      (cons (message (text "user") (text "hello")) nil)

abbrev chat : Fields
chat = field (text "messages") (arr conversation) end

abbrev chat_path : Text
chat_path = text "/v1/chat/completions"

not_responses : text_eq chat_path path_responses ≡ false
unfolding text_eq
not_responses = refl

not_completions : text_eq chat_path path_completions ≡ false
unfolding text_eq
not_completions = refl

has_messages : lookup (text "messages") chat ≡ some (arr conversation)
unfolding lookup text_eq
has_messages = refl

has_system :
    first_message (text "system" ∷ text "developer" ∷ []) conversation
    ≡ some (str (text "be brief"))
unfolding first_message has_role string_at value_at lookup text_eq
has_system = refl

has_user : first_message (text "user" ∷ []) conversation ≡ some (str (text "hello"))
unfolding first_message has_role string_at value_at lookup text_eq
has_user = refl

prompt_fields-append_example :
    prompt_fields
      (assign
        (text "messages")
        (arr (append_messages conversation (cons (message (text "assistant") (text "hi")) nil)))
        chat)
      chat_path
    ≡ prompt_fields chat chat_path
prompt_fields-append_example =
    prompt_fields-append chat chat_path conversation
      (cons (message (text "assistant") (text "hi")) nil) (str (text "be brief"))
      (str (text "hello")) not_responses not_completions has_messages has_system has_user

abbrev spaces : ℕ → Text
spaces zero = []
spaces (suc n) = 32 ∷ spaces n

length-spaces : (n : ℕ) → length (spaces n) ≡ n
length-spaces zero = refl
length-spaces (suc n) = ap suc (length-spaces n)

key_payload-grows_example :
    key_payload [] [] []
      (record { tools = null; system = null; user = str (spaces 1020 ++ text "more") })
    ≡ key_payload [] [] [] (record { tools = null; system = null; user = str (spaces 1020) })
key_payload-grows_example =
    key_payload-grows [] [] [] null null (spaces 1020) (text "more")
      (omega (arith, length-spaces 1020))

defaults : settings_from [] none ≡ default_settings []
unfolding settings_from
defaults = refl

chat_len : prompt_len chat chat_path ≡ 13
unfolding prompt_len message_content_len contents_len value_len value_at lookup text_eq
chat_len = refl

sorts :
    insert_field (text "a") null (field (text "b") null end)
    ≡ field (text "a") null (field (text "b") null end)
unfolding insert_field text_lt
sorts = refl

too_short :
    extract_request (λ t. t) chat chat_path (text "salt") (default_settings [])
    ≡ record { outcome = below_floor; key = []; prompt_bytes = 13 }
unfolding extract_request prompt_fields prompt_len message_content_len contents_len value_len
    string_at value_at lookup text_eq first_message_content first_message has_role
too_short = refl
