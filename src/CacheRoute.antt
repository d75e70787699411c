-- ===== src/CacheRoute.antt =====
-- cacheroute/cacheroute.go: the routing key of a parsed request body.
pub mod Eligibility
pub mod Window
pub mod Tests
pub mod Growth
use confidential_model_route.Common.{
  ℕ, ◌-◌, Bool, true, false, ◌||◌, Option, none, some, List, ◌∷◌, ◌++◌, leb, ◌==◌, if◌then◌else◌,
  length, take, Text, text, text_eq, text_lt, [],
}
use confidential_model_route.Json.{
  Value, null, bool, number, float, str, int, arr, obj, Items, nil, cons, Fields, end, field,
  string_at, value_at,
}
use confidential_model_route.CacheSalt.{payload, frame}

abbrev pub key_domain_tag : Text
key_domain_tag = text "tinfoil/route-key/v1"

abbrev pub prefix_window_cap : ℕ
prefix_window_cap = 1024

-- `appendFramed`
pub append_framed : ℕ → Text → Text → Text
append_framed budget buf s =
    let room = budget - length buf - 4 in if room == 0 then buf else buf ++ frame (take room s)

abbrev pub format_bool : Bool → Text
format_bool true = text "true"
format_bool false = text "false"

-- The test in front of every append.
abbrev pub full : ℕ → Text → Bool
full budget buf = leb budget (length buf)

-- `appendFlattened` on a value whose maps are sorted by key, with the loops over lists and maps.
mutual
  pub append_value : ℕ → Text → Value → Text
  append_value b buf null = buf
  append_value b buf (bool x) = elim (full b buf) [
    | true ↦ buf
    | false ↦ append_framed b buf (format_bool x)
  ]
  append_value b buf (number s) = elim (full b buf) [ true ↦ buf | false ↦ append_framed b buf s ]
  append_value b buf (float s) = elim (full b buf) [ true ↦ buf | false ↦ append_framed b buf s ]
  append_value b buf (str s) = elim (full b buf) [ true ↦ buf | false ↦ append_framed b buf s ]
  append_value b buf (int n) = buf
  append_value b buf (arr xs) = append_items b buf xs
  append_value b buf (obj m) = append_fields b buf m

  pub append_items : ℕ → Text → Items → Text
  append_items b buf nil = buf
  append_items b buf (cons x xs) = elim (full b buf) [
    | true ↦ buf
    | false ↦ append_items b (append_value b buf x) xs
  ]

  pub append_fields : ℕ → Text → Fields → Text
  append_fields b buf end = buf
  append_fields b buf (field k v m) = elim (full b buf) [
    | true ↦ buf
    | false ↦ append_fields b (append_value b (append_framed b buf k) v) m
  ]

-- `sortedKeys`, with the values: insertion by key.
pub insert_field : Text → Value → Fields → Fields
insert_field k v end = field k v end
insert_field k v (field j w m) =
    if text_lt j k then field j w (insert_field k v m) else field k v (field j w m)

-- Every map of the value in key order.
mutual
  pub sorted_value : Value → Value
  sorted_value null = null
  sorted_value (bool x) = bool x
  sorted_value (number s) = number s
  sorted_value (float s) = float s
  sorted_value (str s) = str s
  sorted_value (int n) = int n
  sorted_value (arr xs) = arr (sorted_items xs)
  sorted_value (obj m) = obj (sorted_fields m)

  pub sorted_items : Items → Items
  sorted_items nil = nil
  sorted_items (cons x xs) = cons (sorted_value x) (sorted_items xs)

  pub sorted_fields : Fields → Fields
  sorted_fields end = end
  sorted_fields (field k v m) = insert_field k (sorted_value v) (sorted_fields m)

pub flatten_value : ℕ → Value → Text
flatten_value budget v = if budget == 0 then [] else append_value budget [] (sorted_value v)

-- `firstMessageContent`; a missing message is nil, as is a missing content.
pub has_role : List Text → Fields → Bool
has_role [] m = false
has_role (r ∷ rs) m = text_eq (string_at (text "role") m) r || has_role rs m

pub first_message : List Text → Items → Option Value
first_message roles nil = none
first_message roles (cons (obj m) xs) =
    let rest = first_message roles xs in
    if has_role roles m then some (value_at (text "content") m) else rest
first_message roles (cons _ xs) = first_message roles xs

pub first_message_content : List Text → Items → Value
unfolding first_message
first_message_content roles xs = elim (first_message roles xs) [ none ↦ null | some v ↦ v ]

pub record PromptFields : Type 0 where
  pub tools : Value
  pub system : Value
  pub user : Value

abbrev pub path_responses : Text
path_responses = text "/v1/responses"

abbrev pub path_completions : Text
path_completions = text "/v1/completions"

abbrev pub response_user : Value → Value
response_user (str s) = str s
response_user (arr xs) = first_message_content (text "user" ∷ []) xs
response_user _ = null

abbrev pub chat_fields : Value → Value → PromptFields
chat_fields tools (arr ms) = record {
  tools = tools;
  system = first_message_content (text "system" ∷ text "developer" ∷ []) ms;
  user = first_message_content (text "user" ∷ []) ms;
}
chat_fields tools _ = record { tools = tools; system = null; user = null }

pub prompt_fields : Fields → Text → PromptFields
prompt_fields body path =
    let tools = value_at (text "tools") body in
    if text_eq path path_responses
    then record {
      tools = tools;
      system = value_at (text "instructions") body;
      user = response_user (value_at (text "input") body);
    }
    else if text_eq path path_completions
    then record { tools = tools; system = null; user = value_at (text "prompt") body }
    else chat_fields tools (value_at (text "messages") body)

-- What `deriveKey` hashes.
pub key_payload : Text → Text → Text → PromptFields → Text
key_payload secret salt prompt_cache_key f =
    let tools = flatten_value prefix_window_cap f.tools in
    let system = flatten_value (prefix_window_cap - length tools) f.system in
    let user = flatten_value (prefix_window_cap - length tools - length system) f.user in
    payload key_domain_tag (secret ∷ salt ∷ prompt_cache_key ∷ tools ∷ system ∷ user ∷ [])
