-- ===== src/CacheRoute/Growth.antt =====
-- The routing key of a conversation does not change as messages are added to it.
use confidential_model_route.Common.{
  ◌≡◌, refl, false, some, List, ◌∷◌, arith, if◌then◌else◌, Text, text, text_eq, text_eq_refl, [],
}
use confidential_model_route.Json.{
  Value, null, bool, number, float, str, int, arr, obj, Items, nil, cons, Fields, lookup, assign,
  value_at, lookup-assign,
}
use confidential_model_route.CacheRoute.{
  first_message, first_message_content, prompt_fields, path_responses, path_completions,
}

pub append_messages : Items → Items → Items
append_messages nil ys = ys
append_messages (cons x xs) ys = cons x (append_messages xs ys)

first_message-append :
    (roles : List Text) (xs ys : Items) (v : Value)
    → first_message roles xs ≡ some v
    → first_message roles (append_messages xs ys) ≡ some v
unfolding first_message append_messages
first_message-append roles nil ys v h = cc
first_message-append roles (cons (obj m) xs) ys v h =
    ground (arith, first_message-append roles xs ys v)
first_message-append roles (cons null xs) ys v h = first_message-append roles xs ys v h
first_message-append roles (cons (bool b) xs) ys v h = first_message-append roles xs ys v h
first_message-append roles (cons (number b) xs) ys v h = first_message-append roles xs ys v h
first_message-append roles (cons (float b) xs) ys v h = first_message-append roles xs ys v h
first_message-append roles (cons (str b) xs) ys v h = first_message-append roles xs ys v h
first_message-append roles (cons (int b) xs) ys v h = first_message-append roles xs ys v h
first_message-append roles (cons (arr b) xs) ys v h = first_message-append roles xs ys v h

content-append :
    (roles : List Text) (xs ys : Items) (v : Value)
    → first_message roles xs ≡ some v
    → first_message_content roles (append_messages xs ys) ≡ first_message_content roles xs
unfolding first_message_content
content-append roles xs ys v h = ground (arith, first_message-append roles xs ys v h)

value_at-assign :
    (k j : Text) (v : Value) (m : Fields)
    → value_at j (assign k v m) ≡ (if text_eq k j then v else value_at j m)
unfolding value_at
value_at-assign k j v m = ground (arith, lookup-assign k j v m)

value_at-some : (k : Text) (m : Fields) (v : Value) → lookup k m ≡ some v → value_at k m ≡ v
unfolding value_at
value_at-some k m v h = ground arith

other_field : text_eq (text "messages") (text "tools") ≡ false
unfolding text_eq
other_field = refl

-- Once a chat has a message in a system role and one of the user, adding messages behind them
-- leaves the fields that the routing key is derived from as they are.
pub prompt_fields-append :
    (body : Fields) (path : Text) (ms more : Items) (system user : Value)
    → text_eq path path_responses ≡ false
    → text_eq path path_completions ≡ false
    → lookup (text "messages") body ≡ some (arr ms)
    → first_message (text "system" ∷ text "developer" ∷ []) ms ≡ some system
    → first_message (text "user" ∷ []) ms ≡ some user
    → prompt_fields (assign (text "messages") (arr (append_messages ms more)) body) path
      ≡ prompt_fields body path
unfolding prompt_fields
prompt_fields-append body path ms more system user r c h s u =
    let key = text "messages" in
    let grown = assign key (arr (append_messages ms more)) body in
    let tools : value_at (text "tools") grown ≡ value_at (text "tools") body =
      rw (value_at-assign, other_field) in
    let new : value_at key grown ≡ arr (append_messages ms more) =
      rw (value_at-assign, text_eq_refl key) in
    let old : value_at key body ≡ arr ms = value_at-some key body (arr ms) h in
    rw (
      r,
      c,
      tools,
      new,
      old,
      content-append (text "system" ∷ text "developer" ∷ []) ms more system s,
      content-append (text "user" ∷ []) ms more user u,
    )
