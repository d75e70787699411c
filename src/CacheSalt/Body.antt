-- ===== src/CacheSalt/Body.antt =====
-- cache_salt.go: the request body after the router took charge of its cache-salt fields.
use confidential_model_route.Common.{
  ◌≡◌, refl, ap, ◌∙◌, Bool, false, ◌&&◌, none, some, ◌∷◌, arith, if◌then◌else◌, Text, text_eq,
  text_eq_iff, [],
}
use confidential_model_route.Json.{
  Fields, str, lookup, remove, assign, string_at, lookup-assign, lookup-remove,
}
use confidential_model_route.CacheSalt.{
  derive, is_blank, salt_path, secret_field, salt_field, Mode, cache_salt_identity,
  apply_cache_salt,
}

-- The salt that the router derives for a body, blank where it injects none.
abbrev pub salt_for : (Text → Text) → (Text → Text) → Text → Text → Bool → Fields → Text
salt_for digest jwt_subject path api_key enabled body =
    if enabled && salt_path path
    then (derive digest (cache_salt_identity jwt_subject api_key) (string_at secret_field body)).0
    else []

salt_is_not_secret : text_eq salt_field secret_field ≡ false
unfolding text_eq
salt_is_not_secret = refl

forwarded-eq :
    (digest jwt_subject : Text → Text) (path api_key : Text) (enabled : Bool) (body : Fields)
    (m : Mode) (forwarded : Fields)
    → apply_cache_salt digest jwt_subject path api_key enabled (some body) ≡ (m, some forwarded)
    → forwarded ≡ (
        let salt = salt_for digest jwt_subject path api_key enabled body in
        let stripped = remove salt_field (remove secret_field body) in
        if is_blank salt then stripped else assign salt_field (str salt) stripped)
unfolding apply_cache_salt
forwarded-eq digest jwt_subject path api_key enabled body m forwarded h = ground arith

lookup-forwarded :
    (a b k salt : Text) (body : Fields)
    → text_eq b a ≡ false
    → lookup k (
        let stripped = remove b (remove a body) in
        if is_blank salt then stripped else assign b (str salt) stripped)
      ≡ (if text_eq a k
          then none
          else if text_eq b k
          then (if is_blank salt then none else some (str salt))
          else lookup k body)
lookup-forwarded a b k [] body d = ground (
  arith,
  lookup-remove b k (remove a body),
  lookup-remove a k body,
  text_eq_iff a k,
  text_eq_iff b k,
  text_eq_iff b a,
)
lookup-forwarded a b k (c ∷ salt) body d = ground (
  arith,
  lookup-assign b k (str (c ∷ salt)) (remove b (remove a body)),
  lookup-remove b k (remove a body),
  lookup-remove a k body,
  text_eq_iff a k,
  text_eq_iff b k,
  text_eq_iff b a,
)

-- Whatever the client sent, the forwarded body has no user secret, its cache_salt is the derived
-- salt or missing if there is none, and every other field is as it was.
pub apply_cache_salt_lem :
    (digest jwt_subject : Text → Text) (path api_key : Text) (enabled : Bool) (body : Fields)
    (m : Mode) (forwarded : Fields) (k : Text)
    → apply_cache_salt digest jwt_subject path api_key enabled (some body) ≡ (m, some forwarded)
    → lookup k forwarded ≡ (
        if text_eq secret_field k
        then none
        else if text_eq salt_field k
        then (let salt = salt_for digest jwt_subject path api_key enabled body in
            if is_blank salt then none else some (str salt))
        else lookup k body)
apply_cache_salt_lem digest jwt_subject path api_key enabled body m forwarded k h =
    let e = forwarded-eq digest jwt_subject path api_key enabled body m forwarded h in
    ap (lookup k) e
    ∙ lookup-forwarded secret_field salt_field k
        (salt_for digest jwt_subject path api_key enabled body) body salt_is_not_secret
