-- ===== src/CacheSalt/Tests.antt =====
-- Salts of small tenants; the digest adds a byte in front.
use confidential_model_route.Common.{
  ◌≡◌, refl, true, none, some, ◌∷◌, arith, if◌then◌else◌, Text, text, text_eq, [],
}
use confidential_model_route.Json.{str, Fields, end, field, lookup, remove, assign, string_at}
use confidential_model_route.CacheSalt.{
  payload, salt_domain_tag, mode_user, is_blank, derived_payload, derive, salt_path, secret_field,
  salt_field, cache_salt_identity, apply_cache_salt, List,
}
use confidential_model_route.CacheSalt.Body.{salt_for, apply_cache_salt_lem}
use confidential_model_route.CacheSalt.Isolation.{derived_payload-injective}

abbrev tenant : Text
tenant = 1 ∷ []

abbrev secret : Text
secret = 2 ∷ []

abbrev two_fields : List Text
two_fields = tenant ∷ secret ∷ []

tenant_and_secret :
    derived_payload tenant secret ≡ some (payload salt_domain_tag (tenant ∷ secret ∷ []))
unfolding derived_payload
tenant_and_secret = refl

derived_payload-injective_example : (tenant ≡ tenant) × (secret ≡ secret)
derived_payload-injective_example =
    derived_payload-injective tenant secret tenant secret
      (payload salt_domain_tag (tenant ∷ secret ∷ [])) (omega arith) (omega arith) (omega arith)
      (omega arith) tenant_and_secret tenant_and_secret

abbrev digest : Text → Text
digest t = 7 ∷ t

abbrev no_subject : Text → Text
no_subject key = []

-- The client sets both fields.
abbrev body : Fields
body = field salt_field (str (text "forged")) (field secret_field (str (text "s")) end)

abbrev salt : Text
salt = salt_for digest no_subject (text "/v1/responses") (text "k") true body

abbrev forwarded : Fields
forwarded = field salt_field (str salt) end

forwards :
    apply_cache_salt digest no_subject (text "/v1/responses") (text "k") true (some body)
    ≡ (mode_user, some forwarded)
unfolding apply_cache_salt derive derived_payload cache_salt_identity salt_path string_at lookup
    remove assign text_eq
forwards = refl

apply_cache_salt_lem_example : lookup salt_field forwarded ≡ (
    if text_eq secret_field salt_field
    then none
    else if text_eq salt_field salt_field
    then (if is_blank salt then none else some (str salt))
    else lookup salt_field body)
apply_cache_salt_lem_example =
    apply_cache_salt_lem digest no_subject (text "/v1/responses") (text "k") true body mode_user
      forwarded salt_field forwards
