-- ===== src/CacheSalt.antt =====
-- cachesalt/cachesalt.go and cache_salt.go. SHA-256 and the unpadded base64 encoding are
-- parameters.
pub mod Framing
pub mod Tests
pub mod Isolation
pub mod Body
use confidential_model_route.Common.{
  ℕ, ◌/◌, ◌%◌, Bool, true, false, not, ◌||◌, Option, none, some, List, ◌∷◌, ◌++◌, if◌then◌else◌,
  length, Text, text, text_eq, [],
}
use confidential_model_route.Json.{Fields, str, remove, assign, string_at}

abbrev pub salt_domain_tag : Text
salt_domain_tag = text "tinfoil/cache-salt/v1"

-- `binary.BigEndian.PutUint32`
unfoldable pub uint32_be : ℕ → Text
uint32_be n = (n / 16_777_216 % 256) ∷ (n / 65_536 % 256) ∷ (n / 256 % 256) ∷ (n % 256) ∷ []

-- lp(f)
unfoldable pub frame : Text → Text
unfolding uint32_be
frame f = uint32_be (length f) ++ f

pub frames : List Text → Text
unfolding frame
frames [] = []
frames (f ∷ fs) = frame f ++ frames fs

-- The bytes that `Sum` writes to the hash. A field of more than 2^32 - 1 bytes panics there, so
-- statements about it bound the fields.
pub payload : Text → List Text → Text
unfolding frames
payload tag fields = tag ++ frames fields

pub data Mode : Type 0 where
  mode_none mode_tenant mode_user : Mode

abbrev pub is_blank : Text → Bool
is_blank [] = true
is_blank (c ∷ cs) = false

-- What `Derive` hashes, if it hashes.
pub derived_payload : Text → Text → Option Text
unfolding payload
derived_payload tenant_id secret =
    if is_blank tenant_id
    then none
    else if is_blank secret
    then some (payload salt_domain_tag (tenant_id ∷ []))
    else some (payload salt_domain_tag (tenant_id ∷ secret ∷ []))

pub derive : (Text → Text) → Text → Text → Text × Mode
unfolding derived_payload
derive digest tenant_id secret = elim (derived_payload tenant_id secret) [
  | none ↦ ([], mode_none)
  | some p ↦ (digest p, if is_blank secret then mode_tenant else mode_user)
]

pub salt_path : Text → Bool
salt_path path =
    text_eq path (text "/v1/chat/completions")
    || text_eq path (text "/v1/completions")
    || text_eq path (text "/v1/responses")
    || text_eq path (text "/v1/decisions")

abbrev pub secret_field : Text
secret_field = text "user_cache_secret"

abbrev pub salt_field : Text
salt_field = text "cache_salt"

-- main.go, `cacheSaltIdentity`: the JWT subject, or the opaque key. `jwt_subject` decodes base64 and
-- JSON with Go's libraries and is a parameter.
pub cache_salt_identity : (Text → Text) → Text → Text
cache_salt_identity jwt_subject api_key =
    let sub = jwt_subject api_key in if is_blank sub then api_key else sub

-- `applyCacheSalt`; a nil body is `none`. `digest` is the base64 text of the SHA-256 sum.
pub apply_cache_salt :
    (Text → Text) → (Text → Text) → Text → Text → Bool → Option Fields → Mode × Option Fields
apply_cache_salt digest jwt_subject path api_key enabled none = (mode_none, none)
apply_cache_salt digest jwt_subject path api_key enabled (some body) =
    let secret = string_at secret_field body in
    let stripped = remove salt_field (remove secret_field body) in
    if not enabled || not (salt_path path)
    then (mode_none, some stripped)
    else (let (salt, mode) = derive digest (cache_salt_identity jwt_subject api_key) secret in
        if is_blank salt
        then (mode_none, some stripped)
        else (mode, some (assign salt_field (str salt) stripped)))
