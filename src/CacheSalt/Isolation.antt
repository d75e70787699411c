-- ===== src/CacheSalt/Isolation.antt =====
-- Different principals hash different bytes.
use confidential_model_route.Common.{
  ◌≡◌, refl, sym, ◌∙◌, ◌≢◌, ◌⊎◌, inl, inr, some, List, ◌∷◌, ◌++◌, arith, if◌then◌else◌, All, Text,
  [],
}
use confidential_model_route.CacheSalt.{
  payload, derived_payload, derive, salt_domain_tag, is_blank, mode_none, mode_tenant, mode_user,
}
use confidential_model_route.CacheSalt.Framing.{Fits, frames-injective}

append_cancel : (t xs ys : Text) → t ++ xs ≡ t ++ ys → xs ≡ ys
append_cancel [] xs ys h = h
append_cancel (c ∷ t) xs ys h = append_cancel t xs ys (ground arith)

-- Under one tag, two sequences of fields that fit their length prefixes and hash the same bytes are
-- the same sequence.
pub payload-injective :
    (tag : Text) (fs gs : List Text)
    → All Fits fs
    → All Fits gs
    → payload tag fs ≡ payload tag gs
    → fs ≡ gs
unfolding payload
payload-injective tag fs gs p q h = frames-injective fs gs p q (append_cancel tag _ _ h)

fields_of : Text → Text → List Text
fields_of tenant secret = if is_blank secret then tenant ∷ [] else tenant ∷ secret ∷ []

fields_of-Fits : (t s : Text) → Fits t → Fits s → All Fits (fields_of t s)
unfolding fields_of
fields_of-Fits t [] p q = (p, tt)
fields_of-Fits t (c ∷ s) p q = (p, (q, tt))

fields_of-injective : (t s u r : Text) → fields_of t s ≡ fields_of u r → (t ≡ u) × (s ≡ r)
unfolding fields_of
fields_of-injective t [] u [] h = ground arith
fields_of-injective t [] u (d ∷ r) h = ground arith
fields_of-injective t (c ∷ s) u [] h = ground arith
fields_of-injective t (c ∷ s) u (d ∷ r) h = ground arith

derived-fields :
    (t s p : Text) → derived_payload t s ≡ some p → p ≡ payload salt_domain_tag (fields_of t s)
unfolding derived_payload fields_of
derived-fields t [] p h = ground arith
derived-fields t (c ∷ s) p h = ground arith

-- Two callers whose salts are derived from the same bytes are the same tenant with the same user
-- secret, for tenants and secrets below 2^32 bytes.
pub derived_payload-injective :
    (t s u r p : Text)
    → Fits t
    → Fits s
    → Fits u
    → Fits r
    → derived_payload t s ≡ some p
    → derived_payload u r ≡ some p
    → (t ≡ u) × (s ≡ r)
derived_payload-injective t s u r p ft fs fu fr h k = fields_of-injective t s u r (
    payload-injective salt_domain_tag (fields_of t s) (fields_of u r) (fields_of-Fits t s ft fs)
      (fields_of-Fits u r fu fr) (sym (derived-fields t s p h) ∙ derived-fields u r p k))

-- The mode says what the salt was derived from: nothing without a tenant, the tenant alone without a
-- user secret, both otherwise; and a text was hashed exactly where the mode is not `none`.
pub derive_mode :
    (digest : Text → Text) (t s : Text)
    → ((t ≡ []) × (derive digest t s ≡ ([], mode_none)))
      ⊎ ((t ≢ [])
          × (s ≡ [])
          × (derive digest t s ≡ (digest (payload salt_domain_tag (t ∷ [])), mode_tenant)))
      ⊎ ((t ≢ [])
          × (s ≢ [])
          × (derive digest t s ≡ (digest (payload salt_domain_tag (t ∷ s ∷ [])), mode_user)))
unfolding derive
derive_mode digest [] s = inl (refl, refl)
derive_mode digest (c ∷ t) [] = inr (inl (λ e. cc, refl, refl))
derive_mode digest (c ∷ t) (d ∷ s) = inr (inr (λ e. cc, λ e. cc, refl))
