-- ===== src/Common/Maps.antt =====
-- Go maps as lists of entries with at most one for a key, and sets of texts.
use mathlib.Core.Path.{◌≡◌}
use mathlib.Core.Bool.{Bool, false, ◌||◌}
use mathlib.Core.Option.{Option, none, some}
use mathlib.Core.List.{List, ◌∷◌, []}
use native.Mathlib.Omega.{arith}
use confidential_model_route.Common.Tests.{if◌then◌else◌}
use confidential_model_route.Common.Bytes.{Text, text_eq, text_eq_iff}

-- `set[h]`
unfoldable pub has_host : List Text → Text → Bool
has_host [] h = false
has_host (k ∷ ks) h = text_eq k h || has_host ks h

module _ {ℓ} {A : Type ℓ} where
  -- `m[k]`, with its presence
  unfoldable pub map_at : Text → List (Text × A) → Option A
  map_at k [] = none
  map_at k ((j, v) ∷ m) = if text_eq j k then some v else map_at k m

  -- `delete(m, k)`
  unfoldable pub map_delete : Text → List (Text × A) → List (Text × A)
  map_delete k [] = []
  map_delete k ((j, v) ∷ m) =
      let rest = map_delete k m in if text_eq j k then rest else (j, v) ∷ rest

  -- `m[k] = v`
  abbrev pub map_put : Text → A → List (Text × A) → List (Text × A)
  map_put k v m = (k, v) ∷ map_delete k m

  pub map_at-delete :
      (k j : Text) (m : List (Text × A))
      → map_at j (map_delete k m) ≡ (if text_eq k j then none else map_at j m)
  unfolding map_at map_delete
  map_at-delete k j [] = ground arith
  map_at-delete k j ((i, v) ∷ m) =
      ground (arith, map_at-delete k j m, text_eq_iff i k, text_eq_iff i j, text_eq_iff k j)

  pub map_at-put :
      (k j : Text) (v : A) (m : List (Text × A))
      → map_at j (map_put k v m) ≡ (if text_eq k j then some v else map_at j m)
  unfolding map_at
  map_at-put k j v m = ground (arith, map_at-delete k j m)
