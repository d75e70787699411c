-- ===== src/CacheSalt/Framing.antt =====
-- The length-prefixed framing is injective: no sequence of fields can be read as another.
use confidential_model_route.Common.{
  ℕ, ◌^◌, ◌<◌, ◌≡◌, refl, List, ◌∷◌, ◌++◌, arith, length, All, Text, [],
}
use confidential_model_route.CacheSalt.{uint32_be, frame, frames}

abbrev pub Fits : Text → Type 0
Fits f = length f < 2 ^ 32

pub uint32_be-injective : (m n : ℕ) → m < 2 ^ 32 → n < 2 ^ 32 → uint32_be m ≡ uint32_be n → m ≡ n
unfolding uint32_be
uint32_be-injective m n p q h = ground arith

-- Two texts of the same length in front of two rests.
append-injective :
    (f g xs ys : Text) → length f ≡ length g → f ++ xs ≡ g ++ ys → (f ≡ g) × (xs ≡ ys)
append-injective [] [] xs ys l h = (refl, h)
append-injective [] (y ∷ g) xs ys l h = absurd (omega arith)
append-injective (x ∷ f) [] xs ys l h = absurd (omega arith)
append-injective (x ∷ f) (y ∷ g) xs ys l h =
    let (e, r) = append-injective f g xs ys (omega arith) (ground arith) in (ground arith, r)

frame-injective :
    (f g xs ys : Text) → Fits f → Fits g → frame f ++ xs ≡ frame g ++ ys → (f ≡ g) × (xs ≡ ys)
unfolding frame uint32_be
frame-injective f g xs ys p q h =
    let same : uint32_be (length f) ≡ uint32_be (length g) = unfold uint32_be in ground arith in
    append-injective f g xs ys (uint32_be-injective (length f) (length g) p q same) (ground arith)

pub frames-injective :
    (fs gs : List Text) → All Fits fs → All Fits gs → frames fs ≡ frames gs → fs ≡ gs
unfolding frames
frames-injective [] [] p q h = refl
frames-injective [] (g ∷ gs) p q h = cc
frames-injective (f ∷ fs) [] p q h = cc
frames-injective (f ∷ fs) (g ∷ gs) p q h =
    let (e, r) = frame-injective f g (frames fs) (frames gs) p.0 q.0 h in
    let rest = frames-injective fs gs p.1 q.1 r in cc
