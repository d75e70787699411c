-- ===== src/Common/Lists.antt =====
-- Lists measured and indexed by native numbers, under the library's names, with the predicates by
-- recursion that the components share.
use Prim.Native.Nat.{ℕ, zero, suc, ◌+◌, min}
use mathlib.Core.Path.{◌≡◌, refl}
use mathlib.Core.Logic.{◌⊎◌, inl, inr}
use mathlib.Core.Bool.{Bool, true, false}
use mathlib.Core.List.{List, ◌∷◌, ◌++◌, []}
use mathlib.Core.Option.{Option, none, some}
use native.Mathlib.Omega.{arith}

module _ {ℓ} {A : Type ℓ} where
  abbrev pub length : List A → ℕ
  length [] = 0
  length (x ∷ xs) = suc (length xs)

  abbrev pub get_elem? : List A → ℕ → Option A
  get_elem? [] i = none
  get_elem? (x ∷ xs) zero = some x
  get_elem? (x ∷ xs) (suc i) = get_elem? xs i

  abbrev pub take : ℕ → List A → List A
  take zero xs = []
  take (suc n) [] = []
  take (suc n) (x ∷ xs) = x ∷ take n xs

  abbrev pub drop : ℕ → List A → List A
  drop zero xs = xs
  drop (suc n) [] = []
  drop (suc n) (x ∷ xs) = drop n xs

  pub length-append : (xs ys : List A) → length (xs ++ ys) ≡ length xs + length ys
  length-append [] ys = omega arith
  length-append (x ∷ xs) ys = omega (arith, length-append xs ys)

  pub length-take : (n : ℕ) (xs : List A) → length (take n xs) ≡ min n (length xs)
  length-take zero xs = omega arith
  length-take (suc n) [] = omega arith
  length-take (suc n) (x ∷ xs) = omega (arith, length-take n xs)

  -- The elements that pass a Boolean test, in order.
  abbrev pub keep : Bool → A → List A → List A
  keep true x xs = x ∷ xs
  keep false x xs = xs

  abbrev pub filter : (A → Bool) → List A → List A
  filter p [] = []
  filter p (x ∷ xs) = keep (p x) x (filter p xs)

  -- Universal quantification that computes to tuples.
  abbrev pub All {κ} : (A → Type κ) → List A → Type κ
  All P [] = Unit
  All P (x ∷ xs) = P x × All P xs

module _ {ℓ} {A : Type ℓ} where
  pub All-append {κ} : (P : A → Type κ) (xs ys : List A) → All P xs → All P ys → All P (xs ++ ys)
  All-append P [] ys hx hy = hy
  All-append P (x ∷ xs) ys hx hy = (hx.0, All-append P xs ys hx.1 hy)

  pub All-mono {κ μ} :
      (P : A → Type κ) (Q : A → Type μ)
      → ((a : A) → P a → Q a)
      → (xs : List A) → All P xs
      → All Q xs
  All-mono P Q f [] h = tt
  All-mono P Q f (x ∷ xs) h = (f x h.0, All-mono P Q f xs h.1)

-- Membership that computes to sums.
abbrev pub In : {A : Type 0} → A → List A → Type 0
In a [] = ⊥
In a (x ∷ xs) = (a ≡ x) ⊎ In a xs

pub In-All : {A : Type 0} (P : A → Type 0) (a : A) (xs : List A) → All P xs → In a xs → P a
In-All P a [] h i = elim i [ ]
In-All P a (x ∷ xs) h (inl e) = rw e h.0
In-All P a (x ∷ xs) h (inr i) = In-All P a xs h.1 i

module _ {A : Type 0} where
  keep-In :
      (b : Bool) (a x : A) (xs : List A) → In a (keep b x xs) → ((a ≡ x) × (b ≡ true)) ⊎ In a xs
  keep-In true a x xs (inl e) = inl (e, refl)
  keep-In true a x xs (inr i) = inr i
  keep-In false a x xs i = inr i

  In-keep :
      (b : Bool) (a x : A) (xs : List A) → ((a ≡ x) × (b ≡ true)) ⊎ In a xs → In a (keep b x xs)
  In-keep true a x xs (inl (e, h)) = inl e
  In-keep true a x xs (inr i) = inr i
  In-keep false a x xs (inl (e, h)) = cc
  In-keep false a x xs (inr i) = i

  pub In-filter : (p : A → Bool) (a : A) (xs : List A) → In a (filter p xs) → In a xs × (p a ≡ true)
  In-filter p a [] i = elim i [ ]
  In-filter p a (x ∷ xs) i = elim (keep-In (p x) a x (filter p xs) i) [
    | inl (e, h) ↦ (inl e, rw e h)
    | inr j ↦ let (k, h) = In-filter p a xs j in (inr k, h)
  ]

  pub filter-In : (p : A → Bool) (a : A) (xs : List A) → In a xs → p a ≡ true → In a (filter p xs)
  filter-In p a [] i h = i
  filter-In p a (x ∷ xs) (inl e) h = In-keep (p x) a x _ (inl (e, rw e at h))
  filter-In p a (x ∷ xs) (inr i) h = In-keep (p x) a x _ (inr (filter-In p a xs i h))

  pub In-append : (a : A) (xs ys : List A) → In a (xs ++ ys) → In a xs ⊎ In a ys
  In-append a [] ys i = inr i
  In-append a (x ∷ xs) ys (inl e) = inl (inl e)
  In-append a (x ∷ xs) ys (inr i) = elim (In-append a xs ys i) [
    | inl j ↦ inl (inr j)
    | inr j ↦ inr j
  ]

  pub append-In : (a : A) (xs ys : List A) → In a xs ⊎ In a ys → In a (xs ++ ys)
  append-In a [] ys (inl i) = elim i [ ]
  append-In a [] ys (inr i) = i
  append-In a (x ∷ xs) ys (inl (inl e)) = inl e
  append-In a (x ∷ xs) ys (inl (inr i)) = inr (append-In a xs ys (inl i))
  append-In a (x ∷ xs) ys (inr i) = inr (append-In a xs ys (inr i))

  pub not-In_empty : (a : A) (xs : List A) → xs ≡ [] → ¬ In a xs
  not-In_empty a [] e i = elim i [ ]
  not-In_empty a (x ∷ xs) e i = cc
