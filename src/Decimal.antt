-- ===== src/Decimal.antt =====
-- Decimal numerals as `strconv` reads and prints them, over the bytes of a text.
mod Tests
use confidential_model_route.Common.{
  ℕ, zero, suc, ◌+◌, ◌-◌, ◌*◌, ◌/◌, ◌%◌, ◌^◌, ◌≤◌, ◌<◌, min, max, String, ◌≡◌, refl, sym, ap, ◌∙◌,
  ◌≢◌, ◌↔◌, ◌⊎◌, inl, inr, Bool, true, false, not, ◌&&◌, ◌||◌, Option, none, some, List, [], ◌∷◌,
  ◌++◌, map, arith, ltb, leb, ◌==◌, if◌then◌else◌, ltb→lt, lt→ltb, leb→le, le→leb, ==_iff,
  Bool-cases, Option-cases, length, get_elem?, take, drop, length-append, length-take, filter, All,
  All-append, All-mono, In, In-All, keep, In-filter, filter-In, In-append, append-In, not-In_empty,
  if-either, Text, text, text_eq, text_lt, text_eq-eq, text_eq_refl, text_eq_iff, text_lt_irrefl,
  text_lt_trans, text_lt_total,
}

abbrev pub digit : ℕ → ℕ
digit n = 48 + n

abbrev pub is_digit : ℕ → Bool
is_digit c = leb 48 c && leb c 57

unfoldable pub all_digits : Text → Bool
all_digits [] = true
all_digits (c ∷ cs) = is_digit c && all_digits cs

-- The number that digits stand for, behind those already read.
unfoldable pub value_of : ℕ → Text → ℕ
value_of acc [] = acc
value_of acc (c ∷ cs) = value_of (acc * 10 + (c - 48)) cs

-- `strconv.FormatInt(n, 10)`; a number has fewer digits than `suc n`.
unfoldable pub digits : ℕ → ℕ → Text
digits zero n = []
digits (suc fuel) n = elim (ltb n 10) [
  | true ↦ digit n ∷ []
  | false ↦ digits fuel (n / 10) ++ digit (n % 10) ∷ []
]

unfoldable pub show : ℕ → Text
unfolding digits
show n = digits (suc n) n

pub value_of-append :
    (acc : ℕ) (xs ys : Text) → value_of acc (xs ++ ys) ≡ value_of (value_of acc xs) ys
unfolding value_of
value_of-append acc [] ys = refl
value_of-append acc (x ∷ xs) ys = value_of-append (acc * 10 + (x - 48)) xs ys

pub all_digits-append : (xs ys : Text) → all_digits (xs ++ ys) ≡ (all_digits xs && all_digits ys)
unfolding all_digits
all_digits-append [] ys = refl
all_digits-append (x ∷ xs) ys = ground (arith, all_digits-append xs ys)

digits_small : (fuel n : ℕ) → n < 10 → digits (suc fuel) n ≡ digit n ∷ []
unfolding digits
digits_small fuel n h = ground (arith, h)

digits_large :
    (fuel n : ℕ) → 10 ≤ n → digits (suc fuel) n ≡ digits fuel (n / 10) ++ digit (n % 10) ∷ []
unfolding digits
digits_large fuel n h = ground (arith, h)

value_of-digit : (acc n : ℕ) → value_of acc (digit n ∷ []) ≡ acc * 10 + n
unfolding value_of
value_of-digit acc n = omega arith

all_digits-digit : (n : ℕ) → n < 10 → all_digits (digit n ∷ []) ≡ true
unfolding all_digits
all_digits-digit n h = ground (arith, h)

-- The digits of a number stand for it.
pub value_of-digits : (fuel n : ℕ) → n < fuel → value_of 0 (digits fuel n) ≡ n
value_of-digits zero n h = absurd (omega arith)
value_of-digits (suc fuel) n h = elim (Bool-cases (ltb n 10)) [
  | inl e ↦ rw (digits_small fuel n (ltb→lt n 10 e), value_of-digit) (omega arith)
  | inr e ↦
      let l : 10 ≤ n = ground (arith, e) in
      rw
        (
          digits_large fuel n l,
          value_of-append,
          value_of-digit,
          value_of-digits fuel (n / 10) (omega arith),
        )
        (omega arith)
]

pub all_digits-digits : (fuel n : ℕ) → all_digits (digits fuel n) ≡ true
all_digits-digits zero n = unfold digits all_digits in refl
all_digits-digits (suc fuel) n = elim (Bool-cases (ltb n 10)) [
  | inl e ↦ rw (digits_small fuel n (ltb→lt n 10 e), all_digits-digit n (ltb→lt n 10 e)) refl
  | inr e ↦
      let l : 10 ≤ n = ground (arith, e) in
      rw
        (
          digits_large fuel n l,
          all_digits-append,
          all_digits-digits fuel (n / 10),
          all_digits-digit (n % 10) (omega arith),
        )
        refl
]

-- The first digit: what is printed is not empty.
pub digits_cons : (fuel n : ℕ) → n < fuel → (c : ℕ) × (cs : Text) × (digits fuel n ≡ c ∷ cs)
digits_cons zero n h = absurd (omega arith)
digits_cons (suc fuel) n h = elim (Bool-cases (ltb n 10)) [
  | inl e ↦ (digit n, [], digits_small fuel n (ltb→lt n 10 e))
  | inr e ↦
      let l : 10 ≤ n = ground (arith, e) in
      let (c, cs, q) = digits_cons fuel (n / 10) (omega arith) in
      (c, cs ++ digit (n % 10) ∷ [], rw (digits_large fuel n l, q) refl)
]
