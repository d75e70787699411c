-- ===== src/Limits/Accepted.antt =====
-- max_output_tokens.go: which values of a header positiveIntHeader accepts.
use confidential_model_route.Common.{
  ℕ, ◌≤◌, ◌<◌, ◌≡◌, refl, ap, ◌∙◌, ◌≢◌, ◌⊎◌, inl, inr, true, Option, none, some, List, [], ◌∷◌,
  arith, ltb, ◌==◌, if◌then◌else◌, ==_iff, Bool-cases, Option-cases, Text,
}
use confidential_model_route.Common.Int.{ℤ, pos, negsuc, sub_ℕ}
use confidential_model_route.Decimal.{all_digits, value_of}
use confidential_model_route.Limits.{
  trim_left, trim_right, unsigned, parse_int, int64_limit, positive_int_header,
}

-- Digits for the number, with or without a plus sign
abbrev pub IsNumeral : Text → ℕ → Type 0
IsNumeral t n =
    (ds : Text) × ((t ≡ ds) ⊎ (t ≡ 43 ∷ ds)) × (all_digits ds ≡ true) × (value_of 0 ds ≡ n)

unsigned_accepts :
    (t : Text) (n : ℕ) → unsigned t ≡ some n → (all_digits t ≡ true) × (value_of 0 t ≡ n)
unfolding unsigned
unsigned_accepts [] n h = absurd (cc)
unsigned_accepts (c ∷ cs) n h = ground (arith, h)

not_positive : (n m : ℕ) → sub_ℕ 0 n ≡ pos m → m ≡ 0
not_positive n m h = ground (arith, h)

parse_minus :
    (c : ℕ) (cs : Text) (m : ℕ) → (c == 45) ≡ true → 1 ≤ m → parse_int (c ∷ cs) ≢ some (pos m)
unfolding parse_int
parse_minus c cs m minus l h = elim (Option-cases (unsigned cs)) [
  | inl e ↦ ground (arith, h, minus, e)
  | inr (n, e) ↦ ground (arith, h, minus, e, not_positive n m, l)
]

-- The number within the range of int64
abbrev in_range : Option ℕ → Option ℤ
in_range o = elim o [ none ↦ none | some n ↦ if ltb n int64_limit then some (pos n) else none ]

in_range_accepts :
    (t : Text) (m : ℕ)
    → in_range (unsigned t) ≡ some (pos m)
    → (all_digits t ≡ true) × (value_of 0 t ≡ m) × (m < int64_limit)
in_range_accepts t m h = elim (Option-cases (unsigned t)) [
  | inl e ↦ absurd (ground (arith, h, e))
  | inr (n, e) ↦
      let k : (n ≡ m) × (m < int64_limit) = ground (arith, h, e) in
      let (d, v) = unsigned_accepts t n e in (d, v ∙ k.0, k.1)
]

parse_int_accepts :
    (t : Text) (m : ℕ) → 1 ≤ m → parse_int t ≡ some (pos m) → IsNumeral t m × (m < int64_limit)
unfolding parse_int
parse_int_accepts [] m l h = absurd (cc)
parse_int_accepts (c ∷ cs) m l h = elim (Bool-cases (c == 45)) [
  | inl minus ↦ absurd (parse_minus c cs m minus l h)
  | inr no_minus ↦ elim (Bool-cases (c == 43)) [
    | inl plus ↦
        let k : in_range (unsigned cs) ≡ some (pos m) = ground (arith, h, no_minus, plus) in
        let (d, v, b) = in_range_accepts cs m k in
        ((cs, inr (ap (λ x. x ∷ cs) ((==_iff c 43).0 plus)), d, v), b)
    | inr no_plus ↦
        let k : in_range (unsigned (c ∷ cs)) ≡ some (pos m) =
          ground (arith, h, no_minus, no_plus) in
        let (d, v, b) = in_range_accepts (c ∷ cs) m k in ((c ∷ cs, inl refl, d, v), b)
  ]
]

positive_accepts :
    (v : Text) (n : ℤ) (o : Option ℤ)
    → parse_int (trim_right (trim_left v)) ≡ o
    → positive_int_header (v ∷ []) ≡ some n
    → (m : ℕ) × (n ≡ pos m) × (1 ≤ m) × (parse_int (trim_right (trim_left v)) ≡ some (pos m))
unfolding positive_int_header
positive_accepts v n none e h = absurd (ground (arith, e, h))
positive_accepts v n (some (pos m)) e h = (m, ground (arith, e, h), ground (arith, e, h), e)
positive_accepts v n (some (negsuc m)) e h = absurd (ground (arith, e, h))

-- What is accepted: where the header is absent, the limit is 0, which stands for none. Otherwise
-- the header has a single value, which is a decimal numeral, with or without a plus sign, once the
-- white space around it is trimmed, and the limit is its number, from 1 to 2^63 - 1.
pub positive_int_header_accepts :
    (values : List Text) (n : ℤ)
    → positive_int_header values ≡ some n
    → ((values ≡ []) × (n ≡ pos 0))
      ⊎ ((v : Text) × (m : ℕ) × (values ≡ v ∷ [])
          × (n ≡ pos m)
          × (1 ≤ m)
          × (m < int64_limit)
          × IsNumeral (trim_right (trim_left v)) m)
unfolding positive_int_header
positive_int_header_accepts [] n h = inl (refl, ground (arith, h))
positive_int_header_accepts (v ∷ []) n h =
    let (m, e, l, k) = positive_accepts v n (parse_int (trim_right (trim_left v))) refl h in
    let (numeral, b) = parse_int_accepts (trim_right (trim_left v)) m l k in
    inr (v, m, refl, e, l, b, numeral)
positive_int_header_accepts (v ∷ w ∷ vs) n h = absurd (cc)
