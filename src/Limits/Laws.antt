-- ===== src/Limits/Laws.antt =====
-- max_output_tokens.go and completion_count.go: a header's limit replaces every limit of the body.
use confidential_model_route.Common.{
  ℕ, suc, ◌-◌, ◌≤◌, ◌<◌, ◌≡◌, refl, ap, ◌∙◌, Bool, true, false, ◌&&◌, ◌||◌, none, some, List, [],
  ◌∷◌, ◌++◌, arith, ◌==◌, if◌then◌else◌, lt→ltb, Text, text, text_eq, text_eq_iff,
}
use confidential_model_route.Common.Int.{pos}
use confidential_model_route.Decimal.{
  all_digits, value_of, show, value_of-digits, all_digits-digits, digits_cons, is_digit,
}
use confidential_model_route.Json.{
  Fields, int, assign, remove, lookup, lookup-assign, lookup-remove,
}
use confidential_model_route.Limits.{
  trim_left, trim_right, is_space, unsigned, parse_int, int64_limit, positive_int_header,
  limit_fields, remove_all, apply_max_output_tokens, apply_completion_count,
}

-- The ASCII white space of `unicode.IsSpace`: tab, line feed, vertical tab, form feed, carriage
-- return, space
abbrev pub is_white : ℕ → Bool
is_white c = c == 9 || c == 10 || c == 11 || c == 12 || c == 13 || c == 32

-- White space of any kind and any length
unfoldable pub all_space : Text → Bool
all_space [] = true
all_space (c ∷ cs) = is_white c && all_space cs

white_is_space : (c : ℕ) → is_white c ≡ true → is_space c ≡ true
white_is_space c h = ground (arith, h)

space_head : (c : ℕ) (cs : Text) → all_space (c ∷ cs) ≡ true → is_space c ≡ true
unfolding all_space
space_head c cs h = white_is_space c (ground (arith, h))

trim_left-space : (s t : Text) → all_space s ≡ true → trim_left (s ++ t) ≡ trim_left t
unfolding trim_left all_space
trim_left-space [] t h = refl
trim_left-space (c ∷ cs) t h =
    let e = space_head c cs h in rw (e, trim_left) (trim_left-space cs t (ground (arith, h)))

trim_right_of_space : (s : Text) → all_space s ≡ true → trim_right s ≡ []
unfolding trim_right all_space
trim_right_of_space [] h = refl
trim_right_of_space (c ∷ cs) h =
    let e = space_head c cs h in rw (trim_right_of_space cs (ground (arith, h)), trim_right, e) refl

trim_right-space : (t s : Text) → all_space s ≡ true → trim_right (t ++ s) ≡ trim_right t
unfolding trim_right
trim_right-space [] s h = trim_right_of_space s h
trim_right-space (c ∷ cs) s h = ground (arith, trim_right-space cs s h)

digit_not_space : (c : ℕ) → is_digit c ≡ true → is_space c ≡ false
digit_not_space c h = ground (arith, h)

digit_of_all : (c : ℕ) (cs : Text) → all_digits (c ∷ cs) ≡ true → is_digit c ≡ true
unfolding all_digits
digit_of_all c cs h = ground (arith, h)

trim_left-digits :
    (c : ℕ) (cs u : Text) → all_digits (c ∷ cs) ≡ true → trim_left (c ∷ cs ++ u) ≡ c ∷ cs ++ u
unfolding trim_left
trim_left-digits c cs u h = rw (digit_not_space c (digit_of_all c cs h), trim_left) refl

trim_right-digits : (t : Text) → all_digits t ≡ true → trim_right t ≡ t
unfolding trim_right all_digits
trim_right-digits [] h = refl
trim_right-digits (d ∷ ds) h = ground (arith, h, trim_right-digits ds, digit_not_space d)

unsigned-digits :
    (c : ℕ) (cs : Text)
    → all_digits (c ∷ cs) ≡ true
    → unsigned (c ∷ cs) ≡ some (value_of 0 (c ∷ cs))
unfolding unsigned
unsigned-digits c cs h = rw h refl

parse_int-digits :
    (c : ℕ) (cs : Text)
    → all_digits (c ∷ cs) ≡ true
    → value_of 0 (c ∷ cs) < int64_limit
    → parse_int (c ∷ cs) ≡ some (pos (value_of 0 (c ∷ cs)))
unfolding parse_int
parse_int-digits c cs h l =
    let d = digit_of_all c cs h in
    let m : (c == 45) ≡ false = ground (arith, d) in
    let p : (c == 43) ≡ false = ground (arith, d) in
    rw (m, p, unsigned-digits c cs h, lt→ltb (value_of 0 (c ∷ cs)) int64_limit l) refl

trimmed :
    (a b : Text) (c : ℕ) (cs : Text)
    → all_space a ≡ true
    → all_space b ≡ true
    → all_digits (c ∷ cs) ≡ true
    → trim_right (trim_left (a ++ ((c ∷ cs) ++ b))) ≡ c ∷ cs
trimmed a b c cs ha hb h =
    ap trim_right (trim_left-space a ((c ∷ cs) ++ b) ha ∙ trim_left-digits c cs b h)
    ∙ trim_right-space (c ∷ cs) b hb
    ∙ trim_right-digits (c ∷ cs) h

positive_int_header_of :
    (v : Text) (n : ℕ)
    → parse_int (trim_right (trim_left v)) ≡ some (pos n)
    → 1 ≤ n
    → positive_int_header (v ∷ []) ≡ some (pos n)
unfolding positive_int_header
positive_int_header_of v n h k = ground (arith, h, k)

abbrev pub header_of : Text → Text → ℕ → List Text
header_of a b n = (a ++ (show n ++ b)) ∷ []

-- A limit printed in decimal is read back, whatever ASCII white space surrounds it.
positive_int_header-show :
    (a b : Text) (n : ℕ)
    → all_space a ≡ true
    → all_space b ≡ true
    → 1 ≤ n
    → n < int64_limit
    → positive_int_header (header_of a b n) ≡ some (pos n)
unfolding show
positive_int_header-show a b n ha hb h k =
    let (c, cs, q) = digits_cons (suc n) n (omega arith) in
    let v : value_of 0 (c ∷ cs) ≡ n = rw (← q) (value_of-digits (suc n) n (omega arith)) in
    let d : all_digits (c ∷ cs) ≡ true = rw (← q) (all_digits-digits (suc n) n) in
    positive_int_header_of (a ++ (show n ++ b)) n
      (rw (q, trimmed a b c cs ha hb d, parse_int-digits c cs d (omega (arith, v)), v) refl) h

pub has : Text → List Text → Bool
unfolding text_eq
has k [] = false
has k (j ∷ js) = text_eq j k || has k js

lookup-remove_all :
    (ks : List Text) (k : Text) (body : Fields)
    → lookup k (remove_all ks body) ≡ (if has k ks then none else lookup k body)
unfolding remove_all has
lookup-remove_all [] k body = refl
lookup-remove_all (j ∷ js) k body =
    ground (arith, lookup-remove_all js k (remove j body), lookup-remove j k body)

apply_max_lem :
    (values : List Text) (path first : Text) (others : List Text) (body : Fields) (m : ℕ)
    → limit_fields path ≡ some (first, others)
    → positive_int_header values ≡ some (pos (suc m))
    → apply_max_output_tokens values path body
      ≡ (none, assign first (int (pos (suc m))) (remove_all (first ∷ others) body))
unfolding apply_max_output_tokens
apply_max_lem values path first others body m h k = ground (arith, h, k)

-- On a generation endpoint, whose body fields for the limit are `first` and `others`, a header with
-- a positive decimal n below 2^63, any ASCII white space around it, is applied without an error:
-- `first` reads n, each of the others is gone, and every other field of the body reads as before.
pub apply_max_output_tokens_replaces :
    (path first : Text) (others : List Text) (body : Fields) (a b : Text) (n : ℕ) (k : Text)
    → limit_fields path ≡ some (first, others)
    → all_space a ≡ true
    → all_space b ≡ true
    → 1 ≤ n
    → n < int64_limit
    → ((apply_max_output_tokens (header_of a b n) path body).0 ≡ none)
      × (lookup k (apply_max_output_tokens (header_of a b n) path body).1 ≡ (
          if text_eq first k
          then some (int (pos n))
          else if has k others
          then none
          else lookup k body))
apply_max_output_tokens_replaces path first others body a b n k h ha hb l u =
    let s : suc (n - 1) ≡ n = omega arith in
    let e =
      apply_max_lem (header_of a b n) path first others body (n - 1) h
        (rw s (positive_int_header-show a b n ha hb l u)) in
    rw e (
      refl,
      rw (s, lookup-assign)
          (unfold has in
            ground (arith, lookup-remove_all (first ∷ others) k body, text_eq_iff first k)),
    )

apply_count_lem :
    (values : List Text) (body : Fields) (m : ℕ)
    → positive_int_header values ≡ some (pos (suc m))
    → apply_completion_count values (text "/v1/chat/completions") body
      ≡ (none, assign (text "n") (int (pos (suc m))) body)
unfolding apply_completion_count
apply_count_lem values body m k = ground (arith, k)

-- On chat completions a completion-count header with a positive decimal n below 2^63 is applied
-- without an error: the body's `n` reads n, and every other field as before.
pub apply_completion_count_replaces :
    (body : Fields) (a b : Text) (n : ℕ) (k : Text)
    → all_space a ≡ true
    → all_space b ≡ true
    → 1 ≤ n
    → n < int64_limit
    → ((apply_completion_count (header_of a b n) (text "/v1/chat/completions") body).0 ≡ none)
      × (lookup k (apply_completion_count (header_of a b n) (text "/v1/chat/completions") body).1
          ≡ (if text_eq (text "n") k then some (int (pos n)) else lookup k body))
apply_completion_count_replaces body a b n k ha hb l u =
    let s : suc (n - 1) ≡ n = omega arith in
    let e =
      apply_count_lem (header_of a b n) body (n - 1)
        (rw s (positive_int_header-show a b n ha hb l u)) in
    rw e (refl, rw (s, lookup-assign) refl)
