-- ===== src/Citations/Stream/Equations.antt =====
-- toolruntime/citations/stream.go: the drain loop, one round at a time.
use mathlib.Core.List.{append_assoc}
use confidential_model_route.Common.{
  ℕ, zero, suc, ◌+◌, ◌<◌, ◌≡◌, refl, sym, ap, ◌∙◌, inl, inr, Bool, ◌||◌, Option, List, [], ◌∷◌,
  ◌++◌, arith, ltb, Bool-cases, length, length-append, Text,
}
use confidential_model_route.Citations.{State}
use confidential_model_route.Citations.Stream.{
  Drained, Annotation, prepend, find_next_open, match_link, LinkMatch, matched, incomplete, invalid,
  normalize_brackets, annotation_at, link_text, drain_round, drain_loop, max_link_buffer,
}
use confidential_model_route.Citations.Stream.Bounds.{rest_shorter}
use confidential_model_route.Citations.Stream.Parts.{match_link_parts}

pub prepend-prepend :
    (t u : Text) (ms ns : List Annotation) (d : Drained)
    → prepend t ms (prepend u ns d) ≡ prepend (t ++ u) (ms ++ ns) d
prepend-prepend t u ms ns d = rw (append_assoc t u d.content, append_assoc ms ns d.annotations) refl

module _ (normalize : Text → Text) (st : Option State) (final : Bool) where
  abbrev Next : Type 0
  Next = ℕ → Text → Drained

  pub drain_loop_lem :
      (fuel at : ℕ) (held before rest : Text)
      → find_next_open held ≡ (before, rest)
      → drain_loop normalize st final (suc fuel) at held
        ≡ drain_round normalize st final (drain_loop normalize st final fuel) at before rest
  unfolding drain_loop
  drain_loop_lem fuel at held before rest h =
      ap (λ p. drain_round normalize st final (drain_loop normalize st final fuel) at p.0 p.1) h

  -- The rounds that follow are called on shorter texts only.
  drain_round_ext :
      (next next' : Next) (at : ℕ) (before : Text) (o : ℕ) (rs : Text) (m : LinkMatch)
      → match_link (o ∷ rs) ≡ m
      → ((at' : ℕ) (t : Text) → length t < length (o ∷ rs) → next at' t ≡ next' at' t)
      → drain_round normalize st final next at before (o ∷ rs)
        ≡ drain_round normalize st final next' at before (o ∷ rs)
  unfolding drain_round
  drain_round_ext next next' at before o rs (matched label c url after) e h =
      let l : length after < length (o ∷ rs) = omega (
        arith,
        ap (λ t. length t) (match_link_parts o c rs label url after e).1,
        length-append (link_text o label c url) after,
      ) in
      rw (e, drain_round)
        (ap
          (prepend (before ++ normalize_brackets (link_text o label c url))
            (annotation_at normalize st (at + length before) label url))
          (h (at + length before + length (link_text o label c url)) after l))
  drain_round_ext next next' at before o rs incomplete e h =
      let k = h (at + length before + 1) rs (omega arith) in
      elim (Bool-cases (final || ltb max_link_buffer (length (o ∷ rs)))) [
        | inl b ↦ rw (e, b, drain_round) (ap (prepend (before ++ o ∷ []) []) k)
        | inr b ↦ rw (e, b, drain_round) refl
      ]
  drain_round_ext next next' at before o rs invalid e h =
      rw (e, drain_round)
        (ap (prepend (before ++ o ∷ []) []) (h (at + length before + 1) rs (omega arith)))

  drain_round-append_of :
      (next : Next) (at : ℕ) (p before : Text) (o : ℕ) (rs : Text) (m : LinkMatch)
      → match_link (o ∷ rs) ≡ m
      → at + length (p ++ before) ≡ at + length p + length before
      → drain_round normalize st final next at (p ++ before) (o ∷ rs)
        ≡ prepend p [] (drain_round normalize st final next (at + length p) before (o ∷ rs))
  unfolding drain_round
  drain_round-append_of next at p before o rs (matched label c url after) e l =
      rw (e, l, drain_round) (simp append_assoc)
  drain_round-append_of next at p before o rs incomplete e l =
      elim (Bool-cases (final || ltb max_link_buffer (length (o ∷ rs)))) [
        | inl b ↦ rw (e, b, l, drain_round) (simp append_assoc)
        | inr b ↦ rw (e, b, drain_round) refl
      ]
  drain_round-append_of next at p before o rs invalid e l =
      rw (e, l, drain_round) (simp append_assoc)

  -- A longer text before the bracket
  pub drain_round-append :
      (next : Next) (at : ℕ) (p before rest : Text)
      → drain_round normalize st final next at (p ++ before) rest
        ≡ prepend p [] (drain_round normalize st final next (at + length p) before rest)
  unfolding drain_round
  drain_round-append next at p before [] = refl
  drain_round-append next at p before (o ∷ rs) =
      drain_round-append_of next at p before o rs (match_link (o ∷ rs)) refl
        (omega (arith, length-append p before))

  drain_round_end :
      (next next' : Next) (at : ℕ) (before : Text)
      → drain_round normalize st final next at before []
        ≡ drain_round normalize st final next' at before []
  unfolding drain_round
  drain_round_end next next' at before = refl

  fuel_step :
      (fuel fuel' at : ℕ) (held before rest : Text)
      → find_next_open held ≡ (before, rest)
      → ((at' : ℕ) (t : Text)
          → length t < length held
          → drain_loop normalize st final fuel at' t ≡ drain_loop normalize st final fuel' at' t)
      → drain_loop normalize st final (suc fuel) at held
        ≡ drain_loop normalize st final (suc fuel') at held
  fuel_step fuel fuel' at held before [] h ih =
      drain_loop_lem fuel at held before [] h
      ∙ drain_round_end (drain_loop normalize st final fuel) (drain_loop normalize st final fuel')
          at before
      ∙ sym (drain_loop_lem fuel' at held before [] h)
  fuel_step fuel fuel' at held before (o ∷ rs) h ih =
      drain_loop_lem fuel at held before (o ∷ rs) h
      ∙ drain_round_ext (drain_loop normalize st final fuel) (drain_loop normalize st final fuel')
          at before o rs (match_link (o ∷ rs)) refl
          (λ at' t l. ih at' t (omega (arith, l, rest_shorter held before rs o h)))
      ∙ sym (drain_loop_lem fuel' at held before (o ∷ rs) h)

  -- More fuel than there are runes is as good as any.
  pub drain_loop_fuel :
      (fuel fuel' at : ℕ) (held : Text)
      → length held < fuel
      → length held < fuel'
      → drain_loop normalize st final fuel at held ≡ drain_loop normalize st final fuel' at held
  drain_loop_fuel zero fuel' at held h k = absurd (omega arith)
  drain_loop_fuel (suc fuel) zero at held h k = absurd (omega arith)
  drain_loop_fuel (suc fuel) (suc fuel') at held h k =
      fuel_step fuel fuel' at held (find_next_open held).0 (find_next_open held).1 refl
        (λ at' t l. drain_loop_fuel fuel fuel' at' t (omega (arith, l)) (omega (arith, l)))

  drain_round_link :
      (next : Next) (at : ℕ) (before : Text) (o : ℕ) (rs label : Text) (c : ℕ) (url after : Text)
      → match_link (o ∷ rs) ≡ matched label c url after
      → drain_round normalize st final next at before (o ∷ rs)
        ≡ prepend
            (before ++ normalize_brackets (link_text o label c url))
            (annotation_at normalize st (at + length before) label url)
            (next (at + length before + length (link_text o label c url)) after)
  unfolding drain_round
  drain_round_link next at before o rs label c url after k = rw (k, drain_round) refl

  drain_round_invalid :
      (next : Next) (at : ℕ) (before : Text) (o : ℕ) (rs : Text)
      → match_link (o ∷ rs) ≡ invalid
      → drain_round normalize st final next at before (o ∷ rs)
        ≡ prepend (before ++ o ∷ []) [] (next (at + length before + 1) rs)
  unfolding drain_round
  drain_round_invalid next at before o rs k = rw (k, drain_round) refl

  pub drain_loop_link :
      (fuel at : ℕ) (held before : Text) (o : ℕ) (rs label : Text) (c : ℕ) (url after : Text)
      → find_next_open held ≡ (before, o ∷ rs)
      → match_link (o ∷ rs) ≡ matched label c url after
      → drain_loop normalize st final (suc fuel) at held
        ≡ prepend
            (before ++ normalize_brackets (link_text o label c url))
            (annotation_at normalize st (at + length before) label url)
            (drain_loop normalize st final fuel
              (at + length before + length (link_text o label c url))
              after)
  drain_loop_link fuel at held before o rs label c url after h k =
      drain_loop_lem fuel at held before (o ∷ rs) h
      ∙ drain_round_link (drain_loop normalize st final fuel) at before o rs label c url after k

  pub drain_loop_invalid :
      (fuel at : ℕ) (held before : Text) (o : ℕ) (rs : Text)
      → find_next_open held ≡ (before, o ∷ rs)
      → match_link (o ∷ rs) ≡ invalid
      → drain_loop normalize st final (suc fuel) at held
        ≡ prepend
            (before ++ o ∷ [])
            []
            (drain_loop normalize st final fuel (at + length before + 1) rs)
  drain_loop_invalid fuel at held before o rs h k =
      drain_loop_lem fuel at held before (o ∷ rs) h
      ∙ drain_round_invalid (drain_loop normalize st final fuel) at before o rs k
