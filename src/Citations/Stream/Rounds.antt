-- ===== src/Citations/Stream/Rounds.antt =====
-- toolruntime/citations/stream.go: the ways in which a round of the drain loop can go.
use confidential_model_route.Common.{
  ℕ, suc, ◌+◌, ◌≤◌, ◌≡◌, refl, ◌⊎◌, inl, inr, Bool, true, false, ◌||◌, Option, [], ◌∷◌, ◌++◌, arith,
  ltb, Bool-cases, length, Text,
}
use confidential_model_route.Citations.{State}
use confidential_model_route.Citations.Stream.{
  find_next_open, match_link, LinkMatch, matched, incomplete, invalid, normalize_brackets,
  link_text, Drained, prepend, annotation_at, drain_round, drain_loop, max_link_buffer,
}

module _ (normalize : Text → Text) (st : Option State) (final : Bool) (fuel at : ℕ)
    (held : Text) where
  pub data Round : Drained → Type 0 where
    plain :
        (before : Text)
        → find_next_open held ≡ (before, [])
        → Round (record { content = before; annotations = []; held = [] })
    link :
        (before : Text) (o : ℕ) (rs label : Text) (c : ℕ) (url after : Text)
        → find_next_open held ≡ (before, o ∷ rs)
        → match_link (o ∷ rs) ≡ matched label c url after
        → Round (
            prepend
              (before ++ normalize_brackets (link_text o label c url))
              (annotation_at normalize st (at + length before) label url)
              (drain_loop normalize st final fuel
                (at + length before + length (link_text o label c url))
                after))
    wait :
        (before : Text) (o : ℕ) (rs : Text)
        → find_next_open held ≡ (before, o ∷ rs)
        → match_link (o ∷ rs) ≡ incomplete
        → final ≡ false
        → length (o ∷ rs) ≤ max_link_buffer
        → Round (record { content = before; annotations = []; held = o ∷ rs })
    skip :
        (before : Text) (o : ℕ) (rs : Text)
        → find_next_open held ≡ (before, o ∷ rs)
        → (match_link (o ∷ rs) ≡ invalid)
          ⊎ ((match_link (o ∷ rs) ≡ incomplete)
              × ((final || ltb max_link_buffer (length (o ∷ rs))) ≡ true))
        → Round (
            prepend
              (before ++ o ∷ [])
              []
              (drain_loop normalize st final fuel (at + length before + 1) rs))

  round_of_match :
      (before : Text) (o : ℕ) (rs : Text) (m : LinkMatch)
      → find_next_open held ≡ (before, o ∷ rs)
      → match_link (o ∷ rs) ≡ m
      → Round
          (drain_round normalize st final (drain_loop normalize st final fuel) at before (o ∷ rs))
  unfolding drain_round
  round_of_match before o rs (matched label c url after) h k =
      rw (k, drain_round) (link before o rs label c url after h k)
  round_of_match before o rs invalid h k = rw (k, drain_round) (skip before o rs h (inl k))
  round_of_match before o rs incomplete h k =
      elim (Bool-cases (final || ltb max_link_buffer (length (o ∷ rs)))) [
        | inl e ↦ rw (k, e, drain_round) (skip before o rs h (inr (k, e)))
        | inr e ↦
            rw (k, e, drain_round) (wait before o rs h k (ground (arith, e)) (ground (arith, e)))
      ]

  round_of_parts :
      (before rest : Text)
      → find_next_open held ≡ (before, rest)
      → Round (drain_round normalize st final (drain_loop normalize st final fuel) at before rest)
  round_of_parts before [] h = unfold drain_round in plain before h
  round_of_parts before (o ∷ rs) h = round_of_match before o rs (match_link (o ∷ rs)) h refl

  pub round : Round (drain_loop normalize st final (suc fuel) at held)
  unfolding drain_loop
  round = round_of_parts (find_next_open held).0 (find_next_open held).1 refl
