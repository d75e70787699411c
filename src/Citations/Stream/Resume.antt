-- ===== src/Citations/Stream/Resume.antt =====
-- toolruntime/citations/stream.go: a drain of more text goes on where the drain of its beginning
-- stopped.
use mathlib.Core.Path.{subst}
use mathlib.Core.List.{append_assoc}
use confidential_model_route.Common.{
  ℕ, zero, suc, ◌+◌, ◌≤◌, ◌<◌, ◌≡◌, refl, sym, ap, ◌∙◌, ◌≢◌, inl, inr, false, Option, List, [], ◌∷◌,
  ◌++◌, map, arith, ltb→lt, Bool-cases, length, length-append, All, Text,
}
use confidential_model_route.Citations.{State}
use confidential_model_route.Citations.Stream.{
  Annotation, Drained, prepend, find_next_open, normalize_brackets, replace_close, annotation_at,
  link_text, drain_loop, is_open, max_link_buffer,
}
use confidential_model_route.Citations.Stream.Rounds.{Round, plain, link, wait, skip, round}
use confidential_model_route.Citations.Stream.Stable.{extend, match_link-append}
use confidential_model_route.Citations.Stream.Equations.{
  prepend-prepend, drain_loop_lem, drain_round-append, drain_loop_fuel, drain_loop_invalid,
  drain_loop_link,
}
use confidential_model_route.Citations.Stream.Conserved.{ascii, held_parts, drain_loop-ascii}
use confidential_model_route.Citations.Stream.Bounds.{rest_shorter, after_shorter}

-- The text before an opening bracket has none.
abbrev NoOpen : Text → Type 0
NoOpen t = All (λ r. is_open r ≡ false) t

find_next_open_before : (t : Text) → NoOpen (find_next_open t).0
unfolding find_next_open
find_next_open_before [] = tt
find_next_open_before (r ∷ rs) = elim (Bool-cases (is_open r)) [
  | inl e ↦ rw e tt
  | inr e ↦ rw e (e, find_next_open_before rs)
]

find_next_open-append :
    (p u : Text)
    → NoOpen p
    → find_next_open (p ++ u) ≡ (p ++ (find_next_open u).0, (find_next_open u).1)
unfolding find_next_open
find_next_open-append [] u h = refl
find_next_open-append (r ∷ rs) u h = ground (arith, h, find_next_open-append rs u h.1)

find_next_open_idem : (t : Text) → find_next_open (find_next_open t).1 ≡ ([], (find_next_open t).1)
unfolding find_next_open
find_next_open_idem [] = refl
find_next_open_idem (r ∷ rs) = elim (Bool-cases (is_open r)) [
  | inl e ↦ rw (e, find_next_open) (rw e refl)
  | inr e ↦ rw (e, find_next_open) (find_next_open_idem rs)
]

-- With more text behind it, the text from the bracket is found as before.
open-append_of :
    (held u : Text)
    → (find_next_open held).1 ≢ []
    → find_next_open (held ++ u) ≡ ((find_next_open held).0, (find_next_open held).1 ++ u)
unfolding find_next_open
open-append_of [] u n = absurd (n refl)
open-append_of (r ∷ rs) u n = elim (Bool-cases (is_open r)) [
  | inl e ↦ rw (e, find_next_open) refl
  | inr e ↦
      let n' : (find_next_open rs).1 ≢ [] = λ q. n (rw (e, q) refl) in
      rw (e, open-append_of rs u n') refl
]

open-append :
    (held before u : Text) (o : ℕ) (rs : Text)
    → find_next_open held ≡ (before, o ∷ rs)
    → find_next_open (held ++ u) ≡ (before, o ∷ (rs ++ u))
open-append held before u o rs h = open-append_of held u (λ q. cc) ∙ ap (λ p. (p.0, p.1 ++ u)) h

length-replace_close : (t : Text) → length (replace_close t) ≡ length t
unfolding replace_close
length-replace_close [] = refl
length-replace_close (r ∷ rs) = ground (arith, length-replace_close rs)

pub length-normalize_brackets : (t : Text) → length (normalize_brackets t) ≡ length t
unfolding normalize_brackets
length-normalize_brackets [] = refl
length-normalize_brackets (o ∷ rs) = omega (arith, length-replace_close rs)

pub length-map {ℓ} : {A : Type ℓ} (f : A → A) (xs : List A) → length (map f xs) ≡ length xs
length-map f [] = refl
length-map f (x ∷ xs) = omega (arith, length-map f xs)

module _ (normalize : Text → Text) (st : Option State) where
  abbrev loop : ℕ → ℕ → Text → Drained
  loop fuel at t = drain_loop normalize st false fuel at t

  drain_loop-length :
      (fuel at : ℕ) (t : Text)
      → length (loop fuel at t).content + length (loop fuel at t).held ≡ length t
  drain_loop-length fuel at t = omega (
    arith,
    ap (λ x. length x) (drain_loop-ascii normalize st false fuel at t),
    length-map ascii t,
    length-map ascii ((loop fuel at t).content ++ (loop fuel at t).held),
    length-append (loop fuel at t).content (loop fuel at t).held,
  )

  -- Text without an opening bracket goes out as it is.
  drain_loop_plain :
      (fuel at : ℕ) (p u : Text)
      → NoOpen p
      → loop (suc fuel) at (p ++ u) ≡ prepend p [] (loop (suc fuel) (at + length p) u)
  drain_loop_plain fuel at p u h =
      let w = find_next_open u in
      drain_loop_lem normalize st false fuel at (p ++ u) (p ++ w.0) w.1
        (find_next_open-append p u h)
      ∙ drain_round-append normalize st false (loop fuel) at p w.0 w.1
      ∙ ap (prepend p [])
          (sym (drain_loop_lem normalize st false fuel (at + length p) u w.0 w.1 refl))

  -- A drain of more text goes on where the drain of its beginning stopped.
  abbrev Resumes : ℕ → ℕ → Text → Drained → Text → Type 0
  Resumes fuel at held d u =
      loop fuel at (held ++ u)
      ≡ prepend d.content d.annotations (loop fuel (at + length d.content) (d.held ++ u))

  resume_plain :
      (fuel at : ℕ) (held before rest u : Text)
      → find_next_open held ≡ (before, rest)
      → Resumes (suc fuel) at held (record { content = before; annotations = []; held = rest }) u
  resume_plain fuel at held before rest u h =
      let q : NoOpen before = rw (← ap (λ p. p.0) h) (find_next_open_before held) in
      ap (λ t. loop (suc fuel) at t)
        (ap (λ t. t ++ u) (sym (held_parts held before rest h)) ∙ append_assoc before rest u)
      ∙ drain_loop_plain fuel at before (rest ++ u) q

  -- A round that sends more than plain text, with `t` for the text of the bracket or link.
  resume_next :
      (fuel fuel' at at' : ℕ) (held t rest u : Text) (notes : List Annotation)
      → at' ≡ at + length t
      → loop (suc fuel) at (held ++ u) ≡ prepend t notes (loop fuel at' (rest ++ u))
      → Resumes fuel at' rest (loop fuel' at' rest) u
      → length (rest ++ u) < fuel
      → Resumes (suc fuel) at held (prepend t notes (loop fuel' at' rest)) u
  resume_next fuel fuel' at at' held t rest u notes e h ih l =
      let d = loop fuel' at' rest in
      let m : length d.content + length d.held ≡ length rest = drain_loop-length fuel' at' rest in
      let i : at' + length d.content ≡ at + length (t ++ d.content) =
        omega (arith, e, length-append t d.content) in
      let k : length (d.held ++ u) < fuel =
        omega (arith, m, l, length-append d.held u, length-append rest u) in
      h
      ∙ ap (prepend t notes) ih
      ∙ prepend-prepend t d.content notes d.annotations
          (loop fuel (at' + length d.content) (d.held ++ u))
      ∙ ap (prepend (t ++ d.content) (notes ++ d.annotations)) (
          ap (λ j. loop fuel j (d.held ++ u)) i
          ∙ drain_loop_fuel normalize st false fuel (suc fuel) (at + length (t ++ d.content))
              (d.held ++ u) k (omega (arith, k)))

  Round-Resumes :
      (fuel fuel' at : ℕ) (held u : Text) (d : Drained)
      → Round normalize st false fuel' at held d
      → length (held ++ u) ≤ max_link_buffer
      → length (held ++ u) < suc fuel
      → ((at' : ℕ) (t : Text)
          → length (t ++ u) ≤ max_link_buffer
          → length (t ++ u) < fuel
          → Resumes fuel at' t (loop fuel' at' t) u)
      → Resumes (suc fuel) at held d u
  Round-Resumes fuel fuel' at held u d (plain before h) m l ih =
      resume_plain fuel at held before [] u h
  Round-Resumes fuel fuel' at held u d (wait before o rs h k f l') m l ih =
      resume_plain fuel at held before (o ∷ rs) u h
  Round-Resumes fuel fuel' at held u d (skip before o rs h k) m l ih =
      let a : length (rs ++ u) + 1 ≤ length (held ++ u) =
        omega (arith, rest_shorter held before rs o h, length-append held u, length-append rs u) in
      elim k [
        | inl k' ↦
            resume_next fuel fuel' at (at + length before + 1) held (before ++ o ∷ []) rs u []
              (omega (arith, length-append before (o ∷ [])))
              (drain_loop_invalid normalize st false fuel at (held ++ u) before o (rs ++ u)
                (open-append held before u o rs h)
                (match_link-append (o ∷ rs) u (λ q. cc) ∙ ap (λ x. extend x u) k'))
              (ih (at + length before + 1) rs (omega (arith, a, m)) (omega (arith, a, l)))
              (omega (arith, a, l))
        | inr k' ↦ absurd (
            omega (
              arith,
              ltb→lt max_link_buffer (length (o ∷ rs)) k'.1,
              m,
              length-append held u,
              rest_shorter held before rs o h,
            ))
      ]
  Round-Resumes fuel fuel' at held u d (link before o rs label c url after h k) m l ih =
      let link' = link_text o label c url in
      let a : length (after ++ u) + 1 ≤ length (held ++ u) = omega (
        arith,
        after_shorter held before rs label url after o c h k,
        length-append held u,
        length-append after u,
      ) in
      resume_next fuel fuel' at (at + length before + length link') held
        (before ++ normalize_brackets link') after u
        (annotation_at normalize st (at + length before) label url)
        (omega
          (arith, length-append before (normalize_brackets link'), length-normalize_brackets link'))
        (drain_loop_link normalize st false fuel at (held ++ u) before o (rs ++ u) label c url
          (after ++ u) (open-append held before u o rs h)
          (match_link-append (o ∷ rs) u (λ q. cc) ∙ ap (λ x. extend x u) k))
        (ih (at + length before + length link') after (omega (arith, a, m)) (omega (arith, a, l)))
        (omega (arith, a, l))

  drain_loop-Resumes :
      (fuel at : ℕ) (held u : Text)
      → length (held ++ u) ≤ max_link_buffer
      → length (held ++ u) < fuel
      → Resumes fuel at held (loop fuel at held) u
  drain_loop-Resumes zero at held u m l = absurd (omega arith)
  drain_loop-Resumes (suc fuel) at held u m l =
      Round-Resumes fuel fuel at held u _ (round normalize st false fuel at held) m l
        (λ at' t m' l'. drain_loop-Resumes fuel at' t u m' l')

  -- The two drains of the beginning and of the rest make the drain of the whole.
  pub drain_loop-append :
      (at : ℕ) (held u : Text)
      → length (held ++ u) ≤ max_link_buffer
      → let d = loop (suc (length held)) at held in
        loop (suc (length (held ++ u))) at (held ++ u)
        ≡ prepend d.content d.annotations
            (loop (suc (length (d.held ++ u))) (at + length d.content) (d.held ++ u))
  drain_loop-append at held u m =
      let g = suc (length (held ++ u)) in
      let d = loop (suc (length held)) at held in
      let e : loop g at held ≡ d =
        drain_loop_fuel normalize st false g (suc (length held)) at held
          (omega (arith, length-append held u)) (omega arith) in
      let n : length (d.held ++ u) < g = omega (
        arith,
        drain_loop-length (suc (length held)) at held,
        length-append held u,
        length-append d.held u,
      ) in
      subst (λ x. Resumes g at held x u) e (drain_loop-Resumes g at held u m (omega arith))
      ∙ ap (prepend d.content d.annotations) (
          drain_loop_fuel normalize st false g (suc (length (d.held ++ u))) (at + length d.content)
            (d.held ++ u) n (omega arith))
