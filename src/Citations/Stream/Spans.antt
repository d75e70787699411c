-- ===== src/Citations/Stream/Spans.antt =====
-- toolruntime/citations/stream.go: what an annotation points at.
use mathlib.Core.Path.{subst}
use mathlib.Core.List.{append-nil, append_assoc}
use confidential_model_route.Common.{
  ℕ, zero, suc, ◌+◌, ◌≡◌, refl, sym, ap, ◌∙◌, inl, inr, Bool, true, false, not, ◌&&◌, Option, some,
  List, [], ◌∷◌, ◌++◌, map, arith, ◌==◌, if◌then◌else◌, Bool-cases, Option-cases, length,
  length-append, All, All-append, All-mono, Text,
}
use confidential_model_route.Citations.{
  State, resolve_source, resolve_harmony, open_ascii, close_wide, close_ascii,
}
use confidential_model_route.Citations.Stream.{
  Annotation, Emitter, Drained, split_label, match_link, matched, normalize_brackets, replace_close,
  annotation_at, link_text, drain_loop, drain, push, is_open, is_close,
}
use confidential_model_route.Citations.Stream.Rounds.{Round, plain, link, wait, skip, round}
use confidential_model_route.Citations.Stream.Parts.{match_link_parts, match_target_parts}
use confidential_model_route.Citations.Stream.Conserved.{ascii, replace_close-ascii, push_all}
use confidential_model_route.Citations.Stream.Resume.{length-normalize_brackets}

abbrev no_close : Text → Bool
no_close [] = true
no_close (r ∷ rs) = not (is_close r) && no_close rs

split_label_close :
    (t l rest : Text) (c : ℕ)
    → split_label t ≡ some (l, c, rest)
    → (no_close l ≡ true) × (is_close c ≡ true)
unfolding split_label
split_label_close [] l rest c h = ground (arith, h)
split_label_close (r ∷ rs) l rest c h = elim (Bool-cases (is_close r)) [
  | inl e ↦ ground (arith, h, e)
  | inr e ↦ elim (Option-cases (split_label rs)) [
    | inl f ↦ ground (arith, h, e, f)
    | inr (x, f) ↦ ground (arith, h, e, f, split_label_close rs x.0 x.2 x.1)
  ]
]

match_link_close :
    (o c : ℕ) (rs label url after : Text)
    → match_link (o ∷ rs) ≡ matched label c url after
    → (no_close label ≡ true) × (is_close c ≡ true)
unfolding match_link
match_link_close o c rs label url after h = elim (Option-cases (split_label rs)) [
  | inl f ↦ ground (arith, h, f)
  | inr (([], d, rest), f) ↦ ground (arith, h, f)
  | inr ((l ∷ ls, d, rest), f) ↦ ground (
    arith,
    h,
    f,
    split_label_close rs (l ∷ ls) rest d f,
    match_target_parts (l ∷ ls) rest label url after d c,
  )
]

replace_close-append :
    (l rest : Text) (c : ℕ)
    → no_close l ≡ true
    → is_close c ≡ true
    → replace_close (l ++ c ∷ rest)
      ≡ l ++ close_ascii ∷ (if c == close_wide then rest else replace_close rest)
unfolding replace_close
replace_close-append [] rest c h k = ground (arith, k)
replace_close-append (r ∷ rs) rest c h k = ground (arith, h, k, replace_close-append rs rest c)

replace_close_url :
    (url : Text) → replace_close (40 ∷ (url ++ 41 ∷ [])) ≡ 40 ∷ (replace_close url ++ 41 ∷ [])
unfolding replace_close
replace_close_url [] = refl
replace_close_url (r ∷ rs) = ground (arith, replace_close_url rs)

-- The URL as it is sent: a `】` in it is taken for the label's, if the label ended in `]`.
abbrev sent_url : ℕ → Text → Text
sent_url c url = if c == close_wide then url else replace_close url

normalize_brackets_link :
    (o c : ℕ) (label url : Text)
    → is_open o ≡ true
    → no_close label ≡ true
    → is_close c ≡ true
    → normalize_brackets (link_text o label c url)
      ≡ open_ascii ∷ (label ++ close_ascii ∷ 40 ∷ (sent_url c url ++ 41 ∷ []))
unfolding normalize_brackets
normalize_brackets_link o c label url h k l =
    ground
      (arith, h, l, replace_close-append label (40 ∷ (url ++ 41 ∷ [])) c k l, replace_close_url url)

-- In the text `t` the annotation's indices span the label of a link, in ASCII brackets, whose URL is
-- the annotation's, up to lenticular brackets in it.
abbrev pub Spans : Text → Annotation → Type 0
Spans t a =
    (before label url after : Text) × (t
      ≡ before ++ open_ascii ∷ (label ++ close_ascii ∷ 40 ∷ (url ++ 41 ∷ after)))
    × (length before + 1 ≡ a.start_index)
    × (a.start_index + length label ≡ a.end_index)
    × (map ascii url ≡ map ascii a.source.url)

append_link :
    (p label url after u : Text)
    → (p ++ open_ascii ∷ (label ++ close_ascii ∷ 40 ∷ (url ++ 41 ∷ after))) ++ u
      ≡ p ++ open_ascii ∷ (label ++ close_ascii ∷ 40 ∷ (url ++ 41 ∷ (after ++ u)))
append_link p label url after u = simp append_assoc

Spans-append : (t u : Text) (a : Annotation) → Spans t a → Spans (t ++ u) a
Spans-append t u a (p, label, url, after, e, i, j, k) =
    (p, label, url, after ++ u, rw (e, append_link p label url after u) refl, i, j, k)

sent_url-ascii : (c : ℕ) (url : Text) → map ascii (sent_url c url) ≡ map ascii url
sent_url-ascii c url = elim (Bool-cases (c == close_wide)) [
  | inl e ↦ rw e refl
  | inr e ↦ rw e (replace_close-ascii url)
]

module _ (normalize : Text → Text) (st : Option State) (final : Bool) where
  annotation_at-Spans :
      (at : ℕ) (p : Text) (o c : ℕ) (rs label url after : Text)
      → length p ≡ at
      → match_link (o ∷ rs) ≡ matched label c url after
      → All
          (Spans (p ++ normalize_brackets (link_text o label c url)))
          (annotation_at normalize st at label url)
  unfolding annotation_at
  annotation_at-Spans at p o c rs label url after l m =
      let k = match_link_close o c rs label url after m in
      let e =
        normalize_brackets_link o c label url (match_link_parts o c rs label url after m).0 k.0
          k.1 in
      let i : length p + 1 ≡ at + 1 = omega (arith, l) in
      elim (Option-cases (resolve_source normalize st url)) [
        | inl f ↦ rw (f, annotation_at) tt
        | inr (src, f) ↦
            rw (f, annotation_at)
              (
                (p, label, sent_url c url, [], ap (λ t. p ++ t) e, i, refl, sent_url-ascii c url),
                tt,
              )
      ]

  Round-Spans :
      (fuel at : ℕ) (held s : Text) (d : Drained)
      → Round normalize st final fuel at held d
      → length s ≡ at
      → ((at' : ℕ) (s' t : Text)
          → length s' ≡ at'
          → All
              (Spans (s' ++ (drain_loop normalize st final fuel at' t).content))
              (drain_loop normalize st final fuel at' t).annotations)
      → All (Spans (s ++ d.content)) d.annotations
  Round-Spans fuel at held s d (plain before h) l ih = tt
  Round-Spans fuel at held s d (wait before o rs h k f l') l ih = tt
  Round-Spans fuel at held s d (skip before o rs h k) l ih =
      let s' = s ++ (before ++ o ∷ []) in
      let d' = drain_loop normalize st final fuel (at + length before + 1) rs in
      rw (← append_assoc s (before ++ o ∷ []) d'.content) (
        ih (at + length before + 1) s' rs
          (omega (arith, l, length-append s (before ++ o ∷ []), length-append before (o ∷ []))))
  Round-Spans fuel at held s d (link before o rs label c url after h k) l ih =
      let link' = link_text o label c url in
      let b' = before ++ normalize_brackets link' in
      let at' = at + length before + length link' in
      let d' = drain_loop normalize st final fuel at' after in
      rw (← append_assoc s b' d'.content) (
        All-append (Spans ((s ++ b') ++ d'.content))
          (annotation_at normalize st (at + length before) label url) d'.annotations
          (All-mono (Spans ((s ++ before) ++ normalize_brackets link'))
            (Spans ((s ++ b') ++ d'.content))
            (λ a q.
              subst (λ t. Spans t a)
                (ap (λ t. t ++ d'.content) (append_assoc s before (normalize_brackets link')))
                (Spans-append ((s ++ before) ++ normalize_brackets link') d'.content a q))
            (annotation_at normalize st (at + length before) label url)
            (annotation_at-Spans (at + length before) (s ++ before) o c rs label url after
              (omega (arith, l, length-append s before)) k))
          (ih at' (s ++ b') after (
            omega (
              arith,
              l,
              length-append s b',
              length-append before (normalize_brackets link'),
              length-normalize_brackets link',
            ))))

  drain_loop-Spans :
      (fuel at : ℕ) (s t : Text)
      → length s ≡ at
      → All
          (Spans (s ++ (drain_loop normalize st final fuel at t).content))
          (drain_loop normalize st final fuel at t).annotations
  drain_loop-Spans zero at s t l = unfold drain_loop in tt
  drain_loop-Spans (suc fuel) at s t l =
      Round-Spans fuel at t s _ (round normalize st final fuel at t) l
        (λ at' s' t' l'. drain_loop-Spans fuel at' s' t' l')

module _ (normalize : Text → Text) where
  push-Spans :
      (t : Text) (e : Emitter) → All (Spans (push normalize t e).1.sent) (push normalize t e).0.1
  unfolding push drain
  push-Spans [] e = tt
  push-Spans (r ∷ rs) e =
      let held = resolve_harmony e.state (e.held ++ r ∷ rs) in
      drain_loop-Spans normalize e.state false (suc (length held)) (length e.sent) e.sent held refl

  push_sent :
      (t : Text) (e : Emitter) → (push normalize t e).1.sent ≡ e.sent ++ (push normalize t e).0.0
  unfolding push drain
  push_sent [] e = sym (append-nil e.sent)
  push_sent (r ∷ rs) e = refl

  push_all_sent :
      (ts : List Text) (e : Emitter)
      → (push_all normalize ts e).1.sent ≡ e.sent ++ (push_all normalize ts e).0.0
  unfolding push_all
  push_all_sent [] e = sym (append-nil e.sent)
  push_all_sent (t ∷ ts) e =
      let p = push normalize t e in
      push_all_sent ts p.1
      ∙ ap (λ x. x ++ (push_all normalize ts p.1).0.0) (push_sent t e)
      ∙ append_assoc e.sent p.0.0 (push_all normalize ts p.1).0.0

  -- However the text is cut, and in Harmony mode too: each annotation delivered has the indices, in
  -- all the text sent so far, of the label of a link in ASCII brackets; the URL of that link is the
  -- annotation's, up to lenticular brackets in it.
  pub push_all-Spans :
      (ts : List Text) (e : Emitter)
      → All (Spans (push_all normalize ts e).1.sent) (push_all normalize ts e).0.1
  unfolding push_all
  push_all-Spans [] e = tt
  push_all-Spans (t ∷ ts) e =
      let p = push normalize t e in
      let q = push_all normalize ts p.1 in
      All-append (Spans q.1.sent) p.0.1 q.0.1
        (All-mono (Spans p.1.sent) (Spans q.1.sent)
          (λ a h.
            subst (λ x. Spans x a) (sym (push_all_sent ts p.1)) (Spans-append p.1.sent q.0.0 a h))
          p.0.1 (push-Spans t e))
        (push_all-Spans ts p.1)
