-- ===== src/Citations/Stream/Parts.antt =====
-- toolruntime/citations/stream.go: a link is made of the runes that it was read from.
use mathlib.Core.List.{append_assoc}
use confidential_model_route.Common.{
  ℕ, ◌+◌, ◌≡◌, refl, inl, inr, true, some, [], ◌∷◌, ◌++◌, arith, Bool-cases, Option-cases, length,
  Text,
}
use confidential_model_route.Citations.Stream.{
  find_next_open, split_label, scan_url, UrlScan, ended, spaced, unended, is_close, match_link,
  match_target, matched, is_open, link_text,
}

-- Every rune is before the bracket or from it.
pub find_next_open_parts : (t : Text) → (find_next_open t).0 ++ (find_next_open t).1 ≡ t
unfolding find_next_open
find_next_open_parts [] = refl
find_next_open_parts (r ∷ rs) = ground (arith, find_next_open_parts rs)

pub length-find_next_open :
    (t : Text) → length (find_next_open t).0 + length (find_next_open t).1 ≡ length t
unfolding find_next_open
length-find_next_open [] = omega arith
length-find_next_open (r ∷ rs) = ground (arith, length-find_next_open rs)

pub split_label_parts :
    (t l rest : Text) (c : ℕ) → split_label t ≡ some (l, c, rest) → l ++ c ∷ rest ≡ t
unfolding split_label
split_label_parts [] l rest c h = ground (arith, h)
split_label_parts (r ∷ rs) l rest c h = elim (Bool-cases (is_close r)) [
  | inl e ↦ ground (arith, h, e)
  | inr e ↦ elim (Option-cases (split_label rs)) [
    | inl f ↦ ground (arith, h, e, f)
    | inr (x, f) ↦ ground (arith, h, e, f, split_label_parts rs x.0 x.2 x.1)
  ]
]

scan_url_cons :
    (r : ℕ) (rs u rest : Text) (s : UrlScan)
    → scan_url rs ≡ s
    → scan_url (r ∷ rs) ≡ ended u rest
    → ((v : Text) → scan_url rs ≡ ended v rest → v ++ 41 ∷ rest ≡ rs)
    → u ++ 41 ∷ rest ≡ r ∷ rs
unfolding scan_url
scan_url_cons r rs u rest (ended v w) e h ih = ground (arith, h, e, ih v)
scan_url_cons r rs u rest spaced e h ih = ground (arith, h, e)
scan_url_cons r rs u rest unended e h ih = ground (arith, h, e)

pub scan_url_parts : (t u rest : Text) → scan_url t ≡ ended u rest → u ++ 41 ∷ rest ≡ t
unfolding scan_url
scan_url_parts [] u rest h = ground (arith, h)
scan_url_parts (r ∷ rs) u rest h =
    let ih = λ (v : Text). scan_url_parts rs v rest in
    scan_url_cons r rs u rest (scan_url rs) refl h ih

match_target_cases :
    (p : ℕ) (rest label0 label url after : Text) (c0 c : ℕ) (s : UrlScan)
    → scan_url rest ≡ s
    → match_target label0 c0 (p ∷ rest) ≡ matched label c url after
    → (label ≡ label0) × (c ≡ c0) × (40 ∷ (url ++ 41 ∷ after) ≡ p ∷ rest)
unfolding match_target
match_target_cases p rest label0 label url after c0 c (ended v w) e h =
    ground (arith, h, e, scan_url_parts rest v w)
match_target_cases p rest label0 label url after c0 c spaced e h = ground (arith, h, e)
match_target_cases p rest label0 label url after c0 c unended e h = ground (arith, h, e)

pub match_target_parts :
    (label0 t label url after : Text) (c0 c : ℕ)
    → match_target label0 c0 t ≡ matched label c url after
    → (label ≡ label0) × (c ≡ c0) × (40 ∷ (url ++ 41 ∷ after) ≡ t)
unfolding match_target
match_target_parts label0 [] label url after c0 c h = ground (arith, h)
match_target_parts label0 (p ∷ rest) label url after c0 c h =
    match_target_cases p rest label0 label url after c0 c (scan_url rest) refl h

link_append :
    (label url after : Text) (c : ℕ)
    → (label ++ c ∷ 40 ∷ (url ++ 41 ∷ [])) ++ after ≡ label ++ c ∷ 40 ∷ (url ++ 41 ∷ after)
link_append label url after c = simp append_assoc

match_link_rest :
    (o c : ℕ) (rs label url after : Text)
    → is_open o ≡ true
    → match_link (o ∷ rs) ≡ matched label c url after
    → o ∷ rs ≡ link_text o label c url ++ after
unfolding match_link
match_link_rest o c rs label url after e h = elim (Option-cases (split_label rs)) [
  | inl f ↦ ground (arith, h, e, f)
  | inr (([], d, rest), f) ↦ ground (arith, h, e, f)
  | inr ((l ∷ ls, d, rest), f) ↦
      let k : match_target (l ∷ ls) d rest ≡ matched label c url after = ground (arith, h, e, f) in
      let m = match_target_parts (l ∷ ls) rest label url after d c k in
      let q = split_label_parts rs (l ∷ ls) rest d f in
      ground (arith, m, q, link_append label url after c)
]

-- A match is a link, from an opening bracket on, and what follows it.
pub match_link_parts :
    (o c : ℕ) (rs label url after : Text)
    → match_link (o ∷ rs) ≡ matched label c url after
    → (is_open o ≡ true) × (o ∷ rs ≡ link_text o label c url ++ after)
match_link_parts o c rs label url after h = elim (Bool-cases (is_open o)) [
  | inl e ↦ (e, match_link_rest o c rs label url after e h)
  | inr e ↦ absurd (unfold match_link in ground (arith, h, e))
]
