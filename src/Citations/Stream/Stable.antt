-- ===== src/Citations/Stream/Stable.antt =====
-- toolruntime/citations/stream.go: what more text changes in the outcome of a match.
use confidential_model_route.Common.{
  ℕ, ◌≡◌, refl, sym, ap, ◌∙◌, ◌≢◌, inl, inr, true, Option, none, some, [], ◌∷◌, ◌++◌, arith,
  Bool-cases, Option-cases, Text,
}
use confidential_model_route.Citations.Stream.{
  split_label, scan_url, UrlScan, ended, spaced, unended, match_target, match_link, LinkMatch,
  matched, incomplete, invalid, is_open,
}

-- An outcome with more text behind it.
abbrev pub extend : LinkMatch → Text → LinkMatch
extend (matched label c url after) u = matched label c url (after ++ u)
extend incomplete u = incomplete
extend invalid u = invalid

split_label-append :
    (t u l rest : Text) (c : ℕ)
    → split_label t ≡ some (l, c, rest)
    → split_label (t ++ u) ≡ some (l, c, rest ++ u)
unfolding split_label
split_label-append [] u l rest c h = ground (arith, h)
split_label-append (r ∷ rs) u l rest c h = elim (Option-cases (split_label rs)) [
  | inl f ↦ ground (arith, h, f)
  | inr (x, f) ↦ ground (arith, h, f, split_label-append rs u x.0 x.2 x.1)
]

abbrev extend_scan : UrlScan → Text → UrlScan
extend_scan (ended v rest) u = ended v (rest ++ u)
extend_scan spaced u = spaced
extend_scan unended u = unended

scan_url_step :
    (r : ℕ) (rs u : Text) (s : UrlScan)
    → scan_url rs ≡ s
    → (scan_url rs ≢ unended → scan_url (rs ++ u) ≡ extend_scan (scan_url rs) u)
    → scan_url (r ∷ rs) ≢ unended
    → scan_url (r ∷ (rs ++ u)) ≡ extend_scan (scan_url (r ∷ rs)) u
unfolding scan_url
scan_url_step r rs u (ended v rest) e ih h =
    let k : scan_url (rs ++ u) ≡ ended v (rest ++ u) = ih (λ q. cc) ∙ rw e refl in
    ground (arith, e, k)
scan_url_step r rs u spaced e ih h =
    let k : scan_url (rs ++ u) ≡ spaced = ih (λ q. cc) ∙ rw e refl in ground (arith, e, k)
scan_url_step r rs u unended e ih h = ground (arith, e, h)

scan_url-append :
    (t u : Text) → scan_url t ≢ unended → scan_url (t ++ u) ≡ extend_scan (scan_url t) u
unfolding scan_url
scan_url-append [] u h = absurd (h refl)
scan_url-append (r ∷ rs) u h =
    scan_url_step r rs u (scan_url rs) refl (λ k. scan_url-append rs u k) h

match_target_step :
    (label rest u : Text) (p c : ℕ) (s : UrlScan)
    → scan_url rest ≡ s
    → match_target label c (p ∷ rest) ≢ incomplete
    → match_target label c (p ∷ (rest ++ u)) ≡ extend (match_target label c (p ∷ rest)) u
unfolding match_target
match_target_step label rest u p c (ended v after) e h =
    let k : scan_url (rest ++ u) ≡ ended v (after ++ u) =
      scan_url-append rest u (λ q. cc) ∙ rw e refl in
    ground (arith, e, k)
match_target_step label rest u p c spaced e h =
    let k : scan_url (rest ++ u) ≡ spaced = scan_url-append rest u (λ q. cc) ∙ rw e refl in
    ground (arith, e, k)
match_target_step label rest u p c unended e h = ground (arith, e, h)

match_target-append :
    (label t u : Text) (c : ℕ)
    → match_target label c t ≢ incomplete
    → match_target label c (t ++ u) ≡ extend (match_target label c t) u
unfolding match_target
match_target-append label [] u c h = absurd (h refl)
match_target-append label (p ∷ rest) u c h =
    match_target_step label rest u p c (scan_url rest) refl h

match_link_label :
    (o : ℕ) (rs : Text) (l : ℕ) (ls rest : Text) (c : ℕ)
    → is_open o ≡ true
    → split_label rs ≡ some (l ∷ ls, c, rest)
    → match_link (o ∷ rs) ≡ match_target (l ∷ ls) c rest
unfolding match_link
match_link_label o rs l ls rest c b e = ground (arith, b, e)

match_link_step :
    (o : ℕ) (rs u : Text) (s : Option (Text × ℕ × Text))
    → split_label rs ≡ s
    → match_link (o ∷ rs) ≢ incomplete
    → match_link (o ∷ (rs ++ u)) ≡ extend (match_link (o ∷ rs)) u
unfolding match_link
match_link_step o rs u none e h = ground (arith, e, h)
match_link_step o rs u (some ([], c, rest)) e h =
    let k = split_label-append rs u [] rest c e in ground (arith, e, k)
match_link_step o rs u (some (l ∷ ls, c, rest)) e h =
    let k = split_label-append rs u (l ∷ ls) rest c e in
    elim (Bool-cases (is_open o)) [
      | inl b ↦
          let m = match_link_label o rs l ls rest c b e in
          match_link_label o (rs ++ u) l ls (rest ++ u) c b k
          ∙ match_target-append (l ∷ ls) rest u c (λ q. h (m ∙ q))
          ∙ ap (λ x. extend x u) (sym m)
      | inr b ↦ ground (arith, b)
    ]

-- Every outcome but `LinkIncomplete` is final: whatever text follows, a link that has matched is
-- matched with the same label and URL, the new text behind it, and a text that is no link stays
-- none.
pub match_link-append :
    (t u : Text) → match_link t ≢ incomplete → match_link (t ++ u) ≡ extend (match_link t) u
unfolding match_link
match_link-append [] u h = absurd (h refl)
match_link-append (o ∷ rs) u h = match_link_step o rs u (split_label rs) refl h
