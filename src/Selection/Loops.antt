-- ===== src/Selection/Loops.antt =====
-- Lemmas on the loops of the selection: what a search and a pick return.
use mathlib.Core.Path.{subst}
use confidential_model_route.Common.{
  ℕ, zero, suc, ◌≡◌, refl, sym, ap, ◌∙◌, ◌⊎◌, inl, inr, ◌&&◌, Option, none, some, List, ◌∷◌, ◌++◌,
  arith, if◌then◌else◌, Bool-cases, Option-cases, length, All, In, if-either, Text, text_eq,
  text_eq-eq, [],
}
use confidential_model_route.Common.Int.{ℤ, pos, ◌-ℤ◌, ltℤ, leℤ}
use confidential_model_route.Selection.{
  Enclave, Query, Env, first_some, least_of, drawn, with_host, preferred_of, pick_tier, first_claim,
  claim_probe_at,
}

module _ {A B : Type 0} (f : A → Option B) where
  pub first_some-some :
      (xs : List A) (b : B)
      → first_some f xs ≡ some b
      → (before : List A) × (x : A) × (after : List A) × (xs ≡ before ++ x ∷ after)
        × (f x ≡ some b)
        × All (λ y. f y ≡ none) before
  unfolding first_some
  first_some-some [] b h = cc
  first_some-some (x ∷ xs) b h = elim (Option-cases (f x)) [
    | inl e ↦
        let (before, y, after, split, hit, miss) = first_some-some xs b (rw (e, first_some) at h) in
        (x ∷ before, y, after, ap (◌∷◌ x) split, hit, (e, miss))
    | inr (c, e) ↦ ([], x, xs, refl, ground arith, tt)
  ]

  pub first_some-none : (xs : List A) → first_some f xs ≡ none → All (λ y. f y ≡ none) xs
  unfolding first_some
  first_some-none [] h = tt
  first_some-none (x ∷ xs) h = elim (Option-cases (f x)) [
    | inl e ↦ (e, first_some-none xs (rw (e, first_some) at h))
    | inr (c, e) ↦ absurd (ground arith)
  ]

least_of-In : (d : Enclave) (es : List Enclave) → (least_of d es ≡ d) ⊎ In (least_of d es) es
unfolding least_of
least_of-In d [] = inl refl
least_of-In d (e ∷ es) =
    let less = ltℤ e.inflight d.inflight in
    elim (least_of-In (if less then e else d) es) [
      | inl same ↦ elim (if-either less e d) [
        | inl is ↦ inr (inl (same ∙ is))
        | inr is ↦ inl (same ∙ is)
      ]
      | inr i ↦ inr (inr i)
    ]

drawn-In : (d : Enclave) (es : List Enclave) (i : ℕ) → (drawn d es i ≡ d) ⊎ In (drawn d es i) es
unfolding drawn
drawn-In d [] i = inl refl
drawn-In d (e ∷ es) zero = inr (inl refl)
drawn-In d (e ∷ es) (suc i) = elim (drawn-In d es i) [ inl e ↦ inl e | inr j ↦ inr (inr j) ]

pub with_host-In :
    (h : Text) (es : List Enclave) (e : Enclave) → with_host h es ≡ some e → In e es × (e.host ≡ h)
unfolding with_host
with_host-In h [] e x = cc
with_host-In h (d ∷ es) e x = elim (Bool-cases (text_eq d.host h)) [
  | inl hit ↦
      let same : d ≡ e = ground arith in
      (inl (sym same), ap (λ (c : Enclave). c.host) (sym same) ∙ text_eq-eq d.host h hit)
  | inr miss ↦ let (i, k) = with_host-In h es e (rw (miss, with_host) at x) in (inr i, k)
]

preferred_of-In :
    (delta : Option ℤ) (least : Enclave) (order : List Text) (es : List Enclave) (e : Enclave)
    → preferred_of delta least order es ≡ some e
    → (e ≡ least) ⊎ In e es
unfolding preferred_of
preferred_of-In delta least [] es e x = cc
preferred_of-In none least (h ∷ hs) es e x = elim (Option-cases (with_host h es)) [
  | inl miss ↦ preferred_of-In none least hs es e (rw (miss, preferred_of) at x)
  | inr (d, hit) ↦ let same : d ≡ e = ground arith in inr (rw (← same) (with_host-In h es d hit).0)
]
preferred_of-In (some cap) least (h ∷ hs) es e x = elim (Option-cases (with_host h es)) [
  | inl miss ↦ preferred_of-In (some cap) least hs es e (rw (miss, preferred_of) at x)
  | inr (d, hit) ↦
      elim (if-either (leℤ (pos 0) cap && ltℤ cap (d.inflight -ℤ least.inflight)) (some least)
        (some d)) [
          | inl y ↦ let same : least ≡ e = ground arith in inl (sym same)
          | inr y ↦ let same : d ≡ e = ground arith in inr (rw (← same) (with_host-In h es d hit).0)
        ]
]

-- The pick is one of the candidates.
pub pick_tier-In :
    (q : Query) (env : Env) (e : Enclave) (es : List Enclave) → In (pick_tier q env e es) (e ∷ es)
unfolding pick_tier
pick_tier-In q env e es = go (preferred_of env.max_inflight_delta least q.order (e ∷ es)) refl
  where
    fallback : Enclave
    fallback = drawn e (e ∷ es) (env.draw (length (e ∷ es)))

    least : Enclave
    least = least_of fallback (e ∷ es)

    fallback-In : In fallback (e ∷ es)
    fallback-In = elim (drawn-In e (e ∷ es) (env.draw (length (e ∷ es)))) [
      | inl same ↦ inl same
      | inr i ↦ i
    ]

    least-In : In least (e ∷ es)
    least-In = elim (least_of-In fallback (e ∷ es)) [
      | inl same ↦ subst (λ c. In c (e ∷ es)) (sym same) fallback-In
      | inr i ↦ i
    ]

    go :
        (o : Option Enclave)
        → preferred_of env.max_inflight_delta least q.order (e ∷ es) ≡ o
        → In (elim o [ none ↦ fallback | some chosen ↦ chosen ]) (e ∷ es)
    go none x = fallback-In
    go (some chosen) x =
        elim (preferred_of-In env.max_inflight_delta least q.order (e ∷ es) chosen x) [
          | inl same ↦ subst (λ c. In c (e ∷ es)) (sym same) least-In
          | inr i ↦ i
        ]

pub first_claim-some :
    (now : ℕ) (es : List Enclave) (token : ℕ) (c : Enclave)
    → first_claim now es ≡ some (token, c)
    → (e : Enclave) × In e es × (claim_probe_at now e ≡ some (token, c))
unfolding first_claim
first_claim-some now [] token c x = cc
first_claim-some now (e ∷ es) token c x = elim (Option-cases (claim_probe_at now e)) [
  | inl miss ↦
      let (d, i, k) = first_claim-some now es token c (rw (miss, first_claim) at x) in (d, inr i, k)
  | inr (r, hit) ↦ (e, inl refl, ground arith)
]
