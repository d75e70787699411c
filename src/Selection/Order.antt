-- ===== src/Selection/Order.antt =====
-- manager/routing_tiers.go: which round of the loop over tiers and pools serves a request.
use mathlib.Core.Path.{subst}
use confidential_model_route.Common.{
  ℕ, suc, ◌+◌, ◌*◌, ◌≤◌, ◌<◌, ◌≡◌, refl, sym, ap, ◌∙◌, inl, inr, Bool, true, false, Option, none,
  some, List, ◌∷◌, ◌++◌, arith, All, In, In-All, [],
}
use confidential_model_route.Tier.{Tier, preferred, busy, unknown, over, tier_eq}
use confidential_model_route.Selection.{
  Enclave, Query, Env, Pool, primary_pool, spill_pool, Selection, plain, probes, candidates,
  from_bucket, round, rounds, first_some, first_claim, claim_probe_at, pick_tier, last_resort,
  select_serving_locked,
}
use confidential_model_route.Selection.Loops.{
  first_some-some, first_some-none, pick_tier-In, first_claim-some,
}

abbrev pub tier_rank : Tier → ℕ
tier_rank preferred = 0
tier_rank busy = 1
tier_rank unknown = 2
tier_rank over = 3

-- Tiers first, and within a tier the primary pool before the spill pool.
abbrev pub rank : Tier × Pool → ℕ
rank (t, primary_pool) = 2 * tier_rank t
rank (t, spill_pool) = 2 * tier_rank t + 1

abbrev pub Empty : Query → Env → Tier × Pool → Type 0
Empty q env (t, p) = candidates q env t p ≡ []

-- How `selectServingLocked` comes to a selection: it dispatches a claimed recovery probe, serves
-- the first round that has candidates, or falls back to an enclave whose breaker is not closed.
pub data Chosen (q : Query) (env : Env) (s : Selection) : Type 0 where
  probed :
      (p : Pool) (e : Enclave) (token : ℕ)
      → q.claim_probes ≡ true
      → In e (probes q env p)
      → claim_probe_at env.now e ≡ some (token, s.enclave)
      → s.claim ≡ some token
      → s.overloaded ≡ false
      → ((u : Tier) (r : Pool) → rank (u, r) < rank (preferred, p) → Empty q env (u, r))
      → Chosen q env s
  ranked :
      (t : Tier) (p : Pool)
      → In s.enclave (candidates q env t p)
      → s.claim ≡ none
      → s.overloaded ≡ tier_eq t over
      → ((u : Tier) (r : Pool) → rank (u, r) < rank (t, p) → Empty q env (u, r))
      → Chosen q env s
  degraded :
      ((u : Tier) (r : Pool) → Empty q env (u, r))
      → In s.enclave (probes q env primary_pool ++ probes q env spill_pool)
      → s.claim ≡ none
      → s.overloaded ≡ false
      → Chosen q env s

from_bucket-none :
    (q : Query) (env : Env) (t : Tier) (es : List Enclave) → from_bucket q env t es ≡ none → es ≡ []
unfolding from_bucket
from_bucket-none q env t [] h = refl
from_bucket-none q env t (e ∷ es) h = cc

round-none :
    (q : Query) (env : Env) (t : Tier) (p : Pool) → round q env (t, p) ≡ none → Empty q env (t, p)
unfolding round
round-none q env t p h = from_bucket-none q env t (candidates q env t p) (ground arith)

-- The rounds grow in rank, so those before a round are those of lower rank.
abbrev Rising : ℕ → List (Tier × Pool) → Type 0
Rising n [] = Unit {0}
Rising n (x ∷ xs) = (n ≤ rank x) × Rising (suc (rank x)) xs

Rising-In : (n : ℕ) (xs : List (Tier × Pool)) (x : Tier × Pool) → Rising n xs → In x xs → n ≤ rank x
Rising-In n [] x r i = elim i [ ]
Rising-In n (y ∷ ys) x r (inl e) = rw e r.0
Rising-In n (y ∷ ys) x r (inr i) = omega (arith, Rising-In (suc (rank y)) ys x r.1 i, r.0)

In-before :
    (n : ℕ) (before after : List (Tier × Pool)) (x y : Tier × Pool)
    → Rising n (before ++ x ∷ after)
    → In y (before ++ x ∷ after)
    → rank y < rank x
    → In y before
In-before n [] after x y r (inl e) lt = absurd (omega (arith, ap rank e))
In-before n [] after x y r (inr i) lt =
    absurd (omega (arith, Rising-In (suc (rank x)) after y r.1 i))
In-before n (z ∷ before) after x y r (inl e) lt = inl e
In-before n (z ∷ before) after x y r (inr i) lt =
    inr (In-before (suc (rank z)) before after x y r.1 i lt)

rounds-Rising : Rising 0 rounds
rounds-Rising = omega arith

In-rounds : (t : Tier) (p : Pool) → In (t, p) rounds
In-rounds preferred primary_pool = inl refl
In-rounds preferred spill_pool = inr (inl refl)
In-rounds busy primary_pool = inr (inr (inl refl))
In-rounds busy spill_pool = inr (inr (inr (inl refl)))
In-rounds unknown primary_pool = inr (inr (inr (inr (inl refl))))
In-rounds unknown spill_pool = inr (inr (inr (inr (inr (inl refl)))))
In-rounds over primary_pool = inr (inr (inr (inr (inr (inr (inl refl))))))
In-rounds over spill_pool = inr (inr (inr (inr (inr (inr (inr (inl refl)))))))

pub all_missed :
    (q : Query) (env : Env)
    → first_some (round q env) rounds ≡ none
    → (u : Tier) (r : Pool) → Empty q env (u, r)
all_missed q env h u r = round-none q env u r (
    In-All (λ x. round q env x ≡ none) (u, r) rounds (first_some-none (round q env) rounds h)
      (In-rounds u r))

from_bucket-Chosen :
    (q : Query) (env : Env) (s : Selection) (t : Tier) (p : Pool) (es : List Enclave)
    → candidates q env t p ≡ es
    → from_bucket q env t es ≡ some s
    → ((u : Tier) (r : Pool) → rank (u, r) < rank (t, p) → Empty q env (u, r))
    → Chosen q env s
unfolding from_bucket
from_bucket-Chosen q env s t p [] c h lower = cc
from_bucket-Chosen q env s t p (e ∷ es) c h lower =
    let same : pick_tier q env e es ≡ s.enclave = ground arith in
    ranked t p (rw c (subst (λ x. In x (e ∷ es)) same (pick_tier-In q env e es))) (ground arith)
      (ground arith) lower

plain-Chosen :
    (q : Query) (env : Env) (s : Selection) (p : Pool)
    → (c : Option (ℕ × Enclave)) → first_claim env.now (probes q env p) ≡ c
    → q.claim_probes ≡ true
    → (elim c [
      | none ↦ from_bucket q env preferred (candidates q env preferred p)
      | some (token, e) ↦ some (plain e (some token))
    ])
      ≡ some s
    → ((u : Tier) (r : Pool) → rank (u, r) < rank (preferred, p) → Empty q env (u, r))
    → Chosen q env s
plain-Chosen q env s p none x claims h lower =
    from_bucket-Chosen q env s preferred p (candidates q env preferred p) refl h lower
plain-Chosen q env s p (some (token, e)) x claims h lower =
    let (d, i, k) = first_claim-some env.now (probes q env p) token e x in
    let same : e ≡ s.enclave = ground arith in
    probed p d token claims i (subst (λ c. claim_probe_at env.now d ≡ some (token, c)) same k)
      (ground arith) (ground arith) lower

round-Chosen :
    (q : Query) (env : Env) (s : Selection) (t : Tier) (p : Pool) (b : Bool)
    → q.claim_probes ≡ b
    → round q env (t, p) ≡ some s
    → ((u : Tier) (r : Pool) → rank (u, r) < rank (t, p) → Empty q env (u, r))
    → Chosen q env s
unfolding round
round-Chosen q env s preferred p true e h lower =
    plain-Chosen q env s p (first_claim env.now (probes q env p)) refl e (ground arith) lower
round-Chosen q env s preferred p false e h lower =
    from_bucket-Chosen q env s preferred p (candidates q env preferred p) refl (ground arith) lower
round-Chosen q env s t p b e h lower = from_bucket-Chosen q env s t p _ refl h lower

-- Every selection is one of the three, at any state of the enclaves.
pub select_serving_locked-Chosen :
    (q : Query) (env : Env) (s : Selection) → select_serving_locked q env ≡ some s → Chosen q env s
unfolding select_serving_locked
select_serving_locked-Chosen q env s h = go (first_some (round q env) rounds) refl h
  where
    found :
        (x : (before : List (Tier × Pool)) × (x : Tier × Pool) × (after : List (Tier × Pool))
          × (rounds ≡ before ++ x ∷ after)
          × (round q env x ≡ some s)
          × All (λ y. round q env y ≡ none) before)
        → Chosen q env s
    found (before, (t, p), after, split, hit, missed) =
        round-Chosen q env s t p _ refl hit λ u r lt. round-none q env u r (
          In-All _ (u, r) before missed
            (In-before 0 before after (t, p) (u, r) (subst (Rising 0) split rounds-Rising)
              (subst (In (u, r)) split (In-rounds u r)) lt))

    fall :
        (es : List Enclave)
        → probes q env primary_pool ++ probes q env spill_pool ≡ es
        → first_some (round q env) rounds ≡ none
        → (elim es [ [] ↦ none | e ∷ _ ↦ some (plain e none) ]) ≡ some s
        → Chosen q env s
    fall [] e missed h = cc
    fall (e ∷ es) x missed h =
        let same : e ≡ s.enclave = ground arith in
        degraded (all_missed q env missed) (rw x (inl (sym same))) (ground arith) (ground arith)

    go :
        (o : Option Selection)
        → first_some (round q env) rounds ≡ o
        → (elim o [ some s ↦ some s | none ↦ last_resort q env ]) ≡ some s
        → Chosen q env s
    go none e h = fall _ refl e h
    go (some s') e h = found (first_some-some (round q env) rounds s (e ∙ h))
