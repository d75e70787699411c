-- ===== src/Selection/Tiers.antt =====
-- manager/routing_tiers.go: the tier that a first attempt is served from, and when it is told that
-- its pools are overloaded.
use mathlib.Core.Path.{subst}
use native.Mathlib.Decide.{dec_lt}
use confidential_model_route.Common.{
  ◌+◌, ◌*◌, ◌≤◌, ◌<◌, ◌≡◌, refl, sym, ap, ◌∙◌, true, false, none, some, arith,
}
use confidential_model_route.Tier.{Tier, preferred, busy, unknown, over}
use confidential_model_route.Selection.{
  Enclave, Query, Env, Pool, Selection, breaker_closed, retrying, tier_at, select_serving,
}
use confidential_model_route.Selection.Order.{
  Chosen, probed, ranked, degraded, Empty, rank, tier_rank, select_serving_locked-Chosen,
}
use confidential_model_route.Selection.Safety.{Admissible, In-candidates}
use confidential_model_route.Selection.Dispatch.{first_attempt, serving-locked, In-Empty}

rank_lower : (t : Tier) (p : Pool) → 2 * tier_rank t ≤ rank (t, p)
rank_lower t p = ground arith

rank_upper : (t : Tier) (p : Pool) → rank (t, p) ≤ 2 * tier_rank t + 1
rank_upper t p = ground arith

-- A round that was reached has no lower tier than any admissible enclave with a closed breaker.
reached :
    (q : Query) (env : Env) (e : Enclave) (t : Tier) (p : Pool)
    → retrying q ≡ false
    → Admissible q env e
    → breaker_closed e ≡ true
    → ((u : Tier) (r : Pool) → rank (u, r) < rank (t, p) → Empty q env (u, r))
    → tier_rank t ≤ tier_rank (tier_at q env.now e)
reached q env e t p first a closed lower =
    let u = tier_at q env.now e in
    elim (dec_lt (rank (u, a.pool)) (rank (t, p))) [
      | yes before ↦ absurd (In-Empty q env e a first closed (lower u a.pool before))
      | no reached_later ↦ omega (arith, rank_lower t p, rank_upper u a.pool)
    ]

over_is_last : (t : Tier) → 3 ≤ tier_rank t → t ≡ over
over_is_last preferred h = absurd (omega arith)
over_is_last busy h = absurd (omega arith)
over_is_last unknown h = absurd (omega arith)
over_is_last over h = refl

Chosen-over :
    (q : Query) (env : Env) (s : Selection) (e : Enclave)
    → retrying q ≡ false
    → Chosen q env s
    → s.overloaded ≡ true
    → Admissible q env e
    → breaker_closed e ≡ true
    → tier_at q env.now e ≡ over
Chosen-over q env s e first (probed p c token claims i k cl o lower) h a closed = cc
Chosen-over q env s e first (degraded none_left i c o) h a closed = cc
Chosen-over q env s e first (ranked over p i c o lower) h a closed =
    over_is_last (tier_at q env.now e) (reached q env e over p first a closed lower)
Chosen-over q env s e first (ranked t p i c o lower) h a closed = cc

Chosen-least :
    (q : Query) (env : Env) (s : Selection) (e : Enclave)
    → retrying q ≡ false
    → Chosen q env s
    → s.claim ≡ none
    → Admissible q env e
    → breaker_closed e ≡ true
    → (breaker_closed s.enclave ≡ true)
      × (tier_rank (tier_at q env.now s.enclave) ≤ tier_rank (tier_at q env.now e))
Chosen-least q env s e first (probed p c token claims i k cl o lower) h a closed = cc
Chosen-least q env s e first (degraded none_left i c o) h a closed =
    absurd (In-Empty q env e a first closed (none_left (tier_at q env.now e) a.pool))
Chosen-least q env s e first (ranked t p i c o lower) h a closed =
    let (_, serving, tier_is, _) = In-candidates q env t p s.enclave i in
    (
      serving,
      subst (λ u. tier_rank u ≤ tier_rank (tier_at q env.now e)) (sym tier_is)
          (reached q env e t p first a closed lower),
    )

-- The request is told that it is overloaded only if every admissible enclave of its pools whose
-- breaker is closed is in the overloaded tier.
pub overloaded_only_if_all :
    (q : Query) (env : Env) (s : Selection) (e : Enclave)
    → select_serving q env ≡ some s
    → s.overloaded ≡ true
    → Admissible (first_attempt q) env e
    → breaker_closed e ≡ true
    → tier_at (first_attempt q) env.now e ≡ over
overloaded_only_if_all q env s e h o a closed =
    let (r, k, same) = serving-locked q env s h in
    Chosen-over (first_attempt q) env r e refl
      (select_serving_locked-Chosen (first_attempt q) env r k)
      (sym (ap (λ (c : Selection). c.overloaded) same) ∙ o) a closed

-- A selection that is neither a probe claim nor the last resort has the least tier of all
-- admissible enclaves with a closed breaker.
pub select_serving_least_tier :
    (q : Query) (env : Env) (s : Selection) (e : Enclave)
    → select_serving q env ≡ some s
    → s.claim ≡ none
    → Admissible (first_attempt q) env e
    → breaker_closed e ≡ true
    → (breaker_closed s.enclave ≡ true)
      × (tier_rank (tier_at (first_attempt q) env.now s.enclave)
          ≤ tier_rank (tier_at (first_attempt q) env.now e))
unfolding tier_at breaker_closed
select_serving_least_tier q env s e h c a closed =
    let (r, k, same) = serving-locked q env s h in
    subst
      (λ (z : Selection).
        (breaker_closed z.enclave ≡ true)
        × (tier_rank (tier_at (first_attempt q) env.now z.enclave)
            ≤ tier_rank (tier_at (first_attempt q) env.now e)))
      (sym same)
      (Chosen-least (first_attempt q) env r e refl
        (select_serving_locked-Chosen (first_attempt q) env r k)
        (sym (ap (λ (z : Selection). z.claim) same) ∙ c) a closed)
