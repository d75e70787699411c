-- ===== src/Selection/Retry.antt =====
-- manager/routing_tiers.go: `SelectRetry`.
use mathlib.Core.Path.{subst}
use confidential_model_route.Common.{
  ◌≤◌, ◌≡◌, refl, sym, ◌∙◌, ◌≢◌, inl, inr, true, false, some, ◌∷◌, arith, Option-cases, In-append,
  Text, [],
}
use confidential_model_route.Tier.{Tier, preferred, busy, unknown, over, tier_eq}
use confidential_model_route.Selection.{
  Enclave, Query, Env, primary_pool, spill_pool, Selection, probes, breaker_closed, retrying,
  tier_at, reserve, select_serving_locked, select_retry,
}
use confidential_model_route.Selection.Order.{
  Chosen, probed, ranked, degraded, tier_rank, select_serving_locked-Chosen,
}
use confidential_model_route.Selection.Safety.{Admissible, In-probes, In-candidates}

abbrev pub retry_of : Text → Query → Query
retry_of failed q = record q { claim_probes = false; excluded_host = failed }

nonempty_retrying : (failed : Text) (q : Query) → failed ≢ [] → retrying (retry_of failed q) ≡ true
nonempty_retrying [] q h = absurd (h refl)
nonempty_retrying (x ∷ xs) q h = refl

retry-locked :
    (failed : Text) (q : Query) (env : Env) (r : Enclave)
    → select_retry failed q env ≡ some r
    → (s : Selection) × (select_serving_locked (retry_of failed q) env ≡ some s)
      × (s.overloaded ≡ false)
      × (r ≡ reserve s.enclave)
unfolding select_retry
retry-locked failed q env r h =
    elim (Option-cases (select_serving_locked (retry_of failed q) env)) [
      | inl e ↦ absurd (ground arith)
      | inr (s, e) ↦ (s, e, ground arith, ground arith)
    ]

low_tier : (t : Tier) → t ≢ unknown → tier_eq t over ≡ false → tier_rank t ≤ 1
low_tier preferred h k = omega arith
low_tier busy h k = omega arith
low_tier unknown h k = absurd (h refl)
low_tier over h k = cc

Chosen-retry :
    (q : Query) (env : Env) (s : Selection)
    → retrying q ≡ true
    → q.claim_probes ≡ false
    → Chosen q env s
    → s.overloaded ≡ false
    → Admissible q env s.enclave
      × (s.enclave.host ≢ q.excluded_host)
      × (breaker_closed s.enclave ≡ true)
      × (tier_rank (tier_at q env.now s.enclave) ≤ 1)
Chosen-retry q env s again quiet (probed p c token claims i k cl o lower) calm = cc
Chosen-retry q env s again quiet (degraded none_left i c o) calm =
    elim (In-append s.enclave (probes q env primary_pool) (probes q env spill_pool) i) [
      | inl j ↦ cc ((In-probes q env primary_pool s.enclave j).2)
      | inr j ↦ cc ((In-probes q env spill_pool s.enclave j).2)
    ]
Chosen-retry q env s again quiet (ranked t p i c o lower) calm =
    let (a, closed, tier_is, known) = In-candidates q env t p s.enclave i in
    (
      a,
      a.other_host again,
      closed,
      subst (λ u. tier_rank u ≤ 1) (sym tier_is) (low_tier t (known again) (sym o ∙ calm)),
    )

-- A retry after a failure of the host `failed` goes to an admissible enclave on another host, with
-- a closed breaker and in the preferred or the busy tier, and reserves one request in flight there.
pub select_retry_safe :
    (failed : Text) (q : Query) (env : Env) (r : Enclave)
    → failed ≢ []
    → select_retry failed q env ≡ some r
    → (e : Enclave) × (r ≡ reserve e)
      × Admissible (retry_of failed q) env e
      × (e.host ≢ failed)
      × (breaker_closed e ≡ true)
      × (tier_rank (tier_at (retry_of failed q) env.now e) ≤ 1)
select_retry_safe failed q env r nonempty h =
    let (s, k, calm, same) = retry-locked failed q env r h in
    let (a, other, closed, low) =
      Chosen-retry (retry_of failed q) env s (nonempty_retrying failed q nonempty) refl
        (select_serving_locked-Chosen (retry_of failed q) env s k) calm in
    (s.enclave, same, a, other, closed, low)
