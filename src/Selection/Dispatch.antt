-- ===== src/Selection/Dispatch.antt =====
-- manager/routing_tiers.go: what every selection guarantees, on a first attempt.
use confidential_model_route.Common.{
  ◌≡◌, refl, ap, ◌∙◌, ◌↔◌, ◌⊎◌, inl, inr, true, false, none, some, List, ◌∷◌, ◌++◌, arith,
  Option-cases, In, In-append, append-In, not-In_empty, [],
}
use confidential_model_route.Common.Int.{◌-ℤ◌, ℤ, pos, ◌+ℤ◌}
use confidential_model_route.Selection.{
  Enclave, Query, Env, Pool, primary_pool, spill_pool, Selection, plain, probes, breaker_closed,
  retrying, tier_at, reserve, release_dispatch, last_resort, round, rounds, first_some,
  select_serving_locked, select_serving,
}
use confidential_model_route.Selection.Order.{
  Chosen, probed, ranked, degraded, Empty, select_serving_locked-Chosen, all_missed,
}
use confidential_model_route.Selection.Safety.{
  Admissible, In-probes, In-candidates, placed, claimed_host,
}

-- A first attempt: `SelectServing` excludes no host.
abbrev pub first_attempt : Query → Query
first_attempt q = record q { excluded_host = [] }

abbrev pub Served : Query → Env → Selection → Type 0
Served q env s =
    (e : Enclave) × Admissible q env e
    × (s.enclave.host ≡ e.host)
    × (s.enclave.inflight ≡ e.inflight)

Chosen-Served : (q : Query) (env : Env) (s : Selection) → Chosen q env s → Served q env s
Chosen-Served q env s (probed p e token claims i k c o lower) =
    let (h, n) = claimed_host env.now e s.enclave token k in (e, (In-probes q env p e i).0, h, n)
Chosen-Served q env s (ranked t p i c o lower) =
    (s.enclave, (In-candidates q env t p s.enclave i).0, refl, refl)
Chosen-Served q env s (degraded none_left i c o) =
    elim (In-append s.enclave (probes q env primary_pool) (probes q env spill_pool) i) [
      | inl j ↦ (s.enclave, (In-probes q env primary_pool s.enclave j).0, refl, refl)
      | inr j ↦ (s.enclave, (In-probes q env spill_pool s.enclave j).0, refl, refl)
    ]

pub serving-locked :
    (q : Query) (env : Env) (s : Selection)
    → select_serving q env ≡ some s
    → (r : Selection) × (select_serving_locked (first_attempt q) env ≡ some r)
      × (s ≡ record r { enclave = reserve r.enclave })
unfolding select_serving
serving-locked q env s h = elim (Option-cases (select_serving_locked (first_attempt q) env)) [
  | inl e ↦ absurd (ground arith)
  | inr (r, e) ↦ (r, e, ground arith)
]

-- A selected enclave is one of the caller's pools, allowed there and with unexpired attestation,
-- and the selection reserves one request in flight on it.
pub select_serving-Admissible :
    (q : Query) (env : Env) (s : Selection)
    → select_serving q env ≡ some s
    → (e : Enclave) × Admissible (first_attempt q) env e
      × (s.enclave.host ≡ e.host)
      × (s.enclave.inflight ≡ e.inflight +ℤ pos 1)
select_serving-Admissible q env s h =
    let (r, k, same) = serving-locked q env s h in
    let (e, a, host, n) =
      Chosen-Served (first_attempt q) env r
        (select_serving_locked-Chosen (first_attempt q) env r k) in
    (
      e,
      a,
      ap (λ (c : Selection). c.enclave.host) same ∙ host,
      ap (λ (c : Selection). c.enclave.inflight) same ∙ ap (λ (m : ℤ). m +ℤ pos 1) n,
    )

pub In-Empty :
    (q : Query) (env : Env) (e : Enclave) (a : Admissible q env e)
    → retrying q ≡ false
    → breaker_closed e ≡ true
    → ¬ Empty q env (tier_at q env.now e, a.pool)
In-Empty q env e a first closed empty = elim (placed q env e a first) [
  | inl (_, i) ↦ not-In_empty e _ empty i
  | inr (open_now, _) ↦ cc
]

last_resort-none :
    (q : Query) (env : Env)
    → last_resort q env ≡ none
    → (p : Pool) (e : Enclave) → ¬ In e (probes q env p)
unfolding last_resort
last_resort-none q env h p e i = go (probes q env primary_pool ++ probes q env spill_pool) refl h
  where
    joined : In e (probes q env primary_pool ++ probes q env spill_pool)
    joined = append-In e (probes q env primary_pool) (probes q env spill_pool) (side p i)
      where
        side :
            (r : Pool)
            → In e (probes q env r)
            → In e (probes q env primary_pool) ⊎ In e (probes q env spill_pool)
        side primary_pool j = inl j
        side spill_pool j = inr j

    go :
        (es : List Enclave)
        → probes q env primary_pool ++ probes q env spill_pool ≡ es
        → (elim es [ [] ↦ none | d ∷ _ ↦ some (plain d none) ]) ≡ none
        → ⊥
    go [] x k = not-In_empty e _ x joined
    go (d ∷ es) x k = absurd (ground arith)

locked-none :
    (q : Query) (env : Env)
    → select_serving_locked q env ≡ none
    → (first_some (round q env) rounds ≡ none) × (last_resort q env ≡ none)
unfolding select_serving_locked
locked-none q env h = ground arith

locked-none-Admissible :
    (q : Query) (env : Env) (e : Enclave)
    → retrying q ≡ false
    → select_serving_locked q env ≡ none
    → ¬ Admissible q env e
locked-none-Admissible q env e first h a =
    let (missed, left) = locked-none q env h in
    elim (placed q env e a first) [
      | inl (closed, i) ↦ not-In_empty e _ (all_missed q env missed (tier_at q env.now e) a.pool) i
      | inr (_, i) ↦ last_resort-none q env left a.pool e i
    ]

-- Nothing is selected exactly when no enclave is admissible in any of the caller's pools.
pub select_serving-none :
    (q : Query) (env : Env)
    → (select_serving q env ≡ none) ↔ ((e : Enclave) → ¬ Admissible (first_attempt q) env e)
unfolding select_serving
select_serving-none q env = elim (Option-cases (select_serving_locked (first_attempt q) env)) [
  | inl e ↦
      (λ h c a. locked-none-Admissible (first_attempt q) env c refl e a, λ nobody. ground arith)
  | inr (r, e) ↦ (
    λ h. absurd (ground arith),
    λ nobody.
        let (c, a, _, _) =
          Chosen-Served (first_attempt q) env r
            (select_serving_locked-Chosen (first_attempt q) env r e) in
        absurd (nobody c a),
  )
]

-- Releasing a reservation restores the count of requests in flight.
pub release_dispatch-reserve : (e : Enclave) → release_dispatch (reserve e) ≡ e
unfolding release_dispatch ◌+ℤ◌ ◌-ℤ◌
release_dispatch-reserve e = ground arith
