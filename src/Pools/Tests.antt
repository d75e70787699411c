-- ===== src/Pools/Tests.antt =====
-- Two enclaves, one of which no longer attests; the two loops meet them in different orders.
use confidential_model_route.Common.{
  ◌≡◌, refl, ◌≢◌, inl, inr, true, false, none, some, List, [], ◌∷◌, In, text_eq, has_host,
}
use confidential_model_route.Common.Int.{pos}
use confidential_model_route.Selection.{
  Enclave, Query, Env, attestation_valid, breaker_closed, select_serving, primary_pool, spill_pool,
}
use confidential_model_route.Pools.{
  closed_candidates, all_candidates, cache_route_pool_in, has_healthy_enclave,
}
use confidential_model_route.Pools.Healthy.{has_healthy_enclave-serves}

abbrev stale : Enclave
stale = record { host = 97 ∷ []; expires_at = some 50; cb = none; metrics = none; inflight = pos 0 }

abbrev attested : Enclave
attested = record stale { host = 98 ∷ []; expires_at = some 200; inflight = pos 2 }

abbrev enclaves : List Enclave
enclaves = stale ∷ attested ∷ []

pool_of_attested :
    cache_route_pool_in 100 3 none enclaves enclaves
    ≡ record { size = 3; candidates = record { host = 98 ∷ []; in_flight = pos 2 } ∷ [] }
unfolding cache_route_pool_in closed_candidates all_candidates attestation_valid breaker_closed
pool_of_attested = refl

swapped : (e : Enclave) → In e enclaves → In e (attested ∷ stale ∷ [])
swapped e (inl p) = inr (inl p)
swapped e (inr (inl p)) = inl p
swapped e (inr (inr q)) = absurd q

abbrev query : Query
query = record {
  order = [];
  claim_probes = false;
  primary = some ((97 ∷ []) ∷ []);
  spill = (98 ∷ []) ∷ [];
  policy = none;
  excluded_host = [];
}

abbrev env : Env
env = record {
  now = 100;
  iteration = λ p. elim p [ primary_pool ↦ enclaves | spill_pool ↦ attested ∷ stale ∷ [] ];
  draw = λ _. 0;
  max_inflight_delta = none;
}

is_healthy : has_healthy_enclave 100 query.primary query.spill enclaves ≡ true
unfolding has_healthy_enclave has_host attestation_valid breaker_closed text_eq
is_healthy = refl

has_healthy_enclave-serves_example : select_serving query env ≢ none
has_healthy_enclave-serves_example =
    has_healthy_enclave-serves query env enclaves (λ e i. i) swapped is_healthy
