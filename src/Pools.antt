-- ===== src/Pools.antt =====
-- manager/manager.go: the pool of replicas that the cache-aware ranking sees, and the test that the
-- automatic choice of a model makes. The enclaves of the Go map come in the order in which it is
-- ranged over, which may differ between the two loops.
pub mod Healthy
pub mod Tests
use confidential_model_route.Common.{
  ℕ, Bool, true, false, not, ◌&&◌, Option, none, some, List, ◌∷◌, if◌then◌else◌, length, Text,
  has_host, [],
}
use confidential_model_route.Selection.{Enclave, attestation_valid, breaker_closed, allowed_in}
use confidential_model_route.Hrw.{Candidate}

pub record Pool : Type 0 where
  pub size : ℕ
  pub candidates : List Candidate

abbrev pub candidate_of : Enclave → Candidate
candidate_of e = record { host = e.host; in_flight = e.inflight }

abbrev pub may_rank : ℕ → Option (List Text) → Enclave → Bool
may_rank now allowed e = attestation_valid now e && allowed_in allowed e.host

-- The two loops of `CacheRoutePoolIn`.
pub closed_candidates : ℕ → Option (List Text) → List Enclave → List Candidate
closed_candidates now allowed [] = []
closed_candidates now allowed (e ∷ es) =
    let rest = closed_candidates now allowed es in
    if may_rank now allowed e && breaker_closed e then candidate_of e ∷ rest else rest

pub all_candidates : ℕ → Option (List Text) → List Enclave → List Candidate
all_candidates now allowed [] = []
all_candidates now allowed (e ∷ es) =
    let rest = all_candidates now allowed es in
    if may_rank now allowed e then candidate_of e ∷ rest else rest

-- `CacheRoutePoolIn`; `CacheRoutePool` is the case of no restriction.
pub cache_route_pool_in : ℕ → ℕ → Option (List Text) → List Enclave → List Enclave → Pool
unfolding closed_candidates all_candidates
cache_route_pool_in now expected_hosts allowed enclaves again = record {
  size = elim allowed [ none ↦ expected_hosts | some hosts ↦ length hosts ];
  candidates = elim (closed_candidates now allowed enclaves) [
    | [] ↦ all_candidates now allowed again
    | c ∷ cs ↦ c ∷ cs
  ];
}

-- `HasHealthyEnclave`
pub has_healthy_enclave : ℕ → Option (List Text) → List Text → List Enclave → Bool
has_healthy_enclave now primary spill [] = false
has_healthy_enclave now primary spill (e ∷ es) =
    let rest = has_healthy_enclave now primary spill es in
    if not (allowed_in primary e.host) && not (has_host spill e.host)
    then rest
    else if attestation_valid now e && breaker_closed e
    then true
    else rest
