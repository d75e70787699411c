-- ===== src/Selection/Safety.antt =====
-- manager/routing_tiers.go: what the guards of the selection loop let through.
use confidential_model_route.Common.{
  ℕ, ◌≡◌, ◌≢◌, ◌⊎◌, inl, inr, true, false, ◌&&◌, some, arith, Bool-cases, In, In-filter, filter-In,
  text_eq, text_eq_iff,
}
use confidential_model_route.Tier.{Tier, unknown, tier_eq}
use confidential_model_route.Selection.{
  Enclave, Query, Env, Pool, classify, members, probes, candidates, attestation_valid,
  breaker_closed, allowed_in, pool_hosts, retrying, is_probe, in_bucket, tier_at, claim_probe_at,
}

-- An enclave of one of the caller's pools, allowed there, with unexpired attestation, and not the
-- host that failed.
pub record Admissible (q : Query) (env : Env) (e : Enclave) : Type 0 where
  pub pool : Pool
  pub member : In e (members q env pool)
  pub allowed : allowed_in (pool_hosts q pool) e.host ≡ true
  pub attested : attestation_valid env.now e ≡ true
  pub other_host : retrying q ≡ true → e.host ≢ q.excluded_host

-- What the loop's guards let through.
abbrev Passed : Query → Env → Pool → Enclave → Type 0
Passed q env p e =
    (allowed_in (pool_hosts q p) e.host ≡ true)
    × (attestation_valid env.now e ≡ true)
    × ((retrying q && text_eq e.host q.excluded_host) ≡ false)

tier_eq_refl : (t : Tier) → tier_eq t t ≡ true
tier_eq_refl t = ground arith

tier_eq-eq : (t u : Tier) → tier_eq t u ≡ true → t ≡ u
tier_eq-eq t u h = ground arith

probe-Passed :
    (q : Query) (env : Env) (p : Pool) (e : Enclave)
    → is_probe (classify q env.now p e) ≡ true
    → Passed q env p e × (breaker_closed e ≡ false) × (retrying q ≡ false)
unfolding classify
probe-Passed q env p e h = ground arith

bucket-Passed :
    (q : Query) (env : Env) (t : Tier) (p : Pool) (e : Enclave)
    → in_bucket t (classify q env.now p e) ≡ true
    → Passed q env p e
      × (breaker_closed e ≡ true)
      × (tier_at q env.now e ≡ t)
      × (retrying q ≡ true → t ≢ unknown)
unfolding classify
bucket-Passed q env t p e h = ground (arith, tier_eq-eq (tier_at q env.now e) t)

Passed-Admissible :
    (q : Query) (env : Env) (p : Pool) (e : Enclave)
    → In e (members q env p)
    → Passed q env p e
    → Admissible q env e
Passed-Admissible q env p e i (ok, valid, other) = record {
  pool = p;
  member = i;
  allowed = ok;
  attested = valid;
  other_host = λ r same. ground (arith, text_eq_iff e.host q.excluded_host);
}

pub In-probes :
    (q : Query) (env : Env) (p : Pool) (e : Enclave)
    → In e (probes q env p)
    → Admissible q env e × (breaker_closed e ≡ false) × (retrying q ≡ false)
unfolding probes
In-probes q env p e i =
    let (m, h) = In-filter (λ c. is_probe (classify q env.now p c)) e (members q env p) i in
    let f = probe-Passed q env p e h in (Passed-Admissible q env p e m f.0, f.1, f.2)

pub In-candidates :
    (q : Query) (env : Env) (t : Tier) (p : Pool) (e : Enclave)
    → In e (candidates q env t p)
    → Admissible q env e
      × (breaker_closed e ≡ true)
      × (tier_at q env.now e ≡ t)
      × (retrying q ≡ true → t ≢ unknown)
unfolding candidates
In-candidates q env t p e i =
    let (m, h) = In-filter (λ c. in_bucket t (classify q env.now p c)) e (members q env p) i in
    let f = bucket-Passed q env t p e h in (Passed-Admissible q env p e m f.0, f.1, f.2, f.3)

-- An admissible enclave of a first attempt is a probe or a candidate of its tier.
pub placed :
    (q : Query) (env : Env) (e : Enclave) (a : Admissible q env e)
    → retrying q ≡ false
    → ((breaker_closed e ≡ true) × In e (candidates q env (tier_at q env.now e) a.pool))
      ⊎ ((breaker_closed e ≡ false) × In e (probes q env a.pool))
unfolding candidates probes classify
placed q env e a first = elim (Bool-cases (breaker_closed e)) [
  | inl closed ↦ inl (
    closed,
    filter-In _ e _ a.member
        (ground (arith, a.allowed, a.attested, tier_eq_refl (tier_at q env.now e))),
  )
  | inr not_closed ↦
      inr (not_closed, filter-In _ e _ a.member (ground (arith, a.allowed, a.attested)))
]

pub claimed_host :
    (now : ℕ) (e c : Enclave) (token : ℕ)
    → claim_probe_at now e ≡ some (token, c)
    → (c.host ≡ e.host) × (c.inflight ≡ e.inflight)
unfolding claim_probe_at
claimed_host now e c token h = ground arith
