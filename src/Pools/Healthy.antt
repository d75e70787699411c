-- ===== src/Pools/Healthy.antt =====
-- A model that counts as healthy can be served.
use confidential_model_route.Common.{
  ℕ, ◌≡◌, refl, ◌≢◌, ◌⊎◌, inl, inr, true, false, ◌&&◌, ◌||◌, Option, none, List, [], ◌∷◌, arith,
  Bool-cases, In, Text, has_host,
}
use confidential_model_route.Selection.{
  Enclave, Query, Env, primary_pool, spill_pool, attestation_valid, breaker_closed, allowed_in,
  members, select_serving, is_empty,
}
use confidential_model_route.Selection.Dispatch.{select_serving-none}
use confidential_model_route.Pools.{has_healthy_enclave}

-- The enclave that is found.
healthy-In :
    (now : ℕ) (primary : Option (List Text)) (spill : List Text) (es : List Enclave)
    → has_healthy_enclave now primary spill es ≡ true
    → (e : Enclave) × In e es
      × ((allowed_in primary e.host ≡ true) ⊎ (has_host spill e.host ≡ true))
      × (attestation_valid now e ≡ true)
unfolding has_healthy_enclave
healthy-In now primary spill [] h = cc
healthy-In now primary spill (e ∷ es) h =
    elim (Bool-cases (
      (allowed_in primary e.host || has_host spill e.host)
      && attestation_valid now e
      && breaker_closed e)) [
        | inl ok ↦ (e, inl refl, ground (arith, ok), ground (arith, ok))
        | inr miss ↦
            let (f, i, allowed, valid) =
              healthy-In now primary spill es (ground (arith, miss, h)) in
            (f, inr i, allowed, valid)
      ]

nonempty-has_host : (s : List Text) (h : Text) → has_host s h ≡ true → is_empty s ≡ false
unfolding has_host
nonempty-has_host [] h e = cc
nonempty-has_host (k ∷ s) h e = refl

-- If the automatic choice finds a healthy enclave in the caller's pools, a first attempt with these
-- pools selects an enclave, whatever the policy, the load and the order of preference are, where the
-- loops of the selection range over the enclaves that the automatic choice ranged over, in any
-- order of their own.
pub has_healthy_enclave-serves :
    (q : Query) (env : Env) (enclaves : List Enclave)
    → ((e : Enclave) → In e enclaves → In e (env.iteration primary_pool))
    → ((e : Enclave) → In e enclaves → In e (env.iteration spill_pool))
    → has_healthy_enclave env.now q.primary q.spill enclaves ≡ true
    → select_serving q env ≢ none
unfolding members
has_healthy_enclave-serves q env enclaves p s h unserved =
    let (e, i, where_allowed, valid) = healthy-In env.now q.primary q.spill enclaves h in
    (select_serving-none q env).0 unserved e (elim where_allowed [
      | inl ok ↦ record {
        pool = primary_pool;
        member = p e i;
        allowed = ok;
        attested = valid;
        other_host = λ x. cc;
      }
      | inr ok ↦ record {
        pool = spill_pool;
        member = rw (nonempty-has_host q.spill e.host ok) (s e i);
        allowed = ok;
        attested = valid;
        other_host = λ x. cc;
      }
    ])
