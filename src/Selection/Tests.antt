-- ===== src/Selection/Tests.antt =====
-- Two enclaves: "a" with five waiting requests, over the limit, and "b" with none.
use confidential_model_route.Common.{
  has_host, ℕ, ◌≤◌, ◌≡◌, refl, ◌≢◌, ◌↔◌, inl, inr, true, false, none, some, List, ◌∷◌, text_eq, [],
}
use confidential_model_route.Common.Int.{pos, ◌+ℤ◌}
use confidential_model_route.Overload.{OverloadConfig, marks, overloaded, normalized, retry_after}
use confidential_model_route.Metrics.{EnclaveMetrics, fresh, supports, flag_of}
use confidential_model_route.Tier.{over, tier, loaded_tier}
use confidential_model_route.Selection.{
  Enclave, Pool, primary_pool, spill_pool, Query, Env, Selection, reserve, tier_at, waiting_at,
  attestation_valid, breaker_closed, claim_probe_at, classify, members, probes, candidates,
  first_claim, least_of, drawn, with_host, preferred_of, pick_tier, from_bucket, round, first_some,
  last_resort, select_serving_locked, select_serving, select_retry,
}
use confidential_model_route.Selection.Safety.{Admissible}
use confidential_model_route.Selection.Order.{tier_rank}
use confidential_model_route.Selection.Dispatch.{
  first_attempt, select_serving-Admissible, select_serving-none,
}
use confidential_model_route.Selection.Tiers.{overloaded_only_if_all, select_serving_least_tier}
use confidential_model_route.Selection.Retry.{retry_of, select_retry_safe}

abbrev policy : OverloadConfig
policy = record {
  max_requests_waiting = pos 4;
  clear_requests_waiting = pos 1;
  soft_max_requests_running = pos 0;
  retry_after_minutes = pos 2;
}

abbrev with_waiting : ℕ → EnclaveMetrics
with_waiting n = record {
  native_policy = none;
  requires_running = false;
  latest_counts = record { waiting = n; running = 0; has_waiting = true; has_running = false };
  latest_collected = some 90;
  queue_overloads = [];
  published = record { gauge = false; overload_events = 0; recovery_events = 0 };
}

abbrev a : Enclave
a = record {
  host = 97 ∷ [];
  expires_at = some 200;
  cb = none;
  metrics = some (with_waiting 5);
  inflight = pos 0;
}

abbrev b : Enclave
b = record a { host = 98 ∷ []; metrics = some (with_waiting 0); inflight = pos 3 }

abbrev query : Query
query = record {
  order = [];
  claim_probes = true;
  primary = none;
  spill = [];
  policy = some policy;
  excluded_host = [];
}

abbrev listed : List Enclave → Pool → List Enclave
listed es primary_pool = es
listed es spill_pool = []

abbrev env_of : List Enclave → Env
env_of es = record { now = 100; iteration = listed es; draw = λ _. 0; max_inflight_delta = none }

abbrev both : Env
both = env_of (a ∷ b ∷ [])

abbrev only_a : Env
only_a = env_of (a ∷ [])

abbrev chosen : Selection
chosen = record {
  enclave = reserve b;
  claim = none;
  overloaded = false;
  retry_after = pos 0;
  waiting = 0;
}

abbrev crowded : Selection
crowded = record {
  enclave = reserve a;
  claim = none;
  overloaded = true;
  retry_after = pos 2;
  waiting = 5;
}

b_chosen : select_serving query both ≡ some chosen
unfolding select_serving select_serving_locked round first_some last_resort from_bucket pick_tier
    preferred_of with_host drawn least_of candidates probes members classify tier_at waiting_at
    breaker_closed attestation_valid has_host tier loaded_tier marks overloaded flag_of fresh
    supports text_eq retry_after normalized first_claim claim_probe_at
b_chosen = refl

a_chosen : select_serving query only_a ≡ some crowded
unfolding select_serving select_serving_locked round first_some last_resort from_bucket pick_tier
    preferred_of with_host drawn least_of candidates probes members classify tier_at waiting_at
    breaker_closed attestation_valid has_host tier loaded_tier marks overloaded flag_of fresh
    supports text_eq retry_after normalized first_claim claim_probe_at
a_chosen = refl

b_retried : select_retry (97 ∷ []) query both ≡ some (reserve b)
unfolding select_retry select_serving_locked round first_some last_resort from_bucket pick_tier
    preferred_of with_host drawn least_of candidates probes members classify tier_at waiting_at
    breaker_closed attestation_valid has_host tier loaded_tier marks overloaded flag_of fresh
    supports text_eq retry_after normalized first_claim claim_probe_at
b_retried = refl

a-Admissible : Admissible (first_attempt query) only_a a
unfolding members attestation_valid
a-Admissible = record {
  pool = primary_pool;
  member = inl refl;
  allowed = refl;
  attested = refl;
  other_host = λ e. cc;
}

b-Admissible : Admissible (first_attempt query) both b
unfolding members attestation_valid
b-Admissible = record {
  pool = primary_pool;
  member = inr (inl refl);
  allowed = refl;
  attested = refl;
  other_host = λ e. cc;
}

a_closed : breaker_closed a ≡ true
unfolding breaker_closed
a_closed = refl

b_closed : breaker_closed b ≡ true
unfolding breaker_closed
b_closed = refl

select_serving-Admissible_example :
    (e : Enclave) × Admissible (first_attempt query) both e
    × (chosen.enclave.host ≡ e.host)
    × (chosen.enclave.inflight ≡ e.inflight +ℤ pos 1)
select_serving-Admissible_example = select_serving-Admissible query both chosen b_chosen

select_serving-none_example :
    (select_serving query both ≡ none) ↔ ((e : Enclave) → ¬ Admissible (first_attempt query) both e)
select_serving-none_example = select_serving-none query both

overloaded_only_if_all_example : tier_at (first_attempt query) 100 a ≡ over
overloaded_only_if_all_example =
    overloaded_only_if_all query only_a crowded a a_chosen refl a-Admissible a_closed

select_serving_least_tier_example :
    (breaker_closed (reserve b) ≡ true)
    × (tier_rank (tier_at (first_attempt query) 100 (reserve b))
        ≤ tier_rank (tier_at (first_attempt query) 100 b))
select_serving_least_tier_example =
    select_serving_least_tier query both chosen b b_chosen refl b-Admissible b_closed

select_retry_safe_example :
    (e : Enclave) × (reserve b ≡ reserve e)
    × Admissible (retry_of (97 ∷ []) query) both e
    × (e.host ≢ 97 ∷ [])
    × (breaker_closed e ≡ true)
    × (tier_rank (tier_at (retry_of (97 ∷ []) query) 100 e) ≤ 1)
select_retry_safe_example = select_retry_safe (97 ∷ []) query both (reserve b) (λ e. cc) b_retried
