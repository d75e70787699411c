-- ===== src/Selection.antt =====
-- manager/routing_tiers.go: the choice of an enclave for a request. The Go map of enclaves is
-- ranged over once for each pool: `iteration` gives the order of each pass, and `draw` stands for
-- `rand.IntN`. Every `time.Now()` of one selection is the same `now`. The prometheus counters are
-- left out.
pub mod Loops
pub mod Tests
pub mod Safety
pub mod Order
pub mod Dispatch
pub mod Tiers
pub mod Retry
use confidential_model_route.Common.{
  ℕ, zero, suc, Bool, true, false, not, ◌&&◌, ◌||◌, Option, none, some, List, ◌∷◌, ◌++◌, ltb,
  if◌then◌else◌, length, filter, Text, text_eq, has_host, [],
}
use confidential_model_route.Common.Int.{ℤ, pos, ◌+ℤ◌, ◌-ℤ◌, ltℤ, leℤ}
use confidential_model_route.Breaker.{Breaker, is_closed, claim_probe}
use confidential_model_route.Overload.{OverloadConfig, retry_after}
use confidential_model_route.Metrics.{EnclaveMetrics}
use confidential_model_route.Tier.{Tier, preferred, busy, unknown, over, tier, tier_eq}

-- A nil breaker, nil metrics and an attestation that is not tracked are `none`.
pub record Enclave : Type 0 where
  pub host : Text
  pub expires_at : Option ℕ
  pub cb : Option Breaker
  pub metrics : Option EnclaveMetrics
  pub inflight : ℤ

-- A Go map from hosts to true.
abbrev pub HostSet : Type 0
HostSet = List Text

-- `attestationValid`
unfoldable pub attestation_valid : ℕ → Enclave → Bool
attestation_valid now e = elim e.expires_at [ none ↦ true | some t ↦ ltb now t ]

unfoldable pub breaker_closed : Enclave → Bool
breaker_closed e = elim e.cb [ none ↦ true | some cb ↦ is_closed cb ]

-- `Enclave.claimProbe`: the token and the enclave with its breaker half-open.
pub claim_probe_at : ℕ → Enclave → Option (ℕ × Enclave)
claim_probe_at now e = elim e.cb [
  | none ↦ none
  | some cb ↦
      let (claimed, cb') = claim_probe now cb in
      elim claimed [ none ↦ none | some token ↦ some (token, record e { cb = some cb' }) ]
]

pub data Pool : Type 0 where
  primary_pool spill_pool : Pool

-- The arguments of `selectServingLocked`; a nil map of hosts for `primary` is `none`, and
-- `excluded_host` is empty on a first attempt.
pub record Query : Type 0 where
  pub order : List Text
  pub claim_probes : Bool
  pub primary : Option HostSet
  pub spill : HostSet
  pub policy : Option OverloadConfig
  pub excluded_host : Text

pub record Env : Type 0 where
  pub now : ℕ
  pub iteration : Pool → List Enclave
  pub draw : ℕ → ℕ
  pub max_inflight_delta : Option ℤ

pub record Selection : Type 0 where
  pub enclave : Enclave
  pub claim : Option ℕ
  pub overloaded : Bool
  pub retry_after : ℤ
  pub waiting : ℕ

abbrev pub is_empty {ℓ} : {A : Type ℓ} → List A → Bool
is_empty [] = true
is_empty (x ∷ xs) = false

-- Where the loop over a pool puts an enclave.
pub data Class : Type 0 where
  skipped probe : Class
  bucket : Tier → Class

pub tier_at : Query → ℕ → Enclave → Tier
tier_at q now e = elim e.metrics [ none ↦ unknown | some m ↦ (tier now q.policy m).0 ]

pub waiting_at : Query → ℕ → Enclave → ℕ
waiting_at q now e = elim e.metrics [ none ↦ 0 | some m ↦ (tier now q.policy m).1 ]

abbrev pub allowed_in : Option HostSet → Text → Bool
allowed_in none h = true
allowed_in (some s) h = has_host s h

abbrev pub pool_hosts : Query → Pool → Option HostSet
pool_hosts q primary_pool = q.primary
pool_hosts q spill_pool = some q.spill

-- `excludedHost != ""`
abbrev pub retrying : Query → Bool
retrying q = not (is_empty q.excluded_host)

-- The body of the loop: the guards in their order.
pub classify : Query → ℕ → Pool → Enclave → Class
classify q now p e =
    if (retrying q && text_eq e.host q.excluded_host)
      || not (allowed_in (pool_hosts q p) e.host)
      || not (attestation_valid now e)
    then skipped
    else if not (breaker_closed e)
    then (if retrying q then skipped else probe)
    else if retrying q && tier_eq (tier_at q now e) unknown
    then skipped
    else bucket (tier_at q now e)

-- The spill pool is there only if it has hosts.
unfoldable pub members : Query → Env → Pool → List Enclave
members q env primary_pool = env.iteration primary_pool
members q env spill_pool = if is_empty q.spill then [] else env.iteration spill_pool

abbrev pub is_probe : Class → Bool
is_probe probe = true
is_probe _ = false

abbrev pub in_bucket : Tier → Class → Bool
in_bucket t (bucket s) = tier_eq s t
in_bucket t _ = false

-- What the passes leave in `probes[pool]` and `buckets[tier][pool]`.
pub probes : Query → Env → Pool → List Enclave
probes q env p = filter (λ e. is_probe (classify q env.now p e)) (members q env p)

pub candidates : Query → Env → Tier → Pool → List Enclave
candidates q env t p = filter (λ e. in_bucket t (classify q env.now p e)) (members q env p)

pub first_claim : ℕ → List Enclave → Option (ℕ × Enclave)
first_claim now [] = none
first_claim now (e ∷ es) = elim (claim_probe_at now e) [
  | none ↦ first_claim now es
  | some c ↦ some c
]

-- The loop that finds the fewest requests in flight.
pub least_of : Enclave → List Enclave → Enclave
least_of least [] = least
least_of least (e ∷ es) = least_of (if ltℤ e.inflight least.inflight then e else least) es

-- `candidates[i]`; the first for an index out of range, which `rand.IntN` does not draw.
pub drawn : Enclave → List Enclave → ℕ → Enclave
drawn d [] i = d
drawn d (e ∷ es) zero = e
drawn d (e ∷ es) (suc i) = drawn d es i

pub with_host : Text → List Enclave → Option Enclave
with_host h [] = none
with_host h (e ∷ es) = if text_eq e.host h then some e else with_host h es

-- The loops over `order` and the candidates.
pub preferred_of : Option ℤ → Enclave → List Text → List Enclave → Option Enclave
unfolding with_host
preferred_of delta least [] es = none
preferred_of delta least (h ∷ hs) es = elim (with_host h es) [
  | none ↦ preferred_of delta least hs es
  | some e ↦ elim delta [
    | none ↦ some e
    | some cap ↦
        if leℤ (pos 0) cap && ltℤ cap (e.inflight -ℤ least.inflight) then some least else some e
  ]
]

-- `pickTierLocked` for the candidates `e ∷ es`
pub pick_tier : Query → Env → Enclave → List Enclave → Enclave
unfolding least_of drawn preferred_of
pick_tier q env e es =
    let fallback = drawn e (e ∷ es) (env.draw (length (e ∷ es))) in
    let least = least_of fallback (e ∷ es) in
    elim (preferred_of env.max_inflight_delta least q.order (e ∷ es)) [
      | none ↦ fallback
      | some chosen ↦ chosen
    ]

pub from_bucket : Query → Env → Tier → List Enclave → Option Selection
unfolding pick_tier
from_bucket q env t [] = none
from_bucket q env t (e ∷ es) =
    let chosen = pick_tier q env e es in
    some (record {
      enclave = chosen;
      claim = none;
      overloaded = tier_eq t over;
      retry_after = if tier_eq t over then retry_after q.policy else pos 0;
      waiting = waiting_at q env.now chosen;
    })

abbrev pub plain : Enclave → Option ℕ → Selection
plain e claim = record {
  enclave = e;
  claim = claim;
  overloaded = false;
  retry_after = pos 0;
  waiting = 0;
}

-- One round of the loop over tiers and pools; `none` goes on.
pub round : Query → Env → Tier × Pool → Option Selection
unfolding first_claim
round q env (t, p) =
    let pick = from_bucket q env t (candidates q env t p) in
    if tier_eq t preferred && q.claim_probes
    then (elim (first_claim env.now (probes q env p)) [
      | none ↦ pick
      | some (token, e) ↦ some (plain e (some token))
    ])
    else pick

abbrev pub rounds : List (Tier × Pool)
rounds =
    (preferred, primary_pool)
    ∷ (preferred, spill_pool)
    ∷ (busy, primary_pool)
    ∷ (busy, spill_pool)
    ∷ (unknown, primary_pool)
    ∷ (unknown, spill_pool)
    ∷ (over, primary_pool)
    ∷ (over, spill_pool)
    ∷ []

pub first_some {ℓ κ} : {A : Type ℓ} {B : Type κ} → (A → Option B) → List A → Option B
first_some f [] = none
first_some f (x ∷ xs) = elim (f x) [ none ↦ first_some f xs | some b ↦ some b ]

-- `degraded[0]`, if there is one
pub last_resort : Query → Env → Option Selection
unfolding probes
last_resort q env = elim (probes q env primary_pool ++ probes q env spill_pool) [
  | [] ↦ none
  | e ∷ es ↦ some (plain e none)
]

pub select_serving_locked : Query → Env → Option Selection
unfolding round first_some last_resort
select_serving_locked q env = elim (first_some (round q env) rounds) [
  | some s ↦ some s
  | none ↦ last_resort q env
]

-- `SelectServing` with the empty excluded host, and `SelectRetry`; the reservation is the enclave
-- with one more request in flight.
abbrev pub reserve : Enclave → Enclave
reserve e = record e { inflight = e.inflight +ℤ pos 1 }

pub select_serving : Query → Env → Option Selection
select_serving q env = elim (select_serving_locked (record q { excluded_host = [] }) env) [
  | none ↦ none
  | some s ↦ some (record s { enclave = reserve s.enclave })
]

pub select_retry : Text → Query → Env → Option Enclave
select_retry failed q env =
    elim (select_serving_locked (record q { claim_probes = false; excluded_host = failed }) env) [
      | none ↦ none
      | some s ↦ if s.overloaded then none else some (reserve s.enclave)
    ]

-- `ReleaseDispatch`
pub release_dispatch : Enclave → Enclave
release_dispatch e = record e { inflight = e.inflight -ℤ pos 1 }
