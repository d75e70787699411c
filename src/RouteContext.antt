-- ===== src/RouteContext.antt =====
-- route_context.go: the control plane's answers and what the router makes of them. The HTTP call
-- and the JSON decoding of `fetch` are not modelled; `jwt_subject` is a parameter.
pub mod Decisions
pub mod Tests
pub mod Cache
pub mod Priority
use confidential_model_route.Common.{
  ℕ, ◌-◌, ◌/◌, Bool, true, false, not, ◌&&◌, ◌||◌, Option, none, some, ◌∷◌, if◌then◌else◌, Text,
  text, text_eq, [],
}
use confidential_model_route.Json.{int, Fields, remove, assign}
use confidential_model_route.Common.Int.{ℤ, pos, ◌-ℤ◌, ltℤ, leℤ}

pub record Quota : Type 0 where
  pub limit : Option ℤ
  pub used : Option ℤ

pub record RateLimit : Type 0 where
  pub decision : Text
  pub reason : Text
  pub retry_after_seconds : Option ℤ
  pub requests : Option Quota
  pub tokens : Option Quota
  pub observed_at : ℕ

pub record RouteContext : Type 0 where
  pub priority : Option ℤ
  pub org_id : Text
  pub rate_limit : Option RateLimit
  pub unavailable : Bool
  pub refreshed_at : Option ℕ

abbrev pub empty_context : RouteContext
empty_context = record {
  priority = none;
  org_id = [];
  rate_limit = none;
  unavailable = false;
  refreshed_at = none;
}

pub record ApiError : Type 0 where
  pub status : ℕ
  pub kind : Text
  pub code : Text
  pub param : Text
  pub message : Text

pub record RouteContextError : Type 0 where
  pub api_error : ApiError
  pub retry_after : Text

abbrev pub decision_allowed : Text
decision_allowed = text "allowed"

abbrev pub decision_demote : Text
decision_demote = text "demote"

abbrev pub decision_rejected : Text
decision_rejected = text "rejected"

abbrev pub rate_reason_requests : Text
rate_reason_requests = text "requests"

abbrev pub rate_reason_tokens : Text
rate_reason_tokens = text "tokens"

abbrev pub nonnegative : Option ℤ → Bool
nonnegative none = false
nonnegative (some n) = leℤ (pos 0) n

abbrev pub positive : Option ℤ → Bool
positive none = false
positive (some n) = ltℤ (pos 0) n

pub quota_valid : Option Quota → Bool
quota_valid none = true
quota_valid (some q) = nonnegative q.limit && nonnegative q.used

abbrev pub is_blank : Text → Bool
is_blank [] = true
is_blank (c ∷ cs) = false

-- `routeRateLimit.valid`
pub rate_limit_valid : Option RateLimit → Bool
unfolding quota_valid
rate_limit_valid none = false
rate_limit_valid (some r) =
    if not (nonnegative r.retry_after_seconds)
      || not (quota_valid r.requests)
      || not (quota_valid r.tokens)
    then false
    else if not (is_blank r.reason)
        && not (text_eq r.reason rate_reason_requests)
        && not (text_eq r.reason rate_reason_tokens)
    then false
    else if text_eq r.decision decision_allowed
    then is_blank r.reason
    else if text_eq r.decision decision_demote
    then text_eq r.reason rate_reason_requests
    else if text_eq r.decision decision_rejected
    then not (is_blank r.reason) && positive r.retry_after_seconds
    else false

-- What is left of a cached decision at `now`; `none` outside is a nil dereference, `none` inside
-- that the decision no longer applies.
pub countdown : ℕ → RateLimit → Option (Option RateLimit)
countdown now d =
    if text_eq d.decision decision_rejected
    then (elim d.retry_after_seconds [
      | none ↦ none
      | some retry ↦
          let remaining = retry -ℤ pos ((now - d.observed_at) / 1_000_000_000) in
          if leℤ remaining (pos 0)
          then some none
          else some (some (record d { retry_after_seconds = some remaining }))
    ])
    else some (some d)

-- `applyRateDecision`: the retry hint of the error, in seconds, and whether tokens ran out; the
-- outer `none` admits.
pub apply_rate_decision : RateLimit → Option (Option ℤ × Bool)
apply_rate_decision d =
    if not (text_eq d.decision decision_rejected)
    then none
    else some (d.retry_after_seconds, text_eq d.reason rate_reason_tokens)

pub skips_queue : RouteContext → Bool
skips_queue r = elim r.priority [ none ↦ false | some p ↦ true ]

abbrev pub demoted_priority : ℤ
demoted_priority = pos 1

pub priority_path : Text → Bool
priority_path path =
    text_eq path (text "/v1/chat/completions")
    || text_eq path (text "/v1/completions")
    || text_eq path (text "/v1/responses")

abbrev pub priority_field : Text
priority_field = text "priority"

-- What `applyPriority` puts into the field, if anything.
pub priority_of : RouteContext → Option ℤ
priority_of r = elim r.priority [
  | some p ↦ some p
  | none ↦ elim r.rate_limit [
    | none ↦ none
    | some d ↦ if text_eq d.decision decision_demote then some demoted_priority else none
  ]
]

-- `applyPriority`, without its counters; a nil body is `none`.
pub apply_priority : RouteContext → Text → Option Fields → Option Fields
unfolding priority_path priority_of
apply_priority r path none = none
apply_priority r path (some body) =
    let stripped = remove priority_field body in
    if not (priority_path path) then some stripped else (elim (priority_of r) [
      | some p ↦ some (assign priority_field (int p) stripped)
      | none ↦ some stripped
    ])
