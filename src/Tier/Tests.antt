-- ===== src/Tier/Tests.antt =====
-- The tiers of an enclave with five waiting requests.
use confidential_model_route.Common.{◌≡◌, refl, true, false, none, some, []}
use confidential_model_route.Common.Int.{pos}
use confidential_model_route.Overload.{OverloadConfig}
use confidential_model_route.Metrics.{EnclaveMetrics, fresh, supports}

abbrev policy : OverloadConfig
policy = record {
  max_requests_waiting = pos 4;
  clear_requests_waiting = pos 1;
  soft_max_requests_running = pos 0;
  retry_after_minutes = pos 2;
}

abbrev loaded : EnclaveMetrics
loaded = record {
  native_policy = none;
  requires_running = false;
  latest_counts = record { waiting = 5; running = 0; has_waiting = true; has_running = false };
  latest_collected = some 10;
  queue_overloads = [];
  published = record { gauge = false; overload_events = 0; recovery_events = 0 };
}

is_fresh : fresh 20 loaded.latest_collected ≡ true
unfolding fresh
is_fresh = refl

is_complete : supports loaded.latest_counts (some policy) ≡ true
unfolding supports
is_complete = refl
