-- ===== src/Metrics/Tests.antt =====
-- An enclave whose queue passes the limit and drains again.
use confidential_model_route.Common.{ℕ, ◌≡◌, refl, true, false, none, some, [], ◌∷◌}
use confidential_model_route.Common.Int.{pos}
use confidential_model_route.Overload.{OverloadConfig, QueueMarks}
use confidential_model_route.Metrics.{
  EnclaveMetrics, RequestCounts, no_counts, queue_overloaded, marks_eq, sum_samples,
  extract_request_counts, count, gauge, untyped,
}
use confidential_model_route.Metrics.Events.{configures, samples, run, IsBalanced, run-IsBalanced}
use confidential_model_route.Metrics.Flags.{tracked}

abbrev policy : OverloadConfig
policy = record {
  max_requests_waiting = pos 4;
  clear_requests_waiting = pos 1;
  soft_max_requests_running = pos 0;
  retry_after_minutes = pos 2;
}

abbrev q : QueueMarks
q = record { trip = pos 4; clear = pos 1 }

abbrev idle : EnclaveMetrics
idle = record {
  native_policy = none;
  requires_running = false;
  latest_counts = no_counts;
  latest_collected = none;
  queue_overloads = [];
  published = record { gauge = false; overload_events = 0; recovery_events = 0 };
}

abbrev polled : EnclaveMetrics
polled = record idle { native_policy = some policy; queue_overloads = (q, false) ∷ [] }

abbrev depth : ℕ → RequestCounts
depth n = record { waiting = n; running = 0; has_waiting = true; has_running = false }

idle-IsBalanced : IsBalanced idle
unfolding queue_overloaded
idle-IsBalanced = record { shown = refl; balance = refl }

run-IsBalanced_example :
    IsBalanced
      (run (configures 1 (some policy) [] ∷ samples (depth 5) 2 ∷ samples (depth 1) 3 ∷ []) idle)
run-IsBalanced_example =
    run-IsBalanced (configures 1 (some policy) [] ∷ samples (depth 5) 2 ∷ samples (depth 1) 3 ∷ [])
      idle idle-IsBalanced

polled-tracked : tracked q polled.queue_overloads ≡ true
unfolding tracked marks_eq
polled-tracked = refl

sums_engines :
    extract_request_counts (gauge (count 2) ∷ untyped (count 3) ∷ []) []
    ≡ some (record { waiting = 5; running = 0; has_waiting = true; has_running = false })
unfolding extract_request_counts sum_samples
sums_engines = refl
