-- ===== src/Metrics/Events.antt =====
-- The overload counters agree with the gauge.
use confidential_model_route.Common.{
  ℕ, ◌+◌, ◌≡◌, inl, inr, Bool, true, false, Option, List, ◌∷◌, arith, Bool-cases, some,
  if◌then◌else◌, none, [],
}
use confidential_model_route.Overload.{OverloadConfig}
use confidential_model_route.Metrics.{
  EnclaveMetrics, RequestCounts, queue_overloaded, publish_overload, configure_policies,
  accept_sample, supports_sample, update_latest, configure_loop, no_counts, refresh_flags,
}

abbrev pub bit : Bool → ℕ
bit true = 1
bit false = 0

-- The gauge shows the native policy's flag, and every overload event but the one that still lasts
-- has its recovery event.
pub record IsBalanced (m : EnclaveMetrics) : Type 0 where
  pub shown : m.published.gauge ≡ queue_overloaded m.native_policy m.queue_overloads
  pub balance : m.published.overload_events ≡ m.published.recovery_events + bit m.published.gauge

pub data Call : Type 0 where
  configures : ℕ → Option OverloadConfig → List (Option OverloadConfig) → Call
  samples : RequestCounts → ℕ → Call

pub apply : Call → EnclaveMetrics → EnclaveMetrics
apply (configures now native policies) m = (configure_policies now native policies m).0
apply (samples counts ts) m = accept_sample counts ts m

publish-IsBalanced :
    (was : Bool) (m : EnclaveMetrics)
    → m.published.overload_events ≡ m.published.recovery_events + bit was
    → IsBalanced (publish_overload was m)
unfolding publish_overload
publish-IsBalanced was m e = ground arith

update-IsBalanced :
    (counts : RequestCounts) (ts : ℕ) (m : EnclaveMetrics)
    → IsBalanced m
    → IsBalanced (update_latest counts ts m)
unfolding update_latest
update-IsBalanced counts ts m v =
    publish-IsBalanced (queue_overloaded m.native_policy m.queue_overloads)
      (record m {
        latest_counts = counts;
        latest_collected = some ts;
        queue_overloads =
            if counts.has_waiting
            then refresh_flags counts.waiting m.queue_overloads
            else m.queue_overloads;
      })
      (rw (← v.shown) v.balance)

apply-IsBalanced : (c : Call) (m : EnclaveMetrics) → IsBalanced m → IsBalanced (apply c m)
unfolding apply configure_policies accept_sample
apply-IsBalanced (configures now native policies) m v =
    let was = queue_overloaded m.native_policy m.queue_overloads in
    let c =
      configure_loop now m (native ∷ policies)
        (record { poll = false; needs_running = false; states = [] }) in
    publish-IsBalanced was
      (record m {
        native_policy = native;
        requires_running = c.needs_running;
        latest_counts = if c.poll then m.latest_counts else no_counts;
        latest_collected = if c.poll then m.latest_collected else none;
        queue_overloads = c.states;
      })
      (rw (← v.shown) v.balance)
apply-IsBalanced (samples counts ts) m v = elim (Bool-cases (supports_sample m counts)) [
  | inl e ↦ rw e (update-IsBalanced counts ts m v)
  | inr e ↦ rw e v
]

pub run : List Call → EnclaveMetrics → EnclaveMetrics
run [] m = m
run (c ∷ cs) m = run cs (apply c m)

-- Whatever policies are configured and samples accepted, in any order, the overload gauge shows the
-- native policy's flag, and the overload events outnumber the recovery events by one while it is on
-- and are as many while it is off, if that was so before.
pub run-IsBalanced : (cs : List Call) (m : EnclaveMetrics) → IsBalanced m → IsBalanced (run cs m)
unfolding run
run-IsBalanced [] m v = v
run-IsBalanced (c ∷ cs) m v = run-IsBalanced cs (apply c m) (apply-IsBalanced c m v)
