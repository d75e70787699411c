-- ===== src/Tier.antt =====
-- manager/routing_tiers.go: the routing tier of an enclave's load under the caller's policy.
pub mod Meaning
pub mod Tests
use confidential_model_route.Common.{
  ℕ, Bool, true, false, not, ◌&&◌, ◌||◌, Option, none, some, ◌==◌, if◌then◌else◌,
}
use confidential_model_route.Common.Int.{pos, ltℤ, leℤ}
use confidential_model_route.Overload.{OverloadConfig, enabled, marks, overloaded}
use confidential_model_route.Metrics.{EnclaveMetrics, supports, fresh, flag_of}

-- tierPreferred, tierBusy, tierUnknown, tierOverloaded
pub data Tier : Type 0 where
  preferred busy unknown over : Tier

abbrev pub tier_eq : Tier → Tier → Bool
tier_eq preferred preferred = true
tier_eq busy busy = true
tier_eq unknown unknown = true
tier_eq over over = true
tier_eq _ _ = false

-- The tests of `tier` on a fresh sample that the policy `c` can judge.
unfoldable pub loaded_tier : OverloadConfig → EnclaveMetrics → Tier
loaded_tier c m =
    let counts = m.latest_counts in
    let q = marks c in
    if ltℤ (pos 0) q.trip && overloaded q counts.waiting (flag_of q m.queue_overloads)
    then over
    else if counts.waiting == 0
        && (leℤ c.soft_max_requests_running (pos 0)
            || ltℤ (pos counts.running) c.soft_max_requests_running)
    then preferred
    else busy

-- `enclaveMetrics.tier`, with the queue depth that the client is told.
unfoldable pub tier : ℕ → Option OverloadConfig → EnclaveMetrics → Tier × ℕ
unfolding loaded_tier
tier now none m = (preferred, 0)
tier now (some c) m =
    if not (enabled (some c))
    then (preferred, 0)
    else if not (fresh now m.latest_collected) || not (supports m.latest_counts (some c))
    then (unknown, m.latest_counts.waiting)
    else (loaded_tier c m, m.latest_counts.waiting)
