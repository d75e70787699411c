-- ===== src/Tier/Meaning.antt =====
-- What the tiers mean.
use confidential_model_route.Common.{ℕ, ◌≡◌, ◌↔◌, ◌⊎◌, true, false, Option, none, some, arith}
use confidential_model_route.Common.Int.{pos, ◌<ℤ◌}
use confidential_model_route.Overload.{OverloadConfig, enabled, marks, overloaded}
use confidential_model_route.Metrics.{EnclaveMetrics, fresh, supports, flag_of}
use confidential_model_route.Tier.{preferred, unknown, over, tier}

-- Under an enabled policy, and with a fresh sample that has the counts the policy needs, the tier
-- is overloaded exactly when the trip mark is positive and the flag for the policy's marks, brought
-- up to date by the sample, is raised; the queue depth is the sample's.
pub tier_over_exact :
    (now : ℕ) (c : OverloadConfig) (m : EnclaveMetrics)
    → enabled (some c) ≡ true
    → fresh now m.latest_collected ≡ true
    → supports m.latest_counts (some c) ≡ true
    → ((tier now (some c) m).0 ≡ over) ↔ (
        (pos 0 <ℤ (marks c).trip)
        × (overloaded (marks c) m.latest_counts.waiting (flag_of (marks c) m.queue_overloads)
            ≡ true))
unfolding tier
tier_over_exact now c m e f s = ground arith

-- A disabled policy prefers every enclave; an enabled one knows nothing of an enclave whose sample
-- is missing, older than fifteen seconds, or without a count that the policy needs.
pub tier_without_sample :
    (now : ℕ) (policy : Option OverloadConfig) (m : EnclaveMetrics)
    → ((enabled policy ≡ false) × ((tier now policy m).0 ≡ preferred))
      ⊎ ((enabled policy ≡ true)
          × (((tier now policy m).0 ≡ unknown) ↔ (
              (fresh now m.latest_collected ≡ false) ⊎ (supports m.latest_counts policy ≡ false))))
unfolding tier
tier_without_sample now none m = ground arith
tier_without_sample now (some c) m = ground arith
