-- ===== src/Overload/Marks.antt =====
-- What a resolved overload policy promises.
use confidential_model_route.Common.{◌≡◌, ◌⊎◌, Option, none, some, arith}
use confidential_model_route.Common.Int.{pos, ◌≤ℤ◌, ◌<ℤ◌}
use confidential_model_route.Overload.{OverloadConfig, marks, normalized, enabled, retry_after}

-- With a positive trip mark the clear mark lies from 0 up to but not including the trip mark.
pub marks_in_range :
    (c : OverloadConfig)
    → pos 0 <ℤ c.max_requests_waiting
    → (pos 0 ≤ℤ (marks c).clear) × ((marks c).clear <ℤ (marks c).trip)
unfolding marks
marks_in_range c h = ground arith

-- Resolving a policy twice is resolving it once, and whether it is enabled does not change.
pub normalized_idem :
    (c : Option OverloadConfig)
    → (normalized (some (normalized c)) ≡ normalized c)
      × (enabled (some (normalized c)) ≡ enabled c)
unfolding normalized
normalized_idem none = ground arith
normalized_idem (some c) = ground arith

-- A policy with a waiting limit asks for a retry after at least one minute; any other after none.
pub retry_after_exact :
    (c : OverloadConfig)
    → ((pos 0 <ℤ c.max_requests_waiting) × (pos 1 ≤ℤ retry_after (some c)))
      ⊎ ((c.max_requests_waiting ≤ℤ pos 0) × (retry_after (some c) ≡ pos 0))
unfolding retry_after
retry_after_exact c = ground arith
