-- ===== src/Overload.antt =====
-- config/config.go: `OverloadConfig` and its resolution; manager/metrics.go: `queueMarks`. A Go int
-- is an integer; a queue depth, which the source reads as an integral float64, is a number.
pub mod Marks
pub mod Tests
pub mod Hysteresis
use confidential_model_route.Common.{
  ℕ, Bool, true, false, ◌&&◌, ◌||◌, Option, none, some, if◌then◌else◌,
}
use confidential_model_route.Common.Int.{ℤ, pos, ltℤ, leℤ, half}

pub record OverloadConfig : Type 0 where
  pub max_requests_waiting : ℤ
  pub clear_requests_waiting : ℤ
  pub soft_max_requests_running : ℤ
  pub retry_after_minutes : ℤ

abbrev pub zero_config : OverloadConfig
zero_config = record {
  max_requests_waiting = pos 0;
  clear_requests_waiting = pos 0;
  soft_max_requests_running = pos 0;
  retry_after_minutes = pos 0;
}

-- A nil pointer is `none`.
abbrev pub enabled : Option OverloadConfig → Bool
enabled none = false
enabled (some c) = ltℤ (pos 0) c.max_requests_waiting || ltℤ (pos 0) c.soft_max_requests_running

pub record QueueMarks : Type 0 where
  pub trip : ℤ
  pub clear : ℤ

unfoldable pub marks : OverloadConfig → QueueMarks
marks c = record {
  trip = c.max_requests_waiting;
  clear =
      if leℤ c.clear_requests_waiting (pos 0) || leℤ c.max_requests_waiting c.clear_requests_waiting
      then half c.max_requests_waiting
      else c.clear_requests_waiting;
}

abbrev pub default_retry_after_minutes : ℤ
default_retry_after_minutes = pos 1

abbrev pub max_zero : ℤ → ℤ
max_zero n = if ltℤ (pos 0) n then n else pos 0

unfoldable pub normalized : Option OverloadConfig → OverloadConfig
unfolding marks
normalized none = zero_config
normalized (some c) =
    let soft = max_zero c.soft_max_requests_running in
    if ltℤ (pos 0) c.max_requests_waiting
    then record {
      max_requests_waiting = (marks c).trip;
      clear_requests_waiting = (marks c).clear;
      soft_max_requests_running = soft;
      retry_after_minutes =
          if leℤ c.retry_after_minutes (pos 0)
          then default_retry_after_minutes
          else c.retry_after_minutes;
    }
    else record zero_config { soft_max_requests_running = soft }

-- In minutes.
unfoldable pub retry_after : Option OverloadConfig → ℤ
unfolding normalized
retry_after c = (normalized c).retry_after_minutes

-- `queueMarks.overloaded`
unfoldable pub overloaded : QueueMarks → ℕ → Bool → Bool
overloaded q waiting previous =
    if leℤ q.trip (pos waiting) then true else previous && ltℤ q.clear (pos waiting)
