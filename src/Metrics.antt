-- ===== src/Metrics.antt =====
-- manager/metrics.go: the load samples of one enclave and the overload flags kept for each pair of
-- queue marks. The lock is held over each function, so each is one step. A missing timestamp
-- (`time.Time{}`) is `none`. The polling loop, the HTTP request and the log lines are left out;
-- `published` holds the overload gauge and its two event counters.
pub mod Events
pub mod Tests
pub mod Flags
use confidential_model_route.Common.{
  ℕ, ◌+◌, ◌-◌, Bool, true, false, not, ◌&&◌, ◌||◌, Option, none, some, List, ◌∷◌, leb,
  if◌then◌else◌, [],
}
use confidential_model_route.Common.Int.{ℤ, pos, ltℤ, leℤ}
use confidential_model_route.Overload.{OverloadConfig, QueueMarks, enabled, marks, overloaded}

pub record RequestCounts : Type 0 where
  pub waiting : ℕ
  pub running : ℕ
  pub has_waiting : Bool
  pub has_running : Bool

abbrev pub no_counts : RequestCounts
no_counts = record { waiting = 0; running = 0; has_waiting = false; has_running = false }

-- 15 seconds in nanoseconds
abbrev pub sample_staleness_limit : ℕ
sample_staleness_limit = 15_000_000_000

pub record Published : Type 0 where
  pub gauge : Bool
  pub overload_events : ℕ
  pub recovery_events : ℕ

abbrev pub FlagTable : Type 0
FlagTable = List (QueueMarks × Bool)

pub record EnclaveMetrics : Type 0 where
  pub native_policy : Option OverloadConfig
  pub requires_running : Bool
  pub latest_counts : RequestCounts
  pub latest_collected : Option ℕ
  pub queue_overloads : FlagTable
  pub published : Published

-- `cfg` of the source is never nil where this is called with effect.
abbrev pub soft_limit : Option OverloadConfig → ℤ
soft_limit none = pos 0
soft_limit (some c) = c.soft_max_requests_running

unfoldable pub supports : RequestCounts → Option OverloadConfig → Bool
supports s cfg = enabled cfg && s.has_waiting && (leℤ (soft_limit cfg) (pos 0) || s.has_running)

abbrev pub eqℤ : ℤ → ℤ → Bool
eqℤ a b = leℤ a b && leℤ b a

pub marks_eq : QueueMarks → QueueMarks → Bool
marks_eq p q = eqℤ p.trip q.trip && eqℤ p.clear q.clear

-- A missing key reads as false.
unfoldable pub flag_of : QueueMarks → FlagTable → Bool
flag_of q [] = false
flag_of q ((p, b) ∷ t) = if marks_eq p q then b else flag_of q t

pub put_flag : QueueMarks → Bool → FlagTable → FlagTable
put_flag q b [] = (q, b) ∷ []
put_flag q b ((p, c) ∷ t) = if marks_eq p q then (q, b) ∷ t else (p, c) ∷ put_flag q b t

pub queue_overloaded : Option OverloadConfig → FlagTable → Bool
unfolding flag_of marks
queue_overloaded none t = false
queue_overloaded (some c) t =
    if leℤ c.max_requests_waiting (pos 0) then false else flag_of (marks c) t

-- `publishOverloadLocked`
pub publish_overload : Bool → EnclaveMetrics → EnclaveMetrics
unfolding queue_overloaded
publish_overload was m =
    let now_on = queue_overloaded m.native_policy m.queue_overloads in
    record m {
      published = record {
        gauge = now_on;
        overload_events =
            if now_on && not was
            then m.published.overload_events + 1
            else m.published.overload_events;
        recovery_events =
            if not now_on && was
            then m.published.recovery_events + 1
            else m.published.recovery_events;
      };
    }

-- `!collected.IsZero() && time.Since(collected) <= sampleStalenessLimit`
unfoldable pub fresh : ℕ → Option ℕ → Bool
fresh now none = false
fresh now (some t) = leb (now - t) sample_staleness_limit

-- The state that one enabled policy with a trip mark carries over.
pub carried : ℕ → EnclaveMetrics → QueueMarks → Bool
unfolding fresh flag_of overloaded
carried now m q =
    let state = flag_of q m.queue_overloads in
    if m.latest_counts.has_waiting && fresh now m.latest_collected
    then overloaded q m.latest_counts.waiting state
    else state

-- The loop over the policies: whether any polls, whether running counts are needed, the states.
pub record Configured : Type 0 where
  pub poll : Bool
  pub needs_running : Bool
  pub states : FlagTable

pub configure_one : ℕ → EnclaveMetrics → Option OverloadConfig → Configured → Configured
unfolding carried put_flag marks
configure_one now m none acc = acc
configure_one now m (some c) acc = if not (enabled (some c)) then acc else record {
  poll = true;
  needs_running = acc.needs_running || ltℤ (pos 0) c.soft_max_requests_running;
  states =
      if ltℤ (pos 0) (marks c).trip
      then put_flag (marks c) (carried now m (marks c)) acc.states
      else acc.states;
}

pub configure_loop : ℕ → EnclaveMetrics → List (Option OverloadConfig) → Configured → Configured
unfolding configure_one
configure_loop now m [] acc = acc
configure_loop now m (p ∷ ps) acc = configure_loop now m ps (configure_one now m p acc)

pub configure_policies :
    ℕ
    → Option OverloadConfig
    → List (Option OverloadConfig)
    → EnclaveMetrics
    → EnclaveMetrics × Bool
unfolding configure_loop publish_overload
configure_policies now native policies m =
    let was = queue_overloaded m.native_policy m.queue_overloads in
    let c =
      configure_loop now m (native ∷ policies)
        (record { poll = false; needs_running = false; states = [] }) in
    (
      publish_overload was (record m {
        native_policy = native;
        requires_running = c.needs_running;
        latest_counts = if c.poll then m.latest_counts else no_counts;
        latest_collected = if c.poll then m.latest_collected else none;
        queue_overloads = c.states;
      }),
      c.poll,
    )

pub supports_sample : EnclaveMetrics → RequestCounts → Bool
supports_sample m counts = counts.has_waiting && (not m.requires_running || counts.has_running)

pub refresh_flags : ℕ → FlagTable → FlagTable
unfolding overloaded
refresh_flags w [] = []
refresh_flags w ((q, b) ∷ t) = (q, overloaded q w b) ∷ refresh_flags w t

pub update_latest : RequestCounts → ℕ → EnclaveMetrics → EnclaveMetrics
unfolding refresh_flags publish_overload
update_latest counts ts m =
    let was = queue_overloaded m.native_policy m.queue_overloads in
    publish_overload was (record m {
      latest_counts = counts;
      latest_collected = some ts;
      queue_overloads =
          if counts.has_waiting
          then refresh_flags counts.waiting m.queue_overloads
          else m.queue_overloads;
    })

-- `scrape` after the response was parsed
pub accept_sample : RequestCounts → ℕ → EnclaveMetrics → EnclaveMetrics
unfolding supports_sample update_latest
accept_sample counts ts m = if supports_sample m counts then update_latest counts ts m else m

-- One sample of a parsed metric family; the text parser is not this code.
pub data Value : Type 0 where
  count : ℕ → Value
  nan infinite negative : Value

pub data Sample : Type 0 where
  gauge untyped : Value → Sample
  other : Sample

-- The inner loop of `extractRequestCounts`: the sum and whether there was a sample.
pub sum_samples : List Sample → ℕ × Bool → Option (ℕ × Bool)
sum_samples [] acc = some acc
sum_samples (gauge (count n) ∷ rest) (total, present) = sum_samples rest (total + n, true)
sum_samples (untyped (count n) ∷ rest) (total, present) = sum_samples rest (total + n, true)
sum_samples (_ ∷ rest) acc = none

-- `none` is the error.
pub extract_request_counts : List Sample → List Sample → Option RequestCounts
unfolding sum_samples
extract_request_counts waiting running = elim (sum_samples waiting (0, false)) [
  | none ↦ none
  | some (w, has_w) ↦ elim (sum_samples running (0, false)) [
    | none ↦ none
    | some (r, has_r) ↦
        some (record { waiting = w; running = r; has_waiting = has_w; has_running = has_r })
  ]
]
