-- ===== src/Breaker.antt =====
-- manager/circuitbreaker.go: the circuit breaker of one enclave, one function per method, each
-- taken as one atomic step (Breaker/Threads.antt splits the methods into their atomic accesses).
-- `now` is `time.Now().UnixNano()`; times and the failure counter do not wrap, the probe
-- generation is a uint64.
pub mod Laws
pub mod Aborts
pub mod Threads
pub mod Tests
use confidential_model_route.Common.{
  ℕ, ◌+◌, ◌-◌, ◌%◌, ◌^◌, Bool, true, false, not, ◌||◌, Option, none, some, ltb, leb, ◌==◌,
  if◌then◌else◌,
}

-- cbClosed, cbOpen, cbHalfOpen
pub data State : Type 0 where
  closed opened half_open : State

abbrev pub failure_threshold : ℕ
failure_threshold = 3

-- 30 seconds in nanoseconds
abbrev pub cooldown : ℕ
cooldown = 30_000_000_000

abbrev pub u64 : ℕ
u64 = 2 ^ 64

pub record Breaker : Type 0 where
  pub state : State
  pub consecutive_failures : ℕ
  pub last_failure_nano : ℕ
  pub probe_gen : ℕ
  pub retired : Bool

abbrev pub new : Breaker
new = record {
  state = closed;
  consecutive_failures = 0;
  last_failure_nano = 0;
  probe_gen = 0;
  retired = false;
}

abbrev pub state_eq : State → State → Bool
state_eq closed closed = true
state_eq opened opened = true
state_eq half_open half_open = true
state_eq _ _ = false

-- casState: compares the state with `old` and stores `next` on success
pub cas_state : State → State → Breaker → Bool × Breaker
cas_state old next cb =
    if state_eq cb.state old then (true, record cb { state = next }) else (false, cb)

pub record_success : Breaker → Breaker
record_success cb = record cb { consecutive_failures = 0; state = closed }

pub record_failure : ℕ → Breaker → Breaker
record_failure now cb =
    let failures = cb.consecutive_failures + 1 in
    record cb {
      last_failure_nano = now;
      consecutive_failures = failures;
      state = if leb failure_threshold failures then opened else cb.state;
    }

pub is_closed : Breaker → Bool
is_closed cb = state_eq cb.state closed

-- `time.Since(last) < cbCooldown`, also for a `last` in the future
pub claim_probe : ℕ → Breaker → Option ℕ × Breaker
unfolding cas_state
claim_probe now cb =
    if not (state_eq cb.state opened)
    then (none, cb)
    else if ltb (now - cb.last_failure_nano) cooldown
    then (none, cb)
    else (let (won, cb') = cas_state opened half_open cb in
        if not won
        then (none, cb')
        else (let token = (cb'.probe_gen + 1) % u64 in
            (some token, record cb' { probe_gen = token })))

pub abort_probe : ℕ → ℕ → Breaker → Bool × Breaker
unfolding cas_state
abort_probe token now cb =
    if not (cb.probe_gen == token) || not (state_eq cb.state half_open)
    then (false, cb)
    else cas_state half_open opened (record cb { last_failure_nano = now })

pub retire : Breaker → Breaker
retire cb = record cb { retired = true }

-- What `publish` is called with, if it is called.
pub publish_if_active : Breaker → Option State
publish_if_active cb = if cb.retired then none else some cb.state
