-- ===== src/Breaker/Threads.antt =====
-- manager/circuitbreaker.go under concurrency: each method is split into its atomic loads, stores
-- and compare-and-swaps, and any number of threads take such steps in any order. The fields
-- `openings`, `granted` and `issued` are bookkeeping of the model: the stores that opened the
-- breaker when it was not open, the probe claims won, and the tokens handed out, newest first.
pub mod Claims
use confidential_model_route.Common.{
  ℕ, zero, suc, ◌+◌, ◌-◌, ◌*◌, ◌/◌, ◌%◌, ◌^◌, ◌≤◌, ◌<◌, min, max, String, ◌≡◌, refl, sym, ap, ◌∙◌,
  ◌≢◌, ◌↔◌, ◌⊎◌, inl, inr, Bool, true, false, not, ◌&&◌, ◌||◌, Option, none, some, List, [], ◌∷◌,
  ◌++◌, map, arith, ltb, leb, ◌==◌, if◌then◌else◌, ltb→lt, lt→ltb, leb→le, le→leb, ==_iff,
  Bool-cases, Option-cases, length, get_elem?, take, drop, length-append, length-take, filter, All,
  All-append, All-mono, In, In-All, keep, In-filter, filter-In, In-append, append-In, not-In_empty,
  if-either, Text, text, text_eq, has_host, map_at, map_put, text_lt, text_eq-eq, text_eq_refl,
  text_eq_iff, text_lt_irrefl, text_lt_trans, text_lt_total,
}
use confidential_model_route.Breaker.{
  closed, opened, half_open, Breaker, new, failure_threshold, cooldown, u64, state_eq, cas_state,
}

-- Where a thread stands: before the named access of its method.
pub data Pc : Type 0 where
  idle : Pc
  claim_load claim_since claim_cas claim_add : Pc
  holding : ℕ → Pc
  abort_gen abort_load abort_stamp abort_cas : ℕ → Pc
  success_reset success_close : Pc
  failure_stamp failure_add : Pc
  failure_open : ℕ → Pc

pub record Shared : Type 0 where
  pub cb : Breaker
  pub open cb use *
  pub openings : ℕ
  pub granted : ℕ
  pub issued : List ℕ

-- One atomic access of a thread at the time `now`.
unfoldable pub access : ℕ → Pc → Shared → Pc × Shared
access now idle s = (idle, s)
access now claim_load s = (if state_eq s.state opened then claim_since else idle, s)
access now claim_since s = (if ltb (now - s.last_failure_nano) cooldown then idle else claim_cas, s)
access now claim_cas s =
    let (won, cb') = cas_state opened half_open s.cb in
    if won then (claim_add, record s { cb = cb'; granted = s.granted + 1 }) else (idle, s)
access now claim_add s =
    let token = (s.probe_gen + 1) % u64 in
    (holding token, record s { cb = record s.cb { probe_gen = token }; issued = token ∷ s.issued })
access now (holding token) s = (holding token, s)
access now (abort_gen token) s = (if s.probe_gen == token then abort_load token else idle, s)
access now (abort_load token) s =
    (if state_eq s.state half_open then abort_stamp token else idle, s)
access now (abort_stamp token) s =
    (abort_cas token, record s { cb = record s.cb { last_failure_nano = now } })
access now (abort_cas token) s =
    let (won, cb') = cas_state half_open opened s.cb in
    (idle, if won then record s { cb = cb'; openings = s.openings + 1 } else s)
access now success_reset s =
    (success_close, record s { cb = record s.cb { consecutive_failures = 0 } })
access now success_close s = (idle, record s { cb = record s.cb { state = closed } })
access now failure_stamp s =
    (failure_add, record s { cb = record s.cb { last_failure_nano = now } })
access now failure_add s =
    let failures = s.consecutive_failures + 1 in
    (failure_open failures, record s { cb = record s.cb { consecutive_failures = failures } })
access now (failure_open failures) s = (
  idle,
  if leb failure_threshold failures
      then record s {
        cb = record s.cb { state = opened };
        openings = s.openings + (if state_eq s.state opened then 0 else 1);
      }
      else s,
)

pub data Method : Type 0 where
  claiming aborting succeeding failing : Method

-- A thread that is not inside a method enters one; only the holder of a token may abort with it.
unfoldable pub enter : Method → Pc → Pc
enter claiming idle = claim_load
enter succeeding idle = success_reset
enter failing idle = failure_stamp
enter aborting (holding token) = abort_gen token
enter succeeding (holding token) = success_reset
enter failing (holding token) = failure_stamp
enter m pc = pc

pub record System : Type 0 where
  pub shared : Shared
  pub pcs : ℕ → Pc

pub data Action : Type 0 where
  call : ℕ → Method → Action
  run_access : ℕ → ℕ → Action

abbrev pub set_pc : (ℕ → Pc) → ℕ → Pc → ℕ → Pc
set_pc pcs i pc j = if i == j then pc else pcs j

unfoldable pub step : Action → System → System
step (call i m) s = record s { pcs = set_pc s.pcs i (enter m (s.pcs i)) }
step (run_access i now) s =
    let (pc, shared') = access now (s.pcs i) s.shared in
    record { shared = shared'; pcs = set_pc s.pcs i pc }

unfoldable pub run : List Action → System → System
run [] s = s
run (a ∷ rest) s = run rest (step a s)

abbrev pub start : System
start = record {
  shared = record { cb = new; openings = 0; granted = 0; issued = [] };
  pcs = λ _. idle;
}
