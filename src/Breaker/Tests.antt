-- ===== src/Breaker/Tests.antt =====
-- Runs of the circuit breaker: one thread claims a probe of an open breaker.
use confidential_model_route.Common.{
  ℕ, suc, ◌+◌, ◌≤◌, ◌<◌, ◌≡◌, refl, true, false, ◌&&◌, none, some, List, [], ◌∷◌, ◌++◌, arith, ◌==◌,
  if◌then◌else◌, length,
}
use confidential_model_route.Breaker.{
  opened, half_open, Breaker, new, u64, claim_probe, abort_probe, record_failure, state_eq,
  cas_state, retire, publish_if_active,
}
use confidential_model_route.Breaker.Threads.{
  access, run, start, step, enter, Action, call, run_access, failing, claiming, aborting, holding,
}
use confidential_model_route.Breaker.Threads.Claims.{
  granted-le-openings, tokens_distinct, opened_now, Falling,
}
use confidential_model_route.Breaker.Aborts.{Call, claim, fail, calls, abort_probe_owned}

abbrev tripped_breaker : Breaker
tripped_breaker = record {
  state = opened;
  consecutive_failures = 3;
  last_failure_nano = 5;
  probe_gen = 7;
  retired = false;
}

granted : (claim_probe 40_000_000_000 tripped_breaker).0 ≡ some 8
unfolding claim_probe cas_state
granted = refl

-- Three failures of thread 0, then a claim by thread 1.
abbrev failure_of : ℕ → List Action
failure_of t = call 0 failing ∷ run_access 0 t ∷ run_access 0 t ∷ run_access 0 t ∷ []

abbrev claim_of : ℕ → List Action
claim_of t =
    call 1 claiming ∷ run_access 1 t ∷ run_access 1 t ∷ run_access 1 t ∷ run_access 1 t ∷ []

abbrev history : List Action
history = failure_of 1 ++ failure_of 2 ++ failure_of 3 ++ claim_of 40_000_000_000

one_probe : (run history start).shared.granted ≡ 1
unfolding run step access enter cas_state
one_probe = refl

one_token : (run history start).shared.issued ≡ 1 ∷ []
unfolding run step access enter cas_state
one_token = refl

granted-le-openings_example :
    (run history start).shared.granted + opened_now (run history start).shared.state
    ≤ (run history start).shared.openings
granted-le-openings_example = granted-le-openings history

few : length (run history start).shared.issued < u64
few = rw one_token (omega arith)

tokens_distinct_example :
    ((run history start).shared.probe_gen ≡ length (run history start).shared.issued)
    × Falling (suc (run history start).shared.probe_gen) (run history start).shared.issued
tokens_distinct_example = tokens_distinct history few

-- Thread 1 holds the token 1 when the breaker has opened again. Thread 2 wins the next claim, and
-- before it counts the generation, thread 1 aborts: the breaker is open under the new probe.
abbrev superseded : List Action
superseded =
    history
    ++ failure_of 41_000_000_000
    ++ (call 2 claiming
        ∷ run_access 2 90_000_000_000
        ∷ run_access 2 90_000_000_000
        ∷ run_access 2 90_000_000_000
        ∷ call 1 aborting
        ∷ run_access 1 90_000_000_001
        ∷ run_access 1 90_000_000_001
        ∷ run_access 1 90_000_000_001
        ∷ run_access 1 90_000_000_001
        ∷ run_access 2 90_000_000_002
        ∷ [])

released_by_another :
    ((run superseded start).shared.state ≡ opened)
    × ((run superseded start).pcs 2 ≡ holding 2)
    × ((run superseded start).shared.last_failure_nano ≡ 90_000_000_001)
unfolding run step access enter cas_state
released_by_another = (refl, refl, refl)

-- Another probe was claimed in between: the first holder's abort is refused.
abbrev between : List Call
between = fail 41_000_000_000 ∷ claim 80_000_000_000 ∷ []

one_more : (calls between (claim_probe 40_000_000_000 tripped_breaker).1).0 ≡ 1
unfolding calls claim_probe cas_state record_failure
one_more = refl

abort_probe_owned_example :
    abort_probe 8 90_000_000_000 (calls between (claim_probe 40_000_000_000 tripped_breaker).1).1
    ≡ (if (calls between (claim_probe 40_000_000_000 tripped_breaker).1).0 == 0
          && state_eq
              (calls between (claim_probe 40_000_000_000 tripped_breaker).1).1.state
              half_open
        then (
          true,
          record (calls between (claim_probe 40_000_000_000 tripped_breaker).1).1 {
            state = opened;
            last_failure_nano = 90_000_000_000;
          },
        )
        else (false, (calls between (claim_probe 40_000_000_000 tripped_breaker).1).1))
abort_probe_owned_example =
    abort_probe_owned 40_000_000_000 90_000_000_000 tripped_breaker 8 between granted
      (rw one_more (omega arith))

retired_is_silent : publish_if_active (retire new) ≡ none
unfolding publish_if_active retire
retired_is_silent = refl
