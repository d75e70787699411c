-- ===== src/Breaker/Laws.antt =====
-- manager/circuitbreaker.go: the closed, open, half-open machine over whole method calls.
use confidential_model_route.Common.{
  ℕ, ◌+◌, ◌%◌, ◌≤◌, ◌<◌, ◌≡◌, refl, ◌≢◌, ◌⊎◌, none, some, List, ◌∷◌, arith, ltb, length, true,
  false, if◌then◌else◌, [],
}
use confidential_model_route.Breaker.{
  opened, half_open, Breaker, failure_threshold, cooldown, u64, record_success, record_failure,
  is_closed, claim_probe, abort_probe,
}

-- Failures reported at the times of a list, oldest first.
pub failures_at : List ℕ → Breaker → Breaker
failures_at [] cb = cb
failures_at (t ∷ ts) cb = failures_at ts (record_failure t cb)

is_closed-failures_from :
    (ts : List ℕ) (cb : Breaker)
    → is_closed cb ≡ ltb cb.consecutive_failures failure_threshold
    → is_closed (failures_at ts cb) ≡ ltb (cb.consecutive_failures + length ts) failure_threshold
unfolding failures_at is_closed record_failure
is_closed-failures_from [] cb h = ground arith
is_closed-failures_from (t ∷ ts) cb h =
    ground (arith, is_closed-failures_from ts (record_failure t cb))

-- From any breaker, after a success and then any number of failures and nothing else, the breaker
-- is closed exactly while there were fewer than three of them.
pub trips_at_threshold :
    (ts : List ℕ) (cb : Breaker)
    → is_closed (failures_at ts (record_success cb)) ≡ ltb (length ts) failure_threshold
unfolding record_success is_closed
trips_at_threshold ts cb = ground (arith, is_closed-failures_from ts (record_success cb) refl)

-- A claim is granted exactly when the breaker is open and the cooldown has passed since the last
-- failure; it moves the breaker to half-open under the next token and leaves all else. A refused
-- claim changes nothing.
pub claim_probe_exact :
    (now : ℕ) (cb : Breaker)
    → ((cb.state ≡ opened)
        × (cb.last_failure_nano + cooldown ≤ now)
        × (claim_probe now cb ≡ (
          some ((cb.probe_gen + 1) % u64),
          record cb { state = half_open; probe_gen = (cb.probe_gen + 1) % u64 },
        )))
      ⊎ (((cb.state ≢ opened) ⊎ (now < cb.last_failure_nano + cooldown))
          × (claim_probe now cb ≡ (none, cb)))
unfolding claim_probe
claim_probe_exact now cb = ground arith

-- An abort is granted exactly to the current token of a half-open breaker: it reopens the breaker,
-- restarts its cooldown, and leaves all else. A refused abort changes nothing.
pub abort_probe_exact :
    (token now : ℕ) (cb : Breaker)
    → ((cb.state ≡ half_open)
        × (cb.probe_gen ≡ token)
        × (abort_probe token now cb
            ≡ (true, record cb { state = opened; last_failure_nano = now })))
      ⊎ (((cb.state ≢ half_open) ⊎ (cb.probe_gen ≢ token))
          × (abort_probe token now cb ≡ (false, cb)))
unfolding abort_probe
abort_probe_exact token now cb = ground arith

-- A probe that was claimed and then aborted at `later` leaves the breaker open, and the next claim
-- is granted exactly from `later + cooldown` on, under a token that differs.
pub claim_after_abort :
    (now later again : ℕ) (cb : Breaker) (token : ℕ)
    → cb.probe_gen < u64
    → (claim_probe now cb).0 ≡ some token
    → let aborted = abort_probe token later (claim_probe now cb).1 in
      (aborted.0 ≡ true)
      × ((claim_probe again aborted.1).0
          ≡ (if ltb again (later + cooldown) then none else some ((token + 1) % u64)))
      × (token ≢ (token + 1) % u64)
unfolding claim_probe abort_probe
claim_after_abort now later again cb token h e = ground arith
