-- ===== src/Breaker/Aborts.antt =====
-- manager/circuitbreaker.go: who may abort a probe, over whole method calls.
use confidential_model_route.Common.{
  ℕ, ◌+◌, ◌%◌, ◌<◌, ◌≡◌, refl, ◌∙◌, ◌⊎◌, inl, inr, true, false, ◌&&◌, none, some, List, [], ◌∷◌,
  arith, ◌==◌, if◌then◌else◌, Bool-cases,
}
use confidential_model_route.Breaker.{
  half_open, opened, Breaker, u64, state_eq, record_success, record_failure, claim_probe,
  abort_probe, cas_state,
}

-- A call of a method at a time
pub data Call : Type 0 where
  claim fail : ℕ → Call
  succeed : Call
  abort : ℕ → ℕ → Call

-- The claims that are granted in a list of calls, and the breaker after them.
unfoldable pub calls : List Call → Breaker → ℕ × Breaker
unfolding claim_probe record_failure record_success abort_probe
calls [] cb = (0, cb)
calls (claim now ∷ rest) cb =
    let (token, cb') = claim_probe now cb in
    let (n, last) = calls rest cb' in ((elim token [ none ↦ 0 | some t ↦ 1 ]) + n, last)
calls (fail now ∷ rest) cb = calls rest (record_failure now cb)
calls (succeed ∷ rest) cb = calls rest (record_success cb)
calls (abort token now ∷ rest) cb = calls rest (abort_probe token now cb).1

-- The generation counts the granted claims, up to 2^64.
abbrev Counts : List Call → Breaker → Type 0
Counts cs cb =
    (cb.probe_gen < u64) → (calls cs cb).1.probe_gen ≡ (cb.probe_gen + (calls cs cb).0) % u64

granted_or_not :
    (now : ℕ) (cb : Breaker)
    → ((claim_probe now cb).0 ≡ none × ((claim_probe now cb).1 ≡ cb))
      ⊎ (((claim_probe now cb).0 ≡ some ((cb.probe_gen + 1) % u64))
          × ((claim_probe now cb).1.probe_gen ≡ (cb.probe_gen + 1) % u64))
unfolding claim_probe cas_state
granted_or_not now cb = ground arith

abort-gen : (token now : ℕ) (cb : Breaker) → (abort_probe token now cb).1.probe_gen ≡ cb.probe_gen
unfolding abort_probe cas_state
abort-gen token now cb = ground arith

calls-Counts : (cs : List Call) (cb : Breaker) → Counts cs cb
unfolding calls record_failure record_success
calls-Counts [] cb l = omega arith
calls-Counts (claim now ∷ rest) cb l = elim (granted_or_not now cb) [
  | inl (e, same) ↦ rw (e, same) (omega (arith, calls-Counts rest cb l))
  | inr (e, gen) ↦
      let ih = calls-Counts rest (claim_probe now cb).1 (omega (arith, gen)) in
      rw e (omega (arith, ih, gen))
]
calls-Counts (fail now ∷ rest) cb l = calls-Counts rest (record_failure now cb) l
calls-Counts (succeed ∷ rest) cb l = calls-Counts rest (record_success cb) l
calls-Counts (abort token now ∷ rest) cb l =
    let e = abort-gen token now cb in
    let ih = calls-Counts rest (abort_probe token now cb).1 (rw e l) in ih ∙ rw e refl

claimed-gen :
    (now : ℕ) (cb : Breaker) (token : ℕ)
    → (claim_probe now cb).0 ≡ some token
    → ((claim_probe now cb).1.probe_gen ≡ token) × (token < u64)
unfolding claim_probe cas_state
claimed-gen now cb token h = ground (arith, h)

same_token :
    (token n g : ℕ) → token < u64 → n < u64 → g ≡ (token + n) % u64 → (g == token) ≡ (n == 0)
same_token token n g l few e = elim (Bool-cases (n == 0)) [
  | inl z ↦ ground (arith, z, e, l)
  | inr z ↦ ground (arith, z, e, l, few)
]

abort_of :
    (token later n : ℕ) (c : Breaker)
    → token < u64
    → n < u64
    → c.probe_gen ≡ (token + n) % u64
    → abort_probe token later c ≡ (
        if n == 0 && state_eq c.state half_open
        then (true, record c { state = opened; last_failure_nano = later })
        else (false, c))
unfolding abort_probe cas_state
abort_of token later n c l few e = rw (same_token token n c.probe_gen l few e) (ground arith)

-- A probe is claimed, and any method calls follow: claims, aborts with any tokens, successes and
-- failures, fewer than 2^64 of the claims granted. Then the abort with the probe's token is granted
-- exactly if none of these claims was granted and the breaker is half-open: it reopens the breaker
-- and restarts its cooldown, and leaves all else. Otherwise it changes nothing, so that a superseded
-- holder does not release the probe of another. Each method is one step here.
pub abort_probe_owned :
    (now later : ℕ) (cb : Breaker) (token : ℕ) (cs : List Call)
    → (claim_probe now cb).0 ≡ some token
    → (calls cs (claim_probe now cb).1).0 < u64
    → let (n, c) = calls cs (claim_probe now cb).1 in
      abort_probe token later c ≡ (
        if n == 0 && state_eq c.state half_open
        then (true, record c { state = opened; last_failure_nano = later })
        else (false, c))
abort_probe_owned now later cb token cs h few =
    let (gen, l) = claimed-gen now cb token h in
    let e = calls-Counts cs (claim_probe now cb).1 (rw gen l) in
    let m : (calls cs (claim_probe now cb).1).1.probe_gen
        ≡ (token + (calls cs (claim_probe now cb).1).0) % u64 =
      e ∙ rw gen refl in
    abort_of token later _ (calls cs (claim_probe now cb).1).1 l few m
