-- ===== src/Breaker/Threads/Claims.antt =====
-- Probe claims stay exclusive, and their tokens distinct, under every interleaving.
use confidential_model_route.Common.{
  ℕ, suc, ◌+◌, ◌≤◌, ◌<◌, ◌≡◌, refl, List, [], ◌∷◌, arith, if◌then◌else◌, length,
}
use confidential_model_route.Breaker.{State, opened, u64, state_eq, cas_state}
use confidential_model_route.Breaker.Threads.{
  Pc, claim_add, Shared, access, System, Action, call, run_access, step, run, start,
}

-- Falling along the list, from below a bound.
abbrev pub Falling : ℕ → List ℕ → Type 0
Falling n [] = Unit {0}
Falling n (t ∷ ts) = (t < n) × Falling t ts

abbrev pub opened_now : State → ℕ
opened_now st = if state_eq st opened then 1 else 0

-- Each claim used up one opening, and the tokens count the claims that returned.
pub record Inv (s : Shared) : Type 0 where
  pub exclusive : s.granted + opened_now s.state ≤ s.openings
  pub counted : length s.issued < u64 → s.probe_gen ≡ length s.issued
  pub distinct : length s.issued < u64 → Falling (suc (length s.issued)) s.issued

Falling-mono : {m n : ℕ} (ts : List ℕ) → m ≤ n → Falling m ts → Falling n ts
Falling-mono [] h f = tt
Falling-mono (t ∷ ts) h f = (omega arith, f.1)

access-Inv : (now : ℕ) (pc : Pc) (s : Shared) → Inv s → Inv (access now pc s).1
unfolding access cas_state
access-Inv now claim_add s v = record {
  exclusive = v.exclusive;
  counted = λ h. omega (arith, v.counted (omega arith));
  distinct = λ h. (
    omega (arith, v.counted (omega arith)),
    Falling-mono _ (omega (arith, v.counted (omega arith))) (v.distinct (omega arith)),
  );
}
access-Inv now pc s v = record {
  exclusive = ground (arith, v.exclusive);
  counted = λ h. ground (arith, v.counted);
  distinct = λ h. ground (arith, v.distinct);
}

step-Inv : (a : Action) (s : System) → Inv s.shared → Inv (step a s).shared
unfolding step
step-Inv (call i m) s v = v
step-Inv (run_access i now) s v = access-Inv now (s.pcs i) s.shared v

run-Inv : (acts : List Action) (s : System) → Inv s.shared → Inv (run acts s).shared
unfolding run
run-Inv [] s v = v
run-Inv (a ∷ rest) s v = run-Inv rest (step a s) (step-Inv a s v)

start-Inv : Inv start.shared
start-Inv = record { exclusive = omega arith; counted = λ h. refl; distinct = λ h. tt }

-- Whatever the threads do and however their atomic accesses interleave, no more probes are claimed
-- than the breaker was opened, and one fewer while it is open: each opening lets one probe through.
-- A store of the open state counts as an opening where the breaker was not open.
pub granted-le-openings :
    (acts : List Action)
    → let s = (run acts start).shared in s.granted + opened_now s.state ≤ s.openings
granted-le-openings acts = (run-Inv acts start start-Inv).exclusive

-- Under every interleaving, the tokens handed out fall from the current generation on, so that no
-- two claims hold the same token, as long as fewer than 2^64 were handed out.
pub tokens_distinct :
    (acts : List Action)
    → length (run acts start).shared.issued < u64
    → ((run acts start).shared.probe_gen ≡ length (run acts start).shared.issued)
      × Falling (suc (run acts start).shared.probe_gen) (run acts start).shared.issued
tokens_distinct acts h =
    let v = run-Inv acts start start-Inv in (v.counted h, rw (v.counted h) (v.distinct h))
