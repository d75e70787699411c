-- ===== src/Overload/Hysteresis.antt =====
-- manager/metrics.go: the overload flag over a history of samples.
use confidential_model_route.Common.{
  ℕ, ◌≡◌, refl, ap, ◌↔◌, ◌⊎◌, inl, inr, Bool, true, false, List, ◌∷◌, ◌++◌, arith, All, [],
}
use confidential_model_route.Common.Int.{pos, ◌≤ℤ◌, ◌<ℤ◌}
use confidential_model_route.Overload.{QueueMarks, overloaded}

-- The flag after the samples of a list, oldest first.
unfoldable pub flag_after : QueueMarks → List ℕ → Bool → Bool
flag_after q [] flag = flag
flag_after q (w ∷ ws) flag = flag_after q ws (overloaded q w flag)

-- Some sample reached the trip mark, and no later one fell back to the clear mark.
abbrev pub Tripped : QueueMarks → List ℕ → Type 0
Tripped q ws =
    (before : List ℕ) × (w : ℕ) × (after : List ℕ) × (ws ≡ before ++ w ∷ after)
    × (q.trip ≤ℤ pos w)
    × All (λ v. q.clear <ℤ pos v) after

overloaded-cases :
    (q : QueueMarks) (w : ℕ) (flag : Bool)
    → overloaded q w flag ≡ true
    → (q.trip ≤ℤ pos w) ⊎ ((flag ≡ true) × (q.clear <ℤ pos w))
unfolding overloaded
overloaded-cases q w flag h = ground arith

raised :
    (q : QueueMarks) (ws : List ℕ) (flag : Bool)
    → flag_after q ws flag ≡ true
    → ((flag ≡ true) × All (λ v. q.clear <ℤ pos v) ws) ⊎ Tripped q ws
unfolding flag_after
raised q [] flag h = inl (h, tt)
raised q (w ∷ ws) flag h = elim (raised q ws (overloaded q w flag) h) [
  | inl (on, above) ↦ elim (overloaded-cases q w flag on) [
    | inl high ↦ inr ([], w, ws, refl, high, above)
    | inr (was, still) ↦ inl (was, (still, above))
  ]
  | inr (before, v, after, e, high, above) ↦ inr (w ∷ before, v, after, ap (◌∷◌ w) e, high, above)
]

held : (q : QueueMarks) (ws : List ℕ) → All (λ v. q.clear <ℤ pos v) ws → flag_after q ws true ≡ true
unfolding flag_after overloaded
held q [] h = refl
held q (w ∷ ws) h =
    let on : overloaded q w true ≡ true = ground arith in rw (on, flag_after) (held q ws h.1)

tripped :
    (q : QueueMarks) (before : List ℕ) (w : ℕ) (after : List ℕ) (flag : Bool)
    → q.trip ≤ℤ pos w
    → All (λ v. q.clear <ℤ pos v) after
    → flag_after q (before ++ w ∷ after) flag ≡ true
unfolding flag_after overloaded
tripped q [] w after flag high above =
    let on : overloaded q w flag ≡ true = ground arith in rw (on, flag_after) (held q after above)
tripped q (v ∷ before) w after flag high above =
    tripped q before w after (overloaded q v flag) high above

-- From a clear flag, the flag is raised after exactly the histories in which some sample reached
-- the trip mark and every later sample stayed above the clear mark.
pub flag_after_iff : (q : QueueMarks) (ws : List ℕ) → (flag_after q ws false ≡ true) ↔ Tripped q ws
flag_after_iff q ws = (up, down)
  where
    up : flag_after q ws false ≡ true → Tripped q ws
    up h = elim (raised q ws false h) [ inl (e, _) ↦ cc | inr t ↦ t ]

    down : Tripped q ws → flag_after q ws false ≡ true
    down (before, w, after, e, high, above) = rw e (tripped q before w after false high above)
