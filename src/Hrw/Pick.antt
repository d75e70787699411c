-- ===== src/Hrw/Pick.antt =====
-- The load cap of `cappedPick` and the size of the warm set.
use mathlib.Core.Path.{subst}
use confidential_model_route.Common.{
  ℕ, ◌≤◌, max, ◌≡◌, refl, ◌↔◌, ◌⊎◌, inl, inr, true, false, ◌&&◌, Option, none, some, List, ◌∷◌,
  arith, if◌then◌else◌, Bool-cases, Option-cases, take, All, [],
}
use confidential_model_route.Common.Int.{ℤ, pos, ◌+ℤ◌, ltℤ, leℤ, +ℤ_parts}
use confidential_model_route.Hrw.{
  Candidate, replication_factor, least_loaded, min_in_flight, best_within, capped_pick,
}

min_in_flight-le : (m : ℤ) (cs : List Candidate) → leℤ (min_in_flight m cs) m ≡ true
unfolding min_in_flight
min_in_flight-le m [] = ground arith
min_in_flight-le m (c ∷ cs) = elim (Bool-cases (ltℤ c.in_flight m)) [
  | inl e ↦ rw e (ground (arith, min_in_flight-le c.in_flight cs))
  | inr e ↦ rw e (min_in_flight-le m cs)
]

least_loaded-min :
    (b : Candidate) (cs : List Candidate)
    → (least_loaded b cs).in_flight ≡ min_in_flight b.in_flight cs
unfolding least_loaded min_in_flight
least_loaded-min b [] = refl
least_loaded-min b (c ∷ cs) = ground (arith, least_loaded-min c cs, least_loaded-min b cs)

-- What `best_within` returns is within the limit, if its start is.
abbrev Within : ℤ → Option Candidate → Type 0
Within limit none = Unit {0}
Within limit (some b) = leℤ b.in_flight limit ≡ true

abbrev best_step : ℤ → Option Candidate → Candidate → Option Candidate
best_step limit best c =
    if leℤ c.in_flight limit && (elim best [ none ↦ true | some b ↦ ltℤ c.in_flight b.in_flight ])
    then some c
    else best

best_step-Within :
    (limit : ℤ) (best : Option Candidate) (c : Candidate)
    → Within limit best
    → Within limit (best_step limit best c)
best_step-Within limit none c h = ground arith
best_step-Within limit (some b) c h = ground arith

best_within-Within :
    (limit : ℤ) (cs : List Candidate) (best : Option Candidate)
    → Within limit best
    → Within limit (best_within limit best cs)
unfolding best_within
best_within-Within limit [] best h = h
best_within-Within limit (c ∷ cs) best h =
    best_within-Within limit cs (best_step limit best c) (best_step-Within limit best c h)

best_within-none :
    (limit : ℤ) (cs : List Candidate) (best : Option Candidate)
    → best_within limit best cs ≡ none
    → best ≡ none × All (λ c. leℤ c.in_flight limit ≡ false) cs
unfolding best_within
best_within-none limit [] best e = (e, tt)
best_within-none limit (c ∷ cs) none e =
    let rest = best_within-none limit cs (best_step limit none c) e in ground arith
best_within-none limit (c ∷ cs) (some b) e =
    let rest = best_within-none limit cs (best_step limit (some b) c) e in ground arith

best_within-over :
    (limit : ℤ) (cs : List Candidate)
    → All (λ c. leℤ c.in_flight limit ≡ false) cs
    → best_within limit none cs ≡ none
unfolding best_within
best_within-over limit [] h = refl
best_within-over limit (c ∷ cs) h = rw h.0 (best_within-over limit cs h.1)

abbrev limit_of : Candidate → List Candidate → ℤ → ℤ
limit_of c cs delta = min_in_flight c.in_flight cs +ℤ delta

capped_pick-cases :
    (c : Candidate) (cs : List Candidate) (r : ℕ) (delta : ℤ)
    → ltℤ delta (pos 0) ≡ false
    → (best_within (limit_of c cs delta) none (take r (c ∷ cs)) ≡ none
        × capped_pick c cs r delta ≡ (least_loaded c cs, true))
      ⊎ ((b : Candidate) × best_within (limit_of c cs delta) none (take r (c ∷ cs)) ≡ some b
          × capped_pick c cs r delta ≡ (b, false))
unfolding capped_pick
capped_pick-cases c cs r delta h =
    elim (Option-cases (best_within (limit_of c cs delta) none (take r (c ∷ cs)))) [
      | inl e ↦ inl (e, rw (h, e) refl)
      | inr (b, e) ↦ inr (b, e, rw (h, e) refl)
    ]

-- With a load cap (delta ≥ 0) the pick is never over the limit, which is the least load of the
-- whole pool plus delta, and it is demoted exactly if each of the key's `r` replicas is over it.
pub capped_pick_lem :
    (c : Candidate) (cs : List Candidate) (r : ℕ) (delta : ℤ)
    → ltℤ delta (pos 0) ≡ false
    → (leℤ (capped_pick c cs r delta).0.in_flight (min_in_flight c.in_flight cs +ℤ delta) ≡ true)
      × ((capped_pick c cs r delta).1 ≡ true
          ↔ All
              (λ d. leℤ d.in_flight (min_in_flight c.in_flight cs +ℤ delta) ≡ false)
              (take r (c ∷ cs)))
capped_pick_lem c cs r delta h = elim (capped_pick-cases c cs r delta h) [
  | inl (e, p) ↦ rw p (
    ground (arith, least_loaded-min c cs, +ℤ_parts (min_in_flight c.in_flight cs) delta),
    ((λ _. (best_within-none (limit_of c cs delta) (take r (c ∷ cs)) none e).1), λ _. refl),
  )
  | inr (b, e, p) ↦ rw p (
    subst (Within (limit_of c cs delta)) e
        (best_within-Within (limit_of c cs delta) (take r (c ∷ cs)) none tt),
    (
      (λ q. ground (arith, q)),
      λ q. ground (arith, e, best_within-over (limit_of c cs delta) (take r (c ∷ cs)) q),
    ),
  )
]

-- The warm set of a key has at least one replica and, in a pool that has any, no more than the pool.
pub replication_factor-bounds :
    (rpm threshold size : ℕ)
    → (1 ≤ replication_factor rpm threshold size)
      × (replication_factor rpm threshold size ≤ max 1 size)
unfolding replication_factor
replication_factor-bounds rpm threshold size = ground arith
