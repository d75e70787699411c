-- ===== src/Hrw/Tests.antt =====
-- Three replicas, ranked by the score of their first byte.
use mathlib.Core.List.{Permᴰ}
use confidential_model_route.Common.{
  ℕ, ◌≡◌, refl, sym, ap, ◌∙◌, ◌↔◌, inl, inr, true, false, some, [], ◌∷◌, arith, take, All, Text,
  text_eq,
}
use confidential_model_route.Common.Int.{pos, ◌+ℤ◌, leℤ}
use confidential_model_route.Hrw.{
  Candidate, ranks_before, rank, insert_ranked, replication_factor, least_loaded, min_in_flight,
  best_within, capped_pick, decide, decide_ranked, spill_order,
}
use confidential_model_route.Hrw.Ranking.{IsRanked, HostsAgree, ranking_unique}
use confidential_model_route.Hrw.Pick.{capped_pick_lem}

abbrev score : Text → ℕ
score [] = 0
score (c ∷ cs) = c

abbrev low : Candidate
low = record { host = 1 ∷ []; in_flight = pos 5 }

abbrev mid : Candidate
mid = record { host = 2 ∷ []; in_flight = pos 1 }

abbrev high : Candidate
high = record { host = 3 ∷ []; in_flight = pos 9 }

agree : HostsAgree score (low ∷ high ∷ [])
agree x y (inl p) (inl q) e = p ∙ sym q
agree x y (inl p) (inr (inl q)) e =
    absurd (ground (arith, ap (λ (c : Candidate). c.host) p, ap (λ (c : Candidate). c.host) q))
agree x y (inr (inl p)) (inl q) e =
    absurd (ground (arith, ap (λ (c : Candidate). c.host) p, ap (λ (c : Candidate). c.host) q))
agree x y (inr (inl p)) (inr (inl q)) e = p ∙ sym q
agree x y (inl p) (inr (inr i)) e = elim i [ ]
agree x y (inr (inl p)) (inr (inr i)) e = elim i [ ]
agree x y (inr (inr i)) j e = elim i [ ]

is_ranked : IsRanked score (high ∷ low ∷ [])
unfolding ranks_before
is_ranked = ((refl, tt), (tt, tt))

ranking_unique_example : high ∷ low ∷ [] ≡ rank score (low ∷ high ∷ [])
ranking_unique_example = ranking_unique score agree (Permᴰ.swap refl refl) is_ranked

capped_pick_lem_example :
    (leℤ
        (capped_pick high (low ∷ mid ∷ []) 1 (pos 2)).0.in_flight
        (min_in_flight (pos 9) (low ∷ mid ∷ []) +ℤ pos 2)
      ≡ true)
    × ((capped_pick high (low ∷ mid ∷ []) 1 (pos 2)).1 ≡ true
        ↔ All
            (λ d. leℤ d.in_flight (min_in_flight (pos 9) (low ∷ mid ∷ []) +ℤ pos 2) ≡ false)
            (take 1 (high ∷ low ∷ mid ∷ [])))
capped_pick_lem_example = capped_pick_lem high (low ∷ mid ∷ []) 1 (pos 2) refl

spills :
    decide score 10 15 (pos 2) 3 (low ∷ mid ∷ high ∷ [])
    ≡ some (record {
      order = (2 ∷ []) ∷ (3 ∷ []) ∷ (1 ∷ []) ∷ [];
      home = 3 ∷ [];
      r = 1;
      demoted = true;
    })
unfolding decide rank insert_ranked ranks_before decide_ranked replication_factor capped_pick
    best_within least_loaded min_in_flight spill_order text_eq ◌+ℤ◌
spills = refl
