-- ===== src/Autoroute/Ranking.antt =====
-- autoroute/autoroute.go: the ranking of the catalog.
pub mod Closest
use confidential_model_route.Common.{
  ℕ, zero, suc, ◌+◌, ◌-◌, ◌*◌, ◌/◌, ◌%◌, ◌^◌, ◌≤◌, ◌<◌, min, max, String, ◌≡◌, refl, sym, ap, ◌∙◌,
  ◌≢◌, ◌↔◌, ◌⊎◌, inl, inr, Bool, true, false, not, ◌&&◌, ◌||◌, Option, none, some, List, [], ◌∷◌,
  ◌++◌, map, arith, ltb, leb, ◌==◌, if◌then◌else◌, ltb→lt, lt→ltb, leb→le, le→leb, ==_iff,
  Bool-cases, Option-cases, length, get_elem?, take, drop, length-append, length-take, filter, All,
  All-append, All-mono, In, In-All, keep, In-filter, filter-In, In-append, append-In, not-In_empty,
  if-either, Text, text, text_eq, text_lt, text_eq-eq, text_eq_refl, text_eq_iff, text_lt_irrefl,
  text_lt_trans, text_lt_total,
}
use confidential_model_route.Autoroute.{max_intelligence}
use confidential_model_route.Autoroute.Effort.{Reasoning}

pub record Model : Type 0 where
  pub name : Text
  pub multimodal : Bool
  pub scores : List (Text × ℕ)
  pub reasoning : Option Reasoning

pub record Candidate : Type 0 where
  pub model : Model
  pub effort : Text
  pub score : ℕ
  pub level : ℕ

abbrev pub larger : ℕ → ℕ → ℕ
larger a b = if ltb b a then a else b

unfoldable pub max_of_scores : ℕ → List (Text × ℕ) → ℕ
max_of_scores m [] = m
max_of_scores m ((effort, s) ∷ ss) = max_of_scores (larger s m) ss

unfoldable pub max_score : ℕ → List Model → ℕ
unfolding max_of_scores
max_score m [] = m
max_score m (x ∷ xs) = max_score (max_of_scores m x.scores) xs

-- `normalize`: `math.Round(score * 100 / max)`, for a maximum that is not 0.
unfoldable pub normalize : ℕ → ℕ → ℕ
normalize score top = (2 * score * max_intelligence + top) / (2 * top)

-- `abs(level - target)`
abbrev pub distance : ℕ → ℕ → ℕ
distance a b = (a - b) + (b - a)

-- The candidates of a model, one for each effort.
unfoldable pub candidates_of : ℕ → Model → List (Text × ℕ) → List Candidate
unfolding normalize
candidates_of top x [] = []
candidates_of top x ((effort, s) ∷ ss) =
    record { model = x; effort = effort; score = s; level = normalize s top }
    ∷ candidates_of top x ss

unfoldable pub all_candidates : ℕ → Bool → List Model → List Candidate
unfolding candidates_of
all_candidates top multimodal_only [] = []
all_candidates top multimodal_only (x ∷ xs) =
    let rest = all_candidates top multimodal_only xs in
    if multimodal_only && not x.multimodal then rest else candidates_of top x x.scores ++ rest

-- The comparison of `Rank`.
unfoldable pub ranks_before : ℕ → Candidate → Candidate → Bool
unfolding text_eq text_lt
ranks_before target a b =
    let da = distance a.level target in
    let db = distance b.level target in
    if not (da == db)
    then ltb da db
    else if (a.model.multimodal && not b.model.multimodal)
        || (b.model.multimodal && not a.model.multimodal)
    then a.model.multimodal
    else if not (a.score == b.score)
    then ltb b.score a.score
    else if not (text_eq a.model.name b.model.name)
    then text_lt a.model.name b.model.name
    else text_lt a.effort b.effort

-- `sort.SliceStable`, as an insertion sort.
unfoldable pub insert : ℕ → Candidate → List Candidate → List Candidate
unfolding ranks_before
insert target c [] = c ∷ []
insert target c (d ∷ ds) = if ranks_before target d c then d ∷ insert target c ds else c ∷ d ∷ ds

unfoldable pub sort : ℕ → List Candidate → List Candidate
unfolding insert
sort target [] = []
sort target (c ∷ cs) = insert target c (sort target cs)

-- `Rank`
unfoldable pub rank : List Model → ℕ → Bool → List Candidate
unfolding max_score all_candidates sort
rank catalog target multimodal_only =
    let top = max_score 0 catalog in
    if top == 0 then [] else sort target (all_candidates top multimodal_only catalog)
