-- ===== src/Hrw.antt =====
-- cacheroute/hrw.go and `Shadow.Decide`: rendezvous ranking, the size of a key's warm set, the load
-- cap, and the order of hosts that a decision prefers. The xxhash score of a key and a host is the
-- parameter `score`.
pub mod Ranking
pub mod Tests
pub mod Pick
use confidential_model_route.Common.{
  ℕ, ◌+◌, ◌-◌, ◌/◌, Bool, true, false, not, ◌&&◌, ◌||◌, Option, none, some, List, ◌∷◌, ◌++◌, map,
  ltb, leb, ◌==◌, if◌then◌else◌, length, take, filter, Text, text_eq, text_lt, [],
}
use confidential_model_route.Common.Int.{ℤ, pos, ◌+ℤ◌, ltℤ, leℤ}

pub record Candidate : Type 0 where
  pub host : Text
  pub in_flight : ℤ

-- The comparison that `rank` sorts by: the higher score first, then the smaller host.
pub ranks_before : (Text → ℕ) → Candidate → Candidate → Bool
ranks_before score a b =
    if ltb (score b.host) (score a.host)
    then true
    else if ltb (score a.host) (score b.host)
    then false
    else text_lt a.host b.host

-- `slices.SortFunc`, as an insertion sort; Ranking.antt proves that the algorithm does not matter.
pub insert_ranked : (Text → ℕ) → Candidate → List Candidate → List Candidate
insert_ranked score c [] = c ∷ []
insert_ranked score c (d ∷ ds) =
    if ranks_before score d c then d ∷ insert_ranked score c ds else c ∷ d ∷ ds

pub rank : (Text → ℕ) → List Candidate → List Candidate
unfolding insert_ranked
rank score [] = []
rank score (c ∷ cs) = insert_ranked score c (rank score cs)

-- `math.Ceil(rpm / thresholdRPM)` clamped to the pool, for rates in one unit.
pub replication_factor : ℕ → ℕ → ℕ → ℕ
replication_factor rpm threshold pool_size =
    if threshold == 0 || leb pool_size 1
    then 1
    else (let r = (rpm + threshold - 1) / threshold in
        let at_least_one = if ltb r 1 then 1 else r in
        if ltb pool_size at_least_one then pool_size else at_least_one)

-- `leastLoaded` of `best ∷ rest`
pub least_loaded : Candidate → List Candidate → Candidate
least_loaded best [] = best
least_loaded best (c ∷ cs) = least_loaded (if ltℤ c.in_flight best.in_flight then c else best) cs

pub min_in_flight : ℤ → List Candidate → ℤ
min_in_flight m [] = m
min_in_flight m (c ∷ cs) = min_in_flight (if ltℤ c.in_flight m then c.in_flight else m) cs

-- The loop for `best` within the load limit.
pub best_within : ℤ → Option Candidate → List Candidate → Option Candidate
best_within limit best [] = best
best_within limit best (c ∷ cs) =
    best_within limit
      (if leℤ c.in_flight limit
          && (elim best [ none ↦ true | some b ↦ ltℤ c.in_flight b.in_flight ])
        then some c
        else best)
      cs

-- `cappedPick` of the ranking `c ∷ cs`, for 1 ≤ r ≤ its length.
pub capped_pick : Candidate → List Candidate → ℕ → ℤ → Candidate × Bool
unfolding least_loaded min_in_flight best_within
capped_pick c cs r delta =
    if ltℤ delta (pos 0)
    then (least_loaded c (take (r - 1) cs), false)
    else (let limit = min_in_flight c.in_flight cs +ℤ delta in
        elim (best_within limit none (take r (c ∷ cs))) [
          | some b ↦ (b, false)
          | none ↦ (least_loaded c cs, true)
        ])

abbrev pub hosts : List Candidate → List Text
hosts = map λ c. c.host

abbrev pub not_host : Text → Candidate → Bool
not_host h c = not (text_eq c.host h)

-- The hosts behind the pick, within the cap before over it.
pub spill_order : ℤ → Candidate → List Candidate → Text → List Text
unfolding min_in_flight
spill_order delta c cs pick =
    if leℤ (pos 0) delta
    then (let limit = min_in_flight c.in_flight cs +ℤ delta in
        hosts (filter (λ d. not_host pick d && leℤ d.in_flight limit) (c ∷ cs))
        ++ hosts (filter (λ d. not_host pick d && ltℤ limit d.in_flight) (c ∷ cs)))
    else hosts (filter (not_host pick) (c ∷ cs))

pub record Decision : Type 0 where
  pub order : List Text
  pub home : Text
  pub r : ℕ
  pub demoted : Bool

-- The decision on a ranking.
pub decide_ranked : ℕ → ℕ → ℤ → Candidate → List Candidate → Decision
unfolding replication_factor capped_pick spill_order
decide_ranked rpm threshold delta c cs =
    let r = replication_factor rpm threshold (length (c ∷ cs)) in
    let (pick, demoted) = capped_pick c cs r delta in
    record {
      order = pick.host ∷ spill_order delta c cs pick.host;
      home = c.host;
      r = r;
      demoted = demoted;
    }

-- `Decide` for a keyed request, with the key's current rate; `none` falls back to a random replica.
pub decide : (Text → ℕ) → ℕ → ℕ → ℤ → ℕ → List Candidate → Option Decision
unfolding rank decide_ranked
decide score rpm threshold delta size candidates =
    if ltb size 2 then none else (elim (rank score candidates) [
      | [] ↦ none
      | c ∷ cs ↦ some (decide_ranked rpm threshold delta c cs)
    ])
