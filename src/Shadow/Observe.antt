-- ===== src/Shadow/Observe.antt =====
-- cacheroute/shadow.go, `observeKeyed`: what recording a landing does to the table.
pub mod Counted
use confidential_model_route.Common.{
  ℕ, ◌+◌, ◌-◌, ◌*◌, Bool, Option, none, some, List, ◌∷◌, ltb, if◌then◌else◌, length, Text, map_at,
  map_put, [],
}
use confidential_model_route.Common.Int.{ℤ}
use confidential_model_route.Hrw.{Candidate, Decision, rank, replication_factor, capped_pick}
use confidential_model_route.Shadow.{Entry, Shadow, bump_rate, is_blank, shift_count, touch, insert}

-- The loop that drops what is no longer warm.
unfoldable pub still_warm : ℕ → ℕ → List (Text × ℕ) → List (Text × ℕ)
still_warm now retention [] = []
still_warm now retention ((h, seen) ∷ ws) =
    let rest = still_warm now retention ws in
    if ltb retention (now - seen) then rest else (h, seen) ∷ rest

pub data Reuse : Type 0 where
  first_seen repeat_warm repeat_cold : Reuse

abbrev pub reuse_of : List (Text × ℕ) → Text → Reuse
reuse_of warm host =
    if is_blank warm
    then first_seen
    else (elim (map_at host warm) [ none ↦ repeat_cold | some t ↦ repeat_warm ])

-- The first half of `observeKeyed`: the entry for the key, touched or new, and the classification.
unfoldable pub look_up : Text → Text → Text → ℕ → ℕ → Shadow → Option (Reuse × Entry × Shadow)
unfolding touch insert still_warm
look_up model k host now retention s = elim (map_at k s.entries) [
  | none ↦ elim (insert model k retention s) [
    | none ↦ none
    | some (e, s') ↦ some (first_seen, e, s')
  ]
  | some e ↦
      let (e', s') = touch k e retention s in
      let warm = still_warm now retention e'.warm in
      some (reuse_of warm host, record e' { warm = warm }, s')
]

-- The settings that `observeKeyed` reads.
pub record Knobs : Type 0 where
  pub retention : ℕ
  pub split_threshold : ℕ
  pub max_inflight_delta : ℤ

-- Home, replication factor and demotion: the decision's, or those of a ranking of the candidates.
unfoldable pub placed :
    (Text → ℕ) → Knobs → ℕ → Option Decision → List Candidate → Option (Text × ℕ × Bool)
placed score knobs rpm (some d) candidates = some (d.home, d.r, d.demoted)
placed score knobs rpm none candidates = elim (rank score candidates) [
  | [] ↦ none
  | c ∷ cs ↦
      let r = replication_factor rpm knobs.split_threshold (length (c ∷ cs)) in
      some (c.host, r, (capped_pick c cs r knobs.max_inflight_delta).1)
]

-- `observeKeyed`
unfoldable pub observe_keyed :
    (Text → ℕ)
    → Text
    → Text
    → List Candidate
    → Text
    → Option Decision
    → Knobs
    → ℕ
    → Shadow
    → Option (Reuse × Shadow)
unfolding look_up bump_rate placed shift_count
observe_keyed score model k candidates host d knobs now s =
    elim (look_up model k host now knobs.retention s) [
      | none ↦ none
      | some (reuse, e, s') ↦
          let (rpm, bumped) = bump_rate now e in
          elim (placed score knobs rpm d candidates) [
            | none ↦ none
            | some (home, r, demoted) ↦
                let e' = record bumped {
                  warm = map_put host now bumped.warm;
                  last_seen = now;
                  expiry = now + 4 * knobs.retention;
                  home = home;
                  r = r;
                } in
                some (
                  reuse,
                  record s' {
                    entries = map_put k e' s'.entries;
                    counts = shift_count model e.home e.r home r s'.counts;
                  },
                )
          ]
    ]
