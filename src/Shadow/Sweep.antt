-- ===== src/Shadow/Sweep.antt =====
-- cacheroute/shadow.go, `sweep`: the eviction of expired entries.
pub mod Counted
use confidential_model_route.Common.{
  ℕ, zero, suc, Bool, true, false, ◌&&◌, Option, none, some, List, ◌∷◌, ltb, ◌==◌, if◌then◌else◌,
  Text, map_at, [],
}
use confidential_model_route.Shadow.{Shadow, is_blank, keys_at, evict, back}

abbrev pub sweep_chunk_size : ℕ
sweep_chunk_size = 1024

-- The inner loop of `sweep` on one list, with the evictions that are left of the chunk; the outer
-- `none` is a nil dereference.
unfoldable pub sweep_list : ℕ → ℕ → ℕ → Shadow → Option (ℕ × Shadow)
unfolding back evict
sweep_list zero now t s = some (zero, s)
sweep_list (suc left) now t s = elim (back (keys_at t s.lists)) [
  | none ↦ some (suc left, s)
  | some k ↦ elim (map_at k s.entries) [
    | none ↦ none
    | some e ↦ elim (ltb now e.expiry) [
      | true ↦ some (suc left, s)
      | false ↦ elim (evict k s) [ none ↦ none | some s' ↦ sweep_list left now t s' ]
    ]
  ]
]

-- `delete(s.lists, retention)` of an empty list
unfoldable pub without_list : ℕ → List (ℕ × List Text) → List (ℕ × List Text)
without_list t [] = []
without_list t ((u, ks) ∷ ls) =
    let rest = without_list t ls in if u == t && is_blank ks then rest else (u, ks) ∷ rest

unfoldable pub retentions : List (ℕ × List Text) → List ℕ
retentions [] = []
retentions ((t, ks) ∷ ls) = t ∷ retentions ls

unfoldable pub sweep_lists : ℕ → ℕ → List ℕ → Shadow → Option (ℕ × Shadow)
unfolding sweep_list without_list
sweep_lists left now [] s = some (left, s)
sweep_lists left now (t ∷ ts) s = elim (sweep_list left now t s) [
  | none ↦ none
  | some (left', s') ↦ sweep_lists left' now ts (record s' { lists = without_list t s'.lists })
]

-- What `sweep` does while it holds the lock once, and whether it goes on.
unfoldable pub sweep_pass : ℕ → Shadow → Option (Bool × Shadow)
unfolding sweep_lists retentions
sweep_pass now s = elim (sweep_lists sweep_chunk_size now (retentions s.lists) s) [
  | none ↦ none
  | some (left, s') ↦ some (left == 0, s')
]
