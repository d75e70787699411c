-- ===== src/Shadow/Sweep/Counted.antt =====
-- Sweeping keeps the tracked-keys counts.
use mathlib.Core.Path.{subst}
use confidential_model_route.Common.{
  ℕ, zero, suc, ◌≡◌, refl, inl, inr, Bool, some, List, ◌∷◌, arith, ltb, Bool-cases, Option-cases,
  Text, map_at, [],
}
use confidential_model_route.Shadow.{Shadow, keys_at, back, evict}
use confidential_model_route.Shadow.Sweep.{
  sweep_list, sweep_lists, sweep_pass, retentions, sweep_chunk_size, without_list,
}
use confidential_model_route.Shadow.Table.{IsCounted, evict-IsCounted}
use confidential_model_route.Shadow.Observe.Counted.{same_table}

sweep_list-IsCounted :
    (owner : Text → Text) (left now r after : ℕ) (s t : Shadow)
    → IsCounted owner s
    → sweep_list left now r s ≡ some (after, t)
    → IsCounted owner t
unfolding sweep_list
sweep_list-IsCounted owner zero now r after s t v h = subst (IsCounted owner) (ground (arith, h)) v
sweep_list-IsCounted owner (suc left) now r after s t v h =
    elim (Option-cases (back (keys_at r s.lists))) [
      | inl b ↦ subst (IsCounted owner) (ground (arith, b, h)) v
      | inr (k, b) ↦ elim (Option-cases (map_at k s.entries)) [
        | inl m ↦ absurd (ground (arith, b, m, h))
        | inr (e, m) ↦ elim (Bool-cases (ltb now e.expiry)) [
          | inl x ↦ subst (IsCounted owner) (ground (arith, b, m, x, h)) v
          | inr x ↦ elim (Option-cases (evict k s)) [
            | inl g ↦ absurd (ground (arith, b, m, x, g, h))
            | inr (u, g) ↦
                sweep_list-IsCounted owner left now r after u t (evict-IsCounted owner s u k v g)
                  (ground (arith, b, m, x, g, h))
          ]
        ]
      ]
    ]

sweep_lists-IsCounted :
    (owner : Text → Text) (ts : List ℕ) (left now after : ℕ) (s t : Shadow)
    → IsCounted owner s
    → sweep_lists left now ts s ≡ some (after, t)
    → IsCounted owner t
unfolding sweep_lists
sweep_lists-IsCounted owner [] left now after s t v h =
    subst (IsCounted owner) (ground (arith, h)) v
sweep_lists-IsCounted owner (r ∷ ts) left now after s t v h =
    elim (Option-cases (sweep_list left now r s)) [
      | inl g ↦ absurd (ground (arith, g, h))
      | inr ((l, u), g) ↦
          let swept = sweep_list-IsCounted owner left now r l s u v g in
          let cut = record u { lists = without_list r u.lists } in
          sweep_lists-IsCounted owner ts l now after cut t (same_table owner u cut refl refl swept)
            (ground (arith, g, h))
    ]

-- A pass of the sweeper keeps the tracked-keys counts equal to those of the table.
pub sweep_pass-IsCounted :
    (owner : Text → Text) (now : ℕ) (s t : Shadow) (again : Bool)
    → IsCounted owner s
    → sweep_pass now s ≡ some (again, t)
    → IsCounted owner t
unfolding sweep_pass
sweep_pass-IsCounted owner now s t again v h =
    elim (Option-cases (sweep_lists sweep_chunk_size now (retentions s.lists) s)) [
      | inl g ↦ absurd (ground (arith, g, h))
      | inr ((l, u), g) ↦
          subst (IsCounted owner) (ground (arith, g, h))
            (sweep_lists-IsCounted owner (retentions s.lists) sweep_chunk_size now l s u v g)
    ]
