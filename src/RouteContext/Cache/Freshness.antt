-- ===== src/RouteContext/Cache/Freshness.antt =====
-- An older answer never takes the place of a newer one, also not of one that was evicted.
use mathlib.Core.Path.{subst}
use confidential_model_route.Common.{
  ℕ, ◌-◌, ◌≤◌, ◌<◌, ◌≡◌, sym, ◌∙◌, ◌⊎◌, inl, inr, Option, none, some, arith, Bool-cases,
}
use confidential_model_route.RouteContext.{RouteContext, RouteContextError}
use confidential_model_route.RouteContext.Cache.Cases.{put-cases, new_entry}
use confidential_model_route.RouteContext.Cache.{
  Key, Entry, Cache, key_eq, find, without, entry_size, insert, put,
}
use confidential_model_route.RouteContext.Cache.Eviction.{
  Distinct, Distinct-without, floor_of, find-eq, find-without, insert-Kept, key_eq_refl,
}

module _ (key : Key) (r : RouteContext) (err : Option RouteContextError) (sequence : ℕ)
    (c d : Cache) (dist : Distinct c.entries) (h : put key r err sequence c ≡ some d) where
  -- An entry that replaces `e`, or a new one, seen from every key.
  pub replaced :
      (e : Entry)
      → find key c.entries ≡ some e
      → e.sequence ≤ sequence
      → insert c (new_entry key r err sequence c) (without key c.entries) (c.bytes - e.bytes)
        ≡ some d
      → Distinct d.entries
        × (find key d.entries ≡ some (new_entry key r err sequence c))
        × ((k : Key)
            → floor_of k c.entries c.evicted_sequence ≤ floor_of k d.entries d.evicted_sequence)
  unfolding floor_of
  replaced e found newer x =
      let absent : find key (without key c.entries) ≡ none =
        ground (arith, find-without key key c.entries dist, key_eq_refl key) in
      let (dist', mine, others) =
        insert-Kept c d (new_entry key r err sequence c) (without key c.entries) (c.bytes - e.bytes)
          (Distinct-without key c.entries dist) absent x in
      (
        dist',
        mine,
        λ k. elim (Bool-cases (key_eq key k)) [
          | inl hit ↦ ground (arith, find-eq key k c.entries hit, find-eq key k d.entries hit)
          | inr miss ↦ ground (arith, find-without key k c.entries dist, others k miss)
        ],
      )

  pub added :
      find key c.entries ≡ none
      → c.evicted_sequence < sequence
      → insert c (new_entry key r err sequence c) c.entries c.bytes ≡ some d
      → Distinct d.entries
        × (find key d.entries ≡ some (new_entry key r err sequence c))
        × ((k : Key)
            → floor_of k c.entries c.evicted_sequence ≤ floor_of k d.entries d.evicted_sequence)
  unfolding floor_of
  added absent newer x =
      let (dist', mine, others) =
        insert-Kept c d (new_entry key r err sequence c) c.entries c.bytes dist absent x in
      (
        dist',
        mine,
        λ k. elim (Bool-cases (key_eq key k)) [
          | inl hit ↦ ground (arith, find-eq key k c.entries hit, find-eq key k d.entries hit)
          | inr miss ↦ others k miss
        ],
      )

  -- Storing a result, of any age and size, lowers no key's bound, the sequence number of its entry
  -- or, if it has none, the newest one evicted: a result older than the bound stays older than it,
  -- also when the newer result has been evicted. The map keeps at most one entry for a key.
  pub floor_of-put :
      (k : Key)
      → (floor_of k c.entries c.evicted_sequence ≤ floor_of k d.entries d.evicted_sequence)
        × Distinct d.entries
  floor_of-put k = elim (put-cases key r err sequence c) [
    | inl (same, why) ↦
        let eq : c ≡ d = ground arith in
        subst
          (λ (z : Cache).
            (floor_of k c.entries c.evicted_sequence ≤ floor_of k z.entries z.evicted_sequence)
            × Distinct z.entries)
          eq (omega arith, dist)
    | inr (inl (e, found, newer, fits, x)) ↦
        let (dist', mine, all) = replaced e found newer (sym x ∙ h) in (all k, dist')
    | inr (inr (absent, newer, fits, x)) ↦
        let (dist', mine, all) = added absent newer (sym x ∙ h) in (all k, dist')
  ]

  -- Afterwards the key has the new result, unless it was too large for the whole cache or older than
  -- what is known of the key; then the cache is unchanged.
  pub put-stores :
      (find key d.entries ≡ some (new_entry key r err sequence c))
      ⊎ ((d ≡ c)
          × ((c.max_bytes < entry_size r err)
              ⊎ (sequence ≤ floor_of key c.entries c.evicted_sequence)))
  unfolding floor_of
  put-stores = elim (put-cases key r err sequence c) [
    | inl (same, why) ↦ inr (ground arith, ground arith)
    | inr (inl (e, found, newer, fits, x)) ↦ inl ((replaced e found newer (sym x ∙ h)).1)
    | inr (inr (absent, newer, fits, x)) ↦ inl ((added absent newer (sym x ∙ h)).1)
  ]
