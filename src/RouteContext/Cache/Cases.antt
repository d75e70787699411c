-- ===== src/RouteContext/Cache/Cases.antt =====
-- The three ways in which storing a result goes.
use confidential_model_route.Common.{
  ℕ, ◌-◌, ◌≤◌, ◌<◌, ◌≡◌, ◌⊎◌, inl, inr, Option, none, some, arith, ltb, leb, Bool-cases,
  Option-cases,
}
use confidential_model_route.RouteContext.{RouteContext, RouteContextError}
use confidential_model_route.RouteContext.Cache.{
  Key, Entry, Cache, find, without, entry_size, insert, put,
}

module _ (key : Key) (r : RouteContext) (err : Option RouteContextError) (sequence : ℕ)
    (c : Cache) where
  abbrev pub new_entry : Entry
  new_entry = record {
    key = key;
    resolved = r;
    error = err;
    sequence = sequence;
    bytes = entry_size r err;
  }

  abbrev pub Ignored : Type 0
  Ignored =
      (put key r err sequence c ≡ some c)
      × ((c.max_bytes < entry_size r err)
          ⊎ ((e : Entry) × (find key c.entries ≡ some e) × (sequence < e.sequence))
          ⊎ ((find key c.entries ≡ none) × (sequence ≤ c.evicted_sequence)))

  abbrev pub Replaced : Type 0
  Replaced =
      (e : Entry) × (find key c.entries ≡ some e)
      × (e.sequence ≤ sequence)
      × (entry_size r err ≤ c.max_bytes)
      × (put key r err sequence c ≡ insert c new_entry (without key c.entries) (c.bytes - e.bytes))

  abbrev pub Added : Type 0
  Added =
      (find key c.entries ≡ none)
      × (c.evicted_sequence < sequence)
      × (entry_size r err ≤ c.max_bytes)
      × (put key r err sequence c ≡ insert c new_entry c.entries c.bytes)

  pub put-cases : Ignored ⊎ Replaced ⊎ Added
  unfolding put
  put-cases = elim (Bool-cases (ltb c.max_bytes (entry_size r err))) [
    | inl big ↦ inl (rw (big, put), inl (ground arith))
    | inr fits ↦ elim (Option-cases (find key c.entries)) [
      | inl e ↦ elim (Bool-cases (leb sequence c.evicted_sequence)) [
        | inl old ↦ inl (rw (fits, e, old, put), inr (inr (e, ground arith)))
        | inr fresh ↦ inr (inr (e, ground arith, ground arith, rw (fits, e, fresh, put)))
      ]
      | inr (d, e) ↦ elim (Bool-cases (ltb sequence d.sequence)) [
        | inl old ↦ inl (rw (fits, e, old, put), inr (inl (d, e, ground arith)))
        | inr fresh ↦ inr (inl (d, e, ground arith, ground arith, rw (fits, e, fresh, put)))
      ]
    ]
  ]
