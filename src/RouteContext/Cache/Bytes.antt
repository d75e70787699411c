-- ===== src/RouteContext/Cache/Bytes.antt =====
-- The cache never holds more bytes than its limit, and making room never runs out of entries.
use confidential_model_route.Common.{
  ℕ, ◌+◌, ◌-◌, ◌≤◌, max, ◌≡◌, ap, inl, inr, Option, some, List, ◌∷◌, ◌++◌, arith, ltb, Bool-cases,
  [],
}
use confidential_model_route.RouteContext.{RouteContext, RouteContextError}
use confidential_model_route.RouteContext.Cache.Cases.{put-cases, new_entry}
use confidential_model_route.RouteContext.Cache.{
  Key, Entry, Cache, key_eq, find, without, evict, insert, put,
}

abbrev pub sum_bytes : List Entry → ℕ
sum_bytes [] = 0
sum_bytes (e ∷ es) = e.bytes + sum_bytes es

pub record IsBounded (c : Cache) : Type 0 where
  pub counted : c.bytes ≡ sum_bytes c.entries
  pub bounded : c.bytes ≤ c.max_bytes

sum_bytes-append : (xs ys : List Entry) → sum_bytes (xs ++ ys) ≡ sum_bytes xs + sum_bytes ys
sum_bytes-append [] ys = omega arith
sum_bytes-append (x ∷ xs) ys = omega (arith, sum_bytes-append xs ys)

sum_bytes-without :
    (k : Key) (es : List Entry) (e : Entry)
    → find k es ≡ some e
    → sum_bytes (without k es) + e.bytes ≡ sum_bytes es
unfolding find without
sum_bytes-without k [] e h = cc
sum_bytes-without k (x ∷ xs) e h = elim (Bool-cases (key_eq x.key k)) [
  | inl hit ↦
      let same : x ≡ e = ground arith in rw hit (omega (arith, ap (λ (c : Entry). c.bytes) same))
  | inr miss ↦ rw miss (omega (arith, sum_bytes-without k xs e (ground arith)))
]

-- Making room returns a suffix of the entries whose bytes are counted and leave the room.
evict_lem :
    (size limit : ℕ) (es : List Entry) (evicted : ℕ)
    → size ≤ limit
    → (kept : List Entry) × (last : ℕ) × (evict size limit es (sum_bytes es) evicted
        ≡ some (kept, sum_bytes kept, last))
      × (sum_bytes kept + size ≤ limit)
unfolding evict
evict_lem size limit [] evicted h = ([], evicted, ground arith, omega arith)
evict_lem size limit (e ∷ es) evicted h =
    elim (Bool-cases (ltb limit (sum_bytes (e ∷ es) + size))) [
      | inl full ↦
          let (kept, last, x, room) = evict_lem size limit es (max evicted e.sequence) h in
          let b : sum_bytes (e ∷ es) - e.bytes ≡ sum_bytes es = omega arith in
          (kept, last, rw (full, b) x, room)
      | inr fits ↦ (e ∷ es, evicted, rw fits, ground arith)
    ]

insert-IsBounded :
    (c : Cache) (new : Entry) (es : List Entry) (bytes : ℕ)
    → bytes ≡ sum_bytes es
    → new.bytes ≤ c.max_bytes
    → (d : Cache) × (insert c new es bytes ≡ some d) × IsBounded d
unfolding insert
insert-IsBounded c new es bytes eq h =
    let (kept, last, x, room) = evict_lem new.bytes c.max_bytes es c.evicted_sequence h in
    let d : Cache = record c {
      entries = kept ++ new ∷ [];
      bytes = sum_bytes kept + new.bytes;
      evicted_sequence = last;
    } in
    (d, rw (eq, insert, x), record { counted = rw sum_bytes-append (omega arith); bounded = room })

-- Storing a result never fails, and the cache goes on counting its bytes and stays within its
-- limit.
pub put-IsBounded :
    (key : Key) (r : RouteContext) (err : Option RouteContextError) (sequence : ℕ) (c : Cache)
    → IsBounded c
    → (d : Cache) × (put key r err sequence c ≡ some d) × IsBounded d
put-IsBounded key r err sequence c v = elim (put-cases key r err sequence c) [
  | inl (same, why) ↦ (c, same, v)
  | inr (inl (e, found, newer, fits, x)) ↦
      let left : c.bytes - e.bytes ≡ sum_bytes (without key c.entries) =
        omega (arith, v.counted, sum_bytes-without key c.entries e found) in
      rw x (
        insert-IsBounded c (new_entry key r err sequence c) (without key c.entries)
          (c.bytes - e.bytes) left fits)
  | inr (inr (absent, newer, fits, x)) ↦
      rw x (insert-IsBounded c (new_entry key r err sequence c) c.entries c.bytes v.counted fits)
]
