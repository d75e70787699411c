-- ===== src/RouteContext/Cache/Ideal.antt =====
-- The cache against an ideal one, which has room for everything.
use mathlib.Core.Path.{subst}
use confidential_model_route.Common.{
  ℕ, ◌-◌, ◌≤◌, ◌<◌, ◌≡◌, refl, sym, ap, ◌∙◌, inl, inr, true, false, Option, none, some, List, arith,
  ltb, if◌then◌else◌, Bool-cases,
}
use confidential_model_route.RouteContext.{RouteContext, RouteContextError}
use confidential_model_route.RouteContext.Cache.{
  Key, Entry, Cache, key_eq, find, without, entry_size, insert, put,
}
use confidential_model_route.RouteContext.Cache.Cases.{
  new_entry, put-cases, Ignored, Replaced, Added,
}
use confidential_model_route.RouteContext.Cache.Eviction.{
  Distinct, Distinct-without, floor_of, find-eq, find-without, key_eq-eq,
}
use confidential_model_route.RouteContext.Cache.Freshness.{floor_of-put, replaced, added}
use confidential_model_route.RouteContext.Cache.Others.{insert_finds}

-- An ideal cache has the newest result of each key that was ever put.
abbrev pub IdealCache : Type 0
IdealCache = Key → Option Entry

abbrev newest : Entry → Option Entry → Entry
newest new none = new
newest new (some e) = if ltb new.sequence e.sequence then e else new

-- A result that is too large for the whole cache counts as never put.
pub ideal_put : ℕ → Entry → IdealCache → IdealCache
ideal_put limit new i k =
    if ltb limit new.bytes then i k else if key_eq new.key k then some (newest new (i k)) else i k

-- What the cache answers for a key is the ideal answer, and where it has none, the newest result of
-- the key is one that it will refuse.
pub record Refines (c : Cache) (i : IdealCache) : Type 0 where
  pub distinct : Distinct c.entries
  pub answers : (k : Key) (e : Entry) → find k c.entries ≡ some e → i k ≡ some e
  pub covers :
      (k : Key) (e : Entry) → i k ≡ some e → e.sequence ≤ floor_of k c.entries c.evicted_sequence

module _ (key : Key) (r : RouteContext) (err : Option RouteContextError) (sequence : ℕ)
    (c d : Cache) (i : IdealCache) (ref : Refines c i) (h : put key r err sequence c ≡ some d) where
  abbrev new : Entry
  new = new_entry key r err sequence c

  -- The ideal answer of another key
  ideal_other : (k : Key) → key_eq key k ≡ false → ideal_put c.max_bytes new i k ≡ i k
  unfolding ideal_put
  ideal_other k miss = ground (arith, miss)

  newest-new :
      (o : Option Entry) → ((e : Entry) → o ≡ some e → e.sequence ≤ sequence) → newest new o ≡ new
  newest-new none le = refl
  newest-new (some e) le = let l = le e refl in ground (arith, l)

  ideal_mine :
      (k : Key)
      → key_eq key k ≡ true
      → entry_size r err ≤ c.max_bytes
      → ((e : Entry) → i key ≡ some e → e.sequence ≤ sequence)
      → ideal_put c.max_bytes new i k ≡ some new
  unfolding ideal_put
  ideal_mine k hit fits le =
      let same : i k ≡ i key = ap i (sym (key_eq-eq key k hit)) in
      let n = newest-new (i key) le in rw (same, hit, n) (ground (arith, fits))

  -- The new result is in, and the newest.
  stored-Refines :
      (es : List Entry) (b : ℕ)
      → entry_size r err ≤ c.max_bytes
      → Distinct es
      → ((e : Entry) → i key ≡ some e → e.sequence ≤ sequence)
      → ((k : Key) → key_eq key k ≡ false → find k es ≡ find k c.entries)
      → insert c new es b ≡ some d
      → find key d.entries ≡ some new
      → Refines d (ideal_put c.max_bytes new i)
  stored-Refines es b fits dist le same ins mine = record {
    distinct = (floor_of-put key r err sequence c d ref.distinct h key).1;
    answers = λ k e f. elim (Bool-cases (key_eq key k)) [
      | inl hit ↦ ideal_mine k hit fits le ∙ sym mine ∙ find-eq key k d.entries hit ∙ f
      | inr miss ↦ elim (insert_finds c d new es b k dist miss ins) [
        | inl gone ↦ cc
        | inr kept ↦ ideal_other k miss ∙ ref.answers k e (sym (same k miss) ∙ sym kept ∙ f)
      ]
    ];
    covers = λ k e f. elim (Bool-cases (key_eq key k)) [
      | inl hit ↦
          let g : find k d.entries ≡ some e =
            sym (find-eq key k d.entries hit) ∙ mine ∙ sym (ideal_mine k hit fits le) ∙ f in
          unfold floor_of in ground (arith, g)
      | inr miss ↦
          let g = ref.covers k e (sym (ideal_other k miss) ∙ f) in
          omega (arith, g, (floor_of-put key r err sequence c d ref.distinct h k).0)
    ];
  }

  replaced-Refines : Replaced key r err sequence c → Refines d (ideal_put c.max_bytes new i)
  replaced-Refines (e, found, newer, fits, x) =
      stored-Refines (without key c.entries) (c.bytes - e.bytes) fits
        (Distinct-without key c.entries ref.distinct)
        (λ e' q. ground (arith, q, ref.answers key e found, newer))
        (λ k miss. find-without key k c.entries ref.distinct ∙ rw miss refl) (sym x ∙ h)
        (replaced key r err sequence c d ref.distinct h e found newer (sym x ∙ h)).1

  added-Refines : Added key r err sequence c → Refines d (ideal_put c.max_bytes new i)
  added-Refines (absent, newer, fits, x) =
      stored-Refines c.entries c.bytes fits ref.distinct
        (λ e q. let g = ref.covers key e q in unfold floor_of in ground (arith, g, absent, newer))
        (λ k miss. refl) (sym x ∙ h)
        (added key r err sequence c d ref.distinct h absent newer (sym x ∙ h)).1

  -- The ideal cache is as before, and so is the cache.
  same-Refines :
      ((k : Key) → ideal_put c.max_bytes new i k ≡ i k) → Refines c (ideal_put c.max_bytes new i)
  same-Refines same = record {
    distinct = ref.distinct;
    answers = λ k e f. same k ∙ ref.answers k e f;
    covers = λ k e f. ref.covers k e (sym (same k) ∙ f);
  }

  large-Refines : c.max_bytes < entry_size r err → Refines c (ideal_put c.max_bytes new i)
  unfolding ideal_put
  large-Refines large = same-Refines (λ k. ground (arith, large))

  older-Refines :
      (e : Entry)
      → find key c.entries ≡ some e
      → sequence < e.sequence
      → Refines c (ideal_put c.max_bytes new i)
  unfolding ideal_put
  older-Refines e found older = same-Refines (λ k. elim (Bool-cases (key_eq key k)) [
    | inl hit ↦
        let q : i k ≡ some e = ap i (sym (key_eq-eq key k hit)) ∙ ref.answers key e found in
        rw q (ground (arith, hit, older))
    | inr miss ↦ ideal_other k miss
  ])

  -- The key has no answer, and its new result is older than an evicted one.
  evicted_covers :
      (k : Key) (o : Option Entry) (e : Entry)
      → find k c.entries ≡ none
      → sequence ≤ c.evicted_sequence
      → ((e' : Entry) → o ≡ some e' → e'.sequence ≤ floor_of k c.entries c.evicted_sequence)
      → newest new o ≡ e
      → e.sequence ≤ floor_of k c.entries c.evicted_sequence
  unfolding floor_of
  evicted_covers k none e absent old le f = ground (arith, absent, old, f)
  evicted_covers k (some e') e absent old le f =
      let l = le e' refl in ground (arith, absent, old, f, l)

  absent_covers :
      (k : Key) (e : Entry)
      → key_eq key k ≡ true
      → find key c.entries ≡ none
      → sequence ≤ c.evicted_sequence
      → ideal_put c.max_bytes new i k ≡ some e
      → e.sequence ≤ floor_of k c.entries c.evicted_sequence
  unfolding ideal_put
  absent_covers k e hit absent old f =
      let gone : find k c.entries ≡ none = sym (find-eq key k c.entries hit) ∙ absent in
      elim (Bool-cases (ltb c.max_bytes (entry_size r err))) [
        | inl large ↦ ref.covers k e (ground (arith, f, large))
        | inr fits ↦
            evicted_covers k (i k) e gone old (λ e' q. ref.covers k e' q)
              (ground (arith, f, fits, hit))
      ]

  absent-Refines :
      find key c.entries ≡ none
      → sequence ≤ c.evicted_sequence
      → Refines c (ideal_put c.max_bytes new i)
  absent-Refines absent old = record {
    distinct = ref.distinct;
    answers = λ k e f. elim (Bool-cases (key_eq key k)) [
      | inl hit ↦
          let gone : find k c.entries ≡ none = sym (find-eq key k c.entries hit) ∙ absent in cc
      | inr miss ↦ ideal_other k miss ∙ ref.answers k e f
    ];
    covers = λ k e f. elim (Bool-cases (key_eq key k)) [
      | inl hit ↦ absent_covers k e hit absent old f
      | inr miss ↦ ref.covers k e (sym (ideal_other k miss) ∙ f)
    ];
  }

  ignored-Refines : Ignored key r err sequence c → Refines d (ideal_put c.max_bytes new i)
  ignored-Refines (same, why) =
      let eq : c ≡ d = ground (arith, same, h) in
      subst (λ z. Refines z (ideal_put c.max_bytes new i)) eq
        (elim why [
          | inl large ↦ large-Refines large
          | inr (inl (e, found, older)) ↦ older-Refines e found older
          | inr (inr (absent, old)) ↦ absent-Refines absent old
        ])

  -- Storing a result, in a cache that refines an ideal one, gives a cache that refines the ideal one
  -- with that result put, whether the cache stores it, evicting others, or refuses it.
  pub put-Refines : Refines d (ideal_put c.max_bytes (new_entry key r err sequence c) i)
  put-Refines = elim (put-cases key r err sequence c) [
    | inl x ↦ ignored-Refines x
    | inr (inl x) ↦ replaced-Refines x
    | inr (inr x) ↦ added-Refines x
  ]

-- A cache refines the ideal one that has its own entries.
pub find-Refines : (c : Cache) → Distinct c.entries → Refines c (λ k. find k c.entries)
find-Refines c dist = record {
  distinct = dist;
  answers = λ k e f. f;
  covers = λ k e f. unfold floor_of in ground (arith, f);
}
