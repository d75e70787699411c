-- ===== src/RouteContext/Cache/History.antt =====
-- The cache over a history of lookups and stored results, against the ideal one.
use mathlib.Core.Path.{subst}
use confidential_model_route.Common.{
  ℕ, ◌-◌, ◌≡◌, refl, sym, ap, ◌∙◌, inl, inr, true, false, Option, none, some, List, [], ◌∷◌, ◌++◌,
  arith, Bool-cases, Option-cases,
}
use confidential_model_route.RouteContext.{RouteContext, RouteContextError, countdown}
use confidential_model_route.RouteContext.Cache.{
  Key, Entry, Cache, key_eq, find, without, entry_size, insert, put, get, evict,
}
use confidential_model_route.RouteContext.Cache.Cases.{new_entry, put-cases}
use confidential_model_route.RouteContext.Cache.Eviction.{
  Distinct, Distinct-without, Distinct-snoc, floor_of, find-eq, find-append, find-without,
  key_eq_refl, key_eq-eq,
}
use confidential_model_route.RouteContext.Cache.Ideal.{IdealCache, ideal_put, Refines, put-Refines}

key_of_found : (k : Key) (es : List Entry) (e : Entry) → find k es ≡ some e → key_eq e.key k ≡ true
unfolding find
key_of_found k [] e h = ground (arith, h)
key_of_found k (x ∷ xs) e h = elim (Bool-cases (key_eq x.key k)) [
  | inl hit ↦
      let same : x ≡ e = ground (arith, h, hit) in subst (λ y. key_eq y.key k ≡ true) same hit
  | inr miss ↦ key_of_found k xs e (ground (arith, h, miss))
]

-- The list with the entry of a key moved to its end
abbrev moved : Key → Entry → List Entry → List Entry
moved key e es = without key es ++ e ∷ []

find-moved :
    (key k : Key) (e : Entry) (es : List Entry)
    → Distinct es
    → find key es ≡ some e
    → find k (moved key e es) ≡ find k es
find-moved key k e es dist found =
    let same : e.key ≡ key = key_eq-eq e.key key (key_of_found key es e found) in
    find-append k (without key es) (e ∷ [])
    ∙ rw (find-without key k es dist) (elim (Bool-cases (key_eq key k)) [
      | inl hit ↦
          let ek : key_eq e.key k ≡ true = ap (λ x. key_eq x k) same ∙ hit in
          let fk : find k es ≡ some e = sym (find-eq key k es hit) ∙ found in
          unfold find in ground (arith, hit, ek, fk)
      | inr miss ↦
          let ek : key_eq e.key k ≡ false = ap (λ x. key_eq x k) same ∙ miss in
          unfold find in ground (arith, miss, ek)
    ])

Distinct-moved :
    (key : Key) (e : Entry) (es : List Entry)
    → Distinct es
    → find key es ≡ some e
    → Distinct (moved key e es)
Distinct-moved key e es dist found =
    let same : e.key ≡ key = key_eq-eq e.key key (key_of_found key es e found) in
    Distinct-snoc (without key es) e (Distinct-without key es dist) (
      ap (λ x. find x (without key es)) same
      ∙ find-without key key es dist
      ∙ rw (key_eq_refl key) refl)

moved-Refines :
    (c : Cache) (i : IdealCache) (key : Key) (e : Entry)
    → Refines c i
    → find key c.entries ≡ some e
    → Refines (record c { entries = moved key e c.entries }) i
moved-Refines c i key e ref found = record {
  distinct = Distinct-moved key e c.entries ref.distinct found;
  answers = λ k x f. ref.answers k x (sym (find-moved key k e c.entries ref.distinct found) ∙ f);
  covers = λ k x f.
      let g = ref.covers k x f in
      let m = find-moved key k e c.entries ref.distinct found in
      unfold floor_of in ground (arith, g, m);
}

get_moves :
    (now : ℕ) (key : Key) (c d : Cache) (e : Entry)
    (answer : RouteContext × Option RouteContextError)
    → find key c.entries ≡ some e
    → get now key c ≡ some (answer, d)
    → record c { entries = moved key e c.entries } ≡ d
unfolding get
get_moves now key c d e answer found h = elim (Option-cases e.resolved.rate_limit) [
  | inl f ↦ ground (arith, found, h, f)
  | inr (l, f) ↦ elim (Option-cases (countdown now l)) [
    | inl g ↦ ground (arith, found, h, f, g)
    | inr (x, g) ↦ ground (arith, found, h, f, g)
  ]
]

-- A lookup changes nothing that the ideal cache sees.
get-Refines :
    (now : ℕ) (key : Key) (c d : Cache) (i : IdealCache)
    (answer : RouteContext × Option RouteContextError)
    → Refines c i
    → get now key c ≡ some (answer, d)
    → Refines d i
unfolding get
get-Refines now key c d i answer ref h = elim (Option-cases (find key c.entries)) [
  | inl none_there ↦ subst (λ z. Refines z i) (ground (arith, h, none_there)) ref
  | inr (e, found) ↦
      subst (λ z. Refines z i) (get_moves now key c d e answer found h)
        (moved-Refines c i key e ref found)
]

pub data Op : Type 0 where
  store : Key → RouteContext → Option RouteContextError → ℕ → Op
  look_up : ℕ → Key → Op

-- The cache after an operation
unfoldable pub step : Op → Cache → Option Cache
step (store key r err sequence) c = put key r err sequence c
step (look_up now key) c = elim (get now key c) [ none ↦ none | some (answer, d) ↦ some d ]

unfoldable pub run : List Op → Cache → Option Cache
unfolding step
run [] c = some c
run (o ∷ os) c = elim (step o c) [ none ↦ none | some d ↦ run os d ]

-- The ideal cache with room for everything below the limit
pub ideal_step : ℕ → Op → IdealCache → IdealCache
ideal_step limit (store key r err sequence) i =
    ideal_put limit
      (record {
        key = key;
        resolved = r;
        error = err;
        sequence = sequence;
        bytes = entry_size r err;
      })
      i
ideal_step limit (look_up now key) i = i

pub ideal_run : ℕ → List Op → IdealCache → IdealCache
unfolding ideal_step
ideal_run limit [] i = i
ideal_run limit (o ∷ os) i = ideal_run limit os (ideal_step limit o i)

step-Refines :
    (o : Op) (c d : Cache) (i : IdealCache)
    → Refines c i
    → step o c ≡ some d
    → Refines d (ideal_step c.max_bytes o i)
unfolding step ideal_step
step-Refines (store key r err sequence) c d i ref h = put-Refines key r err sequence c d i ref h
step-Refines (look_up now key) c d i ref h = elim (Option-cases (get now key c)) [
  | inl f ↦ absurd (ground (arith, h, f))
  | inr ((answer, d'), f) ↦
      subst (λ z. Refines z i) (ground (arith, h, f)) (get-Refines now key c d' i answer ref f)
]

insert_limit :
    (c d : Cache) (new : Entry) (es : List Entry) (b : ℕ)
    → insert c new es b ≡ some d
    → d.max_bytes ≡ c.max_bytes
unfolding insert
insert_limit c d new es b h =
    elim (Option-cases (evict new.bytes c.max_bytes es b c.evicted_sequence)) [
      | inl e ↦ absurd (ground (arith, h, e))
      | inr (x, e) ↦ ground (arith, h, e)
    ]

put_limit :
    (key : Key) (r : RouteContext) (err : Option RouteContextError) (sequence : ℕ) (c d : Cache)
    → put key r err sequence c ≡ some d
    → d.max_bytes ≡ c.max_bytes
put_limit key r err sequence c d h = elim (put-cases key r err sequence c) [
  | inl (same, why) ↦ ground (arith, same, h)
  | inr (inl (e, found, newer, fits, x)) ↦
      insert_limit c d (new_entry key r err sequence c) (without key c.entries) (c.bytes - e.bytes)
        (sym x ∙ h)
  | inr (inr (absent, newer, fits, x)) ↦
      insert_limit c d (new_entry key r err sequence c) c.entries c.bytes (sym x ∙ h)
]

step_limit : (o : Op) (c d : Cache) → step o c ≡ some d → d.max_bytes ≡ c.max_bytes
unfolding step
step_limit (store key r err sequence) c d h = put_limit key r err sequence c d h
step_limit (look_up now key) c d h = elim (Option-cases (get now key c)) [
  | inl f ↦ absurd (ground (arith, h, f))
  | inr ((answer, d'), f) ↦ elim (Option-cases (find key c.entries)) [
    | inl g ↦ unfold get in ground (arith, h, f, g)
    | inr (e, g) ↦
        let m = ap (λ (z : Cache). z.max_bytes) (get_moves now key c d' e answer g f) in
        ground (arith, h, f, m)
  ]
]

-- Whatever is stored and looked up, in any order, and whatever is evicted: what the cache then has
-- for a key is the ideal answer, the newest result of that key that fits, and no older one; and it
-- has at most one entry for each key.
pub run-Refines :
    (os : List Op) (c d : Cache) (i : IdealCache)
    → Refines c i
    → run os c ≡ some d
    → Refines d (ideal_run c.max_bytes os i)
unfolding run ideal_run
run-Refines [] c d i ref h = subst (λ z. Refines z i) (ground (arith, h)) ref
run-Refines (o ∷ os) c d i ref h = elim (Option-cases (step o c)) [
  | inl f ↦ absurd (ground (arith, h, f))
  | inr (c', f) ↦
      let h' : run os c' ≡ some d = ground (arith, h, f) in
      subst (λ n. Refines d (ideal_run n os (ideal_step c.max_bytes o i))) (step_limit o c c' f)
        (run-Refines os c' d (ideal_step c.max_bytes o i) (step-Refines o c c' i ref f) h')
]
