-- ===== src/RouteContext/Cache/Eviction.antt =====
-- What making room and inserting an entry do to the other keys.
use mathlib.Core.Path.{subst₂, subst}
use confidential_model_route.Common.{
  ℕ, ◌+◌, ◌-◌, ◌≤◌, max, ◌≡◌, refl, sym, ap, ◌∙◌, inl, inr, true, false, none, some, List, ◌∷◌,
  ◌++◌, arith, ltb, if◌then◌else◌, Bool-cases, Option-cases, if-either, text_eq-eq, text_eq_refl,
  [],
}
use confidential_model_route.RouteContext.Cache.{
  Key, Entry, Cache, key_eq, find, without, evict, insert,
}

pub key_eq-eq : (a b : Key) → key_eq a b ≡ true → a ≡ b
unfolding key_eq
key_eq-eq a b h = λ i. record {
  credential = text_eq-eq a.credential b.credential (ground arith) i;
  model = text_eq-eq a.model b.model (ground arith) i;
}

pub key_eq_refl : (a : Key) → key_eq a a ≡ true
unfolding key_eq
key_eq_refl a = ground (arith, text_eq_refl a.credential, text_eq_refl a.model)

key_eq_sym : (a b : Key) → key_eq a b ≡ key_eq b a
key_eq_sym a b = elim (Bool-cases (key_eq a b)) [
  | inl e ↦ let same = key_eq-eq a b e in rw same refl
  | inr e ↦ elim (Bool-cases (key_eq b a)) [
    | inl f ↦ let same = key_eq-eq b a f in rw same refl
    | inr f ↦ e ∙ sym f
  ]
]

-- At most one entry for a key, as in the Go map.
abbrev pub Distinct : List Entry → Type 0
Distinct [] = Unit {0}
Distinct (e ∷ es) = (find e.key es ≡ none) × Distinct es

-- Results older than this sequence number are too old for the key.
unfoldable pub floor_of : Key → List Entry → ℕ → ℕ
floor_of k es evicted = elim (find k es) [ none ↦ evicted | some e ↦ e.sequence ]

pub find-append :
    (k : Key) (xs ys : List Entry)
    → find k (xs ++ ys) ≡ elim (find k xs) [ none ↦ find k ys | some e ↦ some e ]
unfolding find
find-append k [] ys = refl
find-append k (x ∷ xs) ys = ground (arith, find-append k xs ys)

pub find-eq : (a b : Key) (es : List Entry) → key_eq a b ≡ true → find a es ≡ find b es
find-eq a b es h = ap (λ k. find k es) (key_eq-eq a b h)

pub find-without :
    (k j : Key) (es : List Entry)
    → Distinct es
    → find j (without k es) ≡ (if key_eq k j then none else find j es)
unfolding find without
find-without k j [] d = ground arith
find-without k j (e ∷ es) d = elim (Bool-cases (key_eq e.key k)) [
  | inl hit ↦
      let same : key_eq e.key j ≡ key_eq k j = ap (λ x. key_eq x j) (key_eq-eq e.key k hit) in
      elim (Bool-cases (key_eq k j)) [
        | inl kj ↦
            let gone : find j es ≡ none = sym (find-eq e.key j es (same ∙ kj)) ∙ d.0 in ground arith
        | inr other ↦ ground arith
      ]
  | inr miss ↦ elim (Bool-cases (key_eq k j)) [
    | inl kj ↦
        let same : key_eq e.key k ≡ key_eq e.key j = ap (key_eq e.key) (key_eq-eq k j kj) in
        ground (arith, find-without k j es d.1)
    | inr other ↦ ground (arith, find-without k j es d.1)
  ]
]

-- What eviction keeps it keeps as it was, and the bound rises over all that it drops.
abbrev pub Kept : List Entry → List Entry → ℕ → ℕ → Type 0
Kept es kept evicted last =
    (evicted ≤ last)
    × Distinct kept
    × ((k : Key) → floor_of k es evicted ≤ floor_of k kept last)
    × ((k : Key) → find k es ≡ none → find k kept ≡ none)

Kept-refl : (es : List Entry) (evicted : ℕ) → Distinct es → Kept es es evicted evicted
Kept-refl es evicted d = (omega arith, d, λ k. omega arith, λ k x. x)

floor_of_mono : (k : Key) (es : List Entry) (a b : ℕ) → a ≤ b → floor_of k es a ≤ floor_of k es b
unfolding floor_of
floor_of_mono k es a b h = ground arith

-- The bound of the entries behind a dropped one covers the dropped one too.
floor_of-drop :
    (k : Key) (e : Entry) (es : List Entry) (evicted : ℕ)
    → find e.key es ≡ none
    → floor_of k (e ∷ es) evicted ≤ floor_of k es (max evicted e.sequence)
unfolding floor_of find
floor_of-drop k e es evicted d = elim (Bool-cases (key_eq e.key k)) [
  | inl hit ↦ let gone : find k es ≡ none = sym (find-eq e.key k es hit) ∙ d in ground arith
  | inr miss ↦ ground arith
]

find-drop : (k : Key) (e : Entry) (es : List Entry) → find k (e ∷ es) ≡ none → find k es ≡ none
unfolding find
find-drop k e es h = ground arith

evict-Kept :
    (size limit : ℕ) (es : List Entry) (bytes evicted : ℕ) (kept : List Entry) (b last : ℕ)
    → Distinct es
    → evict size limit es bytes evicted ≡ some (kept, b, last)
    → Kept es kept evicted last
unfolding evict
evict-Kept size limit [] bytes evicted kept b last d h =
    let same : [] ≡ kept = ground arith in
    let end : evicted ≡ last = ground arith in
    subst₂ (λ ks l. Kept [] ks evicted l) same end (Kept-refl [] evicted d)
evict-Kept size limit (e ∷ es) bytes evicted kept b last d h =
    elim (Bool-cases (ltb limit (bytes + size))) [
      | inl full ↦
          let r =
            evict-Kept size limit es (bytes - e.bytes) (max evicted e.sequence) kept b last d.1
              (ground arith) in
          (
            omega (arith, r.0),
            r.1,
            λ k. omega (arith, floor_of-drop k e es evicted d.0, r.2 k),
            λ k x. r.3 k (find-drop k e es x),
          )
      | inr fits ↦
          let same : e ∷ es ≡ kept = ground arith in
          let end : evicted ≡ last = ground arith in
          subst₂ (λ ks l. Kept (e ∷ es) ks evicted l) same end (Kept-refl (e ∷ es) evicted d)
    ]

pub Distinct-snoc :
    (es : List Entry) (new : Entry)
    → Distinct es
    → find new.key es ≡ none
    → Distinct (es ++ new ∷ [])
unfolding find
Distinct-snoc [] new d h = (refl, tt)
Distinct-snoc (e ∷ es) new d h = (
  ground (arith, find-append e.key es (new ∷ []), key_eq_sym new.key e.key, d.0),
  Distinct-snoc es new d.1 (find-drop new.key e es h),
)

pub Distinct-without : (k : Key) (es : List Entry) → Distinct es → Distinct (without k es)
unfolding without
Distinct-without k [] d = tt
Distinct-without k (e ∷ es) d = elim (Bool-cases (key_eq e.key k)) [
  | inl hit ↦ rw hit d.1
  | inr miss ↦ rw miss (
    find-without k e.key es d.1
        ∙ elim (if-either (key_eq k e.key) none (find e.key es)) [ inl x ↦ x | inr x ↦ x ∙ d.0 ],
    Distinct-without k es d.1,
  )
]

find-snoc_self :
    (new : Entry) (es : List Entry)
    → find new.key es ≡ none
    → find new.key (es ++ new ∷ []) ≡ some new
unfolding find
find-snoc_self new es gone =
    ground (arith, find-append new.key es (new ∷ []), key_eq_refl new.key, gone)

floor_of-snoc :
    (k : Key) (new : Entry) (es : List Entry) (last : ℕ)
    → key_eq new.key k ≡ false
    → floor_of k (es ++ new ∷ []) last ≡ floor_of k es last
unfolding floor_of find
floor_of-snoc k new es last other = ground (arith, find-append k es (new ∷ []))

pub insert-Kept :
    (c d : Cache) (new : Entry) (es : List Entry) (bytes : ℕ)
    → Distinct es
    → find new.key es ≡ none
    → insert c new es bytes ≡ some d
    → Distinct d.entries
      × (find new.key d.entries ≡ some new)
      × ((k : Key)
          → key_eq new.key k ≡ false
          → floor_of k es c.evicted_sequence ≤ floor_of k d.entries d.evicted_sequence)
unfolding insert
insert-Kept c d new es bytes dist absent h =
    elim (Option-cases (evict new.bytes c.max_bytes es bytes c.evicted_sequence)) [
      | inl e ↦ absurd (ground arith)
      | inr ((kept, b, last), e) ↦
          let r = evict-Kept new.bytes c.max_bytes es bytes c.evicted_sequence kept b last dist e in
          let held : kept ++ new ∷ [] ≡ d.entries = ground arith in
          let bound : last ≡ d.evicted_sequence = ground arith in
          let gone = r.3 new.key absent in
          (
            subst Distinct held (Distinct-snoc kept new r.1 gone),
            subst (λ es. find new.key es ≡ some new) held (find-snoc_self new kept gone),
            λ k other.
                subst₂ (λ ks l. floor_of k es c.evicted_sequence ≤ floor_of k ks l) held bound
                  (omega (arith, r.2 k, floor_of-snoc k new kept last other)),
          )
    ]
