-- ===== src/RouteContext/Cache/Others.antt =====
-- What storing a result does to the results of other keys.
use confidential_model_route.Common.{
  ℕ, ◌+◌, ◌-◌, max, ◌≡◌, sym, ap, ◌∙◌, ◌⊎◌, inl, inr, false, none, some, List, [], ◌∷◌, ◌++◌, arith,
  ltb, Bool-cases, Option-cases,
}
use confidential_model_route.RouteContext.Cache.{Key, Entry, Cache, key_eq, find, evict, insert}
use confidential_model_route.RouteContext.Cache.Eviction.{Distinct, find-eq, find-append}

evict_finds :
    (size limit : ℕ) (es : List Entry) (bytes evicted : ℕ) (kept : List Entry) (b last : ℕ)
    (k : Key)
    → Distinct es
    → evict size limit es bytes evicted ≡ some (kept, b, last)
    → (find k kept ≡ none) ⊎ (find k kept ≡ find k es)
unfolding evict
evict_finds size limit [] bytes evicted kept b last k d h =
    let same : [] ≡ kept = ground arith in inr (ap (find k) (sym same))
evict_finds size limit (e ∷ es) bytes evicted kept b last k d h =
    elim (Bool-cases (ltb limit (bytes + size))) [
      | inl full ↦
          let r =
            evict_finds size limit es (bytes - e.bytes) (max evicted e.sequence) kept b last k d.1
              (ground arith) in
          elim (Bool-cases (key_eq e.key k)) [
            | inl hit ↦
                let gone : find k es ≡ none = sym (find-eq e.key k es hit) ∙ d.0 in
                inl (elim r [ inl n ↦ n | inr s ↦ s ∙ gone ])
            | inr miss ↦ elim r [
              | inl n ↦ inl n
              | inr s ↦ inr (s ∙ (unfold find in ground (arith, miss)))
            ]
          ]
      | inr fits ↦ let same : e ∷ es ≡ kept = ground arith in inr (ap (find k) (sym same))
    ]

-- An insertion leaves another key's result or evicts it.
pub insert_finds :
    (c d : Cache) (new : Entry) (es : List Entry) (b : ℕ) (k : Key)
    → Distinct es
    → key_eq new.key k ≡ false
    → insert c new es b ≡ some d
    → (find k d.entries ≡ none) ⊎ (find k d.entries ≡ find k es)
unfolding insert
insert_finds c d new es b k dist miss h =
    elim (Option-cases (evict new.bytes c.max_bytes es b c.evicted_sequence)) [
      | inl e ↦ ground (arith, e, h)
      | inr ((kept, b', last), e) ↦
          let same : kept ++ new ∷ [] ≡ d.entries = ground (arith, e, h) in
          let f : find k d.entries ≡ find k kept =
            ap (find k) (sym same)
            ∙ find-append k kept (new ∷ [])
            ∙ (unfold find in ground (arith, miss)) in
          elim (evict_finds new.bytes c.max_bytes es b c.evicted_sequence kept b' last k dist e) [
            | inl n ↦ inl (f ∙ n)
            | inr s ↦ inr (f ∙ s)
          ]
    ]
