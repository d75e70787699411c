-- ===== src/Shadow/Table.antt =====
-- What the operations of the table keep.
use mathlib.Core.Path.{subst}
use confidential_model_route.Common.{
  ℕ, ◌+◌, ◌≤◌, ◌≡◌, refl, sym, ap, ◌∙◌, inl, inr, true, false, none, some, List, ◌∷◌, arith,
  Bool-cases, Option-cases, Text, text_eq, text_eq-eq, text_eq_refl, map_delete, map_at,
  map_at-delete, map_put, map_at-put, [],
}
use confidential_model_route.Shadow.{
  Group, Entry, Shadow, is_blank, group_eq, count_at, shift_count, evict,
}
use confidential_model_route.Shadow.Counts.{
  one_if, group_of, tally, group_eq_refl, blank_group, shift_count_lem,
}

abbrev pub Entries : Type 0
Entries = List (Text × Entry)

-- At most one entry for a key, as in the Go map.
abbrev pub Distinct : Entries → Type 0
Distinct [] = Unit {0}
Distinct ((k, e) ∷ es) = (map_at k es ≡ none) × Distinct es

pub Distinct-delete : (k : Text) (es : Entries) → Distinct es → Distinct (map_delete k es)
unfolding map_delete
Distinct-delete k [] d = tt
Distinct-delete k ((j, e) ∷ es) d = elim (Bool-cases (text_eq j k)) [
  | inl h ↦ rw (h, map_delete) (Distinct-delete k es d.1)
  | inr h ↦ rw (h, map_delete) (ground (arith, map_at-delete k j es, d.0), Distinct-delete k es d.1)
]

pub tally-delete_none :
    (g : Group) (k : Text) (es : Entries)
    → map_at k es ≡ none
    → tally g (map_delete k es) ≡ tally g es
unfolding tally map_delete map_at
tally-delete_none g k [] h = refl
tally-delete_none g k ((j, e) ∷ es) h = ground (arith, tally-delete_none g k es)

same_key : (j k : Text) (es : Entries) → text_eq j k ≡ true → map_at j es ≡ map_at k es
same_key j k es e = ap (λ i. map_at i es) (text_eq-eq j k e)

tally-delete :
    (g : Group) (k : Text) (es : Entries) (e : Entry)
    → Distinct es
    → map_at k es ≡ some e
    → tally g (map_delete k es) + one_if (group_eq (group_of e) g) ≡ tally g es
unfolding tally map_delete map_at
tally-delete g k [] e d h = cc
tally-delete g k ((j, f) ∷ es) e d h = elim (Bool-cases (text_eq j k)) [
  | inl hit ↦
      let same : f ≡ e = ground (arith, hit, h) in
      let gone : map_at k es ≡ none = sym (same_key j k es hit) ∙ d.0 in
      rw (hit, map_delete)
        (omega (
          arith,
          tally-delete_none g k es gone,
          ap (λ (x : Entry). one_if (group_eq (group_of x) g)) same,
        ))
  | inr miss ↦
      rw (miss, map_delete) (omega (arith, tally-delete g k es e d.1 (ground (arith, miss, h))))
]

-- The counts are those of the table, and each entry has the model of its key.
pub record IsCounted (owner : Text → Text) (s : Shadow) : Type 0 where
  pub distinct : Distinct s.entries
  pub owned : (k : Text) (e : Entry) → map_at k s.entries ≡ some e → e.model ≡ owner k
  pub counted : (g : Group) → is_blank g.home ≡ false → count_at g s.counts ≡ tally g s.entries

-- The group of a nonblank home is never that of a blank one.
pub unplaced :
    (model : Text) (r : ℕ) (g : Group)
    → is_blank g.home ≡ false
    → one_if (group_eq (record { model = model; home = []; r = r }) g) ≡ 0
unplaced model r g h = ground (arith, blank_group (record { model = model; home = []; r = r }) g)

-- An entry that has a home is counted.
tally-pos :
    (k : Text) (es : Entries) (e : Entry)
    → Distinct es
    → map_at k es ≡ some e
    → 1 ≤ tally (group_of e) es
tally-pos k es e d h =
    omega (arith, tally-delete (group_of e) k es e d h, ap one_if (group_eq_refl (group_of e)))

pub tally-cons :
    (g : Group) (k : Text) (e : Entry) (es : Entries)
    → tally g ((k, e) ∷ es) ≡ one_if (group_eq (group_of e) g) + tally g es
unfolding tally
tally-cons g k e es = refl

abbrev group_at : Text → Entry → Group
group_at model e = record { model = model; home = e.home; r = e.r }

has_count :
    (owner : Text → Text) (s : Shadow) (k : Text) (e : Entry)
    → IsCounted owner s
    → map_at k s.entries ≡ some e
    → is_blank e.home ≡ false
    → 1 ≤ count_at (group_at (owner k) e) s.counts
has_count owner s k e v h named =
    let same : group_of e ≡ group_at (owner k) e =
      λ i. record { model = v.owned k e h i; home = e.home; r = e.r } in
    omega (
      arith,
      v.counted (group_at (owner k) e) named,
      tally-pos k s.entries e v.distinct h,
      ap (λ x. tally x s.entries) same,
    )

-- Storing `f` for `e`, with its count shifted.
pub store-IsCounted :
    (owner : Text → Text) (s t : Shadow) (k : Text) (e f : Entry)
    → IsCounted owner s
    → map_at k s.entries ≡ some e
    → f.model ≡ owner k
    → t.entries ≡ map_put k f s.entries
    → t.counts ≡ shift_count (owner k) e.home e.r f.home f.r s.counts
    → IsCounted owner t
store-IsCounted owner s t k e f v h own es cs = record {
  distinct = subst Distinct (sym es) (
    ground (arith, map_at-delete k k s.entries, text_eq_refl k),
    Distinct-delete k s.entries v.distinct,
  );
  owned = λ j x i.
      let at : map_at j (map_put k f s.entries) ≡ some x = sym (ap (map_at j) es) ∙ i in
      elim (Bool-cases (text_eq k j)) [
        | inl hit ↦
            let same : f ≡ x = ground (arith, map_at-put k j f s.entries, at, hit) in
            sym (ap (λ (y : Entry). y.model) same) ∙ own ∙ ap owner (text_eq-eq k j hit)
        | inr miss ↦ v.owned j x (ground (arith, map_at-put k j f s.entries, at, miss))
      ];
  counted = λ g named.
      let was : group_of e ≡ group_at (owner k) e =
        λ i. record { model = v.owned k e h i; home = e.home; r = e.r } in
      let now_at : group_of f ≡ group_at (owner k) f =
        λ i. record { model = own i; home = f.home; r = f.r } in
      omega (
        arith,
        ap (count_at g) cs,
        ap (tally g) es,
        shift_count_lem (owner k) e.home e.r f.home f.r s.counts g named
            (has_count owner s k e v h),
        v.counted g named,
        tally-delete g k s.entries e v.distinct h,
        tally-cons g k f (map_delete k s.entries),
        ap (λ x. one_if (group_eq x g)) was,
        ap (λ x. one_if (group_eq x g)) now_at,
      );
}

pub evict-fields :
    (s t : Shadow) (k : Text)
    → evict k s ≡ some t
    → (e : Entry) × (map_at k s.entries ≡ some e)
      × (t.entries ≡ map_delete k s.entries)
      × (t.counts ≡ shift_count e.model e.home e.r [] 0 s.counts)
unfolding evict
evict-fields s t k h = elim (Option-cases (map_at k s.entries)) [
  | inl e ↦ absurd (ground (arith, e, h))
  | inr (e, i) ↦ (e, i, ground (arith, i, h), ground (arith, i, h))
]

pub evict-IsCounted :
    (owner : Text → Text) (s t : Shadow) (k : Text)
    → IsCounted owner s
    → evict k s ≡ some t
    → IsCounted owner t
evict-IsCounted owner s t k v h =
    let (e, at, es, cs) = evict-fields s t k h in
    record {
      distinct = subst Distinct (sym es) (Distinct-delete k s.entries v.distinct);
      owned = λ j x i.
          v.owned j x (ground (arith, map_at-delete k j s.entries, sym (ap (map_at j) es) ∙ i));
      counted = λ g named.
          let was : group_of e ≡ group_at (owner k) e =
            λ i. record { model = v.owned k e at i; home = e.home; r = e.r } in
          let cs' : t.counts ≡ shift_count (owner k) e.home e.r [] 0 s.counts =
            cs ∙ ap (λ m. shift_count m e.home e.r [] 0 s.counts) (v.owned k e at) in
          omega (
            arith,
            ap (count_at g) cs',
            ap (tally g) es,
            shift_count_lem (owner k) e.home e.r [] 0 s.counts g named (has_count owner s k e v at),
            v.counted g named,
            tally-delete g k s.entries e v.distinct at,
            unplaced (owner k) 0 g named,
            ap (λ x. one_if (group_eq x g)) was,
          );
    }
