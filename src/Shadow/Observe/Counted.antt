-- ===== src/Shadow/Observe/Counted.antt =====
-- `observeKeyed` keeps the tracked-keys counts.
use mathlib.Core.Path.{subst}
use confidential_model_route.Common.{
  ℕ, ◌+◌, ◌*◌, ◌≡◌, refl, sym, ap, ◌∙◌, ◌⊎◌, inl, inr, Option, none, some, List, arith, leb, ◌==◌,
  Bool-cases, Option-cases, length, Text, text_eq, text_eq-eq, text_eq_refl, map_at, map_put,
  map_at-put, map_at-delete, map_delete,
}
use confidential_model_route.Hrw.{Candidate, Decision}
use confidential_model_route.Shadow.{
  Group, Entry, Shadow, count_at, shift_count, new_entry, touch, evict, make_room, insert,
  bump_rate, oldest_of,
}
use confidential_model_route.Shadow.Observe.{
  Knobs, Reuse, look_up, placed, observe_keyed, still_warm,
}
use confidential_model_route.Shadow.Counts.{group_of, tally}
use confidential_model_route.Shadow.Table.{
  Distinct, Distinct-delete, tally-delete_none, unplaced, tally-cons, IsCounted, store-IsCounted,
  evict-fields, evict-IsCounted,
}

make_room-cases :
    (s t : Shadow) → make_room s ≡ some t → (s ≡ t) ⊎ ((k : Text) × (evict k s ≡ some t))
unfolding make_room
make_room-cases s t h = elim (Bool-cases (leb s.max_keys (length s.entries))) [
  | inr e ↦ inl (ground (arith, e, h))
  | inl e ↦ elim (Option-cases (oldest_of s.entries s.lists none)) [
    | inl o ↦ absurd (ground (arith, e, o, h))
    | inr (none, o) ↦ inl (ground (arith, e, o, h))
    | inr (some (k, seen), o) ↦ inr (k, ground (arith, e, o, h))
  ]
]

make_room-lem :
    (owner : Text → Text) (s t : Shadow) (k : Text)
    → IsCounted owner s
    → map_at k s.entries ≡ none
    → make_room s ≡ some t
    → IsCounted owner t × (map_at k t.entries ≡ none)
make_room-lem owner s t k v absent h = elim (make_room-cases s t h) [
  | inl same ↦
      subst (λ (z : Shadow). IsCounted owner z × (map_at k z.entries ≡ none)) same (v, absent)
  | inr (j, x) ↦
      let (e, at, es, cs) = evict-fields s t j x in
      (
        evict-IsCounted owner s t j v x,
        ap (map_at k) es ∙ ground (arith, map_at-delete j k s.entries, absent),
      )
]

-- The table has an entry for the key, in the group of `e`.
pub record Sighted (owner : Text → Text) (k : Text) (e : Entry) (s : Shadow) : Type 0 where
  pub stored : Entry
  pub at : map_at k s.entries ≡ some stored
  pub group : group_of e ≡ group_of stored
  pub counted : IsCounted owner s

insert-Sighted :
    (owner : Text → Text) (s t : Shadow) (k : Text) (retention : ℕ) (e : Entry)
    → IsCounted owner s
    → map_at k s.entries ≡ none
    → insert (owner k) k retention s ≡ some (e, t)
    → Sighted owner k e t
unfolding insert
insert-Sighted owner s t k retention e v absent h = elim (Option-cases (make_room s)) [
  | inl o ↦ absurd (ground (arith, o, h))
  | inr (u, o) ↦
      let (w, gone) = make_room-lem owner s u k v absent o in
      let new = new_entry (owner k) retention in
      let same : new ≡ e = ground (arith, o, h) in
      let es : t.entries ≡ map_put k new u.entries = ground (arith, o, h) in
      let cs : t.counts ≡ u.counts = ground (arith, o, h) in
      record {
        stored = new;
        at = ap (map_at k) es ∙ ground (arith, map_at-put k k new u.entries, text_eq_refl k);
        group = sym (ap group_of same);
        counted = record {
          distinct = subst Distinct (sym es) (
            ground (arith, map_at-delete k k u.entries, text_eq_refl k),
            Distinct-delete k u.entries w.distinct,
          );
          owned = λ j x i.
              let there : map_at j (map_put k new u.entries) ≡ some x =
                sym (ap (map_at j) es) ∙ i in
              elim (Bool-cases (text_eq k j)) [
                | inl hit ↦
                    let fresh : new ≡ x =
                      ground (arith, map_at-put k j new u.entries, there, hit) in
                    sym (ap (λ (y : Entry). y.model) fresh) ∙ ap owner (text_eq-eq k j hit)
                | inr miss ↦ w.owned j x (ground (arith, map_at-put k j new u.entries, there, miss))
              ];
          counted = λ g named. omega (
            arith,
            ap (count_at g) cs,
            ap (tally g) es,
            w.counted g named,
            tally-cons g k new (map_delete k u.entries),
            tally-delete_none g k u.entries gone,
            unplaced (owner k) 0 g named,
          );
        };
      }
]

touch-keeps :
    (k : Text) (e : Entry) (retention : ℕ) (s : Shadow)
    → ((touch k e retention s).1.entries ≡ s.entries)
      × ((touch k e retention s).1.counts ≡ s.counts)
      × (group_of (touch k e retention s).0 ≡ group_of e)
unfolding touch
touch-keeps k e retention s = elim (Bool-cases (e.retention == retention)) [
  | inl h ↦ rw (h, touch) (refl, refl, refl)
  | inr h ↦ rw (h, touch) (refl, refl, refl)
]

pub same_table :
    (owner : Text → Text) (s t : Shadow)
    → t.entries ≡ s.entries
    → t.counts ≡ s.counts
    → IsCounted owner s
    → IsCounted owner t
same_table owner s t es cs v = record {
  distinct = subst Distinct (sym es) v.distinct;
  owned = λ k e i. v.owned k e (sym (ap (map_at k) es) ∙ i);
  counted = λ g named. ap (count_at g) cs ∙ v.counted g named ∙ ap (tally g) (sym es);
}

look_up-Sighted :
    (owner : Text → Text) (k host : Text) (now retention : ℕ) (s t : Shadow) (reuse : Reuse)
    (e : Entry)
    → IsCounted owner s
    → look_up (owner k) k host now retention s ≡ some (reuse, e, t)
    → Sighted owner k e t
unfolding look_up
look_up-Sighted owner k host now retention s t reuse e v h =
    elim (Option-cases (map_at k s.entries)) [
      | inl absent ↦ elim (Option-cases (insert (owner k) k retention s)) [
        | inl o ↦ absurd (ground (arith, absent, o, h))
        | inr ((f, u), o) ↦
            let ef : f ≡ e = ground (arith, absent, o, h) in
            let ut : u ≡ t = ground (arith, absent, o, h) in
            insert-Sighted owner s t k retention e v absent (o ∙ ap some (λ i. (ef i, ut i)))
      ]
      | inr (f, found) ↦
          let (es, cs, gs) = touch-keeps k f retention s in
          let (e', s') = touch k f retention s in
          let warm = still_warm now retention e'.warm in
          let same : record e' { warm = warm } ≡ e = ground (arith, found, h) in
          let left : s' ≡ t = ground (arith, found, h) in
          record {
            stored = f;
            at = ap (λ (z : Shadow). map_at k z.entries) (sym left) ∙ ap (map_at k) es ∙ found;
            group = ap group_of (sym same) ∙ gs;
            counted = subst (IsCounted owner) left (same_table owner s s' es cs v);
          }
    ]

bump_rate-group : (now : ℕ) (e : Entry) → group_of (bump_rate now e).1 ≡ group_of e
unfolding bump_rate
bump_rate-group now e = ground arith

-- Recording where a request landed keeps the tracked-keys counts equal to those of the table: for
-- every model, home and replication factor, the number of keys that the table has in that group.
-- This includes the eviction that a new key may need. `owner` gives the model of a table key.
pub observe_keyed-IsCounted :
    (owner : Text → Text) (score : Text → ℕ) (k : Text) (candidates : List Candidate) (host : Text)
    (d : Option Decision) (knobs : Knobs) (now : ℕ) (s t : Shadow) (reuse : Reuse)
    → IsCounted owner s
    → observe_keyed score (owner k) k candidates host d knobs now s ≡ some (reuse, t)
    → IsCounted owner t
unfolding observe_keyed
observe_keyed-IsCounted owner score k candidates host d knobs now s t reuse v h =
    elim (Option-cases (look_up (owner k) k host now knobs.retention s)) [
      | inl o ↦ absurd (ground (arith, o, h))
      | inr ((first, e, u), o) ↦
          elim (Option-cases (placed score knobs (bump_rate now e).0 d candidates)) [
            | inl q ↦ absurd (ground (arith, o, q, h))
            | inr ((home, r, demoted), q) ↦
                let bumped = (bump_rate now e).1 in
                let f : Entry = record bumped {
                  warm = map_put host now bumped.warm;
                  last_seen = now;
                  expiry = now + 4 * knobs.retention;
                  home = home;
                  r = r;
                } in
                let w = look_up-Sighted owner k host now knobs.retention s u first e v o in
                let es : t.entries ≡ map_put k f u.entries = ground (arith, o, q, h) in
                let cs : t.counts ≡ shift_count (owner k) bumped.home bumped.r home r u.counts =
                  ground (arith, o, q, h) in
                let g = bump_rate-group now e ∙ w.group in
                store-IsCounted owner u t k w.stored f w.counted w.at
                  (ap (λ (x : Group). x.model) g ∙ w.counted.owned k w.stored w.at) es
                  (cs ∙ ap (λ (x : Group). shift_count (owner k) x.home x.r home r u.counts) g)
          ]
    ]
