-- ===== src/Shadow/Counts.antt =====
-- The tracked-keys counts are those of the table.
use mathlib.Core.Path.{subst}
use confidential_model_route.Common.{
  ℕ, ◌+◌, ◌-◌, ◌≤◌, ◌≡◌, ap, ◌↔◌, inl, inr, Bool, true, false, ◌&&◌, List, ◌∷◌, arith, ◌==◌,
  if◌then◌else◌, ==_iff, Bool-cases, Text, text_eq, text_eq-eq, text_eq_refl, [],
}
use confidential_model_route.Shadow.{
  Group, Entry, is_blank, group_eq, count_at, without_group, drop_count, add_count, shift_count,
}

pub group_eq_refl : (g : Group) → group_eq g g ≡ true
unfolding group_eq
group_eq_refl g = ground (arith, text_eq_refl g.model, text_eq_refl g.home)

group_eq-eq : (a b : Group) → group_eq a b ≡ true → a ≡ b
unfolding group_eq
group_eq-eq a b h = λ i. record {
  model = text_eq-eq a.model b.model (ground arith) i;
  home = text_eq-eq a.home b.home (ground arith) i;
  r = (==_iff a.r b.r).0 (ground arith) i;
}

group_eq_iff : (a b : Group) → group_eq a b ≡ true ↔ a ≡ b
group_eq_iff a b = (group_eq-eq a b, λ e. subst (λ x. group_eq a x ≡ true) e (group_eq_refl a))

count_at-without :
    (k g : Group) (cs : List (Group × ℕ))
    → count_at g (without_group k cs) ≡ (if group_eq k g then 0 else count_at g cs)
unfolding count_at without_group
count_at-without k g [] = ground arith
count_at-without k g ((j, n) ∷ cs) =
    ground (arith, count_at-without k g cs, group_eq_iff j k, group_eq_iff j g, group_eq_iff k g)

count_at-drop :
    (k g : Group) (cs : List (Group × ℕ))
    → count_at g (drop_count k cs) ≡ (if group_eq k g then count_at k cs - 1 else count_at g cs)
unfolding drop_count count_at
count_at-drop k g cs = ground (arith, count_at-without k g cs)

count_at-add :
    (k g : Group) (cs : List (Group × ℕ))
    → count_at g (add_count k cs) ≡ (if group_eq k g then count_at k cs + 1 else count_at g cs)
unfolding add_count count_at
count_at-add k g cs = ground (arith, count_at-without k g cs)

abbrev pub one_if : Bool → ℕ
one_if true = 1
one_if false = 0

abbrev pub group_of : Entry → Group
group_of e = record { model = e.model; home = e.home; r = e.r }

same_group :
    (model oh : Text) (or : ℕ) (nh : Text) (nr : ℕ)
    → (text_eq oh nh && or == nr) ≡ true
    → group_eq
        (record { model = model; home = oh; r = or })
        (record { model = model; home = nh; r = nr })
      ≡ true
unfolding group_eq
same_group model oh or nh nr e = ground (arith, text_eq_refl model)

apart_group :
    (model oh : Text) (or : ℕ) (nh : Text) (nr : ℕ)
    → (text_eq oh nh && or == nr) ≡ false
    → group_eq
        (record { model = model; home = oh; r = or })
        (record { model = model; home = nh; r = nr })
      ≡ false
unfolding group_eq
apart_group model oh or nh nr e = ground (arith, text_eq_refl model)

pub blank_group : (k g : Group) → group_eq k g ≡ true → is_blank k.home ≡ is_blank g.home
blank_group k g e = ap (λ (j : Group). is_blank j.home) (group_eq-eq k g e)

count_same :
    (k g : Group) (cs : List (Group × ℕ)) → group_eq k g ≡ true → count_at k cs ≡ count_at g cs
count_same k g cs e = ap (λ j. count_at j cs) (group_eq-eq k g e)

-- Moving an entry between groups moves one count, as long as the old group has one.
pub shift_count_lem :
    (model oh : Text) (or : ℕ) (nh : Text) (nr : ℕ) (cs : List (Group × ℕ)) (g : Group)
    → is_blank g.home ≡ false
    → (is_blank oh ≡ false → 1 ≤ count_at (record { model = model; home = oh; r = or }) cs)
    → count_at g (shift_count model oh or nh nr cs)
        + one_if (group_eq (record { model = model; home = oh; r = or }) g)
      ≡ count_at g cs + one_if (group_eq (record { model = model; home = nh; r = nr }) g)
unfolding shift_count
shift_count_lem model oh or nh nr cs g named has =
    let old : Group = record { model = model; home = oh; r = or } in
    let next : Group = record { model = model; home = nh; r = nr } in
    elim (Bool-cases (text_eq oh nh && or == nr)) [
      | inl e ↦
          rw (e, shift_count)
            (ap (λ (k : Group). count_at g cs + one_if (group_eq k g))
              (group_eq-eq old next (same_group model oh or nh nr e)))
      | inr e ↦
          rw (e, shift_count)
            (ground (
              arith,
              count_at-drop old g cs,
              count_at-drop old next cs,
              count_at-add next g cs,
              count_at-add next g (drop_count old cs),
              blank_group old g,
              blank_group next g,
              has,
              group_eq_iff old g,
              group_eq_iff next g,
              group_eq_iff old next,
              count_same old g cs,
              count_same next g cs,
              count_same next g (drop_count old cs),
              apart_group model oh or nh nr e,
            ))
    ]

-- How many entries of the table are in a group.
unfoldable pub tally : Group → List (Text × Entry) → ℕ
tally g [] = 0
tally g ((k, e) ∷ es) = one_if (group_eq (group_of e) g) + tally g es
