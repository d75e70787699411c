-- ===== src/Autoroute/Ranking/Closest.antt =====
-- autoroute/autoroute.go: the ranking is by closeness to the requested level, and complete.
use confidential_model_route.Common.{
  ℕ, ◌≤◌, ◌≡◌, ap, ◌⊎◌, inl, inr, Bool, true, false, not, ◌&&◌, List, [], ◌∷◌, arith, ◌==◌,
  Bool-cases, All, All-append, All-mono, In, append-In, Text,
}
use confidential_model_route.Autoroute.Ranking.{
  Model, Candidate, max_score, normalize, distance, candidates_of, all_candidates, ranks_before,
  insert, sort, rank,
}

In-later :
    (x c d : Candidate) (ds ys : List Candidate)
    → (x ≡ c) ⊎ In x (d ∷ ds)
    → ((x ≡ c) ⊎ In x ds → In x ys)
    → In x (d ∷ ys)
In-later x c d ds ys (inl e) f = inr (f (inl e))
In-later x c d ds ys (inr (inl e)) f = inl e
In-later x c d ds ys (inr (inr j)) f = inr (f (inr j))

module _ (target : ℕ) where
  abbrev pub gap : Candidate → ℕ
  gap c = distance c.level target

  -- Nobody is closer than those before it.
  abbrev pub IsClosestFirst : List Candidate → Type 0
  IsClosestFirst [] = Unit {0}
  IsClosestFirst (c ∷ cs) = All (λ d. gap c ≤ gap d) cs × IsClosestFirst cs

  gap-ranks_before :
      (c d : Candidate)
      → (ranks_before target d c ≡ true → gap d ≤ gap c)
        × (ranks_before target d c ≡ false → gap c ≤ gap d)
  unfolding ranks_before
  gap-ranks_before c d = (λ h. ground (arith, h), λ h. ground (arith, h))

  All-insert :
      (P : Candidate → Type 0) (c : Candidate) (ds : List Candidate)
      → P c
      → All P ds
      → All P (insert target c ds)
  unfolding insert
  All-insert P c [] p h = (p, tt)
  All-insert P c (d ∷ ds) p h = elim (Bool-cases (ranks_before target d c)) [
    | inl e ↦ rw e (h.0, All-insert P c ds p h.1)
    | inr e ↦ rw e (p, h)
  ]

  insert-IsClosestFirst :
      (c : Candidate) (ds : List Candidate)
      → IsClosestFirst ds
      → IsClosestFirst (insert target c ds)
  unfolding insert
  insert-IsClosestFirst c [] h = (tt, tt)
  insert-IsClosestFirst c (d ∷ ds) h = elim (Bool-cases (ranks_before target d c)) [
    | inl e ↦ rw e (
      All-insert (λ x. gap d ≤ gap x) c ds ((gap-ranks_before c d).0 e) h.0,
      insert-IsClosestFirst c ds h.1,
    )
    | inr e ↦
        let l = (gap-ranks_before c d).1 e in
        rw e (
          (
            l,
            All-mono (λ x. gap d ≤ gap x) (λ x. gap c ≤ gap x) (λ x q. omega (arith, l, q)) ds h.0,
          ),
          h,
        )
  ]

  sort-IsClosestFirst : (cs : List Candidate) → IsClosestFirst (sort target cs)
  unfolding sort
  sort-IsClosestFirst [] = tt
  sort-IsClosestFirst (c ∷ cs) = insert-IsClosestFirst c (sort target cs) (sort-IsClosestFirst cs)

  All-sort : (P : Candidate → Type 0) (cs : List Candidate) → All P cs → All P (sort target cs)
  unfolding sort
  All-sort P [] h = tt
  All-sort P (c ∷ cs) h = All-insert P c (sort target cs) h.0 (All-sort P cs h.1)

  In-insert :
      (x c : Candidate) (ds : List Candidate) → (x ≡ c) ⊎ In x ds → In x (insert target c ds)
  unfolding insert
  In-insert x c [] i = i
  In-insert x c (d ∷ ds) i = elim (Bool-cases (ranks_before target d c)) [
    | inl e ↦ rw e (In-later x c d ds (insert target c ds) i (λ j. In-insert x c ds j))
    | inr e ↦ rw e i
  ]

  In-sort : (x : Candidate) (cs : List Candidate) → In x cs → In x (sort target cs)
  unfolding sort
  In-sort x [] i = i
  In-sort x (c ∷ cs) (inl e) = In-insert x c (sort target cs) (inl e)
  In-sort x (c ∷ cs) (inr j) = In-insert x c (sort target cs) (inr (In-sort x cs j))

abbrev candidate_of : ℕ → Model → Text × ℕ → Candidate
candidate_of top m e = record { model = m; effort = e.0; score = e.1; level = normalize e.1 top }

In-candidates_of :
    (top : ℕ) (m : Model) (ss : List (Text × ℕ)) (effort : Text) (s : ℕ)
    → In (effort, s) ss
    → In
        (record { model = m; effort = effort; score = s; level = normalize s top })
        (candidates_of top m ss)
unfolding candidates_of
In-candidates_of top m [] effort s i = i
In-candidates_of top m (e ∷ ss) effort s (inl p) = inl (ap (candidate_of top m) p)
In-candidates_of top m (e ∷ ss) effort s (inr j) = inr (In-candidates_of top m ss effort s j)

In-all_candidates :
    (top : ℕ) (multimodal_only : Bool) (catalog : List Model) (m : Model) (c : Candidate)
    → In m catalog
    → (multimodal_only && not m.multimodal) ≡ false
    → In c (candidates_of top m m.scores)
    → In c (all_candidates top multimodal_only catalog)
unfolding all_candidates
In-all_candidates top b [] m c i h j = elim i [ ]
In-all_candidates top b (x ∷ xs) m c (inl e) h j =
    let h' : (b && not x.multimodal) ≡ false = rw (← e) h in
    rw h' (append-In c (candidates_of top x x.scores) (all_candidates top b xs) (inl (rw (← e) j)))
In-all_candidates top b (x ∷ xs) m c (inr i) h j = elim (Bool-cases (b && not x.multimodal)) [
  | inl e ↦ rw e (In-all_candidates top b xs m c i h j)
  | inr e ↦ rw e (
      append-In c (candidates_of top x x.scores) (all_candidates top b xs)
        (inr (In-all_candidates top b xs m c i h j)))
]

abbrev pub IsMultimodal : Candidate → Type 0
IsMultimodal c = c.model.multimodal ≡ true

candidates_of-IsMultimodal :
    (top : ℕ) (m : Model) (ss : List (Text × ℕ))
    → m.multimodal ≡ true
    → All IsMultimodal (candidates_of top m ss)
unfolding candidates_of
candidates_of-IsMultimodal top m [] h = tt
candidates_of-IsMultimodal top m (e ∷ ss) h = (h, candidates_of-IsMultimodal top m ss h)

all_candidates-IsMultimodal :
    (top : ℕ) (catalog : List Model) → All IsMultimodal (all_candidates top true catalog)
unfolding all_candidates
all_candidates-IsMultimodal top [] = tt
all_candidates-IsMultimodal top (x ∷ xs) = elim (Bool-cases x.multimodal) [
  | inl e ↦ simp e (
      All-append IsMultimodal (candidates_of top x x.scores) (all_candidates top true xs)
        (candidates_of-IsMultimodal top x x.scores e) (all_candidates-IsMultimodal top xs))
  | inr e ↦ rw e (all_candidates-IsMultimodal top xs)
]

-- The ranking of a catalog for a target level puts the candidates in the order of the distance of
-- their levels from the target; it has only multimodal models where these are required, and, where
-- any score is positive, it has every effort of every model of the catalog that may serve.
pub rank_lem :
    (catalog : List Model) (target : ℕ) (multimodal_only : Bool) (m : Model) (effort : Text) (s : ℕ)
    → IsClosestFirst target (rank catalog target multimodal_only)
      × (multimodal_only ≡ true → All IsMultimodal (rank catalog target multimodal_only))
      × ((max_score 0 catalog == 0) ≡ false
          → In m catalog
          → (multimodal_only && not m.multimodal) ≡ false
          → In (effort, s) m.scores
          → In
              (record {
                model = m;
                effort = effort;
                score = s;
                level = normalize s (max_score 0 catalog);
              })
              (rank catalog target multimodal_only))
unfolding rank
rank_lem catalog target b m effort s =
    let top = max_score 0 catalog in
    let cs = all_candidates top b catalog in
    elim (Bool-cases (top == 0)) [
      | inl e ↦ rw e (tt, λ h. tt, λ h. cc)
      | inr e ↦ rw e (
        sort-IsClosestFirst target cs,
        λ h. All-sort target IsMultimodal cs (rw h (all_candidates-IsMultimodal top catalog)),
        λ z i h j.
            In-sort target _ cs (
              In-all_candidates top b catalog m _ i h (In-candidates_of top m m.scores effort s j)),
      )
    ]
