-- ===== src/Hrw/Ranking.antt =====
-- The ranking depends on the set of replicas alone: not on the order in which they are listed, and
-- not on the sorting algorithm.
use mathlib.Core.List.{Permᴰ}
use mathlib.Core.List.Permᴰ as PermD
use mathlib.Core.Path.{ap₂}
use confidential_model_route.Common.{
  ℕ, ◌≡◌, refl, sym, ap, ◌∙◌, inl, inr, true, false, List, ◌∷◌, arith, Bool-cases, All, All-mono,
  In, Text, text_lt_irrefl, text_lt_trans, text_lt_total, [],
}
use confidential_model_route.Hrw.{Candidate, ranks_before, insert_ranked, rank}

module _ (score : Text → ℕ) where
  -- In ranking order: nobody is preceded by a candidate that it ranks before.
  abbrev pub IsRanked : List Candidate → Type 0
  IsRanked [] = Unit {0}
  IsRanked (c ∷ cs) = All (λ d. ranks_before score d c ≡ false) cs × IsRanked cs

  before_trans :
      (a b c : Candidate)
      → ranks_before score b a ≡ false
      → ranks_before score c b ≡ false
      → ranks_before score c a ≡ false
  unfolding ranks_before
  before_trans a b c p q =
      ground (arith, text_lt_trans c.host a.host b.host, text_lt_total a.host b.host)

  before_total :
      (a b : Candidate)
      → ranks_before score a b ≡ false
      → ranks_before score b a ≡ false
      → a.host ≡ b.host
  unfolding ranks_before
  before_total a b p q = ground (arith, text_lt_total a.host b.host)

  before_asym : (a b : Candidate) → ranks_before score a b ≡ true → ranks_before score b a ≡ false
  unfolding ranks_before
  before_asym a b p = ground (arith, text_lt_trans a.host b.host a.host, text_lt_irrefl a.host)

  insert_ranked-perm :
      (c : Candidate) (ds : List Candidate) → Permᴰ (insert_ranked score c ds) (c ∷ ds)
  unfolding insert_ranked
  insert_ranked-perm c [] = PermD.refl (c ∷ [])
  insert_ranked-perm c (d ∷ ds) = elim (Bool-cases (ranks_before score d c)) [
    | inl e ↦ rw e (Permᴰ.trans (Permᴰ.cons refl (insert_ranked-perm c ds)) (Permᴰ.swap refl refl))
    | inr e ↦ rw e (PermD.refl (c ∷ d ∷ ds))
  ]

  -- A ranking has the candidates that it was made of.
  pub rank-perm : (cs : List Candidate) → Permᴰ (rank score cs) cs
  unfolding rank
  rank-perm [] = Permᴰ.nil
  rank-perm (c ∷ cs) =
      Permᴰ.trans (insert_ranked-perm c (rank score cs)) (Permᴰ.cons refl (rank-perm cs))

  All-insert :
      (P : Candidate → Type 0) (c : Candidate) (ds : List Candidate)
      → P c
      → All P ds
      → All P (insert_ranked score c ds)
  unfolding insert_ranked
  All-insert P c [] p h = (p, tt)
  All-insert P c (d ∷ ds) p h = elim (Bool-cases (ranks_before score d c)) [
    | inl e ↦ rw e (h.0, All-insert P c ds p h.1)
    | inr e ↦ rw e (p, h)
  ]

  insert-IsRanked :
      (c : Candidate) (ds : List Candidate) → IsRanked ds → IsRanked (insert_ranked score c ds)
  unfolding insert_ranked
  insert-IsRanked c [] h = (tt, tt)
  insert-IsRanked c (d ∷ ds) h = elim (Bool-cases (ranks_before score d c)) [
    | inl e ↦ rw e (
      All-insert (λ x. ranks_before score x d ≡ false) c ds (before_asym d c e) h.0,
      insert-IsRanked c ds h.1,
    )
    | inr e ↦ rw e (
      (
        e,
        All-mono (λ x. ranks_before score x d ≡ false) (λ x. ranks_before score x c ≡ false)
            (λ x q. before_trans c d x e q) ds h.0,
      ),
      h,
    )
  ]

  pub rank-IsRanked : (cs : List Candidate) → IsRanked (rank score cs)
  unfolding rank
  rank-IsRanked [] = tt
  rank-IsRanked (c ∷ cs) = insert-IsRanked c (rank score cs) (rank-IsRanked cs)

  -- A host names one candidate.
  abbrev pub HostsAgree : List Candidate → Type 0
  HostsAgree cs = (a b : Candidate) → In a cs → In b cs → a.host ≡ b.host → a ≡ b

  insert_comm :
      (a b : Candidate) (ds : List Candidate)
      → (a.host ≡ b.host → a ≡ b)
      → insert_ranked score a (insert_ranked score b ds)
        ≡ insert_ranked score b (insert_ranked score a ds)
  unfolding insert_ranked
  insert_comm a b [] same = ground (arith, before_asym a b, before_asym b a, before_total a b)
  insert_comm a b (d ∷ ds) same = ground (
    arith,
    insert_comm a b ds same,
    before_asym a b,
    before_asym b a,
    before_total a b,
    before_trans a b d,
    before_trans b a d,
  )

  rank-ranked : (cs : List Candidate) → IsRanked cs → rank score cs ≡ cs
  unfolding rank insert_ranked
  rank-ranked [] h = refl
  rank-ranked (c ∷ []) h = refl
  rank-ranked (c ∷ d ∷ ds) h = rw (rank-ranked (d ∷ ds) h.1) (ground (arith, h.0.0))

  In-perm : {xs ys : List Candidate} (a : Candidate) → Permᴰ xs ys → In a xs → In a ys
  In-perm a Permᴰ.nil i = i
  In-perm a (Permᴰ.cons e p) (inl i) = inl (i ∙ e)
  In-perm a (Permᴰ.cons e p) (inr i) = inr (In-perm a p i)
  In-perm a (Permᴰ.swap e f) (inl i) = inr (inl (i ∙ e))
  In-perm a (Permᴰ.swap e f) (inr (inl i)) = inl (i ∙ f)
  In-perm a (Permᴰ.swap e f) (inr (inr i)) = inr (inr i)
  In-perm a (Permᴰ.trans p q) i = In-perm a q (In-perm a p i)

  HostsAgree-perm : {xs ys : List Candidate} → Permᴰ xs ys → HostsAgree xs → HostsAgree ys
  HostsAgree-perm p h a b i j e = h a b (In-perm a (PermD.symm p) i) (In-perm b (PermD.symm p) j) e

  rank-permuted :
      {xs ys : List Candidate} → Permᴰ xs ys → HostsAgree xs → rank score xs ≡ rank score ys
  unfolding rank
  rank-permuted Permᴰ.nil h = refl
  rank-permuted (Permᴰ.cons {a = a} {b = b} {l₁ = xs} {l₂ = ys} e p) h =
      ap (λ c. insert_ranked score c (rank score xs)) e
      ∙ ap (insert_ranked score b) (rank-permuted p (λ x y i j k. h x y (inr i) (inr j) k))
  rank-permuted (Permᴰ.swap {a = a} {b = b} {a' = a'} {b' = b'} {l = l} e f) h =
      insert_comm a b (rank score l) (h a b (inl refl) (inr (inl refl)))
      ∙ ap₂ (λ x y. insert_ranked score x (insert_ranked score y (rank score l))) f e
  rank-permuted (Permᴰ.trans p q) h = rank-permuted p h ∙ rank-permuted q (HostsAgree-perm p h)

  -- Any ranked arrangement of the candidates is the ranking, as long as a host names one candidate:
  -- whatever order the replicas come in and whatever algorithm sorts them.
  pub ranking_unique :
      {cs ranked : List Candidate}
      → HostsAgree cs
      → Permᴰ ranked cs
      → IsRanked ranked
      → ranked ≡ rank score cs
  ranking_unique {cs} {ranked} h p r =
      sym (rank-ranked ranked r) ∙ sym (rank-permuted (PermD.symm p) h)
