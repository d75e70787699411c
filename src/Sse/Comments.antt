-- ===== src/Sse/Comments.antt =====
-- toolruntime/sse_reader.go: lines that are comments.
use confidential_model_route.Common.{
  ◌≡◌, refl, inl, inr, Bool, not, List, [], ◌∷◌, Bool-cases, filter, Text, arith,
}
use confidential_model_route.Sse.{
  Pending, no_pending, have_data, is_comment, next_loop, take_field, split_field,
}

pub drop_comments : List Text → List Text
drop_comments ls = filter (λ l. not (is_comment l)) ls

-- Comment lines are skipped wherever they stand: with all of them left out, the next outcome is
-- the same, and so are the lines after it, comments left out.
pub next_loop-drop_comments :
    (failed : Bool) (ls : List Text) (p : Pending)
    → next_loop failed (drop_comments ls) p
      ≡ ((next_loop failed ls p).0, drop_comments (next_loop failed ls p).1)
unfolding drop_comments next_loop is_comment
next_loop-drop_comments failed [] p = refl
next_loop-drop_comments failed ([] ∷ ls) p = elim (Bool-cases (have_data p)) [
  | inl e ↦ rw (e, next_loop) refl
  | inr e ↦ rw (e, next_loop) (next_loop-drop_comments failed ls no_pending)
]
next_loop-drop_comments failed ((c ∷ cs) ∷ ls) p = ground (
  arith,
  next_loop-drop_comments failed ls p,
  next_loop-drop_comments failed ls (take_field (split_field (c ∷ cs)) p),
)
