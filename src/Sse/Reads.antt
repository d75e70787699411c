-- ===== src/Sse/Reads.antt =====
-- toolruntime/sse_reader.go: reading a stream to its end, as the callers of `next` do.
use confidential_model_route.Common.{
  ℕ, zero, suc, ◌+◌, ◌≤◌, ◌<◌, ◌≡◌, refl, Bool, true, false, Option, none, some, List, [], ◌∷◌,
  arith, if◌then◌else◌, length, Text,
}
use confidential_model_route.Sse.{
  Frame, Reader, Pending, no_pending, have_data, is_comment, split_field, take_field, Outcome,
  frame, eof, failure, next_loop, next,
}

-- The frames up to the end, and whether the scanner failed there; `none` is too little fuel.
unfoldable pub read_all : ℕ → Reader → Option (List Frame × Bool)
read_all zero r = none
read_all (suc fuel) r =
    let (out, r') = next r in
    elim out [
      | frame f ↦ elim (read_all fuel r') [ none ↦ none | some (fs, e) ↦ some (f ∷ fs, e) ]
      | eof ↦ some ([], false)
      | failure ↦ some ([], true)
    ]

-- A frame takes a line at least, unless its data stood there before.
next_loop-shorter :
    (failed : Bool) (ls : List Text) (p : Pending) (f : Frame) (rest : List Text)
    → next_loop failed ls p ≡ (frame f, rest)
    → length rest + (if have_data p then 0 else 1) ≤ length ls
unfolding next_loop
next_loop-shorter failed [] p f rest h = ground (arith, h)
next_loop-shorter failed (l ∷ ls) p f rest h = ground (
  arith,
  next_loop-shorter failed ls no_pending f rest,
  next_loop-shorter failed ls (if is_comment l then p else take_field (split_field l) p) f rest,
)

pub next-shorter :
    (r r' : Reader) (f : Frame) → next r ≡ (frame f, r') → length r'.lines < length r.lines
unfolding next
next-shorter r r' f h = ground (arith, h, next_loop-shorter r.failed r.lines no_pending f r'.lines)

pub read_all-frame :
    (fuel : ℕ) (r r' : Reader) (f : Frame) (fs : List Frame) (e : Bool)
    → next r ≡ (frame f, r')
    → read_all fuel r' ≡ some (fs, e)
    → read_all (suc fuel) r ≡ some (f ∷ fs, e)
unfolding read_all
read_all-frame fuel r r' f fs e h q = ground (arith, h, q)

read_all_step :
    (fuel : ℕ) (r : Reader) (step : Outcome × Reader)
    → next r ≡ step
    → length r.lines < suc fuel
    → ((r' : Reader)
        → length r'.lines < fuel
        → (fs : List Frame) × (e : Bool) × (read_all fuel r' ≡ some (fs, e)))
    → (fs : List Frame) × (e : Bool) × (read_all (suc fuel) r ≡ some (fs, e))
unfolding read_all
read_all_step fuel r (frame f, r') h n ih =
    let s = next-shorter r r' f h in
    let (fs, e, q) = ih r' (omega (arith, s)) in (f ∷ fs, e, read_all-frame fuel r r' f fs e h q)
read_all_step fuel r (eof, r') h n ih = ([], false, ground (arith, h))
read_all_step fuel r (failure, r') h n ih = ([], true, ground (arith, h))

-- Reading to the end needs a step for each line and one more at most.
pub read_all_total :
    (fuel : ℕ) (r : Reader)
    → length r.lines < fuel
    → (fs : List Frame) × (e : Bool) × (read_all fuel r ≡ some (fs, e))
read_all_total zero r h = absurd (omega arith)
read_all_total (suc fuel) r h =
    read_all_step fuel r (next r) refl h (λ r' n. read_all_total fuel r' n)
