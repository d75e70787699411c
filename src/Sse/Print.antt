-- ===== src/Sse/Print.antt =====
-- toolruntime/sse_reader.go: what a server prints is what the reader reads.
use mathlib.Core.List.{append-nil, append_assoc}
use confidential_model_route.Common.{
  ℕ, zero, suc, ◌<◌, ◌≡◌, refl, sym, ap, ◌∙◌, inl, inr, Bool, true, false, some, List, [], ◌∷◌,
  ◌++◌, map, arith, ◌==◌, if◌then◌else◌, Bool-cases, length, Text, text, text_eq,
}
use confidential_model_route.Sse.Reads.{read_all, read_all-frame}
use confidential_model_route.Sse.{
  Frame, Pending, no_pending, is_blank, have_data, frame_of, is_comment, cut, trim_space,
  split_field, take_field, join, newline, frame, failure, next_loop, next,
}

-- The lines of a text.
unfoldable pub split_lines : Text → Text × List Text
split_lines [] = ([], [])
split_lines (c ∷ cs) =
    let (l, ls) = split_lines cs in if c == newline then ([], l ∷ ls) else (c ∷ l, ls)

abbrev pub print_event : Text → List Text
print_event [] = []
print_event (c ∷ cs) = (text "event: " ++ c ∷ cs) ∷ []

abbrev pub print_data : Text → Text
print_data l = text "data: " ++ l

abbrev pub data_lines_of : Frame → List Text
data_lines_of f = (split_lines f.payload).0 ∷ (split_lines f.payload).1

-- A frame as the event-stream format prints it, without the blank line that ends it.
unfoldable pub print_open : Frame → List Text
print_open f = print_event f.event ++ map print_data (data_lines_of f)

unfoldable pub print : Frame → List Text
print f = print_open f ++ [] ∷ []

-- What the reader holds at that blank line.
pending_of : Frame → Pending
pending_of f = record { event = f.event; data_lines = data_lines_of f }

have_data-pending_of : (f : Frame) → have_data (pending_of f) ≡ true
unfolding pending_of
have_data-pending_of f = refl

join-cons : (c : ℕ) (l : Text) (ls : List Text) → join ((c ∷ l) ∷ ls) ≡ c ∷ join (l ∷ ls)
unfolding join
join-cons c l [] = refl
join-cons c l (k ∷ ls) = refl

join-blank : (l : Text) (ls : List Text) → join ([] ∷ l ∷ ls) ≡ newline ∷ join (l ∷ ls)
unfolding join
join-blank l ls = refl

join-split_lines : (t : Text) → join ((split_lines t).0 ∷ (split_lines t).1) ≡ t
unfolding split_lines
join-split_lines [] = unfold join in refl
join-split_lines (c ∷ cs) = elim (Bool-cases (c == newline)) [
  | inl e ↦ rw (e, join-blank, join-split_lines cs) (ground (arith, e))
  | inr e ↦ rw (e, join-cons, join-split_lines cs) refl
]

field_event :
    (v : Text) (p : Pending)
    → take_field (split_field (text "event: " ++ v)) p ≡ record p { event = v }
unfolding take_field split_field cut trim_space text_eq
field_event v p = refl

field_data :
    (v : Text) (p : Pending)
    → take_field (split_field (print_data v)) p ≡ record p { data_lines = p.data_lines ++ v ∷ [] }
unfolding take_field split_field cut trim_space text_eq
field_data v p = refl

is_comment-print_data : (l : Text) → is_comment (print_data l) ≡ false
unfolding is_comment
is_comment-print_data l = refl

is_comment-print_event : (l : Text) → is_comment (text "event: " ++ l) ≡ false
unfolding is_comment
is_comment-print_event l = refl

-- A field line is read into the pending frame.
next_loop-field :
    (failed : Bool) (l : Text) (ls : List Text) (p : Pending)
    → is_blank l ≡ false
    → is_comment l ≡ false
    → next_loop failed (l ∷ ls) p ≡ next_loop failed ls (take_field (split_field l) p)
unfolding next_loop
next_loop-field failed l ls p h k = rw (h, k, next_loop) refl

next_loop-data :
    (failed : Bool) (ds : List Text) (rest : List Text) (p : Pending)
    → next_loop failed (map print_data ds ++ rest) p
      ≡ next_loop failed rest (record p { data_lines = p.data_lines ++ ds })
next_loop-data failed [] rest p = rw append-nil refl
next_loop-data failed (d ∷ ds) rest p =
    next_loop-field failed (print_data d) (map print_data ds ++ rest) p refl
      (is_comment-print_data d)
    ∙ rw (field_data d p) (
        next_loop-data failed ds rest (record p { data_lines = p.data_lines ++ d ∷ [] })
        ∙ rw append_assoc refl)

-- A printed event without data, before the data lines.
next_loop-event :
    (failed : Bool) (e : Text) (ls : List Text)
    → next_loop failed (print_event e ++ ls) no_pending
      ≡ next_loop failed ls (record { event = e; data_lines = [] })
next_loop-event failed [] ls = refl
next_loop-event failed (c ∷ cs) ls =
    next_loop-field failed (text "event: " ++ c ∷ cs) ls no_pending refl
      (is_comment-print_event (c ∷ cs))
    ∙ rw (field_event (c ∷ cs) no_pending) refl

next_loop-end :
    (failed : Bool) (p : Pending) (ls : List Text)
    → have_data p ≡ true
    → next_loop failed ([] ∷ ls) p ≡ (frame (frame_of p), ls)
unfolding next_loop
next_loop-end failed p ls h = rw (h, next_loop) refl

-- A printed frame up to its blank line is pending.
next_loop-open :
    (failed : Bool) (f : Frame) (rest : List Text)
    → next_loop failed (print_open f ++ rest) no_pending ≡ next_loop failed rest (pending_of f)
unfolding print_open pending_of
next_loop-open failed f rest =
    let ds = (split_lines f.payload).0 ∷ (split_lines f.payload).1 in
    rw append_assoc (
      next_loop-event failed f.event (map print_data ds ++ rest)
      ∙ next_loop-data failed ds rest (record { event = f.event; data_lines = [] }))

frame_of-pending_of : (f : Frame) → frame_of (pending_of f) ≡ f
unfolding pending_of
frame_of-pending_of f = rw (join-split_lines f.payload) refl

-- A printed frame is read back, whatever follows it.
pub next_loop-print :
    (failed : Bool) (f : Frame) (rest : List Text)
    → next_loop failed (print f ++ rest) no_pending ≡ (frame f, rest)
unfolding print
next_loop-print failed f rest = rw append_assoc (
    next_loop-open failed f ([] ∷ rest)
    ∙ next_loop-end failed (pending_of f) rest (have_data-pending_of f)
    ∙ rw (frame_of-pending_of f) refl)

pub print_all : List Frame → List Text
print_all [] = []
print_all (f ∷ fs) = print f ++ print_all fs

-- A stream of frames, each printed in the event-stream format, a data line for each line of its
-- payload, is read back frame by frame to its end, when the stream does not fail.
pub read_all-print_all :
    (fs : List Frame) (fuel : ℕ)
    → length fs < fuel
    → read_all fuel (record { lines = print_all fs; failed = false }) ≡ some (fs, false)
unfolding print_all
read_all-print_all fs zero h = absurd (omega arith)
read_all-print_all [] (suc fuel) h = unfold read_all next next_loop in refl
read_all-print_all (f ∷ fs) (suc fuel) h =
    read_all-frame fuel (record { lines = print f ++ print_all fs; failed = false })
      (record { lines = print_all fs; failed = false }) f fs false
      (unfold next in rw (next_loop-print false f (print_all fs)) refl)
      (read_all-print_all fs fuel (omega arith))

next_loop-last :
    (failed : Bool) (f : Frame)
    → next_loop failed [] (pending_of f) ≡ (if failed then failure else frame f, [])
unfolding next_loop
next_loop-last failed f = rw (have_data-pending_of f, frame_of-pending_of f) refl

-- A last frame whose blank line is missing is delivered at the end of the stream, and is lost
-- where the stream fails.
pub next_loop-unfinished :
    (failed : Bool) (f : Frame)
    → next_loop failed (print_open f) no_pending ≡ (if failed then failure else frame f, [])
next_loop-unfinished failed f =
    ap (λ ls. next_loop failed ls no_pending) (sym (append-nil (print_open f)))
    ∙ next_loop-open failed f []
    ∙ next_loop-last failed f
