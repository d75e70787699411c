-- ===== src/Sse.antt =====
-- toolruntime/sse_reader.go: the reader of server-sent events. The scanner, which splits the stream
-- into lines, is a library: what it delivers is the list of lines and whether it then failed.
pub mod Reads
pub mod Print
pub mod Comments
pub mod Tests
use confidential_model_route.Common.{
  ℕ, zero, suc, ◌+◌, ◌-◌, ◌*◌, ◌/◌, ◌%◌, ◌^◌, ◌≤◌, ◌<◌, min, max, String, ◌≡◌, refl, sym, ap, ◌∙◌,
  ◌≢◌, ◌↔◌, ◌⊎◌, inl, inr, Bool, true, false, not, ◌&&◌, ◌||◌, Option, none, some, List, [], ◌∷◌,
  ◌++◌, map, arith, ltb, leb, ◌==◌, if◌then◌else◌, ltb→lt, lt→ltb, leb→le, le→leb, ==_iff,
  Bool-cases, Option-cases, length, get_elem?, take, drop, length-append, length-take, filter, All,
  All-append, All-mono, In, In-All, keep, In-filter, filter-In, In-append, append-In, not-In_empty,
  if-either, Text, text, text_eq, text_lt, text_eq-eq, text_eq_refl, text_eq_iff, text_lt_irrefl,
  text_lt_trans, text_lt_total,
}

pub record Frame : Type 0 where
  pub event : Text
  pub payload : Text

pub record Reader : Type 0 where
  pub lines : List Text
  pub failed : Bool

abbrev pub colon : ℕ
colon = 58

abbrev pub space : ℕ
space = 32

abbrev pub newline : ℕ
newline = 10

-- `strings.IndexByte` and the two slices: what stands before and behind the first colon.
pub cut : Text → Option (Text × Text)
cut [] = none
cut (c ∷ cs) = elim (c == colon) [
  | true ↦ some ([], cs)
  | false ↦ elim (cut cs) [ none ↦ none | some (n, v) ↦ some (c ∷ n, v) ]
]

-- `strings.TrimPrefix(value, " ")`
pub trim_space : Text → Text
trim_space [] = []
trim_space (c ∷ cs) = if c == space then cs else c ∷ cs

-- `splitSSEField`
pub split_field : Text → Text × Text
unfolding cut trim_space
split_field line = elim (cut line) [ none ↦ (line, []) | some (n, v) ↦ (n, trim_space v) ]

-- `strings.Join(lines, "\n")`
pub join : List Text → Text
join [] = []
join (l ∷ []) = l
join (l ∷ k ∷ ls) = l ++ newline ∷ join (k ∷ ls)

abbrev pub is_blank : Text → Bool
is_blank [] = true
is_blank (c ∷ cs) = false

pub is_comment : Text → Bool
is_comment [] = false
is_comment (c ∷ cs) = c == colon

-- The variables of `next`: the event's name and the data lines. `haveData` says that there is one.
pub record Pending : Type 0 where
  pub event : Text
  pub data_lines : List Text

abbrev pub no_pending : Pending
no_pending = record { event = []; data_lines = [] }

abbrev pub have_data : Pending → Bool
have_data p = elim p.data_lines [ [] ↦ false | l ∷ ls ↦ true ]

abbrev pub frame_of : Pending → Frame
frame_of p = record { event = p.event; payload = join p.data_lines }

-- A line that is neither blank nor a comment.
pub take_field : Text × Text → Pending → Pending
take_field (name, value) p =
    if text_eq name (text "event")
    then record p { event = value }
    else if text_eq name (text "data")
    then record p { data_lines = p.data_lines ++ value ∷ [] }
    else p

pub data Outcome : Type 0 where
  frame : Frame → Outcome
  eof : Outcome
  failure : Outcome

-- The loop over the lines, with the lines that are left.
pub next_loop : Bool → List Text → Pending → Outcome × List Text
unfolding is_comment split_field take_field
next_loop failed [] p =
    (if failed then failure else if have_data p then frame (frame_of p) else eof, [])
next_loop failed (l ∷ ls) p = elim (is_blank l) [
  | true ↦ elim (have_data p) [
    | true ↦ (frame (frame_of p), ls)
    | false ↦ next_loop failed ls no_pending
  ]
  | false ↦ next_loop failed ls (if is_comment l then p else take_field (split_field l) p)
]

-- `next`
unfoldable pub next : Reader → Outcome × Reader
unfolding next_loop
next r = let (out, rest) = next_loop r.failed r.lines no_pending in (out, record r { lines = rest })
