-- ===== src/Citations.antt =====
-- toolruntime/citations/state.go: the sources that tools returned, and the citations that name them.
-- Text is a list of runes here. `NormalizeURL`, which rests on the URL parser, is a parameter.
pub mod Stream
use confidential_model_route.Common.{
  ℕ, zero, suc, ◌+◌, ◌-◌, ◌*◌, ◌/◌, ◌%◌, ◌^◌, ◌≤◌, ◌<◌, min, max, String, ◌≡◌, refl, sym, ap, ◌∙◌,
  ◌≢◌, ◌↔◌, ◌⊎◌, inl, inr, Bool, true, false, not, ◌&&◌, ◌||◌, Option, none, some, List, [], ◌∷◌,
  ◌++◌, map, arith, ltb, leb, ◌==◌, if◌then◌else◌, ltb→lt, lt→ltb, leb→le, le→leb, ==_iff,
  Bool-cases, Option-cases, length, get_elem?, take, drop, length-append, length-take, filter, All,
  All-append, All-mono, In, In-All, keep, In-filter, filter-In, In-append, append-In, not-In_empty,
  if-either, Text, text, text_eq, text_lt, text_eq-eq, text_eq_refl, text_eq_iff, text_lt_irrefl,
  text_lt_trans, text_lt_total,
}
use confidential_model_route.Decimal.{is_digit, value_of}

pub record Source : Type 0 where
  pub index : ℕ
  pub url : Text
  pub title : Text

pub record State : Type 0 where
  pub next_index : ℕ
  pub sources : List Source
  pub harmony : Bool

-- `Record`, on a state that is there
unfoldable pub register : Text → Text → State → ℕ × State
register url title c =
    let index = if c.next_index == 0 then 1 else c.next_index in
    (
      index,
      record c {
        next_index = index + 1;
        sources = c.sources ++ record { index = index; url = url; title = title } ∷ [];
      },
    )

abbrev pub is_empty : Text → Bool
is_empty [] = true
is_empty (c ∷ cs) = false

-- The loop of `ResolveSource`, with the best source so far.
unfoldable pub best_source : (Text → Text) → Text → Option Source → List Source → Option Source
unfolding text_eq
best_source normalize target best [] = best
best_source normalize target best (s ∷ ss) =
    let take_it = best_source normalize target (some s) ss in
    let go_on = best_source normalize target best ss in
    if not (text_eq (normalize s.url) target) then go_on else elim best [
      | none ↦ take_it
      | some b ↦ if is_empty b.title && not (is_empty s.title) then take_it else go_on
    ]

-- `ResolveSource`; a nil state knows no source.
unfoldable pub resolve_source : (Text → Text) → Option State → Text → Option Source
unfolding best_source
resolve_source normalize none url = none
resolve_source normalize (some c) url =
    if is_empty url || is_empty (normalize url)
    then none
    else best_source normalize (normalize url) none c.sources

abbrev pub open_ascii : ℕ
open_ascii = 91

abbrev pub close_ascii : ℕ
close_ascii = 93

-- The lenticular brackets U+3010 and U+3011, and the dagger U+2020 of the citation format.
abbrev pub open_wide : ℕ
open_wide = 12304

abbrev pub close_wide : ℕ
close_wide = 12305

abbrev pub dagger : ℕ
dagger = 8224

-- `\d+`: the digits at the head, and what follows.
unfoldable pub take_digits : Text → Text × Text
take_digits [] = ([], [])
take_digits (c ∷ cs) =
    let (ds, rest) = take_digits cs in if is_digit c then (c ∷ ds, rest) else ([], c ∷ cs)

-- `mark` followed by `\d+`: what follows them.
unfoldable pub skip_marked : Text → Text → Option Text
unfolding take_digits
skip_marked [] cs = let (ds, rest) = take_digits cs in elim ds [ [] ↦ none | d ∷ ds' ↦ some rest ]
skip_marked (m ∷ ms) [] = none
skip_marked (m ∷ ms) (c ∷ cs) = if m == c then skip_marked ms cs else none

abbrev pub skip_optional : Text → Text → Text
skip_optional mark cs = elim (skip_marked mark cs) [ none ↦ cs | some rest ↦ rest ]

-- `harmonyCitationPattern` at the head of a text: the digits of the cursor, and what follows.
unfoldable pub match_citation : Text → Option (Text × Text)
unfolding take_digits skip_marked
match_citation [] = none
match_citation (o ∷ cs) =
    if not (o == open_wide)
    then none
    else let (ds, rest) = take_digits cs in
      let tail : Text = elim (skip_marked (dagger ∷ text "L") rest) [
        | none ↦ rest
        | some more ↦ skip_optional (text "-L") more
      ] in
      elim tail [
        | [] ↦ none
        | c ∷ after ↦ if c == close_wide && not (is_empty ds) then some (ds, after) else none
      ]

abbrev pub max_int : ℕ
max_int = 9223372036854775807

unfoldable pub source_at : ℕ → List Source → Option Source
source_at n [] = none
source_at n (s ∷ ss) = if s.index == n then some s else source_at n ss

-- The link that replaces a citation, where its cursor is a source's.
unfoldable pub link_for : List Source → Text → Option Text
unfolding source_at value_of
link_for sources cursor =
    if ltb max_int (value_of 0 cursor) then none else elim (source_at (value_of 0 cursor) sources) [
      | none ↦ none
      | some s ↦ some (
          text "["
          ++ (if is_empty s.title then text "Source" else s.title)
          ++ text "]("
          ++ s.url
          ++ text ")")
    ]

-- `ReplaceAllStringFunc`; a citation that is kept has no other `【` in it, so that the search goes on
-- behind its first rune. The first argument counts the runes of a replaced citation to pass over.
unfoldable pub replace_citations : List Source → ℕ → Text → Text
unfolding match_citation link_for
replace_citations sources n [] = []
replace_citations sources (suc n) (c ∷ cs) = replace_citations sources n cs
replace_citations sources zero (c ∷ cs) = elim (match_citation (c ∷ cs)) [
  | none ↦ c ∷ replace_citations sources 0 cs
  | some (cursor, after) ↦ elim (link_for sources cursor) [
    | none ↦ c ∷ replace_citations sources 0 cs
    | some link ↦ link ++ replace_citations sources (length cs - length after) cs
  ]
]

-- `ResolveHarmonyCitations`
unfoldable pub resolve_harmony : Option State → Text → Text
unfolding replace_citations
resolve_harmony none t = t
resolve_harmony (some c) t = if c.harmony then replace_citations c.sources 0 t else t
