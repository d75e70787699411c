-- ===== src/Citations/Stream.antt =====
-- toolruntime/citations/stream.go: the emitter, which holds back the text that may be a link in the
-- making. `text[flushedRunes:]` is `held`, the text before it `sent`, so `flushedRunes` is the
-- length of `sent`.
pub mod Parts
pub mod Rounds
pub mod Conserved
pub mod Bounds
pub mod Spans
pub mod Stable
pub mod Equations
pub mod Resume
pub mod Chunks
pub mod Tests
use confidential_model_route.Common.{
  ℕ, zero, suc, ◌+◌, ◌-◌, ◌*◌, ◌/◌, ◌%◌, ◌^◌, ◌≤◌, ◌<◌, min, max, String, ◌≡◌, refl, sym, ap, ◌∙◌,
  ◌≢◌, ◌↔◌, ◌⊎◌, inl, inr, Bool, true, false, not, ◌&&◌, ◌||◌, Option, none, some, List, [], ◌∷◌,
  ◌++◌, map, arith, ltb, leb, ◌==◌, if◌then◌else◌, ltb→lt, lt→ltb, leb→le, le→leb, ==_iff,
  Bool-cases, Option-cases, length, get_elem?, take, drop, length-append, length-take, filter, All,
  All-append, All-mono, In, In-All, keep, In-filter, filter-In, In-append, append-In, not-In_empty,
  if-either, Text, text, text_eq, text_lt, text_eq-eq, text_eq_refl, text_eq_iff, text_lt_irrefl,
  text_lt_trans, text_lt_total,
}
use confidential_model_route.Citations.{
  Source, State, resolve_source, resolve_harmony, open_ascii, close_ascii, open_wide, close_wide,
}

abbrev pub max_link_buffer : ℕ
max_link_buffer = 4096

pub record Annotation : Type 0 where
  pub start_index : ℕ
  pub end_index : ℕ
  pub source : Source

pub record Emitter : Type 0 where
  pub state : Option State
  pub sent : Text
  pub held : Text

-- `NewEmitter`
abbrev pub new_emitter : Option State → Emitter
new_emitter st = record { state = st; sent = []; held = [] }

abbrev pub is_open : ℕ → Bool
is_open r = r == open_ascii || r == open_wide

abbrev pub is_close : ℕ → Bool
is_close r = r == close_ascii || r == close_wide

-- `isSpaceRune`
abbrev pub is_space_rune : ℕ → Bool
is_space_rune r = r == 32 || (leb 9 r && leb r 13)

-- `findNextLinkOpen`: the text before the next opening bracket, and from it.
pub find_next_open : Text → Text × Text
find_next_open [] = ([], [])
find_next_open (r ∷ rs) =
    let (before, rest) = find_next_open rs in if is_open r then ([], r ∷ rs) else (r ∷ before, rest)

-- The label up to the first closing bracket, that bracket, and what follows.
pub split_label : Text → Option (Text × ℕ × Text)
split_label [] = none
split_label (r ∷ rs) =
    if is_close r
    then some ([], r, rs)
    else elim (split_label rs) [ none ↦ none | some (l, c, rest) ↦ some (r ∷ l, c, rest) ]

pub data UrlScan : Type 0 where
  ended : Text → Text → UrlScan
  spaced : UrlScan
  unended : UrlScan

abbrev pub add_rune : ℕ → UrlScan → UrlScan
add_rune r (ended u rest) = ended (r ∷ u) rest
add_rune r spaced = spaced
add_rune r unended = unended

-- The URL up to the closing parenthesis, and what follows.
pub scan_url : Text → UrlScan
scan_url [] = unended
scan_url (r ∷ rs) =
    if r == 41 then ended [] rs else if is_space_rune r then spaced else add_rune r (scan_url rs)

pub has_prefix : Text → Text → Bool
has_prefix [] t = true
has_prefix (p ∷ ps) [] = false
has_prefix (p ∷ ps) (c ∷ cs) = p == c && has_prefix ps cs

-- `IsSupportedURL`
pub is_supported_url : Text → Bool
unfolding has_prefix
is_supported_url url = has_prefix (text "http://") url || has_prefix (text "https://") url

pub data LinkMatch : Type 0 where
  matched : Text → ℕ → Text → Text → LinkMatch
  incomplete : LinkMatch
  invalid : LinkMatch

-- What follows the label and its closing bracket `c`.
pub match_target : Text → ℕ → Text → LinkMatch
unfolding scan_url is_supported_url
match_target label c [] = incomplete
match_target label c (p ∷ rest) =
    if p == 40
    then elim (scan_url rest) [
      | ended url after ↦ if is_supported_url url then matched label c url after else invalid
      | spaced ↦ invalid
      | unended ↦ incomplete
    ]
    else invalid

-- `MatchMarkdownLink` on the text from `start`: a match gives the label, its closing bracket, the
-- URL and what follows the link; the source's indices are their lengths.
pub match_link : Text → LinkMatch
unfolding split_label match_target
match_link [] = incomplete
match_link (o ∷ rs) =
    if is_open o
    then elim (split_label rs) [
      | none ↦ incomplete
      | some ([], c, rest) ↦ invalid
      | some (l ∷ ls, c, rest) ↦ match_target (l ∷ ls) c rest
    ]
    else invalid

pub replace_close : Text → Text
replace_close [] = []
replace_close (r ∷ rs) =
    let rest = replace_close rs in if r == close_wide then close_ascii ∷ rs else r ∷ rest

-- `NormalizeLinkBrackets` on the text of a link
pub normalize_brackets : Text → Text
unfolding replace_close
normalize_brackets [] = []
normalize_brackets (o ∷ rs) = (if o == open_wide then open_ascii else o) ∷ replace_close rs

abbrev pub link_text : ℕ → Text → ℕ → Text → Text
link_text o label c url = o ∷ (label ++ c ∷ 40 ∷ (url ++ 41 ∷ []))

-- What a drain delivers, and what it still holds.
pub record Drained : Type 0 where
  pub content : Text
  pub annotations : List Annotation
  pub held : Text

abbrev pub prepend : Text → List Annotation → Drained → Drained
prepend t notes d = record {
  content = t ++ d.content;
  annotations = notes ++ d.annotations;
  held = d.held;
}

-- The annotation of a link whose bracket stands at index `at`.
pub annotation_at : (Text → Text) → Option State → ℕ → Text → Text → List Annotation
unfolding resolve_source
annotation_at normalize st at label url = elim (resolve_source normalize st url) [
  | none ↦ []
  | some s ↦
      record {
        start_index = at + 1;
        end_index = at + 1 + length label;
        source = record s { url = url };
      }
      ∷ []
]

-- A round of the loop of `drain`: `before` is the text before the next opening bracket, `rest` the
-- text from it, and `next` the rounds that follow, given the number of runes sent and the rest.
pub drain_round :
    (Text → Text) → Option State → Bool → (ℕ → Text → Drained) → ℕ → Text → Text → Drained
unfolding match_link normalize_brackets annotation_at
drain_round normalize st final next at before [] = record {
  content = before;
  annotations = [];
  held = [];
}
drain_round normalize st final next at before (o ∷ rs) =
    let at' = at + length before in
    elim (match_link (o ∷ rs)) [
      | matched label c url after ↦
          let link = link_text o label c url in
          prepend (before ++ normalize_brackets link) (annotation_at normalize st at' label url)
            (next (at' + length link) after)
      | incomplete ↦ elim (final || ltb max_link_buffer (length (o ∷ rs))) [
        | true ↦ prepend (before ++ o ∷ []) [] (next (at' + 1) rs)
        | false ↦ record { content = before; annotations = []; held = o ∷ rs }
      ]
      | invalid ↦ prepend (before ++ o ∷ []) [] (next (at' + 1) rs)
    ]

-- The loop of `drain`, with the number of runes sent. Every round sends a rune or ends, so that
-- the fuel, a round more than there are runes, is enough.
pub drain_loop : (Text → Text) → Option State → Bool → ℕ → ℕ → Text → Drained
unfolding drain_round find_next_open
drain_loop normalize st final zero at held = record { content = []; annotations = []; held = held }
drain_loop normalize st final (suc fuel) at held =
    let (before, rest) = find_next_open held in
    drain_round normalize st final (drain_loop normalize st final fuel) at before rest

abbrev pub Chunk : Type 0
Chunk = Text × List Annotation

-- `drain`
pub drain : (Text → Text) → Bool → Emitter → Chunk × Emitter
unfolding drain_loop resolve_harmony
drain normalize final e =
    let held = resolve_harmony e.state e.held in
    let d = drain_loop normalize e.state final (suc (length held)) (length e.sent) held in
    ((d.content, d.annotations), record e { sent = e.sent ++ d.content; held = d.held })

-- `Push`
unfoldable pub push : (Text → Text) → Text → Emitter → Chunk × Emitter
unfolding drain
push normalize [] e = (([], []), e)
push normalize (r ∷ rs) e = drain normalize false (record e { held = e.held ++ r ∷ rs })

-- `Flush`
unfoldable pub flush : (Text → Text) → Emitter → Chunk × Emitter
unfolding drain
flush normalize e = drain normalize true e
