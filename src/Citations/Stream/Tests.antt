-- ===== src/Citations/Stream/Tests.antt =====
-- toolruntime/citations: runs of the emitter, and the theorems at concrete streams.
use confidential_model_route.Common.{
  ◌≤◌, ◌≡◌, refl, ◌≢◌, true, false, none, some, [], ◌∷◌, ◌++◌, map, arith, length, All, Text, text,
  text_eq,
}
use confidential_model_route.Decimal.{value_of}
use confidential_model_route.Citations.{
  State, register, resolve_source, resolve_harmony, best_source, replace_citations, match_citation,
  take_digits, skip_marked, link_for, source_at,
}
use confidential_model_route.Citations.Stream.{
  new_emitter, drain_round, drain_loop, drain, push, flush, find_next_open, match_link, incomplete,
  invalid, match_target, split_label, scan_url, is_supported_url, has_prefix, normalize_brackets,
  replace_close, annotation_at,
}
use confidential_model_route.Citations.Stream.Stable.{extend, match_link-append}
use confidential_model_route.Citations.Stream.Conserved.{ascii, content_of, push_all, concat}
use confidential_model_route.Citations.Stream.Bounds.{held_bound, stream-ascii}
use confidential_model_route.Citations.Stream.Chunks.{push_all-concat}
use confidential_model_route.Citations.Stream.Spans.{Spans, push_all-Spans}

abbrev same_url : Text → Text
same_url t = t

abbrev no_sources : State
no_sources = record { next_index = 0; sources = []; harmony = false }

abbrev page : Text
page = text "https://a.b"

abbrev one_source : State
one_source = record {
  next_index = 2;
  sources = record { index = 1; url = page; title = text "A" } ∷ [];
  harmony = false;
}

register_first : register page (text "A") no_sources ≡ (1, one_source)
unfolding register
register_first = refl

-- The label in lenticular brackets
abbrev wide_link : Text
wide_link = 12304 ∷ (text "x" ++ 12305 ∷ (text "(" ++ page ++ text ")"))

-- A link that arrives in two deltas
push_link :
    push_all same_url
      (text "see [x](htt" ∷ text "ps://a.b) ok" ∷ [])
      (new_emitter (some one_source))
    ≡ (
      (
        text "see [x](https://a.b) ok",
        record {
          start_index = 5;
          end_index = 6;
          source = record { index = 1; url = page; title = text "A" };
        }
            ∷ [],
      ),
      record { state = some one_source; sent = text "see [x](https://a.b) ok"; held = [] },
    )
unfolding push_all push drain drain_loop drain_round find_next_open match_link match_target
    split_label scan_url is_supported_url has_prefix normalize_brackets replace_close annotation_at
    resolve_source best_source text_eq resolve_harmony
push_link = refl

-- A citation token in Harmony mode
harmony_link :
    resolve_harmony
      (some (record one_source { harmony = true }))
      (12304 ∷ (text "1" ++ 8224 ∷ (text "L1-L3" ++ 12305 ∷ text "!")))
    ≡ text "[A](https://a.b)!"
unfolding resolve_harmony replace_citations match_citation take_digits skip_marked link_for
    source_at value_of
harmony_link = refl

-- The lenticular bracket of a URL is rewritten in the text, and stays in the match.
wide_url :
    content_of (push same_url (text "[x](https://" ++ 12305 ∷ text ")") (new_emitter none))
    ≡ text "[x](https://])"
unfolding push drain drain_loop drain_round find_next_open match_link match_target split_label
    scan_url is_supported_url has_prefix normalize_brackets replace_close annotation_at
    resolve_source resolve_harmony
wide_url = refl

not_a_link : match_link (text "[x] ") ≢ incomplete
unfolding match_link match_target split_label
not_a_link = λ q. cc

match_link-append_example :
    match_link (text "[x] " ++ text "y") ≡ extend (match_link (text "[x] ")) (text "y")
match_link-append_example = match_link-append (text "[x] ") (text "y") not_a_link

held_bound_example :
    (length (push_all same_url (text "[x" ∷ text "](h" ∷ []) (new_emitter none)).1.held ≤ 4096)
    × ((flush same_url
          (push_all same_url (text "[x" ∷ text "](h" ∷ []) (new_emitter none)).1).1.held
        ≡ [])
held_bound_example = held_bound same_url none (text "[x" ∷ text "](h" ∷ [])

-- A text that counts as incomplete, though no text behind it makes it a match.
never_a_link : match_link (text "[x](ftp") ≡ incomplete
unfolding match_link match_target split_label scan_url
never_a_link = refl

ftp_is_no_link : match_link (text "[x](ftp://a)") ≡ invalid
unfolding match_link match_target split_label scan_url is_supported_url has_prefix
ftp_is_no_link = refl

-- Brackets that are no link's are delivered as they came.
lone_brackets :
    content_of (push same_url (12304 ∷ 97 ∷ 12305 ∷ text " b") (new_emitter none))
    ≡ 12304 ∷ 97 ∷ 12305 ∷ text " b"
unfolding push drain drain_loop drain_round find_next_open match_link match_target split_label
    resolve_harmony
lone_brackets = refl

stream-ascii_example :
    map ascii (
      content_of (push_all same_url (wide_link ∷ text "[" ∷ []) (new_emitter none))
      ++ content_of
          (flush same_url (push_all same_url (wide_link ∷ text "[" ∷ []) (new_emitter none)).1))
    ≡ map ascii (concat (wide_link ∷ text "[" ∷ []))
stream-ascii_example = stream-ascii same_url none (wide_link ∷ text "[" ∷ []) tt

push_all-concat_example :
    push_all same_url (text "[x](htt" ∷ text "ps://a.b)" ∷ []) (new_emitter (some one_source))
    ≡ push same_url
        (concat (text "[x](htt" ∷ text "ps://a.b)" ∷ []))
        (new_emitter (some one_source))
push_all-concat_example =
    push_all-concat same_url (text "[x](htt" ∷ text "ps://a.b)" ∷ [])
      (new_emitter (some one_source)) refl (unfold concat in omega arith)

push_all-Spans_example :
    All
      (Spans (push_all same_url (wide_link ∷ []) (new_emitter (some one_source))).1.sent)
      (push_all same_url (wide_link ∷ []) (new_emitter (some one_source))).0.1
push_all-Spans_example = push_all-Spans same_url (wide_link ∷ []) (new_emitter (some one_source))
