-- ===== src/Autoroute/Tests.antt =====
-- autoroute/autoroute.go: runs, and the theorems at concrete requests.
use confidential_model_route.Common.{
  ◌≡◌, refl, true, false, not, ◌&&◌, Option, none, some, [], ◌∷◌, map, ◌==◌, if◌then◌else◌, All, In,
  Text, text, text_eq, has_host, map_at,
}
use confidential_model_route.Common.Int.{ℤ, pos}
use confidential_model_route.Decimal.{all_digits, value_of}
use confidential_model_route.Limits.{trim_left, trim_right, unsigned, parse_int}
use confidential_model_route.Json.{
  Fields, field, end, obj, arr, cons, nil, str, number, bool, lookup, remove, assign, string_at,
}
use confidential_model_route.Autoroute.{
  options_field, intelligence_key, level, rejected, out_of_range, validate_intelligence,
  intelligence_from_json, intelligence_from_header, parse_intelligence, visual_part, any_item,
  visual_message, visual_in, has_visual_input, has_host,
}
use confidential_model_route.Autoroute.Effort.{
  Reasoning, client_effort_field, client_reasoning_field, client_effort_key, strip_reasoning,
  strip_client_effort, native_effort, substitute_effort, substitute_fields, substitute_items,
  fragment_for, merge_into, merge_value, apply_effort,
}
use confidential_model_route.Autoroute.Ranking.{
  Model, Candidate, max_of_scores, max_score, normalize, candidates_of, all_candidates,
  ranks_before, insert, sort, rank,
}
use confidential_model_route.Autoroute.Ranking.Closest.{IsClosestFirst, IsMultimodal, rank_lem}
use confidential_model_route.Autoroute.Laws.{IsInRange, parse_intelligence_lem}

-- Every number reads as 7 here.
abbrev seven : Text → Option ℤ
seven t = some (pos 7)

abbrev asked : Fields
asked =
    field (text "model") (str (text "auto"))
      (field options_field (obj (field intelligence_key (number (text "7")) end)) end)

body_wins :
    parse_intelligence seven (text "200") asked
    ≡ (level 7, field (text "model") (str (text "auto")) end)
unfolding parse_intelligence intelligence_from_json validate_intelligence lookup remove text_eq
body_wins = refl

header_too_large :
    (parse_intelligence seven (text " 200") end).0 ≡ rejected (out_of_range false (pos 200))
unfolding parse_intelligence intelligence_from_header validate_intelligence trim_left trim_right
    parse_int unsigned all_digits value_of lookup
header_too_large = refl

visual_body : Fields
visual_body =
    field (text "messages")
      (arr (
        cons
          (obj (
            field (text "content")
              (arr (cons (obj (field (text "type") (str (text "image_url")) end)) nil)) end))
          nil))
      end

visual : has_visual_input visual_body ≡ true
unfolding has_visual_input visual_in visual_message visual_part any_item visual_body lookup
    string_at has_host text_eq
visual = refl

abbrev reasoning : Reasoning
reasoning = record {
  params =
      (
        text "/v1/chat/completions",
        record {
          enable =
              some (
                field (text "options") (obj (field (text "effort") (str (text "$EFFORT")) end))
                  end);
          disable = none;
        },
      )
      ∷ [];
  effort_map = (text "high", text "max") ∷ [];
}

effort_written :
    apply_effort (text "/v1/chat/completions") (some reasoning) (text "on") (
      field client_effort_field
        (str (text "low"))
        (field (text "options") (obj (field (text "top") (bool true) end)) end))
    ≡ field
        (text "options")
        (obj (field (text "top") (bool true) (field (text "effort") (str (text "max")) end)))
        end
unfolding apply_effort strip_client_effort strip_reasoning fragment_for native_effort
    substitute_effort substitute_fields substitute_items merge_into merge_value lookup remove assign
    map_at text_eq
effort_written = refl

abbrev small : Model
small = record {
  name = text "small";
  multimodal = false;
  scores = (text "low", 20) ∷ (text "high", 30) ∷ [];
  reasoning = none;
}

abbrev large : Model
large = record {
  name = text "large";
  multimodal = true;
  scores = (text "on", 60) ∷ [];
  reasoning = none;
}

ranked : map (λ (c : Candidate). c.level) (rank (small ∷ large ∷ []) 40 false) ≡ 33 ∷ 50 ∷ 100 ∷ []
unfolding rank max_score max_of_scores all_candidates candidates_of normalize sort insert
    ranks_before
ranked = refl

parse_intelligence_lem_example :
    IsInRange (parse_intelligence seven (text "200") asked).0
    × (lookup (text "model") (parse_intelligence seven (text "200") asked).1
        ≡ (if text_eq options_field (text "model") then none else lookup (text "model") asked))
parse_intelligence_lem_example = parse_intelligence_lem seven (text "200") asked (text "model")

-- The client's `reasoning` has an effort and a summary.
abbrev summarised : Fields
summarised =
    assign client_reasoning_field
      (obj (
        field client_effort_key (str (text "low"))
          (field (text "summary") (str (text "auto")) end)))
      asked

summary_stays :
    lookup client_reasoning_field (strip_client_effort summarised)
    ≡ some (obj (field (text "summary") (str (text "auto")) end))
unfolding strip_client_effort strip_reasoning lookup remove assign text_eq
summary_stays = refl

rank_lem_example :
    IsClosestFirst 40 (rank (small ∷ large ∷ []) 40 false)
    × (false ≡ true → All IsMultimodal (rank (small ∷ large ∷ []) 40 false))
    × ((max_score 0 (small ∷ large ∷ []) == 0) ≡ false
        → In large (small ∷ large ∷ [])
        → (false && not large.multimodal) ≡ false
        → In (text "on", 60) large.scores
        → In
            (record {
              model = large;
              effort = text "on";
              score = 60;
              level = normalize 60 (max_score 0 (small ∷ large ∷ []));
            })
            (rank (small ∷ large ∷ []) 40 false))
rank_lem_example = rank_lem (small ∷ large ∷ []) 40 false large (text "on") 60
