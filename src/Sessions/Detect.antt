-- ===== src/Sessions/Detect.antt =====
-- toolruntime/profile.go: which tool profiles a request activates.
use confidential_model_route.Common.{
  ◌≡◌, inl, inr, Bool, true, false, not, ◌&&◌, ◌||◌, some, List, [], ◌∷◌, arith, Bool-cases, Text,
  text, text_eq, has_host,
}
use confidential_model_route.Json.{Items, Fields, nil, cons, obj, arr, lookup, string_at}
use confidential_model_route.Sessions.{Profile, Descriptor, descriptors}

-- The loop of `responsesToolTypePresent`; the type of an entry that is no object is empty.
unfoldable pub type_among : Text → Items → Bool
unfolding text_eq string_at
type_among tool_type nil = false
type_among tool_type (cons (obj m) ts) =
    text_eq (string_at (text "type") m) tool_type || type_among tool_type ts
type_among tool_type (cons v ts) = text_eq [] tool_type || type_among tool_type ts

-- `responsesToolTypePresent`
unfoldable pub responses_tool_type_present : Fields → Text → Bool
unfolding type_among lookup
responses_tool_type_present body tool_type = elim (lookup (text "tools") body) [
  | some (arr ts) ↦ type_among tool_type ts
  | _ ↦ false
]

-- `OptionsActive` is whether the request's options ask for a web search.
unfoldable pub activated : Text → Bool → Fields → Descriptor → Bool
unfolding responses_tool_type_present text_eq
activated path web_search_options body d =
    (text_eq path (text "/v1/chat/completions") && web_search_options)
    || ((text_eq path (text "/v1/responses") && not (text_eq d.responses_tool_type []))
        && responses_tool_type_present body d.responses_tool_type)

-- The loop of `DetectProfiles`, with the names seen.
unfoldable pub detect_loop : Text → Bool → Fields → List Text → List Descriptor → List Profile
unfolding activated has_host
detect_loop path web_search_options body seen [] = []
detect_loop path web_search_options body seen (d ∷ ds) =
    elim (activated path web_search_options body d && not (has_host seen d.profile.name)) [
      | true ↦ d.profile ∷ detect_loop path web_search_options body (d.profile.name ∷ seen) ds
      | false ↦ detect_loop path web_search_options body seen ds
    ]

-- `DetectProfiles`
unfoldable pub detect_profiles : Text → Bool → Fields → List Profile
unfolding detect_loop
detect_profiles path web_search_options body =
    detect_loop path web_search_options body [] descriptors

-- No name is detected twice, whatever the descriptors are.
abbrev Fresh : List Text → List Profile → Type 0
Fresh seen [] = Unit {0}
Fresh seen (p ∷ ps) = (has_host seen p.name ≡ false) × Fresh (p.name ∷ seen) ps

pub detect_loop-Fresh :
    (path : Text) (web_search_options : Bool) (body : Fields) (seen : List Text)
    (ds : List Descriptor)
    → Fresh seen (detect_loop path web_search_options body seen ds)
unfolding detect_loop
detect_loop-Fresh path o body seen [] = tt
detect_loop-Fresh path o body seen (d ∷ ds) =
    elim (Bool-cases (activated path o body d && not (has_host seen d.profile.name))) [
      | inl e ↦
          rw (e, detect_loop)
            (ground (arith, e), detect_loop-Fresh path o body (d.profile.name ∷ seen) ds)
      | inr e ↦ rw (e, detect_loop) (detect_loop-Fresh path o body seen ds)
    ]
