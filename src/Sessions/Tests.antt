-- ===== src/Sessions/Tests.antt =====
-- toolruntime/session_registry.go: runs of the build, and the theorems at concrete profiles.
use confidential_model_route.Common.{
  ◌≡◌, refl, inl, inr, true, false, Option, none, some, List, [], ◌∷◌, ◌==◌, text, text_eq, map_at,
  has_host, map_delete,
}
use confidential_model_route.Json.{Fields, field, end, arr, cons, nil, obj, str, lookup, string_at}
use confidential_model_route.Sessions.{
  Profile, Tool, Session, SessionRegistry, web_search, dial_failed, name_clash, outward_name,
  descriptor_for, dispatch_router_tool_name, dispatch_from, alias_of, session_for, dispatch_name,
  close_all, outward_tool, register_tools, build_loop, build_session_registry,
}
use confidential_model_route.Sessions.Detect.{
  type_among, responses_tool_type_present, activated, detect_loop, detect_profiles,
}
use confidential_model_route.Sessions.Closing.{Accounted, build_session_registry-Accounted}
use confidential_model_route.Sessions.Routes.{build_session_registry_reaches}

abbrev search_tool : Tool
search_tool = record { name = text "search"; schema = [] }

abbrev other : Profile
other = record { name = text "other"; tool_server_model = [] }

-- Session 1 serves the web search, session 2 everything else.
abbrev dial_all : Profile → Option Session
dial_all p = elim (text_eq p.name (text "web_search")) [ true ↦ some 1 | false ↦ some 2 ]

abbrev list_one : Session → Option (List Tool)
list_one s = some (search_tool ∷ [])

alias_back : dispatch_router_tool_name (text "router_fetch") ≡ text "fetch"
unfolding dispatch_router_tool_name dispatch_from alias_of text_eq
alias_back = refl

-- The second profile lists a tool that the first one has under that name already.
abbrev list_clash : Session → Option (List Tool)
list_clash s = elim (s == 1) [
  | true ↦ some (search_tool ∷ [])
  | false ↦ some (record { name = text "router_search"; schema = [] } ∷ [])
]

clash_closes : build_session_registry dial_all list_clash (web_search ∷ other ∷ []) [] ≡ record {
  outcome = inl (name_clash (text "router_search"));
  opened = 1 ∷ 2 ∷ [];
  closed = 2 ∷ 1 ∷ [];
}
unfolding build_session_registry build_loop close_all outward_tool outward_name descriptor_for
    register_tools map_at map_delete has_host text_eq
clash_closes = refl

dial_fails :
    build_session_registry (λ p. none) list_one (web_search ∷ []) []
    ≡ record { outcome = inl (dial_failed web_search); opened = []; closed = [] }
unfolding build_session_registry build_loop close_all
dial_fails = refl

responses_body : Fields
responses_body =
    field (text "tools") (arr (cons (obj (field (text "type") (str (text "web_search")) end)) nil))
      end

detected : detect_profiles (text "/v1/responses") false responses_body ≡ web_search ∷ []
unfolding detect_profiles detect_loop activated responses_tool_type_present type_among lookup
    string_at text_eq has_host responses_body
detected = refl

build_session_registry-Accounted_example :
    Accounted
      (build_session_registry dial_all list_clash (web_search ∷ other ∷ []) []).opened
      (build_session_registry dial_all list_clash (web_search ∷ other ∷ []) []).closed
      (build_session_registry dial_all list_clash (web_search ∷ other ∷ []) []).outcome
build_session_registry-Accounted_example =
    build_session_registry-Accounted dial_all list_clash (web_search ∷ other ∷ []) []

abbrev built : SessionRegistry
built = record {
  entries = record { profile = web_search; session = 1; tools = search_tool ∷ [] } ∷ [];
  by_tool = (text "router_search", 1) ∷ [];
  dispatch_by_tool = (text "router_search", text "search") ∷ [];
  owned = text "router_search" ∷ [];
  tools = record search_tool { name = text "router_search" } ∷ [];
}

build_of_one : (build_session_registry dial_all list_one (web_search ∷ []) []).outcome ≡ inr built
unfolding build_session_registry build_loop outward_tool outward_name descriptor_for register_tools
    map_at map_delete has_host text_eq
build_of_one = refl

not_disabled : has_host [] (outward_name web_search.name search_tool.name) ≡ false
unfolding has_host
not_disabled = refl

dialled : dial_all web_search ≡ some 1
unfolding text_eq
dialled = refl

build_session_registry_reaches_example :
    (session_for built (outward_name web_search.name search_tool.name) ≡ some 1)
    × (dispatch_name built (outward_name web_search.name search_tool.name) ≡ search_tool.name)
    × (has_host built.owned (outward_name web_search.name search_tool.name) ≡ true)
build_session_registry_reaches_example =
    build_session_registry_reaches dial_all list_one (web_search ∷ []) [] built web_search 1
      (search_tool ∷ []) search_tool build_of_one (inl refl) dialled refl (inl refl) not_disabled
