-- ===== src/Sessions.antt =====
-- toolruntime/session_registry.go, router_tool_names.go and profile.go: the MCP sessions of a request
-- and the routes of its tools. Sessions are opaque; what the MCP client answers when a profile is
-- dialled and when a session lists its tools are parameters, and so is the session's identity.
pub mod Detect
pub mod Closing
pub mod Routes
pub mod Tests
use confidential_model_route.Common.{
  ℕ, zero, suc, ◌+◌, ◌-◌, ◌*◌, ◌/◌, ◌%◌, ◌^◌, ◌≤◌, ◌<◌, min, max, String, ◌≡◌, refl, sym, ap, ◌∙◌,
  ◌≢◌, ◌↔◌, ◌⊎◌, inl, inr, Bool, true, false, not, ◌&&◌, ◌||◌, Option, none, some, List, [], ◌∷◌,
  ◌++◌, map, arith, ltb, leb, ◌==◌, if◌then◌else◌, ltb→lt, lt→ltb, leb→le, le→leb, ==_iff,
  Bool-cases, Option-cases, length, get_elem?, take, drop, length-append, length-take, filter, All,
  All-append, All-mono, In, In-All, keep, In-filter, filter-In, In-append, append-In, not-In_empty,
  if-either, Text, text, text_eq, text_lt, text_eq-eq, text_eq_refl, text_eq_iff, text_lt_irrefl,
  text_lt_trans, text_lt_total, map_put, map_at, has_host,
}

pub record Profile : Type 0 where
  pub name : Text
  pub tool_server_model : Text

-- The part of an `mcp.Tool` that the registry reads; the rest is carried along.
pub record Tool : Type 0 where
  pub name : Text
  pub schema : Text

pub record Descriptor : Type 0 where
  pub profile : Profile
  pub responses_tool_type : Text
  pub aliases : List (Text × Text)

abbrev pub web_search : Profile
web_search = record { name = text "web_search"; tool_server_model = text "websearch" }

-- `profiles`
abbrev pub descriptors : List Descriptor
descriptors =
    record {
      profile = web_search;
      responses_tool_type = text "web_search";
      aliases = (text "search", text "router_search") ∷ (text "fetch", text "router_fetch") ∷ [];
    }
    ∷ []

-- `descriptorForProfile`
pub descriptor_for : Text → List Descriptor → Option Descriptor
unfolding text_eq
descriptor_for name [] = none
descriptor_for name (d ∷ ds) =
    if text_eq d.profile.name name then some d else descriptor_for name ds

-- `outwardRouterToolName`
pub outward_name : Text → Text → Text
unfolding map_at descriptor_for
outward_name profile_name tool_name = elim (descriptor_for profile_name descriptors) [
  | none ↦ tool_name
  | some d ↦ elim (map_at tool_name d.aliases) [ none ↦ tool_name | some outward ↦ outward ]
]

-- `outwardRouterTool`
pub outward_tool : Text → Tool → Tool
unfolding outward_name
outward_tool profile_name t = record t { name = outward_name profile_name t.name }

-- The inner loop of `dispatchRouterToolName`
pub alias_of : Text → List (Text × Text) → Option Text
unfolding text_eq
alias_of name [] = none
alias_of name ((mcp, outward) ∷ m) = if text_eq outward name then some mcp else alias_of name m

pub dispatch_from : Text → List Descriptor → Text
unfolding alias_of
dispatch_from name [] = name
dispatch_from name (d ∷ ds) = elim (alias_of name d.aliases) [
  | none ↦ dispatch_from name ds
  | some mcp ↦ mcp
]

-- `dispatchRouterToolName`
pub dispatch_router_tool_name : Text → Text
unfolding dispatch_from
dispatch_router_tool_name name = dispatch_from name descriptors

-- A `*mcp.ClientSession`, by its identity.
abbrev pub Session : Type 0
Session = ℕ

pub record SessionEntry : Type 0 where
  pub profile : Profile
  pub session : Session
  pub tools : List Tool

-- `owned` is a set, kept as the list of its members.
pub record SessionRegistry : Type 0 where
  pub entries : List SessionEntry
  pub by_tool : List (Text × Session)
  pub dispatch_by_tool : List (Text × Text)
  pub owned : List Text
  pub tools : List Tool

abbrev pub empty_registry : SessionRegistry
empty_registry = record {
  entries = [];
  by_tool = [];
  dispatch_by_tool = [];
  owned = [];
  tools = [];
}

pub data BuildError : Type 0 where
  no_profiles : BuildError
  dial_failed : Profile → BuildError
  list_failed : Profile → BuildError
  name_clash : Text → BuildError

-- `sessionFor`, on a registry that is there
unfoldable pub session_for : SessionRegistry → Text → Option Session
unfolding map_at
session_for r name = map_at name r.by_tool

-- `dispatchName`, on a registry that is there
unfoldable pub dispatch_name : SessionRegistry → Text → Text
unfolding map_at dispatch_router_tool_name
dispatch_name r name = elim (map_at name r.dispatch_by_tool) [
  | none ↦ dispatch_router_tool_name name
  | some mcp ↦ mcp
]

abbrev pub sessions_of : List SessionEntry → List Session
sessions_of es = map (λ e. e.session) es

-- `CloseAll`: the sessions that it closes, in order.
pub close_all : SessionRegistry → List Session
close_all r = sessions_of r.entries

-- The entries that a tool makes: its route, its dispatch name and its owned name.
abbrev pub add_tool : Text → Session → Tool → SessionRegistry → SessionRegistry
add_tool outward session t r = record r {
  by_tool = map_put outward session r.by_tool;
  dispatch_by_tool = map_put outward t.name r.dispatch_by_tool;
  owned = outward ∷ r.owned;
}

pub data Registered : Type 0 where
  clash : Text → Registered
  registered : SessionRegistry → List Tool → Registered

abbrev pub keep_tool : Tool → Registered → Registered
keep_tool t (clash name) = clash name
keep_tool t (registered r ts) = registered r (t ∷ ts)

-- The loop over the tools that a session lists, and the tools that it keeps.
pub register_tools : List Text → Text → Session → List Tool → SessionRegistry → Registered
unfolding outward_name has_host map_at
register_tools disabled profile_name session [] r = registered r []
register_tools disabled profile_name session (t ∷ ts) r =
    let outward = outward_name profile_name t.name in
    elim (has_host disabled outward) [
      | true ↦ register_tools disabled profile_name session ts r
      | false ↦ elim (map_at outward r.by_tool) [
        | some existing ↦ clash outward
        | none ↦
            keep_tool t
              (register_tools disabled profile_name session ts (add_tool outward session t r))
      ]
    ]

abbrev pub add_entry : Profile → Session → List Tool → SessionRegistry → SessionRegistry
add_entry p session ts r = record r {
  entries = r.entries ++ record { profile = p; session = session; tools = ts } ∷ [];
  tools = r.tools ++ map (outward_tool p.name) ts;
}

-- The result with what was done to sessions: those that a dial opened and those that were closed.
pub record Built : Type 0 where
  pub outcome : BuildError ⊎ SessionRegistry
  pub opened : List Session
  pub closed : List Session

abbrev pub failed : BuildError → List Session → Built
failed e closed = record { outcome = inl e; opened = []; closed = closed }

abbrev pub after_open : Session → Built → Built
after_open session b = record b { opened = session ∷ b.opened }

module _ (dial : Profile → Option Session) (list_tools : Session → Option (List Tool)) where
  -- The loop of `buildSessionRegistry` over the profiles.
  pub build_loop : List Text → List Profile → SessionRegistry → Built
  unfolding register_tools close_all outward_tool
  build_loop disabled [] r = record { outcome = inr r; opened = []; closed = [] }
  build_loop disabled (p ∷ ps) r = elim (dial p) [
    | none ↦ failed (dial_failed p) (close_all r)
    | some session ↦ after_open session (elim (list_tools session) [
      | none ↦ failed (list_failed p) (session ∷ close_all r)
      | some listed ↦ elim (register_tools disabled p.name session listed r) [
        | clash name ↦ failed (name_clash name) (session ∷ close_all r)
        | registered r' ts ↦ build_loop disabled ps (add_entry p session ts r')
      ]
    ])
  ]

  -- `buildSessionRegistry`
  unfoldable pub build_session_registry : List Profile → List Text → Built
  unfolding build_loop
  build_session_registry [] disabled = failed no_profiles []
  build_session_registry (p ∷ ps) disabled = build_loop disabled (p ∷ ps) empty_registry
