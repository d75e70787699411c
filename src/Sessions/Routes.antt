-- ===== src/Sessions/Routes.antt =====
-- toolruntime/session_registry.go: every advertised tool is routed to the session that advertised it.
use mathlib.Core.Path.{subst}
use confidential_model_route.Common.{
  ◌≡◌, refl, ◌⊎◌, inl, inr, true, false, Option, none, some, List, [], ◌∷◌, arith, Bool-cases,
  Option-cases, All, In, In-All, Text, has_host, map_at, text_eq_refl, text_eq_iff, map_at-put,
}
use confidential_model_route.Sessions.{
  Profile, Tool, Session, SessionRegistry, empty_registry, BuildError, session_for, dispatch_name,
  outward_name, add_tool, Registered, clash, registered, keep_tool, register_tools, add_entry,
  build_loop, build_session_registry,
}

-- The name is routed to the session, under the tool's own name.
abbrev pub Routed : SessionRegistry → Text → Session → Text → Type 0
Routed r name session mcp =
    (map_at name r.by_tool ≡ some session)
    × (map_at name r.dispatch_by_tool ≡ some mcp)
    × (has_host r.owned name ≡ true)

-- The tools of a list that are not disabled are routed.
abbrev pub AllRouted : List Text → Text → Session → SessionRegistry → List Tool → Type 0
AllRouted disabled profile_name session r ts =
    All
      (λ (t : Tool).
        has_host disabled (outward_name profile_name t.name) ≡ false
        → Routed r (outward_name profile_name t.name) session t.name)
      ts

abbrev Kept : SessionRegistry → Registered → Type 0
Kept r (clash name) = Unit {0}
Kept r (registered r' ts) =
    (name : Text) (s : Session) (mcp : Text) → Routed r name s mcp → Routed r' name s mcp

keep_tool-Kept :
    (t : Tool) (r : SessionRegistry) (x : Registered) → Kept r x → Kept r (keep_tool t x)
keep_tool-Kept t r (clash name) h = tt
keep_tool-Kept t r (registered r' ts) h = h

-- A new name takes no route away.
add_tool-Routed :
    (outward : Text) (session : Session) (t : Tool) (r : SessionRegistry) (name : Text)
    (s : Session) (mcp : Text)
    → map_at outward r.by_tool ≡ none
    → Routed r name s mcp
    → Routed (add_tool outward session t r) name s mcp
unfolding has_host
add_tool-Routed outward session t r name s mcp f h = ground (
  arith,
  f,
  h,
  text_eq_iff outward name,
  map_at-put outward name session r.by_tool,
  map_at-put outward name t.name r.dispatch_by_tool,
)

add_tool_routes :
    (outward : Text) (session : Session) (t : Tool) (r : SessionRegistry)
    → Routed (add_tool outward session t r) outward session t.name
unfolding has_host
add_tool_routes outward session t r = ground (
  arith,
  text_eq_refl outward,
  map_at-put outward outward session r.by_tool,
  map_at-put outward outward t.name r.dispatch_by_tool,
)

Kept-trans :
    (outward : Text) (session : Session) (t : Tool) (r : SessionRegistry) (x : Registered)
    → map_at outward r.by_tool ≡ none
    → Kept (add_tool outward session t r) x
    → Kept r x
Kept-trans outward session t r (clash name) f h = tt
Kept-trans outward session t r (registered r' ts) f h =
    λ n s m q. h n s m (add_tool-Routed outward session t r n s m f q)

register_tools-Kept :
    (disabled : List Text) (name : Text) (session : Session) (ts : List Tool) (r : SessionRegistry)
    → Kept r (register_tools disabled name session ts r)
unfolding register_tools
register_tools-Kept disabled name session [] r = λ n s m h. h
register_tools-Kept disabled name session (t ∷ ts) r =
    let outward = outward_name name t.name in
    elim (Bool-cases (has_host disabled outward)) [
      | inl e ↦ rw (e, register_tools) (register_tools-Kept disabled name session ts r)
      | inr e ↦ elim (Option-cases (map_at outward r.by_tool)) [
        | inl f ↦
            rw (e, f, register_tools)
              (keep_tool-Kept t r
                (register_tools disabled name session ts (add_tool outward session t r))
                (Kept-trans outward session t r
                  (register_tools disabled name session ts (add_tool outward session t r)) f
                  (register_tools-Kept disabled name session ts (add_tool outward session t r))))
        | inr (x, f) ↦ rw (e, f, register_tools) tt
      ]
    ]

abbrev Routes : List Text → Text → Session → List Tool → Registered → Type 0
Routes disabled name session ts (clash n) = Unit {0}
Routes disabled name session ts (registered r' kept) = AllRouted disabled name session r' ts

Routes-skip :
    (disabled : List Text) (name : Text) (session : Session) (t : Tool) (ts : List Tool)
    (x : Registered)
    → has_host disabled (outward_name name t.name) ≡ true
    → Routes disabled name session ts x
    → Routes disabled name session (t ∷ ts) x
Routes-skip disabled name session t ts (clash n) e h = tt
Routes-skip disabled name session t ts (registered r' kept) e h = (λ f. cc, h)

Routes-keep :
    (disabled : List Text) (name : Text) (session : Session) (t : Tool) (ts : List Tool)
    (r : SessionRegistry) (x : Registered)
    → Routed r (outward_name name t.name) session t.name
    → Kept r x
    → Routes disabled name session ts x
    → Routes disabled name session (t ∷ ts) (keep_tool t x)
Routes-keep disabled name session t ts r (clash n) q k h = tt
Routes-keep disabled name session t ts r (registered r' kept) q k h =
    (λ f. k (outward_name name t.name) session t.name q, h)

register_tools-Routes :
    (disabled : List Text) (name : Text) (session : Session) (ts : List Tool) (r : SessionRegistry)
    → Routes disabled name session ts (register_tools disabled name session ts r)
unfolding register_tools
register_tools-Routes disabled name session [] r = tt
register_tools-Routes disabled name session (t ∷ ts) r =
    let outward = outward_name name t.name in
    elim (Bool-cases (has_host disabled outward)) [
      | inl e ↦
          rw (e, register_tools)
            (Routes-skip disabled name session t ts (register_tools disabled name session ts r) e
              (register_tools-Routes disabled name session ts r))
      | inr e ↦ elim (Option-cases (map_at outward r.by_tool)) [
        | inl f ↦
            let r' = add_tool outward session t r in
            rw (e, f, register_tools)
              (Routes-keep disabled name session t ts r'
                (register_tools disabled name session ts r') (add_tool_routes outward session t r)
                (register_tools-Kept disabled name session ts r')
                (register_tools-Routes disabled name session ts r'))
        | inr (x, f) ↦ rw (e, f, register_tools) tt
      ]
    ]

In-All-tool :
    (disabled : List Text) (name : Text) (s : Session) (r : SessionRegistry) (t : Tool)
    (ts : List Tool)
    → AllRouted disabled name s r ts
    → In t ts
    → has_host disabled (outward_name name t.name) ≡ false
    → Routed r (outward_name name t.name) s t.name
In-All-tool disabled name s r t ts h i =
    In-All
      (λ (u : Tool).
        has_host disabled (outward_name name u.name) ≡ false
        → Routed r (outward_name name u.name) s u.name)
      t ts h i

AllRouted-mono :
    (disabled : List Text) (name : Text) (s : Session) (r r' : SessionRegistry) (ts : List Tool)
    → ((n : Text) (u : Session) (m : Text) → Routed r n u m → Routed r' n u m)
    → AllRouted disabled name s r ts
    → AllRouted disabled name s r' ts
AllRouted-mono disabled name s r r' [] f h = tt
AllRouted-mono disabled name s r r' (t ∷ ts) f h = (
  λ e. f (outward_name name t.name) s t.name (h.0 e),
  AllRouted-mono disabled name s r r' ts f h.1,
)

module _ (dial : Profile → Option Session) (list_tools : Session → Option (List Tool)) where
  -- What the profile's session lists is routed to it.
  abbrev pub ProfileRouted : List Text → SessionRegistry → Profile → Type 0
  ProfileRouted disabled r p =
      (s : Session) (ts : List Tool)
      → dial p ≡ some s
      → list_tools s ≡ some ts
      → AllRouted disabled p.name s r ts

  abbrev Result : Type 0
  Result = BuildError ⊎ SessionRegistry

  abbrev ResultRouted : List Text → List Profile → SessionRegistry → Result → Type 0
  ResultRouted disabled ps r (inl e) = Unit {0}
  ResultRouted disabled ps r (inr r') =
      ((name : Text) (s : Session) (mcp : Text) → Routed r name s mcp → Routed r' name s mcp)
      × All (ProfileRouted disabled r') ps

  abbrev EachRouted : List Text → List Profile → Type 0
  EachRouted disabled ps =
      (r : SessionRegistry)
      → ResultRouted disabled ps r (build_loop dial list_tools disabled ps r).outcome

  ResultRouted-add :
      (disabled : List Text) (p : Profile) (ps : List Profile) (r r' : SessionRegistry)
      (s : Session) (ts kept : List Tool) (x : Result)
      → dial p ≡ some s
      → list_tools s ≡ some ts
      → Kept r (registered r' kept)
      → AllRouted disabled p.name s r' ts
      → ResultRouted disabled ps (add_entry p s kept r') x
      → ResultRouted disabled (p ∷ ps) r x
  ResultRouted-add disabled p ps r r' s ts kept (inl e) d l k q h = tt
  ResultRouted-add disabled p ps r r' s ts kept (inr r'') d l k q h = (
    λ n t m i. h.0 n t m (k n t m i),
    (
      λ s' ts' d' l'.
          let es : s ≡ s' = ground (arith, d, d') in
          let et : ts ≡ ts' = ground (arith, l, l', es) in
          subst (λ x. AllRouted disabled p.name x r'' ts') es
            (subst (λ y. AllRouted disabled p.name s r'' y) et
              (AllRouted-mono disabled p.name s r' r'' ts h.0 q)),
      h.1,
    ),
  )

  registered-ResultRouted :
      (disabled : List Text) (p : Profile) (ps : List Profile) (r : SessionRegistry) (s : Session)
      (ts : List Tool) (x : Registered)
      → dial p ≡ some s
      → list_tools s ≡ some ts
      → register_tools disabled p.name s ts r ≡ x
      → EachRouted disabled ps
      → ResultRouted disabled (p ∷ ps) r (build_loop dial list_tools disabled (p ∷ ps) r).outcome
  unfolding build_loop
  registered-ResultRouted disabled p ps r s ts (clash name) d l h ih = rw (d, l, h, build_loop) tt
  registered-ResultRouted disabled p ps r s ts (registered r' kept) d l h ih =
      rw (d, l, h, build_loop)
        (ResultRouted-add disabled p ps r r' s ts kept
          (build_loop dial list_tools disabled ps (add_entry p s kept r')).outcome d l
          (subst (Kept r) h (register_tools-Kept disabled p.name s ts r))
          (subst (Routes disabled p.name s ts) h (register_tools-Routes disabled p.name s ts r))
          (ih (add_entry p s kept r')))

  listed-ResultRouted :
      (disabled : List Text) (p : Profile) (ps : List Profile) (r : SessionRegistry) (s : Session)
      (o : Option (List Tool))
      → dial p ≡ some s
      → list_tools s ≡ o
      → EachRouted disabled ps
      → ResultRouted disabled (p ∷ ps) r (build_loop dial list_tools disabled (p ∷ ps) r).outcome
  unfolding build_loop
  listed-ResultRouted disabled p ps r s none d l ih = rw (d, l, build_loop) tt
  listed-ResultRouted disabled p ps r s (some ts) d l ih =
      registered-ResultRouted disabled p ps r s ts (register_tools disabled p.name s ts r) d l refl
        ih

  dialled-ResultRouted :
      (disabled : List Text) (p : Profile) (ps : List Profile) (r : SessionRegistry)
      (o : Option Session)
      → dial p ≡ o
      → EachRouted disabled ps
      → ResultRouted disabled (p ∷ ps) r (build_loop dial list_tools disabled (p ∷ ps) r).outcome
  unfolding build_loop
  dialled-ResultRouted disabled p ps r none d ih = rw (d, build_loop) tt
  dialled-ResultRouted disabled p ps r (some s) d ih =
      listed-ResultRouted disabled p ps r s (list_tools s) d refl ih

  build_loop-ResultRouted : (disabled : List Text) (ps : List Profile) → EachRouted disabled ps
  build_loop-ResultRouted disabled [] r = unfold build_loop in (λ n s m h. h, tt)
  build_loop-ResultRouted disabled (p ∷ ps) r =
      dialled-ResultRouted disabled p ps r (dial p) refl (build_loop-ResultRouted disabled ps)

  -- When a build succeeds, every tool that the session of a profile lists and that is not disabled
  -- is reachable: under its outward name the registry owns it, finds that session, and dispatches
  -- the name that the server gave it. So no two of these tools have one outward name but different
  -- sessions or names.
  pub build_session_registry_reaches :
      (profiles : List Profile) (disabled : List Text) (r : SessionRegistry) (p : Profile)
      (s : Session) (ts : List Tool) (t : Tool)
      → (build_session_registry dial list_tools profiles disabled).outcome ≡ inr r
      → In p profiles
      → dial p ≡ some s
      → list_tools s ≡ some ts
      → In t ts
      → has_host disabled (outward_name p.name t.name) ≡ false
      → (session_for r (outward_name p.name t.name) ≡ some s)
        × (dispatch_name r (outward_name p.name t.name) ≡ t.name)
        × (has_host r.owned (outward_name p.name t.name) ≡ true)
  unfolding session_for dispatch_name
  build_session_registry_reaches [] disabled r p s ts t b i d l j n = elim i [ ]
  build_session_registry_reaches (q ∷ ps) disabled r p s ts t b i d l j n =
      let b' : (build_loop dial list_tools disabled (q ∷ ps) empty_registry).outcome ≡ inr r =
        unfold build_session_registry in b in
      let h =
        subst (ResultRouted disabled (q ∷ ps) empty_registry) b'
          (build_loop-ResultRouted disabled (q ∷ ps) empty_registry) in
      let a = In-All (ProfileRouted disabled r) p (q ∷ ps) h.1 i s ts d l in
      let k = In-All-tool disabled p.name s r t ts a j n in (k.0, rw (k.1, dispatch_name) refl, k.2)
