-- ===== src/Sessions/Closing.antt =====
-- toolruntime/session_registry.go: no session leaks.
use mathlib.Core.Path.{subst}
use mathlib.Core.List.{append_assoc, append-nil, map-append}
use confidential_model_route.Common.{
  ◌≡◌, refl, sym, ap, ◌∙◌, ◌⊎◌, inl, inr, Option, none, some, List, [], ◌∷◌, ◌++◌, Bool-cases,
  Option-cases, In, In-append, append-In, Text, has_host, map_at,
}
use confidential_model_route.Sessions.{
  Profile, Tool, Session, SessionEntry, SessionRegistry, empty_registry, BuildError, close_all,
  sessions_of, add_tool, Registered, clash, registered, keep_tool, register_tools, add_entry, Built,
  failed, after_open, build_loop, build_session_registry, outward_name, dial_failed,
}

-- Registering tools leaves the entries alone.
abbrev KeepsEntries : List SessionEntry → Registered → Type 0
KeepsEntries es (clash name) = Unit {0}
KeepsEntries es (registered r ts) = r.entries ≡ es

keep_tool-KeepsEntries :
    (t : Tool) (es : List SessionEntry) (x : Registered)
    → KeepsEntries es x
    → KeepsEntries es (keep_tool t x)
keep_tool-KeepsEntries t es (clash name) h = tt
keep_tool-KeepsEntries t es (registered r ts) h = h

register_tools-KeepsEntries :
    (disabled : List Text) (name : Text) (session : Session) (ts : List Tool) (r : SessionRegistry)
    → KeepsEntries r.entries (register_tools disabled name session ts r)
unfolding register_tools
register_tools-KeepsEntries disabled name session [] r = refl
register_tools-KeepsEntries disabled name session (t ∷ ts) r =
    let outward = outward_name name t.name in
    elim (Bool-cases (has_host disabled outward)) [
      | inl e ↦ rw (e, register_tools) (register_tools-KeepsEntries disabled name session ts r)
      | inr e ↦ elim (Option-cases (map_at outward r.by_tool)) [
        | inl f ↦
            rw (e, f, register_tools)
              (keep_tool-KeepsEntries t r.entries
                (register_tools disabled name session ts (add_tool outward session t r))
                (register_tools-KeepsEntries disabled name session ts
                  (add_tool outward session t r)))
        | inr (x, f) ↦ rw (e, f, register_tools) tt
      ]
    ]

abbrev pub SameSessions : List Session → List Session → Type 0
SameSessions xs ys = (s : Session) → (In s xs → In s ys) × (In s ys → In s xs)

SameSessions-last : (s : Session) (xs : List Session) → SameSessions (s ∷ xs) (xs ++ s ∷ [])
SameSessions-last s xs k = (
  λ i. elim i [
    | inl e ↦ append-In k xs (s ∷ []) (inr (inl e))
    | inr j ↦ append-In k xs (s ∷ []) (inl j)
  ],
  λ i. elim (In-append k xs (s ∷ []) i) [
    | inl j ↦ inr j
    | inr (inl e) ↦ inl e
    | inr (inr j) ↦ elim j [ ]
  ],
)

-- A failure closes what was open; a success closes nothing and has what was open.
abbrev pub Accounted : List Session → List Session → BuildError ⊎ SessionRegistry → Type 0
Accounted all closed (inl e) = SameSessions closed all
Accounted all closed (inr r) = (closed ≡ []) × (sessions_of r.entries ≡ all)

Accounted-failed :
    (e : BuildError) (before : List Session)
    → Accounted
        (before ++ (failed e before).opened)
        (failed e before).closed
        (failed e before).outcome
Accounted-failed e before = rw (append-nil before) (λ s. (λ i. i, λ i. i))

module _ (dial : Profile → Option Session) (list_tools : Session → Option (List Tool)) where
  abbrev AccountedFor : List Session → Built → Type 0
  AccountedFor before b = Accounted (before ++ b.opened) b.closed b.outcome

  abbrev EachAccounted : List Text → List Profile → Type 0
  EachAccounted disabled ps =
      (r : SessionRegistry)
      → AccountedFor (sessions_of r.entries) (build_loop dial list_tools disabled ps r)

  after_open-AccountedFor :
      (es : List SessionEntry) (p : Profile) (s : Session) (ts : List Tool) (b : Built)
      → AccountedFor (sessions_of (es ++ record { profile = p; session = s; tools = ts } ∷ [])) b
      → AccountedFor (sessions_of es) (after_open s b)
  after_open-AccountedFor es p s ts b h =
      subst (λ xs. Accounted xs b.closed b.outcome)
        (ap (λ xs. xs ++ b.opened)
            (map-append (λ (e : SessionEntry). e.session) es
              (record { profile = p; session = s; tools = ts } ∷ []))
          ∙ append_assoc (sessions_of es) (s ∷ []) b.opened)
        h

  registered-AccountedFor :
      (disabled : List Text) (p : Profile) (ps : List Profile) (r : SessionRegistry) (s : Session)
      (ts : List Tool) (x : Registered)
      → dial p ≡ some s
      → list_tools s ≡ some ts
      → register_tools disabled p.name s ts r ≡ x
      → EachAccounted disabled ps
      → AccountedFor (sessions_of r.entries) (build_loop dial list_tools disabled (p ∷ ps) r)
  unfolding build_loop close_all
  registered-AccountedFor disabled p ps r s ts (clash name) d l h ih =
      rw (d, l, h, build_loop) (SameSessions-last s (sessions_of r.entries))
  registered-AccountedFor disabled p ps r s ts (registered r' kept) d l h ih =
      let r'' = add_entry p s kept r' in
      let k : r'.entries ≡ r.entries =
        subst (KeepsEntries r.entries) h (register_tools-KeepsEntries disabled p.name s ts r) in
      rw (d, l, h, build_loop)
        (after_open-AccountedFor r.entries p s kept (build_loop dial list_tools disabled ps r'') (
          subst
            (λ es.
              AccountedFor
                (sessions_of (es ++ record { profile = p; session = s; tools = kept } ∷ []))
                (build_loop dial list_tools disabled ps r''))
            k (ih r'')))

  listed-AccountedFor :
      (disabled : List Text) (p : Profile) (ps : List Profile) (r : SessionRegistry) (s : Session)
      (o : Option (List Tool))
      → dial p ≡ some s
      → list_tools s ≡ o
      → EachAccounted disabled ps
      → AccountedFor (sessions_of r.entries) (build_loop dial list_tools disabled (p ∷ ps) r)
  unfolding build_loop close_all
  listed-AccountedFor disabled p ps r s none d l ih =
      rw (d, l, build_loop) (SameSessions-last s (sessions_of r.entries))
  listed-AccountedFor disabled p ps r s (some ts) d l ih =
      registered-AccountedFor disabled p ps r s ts (register_tools disabled p.name s ts r) d l refl
        ih

  dialled-AccountedFor :
      (disabled : List Text) (p : Profile) (ps : List Profile) (r : SessionRegistry)
      (o : Option Session)
      → dial p ≡ o
      → EachAccounted disabled ps
      → AccountedFor (sessions_of r.entries) (build_loop dial list_tools disabled (p ∷ ps) r)
  unfolding build_loop close_all
  dialled-AccountedFor disabled p ps r none d ih =
      rw (d, build_loop) (Accounted-failed (dial_failed p) (sessions_of r.entries))
  dialled-AccountedFor disabled p ps r (some s) d ih =
      listed-AccountedFor disabled p ps r s (list_tools s) d refl ih

  build_loop-AccountedFor : (disabled : List Text) (ps : List Profile) → EachAccounted disabled ps
  build_loop-AccountedFor disabled [] r =
      unfold build_loop in (refl, sym (append-nil (sessions_of r.entries)))
  build_loop-AccountedFor disabled (p ∷ ps) r =
      dialled-AccountedFor disabled p ps r (dial p) refl (build_loop-AccountedFor disabled ps)

  -- The sessions that a build opens are accounted for: when it fails, whether on dialling, on
  -- listing tools or on a clash of names, exactly the sessions opened are closed; when it succeeds,
  -- none is closed, and the registry holds them all.
  pub build_session_registry-Accounted :
      (profiles : List Profile) (disabled : List Text)
      → let b = build_session_registry dial list_tools profiles disabled in
        Accounted b.opened b.closed b.outcome
  build_session_registry-Accounted [] disabled =
      unfold build_session_registry in λ s. (λ i. i, λ i. i)
  build_session_registry-Accounted (p ∷ ps) disabled =
      unfold build_session_registry in build_loop-AccountedFor disabled (p ∷ ps) empty_registry
