-- ===== src/RouteContext/Cache.antt =====
-- route_context_cache.go: the bounded cache of route contexts. The map and the LRU list hold the
-- same entries, so they are one list, kept from the back of the LRU list to its front. Byte counts
-- do not overflow. The lock is held over each operation.
pub mod Cases
pub mod Bytes
pub mod Eviction
pub mod Freshness
pub mod Others
pub mod Ideal
pub mod History
use confidential_model_route.Common.{
  ℕ, ◌+◌, ◌-◌, ◌*◌, max, Bool, ◌&&◌, Option, none, some, List, ◌∷◌, ◌++◌, ltb, leb, if◌then◌else◌,
  length, Text, text_eq, [],
}
use confidential_model_route.RouteContext.{
  RouteContext, RouteContextError, empty_context, countdown,
}

-- The SHA-256 digests of the credential and the model.
pub record Key : Type 0 where
  pub credential : Text
  pub model : Text

unfoldable pub key_eq : Key → Key → Bool
key_eq a b = text_eq a.credential b.credential && text_eq a.model b.model

-- `sha256.Sum256` is a parameter.
abbrev pub route_context_key : (Text → Text) → Text → Text → Key
route_context_key sha256 api_key model = record {
  credential = sha256 api_key;
  model = sha256 model;
}

pub record Entry : Type 0 where
  pub key : Key
  pub resolved : RouteContext
  pub error : Option RouteContextError
  pub sequence : ℕ
  pub bytes : ℕ

pub record Cache : Type 0 where
  pub entries : List Entry
  pub bytes : ℕ
  pub max_bytes : ℕ
  pub evicted_sequence : ℕ

unfoldable pub find : Key → List Entry → Option Entry
find k [] = none
find k (e ∷ es) = if key_eq e.key k then some e else find k es

unfoldable pub without : Key → List Entry → List Entry
without k [] = []
without k (e ∷ es) = if key_eq e.key k then es else e ∷ without k es

abbrev pub entry_overhead : ℕ
entry_overhead = 1024

abbrev pub string_overhead : ℕ
string_overhead = 2

unfoldable pub entry_size : RouteContext → Option RouteContextError → ℕ
entry_size resolved err =
    let of_limit : ℕ = elim resolved.rate_limit [
      | none ↦ 0
      | some d ↦ length d.decision + length d.reason
    ] in
    let of_error : ℕ = elim err [
      | none ↦ 0
      | some e ↦
          length e.retry_after
          + length e.api_error.kind
          + length e.api_error.code
          + length e.api_error.param
          + length e.api_error.message
    ] in
    entry_overhead + string_overhead * (length resolved.org_id + of_limit + of_error)

-- The loop that makes room; `none` is the nil dereference of an empty list's back.
unfoldable pub evict : ℕ → ℕ → List Entry → ℕ → ℕ → Option (List Entry × ℕ × ℕ)
evict size limit [] bytes evicted =
    if ltb limit (bytes + size) then none else some ([], bytes, evicted)
evict size limit (e ∷ es) bytes evicted =
    let rest = evict size limit es (bytes - e.bytes) (max evicted e.sequence) in
    if ltb limit (bytes + size) then rest else some (e ∷ es, bytes, evicted)

unfoldable pub insert : Cache → Entry → List Entry → ℕ → Option Cache
unfolding evict
insert c new entries bytes = elim (evict new.bytes c.max_bytes entries bytes c.evicted_sequence) [
  | none ↦ none
  | some (es, b, evicted) ↦
      some
        (record c { entries = es ++ new ∷ []; bytes = b + new.bytes; evicted_sequence = evicted })
]

unfoldable pub put : Key → RouteContext → Option RouteContextError → ℕ → Cache → Option Cache
unfolding entry_size find without insert
put key resolved err sequence c =
    let size = entry_size resolved err in
    let new : Entry = record {
      key = key;
      resolved = resolved;
      error = err;
      sequence = sequence;
      bytes = size;
    } in
    if ltb c.max_bytes size then some c else (elim (find key c.entries) [
      | some e ↦
          if ltb sequence e.sequence
          then some c
          else insert c new (without key c.entries) (c.bytes - e.bytes)
      | none ↦ if leb sequence c.evicted_sequence then some c else insert c new c.entries c.bytes
    ])

-- The answer at `now`, and the cache with the entry moved to the front; `none` is a nil dereference.
unfoldable pub get : ℕ → Key → Cache → Option ((RouteContext × Option RouteContextError) × Cache)
unfolding find without countdown
get now key c = elim (find key c.entries) [
  | none ↦ some ((empty_context, none), c)
  | some e ↦
      let c' = record c { entries = without key c.entries ++ e ∷ [] } in
      elim e.resolved.rate_limit [
        | none ↦ some ((e.resolved, e.error), c')
        | some d ↦ elim (countdown now d) [
          | none ↦ none
          | some left ↦ some ((record e.resolved { rate_limit = left }, e.error), c')
        ]
      ]
]
