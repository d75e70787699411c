-- ===== src/Autoroute/Effort.antt =====
-- autoroute/autoroute.go: the reasoning setting of the chosen candidate, written into the body.
pub mod Strip
use confidential_model_route.Common.{
  ℕ, zero, suc, ◌+◌, ◌-◌, ◌*◌, ◌/◌, ◌%◌, ◌^◌, ◌≤◌, ◌<◌, min, max, String, ◌≡◌, refl, sym, ap, ◌∙◌,
  ◌≢◌, ◌↔◌, ◌⊎◌, inl, inr, Bool, true, false, not, ◌&&◌, ◌||◌, Option, none, some, List, [], ◌∷◌,
  ◌++◌, map, arith, ltb, leb, ◌==◌, if◌then◌else◌, ltb→lt, lt→ltb, leb→le, le→leb, ==_iff,
  Bool-cases, Option-cases, length, get_elem?, take, drop, length-append, length-take, filter, All,
  All-append, All-mono, In, In-All, keep, In-filter, filter-In, In-append, append-In, not-In_empty,
  if-either, Text, text, text_eq, has_host, map_at, map_put, text_lt, text_eq-eq, text_eq_refl,
  text_eq_iff, text_lt_irrefl, text_lt_trans, text_lt_total,
}
use confidential_model_route.Json.{
  Value, Items, Fields, null, bool, number, float, str, int, arr, obj, nil, cons, end, field,
  lookup, remove, assign,
}

-- A nil map is `none`.
pub record EndpointParams : Type 0 where
  pub enable : Option Fields
  pub disable : Option Fields

pub record Reasoning : Type 0 where
  pub params : List (Text × EndpointParams)
  pub effort_map : List (Text × Text)

abbrev pub client_effort_field : Text
client_effort_field = text "reasoning_effort"

abbrev pub client_reasoning_field : Text
client_reasoning_field = text "reasoning"

abbrev pub client_effort_key : Text
client_effort_key = text "effort"

-- `nativeEffort`
unfoldable pub native_effort : Reasoning → Text → Text
unfolding map_at
native_effort r effort = elim (map_at effort r.effort_map) [ none ↦ effort | some e ↦ e ]

-- `substituteEffort`, a deep copy
unfoldable mutual
  unfolding text_eq

  pub substitute_effort : Text → Value → Value
  substitute_effort native (str s) = if text_eq s (text "$EFFORT") then str native else str s
  substitute_effort native (obj m) = obj (substitute_fields native m)
  substitute_effort native (arr vs) = arr (substitute_items native vs)
  substitute_effort native null = null
  substitute_effort native (bool b) = bool b
  substitute_effort native (number t) = number t
  substitute_effort native (float t) = float t
  substitute_effort native (int n) = int n

  pub substitute_items : Text → Items → Items
  substitute_items native nil = nil
  substitute_items native (cons v vs) =
      cons (substitute_effort native v) (substitute_items native vs)

  pub substitute_fields : Text → Fields → Fields
  substitute_fields native end = end
  substitute_fields native (field k v m) =
      field k (substitute_effort native v) (substitute_fields native m)

-- The map that a value is merged into: the one at `dst[key]`, or a new one.
abbrev pub map_of : Option Value → Fields
map_of (some (obj m)) = m
map_of v = end

-- `mergeInto`; `merge_value` is what becomes of a key's value.
unfoldable mutual
  unfolding lookup assign

  pub merge_into : Fields → Fields → Fields
  merge_into dst end = dst
  merge_into dst (field k v rest) = merge_into (assign k (merge_value (lookup k dst) v) dst) rest

  pub merge_value : Option Value → Value → Value
  merge_value old (obj src) = obj (merge_into (map_of old) src)
  merge_value old (str s) = str s
  merge_value old (arr vs) = arr vs
  merge_value old null = null
  merge_value old (bool b) = bool b
  merge_value old (number t) = number t
  merge_value old (float t) = float t
  merge_value old (int n) = int n

-- `effort` within `reasoning`, taken out; `reasoning` goes where nothing else is in it.
unfoldable pub strip_reasoning : Fields → Fields
unfolding lookup remove assign
strip_reasoning body = elim (lookup client_reasoning_field body) [
  | some (obj m) ↦ elim (remove client_effort_key m) [
    | end ↦ remove client_reasoning_field body
    | field k v m' ↦ assign client_reasoning_field (obj (field k v m')) body
  ]
  | _ ↦ body
]

-- The client's effort fields, taken out.
unfoldable pub strip_client_effort : Fields → Fields
unfolding strip_reasoning remove
strip_client_effort body = strip_reasoning (remove client_effort_field body)

abbrev pub fields_or_empty : Option Fields → Fields
fields_or_empty none = end
fields_or_empty (some m) = m

-- The fragment for an effort.
unfoldable pub fragment_for : Reasoning → EndpointParams → Text → Option Fields
unfolding native_effort substitute_fields text_eq
fragment_for r endpoint effort =
    if text_eq effort (text "off")
    then endpoint.disable
    else let native =
        native_effort r (if text_eq effort (text "on") then text "high" else effort) in
      some (substitute_fields native (fields_or_empty endpoint.enable))

-- `ApplyEffort` for a candidate with this reasoning and effort.
unfoldable pub apply_effort : Text → Option Reasoning → Text → Fields → Fields
unfolding strip_client_effort fragment_for merge_into map_at
apply_effort path none effort body = strip_client_effort body
apply_effort path (some r) effort body = elim (map_at path r.params) [
  | none ↦ strip_client_effort body
  | some endpoint ↦ elim (fragment_for r endpoint effort) [
    | none ↦ strip_client_effort body
    | some fragment ↦ merge_into (strip_client_effort body) fragment
  ]
]
