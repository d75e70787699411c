-- ===== src/CacheRoute/Eligibility.antt =====
-- cacheroute/cacheroute.go: the settings of a model and the eligibility of a request. SHA-256 is the
-- parameter `digest`. The recovered panics and the time measurements are left out.
use confidential_model_route.Common.{
  ℕ, suc, ◌+◌, ◌*◌, Bool, true, false, ◌&&◌, Option, none, some, ◌∷◌, ltb, if◌then◌else◌, length,
  Text, text, text_eq, [],
}
use confidential_model_route.Common.Int.{ℤ, pos, negsuc, pos_part, ltℤ, leℤ}
use confidential_model_route.Json.{
  Value, null, bool, number, float, str, int, arr, obj, Items, nil, cons, Fields, end, field,
  string_at, value_at,
}
use confidential_model_route.CacheRoute.{
  path_responses, path_completions, prompt_fields, key_payload,
}

pub data RouteMode : Type 0 where
  mode_off mode_shadow mode_enforced : RouteMode

pub resolve_mode : Text → RouteMode
resolve_mode raw =
    if text_eq raw (text "shadow")
    then mode_shadow
    else if text_eq raw (text "enforced")
    then mode_enforced
    else mode_off

-- Rates in multiples of 1/60,000,000,000 request per minute.
pub record Settings : Type 0 where
  pub mode : RouteMode
  pub retention : ℕ
  pub min_prompt_bytes : ℕ
  pub split_threshold_rpm : ℕ
  pub max_inflight_delta : ℤ
  pub secret : Text

pub record CacheRouteConfig : Type 0 where
  pub mode : Text
  pub retention_window_minutes : ℤ
  pub min_prompt_bytes : ℤ
  pub split_threshold_rpm : ℤ
  pub max_inflight_delta : Option ℤ

abbrev pub minute : ℕ
minute = 60_000_000_000

abbrev pub default_settings : Text → Settings
default_settings secret = record {
  mode = mode_off;
  retention = 10 * minute;
  min_prompt_bytes = 4096;
  split_threshold_rpm = 15 * minute;
  max_inflight_delta = negsuc 0;
  secret = secret;
}

abbrev pub positive_or : ℕ → ℤ → ℕ
positive_or d (pos (suc n)) = suc n
positive_or d _ = d

-- `SettingsFrom`, for the secret that is installed
unfoldable pub settings_from : Text → Option CacheRouteConfig → Settings
unfolding resolve_mode
settings_from secret none = default_settings secret
settings_from secret (some c) = record {
  mode = resolve_mode c.mode;
  retention =
      if ltℤ (pos 0) c.retention_window_minutes
      then pos_part c.retention_window_minutes * minute
      else 10 * minute;
  min_prompt_bytes = positive_or 4096 c.min_prompt_bytes;
  split_threshold_rpm = positive_or (15 * minute) c.split_threshold_rpm;
  max_inflight_delta = elim c.max_inflight_delta [
    | none ↦ negsuc 0
    | some d ↦ if leℤ (pos 0) d then d else negsuc 0
  ];
  secret = secret;
}

-- `valueLen`
unfoldable mutual
  pub value_len : Value → ℕ
  value_len null = 0
  value_len (bool x) = 0
  value_len (number s) = 0
  value_len (float s) = 0
  value_len (str s) = length s
  value_len (int n) = 0
  value_len (arr xs) = items_len xs
  value_len (obj m) = fields_len m

  pub items_len : Items → ℕ
  items_len nil = 0
  items_len (cons x xs) = value_len x + items_len xs

  pub fields_len : Fields → ℕ
  fields_len end = 0
  fields_len (field k v m) = value_len v + fields_len m

unfoldable pub contents_len : Items → ℕ
contents_len nil = 0
contents_len (cons (obj m) xs) = value_len (value_at (text "content") m) + contents_len xs
contents_len (cons _ xs) = contents_len xs

unfoldable pub message_content_len : Value → ℕ
unfolding contents_len value_len
message_content_len (arr xs) = contents_len xs
message_content_len v = value_len v

unfoldable pub prompt_len : Fields → Text → ℕ
unfolding message_content_len
prompt_len body path =
    let n = value_len (value_at (text "tools") body) in
    if text_eq path path_responses
    then n
      + value_len (value_at (text "instructions") body)
      + message_content_len (value_at (text "input") body)
    else if text_eq path path_completions
    then n + value_len (value_at (text "prompt") body)
    else n + message_content_len (value_at (text "messages") body)

pub data Outcome : Type 0 where
  keyed no_salt no_prefix below_floor pool_too_small panicked : Outcome

pub record Request : Type 0 where
  pub outcome : Outcome
  pub key : Text
  pub prompt_bytes : ℕ

abbrev pub is_null : Value → Bool
is_null null = true
is_null _ = false

abbrev pub is_blank : Text → Bool
is_blank [] = true
is_blank (c ∷ cs) = false

unfoldable pub extract_request : (Text → Text) → Fields → Text → Text → Settings → Request
extract_request digest body path salt s =
    let prompt_cache_key = string_at (text "prompt_cache_key") body in
    let f = prompt_fields body path in
    let bytes = prompt_len body path in
    if is_blank salt
    then record { outcome = no_salt; key = []; prompt_bytes = bytes }
    else if is_null f.tools && is_null f.system && is_null f.user && is_blank prompt_cache_key
    then record { outcome = no_prefix; key = []; prompt_bytes = bytes }
    else if ltb bytes s.min_prompt_bytes && is_blank prompt_cache_key
    then record { outcome = below_floor; key = []; prompt_bytes = bytes }
    else record {
      outcome = keyed;
      key = digest (key_payload s.secret salt prompt_cache_key f);
      prompt_bytes = bytes;
    }
